-- ===== src/Ctl.antt =====
-- ipfs-cluster-ctl/main.go: the commands, their requests to the REST API, and the answers.
pub mod Formatters
pub mod Panics
use ipfs_cluster.Common.{
  ℕ, String, Bool, true, false, Option, none, some, List, [], ◌∷◌, ◌==◌, ◌<>◌, eqb, ltb,
  if◌then◌else◌,
}
use ipfs_cluster.Common.Result.{Error, Result, ok, err, wrap, ◌>>=◌}
use ipfs_cluster.External.{Codecs}
use ipfs_cluster.Ctl.Formatters.{
  Bytes, Printed, exited, say, end_with, and_then, check_err, Format, Json, text_format,
}

-- A command, with its first argument, which is "" if there is none.
pub data Command : Type 0 where
  id : Command
  peers_ls : Command
  peers_add : String → Command
  peers_rm : String → Command
  pin_add : String → Command
  pin_rm : String → Command
  pin_ls : Command
  status : String → Command
  sync : String → Command
  recover : String → Command
  version : Command

-- A call of `request`, and if its answer is given to `formatResponse`.
pub record Action : Type 0 where
  pub method : String
  pub path : String
  pub body : Option String
  pub is_shown : Bool

abbrev pub shown : String → String → Action
shown method path = record { method = method; path = path; body = none; is_shown = true }

abbrev pub parse_as : Command → Format
parse_as Command.id = Format.id
parse_as Command.peers_ls = Format.id
parse_as (Command.peers_add a) = Format.id
parse_as (Command.peers_rm a) = Format.none_of
parse_as (Command.pin_add a) = Format.gp_info
parse_as (Command.pin_rm a) = Format.gp_info
parse_as Command.pin_ls = Format.cid_arg
parse_as (Command.status a) = Format.gp_info
parse_as (Command.sync a) = Format.gp_info
parse_as (Command.recover a) = Format.gp_info
parse_as Command.version = Format.version

-- the options `encoding`, `https` and `host`
pub record Options : Type 0 where
  pub encoding : String
  pub protocol : String
  pub host : String

-- net/http: what `NewRequest` rejects a method and a URL with, and the status code of the answer and
-- its body, if it can be read. `encode_add_body` is the
-- JSON form of a `peerAddBody`, `trim_suffix` is strings.TrimSuffix.
pub record Client (W : Type 0) : Type 0 where
  pub new_request_error : String → String → Option Error
  pub do_request : String → String → Option String → W → Result (ℕ × Result Bytes) × W
  pub encode_add_body : String → String
  pub error_resp_of : Bytes → Result (ℕ × String)
  pub indent : Bytes → Result String
  pub trim_suffix : String → String → String

-- `checkErr` of a parsed argument, and what follows
abbrev pub parsed : {A : Type 0} → String → Result A → List Action → Result (List Action)
parsed doing res next = wrap (λ e. "error " <> doing <> ": " <> e <> "\n") res >>= λ a. ok next

module _ {Cid Addr W : Type 0} (x : Codecs Cid Addr) (client : Client W) (j : Json)
    (o : Options) where
  open client use {
    new_request_error, do_request, encode_add_body, error_resp_of, indent, trim_suffix,
  }
  open x use {cid_decode, b58_decode, new_multiaddr}

  -- The requests of a command, or the message with which it ends before them.
  unfoldable pub actions : Command → Result (List Action)
  actions Command.id = ok (shown "GET" "/id" ∷ [])
  actions Command.peers_ls = ok (shown "GET" "/peers" ∷ [])
  actions (Command.peers_add addr) =
      if addr == ""
      then err "Error: a multiaddress argument is needed"
      else parsed "parsing multiaddress" (new_multiaddr addr)
          (record (shown "POST" "/peers") { body = some (encode_add_body addr) } ∷ [])
  actions (Command.peers_rm pid) =
      parsed "parsing peer ID" (b58_decode pid) (shown "DELETE" ("/peers/" <> pid) ∷ [])
  actions (Command.pin_add cid_str) =
      parsed "parsing cid" (cid_decode cid_str)
        (shown "POST" ("/pins/" <> cid_str) ∷ shown "GET" ("/pins/" <> cid_str) ∷ [])
  actions (Command.pin_rm cid_str) = parsed "parsing cid" (cid_decode cid_str) (
      record (shown "DELETE" ("/pins/" <> cid_str)) { is_shown = false }
      ∷ shown "GET" ("/pins/" <> cid_str)
      ∷ [])
  actions Command.pin_ls = ok (shown "GET" "/pinlist" ∷ [])
  actions (Command.status cid_str) =
      let next : List Action = shown "GET" ("/pins/" <> cid_str) ∷ [] in
      if cid_str == "" then ok next else parsed "parsing cid" (cid_decode cid_str) next
  actions (Command.sync cid_str) =
      if cid_str == ""
      then ok (shown "POST" "/pins/sync" ∷ [])
      else parsed "parsing cid" (cid_decode cid_str)
          (shown "POST" ("/pins/" <> cid_str <> "/sync") ∷ [])
  actions (Command.recover cid_str) =
      if cid_str == ""
      then err "A CID is required"
      else parsed "parsing cid" (cid_decode cid_str)
          (shown "POST" ("/pins/" <> cid_str <> "/recover") ∷ [])
  actions Command.version = ok (shown "GET" "/version" ∷ [])

  -- the URL of `request`; no command gives it parameters for the path
  abbrev pub url_of : String → String
  url_of path = trim_suffix (o.protocol <> "://" <> o.host <> path) "/"

  abbrev pretty_print : Bytes → Printed
  pretty_print body = check_err "indenting json" (indent body) (λ s. say (s ∷ []))

  unfoldable pub format_response : Format → ℕ → Result Bytes → Printed
  unfolding text_format
  format_response format code res = check_err "reading body" res (λ body.
      if ltb 399 code
      then check_err "decoding error response" (error_resp_of body)
          (λ (c, m). say (("Error " <> j.show_nat c <> ": " <> m) ∷ []))
      else if eqb code 202
      then say ("Request accepted" ∷ [])
      else if eqb code 204
      then say ("Request succeeded\n" ∷ [])
      else if o.encoding == "text"
      then text_format j body format
      else check_err "decoding response" (j.show_any body) (λ s. pretty_print body))

  -- `request`, and `formatResponse` of its answer
  unfoldable pub perform : Format → Action → W → Printed × W
  unfolding format_response
  perform format a w = elim (new_request_error a.method (url_of a.path)) [
    | some e ↦ (end_with (exited ("error creating request: " <> e <> "\n")), w)
    | none ↦
        let (res, w') = do_request a.method (url_of a.path) a.body w in
        (
          check_err ("performing request to " <> o.host) res
              (λ (code, body). if a.is_shown then format_response format code body else say []),
          w',
        )
  ]

  unfoldable pub perform_all : Format → List Action → W → Printed × W
  unfolding perform
  perform_all format [] w = (say [], w)
  perform_all format (a ∷ rest) w =
      let (first, w') = perform format a w in
      let (later, w'') = perform_all format rest w' in
      (and_then first later, elim first.ended [ none ↦ w'' | some e ↦ w' ])

  unfoldable pub run_command : Command → W → Printed × W
  unfolding actions perform_all
  run_command c w = elim (actions c) [
    | err e ↦ (end_with (exited e), w)
    | ok next ↦ perform_all (parse_as c) next w
  ]
