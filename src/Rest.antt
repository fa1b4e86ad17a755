-- ===== src/Rest.antt =====
-- rest_api.go: the HTTP handlers of the REST API and their routes. The router and the server are
-- not modelled; a handler is run on the variables and the body of a request.
pub mod Responses
use ipfs_cluster.Common.{
  String, Bool, true, false, not, Option, none, some, List, [], ◌∷◌, ℕ, ◌<>◌, ◌==◌, if◌then◌else◌,
}
use ipfs_cluster.Common.Int.{ℤ}
use ipfs_cluster.Common.Result.{Error, Result, ok, err, ◌>>=◌}
use ipfs_cluster.External.{Codecs, PeerId}
use ipfs_cluster.Api.Types.{CidArgSerial, GlobalPinInfoSerial}
use ipfs_cluster.Api.Ids.{IdSerial, multiaddr_to_serial}
use ipfs_cluster.Ipfs.{ListenOps, host_port}

-- The fields that the methods read or write; `closed` says that the channel `rpcReady` is closed.
pub record RestApi (Addr : Type 0) : Type 0 where
  pub api_addr : Addr
  pub listen_addr : String
  pub listen_port : ℤ
  pub closed : Bool
  pub shutdown : Bool

unfoldable pub new_rest_api : {Addr : Type 0} → ListenOps Addr → Addr → Result (RestApi Addr)
unfolding host_port
new_rest_api o addr = do
  (host, port) ← host_port o addr
  l ← o.listen (host <> ":" <> o.show_port port)
  ok (record {
    api_addr = addr;
    listen_addr = host;
    listen_port = port;
    closed = false;
    shutdown = false;
  })

unfoldable pub shutdown_rest : {Addr : Type 0} → RestApi Addr → RestApi Addr
shutdown_rest rest = if rest.shutdown then rest else record rest { closed = true; shutdown = true }

-- What is written: a status code, then a JSON value or nothing.
pub data Body : Type 0 where
  empty : Body
  error_resp : ℕ → Error → Body
  id_resp : IdSerial → Body
  version_resp : String → Body
  ids_resp : List IdSerial → Body
  pins_resp : List CidArgSerial → Body
  pin_resp : GlobalPinInfoSerial → Body
  pin_infos_resp : List GlobalPinInfoSerial → Body

pub record Response : Type 0 where
  pub code : ℕ
  pub body : Body

-- What the handlers read of a request: `mux.Vars(r)["hash"]` and `["peer"]`, and the body.
pub record Request : Type 0 where
  pub hash : String
  pub peer : String
  pub body : String

-- The calls of the handlers to the RPC API of their own peer.
pub record ClusterRpc (W : Type 0) : Type 0 where
  pub id : W → Result IdSerial × W
  pub version : W → Result String × W
  pub peers : W → Result (List IdSerial) × W
  pub peer_add : String → W → Result IdSerial × W
  pub peer_remove : PeerId → W → Option Error × W
  pub pin : CidArgSerial → W → Option Error × W
  pub unpin : CidArgSerial → W → Option Error × W
  pub pin_list : W → Result (List CidArgSerial) × W
  pub status_all : W → Result (List GlobalPinInfoSerial) × W
  pub sync_all : W → Result (List GlobalPinInfoSerial) × W
  pub status : CidArgSerial → W → Result GlobalPinInfoSerial × W
  pub sync : CidArgSerial → W → Result GlobalPinInfoSerial × W
  pub recover : CidArgSerial → W → Result GlobalPinInfoSerial × W

unfoldable pub send_error_response : ℕ → Error → Response
send_error_response code msg = record { code = code; body = Body.error_resp code msg }

-- `sendResponse` of a result, `sendEmptyResponse` and `sendAcceptedResponse`
unfoldable pub send_response : {A : Type 0} → (A → Body) → Result A → Response
unfolding send_error_response
send_response f (ok resp) = record { code = 200; body = f resp }
send_response f (err e) = send_error_response 500 e

unfoldable pub send_code : ℕ → Option Error → Response
unfolding send_error_response
send_code code none = record { code = code; body = Body.empty }
send_code code (some e) = send_error_response 500 e

abbrev pub send_empty_response : Option Error → Response
send_empty_response e = send_code 204 e

abbrev pub send_accepted_response : Option Error → Response
send_accepted_response e = send_code 202 e

-- A handler writes a response, or nothing.
abbrev pub Handler : Type 0 → Type 0
Handler W = Request → W → Option Response × W

-- a handler that makes one call and sends what it returns
abbrev pub replying : {A W : Type 0} → (A → Body) → (W → Result A × W) → Handler W
replying f call r w = let (res, w') = call w in (some (send_response f res), w')

pub record Route (W : Type 0) : Type 0 where
  pub name : String
  pub method : String
  pub pattern : String
  pub handler_func : Handler W

abbrev pub route : {W : Type 0} → String → String → String → Handler W → Route W
route name method pattern f = record {
  name = name;
  method = method;
  pattern = pattern;
  handler_func = f;
}

module _ {Cid Addr : Type 0} (x : Codecs Cid Addr) where
  open x use {cid_decode, b58_decode}

  -- the argument, and the error response that has been sent, if there is one
  unfoldable pub parse_cid_or_error : Request → CidArgSerial × Option Response
  unfolding send_error_response
  parse_cid_or_error r = elim (cid_decode r.hash) [
    | ok c ↦ (record { cid = r.hash; allocations = []; everywhere = false }, none)
    | err e ↦ (
      record { cid = ""; allocations = []; everywhere = false },
      some (send_error_response 400 ("error decoding Cid: " <> e)),
    )
  ]

  unfoldable pub parse_pid_or_error : Request → PeerId × Option Response
  unfolding send_error_response
  parse_pid_or_error r = elim (b58_decode r.peer) [
    | ok pid ↦ (pid, none)
    | err e ↦ ("", some (send_error_response 400 ("error decoding Peer ID: " <> e)))
  ]

  -- `if c := parseCidOrError(w, r); c.Cid != "" { ... }`, with the call and its response
  unfoldable pub with_cid : {W : Type 0} → (CidArgSerial → W → Response × W) → Handler W
  unfolding parse_cid_or_error
  with_cid k r w =
      let (c, sent) = parse_cid_or_error r in
      if c.cid == "" then (sent, w) else (let (resp, w') = k c w in (some resp, w'))

abbrev pub accepting :
    {W : Type 0} → (CidArgSerial → W → Option Error × W) → CidArgSerial → W → Response × W
accepting call c w = let (e, w') = call c w in (send_accepted_response e, w')

abbrev pub sending :
    {W : Type 0}
    → (CidArgSerial → W → Result GlobalPinInfoSerial × W)
    → CidArgSerial
    → W
    → Response × W
sending call c w = let (res, w') = call c w in (send_response Body.pin_resp res, w')

module _ {Cid Addr W : Type 0} (x : Codecs Cid Addr) (rpc : ClusterRpc W)
    (decode_add_body : String → Result String) where
  open x use {cid_decode, b58_decode, new_multiaddr}

  abbrev pub id_handler : Handler W
  id_handler = replying Body.id_resp rpc.id

  abbrev pub version_handler : Handler W
  version_handler = replying Body.version_resp rpc.version

  abbrev pub peer_list_handler : Handler W
  peer_list_handler = replying Body.ids_resp rpc.peers

  unfoldable pub peer_add_handler : Handler W
  unfolding multiaddr_to_serial send_response send_error_response
  peer_add_handler r w = elim (decode_add_body r.body) [
    | err e ↦ (some (send_error_response 400 "error decoding request body"), w)
    | ok peer_multiaddr ↦ elim (new_multiaddr peer_multiaddr) [
      | err e ↦ (some (send_error_response 400 "error decoding peer_multiaddress"), w)
      | ok m_addr ↦
          let (res, w') = rpc.peer_add (multiaddr_to_serial x m_addr) w in
          (some (send_response Body.id_resp res), w')
    ]
  ]

  unfoldable pub peer_remove_handler : Handler W
  unfolding parse_pid_or_error send_code
  peer_remove_handler r w =
      let (p, sent) = parse_pid_or_error x r in
      if p == ""
      then (sent, w)
      else (let (e, w') = rpc.peer_remove p w in (some (send_empty_response e), w'))

  unfoldable pub pin_handler : Handler W
  unfolding with_cid send_code
  pin_handler = with_cid x (accepting rpc.pin)

  unfoldable pub unpin_handler : Handler W
  unfolding with_cid send_code
  unpin_handler = with_cid x (accepting rpc.unpin)

  abbrev pub pin_list_handler : Handler W
  pin_list_handler = replying Body.pins_resp rpc.pin_list

  abbrev pub status_all_handler : Handler W
  status_all_handler = replying Body.pin_infos_resp rpc.status_all

  abbrev pub sync_all_handler : Handler W
  sync_all_handler = replying Body.pin_infos_resp rpc.sync_all

  unfoldable pub status_handler : Handler W
  unfolding with_cid send_response
  status_handler = with_cid x (sending rpc.status)

  unfoldable pub sync_handler : Handler W
  unfolding with_cid send_response
  sync_handler = with_cid x (sending rpc.sync)

  unfoldable pub recover_handler : Handler W
  unfolding with_cid send_response
  recover_handler = with_cid x (sending rpc.recover)

  unfoldable pub routes : List (Route W)
  unfolding peer_add_handler peer_remove_handler pin_handler unpin_handler status_handler
      sync_handler recover_handler
  routes =
      route "ID" "GET" "/id" id_handler
      ∷ route "Version" "GET" "/version" version_handler
      ∷ route "Peers" "GET" "/peers" peer_list_handler
      ∷ route "PeerAdd" "POST" "/peers" peer_add_handler
      ∷ route "PeerRemove" "DELETE" "/peers/{peer}" peer_remove_handler
      ∷ route "Pins" "GET" "/pinlist" pin_list_handler
      ∷ route "StatusAll" "GET" "/pins" status_all_handler
      ∷ route "SyncAll" "POST" "/pins/sync" sync_all_handler
      ∷ route "Status" "GET" "/pins/{hash}" status_handler
      ∷ route "Pin" "POST" "/pins/{hash}" pin_handler
      ∷ route "Unpin" "DELETE" "/pins/{hash}" unpin_handler
      ∷ route "Sync" "POST" "/pins/{hash}/sync" sync_handler
      ∷ route "Recover" "POST" "/pins/{hash}/recover" recover_handler
      ∷ []
