-- ===== src/Ipfs/Listing.antt =====
-- ipfs_http_connector.go: what the proxy answers to `pin/ls` and to `pin/add` and `pin/rm`.
use ipfs_cluster.Common.{
  String, ◌≡◌, refl, Bool, false, ◌||◌, none, some, List, [], ◌∷◌, ◌<>◌, ◌==◌, arith, if◌then◌else◌,
  Bool-cases, inl, inr,
}
use ipfs_cluster.Common.Dict.{Dict, lookup, insert, lookup-insert}
use ipfs_cluster.Common.Result.{ok}
use ipfs_cluster.External.{Codecs}
use ipfs_cluster.Api.Types.{CidArgSerial}
use ipfs_cluster.Ipfs.{IpfsHttpConnector}
use ipfs_cluster.Ipfs.Proxy.{
  Request, Body, ProxyOps, respond, ipfs_error_responder, keys_of, select_keys, pin_ls_handler,
}

-- Whether a pin of the list has the text as its CID.
abbrev pub is_listed : String → List CidArgSerial → Bool
is_listed arg [] = false
is_listed arg (pin ∷ pins) = pin.cid == arg || is_listed arg pins

lookup-keys_of :
    (arg : String) (pins : List CidArgSerial) (out : Dict String)
    → lookup arg (keys_of pins out)
      ≡ (if is_listed arg pins then some "recursive" else lookup arg out)
unfolding keys_of
lookup-keys_of arg [] out = refl
lookup-keys_of arg (pin ∷ pins) out = ground (
  arith,
  lookup-insert pin.cid arg "recursive" out,
  lookup-keys_of arg pins (insert pin.cid "recursive" out),
)

nothing_in : (arg : String) → lookup {V = String} arg [] ≡ none
unfolding lookup
nothing_in arg = refl

module _ {Cid Addr W : Type 0} (x : Codecs Cid Addr) (o : ProxyOps W)
    (ipfs : IpfsHttpConnector) where
  -- Asked about one path, the proxy's `pin/ls` answers that it is pinned recursively exactly if it
  -- is the text of a CID in the shared list of pins, and otherwise that it is not pinned. The
  -- call for the list succeeds.
  pub pin_ls_handler-listed :
      (r : Request) (arg : String) (args : List String) (pins : List CidArgSerial) (w w' : W)
      → lookup "arg" r.query ≡ some (arg ∷ args)
      → o.pin_list w ≡ (ok pins, w')
      → pin_ls_handler x o ipfs r w ≡ (
        (if is_listed arg pins
            then respond 200 (Body.pin_ls_resp ((arg, "recursive") ∷ []))
            else ipfs_error_responder ("Error: path '" <> arg <> "' is not pinned")),
        w',
      )
  unfolding pin_ls_handler select_keys
  pin_ls_handler-listed r arg args pins w w' asked listed =
      let found = lookup-keys_of arg pins [] in
      elim (Bool-cases (is_listed arg pins)) [
        | inl there ↦
            let f : lookup arg (keys_of pins []) ≡ some "recursive" =
              ground (arith, found, there) in
            rw (listed, asked, f, there, select_keys) refl
        | inr missing ↦
            let f : lookup arg (keys_of pins []) ≡ none =
              ground (arith, found, missing, nothing_in arg) in
            rw (listed, asked, f, missing, select_keys) refl
      ]
