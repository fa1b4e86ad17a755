-- ===== src/Ipfs/Requests.antt =====
-- ipfs_http_connector.go: `ID`, `Pin`, `Unpin`, `PinLs` and `PinLsCid`.
use ipfs_cluster.Common.{String, Option, none, some, List, [], ◌∷◌, ◌<>◌, if◌then◌else◌}
use ipfs_cluster.Common.Dict.{Dict, lookup, insert}
use ipfs_cluster.Common.Result.{Error, Result, ok, err}
use ipfs_cluster.External.{Codecs, PeerId}
use ipfs_cluster.Api.Status.{IpfsPinStatus, ipfs_pin_status_from_string, is_pinned}
use ipfs_cluster.Api.Ids.{Ipfsid}
use ipfs_cluster.Ipfs.{HttpOps, IpfsHttpConnector, Got, no_body, refused, fetched, get}

-- the error of a `Got`, if there is one
abbrev pub got_error : Got → Option Error
got_error (no_body e) = some e
got_error (refused body e) = some e
got_error (fetched body) = none

-- the loop of `PinLs`
unfoldable pub status_map : Dict String → Dict IpfsPinStatus → Dict IpfsPinStatus
status_map [] out = out
status_map ((k, v) ∷ keys) out = status_map keys (insert k (ipfs_pin_status_from_string v) out)

module _ {Cid Addr W : Type 0} (x : Codecs Cid Addr) (h : HttpOps W)
    (ipfs : IpfsHttpConnector) where
  open x use {cid_string, b58_decode, new_multiaddr, nil_addr}
  open h use {unmarshal_pin_ls, unmarshal_id}

  -- `PinLsCid`, from the keys of the response
  abbrev pub find_pin : Cid → Dict String → IpfsPinStatus × Option Error
  find_pin hash keys = elim (lookup (cid_string hash) keys) [
    | none ↦ (IpfsPinStatus.error, some "expected to find the pin in the response")
    | some type ↦ (ipfs_pin_status_from_string type, none)
  ]

  -- `PinLsCid` after the request
  unfoldable pub pin_ls_cid_answer : Cid → Got → IpfsPinStatus × Option Error
  pin_ls_cid_answer hash (no_body e) = (IpfsPinStatus.error, some e)
  pin_ls_cid_answer hash (refused body e) = (IpfsPinStatus.unpinned, none)
  pin_ls_cid_answer hash (fetched body) = elim (unmarshal_pin_ls body) [
    | err e ↦ (IpfsPinStatus.error, some e)
    | ok keys ↦ find_pin hash keys
  ]

  unfoldable pub pin_ls_cid : Cid → W → (IpfsPinStatus × Option Error) × W
  unfolding get pin_ls_cid_answer
  pin_ls_cid hash w =
      let (got, w') = get h ipfs ("pin/ls?arg=" <> cid_string hash) w in
      (pin_ls_cid_answer hash got, w')

  -- the request that `Pin` and `Unpin` make, for its error
  unfoldable pub ask : String → W → Option Error × W
  unfolding get
  ask path w = let (got, w') = get h ipfs path w in (got_error got, w')

  unfoldable pub pin : Cid → W → Option Error × W
  unfolding pin_ls_cid ask
  pin hash w =
      let ((pin_status, e), w') = pin_ls_cid hash w in
      elim e [
        | some e' ↦ (some e', w')
        | none ↦
            if is_pinned pin_status then (none, w') else ask ("pin/add?arg=" <> cid_string hash) w'
      ]

  unfoldable pub unpin : Cid → W → Option Error × W
  unfolding pin_ls_cid ask
  unpin hash w =
      let ((pin_status, e), w') = pin_ls_cid hash w in
      elim e [
        | some e' ↦ (some e', w')
        | none ↦
            if is_pinned pin_status then ask ("pin/rm?arg=" <> cid_string hash) w' else (none, w')
      ]

  -- `PinLs` after the request
  unfoldable pub pin_ls_answer : Got → Result (Dict IpfsPinStatus)
  unfolding status_map
  pin_ls_answer (no_body e) = err e
  pin_ls_answer (refused body e) = err e
  pin_ls_answer (fetched body) = elim (unmarshal_pin_ls body) [
    | err e ↦ err e
    | ok keys ↦ ok (status_map keys [])
  ]

  unfoldable pub pin_ls : String → W → Result (Dict IpfsPinStatus) × W
  unfolding get pin_ls_answer
  pin_ls type_filter w =
      let (got, w') = get h ipfs ("pin/ls?type=" <> type_filter) w in (pin_ls_answer got, w')

  -- the loop of `ID` over the addresses
  unfoldable pub parse_addrs : List String → Result (List Addr)
  parse_addrs [] = ok []
  parse_addrs (s ∷ ss) =
      let rest = parse_addrs ss in
      elim (new_multiaddr s) [
        | err e ↦ err e
        | ok a ↦ elim rest [ err e ↦ err e | ok addrs ↦ ok (a ∷ addrs) ]
      ]

  abbrev pub ipfs_id : PeerId → List Addr → Error → Ipfsid Addr
  ipfs_id p addrs e = record { id = p; addresses = addrs; error = e }

  -- `ID`, from the fields of the response
  unfoldable pub id_of_resp : String → List String → Ipfsid Addr × Option Error
  unfolding parse_addrs
  id_of_resp id addresses = elim (b58_decode id) [
    | err e ↦ (ipfs_id "" [] e, some e)
    | ok p ↦ elim (parse_addrs addresses) [
      | err e ↦ (ipfs_id p [] e, some e)
      | ok addrs ↦ (ipfs_id p addrs "", none)
    ]
  ]

  -- `ID` after the request
  unfoldable pub id_answer : Got → Ipfsid Addr × Option Error
  unfolding id_of_resp
  id_answer (no_body e) = (ipfs_id "" [] e, some e)
  id_answer (refused body e) = (ipfs_id "" [] e, some e)
  id_answer (fetched body) = elim (unmarshal_id body) [
    | err e ↦ (ipfs_id "" [] e, some e)
    | ok (id, addresses) ↦ id_of_resp id addresses
  ]

  unfoldable pub ipfs_id_request : W → (Ipfsid Addr × Option Error) × W
  unfolding get id_answer
  ipfs_id_request w = let (got, w') = get h ipfs "id" w in (id_answer got, w')
