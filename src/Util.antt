-- ===== src/Util.antt =====
-- util.go: peer IDs in multiaddresses, and slices in their serial form.
use ipfs_cluster.Common.{String, Option, none, some, List, [], ◌∷◌, ◌<>◌, map}
use ipfs_cluster.Common.Result.{Error, Result, ok, err, value_or}
use ipfs_cluster.External.{Codecs, PeerId}
use ipfs_cluster.Api.Types.{
  PinInfo, PinInfoSerial, GlobalPinInfo, GlobalPinInfoSerial, pin_info_to_serial,
  global_pin_info_to_serial,
}

module _ {Cid Addr : Type 0} (x : Codecs Cid Addr) where
  open x use {
    nil_addr, addr_string, new_multiaddr, value_for_ipfs, decapsulate, b58_decode, b58_encode,
    encapsulate,
  }

  abbrev pub bad_addr : Addr → Error → Error
  bad_addr addr e = "invalid peer multiaddress: " <> addr_string addr <> ": " <> e

  abbrev pub bad_id : String → Error → Error
  bad_id pid e = "invalid peer ID in multiaddress: " <> pid <> ": " <> e

  -- the address without its peer ID
  abbrev pub decap : Addr → String → Addr
  decap addr pid = decapsulate addr (value_or nil_addr (new_multiaddr ("/ipfs/" <> pid)))

  -- `multiaddrSplit`
  unfoldable pub multiaddr_split : Addr → Result (PeerId × Addr)
  multiaddr_split addr = elim (value_for_ipfs addr) [
    | err e ↦ err (bad_addr addr e)
    | ok pid ↦ elim (b58_decode pid) [
      | err e ↦ err (bad_id pid e)
      | ok peer_id ↦ ok (peer_id, decap addr pid)
    ]
  ]

  -- `peersFromMultiaddrs`
  unfoldable pub peers_from_multiaddrs : List Addr → List PeerId
  unfolding multiaddr_split
  peers_from_multiaddrs [] = []
  peers_from_multiaddrs (addr ∷ addrs) =
      let rest = peers_from_multiaddrs addrs in
      elim (multiaddr_split addr) [ err e ↦ rest | ok (pid, _) ↦ pid ∷ rest ]

  -- `multiaddrJoin`: none is its panic
  unfoldable pub multiaddr_join : Addr → PeerId → Option Addr
  multiaddr_join addr p = elim (new_multiaddr ("/ipfs/" <> b58_encode p)) [
    | err e ↦ none
    | ok pid_addr ↦ some (encapsulate addr pid_addr)
  ]

  -- `getRemoteMultiaddr`: `conns` are the remote addresses of the connections to the peer
  unfoldable pub get_remote_multiaddr : List Addr → PeerId → Addr → Option Addr
  unfolding multiaddr_join
  get_remote_multiaddr [] pid addr = multiaddr_join addr pid
  get_remote_multiaddr (conn ∷ conns) pid addr = multiaddr_join conn pid

  -- `pinInfoSliceToSerial`
  abbrev pub pin_info_slice_to_serial : List (PinInfo Cid) → List PinInfoSerial
  pin_info_slice_to_serial = map (pin_info_to_serial x)

  -- `globalPinInfoSliceToSerial`
  abbrev pub global_pin_info_slice_to_serial : List (GlobalPinInfo Cid) → List GlobalPinInfoSerial
  global_pin_info_slice_to_serial = map (global_pin_info_to_serial x)
