-- ===== src/State/Laws.antt =====
-- state/mapstate/map_state.go: what can be read after a write.
use ipfs_cluster.Common.{◌≡◌, true, false, arith, ◌==◌, All, if◌then◌else◌}
use ipfs_cluster.Common.Dict.{lookup-insert, lookup-delete}
use ipfs_cluster.External.{Codecs, CidDecodes, PeerDecodes}
use ipfs_cluster.Api.Types.{CidArg, cid_arg_to_serial}
use ipfs_cluster.Api.RoundTrip.{to_cid_arg-cid_arg_to_serial}
use ipfs_cluster.State.{MapState, no_cid_arg, add, rm, get, has_cid}

module _ {Cid Addr : Type 0} (x : Codecs Cid Addr) where
  open x use {cid_string}

  -- After `Add` of an argument whose CID and peer IDs decode, `Get` returns it under its CID, and
  -- any other CID reads as before.
  pub get-add :
      (c : CidArg Cid) (st : MapState) (d : Cid)
      → CidDecodes x c.cid
      → All (PeerDecodes x) c.allocations
      → get x (add x c st) d ≡ (if cid_string c.cid == cid_string d then c else get x st d)
  unfolding get add
  get-add c st d hc hp = ground (
    arith,
    lookup-insert (cid_string c.cid) (cid_string d) (cid_arg_to_serial x c) st.pin_map,
    to_cid_arg-cid_arg_to_serial x c hc hp,
  )

  -- After `Rm`, `Get` returns the empty argument for the CID, and any other CID reads as before.
  pub get-rm :
      (c : Cid) (st : MapState) (d : Cid)
      → get x (rm x c st) d ≡ (if cid_string c == cid_string d then no_cid_arg x else get x st d)
  unfolding get rm
  get-rm c st d = ground (arith, lookup-delete (cid_string c) (cid_string d) st.pin_map)

  pub has_cid-add :
      (c : CidArg Cid) (st : MapState) (d : Cid)
      → has_cid x (add x c st) d
        ≡ (if cid_string c.cid == cid_string d then true else has_cid x st d)
  unfolding has_cid add
  has_cid-add c st d =
      ground
        (arith, lookup-insert (cid_string c.cid) (cid_string d) (cid_arg_to_serial x c) st.pin_map)

  pub has_cid-rm :
      (c : Cid) (st : MapState) (d : Cid)
      → has_cid x (rm x c st) d ≡ (if cid_string c == cid_string d then false else has_cid x st d)
  unfolding has_cid rm
  has_cid-rm c st d = ground (arith, lookup-delete (cid_string c) (cid_string d) st.pin_map)
