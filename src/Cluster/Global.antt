-- ===== src/Cluster/Global.antt =====
-- cluster.go: `globalPinInfoCid` and `globalPinInfoSlice`, which gather the statuses of all peers.
pub mod Gathered
pub mod Merged
use ipfs_cluster.Common.{ℕ, String, Bool, false, if◌then◌else◌, Option, none, some, List, [], ◌∷◌}
use ipfs_cluster.Common.Dict.{Dict, lookup, insert, values}
use ipfs_cluster.Common.Result.{Error, value_or}
use ipfs_cluster.External.{Codecs, PeerId}
use ipfs_cluster.Api.Status.{TrackerStatus, bug, cluster_error, same_status}
use ipfs_cluster.Api.Types.{
  PinInfo, PinInfoSerial, GlobalPinInfo, to_pin_info, CidArg, CidArgSerial, cid_arg_to_serial,
}

-- `now` is `time.Now()`. What `multiRPC` (in Cluster.MultiRpc) returns is `ask`: the reply of each
-- member, and its error, if there is one.
module _ {Cid Addr : Type 0} (x : Codecs Cid Addr) (now : ℕ) where
  -- the entry of a member that could not be contacted
  abbrev pub unreachable : Cid → PeerId → Error → PinInfo Cid
  unreachable c p e = record { cid = c; peer = p; status = cluster_error; ts = now; error = e }

  -- a round of the loop of `globalPinInfoCid`, before the write
  unfoldable pub member_info : PeerId → PinInfoSerial × Option Error → PinInfo Cid
  member_info member (rserial, none) = to_pin_info x rserial
  member_info member (rserial, some e) =
      let r = to_pin_info x rserial in
      if same_status r.status bug then unreachable r.cid member e else record r { error = e }

  unfoldable pub gather :
      (PeerId → PinInfoSerial × Option Error)
      → List PeerId
      → Dict (PinInfo Cid)
      → Dict (PinInfo Cid)
  unfolding member_info
  gather ask [] d = d
  gather ask (member ∷ members) d =
      gather ask members (insert member (member_info member (ask member)) d)

  unfoldable pub global_pin_info_cid :
      (CidArgSerial → PeerId → PinInfoSerial × Option Error) → List PeerId → Cid → GlobalPinInfo Cid
  unfolding gather
  global_pin_info_cid call members h =
      let arg : CidArg Cid = record { cid = h; allocations = []; everywhere = false } in
      record { cid = h; peer_map = gather (call (cid_arg_to_serial x arg)) members [] }

  -- a round of the loop of `mergePins`, from what the map holds under the CID
  abbrev pub with_pin : PinInfo Cid → Option (GlobalPinInfo Cid) → GlobalPinInfo Cid
  with_pin p none = record { cid = p.cid; peer_map = insert p.peer p [] }
  with_pin p (some item) = record item { peer_map = insert p.peer p item.peer_map }

  unfoldable pub merge_pins :
      List PinInfoSerial → Dict (GlobalPinInfo Cid) → Dict (GlobalPinInfo Cid)
  merge_pins [] full = full
  merge_pins (pserial ∷ pins) full =
      let p = to_pin_info x pserial in
      merge_pins pins (insert pserial.cid (with_pin p (lookup pserial.cid full)) full)

  -- the loop over the replies: the map, and the members with an error
  unfoldable pub merge_replies :
      (PeerId → List PinInfoSerial × Option Error)
      → List PeerId
      → Dict (GlobalPinInfo Cid)
      → Dict Error
      → Dict (GlobalPinInfo Cid) × Dict Error
  unfolding merge_pins
  merge_replies ask [] full errored = (full, errored)
  merge_replies ask (member ∷ members) full errored = elim (ask member).1 [
    | some e ↦ merge_replies ask members full (insert member e errored)
    | none ↦ merge_replies ask members (merge_pins (ask member).0 full) errored
  ]

  -- `for cidStr := range fullMap`
  unfoldable pub mark_one : PeerId → Error → Dict (GlobalPinInfo Cid) → Dict (GlobalPinInfo Cid)
  mark_one p msg [] = []
  mark_one p msg ((cid_str, item) ∷ full) =
      let c = value_or x.nil_cid (x.cid_decode cid_str) in
      (cid_str, record item { peer_map = insert p (unreachable c p msg) item.peer_map })
      ∷ mark_one p msg full

  -- `for p, msg := range erroredPeers`
  unfoldable pub mark_errors : Dict Error → Dict (GlobalPinInfo Cid) → Dict (GlobalPinInfo Cid)
  unfolding mark_one
  mark_errors [] full = full
  mark_errors ((p, msg) ∷ errored) full = mark_errors errored (mark_one p msg full)

  unfoldable pub full_map :
      (PeerId → List PinInfoSerial × Option Error) → List PeerId → Dict (GlobalPinInfo Cid)
  unfolding merge_replies mark_errors
  full_map ask members =
      let (full, errored) = merge_replies ask members [] [] in mark_errors errored full

  unfoldable pub global_pin_info_slice :
      (PeerId → List PinInfoSerial × Option Error) → List PeerId → List (GlobalPinInfo Cid)
  unfolding full_map
  global_pin_info_slice ask members = values (full_map ask members)
