-- ===== src/LogOp/Replay.antt =====
-- log_op.go: what the shared state holds once a log has been applied.
use ipfs_cluster.Common.{
  String, ◌∙◌, ◌≡◌, refl, Option, none, some, List, [], ◌∷◌, arith, ◌==◌, All, if◌then◌else◌,
}
use ipfs_cluster.Common.Dict.{insert, delete, lookup, lookup-insert, lookup-delete}
use ipfs_cluster.Common.Result.{ok}
use ipfs_cluster.External.{Codecs}
use ipfs_cluster.Api.Types.{CidArgSerial, cid_arg_to_serial, to_cid_arg}
use ipfs_cluster.Api.Ids.{multiaddr_to_serial, to_multiaddr}
use ipfs_cluster.State.{MapState, add, rm, map_state_ops}
use ipfs_cluster.LogOp.{
  rm_peer_request, LogOpType, LogOp, Request, track, untrack, peer_manager_add_peer,
  peer_manager_rm_peer, pin, unpin, add_peer, rm_peer, other, applied, failed, panics, apply_type,
  apply_to,
}

module _ {Cid Addr : Type 0} (x : Codecs Cid Addr) where
  -- The state after a log has been applied from the start, as Raft does; `none` if one of the
  -- operations fails or panics.
  unfoldable pub replay : List LogOp → MapState → Option MapState
  replay [] st = some st
  replay (op ∷ log) st = elim (apply_to x (map_state_ops x) op st) [
    | applied st' r ↦ replay log st'
    | failed e ↦ none
    | panics ↦ none
  ]

  -- The entry that the last operation on `k` leaves there, if any operation is on `k`.
  abbrev pub entry_of : LogOpType → LogOp → String → Option (Option CidArgSerial)
  entry_of pin op k = if op.cid.cid == k then some (some op.cid) else none
  entry_of unpin op k = if op.cid.cid == k then some none else none
  entry_of add_peer op k = none
  entry_of rm_peer op k = none
  entry_of other op k = none

  unfoldable pub last_entry : List LogOp → String → Option (Option CidArgSerial)
  last_entry [] k = none
  last_entry (op ∷ log) k = elim (last_entry log k) [
    | some e ↦ some e
    | none ↦ entry_of op.type op k
  ]

  -- The serial argument of an operation is the serial form of what it decodes to, as it is in an
  -- operation that a peer submits.
  abbrev pub IsSerial : LogOp → Type 0
  IsSerial op = cid_arg_to_serial x (to_cid_arg x op.cid) ≡ op.cid

  -- So it is for an operation on a CID, by its type; operations on a peer have no CID.
  abbrev IsSerialFor : LogOpType → LogOp → Type 0
  IsSerialFor pin op = IsSerial op
  IsSerialFor unpin op = IsSerial op
  IsSerialFor _ op = Unit

  abbrev pub HasSerial : LogOp → Type 0
  HasSerial op = IsSerialFor op.type op

  -- `ApplyTo` does not panic: a removed peer stands in a multiaddress that holds a peer ID.
  abbrev pub CanApply : LogOp → Type 0
  CanApply op =
      op.type ≡ rm_peer
      → (pidstr : String) × (pid : String) × (x.value_for_ipfs (to_multiaddr x op.peer) ≡ ok pidstr)
        × (x.b58_decode pidstr ≡ ok pid)

  abbrev pub entry_after : Option (Option CidArgSerial) → Option CidArgSerial → Option CidArgSerial
  entry_after none old = old
  entry_after (some new) old = new

  -- what one operation does to the state's map
  Effect : LogOp → MapState → Type 0
  Effect op st =
      (st' : MapState) × (r : Option Request) × (apply_to x (map_state_ops x) op st ≡ applied st' r)
      × ((k : String)
          → lookup k st'.pin_map ≡ entry_after (entry_of op.type op k) (lookup k st.pin_map))

  apply_to-Effect :
      (t : LogOpType) (op : LogOp) (st : MapState)
      → op.type ≡ t
      → IsSerialFor t op
      → CanApply op
      → Effect op st
  unfolding Effect apply_to apply_type map_state_ops add rm cid_arg_to_serial
  apply_to-Effect pin op st e s h = (
    record st { pin_map = insert op.cid.cid op.cid st.pin_map },
    some (track op.cid),
    rw e (cc s),
    λ k. rw e (lookup-insert op.cid.cid k op.cid st.pin_map ∙ ground arith),
  )
  apply_to-Effect unpin op st e s h = (
    record st { pin_map = delete op.cid.cid st.pin_map },
    some (untrack op.cid),
    rw e (cc s),
    λ k. rw e (lookup-delete op.cid.cid k st.pin_map ∙ ground arith),
  )
  apply_to-Effect add_peer op st e s h = (
    st,
    some (peer_manager_add_peer (multiaddr_to_serial x (to_multiaddr x op.peer))),
    rw e,
    λ k. rw e,
  )
  apply_to-Effect rm_peer op st e s h =
      let (pidstr, pid, he, hd) = h e in
      (st, some (peer_manager_rm_peer pid), rw (e, he, hd, rm_peer_request), λ k. rw e)
  apply_to-Effect other op st e s h = (st, none, rw e, λ k. rw e)

  -- Applying a log whose pins and unpins are of serial forms, and whose removed peers have an ID, succeeds;
  -- under each key the state then holds what the last operation on that key left there, and what it
  -- held before if there was none.
  pub lookup-replay :
      (log : List LogOp) (st : MapState)
      → All HasSerial log
      → All CanApply log
      → (st' : MapState) × (replay log st ≡ some st')
        × ((k : String)
            → lookup k st'.pin_map ≡ entry_after (last_entry log k) (lookup k st.pin_map))
  unfolding replay last_entry Effect
  lookup-replay [] st s h = (st, refl, λ k. refl)
  lookup-replay (op ∷ log) st s h =
      let (st1, r, e1, k1) = apply_to-Effect op.type op st refl s.0 h.0 in
      let (st', e', k') = lookup-replay log st1 s.1 h.1 in
      (st', rw (e1, replay) e', λ k. ground (arith, k1 k, k' k))
