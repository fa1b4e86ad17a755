-- ===== src/Tests/Replicas.antt =====
-- Peers that apply pins, over the concrete daemon.
use ipfs_cluster.Common.{◌≡◌, ◌⊎◌, refl, Bool, true, false, some, [], ◌∷◌, ◌++◌, arith}
use ipfs_cluster.Common.Dict.{lookup}
use ipfs_cluster.Interfaces.{IpfsRpc}
use ipfs_cluster.External.{PeerId}
use ipfs_cluster.Api.Types.{CidArg, to_cid_arg, cid_arg_to_serial}
use ipfs_cluster.State.{map_state_ops, add, get}
use ipfs_cluster.State.Contents.{contents}
use ipfs_cluster.LogOp.{LogOp, LogOpType, track, apply_to, apply_type}
use ipfs_cluster.LogOp.Replay.{last_entry}
use ipfs_cluster.Api.Status.{ipfs_pin_status_from_string}
use ipfs_cluster.Tracker.{new_map_pin_tracker, is_remote, set_status}
use ipfs_cluster.Tracker.Runs.{Call}
use ipfs_cluster.Tracker.Workers
use ipfs_cluster.Tracker.Workers.{pin_worker}
use ipfs_cluster.Ipfs.Requests
use ipfs_cluster.Rpc.Local.{connector_rpc}
use ipfs_cluster.Replica.{
  Replica, Reach, Step, started, run_call, applies, runs, acts, here, next, new_replica,
}
use ipfs_cluster.Replica.Started.{Asked}
use ipfs_cluster.Consensus.{op_cid}
use ipfs_cluster.Replica.Shared.{
  Shared, put_replica, pins, commits, moves, SharedReach, begun, later, new_shared,
}
use ipfs_cluster.Replica.Together.{lookup-SharedReach, held-SharedReach}
use ipfs_cluster.Replica.Agreement.{contents-Reach}
use ipfs_cluster.Replica.Progress.{pin-Reach}
use ipfs_cluster.Ipfs.Drained.{IsSettled}
use ipfs_cluster.Tests.Connector.{own, queued, queued-Coherent}
use ipfs_cluster.Tests.Daemon.{two_codecs, Pins, pins_of, http, connector, serves}

abbrev rpc : IpfsRpc Pins
rpc = connector_rpc two_codecs http connector (λ w. 0)

abbrev op : LogOp
op = record {
  cid = record { cid = "x"; allocations = "A" ∷ []; everywhere = false };
  peer = "";
  type = LogOpType.pin;
}

-- the peer applies a pin once more
abbrev again : Replica Bool Pins → Replica Bool Pins
again t = record t {
  state = add two_codecs (to_cid_arg two_codecs op.cid) t.state;
  pending =
      t.pending
      ++ started two_codecs
          (some (track (cid_arg_to_serial two_codecs (to_cid_arg two_codecs op.cid))));
  log = t.log ++ op ∷ [];
}

again-Step : (t : Replica Bool Pins) → Step two_codecs rpc t (again t)
unfolding apply_to apply_type map_state_ops
again-Step t = applies t op _ _ refl

abbrev begin : Replica Bool Pins
begin = new_replica "A" (false, true)

abbrev tracked : Replica Bool Pins
tracked = run_call two_codecs rpc (Call.track (to_cid_arg two_codecs op.cid)) [] (again begin)

abbrev rounds : Replica Bool Pins
rounds = run_call two_codecs rpc Call.pin_round tracked.pending tracked

reached : Reach two_codecs rpc begin rounds
unfolding new_replica to_cid_arg cid_arg_to_serial
reached =
    next
      (next (next here (again-Step begin))
        (runs (again begin) [] [] (Call.track (to_cid_arg two_codecs op.cid)) refl))
      (acts tracked Call.pin_round tt)

contents-Reach_example : contents (again begin).state ≡ contents (again (again begin)).state
unfolding new_replica to_cid_arg cid_arg_to_serial last_entry
contents-Reach_example =
    contents-Reach two_codecs rpc rpc "A" "A" (false, true) (false, true)
      (next here (again-Step begin))
      (next (next here (again-Step begin)) (again-Step (again begin))) (refl, tt)
      ((λ e. absurd (cc e)), tt) (refl, (refl, tt))
      ((λ e. absurd (cc e)), ((λ e. absurd (cc e)), tt)) (λ k. ground arith)

abbrev pin_x : CidArg Bool
pin_x = record { cid = true; allocations = "A" ∷ []; everywhere = false }

abbrev worlds : PeerId → Pins
worlds p = (false, true)

-- The operation is committed, and two peers apply it.
abbrev committed : Shared Bool Pins
committed = record (new_shared worlds) { log = op_cid two_codecs pin_x LogOpType.pin ∷ [] }

abbrev by_a : Shared Bool Pins
by_a = record committed { replica = put_replica "A" (again begin) committed.replica }

abbrev by_b : Shared Bool Pins
by_b = record by_a {
  replica = put_replica "B" (again (new_replica "B" (false, true))) by_a.replica;
}

together : SharedReach two_codecs (λ p. rpc) (new_shared worlds) by_b
unfolding new_replica to_cid_arg cid_arg_to_serial new_shared op_cid put_replica
together =
    later
      (later (later begun (commits (new_shared worlds) _ (pins pin_x refl (refl, tt))))
        (moves committed "A" (again begin) (again-Step begin) ([], refl)))
      (moves by_a "B" (again (new_replica "B" (false, true)))
        (again-Step (new_replica "B" (false, true))) ([], refl))

lookup-SharedReach_example : lookup "x" (by_b.replica "B").state.pin_map ≡ some op.cid
unfolding new_replica to_cid_arg cid_arg_to_serial new_shared op_cid put_replica last_entry
lookup-SharedReach_example = lookup-SharedReach two_codecs (λ p. rpc) worlds "B" "x" together

-- The first of them pins it.
abbrev tracked_by_a : Shared Bool Pins
tracked_by_a = record by_b { replica = put_replica "A" tracked by_b.replica }

abbrev pinned_by_a : Shared Bool Pins
pinned_by_a = record tracked_by_a { replica = put_replica "A" rounds tracked_by_a.replica }

together_pinned : SharedReach two_codecs (λ p. rpc) (new_shared worlds) pinned_by_a
unfolding new_replica to_cid_arg cid_arg_to_serial new_shared op_cid put_replica
together_pinned =
    later
      (later together (
        moves by_b "A" tracked
          (runs (again begin) [] [] (Call.track (to_cid_arg two_codecs op.cid)) refl) ([], refl)))
      (moves tracked_by_a "A" rounds (acts tracked Call.pin_round tt) ([], refl))

held-SharedReach_example :
    (pins_of (worlds "A") "x" ≡ true) ⊎ Asked two_codecs "A" pinned_by_a.log "x"
unfolding new_replica to_cid_arg cid_arg_to_serial new_map_pin_tracker Workers.track
    Workers.track_local pin_worker Workers.pin connector_rpc Requests.pin is_remote set_status
    ipfs_pin_status_from_string new_shared op_cid put_replica
held-SharedReach_example =
    held-SharedReach two_codecs (λ p. http) (λ p. connector) (λ w. 0) pins_of (λ p. serves) worlds
      together_pinned "A" "x" refl

-- A peer with two requests in its queue pins what a third operation asks for.
abbrev busy : Replica Bool Pins
busy = record begin { tracker = queued; world = (false, false) }

pin-Reach_example :
    (u : Replica Bool Pins) × Reach two_codecs rpc busy u
    × (u.log ≡ op_cid two_codecs (own false) LogOpType.pin ∷ [])
    × (get two_codecs u.state false ≡ own false)
    × IsSettled two_codecs http connector (λ w. 0) pins_of serves false (u.tracker, u.world)
unfolding new_map_pin_tracker is_remote new_replica
pin-Reach_example =
    pin-Reach two_codecs http connector (λ w. 0) pins_of serves (own false) busy refl (refl, tt)
      refl refl refl queued-Coherent
