-- ===== src/Tests/Logs.antt =====
-- The log, the shared state and the consensus on concrete inputs.
use ipfs_cluster.Common.{
  ℕ, ◌+◌, String, ◌≡◌, ◌↔◌, ◌⊎◌, refl, false, none, some, List, [], ◌∷◌, ◌==◌, eqb, if◌then◌else◌,
}
use ipfs_cluster.Common.Dict.{lookup}
use ipfs_cluster.Common.Result.{Error}
use ipfs_cluster.Api.Types.{cid_arg_to_serial, to_cid_arg}
use ipfs_cluster.Api.Ids.{to_multiaddr}
use ipfs_cluster.State.{MapState, new_map_state}
use ipfs_cluster.LogOp.{LogOp, LogOpType}
use ipfs_cluster.LogOp.Replay.{replay, last_entry, entry_after, lookup-replay}
use ipfs_cluster.Consensus.{
  Redirected, consensus_log_pin, RaftOps, fails, op_cid, attempt_cid, log_op_cid,
}
use ipfs_cluster.Consensus.Commit.{Delivers, log_op_cid_iff}
use ipfs_cluster.Tests.World.{codecs, arg_for}

abbrev pin_of : String → List String → LogOp
pin_of c allocs = record {
  cid = record { cid = c; allocations = allocs; everywhere = false };
  peer = "";
  type = LogOpType.pin;
}

abbrev log : List LogOp
log =
    pin_of "x" ("A" ∷ [])
    ∷ pin_of "y" []
    ∷ record (pin_of "y" []) { type = LogOpType.unpin }
    ∷ record (pin_of "" []) { type = LogOpType.rm_peer; peer = "/a" }
    ∷ []

lookup-replay_example :
    (st' : MapState) × (replay codecs log new_map_state ≡ some st')
    × ((k : String)
        → lookup k st'.pin_map
          ≡ entry_after codecs (last_entry codecs log k) (lookup k new_map_state.pin_map))
unfolding cid_arg_to_serial to_cid_arg to_multiaddr
lookup-replay_example =
    lookup-replay codecs log new_map_state (refl, (refl, (refl, (tt, tt))))
      (λ e. absurd (cc), (λ e. absurd (cc), (λ e. absurd (cc), (λ e. ("A", "A", refl, refl), tt))))

-- A Raft whose leader, "B", becomes known once somebody has waited; "" takes no calls.
abbrev pub raft : RaftOps ℕ
raft = record {
  host_id = "A";
  leader = λ w. if eqb w 0 then ("", some "no leader") else ("B", none);
  wait_for_leader = λ w. (none, w + 1);
  call = λ p arg w. ((if p == "" then some "no peer" else none), w + 1);
  commit_op = λ op w. (none, w + 1);
  raft_peers = λ w. [];
  raft_add_peer = λ p w. (none, w + 1);
  raft_remove_peer = λ p w. (none, w + 1);
  pause = λ w. w + 1;
}

abbrev arg : Redirected
arg = consensus_log_pin (cid_arg_to_serial codecs (arg_for "x" []))

log_op_cid_iff_example :
    (log_op_cid codecs raft arg LogOpType.pin (arg_for "x" []) 0 ≡ (none, 3)) ↔ (
      Delivers raft arg (op_cid codecs (arg_for "x" []) LogOpType.pin) 0 3
      ⊎ ((e : Error) × (v : ℕ) × (attempt_cid codecs raft arg LogOpType.pin (arg_for "x" []) 0
            ≡ (fails e, v))
          × Delivers raft arg (op_cid codecs (arg_for "x" []) LogOpType.pin) v 3))
log_op_cid_iff_example = log_op_cid_iff codecs raft arg LogOpType.pin (arg_for "x" []) 0 3
