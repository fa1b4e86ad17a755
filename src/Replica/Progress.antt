-- ===== src/Replica/Progress.antt =====
-- log_op.go, rpc_api.go, map_pin_tracker.go and ipfs_http_connector.go together: a peer gets to pin what it
-- is asked to pin.
use ipfs_cluster.Common.{
  Bool, ℕ, zero, suc, ◌≡◌, refl, true, false, some, String, List, [], ◌∷◌, ◌++◌, All, length, ltb,
}
use ipfs_cluster.External.{Codecs, CidDecodes, PeerDecodes}
use ipfs_cluster.Interfaces.{IpfsRpc}
use ipfs_cluster.Api.Types.{CidArg, to_cid_arg}
use ipfs_cluster.State.{get}
use ipfs_cluster.LogOp.{LogOpType, track}
use ipfs_cluster.Consensus.{op_cid}
use ipfs_cluster.Tracker.{pin_queue_size, is_remote}
use ipfs_cluster.Tracker.Runs.{Call, run}
use ipfs_cluster.Tracker.Draining.{pin_rounds}
use ipfs_cluster.Rpc.Trackers
use ipfs_cluster.Rpc.Local.{connector_rpc}
use ipfs_cluster.Ipfs.{HttpOps, IpfsHttpConnector}
use ipfs_cluster.Ipfs.Daemon.{Serves}
use ipfs_cluster.Ipfs.CoherentRuns.{Coherent}
use ipfs_cluster.Ipfs.Drained.{IsSettled}
use ipfs_cluster.Ipfs.Committed.{apply_to-IsSettled}
use ipfs_cluster.Replica.{Replica, Reach, applies, runs, acts, here, next, started, run_call}

module _ {Cid Addr W : Type 0} (x : Codecs Cid Addr) (r : IpfsRpc W) where
  -- a peer whose tracker and world have gone on
  abbrev with_run : List (Call Cid) → Replica Cid W → Replica Cid W
  with_run calls t =
      let (tracker, world) = run x r calls (t.tracker, t.world) in
      record t { tracker = tracker; world = world }

  rounds-Reach :
      (n : ℕ) (s t : Replica Cid W) → Reach x r s t → Reach x r s (with_run (pin_rounds n) t)
  unfolding run pin_rounds
  rounds-Reach zero s t reach = reach
  rounds-Reach (suc n) s t reach =
      rounds-Reach n s (run_call x r Call.pin_round t.pending t)
        (next reach (acts t Call.pin_round tt))

module _ {Cid Addr W : Type 0} (x : Codecs Cid Addr) (h : HttpOps W) (ipfs : IpfsHttpConnector)
    (now : W → ℕ) (pins : W → String → Bool) (s : Serves x h ipfs pins) where
  abbrev over : IpfsRpc W
  over = connector_rpc x h ipfs now

  -- In any state, a peer whose Raft has it apply a committed pin of its own gets by steps of its own
  -- (it applies the operation, the call that this starts runs, and the pin worker goes round) to where
  -- the pin is in its log and in the shared state, and is either `pinned` in its tracker and pinned by its
  -- daemon, or has the status `pin_error` in its tracker. The CID of the pin and its peer IDs decode, the
  -- pin queue has room, the tracker is not shut down, its `pinned` entries are of CIDs that the daemon has
  -- pinned and the CIDs in its queues decode, and the daemon serves its pins as its HTTP API documents;
  -- its requests may fail.
  pub pin-Reach :
      (carg : CidArg Cid) (t : Replica Cid W)
      → CidDecodes x carg.cid
      → All (PeerDecodes x) carg.allocations
      → is_remote t.tracker carg ≡ false
      → ltb (length t.tracker.pin_ch) pin_queue_size ≡ true
      → t.tracker.cancelled ≡ false
      → Coherent x h ipfs now pins s (t.tracker, t.world)
      → (u : Replica Cid W) × Reach x over t u
        × (u.log ≡ t.log ++ op_cid x carg LogOpType.pin ∷ [])
        × (get x u.state carg.cid ≡ carg)
        × IsSettled x h ipfs now pins s carg.cid (u.tracker, u.world)
  unfolding Trackers.track
  pin-Reach carg t decodes peers own room up coherent =
      let (st, req, done, stored, (fine, settled)) =
        apply_to-IsSettled x h ipfs now pins s carg t.state t.tracker t.world decodes peers own room
          up coherent in
      let t1 : Replica Cid W = record t {
        state = st;
        pending = t.pending ++ started x (some (track req));
        log = t.log ++ op_cid x carg LogOpType.pin ∷ [];
      } in
      let call = Call.track (to_cid_arg x req) in
      let t2 : Replica Cid W = run_call x over call (t.pending ++ []) t1 in
      let tracked : Reach x over t t2 =
        next (next here (applies t (op_cid x carg LogOpType.pin) st (some (track req)) done))
          (runs t1 t.pending [] call refl) in
      (
        with_run x over (pin_rounds (length t2.tracker.pin_ch)) t2,
        rounds-Reach x over (length t2.tracker.pin_ch) t t2 tracked,
        refl,
        stored,
        settled,
      )
