-- ===== src/Replica.antt =====
-- consensus.go, log_op.go, cluster.go and map_pin_tracker.go together: the part of a peer that applies
-- the log and keeps its daemon in line with it, as a state machine.
pub mod Agreement
pub mod Started
pub mod Safety
pub mod Shared
pub mod Together
pub mod Progress
use ipfs_cluster.Common.{Bool, Option, none, some, List, [], ◌∷◌, ◌++◌, ◌≡◌}
use ipfs_cluster.External.{Codecs, CidDecodes, PeerId}
use ipfs_cluster.Interfaces.{IpfsRpc}
use ipfs_cluster.Api.Types.{to_cid_arg}
use ipfs_cluster.State.{MapState, new_map_state, map_state_ops}
use ipfs_cluster.LogOp.{
  LogOp, Request, track, untrack, peer_manager_add_peer, peer_manager_rm_peer, applied, apply_to,
}
use ipfs_cluster.Tracker.{MapPinTracker, new_map_pin_tracker}
use ipfs_cluster.Tracker.Runs.{Call, step}
use ipfs_cluster.Cluster.StateSync.{spawned}

-- The shared state of the peer, its pin tracker and the world around it; the calls of the tracker
-- that were started and have not run; and the operations that the peer has applied, in order.
pub record Replica (Cid W : Type 0) : Type 0 where
  pub state : MapState
  pub tracker : MapPinTracker Cid
  pub world : W
  pub pending : List (Call Cid)
  pub log : List LogOp

module _ {Cid Addr : Type 0} (x : Codecs Cid Addr) where
  -- The call of the tracker that `rpcClient.Go` starts, if it starts one.
  abbrev pub started : Option Request → List (Call Cid)
  started none = []
  started (some (track arg)) = Call.track (to_cid_arg x arg) ∷ []
  started (some (untrack arg)) = Call.untrack (to_cid_arg x arg).cid ∷ []
  started (some (peer_manager_add_peer a)) = []
  started (some (peer_manager_rm_peer p)) = []

module _ {Cid Addr W : Type 0} (x : Codecs Cid Addr) (r : IpfsRpc W) where
  abbrev pub run_call : Call Cid → List (Call Cid) → Replica Cid W → Replica Cid W
  run_call call rest t =
      let (tracker, world) = step x r call (t.tracker, t.world) in
      record t { tracker = tracker; world = world; pending = rest }

  -- A round of a worker, or a call that a client makes: `Track` and `Untrack` are called by the peer alone.
  abbrev pub IsOwnCall : Call Cid → Type 0
  IsOwnCall (Call.track c) = ⊥
  IsOwnCall (Call.untrack c) = ⊥
  IsOwnCall (Call.recover c) = CidDecodes x c
  IsOwnCall _ = Unit

  -- Raft has an operation applied; `StateSync` starts its calls; a call that was started runs, in any
  -- order; a worker goes round or a client calls.
  pub data Step : Replica Cid W → Replica Cid W → Type 0 where
    applies :
        (t : Replica Cid W) (op : LogOp) (st : MapState) (req : Option Request)
        → apply_to x (map_state_ops x) op t.state ≡ applied st req
        → Step t
            (record t { state = st; pending = t.pending ++ started x req; log = t.log ++ op ∷ [] })
    syncs :
        (t : Replica Cid W)
        → Step t (record t {
          pending = t.pending ++ spawned x (map_state_ops x) (r.now t.world) t.state t.tracker;
        })
    runs :
        (t : Replica Cid W) (before after : List (Call Cid)) (call : Call Cid)
        → t.pending ≡ before ++ call ∷ after
        → Step t (run_call call (before ++ after) t)
    acts :
        (t : Replica Cid W) (call : Call Cid) → IsOwnCall call → Step t (run_call call t.pending t)

  pub data Reach (s : Replica Cid W) : Replica Cid W → Type 0 where
    here : Reach s s
    next : {t u : Replica Cid W} → Reach s t → Step t u → Reach s u

-- a peer that starts, in a world
unfoldable pub new_replica : {Cid W : Type 0} → PeerId → W → Replica Cid W
unfolding new_map_state new_map_pin_tracker
new_replica self w = record {
  state = new_map_state;
  tracker = new_map_pin_tracker self;
  world = w;
  pending = [];
  log = [];
}
