-- ===== src/Cluster/StateSync.antt =====
-- cluster.go: `StateSync`. The goroutines that it starts are calls of the tracker, which
-- `Tracker.Runs` interleaves with all other calls.
pub mod Tracked
pub mod Due
use ipfs_cluster.Common.{ℕ, Bool, List, [], ◌∷◌, ◌++◌, map, not, if◌then◌else◌}
use ipfs_cluster.Common.Result.{Error, Result, ok, err}
use ipfs_cluster.External.{Codecs}
use ipfs_cluster.Interfaces.{StateOps}
use ipfs_cluster.Api.Status.{unpinned, same_status}
use ipfs_cluster.Api.Types.{PinInfo, CidArg}
use ipfs_cluster.Tracker.{MapPinTracker, get}
use ipfs_cluster.Tracker.Workers.{status_all}
use ipfs_cluster.Tracker.Runs.{Call}

module _ {Cid Addr : Type 0} (x : Codecs Cid Addr) where
  -- `for _, carg := range clusterPins`: the pins that are not tracked
  unfoldable pub untracked : ℕ → MapPinTracker Cid → List (CidArg Cid) → List (CidArg Cid)
  unfolding get
  untracked t mpt [] = []
  untracked t mpt (carg ∷ cargs) =
      let rest = untracked t mpt cargs in
      if same_status (get x t carg.cid mpt).status unpinned then carg ∷ rest else rest

module _ {Cid Addr S : Type 0} (x : Codecs Cid Addr) (o : StateOps Cid S) where
  -- `for _, p := range c.tracker.StatusAll()`: the CIDs that should not be tracked
  unfoldable pub leftover : S → List (PinInfo Cid) → List Cid
  leftover st [] = []
  leftover st (p ∷ ps) =
      let rest = leftover st ps in if not (o.has st p.cid) then p.cid ∷ rest else rest

  -- the calls that are started
  unfoldable pub spawned : ℕ → S → MapPinTracker Cid → List (Call Cid)
  unfolding untracked leftover status_all
  spawned t st mpt =
      map Call.track (untracked x t mpt (o.list st))
      ++ map Call.untrack (leftover st (status_all mpt))

  -- `changed`
  unfoldable pub changed : ℕ → S → MapPinTracker Cid → List Cid
  unfolding untracked leftover status_all
  changed t st mpt =
      map (λ carg. carg.cid) (untracked x t mpt (o.list st)) ++ leftover st (status_all mpt)

  -- `StateSync` of the tracker as it is: what it returns, read from the tracker as it is at the end,
  -- and the calls that it starts
  unfoldable pub state_sync :
      ℕ
      → Result S
      → MapPinTracker Cid
      → MapPinTracker Cid
      → Result (List (PinInfo Cid)) × List (Call Cid)
  unfolding spawned changed get
  state_sync t (err e) mpt later = (err e, [])
  state_sync t (ok st) mpt later =
      (ok (map (λ h. get x t h later) (changed t st mpt)), spawned t st mpt)
