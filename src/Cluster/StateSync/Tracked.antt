-- ===== src/Cluster/StateSync/Tracked.antt =====
-- cluster.go and map_pin_tracker.go together: the calls that `StateSync` starts, run by the tracker.
use mathlib.Core.List.Memᴰ
use ipfs_cluster.Common.{String, ◌≢◌, none, List, Memᴰ}
use ipfs_cluster.Common.Dict.{lookup}
use ipfs_cluster.External.{Codecs}
use ipfs_cluster.Interfaces.{IpfsRpc}
use ipfs_cluster.Tracker.{MapPinTracker}
use ipfs_cluster.Tracker.Workers
use ipfs_cluster.Tracker.Runs.{Call}
use ipfs_cluster.Cluster.StateSync.Due.{Due}

module _ {Cid Addr W : Type 0} (x : Codecs Cid Addr) (r : IpfsRpc W) where
  open x use {cid_string}
  open r use {now}

  -- The tracker has an entry for the CID.
  abbrev pub Tracked : String → MapPinTracker Cid → Type 0
  Tracked k mpt = lookup k mpt.status ≢ none

  -- The calls that `StateSync` starts, and rounds of the pin worker.
  abbrev pub Keeps : Call Cid → Type 0
  Keeps (Call.track c) = Unit
  Keeps (Call.untrack c) = Unit
  Keeps Call.pin_round = Unit
  Keeps _ = ⊥
