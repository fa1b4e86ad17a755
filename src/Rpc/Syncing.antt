-- ===== src/Rpc/Syncing.antt =====
-- rpc_api.go: `Version`, with the version of version.go, and `StateSync`.
use ipfs_cluster.Common.{ℕ, String, Option, none, some, List, []}
use ipfs_cluster.Common.Result.{Error, Result, ok, err}
use ipfs_cluster.External.{Codecs}
use ipfs_cluster.Interfaces.{StateOps}
use ipfs_cluster.Api.Types.{PinInfoSerial}
use ipfs_cluster.Util.{pin_info_slice_to_serial}
use ipfs_cluster.Tracker.{MapPinTracker}
use ipfs_cluster.Tracker.Runs.{Call}
use ipfs_cluster.Cluster.StateSync

-- `api.Version`
pub record Version : Type 0 where
  pub version : String

-- `Cluster.Version`
unfoldable pub cluster_version : String
cluster_version = "0.0.1"

unfoldable pub version : Version
unfolding cluster_version
version = record { version = cluster_version }

module _ {Cid Addr S : Type 0} (x : Codecs Cid Addr) (o : StateOps Cid S) where
  -- Beside an error the slice is empty.
  unfoldable pub state_sync :
      ℕ
      → Result S
      → MapPinTracker Cid
      → MapPinTracker Cid
      → (List PinInfoSerial × Option Error) × List (Call Cid)
  unfolding StateSync.state_sync
  state_sync t st mpt later =
      let (res, calls) = StateSync.state_sync x o t st mpt later in
      (
        elim res [ ok infos ↦ (pin_info_slice_to_serial x infos, none) | err e ↦ ([], some e) ],
        calls,
      )
