-- ===== src/Cluster/Queries.antt =====
-- cluster.go: the methods that ask all members or the tracker of this peer, and `Pins`.
use ipfs_cluster.Common.{ℕ, Option, List, []}
use ipfs_cluster.Common.Result.{Error, Result, ok, err}
use ipfs_cluster.External.{Codecs, PeerId}
use ipfs_cluster.Interfaces.{StateOps, IpfsRpc}
use ipfs_cluster.Api.Types.{PinInfo, PinInfoSerial, GlobalPinInfo, CidArg, CidArgSerial}
use ipfs_cluster.Tracker.{MapPinTracker}
use ipfs_cluster.Tracker.Workers
use ipfs_cluster.Cluster.Global.{global_pin_info_cid, global_pin_info_slice}

-- The RPC methods that are called on every member, for one CID and for all of them.
pub data CidMethod : Type 0 where
  tracker_status sync_local tracker_recover : CidMethod

pub data AllMethod : Type 0 where
  tracker_status_all sync_all_local : AllMethod

-- `Pins`
unfoldable pub pins : {Cid S : Type 0} → StateOps Cid S → Result S → List (CidArg Cid)
pins o (err e) = []
pins o (ok st) = o.list st

-- `call` is the reply of a member to a method, and its error, if there is one.
module _ {Cid Addr : Type 0} (x : Codecs Cid Addr) (now : ℕ) (members : List PeerId) where
  module _ (call : CidMethod → CidArgSerial → PeerId → PinInfoSerial × Option Error) where
    unfoldable pub status : Cid → GlobalPinInfo Cid
    unfolding global_pin_info_cid
    status h = global_pin_info_cid x now (call tracker_status) members h

    unfoldable pub sync : Cid → GlobalPinInfo Cid
    unfolding global_pin_info_cid
    sync h = global_pin_info_cid x now (call sync_local) members h

    unfoldable pub recover : Cid → GlobalPinInfo Cid
    unfolding global_pin_info_cid
    recover h = global_pin_info_cid x now (call tracker_recover) members h

  module _ (call : AllMethod → PeerId → List PinInfoSerial × Option Error) where
    unfoldable pub status_all : List (GlobalPinInfo Cid)
    unfolding global_pin_info_slice
    status_all = global_pin_info_slice x now (call tracker_status_all) members

    unfoldable pub sync_all : List (GlobalPinInfo Cid)
    unfolding global_pin_info_slice
    sync_all = global_pin_info_slice x now (call sync_all_local) members

-- `SyncAllLocal`, `SyncLocal` and `RecoverLocal`, which log the error and pass it on
module _ {Cid Addr W : Type 0} (x : Codecs Cid Addr) (r : IpfsRpc W) where
  unfoldable pub sync_all_local_of :
      MapPinTracker Cid → W → (List (PinInfo Cid) × Option Error) × MapPinTracker Cid × W
  unfolding Workers.sync_all
  sync_all_local_of mpt w = Workers.sync_all x r mpt w

  unfoldable pub sync_local_of :
      Cid → MapPinTracker Cid → W → (PinInfo Cid × Option Error) × MapPinTracker Cid × W
  unfolding Workers.sync
  sync_local_of h mpt w = Workers.sync x r h mpt w

  unfoldable pub recover_local :
      Cid → MapPinTracker Cid → W → (PinInfo Cid × Option Error) × MapPinTracker Cid × W
  unfolding Workers.recover
  recover_local h mpt w = Workers.recover x r h mpt w
