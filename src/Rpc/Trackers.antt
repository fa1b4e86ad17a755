-- ===== src/Rpc/Trackers.antt =====
-- rpc_api.go: the methods that reach the pin tracker of the peer.
use ipfs_cluster.Common.{Option, List}
use ipfs_cluster.Common.Result.{Error}
use ipfs_cluster.External.{Codecs}
use ipfs_cluster.Interfaces.{IpfsRpc}
use ipfs_cluster.Api.Types.{PinInfoSerial, CidArgSerial, to_cid_arg, pin_info_to_serial}
use ipfs_cluster.Util.{pin_info_slice_to_serial}
use ipfs_cluster.Tracker.{MapPinTracker}
use ipfs_cluster.Tracker.Workers
use ipfs_cluster.Cluster.Queries.{sync_all_local_of, sync_local_of}

module _ {Cid Addr W : Type 0} (x : Codecs Cid Addr) (r : IpfsRpc W) where
  unfoldable pub track : CidArgSerial → MapPinTracker Cid → W → Option Error × MapPinTracker Cid × W
  unfolding to_cid_arg Workers.track
  track arg mpt w = Workers.track x r (to_cid_arg x arg) mpt w

  unfoldable pub untrack :
      CidArgSerial → MapPinTracker Cid → W → Option Error × MapPinTracker Cid × W
  unfolding to_cid_arg Workers.untrack
  untrack arg mpt w = Workers.untrack x r (to_cid_arg x arg).cid mpt w

  unfoldable pub tracker_status_all : MapPinTracker Cid → List PinInfoSerial
  unfolding Workers.status_all
  tracker_status_all mpt = pin_info_slice_to_serial x (Workers.status_all mpt)

  unfoldable pub tracker_status : CidArgSerial → MapPinTracker Cid → W → PinInfoSerial
  unfolding to_cid_arg Workers.status pin_info_to_serial
  tracker_status arg mpt w = pin_info_to_serial x (Workers.status x r (to_cid_arg x arg).cid mpt w)

  unfoldable pub tracker_recover :
      CidArgSerial → MapPinTracker Cid → W → (PinInfoSerial × Option Error) × MapPinTracker Cid × W
  unfolding to_cid_arg Workers.recover pin_info_to_serial
  tracker_recover arg mpt w =
      let ((pinfo, e), mpt', w') = Workers.recover x r (to_cid_arg x arg).cid mpt w in
      ((pin_info_to_serial x pinfo, e), mpt', w')

  unfoldable pub sync_local :
      CidArgSerial → MapPinTracker Cid → W → (PinInfoSerial × Option Error) × MapPinTracker Cid × W
  unfolding to_cid_arg sync_local_of pin_info_to_serial
  sync_local arg mpt w =
      let ((pinfo, e), mpt', w') = sync_local_of x r (to_cid_arg x arg).cid mpt w in
      ((pin_info_to_serial x pinfo, e), mpt', w')

  unfoldable pub sync_all_local :
      MapPinTracker Cid → W → (List PinInfoSerial × Option Error) × MapPinTracker Cid × W
  unfolding sync_all_local_of
  sync_all_local mpt w =
      let ((pinfos, e), mpt', w') = sync_all_local_of x r mpt w in
      ((pin_info_slice_to_serial x pinfos, e), mpt', w')
