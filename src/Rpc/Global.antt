-- ===== src/Rpc/Global.antt =====
-- rpc_api.go: the methods of the cluster.
use ipfs_cluster.Common.{ℕ, String, Option, none, some, List, map}
use ipfs_cluster.Common.Result.{Error, Result}
use ipfs_cluster.External.{Codecs, PeerId}
use ipfs_cluster.Interfaces.{StateOps}
use ipfs_cluster.Api.Types.{
  CidArg, CidArgSerial, to_cid_arg, cid_arg_to_serial, GlobalPinInfoSerial, PinInfoSerial,
  global_pin_info_to_serial,
}
use ipfs_cluster.Api.Ids.{ClusterId, IdSerial, id_to_serial, to_multiaddr}
use ipfs_cluster.Util.{global_pin_info_slice_to_serial}
use ipfs_cluster.Cluster.Allocate
use ipfs_cluster.Cluster.Allocate.{Sources}
use ipfs_cluster.Cluster.Peers
use ipfs_cluster.Cluster.Peers.{Network}
use ipfs_cluster.Cluster.Queries
use ipfs_cluster.Cluster.Queries.{CidMethod, AllMethod}

module _ {Cid Addr : Type 0} (x : Codecs Cid Addr) where
  unfoldable pub id : ClusterId Addr → IdSerial
  unfolding id_to_serial
  id i = id_to_serial x i

  -- `log_pin` and `log_unpin` are the consensus component's
  unfoldable pub pin :
      {S W : Type 0}
      → StateOps Cid S
      → Sources Cid S
      → (CidArg Cid → W → Option Error × W)
      → CidArgSerial
      → W
      → Option Error × W
  unfolding to_cid_arg Allocate.pin
  pin o src log_pin arg w = Allocate.pin x o src log_pin (to_cid_arg x arg).cid w

  unfoldable pub unpin :
      {W : Type 0} → (CidArg Cid → W → Option Error × W) → CidArgSerial → W → Option Error × W
  unfolding to_cid_arg Allocate.unpin
  unpin log_unpin arg w = Allocate.unpin log_unpin (to_cid_arg x arg).cid w

  unfoldable pub pin_list : {S : Type 0} → StateOps Cid S → Result S → List CidArgSerial
  unfolding Queries.pins cid_arg_to_serial
  pin_list o st = map (cid_arg_to_serial x) (Queries.pins o st)

  unfoldable pub peers : List (ClusterId Addr) → List IdSerial
  unfolding id_to_serial
  peers ids = map (id_to_serial x) ids

  module _ {W : Type 0} (net : Network Addr W) (self : PeerId) where
    unfoldable pub peer_add : String → W → Option ((IdSerial × Option Error) × W)
    unfolding to_multiaddr Peers.peer_add id_to_serial
    peer_add arg w = elim (Peers.peer_add x net self (to_multiaddr x arg) w) [
      | none ↦ none
      | some ((id, e), w') ↦ some ((id_to_serial x id, e), w')
    ]

    unfoldable pub peer_remove : PeerId → W → Option Error × W
    unfolding Peers.peer_remove
    peer_remove pid w = Peers.peer_remove x net self pid w

    unfoldable pub join : String → W → Option (Option Error × W)
    unfolding to_multiaddr Peers.join
    join arg w = Peers.join x net self (to_multiaddr x arg) w

  module _ (now : ℕ) (members : List PeerId) where
    module _ (call : CidMethod → CidArgSerial → PeerId → PinInfoSerial × Option Error) where
      unfoldable pub status : CidArgSerial → GlobalPinInfoSerial
      unfolding to_cid_arg Queries.status global_pin_info_to_serial
      status arg =
          global_pin_info_to_serial x (Queries.status x now members call (to_cid_arg x arg).cid)

      unfoldable pub sync : CidArgSerial → GlobalPinInfoSerial
      unfolding to_cid_arg Queries.sync global_pin_info_to_serial
      sync arg =
          global_pin_info_to_serial x (Queries.sync x now members call (to_cid_arg x arg).cid)

      unfoldable pub recover : CidArgSerial → GlobalPinInfoSerial
      unfolding to_cid_arg Queries.recover global_pin_info_to_serial
      recover arg =
          global_pin_info_to_serial x (Queries.recover x now members call (to_cid_arg x arg).cid)

    module _ (call : AllMethod → PeerId → List PinInfoSerial × Option Error) where
      unfoldable pub status_all : List GlobalPinInfoSerial
      unfolding Queries.status_all
      status_all = global_pin_info_slice_to_serial x (Queries.status_all x now members call)

      unfoldable pub sync_all : List GlobalPinInfoSerial
      unfolding Queries.sync_all
      sync_all = global_pin_info_slice_to_serial x (Queries.sync_all x now members call)
