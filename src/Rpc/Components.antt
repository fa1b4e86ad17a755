-- ===== src/Rpc/Components.antt =====
-- rpc_api.go: the methods of the consensus, the peer manager and the monitor, and
-- `RemoteMultiaddrForPeer`.
use ipfs_cluster.Common.{ℕ, String, Bool, true, false, Option, none, some, List, [], ◌∷◌, ◌<>◌}
use ipfs_cluster.Common.Result.{Error, Result, ok, err}
use ipfs_cluster.External.{Codecs, PeerId}
use ipfs_cluster.Api.Types.{CidArgSerial, to_cid_arg}
use ipfs_cluster.Api.Ids.{to_multiaddr, to_multiaddrs, multiaddr_to_serial}
use ipfs_cluster.Api.Metrics.{Metric}
use ipfs_cluster.Util.{multiaddr_join}
use ipfs_cluster.Consensus.{RaftOps, log_pin, log_unpin, log_add_peer, log_rm_peer}
use ipfs_cluster.PeerManager.{PeerManager, add_peer, add_from_multiaddrs, rm_peer, peers}
use ipfs_cluster.Monitor.{StdPeerMonitor, log_metric, last_metrics}

module _ {Cid Addr W : Type 0} (x : Codecs Cid Addr) (o : RaftOps W) where
  unfoldable pub consensus_log_pin : CidArgSerial → W → Option Error × W
  unfolding to_cid_arg log_pin
  consensus_log_pin arg w = log_pin x o (to_cid_arg x arg) w

  unfoldable pub consensus_log_unpin : CidArgSerial → W → Option Error × W
  unfolding to_cid_arg log_unpin
  consensus_log_unpin arg w = log_unpin x o (to_cid_arg x arg) w

  unfoldable pub consensus_log_add_peer : String → W → Option Error × W
  unfolding to_multiaddr log_add_peer
  consensus_log_add_peer arg w = log_add_peer x o (to_multiaddr x arg) w

  unfoldable pub consensus_log_rm_peer : PeerId → W → Option Error × W
  unfolding log_rm_peer
  consensus_log_rm_peer pid w = log_rm_peer x o pid w

module _ {Cid Addr P : Type 0} (x : Codecs Cid Addr) (add_addr : PeerId → Addr → P → P) where
  unfoldable pub peer_manager_add_peer :
      String → PeerManager Addr → P → Option Error × PeerManager Addr × P
  unfolding to_multiaddr add_peer
  peer_manager_add_peer arg pm ps = add_peer x add_addr (to_multiaddr x arg) pm ps

  unfoldable pub peer_manager_add_from_multiaddrs :
      List String → PeerManager Addr → P → Option Error × PeerManager Addr × P
  unfolding to_multiaddrs add_from_multiaddrs
  peer_manager_add_from_multiaddrs arg pm ps =
      add_from_multiaddrs x add_addr (to_multiaddrs x arg) pm ps

unfoldable pub peer_manager_rm_peer_shutdown :
    {Addr : Type 0} → PeerId → PeerManager Addr → Bool × PeerManager Addr
unfolding rm_peer
peer_manager_rm_peer_shutdown pid pm = rm_peer pid true pm

unfoldable pub peer_manager_rm_peer :
    {Addr : Type 0} → PeerId → PeerManager Addr → Bool × PeerManager Addr
unfolding rm_peer
peer_manager_rm_peer pid pm = rm_peer pid false pm

unfoldable pub peer_manager_peers : {Addr : Type 0} → PeerManager Addr → List PeerId
unfolding peers
peer_manager_peers pm = peers pm

-- none is a panic of the monitor
unfoldable pub peer_monitor_log_metric : Metric → StdPeerMonitor → Option StdPeerMonitor
unfolding log_metric
peer_monitor_log_metric m mon = log_metric m mon

module _ {Cid Addr : Type 0} (x : Codecs Cid Addr) where
  unfoldable pub peer_monitor_last_metrics : ℕ → StdPeerMonitor → String → Option (List Metric)
  unfolding last_metrics
  peer_monitor_last_metrics now mon name = last_metrics x now mon name

  -- `conns` are the remote addresses of the connections to the peer; none is the panic of
  -- `multiaddrJoin`
  unfoldable pub remote_multiaddr_for_peer :
      (PeerId → String) → PeerId → List Addr → Option (Result String)
  unfolding multiaddr_join multiaddr_to_serial
  remote_multiaddr_for_peer pretty pid [] = some (err ("no connections to: " <> pretty pid))
  remote_multiaddr_for_peer pretty pid (conn ∷ conns) = elim (multiaddr_join x conn pid) [
    | none ↦ none
    | some addr ↦ some (ok (multiaddr_to_serial x addr))
  ]
