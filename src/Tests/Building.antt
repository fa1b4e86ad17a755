-- ===== src/Tests/Building.antt =====
-- A peer that is made, over libraries that build everything.
use ipfs_cluster.Common.{String, true, none, some, []}
use ipfs_cluster.Common.Result.{ok}
use ipfs_cluster.Api.Metrics.{no_metric}
use ipfs_cluster.PeerManager.{PeerManager}
use ipfs_cluster.Cluster.Lifecycle.{Cluster, Parts}
use ipfs_cluster.Cluster.Building.{Libs, setup_rpc, setup_consensus, made}
use ipfs_cluster.Tests.World.{codecs}
use ipfs_cluster.Tests.Members.{network}
use ipfs_cluster.Tests.Peers.{config}

-- the state is the peer manager, and no library changes it
abbrev World : Type 0
World = PeerManager String

abbrev libs : Libs String String String World
libs = record {
  public_key = λ k. k;
  new_peerstore = λ w. w;
  add_pub_key = λ p k w. (none, w);
  add_priv_key = λ p k w. (none, w);
  new_network = λ addrs p w. (none, w);
  new_host = λ w. ("A", w);
  cancel = λ w. w;
  register_api = λ w. (none, w);
  new_client = λ w. w;
  new_consensus = λ ps folder w. (none, w);
}

abbrev parts : Parts String World
parts = record {
  save_config = λ a w. (none, w);
  log_rm_peer = λ p w. (none, w);
  shutdown_consensus = λ w. some (none, w);
  shutdown_api = λ w. (none, w);
  shutdown_ipfs = λ w. (none, w);
  shutdown_tracker = λ w. (none, w);
  setup_rpc = λ w. (none, w);
  setup_consensus = λ w. (none, w);
  set_clients = λ w. w;
  bootstrap = λ w. some (true, w);
  leader = λ w. ok "A";
  get_metric = λ w. (no_metric, w);
  log_metric = λ p m w. (none, w);
}

abbrev nothing : World
nothing = record { self = "A"; cluster_addr = ""; peermap = [] }

abbrev peer : Cluster String
peer = record (made libs codecs network config "A" nothing).0 { has_consensus = true }
