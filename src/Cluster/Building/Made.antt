-- ===== src/Cluster/Building/Made.antt =====
-- cluster.go: what a `NewCluster` without an error has made.
use ipfs_cluster.Common.{◌≡◌, true, none, some}
use ipfs_cluster.External.{Codecs, PeerId}
use ipfs_cluster.Config.{Config}
use ipfs_cluster.Cluster.Peers.{Network, start_peers}
use ipfs_cluster.Cluster.Lifecycle.{Cluster, Parts}
use ipfs_cluster.Cluster.Building.{Libs}

module _ {Key Pub Cid Addr W : Type 0} (libs : Libs Key Pub Addr W) (x : Codecs Cid Addr)
    (net : Network Addr W) (cfg : Config Key Addr) (parts : Parts Addr W) where
  -- The peers are in the peer manager, the RPC methods are registered, and the consensus component has
  -- been made of the peers and the folder that the configuration gives; a bootstrap came last.
  abbrev pub IsBuilt : PeerId → W → W → Type 0
  IsBuilt id w w' =
      let (e, w1) = libs.register_api w in
      (e ≡ none)
      × ((libs.new_consensus (start_peers x net id cfg.bootstrap cfg.cluster_peers)
            cfg.consensus_data_folder (libs.new_client w1)).0
          ≡ none)
      × ((v : W) × (parts.bootstrap v ≡ some (true, w')))
