-- ===== src/Raft/Building.antt =====
-- raft.go: `defaultRaftConfig` and `NewRaft`, over the constructors of the libraries.
use ipfs_cluster.Common.{ℕ, String, Bool, true, false, List, map}
use ipfs_cluster.Common.Result.{Result, ok, err}
use ipfs_cluster.External.{PeerId}

-- The fields of hashicorp/raft's configuration that `defaultRaftConfig` sets, but for the logs.
pub record RaftConfig : Type 0 where
  pub disable_bootstrap_after_elect : Bool
  pub enable_single_node : Bool
  pub shutdown_on_remove : Bool

unfoldable pub default_raft_config : RaftConfig → RaftConfig
default_raft_config c = record {
  disable_bootstrap_after_elect = false;
  enable_single_node = true;
  shutdown_on_remove = false;
}

-- `RaftMaxSnapshots`
abbrev pub raft_max_snapshots : ℕ
raft_max_snapshots = 5

-- What libp2p-raft, hashicorp/raft and raft-boltdb build: a transport from the host, a store of snapshots
-- and one of the log from a folder and a file, and Raft from them, over the state `W` of all that
-- lies outside.
pub record RaftLibs (Transport Snapshots Bolt Fsm Node W : Type 0) : Type 0 where
  pub default_config : RaftConfig
  pub join_path : String → String → String
  pub new_transport : W → Result Transport × W
  pub new_snapshot_store : String → ℕ → W → Result Snapshots × W
  pub new_bolt_store : String → W → Result Bolt × W
  pub new_raft_node :
      RaftConfig → Fsm → Bolt → Bolt → Snapshots → List String → Transport → W → Result Node × W

-- `Raft`, with the peers of its store
pub record RaftParts (Transport Snapshots Bolt Node : Type 0) : Type 0 where
  pub raft : Node
  pub transport : Transport
  pub snapshot_store : Snapshots
  pub log_store : Bolt
  pub stable_store : Bolt
  pub peerstore : List String
  pub boltdb : Bolt
  pub data_folder : String

module _ {Transport Snapshots Bolt Fsm Node W : Type 0}
    (libs : RaftLibs Transport Snapshots Bolt Fsm Node W) (b58_encode : PeerId → String) where
  open libs use {
    default_config, join_path, new_transport, new_snapshot_store, new_bolt_store, new_raft_node,
  }

  -- `NewRaft` once the stores are open
  unfoldable pub with_stores :
      List String
      → String
      → Fsm
      → Transport
      → Snapshots
      → Bolt
      → W
      → Result (RaftParts Transport Snapshots Bolt Node) × W
  unfolding default_raft_config
  with_stores peers_str data_folder fsm transport snapshots log_store w =
      let (res, w') =
        new_raft_node (default_raft_config default_config) fsm log_store log_store snapshots
          peers_str transport w in
      elim res [
        | err e ↦ (err e, w')
        | ok r ↦ (
          ok (record {
            raft = r;
            transport = transport;
            snapshot_store = snapshots;
            log_store = log_store;
            stable_store = log_store;
            peerstore = peers_str;
            boltdb = log_store;
            data_folder = data_folder;
          }),
          w',
        )
      ]

  unfoldable pub new_raft :
      List PeerId → String → Fsm → W → Result (RaftParts Transport Snapshots Bolt Node) × W
  unfolding with_stores
  new_raft peers data_folder fsm w =
      let (t, w1) = new_transport w in
      let (s, w2) = new_snapshot_store data_folder raft_max_snapshots w1 in
      let (b, w3) = new_bolt_store (join_path data_folder "raft.db") w2 in
      elim t [
        | err e ↦ (err e, w1)
        | ok transport ↦ elim s [
          | err e ↦ (err e, w2)
          | ok snapshots ↦ elim b [
            | err e ↦ (err e, w3)
            | ok log_store ↦
                with_stores (map b58_encode peers) data_folder fsm transport snapshots log_store w3
          ]
        ]
      ]
