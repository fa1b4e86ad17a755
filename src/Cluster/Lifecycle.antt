-- ===== src/Cluster/Lifecycle.antt =====
-- cluster.go: `NewCluster` once the host is made, `ready`, `Shutdown` and `pushInformerMetrics`;
-- peer_manager.go: `savePeers`. A panic is `none`.
pub mod Stopping
pub mod Removed
use ipfs_cluster.Common.{
  ℕ, String, Bool, true, false, not, ◌&&◌, Option, none, some, List, [], ◌∷◌, ◌/◌, if◌then◌else◌,
}
use ipfs_cluster.Common.Result.{Error, Result, ok, err}
use ipfs_cluster.External.{PeerId}
use ipfs_cluster.Api.Metrics.{Metric, second}
use ipfs_cluster.PeerManager.{PeerManager, reset_peers, peers_addrs}

-- The fields that the operations read or write, the peer manager and the configuration's cluster
-- peers included; `has_consensus` says that `c.consensus` is not nil.
pub record Cluster (Addr : Type 0) : Type 0 where
  pub id : PeerId
  pub leave_on_shutdown : Bool
  pub has_consensus : Bool
  pub peer_manager : PeerManager Addr
  pub cluster_peers : List Addr
  pub cancelled : Bool
  pub closed : Bool  -- the host
  pub ready : Bool  -- `readyCh` is closed
  pub shutdown : Bool

-- What the operations call of the other components, over their state `W`. `shutdown_consensus` is
-- none where it panics; `save_config` is the configuration's `Save("")` with these cluster peers.
pub record Parts (Addr W : Type 0) : Type 0 where
  pub save_config : List Addr → W → Option Error × W
  pub log_rm_peer : PeerId → W → Option Error × W
  pub shutdown_consensus : W → Option (Option Error × W)
  pub shutdown_api : W → Option Error × W
  pub shutdown_ipfs : W → Option Error × W
  pub shutdown_tracker : W → Option Error × W
  pub setup_rpc : W → Option Error × W
  pub setup_consensus : W → Option Error × W
  pub set_clients : W → W
  pub bootstrap : W → Option (Bool × W)
  pub leader : W → Result PeerId
  pub get_metric : W → Metric × W
  pub log_metric : PeerId → Metric → W → Option Error × W

-- What `ready` selects first.
pub data Woken : Type 0 where
  timed_out : Woken
  consensus_ready : Woken
  context_done : Woken

module _ {Addr W : Type 0} (parts : Parts Addr W) where
  open parts use {
    log_rm_peer, shutdown_consensus, shutdown_api, shutdown_ipfs, shutdown_tracker, setup_rpc,
    setup_consensus, set_clients, bootstrap, save_config,
  }

  -- `savePeers`, which drops the error of `Save`
  unfoldable pub save_peers : Cluster Addr → W → Cluster Addr × W
  unfolding peers_addrs
  save_peers c w =
      let c' = record c { cluster_peers = peers_addrs c.peer_manager } in
      let (e, w') = save_config c'.cluster_peers w in (c', w')

  -- leaving the cluster, if the configuration asks for it
  unfoldable pub leave : Cluster Addr → W → Option (Cluster Addr × W)
  unfolding reset_peers
  leave c w =
      if not c.leave_on_shutdown
      then some (c, w)
      else if not c.has_consensus
      then none
      else (let (e, w') = log_rm_peer c.id w in
          some (record c { peer_manager = reset_peers c.peer_manager }, w'))

  -- the end of `Shutdown`, from `savePeers` on
  unfoldable pub stop_parts : Cluster Addr → W → Option Error × Cluster Addr × W
  unfolding save_peers
  stop_parts c w =
      let (c1, w0) = save_peers c w in
      let (e, w1) = shutdown_api w0 in
      let (e', w2) = shutdown_ipfs w1 in
      let (e'', w3) = shutdown_tracker w2 in
      elim e [
        | some m ↦ (some m, c1, w1)
        | none ↦ elim e' [
          | some m ↦ (some m, c1, w2)
          | none ↦ elim e'' [
            | some m ↦ (some m, c1, w3)
            | none ↦ (none, record c1 { closed = true; shutdown = true }, w3)
          ]
        ]
      ]

  -- `Shutdown` once it has left: the contexts and the consensus
  unfoldable pub stop_consensus : Cluster Addr → W → Option (Option Error × Cluster Addr × W)
  unfolding stop_parts
  stop_consensus c w =
      let c1 = record c { cancelled = true } in
      if not c.has_consensus then some (stop_parts c1 w) else elim (shutdown_consensus w) [
        | none ↦ none
        | some (some m, w') ↦ some (some m, c1, w')
        | some (none, w') ↦ some (stop_parts c1 w')
      ]

  unfoldable pub shutdown_cluster : Cluster Addr → W → Option (Option Error × Cluster Addr × W)
  unfolding leave stop_consensus
  shutdown_cluster c w =
      if c.shutdown
      then some (none, c, w)
      else elim (leave c w) [ none ↦ none | some (c', w') ↦ stop_consensus c' w' ]

  -- `c.Shutdown(); return nil, err`
  unfoldable pub give_up : Error → Cluster Addr → W → Option (Result (Cluster Addr) × W)
  unfolding shutdown_cluster
  give_up e c w = elim (shutdown_cluster c w) [ none ↦ none | some (_, _, w') ↦ some (err e, w') ]

  -- `NewCluster` from the bootstrap on, which it runs twice; the result of the first is dropped
  unfoldable pub bootstrap_twice : Cluster Addr → W → Option (Result (Cluster Addr) × W)
  unfolding give_up
  bootstrap_twice c w = elim (bootstrap w) [
    | none ↦ none
    | some (_, w1) ↦ elim (bootstrap w1) [
      | none ↦ none
      | some (true, w2) ↦ some (ok c, w2)
      | some (false, w2) ↦ give_up "bootstrap unsuccessful" c w2
    ]
  ]

  -- `NewCluster` once the peer manager is set up; `c` has no consensus yet
  unfoldable pub set_up : Cluster Addr → W → Option (Result (Cluster Addr) × W)
  unfolding give_up bootstrap_twice
  set_up c w =
      let (e, w1) = setup_rpc w in
      let (e', w2) = setup_consensus w1 in
      elim e [
        | some m ↦ give_up m c w1
        | none ↦ elim e' [
          | some m ↦ give_up m c w2
          | none ↦ bootstrap_twice (record c { has_consensus = true }) (set_clients w2)
        ]
      ]

  -- `ready`, by what it selects
  unfoldable pub get_ready : Woken → Cluster Addr → W → Option (Cluster Addr × W)
  unfolding shutdown_cluster
  get_ready timed_out c w = elim (shutdown_cluster c w) [
    | none ↦ none
    | some (_, c', w') ↦ some (c', w')
  ]
  get_ready consensus_ready c w = some (record c { ready = true }, w)
  get_ready context_done c w = some (c, w)

module _ {Addr W : Type 0} (parts : Parts Addr W) where
  open parts use {leader, get_metric, log_metric}

  -- a round of the loop of `pushInformerMetrics`: the delay until the next, from the metric's TTL
  unfoldable pub push_metric : PeerId → (Metric → ℕ) → W → ℕ × W
  push_metric self get_ttl w = elim (leader w) [
    | err e ↦ (second, w)
    | ok l ↦
        let (m, w1) = get_metric w in
        let metric = record m { peer = self } in
        let (e, w2) = log_metric l metric w1 in (get_ttl metric / 2, w2)
  ]
