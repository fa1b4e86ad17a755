-- ===== src/Cluster/Building.antt =====
-- cluster.go: `makeHost`, `setupRPC`, `setupConsensus` and the whole of `NewCluster`, over the libraries;
-- and the loops of `stateSyncWatcher` and `pushInformerMetrics`.
pub mod Made
use ipfs_cluster.Common.{
  ℕ, zero, suc, String, Bool, true, false, Option, none, some, List, [], ◌∷◌, ◌++◌, ◌≡◌, arith,
}
use ipfs_cluster.Common.Result.{Error, Result, ok, err}
use ipfs_cluster.External.{Codecs, PeerId}
use ipfs_cluster.Config.{Config}
use ipfs_cluster.PeerManager.{PeerManager, new_peer_manager, add_from_multiaddrs}
use ipfs_cluster.Cluster.Peers.{Network, known_addrs, start_peers}
use ipfs_cluster.Api.Metrics.{Metric}
use ipfs_cluster.Cluster.Lifecycle.{Cluster, Parts, set_up, push_metric}

-- What libp2p, its RPC library and `NewConsensus` give, over the state `W` of all that lies outside. The
-- peerstore and the network are in `W` once they are made; `new_consensus` keeps the component there.
pub record Libs (Key Pub Addr W : Type 0) : Type 0 where
  pub public_key : Key → Pub
  pub new_peerstore : W → W
  pub add_pub_key : PeerId → Pub → W → Option Error × W
  pub add_priv_key : PeerId → Key → W → Option Error × W
  pub new_network : List Addr → PeerId → W → Option Error × W
  pub new_host : W → PeerId × W  -- the ID of the host
  pub cancel : W → W  -- of the context
  pub register_api : W → Option Error × W  -- `RegisterName` at a new server
  pub new_client : W → W
  pub new_consensus : List PeerId → String → W → Option Error × W

module _ {Key Pub Addr W : Type 0} (libs : Libs Key Pub Addr W) where
  open libs use {
    public_key, new_peerstore, add_pub_key, add_priv_key, new_network, new_host, register_api,
    new_client, new_consensus,
  }

  -- `makeHost`, the host by its ID
  unfoldable pub make_host : Config Key Addr → W → Result PeerId × W
  make_host cfg w =
      let (e, w1) = add_pub_key cfg.id (public_key cfg.private_key) (new_peerstore w) in
      let (e', w2) = add_priv_key cfg.id cfg.private_key w1 in
      let (e'', w3) = new_network (cfg.cluster_addr ∷ []) cfg.id w2 in
      let (id, w4) = new_host w3 in
      elim e [
        | some m ↦ (err m, w1)
        | none ↦ elim e' [
          | some m ↦ (err m, w2)
          | none ↦ elim e'' [ some m ↦ (err m, w3) | none ↦ (ok id, w4) ]
        ]
      ]

  unfoldable pub setup_rpc : W → Option Error × W
  setup_rpc w =
      let (e, w') = register_api w in
      elim e [ some m ↦ (some m, w') | none ↦ (none, new_client w') ]

module _ {Key Pub Cid Addr W : Type 0} (libs : Libs Key Pub Addr W) (x : Codecs Cid Addr)
    (net : Network Addr W) (cfg : Config Key Addr) where
  unfoldable pub setup_consensus : PeerId → W → Option Error × W
  unfolding start_peers
  setup_consensus self w =
      libs.new_consensus (start_peers x net self cfg.bootstrap cfg.cluster_peers)
        cfg.consensus_data_folder w

  -- the `Cluster` that `NewCluster` makes, and its peer manager once it is set up
  unfoldable pub made : PeerId → W → Cluster Addr × W
  unfolding new_peer_manager add_from_multiaddrs
  made id w =
      let pm0 = new_peer_manager id cfg.cluster_addr in
      let (e, pm', w') =
        add_from_multiaddrs x net.add_addr (known_addrs x net id cfg.bootstrap cfg.cluster_peers)
          pm0 w in
      (
        record {
          id = id;
          leave_on_shutdown = cfg.leave_on_shutdown;
          has_consensus = false;
          peer_manager = pm';
          cluster_peers = cfg.cluster_peers;
          cancelled = false;
          closed = false;
          ready = false;
          shutdown = false;
        },
        w',
      )

  -- `NewCluster`, with what it calls of the other components; none is a panic
  unfoldable pub new_cluster : Parts Addr W → W → Option (Result (Cluster Addr) × W)
  unfolding make_host made set_up setup_rpc setup_consensus
  new_cluster parts w =
      let (res, w1) = make_host libs cfg w in
      elim res [
        | err m ↦ some (err m, libs.cancel w1)
        | ok id ↦
            let (c, w2) = made id w1 in
            set_up
              (record parts { setup_rpc = setup_rpc libs; setup_consensus = setup_consensus id }) c
              w2
      ]

-- What the loops of `stateSyncWatcher` and `pushInformerMetrics` select: their timer, or the end of the context.
pub data Tick : Type 0 where
  ticked : Tick
  context_done : Tick

module _ {W : Type 0} (select : W → Tick × W) where
  -- a loop that does `body` at each tick, on fuel: none if it goes on
  unfoldable pub at_ticks : (W → W) → ℕ → W → Option W
  at_ticks body zero w = none
  at_ticks body (suc fuel) w =
      let (event, w') = select w in
      let rest = at_ticks body fuel (body w') in
      elim event [ context_done ↦ some w' | ticked ↦ rest ]

  -- `stateSyncWatcher`: what `StateSync` returns is dropped
  unfoldable pub state_sync_watcher : {A : Type 0} → (W → A × W) → ℕ → W → Option W
  unfolding at_ticks
  state_sync_watcher state_sync = at_ticks (λ w. (state_sync w).1)

  -- `pushInformerMetrics`, in which a round sets the timer
  unfoldable pub push_informer_metrics :
      {Addr : Type 0} → Parts Addr W → PeerId → (Metric → ℕ) → (ℕ → W → W) → ℕ → W → Option W
  unfolding at_ticks push_metric
  push_informer_metrics parts self get_ttl reset_timer =
      at_ticks (λ w. let (delay, w') = push_metric parts self get_ttl w in reset_timer delay w')

  -- The number of rounds until the end of the context.
  pub data Ticks (body : W → W) (w' : W) : ℕ → W → Type 0 where
    at_end : (w : W) → select w ≡ (context_done, w') → Ticks body w' 1 w
    at_tick :
        (n : ℕ) (w w1 : W)
        → select w ≡ (ticked, w1)
        → Ticks body w' n (body w1)
        → Ticks body w' (suc n) w

  -- A loop that the context ends after some rounds returns, with as much fuel as there are rounds.
  pub at_ticks-returns :
      (body : W → W) {w' : W} {n : ℕ} {w : W} → Ticks body w' n w → at_ticks body n w ≡ some w'
  unfolding at_ticks
  at_ticks-returns body (at_end w e) = ground (arith, e)
  at_ticks-returns body (at_tick n w w1 e more) = ground (arith, e, at_ticks-returns body more)
