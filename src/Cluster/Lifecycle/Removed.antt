-- ===== src/Cluster/Lifecycle/Removed.antt =====
-- peer_manager.go: the end of `rmPeer` at the peer that is removed, which shuts itself down.
use ipfs_cluster.Common.{◌≡◌, Option, none, some, [], arith, true, false, inl, inr, Option-cases}
use ipfs_cluster.Common.Result.{Error}
use ipfs_cluster.PeerManager.{reset_peers}
use ipfs_cluster.Cluster.Lifecycle.{Cluster, Parts, shutdown_cluster}
use ipfs_cluster.Cluster.Lifecycle.Stopping.{shutdown-done, reset-alone}

module _ {Addr W : Type 0} (parts : Parts Addr W) (sleep : W → W) where
  -- The goroutine that `rmPeer` starts, with what its second shutdown returns, which it drops as it does
  -- the error of the first; none is a panic of one of them. `sleep` is what happens until the second.
  unfoldable pub self_shutdown : Cluster Addr → W → Option (Option Error × Cluster Addr × W)
  unfolding shutdown_cluster reset_peers
  self_shutdown c w = elim (parts.shutdown_consensus w) [
    | none ↦ none
    | some (_, w1) ↦
        shutdown_cluster parts (record c { peer_manager = reset_peers c.peer_manager }) (sleep w1)
  ]

  -- A peer that is removed and whose second shutdown reports no error is stopped, and has saved a
  -- configuration without cluster peers.
  pub self_shutdown-alone :
      (c c' : Cluster Addr) (w w' : W)
      → c.shutdown ≡ false
      → self_shutdown c w ≡ some (none, c', w')
      → (c'.cancelled ≡ true) × (c'.closed ≡ true) × (c'.cluster_peers ≡ [])
  unfolding self_shutdown
  self_shutdown-alone c c' w w' up h = elim (Option-cases (parts.shutdown_consensus w)) [
    | inl panics ↦ absurd (ground (arith, h, panics))
    | inr ((e, w1), went) ↦
        let alone : Cluster Addr = record c { peer_manager = reset_peers c.peer_manager } in
        let (cancelled, closed, saved, calls, again) =
          shutdown-done parts alone c' (sleep w1) w' w' up (ground (arith, h, went)) in
        (cancelled, closed, ground (arith, saved, reset-alone c.peer_manager))
  ]
