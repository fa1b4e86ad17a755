-- ===== src/Cluster/Lifecycle/Stopping.antt =====
-- cluster.go: what `Shutdown` leaves behind.
use ipfs_cluster.Common.{
  ◌≡◌, sym, ap, subst, ◌∙◌, true, false, none, some, List, [], Bool-cases, Option-cases, inl, inr,
  arith, eq_refl, if◌then◌else◌,
}
use ipfs_cluster.Common.Dict.{insert}
use ipfs_cluster.Common.Result.{Error}
use ipfs_cluster.PeerManager.{PeerManager, reset_peers, peers_addrs, addrs_but}
use ipfs_cluster.Cluster.Lifecycle.{
  Cluster, Parts, save_peers, leave, stop_parts, stop_consensus, shutdown_cluster, set_up, give_up,
}

pub reset-alone : {Addr : Type 0} (pm : PeerManager Addr) → peers_addrs (reset_peers pm) ≡ []
unfolding peers_addrs reset_peers addrs_but insert
reset-alone pm = ground (arith, eq_refl pm.self)

module _ {Addr W : Type 0} (parts : Parts Addr W) where
  -- what the end of `Shutdown` has called, from `Save` on
  abbrev pub Ended : List Addr → W → W → Type 0
  Ended saved at w' =
      w'
      ≡ (parts.shutdown_tracker
          (parts.shutdown_ipfs (parts.shutdown_api (parts.save_config saved at).1).1).1).1

  stop_parts-done :
      (c c' : Cluster Addr) (w w' : W)
      → stop_parts parts c w ≡ (none, c', w')
      → (c'
          ≡ record c { cluster_peers = peers_addrs c.peer_manager; closed = true; shutdown = true })
        × Ended (peers_addrs c.peer_manager) w w'
  unfolding stop_parts save_peers
  stop_parts-done c c' w w' h =
      let w0 = (parts.save_config (peers_addrs c.peer_manager) w).1 in
      let w1 = (parts.shutdown_api w0).1 in
      let w2 = (parts.shutdown_ipfs w1).1 in
      elim (Option-cases (parts.shutdown_api w0).0) [
        | inr (m, failed) ↦ absurd (ground (arith, h, failed))
        | inl api ↦ elim (Option-cases (parts.shutdown_ipfs w1).0) [
          | inr (m, failed) ↦ absurd (ground (arith, h, api, failed))
          | inl ipfs ↦ elim (Option-cases (parts.shutdown_tracker w2).0) [
            | inr (m, failed) ↦ absurd (ground (arith, h, api, ipfs, failed))
            | inl tracker ↦
                (ground (arith, h, api, ipfs, tracker), ground (arith, h, api, ipfs, tracker))
          ]
        ]
      ]

  stop_consensus-done :
      (c c' : Cluster Addr) (w w' : W)
      → stop_consensus parts c w ≡ some (none, c', w')
      → (at : W) × (stop_parts parts (record c { cancelled = true }) at ≡ (none, c', w'))
  unfolding stop_consensus
  stop_consensus-done c c' w w' h = elim (Bool-cases c.has_consensus) [
    | inr early ↦ (w, ground (arith, h, early))
    | inl there ↦ elim (Option-cases (parts.shutdown_consensus w)) [
      | inl panics ↦ absurd (ground (arith, h, there, panics))
      | inr ((e, w1), went) ↦ elim (Option-cases e) [
        | inl fine ↦ (w1, ground (arith, h, there, went, fine))
        | inr (m, failed) ↦ absurd (ground (arith, h, there, went, failed))
      ]
    ]
  ]

  leave-addrs :
      (c c1 : Cluster Addr) (w w1 : W)
      → leave parts c w ≡ some (c1, w1)
      → peers_addrs c1.peer_manager
        ≡ (if c.leave_on_shutdown then [] else peers_addrs c.peer_manager)
  unfolding leave
  leave-addrs c c1 w w1 h = elim (Bool-cases c.leave_on_shutdown) [
    | inr stays ↦ ground (arith, h, stays)
    | inl leaves ↦ elim (Bool-cases c.has_consensus) [
      | inr early ↦ absurd (ground (arith, h, leaves, early))
      | inl there ↦ ground (arith, h, leaves, there, reset-alone c.peer_manager)
    ]
  ]

  -- A `Shutdown` without an error, of a peer that was not shut down before, leaves a peer whose contexts are
  -- done, whose host is closed and that is shut down, and for which a second `Shutdown` does nothing. It
  -- has called `Save` of the configuration, whose error is dropped, with the addresses of the other peers
  -- as the cluster peers, or with none if the configuration has it leave on shutdown (whether or not its
  -- removal was logged), and then the shutdowns of the API, of the connector and of the tracker.
  pub shutdown-done :
      (c c' : Cluster Addr) (w w' v : W)
      → c.shutdown ≡ false
      → shutdown_cluster parts c w ≡ some (none, c', w')
      → (c'.cancelled ≡ true)
        × (c'.closed ≡ true)
        × (c'.cluster_peers ≡ (if c.leave_on_shutdown then [] else peers_addrs c.peer_manager))
        × ((at : W) × Ended c'.cluster_peers at w')
        × (shutdown_cluster parts c' v ≡ some (none, c', v))
  unfolding shutdown_cluster
  shutdown-done c c' w w' v up h = elim (Option-cases (leave parts c w)) [
    | inl panics ↦ absurd (ground (arith, up, h, panics))
    | inr ((c1, w1), left) ↦
        let (at, ended) = stop_consensus-done c1 c' w1 w' (ground (arith, up, h, left)) in
        let (is, calls) = stop_parts-done (record c1 { cancelled = true }) c' at w' ended in
        let saved = leave-addrs c c1 w w1 left in
        (
          ap (λ c. c.cancelled) is,
          ap (λ c. c.closed) is,
          ap (λ c. c.cluster_peers) is ∙ saved,
          (at, subst (λ a. Ended a at w') (sym (ap (λ c. c.cluster_peers) is)) calls),
          ground (arith, ap (λ c. c.shutdown) is),
        )
  ]

  -- A peer that is to leave the cluster when it is shut down, and whose consensus cannot be set up,
  -- panics instead of reporting the error.
  pub set_up-panics :
      (c : Cluster Addr) (w : W) (m : Error)
      → c.leave_on_shutdown ≡ true
      → c.has_consensus ≡ false
      → c.shutdown ≡ false
      → (parts.setup_rpc w).0 ≡ none
      → (parts.setup_consensus (parts.setup_rpc w).1).0 ≡ some m
      → set_up parts c w ≡ none
  unfolding set_up give_up shutdown_cluster leave
  set_up-panics c w m leaves early up rpc fails = ground (arith, leaves, early, up, rpc, fails)
