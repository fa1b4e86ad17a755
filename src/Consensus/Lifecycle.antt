-- ===== src/Consensus/Lifecycle.antt =====
-- consensus.go: waiting for Raft, the end of the bootstrap, and the shutdown. The goroutine of `run`
-- is not modelled: it takes what `Shutdown` sends to `shutdownCh`.
use ipfs_cluster.Common.{
  ℕ, String, Bool, true, false, Option, none, some, ◌<>◌, ◌==◌, ◌≡◌, arith, if◌then◌else◌,
}
use ipfs_cluster.Common.Result.{Error, Result, ok, err}
use ipfs_cluster.Raft.{
  Raft, wait_for_leader, wait_for_updates, take_snapshot, shutdown_raft, message,
}

-- The fields that `Shutdown` reads or writes; `closed` says that the channel `rpcReady` is closed.
pub record Consensus : Type 0 where
  pub shutdown : Bool
  pub closed : Bool

-- What `finishBootstrap` comes to: it gives up; or the component is ready, and a sync of the state
-- has been asked for or not.
pub data Bootstrapped : Type 0 where
  gave_up : Bootstrapped
  ready : Bool → Bootstrapped

abbrev pub prefixed : String → Option (Option Error) → Option (Option Error)
prefixed text none = none
prefixed text (some none) = some none
prefixed text (some (some e)) = some (some (text <> e))

module _ {W : Type 0} (r : Raft W) where
  -- `WaitForSync`: the contexts of the two waits, and the fuel of each
  unfoldable pub wait_for_sync : (W → Option Error) → ℕ → W → Option (Option Error × W)
  unfolding wait_for_leader wait_for_updates
  wait_for_sync ctx fuel w = elim (wait_for_leader r fuel w) [
    | none ↦ none
    | some (some e, w1) ↦ some (some ("error waiting for leader: " <> e), w1)
    | some (none, w1) ↦ elim (wait_for_updates (record r { ctx_err = ctx }) fuel w1) [
      | none ↦ none
      | some (some e, w2) ↦ some (some ("error waiting for consensus updates: " <> e), w2)
      | some (none, w2) ↦ some (none, w2)
    ]
  ]

  -- `Shutdown`: none is the panic of `close`, of a channel that is closed
  unfoldable pub shutdown_consensus : Consensus → W → Option (Option Error × Consensus × W)
  unfolding take_snapshot shutdown_raft
  shutdown_consensus cc w =
      if cc.shutdown
      then some (none, cc, w)
      else if cc.closed
      then none
      else (let (e, w1) = take_snapshot r w in
          let (e', w2) = shutdown_raft r w1 in
          let err_msgs = message (λ m. m) e <> message (λ m. m) e' in
          if err_msgs == ""
          then some (none, record { shutdown = true; closed = true }, w2)
          else some (
            some (err_msgs <> "Consensus shutdown unsuccessful"),
            record cc { closed = true },
            w2,
          ))

  -- A second `Shutdown` panics if the first has reported an error, and does nothing if it has not.
  pub shutdown_consensus-again :
      (cc cc' : Consensus) (w w' v : W) (e : Option Error)
      → shutdown_consensus cc w ≡ some (e, cc', w')
      → shutdown_consensus cc' v ≡ elim e as (λ _. Option (Option Error × Consensus × W)) [
        | none ↦ some (none, cc', v)
        | some m ↦ none
      ]
  unfolding shutdown_consensus
  shutdown_consensus-again cc cc' w w' v e h = ground (arith, h)

-- `finishBootstrap`, from the result of `WaitForSync`, whether the RPC client comes before the end
-- of the context, and the state
unfoldable pub finish_bootstrap : {S : Type 0} → Option Error → Bool → Result S → Bootstrapped
finish_bootstrap (some e) client st = gave_up
finish_bootstrap none false st = gave_up
finish_bootstrap none true (ok st) = ready true
finish_bootstrap none true (err e) = ready false
