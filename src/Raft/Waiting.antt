-- ===== src/Raft/Waiting.antt =====
-- raft.go: the loops that wait for a leader and for the log.
use ipfs_cluster.Common.{
  ℕ, zero, suc, ◌≡◌, ◌≢◌, ◌⊎◌, inl, inr, false, Option, none, some, eqb, ◌==◌, arith, Bool-cases,
  Option-cases, eq_iff, if-false,
}
use ipfs_cluster.Common.Result.{Error}
use ipfs_cluster.Raft.{Raft, wait_for_leader_legacy, wait_for_updates}

module _ {W : Type 0} (r : Raft W) where
  open r use {leader, applied_index, last_index, ctx_err, pause}

  -- The state after a number of pauses.
  abbrev pub pauses : ℕ → W → W
  pauses zero w = w
  pauses (suc n) w = pauses n (pause w)

  -- Whether `WaitForUpdates` has an answer, and what it is right to answer.
  abbrev pub HasUpdates : W → Type 0
  HasUpdates w = ((e : Error) × (ctx_err w ≡ some e)) ⊎ (applied_index w ≡ last_index w)

  abbrev pub UpdatesAnswer : Option Error × W → Type 0
  UpdatesAnswer (none, w) = (ctx_err w ≡ none) × (applied_index w ≡ last_index w)
  UpdatesAnswer (some e, w) = ctx_err w ≡ some e

  -- If after some number of pauses the context is done or all of the log is applied, then
  -- `WaitForUpdates` returns within one round more than that; it returns an error only if it is
  -- that of the context, and none only with all of the log applied.
  pub wait_for_updates-returns :
      (n : ℕ) (w : W)
      → HasUpdates (pauses n w)
      → (res : Option Error × W) × (wait_for_updates r (suc n) w ≡ some res) × UpdatesAnswer res
  unfolding wait_for_updates
  wait_for_updates-returns zero w (inl (e, over)) = ((some e, w), ground (arith, over), over)
  wait_for_updates-returns zero w (inr same) = elim (Option-cases (ctx_err w)) [
    | inr (e, over) ↦ ((some e, w), ground (arith, over), over)
    | inl goes ↦ ((none, w), ground (arith, goes, same), (goes, same))
  ]
  wait_for_updates-returns (suc n) w h =
      let (res, runs, right) = wait_for_updates-returns n (pause w) h in
      elim (Option-cases (ctx_err w)) [
        | inr (e, over) ↦ ((some e, w), ground (arith, over), over)
        | inl goes ↦ elim (Bool-cases (eqb (applied_index w) (last_index w))) [
          | inl same ↦ ((none, w), ground (arith, goes, same), (goes, ground (arith, same)))
          | inr behind ↦ (res, ground (arith, goes, behind, runs), right)
        ]
      ]

  -- Whether `waitForLeaderLegacy` has an answer, and what it is right to answer.
  abbrev pub HasLeader : W → Type 0
  HasLeader w = ((e : Error) × (ctx_err w ≡ some e)) ⊎ (leader w ≢ "")

  abbrev pub LeaderAnswer : Option Error × W → Type 0
  LeaderAnswer (none, w) = leader w ≢ ""
  LeaderAnswer (some e, w) = (leader w ≡ "") × (ctx_err w ≡ some e)

  leader_known : (w : W) → (leader w == "") ≡ false → leader w ≢ ""
  leader_known w known e = ground (arith, known, eq_iff (leader w) "", e)

  -- one round of the loop, if it is the last
  legacy-last :
      (fuel : ℕ) (w : W)
      → HasLeader w
      → (res : Option Error × W) × (wait_for_leader_legacy r (suc fuel) w ≡ some res)
        × LeaderAnswer res
  unfolding wait_for_leader_legacy
  legacy-last fuel w h = elim (Bool-cases (leader w == "")) [
    | inr known ↦ ((none, w), if-false _ _ _ known, leader_known w known)
    | inl unknown ↦
        let nobody : leader w ≡ "" = (eq_iff (leader w) "").0 unknown in
        elim h [
          | inr there ↦ absurd (there nobody)
          | inl (e, over) ↦ ((some e, w), ground (arith, over, unknown), (nobody, over))
        ]
  ]

  -- If after some number of pauses the context is done or there is a leader, then
  -- `waitForLeaderLegacy` returns within one round more than that; it returns none only with a
  -- leader, and an error only if it is that of the context, with no leader.
  pub wait_for_leader_legacy-returns :
      (n : ℕ) (w : W)
      → HasLeader (pauses n w)
      → (res : Option Error × W) × (wait_for_leader_legacy r (suc n) w ≡ some res)
        × LeaderAnswer res
  unfolding wait_for_leader_legacy
  wait_for_leader_legacy-returns zero w h = legacy-last zero w h
  wait_for_leader_legacy-returns (suc n) w h =
      let (res, runs, right) = wait_for_leader_legacy-returns n (pause w) h in
      elim (Bool-cases (leader w == "")) [
        | inr known ↦ legacy-last (suc n) w (inr (leader_known w known))
        | inl unknown ↦ elim (Option-cases (ctx_err w)) [
          | inr (e, over) ↦ legacy-last (suc n) w (inl (e, over))
          | inl goes ↦ (res, ground (arith, unknown, goes, runs), right)
        ]
      ]
