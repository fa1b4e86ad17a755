-- ===== src/Raft.antt =====
-- raft.go: waiting for Raft, its snapshot and its shutdown. `AddPeer` and `RemovePeer` are in
-- Consensus. A loop runs on fuel, and is `none` when it has run out.
pub mod Waiting
pub mod Building
use ipfs_cluster.Common.{
  ℕ, zero, suc, String, Bool, Option, none, some, eqb, ◌<>◌, ◌==◌, ◌&&◌, not, if◌then◌else◌,
}
use ipfs_cluster.Common.Result.{Error}

-- What the loop of `waitForLeader` selects: an observation, with the leader, if it is one of a
-- leader; a tick; or the end of the context.
pub data Event : Type 0 where
  observed : Option String → Event
  ticked : Event
  done : Error → Event

-- What hashicorp/raft, raft-boltdb and package time give, over the state `W` of all that lies
-- outside; `ctx_err` is the error of the context once it is done.
pub record Raft (W : Type 0) : Type 0 where
  pub leader : W → String
  pub applied_index : W → ℕ
  pub last_index : W → ℕ
  pub ctx_err : W → Option Error
  pub pause : W → W
  pub select : W → Event × W
  pub snapshot : W → Option Error × W
  pub stop : W → Option Error × W
  pub close_boltdb : W → Option Error × W
  pub contains : String → String → Bool

-- an error message, or the empty text
abbrev pub message : (Error → Error) → Option Error → Error
message f none = ""
message f (some e) = f e

abbrev pub error_or_none : Error → Option Error
error_or_none msgs = if msgs == "" then none else some msgs

module _ {W : Type 0} (r : Raft W) where
  open r use {
    leader, applied_index, last_index, ctx_err, pause, select, snapshot, stop, close_boltdb,
    contains,
  }

  -- `waitForLeader`, by the event: it returns, or goes on
  unfoldable pub wait_for_leader : ℕ → W → Option (Option Error × W)
  wait_for_leader zero w = none
  wait_for_leader (suc fuel) w =
      let (event, w') = select w in
      let rest = wait_for_leader fuel w' in
      elim event [
        | observed none ↦ rest
        | observed (some l) ↦ some (none, w')
        | ticked ↦ if leader w' == "" then rest else some (none, w')
        | done e ↦ some (some e, w')
      ]

  unfoldable pub wait_for_leader_legacy : ℕ → W → Option (Option Error × W)
  wait_for_leader_legacy zero w = none
  wait_for_leader_legacy (suc fuel) w =
      let rest = wait_for_leader_legacy fuel (pause w) in
      if leader w == ""
      then elim (ctx_err w) [ some e ↦ some (some e, w) | none ↦ rest ]
      else some (none, w)

  unfoldable pub wait_for_updates : ℕ → W → Option (Option Error × W)
  wait_for_updates zero w = none
  wait_for_updates (suc fuel) w =
      let rest = wait_for_updates fuel (pause w) in
      elim (ctx_err w) [
        | some e ↦ some (some e, w)
        | none ↦ if eqb (applied_index w) (last_index w) then some (none, w) else rest
      ]

  -- `Snapshot`: a snapshot with nothing new is no error
  unfoldable pub take_snapshot : W → Option Error × W
  take_snapshot w =
      let (e, w') = snapshot w in
      elim e [
        | none ↦ (none, w')
        | some m ↦
            if not (contains m "Nothing new to snapshot")
            then (some ("could not take snapshot: " <> m), w')
            else (none, w')
      ]

  -- `Shutdown`
  unfoldable pub shutdown_raft : W → Option Error × W
  shutdown_raft w =
      let (e, w1) = stop w in
      let (e', w2) = close_boltdb w1 in
      (
        error_or_none (
            message (λ m. "could not shutdown raft: " <> m <> ".\n") e
            <> message (λ m. "could not close boltdb: " <> m) e'),
        w2,
      )
