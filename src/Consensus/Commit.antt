-- ===== src/Consensus/Commit.antt =====
-- consensus.go: when `LogPin` and `LogUnpin` succeed, and what a committed pin does to the state.
use ipfs_cluster.Common.{
  ◌≡◌, ◌≢◌, ◌↔◌, ◌⊎◌, inl, inr, refl, true, Option, none, some, All, arith, ◌==◌, eq_iff,
  if◌then◌else◌, Bool-cases, Option-cases,
}
use ipfs_cluster.Common.Result.{Error, ok, err}
use ipfs_cluster.External.{Codecs, PeerId, CidDecodes, PeerDecodes}
use ipfs_cluster.Api.Types.{CidArg, cid_arg_to_serial}
use ipfs_cluster.Api.RoundTrip.{to_cid_arg-cid_arg_to_serial}
use ipfs_cluster.State.{MapState, map_state_ops, add, get}
use ipfs_cluster.State.Laws.{get-add}
use ipfs_cluster.LogOp.{LogOp, LogOpType, applied, track, apply_to, apply_type}
use ipfs_cluster.Consensus.{
  Redirected, RaftOps, Attempt, returns, fails, retry, redirect_to, redirect_to_leader,
  after_redirect, op_cid, commit_cid, attempt_cid, log_op_cid,
}

Attempt-cases :
    (a : Attempt) → ((e : Option Error) × (a ≡ returns e)) ⊎ ((e : Error) × (a ≡ fails e))
Attempt-cases (returns e) = inl (e, refl)
Attempt-cases (fails e) = inr (e, refl)

module _ {W : Type 0} (attempt : W → Attempt × W) where
  retry_first : (w w' : W) → attempt w ≡ (returns none, w') → retry 2 attempt none w ≡ (none, w')
  unfolding retry
  retry_first w w' h = ground arith

  retry_second :
      (w v w' : W) (e : Error)
      → attempt w ≡ (fails e, v)
      → attempt v ≡ (returns none, w')
      → retry 2 attempt none w ≡ (none, w')
  unfolding retry
  retry_second w v w' e h k = ground arith

  retry_twice :
      (w w' : W)
      → retry 2 attempt none w ≡ (none, w')
      → (attempt w ≡ (returns none, w'))
        ⊎ ((e : Error) × (v : W) × (attempt w ≡ (fails e, v)) × (attempt v ≡ (returns none, w')))
  unfolding retry
  retry_twice w w' h = elim (Attempt-cases (attempt w).0) [
    | inl (e, returned) ↦ inl (ground arith)
    | inr (e, failed) ↦
        let v = (attempt w).1 in
        elim (Attempt-cases (attempt v).0) [
          | inl (e', returned) ↦ inr (e, v, ground arith, ground arith)
          | inr (e', failed') ↦ absurd (ground arith)
        ]
  ]

-- The peer that a round goes to: the one that `Leader` returns, or, if `Leader` fails and a leader then
-- appears within the wait, the one that `Leader` returned beside its error.
module _ {W : Type 0} (r : RaftOps W) where
  abbrev pub Finds : W → PeerId → W → Type 0
  Finds v l v' =
      ((r.leader v ≡ (l, none)) × (v' ≡ v))
      ⊎ ((e : Error) × (r.leader v ≡ (l, some e)) × (r.wait_for_leader v ≡ (none, v')))

  -- One round hands the operation over: the peer that it goes to is this one, which commits the operation,
  -- or another one, which answers the call without an error.
  abbrev pub Delivers : Redirected → LogOp → W → W → Type 0
  Delivers arg op v w =
      (l : PeerId) × (v' : W) × Finds v l v'
      × (((l ≡ r.host_id) × (r.commit_op op v' ≡ (none, w)))
          ⊎ ((l ≢ r.host_id) × (r.call l arg v' ≡ (none, w))))

module _ {Cid Addr W : Type 0} (x : Codecs Cid Addr) (r : RaftOps W) (arg : Redirected)
    (t : LogOpType) (carg : CidArg Cid) where
  abbrev try_once : W → Attempt × W
  try_once = attempt_cid x r arg t carg

  redirect_to-Delivers :
      (l : PeerId) (v w : W)
      → after_redirect x r (commit_cid x r (op_cid x carg t)) (redirect_to x r l arg v)
        ≡ (returns none, w)
      → ((l ≡ r.host_id) × (r.commit_op (op_cid x carg t) v ≡ (none, w)))
        ⊎ ((l ≢ r.host_id) × (r.call l arg v ≡ (none, w)))
  unfolding redirect_to commit_cid
  redirect_to-Delivers l v w h = elim (Bool-cases (l == r.host_id)) [
    | inl self ↦ inl (ground (arith, eq_iff l r.host_id), ground arith)
    | inr other ↦ inr (ground (arith, eq_iff l r.host_id), ground arith)
  ]

  try-Delivers : (v w : W) → try_once v ≡ (returns none, w) → Delivers r arg (op_cid x carg t) v w
  unfolding attempt_cid redirect_to_leader
  try-Delivers v w h = elim (Option-cases (r.leader v).1) [
    | inl known ↦ (
      (r.leader v).0,
      v,
      inl (ground arith, refl),
      redirect_to-Delivers (r.leader v).0 v w (ground arith),
    )
    | inr (e, unknown) ↦
        let waited = r.wait_for_leader v in
        elim (Option-cases waited.0) [
          | inr (e', late) ↦ absurd (ground arith)
          | inl there ↦ (
            (r.leader v).0,
            waited.1,
            inr (e, ground arith, ground arith),
            redirect_to-Delivers (r.leader v).0 waited.1 w (ground arith),
          )
        ]
  ]

  Delivers-try : (v w : W) → Delivers r arg (op_cid x carg t) v w → try_once v ≡ (returns none, w)
  unfolding attempt_cid redirect_to_leader redirect_to commit_cid
  Delivers-try v w (l, v', found, done) = ground (arith, eq_iff l r.host_id)

  -- `logOpCid` reports no error exactly if its first round hands the operation over, or the first
  -- round fails and the second hands it over. A round goes to the peer that `Leader` returns, or that it
  -- returned beside its error before a leader appeared: if that is this peer, it commits the operation, and
  -- if not, that peer answers the call without an error.
  pub log_op_cid_iff :
      (w w' : W)
      → (log_op_cid x r arg t carg w ≡ (none, w')) ↔ (
          Delivers r arg (op_cid x carg t) w w'
          ⊎ ((e : Error) × (v : W) × (try_once w ≡ (fails e, v))
              × Delivers r arg (op_cid x carg t) v w'))
  unfolding log_op_cid
  log_op_cid_iff w w' = (
    λ h. elim (retry_twice try_once w w' h) [
      | inl now ↦ inl (try-Delivers w w' now)
      | inr (e, v, failed, later) ↦ inr (e, v, failed, try-Delivers v w' later)
    ],
    λ d. elim d [
      | inl now ↦ retry_first try_once w w' (Delivers-try w w' now)
      | inr (e, v, failed, later) ↦ retry_second try_once w v w' e failed (Delivers-try v w' later)
    ],
  )

-- When no leader is known and one appears within the wait, the round does not go to that leader: it
-- goes to the peer that was returned beside the error.
pub redirect_after_wait :
    {Cid Addr W : Type 0} (x : Codecs Cid Addr) (r : RaftOps W) (arg : Redirected) (l : PeerId)
    (e : Error) (w w' : W)
    → r.leader w ≡ (l, some e)
    → r.wait_for_leader w ≡ (none, w')
    → l ≢ r.host_id
    → redirect_to_leader x r arg w
      ≡ (let (e', v) = r.call l arg w' in (elim e' [ none ↦ ok true | some m ↦ err m ], v))
unfolding redirect_to_leader redirect_to
redirect_after_wait x r arg l e w w' h k ne = ground (arith, eq_iff l r.host_id)

-- Applying the operation that `LogPin` commits, for a pin whose CID and peer IDs decode, adds the
-- pin to the shared state as it was submitted, changes no other CID's entry, and asks the tracker to track it.
pub get-apply-op_cid :
    {Cid Addr : Type 0} (x : Codecs Cid Addr) (carg : CidArg Cid) (st : MapState) (d : Cid)
    → CidDecodes x carg.cid
    → All (PeerDecodes x) carg.allocations
    → (st' : MapState) × (apply_to x (map_state_ops x) (op_cid x carg LogOpType.pin) st
        ≡ applied st' (some (track (cid_arg_to_serial x carg))))
      × (get x st' d ≡ (if x.cid_string carg.cid == x.cid_string d then carg else get x st d))
unfolding apply_to apply_type op_cid map_state_ops
get-apply-op_cid x carg st d hc hp =
    let same = to_cid_arg-cid_arg_to_serial x carg hc hp in
    (add x carg st, rw same refl, get-add x carg st d hc hp)
