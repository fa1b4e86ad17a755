-- ===== src/Cluster/StateSync/Due.antt =====
-- cluster.go: the calls that `StateSync` starts, against the shared state and the tracker.
use mathlib.Core.List.Memᴰ
use ipfs_cluster.Common.{
  ℕ, ◌≡◌, refl, sym, ap, subst, ◌⊎◌, inl, inr, Bool, true, false, not, List, [], ◌∷◌, Memᴰ, map,
  if◌then◌else◌, if_rule, arith,
}
use ipfs_cluster.External.{Codecs}
use ipfs_cluster.Interfaces.{StateOps}
use ipfs_cluster.Api.Status.{unpinned, same_status}
use ipfs_cluster.Api.Types.{PinInfo, CidArg}
use ipfs_cluster.Tracker.{MapPinTracker, get}
use ipfs_cluster.Tracker.Workers.{status_all}
use ipfs_cluster.Tracker.Runs.{Call}
use ipfs_cluster.Cluster.StateSync.{untracked, leftover, spawned}

-- an element that a loop keeps or leaves out
if-cons :
    {A : Type 0} (b : Bool) (a e : A) (l : List A)
    → Memᴰ a (if b then e ∷ l else l)
    → ((b ≡ true) × (a ≡ e)) ⊎ Memᴰ a l
if-cons true a e l (Memᴰ.head same) = inl (refl, same)
if-cons true a e l (Memᴰ.tail i) = inr i
if-cons false a e l i = inr i

module _ {Cid Addr S : Type 0} (x : Codecs Cid Addr) (o : StateOps Cid S) (t : ℕ) (st : S)
    (mpt : MapPinTracker Cid) where
  -- What `StateSync` is to start: `Track` of each pin of the shared state whose status is `unpinned`, and
  -- `Untrack` of each CID of the tracker that the shared state does not have.
  abbrev pub Due : Call Cid → Type 0
  Due (Call.track c) = Memᴰ c (o.list st) × (same_status (get x t c.cid mpt).status unpinned ≡ true)
  Due (Call.untrack c) =
      (p : PinInfo Cid) × Memᴰ p (status_all mpt) × (p.cid ≡ c) × (o.has st p.cid ≡ false)
  Due _ = ⊥

  untracked-Due :
      (c : CidArg Cid) (cargs : List (CidArg Cid))
      → Memᴰ c (untracked x t mpt cargs)
      → Memᴰ c cargs × (same_status (get x t c.cid mpt).status unpinned ≡ true)
  unfolding untracked
  untracked-Due c [] i = absurd (Memᴰ.not-nil i)
  untracked-Due c (d ∷ cargs) i =
      elim (if-cons (same_status (get x t d.cid mpt).status unpinned) c d _ i) [
        | inl (new, same) ↦ (
          Memᴰ.head same,
          subst (λ e. same_status (get x t e.cid mpt).status unpinned ≡ true) (sym same) new,
        )
        | inr j ↦ let (listed, new) = untracked-Due c cargs j in (Memᴰ.tail listed, new)
      ]

  pub Due-untracked :
      (c : CidArg Cid) (cargs : List (CidArg Cid))
      → same_status (get x t c.cid mpt).status unpinned ≡ true
      → Memᴰ c cargs
      → Memᴰ c (untracked x t mpt cargs)
  unfolding untracked
  Due-untracked c [] new i = absurd (Memᴰ.not-nil i)
  Due-untracked c (d ∷ cargs) new (Memᴰ.head e) =
      rw (subst (λ d. same_status (get x t d.cid mpt).status unpinned ≡ true) e new) (Memᴰ.head e)
  Due-untracked c (d ∷ cargs) new (Memᴰ.tail i) =
      let rest = Due-untracked c cargs new i in if_rule (Memᴰ c) _ _ _ (Memᴰ.tail rest) rest

  leftover-Due :
      (c : Cid) (ps : List (PinInfo Cid))
      → Memᴰ c (leftover x o st ps)
      → (p : PinInfo Cid) × Memᴰ p ps × (p.cid ≡ c) × (o.has st p.cid ≡ false)
  unfolding leftover
  leftover-Due c [] i = absurd (Memᴰ.not-nil i)
  leftover-Due c (q ∷ ps) i = elim (if-cons (not (o.has st q.cid)) c q.cid _ i) [
    | inl (gone, same) ↦ (q, Memᴰ.head refl, sym same, ground (arith, gone))
    | inr j ↦ let (p, there, is, gone) = leftover-Due c ps j in (p, Memᴰ.tail there, is, gone)
  ]

  Due-leftover :
      (p : PinInfo Cid) (ps : List (PinInfo Cid))
      → o.has st p.cid ≡ false
      → Memᴰ p ps
      → Memᴰ p.cid (leftover x o st ps)
  unfolding leftover
  Due-leftover p [] gone i = absurd (Memᴰ.not-nil i)
  Due-leftover p (q ∷ ps) gone (Memᴰ.head e) =
      rw (subst (λ q. o.has st q.cid ≡ false) e gone) (Memᴰ.head (ap (λ p. p.cid) e))
  Due-leftover p (q ∷ ps) gone (Memᴰ.tail i) =
      let rest = Due-leftover p ps gone i in if_rule (Memᴰ p.cid) _ _ _ (Memᴰ.tail rest) rest

  -- `StateSync` starts what is due, and nothing else.
  pub spawned-Due :
      (call : Call Cid)
      → (Memᴰ call (spawned x o t st mpt) → Due call)
        × (Due call → Memᴰ call (spawned x o t st mpt))
  unfolding spawned
  spawned-Due call = (
    λ i. elim (Memᴰ.append_cases _ i) [
      | inl j ↦
          let (c, there, is) = Memᴰ.of_map Call.track _ j in
          subst Due is (untracked-Due c (o.list st) there)
      | inr j ↦
          let (c, there, is) = Memᴰ.of_map Call.untrack _ j in
          subst Due is (leftover-Due c (status_all mpt) there)
    ],
    due call,
  )
    where
      due : (call : Call Cid) → Due call → Memᴰ call (spawned x o t st mpt)
      due (Call.track c) (listed, new) =
          Memᴰ.append_left (map Call.untrack (leftover x o st (status_all mpt)))
            (Memᴰ.map Call.track (Due-untracked c (o.list st) new listed))
      due (Call.untrack c) (p, there, is, gone) =
          subst (λ c. Memᴰ (Call.untrack c) (spawned x o t st mpt)) is
            (Memᴰ.append_right (map Call.track (untracked x t mpt (o.list st)))
              (Memᴰ.map Call.untrack (Due-leftover p (status_all mpt) gone there)))
      due (Call.sync c) d = absurd d
      due (Call.recover c) d = absurd d
      due Call.sync_all d = absurd d
      due Call.pin_round d = absurd d
      due Call.unpin_round d = absurd d
      due Call.shutdown d = absurd d
