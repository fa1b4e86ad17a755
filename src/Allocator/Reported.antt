-- ===== src/Allocator/Reported.antt =====
-- allocator/numpinalloc/numpinalloc.go: what `newMetricsSorter` takes from the metrics of the candidates.
use mathlib.Core.List.Memᴰ
use ipfs_cluster.Common.{
  ℕ, String, ◌≡◌, ◌⊎◌, ◌∙◌, inl, inr, refl, sym, ap, subst, Bool, true, false, if-false, Option,
  none, some, List, [], ◌∷◌, ◌++◌, Memᴰ, arith, ◌==◌, eq_iff, not, ◌||◌, if◌then◌else◌, Bool-cases,
  Option-cases,
}
use ipfs_cluster.Common.Int.{ℤ}
use ipfs_cluster.Common.Dict.{Dict, Distinct, lookup, insert, lookup-insert}
use ipfs_cluster.Common.Result.{Result, ok, err, Result-cases}
use ipfs_cluster.External.{Codecs, PeerId}
use ipfs_cluster.Api.Metrics.{Metric, discard}
use ipfs_cluster.Allocator.{
  MetricsSorter, metric_name, record_value, sorter_loop, new_metrics_sorter,
}

module _ {Cid Addr : Type 0} (x : Codecs Cid Addr) (now : ℕ) (atoi : String → Result ℤ) where
  -- the number of pins that a metric reports, if it is one of `numpin`, is not discarded and is a number
  abbrev pub reports : Metric → Option ℤ
  reports v =
      if not (v.name == metric_name) || discard x now v
      then none
      else elim (atoi v.value) as (λ _. Option ℤ) [ ok n ↦ some n | err e ↦ none ]

  -- The number of pins that a candidate's own metric reports.
  abbrev pub reported : Dict Metric → PeerId → Option ℤ
  reported candidates p = elim (lookup p candidates) as (λ _. Option ℤ) [
    | none ↦ none
    | some v ↦ reports v
  ]

module _ {Cid Addr : Type 0} (x : Codecs Cid Addr) (now : ℕ) (atoi : String → Result ℤ)
    (sort : (PeerId → PeerId → Bool) → List PeerId → List PeerId) where
  -- the sorter after one round of the loop
  abbrev pub after_round : PeerId → Metric → MetricsSorter → MetricsSorter
  after_round k v s =
      if not (v.name == metric_name) || discard x now v
      then s
      else record_value x now atoi sort k (atoi v.value) s

  -- what a round of the loop does to the sorter
  pub after_round-cases :
      (k : PeerId) (v : Metric) (s : MetricsSorter)
      → ((reports x now atoi v ≡ none) × (after_round k v s ≡ s))
        ⊎ ((n : ℤ) × (reports x now atoi v ≡ some n)
            × (after_round k v s ≡ record { peers = s.peers ++ k ∷ []; m = insert k n s.m }))
  after_round-cases k v s = elim (Bool-cases (not (v.name == metric_name) || discard x now v)) [
    | inl skip ↦ inl (rw skip (refl, refl))
    | inr taken ↦ elim (Result-cases (atoi v.value)) [
      | inl (n, parsed) ↦ inr (n, rw (taken, parsed) refl, rw (taken, parsed) refl)
      | inr (e, bad) ↦ inl (rw (taken, bad) (refl, refl))
    ]
  ]

  abbrev or_else : Option ℤ → Option ℤ → Option ℤ
  or_else none o = o
  or_else (some n) o = some n

  reported-here :
      (k : PeerId) (v : Metric) (m : Dict Metric) (p : PeerId)
      → (k == p) ≡ true
      → reported x now atoi ((k, v) ∷ m) p ≡ reports x now atoi v
  unfolding lookup
  reported-here k v m p here = rw (reported, here) refl

  reported-other :
      (k : PeerId) (v : Metric) (m : Dict Metric) (p : PeerId)
      → (k == p) ≡ false
      → reported x now atoi ((k, v) ∷ m) p ≡ reported x now atoi m p
  unfolding lookup
  reported-other k v m p other = rw (reported, other) refl

  reported-absent :
      (m : Dict Metric) (p : PeerId) → lookup p m ≡ none → reported x now atoi m p ≡ none
  reported-absent m p gone = rw (reported, gone) refl

  -- the number of a round's candidate
  lookup-after_round :
      (k : PeerId) (v : Metric) (s : MetricsSorter) (p : PeerId)
      → lookup p (after_round k v s).m
        ≡ (if k == p then or_else (reports x now atoi v) (lookup p s.m) else lookup p s.m)
  lookup-after_round k v s p = elim (after_round-cases k v s) [
    | inl (silent, same) ↦
        ap (λ t. lookup p t.m) same
        ∙ sym (if_same (k == p) _ _ (ap (λ o. or_else o (lookup p s.m)) silent))
    | inr (n, says, more) ↦
        ap (λ t. lookup p t.m) more
        ∙ lookup-insert k p n s.m
        ∙ sym (ap (λ o. if k == p then or_else o (lookup p s.m) else lookup p s.m) says)
  ]
    where
      if_same : (b : Bool) (o r : Option ℤ) → o ≡ r → (if b then o else r) ≡ r
      if_same true o r e = e
      if_same false o r e = refl

  -- The sorter's map has the number of each candidate, and of no one else.
  lookup-sorter_loop :
      (m : Dict Metric) (s : MetricsSorter) (p : PeerId)
      → Distinct m
      → lookup p (sorter_loop x now atoi sort m s).m
        ≡ or_else (reported x now atoi m p) (lookup p s.m)
  unfolding sorter_loop lookup
  lookup-sorter_loop [] s p d = refl
  lookup-sorter_loop ((k, v) ∷ m) s p d =
      let s' = after_round k v s in
      let rest = lookup-sorter_loop m s' p d.1 in
      let round = lookup-after_round k v s p in
      elim (Bool-cases (k == p)) [
        | inl here ↦
            let gone : lookup p m ≡ none =
              subst (λ q. lookup q m ≡ none) ((eq_iff k p).0 here) d.0 in
            rest
            ∙ ap (λ o. or_else o (lookup p s'.m)) (reported-absent m p gone)
            ∙ round
            ∙ rw here refl
            ∙ sym (ap (λ o. or_else o (lookup p s.m)) (reported-here k v m p here))
        | inr other ↦
            rest
            ∙ ap (or_else (reported x now atoi m p)) (round ∙ if-false _ _ _ other)
            ∙ sym (ap (λ o. or_else o (lookup p s.m)) (reported-other k v m p other))
      ]

  -- The sorter's peers are the keys of its map.
  abbrev pub Keyed : MetricsSorter → Type 0
  Keyed s =
      (p : PeerId)
      → (Memᴰ p s.peers → (n : ℤ) × (lookup p s.m ≡ some n))
        × ((n : ℤ) → lookup p s.m ≡ some n → Memᴰ p s.peers)

  insert-Keyed :
      (k : PeerId) (n : ℤ) (s : MetricsSorter)
      → Keyed s
      → Keyed (record { peers = s.peers ++ k ∷ []; m = insert k n s.m })
  insert-Keyed k n s h p = elim (Bool-cases (k == p)) [
    | inl here ↦ (
      λ i. (n, lookup-insert k p n s.m ∙ rw here refl),
      λ o e. Memᴰ.append_right s.peers (Memᴰ.head (sym ((eq_iff k p).0 here))),
    )
    | inr other ↦
        let same : lookup p (insert k n s.m) ≡ lookup p s.m =
          lookup-insert k p n s.m ∙ rw other refl in
        (
          λ i. elim (Memᴰ.append_cases s.peers i) [
            | inl old ↦ let (o, e) = (h p).0 old in (o, same ∙ e)
            | inr j ↦ absurd (ground (arith, eq_iff k p, other, Memᴰ.eq_of_singleton j))
          ],
          λ o e. Memᴰ.append_left (k ∷ []) ((h p).1 o (sym same ∙ e)),
        )
  ]

  sorter_loop-Keyed :
      (m : Dict Metric) (s : MetricsSorter) → Keyed s → Keyed (sorter_loop x now atoi sort m s)
  unfolding sorter_loop
  sorter_loop-Keyed [] s h = h
  sorter_loop-Keyed ((k, v) ∷ m) s h =
      sorter_loop-Keyed m (after_round k v s) (elim (after_round-cases k v s) [
        | inl (silent, same) ↦ subst Keyed (sym same) h
        | inr (n, says, more) ↦ subst Keyed (sym more) (insert-Keyed k n s h)
      ])

  pub lookup-new_metrics_sorter :
      (m : Dict Metric) (p : PeerId)
      → Distinct m
      → lookup p (new_metrics_sorter x now atoi sort m).m ≡ reported x now atoi m p
  unfolding new_metrics_sorter lookup
  lookup-new_metrics_sorter m p d =
      lookup-sorter_loop m _ p d ∙ elim (Option-cases (reported x now atoi m p)) [
        | inl silent ↦ rw silent refl
        | inr (n, says) ↦ rw says refl
      ]

  pub new_metrics_sorter-Keyed : (m : Dict Metric) → Keyed (new_metrics_sorter x now atoi sort m)
  unfolding new_metrics_sorter lookup
  new_metrics_sorter-Keyed m =
      sorter_loop-Keyed m _ (λ p. (λ i. absurd (Memᴰ.not-nil i), λ n e. absurd (cc e)))
