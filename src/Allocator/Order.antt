-- ===== src/Allocator/Order.antt =====
-- allocator/numpinalloc/numpinalloc.go: the order of the answer.
use mathlib.Core.List.Memᴰ
use ipfs_cluster.Common.{
  ℕ, String, ◌≡◌, ◌≢◌, ◌⊎◌, inl, inr, refl, sym, ap, subst, ◌∙◌, Bool, false, Option-cases, none,
  some, List, [], ◌∷◌, ◌++◌, Memᴰ, All, arith, eq_iff,
}
use ipfs_cluster.Common.Int.{ℤ, ltb_ℤ}
use ipfs_cluster.Common.Dict.{Dict, Distinct, lookup}
use ipfs_cluster.Common.Result.{Result, ok}
use ipfs_cluster.External.{Codecs, PeerId}
use ipfs_cluster.Api.Metrics.{Metric}
use ipfs_cluster.Allocator.{
  MetricsSorter, value_of, less, sorter_loop, new_metrics_sorter, allocate,
}
use ipfs_cluster.Allocator.Reported.{
  reported, after_round, after_round-cases, lookup-new_metrics_sorter, new_metrics_sorter-Keyed,
}
use ipfs_cluster.Cluster.Candidates.{NoRepeat, IsKey, AnswersCandidates}

-- No later element has a smaller key.
abbrev pub IsSorted : (PeerId → ℤ) → List PeerId → Type 0
IsSorted key [] = Unit
IsSorted key (p ∷ ps) = All (λ q. ltb_ℤ (key q) (key p) ≡ false) ps × IsSorted key ps

-- What package sort documents of `Sort`, for an order by a key: it rearranges the elements, and the
-- result is sorted.
pub record IsSort (sort : (PeerId → PeerId → Bool) → List PeerId → List PeerId) : Type 0 where
  pub same_members :
      (less : PeerId → PeerId → Bool) (l : List PeerId) (p : PeerId)
      → Memᴰ p (sort less l)
      → Memᴰ p l
  pub all_members :
      (less : PeerId → PeerId → Bool) (l : List PeerId) (p : PeerId)
      → Memᴰ p l
      → Memᴰ p (sort less l)
  pub keeps_single :
      (less : PeerId → PeerId → Bool) (l : List PeerId) → NoRepeat l → NoRepeat (sort less l)
  pub sorts :
      (key : PeerId → ℤ) (l : List PeerId) → IsSorted key (sort (λ a b. ltb_ℤ (key a) (key b)) l)

NoRepeat-snoc {ℓ} :
    {A : Type ℓ} (xs : List A) (a : A) → NoRepeat xs → ¬ Memᴰ a xs → NoRepeat (xs ++ a ∷ [])
NoRepeat-snoc [] a h new = (λ i. Memᴰ.not-nil i, tt)
NoRepeat-snoc (y ∷ xs) a h new = (
  λ i. elim (Memᴰ.append_cases xs i) [
    | inl j ↦ h.0 j
    | inr j ↦ new (Memᴰ.head (sym (Memᴰ.eq_of_singleton j)))
  ],
  NoRepeat-snoc xs a h.1 (λ i. new (Memᴰ.tail i)),
)

module _ {Cid Addr : Type 0} (x : Codecs Cid Addr) (now : ℕ) (atoi : String → Result ℤ)
    (sort : (PeerId → PeerId → Bool) → List PeerId → List PeerId) where
  peers-after_round :
      (k : PeerId) (v : Metric) (s : MetricsSorter)
      → let s' = after_round x now atoi sort k v s in
        (s'.peers ≡ s.peers) ⊎ (s'.peers ≡ s.peers ++ k ∷ [])
  peers-after_round k v s = elim (after_round-cases x now atoi sort k v s) [
    | inl (silent, same) ↦ inl (ap (λ s. s.peers) same)
    | inr (n, says, more) ↦ inr (ap (λ s. s.peers) more)
  ]

  absent :
      (k : PeerId) (v : Metric) (m : Dict Metric) (p : PeerId)
      → lookup p ((k, v) ∷ m) ≡ none
      → (k ≢ p) × (lookup p m ≡ none)
  unfolding lookup
  absent k v m p e = (ground (arith, eq_iff k p), ground (arith, eq_iff k p))

  sorter_loop-NoRepeat :
      (m : Dict Metric) (s : MetricsSorter)
      → Distinct m
      → NoRepeat s.peers
      → ((p : PeerId) → Memᴰ p s.peers → lookup p m ≡ none)
      → NoRepeat (sorter_loop x now atoi sort m s).peers
  unfolding sorter_loop lookup
  sorter_loop-NoRepeat [] s d h out = h
  sorter_loop-NoRepeat ((k, v) ∷ m) s d h out =
      sorter_loop-NoRepeat m (after_round x now atoi sort k v s) d.1
        (elim (peers-after_round k v s) [
          | inl same ↦ rw same h
          | inr more ↦ rw more (NoRepeat-snoc s.peers k h (λ i. (absent k v m k (out k i)).0 refl))
        ])
        (λ p i. elim (peers-after_round k v s) [
          | inl same ↦ (absent k v m p (out p (rw same at i))).1
          | inr more ↦ elim (Memᴰ.append_cases s.peers (rw more at i)) [
            | inl old ↦ (absent k v m p (out p old)).1
            | inr here ↦ let e : p ≡ k = Memᴰ.eq_of_singleton here in rw e d.0
          ]
        ])

  IsSorted-ext :
      (key other : PeerId → ℤ) (l : List PeerId)
      → ((p : PeerId) → key p ≡ other p)
      → IsSorted key l
      → IsSorted other l
  IsSorted-ext key other l same h = subst (λ f. IsSorted f l) (λ i p. same p i) h

  -- The number of pins that a candidate reports, to order by.
  abbrev pub pins_of : Dict Metric → PeerId → ℤ
  pins_of candidates p = value_of (reported x now atoi candidates p)

  -- With a sorting that does what package sort documents, and for candidates of different keys, `Allocate`
  -- never fails. It answers with exactly the candidates whose own metric has the name `numpin`, is not
  -- discarded and has a value that parses as a number, each once, in the order of these numbers: no peer
  -- comes after one that reports more pins.
  pub allocate-IsSorted :
      (c : Cid) (current candidates : Dict Metric)
      → IsSort sort
      → Distinct candidates
      → (allocs : List PeerId) × (allocate x now atoi sort c current candidates ≡ ok allocs)
        × ((p : PeerId)
            → (Memᴰ p allocs → (n : ℤ) × (reported x now atoi candidates p ≡ some n))
              × ((n : ℤ) → reported x now atoi candidates p ≡ some n → Memᴰ p allocs))
        × NoRepeat allocs
        × IsSorted (pins_of candidates) allocs
  unfolding allocate less new_metrics_sorter
  allocate-IsSorted c current candidates good d =
      let s = new_metrics_sorter x now atoi sort candidates in
      let numbers : (p : PeerId) → lookup p s.m ≡ reported x now atoi candidates p =
        λ p. lookup-new_metrics_sorter x now atoi sort candidates p d in
      let keyed = new_metrics_sorter-Keyed x now atoi sort candidates in
      (
        sort (less s) s.peers,
        refl,
        λ p. (
          λ i.
              let (n, e) = (keyed p).0 (good.same_members (less s) s.peers p i) in
              (n, sym (numbers p) ∙ e),
          λ n e. good.all_members (less s) s.peers p ((keyed p).1 n (numbers p ∙ e)),
        ),
        good.keeps_single _ s.peers
            (sorter_loop-NoRepeat candidates _ d tt (λ p i. absurd (Memᴰ.not-nil i))),
        IsSorted-ext (λ p. value_of (lookup p s.m)) (pins_of candidates) _
            (λ p. ap value_of (numbers p)) (good.sorts (λ p. value_of (lookup p s.m)) s.peers),
      )

  IsKey-reported :
      (candidates : Dict Metric) (p : PeerId) (n : ℤ)
      → reported x now atoi candidates p ≡ some n
      → IsKey candidates p
  IsKey-reported candidates p n e = elim (Option-cases (lookup p candidates)) [
    | inl missing ↦ absurd (cc (rw (reported, missing) at e))
    | inr found ↦ found
  ]

  All_of_mem :
      (P : PeerId → Type 0) (ps : List PeerId) → ((p : PeerId) → Memᴰ p ps → P p) → All P ps
  All_of_mem P [] h = tt
  All_of_mem P (q ∷ ps) h = (h q (Memᴰ.head refl), All_of_mem P ps (λ p i. h p (Memᴰ.tail i)))

  -- So with such a sorting the allocator keeps the promise of the interface `PinAllocator`.
  pub allocate-AnswersCandidates : IsSort sort → AnswersCandidates (allocate x now atoi sort)
  allocate-AnswersCandidates good c current candidates allocs d e =
      let (answer, answered, members, different, sorted) =
        allocate-IsSorted c current candidates good d in
      let same : answer ≡ allocs = ground (arith) in
      let keys =
        All_of_mem (IsKey candidates) answer
          (λ p i. let (n, r) = (members p).0 i in IsKey-reported candidates p n r) in
      rw (← same) (keys, different)
