-- ===== src/Cluster/Candidates.antt =====
-- cluster.go: what the loops of `allocate` keep of the metrics.
use mathlib.Core.List.Memᴰ
use ipfs_cluster.Common.{
  ℕ, zero, suc, String, ◌≡◌, ◌⊎◌, inl, inr, sym, ap, ◌∙◌, true, false, some, List, [], ◌∷◌, Memᴰ,
  take, All, arith, ◌==◌, eq_iff, Bool-cases, Option-cases,
}
use ipfs_cluster.Common.Dict.{
  Dict, Distinct, lookup, insert, delete, has, lookup-insert, lookup-delete,
}
use ipfs_cluster.Common.Result.{Result, ok}
use ipfs_cluster.External.{PeerId}
use ipfs_cluster.Api.Metrics.{Metric, no_metric}
use ipfs_cluster.Cluster.Allocate.{init_metrics, put_metrics, move_current}

-- A list in which nothing stands twice.
abbrev pub NoRepeat {ℓ} : {A : Type ℓ} → List A → Type ℓ
NoRepeat [] = Unit
NoRepeat (y ∷ ys) = (¬ Memᴰ y ys) × NoRepeat ys

mem-take {ℓ} : {A : Type ℓ} {a : A} (n : ℕ) (xs : List A) → Memᴰ a (take n xs) → Memᴰ a xs
mem-take zero xs i = elim i [ ]
mem-take (suc n) [] i = elim i [ ]
mem-take (suc n) (y ∷ xs) (Memᴰ.head e) = Memᴰ.head e
mem-take (suc n) (y ∷ xs) (Memᴰ.tail i) = Memᴰ.tail (mem-take n xs i)

pub NoRepeat-take {ℓ} : {A : Type ℓ} (n : ℕ) (xs : List A) → NoRepeat xs → NoRepeat (take n xs)
NoRepeat-take zero xs h = tt
NoRepeat-take (suc n) [] h = tt
NoRepeat-take (suc n) (y ∷ xs) h = (λ i. h.0 (mem-take n xs i), NoRepeat-take n xs h.1)

abbrev pub IsKey : Dict Metric → PeerId → Type 0
IsKey d p = (m : Metric) × (lookup p d ≡ some m)

-- What the interface `PinAllocator` promises: of a map of candidates, the allocator answers with
-- keys of the map, each once.
abbrev pub AnswersCandidates :
    {Cid : Type 0} → (Cid → Dict Metric → Dict Metric → Result (List PeerId)) → Type 0
AnswersCandidates {Cid} allocator =
    (c : Cid) (current candidates : Dict Metric) (allocs : List PeerId)
    → Distinct candidates
    → allocator c current candidates ≡ ok allocs
    → All (IsKey candidates) allocs × NoRepeat allocs

pub init_metrics-mem :
    (ps : List PeerId) (d : Dict Metric) (p : PeerId) (m : Metric)
    → lookup p (init_metrics ps d) ≡ some m
    → ((m ≡ no_metric) × Memᴰ p ps) ⊎ (lookup p d ≡ some m)
unfolding init_metrics
init_metrics-mem [] d p m e = inr e
init_metrics-mem (q ∷ ps) d p m e = elim (init_metrics-mem ps (insert q no_metric d) p m e) [
  | inl (same, i) ↦ inl (same, Memᴰ.tail i)
  | inr f ↦ elim (Bool-cases (q == p)) [
    | inl here ↦
        inl (ground (arith, lookup-insert q p no_metric d), Memᴰ.head (sym ((eq_iff q p).0 here)))
    | inr there ↦ inr (ground (arith, lookup-insert q p no_metric d))
  ]
]

IsKey-of_has : (k : String) (d : Dict Metric) → has k d ≡ true → IsKey d k
IsKey-of_has k d h = elim (Option-cases (lookup k d)) [ inl e ↦ absurd (cc) | inr found ↦ found ]

-- one write of `put_metrics`
put_one :
    (n : Metric) (d : Dict Metric) (p : PeerId) (m : Metric)
    → has n.peer d ≡ true
    → lookup p (insert n.peer n d) ≡ some m
    → IsKey d p × ((lookup p d ≡ some m) ⊎ ((m ≡ n) × (n.peer ≡ p)))
put_one n d p m there e = elim (Bool-cases (n.peer == p)) [
  | inl here ↦
      let same : n.peer ≡ p = (eq_iff n.peer p).0 here in
      (
        rw same at (IsKey-of_has n.peer d there),
        inr (ground (arith, lookup-insert n.peer p n d), same),
      )
  | inr other ↦
      let kept : lookup p d ≡ some m = ground (arith, lookup-insert n.peer p n d) in
      ((m, kept), inl kept)
]

pub put_metrics-mem :
    (ms : List Metric) (d : Dict Metric) (p : PeerId) (m : Metric)
    → lookup p (put_metrics ms d) ≡ some m
    → IsKey d p × ((lookup p d ≡ some m) ⊎ (Memᴰ m ms × (m.peer ≡ p)))
unfolding put_metrics
put_metrics-mem [] d p m e = ((m, e), inl e)
put_metrics-mem (n ∷ ms) d p m e = elim (Bool-cases (has n.peer d)) [
  | inl there ↦
      let ((m', e'), rest) = put_metrics-mem ms (insert n.peer n d) p m (rw there at e) in
      (
        (put_one n d p m' there e').0,
        elim rest [
          | inr (i, same) ↦ inr (Memᴰ.tail i, same)
          | inl f ↦ elim (put_one n d p m there f).1 [
            | inl old ↦ inl old
            | inr (same, peer) ↦ inr (Memᴰ.head same, ap (λ (a : Metric). a.peer) same ∙ peer)
          ]
        ],
      )
  | inr missing ↦
      let (key, rest) = put_metrics-mem ms d p m (rw missing at e) in
      (key, elim rest [ inl old ↦ inl old | inr (i, same) ↦ inr (Memᴰ.tail i, same) ])
]

pub move_current-mem :
    (ps : List PeerId) (current d : Dict Metric) (p : PeerId) (m : Metric)
    → lookup p (move_current ps current d).1 ≡ some m
    → (lookup p d ≡ some m) × (¬ Memᴰ p ps)
unfolding move_current
move_current-mem [] current d p m e = (e, λ i. Memᴰ.not-nil i)
move_current-mem (q ∷ ps) current d p m e = elim (Option-cases (lookup q d)) [
  | inl missing ↦
      let (old, out) = move_current-mem ps current d p m (rw (missing, move_current) at e) in
      (
        old,
        λ i. elim (Memᴰ.cases_cons i) [
          | inl same ↦ absurd (cc (same, missing, old))
          | inr j ↦ out j
        ],
      )
  | inr (n, found) ↦
      let (old, out) =
        move_current-mem ps (insert q n current) (delete q d) p m (rw (found, move_current) at e) in
      let still : (q == p) ≡ false = deleted q p d m old in
      (
        ground (arith, lookup-delete q p d, still),
        λ i. elim (Memᴰ.cases_cons i) [
          | inl same ↦ absurd (ground (arith, eq_iff q p, still))
          | inr j ↦ out j
        ],
      )
]
  where
    deleted :
        (q p : PeerId) (d : Dict Metric) (m : Metric)
        → lookup p (delete q d) ≡ some m
        → (q == p) ≡ false
    deleted q p d m h = ground (arith, lookup-delete q p d)
