-- ===== src/Cluster/Eligible.antt =====
-- cluster.go: which peers `allocate` chooses, and how many.
use ipfs_cluster.Common.{
  ℕ, ◌+◌, ◌-◌, ◌≡◌, inl, inr, refl, true, false, none, some, List, [], ◌∷◌, Memᴰ, length, take,
  length-take, All, All-take, All-mono, if_rule, leb, arith, eq_iff, Bool-cases, Option-cases,
}
use ipfs_cluster.Common.Int.{pos}
use ipfs_cluster.Common.Dict.{Dict, Distinct, lookup, delete, has, insert-Distinct, delete-Distinct}
use ipfs_cluster.Common.Result.{ok, Result-cases}
use ipfs_cluster.External.{Codecs, PeerId}
use ipfs_cluster.Interfaces.{StateOps}
use ipfs_cluster.Api.Metrics.{Metric, no_metric, discard}
use ipfs_cluster.Cluster.Allocate.{
  Sources, init_metrics, put_metrics, move_current, allocations_in, drop_discarded, metrics_map,
  choose, allocate_among, allocate,
}
use ipfs_cluster.Cluster.Candidates.{
  NoRepeat, NoRepeat-take, IsKey, AnswersCandidates, init_metrics-mem, put_metrics-mem,
  move_current-mem,
}

module _ {Cid Addr S : Type 0} (x : Codecs Cid Addr) (o : StateOps Cid S)
    (src : Sources Cid S) where
  drop_discarded-absent :
      (d : Dict Metric) (p : PeerId)
      → lookup p d ≡ none
      → lookup p (drop_discarded x o src d) ≡ none
  unfolding lookup drop_discarded
  drop_discarded-absent [] p e = refl
  drop_discarded-absent ((q, n) ∷ d) p e = ground (arith, drop_discarded-absent d p)

  drop_discarded-mem :
      (d : Dict Metric) (p : PeerId) (m : Metric)
      → lookup p (drop_discarded x o src d) ≡ some m
      → Distinct d
      → (lookup p d ≡ some m) × (discard x src.now m ≡ false)
  unfolding lookup drop_discarded
  drop_discarded-mem [] p m e h = absurd (cc)
  drop_discarded-mem ((q, n) ∷ d) p m e h =
      ground (arith, eq_iff q p, drop_discarded-absent d q h.0, drop_discarded-mem d p m)

  init_metrics-Distinct :
      (ps : List PeerId) (d : Dict Metric) → Distinct d → Distinct (init_metrics ps d)
  unfolding init_metrics
  init_metrics-Distinct [] d h = h
  init_metrics-Distinct (p ∷ ps) d h = init_metrics-Distinct ps _ (insert-Distinct p no_metric d h)

  put_metrics-Distinct :
      (ms : List Metric) (d : Dict Metric) → Distinct d → Distinct (put_metrics ms d)
  unfolding put_metrics
  put_metrics-Distinct [] d h = h
  put_metrics-Distinct (m ∷ ms) d h =
      put_metrics-Distinct ms _
        (if_rule Distinct (has m.peer d) _ _ (insert-Distinct m.peer m d h) h)

  -- The peer is of the cluster, does not hold the pin yet, and the leader has a metric of it that is
  -- valid and has not expired.
  pub record IsEligible (holders : List PeerId) (metrics : List Metric) (p : PeerId) : Type 0 where
    pub member : Memᴰ p src.peers
    pub new : ¬ Memᴰ p holders
    pub metric : Metric
    pub reported : Memᴰ metric metrics
    pub own : metric.peer ≡ p
    pub fresh : discard x src.now metric ≡ false

  no_metric_discarded : discard x src.now no_metric ≡ true
  unfolding discard
  no_metric_discarded = refl

  lookup-nil : (p : PeerId) (m : Metric) → ¬ (lookup p [] ≡ some m)
  unfolding lookup
  lookup-nil p m h = cc

  not_initial :
      (p : PeerId) (m : Metric)
      → lookup p (init_metrics src.peers []) ≡ some m
      → ¬ (discard x src.now m ≡ false)
  not_initial p m h live = elim (init_metrics-mem src.peers [] p m h) [
    | inl (same, i) ↦ cc (same, live, no_metric_discarded)
    | inr f ↦ lookup-nil p m f
  ]

  metrics_map-mem :
      (metrics : List Metric) (p : PeerId) (m : Metric)
      → lookup p (metrics_map x o src metrics) ≡ some m
      → Memᴰ p src.peers × (Memᴰ m metrics × (m.peer ≡ p) × (discard x src.now m ≡ false))
  unfolding metrics_map
  metrics_map-mem metrics p m e =
      let d = init_metrics src.peers [] in
      let (there, live) =
        drop_discarded-mem (put_metrics metrics d) p m e
          (put_metrics-Distinct metrics d (init_metrics-Distinct src.peers [] tt)) in
      let ((m', key), origin) = put_metrics-mem metrics d p m there in
      (
        elim (init_metrics-mem src.peers [] p m' key) [
          | inl (same, i) ↦ i
          | inr f ↦ absurd (lookup-nil p m' f)
        ],
        elim origin [
          | inl old ↦ absurd (not_initial p m old live)
          | inr (i, same) ↦ (i, same, live)
        ],
      )

  -- The holders of the pin that the leader has a valid metric of.
  abbrev pub kept_holders : Cid → List Metric → Dict Metric
  kept_holders hash metrics =
      (move_current (allocations_in x o src hash src.state) [] (metrics_map x o src metrics)).0

  abbrev candidates : Cid → List Metric → Dict Metric
  candidates hash metrics =
      (move_current (allocations_in x o src hash src.state) [] (metrics_map x o src metrics)).1

  drop_discarded-Distinct : (d : Dict Metric) → Distinct d → Distinct (drop_discarded x o src d)
  unfolding drop_discarded
  drop_discarded-Distinct [] h = tt
  drop_discarded-Distinct ((p, m) ∷ d) h =
      let rest = drop_discarded-Distinct d h.1 in
      if_rule Distinct (discard x src.now m) _ _ rest (drop_discarded-absent d p h.0, rest)

  move_current-Distinct :
      (ps : List PeerId) (current d : Dict Metric)
      → Distinct d
      → Distinct (move_current ps current d).1
  unfolding move_current
  move_current-Distinct [] current d h = h
  move_current-Distinct (p ∷ ps) current d h = elim (Option-cases (lookup p d)) [
    | inl e ↦ rw (e, move_current) (move_current-Distinct ps current d h)
    | inr (m, e) ↦
        rw (e, move_current) (move_current-Distinct ps _ (delete p d) (delete-Distinct p d h))
  ]

  candidates-Distinct : (hash : Cid) (metrics : List Metric) → Distinct (candidates hash metrics)
  unfolding metrics_map
  candidates-Distinct hash metrics =
      move_current-Distinct (allocations_in x o src hash src.state) [] _ (
        drop_discarded-Distinct _
          (put_metrics-Distinct metrics _ (init_metrics-Distinct src.peers [] tt)))

  IsEligible-of_key :
      (hash : Cid) (metrics : List Metric) (p : PeerId)
      → IsKey (candidates hash metrics) p
      → IsEligible (allocations_in x o src hash src.state) metrics p
  IsEligible-of_key hash metrics p (m, e) =
      let (old, out) = move_current-mem (allocations_in x o src hash src.state) [] _ p m e in
      let (i, (j, same, live)) = metrics_map-mem metrics p m old in
      record { member = i; new = out; metric = m; reported = j; own = same; fresh = live }

  choose-ok :
      (n : ℕ) (answer allocs : List PeerId)
      → choose x o src n answer ≡ ok allocs
      → (allocs ≡ take n answer) × (length allocs ≡ n)
  unfolding choose
  choose-ok n answer allocs h = ground (arith, length-take n answer)

  allocate_among-inv :
      (n : ℕ) (hash : Cid) (metrics : List Metric) (allocs : List PeerId)
      → allocate_among x o src n hash (allocations_in x o src hash src.state) metrics ≡ ok allocs
      → (answer : List PeerId) × (src.allocator hash
            (kept_holders hash metrics)
            (candidates hash metrics)
          ≡ ok answer)
        × (allocs ≡ take (n - length (kept_holders hash metrics)) answer)
        × (length allocs + length (kept_holders hash metrics) ≡ n)
  unfolding allocate_among
  allocate_among-inv n hash metrics allocs h =
      let kept = kept_holders hash metrics in
      elim (Bool-cases (leb n (length kept))) [
        | inl enough ↦ absurd (ground arith)
        | inr short ↦ elim (Result-cases (src.allocator hash kept (candidates hash metrics))) [
          | inr (e, failed) ↦ absurd (ground arith)
          | inl (answer, answered) ↦
              let chosen : choose x o src (n - length kept) answer ≡ ok allocs = ground arith in
              let (cut, size) = choose-ok (n - length kept) answer allocs chosen in
              (answer, answered, cut, ground arith)
        ]
      ]

  -- a successful `allocate` has an allocation from the leader's metrics
  allocate-among :
      (n : ℕ) (hash : Cid) (l : PeerId) (metrics : List Metric) (allocs : List PeerId)
      → src.replication_factor ≡ pos n
      → src.leader ≡ ok l
      → src.last_metrics l src.informer_name ≡ ok metrics
      → allocate x o src hash ≡ ok allocs
      → allocate_among x o src n hash (allocations_in x o src hash src.state) metrics ≡ ok allocs
  unfolding allocate
  allocate-among n hash l metrics allocs hr hl hm h = ground arith

  -- With an allocator that answers with candidates, the peers that a successful `allocate` returns
  -- are different from each other, and each is a member of the cluster that does not hold the pin
  -- and of which the leader has a valid metric that has not expired.
  pub allocate-IsEligible :
      (n : ℕ) (hash : Cid) (l : PeerId) (metrics : List Metric) (allocs : List PeerId)
      → AnswersCandidates src.allocator
      → src.replication_factor ≡ pos n
      → src.leader ≡ ok l
      → src.last_metrics l src.informer_name ≡ ok metrics
      → allocate x o src hash ≡ ok allocs
      → All (IsEligible (allocations_in x o src hash src.state) metrics) allocs × NoRepeat allocs
  allocate-IsEligible n hash l metrics allocs good hr hl hm h =
      let (answer, answered, cut, size) =
        allocate_among-inv n hash metrics allocs
          (allocate-among n hash l metrics allocs hr hl hm h) in
      let (keys, different) = good hash _ _ answer (candidates-Distinct hash metrics) answered in
      rw cut (
        All-take _ _ answer (All-mono (IsEligible-of_key hash metrics) answer keys),
        NoRepeat-take _ answer different,
      )
