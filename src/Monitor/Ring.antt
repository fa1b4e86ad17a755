-- ===== src/Monitor/Ring.antt =====
-- peer_monitor.go: the circular queue against the metrics added to it.
use ipfs_cluster.Common.{
  ℕ, zero, suc, ◌+◌, ◌-◌, ◌%◌, ◌≤◌, ◌<◌, min, ◌≡◌, ◌≢◌, ◌∙◌, refl, Option, none, some, List, [],
  ◌∷◌, ◌++◌, length, get_elem?, set, ltb, leb, eqb, if◌then◌else◌, arith, length-append, length-set,
  Bool-cases, inl, inr,
}
use ipfs_cluster.Common.Result.{ok}
use ipfs_cluster.Api.Metrics.{Metric}
use ipfs_cluster.Monitor.{
  PeerMetrics, new_peer_metrics, store, add, latest, all, down_to_last, down_to_zero, collect,
}

module _ {ℓ} {A : Type ℓ} where
  get_elem?-set_self :
      (xs : List A) (i : ℕ) (v : A) → i < length xs → get_elem? (set xs i v) i ≡ some v
  get_elem?-set_self [] i v h = elim h [ ]
  get_elem?-set_self (y ∷ xs) zero v h = refl
  get_elem?-set_self (y ∷ xs) (suc i) v h = get_elem?-set_self xs i v (omega arith)

  get_elem?-set_ne :
      (xs : List A) (i j : ℕ) (v : A) → i ≢ j → get_elem? (set xs i v) j ≡ get_elem? xs j
  get_elem?-set_ne [] i j v h = refl
  get_elem?-set_ne (y ∷ xs) zero zero v h = absurd (h refl)
  get_elem?-set_ne (y ∷ xs) zero (suc j) v h = refl
  get_elem?-set_ne (y ∷ xs) (suc i) zero v h = refl
  get_elem?-set_ne (y ∷ xs) (suc i) (suc j) v h = get_elem?-set_ne xs i j v (λ e. h (omega arith))

  get_elem?-snoc_lt :
      (xs : List A) (v : A) (i : ℕ) → i < length xs → get_elem? (xs ++ v ∷ []) i ≡ get_elem? xs i
  get_elem?-snoc_lt [] v i h = elim h [ ]
  get_elem?-snoc_lt (y ∷ xs) v zero h = refl
  get_elem?-snoc_lt (y ∷ xs) v (suc i) h = get_elem?-snoc_lt xs v i (omega arith)

  get_elem?-snoc_self : (xs : List A) (v : A) → get_elem? (xs ++ v ∷ []) (length xs) ≡ some v
  get_elem?-snoc_self [] v = refl
  get_elem?-snoc_self (y ∷ xs) v = get_elem?-snoc_self xs v

  pub get_elem?_of_le : (xs : List A) (i : ℕ) → length xs ≤ i → get_elem? xs i ≡ none
  get_elem?_of_le [] i h = refl
  get_elem?_of_le (y ∷ xs) zero h = elim h [ ]
  get_elem?_of_le (y ∷ xs) (suc i) h = get_elem?_of_le xs i (omega arith)

-- The position of the metric added `i` rounds before the last.
abbrev pub back : ℕ → ℕ → ℕ → ℕ
back cap last i = if leb i last then last - i else last + cap - i

-- The queue after the metrics of `history`, newest first: its length is the smaller of its capacity
-- and their number, and going back from `last` it holds the newest ones in order.
pub record Holds (pmets : PeerMetrics) (history : List Metric) : Type 0 where
  pub room : 0 < pmets.cap
  pub size : length pmets.window ≡ min pmets.cap (length history)
  pub in_range : pmets.last < pmets.cap
  pub filling : length pmets.window < pmets.cap → length pmets.window ≡ length history
  pub at_end : length pmets.window < pmets.cap → pmets.last ≡ length pmets.window - 1
  pub newest :
      (i : ℕ)
      → i < length pmets.window
      → get_elem? pmets.window (back pmets.cap pmets.last i) ≡ get_elem? history i

pub new-Holds : (cap : ℕ) → 0 < cap → Holds (new_peer_metrics cap) []
unfolding new_peer_metrics
new-Holds cap h = record {
  room = h;
  size = omega arith;
  in_range = h;
  filling = λ _. refl;
  at_end = λ _. omega arith;
  newest = λ i l. elim l [ ];
}

-- `(last + 1) % cap`, in range
next-wraps :
    (last cap : ℕ) → last < cap → (last + 1) % cap ≡ (if eqb (last + 1) cap then 0 else last + 1)
next-wraps last cap h = grind arith

module _ (m : Metric) {pmets : PeerMetrics} {history : List Metric} (v : Holds pmets history) where
  -- what `add` makes of a queue with room, and of a full one
  abbrev appended : PeerMetrics
  appended = record pmets {
    window = pmets.window ++ m ∷ [];
    last = length (pmets.window ++ m ∷ []) - 1;
  }

  abbrev next : ℕ
  next = if eqb (pmets.last + 1) pmets.cap then 0 else pmets.last + 1

  abbrev replaced : PeerMetrics
  replaced = record pmets { window = set pmets.window next m; last = next }

  appended-newest :
      length pmets.window < pmets.cap
      → (k i : ℕ) → k ≡ length pmets.window
      → i < length pmets.window + 1
      → get_elem? (pmets.window ++ m ∷ []) (back pmets.cap k i) ≡ get_elem? (m ∷ history) i
  appended-newest h k zero e l =
      let at : back pmets.cap k zero ≡ length pmets.window = ground arith in
      rw at (get_elem?-snoc_self pmets.window m)
  appended-newest h k (suc i) e l =
      let at : back pmets.cap k (suc i) ≡ back pmets.cap pmets.last i =
        ground (arith, v.at_end h) in
      let below : back pmets.cap pmets.last i < length pmets.window = ground (arith, v.at_end h) in
      rw at (get_elem?-snoc_lt pmets.window m _ below ∙ v.newest i (omega arith))

  appended-Holds : length pmets.window < pmets.cap → Holds appended (m ∷ history)
  appended-Holds h =
      let longer = length-append pmets.window (m ∷ []) in
      record {
        room = v.room;
        size = omega (arith, v.filling h, longer);
        in_range = omega (arith, longer);
        filling = λ _. omega (arith, v.filling h, longer);
        at_end = λ _. refl;
        newest = λ i l. appended-newest h _ i (omega (arith, longer)) (omega (arith, longer));
      }

  replaced-newest :
      length pmets.window ≡ pmets.cap
      → (i : ℕ) → i < length pmets.window
      → get_elem? (set pmets.window next m) (back pmets.cap next i) ≡ get_elem? (m ∷ history) i
  replaced-newest h zero l =
      let at : back pmets.cap next zero ≡ next = ground arith in
      rw at (get_elem?-set_self pmets.window next m (ground (arith, v.in_range)))
  replaced-newest h (suc i) l =
      let at : back pmets.cap next (suc i) ≡ back pmets.cap pmets.last i =
        ground (arith, v.in_range) in
      let other : next ≢ back pmets.cap pmets.last i = λ e. ground (arith, v.in_range) in
      rw at (get_elem?-set_ne pmets.window next _ m other ∙ v.newest i (omega arith))

  replaced-Holds : length pmets.window ≡ pmets.cap → Holds replaced (m ∷ history)
  replaced-Holds h =
      let same = length-set pmets.window next m in
      record {
        room = v.room;
        size = omega (arith, v.size, same);
        in_range = ground (arith, v.in_range, v.room);
        filling = λ short. absurd (omega (arith, same));
        at_end = λ short. absurd (omega (arith, same));
        newest = λ i l. replaced-newest h i (omega (arith, same));
      }

  -- Adding a metric to a queue that holds the end of a history does not panic, keeps its capacity,
  -- and the queue then holds the end of the history with the metric.
  pub add-Holds :
      (pmets' : PeerMetrics) × (add m pmets ≡ some pmets')
      × (pmets'.cap ≡ pmets.cap)
      × Holds pmets' (m ∷ history)
  unfolding add store
  add-Holds = elim (Bool-cases (ltb (length pmets.window) pmets.cap)) [
    | inl room ↦ (appended, rw room, refl, appended-Holds (ground arith))
    | inr full ↦
        let h : length pmets.window ≡ pmets.cap = ground (arith, v.size) in
        (
          replaced,
          ground (arith, next-wraps pmets.last pmets.cap v.in_range),
          refl,
          replaced-Holds h,
        )
  ]

-- A queue that has been added to answers with the metric added last.
pub latest-Holds :
    (m : Metric) (history : List Metric) (pmets : PeerMetrics)
    → Holds pmets (m ∷ history)
    → latest pmets ≡ some (ok m)
unfolding latest
latest-Holds m history pmets v = ground (arith, v.newest 0)

collect-none : (o : Option Metric) → collect o none ≡ none
collect-none none = refl
collect-none (some m) = refl

down_to_zero-none : (window : List Metric) (i : ℕ) → down_to_zero window i none ≡ none
unfolding down_to_zero
down_to_zero-none window zero = collect-none _
down_to_zero-none window (suc i) = rw (down_to_zero-none window i) (collect-none _)

down_to_zero_past :
    (window : List Metric) (i : ℕ) (after : Option (List Metric))
    → length window ≤ i
    → down_to_zero window i after ≡ none
unfolding down_to_zero
down_to_zero_past window zero after h = rw (get_elem?_of_le window zero h)
down_to_zero_past window (suc i) after h = rw (get_elem?_of_le window (suc i) h)

down_to_last_past :
    (window : List Metric) (last i : ℕ)
    → length window ≡ i
    → last < i
    → down_to_last window last i ≡ none
unfolding down_to_last
down_to_last_past window last zero e h = elim h [ ]
down_to_last_past window last (suc i) e h =
    ground (arith, get_elem?_of_le window (suc i) (omega arith))

-- `all` panics on every queue that is not empty: its second loop starts one past the last index.
pub all_panics : (pmets : PeerMetrics) → 0 < length pmets.window → all pmets ≡ none
unfolding all
all_panics pmets h =
    let n = length pmets.window in
    elim (Bool-cases (ltb pmets.last n)) [
      | inl inside ↦
          let past = down_to_last_past pmets.window pmets.last n refl (ground arith) in
          ground (arith, past, down_to_zero-none pmets.window pmets.last)
      | inr outside ↦
          let past =
            down_to_zero_past pmets.window pmets.last (down_to_last pmets.window pmets.last n)
              (ground arith) in
          ground (arith, past)
    ]
