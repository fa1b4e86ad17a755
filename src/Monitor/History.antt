-- ===== src/Monitor/History.antt =====
-- peer_monitor.go: a monitor against the whole history of logged metrics.
use ipfs_cluster.Common.{
  ℕ, zero, suc, ◌<◌, String, ◌≡◌, ◌⊎◌, refl, ◌∙◌, false, ◌&&◌, Option, none, some, List, [], ◌∷◌,
  if◌then◌else◌, arith, ◌==◌, eq_iff, Bool-cases, Option-cases, inl, inr,
}
use ipfs_cluster.Common.Dict.{Dict, Distinct, lookup, insert, lookup-insert, insert-Distinct}
use ipfs_cluster.External.{PeerId}
use ipfs_cluster.Api.Metrics.{Metric}
use ipfs_cluster.Monitor.{
  PeerMetrics, new_peer_metrics, StdPeerMonitor, new_std_peer_monitor, or_new, log_metric,
}
use ipfs_cluster.Monitor.Ring.{Holds, new-Holds, add-Holds}

-- The metrics of one name and one peer in a history, newest first.
unfoldable pub logged : String → PeerId → List Metric → List Metric
logged name p [] = []
logged name p (m ∷ history) =
    let rest = logged name p history in if (m.name == name) && (m.peer == p) then m ∷ rest else rest

logged-cons :
    (name : String) (p : PeerId) (m : Metric) (history : List Metric)
    → logged name p (m ∷ history) ≡ (
        if (m.name == name) && (m.peer == p)
        then m ∷ logged name p history
        else logged name p history)
unfolding logged
logged-cons name p m history = refl

-- The queue of a name and a peer, if there is one.
abbrev pub queue : String → PeerId → Dict (Dict PeerMetrics) → Option PeerMetrics
queue name p metrics = elim (lookup name metrics) [ none ↦ none | some mbyp ↦ lookup p mbyp ]

-- A queue that is there has been added to, and holds the end of its history.
abbrev pub Keeps : Option PeerMetrics → ℕ → List Metric → Type 0
Keeps none cap h = h ≡ []
Keeps (some pmets) cap h =
    (m : Metric) × (rest : List Metric) × (h ≡ m ∷ rest) × (pmets.cap ≡ cap) × Holds pmets h

abbrev pub AllDistinct : Dict (Dict PeerMetrics) → Type 0
AllDistinct metrics =
    (name : String) (mbyp : Dict PeerMetrics) → lookup name metrics ≡ some mbyp → Distinct mbyp

pub record Records (mon : StdPeerMonitor) (history : List Metric) : Type 0 where
  pub room : 0 < mon.window_cap
  pub queues :
      (name : String) (p : PeerId)
      → Keeps (queue name p mon.metrics) mon.window_cap (logged name p history)
  pub distinct : AllDistinct mon.metrics

-- A monitor made with room for a metric records the empty history; without, `NewStdPeerMonitor`
-- panics.
pub new-Records :
    (cap : ℕ)
    → ((mon : StdPeerMonitor) × (new_std_peer_monitor cap ≡ some mon) × Records mon [])
      ⊎ ((cap ≡ 0) × (new_std_peer_monitor cap ≡ none))
unfolding new_std_peer_monitor lookup logged
new-Records zero = inr (refl, refl)
new-Records (suc n) = inl (
  record { metrics = []; window_cap = suc n; shutdown = false },
  ground arith,
  record { room = omega arith; queues = λ name p. refl; distinct = λ name mbyp e. absurd (cc) },
)

pub lookup-or_new :
    (name : String) (p : PeerId) (metrics : Dict (Dict PeerMetrics))
    → lookup p (or_new [] (lookup name metrics)) ≡ queue name p metrics
lookup-or_new name p metrics = elim (Option-cases (lookup name metrics)) [
  | inl e ↦ rw (e, queue) (unfold lookup in refl)
  | inr (d, e) ↦ rw (e, queue)
]

fresh-Holds :
    (o : Option PeerMetrics) (cap : ℕ) (h : List Metric)
    → 0 < cap
    → Keeps o cap h
    → Holds (or_new (new_peer_metrics cap) o) h × ((or_new (new_peer_metrics cap) o).cap ≡ cap)
unfolding new_peer_metrics
fresh-Holds none cap h c k = (rw k (new-Holds cap c), refl)
fresh-Holds (some pmets) cap h c (m, rest, e, same, v) = (v, same)

queue-insert :
    (n p name q : String) (pmets : PeerMetrics) (metrics : Dict (Dict PeerMetrics))
    → queue name q (insert n (insert p pmets (or_new [] (lookup n metrics))) metrics)
      ≡ (if (n == name) && (p == q) then some pmets else queue name q metrics)
queue-insert n p name q pmets metrics = ground (
  arith,
  eq_iff n name,
  lookup-insert n name (insert p pmets (or_new [] (lookup n metrics))) metrics,
  lookup-insert p q pmets (or_new [] (lookup n metrics)),
  lookup-or_new n q metrics,
)

module _ (m : Metric) {mon : StdPeerMonitor} {history : List Metric} (v : Records mon history) where
  abbrev old_queue : PeerMetrics
  old_queue =
      or_new (new_peer_metrics mon.window_cap)
        (lookup m.peer (or_new [] (lookup m.name mon.metrics)))

  old-Holds : Holds old_queue (logged m.name m.peer history) × (old_queue.cap ≡ mon.window_cap)
  old-Holds =
      rw (lookup-or_new m.name m.peer mon.metrics)
        (fresh-Holds _ mon.window_cap _ v.room (v.queues m.name m.peer))

  Keeps-insert :
      (pmets : PeerMetrics) (name q : String)
      → pmets.cap ≡ mon.window_cap
      → Holds pmets (m ∷ logged m.name m.peer history)
      → Keeps
          (queue name q (
            insert m.name
              (insert m.peer pmets (or_new [] (lookup m.name mon.metrics)))
              mon.metrics))
          mon.window_cap
          (logged name q (m ∷ history))
  Keeps-insert pmets name q same h =
      rw (queue-insert m.name m.peer name q pmets mon.metrics, logged-cons name q m history)
        (elim (Bool-cases ((m.name == name) && (m.peer == q))) [
          | inl here ↦
              let (e1, e2) : (m.name ≡ name) × (m.peer ≡ q) =
                ground (arith, eq_iff m.name name, eq_iff m.peer q) in
              rw here (m, logged name q history, refl, same, rw (← e1, ← e2) h)
          | inr there ↦ rw there (v.queues name q)
        ])

  old-Distinct : Distinct (or_new [] (lookup m.name mon.metrics))
  old-Distinct = elim (Option-cases (lookup m.name mon.metrics)) [
    | inl e ↦ rw e tt
    | inr (d, e) ↦ rw e (v.distinct m.name d e)
  ]

  insert-AllDistinct :
      (pmets : PeerMetrics)
      → AllDistinct
          (insert m.name (insert m.peer pmets (or_new [] (lookup m.name mon.metrics))) mon.metrics)
  insert-AllDistinct pmets name mbyp e =
      let new = insert m.peer pmets (or_new [] (lookup m.name mon.metrics)) in
      let fresh = insert-Distinct m.peer pmets _ old-Distinct in
      ground (arith, lookup-insert m.name name new mon.metrics, fresh, v.distinct name mbyp)

  -- Logging a metric to a monitor that records a history does not panic, and the monitor then
  -- records the history with the metric.
  pub log_metric-Records :
      (mon' : StdPeerMonitor) × (log_metric m mon ≡ some mon') × Records mon' (m ∷ history)
  unfolding log_metric
  log_metric-Records =
      let (old, cap) = old-Holds in
      let (pmets', added, same, holds) = add-Holds m old in
      (
        record mon {
          metrics =
              insert m.name (insert m.peer pmets' (or_new [] (lookup m.name mon.metrics)))
                mon.metrics;
        },
        rw (added, log_metric),
        record {
          room = v.room;
          queues = λ name q. Keeps-insert pmets' name q (same ∙ cap) holds;
          distinct = insert-AllDistinct pmets';
        },
      )
