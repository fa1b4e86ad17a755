-- ===== src/Monitor/Latest.antt =====
-- peer_monitor.go: what `LastMetrics` returns, against the whole history of logged metrics.
use mathlib.Core.List.Memᴰ
use ipfs_cluster.Common.{
  ℕ, String, ◌≡◌, ◌↔◌, refl, subst, ◌∙◌, false, some, List, [], ◌∷◌, ◌++◌, Memᴰ, if◌then◌else◌,
  arith, ◌==◌, eq_iff, eq_refl, Bool-cases, Option-cases, inl, inr,
}
use ipfs_cluster.Common.Dict.{Dict, Distinct, lookup}
use ipfs_cluster.External.{Codecs, PeerId}
use ipfs_cluster.Api.Metrics.{Metric, discard}
use ipfs_cluster.Monitor.{
  PeerMetrics, StdPeerMonitor, or_new, keep_last, last_of_each, last_metrics,
}
use ipfs_cluster.Monitor.Ring.{latest-Holds}
use ipfs_cluster.Monitor.History.{logged, queue, Keeps, Records, lookup-or_new}

module _ {Cid Addr : Type 0} (x : Codecs Cid Addr) (now : ℕ) where
  -- The newest metric of a name and a peer, if it is valid and has not expired.
  abbrev pub fresh : List Metric → List Metric
  fresh [] = []
  fresh (m ∷ rest) = if discard x now m then [] else m ∷ []

  abbrev pub fresh_of_each : String → Dict PeerMetrics → List Metric → List Metric
  fresh_of_each name [] history = []
  fresh_of_each name ((p, pmets) ∷ mbyp) history =
      fresh (logged name p history) ++ fresh_of_each name mbyp history

  -- every queue of the map holds the end of its peer's history
  abbrev pub AllKept : String → Dict PeerMetrics → ℕ → List Metric → Type 0
  AllKept name [] cap history = Unit
  AllKept name ((p, pmets) ∷ mbyp) cap history =
      Keeps (some pmets) cap (logged name p history) × AllKept name mbyp cap history

  last_of_each-fresh :
      (name : String) (mbyp : Dict PeerMetrics) (cap : ℕ) (history : List Metric)
      → AllKept name mbyp cap history
      → last_of_each x now mbyp ≡ some (fresh_of_each name mbyp history)
  unfolding last_of_each keep_last
  last_of_each-fresh name [] cap history k = refl
  last_of_each-fresh name ((p, pmets) ∷ mbyp) cap history ((m, rest, e, same, v), ks) =
      rw
        (
          e,
          last_of_each-fresh name mbyp cap history ks,
          latest-Holds m rest pmets (rw e at v),
          last_of_each,
        )
        (elim (Bool-cases (discard x now m)) [ inl d ↦ rw d | inr d ↦ rw d ])

  AllKept-of_Records :
      (name : String) (cap : ℕ) (history : List Metric) (mbyp : Dict PeerMetrics)
      → Distinct mbyp
      → ((p : PeerId) (pmets : PeerMetrics)
          → lookup p mbyp ≡ some pmets
          → Keeps (some pmets) cap (logged name p history))
      → AllKept name mbyp cap history
  unfolding lookup
  AllKept-of_Records name cap history [] h k = tt
  AllKept-of_Records name cap history ((p, pmets) ∷ mbyp) h k = (
    k p pmets (rw eq_refl refl),
    AllKept-of_Records name cap history mbyp h.1
        (λ q qmets e. k q qmets (ground (arith, eq_iff p q))),
  )

  -- the map of a name, as `LastMetrics` goes through it
  abbrev pub by_peer : String → StdPeerMonitor → Dict PeerMetrics
  by_peer name mon = or_new [] (lookup name mon.metrics)

  last_metrics-fresh :
      (name : String) (mon : StdPeerMonitor) (history : List Metric)
      → Records mon history
      → last_metrics x now mon name ≡ some (fresh_of_each name (by_peer name mon) history)
  unfolding last_metrics
  last_metrics-fresh name mon history v = elim (Option-cases (lookup name mon.metrics)) [
    | inl e ↦ rw (e, last_metrics)
    | inr (mbyp, e) ↦
        rw (e, last_metrics)
          (last_of_each-fresh name mbyp mon.window_cap history (
            AllKept-of_Records name mon.window_cap history mbyp (v.distinct name mbyp e)
              (λ p pmets found. kept p mbyp pmets e found)))
  ]
    where
      kept :
          (p : PeerId) (mbyp : Dict PeerMetrics) (pmets : PeerMetrics)
          → lookup name mon.metrics ≡ some mbyp
          → lookup p mbyp ≡ some pmets
          → Keeps (some pmets) mon.window_cap (logged name p history)
      kept p mbyp pmets e found =
          let same : queue name p mon.metrics ≡ some pmets = rw (e, queue) found in
          subst (λ o. Keeps o mon.window_cap (logged name p history)) same (v.queues name p)

  -- The metric is the newest that some peer has logged under the name, is valid, and has not
  -- expired.
  abbrev pub IsLatest : String → Metric → List Metric → Type 0
  IsLatest name m history =
      (p : PeerId) × (rest : List Metric) × (logged name p history ≡ m ∷ rest)
      × (discard x now m ≡ false)

  mem-fresh :
      (name : String) (p : PeerId) (m : Metric) (h history : List Metric)
      → logged name p history ≡ h
      → Memᴰ m (fresh h)
      → IsLatest name m history
  mem-fresh name p m [] history e i = elim i [ ]
  mem-fresh name p m (n ∷ rest) history e i = elim (Bool-cases (discard x now n)) [
    | inl d ↦ absurd (Memᴰ.not-nil (rw d at i))
    | inr d ↦ let same : m ≡ n = Memᴰ.eq_of_singleton (rw d at i) in (p, rest, rw same e, rw same d)
  ]

  IsLatest-of_mem :
      (name : String) (mbyp : Dict PeerMetrics) (m : Metric) (history : List Metric)
      → Memᴰ m (fresh_of_each name mbyp history)
      → IsLatest name m history
  IsLatest-of_mem name [] m history i = elim i [ ]
  IsLatest-of_mem name ((p, pmets) ∷ mbyp) m history i =
      elim (Memᴰ.append_cases (fresh (logged name p history)) i) [
        | inl here ↦ mem-fresh name p m _ history refl here
        | inr later ↦ IsLatest-of_mem name mbyp m history later
      ]

  mem_of_IsLatest :
      (name : String) (p : PeerId) (pmets : PeerMetrics) (mbyp : Dict PeerMetrics) (m : Metric)
      (rest history : List Metric)
      → lookup p mbyp ≡ some pmets
      → logged name p history ≡ m ∷ rest
      → discard x now m ≡ false
      → Memᴰ m (fresh_of_each name mbyp history)
  unfolding lookup
  mem_of_IsLatest name p pmets [] m rest history e l d = absurd (cc)
  mem_of_IsLatest name p pmets ((q, qmets) ∷ mbyp) m rest history e l d =
      elim (Bool-cases (q == p)) [
        | inl here ↦
            let same : q ≡ p = (eq_iff q p).0 here in rw (same, l, fresh, d) (Memᴰ.head refl)
        | inr there ↦
            Memᴰ.append_right _
              (mem_of_IsLatest name p pmets mbyp m rest history (rw there at e) l d)
      ]

  IsLatest-mem :
      (name : String) (mon : StdPeerMonitor) (m : Metric) (history : List Metric)
      → Records mon history
      → IsLatest name m history
      → Memᴰ m (fresh_of_each name (by_peer name mon) history)
  IsLatest-mem name mon m history v (p, rest, l, d) =
      elim (Option-cases (queue name p mon.metrics)) [
        | inl missing ↦
            let empty : logged name p history ≡ [] =
              subst (λ o. Keeps o mon.window_cap (logged name p history)) missing
                (v.queues name p) in
            absurd (cc)
        | inr (pmets, found) ↦
            mem_of_IsLatest name p pmets (by_peer name mon) m rest history
              (lookup-or_new name p mon.metrics ∙ found) l d
      ]

  -- On a monitor that records a history, `LastMetrics` does not panic. It returns exactly the metrics that are the newest that some peer
  -- has logged under the name, are valid, and have not expired.
  pub last_metrics_iff :
      (name : String) (mon : StdPeerMonitor) (history : List Metric)
      → Records mon history
      → (result : List Metric) × (last_metrics x now mon name ≡ some result)
        × ((m : Metric) → Memᴰ m result ↔ IsLatest name m history)
  last_metrics_iff name mon history v = (
    fresh_of_each name (by_peer name mon) history,
    last_metrics-fresh name mon history v,
    λ m. (IsLatest-of_mem name (by_peer name mon) m history, IsLatest-mem name mon m history v),
  )
