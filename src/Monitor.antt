-- ===== src/Monitor.antt =====
-- peer_monitor.go: `peerMetrics` and `StdPeerMonitor`. `none` is a panic: an index out of range.
pub mod Ring
pub mod History
pub mod Latest
use ipfs_cluster.Common.{
  ℕ, zero, suc, ◌+◌, ◌-◌, ◌%◌, String, Bool, true, false, Option, none, some, List, [], ◌∷◌, ◌++◌,
  length, get_elem?, set, ltb, eqb, if◌then◌else◌,
}
use ipfs_cluster.Common.Dict.{Dict, lookup, insert}
use ipfs_cluster.Common.Result.{Result, ok, err}
use ipfs_cluster.External.{Codecs, PeerId}
use ipfs_cluster.Api.Metrics.{Metric, discard}

-- A circular queue; `cap` is the capacity of the slice `window`.
pub record PeerMetrics : Type 0 where
  pub last : ℕ
  pub window : List Metric
  pub cap : ℕ

unfoldable pub new_peer_metrics : ℕ → PeerMetrics
new_peer_metrics window_cap = record { last = 0; window = []; cap = window_cap }

-- `window[i] = m`
unfoldable pub store : List Metric → ℕ → Metric → Option (List Metric)
store window i m = if ltb i (length window) then some (set window i m) else none

unfoldable pub add : Metric → PeerMetrics → Option PeerMetrics
unfolding store
add m pmets =
    if ltb (length pmets.window) pmets.cap
    then (let window = pmets.window ++ m ∷ [] in
        some (record pmets { window = window; last = length window - 1 }))
    else if eqb pmets.cap 0
    then none
    else (let last = (pmets.last + 1) % pmets.cap in
        elim (store pmets.window last m) [
          | none ↦ none
          | some window ↦ some (record pmets { window = window; last = last })
        ])

unfoldable pub latest : PeerMetrics → Option (Result Metric)
latest pmets =
    if eqb (length pmets.window) 0
    then some (err "no metrics")
    else elim (get_elem? pmets.window pmets.last) [ none ↦ none | some m ↦ some (ok m) ]

-- `res = append(res, window[i])`, in front of what the rest of the loops appends
abbrev pub collect : Option Metric → Option (List Metric) → Option (List Metric)
collect none rest = none
collect (some m) none = none
collect (some m) (some ms) = some (m ∷ ms)

-- `for i := wlen; i > pmets.last; i--`
unfoldable pub down_to_last : List Metric → ℕ → ℕ → Option (List Metric)
down_to_last window last zero = some []
down_to_last window last (suc i) =
    let rest = down_to_last window last i in
    if ltb last (suc i) then collect (get_elem? window (suc i)) rest else some []

-- `for i := pmets.last; i >= 0; i--`
unfoldable pub down_to_zero : List Metric → ℕ → Option (List Metric) → Option (List Metric)
down_to_zero window zero after = collect (get_elem? window zero) after
down_to_zero window (suc i) after = collect (get_elem? window (suc i)) (down_to_zero window i after)

unfoldable pub all : PeerMetrics → Option (List Metric)
unfolding down_to_last down_to_zero
all pmets =
    let wlen = length pmets.window in
    if eqb wlen 0
    then some []
    else down_to_zero pmets.window pmets.last (down_to_last pmets.window pmets.last wlen)

-- The monitor's maps; `metrics` goes from names to maps from peers.
pub record StdPeerMonitor : Type 0 where
  pub metrics : Dict (Dict PeerMetrics)
  pub window_cap : ℕ
  pub shutdown : Bool

-- `none`: the panic "windowCap too small"
unfoldable pub new_std_peer_monitor : ℕ → Option StdPeerMonitor
new_std_peer_monitor window_cap =
    if eqb window_cap 0
    then none
    else some (record { metrics = []; window_cap = window_cap; shutdown = false })

-- `mbyp, ok := ...; if !ok { make }`
abbrev pub or_new {ℓ} : {A : Type ℓ} → A → Option A → A
or_new fresh none = fresh
or_new fresh (some a) = a

unfoldable pub log_metric : Metric → StdPeerMonitor → Option StdPeerMonitor
unfolding add new_peer_metrics
log_metric m mon =
    let mbyp = or_new [] (lookup m.name mon.metrics) in
    let pmets = or_new (new_peer_metrics mon.window_cap) (lookup m.peer mbyp) in
    elim (add m pmets) [
      | none ↦ none
      | some pmets' ↦
          some (record mon { metrics = insert m.name (insert m.peer pmets' mbyp) mon.metrics })
    ]

module _ {Cid Addr : Type 0} (x : Codecs Cid Addr) (now : ℕ) where
  -- one round of the loop of `LastMetrics`, before the rest of the result
  unfoldable pub keep_last : Option (Result Metric) → List Metric → Option (List Metric)
  keep_last none rest = none
  keep_last (some (err e)) rest = some rest
  keep_last (some (ok last)) rest = some (if discard x now last then rest else last ∷ rest)

  unfoldable pub last_of_each : Dict PeerMetrics → Option (List Metric)
  unfolding keep_last latest
  last_of_each [] = some []
  last_of_each ((p, pmets) ∷ mbyp) = elim (last_of_each mbyp) [
    | none ↦ none
    | some rest ↦ keep_last (latest pmets) rest
  ]

  unfoldable pub last_metrics : StdPeerMonitor → String → Option (List Metric)
  unfolding last_of_each
  last_metrics mon name = elim (lookup name mon.metrics) [
    | none ↦ some []
    | some mbyp ↦ last_of_each mbyp
  ]

unfoldable pub shutdown_monitor : StdPeerMonitor → StdPeerMonitor
shutdown_monitor mon = if mon.shutdown then mon else record mon { shutdown = true }
