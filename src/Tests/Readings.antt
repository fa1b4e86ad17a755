-- ===== src/Tests/Readings.antt =====
-- The monitor and the informer on concrete metrics.
use ipfs_cluster.Common.{ℕ, ◌≡◌, ◌↔◌, refl, false, some, List, [], ◌∷◌, Memᴰ, arith}
use ipfs_cluster.Api.Metrics.{Metric}
use ipfs_cluster.Monitor.{
  PeerMetrics, new_peer_metrics, add, StdPeerMonitor, log_metric, last_metrics,
}
use ipfs_cluster.Monitor.Ring.{Holds, new-Holds, add-Holds}
use ipfs_cluster.Monitor.History.{Records, logged, log_metric-Records}
use ipfs_cluster.Monitor.Latest.{IsLatest, last_metrics_iff}
use ipfs_cluster.Common.Dict.{lookup}
use ipfs_cluster.Tests.World.{codecs, reported}

abbrev one_slot : PeerMetrics
one_slot = new_peer_metrics 1

add-Holds_example :
    (pmets' : PeerMetrics) × (add (reported "A" "1") one_slot ≡ some pmets')
    × (pmets'.cap ≡ one_slot.cap)
    × Holds pmets' (reported "A" "1" ∷ [])
add-Holds_example = add-Holds (reported "A" "1") (new-Holds 1 (omega arith))

abbrev two : PeerMetrics
two = record { last = 1; window = reported "A" "1" ∷ reported "A" "2" ∷ []; cap = 5 }

abbrev empty : StdPeerMonitor
empty = record { metrics = []; window_cap = 2; shutdown = false }

empty-Records : Records empty []
unfolding lookup logged
empty-Records = record {
  room = omega arith;
  queues = λ name p. refl;
  distinct = λ name mbyp e. absurd (cc);
}

abbrev room : ℕ
room = 2

log_metric-Records_example :
    (mon' : StdPeerMonitor) × (log_metric (reported "A" "1") empty ≡ some mon')
    × Records mon' (reported "A" "1" ∷ [])
log_metric-Records_example = log_metric-Records (reported "A" "1") empty-Records

abbrev logged_once :
    (mon' : StdPeerMonitor) × (log_metric (reported "A" "1") empty ≡ some mon')
    × Records mon' (reported "A" "1" ∷ [])
logged_once = log_metric-Records (reported "A" "1") empty-Records

last_metrics_iff_example :
    (result : List Metric) × (last_metrics codecs 6 logged_once.0 "numpin" ≡ some result)
    × ((m : Metric) → Memᴰ m result ↔ IsLatest codecs 6 "numpin" m (reported "A" "1" ∷ []))
last_metrics_iff_example =
    last_metrics_iff codecs 6 "numpin" logged_once.0 (reported "A" "1" ∷ []) logged_once.2
