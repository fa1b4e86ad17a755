-- ===== src/Allocator.antt =====
-- allocator/numpinalloc/numpinalloc.go: the allocator that prefers the peers with the fewest pins.
pub mod Order
pub mod Reported
use ipfs_cluster.Common.{
  ℕ, String, Bool, Option, none, some, List, [], ◌∷◌, ◌++◌, ◌==◌, ◌||◌, not, if◌then◌else◌,
}
use ipfs_cluster.Common.Int.{ℤ, pos, ltb_ℤ}
use ipfs_cluster.Common.Dict.{Dict, lookup, insert}
use ipfs_cluster.Common.Result.{Result, ok, err}
use ipfs_cluster.External.{Codecs, PeerId}
use ipfs_cluster.Api.Metrics.{Metric, discard}

-- informer/numpin's `MetricName`
abbrev pub metric_name : String
metric_name = "numpin"

pub record MetricsSorter : Type 0 where
  pub peers : List PeerId
  pub m : Dict ℤ

-- `s.m[peer]`: a missing key reads as 0
abbrev pub value_of : Option ℤ → ℤ
value_of none = pos 0
value_of (some v) = v

-- `Less`, on the peers in the two positions
unfoldable pub less : MetricsSorter → PeerId → PeerId → Bool
less s peer_i peer_j = ltb_ℤ (value_of (lookup peer_i s.m)) (value_of (lookup peer_j s.m))

-- `strconv.Atoi`, and `sort.Sort` of a slice by an order on its elements
module _ {Cid Addr : Type 0} (x : Codecs Cid Addr) (now : ℕ) (atoi : String → Result ℤ)
    (sort : (PeerId → PeerId → Bool) → List PeerId → List PeerId) where
  -- one round of the loop of `newMetricsSorter`, after the parsing
  abbrev pub record_value : PeerId → Result ℤ → MetricsSorter → MetricsSorter
  record_value k (err e) s = s
  record_value k (ok val) s = record { peers = s.peers ++ k ∷ []; m = insert k val s.m }

  unfoldable pub sorter_loop : Dict Metric → MetricsSorter → MetricsSorter
  sorter_loop [] s = s
  sorter_loop ((k, v) ∷ m) s = sorter_loop m (
      if not (v.name == metric_name) || discard x now v then s else record_value k (atoi v.value) s)

  unfoldable pub new_metrics_sorter : Dict Metric → MetricsSorter
  unfolding sorter_loop
  new_metrics_sorter m = sorter_loop m (record { peers = []; m = [] })

  unfoldable pub allocate : Cid → Dict Metric → Dict Metric → Result (List PeerId)
  unfolding new_metrics_sorter less
  allocate c current candidates =
      let numpins = new_metrics_sorter candidates in ok (sort (less numpins) numpins.peers)
