-- ===== src/Cluster/Pinning.antt =====
-- cluster.go and consensus.go together: what a `Pin` without an error has done.
use ipfs_cluster.Common.{ℕ, ◌≡◌, ◌⊎◌, true, List, All}
use ipfs_cluster.Common.Int.{pos, negsuc}
use ipfs_cluster.Common.Result.{ok}
use ipfs_cluster.External.{Codecs, PeerId}
use ipfs_cluster.Interfaces.{StateOps}
use ipfs_cluster.Api.Types.{CidArg}
use ipfs_cluster.Api.Metrics.{Metric}
use ipfs_cluster.Cluster.Allocate.{Sources, allocations_in}
use ipfs_cluster.Cluster.Candidates.{NoRepeat}
use ipfs_cluster.Cluster.Eligible.{IsEligible}

module _ {Cid Addr S : Type 0} (x : Codecs Cid Addr) (o : StateOps Cid S)
    (src : Sources Cid S) where
  -- The argument is for all peers, or for peers that are members, hold no copy, and have a metric of
  -- use at the leader, each once.
  abbrev pub IsPlaced : Cid → CidArg Cid → Type 0
  IsPlaced h arg =
      ((n : ℕ) × (src.replication_factor ≡ negsuc n) × (arg.everywhere ≡ true))
      ⊎ ((n : ℕ) × (l : PeerId) × (metrics : List Metric) × (src.replication_factor ≡ pos n)
          × (src.leader ≡ ok l)
          × (src.last_metrics l src.informer_name ≡ ok metrics)
          × All (IsEligible x o src (allocations_in x o src h src.state) metrics) arg.allocations
          × NoRepeat arg.allocations)
