-- ===== src/Tests/Allocation.antt =====
-- Allocating a pin among concrete peers.
use ipfs_cluster.Common.{String, ◌≡◌, refl, some, List, [], ◌∷◌, Memᴰ, All}
use ipfs_cluster.Common.Int.{ℤ, pos}
use ipfs_cluster.Common.Dict.{Dict, lookup, insert, delete}
use ipfs_cluster.Common.Result.{ok}
use ipfs_cluster.Api.Types.{cid_arg_to_serial, to_cid_arg}
use ipfs_cluster.Api.Metrics.{Metric, discard, expired}
use ipfs_cluster.State.{MapState, new_map_state, map_state_ops, add, get}
use ipfs_cluster.Allocator.{sorter_loop, new_metrics_sorter, less}
use ipfs_cluster.Allocator
use ipfs_cluster.Allocator.Reported
use ipfs_cluster.Allocator.Order.{IsSorted, pins_of, allocate-IsSorted, allocate-AnswersCandidates}
use ipfs_cluster.Cluster.Allocate
use ipfs_cluster.Cluster.Allocate.{
  Sources, init_metrics, put_metrics, move_current, allocations_in, drop_discarded, metrics_map,
  choose, allocate_among, allocate_positive,
}
use ipfs_cluster.Cluster.Candidates.{NoRepeat, AnswersCandidates}
use ipfs_cluster.Cluster.Eligible.{IsEligible, allocate-IsEligible}
use ipfs_cluster.Tests.World.{codecs, arg_for, reported, digit}
use ipfs_cluster.Tests.Sorting.{insertion_sort, place, insertion_sort-IsSort}

abbrev metrics : List Metric
metrics = reported "A" "1" ∷ reported "B" "2" ∷ reported "C" "1" ∷ reported "E" "1" ∷ []

abbrev candidates : Dict Metric
candidates = ("B", reported "B" "2") ∷ ("C", reported "C" "1") ∷ []

allocate-IsSorted_example :
    (allocs : List String) × (Allocator.allocate codecs 6 digit insertion_sort "x" [] candidates
      ≡ ok allocs)
    × ((p : String)
        → (Memᴰ p allocs → (n : ℤ) × (Reported.reported codecs 6 digit candidates p ≡ some n))
          × ((n : ℤ) → Reported.reported codecs 6 digit candidates p ≡ some n → Memᴰ p allocs))
    × NoRepeat allocs
    × IsSorted (pins_of codecs 6 digit insertion_sort candidates) allocs
unfolding lookup
allocate-IsSorted_example =
    allocate-IsSorted codecs 6 digit insertion_sort "x" [] candidates insertion_sort-IsSort
      (refl, (refl, tt))

allocate-AnswersCandidates_example :
    AnswersCandidates (Allocator.allocate codecs 6 digit insertion_sort)
allocate-AnswersCandidates_example =
    allocate-AnswersCandidates codecs 6 digit insertion_sort insertion_sort-IsSort

-- "x" is on "A" and should be on two peers; "D" has no metric and "E" is not a member
abbrev state : MapState
state = add codecs (arg_for "x" ("A" ∷ [])) new_map_state

abbrev sources : Sources String MapState
sources = record {
  replication_factor = pos 2;
  state = ok state;
  peers = "A" ∷ "B" ∷ "C" ∷ "D" ∷ [];
  informer_name = "numpin";
  leader = ok "B";
  last_metrics = λ p name. ok metrics;
  allocator = Allocator.allocate codecs 6 digit insertion_sort;
  now = 6;
  show_peers = λ ps. "";
  show_int = λ n. "";
}

abbrev on_c : List String
on_c = "C" ∷ []

program : Unit {0}
unfolding lookup insert delete cid_arg_to_serial to_cid_arg discard expired new_map_state
    map_state_ops add get sorter_loop new_metrics_sorter less Allocator.allocate Allocate.allocate
    init_metrics put_metrics move_current drop_discarded metrics_map choose allocate_among
    allocate_positive insertion_sort place
program = tt

allocate-x : Allocate.allocate codecs (map_state_ops codecs) sources "x" ≡ ok on_c
unfolding program
allocate-x = refl

allocate-IsEligible_example :
    All
      (IsEligible codecs
        (map_state_ops codecs)
        sources
        (allocations_in codecs (map_state_ops codecs) sources "x" (ok state))
        metrics)
      on_c
    × NoRepeat on_c
allocate-IsEligible_example =
    allocate-IsEligible codecs (map_state_ops codecs) sources 2 "x" "B" metrics on_c
      (allocate-AnswersCandidates codecs 6 digit insertion_sort insertion_sort-IsSort) refl refl
      refl allocate-x
