-- ===== src/Tests/Calls.antt =====
-- `multiRPC` to three peers, whose goroutines run from the last to the first and then the second.
use ipfs_cluster.Common.{
  ℕ, String, ◌≡◌, Option, none, some, List, [], ◌∷◌, ◌<>◌, ◌==◌, if◌then◌else◌, arith,
}
use ipfs_cluster.Common.Result.{Error}
use ipfs_cluster.External.{PeerId}
use ipfs_cluster.Cluster.MultiRpc.{multi_rpc, in_turn}
use ipfs_cluster.Cluster.MultiRpc.AnyOrder.{count, IsSchedule, multi_rpc-in_turn}

abbrev dests : List PeerId
dests = "A" ∷ "B" ∷ "C" ∷ []

abbrev order : List ℕ
order = 2 ∷ 0 ∷ 1 ∷ []

order-IsSchedule : IsSchedule 3 order
unfolding count
order-IsSchedule i = ground arith

-- Only the second peer is away, and leaves what it is given.
abbrev call : PeerId → String → String × Option Error
call d old = if d == "B" then (old, some "no route") else (d <> old, none)

multi_rpc-in_turn_example :
    multi_rpc call dests ("!" ∷ "!" ∷ "!" ∷ []) order
    ≡ some (record { replies = "A!" ∷ "!" ∷ "C!" ∷ []; errs = none ∷ some "no route" ∷ none ∷ [] })
unfolding in_turn
multi_rpc-in_turn_example =
    multi_rpc-in_turn call dests ("!" ∷ "!" ∷ "!" ∷ []) order order-IsSchedule
