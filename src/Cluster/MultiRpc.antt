-- ===== src/Cluster/MultiRpc.antt =====
-- cluster.go: `multiRPC`, whose calls are goroutines that run in any order.
pub mod AnyOrder
use ipfs_cluster.Common.{
  ℕ, ◌+◌, ◌<◌, ◌≤◌, ◌≡◌, zero, suc, refl, sym, ap, ◌∙◌, Bool, true, false, Option, none, some, List,
  [], ◌∷◌, length, get_elem?, set, length-set, eqb, ltb, arith, if◌then◌else◌,
}
use ipfs_cluster.Common.Result.{Error}
use ipfs_cluster.External.{PeerId}

-- the slices that the goroutines write: `reply` and `errs`
pub record Slots (R : Type 0) : Type 0 where
  pub replies : List R
  pub errs : List (Option Error)

-- `make([]error, len(dests), len(dests))`
unfoldable pub no_errors : List PeerId → List (Option Error)
no_errors [] = []
no_errors (d ∷ dests) = none ∷ no_errors dests

-- `call` is `rpcClient.Call` with the service, the method and the arguments given: from what the
-- reply holds it makes what it leaves there, and the error, if there is one.
module _ {R : Type 0} (call : PeerId → R → R × Option Error) where
  -- The goroutine of an index; it panics out of range.
  unfoldable pub run_call : List PeerId → ℕ → Slots R → Option (Slots R)
  run_call dests i s = elim (get_elem? dests i) [
    | none ↦ none
    | some d ↦ elim (get_elem? s.replies i) [
      | none ↦ none
      | some old ↦
          let (rep, e) = call d old in
          some (record { replies = set s.replies i rep; errs = set s.errs i e })
    ]
  ]

  -- the goroutines in the order in which they run
  unfoldable pub run_calls : List PeerId → List ℕ → Slots R → Option (Slots R)
  unfolding run_call
  run_calls dests [] s = some s
  run_calls dests (i ∷ order) s = elim (run_call dests i s) [
    | none ↦ none
    | some s' ↦ run_calls dests order s'
  ]

  -- The replies and the errors, or a panic.
  unfoldable pub multi_rpc : List PeerId → List R → List ℕ → Option (Slots R)
  unfolding run_calls no_errors
  multi_rpc dests reply order =
      if eqb (length dests) (length reply)
      then run_calls dests order (record { replies = reply; errs = no_errors dests })
      else none

  -- The calls one after the other.
  unfoldable pub in_turn : List PeerId → List R → Slots R
  in_turn [] reply = record { replies = []; errs = [] }
  in_turn (d ∷ dests) [] = record { replies = []; errs = [] }
  in_turn (d ∷ dests) (old ∷ reply) =
      let rest = in_turn dests reply in
      record { replies = (call d old).0 ∷ rest.replies; errs = (call d old).1 ∷ rest.errs }
