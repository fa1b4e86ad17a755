-- ===== src/Common/Dict.antt =====
-- Go maps with string keys, as association lists. `range` goes through the list in its order.
use Prim.Native.String.{String}
use mathlib.Core.Path.{◌≡◌, refl}
use mathlib.Core.Logic.{◌≢◌}
use mathlib.Core.Bool.{Bool, true, false}
use mathlib.Core.List.{List, [], ◌∷◌, map}
use mathlib.Core.Option.{Option, none, some}
use native.Mathlib.Omega.{arith}
use text.Mathlib.Text.{◌==◌}
use text.Mathlib.TextEquality.{eq_iff}
use text.Mathlib.TextPositions.{eq_refl}
use ipfs_cluster.Common.Tests.{if◌then◌else◌}
use ipfs_cluster.Common.Lists.{All}

abbrev pub Dict {ℓ} : Type ℓ → Type ℓ
Dict V = List (String × V)

module _ {ℓ} {V : Type ℓ} where
  -- `v, ok := m[k]`
  unfoldable pub lookup : String → Dict V → Option V
  lookup k [] = none
  lookup k ((j, v) ∷ d) = if j == k then some v else lookup k d

  -- `m[k] = v`
  unfoldable pub insert : String → V → Dict V → Dict V
  insert k v [] = (k, v) ∷ []
  insert k v ((j, w) ∷ d) = if j == k then (k, v) ∷ d else (j, w) ∷ insert k v d

  -- `delete(m, k)`
  unfoldable pub delete : String → Dict V → Dict V
  delete k [] = []
  delete k ((j, v) ∷ d) = let rest = delete k d in if j == k then rest else (j, v) ∷ rest

  abbrev pub keys : Dict V → List String
  keys = map (λ e. e.0)

  abbrev pub values : Dict V → List V
  values = map (λ e. e.1)

  -- `_, ok := m[k]`
  abbrev pub has : String → Dict V → Bool
  has k d = elim (lookup k d) [ none ↦ false | some _ ↦ true ]

  -- No key stands twice, as in a Go map.
  abbrev pub Distinct : Dict V → Type ℓ
  Distinct [] = Unit
  Distinct ((k, v) ∷ d) = (lookup k d ≡ none) × Distinct d

  pub lookup-insert :
      (k j : String) (v : V) (d : Dict V)
      → lookup j (insert k v d) ≡ (if k == j then some v else lookup j d)
  unfolding lookup insert
  lookup-insert k j v [] = refl
  lookup-insert k j v ((i, w) ∷ d) =
      ground (arith, eq_iff k j, eq_iff i k, eq_iff i j, lookup-insert k j v d)

  pub lookup-delete :
      (k j : String) (d : Dict V) → lookup j (delete k d) ≡ (if k == j then none else lookup j d)
  unfolding lookup delete
  lookup-delete k j [] = ground arith
  lookup-delete k j ((i, w) ∷ d) =
      ground (arith, eq_iff k j, eq_iff i k, eq_iff i j, lookup-delete k j d)

  pub lookup-insert_self : (k : String) (v : V) (d : Dict V) → lookup k (insert k v d) ≡ some v
  lookup-insert_self k v d = simp (lookup-insert, eq_refl)

  pub lookup-insert_ne :
      (k j : String) (v : V) (d : Dict V) → k ≢ j → lookup j (insert k v d) ≡ lookup j d
  lookup-insert_ne k j v d h = ground (arith, eq_iff k j, lookup-insert k j v d)

  pub lookup-delete_self : (k : String) (d : Dict V) → lookup k (delete k d) ≡ none
  lookup-delete_self k d = simp (lookup-delete, eq_refl)

  pub lookup-delete_ne : (k j : String) (d : Dict V) → k ≢ j → lookup j (delete k d) ≡ lookup j d
  lookup-delete_ne k j d h = ground (arith, eq_iff k j, lookup-delete k j d)

  pub insert-Distinct : (k : String) (v : V) (d : Dict V) → Distinct d → Distinct (insert k v d)
  unfolding insert
  insert-Distinct k v [] h = (unfold lookup in refl, tt)
  insert-Distinct k v ((i, w) ∷ d) h =
      ground (arith, eq_iff i k, eq_iff k i, lookup-insert k i v d, insert-Distinct k v d h.1)

  pub delete-Distinct : (k : String) (d : Dict V) → Distinct d → Distinct (delete k d)
  unfolding delete
  delete-Distinct k [] h = tt
  delete-Distinct k ((i, w) ∷ d) h =
      ground (arith, eq_iff i k, eq_iff k i, lookup-delete k i d, delete-Distinct k d h.1)

module _ {ℓ} {V : Type ℓ} (P : String × V → Type ℓ) where
  pub All-insert : (k : String) (v : V) (d : Dict V) → P (k, v) → All P d → All P (insert k v d)
  unfolding insert
  All-insert k v [] p h = (p, tt)
  All-insert k v ((i, w) ∷ d) p h = ground (arith, All-insert k v d p h.1)

  pub All-delete : (k : String) (d : Dict V) → All P d → All P (delete k d)
  unfolding delete
  All-delete k [] h = tt
  All-delete k ((i, w) ∷ d) h = ground (arith, All-delete k d h.1)

  pub All-lookup : (k : String) (v : V) (d : Dict V) → All P d → lookup k d ≡ some v → P (k, v)
  unfolding lookup
  All-lookup k v [] h e = absurd (cc)
  All-lookup k v ((i, w) ∷ d) h e = ground (arith, eq_iff i k, All-lookup k v d h.1)
