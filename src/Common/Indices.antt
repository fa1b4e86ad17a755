-- ===== src/Common/Indices.antt =====
-- What a list holds at an index.
use Prim.Native.Nat.{ℕ, zero, suc, ◌≤◌, ◌<◌}
use mathlib.Core.Path.{◌≡◌, refl, ◌∙◌}
use mathlib.Core.List.{List, [], ◌∷◌}
use mathlib.Core.Option.{none, some}
use native.Mathlib.Omega.{arith}
use ipfs_cluster.Common.Lists.{length, get_elem?, set}
use ipfs_cluster.Common.Tests.{eqb, if◌then◌else◌}

pub get-below {ℓ} :
    {A : Type ℓ} (xs : List A) (i : ℕ) → i < length xs → (a : A) × (get_elem? xs i ≡ some a)
get-below [] i h = absurd (omega (arith, h))
get-below (x ∷ xs) zero h = (x, refl)
get-below (x ∷ xs) (suc i) h = get-below xs i (omega (arith, h))

pub get-set {ℓ} :
    {A : Type ℓ} (xs : List A) (i j : ℕ) (v : A)
    → i < length xs
    → get_elem? (set xs i v) j ≡ (if eqb i j then some v else get_elem? xs j)
get-set [] i j v h = absurd (omega (arith, h))
get-set (x ∷ xs) zero zero v h = ground arith
get-set (x ∷ xs) zero (suc j) v h = ground arith
get-set (x ∷ xs) (suc i) zero v h = ground arith
get-set (x ∷ xs) (suc i) (suc j) v h = get-set xs i j v (omega (arith, h)) ∙ ground arith

-- Lists that hold the same at every index are the same.
pub get-ext {ℓ} :
    {A : Type ℓ} (xs ys : List A) → ((i : ℕ) → get_elem? xs i ≡ get_elem? ys i) → xs ≡ ys
get-ext [] [] h = refl
get-ext [] (y ∷ ys) h = absurd (cc (h 0))
get-ext (x ∷ xs) [] h = absurd (cc (h 0))
get-ext (x ∷ xs) (y ∷ ys) h =
    let tails : xs ≡ ys = get-ext xs ys (λ i. h (suc i)) in
    let heads : x ≡ y = cc (h 0) in cc (heads, tails)

pub get-beyond {ℓ} : {A : Type ℓ} (xs : List A) (i : ℕ) → length xs ≤ i → get_elem? xs i ≡ none
get-beyond [] i h = refl
get-beyond (x ∷ xs) zero h = absurd (omega (arith, h))
get-beyond (x ∷ xs) (suc i) h = get-beyond xs i (omega (arith, h))
