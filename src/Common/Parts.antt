-- ===== src/Common/Parts.antt =====
-- Lists that are put together of parts.
use mathlib.Core.Path.{◌≡◌, refl, ap}
use mathlib.Core.List.{List, [], ◌∷◌, ◌++◌, Memᴰ}
use ipfs_cluster.Common.Lists.{length, take, All}

pub All-append {ℓ κ} :
    {A : Type ℓ} (P : A → Type κ) (xs ys : List A) → All P xs → All P ys → All P (xs ++ ys)
All-append P [] ys h k = k
All-append P (a ∷ xs) ys h k = (h.0, All-append P xs ys h.1 k)

pub at_end {ℓ} : {A : Type ℓ} (a : A) (xs : List A) → Memᴰ a (xs ++ a ∷ [])
at_end a [] = Memᴰ.head refl
at_end a (b ∷ xs) = Memᴰ.tail (at_end a xs)

pub All-snoc-split {ℓ κ} :
    {A : Type ℓ} (P : A → Type κ) (xs : List A) (a : A) → All P (xs ++ a ∷ []) → All P xs × P a
All-snoc-split P [] a h = (tt, h.0)
All-snoc-split P (b ∷ xs) a h =
    let (first, last) = All-snoc-split P xs a h.1 in ((h.0, first), last)

pub All-middle {ℓ κ} :
    {A : Type ℓ} (P : A → Type κ) (xs : List A) (a : A) (ys : List A)
    → All P (xs ++ a ∷ ys)
    → P a × All P (xs ++ ys)
All-middle P [] a ys h = h
All-middle P (b ∷ xs) a ys h = let (mine, rest) = All-middle P xs a ys h.1 in (mine, (h.0, rest))

pub take-prefix {ℓ} : {A : Type ℓ} (a rest : List A) → take (length a) (a ++ rest) ≡ a
take-prefix [] rest = refl
take-prefix (op ∷ a) rest = ap (λ l. op ∷ l) (take-prefix a rest)

pub All-prefix {ℓ κ} : {A : Type ℓ} (P : A → Type κ) (a rest : List A) → All P (a ++ rest) → All P a
All-prefix P [] rest h = tt
All-prefix P (p ∷ a) rest h = (h.0, All-prefix P a rest h.1)

pub Memᴰ-prefix {ℓ} : {A : Type ℓ} (op : A) (a rest : List A) → Memᴰ op a → Memᴰ op (a ++ rest)
Memᴰ-prefix op [] rest h = elim h [ ]
Memᴰ-prefix op (p ∷ a) rest (Memᴰ.head e) = Memᴰ.head e
Memᴰ-prefix op (p ∷ a) rest (Memᴰ.tail h) = Memᴰ.tail (Memᴰ-prefix op a rest h)
