-- ===== src/Tests/Sorting.antt =====
-- A concrete sorting, which does what package sort documents.
use mathlib.Core.List.Memᴰ
use ipfs_cluster.Common.{
  String, ◌≡◌, refl, sym, Bool, true, false, List, [], ◌∷◌, Memᴰ, All, All-mono, arith,
  if◌then◌else◌, Bool-cases, inl, inr, ◌⊎◌,
}
use ipfs_cluster.Common.Int.{ℤ, pos, negsuc, ltb_ℤ}
use ipfs_cluster.Cluster.Candidates.{NoRepeat}
use ipfs_cluster.Allocator.Order.{IsSorted, IsSort}

module _ (less : String → String → Bool) where
  unfoldable pub place : String → List String → List String
  place a [] = a ∷ []
  place a (y ∷ ys) = let rest = place a ys in if less y a then y ∷ rest else a ∷ y ∷ ys

  unfoldable pub insertion_sort : List String → List String
  unfolding place
  insertion_sort [] = []
  insertion_sort (y ∷ ys) = place y (insertion_sort ys)

  place-mem :
      (a : String) (ys : List String) (p : String) → Memᴰ p (place a ys) → (p ≡ a) ⊎ Memᴰ p ys
  unfolding place
  place-mem a [] p i = inl (Memᴰ.eq_of_singleton i)
  place-mem a (y ∷ ys) p i = elim (Bool-cases (less y a)) [
    | inl after ↦ elim (Memᴰ.cases_cons (rw after at i)) [
      | inl e ↦ inr (Memᴰ.head e)
      | inr j ↦ elim (place-mem a ys p j) [ inl e ↦ inl e | inr k ↦ inr (Memᴰ.tail k) ]
    ]
    | inr before ↦ Memᴰ.cases_cons (rw before at i)
  ]

  sort-mem : (l : List String) (p : String) → Memᴰ p (insertion_sort l) → Memᴰ p l
  unfolding insertion_sort
  sort-mem [] p i = i
  sort-mem (y ∷ ys) p i = elim (place-mem y (insertion_sort ys) p i) [
    | inl e ↦ Memᴰ.head e
    | inr j ↦ Memᴰ.tail (sort-mem ys p j)
  ]

  place-all :
      (a : String) (ys : List String) (p : String) → (p ≡ a) ⊎ Memᴰ p ys → Memᴰ p (place a ys)
  unfolding place
  place-all a [] p (inl e) = Memᴰ.head e
  place-all a [] p (inr i) = absurd (Memᴰ.not-nil i)
  place-all a (y ∷ ys) p h = elim (Bool-cases (less y a)) [
    | inl after ↦ rw after (elim h [
      | inl e ↦ Memᴰ.tail (place-all a ys p (inl e))
      | inr i ↦ elim (Memᴰ.cases_cons i) [
        | inl e ↦ Memᴰ.head e
        | inr j ↦ Memᴰ.tail (place-all a ys p (inr j))
      ]
    ])
    | inr before ↦ rw before (elim h [ inl e ↦ Memᴰ.head e | inr i ↦ Memᴰ.tail i ])
  ]

  sort-all : (l : List String) (p : String) → Memᴰ p l → Memᴰ p (insertion_sort l)
  unfolding insertion_sort
  sort-all [] p i = i
  sort-all (y ∷ ys) p i =
      place-all y (insertion_sort ys) p
        (elim (Memᴰ.cases_cons i) [ inl e ↦ inl e | inr j ↦ inr (sort-all ys p j) ])

  place-NoRepeat :
      (a : String) (ys : List String) → ¬ Memᴰ a ys → NoRepeat ys → NoRepeat (place a ys)
  unfolding place
  place-NoRepeat a [] n h = (n, tt)
  place-NoRepeat a (y ∷ ys) n h = elim (Bool-cases (less y a)) [
    | inl after ↦ rw after (
      λ i. elim (place-mem a ys y i) [ inl e ↦ n (Memᴰ.head (sym e)) | inr j ↦ h.0 j ],
      place-NoRepeat a ys (λ i. n (Memᴰ.tail i)) h.1,
    )
    | inr before ↦ rw before (n, h)
  ]

  sort-NoRepeat : (l : List String) → NoRepeat l → NoRepeat (insertion_sort l)
  unfolding insertion_sort
  sort-NoRepeat [] h = tt
  sort-NoRepeat (y ∷ ys) h =
      place-NoRepeat y (insertion_sort ys) (λ i. h.0 (sort-mem ys y i)) (sort-NoRepeat ys h.1)

  place-All :
      (P : String → Type 0) (a : String) (ys : List String) → P a → All P ys → All P (place a ys)
  unfolding place
  place-All P a [] p h = (p, tt)
  place-All P a (y ∷ ys) p h = elim (Bool-cases (less y a)) [
    | inl after ↦ rw after (h.0, place-All P a ys p h.1)
    | inr before ↦ rw before (p, h)
  ]

lt_asym : (a b : ℤ) → ltb_ℤ a b ≡ true → ltb_ℤ b a ≡ false
lt_asym (pos a) (pos b) h = ground arith
lt_asym (pos a) (negsuc b) h = absurd (cc)
lt_asym (negsuc a) (pos b) h = refl
lt_asym (negsuc a) (negsuc b) h = ground arith

le_trans : (a b c : ℤ) → ltb_ℤ b a ≡ false → ltb_ℤ c b ≡ false → ltb_ℤ c a ≡ false
le_trans (pos a) (pos b) (pos c) h k = ground arith
le_trans (pos a) (negsuc b) (pos c) h k = absurd (cc)
le_trans (negsuc a) (pos b) (pos c) h k = refl
le_trans (negsuc a) (negsuc b) (pos c) h k = refl
le_trans (pos a) (pos b) (negsuc c) h k = absurd (cc)
le_trans (pos a) (negsuc b) (negsuc c) h k = absurd (cc)
le_trans (negsuc a) (pos b) (negsuc c) h k = absurd (cc)
le_trans (negsuc a) (negsuc b) (negsuc c) h k = ground arith

place-IsSorted :
    (key : String → ℤ) (a : String) (ys : List String)
    → IsSorted key ys
    → IsSorted key (place (λ p q. ltb_ℤ (key p) (key q)) a ys)
unfolding place
place-IsSorted key a [] h = (tt, tt)
place-IsSorted key a (y ∷ ys) h = elim (Bool-cases (ltb_ℤ (key y) (key a))) [
  | inl after ↦ rw after (
    place-All (λ p q. ltb_ℤ (key p) (key q)) (λ q. ltb_ℤ (key q) (key y) ≡ false) a ys
        (lt_asym (key y) (key a) after) h.0,
    place-IsSorted key a ys h.1,
  )
  | inr before ↦
      rw before ((before, All-mono (λ q e. le_trans (key a) (key y) (key q) before e) ys h.0), h)
]

sort-IsSorted :
    (key : String → ℤ) (l : List String)
    → IsSorted key (insertion_sort (λ p q. ltb_ℤ (key p) (key q)) l)
unfolding insertion_sort
sort-IsSorted key [] = tt
sort-IsSorted key (y ∷ ys) = place-IsSorted key y _ (sort-IsSorted key ys)

pub insertion_sort-IsSort : IsSort insertion_sort
insertion_sort-IsSort = record {
  same_members = sort-mem;
  all_members = sort-all;
  keeps_single = sort-NoRepeat;
  sorts = sort-IsSorted;
}
