-- ===== src/Cluster/MultiRpc/AnyOrder.antt =====
-- cluster.go: what `multiRPC` returns, in whatever order its goroutines run.
use ipfs_cluster.Common.{
  get-below, get-set, get-ext, get-beyond, ℕ, ◌<◌, ◌≤◌, ◌≡◌, zero, suc, refl, sym, ap, ◌∙◌, Option,
  none, some, List, [], ◌∷◌, length, get_elem?, set, length-set, eqb, ltb, arith, if◌then◌else◌,
}
use ipfs_cluster.Common.Result.{Error}
use ipfs_cluster.External.{PeerId}
use ipfs_cluster.Cluster.MultiRpc.{Slots, run_call, run_calls, multi_rpc, in_turn, no_errors}

length-no_errors : (dests : List PeerId) → length (no_errors dests) ≡ length dests
unfolding no_errors
length-no_errors [] = refl
length-no_errors (d ∷ dests) = ap suc (length-no_errors dests)

slots-eq : {R : Type 0} {s t : Slots R} → s.replies ≡ t.replies → s.errs ≡ t.errs → s ≡ t
slots-eq e f i = record { replies = e i; errs = f i }

if-same {ℓ} :
    {A : Type ℓ} {a : A} (b : A) (i j : ℕ) (f : ℕ → A)
    → f i ≡ a
    → (if eqb i j then a else b) ≡ (if eqb i j then f j else b)
if-same b i j f h = ground (arith, h)

-- How often an index is in a list.
unfoldable pub count : ℕ → List ℕ → ℕ
count i [] = 0
count i (j ∷ js) = if eqb j i then suc (count i js) else count i js

-- Every index below the number runs once, and no other.
abbrev pub IsSchedule : ℕ → List ℕ → Type 0
IsSchedule n order = (i : ℕ) → count i order ≡ (if ltb i n then 1 else 0)

module _ {R : Type 0} (call : PeerId → R → R × Option Error) where
  -- What the goroutine of an index leaves, from what the slices of destinations and replies hold there.
  abbrev reply_of : Option PeerId → Option R → Option R
  reply_of (some d) (some old) = some (call d old).0
  reply_of _ _ = none

  abbrev err_of : Option PeerId → Option R → Option (Option Error)
  err_of (some d) (some old) = some (call d old).1
  err_of _ _ = none

  abbrev IsReply : List PeerId → List ℕ → Slots R → Slots R → ℕ → Type 0
  IsReply dests order s s' j =
      (get_elem? s'.replies j ≡ (
        if eqb (count j order) 0
        then get_elem? s.replies j
        else reply_of (get_elem? dests j) (get_elem? s.replies j)))
      × (get_elem? s'.errs j ≡ (
          if eqb (count j order) 0
          then get_elem? s.errs j
          else err_of (get_elem? dests j) (get_elem? s.replies j)))

  -- The indices that run are in range, and none runs twice.
  abbrev AtMostOnce : ℕ → List ℕ → Type 0
  AtMostOnce n order = (i : ℕ) → count i order ≤ (if ltb i n then 1 else 0)

  first-below :
      (n i : ℕ) (order : List ℕ)
      → AtMostOnce n (i ∷ order)
      → (i < n) × (count i order ≡ 0) × AtMostOnce n order
  unfolding count
  first-below n i order h = (ground (arith, h i), ground (arith, h i), λ j. ground (arith, h j))

  -- A goroutine in range writes its two entries and no other.
  run_call-lem :
      (dests : List PeerId) (i : ℕ) (s : Slots R) (d : PeerId) (old : R)
      → get_elem? dests i ≡ some d
      → get_elem? s.replies i ≡ some old
      → i < length dests
      → length s.replies ≡ length dests
      → length s.errs ≡ length dests
      → (s1 : Slots R) × (run_call call dests i s ≡ some s1)
        × (length s1.replies ≡ length dests)
        × (length s1.errs ≡ length dests)
        × ((j : ℕ)
            → (get_elem? s1.replies j ≡ (
                if eqb i j
                then reply_of (get_elem? dests j) (get_elem? s.replies j)
                else get_elem? s.replies j))
              × (get_elem? s1.errs j ≡ (
                  if eqb i j
                  then err_of (get_elem? dests j) (get_elem? s.replies j)
                  else get_elem? s.errs j)))
  unfolding run_call
  run_call-lem dests i s d old hd ho inside hr he =
      let s1 : Slots R = record {
        replies = set s.replies i (call d old).0;
        errs = set s.errs i (call d old).1;
      } in
      (
        s1,
        rw (run_call, hd, ho) refl,
        length-set s.replies i (call d old).0 ∙ hr,
        length-set s.errs i (call d old).1 ∙ he,
        λ j. (
          get-set s.replies i j (call d old).0 (omega (arith, inside, hr))
              ∙ if-same (get_elem? s.replies j) i j
                  (λ k. reply_of (get_elem? dests k) (get_elem? s.replies k)) (rw (hd, ho) refl),
          get-set s.errs i j (call d old).1 (omega (arith, inside, he))
              ∙ if-same (get_elem? s.errs j) i j
                  (λ k. err_of (get_elem? dests k) (get_elem? s.replies k)) (rw (hd, ho) refl),
        ),
      )

  run_calls-lem :
      (dests : List PeerId) (order : List ℕ) (s : Slots R)
      → length s.replies ≡ length dests
      → length s.errs ≡ length dests
      → AtMostOnce (length dests) order
      → (s' : Slots R) × (run_calls call dests order s ≡ some s')
        × ((j : ℕ) → IsReply dests order s s' j)
  unfolding run_calls count
  run_calls-lem dests [] s hr he once = (s, refl, λ j. (ground arith, ground arith))
  run_calls-lem dests (i ∷ order) s hr he once =
      let (inside, last, once') = first-below (length dests) i order once in
      let (d, hd) = get-below dests i inside in
      let (old, ho) = get-below s.replies i (omega (arith, inside, hr)) in
      let (s1, ran, hr1, he1, wrote) = run_call-lem dests i s d old hd ho inside hr he in
      let (s', run, is) = run_calls-lem dests order s1 hr1 he1 once' in
      (
        s',
        rw (run_calls, ran) run,
        λ j. (ground (arith, last, wrote j, is j), ground (arith, last, wrote j, is j)),
      )

  reply_of-none : (o : Option PeerId) → none ≡ reply_of o none
  reply_of-none none = refl
  reply_of-none (some d) = refl

  err_of-none : (o : Option PeerId) → none ≡ err_of o none
  err_of-none none = refl
  err_of-none (some d) = refl

  get-in_turn :
      (dests : List PeerId) (reply : List R) (j : ℕ)
      → (get_elem? (in_turn call dests reply).replies j
          ≡ reply_of (get_elem? dests j) (get_elem? reply j))
        × (get_elem? (in_turn call dests reply).errs j
            ≡ err_of (get_elem? dests j) (get_elem? reply j))
  unfolding in_turn
  get-in_turn [] reply j = (refl, refl)
  get-in_turn (d ∷ dests) [] zero = (refl, refl)
  get-in_turn (d ∷ dests) [] (suc j) =
      (reply_of-none (get_elem? dests j), err_of-none (get_elem? dests j))
  get-in_turn (d ∷ dests) (old ∷ reply) zero = (refl, refl)
  get-in_turn (d ∷ dests) (old ∷ reply) (suc j) = get-in_turn dests reply j

  -- The slices that the goroutines leave are those of the calls one after the other.
  run_calls-in_turn :
      (dests : List PeerId) (reply : List R) (order : List ℕ)
      → length dests ≡ length reply
      → IsSchedule (length dests) order
      → run_calls call dests order (record { replies = reply; errs = no_errors dests })
        ≡ some (in_turn call dests reply)
  run_calls-in_turn dests reply order same all =
      let (s', run, is) =
        run_calls-lem dests order (record { replies = reply; errs = no_errors dests }) (sym same)
          (length-no_errors dests) (λ i. ground (arith, all i)) in
      let replies : s'.replies ≡ (in_turn call dests reply).replies = get-ext _ _ (λ j.
        ground (
          arith,
          all j,
          is j,
          get-in_turn dests reply j,
          get-beyond dests j,
          get-beyond reply j,
        )) in
      let errs : s'.errs ≡ (in_turn call dests reply).errs = get-ext _ _ (λ j. ground (
        arith,
        all j,
        is j,
        get-in_turn dests reply j,
        get-beyond dests j,
        get-beyond reply j,
        get-beyond (no_errors dests) j,
        length-no_errors dests,
      )) in
      run ∙ ap some (slots-eq replies errs)

  -- If each index runs once, in whatever order, `multiRPC` returns what the calls one after the other
  -- leave: at each index the reply and the error of the call to that destination. If the slices of
  -- destinations and replies differ in length, it panics.
  pub multi_rpc-in_turn :
      (dests : List PeerId) (reply : List R) (order : List ℕ)
      → IsSchedule (length dests) order
      → multi_rpc call dests reply order
        ≡ (if eqb (length dests) (length reply) then some (in_turn call dests reply) else none)
  unfolding multi_rpc
  multi_rpc-in_turn dests reply order all = ground (arith, run_calls-in_turn dests reply order, all)
