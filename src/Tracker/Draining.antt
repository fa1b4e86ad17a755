-- ===== src/Tracker/Draining.antt =====
-- map_pin_tracker.go: the pin worker and its queue.
use ipfs_cluster.Common.{
  ℕ, zero, suc, String, ◌≡◌, ◌≢◌, ◌⊎◌, inl, inr, refl, sym, ap, ◌∙◌, false, List, [], ◌∷◌, length,
  All, subst, arith, ◌==◌, eq_iff, Bool-cases, Option-cases,
}
use ipfs_cluster.Common.Dict.{lookup}
use ipfs_cluster.External.{Codecs}
use ipfs_cluster.Interfaces.{IpfsRpc}
use ipfs_cluster.Api.Status.{pinned, pinning, pin_error}
use ipfs_cluster.Api.Types.{CidArg, cid_arg_to_serial}
use ipfs_cluster.Tracker.{MapPinTracker, error_status, get, set_status, set_error}
use ipfs_cluster.Tracker.Workers
use ipfs_cluster.Tracker.Workers.{settle, pin_worker, pin_next}
use ipfs_cluster.Tracker.Runs.{Call, run}
use ipfs_cluster.Tracker.Entries.{
  status_of, or_same, lookup-set_status_ne, lookup-set_error_ne, status-set_status,
  status-set_error,
}

unfoldable pub pin_rounds : {Cid : Type 0} → ℕ → List (Call Cid)
pin_rounds zero = []
pin_rounds (suc n) = Call.pin_round ∷ pin_rounds n

module _ {Cid Addr W : Type 0} (x : Codecs Cid Addr) (r : IpfsRpc W) where
  open x use {cid_string}

  -- The daemon has been asked to pin the CID, and has answered.
  abbrev pub Settled : Cid → MapPinTracker Cid → Type 0
  Settled c mpt = (status_of x c mpt ≡ pinned) ⊎ (status_of x c mpt ≡ pin_error)

  status-lookup :
      (c d : Cid) (a b : MapPinTracker Cid)
      → lookup (cid_string c) a.status ≡ lookup (cid_string d) b.status
      → status_of x c a ≡ status_of x d b
  unfolding get
  status-lookup c d a b h = ground arith

  pin-Settled :
      (c : CidArg Cid) (mpt : MapPinTracker Cid) (w : W) → Settled c.cid (Workers.pin x r c mpt w).1
  unfolding Workers.pin
  pin-Settled c mpt w =
      let mpt1 = set_status x (r.now w) c.cid pinning mpt in
      let w' = (r.ipfs_pin (cid_arg_to_serial x c) w).1 in
      elim (Option-cases (r.ipfs_pin (cid_arg_to_serial x c) w).0) [
        | inl fine ↦ inl (rw fine (status-set_status x (r.now w') c.cid mpt1 pinned))
        | inr (e, failed) ↦ inr (
            rw failed (
              status-set_error x (r.now w') c.cid mpt1 e
              ∙ ap (λ s. or_same (error_status s) s)
                  (status-set_status x (r.now w) c.cid mpt pinning)))
      ]

  lookup-pin_ne :
      (c : CidArg Cid) (mpt : MapPinTracker Cid) (w : W) (k : String)
      → cid_string c.cid ≢ k
      → lookup k (Workers.pin x r c mpt w).1.status ≡ lookup k mpt.status
  unfolding Workers.pin
  lookup-pin_ne c mpt w k ne =
      let mpt1 = set_status x (r.now w) c.cid pinning mpt in
      let w' = (r.ipfs_pin (cid_arg_to_serial x c) w).1 in
      let first = lookup-set_status_ne x (r.now w) c.cid mpt pinning k ne in
      elim (Option-cases (r.ipfs_pin (cid_arg_to_serial x c) w).0) [
        | inl fine ↦ rw fine (lookup-set_status_ne x (r.now w') c.cid mpt1 pinned k ne ∙ first)
        | inr (e, failed) ↦ rw failed (lookup-set_error_ne x (r.now w') c.cid mpt1 e k ne ∙ first)
      ]

  pin-keeps_Settled :
      (c : CidArg Cid) (d : Cid) (mpt : MapPinTracker Cid) (w : W)
      → Settled d mpt
      → Settled d (Workers.pin x r c mpt w).1
  pin-keeps_Settled c d mpt w h = elim (Bool-cases (cid_string c.cid == cid_string d)) [
    | inl same ↦
        let key : cid_string c.cid ≡ cid_string d =
          (eq_iff (cid_string c.cid) (cid_string d)).0 same in
        let after = (Workers.pin x r c mpt w).1 in
        rw (← (status-lookup c.cid d after after (ap (λ k. lookup k after.status) key)))
          (pin-Settled c mpt w)
    | inr other ↦
        let ne : cid_string c.cid ≢ cid_string d =
          λ e. ground (arith, eq_iff (cid_string c.cid) (cid_string d)) in
        rw
          (status-lookup d d (Workers.pin x r c mpt w).1 mpt
            (lookup-pin_ne c mpt w (cid_string d) ne))
          h
  ]

  pub pin-queue :
      (c : CidArg Cid) (mpt : MapPinTracker Cid) (w : W)
      → ((Workers.pin x r c mpt w).1.pin_ch ≡ mpt.pin_ch)
        × ((Workers.pin x r c mpt w).1.cancelled ≡ mpt.cancelled)
  unfolding Workers.pin set_status set_error
  pin-queue c mpt w = ground arith

  pin_worker-Settled :
      (d : Cid) (mpt : MapPinTracker Cid) (w : W)
      → Settled d mpt
      → Settled d (pin_worker x r mpt w).0
  unfolding pin_worker pin_next
  pin_worker-Settled d mpt w h = pin_next-Settled mpt.pin_ch
    where
      pin_next-Settled : (q : List (CidArg Cid)) → Settled d (pin_next x r q mpt w).0
      pin_next-Settled [] = h
      pin_next-Settled (p ∷ rest) =
          pin-keeps_Settled p d (record mpt { pin_ch = rest }) w
            (rw (status-lookup d d (record mpt { pin_ch = rest }) mpt refl) h)

  rounds-Settled :
      (n : ℕ) (d : Cid) (mpt : MapPinTracker Cid) (w : W)
      → Settled d mpt
      → Settled d (run x r (pin_rounds n) (mpt, w)).0
  unfolding run pin_rounds
  rounds-Settled zero d mpt w h = h
  rounds-Settled (suc n) d mpt w h =
      rounds-Settled n d _ (pin_worker x r mpt w).1 (pin_worker-Settled d mpt w h)

  pub pin_worker-cons :
      (p : CidArg Cid) (rest : List (CidArg Cid)) (mpt : MapPinTracker Cid) (w : W)
      → mpt.pin_ch ≡ p ∷ rest
      → pin_worker x r mpt w
        ≡ (let (e, m, v) = Workers.pin x r p (record mpt { pin_ch = rest }) w in (m, v))
  unfolding pin_worker pin_next
  pin_worker-cons p rest mpt w h = rw h refl

  -- Unless the tracker is shut down, as many rounds of the pin worker as there are requests in the
  -- queue empty it, and every CID that was in it ends in `pinned` or in `pin_error`.
  pub run_drains :
      (q : List (CidArg Cid)) (mpt : MapPinTracker Cid) (w : W)
      → mpt.pin_ch ≡ q
      → mpt.cancelled ≡ false
      → ((run x r (pin_rounds (length q)) (mpt, w)).0.pin_ch ≡ [])
        × All (λ c. Settled c.cid (run x r (pin_rounds (length q)) (mpt, w)).0) q
  unfolding run pin_rounds
  run_drains [] mpt w h c = (h, tt)
  run_drains (p ∷ rest) mpt w h c =
      let (e, m, v) = Workers.pin x r p (record mpt { pin_ch = rest }) w in
      let (same, going) = pin-queue p (record mpt { pin_ch = rest }) w in
      let (empty, settled) = run_drains rest m v same (going ∙ c) in
      subst
        (λ s.
          ((run x r (pin_rounds (length rest)) s).0.pin_ch ≡ [])
          × All (λ c. Settled c.cid (run x r (pin_rounds (length rest)) s).0) (p ∷ rest))
        (sym (pin_worker-cons p rest mpt w h))
        (
          empty,
          (
            rounds-Settled (length rest) p.cid m v (pin-Settled p (record mpt { pin_ch = rest }) w),
            settled,
          ),
        )
