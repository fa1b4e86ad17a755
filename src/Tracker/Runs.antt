-- ===== src/Tracker/Runs.antt =====
-- map_pin_tracker.go: sequences of method calls and worker rounds, and the invariant.
use ipfs_cluster.Common.{
  ap, if_rule, ltb→lt, ◌∷◌, ℕ, ◌≤◌, String, ◌≡◌, refl, true, Option, none, some, List, [], ◌++◌,
  arith, length, length-append, ltb, Bool-cases, inl, inr,
}
use ipfs_cluster.Common.Dict.{Dict, keys}
use ipfs_cluster.Common.Result.{Error, Result, ok, err}
use ipfs_cluster.External.{Codecs}
use ipfs_cluster.Interfaces.{IpfsRpc}
use ipfs_cluster.Api.Status.{
  TrackerStatus, pin_error, unpin_error, pinned, pinning, unpinning, unpinned, remote,
  IpfsPinStatus,
}
use ipfs_cluster.Api.Types.{PinInfo, CidArg, cid_arg_cid}
use ipfs_cluster.Tracker.{
  MapPinTracker, pin_queue_size, put, is_remote, set_status, get, set_error, sync_status,
  new_map_pin_tracker,
}
use ipfs_cluster.Tracker
use ipfs_cluster.Tracker.Workers
use ipfs_cluster.Tracker.Workers.{
  settle, track_remote, track_local, fail_all, sync_answer, sync_each, sync_all_answer,
  recover_status, pin_next, pin_worker, unpin_next, unpin_worker,
}
use ipfs_cluster.Tracker.Invariant.{
  IsValid, IsSettable, set_status-IsValid, set_error-IsValid, sync_status-IsValid,
}

-- A call of a method, or a round of a worker; the goroutines interleave as a sequence of these.
pub data Call (Cid : Type 0) : Type 0 where
  track : CidArg Cid → Call Cid
  untrack sync recover : Cid → Call Cid
  sync_all pin_round unpin_round shutdown : Call Cid

module _ {Cid Addr W : Type 0} (x : Codecs Cid Addr) (r : IpfsRpc W) where
  open r use {ipfs_pin, ipfs_unpin, ipfs_pin_ls_cid, ipfs_pin_ls, now}

  abbrev pub step : Call Cid → MapPinTracker Cid × W → MapPinTracker Cid × W
  step (Call.track c) (mpt, w) = let (e, m, v) = Workers.track x r c mpt w in (m, v)
  step (Call.untrack c) (mpt, w) = let (e, m, v) = Workers.untrack x r c mpt w in (m, v)
  step (Call.sync c) (mpt, w) = let (e, m, v) = Workers.sync x r c mpt w in (m, v)
  step (Call.recover c) (mpt, w) = let (e, m, v) = Workers.recover x r c mpt w in (m, v)
  step Call.sync_all (mpt, w) = let (e, m, v) = Workers.sync_all x r mpt w in (m, v)
  step Call.pin_round (mpt, w) = pin_worker x r mpt w
  step Call.unpin_round (mpt, w) = unpin_worker x r mpt w
  step Call.shutdown (mpt, w) = (Tracker.shutdown mpt, w)

  unfoldable pub run : List (Call Cid) → MapPinTracker Cid × W → MapPinTracker Cid × W
  run [] s = s
  run (call ∷ calls) s = run calls (step call s)

  settle-IsValid :
      (c : Cid) (s : TrackerStatus) (e : Option Error) (w : W) (mpt : MapPinTracker Cid)
      → IsSettable s
      → IsValid x mpt
      → IsValid x (settle x r c s e w mpt)
  settle-IsValid c s none w mpt h v = set_status-IsValid x _ c s mpt h v
  settle-IsValid c s (some e) w mpt h v = set_error-IsValid x _ c e mpt v

  pin-IsValid :
      (c : CidArg Cid) (mpt : MapPinTracker Cid) (w : W)
      → IsValid x mpt
      → IsValid x (Workers.pin x r c mpt w).1
  unfolding Workers.pin
  pin-IsValid c mpt w v =
      settle-IsValid c.cid pinned _ _ _ tt (set_status-IsValid x _ c.cid pinning mpt tt v)

  unpin-IsValid :
      (c : CidArg Cid) (mpt : MapPinTracker Cid) (w : W)
      → IsValid x mpt
      → IsValid x (Workers.unpin x r c mpt w).1
  unfolding Workers.unpin
  unpin-IsValid c mpt w v = settle-IsValid c.cid unpinned _ _ _ tt v

  track_remote-IsValid :
      (c : CidArg Cid) (mpt : MapPinTracker Cid) (w : W)
      → IsValid x mpt
      → IsValid x (track_remote x r c mpt w).0
  unfolding track_remote
  track_remote-IsValid c mpt w v =
      set_status-IsValid x _ c.cid remote _ tt
        (if_rule {A = MapPinTracker Cid × W} (λ s. IsValid x s.0) _ _ _ (unpin-IsValid c mpt w v) v)

  enqueue-IsValid :
      (c : CidArg Cid) (q : List (CidArg Cid))
      → ltb (length q) pin_queue_size ≡ true
      → length (q ++ c ∷ []) ≤ pin_queue_size
  enqueue-IsValid c q h = omega (arith, length-append q (c ∷ []), ltb→lt _ _ h)

  track_local-IsValid :
      (t : ℕ) (c : CidArg Cid) (mpt : MapPinTracker Cid)
      → IsValid x mpt
      → IsValid x (track_local x r t c mpt).1
  unfolding track_local
  track_local-IsValid t c mpt v =
      let v1 = set_status-IsValid x t c.cid pinning mpt tt v in
      elim (Bool-cases (ltb (length mpt.pin_ch) pin_queue_size)) [
        | inl room ↦ rw room (record {
          distinct = v1.distinct;
          entries = v1.entries;
          pins_bounded = enqueue-IsValid c mpt.pin_ch room;
          unpins_bounded = v1.unpins_bounded;
        })
        | inr full ↦ rw full (set_error-IsValid x t c.cid _ _ v1)
      ]

  track-IsValid :
      (c : CidArg Cid) (mpt : MapPinTracker Cid) (w : W)
      → IsValid x mpt
      → IsValid x (Workers.track x r c mpt w).1
  unfolding Workers.track
  track-IsValid c mpt w v =
      if_rule {A = Option Error × MapPinTracker Cid × W} (λ s. IsValid x s.1) _ _ _
        (track_remote-IsValid c mpt w v) (track_local-IsValid (now w) c mpt v)

  untrack-IsValid :
      (c : Cid) (mpt : MapPinTracker Cid) (w : W)
      → IsValid x mpt
      → IsValid x (Workers.untrack x r c mpt w).1
  unfolding Workers.untrack
  untrack-IsValid c mpt w v =
      let v1 = set_status-IsValid x (now w) c unpinning mpt tt v in
      elim (Bool-cases (ltb (length mpt.unpin_ch) pin_queue_size)) [
        | inl room ↦ rw room (record {
          distinct = v1.distinct;
          entries = v1.entries;
          pins_bounded = v1.pins_bounded;
          unpins_bounded = enqueue-IsValid (cid_arg_cid c) mpt.unpin_ch room;
        })
        | inr full ↦ rw full (set_error-IsValid x (now w) c _ _ v1)
      ]

  sync_answer-IsValid :
      (c : Cid) (res : Result IpfsPinStatus) (mpt : MapPinTracker Cid) (w : W)
      → IsValid x mpt
      → IsValid x (sync_answer x r c res mpt w).1
  unfolding sync_answer
  sync_answer-IsValid c (ok ips) mpt w v = sync_status-IsValid x (now w) c ips mpt v
  sync_answer-IsValid c (err e) mpt w v = set_error-IsValid x (now w) c e mpt v

  fail_all-IsValid :
      (t : ℕ) (e : Error) (ks : List String) (mpt : MapPinTracker Cid)
      → IsValid x mpt
      → IsValid x (fail_all x r t e ks mpt).1
  unfolding fail_all
  fail_all-IsValid t e [] mpt v = v
  fail_all-IsValid t e (k ∷ ks) mpt v = fail_all-IsValid t e ks _ (set_error-IsValid x t _ e mpt v)

  sync_each-IsValid :
      (t : ℕ) (m : Dict IpfsPinStatus) (origs : List (PinInfo Cid)) (mpt : MapPinTracker Cid)
      → IsValid x mpt
      → IsValid x (sync_each x r t m origs mpt).1
  unfolding sync_each
  sync_each-IsValid t m [] mpt v = v
  sync_each-IsValid t m (orig ∷ origs) mpt v =
      sync_each-IsValid t m origs _ (sync_status-IsValid x t orig.cid _ mpt v)

  recover_status-IsValid :
      (s : TrackerStatus) (c : Cid) (mpt : MapPinTracker Cid) (w : W)
      → IsValid x mpt
      → IsValid x (recover_status x r s c mpt w).1
  unfolding recover_status
  recover_status-IsValid pin_error c mpt w v = pin-IsValid (cid_arg_cid c) mpt w v
  recover_status-IsValid unpin_error c mpt w v = unpin-IsValid (cid_arg_cid c) mpt w v
  recover_status-IsValid _ c mpt w v = v

  sync_all_answer-IsValid :
      (res : Result (Dict IpfsPinStatus)) (mpt : MapPinTracker Cid) (w : W)
      → IsValid x mpt
      → IsValid x (sync_all_answer x r res mpt w).1
  unfolding sync_all_answer
  sync_all_answer-IsValid (ok m) mpt w v =
      sync_each-IsValid (now w) m (Workers.status_all mpt) mpt v
  sync_all_answer-IsValid (err e) mpt w v = fail_all-IsValid (now w) e (keys mpt.status) mpt v

  pin_next-IsValid :
      (q : List (CidArg Cid)) (mpt : MapPinTracker Cid) (w : W)
      → mpt.pin_ch ≡ q
      → IsValid x mpt
      → IsValid x (pin_next x r q mpt w).0
  unfolding pin_next
  pin_next-IsValid [] mpt w e v = v
  pin_next-IsValid (p ∷ rest) mpt w e v = pin-IsValid p _ w (record {
    distinct = v.distinct;
    entries = v.entries;
    pins_bounded = omega (arith, ap length e);
    unpins_bounded = v.unpins_bounded;
  })

  unpin_next-IsValid :
      (q : List (CidArg Cid)) (mpt : MapPinTracker Cid) (w : W)
      → mpt.unpin_ch ≡ q
      → IsValid x mpt
      → IsValid x (unpin_next x r q mpt w).0
  unfolding unpin_next
  unpin_next-IsValid [] mpt w e v = v
  unpin_next-IsValid (p ∷ rest) mpt w e v = unpin-IsValid p _ w (record {
    distinct = v.distinct;
    entries = v.entries;
    pins_bounded = v.pins_bounded;
    unpins_bounded = omega (arith, ap length e);
  })

  shutdown-IsValid : (mpt : MapPinTracker Cid) → IsValid x mpt → IsValid x (Tracker.shutdown mpt)
  unfolding Tracker.shutdown
  shutdown-IsValid mpt v = if_rule (IsValid x) _ _ _ v (record {
    distinct = v.distinct;
    entries = v.entries;
    pins_bounded = v.pins_bounded;
    unpins_bounded = v.unpins_bounded;
  })

  step-IsValid :
      (call : Call Cid) (s : MapPinTracker Cid × W) → IsValid x s.0 → IsValid x (step call s).0
  unfolding Workers.sync Workers.sync_all Workers.recover pin_worker unpin_worker
  step-IsValid (Call.track c) (mpt, w) v = track-IsValid c mpt w v
  step-IsValid (Call.untrack c) (mpt, w) v = untrack-IsValid c mpt w v
  step-IsValid (Call.sync c) (mpt, w) v = sync_answer-IsValid c _ mpt _ v
  step-IsValid (Call.recover c) (mpt, w) v = recover_status-IsValid _ c mpt w v
  step-IsValid Call.sync_all (mpt, w) v = sync_all_answer-IsValid _ mpt _ v
  step-IsValid Call.pin_round (mpt, w) v = pin_next-IsValid mpt.pin_ch mpt w refl v
  step-IsValid Call.unpin_round (mpt, w) v = unpin_next-IsValid mpt.unpin_ch mpt w refl v
  step-IsValid Call.shutdown (mpt, w) v = shutdown-IsValid mpt v

  -- Whatever methods are called and in whatever order the workers run, a valid tracker stays
  -- valid: each CID has at most one entry, stored under its own text and with this peer's ID; no
  -- entry is in the state `bug`, `cluster_error` or `unpinned`; only entries in an error state hold
  -- a message; and neither queue grows past its size.
  pub run-IsValid :
      (calls : List (Call Cid)) (s : MapPinTracker Cid × W)
      → IsValid x s.0
      → IsValid x (run calls s).0
  unfolding run
  run-IsValid [] s v = v
  run-IsValid (call ∷ calls) s v = run-IsValid calls (step call s) (step-IsValid call s v)
