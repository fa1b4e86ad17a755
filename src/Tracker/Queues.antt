-- ===== src/Tracker/Queues.antt =====
-- map_pin_tracker.go: which calls put requests in the queues, and which take them out.
use ipfs_cluster.Common.{
  ℕ, String, ◌≡◌, refl, ap, sym, ◌∙◌, Bool, false, Option, none, some, List, [], ◌∷◌, ◌++◌, arith,
  Bool-cases, inl, inr, All, if_rule, ltb, length, subst,
}
use ipfs_cluster.Common.Dict.{Dict, keys}
use ipfs_cluster.Common.Result.{Error, Result, ok, err}
use ipfs_cluster.External.{Codecs, PeerId}
use ipfs_cluster.Interfaces.{IpfsRpc}
use ipfs_cluster.Api.Status.{
  TrackerStatus, pin_error, unpin_error, pinned, pinning, unpinning, unpinned, remote,
  IpfsPinStatus, is_pinned,
}
use ipfs_cluster.Api.Types.{PinInfo, CidArg, cid_arg_cid}
use ipfs_cluster.Tracker.{
  MapPinTracker, is_remote, pin_queue_size, set_status, get, set_error, sync_entry, sync_status,
}
use ipfs_cluster.Tracker
use ipfs_cluster.Tracker.Workers
use ipfs_cluster.Tracker.Workers.{
  settle, track_remote, track_local, sync_answer, sync_all_answer, sync_each, fail_all,
  recover_status, pin_next, pin_worker, unpin_next, unpin_worker,
}
use ipfs_cluster.Tracker.Runs.{Call, step}

-- the queues of the tracker, and its peer
abbrev pub Queues : Type 0 → Type 0
Queues Cid = List (CidArg Cid) × List (CidArg Cid) × PeerId

abbrev pub queues : {Cid : Type 0} → MapPinTracker Cid → Queues Cid
queues mpt = (mpt.pin_ch, mpt.unpin_ch, mpt.peer_id)

All-snoc : {A : Type 0} (P : A → Type 0) (q : List A) (c : A) → All P q → P c → All P (q ++ c ∷ [])
All-snoc P [] c h p = (p, tt)
All-snoc P (d ∷ q) c h p = (h.0, All-snoc P q c h.1 p)

module _ {Cid : Type 0} (self : PeerId) (P U : CidArg Cid → Type 0) where
  -- Every request to pin satisfies `P`, and every request to unpin `U`; the peer is `self`.
  abbrev pub AllQueued : Queues Cid → Type 0
  AllQueued (p, u, i) = All P p × All U u × (i ≡ self)

  -- The request that the call may put in a queue of the tracker satisfies `P` or `U`.
  abbrev pub Puts : MapPinTracker Cid → Call Cid → Type 0
  Puts mpt (Call.track c) = is_remote mpt c ≡ false → P c
  Puts mpt (Call.untrack c) = U (cid_arg_cid c)
  Puts mpt _ = Unit

  moved : (q q' : Queues Cid) → q' ≡ q → AllQueued q → AllQueued q'
  moved q q' e h = subst AllQueued (sym e) h

module _ {Cid Addr W : Type 0} (x : Codecs Cid Addr) (r : IpfsRpc W) where
  open r use {now}

  set_status-queues :
      (t : ℕ) (c : Cid) (s : TrackerStatus) (mpt : MapPinTracker Cid)
      → queues (set_status x t c s mpt) ≡ queues mpt
  unfolding set_status
  set_status-queues t c s mpt = ground arith

  set_error-queues :
      (t : ℕ) (c : Cid) (e : Error) (mpt : MapPinTracker Cid)
      → queues (set_error x t c e mpt) ≡ queues mpt
  unfolding set_error
  set_error-queues t c e mpt = ground arith

  settle-queues :
      (c : Cid) (s : TrackerStatus) (e : Option Error) (w : W) (mpt : MapPinTracker Cid)
      → queues (settle x r c s e w mpt) ≡ queues mpt
  settle-queues c s none w mpt = set_status-queues _ c s mpt
  settle-queues c s (some e) w mpt = set_error-queues _ c e mpt

  pin-queues :
      (c : CidArg Cid) (mpt : MapPinTracker Cid) (w : W)
      → queues (Workers.pin x r c mpt w).1 ≡ queues mpt
  unfolding Workers.pin
  pin-queues c mpt w = settle-queues c.cid pinned _ _ _ ∙ set_status-queues _ c.cid pinning mpt

  unpin-queues :
      (c : CidArg Cid) (mpt : MapPinTracker Cid) (w : W)
      → queues (Workers.unpin x r c mpt w).1 ≡ queues mpt
  unfolding Workers.unpin
  unpin-queues c mpt w = settle-queues c.cid unpinned _ _ mpt

  track_remote-queues :
      (c : CidArg Cid) (mpt : MapPinTracker Cid) (w : W)
      → queues (track_remote x r c mpt w).0 ≡ queues mpt
  unfolding track_remote
  track_remote-queues c mpt w =
      set_status-queues _ c.cid remote _
      ∙ if_rule {A = MapPinTracker Cid × W} (λ t. queues t.0 ≡ queues mpt) _ _ _
          (unpin-queues c mpt w) refl

  sync_entry-queues :
      (t : ℕ) (c : Cid) (b : Bool) (s : TrackerStatus) (ts : ℕ) (mpt : MapPinTracker Cid)
      → queues (sync_entry x t c b s ts mpt) ≡ queues mpt
  unfolding sync_entry
  sync_entry-queues t c b s ts mpt =
      let same : (q : TrackerStatus) → queues (set_status x t c q mpt) ≡ queues mpt =
        λ q. set_status-queues t c q mpt in
      let same' : (e : Error) → queues (set_error x t c e mpt) ≡ queues mpt =
        λ e. set_error-queues t c e mpt in
      ground (arith, same, same')

  sync_each-queues :
      (t : ℕ) (m : Dict IpfsPinStatus) (origs : List (PinInfo Cid)) (mpt : MapPinTracker Cid)
      → queues (sync_each x r t m origs mpt).1 ≡ queues mpt
  unfolding sync_each sync_status
  sync_each-queues t m [] mpt = refl
  sync_each-queues t m (orig ∷ origs) mpt =
      sync_each-queues t m origs _ ∙ sync_entry-queues t orig.cid _ _ _ mpt

  fail_all-queues :
      (t : ℕ) (e : Error) (ks : List String) (mpt : MapPinTracker Cid)
      → queues (fail_all x r t e ks mpt).1 ≡ queues mpt
  unfolding fail_all
  fail_all-queues t e [] mpt = refl
  fail_all-queues t e (k ∷ ks) mpt = fail_all-queues t e ks _ ∙ set_error-queues t _ e mpt

  recover_status-queues :
      (s : TrackerStatus) (c : Cid) (mpt : MapPinTracker Cid) (w : W)
      → queues (recover_status x r s c mpt w).1 ≡ queues mpt
  unfolding recover_status
  recover_status-queues pin_error c mpt w = pin-queues (cid_arg_cid c) mpt w
  recover_status-queues unpin_error c mpt w = unpin-queues (cid_arg_cid c) mpt w
  recover_status-queues _ c mpt w = refl

  sync_answer-queues :
      (c : Cid) (res : Result IpfsPinStatus) (mpt : MapPinTracker Cid) (w : W)
      → queues (sync_answer x r c res mpt w).1 ≡ queues mpt
  unfolding sync_answer sync_status
  sync_answer-queues c (ok ips) mpt w =
      sync_entry-queues (now w) c (is_pinned ips) (get x (now w) c mpt).status
        (get x (now w) c mpt).ts mpt
  sync_answer-queues c (err e) mpt w = set_error-queues _ c e mpt

  sync_all_answer-queues :
      (res : Result (Dict IpfsPinStatus)) (mpt : MapPinTracker Cid) (w : W)
      → queues (sync_all_answer x r res mpt w).1 ≡ queues mpt
  unfolding sync_all_answer
  sync_all_answer-queues (ok m) mpt w = sync_each-queues _ m (Workers.status_all mpt) mpt
  sync_all_answer-queues (err e) mpt w = fail_all-queues _ e (keys mpt.status) mpt

  module _ (self : PeerId) (P U : CidArg Cid → Type 0) where
    track_local-AllQueued :
        (t : ℕ) (c : CidArg Cid) (mpt : MapPinTracker Cid)
        → P c
        → AllQueued self P U (queues mpt)
        → AllQueued self P U (queues (track_local x r t c mpt).1)
    unfolding track_local
    track_local-AllQueued t c mpt p h =
        let mpt1 = set_status x t c.cid pinning mpt in
        let same = set_status-queues t c.cid pinning mpt in
        elim (Bool-cases (ltb (length mpt.pin_ch) pin_queue_size)) [
          | inl room ↦
              rw (room, ap (λ q. q.1) same, ap (λ q. q.2) same)
                (All-snoc P mpt.pin_ch c h.0 p, h.1, h.2)
          | inr full ↦
              rw full
                (moved self P U _ _ (set_error-queues t c.cid "pin queue is full" mpt1 ∙ same) h)
        ]

    untrack-AllQueued :
        (c : Cid) (mpt : MapPinTracker Cid) (w : W)
        → U (cid_arg_cid c)
        → AllQueued self P U (queues mpt)
        → AllQueued self P U (queues (Workers.untrack x r c mpt w).1)
    unfolding Workers.untrack
    untrack-AllQueued c mpt w p h =
        let mpt1 = set_status x (now w) c unpinning mpt in
        let same = set_status-queues (now w) c unpinning mpt in
        elim (Bool-cases (ltb (length mpt.unpin_ch) pin_queue_size)) [
          | inl room ↦
              rw (room, ap (λ q. q.0) same, ap (λ q. q.2) same)
                (h.0, All-snoc U mpt.unpin_ch (cid_arg_cid c) h.1 p, h.2)
          | inr full ↦
              rw full (
                moved self P U _ _ (set_error-queues (now w) c "unpin queue is full" mpt1 ∙ same) h)
        ]

    track-AllQueued :
        (c : CidArg Cid) (mpt : MapPinTracker Cid) (w : W)
        → (is_remote mpt c ≡ false → P c)
        → AllQueued self P U (queues mpt)
        → AllQueued self P U (queues (Workers.track x r c mpt w).1)
    unfolding Workers.track
    track-AllQueued c mpt w p h = elim (Bool-cases (is_remote mpt c)) [
      | inl theirs ↦ rw theirs (moved self P U _ _ (track_remote-queues c mpt w) h)
      | inr own ↦ rw own (track_local-AllQueued (now w) c mpt (p own) h)
    ]

    pin_next-AllQueued :
        (q : List (CidArg Cid)) (mpt : MapPinTracker Cid) (w : W)
        → mpt.pin_ch ≡ q
        → AllQueued self P U (queues mpt)
        → AllQueued self P U (queues (pin_next x r q mpt w).0)
    unfolding pin_next
    pin_next-AllQueued [] mpt w e h = h
    pin_next-AllQueued (p ∷ rest) mpt w e h =
        moved self P U _ _ (pin-queues p (record mpt { pin_ch = rest }) w)
          ((subst (All P) e h.0).1, h.1, h.2)

    unpin_next-AllQueued :
        (q : List (CidArg Cid)) (mpt : MapPinTracker Cid) (w : W)
        → mpt.unpin_ch ≡ q
        → AllQueued self P U (queues mpt)
        → AllQueued self P U (queues (unpin_next x r q mpt w).0)
    unfolding unpin_next
    unpin_next-AllQueued [] mpt w e h = h
    unpin_next-AllQueued (p ∷ rest) mpt w e h =
        moved self P U _ _ (unpin-queues p (record mpt { unpin_ch = rest }) w)
          (h.0, (subst (All U) e h.1).1, h.2)

    -- What holds of every request that `Track` and `Untrack` enqueue holds of all in the queues.
    pub step-AllQueued :
        (call : Call Cid) (s : MapPinTracker Cid × W)
        → Puts self P U s.0 call
        → AllQueued self P U (queues s.0)
        → AllQueued self P U (queues (step x r call s).0)
    unfolding Workers.sync Workers.sync_all Workers.recover pin_worker unpin_worker Tracker.shutdown
    step-AllQueued (Call.track c) (mpt, w) p h = track-AllQueued c mpt w p h
    step-AllQueued (Call.untrack c) (mpt, w) p h = untrack-AllQueued c mpt w p h
    step-AllQueued (Call.sync c) (mpt, w) p h = moved self P U _ _ (sync_answer-queues c _ mpt _) h
    step-AllQueued (Call.recover c) (mpt, w) p h =
        moved self P U _ _ (recover_status-queues _ c mpt w) h
    step-AllQueued Call.sync_all (mpt, w) p h =
        moved self P U _ _ (sync_all_answer-queues _ mpt _) h
    step-AllQueued Call.pin_round (mpt, w) p h = pin_next-AllQueued mpt.pin_ch mpt w refl h
    step-AllQueued Call.unpin_round (mpt, w) p h = unpin_next-AllQueued mpt.unpin_ch mpt w refl h
    step-AllQueued Call.shutdown (mpt, w) p h =
        if_rule (λ m. AllQueued self P U (queues m)) _ _ _ h h
