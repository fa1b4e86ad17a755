-- ===== src/Tracker/Owned.antt =====
-- map_pin_tracker.go: which CIDs the tracker has its daemon pin.
use ipfs_cluster.Common.{
  ℕ, String, ◌≡◌, ◌⊎◌, refl, subst, Bool, true, false, Option, none, some, List, [], ◌∷◌, All,
  Bool-cases, inl, inr, if_rule,
}
use ipfs_cluster.Common.Dict.{Dict, keys}
use ipfs_cluster.Common.Result.{Error, Result, ok, err}
use ipfs_cluster.External.{Codecs, CidDecodes, PeerId}
use ipfs_cluster.Interfaces.{IpfsRpc}
use ipfs_cluster.Api.Status.{
  TrackerStatus, pin_error, unpin_error, pinned, pinning, unpinning, unpinned, remote,
  IpfsPinStatus,
}
use ipfs_cluster.Api.Types.{PinInfo, CidArg, CidArgSerial, cid_arg_cid, cid_arg_to_serial}
use ipfs_cluster.Tracker.{MapPinTracker, is_remote, set_status, get, set_error}
use ipfs_cluster.Tracker
use ipfs_cluster.Tracker.Workers
use ipfs_cluster.Tracker.Workers.{
  settle, track_remote, track_local, sync_answer, sync_all_answer, sync_each, fail_all,
  recover_status, pin_next, pin_worker, unpin_next, unpin_worker,
}
use ipfs_cluster.Tracker.Runs.{Call, step}
use ipfs_cluster.Tracker.Queues.{queues, AllQueued, Puts, step-AllQueued}
use ipfs_cluster.Tracker.Wanted.{
  is_wanted, Wanted, set_status-Wanted, get-Wanted, set_error-Wanted, sync_status-Wanted,
}

-- `pins` says which CIDs the daemon has pinned. Only the call that pins makes them more, by its CID.
pub record Restrained {Cid Addr W : Type 0} (x : Codecs Cid Addr) (r : IpfsRpc W)
    (pins : W → String → Bool) : Type 0 where
  pub pin_adds :
      (c : CidArg Cid) (w : W) (k : String)
      → CidDecodes x c.cid
      → pins (r.ipfs_pin (cid_arg_to_serial x c) w).1 k ≡ true
      → (pins w k ≡ true) ⊎ (x.cid_string c.cid ≡ k)
  pub unpin_adds :
      (arg : CidArgSerial) (w : W) (k : String)
      → pins (r.ipfs_unpin arg w).1 k ≡ true
      → pins w k ≡ true
  pub ls_cid_adds :
      (arg : CidArgSerial) (w : W) (k : String)
      → pins (r.ipfs_pin_ls_cid arg w).1 k ≡ true
      → pins w k ≡ true
  pub ls_adds :
      (w : W) (k : String) → pins (r.ipfs_pin_ls "recursive" w).1 k ≡ true → pins w k ≡ true

module _ {Cid Addr W : Type 0} (x : Codecs Cid Addr) (r : IpfsRpc W) (pins : W → String → Bool)
    (o : Restrained x r pins) (self : PeerId) (A : String → Type 0) where
  open x use {cid_string}
  open r use {now}

  -- The request pins a CID that satisfies `A`.
  abbrev pub Good : CidArg Cid → Type 0
  Good c = CidDecodes x c.cid × A (cid_string c.cid)

  abbrev pub Any : CidArg Cid → Type 0
  Any c = Unit

  -- What the daemon has pinned, and what the tracker holds for pinned or to be pinned, satisfies `A`.
  abbrev Owned : MapPinTracker Cid → W → Type 0
  Owned mpt w = Wanted x A mpt × ((k : String) → pins w k ≡ true → A k)

  settle-Wanted :
      (c : Cid) (s : TrackerStatus) (e : Option Error) (w : W) (mpt : MapPinTracker Cid)
      → (is_wanted s ≡ true → A (cid_string c))
      → Wanted x A mpt
      → Wanted x A (settle x r c s e w mpt)
  settle-Wanted c s none w mpt h v = set_status-Wanted x A _ c s mpt h v
  settle-Wanted c s (some e) w mpt h v = set_error-Wanted x A _ c e mpt v

  pin-Owned :
      (c : CidArg Cid) (mpt : MapPinTracker Cid) (w : W)
      → Good c
      → Owned mpt w
      → let (e, m, v) = Workers.pin x r c mpt w in Owned m v
  unfolding Workers.pin
  pin-Owned c mpt w (d, a) (v, p) = (
    settle-Wanted c.cid pinned _ _ _ (λ q. a)
        (set_status-Wanted x A _ c.cid pinning mpt (λ q. a) v),
    λ k h. elim (o.pin_adds c w k d h) [ inl before ↦ p k before | inr same ↦ subst A same a ],
  )

  unpin-Owned :
      (c : CidArg Cid) (mpt : MapPinTracker Cid) (w : W)
      → Owned mpt w
      → let (e, m, v) = Workers.unpin x r c mpt w in Owned m v
  unfolding Workers.unpin
  unpin-Owned c mpt w (v, p) = (
    settle-Wanted c.cid unpinned _ _ mpt (λ q. absurd (cc q)) v,
    λ k h. p k (o.unpin_adds (cid_arg_to_serial x c) w k h),
  )

  track_remote-Owned :
      (c : CidArg Cid) (mpt : MapPinTracker Cid) (w : W)
      → Owned mpt w
      → let (m, v) = track_remote x r c mpt w in Owned m v
  unfolding track_remote
  track_remote-Owned c mpt w h =
      let h1 =
        if_rule {A = MapPinTracker Cid × W} (λ t. Owned t.0 t.1) _ _ _ (unpin-Owned c mpt w h) h in
      (set_status-Wanted x A _ c.cid remote _ (λ q. absurd (cc q)) h1.0, h1.1)

  track-Owned :
      (c : CidArg Cid) (mpt : MapPinTracker Cid) (w : W)
      → (is_remote mpt c ≡ false → Good c)
      → Owned mpt w
      → let (e, m, v) = Workers.track x r c mpt w in Owned m v
  unfolding Workers.track track_local
  track-Owned c mpt w own h = elim (Bool-cases (is_remote mpt c)) [
    | inl theirs ↦ rw theirs (track_remote-Owned c mpt w h)
    | inr mine ↦
        let v1 = set_status-Wanted x A (now w) c.cid pinning mpt (λ q. (own mine).1) h.0 in
        rw mine (
          if_rule {A = Option Error × MapPinTracker Cid} (λ t. Wanted x A t.1) _ _ _ v1
              (set_error-Wanted x A (now w) c.cid _ _ v1),
          h.1,
        )
  ]

  untrack-Owned :
      (c : Cid) (mpt : MapPinTracker Cid) (w : W)
      → Owned mpt w
      → let (e, m, v) = Workers.untrack x r c mpt w in Owned m v
  unfolding Workers.untrack
  untrack-Owned c mpt w h =
      let v1 = set_status-Wanted x A (now w) c unpinning mpt (λ q. absurd (cc q)) h.0 in
      if_rule {A = Option Error × MapPinTracker Cid × W} (λ t. Owned t.1 t.2) _ _ _ (v1, h.1)
        (set_error-Wanted x A (now w) c _ _ v1, h.1)

  sync_answer-Owned :
      (c : Cid) (res : Result IpfsPinStatus) (mpt : MapPinTracker Cid) (w : W)
      → Owned mpt w
      → let (e, m, v) = sync_answer x r c res mpt w in Owned m v
  unfolding sync_answer
  sync_answer-Owned c (ok ips) mpt w (v, p) = (sync_status-Wanted x A (now w) c ips mpt v, p)
  sync_answer-Owned c (err e) mpt w (v, p) = (set_error-Wanted x A (now w) c e mpt v, p)

  sync_each-Wanted :
      (t : ℕ) (m : Dict IpfsPinStatus) (origs : List (PinInfo Cid)) (mpt : MapPinTracker Cid)
      → Wanted x A mpt
      → Wanted x A (sync_each x r t m origs mpt).1
  unfolding sync_each
  sync_each-Wanted t m [] mpt v = v
  sync_each-Wanted t m (orig ∷ origs) mpt v =
      sync_each-Wanted t m origs _ (sync_status-Wanted x A t orig.cid _ mpt v)

  fail_all-Wanted :
      (t : ℕ) (e : Error) (ks : List String) (mpt : MapPinTracker Cid)
      → Wanted x A mpt
      → Wanted x A (fail_all x r t e ks mpt).1
  unfolding fail_all
  fail_all-Wanted t e [] mpt v = v
  fail_all-Wanted t e (k ∷ ks) mpt v = fail_all-Wanted t e ks _ (set_error-Wanted x A t _ e mpt v)

  sync_all_answer-Owned :
      (res : Result (Dict IpfsPinStatus)) (mpt : MapPinTracker Cid) (w : W)
      → Owned mpt w
      → let (e, m, v) = sync_all_answer x r res mpt w in Owned m v
  unfolding sync_all_answer
  sync_all_answer-Owned (ok m) mpt w (v, p) =
      (sync_each-Wanted _ m (Workers.status_all mpt) mpt v, p)
  sync_all_answer-Owned (err e) mpt w (v, p) = (fail_all-Wanted _ e (keys mpt.status) mpt v, p)

  recover_status-Owned :
      (s : TrackerStatus) (c : Cid) (mpt : MapPinTracker Cid) (w : W)
      → CidDecodes x c
      → (is_wanted s ≡ true → A (cid_string c))
      → Owned mpt w
      → let (e, m, v) = recover_status x r s c mpt w in Owned m v
  unfolding recover_status cid_arg_cid
  recover_status-Owned pin_error c mpt w d a h = pin-Owned (cid_arg_cid c) mpt w (d, a refl) h
  recover_status-Owned unpin_error c mpt w d a h = unpin-Owned (cid_arg_cid c) mpt w h
  recover_status-Owned _ c mpt w d a h = h

  pin_next-Owned :
      (q : List (CidArg Cid)) (mpt : MapPinTracker Cid) (w : W)
      → All Good q
      → Owned mpt w
      → let (m, v) = pin_next x r q mpt w in Owned m v
  unfolding pin_next
  pin_next-Owned [] mpt w g h = h
  pin_next-Owned (p ∷ rest) mpt w g h = pin-Owned p (record mpt { pin_ch = rest }) w g.0 h

  unpin_next-Owned :
      (q : List (CidArg Cid)) (mpt : MapPinTracker Cid) (w : W)
      → Owned mpt w
      → let (m, v) = unpin_next x r q mpt w in Owned m v
  unfolding unpin_next
  unpin_next-Owned [] mpt w h = h
  unpin_next-Owned (p ∷ rest) mpt w h = unpin-Owned p (record mpt { unpin_ch = rest }) w h

  -- The CID of a retried pin decodes, and a pin that is tracked here is good.
  abbrev pub Allowed : MapPinTracker Cid → Call Cid → Type 0
  Allowed mpt (Call.track c) = is_remote mpt c ≡ false → Good c
  Allowed mpt (Call.recover c) = CidDecodes x c
  Allowed mpt _ = Unit

  puts :
      (mpt : MapPinTracker Cid) (call : Call Cid) → Allowed mpt call → Puts self Good Any mpt call
  puts mpt (Call.track c) a = a
  puts mpt (Call.untrack c) a = tt
  puts mpt (Call.sync c) a = tt
  puts mpt (Call.recover c) a = tt
  puts mpt Call.sync_all a = tt
  puts mpt Call.pin_round a = tt
  puts mpt Call.unpin_round a = tt
  puts mpt Call.shutdown a = tt

  -- The requests in the queue are good, too; the peer is `self`.
  pub record OwnedAll (t : MapPinTracker Cid × W) : Type 0 where
    pub wanted : Wanted x A t.0
    pub held : (k : String) → pins t.1 k ≡ true → A k
    pub queued : AllQueued self Good Any (queues t.0)

  step-Owned :
      (call : Call Cid) (t : MapPinTracker Cid × W)
      → Allowed t.0 call
      → OwnedAll t
      → let (m, v) = step x r call t in Owned m v
  unfolding Workers.sync Workers.sync_all Workers.recover pin_worker unpin_worker Tracker.shutdown
  step-Owned (Call.track c) (mpt, w) a h = track-Owned c mpt w a (h.wanted, h.held)
  step-Owned (Call.untrack c) (mpt, w) a h = untrack-Owned c mpt w (h.wanted, h.held)
  step-Owned (Call.sync c) (mpt, w) a h =
      sync_answer-Owned c _ mpt _ (h.wanted, λ k q. h.held k (o.ls_cid_adds _ w k q))
  step-Owned (Call.recover c) (mpt, w) a h =
      recover_status-Owned _ c mpt w a (get-Wanted x A (now w) c mpt h.wanted) (h.wanted, h.held)
  step-Owned Call.sync_all (mpt, w) a h =
      sync_all_answer-Owned _ mpt _ (h.wanted, λ k q. h.held k (o.ls_adds w k q))
  step-Owned Call.pin_round (mpt, w) a h =
      pin_next-Owned mpt.pin_ch mpt w h.queued.0 (h.wanted, h.held)
  step-Owned Call.unpin_round (mpt, w) a h = unpin_next-Owned mpt.unpin_ch mpt w (h.wanted, h.held)
  step-Owned Call.shutdown (mpt, w) a h =
      if_rule (λ m. Owned m w) _ _ _ (h.wanted, h.held) (h.wanted, h.held)

  pub step-OwnedAll :
      (call : Call Cid) (t : MapPinTracker Cid × W)
      → Allowed t.0 call
      → OwnedAll t
      → OwnedAll (step x r call t)
  step-OwnedAll call t a h =
      let (wanted, held) = step-Owned call t a h in
      record {
        wanted = wanted;
        held = held;
        queued = step-AllQueued x r self Good Any call t (puts t.0 call a) h.queued;
      }
