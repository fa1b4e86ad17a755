-- ===== src/Tracker/Sync.antt =====
-- map_pin_tracker.go: `syncStatus` and `Sync`.
use ipfs_cluster.Common.{
  ℕ, ◌-◌, ◌≤◌, String, ◌≡◌, ◌≢◌, inl, inr, refl, sym, ap, ◌∙◌, Bool, true, false, arith, ltb,
  Bool-cases, Option-cases,
}
use ipfs_cluster.Common.Dict.{lookup, All-lookup}
use ipfs_cluster.Common.Result.{Error}
use ipfs_cluster.External.{Codecs}
use ipfs_cluster.Api.Status.{
  TrackerStatus, bug, cluster_error, pin_error, unpin_error, pinned, pinning, unpinning, unpinned,
  remote, IpfsPinStatus, is_pinned,
}
use ipfs_cluster.Tracker.{
  MapPinTracker, pinning_timeout, unpinning_timeout, error_status, set_status, get, set_error,
  sync_entry, sync_status, err_pinned, err_unpinned, err_pinning_timeout, err_unpinning_timeout,
}
use ipfs_cluster.Tracker.Invariant.{IsValid, IsEntry, IsStored, IsSettable}
use ipfs_cluster.Tracker.Entries.{
  status_of, status-get, lookup-set_status_ne, lookup-set_error_ne, status-set_status,
  status-set_error, or_same,
}

-- The status `s`, held since `ts`, agrees at `t` with whether the daemon has the CID pinned: it is
-- the final status, or an error that the daemon bears out, or an operation that may still be under
-- way, or the CID is another peer's.
abbrev pub Agrees : Bool → ℕ → TrackerStatus → ℕ → Type 0
Agrees true t pinned ts = Unit
Agrees true t unpin_error ts = Unit
Agrees true t unpinning ts = t - ts ≤ unpinning_timeout
Agrees true t remote ts = Unit
Agrees false t unpinned ts = Unit
Agrees false t pin_error ts = Unit
Agrees false t pinning ts = t - ts ≤ pinning_timeout
Agrees false t remote ts = Unit
Agrees _ t _ ts = ⊥

module _ {Cid Addr : Type 0} (x : Codecs Cid Addr) where
  open x use {cid_string}

  stored-IsSettable : (s : TrackerStatus) → IsStored s → IsSettable s
  stored-IsSettable bug h = h
  stored-IsSettable cluster_error h = h
  stored-IsSettable s h = tt

  pub status-IsSettable :
      (c : Cid) (mpt : MapPinTracker Cid) → IsValid x mpt → IsSettable (status_of x c mpt)
  unfolding get
  status-IsSettable c mpt v = elim (Option-cases (lookup (cid_string c) mpt.status)) [
    | inl missing ↦ rw (missing, get, IsSettable) tt
    | inr (p, found) ↦
        rw (found, get, IsSettable)
          (stored-IsSettable p.status
            (All-lookup (IsEntry x mpt.peer_id) (cid_string c) p mpt.status v.entries found).2)
  ]

  lookup-sync_entry_ne :
      (t : ℕ) (c : Cid) (b : Bool) (s : TrackerStatus) (ts : ℕ) (mpt : MapPinTracker Cid)
      (k : String)
      → cid_string c ≢ k
      → lookup k (sync_entry x t c b s ts mpt).status ≡ lookup k mpt.status
  unfolding sync_entry
  lookup-sync_entry_ne t c true bug ts mpt k h = refl
  lookup-sync_entry_ne t c b s ts mpt k h = ground (
    arith,
    lookup-set_status_ne x t c mpt pinned k h,
    lookup-set_status_ne x t c mpt unpinned k h,
    lookup-set_error_ne x t c mpt err_pinned k h,
    lookup-set_error_ne x t c mpt err_unpinned k h,
    lookup-set_error_ne x t c mpt err_pinning_timeout k h,
    lookup-set_error_ne x t c mpt err_unpinning_timeout k h,
  )

  now_set :
      (t : ℕ) (c : Cid) (mpt : MapPinTracker Cid) (s : TrackerStatus)
      → (get x t c (set_status x t c s mpt)).status ≡ s
  now_set t c mpt s = status-get x t c _ ∙ status-set_status x t c mpt s

  now_failed :
      (t : ℕ) (c : Cid) (mpt : MapPinTracker Cid) (e : Error) {s : TrackerStatus}
      → (get x t c mpt).status ≡ s
      → (get x t c (set_error x t c e mpt)).status ≡ or_same (error_status s) s
  now_failed t c mpt e h =
      status-get x t c _
      ∙ status-set_error x t c mpt e
      ∙ ap (λ s. or_same (error_status s) s) (sym (status-get x t c mpt) ∙ h)

  sync_entry-Agrees :
      (t : ℕ) (c : Cid) (b : Bool) (s : TrackerStatus) (ts : ℕ) (mpt : MapPinTracker Cid)
      → (get x t c mpt).status ≡ s
      → (get x t c mpt).ts ≡ ts
      → IsSettable s
      → let p = get x t c (sync_entry x t c b s ts mpt) in Agrees b t p.status p.ts
  unfolding sync_entry
  sync_entry-Agrees t c true pinned ts mpt e1 e2 h = rw e1 tt
  sync_entry-Agrees t c true pinning ts mpt e1 e2 h = rw (now_set t c mpt pinned) tt
  sync_entry-Agrees t c true pin_error ts mpt e1 e2 h = rw (now_set t c mpt pinned) tt
  sync_entry-Agrees t c true unpinning ts mpt e1 e2 h =
      elim (Bool-cases (ltb unpinning_timeout (t - ts))) [
        | inl late ↦ rw late (rw (now_failed t c mpt err_unpinning_timeout e1) tt)
        | inr early ↦ rw early (rw (e1, e2) (ground arith))
      ]
  sync_entry-Agrees t c true unpinned ts mpt e1 e2 h = rw (now_failed t c mpt err_pinned e1) tt
  sync_entry-Agrees t c true unpin_error ts mpt e1 e2 h = rw e1 tt
  sync_entry-Agrees t c true remote ts mpt e1 e2 h = rw e1 tt
  sync_entry-Agrees t c false pinned ts mpt e1 e2 h = rw (now_failed t c mpt err_unpinned e1) tt
  sync_entry-Agrees t c false pin_error ts mpt e1 e2 h = rw e1 tt
  sync_entry-Agrees t c false pinning ts mpt e1 e2 h =
      elim (Bool-cases (ltb pinning_timeout (t - ts))) [
        | inl late ↦ rw late (rw (now_failed t c mpt err_pinning_timeout e1) tt)
        | inr early ↦ rw early (rw (e1, e2) (ground arith))
      ]
  sync_entry-Agrees t c false unpinning ts mpt e1 e2 h = rw (now_set t c mpt unpinned) tt
  sync_entry-Agrees t c false unpin_error ts mpt e1 e2 h = rw (now_set t c mpt unpinned) tt
  sync_entry-Agrees t c false unpinned ts mpt e1 e2 h = rw e1 tt
  sync_entry-Agrees t c false remote ts mpt e1 e2 h = rw e1 tt
  sync_entry-Agrees t c _ bug ts mpt e1 e2 h = elim h [ ]
  sync_entry-Agrees t c _ cluster_error ts mpt e1 e2 h = elim h [ ]

  -- In a valid tracker `syncStatus` leaves the CID in a status that agrees with the daemon's, and
  -- returns what the tracker then holds of it.
  pub sync_status-Agrees :
      (t : ℕ) (c : Cid) (ips : IpfsPinStatus) (mpt : MapPinTracker Cid)
      → IsValid x mpt
      → let (info, mpt') = sync_status x t c ips mpt in
        Agrees (is_pinned ips) t info.status info.ts × (info ≡ get x t c mpt')
  unfolding sync_status
  sync_status-Agrees t c ips mpt v =
      let s = (get x t c mpt).status in
      let h : IsSettable s = rw (status-get x t c mpt) (status-IsSettable c mpt v) in
      (sync_entry-Agrees t c (is_pinned ips) s _ mpt refl refl h, refl)

  -- `syncStatus` leaves the entry of every other CID as it was.
  pub lookup-sync_status_ne :
      (t : ℕ) (c : Cid) (ips : IpfsPinStatus) (mpt : MapPinTracker Cid) (k : String)
      → cid_string c ≢ k
      → lookup k (sync_status x t c ips mpt).1.status ≡ lookup k mpt.status
  unfolding sync_status
  lookup-sync_status_ne t c ips mpt k ne =
      lookup-sync_entry_ne t c (is_pinned ips) (get x t c mpt).status _ mpt k ne
