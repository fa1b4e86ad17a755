-- ===== src/Tracker/Wanted.antt =====
-- map_pin_tracker.go: which CIDs have an entry that stands for a pin of this peer.
use ipfs_cluster.Common.{
  ℕ, String, ◌≡◌, ◌∙◌, Bool, true, false, some, arith, eq_iff, Bool-cases, Option-cases, inl, inr,
  if_rule, ◌==◌, subst, ap,
}
use ipfs_cluster.Common.Dict.{lookup, lookup-insert, lookup-delete, delete}
use ipfs_cluster.Common.Result.{Error}
use ipfs_cluster.External.{Codecs}
use ipfs_cluster.Api.Status.{
  TrackerStatus, bug, cluster_error, remote, pin_error, unpin_error, pinned, pinning, unpinning,
  unpinned, IpfsPinStatus,
}
use ipfs_cluster.Api.Types.{PinInfo}
use ipfs_cluster.Tracker.{
  MapPinTracker, error_status, put, set_status, get, set_error, sync_entry, sync_status,
}
use ipfs_cluster.Tracker.Invariant.{error_status-cases}

-- The states of a CID that is pinned, is to be pinned, or could not be.
abbrev pub is_wanted : TrackerStatus → Bool
is_wanted pinned = true
is_wanted pinning = true
is_wanted pin_error = true
is_wanted bug = false
is_wanted cluster_error = false
is_wanted unpin_error = false
is_wanted unpinning = false
is_wanted unpinned = false
is_wanted remote = false

failed-wanted : (s : TrackerStatus) → error_status s ≡ some pin_error → is_wanted s ≡ true
failed-wanted s e = ground (arith, e)

module _ {Cid Addr : Type 0} (x : Codecs Cid Addr) (A : String → Type 0) where
  open x use {cid_string}

  -- A CID that has such an entry satisfies `A`.
  abbrev pub Wanted : MapPinTracker Cid → Type 0
  Wanted mpt =
      (k : String) (p : PinInfo Cid)
      → lookup k mpt.status ≡ some p
      → is_wanted p.status ≡ true
      → A k

  put-Wanted :
      (t : ℕ) (c : Cid) (s : TrackerStatus) (m : Error) (mpt : MapPinTracker Cid)
      → (is_wanted s ≡ true → A (cid_string c))
      → Wanted mpt
      → Wanted (put x t c s m mpt)
  put-Wanted t c s m mpt mine all k p e h =
      let after =
        lookup-insert (cid_string c) k
          (record { cid = c; peer = mpt.peer_id; status = s; ts = t; error = m }) mpt.status in
      elim (Bool-cases (cid_string c == k)) [
        | inl same ↦
            let its : s ≡ p.status = ground (arith, same, after, e) in
            subst A ((eq_iff (cid_string c) k).0 same) (mine (ap is_wanted its ∙ h))
        | inr other ↦ all k p (ground (arith, other, after, e)) h
      ]

  delete-Wanted :
      (c : Cid) (mpt : MapPinTracker Cid)
      → Wanted mpt
      → Wanted (record mpt { status = delete (cid_string c) mpt.status })
  delete-Wanted c mpt all k p e h =
      let after = lookup-delete (cid_string c) k mpt.status in
      elim (Bool-cases (cid_string c == k)) [
        | inl here ↦ absurd (ground (arith, here, after, e))
        | inr other ↦ all k p (ground (arith, other, after, e)) h
      ]

  pub set_status-Wanted :
      (t : ℕ) (c : Cid) (s : TrackerStatus) (mpt : MapPinTracker Cid)
      → (is_wanted s ≡ true → A (cid_string c))
      → Wanted mpt
      → Wanted (set_status x t c s mpt)
  unfolding set_status
  set_status-Wanted t c s mpt mine all =
      if_rule Wanted _ _ _ (delete-Wanted c mpt all) (put-Wanted t c s "" mpt mine all)

  pub get-Wanted :
      (t : ℕ) (c : Cid) (mpt : MapPinTracker Cid)
      → Wanted mpt
      → is_wanted (get x t c mpt).status ≡ true
      → A (cid_string c)
  unfolding get
  get-Wanted t c mpt all h = elim (Option-cases (lookup (cid_string c) mpt.status)) [
    | inl missing ↦ absurd (ground (arith, missing, h))
    | inr (p, found) ↦ all (cid_string c) p found (ground (arith, found, h))
  ]

  pub set_error-Wanted :
      (t : ℕ) (c : Cid) (m : Error) (mpt : MapPinTracker Cid)
      → Wanted mpt
      → Wanted (set_error x t c m mpt)
  unfolding set_error
  set_error-Wanted t c m mpt all = elim (error_status-cases x (get x t c mpt).status) [
    | inl e ↦ rw (e, set_error) all
    | inr (inl e) ↦
        rw (e, set_error)
          (put-Wanted t c pin_error m mpt (λ q. get-Wanted t c mpt all (failed-wanted _ e)) all)
    | inr (inr e) ↦ rw (e, set_error) (put-Wanted t c unpin_error m mpt (λ q. absurd (cc q)) all)
  ]

  sync_entry-Wanted :
      (t : ℕ) (c : Cid) (b : Bool) (s : TrackerStatus) (ts : ℕ) (mpt : MapPinTracker Cid)
      → (is_wanted s ≡ true → A (cid_string c))
      → Wanted mpt
      → Wanted (sync_entry x t c b s ts mpt)
  unfolding sync_entry
  sync_entry-Wanted t c true pinning ts mpt h v = set_status-Wanted t c pinned mpt h v
  sync_entry-Wanted t c true pin_error ts mpt h v = set_status-Wanted t c pinned mpt h v
  sync_entry-Wanted t c true unpinning ts mpt h v =
      if_rule Wanted _ _ _ (set_error-Wanted t c _ mpt v) v
  sync_entry-Wanted t c true unpinned ts mpt h v = set_error-Wanted t c _ mpt v
  sync_entry-Wanted t c false pinned ts mpt h v = set_error-Wanted t c _ mpt v
  sync_entry-Wanted t c false pinning ts mpt h v =
      if_rule Wanted _ _ _ (set_error-Wanted t c _ mpt v) v
  sync_entry-Wanted t c false unpinning ts mpt h v =
      set_status-Wanted t c unpinned mpt (λ q. absurd (cc q)) v
  sync_entry-Wanted t c false unpin_error ts mpt h v =
      set_status-Wanted t c unpinned mpt (λ q. absurd (cc q)) v
  sync_entry-Wanted t c _ _ ts mpt h v = v

  pub sync_status-Wanted :
      (t : ℕ) (c : Cid) (ips : IpfsPinStatus) (mpt : MapPinTracker Cid)
      → Wanted mpt
      → Wanted (sync_status x t c ips mpt).1
  unfolding sync_status
  sync_status-Wanted t c ips mpt v =
      sync_entry-Wanted t c _ (get x t c mpt).status _ mpt (get-Wanted t c mpt v) v
