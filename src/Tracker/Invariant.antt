-- ===== src/Tracker/Invariant.antt =====
-- map_pin_tracker.go: what holds of a tracker between two method calls.
use ipfs_cluster.Common.{
  ◌⊎◌, if_rule, ℕ, ◌≤◌, String, ◌≡◌, refl, Bool, true, false, none, some, arith, length, All, inl,
  inr,
}
use ipfs_cluster.Common.Dict.{
  Distinct, delete, insert-Distinct, delete-Distinct, All-insert, All-delete,
}
use ipfs_cluster.Common.Result.{Error}
use ipfs_cluster.External.{Codecs, PeerId}
use ipfs_cluster.Api.Status.{
  TrackerStatus, bug, cluster_error, pin_error, unpin_error, pinned, pinning, unpinning, unpinned,
  remote, IpfsPinStatus,
}
use ipfs_cluster.Api.Types.{PinInfo}
use ipfs_cluster.Tracker.{
  MapPinTracker, pin_queue_size, error_status, put, set_status, get, set_error, sync_entry,
  sync_status, new_map_pin_tracker,
}

-- A status that a stored entry can have: an unpinned CID has no entry, and the statuses `bug` and
-- `cluster_error` are those of replies.
abbrev pub IsStored : TrackerStatus → Type 0
IsStored bug = ⊥
IsStored cluster_error = ⊥
IsStored unpinned = ⊥
IsStored pin_error = Unit
IsStored unpin_error = Unit
IsStored pinned = Unit
IsStored pinning = Unit
IsStored unpinning = Unit
IsStored remote = Unit

-- The statuses that the methods set.
abbrev pub IsSettable : TrackerStatus → Type 0
IsSettable bug = ⊥
IsSettable cluster_error = ⊥
IsSettable _ = Unit

-- Only an entry in an error state holds a message.
abbrev pub MessageFits : TrackerStatus → Error → Type 0
MessageFits pin_error e = Unit
MessageFits unpin_error e = Unit
MessageFits _ e = e ≡ ""

module _ {Cid Addr : Type 0} (x : Codecs Cid Addr) where
  open x use {cid_string}

  abbrev pub IsEntry : PeerId → String × PinInfo Cid → Type 0
  IsEntry self (k, p) =
      (cid_string p.cid ≡ k) × (p.peer ≡ self) × IsStored p.status × MessageFits p.status p.error

  pub record IsValid (mpt : MapPinTracker Cid) : Type 0 where
    pub distinct : Distinct mpt.status
    pub entries : All (IsEntry mpt.peer_id) mpt.status
    pub pins_bounded : length mpt.pin_ch ≤ pin_queue_size
    pub unpins_bounded : length mpt.unpin_ch ≤ pin_queue_size

  pub put-IsValid :
      (t : ℕ) (c : Cid) (s : TrackerStatus) (e : Error) (mpt : MapPinTracker Cid)
      → IsStored s
      → MessageFits s e
      → IsValid mpt
      → IsValid (put x t c s e mpt)
  put-IsValid t c s e mpt hs he v = record {
    distinct = insert-Distinct _ _ mpt.status v.distinct;
    entries = All-insert (IsEntry mpt.peer_id) _ _ mpt.status (refl, refl, hs, he) v.entries;
    pins_bounded = v.pins_bounded;
    unpins_bounded = v.unpins_bounded;
  }

  delete-IsValid :
      (c : Cid) (mpt : MapPinTracker Cid)
      → IsValid mpt
      → IsValid (record mpt { status = delete (cid_string c) mpt.status })
  delete-IsValid c mpt v = record {
    distinct = delete-Distinct _ mpt.status v.distinct;
    entries = All-delete (IsEntry mpt.peer_id) _ mpt.status v.entries;
    pins_bounded = v.pins_bounded;
    unpins_bounded = v.unpins_bounded;
  }

  pub set_status-IsValid :
      (t : ℕ) (c : Cid) (s : TrackerStatus) (mpt : MapPinTracker Cid)
      → IsSettable s
      → IsValid mpt
      → IsValid (set_status x t c s mpt)
  unfolding set_status
  set_status-IsValid t c bug mpt h v = elim h [ ]
  set_status-IsValid t c cluster_error mpt h v = elim h [ ]
  set_status-IsValid t c unpinned mpt h v = delete-IsValid c mpt v
  set_status-IsValid t c pin_error mpt h v = put-IsValid t c pin_error "" mpt tt tt v
  set_status-IsValid t c unpin_error mpt h v = put-IsValid t c unpin_error "" mpt tt tt v
  set_status-IsValid t c s mpt h v = put-IsValid t c s "" mpt tt refl v

  pub error_status-cases :
      (s : TrackerStatus)
      → (error_status s ≡ none)
        ⊎ ((error_status s ≡ some pin_error) ⊎ (error_status s ≡ some unpin_error))
  error_status-cases bug = inl refl
  error_status-cases s = ground arith

  pub set_error-IsValid :
      (t : ℕ) (c : Cid) (e : Error) (mpt : MapPinTracker Cid)
      → IsValid mpt
      → IsValid (set_error x t c e mpt)
  unfolding set_error
  set_error-IsValid t c e mpt v = elim (error_status-cases (get x t c mpt).status) [
    | inl h ↦ rw (h, set_error) v
    | inr (inl h) ↦ rw (h, set_error) (put-IsValid t c pin_error e mpt tt tt v)
    | inr (inr h) ↦ rw (h, set_error) (put-IsValid t c unpin_error e mpt tt tt v)
  ]

  sync_entry-IsValid :
      (t : ℕ) (c : Cid) (b : Bool) (s : TrackerStatus) (ts : ℕ) (mpt : MapPinTracker Cid)
      → IsValid mpt
      → IsValid (sync_entry x t c b s ts mpt)
  unfolding sync_entry
  sync_entry-IsValid t c true pinning ts mpt v = set_status-IsValid t c pinned mpt tt v
  sync_entry-IsValid t c true pin_error ts mpt v = set_status-IsValid t c pinned mpt tt v
  sync_entry-IsValid t c true unpinning ts mpt v =
      if_rule IsValid _ _ _ (set_error-IsValid t c _ mpt v) v
  sync_entry-IsValid t c true unpinned ts mpt v = set_error-IsValid t c _ mpt v
  sync_entry-IsValid t c false pinned ts mpt v = set_error-IsValid t c _ mpt v
  sync_entry-IsValid t c false pinning ts mpt v =
      if_rule IsValid _ _ _ (set_error-IsValid t c _ mpt v) v
  sync_entry-IsValid t c false unpinning ts mpt v = set_status-IsValid t c unpinned mpt tt v
  sync_entry-IsValid t c false unpin_error ts mpt v = set_status-IsValid t c unpinned mpt tt v
  sync_entry-IsValid t c _ _ ts mpt v = v

  pub sync_status-IsValid :
      (t : ℕ) (c : Cid) (ips : IpfsPinStatus) (mpt : MapPinTracker Cid)
      → IsValid mpt
      → IsValid (sync_status x t c ips mpt).1
  unfolding sync_status
  sync_status-IsValid t c ips mpt v = sync_entry-IsValid t c _ _ _ mpt v

pub new-IsValid :
    {Cid Addr : Type 0} (x : Codecs Cid Addr) (self : PeerId) → IsValid x (new_map_pin_tracker self)
unfolding new_map_pin_tracker
new-IsValid x self = record {
  distinct = tt;
  entries = tt;
  pins_bounded = omega arith;
  unpins_bounded = omega arith;
}
