-- ===== src/Tracker/Entries.antt =====
-- map_pin_tracker.go: what the map of statuses holds after `unsafeSet`, `unsafeSetError` and
-- `syncStatus`.
use ipfs_cluster.Common.{ℕ, String, ◌≡◌, ◌≢◌, Option, none, some, arith}
use ipfs_cluster.Common.Dict.{
  lookup, lookup-insert_ne, lookup-delete_ne, lookup-insert_self, lookup-delete_self,
}
use ipfs_cluster.Common.Result.{Error}
use ipfs_cluster.External.{Codecs, PeerId}
use ipfs_cluster.Api.Status.{TrackerStatus, pin_error, unpin_error, unpinned}
use ipfs_cluster.Api.Types.{PinInfo}
use ipfs_cluster.Tracker.{MapPinTracker, error_status, set_status, get, set_error}

-- The tracker's own view of a status that a write leaves.
abbrev pub entry : {Cid : Type 0} → PeerId → ℕ → Cid → TrackerStatus → Error → PinInfo Cid
entry self t c s e = record { cid = c; peer = self; status = s; ts = t; error = e }

abbrev pub or_same : Option TrackerStatus → TrackerStatus → TrackerStatus
or_same none s = s
or_same (some e) s = e

module _ {Cid Addr : Type 0} (x : Codecs Cid Addr) where
  open x use {cid_string}

  abbrev pub status_of : Cid → MapPinTracker Cid → TrackerStatus
  status_of c mpt = (get x 0 c mpt).status

  -- `get` at another time differs only in the time of an entry that is not there.
  pub status-get :
      (t : ℕ) (c : Cid) (mpt : MapPinTracker Cid) → (get x t c mpt).status ≡ status_of c mpt
  unfolding get
  status-get t c mpt = ground arith

  module _ (t : ℕ) (c : Cid) (mpt : MapPinTracker Cid) where
    pub lookup-set_status_ne :
        (s : TrackerStatus) (k : String)
        → cid_string c ≢ k
        → lookup k (set_status x t c s mpt).status ≡ lookup k mpt.status
    unfolding set_status
    lookup-set_status_ne s k h = ground (
      arith,
      lookup-insert_ne (cid_string c) k (entry mpt.peer_id t c s "") mpt.status h,
      lookup-delete_ne (cid_string c) k mpt.status h,
    )

    pub lookup-set_status_self :
        (s : TrackerStatus)
        → s ≢ unpinned
        → lookup (cid_string c) (set_status x t c s mpt).status ≡ some (entry mpt.peer_id t c s "")
    unfolding set_status
    lookup-set_status_self s h =
        ground (arith, lookup-insert_self (cid_string c) (entry mpt.peer_id t c s "") mpt.status)

    pub lookup-set_unpinned : lookup (cid_string c) (set_status x t c unpinned mpt).status ≡ none
    unfolding set_status
    lookup-set_unpinned = lookup-delete_self (cid_string c) mpt.status

    pub lookup-set_error_ne :
        (e : Error) (k : String)
        → cid_string c ≢ k
        → lookup k (set_error x t c e mpt).status ≡ lookup k mpt.status
    unfolding set_error
    lookup-set_error_ne e k h = ground (
      arith,
      lookup-insert_ne (cid_string c) k (entry mpt.peer_id t c pin_error e) mpt.status h,
      lookup-insert_ne (cid_string c) k (entry mpt.peer_id t c unpin_error e) mpt.status h,
    )

    pub status-set_status : (s : TrackerStatus) → status_of c (set_status x t c s mpt) ≡ s
    unfolding get
    status-set_status s = ground (arith, lookup-set_status_self s, lookup-set_unpinned)

    pub status-set_error :
        (e : Error)
        → status_of c (set_error x t c e mpt)
          ≡ or_same (error_status (status_of c mpt)) (status_of c mpt)
    unfolding get set_error
    status-set_error e = ground (
      arith,
      status-get t c mpt,
      lookup-insert_self (cid_string c) (entry mpt.peer_id t c pin_error e) mpt.status,
      lookup-insert_self (cid_string c) (entry mpt.peer_id t c unpin_error e) mpt.status,
    )
