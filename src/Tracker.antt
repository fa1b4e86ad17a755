-- ===== src/Tracker.antt =====
-- map_pin_tracker.go: `MapPinTracker`. A method returns its result, the new tracker and the new
-- outside world; it runs whole, its lock regions included.
pub mod Workers
pub mod Invariant
pub mod Runs
pub mod Entries
pub mod Sync
pub mod Tracking
pub mod Draining
pub mod SyncAll
pub mod Queues
pub mod Wanted
pub mod Owned
use ipfs_cluster.Common.{
  ℕ, ◌+◌, ◌*◌, ◌-◌, String, Bool, true, false, Option, none, some, List, [], ◌∷◌, ◌++◌, map, length,
  ltb, ◌==◌, ◌||◌, not, if◌then◌else◌,
}
use ipfs_cluster.Common.Dict.{Dict, lookup, insert, delete, values, keys}
use ipfs_cluster.Common.Result.{Error, Result, ok, err, value_or}
use ipfs_cluster.External.{Codecs, PeerId}
use ipfs_cluster.Interfaces.{IpfsRpc}
use ipfs_cluster.Api.Status.{
  TrackerStatus, bug, cluster_error, pin_error, unpin_error, pinned, pinning, unpinning, unpinned,
  remote, same_status, IpfsPinStatus, is_pinned,
}
use ipfs_cluster.Api.Types.{PinInfo, CidArg, cid_arg_cid, cid_arg_to_serial}
use ipfs_cluster.Api.Metrics.{second}

-- The fields that the methods read or write. The queues are buffered channels, oldest first.
pub record MapPinTracker (Cid : Type 0) : Type 0 where
  pub status : Dict (PinInfo Cid)
  pub peer_id : PeerId
  pub pin_ch : List (CidArg Cid)
  pub unpin_ch : List (CidArg Cid)
  pub cancelled : Bool  -- the context
  pub shutdown : Bool

abbrev pub pinning_timeout : ℕ
pinning_timeout = 15 * 60 * second

abbrev pub unpinning_timeout : ℕ
unpinning_timeout = 10 * second

abbrev pub pin_queue_size : ℕ
pin_queue_size = 1024

abbrev pub err_unpinning_timeout : Error
err_unpinning_timeout = "unpinning operation is taking too long"

abbrev pub err_pinning_timeout : Error
err_pinning_timeout = "pinning operation is taking too long"

abbrev pub err_pinned : Error
err_pinned = "the item is unexpectedly pinned on IPFS"

abbrev pub err_unpinned : Error
err_unpinned = "the item is unexpectedly not pinned on IPFS"

unfoldable pub new_map_pin_tracker : {Cid : Type 0} → PeerId → MapPinTracker Cid
new_map_pin_tracker peer = record {
  status = [];
  peer_id = peer;
  pin_ch = [];
  unpin_ch = [];
  cancelled = false;
  shutdown = false;
}

-- The `switch` of `unsafeSetError`: the error state that a status moves to, if it moves.
abbrev pub error_status : TrackerStatus → Option TrackerStatus
error_status pinned = some pin_error
error_status pinning = some pin_error
error_status pin_error = some pin_error
error_status unpinned = some unpin_error
error_status unpinning = some unpin_error
error_status unpin_error = some unpin_error
error_status bug = none
error_status cluster_error = none
error_status remote = none

-- `mpt.shutdown` is set once; the second call returns early.
unfoldable pub shutdown : {Cid : Type 0} → MapPinTracker Cid → MapPinTracker Cid
shutdown mpt = if mpt.shutdown then mpt else record mpt { cancelled = true; shutdown = true }

-- `isRemote`
unfoldable pub contains : PeerId → List PeerId → Bool
contains self [] = false
contains self (p ∷ ps) = p == self || contains self ps

unfoldable pub is_remote : {Cid : Type 0} → MapPinTracker Cid → CidArg Cid → Bool
unfolding contains
is_remote mpt c = if c.everywhere then false else not (contains mpt.peer_id c.allocations)

module _ {Cid Addr : Type 0} (x : Codecs Cid Addr) where
  open x use {nil_cid, cid_string, cid_decode}

  -- `unsafeSet`, `unsafeGet` and `unsafeSetError` at the time `t`
  abbrev pub put : ℕ → Cid → TrackerStatus → Error → MapPinTracker Cid → MapPinTracker Cid
  put t c s e mpt = record mpt {
    status =
        insert (cid_string c)
          (record { cid = c; peer = mpt.peer_id; status = s; ts = t; error = e }) mpt.status;
  }

  unfoldable pub set_status : ℕ → Cid → TrackerStatus → MapPinTracker Cid → MapPinTracker Cid
  set_status t c s mpt =
      if same_status s unpinned
      then record mpt { status = delete (cid_string c) mpt.status }
      else put t c s "" mpt

  unfoldable pub get : ℕ → Cid → MapPinTracker Cid → PinInfo Cid
  get t c mpt = elim (lookup (cid_string c) mpt.status) [
    | none ↦ record { cid = c; peer = mpt.peer_id; status = unpinned; ts = t; error = "" }
    | some p ↦ p
  ]

  unfoldable pub set_error : ℕ → Cid → Error → MapPinTracker Cid → MapPinTracker Cid
  unfolding get
  set_error t c e mpt = elim (error_status (get t c mpt).status) [
    | none ↦ mpt
    | some s ↦ put t c s e mpt
  ]

  -- `syncStatus`; `time.Since(p.TS)` may be negative, where `t - ts` is 0, and neither is then above
  -- a timeout
  unfoldable pub sync_entry :
      ℕ → Cid → Bool → TrackerStatus → ℕ → MapPinTracker Cid → MapPinTracker Cid
  unfolding set_status set_error
  sync_entry t c true pinned ts mpt = mpt
  sync_entry t c true pinning ts mpt = set_status t c pinned mpt
  sync_entry t c true pin_error ts mpt = set_status t c pinned mpt
  sync_entry t c true unpinning ts mpt =
      if ltb unpinning_timeout (t - ts) then set_error t c err_unpinning_timeout mpt else mpt
  sync_entry t c true unpinned ts mpt = set_error t c err_pinned mpt
  sync_entry t c true unpin_error ts mpt = mpt
  sync_entry t c false pinned ts mpt = set_error t c err_unpinned mpt
  sync_entry t c false pin_error ts mpt = mpt
  sync_entry t c false pinning ts mpt =
      if ltb pinning_timeout (t - ts) then set_error t c err_pinning_timeout mpt else mpt
  sync_entry t c false unpinning ts mpt = set_status t c unpinned mpt
  sync_entry t c false unpin_error ts mpt = set_status t c unpinned mpt
  sync_entry t c false unpinned ts mpt = mpt
  sync_entry t c _ _ ts mpt = mpt

  unfoldable pub sync_status :
      ℕ → Cid → IpfsPinStatus → MapPinTracker Cid → PinInfo Cid × MapPinTracker Cid
  unfolding sync_entry get
  sync_status t c ips mpt =
      let p = get t c mpt in
      let mpt' = sync_entry t c (is_pinned ips) p.status p.ts mpt in (get t c mpt', mpt')
