-- ===== src/Tracker/Workers.antt =====
-- map_pin_tracker.go: the methods that call the IPFS connector, and the two workers.
use ipfs_cluster.Common.{
  ℕ, String, Bool, Option, none, some, List, [], ◌∷◌, ◌++◌, length, ltb, not, ◌||◌, if◌then◌else◌,
}
use ipfs_cluster.Common.Dict.{Dict, lookup, keys, values}
use ipfs_cluster.Common.Result.{Error, Result, ok, err, value_or}
use ipfs_cluster.External.{Codecs}
use ipfs_cluster.Interfaces.{IpfsRpc}
use ipfs_cluster.Api.Status.{
  TrackerStatus, pin_error, unpin_error, pinned, pinning, unpinning, unpinned, remote, same_status,
  IpfsPinStatus,
}
use ipfs_cluster.Api.Types.{PinInfo, CidArg, cid_arg_cid, cid_arg_to_serial}
use ipfs_cluster.Tracker.{
  MapPinTracker, pin_queue_size, is_remote, set_status, get, set_error, sync_status,
}

unfoldable pub status_all : {Cid : Type 0} → MapPinTracker Cid → List (PinInfo Cid)
status_all mpt = values mpt.status

module _ {Cid Addr W : Type 0} (x : Codecs Cid Addr) (r : IpfsRpc W) where
  open x use {nil_cid, cid_string, cid_decode}
  open r use {ipfs_pin, ipfs_unpin, ipfs_pin_ls_cid, ipfs_pin_ls, now}

  -- after the call of `pin` and of `unpin`: its error, or the status that it reaches
  abbrev pub settle : Cid → TrackerStatus → Option Error → W → MapPinTracker Cid → MapPinTracker Cid
  settle c s (some e) w mpt = set_error x (now w) c e mpt
  settle c s none w mpt = set_status x (now w) c s mpt

  unfoldable pub pin : CidArg Cid → MapPinTracker Cid → W → Option Error × MapPinTracker Cid × W
  pin c mpt w =
      let mpt1 = set_status x (now w) c.cid pinning mpt in
      let (e, w') = ipfs_pin (cid_arg_to_serial x c) w in (e, settle c.cid pinned e w' mpt1, w')

  unfoldable pub unpin : CidArg Cid → MapPinTracker Cid → W → Option Error × MapPinTracker Cid × W
  unpin c mpt w =
      let (e, w') = ipfs_unpin (cid_arg_to_serial x c) w in (e, settle c.cid unpinned e w' mpt, w')

  -- the branch of `Track` for a pin that is allocated to other peers
  unfoldable pub track_remote : CidArg Cid → MapPinTracker Cid → W → MapPinTracker Cid × W
  unfolding unpin
  track_remote c mpt w =
      let (mpt', w') : MapPinTracker Cid × W =
        if same_status (get x (now w) c.cid mpt).status pinned
        then (let (e, m, v) = unpin c mpt w in (m, v))
        else (mpt, w) in
      (set_status x (now w') c.cid remote mpt', w')

  -- `select { case mpt.pinCh <- c: default: ... }`
  unfoldable pub track_local : ℕ → CidArg Cid → MapPinTracker Cid → Option Error × MapPinTracker Cid
  track_local t c mpt =
      let mpt1 = set_status x t c.cid pinning mpt in
      if ltb (length mpt.pin_ch) pin_queue_size
      then (none, record mpt1 { pin_ch = mpt.pin_ch ++ c ∷ [] })
      else (some "map_pin_tracker pin queue is full", set_error x t c.cid "pin queue is full" mpt1)

  unfoldable pub track : CidArg Cid → MapPinTracker Cid → W → Option Error × MapPinTracker Cid × W
  unfolding track_remote track_local
  track c mpt w =
      if is_remote mpt c
      then (let (m, v) = track_remote c mpt w in (none, m, v))
      else (let (e, m) = track_local (now w) c mpt in (e, m, w))

  unfoldable pub untrack : Cid → MapPinTracker Cid → W → Option Error × MapPinTracker Cid × W
  untrack c mpt w =
      let mpt1 = set_status x (now w) c unpinning mpt in
      if ltb (length mpt.unpin_ch) pin_queue_size
      then (none, record mpt1 { unpin_ch = mpt.unpin_ch ++ cid_arg_cid c ∷ [] }, w)
      else (
        some "map_pin_tracker unpin queue is full",
        set_error x (now w) c "unpin queue is full" mpt1,
        w,
      )

  unfoldable pub status : Cid → MapPinTracker Cid → W → PinInfo Cid
  status c mpt w = get x (now w) c mpt

  -- `Sync` after the daemon has answered, or could not be asked
  unfoldable pub sync_answer :
      Cid
      → Result IpfsPinStatus
      → MapPinTracker Cid
      → W
      → (PinInfo Cid × Option Error) × MapPinTracker Cid × W
  sync_answer c (err e) mpt w =
      let mpt' = set_error x (now w) c e mpt in ((get x (now w) c mpt', some e), mpt', w)
  sync_answer c (ok ips) mpt w =
      let (info, mpt') = sync_status x (now w) c ips mpt in ((info, none), mpt', w)

  unfoldable pub sync :
      Cid → MapPinTracker Cid → W → (PinInfo Cid × Option Error) × MapPinTracker Cid × W
  unfolding sync_answer
  sync c mpt w =
      let (res, w') = ipfs_pin_ls_cid (cid_arg_to_serial x (cid_arg_cid c)) w in
      sync_answer c res mpt w'

  -- the loop of `SyncAll` over the keys, when the daemon cannot be asked
  unfoldable pub fail_all :
      ℕ → Error → List String → MapPinTracker Cid → List (PinInfo Cid) × MapPinTracker Cid
  fail_all t e [] mpt = ([], mpt)
  fail_all t e (k ∷ ks) mpt =
      let c = value_or nil_cid (cid_decode k) in
      let mpt1 = set_error x t c e mpt in
      let (infos, mpt') = fail_all t e ks mpt1 in (get x t c mpt1 ∷ infos, mpt')

  -- the condition for a pin to be in the result
  abbrev pub is_reported : TrackerStatus → TrackerStatus → Bool
  is_reported orig new =
      not (same_status orig new) || (same_status new unpin_error || same_status new pin_error)

  abbrev pub or_unpinned : Option IpfsPinStatus → IpfsPinStatus
  or_unpinned none = IpfsPinStatus.unpinned
  or_unpinned (some ips) = ips

  -- the loop of `SyncAll` over the pins
  unfoldable pub sync_each :
      ℕ
      → Dict IpfsPinStatus
      → List (PinInfo Cid)
      → MapPinTracker Cid
      → List (PinInfo Cid) × MapPinTracker Cid
  sync_each t ips_map [] mpt = ([], mpt)
  sync_each t ips_map (orig ∷ origs) mpt =
      let ips = or_unpinned (lookup (cid_string orig.cid) ips_map) in
      let (new, mpt1) = sync_status x t orig.cid ips mpt in
      let (infos, mpt') = sync_each t ips_map origs mpt1 in
      ((if is_reported orig.status new.status then new ∷ infos else infos), mpt')

  -- `SyncAll` after the daemon has answered, or could not be asked
  unfoldable pub sync_all_answer :
      Result (Dict IpfsPinStatus)
      → MapPinTracker Cid
      → W
      → (List (PinInfo Cid) × Option Error) × MapPinTracker Cid × W
  unfolding fail_all sync_each status_all
  sync_all_answer (err e) mpt w =
      let (infos, mpt') = fail_all (now w) e (keys mpt.status) mpt in ((infos, some e), mpt', w)
  sync_all_answer (ok ips_map) mpt w =
      let (infos, mpt') = sync_each (now w) ips_map (status_all mpt) mpt in ((infos, none), mpt', w)

  unfoldable pub sync_all :
      MapPinTracker Cid → W → (List (PinInfo Cid) × Option Error) × MapPinTracker Cid × W
  unfolding sync_all_answer
  sync_all mpt w = let (res, w') = ipfs_pin_ls "recursive" w in sync_all_answer res mpt w'

  -- `Recover`, by the status that it finds
  unfoldable pub recover_status :
      TrackerStatus → Cid → MapPinTracker Cid → W → Option Error × MapPinTracker Cid × W
  unfolding pin unpin
  recover_status pin_error c mpt w = pin (cid_arg_cid c) mpt w
  recover_status unpin_error c mpt w = unpin (cid_arg_cid c) mpt w
  recover_status _ c mpt w = (none, mpt, w)

  unfoldable pub recover :
      Cid → MapPinTracker Cid → W → (PinInfo Cid × Option Error) × MapPinTracker Cid × W
  unfolding recover_status
  recover c mpt w =
      let p = get x (now w) c mpt in
      let (e, mpt', w') = recover_status p.status c mpt w in ((get x (now w') c mpt', e), mpt', w')

  -- One round of `pinWorker` in which it takes the oldest request. Once the context is done the `select`
  -- may take either case: the worker makes some rounds more, or returns, after which there are none.
  unfoldable pub pin_next : List (CidArg Cid) → MapPinTracker Cid → W → MapPinTracker Cid × W
  unfolding pin
  pin_next [] mpt w = (mpt, w)
  pin_next (p ∷ rest) mpt w = let (e, m, v) = pin p (record mpt { pin_ch = rest }) w in (m, v)

  unfoldable pub pin_worker : MapPinTracker Cid → W → MapPinTracker Cid × W
  unfolding pin_next
  pin_worker mpt w = pin_next mpt.pin_ch mpt w

  -- one round of `unpinWorker`, likewise
  unfoldable pub unpin_next : List (CidArg Cid) → MapPinTracker Cid → W → MapPinTracker Cid × W
  unfolding unpin
  unpin_next [] mpt w = (mpt, w)
  unpin_next (p ∷ rest) mpt w = let (e, m, v) = unpin p (record mpt { unpin_ch = rest }) w in (m, v)

  unfoldable pub unpin_worker : MapPinTracker Cid → W → MapPinTracker Cid × W
  unfolding unpin_next
  unpin_worker mpt w = unpin_next mpt.unpin_ch mpt w
