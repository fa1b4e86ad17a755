-- ===== src/Tests/Pins.antt =====
-- The tracker and the pin types on concrete inputs.
use ipfs_cluster.Common.{ℕ, String, ◌≡◌, ◌≢◌, refl, true, All, List, [], ◌∷◌}
use ipfs_cluster.Common.Dict.{lookup, insert, delete}
use ipfs_cluster.Api.Status.{
  TrackerStatus, pin_error, unpin_error, pinned, unpinning, remote, IpfsPinStatus, is_pinned,
}
use ipfs_cluster.Api.Types.{PinInfo, CidArg, cid_arg_to_serial}
use ipfs_cluster.Tracker.{
  MapPinTracker, is_remote, contains, set_status, get, set_error, sync_status, new_map_pin_tracker,
}
use ipfs_cluster.Tracker.Workers
use ipfs_cluster.Tracker.Workers.{
  sync_all_answer, pin_worker, pin_next, recover, track, track_local,
}
use ipfs_cluster.Tracker.Invariant.{IsValid, new-IsValid}
use ipfs_cluster.Tracker.Runs.{Call, run, run-IsValid}
use ipfs_cluster.Tracker.Entries.{status_of}
use ipfs_cluster.Tracker.Sync.{Agrees, sync_status-Agrees}
use ipfs_cluster.Tracker.SyncAll.{reply_for, sync_all-Agrees}
use ipfs_cluster.Common.Result.{ok}
use ipfs_cluster.Tracker.Draining.{pin_rounds, Settled, run_drains}
use ipfs_cluster.Tests.World.{codecs, daemon, arg_for}

program : Unit {0}
unfolding run pin_worker pin_next Workers.pin track track_local Workers.track_remote is_remote
    contains set_status set_error get lookup insert delete new_map_pin_tracker cid_arg_to_serial
program = tt

abbrev calls : List (Call String)
calls =
    Call.track (arg_for "x" ("A" ∷ []))
    ∷ Call.track (arg_for "bad" ("A" ∷ []))
    ∷ Call.track (arg_for "y" ("B" ∷ []))
    ∷ Call.pin_round
    ∷ Call.pin_round
    ∷ []

abbrev start : MapPinTracker String × ℕ
start = (new_map_pin_tracker "A", 0)

abbrev after : MapPinTracker String × ℕ
after = run codecs daemon calls start

-- "x" is pinned, "bad" could not be, and "y" is another peer's
statuses :
    (status_of codecs "x" after.0 ≡ pinned)
    × (status_of codecs "bad" after.0 ≡ pin_error)
    × (status_of codecs "y" after.0 ≡ remote)
unfolding program
statuses = (refl, refl, refl)

run-IsValid_example : IsValid codecs after.0
run-IsValid_example = run-IsValid codecs daemon calls start (new-IsValid codecs "A")

sync_status-Agrees_example :
    let (info, mpt') = sync_status codecs 9 "bad" IpfsPinStatus.recursive after.0 in
    Agrees true 9 info.status info.ts × (info ≡ get codecs 9 "bad" mpt')
sync_status-Agrees_example =
    sync_status-Agrees codecs 9 "bad" IpfsPinStatus.recursive after.0
      (run-IsValid codecs daemon calls start (new-IsValid codecs "A"))

abbrev failed_pin : PinInfo String
failed_pin = record { cid = "bad"; peer = "A"; status = pin_error; ts = 2; error = "cannot pin" }

-- the daemon has "bad" pinned after all
sync_all-Agrees_example :
    let (reply, mpt', w') =
      sync_all_answer codecs daemon (ok (("bad", IpfsPinStatus.direct) ∷ [])) after.0 7 in
    let now = get codecs 7 "bad" mpt' in
    Agrees
      (is_pinned (reply_for codecs daemon (("bad", IpfsPinStatus.direct) ∷ []) "bad"))
      7
      now.status
      now.ts
unfolding program
sync_all-Agrees_example =
    sync_all-Agrees codecs daemon (("bad", IpfsPinStatus.direct) ∷ []) after.0 7 "bad" failed_pin
      (run-IsValid codecs daemon calls start (new-IsValid codecs "A")) refl

abbrev stuck : MapPinTracker String
stuck = record start.0 {
  status =
      ("x", record { cid = "x"; peer = "A"; status = unpin_error; ts = 3; error = "late" }) ∷ [];
}

abbrev waiting : List (CidArg String)
waiting = arg_for "x" ("A" ∷ []) ∷ arg_for "bad" ("A" ∷ []) ∷ []

abbrev queued : MapPinTracker String
queued = record start.0 { pin_ch = waiting }

run_drains_example :
    ((run codecs daemon (pin_rounds 2) (queued, 0)).0.pin_ch ≡ [])
    × All
        (λ c. Settled codecs daemon c.cid (run codecs daemon (pin_rounds 2) (queued, 0)).0)
        waiting
unfolding new_map_pin_tracker
run_drains_example = run_drains codecs daemon waiting queued 0 refl refl

not_pin_error : {s : TrackerStatus} → s ≡ remote → s ≢ pin_error
not_pin_error h e = cc

not_unpin_error : {s : TrackerStatus} → s ≡ remote → s ≢ unpin_error
not_unpin_error h e = cc

abbrev info : PinInfo String
info = record { cid = "x"; peer = "A"; status = unpinning; ts = 5; error = "" }
