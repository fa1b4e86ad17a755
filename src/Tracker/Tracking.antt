-- ===== src/Tracker/Tracking.antt =====
-- map_pin_tracker.go: `Track`, `Untrack` and `Recover`, on every branch.
use ipfs_cluster.Common.{
  ℕ, ◌≡◌, ◌≢◌, inl, inr, refl, ap, ◌∙◌, true, false, Option, none, some, List, [], ◌∷◌, ◌++◌, arith,
  ltb, length, if◌then◌else◌, Bool-cases,
}
use ipfs_cluster.Common.Result.{Error}
use ipfs_cluster.External.{Codecs}
use ipfs_cluster.Interfaces.{IpfsRpc}
use ipfs_cluster.Api.Status.{
  TrackerStatus, pin_error, unpin_error, pinned, pinning, unpinned, remote, same_status,
}
use ipfs_cluster.Api.Types.{CidArg, cid_arg_cid, cid_arg_to_serial}
use ipfs_cluster.Tracker.{
  MapPinTracker, pin_queue_size, error_status, set_status, get, set_error, is_remote,
}
use ipfs_cluster.Tracker.Workers
use ipfs_cluster.Tracker.Workers.{
  settle, pin, unpin, track, track_local, track_remote, untrack, recover, recover_status,
}
use ipfs_cluster.Tracker.Entries.{
  status_of, status-get, status-set_status, status-set_error, or_same,
}

module _ {Cid Addr W : Type 0} (x : Codecs Cid Addr) (r : IpfsRpc W) where
  open x use {cid_string}
  open r use {ipfs_pin, ipfs_unpin, now}

  pin_ch-set_status :
      (t : ℕ) (c : Cid) (s : TrackerStatus) (mpt : MapPinTracker Cid)
      → (set_status x t c s mpt).pin_ch ≡ mpt.pin_ch
  unfolding set_status
  pin_ch-set_status t c s mpt = ground arith

  pin_ch-set_error :
      (t : ℕ) (c : Cid) (e : Error) (mpt : MapPinTracker Cid)
      → (set_error x t c e mpt).pin_ch ≡ mpt.pin_ch
  unfolding set_error
  pin_ch-set_error t c e mpt = ground arith

  pub status-queues :
      (c : Cid) (mpt : MapPinTracker Cid) (q q' : List (CidArg Cid))
      → status_of x c (record mpt { pin_ch = q; unpin_ch = q' }) ≡ status_of x c mpt
  unfolding get
  status-queues c mpt q q' = refl

  -- `Track` of a pin that is allocated to other peers reports no error and ends in `remote`; it has
  -- asked the daemon, to unpin, exactly if the CID was pinned.
  pub track-remote :
      (c : CidArg Cid) (mpt : MapPinTracker Cid) (w : W)
      → is_remote mpt c ≡ true
      → let (e, mpt', w') = track x r c mpt w in
        (e ≡ none)
        × (status_of x c.cid mpt' ≡ remote)
        × (w' ≡ (
            if same_status (status_of x c.cid mpt) pinned
            then (ipfs_unpin (cid_arg_to_serial x c) w).1
            else w))
  unfolding track track_remote Workers.unpin
  track-remote c mpt w h =
      rw h
        (refl, status-set_status x _ c.cid _ remote, ground (arith, status-get x (now w) c.cid mpt))

  -- `Track` of a pin that is this peer's does not ask the daemon. It puts the pin at the end of the
  -- queue, in the state `pinning`; if the queue is full it leaves the queue, sets `pin_error` and
  -- returns an error.
  pub track-local :
      (c : CidArg Cid) (mpt : MapPinTracker Cid) (w : W)
      → is_remote mpt c ≡ false
      → let (e, mpt', w') = track x r c mpt w in
        let room = ltb (length mpt.pin_ch) pin_queue_size in
        (w' ≡ w)
        × (e ≡ (if room then none else some "map_pin_tracker pin queue is full"))
        × (status_of x c.cid mpt' ≡ (if room then pinning else pin_error))
        × (mpt'.pin_ch ≡ (if room then mpt.pin_ch ++ c ∷ [] else mpt.pin_ch))
  unfolding track track_local
  track-local c mpt w h =
      let t = now w in
      let mpt1 = set_status x t c.cid pinning mpt in
      let set = status-set_status x t c.cid mpt pinning in
      let failed = status-set_error x t c.cid mpt1 "pin queue is full" in
      elim (Bool-cases (ltb (length mpt.pin_ch) pin_queue_size)) [
        | inl room ↦ rw (h, room) (refl, refl, status-queues c.cid mpt1 _ _ ∙ set, refl)
        | inr full ↦
            rw (h, full)
              (
                refl,
                refl,
                failed ∙ ap (λ s. or_same (error_status s) s) set,
                pin_ch-set_error t c.cid _ mpt1 ∙ pin_ch-set_status t c.cid pinning mpt,
              )
      ]

  -- The status that a retried operation ends in.
  abbrev pub retried : TrackerStatus → TrackerStatus → Option Error → TrackerStatus
  retried done failed none = done
  retried done failed (some e) = failed

  settle-status :
      (c : Cid) (s : TrackerStatus) (e : Option Error) (w : W) (mpt : MapPinTracker Cid)
      → status_of x c (settle x r c s e w mpt)
        ≡ retried s (or_same (error_status (status_of x c mpt)) (status_of x c mpt)) e
  settle-status c s none w mpt = status-set_status x (now w) c mpt s
  settle-status c s (some e) w mpt = status-set_error x (now w) c mpt e

  -- `Recover` of a CID whose pinning failed asks the daemon to pin it. It ends in `pinned` if the
  -- daemon reports no error and in `pin_error` if it reports one, and it returns what the daemon
  -- reported.
  pub recover-pin_error :
      (c : Cid) (mpt : MapPinTracker Cid) (w : W)
      → status_of x c mpt ≡ pin_error
      → let ((info, e), mpt', w') = recover x r c mpt w in
        let (reported, after) = ipfs_pin (cid_arg_to_serial x (cid_arg_cid c)) w in
        (e ≡ reported) × (w' ≡ after) × (info.status ≡ retried pinned pin_error reported)
  unfolding recover recover_status Workers.pin cid_arg_cid
  recover-pin_error c mpt w h =
      rw (status-get x (now w) c mpt, h, recover_status)
        (
          refl,
          refl,
          status-get x _ c _
              ∙ (settle-status c pinned _ _ _
                  ∙ ap
                      (λ s.
                        retried pinned (or_same (error_status s) s)
                          (ipfs_pin (cid_arg_to_serial x (cid_arg_cid c)) w).0)
                      (status-set_status x (now w) c mpt pinning)),
        )

  -- `Recover` of a CID whose unpinning failed asks the daemon to unpin it. It ends in `unpinned` if
  -- the daemon reports no error and in `unpin_error` if it reports one, and it returns what the
  -- daemon reported.
  pub recover-unpin_error :
      (c : Cid) (mpt : MapPinTracker Cid) (w : W)
      → status_of x c mpt ≡ unpin_error
      → let ((info, e), mpt', w') = recover x r c mpt w in
        let (reported, after) = ipfs_unpin (cid_arg_to_serial x (cid_arg_cid c)) w in
        (e ≡ reported) × (w' ≡ after) × (info.status ≡ retried unpinned unpin_error reported)
  unfolding recover recover_status Workers.unpin cid_arg_cid
  recover-unpin_error c mpt w h =
      rw (status-get x (now w) c mpt, h, recover_status)
        (
          refl,
          refl,
          status-get x _ c _
              ∙ (settle-status c unpinned _ _ _
                  ∙ ap
                      (λ s.
                        retried unpinned (or_same (error_status s) s)
                          (ipfs_unpin (cid_arg_to_serial x (cid_arg_cid c)) w).0)
                      h),
        )

  -- `Recover` of a CID in no error state changes nothing, asks nothing and returns no error.
  pub recover_idle :
      (c : Cid) (mpt : MapPinTracker Cid) (w : W)
      → status_of x c mpt ≢ pin_error
      → status_of x c mpt ≢ unpin_error
      → recover x r c mpt w ≡ ((get x (now w) c mpt, none), mpt, w)
  unfolding recover recover_status
  recover_idle c mpt w h1 h2 = ground (arith, status-get x (now w) c mpt)
