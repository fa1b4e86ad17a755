-- ===== src/Ipfs/CoherentRuns.antt =====
-- map_pin_tracker.go, rpc_api.go and ipfs_http_connector.go together: runs of method calls and
-- worker rounds over a daemon.
use ipfs_cluster.Common.{Bool, ℕ, String, refl, Option, List, [], ◌∷◌, All, if_rule}
use ipfs_cluster.External.{Codecs, CidDecodes}
use ipfs_cluster.Api.Status.{pinning, unpinning}
use ipfs_cluster.Api.Types.{CidArg, cid_arg_cid}
use ipfs_cluster.Interfaces.{IpfsRpc}
use ipfs_cluster.Rpc.Local.{connector_rpc}
use ipfs_cluster.Tracker.{MapPinTracker, pin_queue_size, set_status, get, set_error}
use ipfs_cluster.Tracker
use ipfs_cluster.Tracker.Workers
use ipfs_cluster.Tracker.Workers.{track_local, pin_next, pin_worker, unpin_next, unpin_worker}
use ipfs_cluster.Tracker.Runs.{Call, step, run}
use ipfs_cluster.Tracker.Queues.{Puts, step-AllQueued}
use ipfs_cluster.Ipfs.{HttpOps, IpfsHttpConnector}
use ipfs_cluster.Ipfs.Daemon.{Serves}
use ipfs_cluster.Ipfs.Tracked.{Held, set_status-Held, set_error-Held}
use ipfs_cluster.Ipfs.Coherence.{
  pin-Held, unpin-Held, track_remote-Held, sync-Held, sync_all-Held, recover_status-Held,
}

module _ {Cid Addr W : Type 0} (x : Codecs Cid Addr) (h : HttpOps W) (ipfs : IpfsHttpConnector)
    (now : W → ℕ) (pins : W → String → Bool) (s : Serves x h ipfs pins) where
  abbrev over : IpfsRpc W
  over = connector_rpc x h ipfs now

  abbrev pub Decodable : CidArg Cid → Type 0
  Decodable c = CidDecodes x c.cid

  -- The CIDs of the call decode.
  abbrev pub CallDecodes : Call Cid → Type 0
  CallDecodes (Call.track c) = CidDecodes x c.cid
  CallDecodes (Call.untrack c) = CidDecodes x c
  CallDecodes (Call.sync c) = CidDecodes x c
  CallDecodes (Call.recover c) = CidDecodes x c
  CallDecodes _ = Unit

  puts :
      (mpt : MapPinTracker Cid) (call : Call Cid)
      → CallDecodes call
      → Puts mpt.peer_id Decodable Decodable mpt call
  unfolding cid_arg_cid
  puts mpt (Call.track c) d = λ own. d
  puts mpt (Call.untrack c) d = d
  puts mpt (Call.sync c) d = tt
  puts mpt (Call.recover c) d = tt
  puts mpt Call.sync_all d = tt
  puts mpt Call.pin_round d = tt
  puts mpt Call.unpin_round d = tt
  puts mpt Call.shutdown d = tt

  -- Every entry `pinned` is held by the daemon, and the CIDs in the queues decode.
  pub record Coherent (t : MapPinTracker Cid × W) : Type 0 where
    pub held : Held x pins t.0 t.1
    pub queued : All Decodable t.0.pin_ch × All Decodable t.0.unpin_ch

  track_local-Held :
      (t : ℕ) (c : CidArg Cid) (mpt : MapPinTracker Cid) (w : W)
      → Held x pins mpt w
      → Held x pins (track_local x over t c mpt).1 w
  unfolding track_local
  track_local-Held t c mpt w v =
      let v1 = set_status-Held x pins t c.cid pinning mpt w (λ q. absurd (cc q)) v in
      if_rule {A = Option String × MapPinTracker Cid} (λ m. Held x pins m.1 w) _ _ _ v1
        (set_error-Held x pins t c.cid _ _ w v1)

  untrack-Held :
      (c : Cid) (mpt : MapPinTracker Cid) (w : W)
      → Held x pins mpt w
      → let (e, m, v) = Workers.untrack x over c mpt w in Held x pins m v
  unfolding Workers.untrack
  untrack-Held c mpt w v =
      let v1 = set_status-Held x pins _ c unpinning mpt w (λ q. absurd (cc q)) v in
      if_rule {A = Option String × MapPinTracker Cid × W} (λ m. Held x pins m.1 m.2) _ _ _ v1
        (set_error-Held x pins _ c _ _ w v1)

  track-Held :
      (c : CidArg Cid) (mpt : MapPinTracker Cid) (w : W)
      → CidDecodes x c.cid
      → Held x pins mpt w
      → let (e, m, v) = Workers.track x over c mpt w in Held x pins m v
  unfolding Workers.track
  track-Held c mpt w d v =
      if_rule {A = Option String × MapPinTracker Cid × W} (λ m. Held x pins m.1 m.2) _ _ _
        (track_remote-Held x h ipfs now pins s c mpt w d v) (track_local-Held _ c mpt w v)

  pin_next-Held :
      (q : List (CidArg Cid)) (mpt : MapPinTracker Cid) (w : W)
      → All Decodable q
      → Held x pins mpt w
      → let (m, v) = pin_next x over q mpt w in Held x pins m v
  unfolding pin_next
  pin_next-Held [] mpt w d v = v
  pin_next-Held (p ∷ rest) mpt w d v =
      pin-Held x h ipfs now pins s p (record mpt { pin_ch = rest }) w d.0 v

  unpin_next-Held :
      (q : List (CidArg Cid)) (mpt : MapPinTracker Cid) (w : W)
      → All Decodable q
      → Held x pins mpt w
      → let (m, v) = unpin_next x over q mpt w in Held x pins m v
  unfolding unpin_next
  unpin_next-Held [] mpt w d v = v
  unpin_next-Held (p ∷ rest) mpt w d v =
      unpin-Held x h ipfs now pins s p (record mpt { unpin_ch = rest }) w d.0 v

  step-Held :
      (call : Call Cid) (t : MapPinTracker Cid × W)
      → CallDecodes call
      → Coherent t
      → let (m, v) = step x over call t in Held x pins m v
  unfolding Workers.recover pin_worker unpin_worker Tracker.shutdown
  step-Held (Call.track c) (mpt, w) d v = track-Held c mpt w d v.held
  step-Held (Call.untrack c) (mpt, w) d v = untrack-Held c mpt w v.held
  step-Held (Call.sync c) (mpt, w) d v = sync-Held x h ipfs now pins s c mpt w d v.held
  step-Held (Call.recover c) (mpt, w) d v =
      recover_status-Held x h ipfs now pins s _ c mpt w d v.held
  step-Held Call.sync_all (mpt, w) d v = sync_all-Held x h ipfs now pins s mpt w v.held
  step-Held Call.pin_round (mpt, w) d v = pin_next-Held mpt.pin_ch mpt w v.queued.0 v.held
  step-Held Call.unpin_round (mpt, w) d v = unpin_next-Held mpt.unpin_ch mpt w v.queued.1 v.held
  step-Held Call.shutdown (mpt, w) d v = if_rule (λ m. Held x pins m w) _ _ _ v.held v.held

  -- Over a daemon that serves its pins as its HTTP API documents, requests to which may fail, and under
  -- calls whose CIDs decode: if every entry that says `pinned` is of a CID that the daemon has pinned,
  -- and the CIDs in the queues decode, then both still hold after any sequence of method calls and worker
  -- rounds, each of which ends before the next begins. (The two workers run at once: a round of the
  -- unpin worker between the answer to a round of the pin worker on the same CID and its write of the
  -- status is no such sequence.)
  pub run-Coherent :
      (calls : List (Call Cid)) (t : MapPinTracker Cid × W)
      → All CallDecodes calls
      → Coherent t
      → Coherent (run x (connector_rpc x h ipfs now) calls t)
  unfolding run
  run-Coherent [] t d v = v
  run-Coherent (call ∷ calls) t d v =
      let self = t.0.peer_id in
      let (p, u, i) =
        step-AllQueued x over self Decodable Decodable call t (puts t.0 call d.0)
          (v.queued.0, v.queued.1, refl) in
      run-Coherent calls _ d.1 (record { held = step-Held call t d.0 v; queued = (p, u) })
