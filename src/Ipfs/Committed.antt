-- ===== src/Ipfs/Committed.antt =====
-- log_op.go, rpc_api.go, map_pin_tracker.go and ipfs_http_connector.go together: the way of a committed pin.
use ipfs_cluster.Common.{
  Bool, ℕ, String, ◌≡◌, refl, sym, subst, ◌∙◌, true, false, none, some, List, [], ◌∷◌, ◌++◌, All,
  length, ltb, eq_refl,
}
use ipfs_cluster.External.{Codecs, CidDecodes, PeerDecodes}
use ipfs_cluster.Interfaces.{IpfsRpc}
use ipfs_cluster.Api.Types.{CidArg, CidArgSerial, cid_arg_to_serial}
use ipfs_cluster.Api.RoundTrip.{to_cid_arg-cid_arg_to_serial}
use ipfs_cluster.State.{MapState, map_state_ops, get}
use ipfs_cluster.LogOp.{LogOpType, applied, track, apply_to}
use ipfs_cluster.Consensus.{op_cid}
use ipfs_cluster.Consensus.Commit.{get-apply-op_cid}
use ipfs_cluster.Tracker.{MapPinTracker, set_status, is_remote, pin_queue_size}
use ipfs_cluster.Tracker.Workers
use ipfs_cluster.Tracker.Runs.{Call, run}
use ipfs_cluster.Tracker.Draining.{pin_rounds}
use ipfs_cluster.Rpc.Local.{connector_rpc}
use ipfs_cluster.Rpc.Trackers
use ipfs_cluster.Ipfs.{HttpOps, IpfsHttpConnector}
use ipfs_cluster.Ipfs.Daemon.{Serves}
use ipfs_cluster.Ipfs.CoherentRuns.{Coherent, run-Coherent}
use ipfs_cluster.Ipfs.Drained.{IsSettled, run-IsSettled}

module _ {Cid Addr W : Type 0} (x : Codecs Cid Addr) (h : HttpOps W) (ipfs : IpfsHttpConnector)
    (now : W → ℕ) (pins : W → String → Bool) (s : Serves x h ipfs pins) where
  abbrev over : IpfsRpc W
  over = connector_rpc x h ipfs now

  -- the request of a committed pin puts it at the end of the queue
  track-queued :
      (carg : CidArg Cid) (mpt : MapPinTracker Cid) (w : W)
      → CidDecodes x carg.cid
      → All (PeerDecodes x) carg.allocations
      → is_remote mpt carg ≡ false
      → ltb (length mpt.pin_ch) pin_queue_size ≡ true
      → let (e, mpt', w') = Trackers.track x over (cid_arg_to_serial x carg) mpt w in
        (e ≡ none) × (mpt'.pin_ch ≡ mpt.pin_ch ++ carg ∷ []) × (mpt'.cancelled ≡ mpt.cancelled)
  unfolding Trackers.track Workers.track Workers.track_local set_status
  track-queued carg mpt w decodes peers own room =
      rw (to_cid_arg-cid_arg_to_serial x carg decodes peers, own, room) (refl, refl, refl)

  -- the tracker and the daemon still agree once the request of a committed pin is served
  track-Coherent :
      (carg : CidArg Cid) (mpt : MapPinTracker Cid) (w : W)
      → CidDecodes x carg.cid
      → All (PeerDecodes x) carg.allocations
      → Coherent x h ipfs now pins s (mpt, w)
      → let (e, m, v) = Trackers.track x over (cid_arg_to_serial x carg) mpt w in
        Coherent x h ipfs now pins s (m, v)
  unfolding Trackers.track run
  track-Coherent carg mpt w decodes peers v =
      let P : CidArg Cid → Type 0 =
        λ c. let (e, m, v) = Workers.track x over c mpt w in Coherent x h ipfs now pins s (m, v) in
      subst P (sym (to_cid_arg-cid_arg_to_serial x carg decodes peers))
        (run-Coherent x h ipfs now pins s (Call.track carg ∷ []) (mpt, w) (decodes, tt) v)

  last_of_All :
      (P : CidArg Cid → Type 0) (q : List (CidArg Cid)) (c : CidArg Cid) → All P (q ++ c ∷ []) → P c
  last_of_All P [] c all = all.0
  last_of_All P (a ∷ q) c all = last_of_All P q c all.1

  -- The operation that `LogPin` commits, for a pin whose CID and peer IDs decode, stores the pin in the
  -- shared state and sends a request to the tracker. The `Track` of the RPC API with that request
  -- reports no error, and as many rounds of the pin worker as there then are requests in its queue
  -- leave the CID `pinned` in the tracker and pinned by the daemon, or with the status `pin_error`. The
  -- pin is of this peer, the queue has room, the tracker is not shut down and coherent with the daemon, and
  -- the daemon serves its pins as its HTTP API documents.
  pub apply_to-IsSettled :
      (carg : CidArg Cid) (st : MapState) (mpt : MapPinTracker Cid) (w : W)
      → CidDecodes x carg.cid
      → All (PeerDecodes x) carg.allocations
      → is_remote mpt carg ≡ false
      → ltb (length mpt.pin_ch) pin_queue_size ≡ true
      → mpt.cancelled ≡ false
      → Coherent x h ipfs now pins s (mpt, w)
      → (st' : MapState) × (req : CidArgSerial) × (apply_to x
            (map_state_ops x)
            (op_cid x carg LogOpType.pin)
            st
          ≡ applied st' (some (track req)))
        × (get x st' carg.cid ≡ carg)
        × (let r = connector_rpc x h ipfs now in
            let (e, mpt', w') = Trackers.track x r req mpt w in
            (e ≡ none)
            × IsSettled x h ipfs now pins s carg.cid
                (run x r (pin_rounds (length mpt'.pin_ch)) (mpt', w')))
  apply_to-IsSettled carg st mpt w decodes peers own room up v =
      let (st', applies, stored) = get-apply-op_cid x carg st carg.cid decodes peers in
      let req = cid_arg_to_serial x carg in
      let (e, mpt', w') = Trackers.track x over req mpt w in
      let (fine, queue, going) = track-queued carg mpt w decodes peers own room in
      let all =
        run-IsSettled x h ipfs now pins s mpt' w' (going ∙ up)
          (track-Coherent carg mpt w decodes peers v) in
      let P : CidArg Cid → Type 0 = λ c.
        IsSettled x h ipfs now pins s c.cid
          (run x over (pin_rounds (length mpt'.pin_ch)) (mpt', w')) in
      (
        st',
        req,
        applies,
        stored ∙ simp (eq_refl),
        (fine, last_of_All P mpt.pin_ch carg (subst (All P) queue all)),
      )
