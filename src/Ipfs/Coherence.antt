-- ===== src/Ipfs/Coherence.antt =====
-- map_pin_tracker.go, rpc_api.go and ipfs_http_connector.go together: runs of the tracker over a
-- daemon.
use ipfs_cluster.Common.{
  Bool, ℕ, String, ◌≡◌, ◌∙◌, ◌==◌, refl, sym, true, false, Option, none, some, List, [], ◌∷◌, arith,
  inl, inr, Option-cases, if_rule,
}
use ipfs_cluster.Common.Dict.{Dict, lookup, keys}
use ipfs_cluster.Common.Result.{Error, Result, ok, err}
use ipfs_cluster.External.{Codecs, CidDecodes}
use ipfs_cluster.Api.Status.{
  TrackerStatus, pin_error, unpin_error, pinned, pinning, unpinned, remote, IpfsPinStatus,
  is_pinned,
}
use ipfs_cluster.Api.Types.{PinInfo, CidArg, cid_arg_cid, cid_arg_to_serial, to_cid_arg}
use ipfs_cluster.Tracker.{MapPinTracker, set_status}
use ipfs_cluster.Tracker.Workers
use ipfs_cluster.Tracker.Workers.{
  settle, fail_all, track_remote, track_local, sync_each, recover_status, pin_next, pin_worker,
  unpin_next, unpin_worker, or_unpinned,
}
use ipfs_cluster.Interfaces.{IpfsRpc}
use ipfs_cluster.Rpc.Local.{
  reply, ipfs_pin, ipfs_unpin, ipfs_pin_ls_cid, ipfs_pin_ls, connector_rpc,
}
use ipfs_cluster.Ipfs.{HttpOps, IpfsHttpConnector}
use ipfs_cluster.Ipfs.Requests
use ipfs_cluster.Ipfs.Daemon.{Serves, pin-holds, unpin-holds, pin_ls_cid-holds, pin_ls-holds}
use ipfs_cluster.Ipfs.Tracked.{
  Held, world-Held, set_status-Held, set_unpinned-Held, set_error-Held, set_error_of-Held,
  sync_status-Held,
}

module _ {Cid Addr W : Type 0} (x : Codecs Cid Addr) (h : HttpOps W) (ipfs : IpfsHttpConnector)
    (now : W → ℕ) (pins : W → String → Bool) (s : Serves x h ipfs pins) where
  open x use {cid_string}

  abbrev over : IpfsRpc W
  over = connector_rpc x h ipfs now

  -- The calls of the tracker reach a decodable CID as it is.
  over-pin :
      (c : CidArg Cid) (w : W)
      → CidDecodes x c.cid
      → over.ipfs_pin (cid_arg_to_serial x c) w ≡ Requests.pin x h ipfs c.cid w
  unfolding connector_rpc ipfs_pin to_cid_arg cid_arg_to_serial
  over-pin c w d = rw d refl

  over-unpin :
      (c : CidArg Cid) (w : W)
      → CidDecodes x c.cid
      → over.ipfs_unpin (cid_arg_to_serial x c) w ≡ Requests.unpin x h ipfs c.cid w
  unfolding connector_rpc ipfs_unpin to_cid_arg cid_arg_to_serial
  over-unpin c w d = rw d refl

  pub settle-Held :
      (c : Cid) (e : Option Error) (w : W) (mpt : MapPinTracker Cid)
      → (e ≡ none → pins w (cid_string c) ≡ true)
      → Held x pins mpt w
      → Held x pins (settle x over c pinned e w mpt) w
  settle-Held c none w mpt there v =
      set_status-Held x pins (over.now w) c pinned mpt w (λ q. there refl) v
  settle-Held c (some m) w mpt there v = set_error-Held x pins (over.now w) c m mpt w v

  settle_unpinned-Held :
      (c : Cid) (e : Option Error) (w w' : W) (mpt : MapPinTracker Cid)
      → ((k : String) → (cid_string c == k) ≡ false → pins w' k ≡ pins w k)
      → Held x pins mpt w
      → Held x pins (settle x over c unpinned e w' mpt) w'
  settle_unpinned-Held c none w w' mpt same v =
      set_unpinned-Held x pins (over.now w') c mpt w w' same v
  settle_unpinned-Held c (some m) w w' mpt same v =
      set_error_of-Held x pins (over.now w') c m mpt w w' same v

  pub pin-Held :
      (c : CidArg Cid) (mpt : MapPinTracker Cid) (w : W)
      → CidDecodes x c.cid
      → Held x pins mpt w
      → let (e, m, v) = Workers.pin x over c mpt w in Held x pins m v
  unfolding Workers.pin connector_rpc Requests.pin
  pin-Held c mpt w d v =
      let (done, kept, others) = pin-holds x h ipfs pins s c.cid w in
      let (e, w') = Requests.pin x h ipfs c.cid w in
      let mpt1 = set_status x (over.now w) c.cid pinning mpt in
      rw (over-pin c w d) (
        settle-Held c.cid e w' mpt1 done (
          world-Held x pins mpt1 w w' kept
            (set_status-Held x pins (over.now w) c.cid pinning mpt w (λ q. absurd (cc q)) v)))

  pub unpin-Held :
      (c : CidArg Cid) (mpt : MapPinTracker Cid) (w : W)
      → CidDecodes x c.cid
      → Held x pins mpt w
      → let (e, m, v) = Workers.unpin x over c mpt w in Held x pins m v
  unfolding Workers.unpin connector_rpc Requests.unpin
  unpin-Held c mpt w d v =
      let (e, w') = Requests.unpin x h ipfs c.cid w in
      rw (over-unpin c w d)
        (settle_unpinned-Held c.cid e w w' mpt (unpin-holds x h ipfs pins s c.cid w).1 v)

  pub track_remote-Held :
      (c : CidArg Cid) (mpt : MapPinTracker Cid) (w : W)
      → CidDecodes x c.cid
      → Held x pins mpt w
      → let (m, v) = track_remote x over c mpt w in Held x pins m v
  unfolding track_remote
  track_remote-Held c mpt w d v =
      set_status-Held x pins _ c.cid remote _ _ (λ q. absurd (cc q))
        (if_rule {A = MapPinTracker Cid × W} (λ t. Held x pins t.0 t.1) _ _ _
          (unpin-Held c mpt w d v) v)

  over-pin_ls_cid :
      (c : Cid) (w : W)
      → CidDecodes x c
      → over.ipfs_pin_ls_cid (cid_arg_to_serial x (cid_arg_cid c)) w
        ≡ (reply (Requests.pin_ls_cid x h ipfs c w).0, (Requests.pin_ls_cid x h ipfs c w).1)
  unfolding connector_rpc ipfs_pin_ls_cid to_cid_arg cid_arg_to_serial cid_arg_cid
  over-pin_ls_cid c w d = rw d refl

  sync_reply-Held :
      (c : Cid) (ips : IpfsPinStatus) (e : Option Error) (mpt : MapPinTracker Cid) (w : W)
      → (is_pinned ips ≡ true → pins w (cid_string c) ≡ true)
      → Held x pins mpt w
      → let (a, m, v) = Workers.sync_answer x over c (reply (ips, e)) mpt w in Held x pins m v
  unfolding Workers.sync_answer
  sync_reply-Held c ips none mpt w right v =
      sync_status-Held x pins (over.now w) c ips mpt w right v
  sync_reply-Held c ips (some m) mpt w right v = set_error-Held x pins (over.now w) c m mpt w v

  pub sync-Held :
      (c : Cid) (mpt : MapPinTracker Cid) (w : W)
      → CidDecodes x c
      → Held x pins mpt w
      → let (e, m, v) = Workers.sync x over c mpt w in Held x pins m v
  unfolding Workers.sync
  sync-Held c mpt w d v =
      let (right, same) = pin_ls_cid-holds x h ipfs pins s c w in
      let ((ips, e), w') = Requests.pin_ls_cid x h ipfs c w in
      rw (over-pin_ls_cid c w d) (
        sync_reply-Held c ips e mpt w' (λ q. same (cid_string c) ∙ right q)
          (world-Held x pins mpt w w' (λ k q. same k ∙ q) v))

  sync_each-Held :
      (t : ℕ) (m : Dict IpfsPinStatus) (origs : List (PinInfo Cid)) (mpt : MapPinTracker Cid)
      (w : W)
      → ((k : String) → is_pinned (or_unpinned x over (lookup k m)) ≡ true → pins w k ≡ true)
      → Held x pins mpt w
      → Held x pins (sync_each x over t m origs mpt).1 w
  unfolding sync_each
  sync_each-Held t m [] mpt w right v = v
  sync_each-Held t m (orig ∷ origs) mpt w right v =
      sync_each-Held t m origs _ w right
        (sync_status-Held x pins t orig.cid _ mpt w (right (cid_string orig.cid)) v)

  listed_rule :
      (m : Dict IpfsPinStatus) (w : W) (k : String)
      → ((ips : IpfsPinStatus) → lookup k m ≡ some ips → is_pinned ips ≡ pins w k)
      → is_pinned (or_unpinned x over (lookup k m)) ≡ true
      → pins w k ≡ true
  listed_rule m w k right q = elim (Option-cases (lookup k m)) [
    | inl missing ↦ absurd (ground (arith, missing, q))
    | inr (ips, there) ↦ ground (arith, right ips there, there, q)
  ]

  fail_all-Held :
      (t : ℕ) (e : Error) (ks : List String) (mpt : MapPinTracker Cid) (w : W)
      → Held x pins mpt w
      → Held x pins (fail_all x over t e ks mpt).1 w
  unfolding fail_all
  fail_all-Held t e [] mpt w v = v
  fail_all-Held t e (k ∷ ks) mpt w v =
      fail_all-Held t e ks _ w (set_error-Held x pins t _ e mpt w v)

  sync_all_answer-Held :
      (res : Result (Dict IpfsPinStatus)) (mpt : MapPinTracker Cid) (w : W)
      → ((m : Dict IpfsPinStatus)
          → res ≡ ok m
          → (k : String) (ips : IpfsPinStatus) → lookup k m ≡ some ips
          → is_pinned ips ≡ pins w k)
      → Held x pins mpt w
      → let (e, m, v) = Workers.sync_all_answer x over res mpt w in Held x pins m v
  unfolding Workers.sync_all_answer connector_rpc
  sync_all_answer-Held (err e) mpt w right v = fail_all-Held (now w) e (keys mpt.status) mpt w v
  sync_all_answer-Held (ok m) mpt w right v =
      sync_each-Held (now w) m (Workers.status_all mpt) mpt w
        (λ k. listed_rule m w k (right m refl k)) v

  pub sync_all-Held :
      (mpt : MapPinTracker Cid) (w : W)
      → Held x pins mpt w
      → let (e, m, v) = Workers.sync_all x over mpt w in Held x pins m v
  unfolding Workers.sync_all connector_rpc ipfs_pin_ls
  sync_all-Held mpt w v =
      let (right, same) = pin_ls-holds x h ipfs pins s w in
      let (res, w') = Requests.pin_ls x h ipfs "recursive" w in
      sync_all_answer-Held res mpt w' (λ m e k ips there. right m e k ips there ∙ sym (same k))
        (world-Held x pins mpt w w' (λ k q. same k ∙ q) v)

  pub recover_status-Held :
      (t : TrackerStatus) (c : Cid) (mpt : MapPinTracker Cid) (w : W)
      → CidDecodes x c
      → Held x pins mpt w
      → let (e, m, v) = recover_status x over t c mpt w in Held x pins m v
  unfolding recover_status cid_arg_cid
  recover_status-Held pin_error c mpt w d v = pin-Held (cid_arg_cid c) mpt w d v
  recover_status-Held unpin_error c mpt w d v = unpin-Held (cid_arg_cid c) mpt w d v
  recover_status-Held _ c mpt w d v = v
