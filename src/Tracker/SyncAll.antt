-- ===== src/Tracker/SyncAll.antt =====
-- map_pin_tracker.go: `SyncAll` against the daemon's answer.
use ipfs_cluster.Common.{
  ℕ, String, ◌≡◌, ◌≢◌, refl, subst, ◌∙◌, none, some, [], ◌∷◌, All, arith, ◌==◌, eq_iff, Bool-cases,
  inl, inr,
}
use ipfs_cluster.Common.Dict.{Dict, Distinct, lookup, values}
use ipfs_cluster.Common.Result.{ok}
use ipfs_cluster.External.{Codecs, PeerId}
use ipfs_cluster.Interfaces.{IpfsRpc}
use ipfs_cluster.Api.Status.{IpfsPinStatus, is_pinned}
use ipfs_cluster.Api.Types.{PinInfo}
use ipfs_cluster.Tracker.{MapPinTracker, get, sync_status}
use ipfs_cluster.Tracker.Workers.{or_unpinned, status_all, sync_each, sync_all_answer}
use ipfs_cluster.Tracker.Invariant.{IsValid, IsEntry, sync_status-IsValid}
use ipfs_cluster.Tracker.Sync.{Agrees, sync_status-Agrees, lookup-sync_status_ne}

module _ {Cid Addr W : Type 0} (x : Codecs Cid Addr) (r : IpfsRpc W) where
  open x use {cid_string}

  get-lookup :
      (t : ℕ) (c : Cid) (a b : MapPinTracker Cid)
      → lookup (cid_string c) a.status ≡ lookup (cid_string c) b.status
      → ((get x t c a).status ≡ (get x t c b).status) × ((get x t c a).ts ≡ (get x t c b).ts)
  unfolding get
  get-lookup t c a b h = (ground arith, ground arith)

  -- what the daemon reports of the CID
  abbrev pub reply_for : Dict IpfsPinStatus → String → IpfsPinStatus
  reply_for ips_map k = or_unpinned x r (lookup k ips_map)

  lookup-sync_each :
      (t : ℕ) (m : Dict IpfsPinStatus) (self : PeerId) (d : Dict (PinInfo Cid))
      (mpt : MapPinTracker Cid) (k : String)
      → All (IsEntry x self) d
      → lookup k d ≡ none
      → lookup k (sync_each x r t m (values d) mpt).1.status ≡ lookup k mpt.status
  unfolding sync_each lookup
  lookup-sync_each t m self [] mpt k h out = refl
  lookup-sync_each t m self ((j, p) ∷ d) mpt k h out =
      let own : cid_string p.cid ≡ j = h.0.0 in
      let other : cid_string p.cid ≢ k = λ e. ground (arith, eq_iff j k, own) in
      let ips = reply_for m (cid_string p.cid) in
      lookup-sync_each t m self d (sync_status x t p.cid ips mpt).1 k h.1
        (ground (arith, eq_iff j k))
      ∙ lookup-sync_status_ne x t p.cid ips mpt k other

  -- the status of the CID after the loop agrees with the daemon's
  abbrev AgreesAfter : ℕ → Dict IpfsPinStatus → Cid → MapPinTracker Cid → Type 0
  AgreesAfter t m c mpt =
      Agrees (is_pinned (reply_for m (cid_string c))) t (get x t c mpt).status (get x t c mpt).ts

  Agrees-lookup :
      (t : ℕ) (m : Dict IpfsPinStatus) (c : Cid) (a b : MapPinTracker Cid)
      → lookup (cid_string c) a.status ≡ lookup (cid_string c) b.status
      → AgreesAfter t m c b
      → AgreesAfter t m c a
  Agrees-lookup t m c a b h v = let (e1, e2) = get-lookup t c a b h in rw (e1, e2) v

  sync_one-Agrees :
      (t : ℕ) (m : Dict IpfsPinStatus) (c : Cid) (mpt : MapPinTracker Cid)
      → IsValid x mpt
      → AgreesAfter t m c (sync_status x t c (reply_for m (cid_string c)) mpt).1
  sync_one-Agrees t m c mpt v =
      let ips = reply_for m (cid_string c) in
      let (agrees, same) = sync_status-Agrees x t c ips mpt v in
      subst (λ i. Agrees (is_pinned ips) t i.status i.ts) same agrees

  sync_each-Agrees :
      (t : ℕ) (m : Dict IpfsPinStatus) (self : PeerId) (d : Dict (PinInfo Cid))
      (mpt : MapPinTracker Cid) (k : String) (p : PinInfo Cid)
      → IsValid x mpt
      → Distinct d
      → All (IsEntry x self) d
      → lookup k d ≡ some p
      → AgreesAfter t m p.cid (sync_each x r t m (values d) mpt).1
  unfolding sync_each
  sync_each-Agrees t m self [] mpt k p v ds h e = absurd (unfold lookup in cc)
  sync_each-Agrees t m self ((j, q) ∷ d) mpt k p v ds h e =
      let ips = reply_for m (cid_string q.cid) in
      let mpt1 = (sync_status x t q.cid ips mpt).1 in
      let after = (sync_each x r t m (values d) mpt1).1 in
      elim (Bool-cases (j == k)) [
        | inl here ↦
            let it : q ≡ p = unfold lookup in ground arith in
            let gone : lookup (cid_string q.cid) d ≡ none = rw h.0.0 ds.0 in
            let kept = lookup-sync_each t m self d mpt1 (cid_string q.cid) h.1 gone in
            subst (λ z. AgreesAfter t m z.cid after) it
              (Agrees-lookup t m q.cid after mpt1 kept (sync_one-Agrees t m q.cid mpt v))
        | inr there ↦
            sync_each-Agrees t m self d mpt1 k p (sync_status-IsValid x t q.cid ips mpt v) ds.1 h.1
              (unfold lookup in ground arith)
      ]

  -- When the daemon answers, `SyncAll` on a valid tracker leaves every CID that it held in a status
  -- that agrees with what the answer says of that CID.
  pub sync_all-Agrees :
      (ips_map : Dict IpfsPinStatus) (mpt : MapPinTracker Cid) (w : W) (k : String)
      (p : PinInfo Cid)
      → IsValid x mpt
      → lookup k mpt.status ≡ some p
      → let (reply, mpt', w') = sync_all_answer x r (ok ips_map) mpt w in
        let now = get x (r.now w) p.cid mpt' in
        Agrees (is_pinned (reply_for ips_map (cid_string p.cid))) (r.now w) now.status now.ts
  unfolding sync_all_answer status_all
  sync_all-Agrees ips_map mpt w k p v e =
      sync_each-Agrees (r.now w) ips_map mpt.peer_id mpt.status mpt k p v v.distinct v.entries e
