-- ===== src/Replica/Safety.antt =====
-- log_op.go, cluster.go, map_pin_tracker.go and ipfs_http_connector.go together: what a peer pins, it was
-- asked to pin.
use ipfs_cluster.Common.{
  at_end, All-snoc-split, All-middle, All-append, ℕ, String, ◌≡◌, ◌⊎◌, refl, subst, Bool, true,
  false, ◌||◌, Option, List, [], ◌∷◌, ◌++◌, All, arith, inl, All-mono,
}
use ipfs_cluster.External.{Codecs, PeerId}
use ipfs_cluster.Interfaces.{IpfsRpc}
use ipfs_cluster.Api.Types.{CidArg}
use ipfs_cluster.LogOp.{LogOp, Request, applied, apply_to}
use ipfs_cluster.State.{MapState, map_state_ops}
use ipfs_cluster.Common.Dict.{lookup}
use ipfs_cluster.Tracker.{MapPinTracker, contains, is_remote, new_map_pin_tracker}
use ipfs_cluster.Tracker.Runs.{Call}
use ipfs_cluster.Tracker.Owned.{Restrained, Allowed, OwnedAll, step-OwnedAll}
use ipfs_cluster.Cluster.StateSync.{spawned}
use ipfs_cluster.Rpc.Local.{connector_rpc}
use ipfs_cluster.Ipfs.{HttpOps, IpfsHttpConnector}
use ipfs_cluster.Ipfs.Daemon.{Serves}
use ipfs_cluster.Ipfs.Restraint.{connector_rpc-Restrained}
use ipfs_cluster.Replica.{
  Replica, started, run_call, IsOwnCall, Reach, applies, syncs, runs, acts, here, next, new_replica,
}
use ipfs_cluster.Replica.Started.{
  IsAllocated, Asked, IsWellFormed, Stored, Fine, Started, Fine-snoc, Started-snoc, Stored-snoc,
  Leaves, apply_type-Leaves, spawned-Started,
}

own_pin :
    {Cid Addr : Type 0} (x : Codecs Cid Addr) (self : PeerId) (mpt : MapPinTracker Cid)
    (c : CidArg Cid)
    → mpt.peer_id ≡ self
    → is_remote mpt c ≡ false
    → IsAllocated x self c
unfolding is_remote
own_pin x self mpt c e own =
    subst (λ p. (c.everywhere || contains p c.allocations) ≡ true) e (ground (arith, own))

module _ {Cid Addr W : Type 0} (x : Codecs Cid Addr) (r : IpfsRpc W) (pins : W → String → Bool)
    (o : Restrained x r pins) (self : PeerId) (B : String → Type 0) where
  abbrev Held : List LogOp → MapPinTracker Cid × W → Type 0
  Held log = OwnedAll x r pins o self (Fine x self B log)

  -- The invariant of a peer.
  record Safe (t : Replica Cid W) : Type 0 where
    owned : Held t.log (t.tracker, t.world)
    pending : All (Started x self B t.log) t.pending
    stored : All (Stored x self t.log) t.state.pin_map

  allowed :
      (log : List LogOp) (mpt : MapPinTracker Cid) (call : Call Cid)
      → mpt.peer_id ≡ self
      → Started x self B log call
      → Allowed x r pins o self (Fine x self B log) mpt call
  allowed log mpt (Call.track c) e h = λ own. h (own_pin x self mpt c e own)
  allowed log mpt (Call.recover c) e h = h
  allowed log mpt (Call.untrack c) e h = tt
  allowed log mpt (Call.sync c) e h = tt
  allowed log mpt Call.sync_all e h = tt
  allowed log mpt Call.pin_round e h = tt
  allowed log mpt Call.unpin_round e h = tt
  allowed log mpt Call.shutdown e h = tt

  own-Started :
      (log : List LogOp) (call : Call Cid) → IsOwnCall x r call → Started x self B log call
  own-Started log (Call.track c) h = absurd h
  own-Started log (Call.recover c) h = h
  own-Started log (Call.untrack c) h = tt
  own-Started log (Call.sync c) h = tt
  own-Started log Call.sync_all h = tt
  own-Started log Call.pin_round h = tt
  own-Started log Call.unpin_round h = tt
  own-Started log Call.shutdown h = tt

  Held-snoc :
      (log : List LogOp) (op : LogOp) (s : MapPinTracker Cid × W)
      → Held log s
      → Held (log ++ op ∷ []) s
  Held-snoc log op s h = record {
    wanted = λ k p e w. Fine-snoc x self B log op k (h.wanted k p e w);
    held = λ k e. Fine-snoc x self B log op k (h.held k e);
    queued = (
      All-mono (λ c g. (g.0, Fine-snoc x self B log op _ g.1)) s.0.pin_ch h.queued.0,
      h.queued.1,
      h.queued.2,
    );
  }

  run_call-Safe :
      (call : Call Cid) (rest : List (Call Cid)) (t : Replica Cid W)
      → Safe t
      → Started x self B t.log call
      → All (Started x self B t.log) rest
      → Safe (run_call x r call rest t)
  run_call-Safe call rest t h c all = record {
    owned =
        step-OwnedAll x r pins o self (Fine x self B t.log) call (t.tracker, t.world)
          (allowed t.log t.tracker call h.owned.queued.2 c) h.owned;
    pending = all;
    stored = h.stored;
  }

  applies-Safe :
      (t : Replica Cid W) (op : LogOp) (st : MapState) (req : Option Request)
      → IsWellFormed x op
      → Safe t
      → apply_to x (map_state_ops x) op t.state ≡ applied st req
      → Safe (record t { state = st; pending = t.pending ++ started x req; log = t.log ++ op ∷ [] })
  unfolding apply_to Leaves
  applies-Safe t op st req wf h done =
      let log = t.log ++ op ∷ [] in
      let kept = All-mono (Stored-snoc x self B t.log op) t.state.pin_map h.stored in
      let left : Leaves x self B log (apply_to x (map_state_ops x) op t.state) =
        apply_type-Leaves x self B op.type log op t.state refl (at_end op t.log) wf kept in
      let (stored, new) : Leaves x self B log (applied st req) =
        subst (Leaves x self B log) done left in
      record {
        owned = Held-snoc t.log op (t.tracker, t.world) h.owned;
        pending =
            All-append (Started x self B log) t.pending (started x req)
              (All-mono (Started-snoc x self B t.log op) t.pending h.pending) new;
        stored = stored;
      }

  syncs-Safe :
      (t : Replica Cid W)
      → Safe t
      → Safe (record t {
        pending = t.pending ++ spawned x (map_state_ops x) (r.now t.world) t.state t.tracker;
      })
  syncs-Safe t h = record {
    owned = h.owned;
    pending =
        All-append (Started x self B t.log) t.pending _ h.pending
          (spawned-Started x self B t.log (r.now t.world) t.state t.tracker h.stored);
    stored = h.stored;
  }

  Reach-Safe : {s t : Replica Cid W} → Safe s → Reach x r s t → All (IsWellFormed x) t.log → Safe t
  Reach-Safe h here wf = h
  Reach-Safe h (next before (applies t op st req done)) wf =
      let (first, last) = All-snoc-split (IsWellFormed x) t.log op wf in
      applies-Safe t op st req last (Reach-Safe h before first) done
  Reach-Safe h (next before (syncs t)) wf = syncs-Safe t (Reach-Safe h before wf)
  Reach-Safe h (next before (runs t b a call e)) wf =
      let g = Reach-Safe h before wf in
      let (c, rest) = All-middle (Started x self B t.log) b call a (subst (All _) e g.pending) in
      run_call-Safe call (b ++ a) t g c rest
  Reach-Safe h (next before (acts t call own)) wf =
      let g = Reach-Safe h before wf in
      run_call-Safe call t.pending t g (own-Started t.log call own) g.pending

  new-Safe : (w : W) → ((k : String) → pins w k ≡ true → B k) → Safe (new_replica self w)
  unfolding new_replica new_map_pin_tracker lookup
  new-Safe w b = record {
    owned = record {
      wanted = λ k p e w. absurd (cc e);
      held = λ k e. inl (b k e);
      queued = (tt, tt, refl);
    };
    pending = tt;
    stored = tt;
  }

module _ {Cid Addr W : Type 0} (x : Codecs Cid Addr) (h : HttpOps W) (ipfs : IpfsHttpConnector)
    (now : W → ℕ) (pins : W → String → Bool) (s : Serves x h ipfs pins) where
  -- Over a daemon that serves its pins as its HTTP API documents, requests to which may fail: whatever a
  -- peer that started empty has done since (operations applied, rounds of `StateSync`, the calls that
  -- these started, in any order, rounds of the workers and calls of clients), every CID that the daemon
  -- has pinned directly or recursively was so pinned at the start, or is the CID of a pin that the peer
  -- has applied and that is allocated to the peer or to all. The pins of the log are in serial form
  -- and their CIDs decode.
  pub held-Reach :
      (self : PeerId) (w : W) {t : Replica Cid W}
      → Reach x (connector_rpc x h ipfs now) (new_replica self w) t
      → All (IsWellFormed x) t.log
      → (k : String) → pins t.world k ≡ true
      → (pins w k ≡ true) ⊎ Asked x self t.log k
  held-Reach self w {t} reach wf k e =
      let o = connector_rpc-Restrained x h ipfs now pins s in
      let before : String → Type 0 = λ k. pins w k ≡ true in
      let over = connector_rpc x h ipfs now in
      let safe =
        Reach-Safe x over pins o self before (new-Safe x over pins o self before w (λ k q. q)) reach
          wf in
      safe.owned.held k e
