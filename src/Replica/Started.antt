-- ===== src/Replica/Started.antt =====
-- log_op.go and cluster.go: the calls of the tracker that applying the log and `StateSync` start.
use mathlib.Core.List.Memᴰ
use ipfs_cluster.Common.{
  All-append, ℕ, String, ◌≡◌, ◌⊎◌, sym, ap, subst, true, ◌||◌, some, List, [], ◌∷◌, ◌++◌, All, Memᴰ,
  inl, inr, map, if_rule,
}
use ipfs_cluster.Common.Dict.{Dict, values, All-insert, All-delete}
use ipfs_cluster.Common.Result.{Result, ok, err}
use ipfs_cluster.Api.Ids.{to_multiaddr}
use ipfs_cluster.External.{Codecs, CidDecodes, PeerId}
use ipfs_cluster.Api.Types.{CidArg, CidArgSerial, to_cid_arg, cid_arg_to_serial}
use ipfs_cluster.State.{MapState, map_state_ops, add, rm, list}
use ipfs_cluster.LogOp.{
  LogOp, LogOpType, pin, unpin, add_peer, rm_peer, other, Applied, applied, failed, panics,
  apply_type, rm_peer_request, peer_manager_rm_peer,
}
use ipfs_cluster.LogOp.Replay.{IsSerial}
use ipfs_cluster.Api.Status.{same_status, unpinned}
use ipfs_cluster.Tracker.{get, MapPinTracker, contains}
use ipfs_cluster.Tracker.Workers.{status_all}
use ipfs_cluster.Tracker.Runs.{Call}
use ipfs_cluster.Cluster.StateSync.{untracked, leftover, spawned}
use ipfs_cluster.Replica.{started}

All-map :
    {A C : Type 0} (P : C → Type 0) (f : A → C) (xs : List A)
    → All (λ a. P (f a)) xs
    → All P (map f xs)
All-map P f [] h = tt
All-map P f (a ∷ xs) h = (h.0, All-map P f xs h.1)

module _ {Cid Addr : Type 0} (x : Codecs Cid Addr) (P : CidArg Cid → Type 0) where
  untracked-All :
      (t : ℕ) (mpt : MapPinTracker Cid) (cargs : List (CidArg Cid))
      → All P cargs
      → All P (untracked x t mpt cargs)
  unfolding untracked
  untracked-All t mpt [] h = tt
  untracked-All t mpt (c ∷ cargs) h =
      let rest = untracked-All t mpt cargs h.1 in
      if_rule (All P) (same_status (get x t c.cid mpt).status unpinned)
        (c ∷ untracked x t mpt cargs) (untracked x t mpt cargs) (h.0, rest) rest

module _ {Cid Addr : Type 0} (x : Codecs Cid Addr) where
  -- A pin in the log is in serial form, and its CID decodes.
  abbrev pub IsWellFormed : LogOp → Type 0
  IsWellFormed op = op.type ≡ pin → IsSerial x op × CidDecodes x (to_cid_arg x op.cid).cid

module _ {Cid Addr : Type 0} (x : Codecs Cid Addr) (self : PeerId) where
  open x use {cid_string}

  -- The pin is for this peer.
  abbrev pub IsAllocated : CidArg Cid → Type 0
  IsAllocated c = (c.everywhere || contains self c.allocations) ≡ true

  -- A pin of the log is for this peer and of the CID with this text.
  abbrev pub Asked : List LogOp → String → Type 0
  Asked log k =
      (op : LogOp) × Memᴰ op log
      × (op.type ≡ pin)
      × (op.cid.cid ≡ k)
      × IsAllocated (to_cid_arg x op.cid)

  -- A value of the shared state stands in a pin of the log.
  abbrev pub Stored : List LogOp → String × CidArgSerial → Type 0
  Stored log (k, v) =
      (op : LogOp) × Memᴰ op log × (op.type ≡ pin) × (op.cid ≡ v) × IsWellFormed x op

  module _ (B : String → Type 0) where
    -- what was asked for, or holds anyway
    abbrev pub Fine : List LogOp → String → Type 0
    Fine log k = B k ⊎ Asked log k

    abbrev pub GoodFor : List LogOp → CidArg Cid → Type 0
    GoodFor log c = CidDecodes x c.cid × Fine log (cid_string c.cid)

    -- A call that was started tracks a pin of the log, if it tracks one that is for this peer.
    abbrev pub Started : List LogOp → Call Cid → Type 0
    Started log (Call.track c) = IsAllocated c → GoodFor log c
    Started log (Call.recover c) = CidDecodes x c
    Started log _ = Unit

    Stored-Started :
        (log : List LogOp) (k : String) (v : CidArgSerial)
        → Stored log (k, v)
        → Started log (Call.track (to_cid_arg x v))
    unfolding cid_arg_to_serial
    Stored-Started log k v (op, i, t, same, wf) mine =
        let (serial, decodes) = wf t in
        subst (λ v. IsAllocated (to_cid_arg x v) → GoodFor log (to_cid_arg x v)) same
          (λ own. (decodes, inr (op, i, t, ap (λ a. a.cid) (sym serial), own))) mine

    -- A longer log asks for no less.
    pub Fine-snoc :
        (log : List LogOp) (op : LogOp) (k : String) → Fine log k → Fine (log ++ op ∷ []) k
    Fine-snoc log op k (inl b) = inl b
    Fine-snoc log op k (inr (p, i, t, same, own)) = inr (p, Memᴰ.append_left _ i, t, same, own)

    pub Started-snoc :
        (log : List LogOp) (op : LogOp) (call : Call Cid)
        → Started log call
        → Started (log ++ op ∷ []) call
    Started-snoc log op (Call.track c) h = λ own. ((h own).0, Fine-snoc log op _ (h own).1)
    Started-snoc log op (Call.recover c) h = h
    Started-snoc log op (Call.untrack c) h = tt
    Started-snoc log op (Call.sync c) h = tt
    Started-snoc log op Call.sync_all h = tt
    Started-snoc log op Call.pin_round h = tt
    Started-snoc log op Call.unpin_round h = tt
    Started-snoc log op Call.shutdown h = tt

    -- the same, of the calls of `StateSync`
    untrack-Started : (log : List LogOp) (cs : List Cid) → All (Started log) (map Call.untrack cs)
    untrack-Started log [] = tt
    untrack-Started log (c ∷ cs) = (tt, untrack-Started log cs)

    listed-Started :
        (log : List LogOp) (m : Dict CidArgSerial)
        → All (Stored log) m
        → All (λ c. Started log (Call.track c)) (map (to_cid_arg x) (values m))
    listed-Started log [] h = tt
    listed-Started log ((k, v) ∷ m) h = (Stored-Started log k v h.0, listed-Started log m h.1)

    pub spawned-Started :
        (log : List LogOp) (t : ℕ) (st : MapState) (mpt : MapPinTracker Cid)
        → All (Stored log) st.pin_map
        → All (Started log) (spawned x (map_state_ops x) t st mpt)
    unfolding spawned map_state_ops list
    spawned-Started log t st mpt h =
        All-append (Started log) (map Call.track (untracked x t mpt (list x st))) _
          (All-map (Started log) Call.track (untracked x t mpt (list x st)) (
            untracked-All x (λ c. Started log (Call.track c)) t mpt (list x st)
              (listed-Started log st.pin_map h)))
          (untrack-Started log (leftover x (map_state_ops x) st (status_all mpt)))

    pub Stored-snoc :
        (log : List LogOp) (op : LogOp) (e : String × CidArgSerial)
        → Stored log e
        → Stored (log ++ op ∷ []) e
    Stored-snoc log op e (p, i, t, same, wf) = (p, Memᴰ.append_left _ i, t, same, wf)

    -- What applying an operation leaves in the shared state, and starts.
    unfoldable pub Leaves : List LogOp → Applied MapState → Type 0
    Leaves log (applied st req) = All (Stored log) st.pin_map × All (Started log) (started x req)
    Leaves log (failed e) = Unit
    Leaves log panics = Unit

    pub apply_type-Leaves :
        (t : LogOpType) (log : List LogOp) (op : LogOp) (st : MapState)
        → op.type ≡ t
        → Memᴰ op log
        → IsWellFormed x op
        → All (Stored log) st.pin_map
        → Leaves log (apply_type x (map_state_ops x) t op st)
    unfolding Leaves apply_type map_state_ops add rm
    apply_type-Leaves pin log op st t i wf h =
        let arg = to_cid_arg x op.cid in
        let new : Stored log (cid_string arg.cid, cid_arg_to_serial x arg) =
          (op, i, t, sym (wf t).0, wf) in
        (
          All-insert (Stored log) (cid_string arg.cid) (cid_arg_to_serial x arg) st.pin_map new h,
          (Stored-Started log (cid_string arg.cid) (cid_arg_to_serial x arg) new, tt),
        )
    apply_type-Leaves unpin log op st t i wf h =
        (All-delete (Stored log) (cid_string (to_cid_arg x op.cid).cid) st.pin_map h, (tt, tt))
    apply_type-Leaves add_peer log op st t i wf h = (h, tt)
    apply_type-Leaves rm_peer log op st t i wf h =
        removed (x.value_for_ipfs (to_multiaddr x op.peer))
      where
        decoded :
            (res : Result PeerId)
            → Leaves log (elim res as (λ q. Applied MapState) [
              | err e ↦ panics
              | ok pid ↦ applied st (some (peer_manager_rm_peer pid))
            ])
        decoded (ok pid) = (h, tt)
        decoded (err e) = tt

        removed : (res : Result String) → Leaves log (rm_peer_request x (map_state_ops x) st res)
        removed (ok pidstr) = decoded (x.b58_decode pidstr)
        removed (err e) = tt
    apply_type-Leaves other log op st t i wf h = (h, tt)
