-- ===== src/Replica/Together.antt =====
-- consensus.go, log_op.go, cluster.go, map_pin_tracker.go and ipfs_http_connector.go together: what
-- holds of all peers of a cluster.
use ipfs_cluster.Common.{
  Bool, take-prefix, All-prefix, Memᴰ-prefix, All-append, ℕ, String, ◌≡◌, ◌⊎◌, ◌∙◌, refl, sym, ap,
  subst, inl, inr, true, none, some, List, [], ◌∷◌, ◌++◌, All, Memᴰ, length, take, arith,
  Bool-cases, ◌==◌, eq_iff, All-mono,
}
use mathlib.Core.List.{append_assoc}
use ipfs_cluster.External.{Codecs, CidDecodes, PeerId}
use ipfs_cluster.Interfaces.{IpfsRpc}
use ipfs_cluster.Api.Types.{cid_arg_to_serial}
use ipfs_cluster.Api.RoundTrip.{to_cid_arg-cid_arg_to_serial}
use ipfs_cluster.LogOp.{LogOp}
use ipfs_cluster.LogOp.Replay.{replay, HasSerial, CanApply, last_entry, entry_after, lookup-replay}
use ipfs_cluster.Api.Ids.{to_multiaddr, multiaddr_to_serial}
use ipfs_cluster.Common.Dict.{lookup}
use ipfs_cluster.State.{new_map_state}
use ipfs_cluster.Consensus.{op_cid, op_peer}
use ipfs_cluster.Rpc.Local.{connector_rpc}
use ipfs_cluster.Ipfs.{HttpOps, IpfsHttpConnector}
use ipfs_cluster.Ipfs.Daemon.{Serves}
use ipfs_cluster.Replica.{Replica, Reach, here, next, new_replica}
use ipfs_cluster.Replica.Started.{IsWellFormed, Asked}
use ipfs_cluster.Replica.Agreement.{Reach-replay, some-inj}
use ipfs_cluster.Replica.Safety.{held-Reach}
use ipfs_cluster.Replica.Shared.{
  Shared, put_replica, IsPrefix, Submitted, pins, unpins, adds, removes, commits, moves,
  SharedReach, begun, later, new_shared,
}

put_replica-All :
    {Cid W : Type 0} (P : PeerId → Replica Cid W → Type 0) (p : PeerId) (t : Replica Cid W)
    (f : PeerId → Replica Cid W)
    → P p t
    → ((q : PeerId) → P q (f q))
    → (q : PeerId) → P q (put_replica p t f q)
unfolding put_replica
put_replica-All P p t f h all q = elim (Bool-cases (p == q)) [
  | inl same ↦ rw same (subst (λ z. P z t) (ground (arith, same, eq_iff p q)) h)
  | inr other ↦ rw other (all q)
]

IsPrefix-snoc :
    (log whole : List LogOp) (op : LogOp) → IsPrefix log whole → IsPrefix log (whole ++ op ∷ [])
IsPrefix-snoc log whole op (rest, e) =
    (rest ++ op ∷ [], sym (append_assoc log rest (op ∷ [])) ∙ ap (λ l. l ++ op ∷ []) e)

module _ {Cid Addr : Type 0} (x : Codecs Cid Addr) where
  Submitted-IsWellFormed : (op : LogOp) → Submitted x op → IsWellFormed x op
  unfolding op_cid op_peer
  Submitted-IsWellFormed op (pins carg decodes peers) t =
      let same = to_cid_arg-cid_arg_to_serial x carg decodes peers in
      (ap (cid_arg_to_serial x) same, subst (λ c. CidDecodes x c.cid) (sym same) decodes)
  Submitted-IsWellFormed op (unpins carg decodes peers) t = absurd (cc t)
  Submitted-IsWellFormed op (adds addr) t = absurd (cc t)
  Submitted-IsWellFormed op (removes pid addr decodes back has_id) t = absurd (cc t)

  Submitted-HasSerial : (op : LogOp) → Submitted x op → HasSerial x op
  unfolding op_cid op_peer
  Submitted-HasSerial op (pins carg decodes peers) =
      ap (cid_arg_to_serial x) (to_cid_arg-cid_arg_to_serial x carg decodes peers)
  Submitted-HasSerial op (unpins carg decodes peers) =
      ap (cid_arg_to_serial x) (to_cid_arg-cid_arg_to_serial x carg decodes peers)
  Submitted-HasSerial op (adds addr) = tt
  Submitted-HasSerial op (removes pid addr decodes back has_id) = tt

  Submitted-CanApply : (op : LogOp) → Submitted x op → CanApply x op
  unfolding op_cid op_peer to_multiaddr multiaddr_to_serial
  Submitted-CanApply op (pins carg decodes peers) t = absurd (cc t)
  Submitted-CanApply op (unpins carg decodes peers) t = absurd (cc t)
  Submitted-CanApply op (adds addr) t = absurd (cc t)
  Submitted-CanApply op (removes pid addr decodes back has_id) t =
      (x.b58_encode pid, pid, rw back has_id, decodes)

module _ {Cid Addr W : Type 0} (x : Codecs Cid Addr) (r : PeerId → IpfsRpc W)
    (worlds : PeerId → W) where
  IsMember : List LogOp → PeerId → Replica Cid W → Type 0
  IsMember log p t = Reach x (r p) (new_replica p (worlds p)) t × IsPrefix t.log log

  -- Every peer makes steps of its own, over a prefix of the log, and the log is of operations that were
  -- submitted.
  record Consistent (s : Shared Cid W) : Type 0 where
    members : (p : PeerId) → IsMember s.log p (s.replica p)
    submitted : All (Submitted x) s.log

  SharedReach-Consistent : {s : Shared Cid W} → SharedReach x r (new_shared worlds) s → Consistent s
  unfolding new_shared IsMember new_replica
  SharedReach-Consistent begun = record { members = λ p. (here, ([], refl)); submitted = tt }
  SharedReach-Consistent (later before (commits s op sub)) =
      let c = SharedReach-Consistent before in
      record {
        members = λ p. ((c.members p).0, IsPrefix-snoc (s.replica p).log s.log op (c.members p).1);
        submitted = All-append (Submitted x) s.log (op ∷ []) c.submitted (sub, tt);
      }
  SharedReach-Consistent (later before (moves s p t step ahead)) =
      let c = SharedReach-Consistent before in
      record {
        members =
            put_replica-All (IsMember s.log) p t s.replica (next (c.members p).0 step, ahead)
              c.members;
        submitted = c.submitted;
      }

  IsMember-replay :
      (log : List LogOp) (p : PeerId) (t : Replica Cid W)
      → IsMember log p t
      → replay x t.log new_map_state ≡ some t.state
  unfolding IsMember new_replica replay
  IsMember-replay log p t (reach, ahead) = Reach-replay x (r p) refl reach

  -- In a cluster whose peers started empty and apply the one log that Raft has committed, under each key
  -- the shared state of a peer holds what the last operation on that key left, among as many operations of
  -- the log as the peer has applied, and nothing if there is none; whatever the peers and their
  -- daemons have done in between. The texts of the CIDs and peers that are submitted decode.
  pub lookup-SharedReach :
      {s : Shared Cid W} (p : PeerId) (k : String)
      → SharedReach x r (new_shared worlds) s
      → lookup k (s.replica p).state.pin_map
        ≡ entry_after x (last_entry x (take (length (s.replica p).log) s.log) k) none
  unfolding IsMember new_map_state lookup
  lookup-SharedReach {s} p k reach =
      let c = SharedReach-Consistent reach in
      let (mine, (rest, ahead)) = c.members p in
      let mine_of = λ (P : LogOp → Type 0) (h : All P s.log).
        All-prefix P (s.replica p).log rest (subst (All P) (sym ahead) h) in
      let (st, done, holds_last) =
        lookup-replay x (s.replica p).log new_map_state
          (mine_of _ (All-mono (Submitted-HasSerial x) s.log c.submitted))
          (mine_of _ (All-mono (Submitted-CanApply x) s.log c.submitted)) in
      let same : st ≡ (s.replica p).state =
        some-inj _ _ (sym done ∙ IsMember-replay s.log p (s.replica p) (c.members p)) in
      let applied_here : take (length (s.replica p).log) s.log ≡ (s.replica p).log =
        ap (take (length (s.replica p).log)) (sym ahead) ∙ take-prefix (s.replica p).log rest in
      subst (λ log. lookup k (s.replica p).state.pin_map ≡ entry_after x (last_entry x log k) none)
        (sym applied_here) (ap (λ st. lookup k st.pin_map) (sym same) ∙ holds_last k)

module _ {Cid Addr W : Type 0} (x : Codecs Cid Addr) (h : PeerId → HttpOps W)
    (ipfs : PeerId → IpfsHttpConnector) (now : W → ℕ) (pins : W → String → Bool)
    (serves : (p : PeerId) → Serves x (h p) (ipfs p) pins) (worlds : PeerId → W) where
  abbrev over : PeerId → IpfsRpc W
  over p = connector_rpc x (h p) (ipfs p) now

  -- In a cluster whose peers started empty, each over a daemon that serves its pins as its HTTP API
  -- documents and whose requests may fail: every CID that the daemon of a peer has pinned, directly or
  -- recursively, was so pinned at the start, or is the CID of a pin that Raft has committed and that is
  -- allocated to this peer or to all. The consensus components submit pins of CIDs and of peers whose texts
  -- decode.
  pub held-SharedReach :
      {s : Shared Cid W}
      → SharedReach x over (new_shared worlds) s
      → (p : PeerId) (k : String) → pins (s.replica p).world k ≡ true
      → (pins (worlds p) k ≡ true) ⊎ Asked x p s.log k
  unfolding IsMember
  held-SharedReach {s} reach p k e =
      let all = SharedReach-Consistent x over worlds reach in
      let (mine, (rest, ahead)) = all.members p in
      let wf = All-prefix (IsWellFormed x) (s.replica p).log rest (
        subst (All (IsWellFormed x)) (sym ahead)
          (All-mono (Submitted-IsWellFormed x) s.log all.submitted)) in
      elim (held-Reach x (h p) (ipfs p) now pins (serves p) p (worlds p) mine wf k e) [
        | inl before ↦ inl before
        | inr (op, applied_here, t, c, own) ↦ inr (
          op,
          subst (Memᴰ op) ahead (Memᴰ-prefix op (s.replica p).log rest applied_here),
          t,
          c,
          own,
        )
      ]
