-- ===== src/Consensus.antt =====
-- consensus.go, and the peer set operations of raft.go.
pub mod Commit
pub mod Lifecycle
pub mod Building
use ipfs_cluster.Common.{
  ℕ, zero, suc, String, Bool, true, false, Option, none, some, List, [], ◌∷◌, ◌==◌, ◌<>◌, ◌||◌,
  if◌then◌else◌,
}
use ipfs_cluster.Common.Result.{Error, Result, ok, err}
use ipfs_cluster.External.{Codecs, PeerId}
use ipfs_cluster.Api.Types.{CidArg, CidArgSerial, cid_arg_to_serial}
use ipfs_cluster.Api.Ids.{multiaddr_to_serial}
use ipfs_cluster.Util.{multiaddr_split}
use ipfs_cluster.LogOp.{LogOp, LogOpType}

-- The arguments of the calls to the leader, by the method called.
pub data Redirected : Type 0 where
  consensus_log_pin : CidArgSerial → Redirected
  consensus_log_unpin : CidArgSerial → Redirected
  consensus_log_add_peer : String → Redirected
  consensus_log_rm_peer : PeerId → Redirected

-- Raft, the RPC client and the clock, over the state `W` of all that lies outside the component.
-- `leader` returns a peer beside its error, as `Actor.Leader` does; `pause` is `time.Sleep`.
pub record RaftOps (W : Type 0) : Type 0 where
  pub host_id : PeerId
  pub leader : W → PeerId × Option Error
  pub wait_for_leader : W → Option Error × W
  pub call : PeerId → Redirected → W → Option Error × W
  pub commit_op : LogOp → W → Option Error × W
  pub raft_peers : W → List String
  pub raft_add_peer : String → W → Option Error × W
  pub raft_remove_peer : String → W → Option Error × W
  pub pause : W → W

abbrev pub commit_retries : ℕ
commit_retries = 2

-- What one round of a retry loop comes to: the function returns, or the loop goes on with an error.
pub data Attempt : Type 0 where
  returns : Option Error → Attempt
  fails : Error → Attempt

-- `for i := 0; i < CommitRetries; i++`, with the last error
unfoldable pub retry : {W : Type 0} → ℕ → (W → Attempt × W) → Option Error → W → Option Error × W
retry zero attempt final_err w = (final_err, w)
retry (suc n) attempt final_err w =
    let (a, w') = attempt w in
    elim a [ returns e ↦ (e, w') | fails e ↦ retry n attempt (some e) w' ]

unfoldable pub has_peer : List String → String → Bool
has_peer [] peer = false
has_peer (p ∷ peers) peer = p == peer || has_peer peers peer

module _ {Cid Addr : Type 0} (x : Codecs Cid Addr) where
  -- `cc.op` of a `CidArg`, and of a multiaddress
  unfoldable pub op_cid : CidArg Cid → LogOpType → LogOp
  op_cid carg t = record { cid = cid_arg_to_serial x carg; peer = ""; type = t }

  unfoldable pub op_peer : Addr → LogOpType → LogOp
  op_peer addr t = record {
    cid = record { cid = ""; allocations = []; everywhere = false };
    peer = multiaddr_to_serial x addr;
    type = t;
  }

module _ {Cid Addr W : Type 0} (x : Codecs Cid Addr) (r : RaftOps W) where
  open x use {b58_encode, new_multiaddr}
  open r use {
    host_id, leader, wait_for_leader, call, commit_op, raft_peers, raft_add_peer, raft_remove_peer,
    pause,
  }

  -- `Raft.AddPeer` and `Raft.RemovePeer`
  unfoldable pub add_peer : String → W → Option Error × W
  unfolding has_peer
  add_peer peer w = if has_peer (raft_peers w) peer then (none, w) else raft_add_peer peer w

  unfoldable pub remove_peer : String → W → Option Error × W
  unfolding has_peer
  remove_peer peer w = if has_peer (raft_peers w) peer then raft_remove_peer peer w else (none, w)

  -- the call to the leader, or none if that is this peer
  unfoldable pub redirect_to : PeerId → Redirected → W → Result Bool × W
  redirect_to l arg w =
      if l == host_id
      then (ok false, w)
      else (let (e, w') = call l arg w in (elim e [ none ↦ ok true | some e' ↦ err e' ], w'))

  abbrev pub after_wait : PeerId → Redirected → Option Error × W → Result Bool × W
  after_wait l arg (some e, w) = (err e, w)
  after_wait l arg (none, w) = redirect_to l arg w

  -- `redirectToLeader`; after the wait it goes on with what `Leader` returned beside its error
  unfoldable pub redirect_to_leader : Redirected → W → Result Bool × W
  unfolding redirect_to
  redirect_to_leader arg w =
      let (l, e) = leader w in
      elim e [ none ↦ redirect_to l arg w | some _ ↦ after_wait l arg (wait_for_leader w) ]

  -- the part of a round that follows `redirectToLeader`
  abbrev pub after_redirect : (W → Attempt × W) → Result Bool × W → Attempt × W
  after_redirect here (err e, w) = (fails e, w)
  after_redirect here (ok true, w) = (returns none, w)
  after_redirect here (ok false, w) = here w

  -- `CommitOp` of `logOpCid`
  unfoldable pub commit_cid : LogOp → W → Attempt × W
  commit_cid op w =
      let (e, w') = commit_op op w in
      elim e [ none ↦ (returns none, w') | some e' ↦ (fails e', pause w') ]

  unfoldable pub attempt_cid : Redirected → LogOpType → CidArg Cid → W → Attempt × W
  unfolding redirect_to_leader op_cid commit_cid
  attempt_cid arg op_type carg w =
      after_redirect (commit_cid (op_cid x carg op_type)) (redirect_to_leader arg w)

  unfoldable pub log_op_cid : Redirected → LogOpType → CidArg Cid → W → Option Error × W
  unfolding retry attempt_cid
  log_op_cid arg op_type carg = retry commit_retries (attempt_cid arg op_type carg) none

  unfoldable pub log_pin : CidArg Cid → W → Option Error × W
  unfolding log_op_cid
  log_pin c = log_op_cid (consensus_log_pin (cid_arg_to_serial x c)) LogOpType.pin c

  unfoldable pub log_unpin : CidArg Cid → W → Option Error × W
  unfolding log_op_cid
  log_unpin c = log_op_cid (consensus_log_unpin (cid_arg_to_serial x c)) LogOpType.unpin c

  -- Raft's peer set changes after the operation is committed.
  unfoldable pub change_peers : (String → W → Option Error × W) → (W → W) → PeerId → W → Attempt × W
  change_peers change sleep pid w =
      let (e, w') = change (b58_encode pid) w in
      elim e [ none ↦ (returns none, w') | some e' ↦ (fails e', sleep w') ]

  -- the part of a round of `LogAddPeer` at the leader
  unfoldable pub commit_add_peer : Addr → W → Attempt × W
  unfolding multiaddr_split change_peers add_peer op_peer
  commit_add_peer addr w = elim (multiaddr_split x addr) [
    | err e ↦ (returns (some e), w)
    | ok (pid, _) ↦
        let (e, w') = commit_op (op_peer x addr LogOpType.add_peer) w in
        elim e [ some e' ↦ (fails e', pause w') | none ↦ change_peers add_peer (λ v. v) pid w' ]
  ]

  unfoldable pub log_add_peer : Addr → W → Option Error × W
  unfolding retry redirect_to_leader commit_add_peer
  log_add_peer addr =
      retry commit_retries
        (λ w.
          after_redirect (commit_add_peer addr)
            (redirect_to_leader (consensus_log_add_peer (multiaddr_to_serial x addr)) w))
        none

  -- the part of a round of `LogRmPeer` at the leader
  unfoldable pub commit_rm_peer : PeerId → W → Attempt × W
  unfolding change_peers remove_peer op_peer
  commit_rm_peer pid w = elim (new_multiaddr ("/ipfs/" <> b58_encode pid)) [
    | err e ↦ (returns (some e), w)
    | ok addr ↦
        let (e, w') = commit_op (op_peer x addr LogOpType.rm_peer) w in
        elim e [ some e' ↦ (fails e', w') | none ↦ change_peers remove_peer pause pid w' ]
  ]

  unfoldable pub log_rm_peer : PeerId → W → Option Error × W
  unfolding retry redirect_to_leader commit_rm_peer
  log_rm_peer pid =
      retry commit_retries
        (λ w.
          after_redirect (commit_rm_peer pid) (redirect_to_leader (consensus_log_rm_peer pid) w))
        none
