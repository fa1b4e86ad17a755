-- ===== src/Replica/Shared.antt =====
-- consensus.go, log_op.go and map_pin_tracker.go: the peers of a cluster, each of which applies the log
-- that they share, as one state machine.
use ipfs_cluster.Common.{List, [], ◌∷◌, ◌++◌, ◌≡◌, ◌==◌, All, if◌then◌else◌}
use ipfs_cluster.Common.Result.{ok}
use ipfs_cluster.External.{Codecs, CidDecodes, PeerDecodes, AddrDecodes, PeerId}
use ipfs_cluster.Interfaces.{IpfsRpc}
use ipfs_cluster.Api.Types.{CidArg}
use ipfs_cluster.LogOp.{LogOp, LogOpType}
use ipfs_cluster.Consensus.{op_cid, op_peer}
use ipfs_cluster.Replica.{Replica, new_replica}
use ipfs_cluster.Replica

-- The operations that Raft has committed, in order, and the peers.
pub record Shared (Cid W : Type 0) : Type 0 where
  pub log : List LogOp
  pub replica : PeerId → Replica Cid W

-- the peers, of which one is changed
unfoldable pub put_replica :
    {Cid W : Type 0} → PeerId → Replica Cid W → (PeerId → Replica Cid W) → PeerId → Replica Cid W
put_replica p t replica q = if p == q then t else replica q

-- One log starts another.
abbrev pub IsPrefix : List LogOp → List LogOp → Type 0
IsPrefix log whole = (rest : List LogOp) × (log ++ rest ≡ whole)

module _ {Cid Addr : Type 0} (x : Codecs Cid Addr) where
  -- The operations that the consensus components submit, of CIDs and peers whose texts decode; a peer
  -- is removed by the address that holds its ID.
  pub data Submitted : LogOp → Type 0 where
    pins :
        (carg : CidArg Cid)
        → CidDecodes x carg.cid
        → All (PeerDecodes x) carg.allocations
        → Submitted (op_cid x carg LogOpType.pin)
    unpins :
        (carg : CidArg Cid)
        → CidDecodes x carg.cid
        → All (PeerDecodes x) carg.allocations
        → Submitted (op_cid x carg LogOpType.unpin)
    adds : (addr : Addr) → Submitted (op_peer x addr LogOpType.add_peer)
    removes :
        (pid : PeerId) (addr : Addr)
        → PeerDecodes x pid
        → AddrDecodes x addr
        → x.value_for_ipfs addr ≡ ok (x.b58_encode pid)
        → Submitted (op_peer x addr LogOpType.rm_peer)

module _ {Cid Addr W : Type 0} (x : Codecs Cid Addr) (r : PeerId → IpfsRpc W) where
  -- Raft commits an operation; or a peer makes a step of its own, in which Raft has it apply no
  -- other operation than the next of the log.
  pub data SharedStep : Shared Cid W → Shared Cid W → Type 0 where
    commits :
        (s : Shared Cid W) (op : LogOp)
        → Submitted x op
        → SharedStep s (record s { log = s.log ++ op ∷ [] })
    moves :
        (s : Shared Cid W) (p : PeerId) (t : Replica Cid W)
        → Replica.Step x (r p) (s.replica p) t
        → IsPrefix t.log s.log
        → SharedStep s (record s { replica = put_replica p t s.replica })

  pub data SharedReach (s : Shared Cid W) : Shared Cid W → Type 0 where
    begun : SharedReach s s
    later : {t u : Shared Cid W} → SharedReach s t → SharedStep t u → SharedReach s u

-- the peers of a cluster that starts, each in its world
unfoldable pub new_shared : {Cid W : Type 0} → (PeerId → W) → Shared Cid W
unfolding new_replica
new_shared worlds = record { log = []; replica = λ p. new_replica p (worlds p) }
