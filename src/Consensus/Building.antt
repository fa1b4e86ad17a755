-- ===== src/Consensus/Building.antt =====
-- consensus.go: `NewConsensus` with the goroutine that it starts, `SetClient`, and what the other
-- components read of it.
use ipfs_cluster.Common.{String, Bool, true, false, Option, none, some, List, if◌then◌else◌}
use ipfs_cluster.Common.Result.{Result, ok, err}
use ipfs_cluster.External.{PeerId}
use ipfs_cluster.Raft.Building.{RaftLibs, RaftParts, new_raft}

-- What NewConsensus uses of libp2p-raft and go-libp2p-consensus: an op log of a state, its FSM, and an
-- actor of Raft, which the op log is given.
pub record OpLogLibs (S OpLog Fsm Node Actor : Type 0) : Type 0 where
  pub new_op_log : S → OpLog
  pub fsm : OpLog → Fsm
  pub new_actor : Node → Actor
  pub set_actor : Actor → OpLog → OpLog

-- The component: what it is built of, whether it has an RPC client, and its channels. `rpc_ready` and
-- `shutdown_ch` have room for one value; `rpc_ready` can be closed.
pub record ConsensusParts (OpLog Actor Raft : Type 0) : Type 0 where
  pub consensus : OpLog
  pub actor : Actor
  pub raft : Raft
  pub has_client : Bool
  pub rpc_ready : Bool
  pub closed : Bool
  pub bootstrapping : Bool  -- the goroutine of `run` has started `finishBootstrap`

-- What a send comes to.
pub data Sent (A : Type 0) : Type 0 where
  sent : A → Sent A
  blocks : A → Sent A
  panics : A → Sent A

module _ {S OpLog Transport Snapshots Bolt Fsm Node Actor W : Type 0}
    (libs : RaftLibs Transport Snapshots Bolt Fsm Node W) (logs : OpLogLibs S OpLog Fsm Node Actor)
    (b58_encode : PeerId → String) where
  open logs use {new_op_log, fsm, new_actor, set_actor}

  unfoldable pub new_consensus :
      List PeerId
      → String
      → S
      → W
      → Result (ConsensusParts OpLog Actor (RaftParts Transport Snapshots Bolt Node)) × W
  unfolding new_raft
  new_consensus cluster_peers data_folder state w =
      let consensus = new_op_log state in
      let (res, w') = new_raft libs b58_encode cluster_peers data_folder (fsm consensus) w in
      elim res [
        | err e ↦ (err e, w')
        | ok raft ↦
            let actor = new_actor raft.raft in
            (
              ok (record {
                consensus = set_actor actor consensus;
                actor = actor;
                raft = raft;
                has_client = false;
                rpc_ready = false;
                closed = false;
                bootstrapping = true;
              }),
              w',
            )
      ]

module _ {OpLog Actor Raft : Type 0} where
  -- The client is set before the send, also if that blocks or panics.
  unfoldable pub set_client :
      ConsensusParts OpLog Actor Raft → Sent (ConsensusParts OpLog Actor Raft)
  set_client cc =
      let cc1 = record cc { has_client = true } in
      if cc.closed
      then panics cc1
      else if cc.rpc_ready
      then blocks cc1
      else sent (record cc1 { rpc_ready = true })

  -- the wait of `finishBootstrap` for the client: none if it goes on to wait
  unfoldable pub take_client :
      ConsensusParts OpLog Actor Raft → Option (ConsensusParts OpLog Actor Raft)
  take_client cc =
      if cc.has_client
      then some cc
      else if cc.rpc_ready
      then some (record cc { rpc_ready = false })
      else if cc.closed
      then some cc
      else none

-- `State`, from what `GetLogHead` returns and the assertion of its type
unfoldable pub consensus_state : {H S : Type 0} → (H → Option S) → Result H → Result S
consensus_state as_state (err e) = err e
consensus_state as_state (ok st) = elim (as_state st) [
  | none ↦ err "wrong state type"
  | some s ↦ ok s
]
