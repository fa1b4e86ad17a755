-- ===== src/LogOp.antt =====
-- log_op.go: the operations of the consensus log, and what applying one does.
pub mod Replay
use ipfs_cluster.Common.{String, Option, none, some, ◌<>◌}
use ipfs_cluster.Common.Result.{Error, Result, ok, err}
use ipfs_cluster.External.{Codecs, PeerId}
use ipfs_cluster.Interfaces.{StateOps}
use ipfs_cluster.Api.Types.{CidArgSerial, CidArg, cid_arg_to_serial, to_cid_arg}
use ipfs_cluster.Api.Ids.{multiaddr_to_serial, to_multiaddr}

-- `LogOpType`; `other` stands for every number that is none of the four constants.
pub data LogOpType : Type 0 where
  pin unpin add_peer rm_peer other : LogOpType

-- The context and the RPC client of an operation are not data of the log.
pub record LogOp : Type 0 where
  pub cid : CidArgSerial
  pub peer : String
  pub type : LogOpType

-- The RPC calls that `ApplyTo` makes to the other components of the peer.
pub data Request : Type 0 where
  track : CidArgSerial → Request
  untrack : CidArgSerial → Request
  peer_manager_add_peer : String → Request
  peer_manager_rm_peer : PeerId → Request

-- `ApplyTo` returns the new state, having made the call; it fails; or it panics.
pub data Applied (S : Type 0) : Type 0 where
  applied : S → Option Request → Applied S
  failed : Error → Applied S
  panics : Applied S

module _ {Cid Addr S : Type 0} (x : Codecs Cid Addr) (o : StateOps Cid S) where
  open x use {value_for_ipfs, b58_decode}

  -- the label ROLLBACK
  abbrev pub or_rollback : Result S → Request → Applied S
  or_rollback (ok state) r = applied state (some r)
  or_rollback (err e) r = failed ("a rollback may be necessary. Reason: " <> e)

  -- the end of the case `LogOpRmPeer`, from the text of the peer's ID
  abbrev pub rm_peer_request : S → Result String → Applied S
  rm_peer_request state (err e) = panics
  rm_peer_request state (ok pidstr) = elim (b58_decode pidstr) [
    | err e ↦ panics
    | ok pid ↦ applied state (some (peer_manager_rm_peer pid))
  ]

  -- the `switch` of `ApplyTo`
  unfoldable pub apply_type : LogOpType → LogOp → S → Applied S
  apply_type pin op state =
      let arg = to_cid_arg x op.cid in
      or_rollback (o.add arg state) (track (cid_arg_to_serial x arg))
  apply_type unpin op state =
      let arg = to_cid_arg x op.cid in
      or_rollback (o.rm arg.cid state) (untrack (cid_arg_to_serial x arg))
  apply_type add_peer op state =
      let addr = to_multiaddr x op.peer in
      applied state (some (peer_manager_add_peer (multiaddr_to_serial x addr)))
  apply_type rm_peer op state = rm_peer_request state (value_for_ipfs (to_multiaddr x op.peer))
  apply_type other op state = applied state none

  unfoldable pub apply_to : LogOp → S → Applied S
  unfolding apply_type
  apply_to op state = apply_type op.type op state
