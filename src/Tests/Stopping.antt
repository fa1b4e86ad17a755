-- ===== src/Tests/Stopping.antt =====
-- The lifecycle of a peer, Raft's waits, and the handlers of the two HTTP servers, on concrete inputs.
use ipfs_cluster.Common.{
  ℕ, ◌+◌, String, ◌≡◌, ◌≢◌, inr, refl, ap, true, false, Option, none, some, [], ◌∷◌, ◌<>◌, arith,
  eq_iff, if◌then◌else◌,
}
use ipfs_cluster.Common.Int.{pos}
use ipfs_cluster.Common.Dict.{lookup}
use ipfs_cluster.Common.Result.{Error, ok, err, value_or}
use ipfs_cluster.Api.Metrics.{no_metric}
use ipfs_cluster.Api.Types.{CidArgSerial, GlobalPinInfoSerial}
use ipfs_cluster.PeerManager.{PeerManager, peers_addrs, addrs_but}
use ipfs_cluster.Cluster.Lifecycle.{
  Cluster, Parts, save_peers, leave, stop_parts, stop_consensus, shutdown_cluster,
}
use ipfs_cluster.Cluster.Lifecycle.Stopping.{Ended, shutdown-done}
use ipfs_cluster.Raft.{Raft, done, take_snapshot, shutdown_raft, wait_for_updates}
use ipfs_cluster.Raft.Waiting.{UpdatesAnswer, wait_for_updates-returns}
use ipfs_cluster.Consensus.Lifecycle.{Consensus, shutdown_consensus, shutdown_consensus-again}
use ipfs_cluster.Rest.{Request, ClusterRpc, routes}
use ipfs_cluster.Rest.Responses.{Keep, promises, routes-Keep}
use ipfs_cluster.Ipfs.{IpfsHttpConnector}
use ipfs_cluster.Ipfs.Proxy
use ipfs_cluster.Ipfs.Proxy.{ProxyOps, respond, pin_ls_handler}
use ipfs_cluster.Ipfs.Listing.{is_listed, pin_ls_handler-listed}
use ipfs_cluster.Tests.World.{codecs}

abbrev manager : PeerManager String
manager = record { self = "A"; cluster_addr = "/a"; peermap = ("A", "/a") ∷ ("B", "/b") ∷ [] }

abbrev cluster : Cluster String
cluster = record {
  id = "A";
  leave_on_shutdown = false;
  has_consensus = true;
  peer_manager = manager;
  cluster_peers = [];
  cancelled = false;
  closed = false;
  ready = true;
  shutdown = false;
}

abbrev stopped : Cluster String
stopped = record cluster {
  cluster_peers = "/b" ∷ [];
  cancelled = true;
  closed = true;
  shutdown = true;
}

-- the state counts the calls
abbrev parts : Parts String ℕ
parts = record {
  save_config = λ a w. (none, w + 1);
  log_rm_peer = λ p w. (none, w + 1);
  shutdown_consensus = λ w. some (none, w + 1);
  shutdown_api = λ w. (none, w + 1);
  shutdown_ipfs = λ w. (none, w + 1);
  shutdown_tracker = λ w. (none, w + 1);
  setup_rpc = λ w. (none, w + 1);
  setup_consensus = λ w. (some "no folder", w + 1);
  set_clients = λ w. w;
  bootstrap = λ w. some (true, w + 1);
  leader = λ w. ok "A";
  get_metric = λ w. (no_metric, w);
  log_metric = λ p m w. (none, w);
}

shutdown-done_example :
    (stopped.cancelled ≡ true)
    × (stopped.closed ≡ true)
    × (stopped.cluster_peers
        ≡ (if cluster.leave_on_shutdown then [] else peers_addrs cluster.peer_manager))
    × ((at : ℕ) × Ended {Addr = String} parts stopped.cluster_peers at 5)
    × (shutdown_cluster parts stopped 9 ≡ some (none, stopped, 9))
unfolding shutdown_cluster leave stop_consensus stop_parts save_peers addrs_but
shutdown-done_example = shutdown-done parts cluster stopped 0 5 9 refl refl

-- Raft has applied all of its log once two pauses have passed; it cannot be stopped
abbrev raft : Raft ℕ
raft = record {
  leader = λ w. "B";
  applied_index = λ w. w;
  last_index = λ w. 2;
  ctx_err = λ w. none;
  pause = λ w. w + 1;
  select = λ w. (done "timeout", w);
  snapshot = λ w. (none, w);
  stop = λ w. (some "busy", w);
  close_boltdb = λ w. (none, w);
  contains = λ s t. false;
}

wait_for_updates-returns_example :
    (res : Option Error × ℕ) × (wait_for_updates raft 3 0 ≡ some res) × UpdatesAnswer raft res
wait_for_updates-returns_example = wait_for_updates-returns raft 2 0 (inr refl)

abbrev running : Consensus
running = record { shutdown = false; closed = false }

abbrev half_stopped : Consensus
half_stopped = record { shutdown = false; closed = true }

abbrev busy : Error
busy = "could not shutdown raft: busy.\nConsensus shutdown unsuccessful"

shutdown_consensus-again_example : shutdown_consensus raft half_stopped 1 ≡ none
unfolding shutdown_consensus take_snapshot shutdown_raft
shutdown_consensus-again_example =
    shutdown_consensus-again raft running half_stopped 0 0 1 (some busy) refl

abbrev no_status : GlobalPinInfoSerial
no_status = record { cid = "x"; peer_map = [] }

abbrev pub rpc : ClusterRpc ℕ
rpc = record {
  id = λ w. (err "no ID", w + 1);
  version = λ w. (ok "0.0.9", w + 1);
  peers = λ w. (ok [], w + 1);
  peer_add = λ a w. (err "no peer", w + 1);
  peer_remove = λ p w. (none, w + 1);
  pin = λ c w. (none, w + 1);
  unpin = λ c w. (some "no leader", w + 1);
  pin_list = λ w. (ok [], w + 1);
  status_all = λ w. (ok [], w + 1);
  sync_all = λ w. (ok [], w + 1);
  status = λ c w. (ok no_status, w + 1);
  sync = λ c w. (ok no_status, w + 1);
  recover = λ c w. (ok no_status, w + 1);
}

abbrev request : Request
request = record { hash = "x"; peer = "B"; body = "/b" }

b_text : codecs.b58_decode request.peer ≢ ok ""
b_text e =
    let same : request.peer ≡ "" = ap (value_or "") e in
    ground (arith, same, eq_iff request.peer "")

routes-Keep_example :
    Keep codecs rpc
      (λ s. ok s)
      request
      0
      (promises codecs rpc (λ s. ok s))
      (routes codecs rpc (λ s. ok s))
routes-Keep_example = routes-Keep codecs rpc (λ s. ok s) request 0 ("no CID", refl) b_text

abbrev listed : CidArgSerial
listed = record { cid = "x"; allocations = []; everywhere = false }

abbrev proxy : ProxyOps ℕ
proxy = record {
  call_op = λ op c w. (none, w + 1);
  pin_list = λ w. (ok (listed ∷ []), w + 1);
  new_request = λ r ipfs. ok r;
  send = λ r w. (err "no daemon", w);
}

abbrev ls_request : Proxy.Request
ls_request = record {
  method = "GET";
  path = "/api/v0/pin/ls";
  query = ("arg", "x" ∷ []) ∷ [];
  payload = "";
}

abbrev connector : IpfsHttpConnector
connector = record {
  dest_host = "h";
  dest_port = pos 1;
  listen_addr = "h";
  listen_port = pos 2;
  shutdown = false;
}

pin_ls_handler-listed_example : pin_ls_handler codecs proxy connector ls_request 0 ≡ (
  (if is_listed "x" (listed ∷ [])
      then respond 200 (Proxy.Body.pin_ls_resp (("x", "recursive") ∷ []))
      else Proxy.ipfs_error_responder ("Error: path '" <> "x" <> "' is not pinned")),
  1,
)
unfolding lookup
pin_ls_handler-listed_example =
    pin_ls_handler-listed codecs proxy connector ls_request "x" [] (listed ∷ []) 0 1 refl refl
