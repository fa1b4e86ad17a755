-- ===== src/Tests/Members.antt =====
-- Peers that are added and join, the sync of the state, and statuses of members, on concrete inputs.
use ipfs_cluster.Common.{
  String, ◌≡◌, ◌≢◌, refl, Option, none, some, List, [], ◌∷◌, ◌==◌, if◌then◌else◌, arith, eq_iff,
}
use ipfs_cluster.Common.Dict.{lookup, insert, delete}
use ipfs_cluster.Common.Result.{Error, ok, err}
use ipfs_cluster.External.{Codecs, PeerId}
use ipfs_cluster.Api.Types.{CidArg, CidArgSerial, PinInfoSerial}
use ipfs_cluster.Api.Ids.{ClusterId, IdSerial, multiaddr_to_serial}
use ipfs_cluster.Util.{multiaddr_split, multiaddr_join, get_remote_multiaddr}
use ipfs_cluster.PeerManager.{PeerManager, add_peer, rm_peer}
use ipfs_cluster.Cluster.Peers.{
  Network, id_with_error, manager_add, manager_remove, undo_add, send_peers, add_remote, peer_add,
  join, joined,
}
use ipfs_cluster.Cluster.Peers.Joining.{peer_add-forgets, peer_add-logged, join-synced}
use ipfs_cluster.Api.Status.{TrackerStatus, pinned}
use ipfs_cluster.Api.Types.{PinInfo, cid_arg_to_serial, to_cid_arg}
use ipfs_cluster.State
use ipfs_cluster.State.{MapState, new_map_state, map_state_ops}
use ipfs_cluster.Tracker.{MapPinTracker, new_map_pin_tracker, get}
use ipfs_cluster.Tracker.Workers
use ipfs_cluster.Tracker.Runs.{Call}
use ipfs_cluster.Cluster.StateSync.{untracked, leftover, spawned, state_sync}
use ipfs_cluster.Cluster.StateSync.Due.{Due}
use ipfs_cluster.Cluster.Queries.{CidMethod, status}
use ipfs_cluster.Cluster.Global.Gathered.{contains}
use ipfs_cluster.Rpc.Trackers
use ipfs_cluster.Api.RoundTrip.{rewritten}
use ipfs_cluster.Rpc.Statuses.{lookup-status}
use ipfs_cluster.Tests.World.{codecs, daemon, arg_for}

-- an address is a peer's, or is without the peer
abbrev addresses : Codecs String String
addresses = record codecs {
  value_for_ipfs =
      λ a. if a == "/ipfs/A" then ok "A" else if a == "/ipfs/B" then ok "B" else err "no peer";
}

abbrev manager : PeerManager String
manager = record { self = "A"; cluster_addr = ""; peermap = ("A", "") ∷ ("B", "/ipfs/B") ∷ [] }

abbrev nobody : IdSerial
nobody = record {
  id = "B";
  addresses = [];
  cluster_peers = [];
  version = "";
  commit = "";
  rpc_protocol_version = "";
  error = "";
  ipfs = record { id = ""; addresses = []; error = "" };
}

-- every call succeeds, and the state is the peer manager
abbrev pub network : Network String (PeerManager String)
network = record {
  pm = λ w. w;
  set_pm = λ q w. q;
  add_addr = λ p a w. w;
  conns_to_peer = λ p w. [];
  log_add_peer = λ a w. (none, w);
  log_rm_peer = λ p w. (none, w);
  wait_for_sync = λ w. (none, w);
  state_sync = λ w. w;
  remote_multiaddr_for_peer = λ p q w. (ok "/ipfs/A", w);
  add_from_multiaddrs_of = λ p addrs w. (none, w);
  rm_peer_shutdown = λ p q w. (none, w);
  peer_add_of = λ p a w. (ok nobody, w);
  id_of = λ p w. (ok nobody, w);
  pretty = λ p. p;
}

abbrev leaderless : Network String (PeerManager String)
leaderless = record network { log_add_peer = λ a w. (some "no leader", w) }

program : Unit {0}
unfolding multiaddr_split multiaddr_join get_remote_multiaddr add_peer rm_peer manager_add
    manager_remove undo_add send_peers add_remote peer_add join joined id_with_error insert delete
program = tt

abbrev alone : PeerManager String
alone = record manager { peermap = ("A", "") ∷ [] }

-- "B" was a member before
peer_add-forgets_example : lookup "B" alone.peermap ≡ none
unfolding program
peer_add-forgets_example =
    peer_add-forgets addresses leaderless "A" "/ipfs/B" "" "/ipfs/B" "" "B" manager alone
      (id_with_error "B" "no leader") "no leader" (λ q w. refl) refl refl refl refl

abbrev added : Option ((ClusterId String × Option Error) × PeerManager String)
added = peer_add addresses network "A" "/ipfs/B" manager

abbrev no_id : ClusterId String
no_id = id_with_error "" ""

abbrev id_in : Option ((ClusterId String × Option Error) × PeerManager String) → ClusterId String
id_in none = no_id
id_in (some ((i, e), w)) = i

peer_add-logged_example :
    ((a : String) × ((network.remote_multiaddr_for_peer "B" "A" manager).0 ≡ ok a))
    × ((network.log_add_peer "/ipfs/B" manager).0 ≡ none)
unfolding program
peer_add-logged_example =
    peer_add-logged addresses network "A" "/ipfs/B" "" "/ipfs/B" "" "B" manager manager
      (id_in added) refl refl refl refl

b-a : nobody.id ≢ manager.self
b-a e = ground (arith, eq_iff nobody.id manager.self, e)

join-synced_example :
    (mine : String) × (id : IdSerial) × (multiaddr_join addresses "" "A" ≡ some mine)
    × ((network.peer_add_of "B" (multiaddr_to_serial addresses mine) manager).0 ≡ ok id)
    × (let (waited, w3) = network.wait_for_sync manager in
        (waited ≡ none) × (manager ≡ network.state_sync w3))
unfolding program
join-synced_example =
    join-synced addresses network "A" "/ipfs/B" "" "B" manager manager refl b-a refl

-- the state has the pins "x" and "y"; the tracker has "y" and "z"
abbrev shared : MapState
shared = State.add codecs (arg_for "y" []) (State.add codecs (arg_for "x" ("A" ∷ [])) new_map_state)

abbrev entry_of : String → TrackerStatus → PinInfo String
entry_of c s = record { cid = c; peer = "A"; status = s; ts = 5; error = "" }

abbrev tracker : MapPinTracker String
tracker = record (new_map_pin_tracker "A") {
  status = ("y", entry_of "y" pinned) ∷ ("z", entry_of "z" pinned) ∷ [];
}

abbrev spawn_order : List (Call String)
spawn_order = (state_sync codecs (map_state_ops codecs) 7 (ok shared) tracker tracker).1

sync_program : Unit {0}
unfolding state_sync spawned untracked leftover get lookup insert delete new_map_pin_tracker
    cid_arg_to_serial to_cid_arg map_state_ops State.add State.list State.has_cid new_map_state
    Workers.status_all
sync_program = tt

abbrev y_pin : CidArg String
y_pin = arg_for "y" []

-- what is started is `Track` of "x" and `Untrack` of "z"
started : spawn_order ≡ Call.track (arg_for "x" ("A" ∷ [])) ∷ Call.untrack "z" ∷ []
unfolding sync_program
started = refl

abbrev asked : CidMethod → CidArgSerial → PeerId → PinInfoSerial × Option String
asked method arg q = (Trackers.tracker_status codecs daemon arg tracker 5, none)

lookup-status_example : lookup "B" (status codecs 9 ("A" ∷ "B" ∷ []) asked "y").peer_map ≡ (
    if contains ("A" ∷ "B" ∷ []) "B"
    then some (rewritten codecs (Workers.status codecs daemon "y" tracker 5))
    else none)
unfolding sync_program Workers.status
lookup-status_example =
    lookup-status codecs daemon 9 ("A" ∷ "B" ∷ []) (λ q. tracker) (λ q. 5) asked "y" "B"
      (λ arg q. refl) refl (record { cid = refl; peer = refl })
