-- ===== src/Cluster/Peers.antt =====
-- cluster.go: `PeerAdd`, `PeerRemove`, `Join`, `Peers`, `ID` and what starts a peer. A panic of
-- `multiaddrJoin` is `none`.
pub mod Joining
use ipfs_cluster.Common.{
  ℕ, String, Bool, true, false, Option, none, some, List, [], ◌∷◌, ◌++◌, map, ◌<>◌, ◌==◌, ◌||◌, not,
  if◌then◌else◌,
}
use ipfs_cluster.Common.Dict.{Dict, insert, keys}
use ipfs_cluster.Common.Result.{Error, Result, ok, err, value_or}
use ipfs_cluster.External.{Codecs, PeerId}
use ipfs_cluster.Api.Ids.{
  ClusterId, IdSerial, Ipfsid, id_to_serial, to_id, multiaddr_to_serial, multiaddrs_to_serial,
  to_multiaddr,
}
use ipfs_cluster.Util.{multiaddr_split, multiaddr_join, get_remote_multiaddr, peers_from_multiaddrs}
use ipfs_cluster.PeerManager.{
  PeerManager, new_peer_manager, add_peer, add_from_multiaddrs, rm_peer, is_peer, peers,
  peers_addrs,
}

-- What the operations call, over the state `W` of this peer, its peer manager included, and of all
-- others: the peerstore, the connections of the host, the consensus, and the RPC methods of the
-- peer that is named first.
pub record Network (Addr W : Type 0) : Type 0 where
  pub pm : W → PeerManager Addr
  pub set_pm : PeerManager Addr → W → W
  pub add_addr : PeerId → Addr → W → W
  pub conns_to_peer : PeerId → W → List Addr
  pub log_add_peer : Addr → W → Option Error × W
  pub log_rm_peer : PeerId → W → Option Error × W
  pub wait_for_sync : W → Option Error × W
  pub state_sync : W → W
  pub remote_multiaddr_for_peer : PeerId → PeerId → W → Result String × W
  pub add_from_multiaddrs_of : PeerId → List String → W → Option Error × W
  pub rm_peer_shutdown : PeerId → PeerId → W → Option Error × W
  pub peer_add_of : PeerId → String → W → Result IdSerial × W
  pub id_of : PeerId → W → Result IdSerial × W
  pub pretty : PeerId → String

-- `api.ID{ID: pid, Error: msg}`
unfoldable pub id_with_error : {Addr : Type 0} → PeerId → Error → ClusterId Addr
id_with_error pid msg = record {
  id = pid;
  addresses = [];
  cluster_peers = [];
  version = "";
  commit = "";
  rpc_protocol_version = "";
  error = msg;
  ipfs = record { id = ""; addresses = []; error = "" };
}

module _ {Cid Addr W : Type 0} (x : Codecs Cid Addr) (net : Network Addr W) (self : PeerId) where
  open net use {
    pm, set_pm, add_addr, conns_to_peer, log_add_peer, log_rm_peer, wait_for_sync, state_sync,
    remote_multiaddr_for_peer, add_from_multiaddrs_of, rm_peer_shutdown, peer_add_of, id_of, pretty,
  }

  -- `c.peerManager.addPeer` and `c.peerManager.rmPeer(pid, false)`
  unfoldable pub manager_add : Addr → W → Option Error × W
  unfolding add_peer
  manager_add addr w = let (e, pm', w') = add_peer x add_addr addr (pm w) w in (e, set_pm pm' w')

  unfoldable pub manager_remove : PeerId → W → W
  unfolding rm_peer
  manager_remove pid w = set_pm (rm_peer pid false (pm w)).1 w

  unfoldable pub get_id_for_peer : PeerId → W → (ClusterId Addr × Option Error) × W
  unfolding to_id id_to_serial id_with_error
  get_id_for_peer pid w =
      let (res, w') = id_of pid w in
      elim res [
        | ok id_serial ↦ ((to_id x id_serial, none), w')
        | err e ↦
            let id = to_id x (id_to_serial x (id_with_error {Addr = Addr} pid "")) in
            ((record id { error = e }, some e), w')
      ]

  -- the end of `PeerAdd` once a call has failed: the peer is removed again
  unfoldable pub undo_add : PeerId → Error → W → Option ((ClusterId Addr × Option Error) × W)
  unfolding manager_remove id_with_error
  undo_add pid e w = some ((id_with_error pid e, some e), manager_remove pid w)

  -- `PeerAdd` once the peer is in the log; errors of `getIDForPeer` are dropped
  unfoldable pub send_peers : PeerId → String → W → Option ((ClusterId Addr × Option Error) × W)
  unfolding peers_addrs to_multiaddr multiaddrs_to_serial get_id_for_peer
  send_peers pid addr_serial w =
      let cluster_peers = peers_addrs (pm w) ++ to_multiaddr x addr_serial ∷ [] in
      let (e, w1) = add_from_multiaddrs_of pid (multiaddrs_to_serial x cluster_peers) w in
      let ((id, e'), w2) = get_id_for_peer pid w1 in some ((id, none), w2)

  -- `PeerAdd` from `addPeer` on
  unfoldable pub add_remote : PeerId → Addr → W → Option ((ClusterId Addr × Option Error) × W)
  unfolding manager_add undo_add send_peers id_with_error
  add_remote pid remote_addr w =
      let (e, w1) = manager_add remote_addr w in
      elim e [
        | some m ↦ some ((id_with_error pid m, some m), w1)
        | none ↦
            let (res, w2) = remote_multiaddr_for_peer pid self w1 in
            elim res [
              | err m ↦ undo_add pid m w2
              | ok addr_serial ↦
                  let (e', w3) = log_add_peer remote_addr w2 in
                  elim e' [ some m ↦ undo_add pid m w3 | none ↦ send_peers pid addr_serial w3 ]
            ]
      ]

  unfoldable pub peer_add : Addr → W → Option ((ClusterId Addr × Option Error) × W)
  unfolding multiaddr_split get_remote_multiaddr add_remote id_with_error
  peer_add addr w = elim (multiaddr_split x addr) [
    | err e ↦ some ((id_with_error "" e, some e), w)
    | ok (pid, decap_addr) ↦ elim (get_remote_multiaddr x (conns_to_peer pid w) pid decap_addr) [
      | none ↦ none
      | some remote_addr ↦ add_remote pid remote_addr w
    ]
  ]

  unfoldable pub peer_remove : PeerId → W → Option Error × W
  unfolding is_peer
  peer_remove pid w =
      if not (is_peer (pm w) pid)
      then (some (pretty pid <> " is not a peer"), w)
      else (let (e, w1) = log_rm_peer pid w in
          elim e [
            | some m ↦ (some m, w1)
            | none ↦ let (e', w2) = rm_peer_shutdown pid pid w1 in (none, w2)
          ])

  -- `Join` once the other peer has been asked to add this one
  unfoldable pub joined : Option Error × W → Option Error × W
  joined (some e, w) = (some e, w)
  joined (none, w) = (none, state_sync w)

  unfoldable pub join : Addr → W → Option (Option Error × W)
  unfolding multiaddr_split manager_add multiaddr_join multiaddr_to_serial joined
  join addr w = elim (multiaddr_split x addr) [
    | err e ↦ some (some e, w)
    | ok (pid, _) ↦
        if pid == self
        then some (none, w)
        else (let (e, w1) = manager_add addr w in
            elim (multiaddr_join x (pm w1).cluster_addr self) [
              | none ↦ none
              | some my_addr ↦
                  let (res, w2) = peer_add_of pid (multiaddr_to_serial x my_addr) w1 in
                  elim res [
                    | err m ↦ some (some m, w2)
                    | ok my_id ↦ some (joined (wait_for_sync w2))
                  ]
            ])
  ]

  -- the loop of `bootstrap`
  unfoldable pub bootstrap_to : List Addr → W → Option (Bool × W)
  unfolding join
  bootstrap_to [] w = some (false, w)
  bootstrap_to (b ∷ bs) w = elim (join b w) [
    | none ↦ none
    | some (none, w1) ↦ some (true, w1)
    | some (some e, w1) ↦ bootstrap_to bs w1
  ]

  -- `bootstrap`, with `Bootstrap` and `ClusterPeers` of the configuration
  unfoldable pub bootstrap : List Addr → List Addr → W → Option (Bool × W)
  unfolding bootstrap_to
  bootstrap [] cluster_peers w = some (true, w)
  bootstrap (b ∷ bs) (p ∷ ps) w = some (true, w)
  bootstrap (b ∷ bs) [] w = bootstrap_to (b ∷ bs) w

  -- the peers that `setupPeerManager` and `setupConsensus` start with
  abbrev pub known_addrs : List Addr → List Addr → List Addr
  known_addrs boot [] = boot
  known_addrs boot (p ∷ ps) = p ∷ ps

  unfoldable pub setup_peer_manager : Addr → List Addr → List Addr → W → W
  unfolding new_peer_manager add_from_multiaddrs
  setup_peer_manager cluster_addr boot cluster_peers w =
      let pm0 = new_peer_manager self cluster_addr in
      let (e, pm', w') = add_from_multiaddrs x add_addr (known_addrs boot cluster_peers) pm0 w in
      set_pm pm' w'

  unfoldable pub start_peers : List Addr → List Addr → List PeerId
  unfolding peers_from_multiaddrs
  start_peers boot cluster_peers =
      peers_from_multiaddrs x (known_addrs boot cluster_peers) ++ self ∷ []

-- `Peers`: `ask` is `multiRPC` of the method `ID`, the reply of each member and its error.
module _ {Cid Addr : Type 0} (x : Codecs Cid Addr) where
  open x use {b58_encode}

  unfoldable pub member_id : (PeerId → IdSerial × Option Error) → PeerId → ClusterId Addr
  unfolding to_id
  member_id ask member = elim (ask member).1 [
    | none ↦ to_id x (ask member).0
    | some e ↦ to_id x (record (ask member).0 { id = b58_encode member; error = e })
  ]

  unfoldable pub peer_ids :
      (PeerId → IdSerial × Option Error) → PeerManager Addr → List (ClusterId Addr)
  unfolding member_id peers
  peer_ids ask pm = map (member_id ask) (peers pm)

  -- the loops of `ID` over the addresses of the host, without duplicates
  unfoldable pub addr_set : List Addr → Dict (Unit {0}) → Dict (Unit {0})
  addr_set [] set = set
  addr_set (addr ∷ addrs) set = addr_set addrs (insert (x.addr_string addr) tt set)

  unfoldable pub join_all : List String → PeerId → Option (List Addr)
  unfolding multiaddr_join
  join_all [] self = some []
  join_all (k ∷ ks) self = elim (multiaddr_join x (value_or x.nil_addr (x.new_multiaddr k)) self) [
    | none ↦ none
    | some addr ↦ elim (join_all ks self) [ none ↦ none | some addrs ↦ some (addr ∷ addrs) ]
  ]

  -- `ID`, from `Version`, `Commit`, `RPCProtocol`, the addresses of the host and the daemon's ID
  unfoldable pub cluster_id :
      String × String × String
      → List Addr
      → Ipfsid Addr
      → PeerManager Addr
      → Option (ClusterId Addr)
  unfolding addr_set join_all peers_addrs
  cluster_id (version, commit, protocol) host_addrs ipfs_id pm =
      elim (join_all (keys (addr_set host_addrs [])) pm.self) [
        | none ↦ none
        | some addrs ↦ some (record {
          id = pm.self;
          addresses = addrs;
          cluster_peers = peers_addrs pm;
          version = version;
          commit = commit;
          rpc_protocol_version = protocol;
          error = "";
          ipfs = ipfs_id;
        })
      ]
