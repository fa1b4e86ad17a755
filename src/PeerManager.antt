-- ===== src/PeerManager.antt =====
-- peer_manager.go: the peers of the cluster and their addresses.
pub mod Addresses
use ipfs_cluster.Common.{
  String, Bool, true, ◌&&◌, ◌||◌, not, Option, none, some, List, [], ◌∷◌, ◌==◌, if◌then◌else◌,
}
use ipfs_cluster.Common.Dict.{Dict, insert, delete, has, keys}
use ipfs_cluster.Common.Result.{Error, Result, ok, err}
use ipfs_cluster.External.{Codecs, PeerId}
use ipfs_cluster.Util.{multiaddr_split}

-- The lock is not modelled: each method runs whole. `cluster_addr` is the configuration's.
pub record PeerManager (Addr : Type 0) : Type 0 where
  pub self : PeerId
  pub cluster_addr : Addr
  pub peermap : Dict Addr

unfoldable pub reset_peers : {Addr : Type 0} → PeerManager Addr → PeerManager Addr
reset_peers pm = record pm { peermap = insert pm.self pm.cluster_addr [] }

unfoldable pub new_peer_manager : {Addr : Type 0} → PeerId → Addr → PeerManager Addr
unfolding reset_peers
new_peer_manager self addr = reset_peers (record { self = self; cluster_addr = addr; peermap = [] })

unfoldable pub is_peer : {Addr : Type 0} → PeerManager Addr → PeerId → Bool
is_peer pm p = if p == pm.self then true else has p pm.peermap

unfoldable pub peers : {Addr : Type 0} → PeerManager Addr → List PeerId
peers pm = keys pm.peermap

-- the loop of `peersAddrs`
unfoldable pub addrs_but : {Addr : Type 0} → PeerId → Dict Addr → List Addr
addrs_but self [] = []
addrs_but self ((k, addr) ∷ d) =
    let rest = addrs_but self d in if k == self then rest else addr ∷ rest

unfoldable pub peers_addrs : {Addr : Type 0} → PeerManager Addr → List Addr
unfolding addrs_but
peers_addrs pm = addrs_but pm.self pm.peermap

-- `rmPeer`; with the new state, whether it has started the shutdown of this peer, which runs later
unfoldable pub rm_peer :
    {Addr : Type 0} → PeerId → Bool → PeerManager Addr → Bool × PeerManager Addr
rm_peer pid self_shutdown pm =
    ((pid == pm.self) && self_shutdown, record pm { peermap = delete pid pm.peermap })

-- `add_addr` is the peerstore's `AddAddr`, on the peerstore `P`.
module _ {Cid Addr P : Type 0} (x : Codecs Cid Addr) (add_addr : PeerId → Addr → P → P) where
  unfoldable pub add_peer : Addr → PeerManager Addr → P → Option Error × PeerManager Addr × P
  unfolding multiaddr_split
  add_peer addr pm ps = elim (multiaddr_split x addr) [
    | err e ↦ (some e, pm, ps)
    | ok (pid, decap_addr) ↦
        (none, record pm { peermap = insert pid addr pm.peermap }, add_addr pid decap_addr ps)
  ]

  unfoldable pub add_from_multiaddrs :
      List Addr → PeerManager Addr → P → Option Error × PeerManager Addr × P
  unfolding add_peer
  add_from_multiaddrs [] pm ps = (none, pm, ps)
  add_from_multiaddrs (m ∷ addrs) pm ps =
      let (e, pm', ps') = add_peer m pm ps in
      let rest = add_from_multiaddrs addrs pm' ps' in
      elim e [ none ↦ rest | some e' ↦ (some e', pm', ps') ]
