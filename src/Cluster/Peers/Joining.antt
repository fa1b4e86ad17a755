-- ===== src/Cluster/Peers/Joining.antt =====
-- cluster.go: what `PeerAdd` and `Join` leave behind, when they succeed and when they fail.
use ipfs_cluster.Common.{
  String, ◌≡◌, ◌≢◌, refl, sym, ap, subst, ◌∙◌, ◌⊎◌, inl, inr, false, Option, none, some, ◌==◌,
  arith, Option-cases, eq_iff, if-false,
}
use ipfs_cluster.Common.Dict.{lookup, lookup-delete_self}
use ipfs_cluster.Common.Result.{Error, ok, Result-cases}
use ipfs_cluster.External.{Codecs, PeerId}
use ipfs_cluster.Api.Ids.{ClusterId, IdSerial, multiaddr_to_serial}
use ipfs_cluster.Util.{multiaddr_split, multiaddr_join, get_remote_multiaddr}
use ipfs_cluster.PeerManager.{PeerManager, rm_peer, add_peer}
use ipfs_cluster.Cluster.Peers.{
  Network, manager_add, manager_remove, undo_add, send_peers, add_remote, peer_add, join, joined,
}

module _ {Cid Addr W : Type 0} (x : Codecs Cid Addr) (net : Network Addr W) (self : PeerId) where
  open net use {pm, set_pm, add_addr, conns_to_peer, log_add_peer, remote_multiaddr_for_peer}

  -- What is written as the peer manager is read back.
  abbrev pub Keeps : Type 0
  Keeps = (q : PeerManager Addr) (w : W) → pm (set_pm q w) ≡ q

  removed :
      (pid : PeerId) (w : W)
      → Keeps
      → lookup pid (pm (manager_remove x net self pid w)).peermap ≡ none
  unfolding manager_remove rm_peer
  removed pid w keeps = rw (keeps _ w) (lookup-delete_self pid (pm w).peermap)

  abbrev world_after : W → Option ((ClusterId Addr × Option Error) × W) → W
  world_after w none = w
  world_after w (some (r, w')) = w'

  abbrev error_of : Option ((ClusterId Addr × Option Error) × W) → Option Error
  error_of none = none
  error_of (some ((id, e), w)) = e

  manager_add-ok :
      (addr d : Addr) (pid : PeerId) (w : W)
      → multiaddr_split x addr ≡ ok (pid, d)
      → (manager_add x net self addr w).0 ≡ none
  unfolding manager_add add_peer
  manager_add-ok addr d pid w e = rw (e, add_peer) refl

  -- the two ways in which `addPeer` and what follows it fail
  add_remote-cases :
      (remote d : Addr) (pid : PeerId) (w : W)
      → multiaddr_split x remote ≡ ok (pid, d)
      → let w1 = (manager_add x net self remote w).1 in
        let (res, w2) = remote_multiaddr_for_peer pid self w1 in
        let (e, w3) = log_add_peer remote w2 in
        ((m : Error) × (v : W) × (add_remote x net self pid remote w ≡ undo_add x net self pid m v))
        ⊎ ((a : String) × (res ≡ ok a)
            × (e ≡ none)
            × (add_remote x net self pid remote w ≡ send_peers x net self pid a w3))
  unfolding add_remote
  add_remote-cases remote d pid w split =
      let added = manager_add-ok remote d pid w split in
      let w1 = (manager_add x net self remote w).1 in
      let w2 = (remote_multiaddr_for_peer pid self w1).1 in
      elim (Result-cases (remote_multiaddr_for_peer pid self w1).0) [
        | inr (m, fails) ↦ inl (m, w2, rw (added, fails, add_remote) refl)
        | inl (a, answers) ↦ elim (Option-cases (log_add_peer remote w2).0) [
          | inr (m, fails) ↦
              inl (m, (log_add_peer remote w2).1, rw (added, answers, fails, add_remote) refl)
          | inl logged ↦ inr (a, answers, logged, rw (added, answers, logged, add_remote) refl)
        ]
      ]

  peer_add-remote :
      (addr da remote : Addr) (pid : PeerId) (w : W)
      → multiaddr_split x addr ≡ ok (pid, da)
      → get_remote_multiaddr x (conns_to_peer pid w) pid da ≡ some remote
      → peer_add x net self addr w ≡ add_remote x net self pid remote w
  unfolding peer_add
  peer_add-remote addr da remote pid w split found = rw (split, found, peer_add) refl

  undo-forgets :
      (pid : PeerId) (m : Error) (v : W)
      → Keeps
      → lookup pid (pm (world_after v (undo_add x net self pid m v))).peermap ≡ none
  unfolding undo_add
  undo-forgets pid m v keeps = removed pid v keeps

  -- A `PeerAdd` of an address that splits, and that fails after that, leaves its peer out of the
  -- peer manager, also if the peer was a member before the call. The address that this peer is
  -- seen at has the same peer ID, and the peer manager is part of the state.
  pub peer_add-forgets :
      (addr da remote d : Addr) (pid : PeerId) (w w' : W) (id : ClusterId Addr) (e : Error)
      → Keeps
      → multiaddr_split x addr ≡ ok (pid, da)
      → get_remote_multiaddr x (conns_to_peer pid w) pid da ≡ some remote
      → multiaddr_split x remote ≡ ok (pid, d)
      → peer_add x net self addr w ≡ some ((id, some e), w')
      → lookup pid (pm w').peermap ≡ none
  unfolding send_peers
  peer_add-forgets addr da remote d pid w w' id e keeps split found again fails =
      let start = peer_add-remote addr da remote pid w split found in
      elim (add_remote-cases remote d pid w again) [
        | inl (m, v, undone) ↦
            let here : undo_add x net self pid m v ≡ some ((id, some e), w') =
              sym undone ∙ sym start ∙ fails in
            subst (λ u. lookup pid (pm u).peermap ≡ none) (ap (world_after v) here)
              (undo-forgets pid m v keeps)
        | inr (a, answers, logged, sent) ↦
            absurd (ok_sends (sym (ap error_of (sym sent ∙ sym start ∙ fails))))
      ]
    where
      ok_sends : {a : Error} → some a ≡ none → ⊥
      ok_sends q = cc

  -- A `PeerAdd` without an error has been answered by the peer and has committed the address that
  -- it is seen at to the log. The address splits, and the address that it is seen at too.
  pub peer_add-logged :
      (addr da remote d : Addr) (pid : PeerId) (w w' : W) (id : ClusterId Addr)
      → multiaddr_split x addr ≡ ok (pid, da)
      → get_remote_multiaddr x (conns_to_peer pid w) pid da ≡ some remote
      → multiaddr_split x remote ≡ ok (pid, d)
      → peer_add x net self addr w ≡ some ((id, none), w')
      → let w1 = (manager_add x net self remote w).1 in
        let (res, w2) = remote_multiaddr_for_peer pid self w1 in
        ((a : String) × (res ≡ ok a)) × ((log_add_peer remote w2).0 ≡ none)
  unfolding undo_add
  peer_add-logged addr da remote d pid w w' id split found again fine =
      let start = peer_add-remote addr da remote pid w split found in
      elim (add_remote-cases remote d pid w again) [
        | inl (m, v, undone) ↦ absurd (failed (ap error_of (sym undone ∙ sym start ∙ fine)))
        | inr (a, answers, logged, sent) ↦ ((a, answers), logged)
      ]
    where
      failed : {m : Error} → some m ≡ none → ⊥
      failed q = cc

  joined-ok :
      (res : Option Error × W) (w' : W)
      → joined x net self res ≡ (none, w')
      → (res.0 ≡ none) × (w' ≡ net.state_sync res.1)
  unfolding joined
  joined-ok (none, v) w' h = (refl, sym (ap (λ p. p.1) h))
  joined-ok (some m, v) w' h = absurd (cc h)

  -- A `Join` of another peer that reports no error has been added by that peer, under this peer's
  -- own address, has then seen the leader and the whole log, and has synced its tracker last.
  pub join-synced :
      (addr d : Addr) (pid : PeerId) (w w' : W)
      → multiaddr_split x addr ≡ ok (pid, d)
      → pid ≢ self
      → join x net self addr w ≡ some (none, w')
      → let w1 = (manager_add x net self addr w).1 in
        (mine : Addr) × (id : IdSerial) × (multiaddr_join x (pm w1).cluster_addr self ≡ some mine)
        × ((net.peer_add_of pid (multiaddr_to_serial x mine) w1).0 ≡ ok id)
        × (let (waited, w3) =
              net.wait_for_sync (net.peer_add_of pid (multiaddr_to_serial x mine) w1).1 in
            (waited ≡ none) × (w' ≡ net.state_sync w3))
  unfolding join
  join-synced addr d pid w w' split other h =
      let w1 = (manager_add x net self addr w).1 in
      let ne : (pid == self) ≡ false = ground (arith, other, eq_iff pid self) in
      elim (Option-cases (multiaddr_join x (pm w1).cluster_addr self)) [
        | inl broken ↦
            let stops : join x net self addr w ≡ none =
              rw (split, broken, join) (if-false _ _ _ ne) in
            absurd (cc (sym stops ∙ h))
        | inr (mine, joins) ↦
            let res = net.peer_add_of pid (multiaddr_to_serial x mine) w1 in
            elim (Result-cases res.0) [
              | inr (m, fails) ↦
                  let stops : join x net self addr w ≡ some (some m, res.1) =
                    rw (split, joins, fails, join) (if-false _ _ _ ne) in
                  absurd (cc (sym stops ∙ h))
              | inl (id, answers) ↦
                  let goes : join x net self addr w
                      ≡ some (joined x net self (net.wait_for_sync res.1)) =
                    rw (split, joins, answers, join) (if-false _ _ _ ne) in
                  let last = joined-ok (net.wait_for_sync res.1) w' (unwrap (sym goes ∙ h)) in
                  (mine, id, joins, answers, last)
            ]
      ]
    where
      unwrap : {p q : Option Error × W} → some p ≡ some q → p ≡ q
      unwrap {p} e = ap (λ o. elim o [ none ↦ p | some q ↦ q ]) e
