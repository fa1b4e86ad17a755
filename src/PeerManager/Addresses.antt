-- ===== src/PeerManager/Addresses.antt =====
-- peer_manager.go: which addresses the manager holds and reports.
use mathlib.Core.List.Memᴰ
use ipfs_cluster.Common.{
  ◌≡◌, ◌≢◌, ◌↔◌, ◌∙◌, refl, sym, ap, Bool, true, false, Option, none, some, List, [], ◌∷◌, Memᴰ,
  arith, ◌==◌, eq_iff, eq_refl, if◌then◌else◌, Bool-cases, inl, inr,
}
use ipfs_cluster.Common.Dict.{Dict, Distinct, lookup, insert, lookup-insert}
use ipfs_cluster.Common.Result.{Error, ok, err, Result-cases}
use ipfs_cluster.External.{Codecs, PeerId}
use ipfs_cluster.Util.{multiaddr_split}
use ipfs_cluster.PeerManager.{PeerManager, addrs_but, peers_addrs, add_peer, add_from_multiaddrs}

addrs_but-of_mem :
    {Addr : Type 0} (self : PeerId) (d : Dict Addr) (a : Addr)
    → Distinct d
    → Memᴰ a (addrs_but self d)
    → (k : PeerId) × (k ≢ self) × (lookup k d ≡ some a)
unfolding addrs_but lookup
addrs_but-of_mem self [] a h i = elim i [ ]
addrs_but-of_mem self ((k, b) ∷ d) a h i = elim (Bool-cases (k == self)) [
  | inl own ↦
      let (j, ne, e) = addrs_but-of_mem self d a h.1 (rw own at i) in
      (j, ne, ground (arith, eq_iff k j, h.0))
  | inr other ↦ elim (Memᴰ.cases_cons (rw other at i)) [
    | inl same ↦ (k, ground (arith, eq_iff k self), rw eq_refl (ap some (sym same)))
    | inr j ↦
        let (l, ne, e) = addrs_but-of_mem self d a h.1 j in (l, ne, ground (arith, eq_iff k l, h.0))
  ]
]

addrs_but-mem :
    {Addr : Type 0} (self : PeerId) (d : Dict Addr) (a : Addr) (k : PeerId)
    → k ≢ self
    → lookup k d ≡ some a
    → Memᴰ a (addrs_but self d)
unfolding addrs_but lookup
addrs_but-mem self [] a k ne e = absurd (cc)
addrs_but-mem self ((j, b) ∷ d) a k ne e = elim (Bool-cases (j == k)) [
  | inl here ↦
      let other : (j == self) ≡ false = ground (arith, eq_iff j k, eq_iff j self) in
      let same : a ≡ b = ground arith in rw other (Memᴰ.head same)
  | inr there ↦
      let i = addrs_but-mem self d a k ne (rw there at e) in
      elim (Bool-cases (j == self)) [ inl own ↦ rw own i | inr other ↦ rw other (Memᴰ.tail i) ]
]

-- With a map in which no peer stands twice, the addresses that `peersAddrs` reports are exactly those that the map holds for the peers other
-- than this one.
pub peers_addrs_iff :
    {Addr : Type 0} (pm : PeerManager Addr) (a : Addr)
    → Distinct pm.peermap
    → Memᴰ a (peers_addrs pm) ↔ ((k : PeerId) × (k ≢ pm.self) × (lookup k pm.peermap ≡ some a))
unfolding peers_addrs
peers_addrs_iff pm a h =
    (addrs_but-of_mem pm.self pm.peermap a h, λ f. addrs_but-mem pm.self pm.peermap a f.0 f.1 f.2)

module _ {Cid Addr P : Type 0} (x : Codecs Cid Addr) (add_addr : PeerId → Addr → P → P) where
  -- The addresses before the first that holds no peer ID, and that one's error, if there is one.
  pub good_prefix : List Addr → List (PeerId × Addr)
  good_prefix [] = []
  good_prefix (a ∷ addrs) =
      let rest = good_prefix addrs in
      elim (multiaddr_split x a) [ err e ↦ [] | ok (pid, _) ↦ (pid, a) ∷ rest ]

  pub all_split : List Addr → Bool
  all_split [] = true
  all_split (a ∷ addrs) =
      let rest = all_split addrs in elim (multiaddr_split x a) [ err e ↦ false | ok _ ↦ rest ]

  -- The last address of the peer in a list, or the old one.
  pub last_addr : PeerId → List (PeerId × Addr) → Option Addr → Option Addr
  last_addr k [] old = old
  last_addr k ((pid, a) ∷ rest) old = last_addr k rest (if pid == k then some a else old)

  add_from_multiaddrs-ok :
      (a : Addr) (pid : PeerId) (d : Addr) (addrs : List Addr) (pm : PeerManager Addr) (ps : P)
      → multiaddr_split x a ≡ ok (pid, d)
      → add_from_multiaddrs x add_addr (a ∷ addrs) pm ps
        ≡ add_from_multiaddrs x add_addr addrs
            (record pm { peermap = insert pid a pm.peermap })
            (add_addr pid d ps)
  unfolding add_from_multiaddrs add_peer
  add_from_multiaddrs-ok a pid d addrs pm ps h = ground arith

  add_from_multiaddrs-err :
      (a : Addr) (e : Error) (addrs : List Addr) (pm : PeerManager Addr) (ps : P)
      → multiaddr_split x a ≡ err e
      → add_from_multiaddrs x add_addr (a ∷ addrs) pm ps ≡ (some e, pm, ps)
  unfolding add_from_multiaddrs add_peer
  add_from_multiaddrs-err a e addrs pm ps h = ground arith

  -- `addFromMultiaddrs` reports no error exactly if every address holds a peer ID. It adds the
  -- addresses up to the first that holds none, of two addresses of one peer the later one, and
  -- leaves the addresses of all other peers.
  pub lookup-add_from_multiaddrs :
      (addrs : List Addr) (pm : PeerManager Addr) (ps : P)
      → let (e, pm', ps') = add_from_multiaddrs x add_addr addrs pm ps in
        ((e ≡ none) ↔ (all_split addrs ≡ true))
        × ((k : PeerId)
            → lookup k pm'.peermap ≡ last_addr k (good_prefix addrs) (lookup k pm.peermap))
  unfolding add_from_multiaddrs add_peer all_split good_prefix last_addr
  lookup-add_from_multiaddrs [] pm ps = ((λ _. refl, λ _. refl), λ k. refl)
  lookup-add_from_multiaddrs (a ∷ addrs) pm ps = elim (Result-cases (multiaddr_split x a)) [
    | inr (e, bad) ↦
        rw (add_from_multiaddrs-err a e addrs pm ps bad, bad, all_split, good_prefix)
          ((λ h. absurd (cc), λ h. absurd (cc)), λ k. refl)
    | inl ((pid, d), good) ↦
        let (reply, entries) =
          lookup-add_from_multiaddrs addrs (record pm { peermap = insert pid a pm.peermap })
            (add_addr pid d ps) in
        rw (add_from_multiaddrs-ok a pid d addrs pm ps good, good, all_split, good_prefix)
          (
            reply,
            λ k.
                entries k ∙ ap (last_addr k (good_prefix addrs)) (lookup-insert pid k a pm.peermap),
          )
  ]
