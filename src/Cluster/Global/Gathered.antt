-- ===== src/Cluster/Global/Gathered.antt =====
-- cluster.go: the status of one CID that `globalPinInfoCid` gathers from the members.
use ipfs_cluster.Common.{
  ℕ, ◌≡◌, refl, Bool, false, ◌||◌, Option, none, some, List, [], ◌∷◌, arith, ◌==◌, eq_iff,
  if◌then◌else◌,
}
use ipfs_cluster.Common.Dict.{Dict, lookup, insert, lookup-insert}
use ipfs_cluster.Common.Result.{Error}
use ipfs_cluster.External.{Codecs, PeerId}
use ipfs_cluster.Api.Types.{PinInfo, PinInfoSerial, CidArgSerial, cid_arg_to_serial, cid_arg_cid}
use ipfs_cluster.Cluster.Global.{member_info, gather, global_pin_info_cid}

pub contains : List PeerId → PeerId → Bool
contains [] p = false
contains (m ∷ members) p = (m == p) || contains members p

module _ {Cid Addr : Type 0} (x : Codecs Cid Addr) (now : ℕ) where
  lookup-gather :
      (ask : PeerId → PinInfoSerial × Option Error) (members : List PeerId) (d : Dict (PinInfo Cid))
      (p : PeerId)
      → lookup p (gather x now ask members d)
        ≡ (if contains members p then some (member_info x now p (ask p)) else lookup p d)
  unfolding gather contains
  lookup-gather ask [] d p = refl
  lookup-gather ask (m ∷ members) d p = ground (
    arith,
    eq_iff m p,
    lookup-insert m p (member_info x now m (ask m)) d,
    lookup-gather ask members (insert m (member_info x now m (ask m)) d) p,
  )

  -- `globalPinInfoCid` has an entry for exactly the members. A member's entry is what it replied to
  -- the call with the CID: with its error in place of the message if there is one, and as
  -- `cluster_error` if it replied with nothing but an error.
  pub lookup-global_pin_info_cid :
      (call : CidArgSerial → PeerId → PinInfoSerial × Option Error) (members : List PeerId)
      (h : Cid) (p : PeerId)
      → lookup p (global_pin_info_cid x now call members h).peer_map ≡ (
          if contains members p
          then some (member_info x now p (call (cid_arg_to_serial x (cid_arg_cid h)) p))
          else none)
  unfolding global_pin_info_cid cid_arg_cid lookup
  lookup-global_pin_info_cid call members h p = lookup-gather _ members [] p
