-- ===== src/Rpc/Statuses.antt =====
-- cluster.go, rpc_api.go and map_pin_tracker.go together: what `Status` gathers from the trackers.
use ipfs_cluster.Common.{ℕ, String, ◌≡◌, refl, Option, none, some, List, if◌then◌else◌}
use ipfs_cluster.Common.Dict.{lookup}
use ipfs_cluster.External.{Codecs, PeerId, CidDecodes, PeerDecodes}
use ipfs_cluster.Interfaces.{IpfsRpc}
use ipfs_cluster.Api.Types.{
  PinInfo, PinInfoSerial, CidArgSerial, cid_arg_cid, cid_arg_to_serial, to_cid_arg, to_pin_info,
}
use ipfs_cluster.Api.RoundTrip.{rewritten, to_pin_info-pin_info_to_serial}
use ipfs_cluster.Tracker.{MapPinTracker}
use ipfs_cluster.Tracker.Workers
use ipfs_cluster.Cluster.Global.{member_info}
use ipfs_cluster.Cluster.Global.Gathered.{contains, lookup-global_pin_info_cid}
use ipfs_cluster.Cluster.Queries.{CidMethod, tracker_status, status}
use ipfs_cluster.Rpc.Trackers

module _ {Cid Addr W : Type 0} (x : Codecs Cid Addr) (r : IpfsRpc W) (now : ℕ)
    (members : List PeerId) (trackers : PeerId → MapPinTracker Cid) (worlds : PeerId → W)
    (call : CidMethod → CidArgSerial → PeerId → PinInfoSerial × Option String) where
  -- The CID and the peer of a status survive the way to this peer.
  pub record Travels (info : PinInfo Cid) : Type 0 where
    pub cid : CidDecodes x info.cid
    pub peer : PeerDecodes x info.peer

  arrives :
      (h : Cid) (p : PeerId)
      → CidDecodes x h
      → Travels (Workers.status x r h (trackers p) (worlds p))
      → to_pin_info x (
          Trackers.tracker_status x r (cid_arg_to_serial x (cid_arg_cid h)) (trackers p) (worlds p))
        ≡ rewritten x (Workers.status x r h (trackers p) (worlds p))
  unfolding Trackers.tracker_status to_cid_arg cid_arg_to_serial cid_arg_cid
  arrives h p d t = rw d (to_pin_info-pin_info_to_serial x _ t.cid t.peer)

  -- If every member answers the RPC call for its status from its own tracker, then `Status` of a CID
  -- holds, for every member and for no other peer, the status that the member's own tracker has: its CID,
  -- peer, status and error as they are, and its time as the RFC1123 text of the serial form keeps it. The CID
  -- that is asked for decodes, and so do the CID and the peer of the member's status.
  pub lookup-status :
      (h : Cid) (p : PeerId)
      → ((arg : CidArgSerial) (q : PeerId)
          → call tracker_status arg q
            ≡ (Trackers.tracker_status x r arg (trackers q) (worlds q), none))
      → CidDecodes x h
      → Travels (Workers.status x r h (trackers p) (worlds p))
      → lookup p (status x now members call h).peer_map ≡ (
          if contains members p
          then some (rewritten x (Workers.status x r h (trackers p) (worlds p)))
          else none)
  unfolding status member_info
  lookup-status h p answers d t =
      rw
        (
          lookup-global_pin_info_cid x now (call tracker_status) members h p,
          answers (cid_arg_to_serial x (cid_arg_cid h)) p,
          arrives h p d t,
        )
        refl
