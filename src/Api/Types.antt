-- ===== src/Api/Types.antt =====
-- api/types.go: `PinInfo`, `GlobalPinInfo`, `CidArg` and their serial forms.
use ipfs_cluster.Common.{ℕ, String, Bool, false, List, [], ◌∷◌, map}
use ipfs_cluster.Common.Dict.{Dict, insert}
use ipfs_cluster.Common.Result.{value_or}
use ipfs_cluster.External.{Codecs, PeerId}
use ipfs_cluster.Api.Status.{TrackerStatus, status_string, tracker_status_from_string}

pub record PinInfo (Cid : Type 0) : Type 0 where
  pub cid : Cid
  pub peer : PeerId
  pub status : TrackerStatus
  pub ts : ℕ
  pub error : String

pub record PinInfoSerial : Type 0 where
  pub cid : String
  pub peer : String
  pub status : String
  pub ts : String
  pub error : String

pub record GlobalPinInfo (Cid : Type 0) : Type 0 where
  pub cid : Cid
  pub peer_map : Dict (PinInfo Cid)

pub record GlobalPinInfoSerial : Type 0 where
  pub cid : String
  pub peer_map : Dict PinInfoSerial

pub record CidArg (Cid : Type 0) : Type 0 where
  pub cid : Cid
  pub allocations : List PeerId
  pub everywhere : Bool

pub record CidArgSerial : Type 0 where
  pub cid : String
  pub allocations : List String
  pub everywhere : Bool

-- `CidArgCid`
unfoldable pub cid_arg_cid : {Cid : Type 0} → Cid → CidArg Cid
cid_arg_cid c = record { cid = c; allocations = []; everywhere = false }

-- The methods `ToSerial`, and back.
module _ {Cid Addr : Type 0} (x : Codecs Cid Addr) where
  open x use {
    nil_cid, cid_string, cid_decode, b58_encode, b58_decode, format_rfc1123, parse_rfc1123,
  }

  unfoldable pub pin_info_to_serial : PinInfo Cid → PinInfoSerial
  pin_info_to_serial pi = record {
    cid = cid_string pi.cid;
    peer = b58_encode pi.peer;
    status = status_string pi.status;
    ts = format_rfc1123 pi.ts;
    error = pi.error;
  }

  unfoldable pub to_pin_info : PinInfoSerial → PinInfo Cid
  to_pin_info pis = record {
    cid = value_or nil_cid (cid_decode pis.cid);
    peer = value_or "" (b58_decode pis.peer);
    status = tracker_status_from_string pis.status;
    ts = value_or 0 (parse_rfc1123 pis.ts);
    error = pis.error;
  }

  -- the loop of `GlobalPinInfo.ToSerial`
  unfoldable pub peer_map_to_serial : Dict (PinInfo Cid) → Dict PinInfoSerial → Dict PinInfoSerial
  peer_map_to_serial [] out = out
  peer_map_to_serial ((k, v) ∷ m) out =
      peer_map_to_serial m (insert (b58_encode k) (pin_info_to_serial v) out)

  unfoldable pub global_pin_info_to_serial : GlobalPinInfo Cid → GlobalPinInfoSerial
  unfolding peer_map_to_serial
  global_pin_info_to_serial gpi = record {
    cid = cid_string gpi.cid;
    peer_map = peer_map_to_serial gpi.peer_map [];
  }

  -- the loop of `ToGlobalPinInfo`
  unfoldable pub to_peer_map : Dict PinInfoSerial → Dict (PinInfo Cid) → Dict (PinInfo Cid)
  to_peer_map [] out = out
  to_peer_map ((k, v) ∷ m) out =
      to_peer_map m (insert (value_or "" (b58_decode k)) (to_pin_info v) out)

  unfoldable pub to_global_pin_info : GlobalPinInfoSerial → GlobalPinInfo Cid
  unfolding to_peer_map
  to_global_pin_info gpis = record {
    cid = value_or nil_cid (cid_decode gpis.cid);
    peer_map = to_peer_map gpis.peer_map [];
  }

  unfoldable pub cid_arg_to_serial : CidArg Cid → CidArgSerial
  cid_arg_to_serial carg = record {
    cid = cid_string carg.cid;
    allocations = map b58_encode carg.allocations;
    everywhere = carg.everywhere;
  }

  unfoldable pub to_cid_arg : CidArgSerial → CidArg Cid
  to_cid_arg cargs = record {
    cid = value_or nil_cid (cid_decode cargs.cid);
    allocations = map (λ p. value_or "" (b58_decode p)) cargs.allocations;
    everywhere = cargs.everywhere;
  }
