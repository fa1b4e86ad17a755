-- ===== src/Api/Ids.antt =====
-- api/types.go: `IPFSID`, `ID` (here `ClusterId`), the multiaddresses, and their serial forms.
use ipfs_cluster.Common.{String, List, map}
use ipfs_cluster.Common.Result.{value_or}
use ipfs_cluster.External.{Codecs, PeerId}

pub record Ipfsid (Addr : Type 0) : Type 0 where
  pub id : PeerId
  pub addresses : List Addr
  pub error : String

pub record IpfsidSerial : Type 0 where
  pub id : String
  pub addresses : List String
  pub error : String

pub record ClusterId (Addr : Type 0) : Type 0 where
  pub id : PeerId
  pub addresses : List Addr
  pub cluster_peers : List Addr
  pub version : String
  pub commit : String
  pub rpc_protocol_version : String
  pub error : String
  pub ipfs : Ipfsid Addr

pub record IdSerial : Type 0 where
  pub id : String
  pub addresses : List String
  pub cluster_peers : List String
  pub version : String
  pub commit : String
  pub rpc_protocol_version : String
  pub error : String
  pub ipfs : IpfsidSerial

module _ {Cid Addr : Type 0} (x : Codecs Cid Addr) where
  open x use {b58_encode, b58_decode, nil_addr, addr_string, new_multiaddr}

  -- `MultiaddrToSerial`, `ToMultiaddr` and their slice versions
  unfoldable pub multiaddr_to_serial : Addr → String
  multiaddr_to_serial addr = addr_string addr

  unfoldable pub to_multiaddr : String → Addr
  to_multiaddr addr_s = value_or nil_addr (new_multiaddr addr_s)

  unfoldable pub multiaddrs_to_serial : List Addr → List String
  unfolding multiaddr_to_serial
  multiaddrs_to_serial = map multiaddr_to_serial

  unfoldable pub to_multiaddrs : List String → List Addr
  unfolding to_multiaddr
  to_multiaddrs = map to_multiaddr

  unfoldable pub ipfsid_to_serial : Ipfsid Addr → IpfsidSerial
  unfolding multiaddrs_to_serial
  ipfsid_to_serial i = record {
    id = b58_encode i.id;
    addresses = multiaddrs_to_serial i.addresses;
    error = i.error;
  }

  unfoldable pub to_ipfsid : IpfsidSerial → Ipfsid Addr
  unfolding to_multiaddrs
  to_ipfsid ids = record {
    id = value_or "" (b58_decode ids.id);
    addresses = to_multiaddrs ids.addresses;
    error = ids.error;
  }

  unfoldable pub id_to_serial : ClusterId Addr → IdSerial
  unfolding multiaddrs_to_serial ipfsid_to_serial
  id_to_serial i = record {
    id = b58_encode i.id;
    addresses = multiaddrs_to_serial i.addresses;
    cluster_peers = multiaddrs_to_serial i.cluster_peers;
    version = i.version;
    commit = i.commit;
    rpc_protocol_version = i.rpc_protocol_version;
    error = i.error;
    ipfs = ipfsid_to_serial i.ipfs;
  }

  unfoldable pub to_id : IdSerial → ClusterId Addr
  unfolding to_multiaddrs to_ipfsid
  to_id ids = record {
    id = value_or "" (b58_decode ids.id);
    addresses = to_multiaddrs ids.addresses;
    cluster_peers = to_multiaddrs ids.cluster_peers;
    version = ids.version;
    commit = ids.commit;
    rpc_protocol_version = ids.rpc_protocol_version;
    error = ids.error;
    ipfs = to_ipfsid ids.ipfs;
  }
