-- ===== src/External.antt =====
-- The libraries that the program calls for CIDs (go-cid), peer IDs (go-libp2p-peer), multiaddresses
-- (go-multiaddr) and times (package time): their functions are parameters.
use ipfs_cluster.Common.{ℕ, String, ◌≡◌}
use ipfs_cluster.Common.Result.{Result, ok}

-- `peer.ID` is a Go string type; the empty string is its zero value.
abbrev pub PeerId : Type 0
PeerId = String

-- `Cid` is the type of `*cid.Cid` values and `Addr` that of `ma.Multiaddr` values, the nil pointer
-- and the nil interface among them. A time is a number of nanoseconds since the zero `time.Time`.
pub record Codecs (Cid Addr : Type 0) : Type 0 where
  pub nil_cid : Cid
  pub cid_string : Cid → String
  pub cid_decode : String → Result Cid
  pub b58_encode : PeerId → String
  pub b58_decode : String → Result PeerId
  pub nil_addr : Addr
  pub addr_string : Addr → String
  pub new_multiaddr : String → Result Addr
  pub value_for_ipfs : Addr → Result String  -- `addr.ValueForProtocol(ma.P_IPFS)`
  pub decapsulate : Addr → Addr → Addr
  pub encapsulate : Addr → Addr → Addr
  pub format_rfc1123 : ℕ → String
  pub parse_rfc1123 : String → Result ℕ

module _ {Cid Addr : Type 0} (x : Codecs Cid Addr) where
  open x use {
    cid_string, cid_decode, b58_encode, b58_decode, addr_string, new_multiaddr, format_rfc1123,
    parse_rfc1123,
  }

  -- The text of a value decodes to the value: documented of defined CIDs, of well-formed peer IDs
  -- and multiaddresses, and of times in whole seconds.
  abbrev pub CidDecodes : Cid → Type 0
  CidDecodes c = cid_decode (cid_string c) ≡ ok c

  abbrev pub PeerDecodes : PeerId → Type 0
  PeerDecodes p = b58_decode (b58_encode p) ≡ ok p

  abbrev pub AddrDecodes : Addr → Type 0
  AddrDecodes a = new_multiaddr (addr_string a) ≡ ok a

  abbrev pub TimeDecodes : ℕ → Type 0
  TimeDecodes t = parse_rfc1123 (format_rfc1123 t) ≡ ok t
