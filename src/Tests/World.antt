-- ===== src/Tests/World.antt =====
-- Concrete libraries and a concrete daemon, for the tests.
use ipfs_cluster.Common.{
  ℕ, ◌+◌, String, true, false, none, some, List, [], ◌∷◌, ◌==◌, ◌<>◌, eqb, if◌then◌else◌,
}
use ipfs_cluster.Common.Int.{ℤ, pos}
use ipfs_cluster.Common.Result.{Result, ok, err}
use ipfs_cluster.External.{Codecs}
use ipfs_cluster.Interfaces.{IpfsRpc}
use ipfs_cluster.Api.Status.{IpfsPinStatus}
use ipfs_cluster.Api.Types.{CidArg}
use ipfs_cluster.Api.Metrics.{Metric}

-- Every text but the empty one is a CID; a peer ID is its own text; "/a" and "/b" are the addresses
-- of the peers "A" and "B"; there are two times that can be written.
abbrev pub codecs : Codecs String String
codecs = record {
  nil_cid = "";
  cid_string = λ c. c;
  cid_decode = λ s. if s == "" then err "no CID" else ok s;
  b58_encode = λ p. p;
  b58_decode = λ s. ok s;
  nil_addr = "";
  addr_string = λ a. a;
  new_multiaddr = λ s. ok s;
  value_for_ipfs = λ a. if a == "/a" then ok "A" else if a == "/b" then ok "B" else err "no peer";
  decapsulate = λ a b. "";
  encapsulate = λ a b. a <> b;
  format_rfc1123 = λ t. if eqb t 10000000007 then "late" else "early";
  parse_rfc1123 =
      λ s. if s == "late" then ok 10000000007 else if s == "early" then ok 5 else err "no time";
}

-- The clock, which each call moves on; the daemon has "x" pinned and cannot pin "bad".
abbrev pub daemon : IpfsRpc ℕ
daemon = record {
  ipfs_pin = λ c w. ((if c.cid == "bad" then some "cannot pin" else none), w + 1);
  ipfs_unpin = λ c w. (none, w + 1);
  ipfs_pin_ls_cid =
      λ c w. (ok (if c.cid == "x" then IpfsPinStatus.recursive else IpfsPinStatus.unpinned), w + 1);
  ipfs_pin_ls = λ t w. (ok (("x", IpfsPinStatus.recursive) ∷ []), w + 1);
  now = λ w. w;
}

abbrev pub arg_for : String → List String → CidArg String
arg_for c allocs = record { cid = c; allocations = allocs; everywhere = false }

abbrev pub reported : String → String → Metric
reported p value = record {
  name = "numpin";
  peer = p;
  value = value;
  expire = "late";
  valid = true;
}

abbrev pub digit : String → Result ℤ
digit s = if s == "1" then ok (pos 1) else if s == "2" then ok (pos 2) else err "not a number"
