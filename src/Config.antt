-- ===== src/Config.antt =====
-- config.go: the configuration, its JSON form, and the conversions.
pub mod RoundTrip
pub mod Files
use ipfs_cluster.Common.{ℕ, zero, suc, String, Bool, Option, none, some, List, [], ◌∷◌, ◌<>◌}
use ipfs_cluster.Common.Int.{ℤ, pos, negsuc}
use ipfs_cluster.Common.Result.{Error, Result, ok, err, wrap, ◌>>=◌}
use ipfs_cluster.External.{Codecs, PeerId}

-- Private keys (go-libp2p-crypto), base64 text, and what `String` of a multiaddress panics with, if
-- it does. `pretty` is `peer.ID`'s.
pub record KeyCodecs (Key Addr Bytes : Type 0) : Type 0 where
  pub pretty : PeerId → String
  pub key_bytes : Key → Result Bytes
  pub unmarshal_private_key : Bytes → Result Key
  pub encode_to_string : Bytes → String
  pub decode_string : String → Result Bytes
  pub string_panic : Addr → Option Error

pub record Config (Key Addr : Type 0) : Type 0 where
  pub id : PeerId
  pub private_key : Key
  pub cluster_peers : List Addr
  pub bootstrap : List Addr
  pub leave_on_shutdown : Bool
  pub cluster_addr : Addr
  pub api_addr : Addr
  pub ipfs_proxy_addr : Addr
  pub ipfs_node_addr : Addr
  pub consensus_data_folder : String
  pub state_sync_seconds : ℤ
  pub replication_factor : ℤ
  pub path : String

pub record JsonConfig : Type 0 where
  pub id : String
  pub private_key : String
  pub cluster_peers : List String
  pub bootstrap : List String
  pub leave_on_shutdown : Bool
  pub cluster_listen_multiaddress : String
  pub api_listen_multiaddress : String
  pub ipfs_proxy_listen_multiaddress : String
  pub ipfs_node_multiaddress : String
  pub consensus_data_folder : String
  pub state_sync_seconds : ℤ
  pub replication_factor : ℤ

abbrev pub default_state_sync_seconds : ℕ
default_state_sync_seconds = 60

-- `if jcfg.ReplicationFactor == 0`
abbrev pub effective_factor : ℤ → ℤ
effective_factor (pos zero) = negsuc 0
effective_factor (pos (suc n)) = pos (suc n)
effective_factor (negsuc n) = negsuc n

-- `if jcfg.StateSyncSeconds <= 0`
abbrev pub effective_seconds : ℤ → ℤ
effective_seconds (pos zero) = pos default_state_sync_seconds
effective_seconds (pos (suc n)) = pos (suc n)
effective_seconds (negsuc n) = pos default_state_sync_seconds

module _ {Cid Addr Key Bytes : Type 0} (x : Codecs Cid Addr) (k : KeyCodecs Key Addr Bytes) where
  open x use {b58_decode, addr_string, new_multiaddr}
  open k use {
    pretty, key_bytes, unmarshal_private_key, encode_to_string, decode_string, string_panic,
  }

  -- `addr.String()`; a panic is recovered and becomes the function's error
  unfoldable pub text_of : Addr → Result String
  text_of addr = elim (string_panic addr) [ none ↦ ok (addr_string addr) | some e ↦ err e ]

  unfoldable pub texts_of : List Addr → Result (List String)
  unfolding text_of
  texts_of [] = ok []
  texts_of (a ∷ addrs) = let rest = texts_of addrs in do s ← text_of a; ss ← rest; ok (s ∷ ss)

  unfoldable pub to_json_config : Config Key Addr → Result JsonConfig
  unfolding text_of texts_of
  to_json_config cfg = do
    pkey_bytes ← key_bytes cfg.private_key
    cluster_peers ← texts_of cfg.cluster_peers
    bootstrap ← texts_of cfg.bootstrap
    cluster_addr ← text_of cfg.cluster_addr
    api_addr ← text_of cfg.api_addr
    ipfs_proxy_addr ← text_of cfg.ipfs_proxy_addr
    ipfs_node_addr ← text_of cfg.ipfs_node_addr
    ok (record {
      id = pretty cfg.id;
      private_key = encode_to_string pkey_bytes;
      cluster_peers = cluster_peers;
      bootstrap = bootstrap;
      leave_on_shutdown = cfg.leave_on_shutdown;
      cluster_listen_multiaddress = cluster_addr;
      api_listen_multiaddress = api_addr;
      ipfs_proxy_listen_multiaddress = ipfs_proxy_addr;
      ipfs_node_multiaddress = ipfs_node_addr;
      consensus_data_folder = cfg.consensus_data_folder;
      state_sync_seconds = cfg.state_sync_seconds;
      replication_factor = cfg.replication_factor;
    })

  -- the loops over `jcfg.ClusterPeers` and `jcfg.Bootstrap`
  unfoldable pub parse_peers : List String → Result (List Addr)
  parse_peers [] = ok []
  parse_peers (s ∷ ss) =
      let rest = parse_peers ss in
      do
        maddr ←
            wrap (λ e. "error parsing multiaddress for peer " <> s <> ": " <> e) (new_multiaddr s)
        maddrs ← rest
        ok (maddr ∷ maddrs)

  unfoldable pub to_config : JsonConfig → Result (Config Key Addr)
  unfolding parse_peers
  to_config j = do
    id ← wrap (λ e. "error decoding cluster ID: " <> e) (b58_decode j.id)
    pkb ← wrap (λ e. "error decoding private_key: " <> e) (decode_string j.private_key)
    pkey ← wrap (λ e. "error parsing private_key ID: " <> e) (unmarshal_private_key pkb)
    cluster_peers ← parse_peers j.cluster_peers
    bootstrap ← parse_peers j.bootstrap
    cluster_addr ←
        wrap (λ e. "error parsing cluster_listen_multiaddress: " <> e)
          (new_multiaddr j.cluster_listen_multiaddress)
    api_addr ←
        wrap (λ e. "error parsing api_listen_multiaddress: " <> e)
          (new_multiaddr j.api_listen_multiaddress)
    ipfs_proxy_addr ←
        wrap (λ e. "error parsing ipfs_proxy_listen_multiaddress: " <> e)
          (new_multiaddr j.ipfs_proxy_listen_multiaddress)
    ipfs_node_addr ←
        wrap (λ e. "error parsing ipfs_node_multiaddress: " <> e)
          (new_multiaddr j.ipfs_node_multiaddress)
    ok (record {
      id = id;
      private_key = pkey;
      cluster_peers = cluster_peers;
      bootstrap = bootstrap;
      leave_on_shutdown = j.leave_on_shutdown;
      cluster_addr = cluster_addr;
      api_addr = api_addr;
      ipfs_proxy_addr = ipfs_proxy_addr;
      ipfs_node_addr = ipfs_node_addr;
      consensus_data_folder = j.consensus_data_folder;
      state_sync_seconds = effective_seconds j.state_sync_seconds;
      replication_factor = effective_factor j.replication_factor;
      path = "";
    })
