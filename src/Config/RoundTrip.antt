-- ===== src/Config/RoundTrip.antt =====
-- config.go: what a saved configuration is read back as.
use ipfs_cluster.Common.{ℕ, zero, suc, ◌<◌, String, ◌≡◌, ◌≢◌, refl, none, List, [], ◌∷◌, All, arith}
use ipfs_cluster.Common.Int.{ℤ, pos, negsuc}
use ipfs_cluster.Common.Result.{ok}
use ipfs_cluster.External.{Codecs, AddrDecodes}
use ipfs_cluster.Config.{
  KeyCodecs, Config, JsonConfig, effective_factor, effective_seconds, text_of, texts_of,
  to_json_config, parse_peers, to_config,
}

-- The configuration, as `ToConfig` normalises it.
abbrev pub normalised : {Key Addr : Type 0} → Config Key Addr → Config Key Addr
normalised cfg = record cfg {
  state_sync_seconds = effective_seconds cfg.state_sync_seconds;
  replication_factor = effective_factor cfg.replication_factor;
  path = "";
}

module _ {Cid Addr Key Bytes : Type 0} (x : Codecs Cid Addr) (k : KeyCodecs Key Addr Bytes) where
  -- `String` of the multiaddress does not panic, and its text is read as the multiaddress.
  abbrev pub IsWritten : Addr → Type 0
  IsWritten a = (k.string_panic a ≡ none) × AddrDecodes x a

  -- The ID, the key and the multiaddresses of a configuration can be written and read back.
  pub record CanSave (cfg : Config Key Addr) : Type 0 where
    pub own_id : x.b58_decode (k.pretty cfg.id) ≡ ok cfg.id
    pub bytes : Bytes
    pub key_written : k.key_bytes cfg.private_key ≡ ok bytes
    pub bytes_read : k.decode_string (k.encode_to_string bytes) ≡ ok bytes
    pub key_read : k.unmarshal_private_key bytes ≡ ok cfg.private_key
    pub peers : All IsWritten cfg.cluster_peers
    pub boot : All IsWritten cfg.bootstrap
    pub cluster : IsWritten cfg.cluster_addr
    pub api : IsWritten cfg.api_addr
    pub proxy : IsWritten cfg.ipfs_proxy_addr
    pub node : IsWritten cfg.ipfs_node_addr

  text_of-ok : (a : Addr) → IsWritten a → text_of x k a ≡ ok (x.addr_string a)
  unfolding text_of
  text_of-ok a h = ground (arith, h.0)

  peers_back :
      (addrs : List Addr)
      → All IsWritten addrs
      → (ss : List String) × (texts_of x k addrs ≡ ok ss) × (parse_peers x k ss ≡ ok addrs)
  unfolding texts_of parse_peers
  peers_back [] h = ([], refl, refl)
  peers_back (a ∷ addrs) h =
      let (ss, e1, e2) = peers_back addrs h.1 in
      (x.addr_string a ∷ ss, rw (e1, text_of-ok a h.0) refl, rw (e2, h.0.1) refl)

  -- A configuration whose ID, key and multiaddresses can be written and read back is converted to
  -- JSON without an error, and what it is read back as is the same configuration but for its path,
  -- which is empty, a replication factor of 0, which becomes -1, and a number of seconds between
  -- synchronisations that is not positive, which becomes 60.
  pub to_config-to_json_config :
      (cfg : Config Key Addr)
      → CanSave cfg
      → (j : JsonConfig) × (to_json_config x k cfg ≡ ok j) × (to_config x k j ≡ ok (normalised cfg))
  unfolding to_json_config to_config
  to_config-to_json_config cfg h =
      let (ss, s1, s2) = peers_back cfg.cluster_peers h.peers in
      let (bs, b1, b2) = peers_back cfg.bootstrap h.boot in
      (
        record {
          id = k.pretty cfg.id;
          private_key = k.encode_to_string h.bytes;
          cluster_peers = ss;
          bootstrap = bs;
          leave_on_shutdown = cfg.leave_on_shutdown;
          cluster_listen_multiaddress = x.addr_string cfg.cluster_addr;
          api_listen_multiaddress = x.addr_string cfg.api_addr;
          ipfs_proxy_listen_multiaddress = x.addr_string cfg.ipfs_proxy_addr;
          ipfs_node_multiaddress = x.addr_string cfg.ipfs_node_addr;
          consensus_data_folder = cfg.consensus_data_folder;
          state_sync_seconds = cfg.state_sync_seconds;
          replication_factor = cfg.replication_factor;
        },
        rw
            (
              h.key_written,
              s1,
              b1,
              text_of-ok cfg.cluster_addr h.cluster,
              text_of-ok cfg.api_addr h.api,
              text_of-ok cfg.ipfs_proxy_addr h.proxy,
              text_of-ok cfg.ipfs_node_addr h.node,
            )
            refl,
        rw (h.own_id, h.bytes_read, h.key_read, s2, b2, h.cluster.1, h.api.1, h.proxy.1, h.node.1)
            refl,
      )

  abbrev pub IsUsable : Config Key Addr → Type 0
  IsUsable cfg =
      ((n : ℕ) × (0 < n) × (cfg.state_sync_seconds ≡ pos n)) × (cfg.replication_factor ≢ pos 0)

  seconds_positive : (s : ℤ) → (n : ℕ) × (0 < n) × (effective_seconds s ≡ pos n)
  seconds_positive (pos zero) = (60, omega arith, refl)
  seconds_positive (pos (suc n)) = (suc n, omega arith, refl)
  seconds_positive (negsuc n) = (60, omega arith, refl)

  factor_nonzero : (f : ℤ) → effective_factor f ≢ pos 0
  factor_nonzero (pos zero) = λ e. cc
  factor_nonzero (pos (suc n)) = λ e. ground arith
  factor_nonzero (negsuc n) = λ e. cc

  to_config-effective :
      (j : JsonConfig) (cfg : Config Key Addr)
      → to_config x k j ≡ ok cfg
      → (cfg.state_sync_seconds ≡ effective_seconds j.state_sync_seconds)
        × (cfg.replication_factor ≡ effective_factor j.replication_factor)
  unfolding to_config
  to_config-effective j cfg h = ground arith

  -- Every configuration that is read synchronises its state at a positive number of seconds, and
  -- its replication factor is not 0.
  pub to_config-IsUsable :
      (j : JsonConfig) (cfg : Config Key Addr) → to_config x k j ≡ ok cfg → IsUsable cfg
  to_config-IsUsable j cfg h =
      let (e1, e2) = to_config-effective j cfg h in
      rw (e1, e2) (seconds_positive j.state_sync_seconds, factor_nonzero j.replication_factor)
