-- ===== src/Config/Files.antt =====
-- config.go: `LoadConfig`, `Save` and `NewDefaultConfig`.
use ipfs_cluster.Common.{
  String, ◌≡◌, refl, sym, ap, ◌∙◌, Bool, false, Option, none, some, [], ◌==◌, if◌then◌else◌,
}
use ipfs_cluster.Common.Int.{pos, negsuc}
use ipfs_cluster.Common.Result.{Error, Result, ok, err, value_or, ◌>>=◌}
use ipfs_cluster.External.{Codecs, PeerId}
use ipfs_cluster.Config.{
  Config, JsonConfig, KeyCodecs, default_state_sync_seconds, to_json_config, to_config,
}
use ipfs_cluster.Config.RoundTrip.{CanSave, normalised, to_config-to_json_config}

-- Files, JSON texts and the generation of keys, over the state `W` of the file system.
pub record Files (Key W : Type 0) : Type 0 where
  pub read_file : String → W → Result String
  pub write_file : String → String → W → Option Error × W
  pub exists : String → W → Bool
  -- `MkdirAll` of a file's folder; its error is not looked at
  pub make_folder_of : String → W → W
  pub marshal_indent : JsonConfig → Result String
  pub unmarshal : String → Result JsonConfig
  pub generate : W → Result (Key × PeerId) × W

-- the path that `Save` writes to
abbrev pub target : {Key Addr : Type 0} → String → Config Key Addr → String
target path cfg = if path == "" then cfg.path else path

module _ {Cid Addr Key Bytes W : Type 0} (x : Codecs Cid Addr) (k : KeyCodecs Key Addr Bytes)
    (files : Files Key W) where
  open files use {
    read_file, write_file, exists, make_folder_of, marshal_indent, unmarshal, generate,
  }

  unfoldable pub load_config : String → W → Result (Config Key Addr)
  unfolding to_config
  load_config path w = do
    file ← read_file path w
    jcfg ← unmarshal file
    cfg ← to_config x k jcfg
    ok (record cfg { path = path })

  -- the text that `Save` writes
  unfoldable pub saved_text : Config Key Addr → Result String
  unfolding to_json_config
  saved_text cfg = do jcfg ← to_json_config x k cfg; marshal_indent jcfg

  unfoldable pub save : String → Config Key Addr → W → Option Error × W
  unfolding saved_text
  save path cfg w = elim (saved_text cfg) [
    | err e ↦ (some e, w)
    | ok json ↦ write_file (target path cfg) json w
  ]

  -- the configuration of `NewDefaultConfig`, for a key and its ID
  abbrev pub default_config : Key → PeerId → Config Key Addr
  default_config priv pid = record {
    id = pid;
    private_key = priv;
    cluster_peers = [];
    bootstrap = [];
    leave_on_shutdown = false;
    cluster_addr = value_or x.nil_addr (x.new_multiaddr "/ip4/0.0.0.0/tcp/9096");
    api_addr = value_or x.nil_addr (x.new_multiaddr "/ip4/127.0.0.1/tcp/9094");
    ipfs_proxy_addr = value_or x.nil_addr (x.new_multiaddr "/ip4/127.0.0.1/tcp/9095");
    ipfs_node_addr = value_or x.nil_addr (x.new_multiaddr "/ip4/127.0.0.1/tcp/5001");
    consensus_data_folder = "ipfscluster-data";
    state_sync_seconds = pos default_state_sync_seconds;
    replication_factor = negsuc 0;
    path = "";
  }

  unfoldable pub new_default_config : W → Result (Config Key Addr) × W
  new_default_config w =
      let (res, w') = generate w in
      (elim res [ err e ↦ err e | ok (priv, pid) ↦ ok (default_config priv pid) ], w')

  -- What a file was written with is read from it; and the JSON text of the configuration is read as
  -- what it was made of.
  abbrev pub FilesKeep : Type 0
  FilesKeep =
      (p t : String) (w : W) → (write_file p t w).0 ≡ none → read_file p (write_file p t w).1 ≡ ok t

  abbrev pub JsonReads : Config Key Addr → Type 0
  JsonReads cfg =
      (j : JsonConfig)
      → to_json_config x k cfg ≡ ok j
      → (t : String) × (marshal_indent j ≡ ok t) × (unmarshal t ≡ ok j)

  -- `LoadConfig` of the path that `Save` has written to returns the configuration that was saved,
  -- with that path, a replication factor of -1 in place of 0 and 60 seconds between state
  -- synchronisations in place of none. The configuration can be written, files keep what is
  -- written, JSON texts are read back, and the write succeeds.
  pub load_config-save :
      (path : String) (cfg : Config Key Addr) (w : W)
      → CanSave x k cfg
      → FilesKeep
      → JsonReads cfg
      → (save path cfg w).0 ≡ none
      → load_config (target path cfg) (save path cfg w).1
        ≡ ok (record (normalised cfg) { path = target path cfg })
  unfolding load_config save saved_text
  load_config-save path cfg w can keep json fine =
      let (j, made, back) = to_config-to_json_config x k cfg can in
      let (t, text, reads) = json j made in
      let s : saved_text cfg ≡ ok t = rw (made, saved_text) text in
      let written : save path cfg w ≡ write_file (target path cfg) t w = rw (s, save) refl in
      let stored = keep (target path cfg) t w (ap (λ r. r.0) (sym written) ∙ fine) in
      let found : read_file (target path cfg) (save path cfg w).1 ≡ ok t =
        ap (λ r. read_file (target path cfg) r.1) written ∙ stored in
      rw (found, reads, back, load_config) refl
