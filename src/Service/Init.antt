-- ===== src/Service/Init.antt =====
-- ipfs-cluster-service/main.go and config.go: what `initConfig` leaves for `run` to load.
use ipfs_cluster.Common.{
  String, ◌≡◌, ◌≢◌, refl, sym, subst, Bool, true, false, not, ◌&&◌, none, arith, eq_iff, Bool-cases,
  inl, inr,
}
use ipfs_cluster.Common.Result.{Error, ok, err, Result-cases}
use ipfs_cluster.External.{Codecs, PeerId}
use ipfs_cluster.Config.{Config, KeyCodecs}
use ipfs_cluster.Config.Files.{
  Files, target, default_config, new_default_config, save, load_config, FilesKeep, JsonReads,
  load_config-save,
}
use ipfs_cluster.Config.RoundTrip.{CanSave}
use ipfs_cluster.Service.{init_config}

module _ {Cid Addr Key Bytes W : Type 0} (x : Codecs Cid Addr) (k : KeyCodecs Key Addr Bytes)
    (files : Files Key W) where
  open files use {exists, make_folder_of, generate}

  -- the configuration that `initConfig` saves, for a key and its ID
  abbrev pub fresh : String → Key × PeerId → Config Key Addr
  fresh data_path (priv, pid) = record (default_config x k files priv pid) {
    consensus_data_folder = data_path;
  }

  fresh-target : (p d : String) (g : Key × PeerId) → target p (fresh d g) ≡ p
  fresh-target p d g = ground (arith, eq_iff p "")

  -- `initConfig`, once a key has been generated
  init_config-saves :
      (force : Bool) (p d : String) (w : W) (g : Key × PeerId)
      → (exists p w && not force) ≡ false
      → (generate w).0 ≡ ok g
      → init_config x k files force p d w
        ≡ save x k files p (fresh d g) (make_folder_of p (generate w).1)
  unfolding init_config new_default_config
  init_config-saves force p d w g free made = rw (free, made) refl

  -- `initConfig` fails on a file that it may not replace, and without a key.
  not_replaced :
      (force : Bool) (p d : String) (w : W)
      → (exists p w && not force) ≡ true
      → (init_config x k files force p d w).0 ≢ none
  unfolding init_config
  not_replaced force p d w there = rw there (λ e. absurd (cc))

  no_key :
      (force : Bool) (p d : String) (w : W) (m : Error)
      → (exists p w && not force) ≡ false
      → (generate w).0 ≡ err m
      → (init_config x k files force p d w).0 ≢ none
  unfolding init_config new_default_config
  no_key force p d w m free failed = rw (free, failed) (λ e. absurd (cc))

  fresh_loads :
      (force : Bool) (p d : String) (w : W) (g : Key × PeerId)
      → FilesKeep x k files
      → CanSave x k (fresh d g) × JsonReads x k files (fresh d g)
      → (exists p w && not force) ≡ false
      → (generate w).0 ≡ ok g
      → (init_config x k files force p d w).0 ≡ none
      → load_config x k files p (init_config x k files force p d w).1
        ≡ ok (record (fresh d g) { path = p })
  fresh_loads force p d w g keep (can, json) free made fine =
      let saves = init_config-saves force p d w g free made in
      subst (λ r. r.0 ≡ none → load_config x k files p r.1 ≡ ok (record (fresh d g) { path = p }))
        (sym saves)
        (subst
          (λ q.
            let r = save x k files p (fresh d g) (make_folder_of p (generate w).1) in
            r.0 ≡ none → load_config x k files q r.1 ≡ ok (record (fresh d g) { path = q }))
          (fresh-target p d g)
          (load_config-save x k files p (fresh d g) (make_folder_of p (generate w).1) can keep
            json))
        fine

  -- `initConfig` without an error has found no file at its path, unless it was forced, and has
  -- generated a key. `LoadConfig` of the path then returns the default configuration for that key
  -- and its ID, with the given folder of data and with the path. Files keep what is written, and a
  -- configuration for a key that is generated can be written and its JSON text read back.
  pub load_config-init_config :
      (force : Bool) (p d : String) (w : W)
      → FilesKeep x k files
      → ((g : Key × PeerId)
          → (generate w).0 ≡ ok g
          → CanSave x k (fresh d g) × JsonReads x k files (fresh d g))
      → (init_config x k files force p d w).0 ≡ none
      → ((exists p w && not force) ≡ false)
        × (g : Key × PeerId) × ((generate w).0 ≡ ok g)
        × (load_config x k files p (init_config x k files force p d w).1
            ≡ ok (record (fresh d g) { path = p }))
  load_config-init_config force p d w keep can fine = elim (Bool-cases (exists p w && not force)) [
    | inl there ↦ absurd (not_replaced force p d w there fine)
    | inr free ↦ elim (Result-cases (generate w).0) [
      | inr (m, failed) ↦ absurd (no_key force p d w m free failed fine)
      | inl (g, made) ↦ (free, g, made, fresh_loads force p d w g keep (can g made) free made fine)
    ]
  ]
