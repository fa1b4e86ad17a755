-- ===== src/Service.antt =====
-- ipfs-cluster-service/main.go: `initConfig`, and the options of `run` that change the configuration.
pub mod Init
pub mod Running
use ipfs_cluster.Common.{
  String, Bool, true, not, ◌&&◌, Option, some, [], ◌∷◌, ◌==◌, ◌<>◌, if◌then◌else◌,
}
use ipfs_cluster.Common.Result.{Error, Result, ok, err}
use ipfs_cluster.External.{Codecs}
use ipfs_cluster.Config.{Config, KeyCodecs}
use ipfs_cluster.Config.Files.{Files, new_default_config, save}

module _ {Cid Addr Key Bytes W : Type 0} (x : Codecs Cid Addr) (k : KeyCodecs Key Addr Bytes)
    (files : Files Key W) where
  open files use {exists, make_folder_of}

  -- `initConfig`, with the paths that it uses and the error that it exits with
  unfoldable pub init_config : Bool → String → String → W → Option Error × W
  unfolding new_default_config save
  init_config force config_path data_path w =
      if exists config_path w && not force
      then (some (config_path <> " exists. Try running with -f"), w)
      else (let (res, w') = new_default_config x k files w in
          elim res [
            | err e ↦ (some e, w')
            | ok cfg ↦
                save x k files config_path (record cfg { consensus_data_folder = data_path })
                  (make_folder_of config_path w')
          ])

  -- `run` after the configuration is loaded, with its options `bootstrap`, `force` and `leave`
  unfoldable pub with_options : String → Bool → Bool → Config Key Addr → Result (Config Key Addr)
  with_options a force leave cfg =
      let left : Config Key Addr = if leave then record cfg { leave_on_shutdown = true } else cfg in
      if a == "" then ok left else elim cfg.cluster_peers [
        | [] ↦ joining a left
        | _ ∷ _ ↦
            if not force
            then err
                "the configuration provides ClusterPeers. Use -f to ignore and proceed bootstrapping"
            else joining a left
      ]
    where
      joining : String → Config Key Addr → Result (Config Key Addr)
      joining a cfg = elim (x.new_multiaddr a) [
        | err e ↦ err ("error parsing multiaddress: " <> e)
        | ok join_addr ↦ ok (record cfg { bootstrap = join_addr ∷ []; cluster_peers = [] })
      ]
