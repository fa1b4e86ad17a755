-- ===== src/Ipfs/Restraint.antt =====
-- rpc_api.go and ipfs_http_connector.go: the connector makes the daemon pin the CID of a pin request only.
use ipfs_cluster.Common.{
  ℕ, String, ◌≡◌, ◌⊎◌, inl, inr, refl, sym, ap, ◌∙◌, Bool, true, eq_iff, ◌==◌, Bool-cases,
}
use ipfs_cluster.External.{Codecs, CidDecodes}
use ipfs_cluster.Api.Types.{CidArg, CidArgSerial, cid_arg_to_serial, to_cid_arg}
use ipfs_cluster.Tracker.Owned.{Restrained}
use ipfs_cluster.Rpc.Local.{ipfs_pin, ipfs_unpin, ipfs_pin_ls_cid, ipfs_pin_ls, connector_rpc}
use ipfs_cluster.Ipfs.{HttpOps, IpfsHttpConnector}
use ipfs_cluster.Ipfs.Daemon.{Serves, pin-holds, unpin-holds, pin_ls_cid-holds, pin_ls-holds}

module _ {Cid Addr W : Type 0} (x : Codecs Cid Addr) (h : HttpOps W) (ipfs : IpfsHttpConnector)
    (now : W → ℕ) (pins : W → String → Bool) (s : Serves x h ipfs pins) where
  open x use {cid_string}

  same_cid :
      (c : CidArg Cid) → CidDecodes x c.cid → (to_cid_arg x (cid_arg_to_serial x c)).cid ≡ c.cid
  unfolding to_cid_arg cid_arg_to_serial
  same_cid c d = rw d refl

  pin_adds :
      (c : CidArg Cid) (w : W) (k : String)
      → CidDecodes x c.cid
      → pins (ipfs_pin x h ipfs (cid_arg_to_serial x c) w).1 k ≡ true
      → (pins w k ≡ true) ⊎ (cid_string c.cid ≡ k)
  unfolding ipfs_pin
  pin_adds c w k d q =
      let d' = (to_cid_arg x (cid_arg_to_serial x c)).cid in
      let (done, kept, others) = pin-holds x h ipfs pins s d' w in
      elim (Bool-cases (cid_string d' == k)) [
        | inl same ↦ inr (ap cid_string (sym (same_cid c d)) ∙ (eq_iff (cid_string d') k).0 same)
        | inr other ↦ inl (sym (others k other) ∙ q)
      ]

  unpin_adds :
      (arg : CidArgSerial) (w : W) (k : String)
      → pins (ipfs_unpin x h ipfs arg w).1 k ≡ true
      → pins w k ≡ true
  unfolding ipfs_unpin
  unpin_adds arg w k q = (unpin-holds x h ipfs pins s (to_cid_arg x arg).cid w).0 k q

  ls_cid_adds :
      (arg : CidArgSerial) (w : W) (k : String)
      → pins (ipfs_pin_ls_cid x h ipfs arg w).1 k ≡ true
      → pins w k ≡ true
  unfolding ipfs_pin_ls_cid
  ls_cid_adds arg w k q = sym ((pin_ls_cid-holds x h ipfs pins s (to_cid_arg x arg).cid w).1 k) ∙ q

  ls_adds :
      (w : W) (k : String) → pins (ipfs_pin_ls x h ipfs "recursive" w).1 k ≡ true → pins w k ≡ true
  unfolding ipfs_pin_ls
  ls_adds w k q = sym ((pin_ls-holds x h ipfs pins s w).1 k) ∙ q

  pub connector_rpc-Restrained : Restrained x (connector_rpc x h ipfs now) pins
  unfolding connector_rpc
  connector_rpc-Restrained = record {
    pin_adds = pin_adds;
    unpin_adds = unpin_adds;
    ls_cid_adds = ls_cid_adds;
    ls_adds = ls_adds;
  }
