-- ===== src/Informer.antt =====
-- informer/numpin/numpin.go: the informer that reports the number of pins of the daemon.
use ipfs_cluster.Common.{
  ℕ, ◌+◌, ◌*◌, String, ◌≡◌, refl, Bool, true, false, length, ltb, if◌then◌else◌, inl, inr,
}
use ipfs_cluster.Common.Dict.{Dict}
use ipfs_cluster.Common.Result.{Result, ok, err, Result-cases}
use ipfs_cluster.External.{Codecs, TimeDecodes}
use ipfs_cluster.Interfaces.{IpfsRpc}
use ipfs_cluster.Api.Status.{IpfsPinStatus}
use ipfs_cluster.Api.Metrics.{Metric, no_metric, second, set_ttl, discard}
use ipfs_cluster.Allocator.{metric_name}

abbrev pub metric_ttl : ℕ
metric_ttl = 10

-- `show_int` is package fmt's; `has_client` is whether `rpcClient` is set.
module _ {Cid Addr W : Type 0} (x : Codecs Cid Addr) (r : IpfsRpc W) (show_int : ℕ → String) where
  open r use {ipfs_pin_ls, now}

  -- the metric from the reply; an error leaves the map empty
  abbrev pub metric_of : ℕ → Result (Dict IpfsPinStatus) → Metric
  metric_of t (ok pin_map) = set_ttl x t metric_ttl (record {
    name = metric_name;
    peer = "";
    value = show_int (length pin_map);
    expire = "";
    valid = true;
  })
  metric_of t (err e) =
      set_ttl x t metric_ttl
        (record { name = metric_name; peer = ""; value = show_int 0; expire = ""; valid = false })

  unfoldable pub get_metric : Bool → W → Metric × W
  unfolding set_ttl
  get_metric has_client w =
      if has_client
      then (let (res, w') = ipfs_pin_ls "recursive" w in (metric_of (now w') res, w'))
      else (no_metric, w)

  -- whether the daemon has answered
  abbrev pub answered : Bool → W → Bool
  answered has_client w =
      if has_client
      then elim (ipfs_pin_ls "recursive" w).0 [ ok _ ↦ true | err _ ↦ false ]
      else false

  -- A metric is of use, if the daemon has answered, until ten seconds after it was made, and never
  -- if the daemon has not answered or the informer is shut down. (The time at which it expires is
  -- one whose text is read as that time.)
  pub discard-get_metric :
      (has_client : Bool) (w : W) (later : ℕ)
      → TimeDecodes x (now (get_metric has_client w).1 + metric_ttl * second)
      → discard x later (get_metric has_client w).0 ≡ (
          if answered has_client w
          then ltb (now (get_metric has_client w).1 + metric_ttl * second) later
          else true)
  unfolding get_metric discard set_ttl
  discard-get_metric false w later h = refl
  discard-get_metric true w later h = elim (Result-cases (ipfs_pin_ls "recursive" w).0) [
    | inl (d, e) ↦ rw e (rw h refl)
    | inr (m, e) ↦ rw e refl
  ]
