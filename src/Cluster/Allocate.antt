-- ===== src/Cluster/Allocate.antt =====
-- cluster.go: `allocate`, `Pin` and `Unpin`.
use ipfs_cluster.Common.{
  ℕ, ◌-◌, String, true, false, Option, none, some, List, [], ◌∷◌, length, take, ltb, leb, ◌<>◌,
  if◌then◌else◌,
}
use ipfs_cluster.Common.Int.{ℤ, pos, negsuc}
use ipfs_cluster.Common.Dict.{Dict, lookup, insert, delete, has}
use ipfs_cluster.Common.Result.{Error, Result, ok, err, ◌>>=◌}
use ipfs_cluster.External.{Codecs, PeerId}
use ipfs_cluster.Interfaces.{StateOps}
use ipfs_cluster.Api.Types.{CidArg}
use ipfs_cluster.Api.Metrics.{Metric, no_metric, discard}

-- What `allocate` reads of the other components: the configuration, the consensus, the peer
-- manager, the informer, the leader's monitor (over RPC) and the allocator. `show_peers` and
-- `show_int` are package fmt's.
pub record Sources (Cid S : Type 0) : Type 0 where
  pub replication_factor : ℤ
  pub state : Result S
  pub peers : List PeerId
  pub informer_name : String
  pub leader : Result PeerId
  pub last_metrics : PeerId → String → Result (List Metric)
  pub allocator : Cid → Dict Metric → Dict Metric → Result (List PeerId)
  pub now : ℕ
  pub show_peers : List PeerId → String
  pub show_int : ℕ → String

-- the error of `Leader` is replaced
abbrev pub or_no_monitor : Result PeerId → Result PeerId
or_no_monitor (ok l) = ok l
or_no_monitor (err e) = err "cannot determine leading Monitor"

-- `for _, cp := range clusterPeers`: a metric that is not valid
unfoldable pub init_metrics : List PeerId → Dict Metric → Dict Metric
init_metrics [] d = d
init_metrics (cp ∷ cps) d = init_metrics cps (insert cp no_metric d)

-- `for _, m := range metrics`: the metrics of the peers in the map
unfoldable pub put_metrics : List Metric → Dict Metric → Dict Metric
put_metrics [] d = d
put_metrics (m ∷ ms) d = put_metrics ms (if has m.peer d then insert m.peer m d else d)

-- `for _, p := range currentlyAllocatedPeers`: their metrics move to the other map
unfoldable pub move_current : List PeerId → Dict Metric → Dict Metric → Dict Metric × Dict Metric
move_current [] current d = (current, d)
move_current (p ∷ ps) current d = elim (lookup p d) [
  | none ↦ move_current ps current d
  | some m ↦ move_current ps (insert p m current) (delete p d)
]

module _ {Cid Addr S : Type 0} (x : Codecs Cid Addr) (o : StateOps Cid S)
    (src : Sources Cid S) where
  open src use {
    replication_factor, state, peers, informer_name, leader, last_metrics, allocator, now,
    show_peers, show_int,
  }

  abbrev pub allocations_in : Cid → Result S → List PeerId
  allocations_in hash (ok st) = (o.get st hash).allocations
  allocations_in hash (err e) = []

  -- `for p, m := range metricsMap { if m.Discard() { delete(metricsMap, p) } }`
  unfoldable pub drop_discarded : Dict Metric → Dict Metric
  drop_discarded [] = []
  drop_discarded ((p, m) ∷ d) =
      let rest = drop_discarded d in if discard x now m then rest else (p, m) ∷ rest

  -- the valid metrics of the cluster's peers
  unfoldable pub metrics_map : List Metric → Dict Metric
  unfolding drop_discarded put_metrics init_metrics
  metrics_map metrics = drop_discarded (put_metrics metrics (init_metrics peers []))

  -- `return candidateAllocs[0:needed], nil`
  unfoldable pub choose : ℕ → List PeerId → Result (List PeerId)
  choose needed candidate_allocs =
      if ltb (length candidate_allocs) needed
      then err (
          "cannot find enough allocations for this CID: needed: "
          <> show_int needed
          <> ". Got: "
          <> show_peers candidate_allocs)
      else ok (take needed candidate_allocs)

  -- `allocate` for the replication factor `rf`, from the metrics; `needed <= 0` is `rf <= len`
  unfoldable pub allocate_among : ℕ → Cid → List PeerId → List Metric → Result (List PeerId)
  unfolding metrics_map move_current choose
  allocate_among rf hash currently metrics =
      let (current, candidates) = move_current currently [] (metrics_map metrics) in
      if leb rf (length current)
      then err ("CID is already correctly allocated to " <> show_peers currently)
      else do
        candidate_allocs ← allocator hash current candidates
        choose (rf - length current) candidate_allocs

  unfoldable pub allocate_positive : ℕ → Cid → Result (List PeerId)
  unfolding allocate_among
  allocate_positive rf hash = do
    l ← or_no_monitor leader
    metrics ← last_metrics l informer_name
    allocate_among rf hash (allocations_in hash state) metrics

  unfoldable pub allocate : Cid → Result (List PeerId)
  unfolding allocate_positive
  allocate hash = elim replication_factor [
    | negsuc n ↦ err "cannot decide allocation for replication factor <= 0"
    | pos n ↦
        if leb n 0
        then err "cannot decide allocation for replication factor <= 0"
        else allocate_positive n hash
  ]

  -- the argument that `Pin` submits, by the sign of the replication factor
  unfoldable pub pin_arg : Cid → Result (CidArg Cid)
  unfolding allocate
  pin_arg h = elim replication_factor [
    | negsuc n ↦ ok (record { cid = h; allocations = []; everywhere = true })
    | pos n ↦ if leb n 0 then err "replication factor is 0" else do
      allocs ← allocate h
      ok (record { cid = h; allocations = allocs; everywhere = false })
  ]

  -- `Pin` and `Unpin`: `log_pin` and `log_unpin` are the consensus component's
  unfoldable pub pin :
      {W : Type 0} → (CidArg Cid → W → Option Error × W) → Cid → W → Option Error × W
  unfolding pin_arg
  pin log_pin h w = elim (pin_arg h) [ err e ↦ (some e, w) | ok arg ↦ log_pin arg w ]

unfoldable pub unpin :
    {Cid W : Type 0} → (CidArg Cid → W → Option Error × W) → Cid → W → Option Error × W
unpin log_unpin h w = log_unpin (record { cid = h; allocations = []; everywhere = false }) w
