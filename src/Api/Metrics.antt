-- ===== src/Api/Metrics.antt =====
-- api/types.go: `Metric`. The present, `time.Now()`, is the argument `now`.
use ipfs_cluster.Common.{ℕ, String, ◌+◌, ◌*◌, Bool, false, ◌||◌, not, ltb}
use ipfs_cluster.Common.Int.{ℤ, sub_ℕ}
use ipfs_cluster.Common.Result.{value_or}
use ipfs_cluster.External.{Codecs, PeerId}

pub record Metric : Type 0 where
  pub name : String
  pub peer : PeerId
  pub value : String
  pub expire : String
  pub valid : Bool

-- The zero value.
abbrev pub no_metric : Metric
no_metric = record { name = ""; peer = ""; value = ""; expire = ""; valid = false }

-- `time.Second`, in nanoseconds.
abbrev pub second : ℕ
second = 1000000000

module _ {Cid Addr : Type 0} (x : Codecs Cid Addr) where
  open x use {format_rfc1123, parse_rfc1123}

  unfoldable pub set_ttl : ℕ → ℕ → Metric → Metric
  set_ttl now seconds m = record m { expire = format_rfc1123 (now + seconds * second) }

  unfoldable pub get_ttl : ℕ → Metric → ℤ
  get_ttl now m = let exp = value_or 0 (parse_rfc1123 m.expire) in sub_ℕ exp now

  -- `time.Now().After(exp)`
  unfoldable pub expired : ℕ → Metric → Bool
  expired now m = let exp = value_or 0 (parse_rfc1123 m.expire) in ltb exp now

  unfoldable pub discard : ℕ → Metric → Bool
  unfolding expired
  discard now m = not m.valid || expired now m
