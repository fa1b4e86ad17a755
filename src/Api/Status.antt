-- ===== src/Api/Status.antt =====
-- api/types.go: `TrackerStatus` and `IPFSPinStatus`.
use ipfs_cluster.Common.{ℕ, String, Bool, true, false, List, [], ◌∷◌, ◌==◌, eqb, if◌then◌else◌}

pub data TrackerStatus : Type 0 where
  bug cluster_error pin_error unpin_error pinned pinning unpinning unpinned remote : TrackerStatus

-- The constant's value.
abbrev pub iota : TrackerStatus → ℕ
iota bug = 0
iota cluster_error = 1
iota pin_error = 2
iota unpin_error = 3
iota pinned = 4
iota pinning = 5
iota unpinning = 6
iota unpinned = 7
iota remote = 8

-- `a == b` on statuses
abbrev pub same_status : TrackerStatus → TrackerStatus → Bool
same_status a b = eqb (iota a) (iota b)

unfoldable pub status_string : TrackerStatus → String
status_string bug = "bug"
status_string cluster_error = "cluster_error"
status_string pin_error = "pin_error"
status_string unpin_error = "unpin_error"
status_string pinned = "pinned"
status_string pinning = "pinning"
status_string unpinning = "unpinning"
status_string unpinned = "unpinned"
status_string remote = "remote"

-- `for k, v := range trackerStatusString`: Go goes through the keys in any order.
unfoldable pub scan_status : List TrackerStatus → String → TrackerStatus
unfolding status_string
scan_status [] str = bug
scan_status (k ∷ order) str = if status_string k == str then k else scan_status order str

unfoldable pub tracker_status_from_string : String → TrackerStatus
unfolding scan_status
tracker_status_from_string = scan_status (
    bug ∷ cluster_error ∷ pin_error ∷ unpin_error ∷ pinned ∷ pinning ∷ unpinning ∷ unpinned ∷ remote
    ∷ [])

pub data IpfsPinStatus : Type 0 where
  bug error direct recursive indirect unpinned : IpfsPinStatus

unfoldable pub ipfs_pin_status_from_string : String → IpfsPinStatus
ipfs_pin_status_from_string t =
    if t == "indirect"
    then IpfsPinStatus.indirect
    else if t == "direct"
    then IpfsPinStatus.direct
    else if t == "recursive"
    then IpfsPinStatus.recursive
    else IpfsPinStatus.bug

abbrev pub is_pinned : IpfsPinStatus → Bool
is_pinned IpfsPinStatus.direct = true
is_pinned IpfsPinStatus.recursive = true
is_pinned IpfsPinStatus.bug = false
is_pinned IpfsPinStatus.error = false
is_pinned IpfsPinStatus.indirect = false
is_pinned IpfsPinStatus.unpinned = false
