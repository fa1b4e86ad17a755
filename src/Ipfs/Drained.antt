-- ===== src/Ipfs/Drained.antt =====
-- map_pin_tracker.go, rpc_api.go and ipfs_http_connector.go together: the pin worker over a daemon.
use ipfs_cluster.Common.{
  ℕ, zero, suc, String, ◌≡◌, ◌⊎◌, inl, inr, refl, true, false, Bool, Option-cases, All, All-mono,
  arith, length,
}
use ipfs_cluster.Common.Dict.{lookup}
use ipfs_cluster.External.{Codecs}
use ipfs_cluster.Interfaces.{IpfsRpc}
use ipfs_cluster.Api.Status.{pinned, pin_error}
use ipfs_cluster.Tracker.{MapPinTracker, get}
use ipfs_cluster.Tracker.Entries.{status_of}
use ipfs_cluster.Tracker.Runs.{run}
use ipfs_cluster.Tracker.Draining.{Settled, pin_rounds, run_drains}
use ipfs_cluster.Rpc.Local.{connector_rpc}
use ipfs_cluster.Ipfs.{HttpOps, IpfsHttpConnector}
use ipfs_cluster.Ipfs.Daemon.{Serves}
use ipfs_cluster.Ipfs.Tracked.{Held}
use ipfs_cluster.Ipfs.CoherentRuns.{CallDecodes, Coherent, run-Coherent}

module _ {Cid Addr W : Type 0} (x : Codecs Cid Addr) (h : HttpOps W) (ipfs : IpfsHttpConnector)
    (now : W → ℕ) (pins : W → String → Bool) (s : Serves x h ipfs pins) where
  open x use {cid_string}

  abbrev over : IpfsRpc W
  over = connector_rpc x h ipfs now

  -- The tracker calls the CID pinned, and the daemon has it pinned; or the tracker has an error of its pin.
  abbrev pub IsPinned : Cid → MapPinTracker Cid × W → Type 0
  IsPinned d t = (status_of x d t.0 ≡ pinned) × (pins t.1 (cid_string d) ≡ true)

  abbrev pub IsSettled : Cid → MapPinTracker Cid × W → Type 0
  IsSettled d t = IsPinned d t ⊎ (status_of x d t.0 ≡ pin_error)

  settled :
      (d : Cid) (t : MapPinTracker Cid × W)
      → Held x pins t.0 t.1
      → Settled x over d t.0
      → IsSettled d t
  unfolding get
  settled d t held (inr failed) = inr failed
  settled d t held (inl there) = elim (Option-cases (lookup (cid_string d) t.0.status)) [
    | inl missing ↦ absurd (ground (arith, missing, there))
    | inr (p, found) ↦ inl (there, held (cid_string d) p found (ground (arith, found, there)))
  ]

  rounds-decode : (n : ℕ) → All (CallDecodes x h ipfs now pins s) (pin_rounds n)
  unfolding pin_rounds
  rounds-decode zero = tt
  rounds-decode (suc n) = (tt, rounds-decode n)

  -- Over a daemon that serves its pins as its HTTP API documents, and unless the tracker is shut down: if
  -- every entry that says `pinned` is of a CID that the daemon has pinned, and the CIDs in the queues
  -- decode, then as many rounds of the pin worker as there are requests in its queue leave every CID of the
  -- queue `pinned` in the tracker and pinned by the daemon, or with the status `pin_error`.
  pub run-IsSettled :
      (mpt : MapPinTracker Cid) (w : W)
      → mpt.cancelled ≡ false
      → Coherent x h ipfs now pins s (mpt, w)
      → All
          (λ c.
            IsSettled c.cid
              (run x (connector_rpc x h ipfs now) (pin_rounds (length mpt.pin_ch)) (mpt, w)))
          mpt.pin_ch
  run-IsSettled mpt w up v =
      let n = length mpt.pin_ch in
      let (empty, all) = run_drains x over mpt.pin_ch mpt w refl up in
      let after = run-Coherent x h ipfs now pins s (pin_rounds n) (mpt, w) (rounds-decode n) v in
      All-mono (λ c. settled c.cid (run x over (pin_rounds n) (mpt, w)) after.held) mpt.pin_ch all
