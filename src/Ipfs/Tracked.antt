-- ===== src/Ipfs/Tracked.antt =====
-- map_pin_tracker.go and ipfs_http_connector.go together: what the tracker calls pinned, against
-- the pins of the daemon.
use ipfs_cluster.Common.{
  ℕ, String, ◌≡◌, refl, ◌∙◌, Bool, true, false, some, arith, eq_iff, Bool-cases, inl, inr, if_rule,
  ◌==◌,
}
use ipfs_cluster.Common.Dict.{lookup, lookup-insert, lookup-delete, delete}
use ipfs_cluster.Common.Result.{Error}
use ipfs_cluster.External.{Codecs}
use ipfs_cluster.Api.Status.{
  TrackerStatus, pin_error, unpin_error, pinned, pinning, unpinning, unpinned, IpfsPinStatus,
  is_pinned,
}
use ipfs_cluster.Api.Types.{PinInfo}
use ipfs_cluster.Tracker.{MapPinTracker, put, set_status, get, set_error, sync_entry, sync_status}
use ipfs_cluster.Tracker.Invariant.{error_status-cases}

module _ {Cid Addr W : Type 0} (x : Codecs Cid Addr) (pins : W → String → Bool) where
  open x use {cid_string}

  -- A CID whose entry says `pinned` is pinned by the daemon.
  abbrev pub Held : MapPinTracker Cid → W → Type 0
  Held mpt w =
      (k : String) (p : PinInfo Cid)
      → lookup k mpt.status ≡ some p
      → p.status ≡ pinned
      → pins w k ≡ true

  pub world-Held :
      (mpt : MapPinTracker Cid) (w w' : W)
      → ((k : String) → pins w k ≡ true → pins w' k ≡ true)
      → Held mpt w
      → Held mpt w'
  world-Held mpt w w' more held k p e h = more k (held k p e h)

  -- So it is for every CID but one.
  abbrev HeldBut : String → MapPinTracker Cid → W → Type 0
  HeldBut c mpt w =
      (k : String) (p : PinInfo Cid)
      → (c == k) ≡ false
      → lookup k mpt.status ≡ some p
      → p.status ≡ pinned
      → pins w k ≡ true

  but :
      (c : Cid) (mpt : MapPinTracker Cid) (w w' : W)
      → ((k : String) → (cid_string c == k) ≡ false → pins w' k ≡ pins w k)
      → Held mpt w
      → HeldBut (cid_string c) mpt w'
  but c mpt w w' same held k p other e h = same k other ∙ held k p e h

  put-HeldBut :
      (t : ℕ) (c : Cid) (s : TrackerStatus) (m : Error) (mpt : MapPinTracker Cid) (w : W)
      → (s ≡ pinned → pins w (cid_string c) ≡ true)
      → HeldBut (cid_string c) mpt w
      → Held (put x t c s m mpt) w
  put-HeldBut t c s m mpt w there held k p e h =
      let after =
        lookup-insert (cid_string c) k
          (record { cid = c; peer = mpt.peer_id; status = s; ts = t; error = m }) mpt.status in
      elim (Bool-cases (cid_string c == k)) [
        | inl same ↦
            let its : s ≡ p.status = ground (arith, same, after, e) in
            let pinned_here : pins w (cid_string c) ≡ true = there (its ∙ h) in
            ground (arith, pinned_here, eq_iff (cid_string c) k, same)
        | inr other ↦ held k p other (ground (arith, other, after, e)) h
      ]

  pub put-Held :
      (t : ℕ) (c : Cid) (s : TrackerStatus) (m : Error) (mpt : MapPinTracker Cid) (w : W)
      → (s ≡ pinned → pins w (cid_string c) ≡ true)
      → Held mpt w
      → Held (put x t c s m mpt) w
  put-Held t c s m mpt w there held =
      put-HeldBut t c s m mpt w there (but c mpt w w (λ k other. refl) held)

  removed-Held :
      (c : Cid) (mpt : MapPinTracker Cid) (w w' : W)
      → ((k : String) → (cid_string c == k) ≡ false → pins w' k ≡ pins w k)
      → Held mpt w
      → Held (record mpt { status = delete (cid_string c) mpt.status }) w'
  removed-Held c mpt w w' same held k p e h =
      let after = lookup-delete (cid_string c) k mpt.status in
      elim (Bool-cases (cid_string c == k)) [
        | inl here ↦ absurd (ground (arith, here, after, e))
        | inr other ↦ same k other ∙ held k p (ground (arith, other, after, e)) h
      ]

  pub set_status-Held :
      (t : ℕ) (c : Cid) (s : TrackerStatus) (mpt : MapPinTracker Cid) (w : W)
      → (s ≡ pinned → pins w (cid_string c) ≡ true)
      → Held mpt w
      → Held (set_status x t c s mpt) w
  unfolding set_status
  set_status-Held t c s mpt w there held =
      if_rule (λ m. Held m w) _ _ _ (removed-Held c mpt w w (λ k e. refl) held)
        (put-Held t c s "" mpt w there held)

  -- The pin of the CID may be gone, and its entry is taken out of the map.
  pub set_unpinned-Held :
      (t : ℕ) (c : Cid) (mpt : MapPinTracker Cid) (w w' : W)
      → ((k : String) → (cid_string c == k) ≡ false → pins w' k ≡ pins w k)
      → Held mpt w
      → Held (set_status x t c unpinned mpt) w'
  unfolding set_status
  set_unpinned-Held t c mpt w w' same held = removed-Held c mpt w w' same held

  -- The pin of the CID may be gone, and its entry gets an error, unless it is not `pinned`.
  pub set_error_of-Held :
      (t : ℕ) (c : Cid) (m : Error) (mpt : MapPinTracker Cid) (w w' : W)
      → ((k : String) → (cid_string c == k) ≡ false → pins w' k ≡ pins w k)
      → Held mpt w
      → Held (set_error x t c m mpt) w'
  unfolding set_error get
  set_error_of-Held t c m mpt w w' same held =
      let rest = but c mpt w w' same held in
      elim (error_status-cases x (get x t c mpt).status) [
        | inl e ↦
            rw (e, set_error)
              (λ k p there h. elim (Bool-cases (cid_string c == k)) [
                | inl here ↦ absurd (ground (arith, here, eq_iff (cid_string c) k, there, h, e))
                | inr other ↦ rest k p other there h
              ])
        | inr (inl e) ↦
            rw (e, set_error) (put-HeldBut t c pin_error m mpt w' (λ q. absurd (cc q)) rest)
        | inr (inr e) ↦
            rw (e, set_error) (put-HeldBut t c unpin_error m mpt w' (λ q. absurd (cc q)) rest)
      ]

  pub set_error-Held :
      (t : ℕ) (c : Cid) (m : Error) (mpt : MapPinTracker Cid) (w : W)
      → Held mpt w
      → Held (set_error x t c m mpt) w
  set_error-Held t c m mpt w held = set_error_of-Held t c m mpt w w (λ k other. refl) held

  sync_entry-Held :
      (t : ℕ) (c : Cid) (b : Bool) (s : TrackerStatus) (ts : ℕ) (mpt : MapPinTracker Cid) (w : W)
      → (b ≡ true → pins w (cid_string c) ≡ true)
      → Held mpt w
      → Held (sync_entry x t c b s ts mpt) w
  unfolding sync_entry
  sync_entry-Held t c true pinning ts mpt w h v = set_status-Held t c pinned mpt w (λ q. h refl) v
  sync_entry-Held t c true pin_error ts mpt w h v = set_status-Held t c pinned mpt w (λ q. h refl) v
  sync_entry-Held t c true unpinning ts mpt w h v =
      if_rule (λ m. Held m w) _ _ _ (set_error-Held t c _ mpt w v) v
  sync_entry-Held t c true unpinned ts mpt w h v = set_error-Held t c _ mpt w v
  sync_entry-Held t c false pinned ts mpt w h v = set_error-Held t c _ mpt w v
  sync_entry-Held t c false pinning ts mpt w h v =
      if_rule (λ m. Held m w) _ _ _ (set_error-Held t c _ mpt w v) v
  sync_entry-Held t c false unpinning ts mpt w h v =
      set_status-Held t c unpinned mpt w (λ q. absurd (cc q)) v
  sync_entry-Held t c false unpin_error ts mpt w h v =
      set_status-Held t c unpinned mpt w (λ q. absurd (cc q)) v
  sync_entry-Held t c _ _ ts mpt w h v = v

  pub sync_status-Held :
      (t : ℕ) (c : Cid) (ips : IpfsPinStatus) (mpt : MapPinTracker Cid) (w : W)
      → (is_pinned ips ≡ true → pins w (cid_string c) ≡ true)
      → Held mpt w
      → Held (sync_status x t c ips mpt).1 w
  unfolding sync_status
  sync_status-Held t c ips mpt w h v = sync_entry-Held t c _ _ _ mpt w h v
