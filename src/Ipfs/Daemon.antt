-- ===== src/Ipfs/Daemon.antt =====
-- ipfs_http_connector.go: the connector against a daemon that keeps pins.
use ipfs_cluster.Common.{
  ℕ, String, ◌≡◌, refl, sym, ap, ◌∙◌, ◌⊎◌, Bool, true, false, Option, none, some, [], ◌∷◌, arith,
  ◌<>◌, ◌==◌, eq_iff, Bool-cases, Option-cases, inl, inr,
}
use ipfs_cluster.Common.Dict.{Dict, Distinct, lookup, insert, lookup-insert}
use ipfs_cluster.Common.Result.{Error, Result, ok, err}
use ipfs_cluster.External.{Codecs}
use ipfs_cluster.Api.Status.{IpfsPinStatus, ipfs_pin_status_from_string, is_pinned}
use ipfs_cluster.Ipfs.{
  HttpOps, IpfsHttpConnector, Got, no_body, refused, fetched, answer_of, api_url, get,
}
use ipfs_cluster.Ipfs.Requests.{
  status_map, pin_ls, pin_ls_answer, pin_ls_cid, pin_ls_cid_answer, ask, got_error, pin, unpin,
  find_pin,
}

module _ {W : Type 0} (h : HttpOps W) (ipfs : IpfsHttpConnector) where
  -- The request to the daemon, and the body of an answer with code 200.
  abbrev pub send : String → W → Result (ℕ × Result String) × W
  send path w = h.http_get (api_url h ipfs <> "/" <> path) w

  abbrev pub Answers : String → W → String → Type 0
  Answers path w body = (send path w).0 ≡ ok (200, ok body)

module _ {Cid Addr W : Type 0} (x : Codecs Cid Addr) (h : HttpOps W)
    (ipfs : IpfsHttpConnector) where
  open x use {cid_string}

  abbrev pub ls_of : Cid → String
  ls_of c = "pin/ls?arg=" <> cid_string c

  abbrev pub add_of : Cid → String
  add_of c = "pin/add?arg=" <> cid_string c

  abbrev pub rm_of : Cid → String
  rm_of c = "pin/rm?arg=" <> cid_string c

  -- What the HTTP API of the daemon documents, for the CIDs that it has pinned directly or recursively
  -- (`pins`), if nobody else changes its pins. A listing changes no pin, and the type that it gives for a
  -- CID is right, also where that is another one (as of what a recursive pin pins indirectly).
  -- `pin/add` that is answered with code 200 has pinned its CID; it loses no pin and makes no other CID
  -- a direct or recursive pin. `pin/rm` removes none but the pin of its CID and makes none. Any request may
  -- fail, and a failed one may have done its work or not.
  pub record Serves (pins : W → String → Bool) : Type 0 where
    pub ls_keeps : (w : W) (c : Cid) (d : String) → pins (send h ipfs (ls_of c) w).1 d ≡ pins w d
    pub ls_right :
        (w : W) (c : Cid) (body type : String) (keys : Dict String)
        → Answers h ipfs (ls_of c) w body
        → h.unmarshal_pin_ls body ≡ ok keys
        → lookup (cid_string c) keys ≡ some type
        → is_pinned (ipfs_pin_status_from_string type) ≡ pins w (cid_string c)
    pub add_keeps :
        (w : W) (c : Cid) (d : String)
        → pins w d ≡ true
        → pins (send h ipfs (add_of c) w).1 d ≡ true
    pub add_others :
        (w : W) (c : Cid) (d : String)
        → (cid_string c == d) ≡ false
        → pins (send h ipfs (add_of c) w).1 d ≡ pins w d
    pub add_done :
        (w : W) (c : Cid) (body : String)
        → Answers h ipfs (add_of c) w body
        → pins (send h ipfs (add_of c) w).1 (cid_string c) ≡ true
    pub rm_makes_none :
        (w : W) (c : Cid) (d : String) → pins (send h ipfs (rm_of c) w).1 d ≡ true → pins w d ≡ true
    pub rm_others :
        (w : W) (c : Cid) (d : String)
        → (cid_string c == d) ≡ false
        → pins (send h ipfs (rm_of c) w).1 d ≡ pins w d
    pub all_keeps :
        (w : W) (d : String) → pins (send h ipfs "pin/ls?type=recursive" w).1 d ≡ pins w d
    pub all_right :
        (w : W) (body : String) (keys : Dict String)
        → Answers h ipfs "pin/ls?type=recursive" w body
        → h.unmarshal_pin_ls body ≡ ok keys
        → Distinct keys
          × ((c type : String)
              → lookup c keys ≡ some type
              → is_pinned (ipfs_pin_status_from_string type) ≡ pins w c)

fetched-200 :
    {W : Type 0} (h : HttpOps W) (ipfs : IpfsHttpConnector) (path body : String)
    (resp : Result (ℕ × Result String))
    → answer_of h ipfs path resp ≡ fetched body
    → resp ≡ ok (200, ok body)
fetched-200 h ipfs path body (err e) f = absurd (cc f)
fetched-200 h ipfs path body (ok (code, err e)) f = absurd (cc f)
fetched-200 h ipfs path body (ok (code, ok b)) f = ground (arith, f)

module _ {Cid Addr W : Type 0} (x : Codecs Cid Addr) (h : HttpOps W) (ipfs : IpfsHttpConnector)
    (pins : W → String → Bool) (s : Serves x h ipfs pins) where
  open x use {cid_string}

  ask-world : (path : String) (w : W) → (ask x h ipfs path w).1 ≡ (send h ipfs path w).1
  unfolding ask get
  ask-world path w = refl

  -- A request without an error was answered with code 200.
  ask-done :
      (path : String) (w : W)
      → (ask x h ipfs path w).0 ≡ none
      → (body : String) × Answers h ipfs path w body
  unfolding ask get
  ask-done path w e = by_got (answer_of h ipfs path (send h ipfs path w).0) refl e
    where
      by_got :
          (got : Got)
          → answer_of h ipfs path (send h ipfs path w).0 ≡ got
          → got_error got ≡ none
          → (body : String) × Answers h ipfs path w body
      by_got (no_body m) a e = absurd (cc e)
      by_got (refused b m) a e = absurd (cc e)
      by_got (fetched b) a e = (b, fetched-200 h ipfs path b (send h ipfs path w).0 a)

  -- `PinLsCid` changes no pin, and calls pinned only a CID that is pinned.
  pub pin_ls_cid-holds :
      (c : Cid) (w : W)
      → let ((status, e), w') = pin_ls_cid x h ipfs c w in
        (is_pinned status ≡ true → pins w (cid_string c) ≡ true)
        × ((d : String) → pins w' d ≡ pins w d)
  unfolding pin_ls_cid get pin_ls_cid_answer
  pin_ls_cid-holds c w = (
    by_got (answer_of h ipfs (ls_of x h ipfs c) (send h ipfs (ls_of x h ipfs c) w).0) refl,
    s.ls_keeps w c,
  )
    where
      by_keys :
          (body : String) (res : Result (Dict String))
          → Answers h ipfs (ls_of x h ipfs c) w body
          → h.unmarshal_pin_ls body ≡ res
          → is_pinned
              (elim res as (λ _. IpfsPinStatus × Option Error) [
                | err e ↦ (IpfsPinStatus.error, some e)
                | ok keys ↦ find_pin x h ipfs c keys
              ]).0
            ≡ true
          → pins w (cid_string c) ≡ true
      by_keys body (err e) a u q = absurd (cc q)
      by_keys body (ok keys) a u q = elim (Option-cases (lookup (cid_string c) keys)) [
        | inl missing ↦ absurd (ground (arith, missing, q))
        | inr (type, there) ↦ ground (arith, s.ls_right w c body type keys a u there, there, q)
      ]

      by_got :
          (got : Got)
          → answer_of h ipfs (ls_of x h ipfs c) (send h ipfs (ls_of x h ipfs c) w).0 ≡ got
          → is_pinned (pin_ls_cid_answer x h ipfs c got).0 ≡ true
          → pins w (cid_string c) ≡ true
      by_got (no_body m) a q = absurd (cc q)
      by_got (refused b m) a q = absurd (cc q)
      by_got (fetched b) a q =
          by_keys b (h.unmarshal_pin_ls b)
            (fetched-200 h ipfs _ b (send h ipfs (ls_of x h ipfs c) w).0 a) refl q

  -- What a request may do: `Pin` and `Unpin` ask for the status first.
  pub pin-cases :
      (c : Cid) (w : W)
      → let w1 = (pin_ls_cid x h ipfs c w).1 in
        (((pin x h ipfs c w).1 ≡ w1)
          × ((pin x h ipfs c w).0 ≡ none → is_pinned (pin_ls_cid x h ipfs c w).0.0 ≡ true))
        ⊎ (pin x h ipfs c w ≡ ask x h ipfs (add_of x h ipfs c) w1)
  unfolding pin
  pin-cases c w = elim (Option-cases (pin_ls_cid x h ipfs c w).0.1) [
    | inr (m, failed) ↦ inl ((ground (arith, failed), λ e. absurd (ground (arith, failed, e))))
    | inl fine ↦ elim (Bool-cases (is_pinned (pin_ls_cid x h ipfs c w).0.0)) [
      | inl there ↦ inl ((ground (arith, fine, there), λ e. there))
      | inr missing ↦ inr (ground (arith, fine, missing))
    ]
  ]

  pub unpin-cases :
      (c : Cid) (w : W)
      → let w1 = (pin_ls_cid x h ipfs c w).1 in
        ((unpin x h ipfs c w).1 ≡ w1)
        ⊎ ((unpin x h ipfs c w).1 ≡ (ask x h ipfs (rm_of x h ipfs c) w1).1)
  unfolding unpin
  unpin-cases c w = elim (Option-cases (pin_ls_cid x h ipfs c w).0.1) [
    | inr (m, failed) ↦ inl (ground (arith, failed))
    | inl fine ↦ elim (Bool-cases (is_pinned (pin_ls_cid x h ipfs c w).0.0)) [
      | inl there ↦ inr (ground (arith, fine, there))
      | inr missing ↦ inl (ground (arith, fine, missing))
    ]
  ]

  -- Over a daemon that serves its pins as its HTTP API documents, requests to which may fail: `Pin` that
  -- reports no error leaves its CID pinned, directly or recursively. With or without an error it loses no
  -- such pin, and every other CID has or has not one as before.
  pub pin-holds :
      (c : Cid) (w : W)
      → let (e, w') = pin x h ipfs c w in
        (e ≡ none → pins w' (cid_string c) ≡ true)
        × ((d : String) → pins w d ≡ true → pins w' d ≡ true)
        × ((d : String) → (cid_string c == d) ≡ false → pins w' d ≡ pins w d)
  unfolding ask get
  pin-holds c w =
      let (right, same) = pin_ls_cid-holds c w in
      let w1 = (pin_ls_cid x h ipfs c w).1 in
      elim (pin-cases c w) [
        | inl (stays, there) ↦ (
          λ e. ap (λ v. pins v (cid_string c)) stays ∙ same (cid_string c) ∙ right (there e),
          λ d q. ap (λ v. pins v d) stays ∙ same d ∙ q,
          λ d other. ap (λ v. pins v d) stays ∙ same d,
        )
        | inr asked ↦ (
          λ e.
              let (body, a) = ask-done (add_of x h ipfs c) w1 (sym (ap (λ t. t.0) asked) ∙ e) in
              ap (λ t. pins t.1 (cid_string c)) asked ∙ s.add_done w1 c body a,
          λ d q. ap (λ t. pins t.1 d) asked ∙ s.add_keeps w1 c d (same d ∙ q),
          λ d other. ap (λ t. pins t.1 d) asked ∙ s.add_others w1 c d other ∙ same d,
        )
      ]

  -- `Unpin` makes no pin, and takes away none but that of its CID.
  pub unpin-holds :
      (c : Cid) (w : W)
      → let (e, w') = unpin x h ipfs c w in
        ((d : String) → pins w' d ≡ true → pins w d ≡ true)
        × ((d : String) → (cid_string c == d) ≡ false → pins w' d ≡ pins w d)
  unfolding ask get
  unpin-holds c w =
      let (right, same) = pin_ls_cid-holds c w in
      let w1 = (pin_ls_cid x h ipfs c w).1 in
      elim (unpin-cases c w) [
        | inl stays ↦ (
          λ d q. sym (same d) ∙ sym (ap (λ v. pins v d) stays) ∙ q,
          λ d other. ap (λ v. pins v d) stays ∙ same d,
        )
        | inr asked ↦ (
          λ d q. sym (same d) ∙ s.rm_makes_none w1 c d (sym (ap (λ v. pins v d) asked) ∙ q),
          λ d other. ap (λ v. pins v d) asked ∙ s.rm_others w1 c d other ∙ same d,
        )
      ]

  lookup-status_map :
      (keys : Dict String) (out : Dict IpfsPinStatus) (k : String)
      → Distinct keys
      → lookup k (status_map keys out) ≡ elim (lookup k keys) as (λ o. Option IpfsPinStatus) [
        | none ↦ lookup k out
        | some type ↦ some (ipfs_pin_status_from_string type)
      ]
  unfolding status_map lookup
  lookup-status_map [] out k d = refl
  lookup-status_map ((j, v) ∷ keys) out k d = ground (
    arith,
    eq_iff j k,
    d.0,
    lookup-insert j k (ipfs_pin_status_from_string v) out,
    lookup-status_map keys (insert j (ipfs_pin_status_from_string v) out) k d.1,
  )

  lookup_nil : (k : String) → lookup {V = IpfsPinStatus} k [] ≡ none
  unfolding lookup
  lookup_nil k = refl

  of_key :
      (w : W) (k : String) (ips : IpfsPinStatus) (keys : Dict String)
      → Distinct keys
      → ((type : String)
          → lookup k keys ≡ some type
          → is_pinned (ipfs_pin_status_from_string type) ≡ pins w k)
      → lookup k (status_map keys []) ≡ some ips
      → is_pinned ips ≡ pins w k
  of_key w k ips keys d found e = elim (Option-cases (lookup k keys)) [
    | inl missing ↦ absurd (ground (arith, lookup-status_map keys [] k d, lookup_nil k))
    | inr (type, there) ↦ ground (arith, lookup-status_map keys [] k d, found type there)
  ]

  -- `PinLs` of the recursive pins changes no pin, and what it lists, if it succeeds, is right.
  pub pin_ls-holds :
      (w : W)
      → let (res, w') = pin_ls x h ipfs "recursive" w in
        ((ips_map : Dict IpfsPinStatus)
          → res ≡ ok ips_map
          → (k : String) (ips : IpfsPinStatus) → lookup k ips_map ≡ some ips
          → is_pinned ips ≡ pins w k)
        × ((d : String) → pins w' d ≡ pins w d)
  unfolding pin_ls pin_ls_answer get
  pin_ls-holds w = (
    by_got (answer_of h ipfs "pin/ls?type=recursive" (send h ipfs "pin/ls?type=recursive" w).0)
        refl,
    s.all_keeps w,
  )
    where
      by_keys :
          (body : String) (res : Result (Dict String)) (ips_map : Dict IpfsPinStatus)
          → Answers h ipfs "pin/ls?type=recursive" w body
          → h.unmarshal_pin_ls body ≡ res
          → elim res as (λ _. Result (Dict IpfsPinStatus)) [
            | err e ↦ err e
            | ok keys ↦ ok (status_map keys [])
          ]
            ≡ ok ips_map
          → (k : String) (ips : IpfsPinStatus) → lookup k ips_map ≡ some ips
          → is_pinned ips ≡ pins w k
      by_keys body (err e) m a u q k ips l = absurd (cc q)
      by_keys body (ok keys) m a u q k ips l =
          let (d, found) = s.all_right w body keys a u in
          of_key w k ips keys d (found k) (ground (arith, q, l))

      by_got :
          (got : Got)
          → answer_of h ipfs "pin/ls?type=recursive" (send h ipfs "pin/ls?type=recursive" w).0 ≡ got
          → (ips_map : Dict IpfsPinStatus) → pin_ls_answer x h ipfs got ≡ ok ips_map
          → (k : String) (ips : IpfsPinStatus) → lookup k ips_map ≡ some ips
          → is_pinned ips ≡ pins w k
      by_got (no_body m) a ips_map q = absurd (cc q)
      by_got (refused b m) a ips_map q = absurd (cc q)
      by_got (fetched b) a ips_map q =
          by_keys b (h.unmarshal_pin_ls b) ips_map
            (fetched-200 h ipfs _ b (send h ipfs "pin/ls?type=recursive" w).0 a) refl q
