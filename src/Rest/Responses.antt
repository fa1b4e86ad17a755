-- ===== src/Rest/Responses.antt =====
-- rest_api.go: what the handlers answer, and when they call the RPC API.
use ipfs_cluster.Common.{
  ℕ, List, ◌∷◌, String, ◌≡◌, ◌≢◌, refl, ap, sym, subst, ◌∙◌, inl, inr, false, Option, none, some,
  [], ◌<>◌, ◌==◌, arith, eq_iff, if-false, Bool-cases,
}
use ipfs_cluster.Common.Result.{Error, Result, ok, err, Result-cases}
use ipfs_cluster.External.{Codecs, PeerId}
use ipfs_cluster.Api.Types.{CidArgSerial}
use ipfs_cluster.Api.Ids.{multiaddr_to_serial}
use ipfs_cluster.Rest.{
  Body, Response, Request, Route, ClusterRpc, routes, with_cid, accepting, sending, send_response,
  send_code, send_error_response, parse_cid_or_error, parse_pid_or_error, peer_add_handler,
  peer_remove_handler, pin_handler, unpin_handler, status_handler, sync_handler, recover_handler,
}

-- The request's CID as the argument of a call.
abbrev pub arg_of : Request → CidArgSerial
arg_of r = record { cid = r.hash; allocations = []; everywhere = false }

-- What a handler leaves: the response that it wrote, and the world.
abbrev pub Outcome : Type 0 → Type 0
Outcome W = Option Response × W

-- An error that is answered with its code, as JSON.
abbrev pub Failed : {W : Type 0} → ℕ → Error → W → Outcome W → Type 0
Failed code e w out = out ≡ (some (record { code = code; body = Body.error_resp code e }), w)

-- The outcome sends on what a call gave: its value as JSON with code 200, or its error with 500.
abbrev pub Sent : {A W : Type 0} → (A → Body) → Result A × W → Outcome W → Type 0
Sent f (ok a, w) out = out ≡ (some (record { code = 200; body = f a }), w)
Sent f (err e, w) out = Failed 500 e w out

-- The outcome acknowledges a call that gave no error with the code and no body, and sends its error
-- with 500.
abbrev pub Acknowledged : {W : Type 0} → ℕ → Option Error × W → Outcome W → Type 0
Acknowledged code (none, w) out = out ≡ (some (record { code = code; body = Body.empty }), w)
Acknowledged code (some e, w) out = Failed 500 e w out

-- `cid.Decode` refuses the empty text.
abbrev pub RefusesEmpty : {Cid Addr : Type 0} → Codecs Cid Addr → Type 0
RefusesEmpty x = (e : Error) × (x.cid_decode "" ≡ err e)

module _ {Cid Addr : Type 0} (x : Codecs Cid Addr) where
  open x use {cid_decode, b58_decode}

  parse_cid-ok :
      (r : Request) (c : Cid)
      → cid_decode r.hash ≡ ok c
      → parse_cid_or_error x r
        ≡ (record { cid = r.hash; allocations = []; everywhere = false }, none)
  unfolding parse_cid_or_error
  parse_cid-ok r c e = rw (e, parse_cid_or_error) refl

  parse_cid-err :
      (r : Request) (m : Error)
      → cid_decode r.hash ≡ err m
      → parse_cid_or_error x r ≡ (
        record { cid = ""; allocations = []; everywhere = false },
        some (send_error_response 400 ("error decoding Cid: " <> m)),
      )
  unfolding parse_cid_or_error
  parse_cid-err r m e = rw (e, parse_cid_or_error) refl

  parse_pid-ok :
      (r : Request) (p : PeerId) → b58_decode r.peer ≡ ok p → parse_pid_or_error x r ≡ (p, none)
  unfolding parse_pid_or_error
  parse_pid-ok r p e = rw (e, parse_pid_or_error) refl

  parse_pid-err :
      (r : Request) (m : Error)
      → b58_decode r.peer ≡ err m
      → parse_pid_or_error x r
        ≡ ("", some (send_error_response 400 ("error decoding Peer ID: " <> m)))
  unfolding parse_pid_or_error
  parse_pid-err r m e = rw (e, parse_pid_or_error) refl

module _ {Cid Addr W : Type 0} (x : Codecs Cid Addr) where
  open x use {cid_decode, b58_decode}

  -- An outcome for a CID that decodes; for another one it is an error with code 400 and no call.
  abbrev pub OfCid : (CidArgSerial → Outcome W → Type 0) → Request → W → Outcome W → Type 0
  OfCid P r w out = elim (cid_decode r.hash) as (λ _. Type 0) [
    | err e ↦ Failed 400 ("error decoding Cid: " <> e) w out
    | ok c ↦ P (arg_of r) out
  ]

  sent : {A : Type 0} (f : A → Body) (t : Result A × W) → Sent f t (some (send_response f t.0), t.1)
  unfolding send_response send_error_response
  sent f (ok a, w) = refl
  sent f (err e, w) = refl

  acknowledged :
      (code : ℕ) (t : Option Error × W) → Acknowledged code t (some (send_code code t.0), t.1)
  unfolding send_code send_error_response
  acknowledged code (none, w) = refl
  acknowledged code (some e, w) = refl

  -- A handler of a CID makes its call, with the text of the request, exactly if the text decodes;
  -- if not, it answers 400. `cid.Decode` refuses the empty text.
  pub with_cid-cases :
      (k : CidArgSerial → W → Response × W) (r : Request) (w : W)
      → RefusesEmpty x
      → with_cid x k r w ≡ elim (cid_decode r.hash) as (λ _. Option Response × W) [
        | err e ↦ (some (send_error_response 400 ("error decoding Cid: " <> e)), w)
        | ok c ↦
            let (resp, w') = k (record { cid = r.hash; allocations = []; everywhere = false }) w in
            (some resp, w')
      ]
  unfolding with_cid
  with_cid-cases k r w (e, refuses) = elim (Result-cases (cid_decode r.hash)) [
    | inl (c, decodes) ↦ elim (Bool-cases (r.hash == "")) [
      | inl nil ↦ absurd (ground (arith, eq_iff r.hash "", nil, decodes, refuses))
      | inr other ↦ rw (parse_cid-ok x r c decodes, decodes) (if-false _ _ _ other)
    ]
    | inr (m, fails) ↦ rw (parse_cid-err x r m fails, fails) refl
  ]

  with_cid-OfCid :
      (P : CidArgSerial → Outcome W → Type 0) (k : CidArgSerial → W → Response × W) (r : Request)
      (w : W)
      → RefusesEmpty x
      → P (arg_of r) (let (resp, w') = k (arg_of r) w in (some resp, w'))
      → OfCid P r w (with_cid x k r w)
  unfolding send_error_response
  with_cid-OfCid P k r w empty h =
      by_cid (cid_decode r.hash) (with_cid x k r w) (with_cid-cases k r w empty)
    where
      by_cid :
          (res : Result Cid) (out : Outcome W)
          → out ≡ elim res as (λ _. Outcome W) [
            | err e ↦ (some (send_error_response 400 ("error decoding Cid: " <> e)), w)
            | ok c ↦ let (resp, w') = k (arg_of r) w in (some resp, w')
          ]
          → elim res as (λ _. Type 0) [
            | err e ↦ Failed 400 ("error decoding Cid: " <> e) w out
            | ok c ↦ P (arg_of r) out
          ]
      by_cid (err e) out same = same
      by_cid (ok c) out same = subst (P (arg_of r)) (sym same) h

  module _ (rpc : ClusterRpc W) (decode_add_body : String → Result String) where
    -- An outcome of `POST /peers`.
    abbrev pub OfBody : Request → W → Outcome W → Type 0
    OfBody r w out = elim (decode_add_body r.body) as (λ _. Type 0) [
      | err e ↦ Failed 400 "error decoding request body" w out
      | ok text ↦ elim (x.new_multiaddr text) as (λ _. Type 0) [
        | err e ↦ Failed 400 "error decoding peer_multiaddress" w out
        | ok addr ↦ Sent Body.id_resp (rpc.peer_add (multiaddr_to_serial x addr) w) out
      ]
    ]

    -- An outcome of `DELETE /peers/{peer}`.
    abbrev pub OfPeer : Request → W → Outcome W → Type 0
    OfPeer r w out = elim (b58_decode r.peer) as (λ _. Type 0) [
      | err e ↦ Failed 400 ("error decoding Peer ID: " <> e) w out
      | ok p ↦ Acknowledged 204 (rpc.peer_remove p w) out
    ]

    peer_add-OfBody :
        (r : Request) (w : W) → OfBody r w (peer_add_handler x rpc decode_add_body r w)
    unfolding peer_add_handler send_error_response
    peer_add-OfBody r w = elim (Result-cases (decode_add_body r.body)) [
      | inr (m, fails) ↦ rw (OfBody, fails) (rw (fails, peer_add_handler) refl)
      | inl (text, parsed) ↦ elim (Result-cases (x.new_multiaddr text)) [
        | inr (m, fails) ↦ rw (OfBody, parsed, fails) (rw (parsed, fails, peer_add_handler) refl)
        | inl (addr, decodes) ↦
            let t = rpc.peer_add (multiaddr_to_serial x addr) w in
            let same : peer_add_handler x rpc decode_add_body r w
                ≡ (some (send_response Body.id_resp t.0), t.1) =
              rw (parsed, decodes, peer_add_handler) refl in
            rw (OfBody, parsed, decodes)
              (subst (Sent Body.id_resp t) (sym same) (sent Body.id_resp t))
      ]
    ]

    -- the handler on a peer ID that decodes, and on another one
    removed :
        (r : Request) (w : W) (p : PeerId)
        → b58_decode r.peer ≡ ok p
        → (p == "") ≡ false
        → peer_remove_handler x rpc decode_add_body r w
          ≡ (let (e, w') = rpc.peer_remove p w in (some (send_code 204 e), w'))
    unfolding peer_remove_handler
    removed r w p decodes other = rw (parse_pid-ok x r p decodes) (if-false _ _ _ other)

    refused :
        (r : Request) (w : W) (m : Error)
        → b58_decode r.peer ≡ err m
        → peer_remove_handler x rpc decode_add_body r w
          ≡ (some (send_error_response 400 ("error decoding Peer ID: " <> m)), w)
    unfolding peer_remove_handler
    refused r w m fails = rw (parse_pid-err x r m fails) refl

    peer_remove-OfPeer :
        (r : Request) (w : W)
        → b58_decode r.peer ≢ ok ""
        → OfPeer r w (peer_remove_handler x rpc decode_add_body r w)
    unfolding send_error_response
    peer_remove-OfPeer r w h = elim (Result-cases (b58_decode r.peer)) [
      | inr (m, fails) ↦ rw (OfPeer, fails) (refused r w m fails)
      | inl (p, decodes) ↦ elim (Bool-cases (p == "")) [
        | inl nil ↦ absurd (h (decodes ∙ ap ok ((eq_iff p "").0 nil)))
        | inr other ↦
            let t = rpc.peer_remove p w in
            rw (OfPeer, decodes)
              (subst (Acknowledged 204 t) (sym (removed r w p decodes other)) (acknowledged 204 t))
      ]
    ]

    -- What the API promises of each route: its method and path, and its outcomes.
    abbrev pub promises : List (String × String × (Request → W → Outcome W → Type 0))
    promises =
        ("GET", "/id", λ r w. Sent Body.id_resp (rpc.id w))
        ∷ ("GET", "/version", λ r w. Sent Body.version_resp (rpc.version w))
        ∷ ("GET", "/peers", λ r w. Sent Body.ids_resp (rpc.peers w))
        ∷ ("POST", "/peers", OfBody)
        ∷ ("DELETE", "/peers/{peer}", OfPeer)
        ∷ ("GET", "/pinlist", λ r w. Sent Body.pins_resp (rpc.pin_list w))
        ∷ ("GET", "/pins", λ r w. Sent Body.pin_infos_resp (rpc.status_all w))
        ∷ ("POST", "/pins/sync", λ r w. Sent Body.pin_infos_resp (rpc.sync_all w))
        ∷ ("GET", "/pins/{hash}", λ r w. OfCid (λ c. Sent Body.pin_resp (rpc.status c w)) r w)
        ∷ ("POST", "/pins/{hash}", λ r w. OfCid (λ c. Acknowledged 202 (rpc.pin c w)) r w)
        ∷ ("DELETE", "/pins/{hash}", λ r w. OfCid (λ c. Acknowledged 202 (rpc.unpin c w)) r w)
        ∷ ("POST", "/pins/{hash}/sync", λ r w. OfCid (λ c. Sent Body.pin_resp (rpc.sync c w)) r w)
        ∷ (
          "POST",
          "/pins/{hash}/recover",
          λ r w. OfCid (λ c. Sent Body.pin_resp (rpc.recover c w)) r w,
        )
        ∷ []

    -- Each route has its promised method and path, and answers the request as promised.
    abbrev pub Keep :
        Request
        → W
        → List (String × String × (Request → W → Outcome W → Type 0))
        → List (Route W)
        → Type 0
    Keep r w [] [] = Unit
    Keep r w ((method, path, P) ∷ ps) (route ∷ routes) =
        (route.method ≡ method)
        × (route.pattern ≡ path)
        × P r w (route.handler_func r w)
        × Keep r w ps routes
    Keep r w _ _ = ⊥

    -- Every route answers every request with one response, after the one call that is its own: it
    -- sends on the value of the call as JSON with code 200, or acknowledges it with 202 (pin and unpin) or
    -- 204 (the removal of a peer), and the error of the call with 500. A CID, a peer ID, a body or an
    -- address that does not decode is answered with 400 and without a call. The call of a route with a CID
    -- is for that CID. `cid.Decode` refuses the empty text, and the peer text of the request does not
    -- decode to the empty ID.
    pub routes-Keep :
        (r : Request) (w : W)
        → RefusesEmpty x
        → b58_decode r.peer ≢ ok ""
        → Keep r w promises (routes x rpc decode_add_body)
    unfolding routes pin_handler unpin_handler status_handler sync_handler recover_handler
    routes-Keep r w empty h =
        let of = λ (P : CidArgSerial → Outcome W → Type 0) (k : CidArgSerial → W → Response × W).
          with_cid-OfCid P k r w empty in
        let status = sent Body.pin_resp (rpc.status (arg_of r) w) in
        let sync = sent Body.pin_resp (rpc.sync (arg_of r) w) in
        let recover = sent Body.pin_resp (rpc.recover (arg_of r) w) in
        let pin = acknowledged 202 (rpc.pin (arg_of r) w) in
        let unpin = acknowledged 202 (rpc.unpin (arg_of r) w) in
        (
          refl,
          refl,
          sent Body.id_resp (rpc.id w),
          (
            refl,
            refl,
            sent Body.version_resp (rpc.version w),
            (
              refl,
              refl,
              sent Body.ids_resp (rpc.peers w),
              (
                refl,
                refl,
                peer_add-OfBody r w,
                (
                  refl,
                  refl,
                  peer_remove-OfPeer r w h,
                  (
                    refl,
                    refl,
                    sent Body.pins_resp (rpc.pin_list w),
                    (
                      refl,
                      refl,
                      sent Body.pin_infos_resp (rpc.status_all w),
                      (
                        refl,
                        refl,
                        sent Body.pin_infos_resp (rpc.sync_all w),
                        (
                          refl,
                          refl,
                          of (λ c. Sent Body.pin_resp (rpc.status c w)) (sending rpc.status) status,
                          (
                            refl,
                            refl,
                            of (λ c. Acknowledged 202 (rpc.pin c w)) (accepting rpc.pin) pin,
                            (
                              refl,
                              refl,
                              of (λ c. Acknowledged 202 (rpc.unpin c w)) (accepting rpc.unpin)
                                  unpin,
                              (
                                refl,
                                refl,
                                of (λ c. Sent Body.pin_resp (rpc.sync c w)) (sending rpc.sync) sync,
                                (
                                  refl,
                                  refl,
                                  of (λ c. Sent Body.pin_resp (rpc.recover c w))
                                      (sending rpc.recover) recover,
                                  tt,
                                ),
                              ),
                            ),
                          ),
                        ),
                      ),
                    ),
                  ),
                ),
              ),
            ),
          ),
        )
