-- ===== src/Ctl/Panics.antt =====
-- ipfs-cluster-ctl/formatters.go: when printing an answer panics.
use ipfs_cluster.Common.{
  ℕ, String, ◌≡◌, refl, sym, ap, ◌∙◌, Bool, true, false, not, ◌&&◌, Option, none, some, List, [],
  ◌∷◌, ◌==◌, ◌<>◌, eqb, ltb, length, arith, if◌then◌else◌, Bool-cases, inl, inr,
}
use ipfs_cluster.Common.Result.{Result, ok, err}
use ipfs_cluster.External.{Codecs}
use ipfs_cluster.Ctl.{Client, Options, format_response}
use ipfs_cluster.Ctl.Formatters.{
  Bytes, End, exited, panicked, Printed, say, and_then, check_err, Format, Json, print_id_serial,
  text_format_object, each_object, text_format_slice, text_format_body, text_format,
}

abbrev is_panic : Option End → Bool
is_panic none = false
is_panic (some (exited m)) = false
is_panic (some (panicked m)) = true

abbrev pub panics : Printed → Bool
panics p = is_panic p.ended

-- The body was read and is empty.
abbrev pub is_blank : Result Bytes → Bool
is_blank (ok []) = true
is_blank (ok (b ∷ rest)) = false
is_blank (err e) = false

check_err-calm :
    {A : Type 0} (doing : String) (res : Result A) (k : A → Printed)
    → ((a : A) → panics (k a) ≡ false)
    → panics (check_err doing res k) ≡ false
check_err-calm doing (ok a) k calm = calm a
check_err-calm doing (err e) k calm = refl

and_then-panics :
    (a b : Printed) → panics a ≡ false → panics b ≡ false → panics (and_then a b) ≡ false
and_then-panics a b ca cb = after a.ended refl
  where
    after : (e : Option End) → a.ended ≡ e → panics (and_then a b) ≡ false
    after none e = rw e cb
    after (some m) e = rw e (ap is_panic (sym e) ∙ ca)

module _ (j : Json) where
  object-calm : (body : Bytes) (f : Format) → panics (text_format_object j body f) ≡ false
  unfolding text_format_object print_id_serial
  object-calm body Format.id = check_err-calm _ (j.id_of body) _ (λ obj. ground (arith))
  object-calm body Format.gp_info = check_err-calm _ (j.gp_info_of body) _ (λ obj. refl)
  object-calm body Format.version = check_err-calm _ (j.version_of body) _ (λ v. refl)
  object-calm body Format.cid_arg = check_err-calm _ (j.cid_arg_of body) _ (λ obj. refl)
  object-calm body Format.none_of = check_err-calm _ (j.show_any body) _ (λ s. refl)
  object-calm body Format.string = check_err-calm _ (j.show_any body) _ (λ s. refl)

  each-calm : (f : Format) (raws : List Bytes) → panics (each_object j f raws) ≡ false
  unfolding each_object
  each-calm f [] = refl
  each-calm f (raw ∷ rest) =
      and_then-panics (text_format_object j raw f) (each_object j f rest) (object-calm raw f)
        (each-calm f rest)

  body-calm : (b : ℕ) (rest : Bytes) (f : Format) → panics (text_format_body j (b ∷ rest) f) ≡ false
  unfolding text_format_body text_format_slice
  body-calm b rest f = elim (Bool-cases (eqb b 91)) [
    | inl slice ↦ rw slice (check_err-calm _ (j.raw_messages (b ∷ rest)) _ (each-calm f))
    | inr object ↦ rw object (object-calm (b ∷ rest) f)
  ]

  text-calm : (b : ℕ) (rest : Bytes) (f : Format) → panics (text_format j (b ∷ rest) f) ≡ false
  unfolding text_format
  text-calm b rest f =
      let line : Printed = if ltb (length (b ∷ rest)) 2 then say ("\n" ∷ []) else say [] in
      and_then-panics line (text_format_body j (b ∷ rest) f) (ground (arith)) (body-calm b rest f)

  text-empty : (f : Format) → panics (text_format j [] f) ≡ true
  unfolding text_format text_format_body
  text-empty f = refl

module _ {Cid Addr W : Type 0} (x : Codecs Cid Addr) (client : Client W) (j : Json)
    (o : Options) where
  error-calm :
      (body : Bytes)
      → panics (
          check_err "decoding error response"
            (client.error_resp_of body)
            (λ (c, m). say (("Error " <> j.show_nat c <> ": " <> m) ∷ [])))
        ≡ false
  error-calm body = check_err-calm _ (client.error_resp_of body) _ (λ r. refl)

  json-calm :
      (body : Bytes)
      → panics (
          check_err "decoding response"
            (j.show_any body)
            (λ s. check_err "indenting json" (client.indent body) (λ t. say (t ∷ []))))
        ≡ false
  json-calm body =
      check_err-calm _ (j.show_any body) _
        (λ s. check_err-calm _ (client.indent body) _ (λ t. refl))

  -- `formatResponse` panics exactly on an answer of text that is empty, with a code that is below 400
  -- and neither 202 nor 204.
  pub panics-format_response :
      (f : Format) (code : ℕ) (res : Result Bytes)
      → panics (format_response x client j o f code res) ≡ (
          is_blank res
          && not (ltb 399 code)
          && not (eqb code 202)
          && not (eqb code 204)
          && (o.encoding == "text"))
  unfolding format_response
  panics-format_response f code (err e) = refl
  panics-format_response f code (ok []) =
      ground (arith, error-calm [], json-calm [], text-empty j f)
  panics-format_response f code (ok (b ∷ rest)) =
      ground (arith, error-calm (b ∷ rest), json-calm (b ∷ rest), text-calm j b rest f)
