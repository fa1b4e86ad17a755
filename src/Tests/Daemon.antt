-- ===== src/Tests/Daemon.antt =====
-- A concrete daemon with two CIDs, the second of which it cannot pin, and its HTTP API.
use ipfs_cluster.Common.{
  ℕ, String, ◌≡◌, ◌≢◌, refl, sym, ap, ◌∙◌, subst, eq_refl, Bool, true, false, some, [], ◌∷◌, ◌==◌,
  ◌<>◌, arith, eq_iff, if◌then◌else◌,
}
use ipfs_cluster.Common.Int.{pos}
use ipfs_cluster.Common.Dict.{Dict, lookup, Distinct}
use ipfs_cluster.Common.Result.{Result, ok, err}
use ipfs_cluster.External.{Codecs}
use ipfs_cluster.Api.Status.{ipfs_pin_status_from_string, is_pinned}
use ipfs_cluster.Ipfs.{HttpOps, IpfsHttpConnector, api_url}
use ipfs_cluster.Ipfs.Daemon.{send, Answers, Serves}
use ipfs_cluster.Tests.World.{codecs}

abbrev text : Bool → String
text true = "x"
text false = "y"

abbrev pub two_codecs : Codecs Bool String
two_codecs = record {
  nil_cid = true;
  cid_string = text;
  cid_decode = λ s. if s == "x" then ok true else if s == "y" then ok false else err "no CID";
  b58_encode = codecs.b58_encode;
  b58_decode = codecs.b58_decode;
  nil_addr = codecs.nil_addr;
  addr_string = codecs.addr_string;
  new_multiaddr = codecs.new_multiaddr;
  value_for_ipfs = codecs.value_for_ipfs;
  decapsulate = codecs.decapsulate;
  encapsulate = codecs.encapsulate;
  format_rfc1123 = codecs.format_rfc1123;
  parse_rfc1123 = codecs.parse_rfc1123;
}

-- which of "x" and "y" is pinned
abbrev pub Pins : Type 0
Pins = Bool × Bool

abbrev pub pins_of : Pins → String → Bool
pins_of (a, b) k = if "x" == k then a else if "y" == k then b else false

abbrev key_of : String → Bool → Dict String
key_of k true = (k, "recursive") ∷ []
key_of k false = []

-- the bodies of the answers
abbrev listing : Pins → String
listing (true, true) = "both"
listing (true, false) = "x"
listing (false, true) = "y"
listing (false, false) = "neither"

abbrev keys_in : String → Result (Dict String)
keys_in body =
    if body == "both"
    then ok (("x", "recursive") ∷ ("y", "recursive") ∷ [])
    else if body == "x"
    then ok (("x", "recursive") ∷ [])
    else if body == "y"
    then ok (("y", "recursive") ∷ [])
    else ok []

abbrev one : String → Bool → Result (ℕ × Result String)
one k true = ok (200, ok k)
one k false = ok (500, ok "not pinned")

abbrev answer : String → Pins → Result (ℕ × Result String) × Pins
answer url (a, b) =
    if url == "http://h:1/api/v0/pin/ls?arg=x"
    then (one "x" a, (a, b))
    else if url == "http://h:1/api/v0/pin/ls?arg=y"
    then (one "y" b, (a, b))
    else if url == "http://h:1/api/v0/pin/add?arg=x"
    then (ok (200, ok ""), (true, b))
    else if url == "http://h:1/api/v0/pin/add?arg=y"
    then (ok (500, ok "merkledag: not found"), (a, b))
    else if url == "http://h:1/api/v0/pin/rm?arg=x"
    then (ok (200, ok ""), (false, b))
    else if url == "http://h:1/api/v0/pin/rm?arg=y"
    then (ok (200, ok ""), (a, false))
    else if url == "http://h:1/api/v0/pin/ls?type=recursive"
    then (ok (200, ok (listing (a, b))), (a, b))
    else (err "unknown", (a, b))

abbrev pub http : HttpOps Pins
http = record {
  http_get = answer;
  unmarshal_error = λ s. err "no error";
  unmarshal_pin_ls = keys_in;
  unmarshal_id = λ s. err "no ID";
  show_int = λ n. "1";
  show_status = λ n. "status";
}

abbrev pub connector : IpfsHttpConnector
connector = record {
  dest_host = "h";
  dest_port = pos 1;
  listen_addr = "h";
  listen_port = pos 2;
  shutdown = false;
}

x-y : text true ≢ text false
x-y e = ground (arith, eq_iff "x" "y", e)

-- what a request leaves
abbrev after : String → Bool → Pins → Pins
after path c w = (send http connector (path <> text c) w).1

abbrev Says : String → Pins → String → Type 0
Says = Answers http connector

-- an answer's code and body
abbrev code_of : Result (ℕ × Result String) → ℕ
code_of (err e) = 0
code_of (ok (code, body)) = code

abbrev body_of : Result (ℕ × Result String) → Result String
body_of (err e) = err e
body_of (ok (code, body)) = body

abbrev text_of : Result String → String
text_of (err e) = e
text_of (ok body) = body

abbrev keys_of : Result (Dict String) → Dict String
keys_of (err e) = []
keys_of (ok keys) = keys

recursive-is_pinned :
    (type : String) → "recursive" ≡ type → is_pinned (ipfs_pin_status_from_string type) ≡ true
unfolding ipfs_pin_status_from_string
recursive-is_pinned type e = subst (λ t. is_pinned (ipfs_pin_status_from_string t) ≡ true) e refl

found :
    (k : String) (body type : String) (keys : Dict String)
    → keys_in k ≡ ok ((k, "recursive") ∷ [])
    → k ≡ body
    → keys_in body ≡ ok keys
    → lookup k keys ≡ some type
    → is_pinned (ipfs_pin_status_from_string type) ≡ true
unfolding lookup
found k body type keys one_key same u e =
    let keys_are : (k, "recursive") ∷ [] ≡ keys = ap keys_of (sym one_key ∙ ap keys_in same ∙ u) in
    let it : lookup k ((k, "recursive") ∷ []) ≡ some type = ap (lookup k) keys_are ∙ e in
    recursive-is_pinned type (ground (arith, it, eq_refl k))

ls_right :
    (w : Pins) (c : Bool) (body type : String) (keys : Dict String)
    → Says ("pin/ls?arg=" <> text c) w body
    → keys_in body ≡ ok keys
    → lookup (text c) keys ≡ some type
    → is_pinned (ipfs_pin_status_from_string type) ≡ pins_of w (text c)
unfolding api_url
ls_right (true, b) true body type keys a u e =
    found "x" body type keys refl (ap (λ r. text_of (body_of r)) a) u e
ls_right (a, true) false body type keys s u e =
    found "y" body type keys refl (ap (λ r. text_of (body_of r)) s) u e
ls_right (false, b) true body type keys s u e = absurd (ground (arith, ap code_of s))
ls_right (a, false) false body type keys s u e = absurd (ground (arith, ap code_of s))

ls_keeps : (w : Pins) (c : Bool) (d : String) → pins_of (after "pin/ls?arg=" c w) d ≡ pins_of w d
unfolding api_url
ls_keeps w true d = refl
ls_keeps w false d = refl

add_keeps :
    (w : Pins) (c : Bool) (d : String)
    → pins_of w d ≡ true
    → pins_of (after "pin/add?arg=" c w) d ≡ true
unfolding api_url
add_keeps (a, b) true d h = ground (arith, h)
add_keeps w false d h = h

add_others :
    (w : Pins) (c : Bool) (d : String)
    → (text c == d) ≡ false
    → pins_of (after "pin/add?arg=" c w) d ≡ pins_of w d
unfolding api_url
add_others (a, b) true d h = ground (arith, h)
add_others w false d h = refl

add_done :
    (w : Pins) (c : Bool) (body : String)
    → Says ("pin/add?arg=" <> text c) w body
    → pins_of (after "pin/add?arg=" c w) (text c) ≡ true
unfolding api_url
add_done w true body a = refl
add_done w false body a = absurd (ground (arith, ap code_of a))

rm_makes_none :
    (w : Pins) (c : Bool) (d : String)
    → pins_of (after "pin/rm?arg=" c w) d ≡ true
    → pins_of w d ≡ true
unfolding api_url
rm_makes_none (a, b) true d h = ground (arith, h)
rm_makes_none (a, b) false d h = ground (arith, h)

rm_others :
    (w : Pins) (c : Bool) (d : String)
    → (text c == d) ≡ false
    → pins_of (after "pin/rm?arg=" c w) d ≡ pins_of w d
unfolding api_url
rm_others (a, b) true d h = ground (arith, h)
rm_others (a, b) false d h = ground (arith, h)

all_keeps :
    (w : Pins) (d : String)
    → pins_of (send http connector "pin/ls?type=recursive" w).1 d ≡ pins_of w d
unfolding api_url
all_keeps w d = refl

all_keys : Pins → Dict String
all_keys (true, true) = ("x", "recursive") ∷ ("y", "recursive") ∷ []
all_keys (true, false) = ("x", "recursive") ∷ []
all_keys (false, true) = ("y", "recursive") ∷ []
all_keys (false, false) = []

keys_in-listing : (w : Pins) → keys_in (listing w) ≡ ok (all_keys w)
unfolding all_keys
keys_in-listing (true, true) = refl
keys_in-listing (true, false) = refl
keys_in-listing (false, true) = refl
keys_in-listing (false, false) = refl

all_listed :
    (w : Pins)
    → Distinct (all_keys w)
      × ((c type : String)
          → lookup c (all_keys w) ≡ some type
          → ("recursive" ≡ type) × (pins_of w c ≡ true))
unfolding lookup all_keys
all_listed (true, true) = ((refl, (refl, tt)), λ c type e. ground (arith, e))
all_listed (true, false) = ((refl, tt), λ c type e. ground (arith, e))
all_listed (false, true) =
    ((refl, tt), λ c type e. ground (arith, e, eq_iff "x" c, eq_iff "y" c, x-y))
all_listed (false, false) = (tt, λ c type e. absurd (cc e))

all_keys-right :
    (w : Pins)
    → Distinct (all_keys w)
      × ((c type : String)
          → lookup c (all_keys w) ≡ some type
          → is_pinned (ipfs_pin_status_from_string type) ≡ pins_of w c)
all_keys-right w =
    let (different, there) = all_listed w in
    (
      different,
      λ c type e.
          let (kind, pinned_there) = there c type e in
          recursive-is_pinned type kind ∙ sym pinned_there,
    )

all_right :
    (w : Pins) (body : String) (keys : Dict String)
    → Says "pin/ls?type=recursive" w body
    → keys_in body ≡ ok keys
    → Distinct keys
      × ((c type : String)
          → lookup c keys ≡ some type
          → is_pinned (ipfs_pin_status_from_string type) ≡ pins_of w c)
unfolding api_url
all_right w body keys s u =
    subst
      (λ ks.
        Distinct ks
        × ((c type : String)
            → lookup c ks ≡ some type
            → is_pinned (ipfs_pin_status_from_string type) ≡ pins_of w c))
      (ap keys_of (sym (keys_in-listing w) ∙ ap keys_in (ap (λ r. text_of (body_of r)) s) ∙ u))
      (all_keys-right w)

pub serves : Serves two_codecs http connector pins_of
serves = record {
  ls_keeps = ls_keeps;
  ls_right = ls_right;
  add_keeps = add_keeps;
  add_others = add_others;
  add_done = add_done;
  rm_makes_none = rm_makes_none;
  rm_others = rm_others;
  all_keeps = all_keeps;
  all_right = all_right;
}
