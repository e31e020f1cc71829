-- ===== src/Signer/Wire.antt =====
-- How src/licensing/license-signer.service.ts builds a token and takes it apart. What it takes from Node is
-- `Node`: JSON, the encodings of buffers, and ECDSA over DER; the joining and the splitting of the three
-- parts, the alphabet of base64url and the two forms of a signature are the source's.
pub mod Framing
use open_editor_text_backend.Base.{
  reverse, nat_beq, nat_eq, ℕ, zero, suc, ◌≤◌, ◌+◌, Bool, true, false, not, ◌&&◌, ◌||◌, List, [],
  ◌∷◌, ◌++◌, Option, none, some, Text, text, text_eq, text_beq, text_beq_iff, is_empty, ◌≡◌, ◌≢◌,
  ◌⊎◌, inl, inr, refl, ap, sym, ◌∙◌, arith, Bool-cases, Option-cases, not-true, Result, ok, err,
  Error, guard, ◌>>=◌, Ensures, returns, after, of_ok, weaken, guard-eq-ok, bad_request, not_found,
  conflict, failure, unavailable, or_else, find, any, keep, count, update, length, if◌then◌else◌,
  includes, includes-nil, includes-cons, Distinct, All, map,
}
use open_editor_text_backend.Signer.{Payload, Parsed, Crypto}
use open_editor_text_backend.Signer.Der.{Bytes, der_to_p1363, p1363_to_der}

-- `alg` and `kid` of a header; a missing one is empty.
pub record Header : Type 0 where
  pub alg : Text
  pub kid : Text

-- `header_json` writes the header with `typ` JWT; the readers give none where `JSON.parse` throws. `verify`
-- is against the public half of a key, and false where Node throws.
pub record Node : Type 0 where
  pub header_json : Header → Text
  pub payload_json : Payload → Text
  pub read_header : Text → Option Header
  pub read_payload : Text → Option Payload
  pub utf8 : Text → Bytes
  pub from_utf8 : Bytes → Text
  pub base64 : Bytes → Text
  pub from_base64url : Text → Bytes
  pub sign_der : Text → Text → Bytes
  pub verify : Text → Text → Bytes → Bool

abbrev pub dot : ℕ
dot = 46

-- `.replace(/\+/g, '-').replace(/\//g, '_')`, and `.replace(/=+$/, '')`.
abbrev pub url_char : ℕ → ℕ
url_char c = if nat_beq c 43 then 45 else if nat_beq c 47 then 95 else c

abbrev pub drop_equals : Text → Text
drop_equals [] = []
drop_equals (c ∷ s) = if nat_beq c 61 then drop_equals s else c ∷ s

-- `b64url`.
unfoldable pub b64url : Node → Bytes → Text
b64url n b = reverse (drop_equals (reverse (map url_char (n.base64 b))))

unfoldable pub signing_input : Node → Text → Payload → Text
signing_input n kid p =
    b64url n (n.utf8 (n.header_json (record { alg = text "ES256"; kid = kid })))
    ++ (dot ∷ b64url n (n.utf8 (n.payload_json p)))

-- The last part of `sign`: the token, unless the signature that Node gives is no DER.
unfoldable pub token_of : Node → Text → Text → Payload → Result Text
token_of n pem kid p = do
  sig ← der_to_p1363 (n.sign_der pem (signing_input n kid p)) 32
  ok (signing_input n kid p ++ (dot ∷ b64url n sig))

-- `split('.')`.
abbrev cons_part : ℕ → List Text → List Text
cons_part c [] = (c ∷ []) ∷ []
cons_part c (p ∷ ps) = (c ∷ p) ∷ ps

abbrev pub split_dots : Text → List Text
split_dots [] = [] ∷ []
split_dots (c ∷ s) = if nat_beq c dot then [] ∷ split_dots s else cons_part c (split_dots s)

-- The three parts of a token.
abbrev pub parts_of : List Text → Option (Text × Text × Text)
parts_of (h ∷ p ∷ s ∷ []) = some (h, p, s)
parts_of _ = none

abbrev pub decoded : Node → Text → Text
decoded n part = n.from_utf8 (n.from_base64url part)

abbrev pub parsed_parts : Option Header → Option Payload → Option Parsed
parsed_parts (some h) (some p) = some (record { alg = h.alg; kid = h.kid; payload = p })
parsed_parts _ _ = none

-- What `verifyOwnToken` reads of a token before it looks at the key.
abbrev pub read_parts : Node → Option (Text × Text × Text) → Option Parsed
read_parts n none = none
read_parts n (some (h, p, s)) =
    parsed_parts (n.read_header (decoded n h)) (n.read_payload (decoded n p))

unfoldable pub parse_token : Node → Text → Option Parsed
parse_token n token = read_parts n (parts_of (split_dots token))

abbrev pub checks_der : Node → Text → Text → Result Bytes → Bool
checks_der n pem input (err e) = false
checks_der n pem input (ok der) = n.verify pem input der

-- Its check of the signature.
abbrev pub checks_parts : Node → Text → Option (Text × Text × Text) → Bool
checks_parts n pem none = false
checks_parts n pem (some (h, p, s)) =
    checks_der n pem (h ++ (dot ∷ p)) (p1363_to_der (n.from_base64url s))

unfoldable pub checks_token : Node → Text → Text → Bool
checks_token n pem token = checks_parts n pem (parts_of (split_dots token))

-- `Crypto` as the signer uses it is this code over `Node`, whose signatures are DER.
pub record IsWire (n : Node) (x : Crypto) : Type 0 where
  pub mints : (pem kid : Text) (p : Payload) → token_of n pem kid p ≡ ok (x.mint pem kid p)
  pub parses : (token : Text) → x.parse token ≡ parse_token n token
  pub checks : (pem token : Text) → x.checks pem token ≡ checks_token n pem token
