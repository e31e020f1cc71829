-- ===== src/Signer/Tests.antt =====
-- Runs of src/licensing/license-signer.service.ts, and its theorems at inputs.
use open_editor_text_backend.Base.{
  true, [], ◌∷◌, none, some, ◌≡◌, ◌≢◌, refl, Text, text, text_beq, ok, Option, List, if◌then◌else◌,
  text_beq_iff, sym, ap, ◌∙◌, ◌>>=◌, ◌>>◌, text_eq,
}
use open_editor_text_backend.Base.Int.{ℤ, pos, ◌+ℤ◌}
use open_editor_text_backend.Durations.{at}
use open_editor_text_backend.Signer.Jwks.{Jwk, jwk_of, public_jwk, public_jwks}
use open_editor_text_backend.Signer.Published.{PublishedFor, accepted_key_published}
use open_editor_text_backend.Signer.Tokens.{parsed_of}
use open_editor_text_backend.Signer.{
  Config, PayloadInput, Payload, Crypto, Signed, claims_of, payload_of, signed_of, sign,
  pem_for_kid, verify_own_token,
}

run : Unit {0}
unfolding public_jwk public_jwks ◌>>=◌ ◌>>◌ sign pem_for_kid verify_own_token text_beq ◌+ℤ◌
run = tt

-- The configuration after a rotation: the old key is kept as a retired one.
abbrev pub rotated : Config
rotated = record {
  enabled = true;
  private_key_pem = text "new";
  kid = text "k2";
  default_ttl_seconds = pos 100;
  max_ttl_seconds = pos 1000;
  retired_public_keys = record { kid = text "k1"; public_key_pem = text "pub1" } ∷ [];
}

abbrev pub before_rotation : Config
before_rotation = record rotated {
  private_key_pem = text "old";
  kid = text "k1";
  retired_public_keys = [];
}

abbrev pub request : PayloadInput
request = record {
  features = text "bold" ∷ [];
  domains = [];
  customer = text "c1";
  plan = text "pro";
  ttl_seconds = some (at (pos 5000));
  version = none;
  iat = none;
  lic = none;
}

abbrev pub fresh_id : ℤ → Text
fresh_id iat = text "oe-1"

abbrev pub payload : Payload
payload = payload_of before_rotation fresh_id (pos 50) request

-- A stand-in for Node that knows one token.
abbrev toy : Crypto
toy = record {
  mint = λ pem kid p. text "token";
  parse = λ t. some (parsed_of before_rotation payload);
  checks = λ pem t. text_beq pem (text "pub1");
}

abbrev minted : Signed
minted = signed_of toy before_rotation payload

signs : sign toy before_rotation fresh_id (pos 50) request ≡ ok minted
unfolding run
signs = refl

expiry : minted.exp ≡ pos 1050
unfolding run
expiry = refl

accepted :
    verify_own_token toy rotated (text "token")
    ≡ some (claims_of (parsed_of before_rotation payload))
unfolding run
accepted = refl

found : pem_for_kid rotated (text "k1") ≡ some (text "pub1")
unfolding run
found = refl

checked : toy.checks (text "pub1") minted.token ≡ true
unfolding run
checked = refl

dated : minted.exp ≢ pos 0
unfolding run
dated h = cc

-- A stand-in for Node's reading of keys: one retired key is malformed.
abbrev export : Text → Option Text
export pem = if text_beq pem (text "broken") then none else some pem

abbrev with_broken : Config
with_broken = record rotated {
  retired_public_keys =
      record { kid = text "k0"; public_key_pem = text "broken" } ∷ rotated.retired_public_keys;
}

abbrev key_set : List (Jwk Text)
key_set = jwk_of (text "k2") (text "new") ∷ jwk_of (text "k1") (text "pub1") ∷ []

publishes : public_jwks export with_broken ≡ ok key_set
unfolding run
publishes = refl

accepts_old :
    verify_own_token toy with_broken (text "token")
    ≡ some (claims_of (parsed_of before_rotation payload))
unfolding run
accepts_old = refl

readable : (pem : Text) → toy.checks pem (text "token") ≡ true → export pem ≢ none
unfolding run
readable pem h e = none_some (sym e ∙ ap export ((text_beq_iff pem (text "pub1")).0 h))
  where
    none_some : none ≢ some (text "pub1")
    none_some m = cc

accepted_key_published_example : PublishedFor export toy (text "token") (text "k1") key_set
accepted_key_published_example =
    accepted_key_published export toy with_broken (text "token") readable accepts_old publishes
