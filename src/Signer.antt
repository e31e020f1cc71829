-- ===== src/Signer.antt =====
-- src/licensing/license-signer.service.ts: minting and reading the signed tokens.
-- A token is here what `Crypto` makes of a header and a payload; Signer.Wire is the code that does so.
pub mod Accepted
pub mod Der
pub mod Jwks
pub mod Published
pub mod Tokens
pub mod Wire
mod Tests
mod WireTests
use open_editor_text_backend.Base.{
  Bool, true, false, not, ◌&&◌, ◌||◌, List, [], ◌∷◌, Option, none, some, Text, text, text_eq,
  text_beq, if◌then◌else◌, is_empty, find, Result, ok, err, unavailable, or_else,
}
use open_editor_text_backend.Base.Int.{ℤ, pos, ◌+ℤ◌, min_ℤ, ℤ_beq}
use open_editor_text_backend.Durations.{Number, at, infinity}

pub record RetiredKey : Type 0 where
  pub kid : Text
  pub public_key_pem : Text

-- The part of `LicenseConfig` that the signer reads.
pub record Config : Type 0 where
  pub enabled : Bool
  pub private_key_pem : Text
  pub kid : Text
  pub default_ttl_seconds : ℤ
  pub max_ttl_seconds : ℤ
  pub retired_public_keys : List RetiredKey

-- `LicensePayloadInput`. `limits` is never given by a caller.
pub record PayloadInput : Type 0 where
  pub features : List Text
  pub domains : List Text
  pub customer : Text
  pub plan : Text
  pub ttl_seconds : Option Number
  pub version : Option Text
  pub iat : Option ℤ
  pub lic : Option Text

pub record Payload : Type 0 where
  pub lic : Text
  pub customer : Text
  pub plan : Text
  pub features : List Text
  pub domains : List Text
  pub iat : ℤ
  pub exp : ℤ
  pub version : Option Text

-- A token as its three parts parse: the header's `alg` and `kid`, and the payload. A claim of the
-- wrong type is read as the empty text, the empty list or 0.
pub record Parsed : Type 0 where
  pub alg : Text
  pub kid : Text
  pub payload : Payload

-- The token as text: `mint` builds and signs one under a private key, `parse` reads one without checking
-- it, and `checks` verifies its signature against a key's public half. Signer.Wire gives the source's code
-- for the three, over what Node offers; its `IsWire` says that a `Crypto` is that code.
pub record Crypto : Type 0 where
  pub mint : Text → Text → Payload → Text
  pub parse : Text → Option Parsed
  pub checks : Text → Text → Bool

-- `SignedLicense`.
pub record Signed : Type 0 where
  pub token : Text
  pub lic : Text
  pub iat : ℤ
  pub exp : ℤ
  pub kid : Text

-- `VerifiedTokenClaims`.
pub record Claims : Type 0 where
  pub lic : Text
  pub customer : Text
  pub features : List Text
  pub domains : List Text
  pub iat : ℤ
  pub exp : ℤ
  pub kid : Text

-- `Math.min(input.ttlSeconds || default, max)`: 0 and a missing value give the default.
abbrev ttl_of : Config → Option Number → ℤ
ttl_of c none = min_ℤ c.default_ttl_seconds c.max_ttl_seconds
ttl_of c (some infinity) = c.max_ttl_seconds
ttl_of c (some (at n)) =
    if ℤ_beq n (pos 0)
    then min_ℤ c.default_ttl_seconds c.max_ttl_seconds
    else min_ℤ n c.max_ttl_seconds

-- A text that is missing or empty, replaced.
abbrev pub text_or : Option Text → Text → Text
text_or none d = d
text_or (some t) d = if is_empty t then d else t

abbrev present : Option Text → Option Text
present none = none
present (some t) = if is_empty t then none else some t

abbrev payload_of : Config → (ℤ → Text) → ℤ → PayloadInput → Payload
payload_of c fresh iat i = record {
  lic = text_or i.lic (fresh iat);
  customer = i.customer;
  plan = text_or (some i.plan) (text "custom");
  features = i.features;
  domains = i.domains;
  iat = iat;
  exp = iat +ℤ ttl_of c i.ttl_seconds;
  version = present i.version;
}

abbrev signed_of : Crypto → Config → Payload → Signed
signed_of x c p = record {
  token = x.mint c.private_key_pem c.kid p;
  lic = p.lic;
  iat = p.iat;
  exp = p.exp;
  kid = c.kid;
}

-- `sign`. The clock is read as `now` when no `iat` is given; `fresh` makes the id `oe-<iat>-<uuid>`.
unfoldable pub sign : Crypto → Config → (ℤ → Text) → ℤ → PayloadInput → Result Signed
sign x c fresh now i =
    if not c.enabled
    then err unavailable
    else ok (signed_of x c (payload_of c fresh (or_else i.iat now) i))

abbrev retired_pem : Option RetiredKey → Option Text
retired_pem none = none
retired_pem (some k) = some k.public_key_pem

-- `pemForKid`.
unfoldable pub pem_for_kid : Config → Text → Option Text
pem_for_kid c kid =
    if text_beq kid c.kid
    then some c.private_key_pem
    else retired_pem (find (λ k. text_beq k.kid kid) c.retired_public_keys)

abbrev pub claims_of : Parsed → Claims
claims_of p = record {
  lic = p.payload.lic;
  customer = p.payload.customer;
  features = p.payload.features;
  domains = p.payload.domains;
  iat = p.payload.iat;
  exp = p.payload.exp;
  kid = p.kid;
}

-- The tests that follow parsing, in the source's order.
verify_parsed : Crypto → Config → Text → Parsed → Option Claims
unfolding pem_for_kid
verify_parsed x c token p =
    if not (text_beq p.alg (text "ES256")) || is_empty p.kid
    then none
    else elim (pem_for_kid c p.kid) [
      | none ↦ none
      | some pem ↦
          if not (x.checks pem token)
          then none
          else if is_empty p.payload.lic || ℤ_beq p.payload.exp (pos 0)
          then none
          else some (claims_of p)
    ]

-- `verifyOwnToken`.
unfoldable pub verify_own_token : Crypto → Config → Text → Option Claims
unfolding verify_parsed
verify_own_token x c token =
    if not c.enabled
    then none
    else elim (x.parse token) [ none ↦ none | some p ↦ verify_parsed x c token p ]
