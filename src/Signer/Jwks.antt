-- ===== src/Signer/Jwks.antt =====
-- The key set of src/licensing/license-signer.service.ts, which src/licensing/jwks.controller.ts
-- publishes: the public halves of the current and of the retired keys. `export` is Node's reading of a PEM,
-- none where it throws.
use open_editor_text_backend.Base.{
  List, [], ◌∷◌, Option, none, some, Text, text, text_eq, Result, ok, guard, ◌>>=◌, ◌>>◌, or_throw,
  failure, unavailable,
}
use open_editor_text_backend.Signer.{RetiredKey, Config}

-- A key of the set: what Node exports of it, and what the service adds.
pub record Jwk (K : Type 0) : Type 0 where
  pub key : K
  pub kid : Text
  pub alg : Text
  pub usage : Text

abbrev pub jwk_of : {K : Type 0} → Text → K → Jwk K
jwk_of kid key = record { key = key; kid = kid; alg = text "ES256"; usage = text "sig" }

-- `publicJwk`.
unfoldable pub public_jwk : {K : Type 0} → (Text → Option K) → Config → Result (Jwk K)
public_jwk export c = do
  guard c.enabled unavailable
  key ← or_throw (export c.private_key_pem) failure
  ok (jwk_of c.kid key)

abbrev with_exported : {K : Type 0} → Text → Option K → List (Jwk K) → List (Jwk K)
with_exported kid none keys = keys
with_exported kid (some key) keys = jwk_of kid key ∷ keys

-- The retired keys, without those that do not parse.
abbrev pub retired_jwks : {K : Type 0} → (Text → Option K) → List RetiredKey → List (Jwk K)
retired_jwks export [] = []
retired_jwks export (r ∷ rs) =
    with_exported r.kid (export r.public_key_pem) (retired_jwks export rs)

-- `publicJwks`.
unfoldable pub public_jwks : {K : Type 0} → (Text → Option K) → Config → Result (List (Jwk K))
unfolding public_jwk
public_jwks export c = do
  guard c.enabled unavailable
  current ← public_jwk export c
  ok (current ∷ retired_jwks export c.retired_public_keys)
