-- ===== src/Signer/Tokens.antt =====
-- What `sign` and `verifyOwnToken` of src/licensing/license-signer.service.ts guarantee of a token.
use open_editor_text_backend.Base.{
  true, [], Option, none, some, ◌≡◌, ◌≢◌, inl, inr, refl, ap, sym, ◌∙◌, arith, Text, text, text_eq,
  text_beq_iff, text_beq→eq, ne-is_empty, ok, or_else, Option-cases,
}
use open_editor_text_backend.Base.Int.{ℤ, pos, ◌+ℤ◌, ◌≤ℤ◌, ◌<ℤ◌, int_laws, eq_of_parts}
use open_editor_text_backend.Durations.{Number, at, infinity}
use open_editor_text_backend.Signer.{
  Config, PayloadInput, Payload, Parsed, Crypto, Signed, Claims, claims_of, ttl_of, payload_of,
  signed_of, sign, pem_for_kid, verify_parsed, verify_own_token,
}

-- A lifetime is asked for: none, or one that is not negative.
abbrev pub IsPlausible : Option Number → Type 0
IsPlausible (some (at n)) = pos 0 ≤ℤ n
IsPlausible _ = Unit

ttl_of_bounds :
    (c : Config) (o : Option Number)
    → pos 0 <ℤ c.default_ttl_seconds
    → pos 0 <ℤ c.max_ttl_seconds
    → IsPlausible o
    → (pos 0 <ℤ ttl_of c o) × (ttl_of c o ≤ℤ c.max_ttl_seconds)
ttl_of_bounds c none p q h = ground arith
ttl_of_bounds c (some infinity) p q h = ground arith
ttl_of_bounds c (some (at n)) p q h = ground arith

-- The result of a signing that succeeds.
pub sign_lem :
    (x : Crypto) (c : Config) (fresh : ℤ → Text) (now : ℤ) (i : PayloadInput) {s : Signed}
    → sign x c fresh now i ≡ ok s
    → s ≡ signed_of x c (payload_of c fresh (or_else i.iat now) i)
unfolding sign
sign_lem x c fresh now i e = ground arith

starts_before : (a t : ℤ) → pos 0 <ℤ t → a <ℤ a +ℤ t
starts_before a t h = omega int_laws

ends_by : (a t m : ℤ) → t ≤ℤ m → a +ℤ t ≤ℤ a +ℤ m
ends_by a t m h = omega int_laws

-- A minted token starts at the given time, or at the clock's when none is given; it expires after
-- its start, and no later than the configured ceiling allows. The configuration's two lifetimes are
-- positive, and the requested one is not negative.
pub sign_within_ceiling :
    (x : Crypto) (c : Config) (fresh : ℤ → Text) (now : ℤ) (i : PayloadInput) {s : Signed}
    → pos 0 <ℤ c.default_ttl_seconds
    → pos 0 <ℤ c.max_ttl_seconds
    → IsPlausible i.ttl_seconds
    → sign x c fresh now i ≡ ok s
    → (s.iat ≡ or_else i.iat now) × (s.iat <ℤ s.exp) × (s.exp ≤ℤ s.iat +ℤ c.max_ttl_seconds)
sign_within_ceiling x c fresh now i p q h e =
    let (positive, capped) = ttl_of_bounds c i.ttl_seconds p q h in
    let start : ℤ = or_else i.iat now in
    rw (sign_lem x c fresh now i e)
      (refl, starts_before start (ttl_of c i.ttl_seconds) positive, ends_by start _ _ capped)

ttl_of-le : (c : Config) (t : ℤ) → pos 0 <ℤ t → ttl_of c (some (at t)) ≤ℤ t
ttl_of-le c t h = ground arith

-- A token of a positive requested lifetime ends within it.
pub sign_within_request :
    (x : Crypto) (c : Config) (fresh : ℤ → Text) (now : ℤ) (i : PayloadInput) (t : ℤ) {s : Signed}
    → pos 0 <ℤ t
    → i.ttl_seconds ≡ some (at t)
    → sign x c fresh now i ≡ ok s
    → (s.iat ≡ or_else i.iat now) × (s.exp ≤ℤ s.iat +ℤ t)
sign_within_request x c fresh now i t p q e =
    rw (sign_lem x c fresh now i e)
      (refl, rw q (ends_by (or_else i.iat now) (ttl_of c (some (at t))) t (ttl_of-le c t p)))

parsed_sound :
    (x : Crypto) (c : Config) (token : Text) (p : Parsed) {cl : Claims}
    → verify_parsed x c token p ≡ some cl
    → (pem : Text) × (p.alg ≡ text "ES256")
      × (pem_for_kid c p.kid ≡ some pem)
      × (x.checks pem token ≡ true)
      × (cl ≡ claims_of p)
unfolding verify_parsed
parsed_sound x c token p e = elim (Option-cases (pem_for_kid c p.kid)) [
  | inl f ↦ absurd (ground arith)
  | inr (pem, f) ↦
      (pem, ground (arith, text_beq→eq p.alg (text "ES256")), f, ground arith, ground arith)
]

-- A token that is accepted parses, its header names the algorithm ES256 and a key that the
-- configuration has, current or retired, its signature checks under that key, and the claims that
-- are returned are those of its payload.
pub verify_own_token_sound :
    (x : Crypto) (c : Config) (token : Text) {cl : Claims}
    → verify_own_token x c token ≡ some cl
    → (p : Parsed) × (pem : Text) × (x.parse token ≡ some p)
      × (p.alg ≡ text "ES256")
      × (pem_for_kid c p.kid ≡ some pem)
      × (x.checks pem token ≡ true)
      × (cl ≡ claims_of p)
unfolding verify_own_token
verify_own_token_sound x c token e = elim (Option-cases (x.parse token)) [
  | inl f ↦ absurd (ground arith)
  | inr (p, f) ↦
      let (pem, alg, known, signed, same) = parsed_sound x c token p (ground arith) in
      (p, pem, f, alg, known, signed, same)
]

-- How a token of this server parses.
abbrev pub parsed_of : Config → Payload → Parsed
parsed_of c p = record { alg = text "ES256"; kid = c.kid; payload = p }

-- Accepting a token that was signed before a key rotation.
module _ (x : Crypto) (c : Config) (fresh : ℤ → Text) (now : ℤ) (i : PayloadInput) (s : Signed)
    (signed : sign x c fresh now i ≡ ok s) (named : c.kid ≢ []) (identified : s.lic ≢ [])
    (dated : s.exp ≢ pos 0)
    -- What was minted is read back: Signer.Accepted has it of Signer.Wire.
    (parses : x.parse s.token ≡ some (parsed_of c (payload_of c fresh (or_else i.iat now) i))) where
  accepts :
      (d : Config) (pem token : Text) (p : Payload)
      → d.enabled ≡ true
      → pem_for_kid d c.kid ≡ some pem
      → x.checks pem token ≡ true
      → p.lic ≢ []
      → p.exp ≢ pos 0
      → x.parse token ≡ some (parsed_of c p)
      → verify_own_token x d token ≡ some (claims_of (parsed_of c p))
  unfolding verify_own_token verify_parsed
  accepts d pem token p on known checked some_lic some_exp read =
      rw (on, read, known, checked, ne-is_empty c.kid named, ne-is_empty p.lic some_lic)
        (ground
          (arith, eq_of_parts p.exp (pos 0), (text_beq_iff (text "ES256") (text "ES256")).1 refl))

  -- A token is accepted, with the claims that it was signed with, by every enabled configuration
  -- that has under its kid a key whose public half verifies it.
  pub verify_own_token-sign :
      (d : Config) (pem : Text)
      → d.enabled ≡ true
      → pem_for_kid d c.kid ≡ some pem
      → x.checks pem s.token ≡ true
      → (cl : Claims) × (verify_own_token x d s.token ≡ some cl)
        × (cl.lic ≡ s.lic)
        × (cl.customer ≡ i.customer)
        × (cl.features ≡ i.features)
        × (cl.domains ≡ i.domains)
        × (cl.iat ≡ s.iat)
        × (cl.exp ≡ s.exp)
  verify_own_token-sign d pem on known checked =
      let e = sign_lem x c fresh now i signed in
      let p : Payload = payload_of c fresh (or_else i.iat now) i in
      (
        claims_of (parsed_of c p),
        accepts d pem s.token p on known checked (λ z. identified (ap (λ t. t.lic) e ∙ z))
            (λ z. dated (ap (λ t. t.exp) e ∙ z)) parses,
        ap (λ t. t.lic) (sym e),
        refl,
        refl,
        refl,
        ap (λ t. t.iat) (sym e),
        ap (λ t. t.exp) (sym e),
      )
