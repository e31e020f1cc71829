-- ===== src/Signer/Published.antt =====
-- Whoever checks tokens with the published key set of src/licensing/license-signer.service.ts finds the
-- key that the server itself checks with.
use open_editor_text_backend.Base.{
  true, false, List, [], ◌∷◌, Option, none, some, Text, text_eq, text_beq, text_beq_iff, ◌≡◌, ◌≢◌,
  inl, inr, refl, ap, sym, ◌∙◌, Bool-cases, Option-cases, ok, Ensures, returns, after, of_ok, find,
  or_throw-eq-ok,
}
use open_editor_text_backend.Signer.{
  RetiredKey, Crypto, Config, Claims, pem_for_kid, retired_pem, verify_own_token,
}
use open_editor_text_backend.Signer.Tokens.{verify_own_token_sound}
use open_editor_text_backend.Signer.Jwks.{Jwk, jwk_of, public_jwk, public_jwks, retired_jwks}

-- The key that a reader of the set picks for a kid.
abbrev pub published_key : {K : Type 0} → List (Jwk K) → Text → Option (Jwk K)
published_key keys kid = find (λ j. text_beq j.kid kid) keys

retired_found :
    {K : Type 0} (export : Text → Option K) (rs : List RetiredKey) (kid pem : Text) (key : K)
    → retired_pem (find (λ r. text_beq r.kid kid) rs) ≡ some pem
    → export pem ≡ some key
    → published_key (retired_jwks export rs) kid ≡ some (jwk_of kid key)
retired_found export [] kid pem key h e = cc
retired_found export (r ∷ rs) kid pem key h e = elim (Bool-cases (text_beq r.kid kid)) [
  | inl k ↦
      let same : export r.public_key_pem ≡ some key = ap export (pem_eq (rw k at h)) ∙ e in
      rw (same, k) (ap (λ x. some (jwk_of x key)) ((text_beq_iff r.kid kid).0 k))
  | inr k ↦
      let there = retired_found export rs kid pem key (rw k at h) e in
      elim (Option-cases (export r.public_key_pem)) [
        | inl skipped ↦ rw skipped there
        | inr (other, read) ↦ rw (read, k) there
      ]
]
  where
    pem_eq : some r.public_key_pem ≡ some pem → r.public_key_pem ≡ pem
    pem_eq m = cc

-- The current key, as it is published.
record IsCurrent {K : Type 0} (export : Text → Option K) (c : Config) (j : Jwk K) : Type 0 where
  pub key : K
  pub exported : export c.private_key_pem ≡ some key
  pub entry : j ≡ jwk_of c.kid key

public_jwk-Ensures :
    {K : Type 0} (export : Text → Option K) (c : Config)
    → Ensures (λ (j : Jwk K). IsCurrent export c j) (public_jwk export c)
unfolding public_jwk
public_jwk-Ensures export c = after λ _ on.
    after λ key read. returns record { key = key; exported = or_throw-eq-ok _ _ read; entry = refl }

-- The set of a configuration.
record IsKeySet {K : Type 0} (export : Text → Option K) (c : Config) (keys : List (Jwk K))
    : Type 0 where
  pub first : Jwk K
  pub current : IsCurrent export c first
  pub keys_of : keys ≡ first ∷ retired_jwks export c.retired_public_keys

public_jwks-Ensures :
    {K : Type 0} (export : Text → Option K) (c : Config)
    → Ensures (λ (keys : List (Jwk K)). IsKeySet export c keys) (public_jwks export c)
unfolding public_jwks
public_jwks-Ensures export c = after λ _ on. after λ j e.
    returns record { first = j; current = of_ok (public_jwk-Ensures export c) e; keys_of = refl }

-- If Node reads the key that a kid names, the set has it under that kid.
pem_published :
    {K : Type 0} (export : Text → Option K) (c : Config) (kid pem : Text) (key : K)
    {keys : List (Jwk K)}
    → IsKeySet export c keys
    → pem_for_kid c kid ≡ some pem
    → export pem ≡ some key
    → published_key keys kid ≡ some (jwk_of kid key)
unfolding pem_for_kid
pem_published export c kid pem key {keys} v known read = elim (Bool-cases (text_beq kid c.kid)) [
  | inl e ↦
      let same : c.kid ≡ kid = sym ((text_beq_iff kid c.kid).0 e) in
      let mine : text_beq c.kid kid ≡ true = (text_beq_iff c.kid kid).1 same in
      let pem_is : c.private_key_pem ≡ pem = some_eq (rw e at known) in
      let key_is : v.current.key ≡ key =
        key_eq (sym v.current.exported ∙ ap export pem_is ∙ read) in
      rw (v.keys_of, v.current.entry, mine)
        (ap (λ x. some (jwk_of x v.current.key)) same ∙ ap (λ x. some (jwk_of kid x)) key_is)
  | inr e ↦
      let other : text_beq c.kid kid ≡ false = not_sym e in
      rw (v.keys_of, v.current.entry, other)
        (retired_found export c.retired_public_keys kid pem key (rw e at known) read)
]
  where
    some_eq : some c.private_key_pem ≡ some pem → c.private_key_pem ≡ pem
    some_eq m = cc

    key_eq : some v.current.key ≡ some key → v.current.key ≡ key
    key_eq m = cc

    apart : false ≢ true
    apart m = cc

    not_sym : text_beq kid c.kid ≡ false → text_beq c.kid kid ≡ false
    not_sym e = elim (Bool-cases (text_beq c.kid kid)) [
      | inr k ↦ k
      | inl k ↦
          absurd (apart (sym e ∙ (text_beq_iff kid c.kid).1 (sym ((text_beq_iff c.kid kid).0 k))))
    ]

-- The entry of the set for a token that the server accepts.
pub record PublishedFor {K : Type 0} (export : Text → Option K) (x : Crypto) (token kid : Text)
    (keys : List (Jwk K)) : Type 0 where
  pub pem : Text
  pub key : K
  pub checks : x.checks pem token ≡ true
  pub exported : export pem ≡ some key
  pub entry : published_key keys kid ≡ some (jwk_of kid key)

-- For each token that the server accepts, also one that was signed before its key was retired, the
-- published set has, under the kid of the token, the very key under which the signature checks: an
-- editor that checks offline agrees with the server. (A key under which a signature checks is one that
-- Node reads.)
pub accepted_key_published :
    {K : Type 0} (export : Text → Option K) (x : Crypto) (c : Config) (token : Text) {cl : Claims}
    {keys : List (Jwk K)}
    → ((pem : Text) → x.checks pem token ≡ true → export pem ≢ none)
    → verify_own_token x c token ≡ some cl
    → public_jwks export c ≡ ok keys
    → PublishedFor export x token cl.kid keys
accepted_key_published export x c token {cl} {keys} readable accepted published =
    let (p, pem, parsed, alg, known, signed, claims) = verify_own_token_sound x c token accepted in
    elim (Option-cases (export pem)) [
      | inl unread ↦ absurd (readable pem signed unread)
      | inr (key, read) ↦ record {
        pem = pem;
        key = key;
        checks = signed;
        exported = read;
        entry =
            pem_published export c cl.kid pem key (of_ok (public_jwks-Ensures export c) published)
              (ap (λ (z : Claims). pem_for_kid c z.kid) claims ∙ known) read;
      }
    ]
