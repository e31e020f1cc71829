-- ===== src/Bundles/Urls.antt =====
-- The signed addresses of src/delivery/bundle-url-signer.ts.
use open_editor_text_backend.Base.{
  true, false, ◌∷◌, ◌++◌, some, Text, text_eq, text_beq_iff, is_empty, ◌≡◌, refl, ap, sym, ◌∙◌,
  arith, not-true, ok, ◌>>=◌, Ensures, returns, after, of_ok, guard-eq-ok, length, ◌↔◌, >>-eq-ok,
  take, take-append, length-append,
}
use open_editor_text_backend.Base.Int.{ℤ, pos, ltb_ℤ, ◌≤ℤ◌}
use open_editor_text_backend.Bundles.{UrlConfig, SignedBundleUrl, compute, sign_url, verify_url}

append-cancel : (a b s : Text) → a ++ s ≡ b ++ s → a ≡ b
append-cancel a b s h =
    let same_length : length a ≡ length b =
      omega (arith, length-append a s, length-append b s, ap (λ xs. length xs) h) in
    sym (take-append a s)
    ∙ ap (λ xs. take (length a) xs) h
    ∙ ap (λ n. take n (b ++ s)) same_length
    ∙ take-append b s

-- What `verify` has checked when it returns.
verify_url-ok :
    (hmac : Text → Text → Text) (written : ℤ → Text) (c : UrlConfig) (now exp : ℤ)
    (digest sig : Text)
    → verify_url hmac written c now digest (some exp) sig ≡ ok tt
    → (ltb_ℤ exp now ≡ false) × (compute hmac written c digest exp ≡ sig)
unfolding verify_url
verify_url-ok hmac written c now exp digest sig h =
    let (_, h1) = >>-eq-ok _ _ h in
    let (_, h2) = >>-eq-ok _ _ h1 in
    let (late, h3) = >>-eq-ok _ _ h2 in
    let (_, h4) = >>-eq-ok _ _ h3 in
    (not-true _ (guard-eq-ok _ _ late), (text_beq_iff _ _).0 (guard-eq-ok _ _ h4))

verify_url-accepts :
    (hmac : Text → Text → Text) (written : ℤ → Text) (c : UrlConfig) (now exp : ℤ)
    (digest sig : Text)
    → c.signing_enabled ≡ true
    → ltb_ℤ (pos 0) exp ≡ true
    → ltb_ℤ exp now ≡ false
    → is_empty sig ≡ false
    → compute hmac written c digest exp ≡ sig
    → verify_url hmac written c now digest (some exp) sig ≡ ok tt
unfolding verify_url ◌>>=◌
verify_url-accepts hmac written c now exp digest sig live positive fresh signed same =
    rw (live, positive, fresh, signed, (text_beq_iff _ _).1 same) refl

record Signing (hmac : Text → Text → Text) (written : ℤ → Text) (c : UrlConfig) (now : ℤ)
    (digest : Text) (u : SignedBundleUrl) : Type 0 where
  pub live : c.signing_enabled ≡ true
  pub sig : u.sig ≡ compute hmac written c digest u.exp

sign_url-Ensures :
    (hmac : Text → Text → Text) (written : ℤ → Text) (c : UrlConfig) (now : ℤ) (digest : Text)
    → Ensures (Signing hmac written c now digest) (sign_url hmac written c now digest)
unfolding sign_url
sign_url-Ensures hmac written c now digest =
    after λ _ live. returns record { live = guard-eq-ok _ _ live; sig = refl }

-- An address that was signed for a bundle is accepted at a time, under the same configuration, for
-- exactly that bundle and until exactly its expiry; when the expiry is positive, and Node's HMAC
-- under the secret is never empty and tells messages apart.
pub verify_url-sign_url :
    (hmac : Text → Text → Text) (written : ℤ → Text) (c : UrlConfig) (signed_at now : ℤ)
    (digest other : Text) (u : SignedBundleUrl)
    → ((m : Text) → is_empty (hmac c.url_signing_secret m) ≡ false)
    → ((m n : Text) → hmac c.url_signing_secret m ≡ hmac c.url_signing_secret n → m ≡ n)
    → ltb_ℤ (pos 0) u.exp ≡ true
    → sign_url hmac written c signed_at digest ≡ ok u
    → (verify_url hmac written c now other (some u.exp) u.sig ≡ ok tt)
      ↔ ((other ≡ digest) × (now ≤ℤ u.exp))
verify_url-sign_url hmac written c signed_at now digest other u never_empty distinct positive e =
    let s = of_ok (sign_url-Ensures hmac written c signed_at digest) e in
    (
      λ h.
          let (fresh, same) = verify_url-ok hmac written c now u.exp other u.sig h in
          (
            append-cancel other digest (b'.' ∷ written u.exp) (distinct _ _ (same ∙ s.sig)),
            ground (arith, fresh),
          ),
      λ h.
          verify_url-accepts hmac written c now u.exp other u.sig s.live positive
            (ground (arith, h.1)) (rw s.sig (never_empty _))
            (ap (λ d. compute hmac written c d u.exp) h.0 ∙ sym s.sig),
    )
