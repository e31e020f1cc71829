-- ===== src/Licenses/Renewed.antt =====
-- What a successful `renew` of src/licensing/license.service.ts did.
use open_editor_text_backend.Base.{
  ◌≢◌, sym, ◌∙◌, true, false, Option, some, ◌≡◌, ◌⊎◌, inl, inr, refl, ap, subst, arith, Text, ok,
  Ensures, after, weaken, of_ok, or_throw-eq-ok, guard-eq-ok, not-true, Bool-cases,
}
use open_editor_text_backend.Base.Int.{ℤ, pos, ◌+ℤ◌, ◌≤ℤ◌, ◌<ℤ◌, ltb_ℤ, int_laws}
use open_editor_text_backend.Durations.{
  BillingInterval, once, monthly, yearly, lifetime, infinite_term,
}
use open_editor_text_backend.Durations.Clamp.{clamp_within_term}
use open_editor_text_backend.Signer.{Signed, sign}
use open_editor_text_backend.Signer.Tokens.{sign_lem, sign_within_request}
use open_editor_text_backend.Licenses.{
  active, is_revoked, Package, License, Store, Env, find_license, package_of,
}
use open_editor_text_backend.Licenses.Checks.{IsKnown, assert_features_known_lem}
use open_editor_text_backend.Licenses.Rows.{Wrote, save-Ensures}
use open_editor_text_backend.Licenses.Reissue.{
  package_usable, interval_of_row, term_boundary, base_ttl, renew_request, until_for, renewed_row,
  renew,
}

-- The term after a renewal: perpetual for a lifetime plan; else it ends with the token, which does
-- not outlive the boundary that the plan allows, where that lies in the future.
abbrev RenewedTerm : Env → Option Package → Option ℤ → License → Type 0
RenewedTerm env p ttl l =
    ((interval_of_row p ≡ lifetime) × (l.renew_until ≡ infinite_term))
    ⊎ ((interval_of_row p ≢ lifetime)
        × (l.renew_until ≡ l.expires_at)
        × ((term_boundary env p ttl ≤ℤ env.now) ⊎ (l.expires_at ≤ℤ term_boundary env p ttl)))

pub record Renewed (env : Env) (s : Store) (id : Text) (ttl : Option ℤ) (t : Store) (l : License)
    : Type 0 where
  pub old : License
  pub found : find_license s id ≡ some old
  pub live : is_revoked old.status ≡ false
  pub usable : package_usable (package_of s old) ≡ true
  pub known : IsKnown env.catalog old.features
  -- The same row, with a new credential that starts now, live, and with its reminder due again.
  pub same : l ≡ record old {
    lic_id = l.lic_id;
    token = l.token;
    kid = l.kid;
    issued_at = env.now;
    expires_at = l.expires_at;
    renew_until = l.renew_until;
    reminder_sent_at = pos 0;
    status = active;
  }
  pub term : RenewedTerm env (package_of s old) ttl l
  pub wrote : Wrote s l t

not_before : (b n : ℤ) → ltb_ℤ n b ≡ false → b ≤ℤ n
not_before b n h = ground arith

before_boundary : (b n : ℤ) → ltb_ℤ n b ≡ true → n <ℤ b
before_boundary b n h = ground arith

positive_boundary : (b n : ℤ) → pos 0 ≤ℤ n → n <ℤ b → pos 0 <ℤ b
positive_boundary b n h k = omega int_laws

within : (e i n t b : ℤ) → i ≡ n → e ≤ℤ i +ℤ t → n +ℤ t ≤ℤ b → e ≤ℤ b
within e i n t b p h k = let h' : e ≤ℤ n +ℤ t = subst (λ z. e ≤ℤ z +ℤ t) p h in omega int_laws

renewed_start :
    (env : Env) (l : License) (p : Option Package) (ttl : Option ℤ) (signed : Signed)
    → sign env.crypto env.config env.fresh env.sign_now (renew_request env l p ttl) ≡ ok signed
    → signed.iat ≡ env.now
renewed_start env l p ttl signed e = ap (λ z. z.iat) (sign_lem _ _ _ _ _ e)

renewed_bound :
    (env : Env) (l : License) (p : Option Package) (ttl : Option ℤ) (signed : Signed)
    → pos 0 ≤ℤ env.now
    → sign env.crypto env.config env.fresh env.sign_now (renew_request env l p ttl) ≡ ok signed
    → (term_boundary env p ttl ≤ℤ env.now) ⊎ (signed.exp ≤ℤ term_boundary env p ttl)
renewed_bound env l p ttl signed h e =
    let b = term_boundary env p ttl in
    elim (Bool-cases (ltb_ℤ env.now b)) [
      | inr late ↦ inl (not_before b env.now late)
      | inl early ↦
          let later = before_boundary b env.now early in
          let (n, same, positive, fits) =
            clamp_within_term b env.now (positive_boundary b env.now h later) later
              (base_ttl p ttl) in
          let (start, ends) =
            sign_within_request env.crypto env.config env.fresh env.sign_now
              (renew_request env l p ttl) n positive same e in
          inr (within signed.exp signed.iat env.now n b start ends fits)
    ]

finite :
    (p : Option Package) (i : BillingInterval)
    → interval_of_row p ≡ i
    → i ≢ lifetime
    → interval_of_row p ≢ lifetime
finite p i e other m = other (sym e ∙ m)

renewed_term :
    (env : Env) (l : License) (p : Option Package) (ttl : Option ℤ) (signed : Signed)
    (i : BillingInterval)
    → interval_of_row p ≡ i
    → (term_boundary env p ttl ≤ℤ env.now) ⊎ (signed.exp ≤ℤ term_boundary env p ttl)
    → RenewedTerm env p ttl (renewed_row l p signed)
renewed_term env l p ttl signed lifetime e h = inl (e, ap (λ i. until_for i signed.exp) e)
renewed_term env l p ttl signed once e h =
    inr (finite p once e (λ m. cc), ap (λ i. until_for i signed.exp) e, h)
renewed_term env l p ttl signed monthly e h =
    inr (finite p monthly e (λ m. cc), ap (λ i. until_for i signed.exp) e, h)
renewed_term env l p ttl signed yearly e h =
    inr (finite p yearly e (λ m. cc), ap (λ i. until_for i signed.exp) e, h)

pub renew-Ensures :
    (env : Env) (s : Store) (id : Text) (ttl : Option ℤ)
    → pos 0 ≤ℤ env.now
    → Ensures (λ (r : Store × License). Renewed env s id ttl r.0 r.1) (renew env s id ttl)
unfolding renew
renew-Ensures env s id ttl h = after λ old found. after λ _ live. after λ _ usable. after λ _ known.
    after λ signed e.
      let p = package_of s old in
      weaken
        (λ r w. record {
          old = old;
          found = or_throw-eq-ok _ _ found;
          live = not-true _ (guard-eq-ok _ _ live);
          usable = guard-eq-ok _ _ usable;
          known = assert_features_known_lem _ _ known;
          same = rw (w.1, renewed_start env old p ttl signed e) refl;
          term =
              rw w.1
                (renewed_term env old p ttl signed _ refl (renewed_bound env old p ttl signed h e));
          wrote = rw w.1 w.0;
        })
        (save-Ensures s (renewed_row old p signed))

-- A renewal that succeeds found the row live, its package usable and its features known. It keeps
-- the row's sale, delivery and flag and writes that row alone, with a token that starts now; a
-- lifetime plan stays perpetual, and any other term ends with the token, which does not outlive the
-- boundary that the plan allows, where that boundary lies in the future.
pub renew_extends :
    (env : Env) (s : Store) (id : Text) (ttl : Option ℤ) {t : Store} {l : License}
    → pos 0 ≤ℤ env.now
    → renew env s id ttl ≡ ok (t, l)
    → Renewed env s id ttl t l
renew_extends env s id ttl h e = of_ok (renew-Ensures env s id ttl h) e
