-- ===== src/Licenses/Expiry.antt =====
-- How long the tokens live that src/licensing/license.service.ts mints.
use open_editor_text_backend.Base.{
  Option, none, ◌≡◌, ◌⊎◌, inl, inr, refl, ap, subst, ◌∙◌, ok, of_ok, or_else,
}
use open_editor_text_backend.Base.Int.{ℤ, pos, ◌+ℤ◌, ◌-ℤ◌, ◌≤ℤ◌, ◌<ℤ◌, int_laws}
use open_editor_text_backend.Durations.{Number, at, clamp_ttl_to_term, infinite_term}
use open_editor_text_backend.Durations.Clamp.{clamp_within_term}
use open_editor_text_backend.Durations.Term.{stamped_after, sold_interval}
use open_editor_text_backend.Signer.{PayloadInput, Signed, sign}
use open_editor_text_backend.Signer.Tokens.{sign_within_request, sign_lem}
use open_editor_text_backend.Licenses.{License, Store, Env}
use open_editor_text_backend.Licenses.Issue.{IssueInput, issue, stamped_term, terms_of}
use open_editor_text_backend.Licenses.Issuing.{issue-Ensures}

slack : (n s r t : ℤ) → n +ℤ t ≤ℤ r → s +ℤ t ≤ℤ r +ℤ (s -ℤ n)
slack n s r t h = omega int_laws

chained : (e i s t b : ℤ) → i ≡ s → e ≤ℤ i +ℤ t → s +ℤ t ≤ℤ b → e ≤ℤ b
chained e i s t b p h k = let h' : e ≤ℤ s +ℤ t = subst (λ z. e ≤ℤ z +ℤ t) p h in omega int_laws

-- A token whose lifetime was clamped to a term that has not ended expires with the term, but for
-- the time that passed between the clamp and the signature.
pub clamped_expiry :
    (env : Env) (i : PayloadInput) (requested : Option Number) (renew : ℤ) {signed : Signed}
    → pos 0 <ℤ renew
    → env.now <ℤ renew
    → i.iat ≡ none
    → i.ttl_seconds ≡ clamp_ttl_to_term requested (at renew) env.now
    → sign env.crypto env.config env.fresh env.sign_now i ≡ ok signed
    → (signed.iat ≡ env.sign_now) × (signed.exp ≤ℤ renew +ℤ (env.sign_now -ℤ env.now))
clamped_expiry env i requested renew {signed} p q clock asked e =
    let (t, same, positive, fits) = clamp_within_term renew env.now p q requested in
    let (start, ends) =
      sign_within_request env.crypto env.config env.fresh env.sign_now i t positive (asked ∙ same)
        e in
    let start' : signed.iat ≡ env.sign_now = start ∙ ap (λ o. or_else o env.sign_now) clock in
    (
      start',
      chained signed.exp signed.iat env.sign_now t _ start' ends
          (slack env.now env.sign_now renew t fits),
    )

-- A licence that is issued is perpetual, or its token outlives the term that is stamped on it at most by
-- the time that passed between the service's reading of the clock and the signer's; and the token is
-- dated at the signer's reading.
pub issue_expiry :
    (env : Env) (s : Store) (input : IssueInput) {t : Store} {l : License}
    → pos 0 ≤ℤ env.now
    → issue env s input ≡ ok (t, l)
    → (l.issued_at ≡ env.sign_now)
      × ((l.renew_until ≡ infinite_term)
          ⊎ (l.expires_at ≤ℤ l.renew_until +ℤ (env.sign_now -ℤ env.now)))
issue_expiry env s input p e =
    let w = of_ok (issue-Ensures env s input) e in
    let interval = sold_interval (terms_of w.package_row) in
    rw w.row (
      ap (λ z. z.iat) (sign_lem _ _ _ _ _ w.minted),
      elim (stamped_after interval env.now p) [
        | inl perpetual ↦ inl perpetual
        | inr (positive, later) ↦
            inr
              (clamped_expiry env _ _ (stamped_term env w.package_row) positive later refl refl
                w.minted).1
      ],
    )
