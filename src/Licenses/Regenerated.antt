-- ===== src/Licenses/Regenerated.antt =====
-- What a successful `regenerate` or `regenerateWithDomains` of src/licensing/license.service.ts did.
use open_editor_text_backend.Base.{
  true, false, not, Option, some, ◌≡◌, refl, sym, ap, ◌∙◌, arith, Text, ok, Ensures, after, weaken,
  of_ok, List, is_empty, or_throw-eq-ok, guard-eq-ok, not-true,
}
use open_editor_text_backend.Base.Int.{ℤ, pos, ◌≤ℤ◌}
use open_editor_text_backend.Domains.{normalize_domains}
use open_editor_text_backend.Durations.{
  Number, at, infinity, before, effective_renew_until, is_term_active,
}
use open_editor_text_backend.Durations.Term.{carried_keeps_boundary, active_lem}
use open_editor_text_backend.Licenses.{
  is_revoked, Package, License, Store, Env, find_license, package_of,
}
use open_editor_text_backend.Licenses.Checks.{IsKnown, assert_features_known_lem}
use open_editor_text_backend.Licenses.Reissue.{
  package_usable, term_input, regenerate, regenerate_with_domains,
}
use open_editor_text_backend.Licenses.Replacement.{Replaced, replace-Ensures}

pub record Regenerated (env : Env) (s : Store) (id : Text) (t : Store) (l : License) : Type 0 where
  pub old : License
  pub found : find_license s id ≡ some old
  pub usable : package_usable (package_of s old) ≡ true
  pub in_term : is_term_active (term_input old (package_of s old)) env.now ≡ true
  pub known : IsKnown env.catalog old.features
  pub replaced : Replaced env s old (package_of s old) t l
  -- The paid term ends when it did, whatever becomes of the package.
  pub same_term :
      (q : Option Package)
      → effective_renew_until (term_input l q)
        ≡ effective_renew_until (term_input old (package_of s old))

before_mono : (n : Number) (now : ℤ) → pos 0 ≤ℤ now → before now n ≡ true → before (pos 0) n ≡ true
before_mono infinity now p h = refl
before_mono (at n) now p h = ground arith

pub boundary_kept :
    (env : Env) (s : Store) (old : License) (p : Option Package) (t : Store) (l : License)
    → pos 0 ≤ℤ env.now
    → is_term_active (term_input old p) env.now ≡ true
    → Replaced env s old p t l
    → (q : Option Package)
    → effective_renew_until (term_input l q) ≡ effective_renew_until (term_input old p)
boundary_kept env s old p t l h live r q =
    carried_keeps_boundary (term_input old p) (term_input l q)
      (before_mono (effective_renew_until (term_input old p)) env.now h
        (sym (active_lem (term_input old p) env.now) ∙ live))
      (ap some r.term)

regenerate-Ensures :
    (env : Env) (s : Store) (id : Text)
    → pos 0 ≤ℤ env.now
    → Ensures (λ (r : Store × License). Regenerated env s id r.0 r.1) (regenerate env s id)
unfolding regenerate
regenerate-Ensures env s id h = after λ old found. after λ _ usable. after λ _ live.
    after λ _ known.
      let in_term = guard-eq-ok _ _ live in
      weaken
        (λ r w. record {
          old = old;
          found = or_throw-eq-ok _ _ found;
          usable = guard-eq-ok _ _ usable;
          in_term = in_term;
          known = assert_features_known_lem _ _ known;
          replaced = w;
          same_term = boundary_kept env s old (package_of s old) r.0 r.1 h in_term w;
        })
        (replace-Ensures env s old (package_of s old) h in_term old.domains
          (not (is_empty old.domains)))

-- A regeneration that succeeds replaced a row in its paid term, whose package is usable and whose
-- features are known: the old row is revoked and stays in the table, a live row with a new licence
-- stands for the same customer, plan, price and features, no other row has changed, and the paid
-- term ends when it did before.
pub regenerate_replaces :
    (env : Env) (s : Store) (id : Text) {t : Store} {l : License}
    → pos 0 ≤ℤ env.now
    → regenerate env s id ≡ ok (t, l)
    → Regenerated env s id t l
regenerate_replaces env s id h e = of_ok (regenerate-Ensures env s id h) e

rebind-Ensures :
    (env : Env) (s : Store) (id : Text) (domains : List Text)
    → pos 0 ≤ℤ env.now
    → Ensures
        (λ (r : Store × License).
          (g : Regenerated env s id r.0 r.1) × (is_revoked g.old.status ≡ false))
        (regenerate_with_domains env s id domains)
unfolding regenerate_with_domains
rebind-Ensures env s id domains h = after λ _ some_domain. after λ _ fine. after λ old found.
    after λ _ live_row. after λ _ usable. after λ _ live. after λ _ known.
      let in_term = guard-eq-ok _ _ live in
      weaken
        (λ r w. (
          record {
            old = old;
            found = or_throw-eq-ok _ _ found;
            usable = guard-eq-ok _ _ usable;
            in_term = in_term;
            known = assert_features_known_lem _ _ known;
            replaced = w;
            same_term = boundary_kept env s old (package_of s old) r.0 r.1 h in_term w;
          },
          not-true _ (guard-eq-ok _ _ live_row),
        ))
        (replace-Ensures env s old (package_of s old) h in_term (normalize_domains domains) true)

-- Binding a licence to other domains replaces its row as a regeneration does, and never touches a
-- row that was revoked before.
pub regenerate_with_domains_replaces :
    (env : Env) (s : Store) (id : Text) (domains : List Text) {t : Store} {l : License}
    → pos 0 ≤ℤ env.now
    → regenerate_with_domains env s id domains ≡ ok (t, l)
    → (g : Regenerated env s id t l) × (is_revoked g.old.status ≡ false)
regenerate_with_domains_replaces env s id domains h e = of_ok (rebind-Ensures env s id domains h) e
