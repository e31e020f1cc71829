-- ===== src/Portal.antt =====
-- src/portal/portal-license.service.ts: what a customer may do with licences in the portal.
pub mod Owned
mod Tests
use open_editor_text_backend.Base.{
  ℕ, zero, suc, ◌≤◌, ◌+◌, Bool, true, false, not, ◌&&◌, ◌||◌, List, [], ◌∷◌, ◌++◌, Option, none,
  some, Text, text, text_eq, text_beq, text_beq_iff, is_empty, ◌≡◌, ◌≢◌, ◌⊎◌, inl, inr, refl, ap,
  sym, ◌∙◌, arith, Bool-cases, Option-cases, not-true, Result, ok, err, Error, guard, ◌>>=◌,
  Ensures, returns, throws, after, of_ok, weaken, guard-eq-ok, bad_request, not_found, conflict,
  failure, unavailable, or_else, find, any, keep, count, update, length, if◌then◌else◌, includes,
  includes-nil, includes-cons, Distinct, All, forbidden, or_throw, map, ◌>>◌,
}
use open_editor_text_backend.Base.Int.{ℤ}
use open_editor_text_backend.Durations.{is_term_active}
use open_editor_text_backend.Licenses.{
  Status, active, revoked, expired, License, Store, Env, find_license, package_of, effective_status,
}
use open_editor_text_backend.Licenses.Reissue.{term_input, replace}

-- `PortalLicenseView`.
pub record View : Type 0 where
  pub id : Text
  pub lic_id : Text
  pub plan_name : Text
  pub features : List Text
  pub domains : List Text
  pub issued_at : ℤ
  pub expires_at : ℤ
  pub status : Status

-- `toView`.
abbrev pub to_view : License → ℤ → View
unfolding effective_status
to_view l now = record {
  id = l.id;
  lic_id = l.lic_id;
  plan_name = l.plan_name;
  features = l.features;
  domains = l.domains;
  issued_at = l.issued_at;
  expires_at = l.expires_at;
  status = effective_status l now;
}

abbrev pub is_active : Status → Bool
is_active active = true
is_active _ = false

abbrev pub is_owned : Text → Option License → Bool
is_owned customer none = false
is_owned customer (some l) = text_beq l.customer customer

-- `ownedOrThrow`.
unfoldable pub owned_or_throw : Store → Text → Text → Result License
owned_or_throw s customer id = do
  guard (is_owned customer (find_license s id)) not_found
  or_throw (find_license s id) not_found

-- `revealToken`: the view and the token.
unfoldable pub reveal_token : Store → ℤ → Text → Text → Result (View × Text)
unfolding owned_or_throw
reveal_token s now customer id = do
  l ← owned_or_throw s customer id
  guard (is_active (effective_status l now)) bad_request
  ok (to_view l now, l.token)

-- The transaction of `regenerateForCustomer`.
unfoldable pub regenerate_owned : Env → Store → Text → Text → Result (Store × License)
unfolding replace
regenerate_owned env s customer id = do
  l ← or_throw (find_license s id) not_found
  guard (text_beq l.customer customer) forbidden
  let p = package_of s l
  guard (is_term_active (term_input l p) env.now) bad_request
  replace env s l p l.domains (not (is_empty l.domains))

-- `regenerateForCustomer`: the check before the transaction reads the tables as they were then.
unfoldable pub regenerate_for_customer :
    Env → Store → Store → Text → Text → Result (Store × (License × (View × Text)))
unfolding owned_or_throw regenerate_owned
regenerate_for_customer env seen s customer id = do
  _ ← owned_or_throw seen customer id
  (t, fresh) ← regenerate_owned env s customer id
  ok (t, (fresh, (to_view fresh env.now, fresh.token)))
