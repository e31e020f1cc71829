-- ===== src/Licenses/Reissue.antt =====
-- `renew`, `revoke`, `dismissFlag`, `regenerate` and `regenerateWithDomains` of
-- src/licensing/license.service.ts. A transaction that throws leaves the tables as they were: an
-- error carries no tables.
use open_editor_text_backend.Base.{
  Bool, true, not, List, [], Option, none, some, Text, text, text_eq, text_beq, update,
  if◌then◌else◌, is_empty, Result, ok, guard, or_throw, ◌>>=◌, ◌>>◌, bad_request, not_found,
}
use open_editor_text_backend.Base.Int.{ℤ, pos, ◌+ℤ◌, ℤ_beq}
use open_editor_text_backend.Domains.{normalize_domains, assert_domains_acceptable}
use open_editor_text_backend.Durations.{
  Number, at, BillingInterval, once, monthly, yearly, lifetime, interval_or_once,
  as_billing_interval, clamp_ttl_to_term, effective_ttl_seconds, term_seconds, infinite_term,
  TermInput, carried_renew_until_for, is_term_active,
}
use open_editor_text_backend.Signer.{PayloadInput, Signed, sign}
use open_editor_text_backend.Licenses.Issue.{
  SnapshotInput, issue_from_snapshot, terms_of, number_or, request,
}
use open_editor_text_backend.Licenses.{
  active, revoked, is_revoked, Package, License, Store, Env, find_license, package_of, save,
  assert_features_known,
}

-- `!lic.package || lic.package.active`
abbrev pub package_usable : Option Package → Bool
package_usable none = true
package_usable (some p) = p.active

abbrev pub package_interval : Option Package → Text
package_interval none = text "once"
package_interval (some p) = p.billing_interval

abbrev pub package_name_or : Option Package → Text → Text
package_name_or none d = d
package_name_or (some p) d = p.name

abbrev pub interval_of_row : Option Package → BillingInterval
interval_of_row p = interval_or_once (as_billing_interval (some (package_interval p)))

-- `lic.package ? effectiveTtlSeconds(lic.package) : (ttlSeconds || 0)`
abbrev once_ttl : Option Package → Option ℤ → ℤ
once_ttl none ttl = number_or ttl (pos 0)
once_ttl (some p) ttl = effective_ttl_seconds (terms_of p)

-- The boundary that `renew` clamps to.
abbrev pub term_boundary : Env → Option Package → Option ℤ → ℤ
term_boundary env p ttl = elim (interval_of_row p) [
  | lifetime ↦ infinite_term
  | once ↦ env.now +ℤ once_ttl p ttl
  | monthly ↦ env.now +ℤ term_seconds monthly
  | yearly ↦ env.now +ℤ term_seconds yearly
]

-- `ttlSeconds || (lic.package ? effectiveTtlSeconds(lic.package) : undefined)`
abbrev pub base_ttl : Option Package → Option ℤ → Option Number
base_ttl none none = none
base_ttl none (some n) = if ℤ_beq n (pos 0) then none else some (at n)
base_ttl (some p) ttl = some (at (number_or ttl (effective_ttl_seconds (terms_of p))))

abbrev pub renew_ttl : Env → Option Package → Option ℤ → Option Number
renew_ttl env p ttl = clamp_ttl_to_term (base_ttl p ttl) (at (term_boundary env p ttl)) env.now

-- `lic.planName || (lic.package ? lic.package.name : 'custom')`
abbrev pub plan_of : License → Option Package → Text
plan_of l p = if is_empty l.plan_name then package_name_or p (text "custom") else l.plan_name

abbrev pub renew_request : Env → License → Option Package → Option ℤ → PayloadInput
renew_request env l p ttl =
    record (request l.features l.domains l.customer (plan_of l p) (renew_ttl env p ttl)) {
      iat = some env.now;
    }

abbrev pub until_for : BillingInterval → ℤ → ℤ
until_for lifetime exp = infinite_term
until_for _ exp = exp

abbrev renewed_until : Option Package → Signed → ℤ
renewed_until p signed = until_for (interval_of_row p) signed.exp

abbrev pub renewed_row : License → Option Package → Signed → License
renewed_row l p signed = record l {
  lic_id = signed.lic;
  token = signed.token;
  kid = signed.kid;
  issued_at = signed.iat;
  expires_at = signed.exp;
  renew_until = renewed_until p signed;
  reminder_sent_at = pos 0;
  status = active;
}

-- `renew`.
unfoldable pub renew : Env → Store → Text → Option ℤ → Result (Store × License)
renew env s id ttl = do
  l ← or_throw (find_license s id) not_found
  let p = package_of s l
  guard (not (is_revoked l.status)) bad_request
  guard (package_usable p) bad_request
  assert_features_known env.catalog l.features
  signed ← sign env.crypto env.config env.fresh env.sign_now (renew_request env l p ttl)
  save s (renewed_row l p signed)

-- `revoke`.
unfoldable pub revoke : Store → Text → Result (Store × License)
revoke s id = do l ← or_throw (find_license s id) not_found; save s (record l { status = revoked })

abbrev pub without_flag : License → License
without_flag l = record l { flagged_at = pos 0; flag_reason = [] }

-- `dismissFlag`: an update of two columns of the row, not a `save`.
unfoldable pub dismiss_flag : Store → Text → Result (Store × License)
dismiss_flag s id = do
  l ← or_throw (find_license s id) not_found
  ok (
    record s { licenses = update (λ m. text_beq m.id l.id) without_flag s.licenses },
    without_flag l,
  )

abbrev pub term_input : License → Option Package → TermInput
term_input l p = record {
  renew_until = some l.renew_until;
  created_at = some l.created_at;
  issued_at = some l.issued_at;
  interval_for_term = some (package_interval p);
}

-- The snapshot of a row from which its replacement is minted.
abbrev pub replacement_input : License → Option Package → List Text → Bool → SnapshotInput
replacement_input l p domains bound = record {
  customer_id = l.customer;
  features = l.features;
  domains = domains;
  plan_name = plan_of l p;
  plan_price_cents = some l.plan_price_cents;
  plan_currency = some l.plan_currency;
  domain_bound = bound;
  max_domains = none;
  ttl_seconds = none;
  package_id = elim p [ none ↦ none | some q ↦ some q.id ];
  billing_interval = none;
  renew_until = some (carried_renew_until_for (term_input l p));
  honor_snapshot = true;
  flagged_at = some l.flagged_at;
  flag_reason = l.flag_reason;
}

-- The end of both transactions: revoke the old row, mint the new one.
unfoldable pub replace :
    Env → Store → License → Option Package → List Text → Bool → Result (Store × License)
replace env s l p domains bound = do
  (revoked_store, _) ← save s (record l { status = revoked })
  issue_from_snapshot env revoked_store (replacement_input l p domains bound)

-- `regenerate`.
unfoldable pub regenerate : Env → Store → Text → Result (Store × License)
unfolding replace
regenerate env s id = do
  l ← or_throw (find_license s id) not_found
  let p = package_of s l
  guard (package_usable p) bad_request
  guard (is_term_active (term_input l p) env.now) bad_request
  assert_features_known env.catalog l.features
  replace env s l p l.domains (not (is_empty l.domains))

-- `regenerateWithDomains`.
unfoldable pub regenerate_with_domains : Env → Store → Text → List Text → Result (Store × License)
unfolding replace
regenerate_with_domains env s id new_domains = do
  let domains = normalize_domains new_domains
  guard (not (is_empty domains)) bad_request
  assert_domains_acceptable domains
  l ← or_throw (find_license s id) not_found
  let p = package_of s l
  guard (not (is_revoked l.status)) bad_request
  guard (package_usable p) bad_request
  guard (is_term_active (term_input l p) env.now) bad_request
  assert_features_known env.catalog l.features
  replace env s l p domains true
