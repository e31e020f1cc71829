-- ===== src/Licenses/Tests.antt =====
-- Runs of src/licensing/license.service.ts, and its theorems at inputs.
use open_editor_text_backend.Base.{
  true, false, List, [], ◌∷◌, none, some, ◌≡◌, ◌⊎◌, refl, arith, Text, text, text_beq, text_eq,
  trim, ok, err, includes, add, dedup, dedup_from, ◌>>=◌, bad_request,
}
use open_editor_text_backend.Base.Int.{ℤ, pos, ◌+ℤ◌, ◌-ℤ◌, ◌≤ℤ◌}
use open_editor_text_backend.Domains.{
  normalize_one_domain, paired, normalize_domains, assert_domains_acceptable,
}
use open_editor_text_backend.Durations.{
  infinite_term, clamp_ttl_to_term, effective_ttl_seconds, stamped_renew_until, term_seconds,
  duration_policy, interval_of, as_billing_interval, effective_renew_until, carried_renew_until_for,
  is_term_active,
}
use open_editor_text_backend.Signer.{Config, Crypto, Signed, sign}
use open_editor_text_backend.Licenses.{
  revoked, Customer, Package, License, Store, Env, save, put, find_license, is_known_feature,
  is_sellable_feature, assert_features_known, assert_features_sellable, assert_domain_count,
}
use open_editor_text_backend.Licenses.Issue.{
  IssueInput, issue, issue_from_snapshot, assert_snapshot_features, issue_row,
}
use open_editor_text_backend.Licenses.Expiry.{issue_expiry}
use open_editor_text_backend.Licenses.Reissue.{
  renew, revoke, replace, regenerate, regenerate_with_domains,
}
use open_editor_text_backend.Licenses.Regenerated.{Regenerated, regenerate_replaces}
use open_editor_text_backend.Licenses.Renewed.{Renewed, renew_extends}
use open_editor_text_backend.Licenses.Delivery.{DeliveryPatch, set_delivery}
use open_editor_text_backend.Licenses.Rows.{IsValid}
use open_editor_text_backend.Licenses.History.{
  Steps, start, followed, issued, revoking, regenerated, revoked_for_good,
}
use open_editor_text_backend.Licenses.Writes.{IsRevokedIn}

abbrev config : Config
config = record {
  enabled = true;
  private_key_pem = text "key";
  kid = text "k1";
  default_ttl_seconds = pos 2592000;
  max_ttl_seconds = pos 9000000;
  retired_public_keys = [];
}

-- A stand-in for Node that reads no token.
abbrev toy : Crypto
toy = record { mint = λ pem kid p. text "token"; parse = λ t. none; checks = λ pem t. false }

abbrev customer : Customer
customer = record {
  id = text "c1";
  name = text "Ann";
  email = text "a@b.c";
  domains = text "a.io" ∷ [];
}

abbrev monthly_plan : Package
monthly_plan = record {
  id = text "p1";
  name = text "Pro";
  price_cents = pos 900;
  currency = text "USD";
  billing_interval = text "monthly";
  ttl_override_seconds = none;
  domain_bound = true;
  max_domains = pos 1;
  max_installs = pos 0;
  active = true;
  publicly_listed = true;
  refresh_policy = text "auto";
  features = text "bold" ∷ [];
}

abbrev empty_store : Store
empty_store = record { customers = customer ∷ []; packages = monthly_plan ∷ []; licenses = [] }

abbrev env_at : ℤ → ℤ → Text → Text → Env
env_at now sign_now row lic = record {
  crypto = toy;
  config = config;
  fresh = λ iat. lic;
  now = now;
  sign_now = sign_now;
  created_at = 0;
  row_id = row;
  catalog = record { id = text "bold"; deprecated = false; sellable = true } ∷ [];
}

abbrev first_call : Env
first_call = env_at (pos 1000) (pos 1001) (text "r1") (text "oe-1")

abbrev second_call : Env
second_call = env_at (pos 2000) (pos 2000) (text "r2") (text "oe-2")

abbrev order : IssueInput
order = record {
  customer_id = text "c1";
  package_id = text "p1";
  domains = [];
  ttl_seconds = none;
  is_test = false;
}

run : Unit {0}
unfolding issue issue_from_snapshot renew revoke set_delivery replace regenerate
    regenerate_with_domains save put sign ◌>>=◌ text_beq is_known_feature is_sellable_feature
    assert_features_known assert_features_sellable assert_domain_count normalize_one_domain paired
    normalize_domains assert_domains_acceptable clamp_ttl_to_term effective_ttl_seconds
    stamped_renew_until term_seconds duration_policy interval_of as_billing_interval
    effective_renew_until carried_renew_until_for is_term_active includes add dedup dedup_from trim
    ◌+ℤ◌ ◌-ℤ◌ assert_snapshot_features
run = tt

abbrev signed_at : ℤ → ℤ → Text → Signed
signed_at iat exp lic = record {
  token = text "token";
  lic = lic;
  iat = iat;
  exp = exp;
  kid = text "k1";
}

abbrev pair : List Text
pair = text "a.io" ∷ text "www.a.io" ∷ []

abbrev first_row : License
first_row =
    record (issue_row first_call order customer monthly_plan pair
      (signed_at (pos 1001) (pos 2593001) (text "oe-1"))) { renew_until = pos 2593000 }

abbrev first_store : Store
first_store = record empty_store { licenses = first_row ∷ [] }

issues : issue first_call empty_store order ≡ ok (first_store, first_row)
unfolding run
issues = refl

issue_expiry_example :
    (first_row.issued_at ≡ pos 1001)
    × ((first_row.renew_until ≡ infinite_term)
        ⊎ (first_row.expires_at ≤ℤ first_row.renew_until +ℤ (pos 1001 -ℤ pos 1000)))
issue_expiry_example = issue_expiry first_call empty_store order (omega arith) issues

abbrev renewed_row : License
renewed_row = record first_row {
  lic_id = text "oe-2";
  issued_at = pos 2000;
  expires_at = pos 2594000;
  renew_until = pos 2594000;
}

abbrev renewed_store : Store
renewed_store = record empty_store { licenses = renewed_row ∷ [] }

renews : renew second_call first_store (text "r1") none ≡ ok (renewed_store, renewed_row)
unfolding run
renews = refl

renew_extends_example : Renewed second_call first_store (text "r1") none renewed_store renewed_row
renew_extends_example = renew_extends second_call first_store (text "r1") none (omega arith) renews

abbrev revoked_row : License
revoked_row = record first_row { status = revoked }

abbrev revoked_store : Store
revoked_store = record empty_store { licenses = revoked_row ∷ [] }

revokes : revoke first_store (text "r1") ≡ ok (revoked_store, revoked_row)
unfolding run
revokes = refl

refuses_revoked : renew second_call revoked_store (text "r1") none ≡ err bad_request
unfolding run
refuses_revoked = refl

abbrev new_row : License
new_row = record first_row {
  id = text "r2";
  lic_id = text "oe-2";
  issued_at = pos 2000;
  expires_at = pos 2593000;
}

abbrev new_store : Store
new_store = record empty_store { licenses = revoked_row ∷ new_row ∷ [] }

regenerates : regenerate second_call first_store (text "r1") ≡ ok (new_store, new_row)
unfolding run
regenerates = refl

regenerate_replaces_example : Regenerated second_call first_store (text "r1") new_store new_row
regenerate_replaces_example =
    regenerate_replaces second_call first_store (text "r1") (omega arith) regenerates

abbrev moved_row : License
moved_row = record new_row { domains = text "b.io" ∷ text "www.b.io" ∷ [] }

abbrev moved_store : Store
moved_store = record empty_store { licenses = revoked_row ∷ moved_row ∷ [] }

rebinds :
    regenerate_with_domains second_call first_store (text "r1") (text "b.io" ∷ [])
    ≡ ok (moved_store, moved_row)
unfolding run
rebinds = refl

abbrev patch : DeliveryPatch
patch = record {
  channel = some (text "beta");
  pinned_version = none;
  override_version = some (text " 1.2.0");
  override_reason = some (text "broken");
  override_review_at = none;
}

abbrev delivered_row : License
delivered_row = record first_row {
  channel = text "beta";
  override_version = text "1.2.0";
  override_reason = text "broken";
}

abbrev delivered_store : Store
delivered_store = record empty_store { licenses = delivered_row ∷ [] }

delivers : set_delivery first_store (text "r1") patch ≡ ok (delivered_store, delivered_row)
unfolding run
delivers = refl

unexplained :
    set_delivery first_store (text "r1") (record patch { override_reason = some (text " ") })
    ≡ err bad_request
unfolding run
unexplained = refl

unused_first : find_license empty_store (text "r1") ≡ none
unused_first = refl

unused_second : find_license revoked_store (text "r2") ≡ none
unfolding run
unused_second = refl

reissues : regenerate second_call revoked_store (text "r1") ≡ ok (new_store, new_row)
unfolding run
reissues = refl

history : Steps empty_store revoked_store
history =
    followed (followed start (issued first_call order unused_first issues))
      (revoking (text "r1") revokes)

empty-IsValid : IsValid empty_store
empty-IsValid = record { rows = tt; licences = tt }

later : Steps revoked_store new_store
later = followed start (regenerated second_call (text "r1") unused_second reissues)

stays_found : find_license revoked_store (text "r1") ≡ some revoked_row
unfolding run
stays_found = refl

revoked_for_good_example : IsRevokedIn new_store (text "r1")
revoked_for_good_example = revoked_for_good (text "r1") later (revoked_row, stays_found, refl)
