-- ===== src/Portal/Tests.antt =====
-- Runs of src/portal/portal-license.service.ts, and its theorems at inputs.
use open_editor_text_backend.Base.{
  true, false, List, [], ◌∷◌, none, some, ◌≡◌, refl, arith, Text, text, text_beq, text_eq, trim, ok,
  err, includes, add, dedup, dedup_from, ◌>>=◌, bad_request,
}
use open_editor_text_backend.Base.Int.{ℤ, pos, ◌+ℤ◌, ◌-ℤ◌}
use open_editor_text_backend.Domains.{
  normalize_one_domain, paired, normalize_domains, assert_domains_acceptable,
}
use open_editor_text_backend.Durations.{
  clamp_ttl_to_term, effective_ttl_seconds, stamped_renew_until, term_seconds, duration_policy,
  interval_of, as_billing_interval, effective_renew_until, carried_renew_until_for, is_term_active,
}
use open_editor_text_backend.Signer.{Config, Crypto, sign}
use open_editor_text_backend.Licenses.{
  revoked, Customer, Package, License, Store, Env, save, put, find_license, is_known_feature,
  is_sellable_feature, assert_features_known, assert_features_sellable, assert_domain_count, active,
}
use open_editor_text_backend.Licenses.Issue.{issue, issue_from_snapshot, assert_snapshot_features}
use open_editor_text_backend.Licenses.Reissue.{
  renew, revoke, replace, regenerate, regenerate_with_domains,
}
use open_editor_text_backend.Licenses.Delivery.{set_delivery}
use open_editor_text_backend.Licenses.{effective_status, is_expired}
use open_editor_text_backend.Portal.{
  to_view, is_owned, owned_or_throw, reveal_token, regenerate_owned, regenerate_for_customer,
}
use open_editor_text_backend.Portal.Owned.{
  PortalRegenerated, Answered, regenerate_for_customer_replaces,
}

abbrev config : Config
config = record {
  enabled = true;
  private_key_pem = text "key";
  kid = text "k1";
  default_ttl_seconds = pos 2592000;
  max_ttl_seconds = pos 9000000;
  retired_public_keys = [];
}

-- A stand-in for Node that reads no token.
abbrev toy : Crypto
toy = record { mint = λ pem kid p. text "token"; parse = λ t. none; checks = λ pem t. false }

abbrev customer : Customer
customer = record {
  id = text "c1";
  name = text "Ann";
  email = text "a@b.c";
  domains = text "a.io" ∷ [];
}

abbrev monthly_plan : Package
monthly_plan = record {
  id = text "p1";
  name = text "Pro";
  price_cents = pos 900;
  currency = text "USD";
  billing_interval = text "monthly";
  ttl_override_seconds = none;
  domain_bound = true;
  max_domains = pos 1;
  max_installs = pos 0;
  active = true;
  publicly_listed = true;
  refresh_policy = text "auto";
  features = text "bold" ∷ [];
}

abbrev empty_store : Store
empty_store = record { customers = customer ∷ []; packages = monthly_plan ∷ []; licenses = [] }

abbrev env_at : ℤ → ℤ → Text → Text → Env
env_at now sign_now row lic = record {
  crypto = toy;
  config = config;
  fresh = λ iat. lic;
  now = now;
  sign_now = sign_now;
  created_at = 0;
  row_id = row;
  catalog = record { id = text "bold"; deprecated = false; sellable = true } ∷ [];
}

abbrev second_call : Env
second_call = env_at (pos 2000) (pos 2000) (text "r2") (text "oe-2")

run : Unit {0}
unfolding effective_status is_expired owned_or_throw reveal_token regenerate_owned
    regenerate_for_customer issue issue_from_snapshot renew revoke set_delivery replace regenerate
    regenerate_with_domains save put sign ◌>>=◌ text_beq is_known_feature is_sellable_feature
    assert_features_known assert_features_sellable assert_domain_count normalize_one_domain paired
    normalize_domains assert_domains_acceptable clamp_ttl_to_term effective_ttl_seconds
    stamped_renew_until term_seconds duration_policy interval_of as_billing_interval
    effective_renew_until carried_renew_until_for is_term_active includes add dedup dedup_from trim
    ◌+ℤ◌ ◌-ℤ◌ assert_snapshot_features
run = tt

abbrev pair : List Text
pair = text "a.io" ∷ text "www.a.io" ∷ []

abbrev first_row : License
first_row = record {
  id = text "r1";
  lic_id = text "oe-1";
  customer = text "c1";
  package_id = some (text "p1");
  plan_name = text "Pro";
  plan_price_cents = pos 900;
  plan_currency = text "USD";
  features = text "bold" ∷ [];
  domains = pair;
  status = active;
  token = text "token";
  kid = text "k1";
  issued_at = pos 1001;
  expires_at = pos 2593001;
  renew_until = pos 2593000;
  flagged_at = pos 0;
  flag_reason = [];
  reminder_sent_at = pos 0;
  created_at = 0;
  is_test = false;
  pinned_version = [];
  override_version = [];
  override_reason = [];
  override_review_at = pos 0;
  channel = text "stable";
}

abbrev first_store : Store
first_store = record empty_store { licenses = first_row ∷ [] }

abbrev revoked_row : License
revoked_row = record first_row { status = revoked }

abbrev revoked_store : Store
revoked_store = record empty_store { licenses = revoked_row ∷ [] }

abbrev new_row : License
new_row = record first_row {
  id = text "r2";
  lic_id = text "oe-2";
  issued_at = pos 2000;
  expires_at = pos 2593000;
}

abbrev new_store : Store
new_store = record empty_store { licenses = revoked_row ∷ new_row ∷ [] }

reveals :
    reveal_token first_store (pos 2000) (text "c1") (text "r1")
    ≡ ok (to_view first_row (pos 2000), text "token")
unfolding run
reveals = refl

hides_dead : reveal_token revoked_store (pos 2000) (text "c1") (text "r1") ≡ err bad_request
unfolding run
hides_dead = refl

regenerates :
    regenerate_for_customer second_call first_store first_store (text "c1") (text "r1")
    ≡ ok (new_store, (new_row, (to_view new_row (pos 2000), text "token")))
unfolding run
regenerates = refl

-- A revoked licence is regenerated by its customer: nothing asks for its status.
resurrects :
    regenerate_for_customer second_call revoked_store revoked_store (text "c1") (text "r1")
    ≡ ok (new_store, (new_row, (to_view new_row (pos 2000), text "token")))
unfolding run
resurrects = refl

regenerate_for_customer_replaces_example :
    PortalRegenerated second_call first_store (text "c1") (text "r1") new_store new_row
    × Answered second_call new_row (to_view new_row (pos 2000)) (text "token")
regenerate_for_customer_replaces_example =
    regenerate_for_customer_replaces second_call first_store first_store (text "c1") (text "r1")
      (omega arith) regenerates

not_owned : is_owned (text "c2") (find_license first_store (text "r1")) ≡ false
unfolding run
not_owned = refl
