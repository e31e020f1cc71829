-- ===== src/Licenses/Issue.antt =====
-- `issue` and `issueFromSnapshot` of src/licensing/license.service.ts.
use open_editor_text_backend.Base.{
  Bool, false, not, ◌&&◌, ◌||◌, List, [], Option, none, some, Text, text, if◌then◌else◌, is_empty,
  dedup, text_eq, Result, ok, guard, or_throw, ◌>>=◌, ◌>>◌, bad_request, not_found, or_else,
}
use open_editor_text_backend.Base.Int.{ℤ, pos, ltb_ℤ, ℤ_beq}
use open_editor_text_backend.Domains.{normalize_domains, assert_domains_acceptable}
use open_editor_text_backend.Durations.{
  Number, at, interval_or_once, as_billing_interval, stamped_renew_until, clamp_ttl_to_term,
  effective_ttl_seconds, is_infinite_term, Terms,
}
use open_editor_text_backend.Signer.{PayloadInput, Signed, sign}
use open_editor_text_backend.Licenses.{
  active, Customer, Package, License, Store, Env, find_customer, find_package, save,
  assert_features_known, assert_features_sellable, assert_domain_count,
}

-- `IssueInput`.
pub record IssueInput : Type 0 where
  pub customer_id : Text
  pub package_id : Text
  pub domains : List Text
  pub ttl_seconds : Option ℤ
  pub is_test : Bool

-- `IssueFromSnapshotInput`; a missing list of domains is the empty one.
pub record SnapshotInput : Type 0 where
  pub customer_id : Text
  pub features : List Text
  pub domains : List Text
  pub plan_name : Text
  pub plan_price_cents : Option ℤ
  pub plan_currency : Option Text
  pub domain_bound : Bool
  pub max_domains : Option ℤ
  pub ttl_seconds : Option ℤ
  pub package_id : Option Text
  pub billing_interval : Option Text
  pub renew_until : Option ℤ
  pub honor_snapshot : Bool
  pub flagged_at : Option ℤ
  pub flag_reason : Text

abbrev pub terms_of : Package → Terms
terms_of p = record {
  billing_interval = p.billing_interval;
  ttl_override_seconds = p.ttl_override_seconds;
}

-- `a || b` on numbers: 0 is falsy.
abbrev pub number_or : Option ℤ → ℤ → ℤ
number_or none d = d
number_or (some n) d = if ℤ_beq n (pos 0) then d else n

abbrev pub texts_or : List Text → List Text → List Text
texts_or xs d = if is_empty xs then d else xs

abbrev pub as_number : Option ℤ → Option Number
as_number none = none
as_number (some n) = some (at n)

-- What the signer is asked for.
abbrev pub request : List Text → List Text → Text → Text → Option Number → PayloadInput
request features domains customer plan ttl = record {
  features = features;
  domains = domains;
  customer = customer;
  plan = plan;
  ttl_seconds = ttl;
  version = none;
  iat = none;
  lic = none;
}

-- A new row with the columns' defaults, around a signed token.
abbrev pub new_row : Env → Signed → Text → Option Text → List Text → List Text → ℤ → License
new_row env signed customer package_id features domains renew = record {
  id = env.row_id;
  lic_id = signed.lic;
  customer = customer;
  package_id = package_id;
  plan_name = [];
  plan_price_cents = pos 0;
  plan_currency = text "USD";
  features = features;
  domains = domains;
  status = active;
  token = signed.token;
  kid = signed.kid;
  issued_at = signed.iat;
  expires_at = signed.exp;
  renew_until = renew;
  flagged_at = pos 0;
  flag_reason = [];
  reminder_sent_at = pos 0;
  created_at = env.created_at;
  is_test = false;
  pinned_version = [];
  override_version = [];
  override_reason = [];
  override_review_at = pos 0;
  channel = text "stable";
}

-- The lifetime that `issue` asks for, and the term that it stamps.
abbrev pub stamped_term : Env → Package → ℤ
stamped_term env p =
    stamped_renew_until (interval_or_once (as_billing_interval (some p.billing_interval))) env.now

abbrev pub issue_ttl : Env → IssueInput → Package → Option Number
issue_ttl env input p =
    clamp_ttl_to_term (some (at (number_or input.ttl_seconds (effective_ttl_seconds (terms_of p)))))
      (at (stamped_term env p)) env.now

abbrev pub issue_row : Env → IssueInput → Customer → Package → List Text → Signed → License
issue_row env input c p domains signed =
    record (new_row env signed c.id (some p.id) p.features domains (stamped_term env p)) {
      plan_name = p.name;
      plan_price_cents = p.price_cents;
      plan_currency = p.currency;
      is_test = input.is_test;
    }

-- `issue`.
unfoldable pub issue : Env → Store → IssueInput → Result (Store × License)
issue env s input = do
  c ← or_throw (find_customer s input.customer_id) not_found
  p ← or_throw (find_package s input.package_id) not_found
  guard p.active bad_request
  assert_features_sellable env.catalog p.features
  let domains = normalize_domains (texts_or input.domains c.domains)
  guard (not (p.domain_bound && is_empty domains)) bad_request
  assert_domains_acceptable domains
  assert_domain_count domains p.max_domains
  signed ←
      sign env.crypto env.config env.fresh env.sign_now
        (request p.features domains c.id p.name (issue_ttl env input p))
  save s (issue_row env input c p domains signed)

-- A carried-over term, if it is one: a positive one, or the perpetual sentinel.
abbrev pub carried_term : Option ℤ → ℤ → ℤ
carried_term none d = d
carried_term (some n) d = if ltb_ℤ (pos 0) n || is_infinite_term n then n else d

abbrev pub snapshot_term : Env → SnapshotInput → ℤ
snapshot_term env input =
    carried_term input.renew_until
      (stamped_renew_until (interval_or_once (as_billing_interval input.billing_interval)) env.now)

abbrev pub snapshot_ttl : Env → SnapshotInput → Option Number
snapshot_ttl env input =
    clamp_ttl_to_term (as_number input.ttl_seconds) (at (snapshot_term env input)) env.now

-- The domains that a snapshot binds: none for a plan that is not bound to domains.
abbrev pub requested_domains : SnapshotInput → Customer → List Text
requested_domains input c = if input.domain_bound then texts_or input.domains c.domains else []

-- The id of the package that is linked, if it still exists.
abbrev pub linked_package : Store → Option Text → Option Text
linked_package s none = none
linked_package s (some id) = elim (find_package s id) [ none ↦ none | some p ↦ some p.id ]

unfoldable pub assert_snapshot_features : Env → SnapshotInput → List Text → Result (Unit {0})
assert_snapshot_features env input features =
    if input.honor_snapshot
    then assert_features_known env.catalog features
    else assert_features_sellable env.catalog features

assert_snapshot_count : Option ℤ → List Text → Result (Unit {0})
assert_snapshot_count none domains = ok tt
assert_snapshot_count (some max) domains = assert_domain_count domains max

abbrev pub snapshot_row : Env → Store → SnapshotInput → Customer → List Text → Signed → License
snapshot_row env s input c domains signed =
    record (new_row env signed c.id (linked_package s input.package_id) (dedup input.features)
      domains (snapshot_term env input)) {
        plan_name = input.plan_name;
        plan_price_cents = or_else input.plan_price_cents (pos 0);
        plan_currency = or_else input.plan_currency (text "USD");
        flagged_at = or_else input.flagged_at (pos 0);
        flag_reason = input.flag_reason;
      }

-- `issueFromSnapshot`.
unfoldable pub issue_from_snapshot : Env → Store → SnapshotInput → Result (Store × License)
unfolding assert_snapshot_features assert_snapshot_count
issue_from_snapshot env s input = do
  c ← or_throw (find_customer s input.customer_id) not_found
  let features = dedup input.features
  assert_snapshot_features env input features
  let domains = normalize_domains (requested_domains input c)
  guard (not (input.domain_bound && is_empty domains)) bad_request
  assert_domains_acceptable domains
  assert_snapshot_count input.max_domains domains
  signed ←
      sign env.crypto env.config env.fresh env.sign_now
        (request features domains c.id input.plan_name (snapshot_ttl env input))
  save s (snapshot_row env s input c domains signed)
