-- ===== src/Refresh/Tests.antt =====
-- Runs of src/portal/refresh.service.ts and its limiter, and their theorems at inputs.
use open_editor_text_backend.Base.{
  true, false, [], ◌∷◌, Option, none, some, ◌≡◌, refl, arith, Text, text, text_beq, text_eq, ok,
  err, ◌>>=◌, term_ended,
}
use open_editor_text_backend.Base.Int.{pos, ◌+ℤ◌, ◌-ℤ◌}
use open_editor_text_backend.Domains.{host_allowed, host_matches_pattern}
use open_editor_text_backend.Durations.{
  clamp_ttl_to_term, effective_ttl_seconds, effective_renew_until, duration_policy, interval_of,
  as_billing_interval, term_seconds,
}
use open_editor_text_backend.Signer.{Config, Parsed, Crypto, sign, pem_for_kid, verify_own_token}
use open_editor_text_backend.Licenses.{active, Customer, License, Store, Env, save, put}
use open_editor_text_backend.Refresh.{
  Window, Limits, opened, counted, allow, gate, Grant, remint, limited, refresh,
}
use open_editor_text_backend.Refresh.Granted.{Granted, refresh_rolls}
use open_editor_text_backend.Refresh.Limiter.{IsBounded}

run : Unit {0}
unfolding text_beq ◌>>=◌ ◌+ℤ◌ ◌-ℤ◌ host_allowed host_matches_pattern clamp_ttl_to_term
    effective_ttl_seconds effective_renew_until duration_policy interval_of as_billing_interval
    term_seconds sign pem_for_kid verify_own_token save put opened counted allow gate remint limited
    refresh
run = tt

abbrev limits : Limits
limits = record { window_ms = 3600000; limit = 5; max_keys = 50000 }

abbrev window : Window
window = record { key = text "r1"; count = 4; reset_at = 100 }

few-IsBounded : IsBounded limits (window ∷ [])
few-IsBounded = record { few = omega arith; counts = (omega arith, tt) }

refuses_sixth : (allow limits (record window { count = 5 } ∷ []) (text "r1") 50).1 ≡ false
unfolding run
refuses_sixth = refl

abbrev config : Config
config = record {
  enabled = true;
  private_key_pem = text "key";
  kid = text "k1";
  default_ttl_seconds = pos 100;
  max_ttl_seconds = pos 1000;
  retired_public_keys = [];
}

abbrev parsed : Parsed
parsed = record {
  alg = text "ES256";
  kid = text "k1";
  payload = record {
    lic = text "oe-1";
    customer = text "c1";
    plan = text "Pro";
    features = text "bold" ∷ [];
    domains = [];
    iat = pos 1;
    exp = pos 90;
    version = none;
  };
}

-- A stand-in for Node that reads every token as one, and mints another.
abbrev toy : Crypto
toy = record { mint = λ pem kid p. text "new"; parse = λ t. some parsed; checks = λ pem t. true }

abbrev env : Env
env = record {
  crypto = toy;
  config = config;
  fresh = λ iat. text "oe-9";
  now = pos 80;
  sign_now = pos 80;
  created_at = 0;
  row_id = text "r9";
  catalog = [];
}

abbrev row : License
row = record {
  id = text "r1";
  lic_id = text "oe-1";
  customer = text "c1";
  package_id = none;
  plan_name = text "Pro";
  plan_price_cents = pos 900;
  plan_currency = text "USD";
  features = text "bold" ∷ [];
  domains = text "a.io" ∷ [];
  status = active;
  token = text "old";
  kid = text "k1";
  issued_at = pos 1;
  expires_at = pos 90;
  renew_until = pos 120;
  flagged_at = pos 0;
  flag_reason = [];
  reminder_sent_at = pos 0;
  created_at = 0;
  is_test = false;
  pinned_version = [];
  override_version = [];
  override_reason = [];
  override_review_at = pos 0;
  channel = text "stable";
}

abbrev customer : Customer
customer = record { id = text "c1"; name = text "Ann"; email = text "a@b.c"; domains = [] }

abbrev store : Store
store = record { customers = customer ∷ []; packages = []; licenses = row ∷ [] }

abbrev rolled_row : License
rolled_row = record row {
  token = text "new";
  issued_at = pos 80;
  expires_at = pos 120;
  reminder_sent_at = pos 80;
}

abbrev rolled_store : Store
rolled_store = record store { licenses = rolled_row ∷ [] }

abbrev grant : Grant
grant = record { token = text "new"; expires_at = pos 120; lic_id = text "oe-1"; remind = true }

abbrev host : Text → Option Text
host origin = some (text "a.io")

refreshes :
    (refresh env limits host store [] (text "old") (text "https://a.io") 7).1
    ≡ ok (rolled_store, grant)
unfolding run
refreshes = refl

lapsed :
    (refresh (record env { now = pos 120 }) limits host store [] (text "old") [] 7).1
    ≡ err term_ended
unfolding run
lapsed = refl

refresh_rolls_example : Granted env limits store [] (text "old") 7 rolled_store grant
refresh_rolls_example =
    refresh_rolls env limits host store [] (text "old") (text "https://a.io") 7 (omega arith)
      refreshes
