-- ===== src/Orders/Samples.antt =====
-- A shop and the calls of src/billing for its runs.
use open_editor_text_backend.Base.{
  Bool, true, false, [], ◌∷◌, ◌++◌, none, some, Text, text, text_eq, text_beq, ◌≡◌, refl, ok, ◌>>=◌,
  includes, trim, dedup, dedup_from, add,
}
use open_editor_text_backend.Base.Int.{pos, ◌+ℤ◌, ◌-ℤ◌}
use open_editor_text_backend.Domains.{
  normalize_one_domain, paired, normalize_domains, assert_domains_acceptable,
}
use open_editor_text_backend.Durations.{
  clamp_ttl_to_term, effective_ttl_seconds, stamped_renew_until, term_seconds, duration_policy,
  interval_of, as_billing_interval,
}
use open_editor_text_backend.Signer.{Config, Crypto, sign}
use open_editor_text_backend.Licenses.{
  Package, License, save, put, is_known_feature, is_sellable_feature, assert_features_known,
  assert_features_sellable, assert_domain_count,
}
use open_editor_text_backend.Licenses.Issue.{
  issue_from_snapshot, assert_snapshot_features, snapshot_row,
}
use open_editor_text_backend.Activations
use open_editor_text_backend.Orders.{
  Order, Shop, CheckoutInput, Drawn, prepare_order, attach_session, upsert_customer,
  find_by_session, save_order, new_order,
}
use open_editor_text_backend.Orders.Fulfil.{
  Payment, Call, order_of, amount_matches, judge_order, judge, transact, announce, caught, mint,
  fulfill_from_event, snapshot_of,
}
use open_editor_text_backend.Orders.Keys.{read_session, claim_delivery, retrieve_license_once}
use open_editor_text_backend.Orders.Webhook.{webhook, force_fulfill, checkout, checkout_request}

unfoldable pub run : Unit {0}
unfolding prepare_order attach_session upsert_customer find_by_session save_order order_of
    amount_matches judge_order judge transact announce caught mint fulfill_from_event read_session
    claim_delivery retrieve_license_once webhook force_fulfill checkout checkout_request
    issue_from_snapshot save put sign ◌>>=◌ text_beq is_known_feature is_sellable_feature
    assert_features_known assert_features_sellable assert_domain_count normalize_one_domain paired
    normalize_domains assert_domains_acceptable clamp_ttl_to_term effective_ttl_seconds
    stamped_renew_until term_seconds duration_policy interval_of as_billing_interval includes add
    dedup dedup_from trim ◌+ℤ◌ ◌-ℤ◌ assert_snapshot_features Activations.create
run = tt

abbrev pub config : Config
config = record {
  enabled = true;
  private_key_pem = text "key";
  kid = text "k1";
  default_ttl_seconds = pos 2592000;
  max_ttl_seconds = pos 9000000;
  retired_public_keys = [];
}

-- A stand-in for Node that reads no token.
abbrev pub toy : Crypto
toy = record { mint = λ pem kid p. text "token"; parse = λ t. none; checks = λ pem t. false }

abbrev pub pro : Package
pro = record {
  id = text "p1";
  name = text "Pro";
  price_cents = pos 900;
  currency = text "USD";
  billing_interval = text "monthly";
  ttl_override_seconds = none;
  domain_bound = false;
  max_domains = pos 1;
  max_installs = pos 0;
  active = true;
  publicly_listed = true;
  refresh_policy = text "auto";
  features = text "bold" ∷ [];
}

abbrev pub empty_shop : Shop
empty_shop = record {
  store = record { customers = []; packages = pro ∷ []; licenses = [] };
  orders = [];
  processed = [];
  activations = [];
  outbox = [];
  pushed = [];
}

abbrev pub drawn : Drawn
drawn = record { order_id = text "o1"; placeholder = text "x"; created_at = 0 }

abbrev pub wish : CheckoutInput
wish = record {
  package_id = text "p1";
  email = text " Ann@b.c";
  install_id = text "tab";
  name = text "Ann";
  domains = [];
}

abbrev pub order : Order
order = new_order drawn wish (text "ann@b.c") pro []

abbrev pub open_shop : Shop
open_shop = record empty_shop { orders = order ∷ [] }

abbrev pub call_of : Text → Bool → Call
call_of row commits = record {
  env = record {
    crypto = toy;
    config = config;
    fresh = λ iat. text "oe-" ++ row;
    now = pos 1000;
    sign_now = pos 1000;
    created_at = 0;
    row_id = row;
    catalog = record { id = text "bold"; deprecated = false; sellable = true } ∷ [];
  };
  customer_row = text "c1";
  activation_row = text "a1";
  activation_now = 7;
  commits = commits;
}

abbrev pub payment : Text → Payment
payment event = record {
  event_id = event;
  event_type = text "checkout.session.completed";
  order_id = text "o1";
  session_id = text "cs";
  amount_paid_cents = some (pos 900);
  currency_paid = text "usd";
}

abbrev pub first_call : Call
first_call = call_of (text "r1") true

abbrev pub sold_once : Shop
sold_once = (fulfill_from_event first_call open_shop (payment (text "e1"))).0

pub prepares : prepare_order drawn empty_shop wish ≡ ok (open_shop, order)
unfolding run
prepares = refl

abbrev pub later_call : Call
later_call = call_of (text "r2") true

abbrev pub row_of_sale : Text → License
row_of_sale row =
    snapshot_row (call_of row true).env open_shop.store
      (snapshot_of open_shop.store
        (record { id = text "c1"; name = text "Ann"; email = text "ann@b.c"; domains = [] }) order)
      (record { id = text "c1"; name = text "Ann"; email = text "ann@b.c"; domains = [] }) []
      (record {
        token = text "token";
        lic = text "oe-" ++ row;
        iat = pos 1000;
        exp = pos 2593000;
        kid = text "k1";
      })
