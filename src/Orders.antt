-- ===== src/Orders.antt =====
-- The purchases of src/billing: the rows of its entities, and the start of a purchase in
-- src/billing/order.service.ts. Amounts are integers of cents. A text that may be missing is the
-- empty text where the source treats both alike.
pub mod Fulfil
pub mod Minting
pub mod Rows
pub mod Keys
pub mod Webhook
pub mod Currency
pub mod Signed
pub mod Writes
pub mod Pushed
pub mod Placing
pub mod Ledger
pub mod Single
pub mod Retries
mod LedgerTests
mod RouteTests
mod Samples
mod Tests
use open_editor_text_backend.Base.{
  refl, ℕ, Bool, true, false, not, ◌&&◌, List, [], ◌∷◌, ◌++◌, Option, none, some, Text, text,
  text_eq, text_beq, trim, lower, is_empty, if◌then◌else◌, find, any, update, take, Result, ok, err,
  guard, or_throw, ◌>>=◌, ◌>>◌, bad_request, not_found, failure, or_else, or_option, ◌≡◌,
}
use open_editor_text_backend.Base.Int.{ℤ, pos, ltb_ℤ}
use open_editor_text_backend.Domains.{normalize_domains, assert_domains_acceptable}
use open_editor_text_backend.Durations.{effective_ttl_seconds}
use open_editor_text_backend.Licenses.{Store, Package, Customer, find_package}
use open_editor_text_backend.Licenses.Issue.{terms_of}
use open_editor_text_backend.Activations.{Activation}

-- `OrderStatus`.
pub data OrderStatus : Type 0 where
  pending fulfilled failed lapsed : OrderStatus

abbrev pub is_fulfilled : OrderStatus → Bool
is_fulfilled fulfilled = true
is_fulfilled _ = false

abbrev pub is_pending : OrderStatus → Bool
is_pending pending = true
is_pending _ = false

-- `OrderEntity`; its package and its licence by their row ids.
pub record Order : Type 0 where
  pub id : Text
  pub session_id : Text
  pub event_id : Text
  pub package_id : Option Text
  pub package_name : Text
  pub amount_cents : ℤ
  pub currency : Text
  pub feature_ids : List Text
  pub domain_bound : Bool
  pub ttl_seconds : ℤ
  pub install_id : Text
  pub billing_interval : Text
  pub refresh_policy : Text
  pub customer_email : Text
  pub customer_name : Text
  pub domains : List Text
  pub status : OrderStatus
  pub license : Option Text
  pub license_delivered : Bool
  pub created_at : ℕ

-- `ProcessedStripeEventEntity`.
pub record ProcessedEvent : Type 0 where
  pub event_id : Text
  pub kind : Text

-- A call of the email service with a licence key.
pub record Mail : Type 0 where
  pub to : Text
  pub customer_name : Text
  pub plan_name : Text
  pub license_key : Text

-- The tables that the service writes, the emails that it asked for, and the channels on which it
-- published that something was purchased.
pub record Shop : Type 0 where
  pub store : Store
  pub orders : List Order
  pub processed : List ProcessedEvent
  pub activations : List Activation
  pub outbox : List Mail
  pub pushed : List Text

abbrev pub find_order : List Order → Text → Option Order
find_order orders id = find (λ o. text_beq o.id id) orders

-- `findBySession`.
unfoldable pub find_by_session : List Order → Text → Option Order
find_by_session orders session = find (λ o. text_beq o.session_id session) orders

-- `save` of an order that exists: the row of its id is overwritten, but for a licence that the order
-- in memory does not have, whose column is left out.
abbrev pub written_over : Order → Order → Order
written_over o row = record o { license = or_option o.license row.license }

unfoldable pub save_order : List Order → Order → List Order
save_order orders o = update (λ r. text_beq r.id o.id) (written_over o) orders

-- `StartCheckoutInput`.
pub record CheckoutInput : Type 0 where
  pub package_id : Text
  pub email : Text
  pub install_id : Text
  pub name : Text
  pub domains : List Text

-- What the database and `randomUUID` draw for a new order.
pub record Drawn : Type 0 where
  pub order_id : Text
  pub placeholder : Text
  pub created_at : ℕ

abbrev pub new_order : Drawn → CheckoutInput → Text → Package → List Text → Order
new_order drawn input email p domains = record {
  id = drawn.order_id;
  session_id = text "pending-" ++ drawn.placeholder;
  event_id = [];
  package_id = some p.id;
  package_name = p.name;
  amount_cents = p.price_cents;
  currency = p.currency;
  feature_ids = p.features;
  domain_bound = p.domain_bound;
  ttl_seconds = effective_ttl_seconds (terms_of p);
  install_id = take 128 (trim input.install_id);
  billing_interval = p.billing_interval;
  refresh_policy = p.refresh_policy;
  customer_email = email;
  customer_name = trim input.name;
  domains = domains;
  status = pending;
  license = none;
  license_delivered = false;
  created_at = drawn.created_at;
}

-- The unique index on the session refuses a session that another order has.
abbrev pub session_taken : List Order → Text → Text → Bool
session_taken orders id session =
    any (λ o. text_beq o.session_id session && not (text_beq o.id id)) orders

-- `prepareOrder`.
unfoldable pub prepare_order : Drawn → Shop → CheckoutInput → Result (Shop × Order)
prepare_order drawn s input = do
  let email = trim (lower input.email)
  guard (not (is_empty email)) bad_request
  p ← or_throw (find_package s.store input.package_id) not_found
  guard (p.active && p.publicly_listed) bad_request
  guard (ltb_ℤ (pos 0) p.price_cents) bad_request
  let domains = normalize_domains input.domains
  guard (not (p.domain_bound && is_empty domains)) bad_request
  assert_domains_acceptable domains
  let o = new_order drawn input email p domains
  guard (not (session_taken s.orders o.id o.session_id)) failure
  ok (record s { orders = o ∷ s.orders }, o)

-- `attachSession`.
unfoldable pub attach_session : Shop → Text → Text → Result Shop
attach_session s id session = do
  guard (not (session_taken s.orders id session)) failure
  ok (record s {
    orders = update (λ o. text_beq o.id id) (λ o. record o { session_id = session }) s.orders;
  })

-- `upsertCustomer`, with the id that the database draws for a new row.
abbrev pub new_customer : Text → Order → Customer
new_customer row_id o = record {
  id = row_id;
  name = if is_empty o.customer_name then o.customer_email else o.customer_name;
  email = o.customer_email;
  domains = o.domains;
}

abbrev upserted : Store → Text → Order → Option Customer → Store × Customer
upserted s row_id o (some c) = (s, c)
upserted s row_id o none =
    (record s { customers = new_customer row_id o ∷ s.customers }, new_customer row_id o)

unfoldable pub upsert_customer : Store → Text → Order → Store × Customer
upsert_customer s row_id o =
    upserted s row_id o (find (λ c. text_beq c.email o.customer_email) s.customers)

upserted-licenses :
    (s : Store) (row_id : Text) (o : Order) (found : Option Customer)
    → ((upserted s row_id o found).0.licenses ≡ s.licenses)
      × ((upserted s row_id o found).0.packages ≡ s.packages)
upserted-licenses s row_id o none = (refl, refl)
upserted-licenses s row_id o (some c) = (refl, refl)

-- A customer that is found or added leaves the licences and the packages as they are.
pub upsert_customer-licenses :
    (s : Store) (row_id : Text) (o : Order)
    → ((upsert_customer s row_id o).0.licenses ≡ s.licenses)
      × ((upsert_customer s row_id o).0.packages ≡ s.packages)
unfolding upsert_customer
upsert_customer-licenses s row_id o =
    upserted-licenses s row_id o (find (λ c. text_beq c.email o.customer_email) s.customers)
