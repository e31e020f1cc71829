-- ===== src/Orders/Fulfil.antt =====
-- `fulfillFromEvent` of src/billing/order.service.ts: what it reads and tests first, and the
-- transaction with what follows it. The two are separate, so that two deliveries can interleave.
use open_editor_text_backend.Base.{
  ℕ, Bool, true, false, not, ◌&&◌, ◌||◌, List, [], ◌∷◌, ◌++◌, Option, none, some, Text, text_eq,
  text_beq, lower, is_empty, if◌then◌else◌, any, Error, Result, ok, err, guard, ◌>>=◌, ◌>>◌,
  bad_request, not_found, conflict, failure, unavailable, is_some,
}
use open_editor_text_backend.Base.Int.{ℤ, pos, ℤ_beq}
use open_editor_text_backend.Licenses.{License, Store, Env, Customer}
use open_editor_text_backend.Licenses.Issue.{SnapshotInput, issue_from_snapshot, linked_package}
use open_editor_text_backend.Activations
use open_editor_text_backend.Orders.{
  Order, ProcessedEvent, Mail, Shop, fulfilled, failed, is_fulfilled, find_order, find_by_session,
  save_order, upsert_customer,
}

-- The parameter of `fulfillFromEvent`; a missing order id or currency is the empty text.
pub record Payment : Type 0 where
  pub event_id : Text
  pub event_type : Text
  pub order_id : Text
  pub session_id : Text
  pub amount_paid_cents : Option ℤ
  pub currency_paid : Text

pub record Outcome : Type 0 where
  pub order : Option Order
  pub retry : Bool

-- What one call takes from outside: the surroundings of the mint, the row ids that the database
-- draws, the clock of the activation, and whether the database commits the transaction.
pub record Call : Type 0 where
  pub env : Env
  pub customer_row : Text
  pub activation_row : Text
  pub activation_now : ℕ
  pub commits : Bool

-- The order of a payment, as `findOne` returns it: only its package is joined, so the object in
-- memory has no licence whatever the row's column holds.
abbrev pub unjoined : Option Order → Option Order
unjoined none = none
unjoined (some o) = some (record o { license = none })

abbrev pub row_of : List Order → Payment → Option Order
row_of orders p =
    if is_empty p.order_id
    then find_by_session orders p.session_id
    else find_order orders p.order_id

unfoldable pub order_of : List Order → Payment → Option Order
order_of orders p = unjoined (row_of orders p)

-- An order that has its licence at hand.
abbrev pub is_sold : Order → Bool
is_sold o = is_fulfilled o.status && is_some o.license

abbrev pub is_processed : List ProcessedEvent → Text → Bool
is_processed events id = any (λ e. text_beq e.event_id id) events

-- The amount test, turned round: what was paid is what the order costs.
unfoldable pub amount_matches : Payment → Order → Bool
amount_matches p o = elim p.amount_paid_cents [
  | none ↦ false
  | some paid ↦
      ℤ_beq paid o.amount_cents
      && (is_empty p.currency_paid || text_beq (lower p.currency_paid) (lower o.currency))
]

-- What the tests before the transaction decide: no order yet, nothing to do, a wrong amount, or an
-- order to fulfil.
pub data Verdict : Type 0 where
  not_ready : Verdict
  settled : Option Order → Verdict
  mismatched : Order → Verdict
  payable : Order → Verdict

unfoldable pub judge_order : Shop → Payment → Order → Verdict
judge_order s p o =
    if is_sold o
    then settled (some o)
    else if is_processed s.processed p.event_id
    then settled (find_by_session s.orders o.session_id)
    else if amount_matches p o
    then payable o
    else mismatched o

abbrev pub judged : Shop → Payment → Option Order → Verdict
judged s p none = not_ready
judged s p (some o) = judge_order s p o

unfoldable pub judge : Shop → Payment → Verdict
judge s p = judged s p (order_of s.orders p)

-- The joined package of an order; none when it was deleted.
abbrev pub sold_package : Store → Order → Option Text
sold_package s o = linked_package s o.package_id

abbrev pub snapshot_of : Store → Customer → Order → SnapshotInput
snapshot_of s c o = record {
  customer_id = c.id;
  features = o.feature_ids;
  domains = o.domains;
  plan_name = o.package_name;
  plan_price_cents = some o.amount_cents;
  plan_currency = some o.currency;
  domain_bound = o.domain_bound;
  max_domains = none;
  ttl_seconds = if ℤ_beq o.ttl_seconds (pos 0) then none else some o.ttl_seconds;
  package_id = sold_package s o;
  billing_interval = some o.billing_interval;
  renew_until = none;
  honor_snapshot = false;
  flagged_at = none;
  flag_reason = [];
}

abbrev pub failed_order : Payment → Order → Order
failed_order p o = record o { status = failed; event_id = p.event_id }

abbrev pub fulfilled_order : Payment → Order → License → Order
fulfilled_order p o l = record o { status = fulfilled; event_id = p.event_id; license = some l.id }

abbrev pub sold_shop : Shop → Payment → Order → Store → License → Shop
sold_shop s p o store l = record s {
  store = store;
  orders = save_order s.orders (fulfilled_order p o l);
  processed = record { event_id = p.event_id; kind = p.event_type } ∷ s.processed;
}

-- The transaction: the ledger, whose primary key refuses a second row, the mint, and the order.
unfoldable pub transact : Call → Shop → Payment → Customer → Order → Result (Shop × License)
transact call s p c o = do
  guard (not (is_processed s.processed p.event_id)) conflict
  (store, l) ← issue_from_snapshot call.env s.store (snapshot_of s.store c o)
  guard call.commits unavailable
  ok (sold_shop s p o store l, l)

abbrev purchase_mail : Order → License → Mail
purchase_mail o l = record {
  to = o.customer_email;
  customer_name = o.customer_name;
  plan_name = o.package_name;
  license_key = l.token;
}

abbrev pub channel : Text → List Text
channel id = if is_empty id then [] else id ∷ []

-- What follows the commit: the activation, the push on both channels, and the email.
unfoldable pub announce : Call → Shop → Order → License → Shop
announce call s o l = record s {
  activations =
      if is_empty o.install_id || is_empty l.lic_id
      then s.activations
      else (Activations.create s.activations call.activation_row o.install_id l.lic_id
          call.activation_now).0;
  pushed = channel l.lic_id ++ channel o.install_id ++ s.pushed;
  outbox = if is_empty l.token then s.outbox else purchase_mail o l ∷ s.outbox;
}

-- The tables after an order is marked failed, a write outside of the transaction.
abbrev pub fail : Shop → Payment → Order → Shop × Result Outcome
fail s p o = (
  record s { orders = save_order s.orders (failed_order p o) },
  ok (record { order = some (failed_order p o); retry = false }),
)

-- The `catch` of the transaction. A refused key is the ledger's or the licence id's.
unfoldable pub caught : Shop → Payment → Order → Error → Shop × Result Outcome
caught s p o bad_request = fail s p o
caught s p o not_found = fail s p o
caught s p o conflict =
    (s, ok (record { order = find_by_session s.orders o.session_id; retry = false }))
caught s p o failure =
    (s, ok (record { order = find_by_session s.orders o.session_id; retry = false }))
caught s p o e = (s, err e)

abbrev pub finished :
    Call → Shop → Payment → Order → Result (Shop × License) → Shop × Result Outcome
finished call s p o (err e) = caught s p o e
finished call s p o (ok (t, l)) =
    (announce call t o l, ok (record { order = some (fulfilled_order p o l); retry = false }))

abbrev pub with_customer : Call → Shop → Order → Shop
with_customer call s o = record s { store = (upsert_customer s.store call.customer_row o).0 }

-- The customer, the transaction, and what follows it.
unfoldable pub mint : Call → Shop → Payment → Order → Shop × Result Outcome
mint call s p o =
    let c = (upsert_customer s.store call.customer_row o).1 in
    let t = with_customer call s o in finished call t p o (transact call t p c o)

-- What follows the tests.
abbrev pub settle : Call → Shop → Payment → Verdict → Shop × Result Outcome
settle call s p not_ready = (s, ok (record { order = none; retry = true }))
settle call s p (settled o) = (s, ok (record { order = o; retry = false }))
settle call s p (mismatched o) = fail s p o
settle call s p (payable o) = mint call s p o

-- `fulfillFromEvent`, when nothing comes between its reads and its writes.
unfoldable pub fulfill_from_event : Call → Shop → Payment → Shop × Result Outcome
fulfill_from_event call s p = settle call s p (judge s p)
