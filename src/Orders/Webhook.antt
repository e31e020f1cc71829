-- ===== src/Orders/Webhook.antt =====
-- The checkout and the webhook of src/billing/billing.controller.ts, and the forced fulfilment of
-- src/billing/order-admin.controller.ts. Stripe's client is the parameter `Stripe`.
use open_editor_text_backend.Base.{
  Bool, not, ◌&&◌, ◌++◌, Option, none, some, Text, text, text_eq, text_beq, is_empty, Result, ok,
  err, guard, bad_request, unavailable, if◌then◌else◌,
}
use open_editor_text_backend.Base.Int.{ℤ}
use open_editor_text_backend.Orders.{
  Order, Shop, Drawn, CheckoutInput, prepare_order, attach_session, find_order, is_fulfilled,
}
use open_editor_text_backend.Orders.Fulfil.{Payment, Outcome, Call, fulfill_from_event}

-- A Checkout Session as an event or Stripe's API carries it; a missing text is empty.
pub record Session : Type 0 where
  pub id : Text
  pub payment_status : Text
  pub amount_total : Option ℤ
  pub currency : Text
  pub metadata_order_id : Text
  pub client_reference_id : Text

pub record StripeEvent : Type 0 where
  pub id : Text
  pub kind : Text
  pub session : Session

-- What `createCheckoutSession` of src/billing/stripe.service.ts asks for: the currency is forced.
pub record CheckoutRequest : Type 0 where
  pub currency : Text
  pub unit_amount : ℤ
  pub product_name : Text
  pub customer_email : Text
  pub metadata_order_id : Text
  pub client_reference_id : Text

unfoldable pub checkout_request : Order → CheckoutRequest
checkout_request o = record {
  currency = text "usd";
  unit_amount = o.amount_cents;
  product_name = o.package_name;
  customer_email = o.customer_email;
  metadata_order_id = o.id;
  client_reference_id = o.id;
}

-- The client of Stripe: whether it is configured, the event of a body whose signature is genuine,
-- the session of an id, and a new session.
pub record Stripe : Type 0 where
  pub enabled : Bool
  pub construct_event : Text → Text → Option StripeEvent
  pub retrieve_session : Text → Result Session
  pub create_checkout_session : CheckoutRequest → Result Session

-- `a || b` on texts.
abbrev first_text : Text → Text → Text
first_text a b = if is_empty a then b else a

abbrev pub payment_of : StripeEvent → Payment
payment_of e = record {
  event_id = e.id;
  event_type = e.kind;
  order_id = first_text e.session.metadata_order_id e.session.client_reference_id;
  session_id = e.session.id;
  amount_paid_cents = e.session.amount_total;
  currency_paid = e.session.currency;
}

-- The answer to Stripe of what `fulfillFromEvent` returned.
abbrev pub replied : Shop × Result Outcome → Shop × Result (Unit {0})
replied (s, err e) = (s, err e)
replied (s, ok o) = (s, guard (not o.retry) unavailable)

abbrev pub is_settled_payment : StripeEvent → Bool
is_settled_payment e =
    text_beq e.kind (text "checkout.session.completed")
    && text_beq e.session.payment_status (text "paid")

abbrev pub on_event : Call → Shop → Option StripeEvent → Shop × Result (Unit {0})
on_event call s none = (s, err bad_request)
on_event call s (some e) =
    if is_settled_payment e then replied (fulfill_from_event call s (payment_of e)) else (s, ok tt)

-- `webhook`; a missing body or signature is none or the empty text.
unfoldable pub webhook : Stripe → Call → Shop → Option Text → Text → Shop × Result (Unit {0})
webhook stripe call s none signature = (s, err bad_request)
webhook stripe call s (some raw) signature =
    if is_empty signature
    then (s, err bad_request)
    else on_event call s (stripe.construct_event raw signature)

-- The end of `forceFulfill`: the order must have come out fulfilled.
abbrev completed_order : Option Order → Result Order
completed_order none = err bad_request
completed_order (some o) = if is_fulfilled o.status then ok o else err bad_request

abbrev pub completed : Shop × Result Outcome → Shop × Result Order
completed (s, err e) = (s, err e)
completed (s, ok out) = (s, completed_order out.order)

abbrev pub forced_payment : Order → Session → Payment
forced_payment o session = record {
  event_id = text "admin-force:" ++ o.session_id;
  event_type = text "admin.force_fulfill";
  order_id = o.id;
  session_id = o.session_id;
  amount_paid_cents = session.amount_total;
  currency_paid = session.currency;
}

abbrev pub forced : Call → Shop → Order → Result Session → Shop × Result Order
forced call s o (err e) = (s, err e)
forced call s o (ok session) =
    if text_beq session.payment_status (text "paid")
    then completed (fulfill_from_event call s (forced_payment o session))
    else (s, err bad_request)

abbrev pub force_order : Stripe → Call → Shop → Option Order → Shop × Result Order
force_order stripe call s none = (s, err bad_request)
force_order stripe call s (some o) =
    if is_fulfilled o.status
    then (s, ok o)
    else if is_empty o.session_id
    then (s, err bad_request)
    else forced call s o (stripe.retrieve_session o.session_id)

-- `forceFulfill`.
unfoldable pub force_fulfill : Stripe → Call → Shop → Text → Shop × Result Order
force_fulfill stripe call s id =
    if stripe.enabled
    then force_order stripe call s (find_order s.orders id)
    else (s, err bad_request)

abbrev pub attached : Shop → Order → Result Session → Shop × Result Session
attached s o (err e) = (s, err e)
attached s o (ok session) = elim (attach_session s o.id session.id) [
  | err e ↦ (s, err e)
  | ok t ↦ (t, ok session)
]

abbrev pub checked_out : Stripe → Shop → Result (Shop × Order) → Shop × Result Session
checked_out stripe s (err e) = (s, err e)
checked_out stripe s (ok (t, o)) =
    attached t o (stripe.create_checkout_session (checkout_request o))

-- `checkout`: the pending order is committed before Stripe is asked for its session.
unfoldable pub checkout : Stripe → Drawn → Shop → CheckoutInput → Shop × Result Session
unfolding checkout_request
checkout stripe drawn s input =
    if stripe.enabled
    then checked_out stripe s (prepare_order drawn s input)
    else (s, err unavailable)
