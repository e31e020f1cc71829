-- ===== src/Orders/Signed.antt =====
-- What it takes for a request to src/billing/billing.controller.ts or
-- src/billing/order-admin.controller.ts to mint.
use open_editor_text_backend.Base.{
  true, false, Option, none, some, Text, text, text_eq, text_beq, text_beq_iff, is_empty, ◌≡◌, ◌≢◌,
  ◌⊎◌, inl, inr, refl, Bool-cases, Result, ok, err,
}
use open_editor_text_backend.Base.{&&_split}
use open_editor_text_backend.Orders.{Order, Shop, find_order, is_fulfilled}
use open_editor_text_backend.Orders.Fulfil.{Outcome, Call, fulfill_from_event}
use open_editor_text_backend.Orders.Minting.{Sale, Unsold, refl_Unsold, fulfil-cases}
use open_editor_text_backend.Orders.Webhook.{
  Stripe, StripeEvent, Session, payment_of, replied, is_settled_payment, on_event, webhook,
  forced_payment, completed, forced, force_order, force_fulfill,
}

-- A request that minted: its signature is genuine, its event tells of a checkout that was paid, and
-- the payment was sold.
pub record SignedSale (stripe : Stripe) (call : Call) (s : Shop) (raw signature : Text)
    : Type 0 where
  pub event : StripeEvent
  pub genuine : stripe.construct_event raw signature ≡ some event
  pub completed : event.kind ≡ text "checkout.session.completed"
  pub settled : event.session.payment_status ≡ text "paid"
  pub sale : Sale call s (payment_of event) (fulfill_from_event call s (payment_of event))

replied-store : (r : Shop × Result Outcome) → (replied r).0 ≡ r.0
replied-store (s, err e) = refl
replied-store (s, ok o) = refl

on_event-cases :
    (call : Call) (s : Shop) (e : StripeEvent)
    → ((is_settled_payment e ≡ true)
        × Sale call s (payment_of e) (fulfill_from_event call s (payment_of e)))
      ⊎ Unsold s (on_event call s (some e)).0
on_event-cases call s e = elim (Bool-cases (is_settled_payment e)) [
  | inr h ↦ rw h (inr (refl_Unsold s))
  | inl h ↦ elim (fulfil-cases call s (payment_of e)) [
    | inl sale ↦ inl (h, sale)
    | inr u ↦ rw (h, replied-store (fulfill_from_event call s (payment_of e))) (inr u)
  ]
]

webhook-cases :
    (stripe : Stripe) (call : Call) (s : Shop) (raw signature : Text)
    → (found : Option StripeEvent) → stripe.construct_event raw signature ≡ found
    → SignedSale stripe call s raw signature ⊎ Unsold s (on_event call s found).0
webhook-cases stripe call s raw signature none h = inr (refl_Unsold s)
webhook-cases stripe call s raw signature (some e) h = elim (on_event-cases call s e) [
  | inr u ↦ inr u
  | inl (paid, sale) ↦
      let (kind, status) = &&_split _ _ paid in
      inl record {
        event = e;
        genuine = h;
        completed = (text_beq_iff _ _).0 kind;
        settled = (text_beq_iff _ _).0 status;
        sale = sale;
      }
]

-- A webhook request that changes the licences carries a signature that Stripe's client accepts, for
-- an event that says that a checkout was completed and paid; and it sold the order of that payment.
pub webhook_sells_signed :
    (stripe : Stripe) (call : Call) (s : Shop) (raw signature : Text)
    → (webhook stripe call s (some raw) signature).0.store.licenses ≢ s.store.licenses
    → SignedSale stripe call s raw signature
unfolding webhook
webhook_sells_signed stripe call s raw signature changed = elim (Bool-cases (is_empty signature)) [
  | inl e ↦ absurd (changed (rw e refl))
  | inr e ↦
      elim (webhook-cases stripe call s raw signature (stripe.construct_event raw signature) refl) [
        | inl sale ↦ sale
        | inr u ↦ absurd (changed (rw e u.licenses))
      ]
]

-- A forced fulfilment that minted: the order is not fulfilled, and Stripe says that its session is
-- paid.
pub record ForcedSale (stripe : Stripe) (call : Call) (s : Shop) (id : Text) : Type 0 where
  pub order : Order
  pub session : Session
  pub found : find_order s.orders id ≡ some order
  pub open_order : is_fulfilled order.status ≡ false
  pub retrieved : stripe.retrieve_session order.session_id ≡ ok session
  pub settled : session.payment_status ≡ text "paid"
  pub sale :
      Sale call s
        (forced_payment order session)
        (fulfill_from_event call s (forced_payment order session))

completed-store : (r : Shop × Result Outcome) → (completed r).0 ≡ r.0
completed-store (s, err e) = refl
completed-store (s, ok o) = refl

forced-cases :
    (stripe : Stripe) (call : Call) (s : Shop) (id : Text) (o : Order)
    → find_order s.orders id ≡ some o
    → is_fulfilled o.status ≡ false
    → (r : Result Session) → stripe.retrieve_session o.session_id ≡ r
    → ForcedSale stripe call s id ⊎ Unsold s (forced call s o r).0
forced-cases stripe call s id o found live (err e) h = inr (refl_Unsold s)
forced-cases stripe call s id o found live (ok x) h =
    elim (Bool-cases (text_beq x.payment_status (text "paid"))) [
      | inr e ↦ rw e (inr (refl_Unsold s))
      | inl e ↦ elim (fulfil-cases call s (forced_payment o x)) [
        | inr u ↦ rw (e, completed-store (fulfill_from_event call s (forced_payment o x))) (inr u)
        | inl sale ↦ inl record {
          order = o;
          session = x;
          found = found;
          open_order = live;
          retrieved = h;
          settled = (text_beq_iff _ _).0 e;
          sale = sale;
        }
      ]
    ]

force_order-cases :
    (stripe : Stripe) (call : Call) (s : Shop) (id : Text)
    → (found : Option Order) → find_order s.orders id ≡ found
    → ForcedSale stripe call s id ⊎ Unsold s (force_order stripe call s found).0
force_order-cases stripe call s id none h = inr (refl_Unsold s)
force_order-cases stripe call s id (some o) h = elim (Bool-cases (is_fulfilled o.status)) [
  | inl e ↦ rw e (inr (refl_Unsold s))
  | inr e ↦ elim (Bool-cases (is_empty o.session_id)) [
    | inl f ↦ rw (e, f) (inr (refl_Unsold s))
    | inr f ↦
        rw (e, f) (forced-cases stripe call s id o h e (stripe.retrieve_session o.session_id) refl)
  ]
]

-- A forced fulfilment that changes the licences found its order not fulfilled, and Stripe says that
-- the order's session is paid; and it sold the order of that payment.
pub force_fulfill_sells_paid :
    (stripe : Stripe) (call : Call) (s : Shop) (id : Text)
    → (force_fulfill stripe call s id).0.store.licenses ≢ s.store.licenses
    → ForcedSale stripe call s id
unfolding force_fulfill
force_fulfill_sells_paid stripe call s id changed = elim (Bool-cases stripe.enabled) [
  | inr e ↦ absurd (changed (rw e refl))
  | inl e ↦ elim (force_order-cases stripe call s id (find_order s.orders id) refl) [
    | inl sale ↦ sale
    | inr u ↦ absurd (changed (rw e u.licenses))
  ]
]
