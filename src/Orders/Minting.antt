-- ===== src/Orders/Minting.antt =====
-- When and what `fulfillFromEvent` of src/billing/order.service.ts mints.
use open_editor_text_backend.Base.{
  Bool, true, false, ◌&&◌, Option, none, some, text_beq_iff, lower, is_empty, ◌≡◌, ◌≢◌, ◌⊎◌, inl,
  inr, refl, ap, sym, ◌∙◌, arith, Bool-cases, not-true, Result, ok, err, Error, Ensures, returns,
  after, of_ok, guard-eq-ok, bad_request, not_found,
}
use open_editor_text_backend.Base.Int.{ℤ, ℤ_beq, eq_of_parts}
use open_editor_text_backend.Licenses.{License, Store, Customer}
use open_editor_text_backend.Licenses.Issuing.{Minted, issue_from_snapshot-Ensures}
use open_editor_text_backend.Orders.{Order, Shop, upsert_customer, upsert_customer-licenses}
use open_editor_text_backend.Orders.Fulfil.{
  Payment, Outcome, Call, Verdict, not_ready, settled, mismatched, payable, order_of, is_sold,
  is_processed, amount_matches, judge_order, judge, judged, snapshot_of, fulfilled_order, sold_shop,
  transact, announce, caught, finished, with_customer, mint, settle, fulfill_from_event, fail,
}

-- What was paid is what the order costs, in its currency where the payment names one.
pub record Paid (p : Payment) (o : Order) : Type 0 where
  pub amount : p.amount_paid_cents ≡ some o.amount_cents
  pub in_currency : (is_empty p.currency_paid ≡ true) ⊎ (lower p.currency_paid ≡ lower o.currency)

paid_amount :
    (paid : Option ℤ) (cents : ℤ) (fits : Bool)
    → elim paid [ none ↦ false | some n ↦ ℤ_beq n cents && fits ] ≡ true
    → (paid ≡ some cents) × (fits ≡ true)
paid_amount none cents fits h = cc
paid_amount (some n) cents fits h = (ap some (eq_of_parts n cents (ground arith)), ground arith)

pub amount_matches-Paid : (p : Payment) (o : Order) → amount_matches p o ≡ true → Paid p o
unfolding amount_matches
amount_matches-Paid p o h =
    let (a, fits) = paid_amount p.amount_paid_cents o.amount_cents _ h in
    record {
      amount = a;
      in_currency = elim (Bool-cases (is_empty p.currency_paid)) [
        | inl e ↦ inl e
        | inr e ↦ inr ((text_beq_iff _ _).0 (rw e at fits))
      ];
    }

-- What the transaction has done when it commits.
pub record Committed (call : Call) (s : Shop) (p : Payment) (c : Customer) (o : Order) (t : Shop)
    (l : License) : Type 0 where
  pub store : Store
  pub new_event : is_processed s.processed p.event_id ≡ false
  pub minted : Minted call.env s.store (snapshot_of s.store c o) store l
  pub shop : t ≡ sold_shop s p o store l

pub transact-Ensures :
    (call : Call) (s : Shop) (p : Payment) (c : Customer) (o : Order)
    → Ensures (λ (r : Shop × License). Committed call s p c o r.0 r.1) (transact call s p c o)
unfolding transact
transact-Ensures call s p c o = after λ _ fresh. after λ (store, l) em. after λ _ _.
    returns record {
      store = store;
      new_event = not-true _ (guard-eq-ok _ _ fresh);
      minted = of_ok (issue_from_snapshot-Ensures call.env s.store _) em;
      shop = refl;
    }

-- Nothing was sold: the licences, the ledger and all that tells a buyer of a sale are as before.
pub record Unsold (s t : Shop) : Type 0 where
  pub licenses : t.store.licenses ≡ s.store.licenses
  pub packages : t.store.packages ≡ s.store.packages
  pub processed : t.processed ≡ s.processed
  pub activations : t.activations ≡ s.activations
  pub outbox : t.outbox ≡ s.outbox
  pub pushed : t.pushed ≡ s.pushed

pub refl_Unsold : (s : Shop) → Unsold s s
refl_Unsold s = record {
  licenses = refl;
  packages = refl;
  processed = refl;
  activations = refl;
  outbox = refl;
  pushed = refl;
}

pub fail-Unsold : (s : Shop) (p : Payment) (o : Order) → Unsold s (fail s p o).0
fail-Unsold s p o = record {
  licenses = refl;
  packages = refl;
  processed = refl;
  activations = refl;
  outbox = refl;
  pushed = refl;
}

pub caught-Unsold : (s : Shop) (p : Payment) (o : Order) (e : Error) → Unsold s (caught s p o e).0
unfolding caught
caught-Unsold s p o bad_request = fail-Unsold s p o
caught-Unsold s p o not_found = fail-Unsold s p o
caught-Unsold s p o _ = refl_Unsold s

pub with_customer-Unsold : (call : Call) (s : Shop) (o : Order) → Unsold s (with_customer call s o)
with_customer-Unsold call s o = record {
  licenses = (upsert_customer-licenses s.store call.customer_row o).0;
  packages = (upsert_customer-licenses s.store call.customer_row o).1;
  processed = refl;
  activations = refl;
  outbox = refl;
  pushed = refl;
}

pub trans_Unsold : {s t u : Shop} → Unsold s t → Unsold t u → Unsold s u
trans_Unsold f g = record {
  licenses = g.licenses ∙ f.licenses;
  packages = g.packages ∙ f.packages;
  processed = g.processed ∙ f.processed;
  activations = g.activations ∙ f.activations;
  outbox = g.outbox ∙ f.outbox;
  pushed = g.pushed ∙ f.pushed;
}

-- The buyer's customer row, found or added.
abbrev pub buyer : Call → Shop → Order → Customer
buyer call s o = (upsert_customer s.store call.customer_row o).1

-- A sale of an order, with the shop and the outcome that it leaves.
pub record Sold (call : Call) (s : Shop) (p : Payment) (o : Order) (r : Shop × Result Outcome)
    : Type 0 where
  pub license : License
  pub sold : Shop
  pub committed : Committed call (with_customer call s o) p (buyer call s o) o sold license
  pub shop : r.0 ≡ announce call sold o license
  pub outcome : r.1 ≡ ok (record { order = some (fulfilled_order p o license); retry = false })

finished-cases :
    (call : Call) (s : Shop) (p : Payment) (o : Order) (r : Result (Shop × License))
    → Ensures
        (λ (q : Shop × License).
          Committed call (with_customer call s o) p (buyer call s o) o q.0 q.1)
        r
    → Sold call s p o (finished call (with_customer call s o) p o r)
      ⊎ Unsold s (finished call (with_customer call s o) p o r).0
finished-cases call s p o (ok (t, l)) h =
    inl record { license = l; sold = t; committed = of_ok h refl; shop = refl; outcome = refl }
finished-cases call s p o (err e) h =
    inr
      (trans_Unsold (with_customer-Unsold call s o) (caught-Unsold (with_customer call s o) p o e))

pub mint-cases :
    (call : Call) (s : Shop) (p : Payment) (o : Order)
    → Sold call s p o (mint call s p o) ⊎ Unsold s (mint call s p o).0
unfolding mint
mint-cases call s p o = finished-cases call s p o _ (transact-Ensures call _ p _ o)

judge_order-payable :
    (s : Shop) (p : Payment) (o x : Order)
    → judge_order s p o ≡ payable x
    → (o ≡ x) × ((is_processed s.processed p.event_id ≡ false) × (amount_matches p o ≡ true))
unfolding judge_order
judge_order-payable s p o x h = elim (Bool-cases (is_sold o)) [
  | inl e ↦ absurd (settled_not_payable (rw e at h))
  | inr e ↦ elim (Bool-cases (is_processed s.processed p.event_id)) [
    | inl f ↦ absurd (settled_not_payable (rw (e, f) at h))
    | inr f ↦ elim (Bool-cases (amount_matches p o)) [
      | inl g ↦ (payable_eq (rw (e, f, g) at h), (f, g))
      | inr g ↦ absurd (mismatched_not_payable (rw (e, f, g) at h))
    ]
  ]
]
  where
    settled_not_payable : {a : Option Order} → settled a ≢ payable x
    settled_not_payable h = cc

    mismatched_not_payable : {a : Order} → mismatched a ≢ payable x
    mismatched_not_payable h = cc

    payable_eq : {a : Order} → payable a ≡ payable x → a ≡ x
    payable_eq h = cc

judged-payable :
    (s : Shop) (p : Payment) (found : Option Order) (x : Order)
    → judged s p found ≡ payable x
    → (found ≡ some x)
      × ((is_processed s.processed p.event_id ≡ false) × (amount_matches p x ≡ true))
judged-payable s p none x h = cc
judged-payable s p (some o) x h =
    let (same, (fresh, matches)) = judge_order-payable s p o x h in
    (ap some same, (fresh, ap (amount_matches p) (sym same) ∙ matches))

-- What the tests have found when they let an order through.
pub judge-payable :
    (s : Shop) (p : Payment) (x : Order)
    → judge s p ≡ payable x
    → (order_of s.orders p ≡ some x)
      × ((is_processed s.processed p.event_id ≡ false) × (amount_matches p x ≡ true))
unfolding judge
judge-payable s p x h = judged-payable s p (order_of s.orders p) x h

-- Whatever the tests decided, on these tables or earlier ones.
pub settle-cases :
    (call : Call) (s : Shop) (p : Payment) (v : Verdict)
    → ((o : Order) × ((v ≡ payable o) × Sold call s p o (settle call s p v)))
      ⊎ Unsold s (settle call s p v).0
settle-cases call s p not_ready = inr (refl_Unsold s)
settle-cases call s p (settled o) = inr (refl_Unsold s)
settle-cases call s p (mismatched o) = inr (fail-Unsold s p o)
settle-cases call s p (payable o) = elim (mint-cases call s p o) [
  | inr u ↦ inr u
  | inl sold ↦ inl (o, (refl, sold))
]

-- A sale of the order that a payment names.
pub record Sale (call : Call) (s : Shop) (p : Payment) (r : Shop × Result Outcome) : Type 0 where
  pub order : Order
  pub found : order_of s.orders p ≡ some order
  pub paid : Paid p order
  pub sold : Sold call s p order r

pub fulfil-cases :
    (call : Call) (s : Shop) (p : Payment)
    → Sale call s p (fulfill_from_event call s p) ⊎ Unsold s (fulfill_from_event call s p).0
unfolding fulfill_from_event
fulfil-cases call s p = elim (settle-cases call s p (judge s p)) [
  | inr u ↦ inr u
  | inl (o, (passed, sold)) ↦
      let (found, (_, matches)) = judge-payable s p o passed in
      inl record { order = o; found = found; paid = amount_matches-Paid p o matches; sold = sold }
]

-- A call that changes the licences has sold the order that the payment names: the amount paid is the
-- order's price, in its currency where the payment names one, the event was not in the ledger, and the
-- licence that is minted and linked to the order is that of the terms which the order has kept. (A
-- payment that names no currency is accepted unchecked.)
pub fulfil_sells_paid :
    (call : Call) (s : Shop) (p : Payment)
    → (fulfill_from_event call s p).0.store.licenses ≢ s.store.licenses
    → Sale call s p (fulfill_from_event call s p)
fulfil_sells_paid call s p changed = elim (fulfil-cases call s p) [
  | inl sale ↦ sale
  | inr u ↦ absurd (changed u.licenses)
]
