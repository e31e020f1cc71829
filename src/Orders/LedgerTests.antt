-- ===== src/Orders/LedgerTests.antt =====
-- Runs of the ledger of events and of the checkout of src/billing, and theorems at inputs.
use open_editor_text_backend.Base.{[], ◌∷◌, some, text, text_eq, ◌≡◌, refl, arith, length}
use open_editor_text_backend.Base.Int.{pos}
use open_editor_text_backend.Orders.Fulfil.{Verdict, judge, settle}
use open_editor_text_backend.Orders.Webhook.{checkout_request}
use open_editor_text_backend.Orders.Ledger.{
  Counter, Moves, judging, settling, Balanced, Moves-Balanced, next, begin,
}
use open_editor_text_backend.Orders.Samples.{later_call, run, order, open_shop, payment, first_call}

-- Two deliveries of one event that both judged the order before either settled.
abbrev start : Counter
start = record { shop = open_shop; in_flight = [] }

abbrev verdict : Verdict
verdict = judge open_shop (payment (text "e1"))

abbrev both_judged : Counter
both_judged = record start {
  in_flight = (payment (text "e1"), verdict) ∷ (payment (text "e1"), verdict) ∷ [];
}

abbrev one_settled : Counter
one_settled = record {
  shop = (settle first_call open_shop (payment (text "e1")) verdict).0;
  in_flight = (payment (text "e1"), verdict) ∷ [];
}

abbrev both_settled : Counter
both_settled = record {
  shop = (settle later_call one_settled.shop (payment (text "e1")) verdict).0;
  in_flight = [];
}

race : Moves start both_settled
race =
    next
      (next (next (next begin (judging (payment (text "e1")))) (judging (payment (text "e1")))) (
        settling first_call (payment (text "e1")) verdict [] ((payment (text "e1"), verdict) ∷ [])
          refl))
      (settling later_call (payment (text "e1")) verdict [] [] refl)

Moves-Balanced_example : Balanced both_settled.shop
Moves-Balanced_example = Moves-Balanced race (record { once = tt; covered = omega arith })

raced : length both_settled.shop.store.licenses ≡ 1
unfolding run
raced = refl

asked_amount : some (pos 900) ≡ some (checkout_request order).unit_amount
unfolding run
asked_amount = refl

asked_currency : text "usd" ≡ (checkout_request order).currency
unfolding run
asked_currency = refl
