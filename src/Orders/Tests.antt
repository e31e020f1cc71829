-- ===== src/Orders/Tests.antt =====
-- Runs of src/billing/order.service.ts, and its theorems at inputs.
use open_editor_text_backend.Base.{
  ℕ, Bool, List, nat_beq, nat_eq, trim, add, true, false, [], ◌∷◌, ◌++◌, some, text, text_eq,
  text_beq, ◌≡◌, ◌≢◌, refl, ap, arith, ok, err, unavailable, any, length,
}
use open_editor_text_backend.Licenses.{Store}
use open_editor_text_backend.Licenses.Issue.{issue_from_snapshot}
use open_editor_text_backend.Orders.{Order, fulfilled}
use open_editor_text_backend.Orders.Fulfil.{
  Call, order_of, amount_matches, fulfill_from_event, fulfilled_order, with_customer, snapshot_of,
}
use open_editor_text_backend.Orders.Minting.{Sale, fulfil_sells_paid, buyer}
use open_editor_text_backend.Orders.Pushed.{Told, sale_reaches_editor}
use open_editor_text_backend.Events
use open_editor_text_backend.Events.{admit, subscribe_found, subscribe}
use open_editor_text_backend.Events.Bounded.{subscribing, begin, next}
use open_editor_text_backend.Events.Stream.{streaming, open_stream}
use open_editor_text_backend.Orders.Retries.{
  Clean, fulfil_throws-Clean, Mintable, retry_sells, left_by, mint_store,
}
use open_editor_text_backend.Orders.Samples.{
  later_call, row_of_sale, run, pro, order, open_shop, call_of, payment, first_call, sold_once,
}

licences_after : length sold_once.store.licenses ≡ 1
unfolding run
licences_after = refl

sells_first : sold_once.store.licenses ≢ open_shop.store.licenses
sells_first h =
    let n = licences_after in
    let m : length sold_once.store.licenses ≡ 0 = ap (λ ls. length ls) h in omega (arith, n, m)

fulfil_sells_paid_example :
    Sale first_call open_shop
      (payment (text "e1"))
      (fulfill_from_event first_call open_shop (payment (text "e1")))
fulfil_sells_paid_example = fulfil_sells_paid first_call open_shop (payment (text "e1")) sells_first

-- The same event sells nothing more, but another event for the same order sells it again.
same_event :
    length
      (fulfill_from_event
        (call_of (text "r2") true)
        sold_once
        (payment (text "e1"))).0.store.licenses
    ≡ 1
unfolding run
same_event = refl

other_event :
    length
      (fulfill_from_event
        (call_of (text "r2") true)
        sold_once
        (payment (text "e2"))).0.store.licenses
    ≡ 2
unfolding run
other_event = refl

abbrev found_again : Order
found_again = record order { status = fulfilled; event_id = text "e1" }

again : order_of sold_once.orders (payment (text "e2")) ≡ some found_again
unfolding run
again = refl

abbrev sold_twice : Store
sold_twice = record sold_once.store {
  licenses = sold_once.store.licenses ++ row_of_sale (text "r2") ∷ [];
}

issues_again :
    issue_from_snapshot later_call.env (with_customer later_call sold_once found_again).store (
      snapshot_of
        (with_customer later_call sold_once found_again).store
        (buyer later_call sold_once found_again)
        found_again)
    ≡ ok (sold_twice, row_of_sale (text "r2"))
unfolding run
issues_again = refl

fits : amount_matches (payment (text "e2")) found_again ≡ true
unfolding run
fits = refl

unseen : any (λ e. text_beq e.event_id (text "e2")) sold_once.processed ≡ false
unfolding run
unseen = refl

abbrev sells_again :
    Mintable later_call sold_once (payment (text "e2")) found_again (row_of_sale (text "r2"))
sells_again = record {
  found = again;
  fresh = unseen;
  matches = fits;
  store = sold_twice;
  issues = issues_again;
  committed = refl;
}

abbrev broken_call : Call
broken_call = call_of (text "r0") false

throws_once : (fulfill_from_event broken_call open_shop (payment (text "e1"))).1 ≡ err unavailable
unfolding run
throws_once = refl

fulfil_throws-Clean_example :
    Clean open_shop (fulfill_from_event broken_call open_shop (payment (text "e1"))).0
fulfil_throws-Clean_example =
    fulfil_throws-Clean broken_call open_shop (payment (text "e1")) unavailable throws_once

finds : order_of open_shop.orders (payment (text "e1")) ≡ some order
unfolding run
finds = refl

abbrev retried : Store
retried = record {
  customers =
      record { id = text "c1"; name = text "Ann"; email = text "ann@b.c"; domains = [] } ∷ [];
  packages = pro ∷ [];
  licenses = row_of_sale (text "r1") ∷ [];
}

issues_later :
    issue_from_snapshot first_call.env
      (mint_store first_call (left_by broken_call open_shop (payment (text "e1"))) order)
      (snapshot_of
        (mint_store first_call (left_by broken_call open_shop (payment (text "e1"))) order)
        (buyer first_call (left_by broken_call open_shop (payment (text "e1"))) order)
        order)
    ≡ ok (retried, row_of_sale (text "r1"))
unfolding run
issues_later = refl

retry_sells_example :
    (fulfill_from_event first_call
      (left_by broken_call open_shop (payment (text "e1")))
      (payment (text "e1"))).1
    ≡ ok (record {
      order = some (fulfilled_order (payment (text "e1")) order (row_of_sale (text "r1")));
      retry = false;
    })
retry_sells_example =
    retry_sells broken_call first_call open_shop (payment (text "e1")) unavailable order
      (row_of_sale (text "r1")) throws_once finds retried issues_later refl

-- The browser holds a stream open, beside a connection that breaks.
abbrev waiting_tab : List Events.Channel
waiting_tab = (record { key = text "tab"; listeners = 4 ∷ [] }) ∷ []

opens_tab : open_stream [] [] found_again.install_id 4 ≡ (waiting_tab, streaming (text "tab"))
unfolding run text_beq trim add admit subscribe_found subscribe open_stream
opens_tab = refl

abbrev broken : ℕ → Events.Reason → Bool
broken listener reason = nat_beq listener 9

sale_reaches_editor_example :
    Told
      (fulfill_from_event later_call sold_once (payment (text "e2")))
      (payment (text "e2"))
      found_again
      (row_of_sale (text "r2"))
      broken
      (subscribe waiting_tab (text "tab") 9).0
      4
      (text "tab")
sale_reaches_editor_example =
    sale_reaches_editor later_call sold_once (payment (text "e2")) found_again
      (row_of_sale (text "r2")) sells_again [] 4 opens_tab (next begin (subscribing (text "tab") 9))
      (tt, tt) broken refl
