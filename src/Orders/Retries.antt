-- ===== src/Orders/Retries.antt =====
-- What a failed delivery of src/billing/order.service.ts leaves, and that a later one succeeds.
use open_editor_text_backend.Base.{
  true, false, List, Option, none, some, Text, text_eq, ◌≡◌, refl, ap, sym, ◌∙◌, arith, Result, ok,
  err, Error, ◌>>=◌, bad_request, not_found, conflict, failure, subst,
}
use open_editor_text_backend.Licenses.{License, Store}
use open_editor_text_backend.Licenses.Issue.{issue_from_snapshot}
use open_editor_text_backend.Orders.{Order, Shop}
use open_editor_text_backend.Orders.Fulfil.{
  Payment, Call, Verdict, not_ready, settled, mismatched, payable, order_of, unjoined, row_of,
  is_sold, is_processed, amount_matches, judge_order, judge, judged, snapshot_of, fulfilled_order,
  sold_shop, transact, announce, caught, finished, with_customer, mint, settle, fulfill_from_event,
}
use open_editor_text_backend.Orders.Minting.{Unsold, with_customer-Unsold, buyer, judge-payable}

-- The tables as a call that throws leaves them: only a customer may have been added.
pub record Clean (s t : Shop) : Type 0 where
  pub orders : t.orders ≡ s.orders
  pub unsold : Unsold s t

caught-Clean :
    (s : Shop) (p : Payment) (o : Order) (e problem : Error)
    → (caught s p o e).1 ≡ err problem
    → (caught s p o e).0 ≡ s
unfolding caught
caught-Clean s p o bad_request problem h = cc
caught-Clean s p o not_found problem h = cc
caught-Clean s p o conflict problem h = cc
caught-Clean s p o failure problem h = cc
caught-Clean s p o _ problem h = refl

finished-Clean :
    (call : Call) (s t : Shop) (p : Payment) (o : Order) (r : Result (Shop × License))
    (problem : Error)
    → Clean s t
    → (finished call t p o r).1 ≡ err problem
    → Clean s (finished call t p o r).0
finished-Clean call s t p o (ok q) problem k h = cc
finished-Clean call s t p o (err e) problem k h =
    subst (Clean s) (sym (caught-Clean t p o e problem h)) k

mint-Clean :
    (call : Call) (s : Shop) (p : Payment) (o : Order) (problem : Error)
    → (mint call s p o).1 ≡ err problem
    → Clean s (mint call s p o).0
unfolding mint
mint-Clean call s p o problem h =
    finished-Clean call s (with_customer call s o) p o _ problem
      (record { orders = refl; unsold = with_customer-Unsold call s o }) h

settle-Clean :
    (call : Call) (s : Shop) (p : Payment) (v : Verdict) (problem : Error)
    → (settle call s p v).1 ≡ err problem
    → Clean s (settle call s p v).0
settle-Clean call s p not_ready problem h = cc
settle-Clean call s p (settled o) problem h = cc
settle-Clean call s p (mismatched o) problem h = cc
settle-Clean call s p (payable o) problem h = mint-Clean call s p o problem h

-- A delivery that throws leaves the orders, the licences, the ledger, the activations and what was
-- emailed and published as they were.
pub fulfil_throws-Clean :
    (call : Call) (s : Shop) (p : Payment) (problem : Error)
    → (fulfill_from_event call s p).1 ≡ err problem
    → Clean s (fulfill_from_event call s p).0
unfolding fulfill_from_event
fulfil_throws-Clean call s p problem h = settle-Clean call s p (judge s p) problem h

judge_order-passes :
    (s : Shop) (p : Payment) (o : Order)
    → is_sold o ≡ false
    → is_processed s.processed p.event_id ≡ false
    → amount_matches p o ≡ true
    → judge_order s p o ≡ payable o
unfolding judge_order
judge_order-passes s p o sold fresh matches = rw (sold, fresh, matches) refl

license_in : Option Order → Option Text
license_in none = none
license_in (some o) = o.license

unjoined-license : (found : Option Order) (o : Order) → unjoined found ≡ some o → o.license ≡ none
unfolding license_in
unjoined-license none o h = cc
unjoined-license (some r) o h = ap license_in (sym h)

-- The order in memory has no licence, so the test for one never succeeds.
pub order_of-unsold :
    (orders : List Order) (p : Payment) (o : Order) → order_of orders p ≡ some o → is_sold o ≡ false
unfolding order_of
order_of-unsold orders p o h = rw (unjoined-license (row_of orders p) o h) (ground arith)

judge-passes :
    (s : Shop) (p : Payment) (o : Order)
    → order_of s.orders p ≡ some o
    → is_processed s.processed p.event_id ≡ false
    → amount_matches p o ≡ true
    → judge s p ≡ payable o
unfolding judge
judge-passes s p o found fresh matches =
    ap (judged s p) found
    ∙ judge_order-passes s p o (order_of-unsold s.orders p o found) fresh matches

-- Where a mint can go through: what it needs besides a payment that fits.
pub record Mintable (call : Call) (s : Shop) (p : Payment) (o : Order) (l : License) : Type 0 where
  pub found : order_of s.orders p ≡ some o
  pub fresh : is_processed s.processed p.event_id ≡ false
  pub matches : amount_matches p o ≡ true
  pub store : Store
  pub issues :
      issue_from_snapshot call.env
        (with_customer call s o).store
        (snapshot_of (with_customer call s o).store (buyer call s o) o)
      ≡ ok (store, l)
  pub committed : call.commits ≡ true

transact-succeeds :
    (call : Call) (s : Shop) (p : Payment) (c : _) (o : Order) (store : Store) (l : License)
    → is_processed s.processed p.event_id ≡ false
    → issue_from_snapshot call.env s.store (snapshot_of s.store c o) ≡ ok (store, l)
    → call.commits ≡ true
    → transact call s p c o ≡ ok (sold_shop s p o store l, l)
unfolding transact ◌>>=◌
transact-succeeds call s p c o store l fresh issues commits = rw (fresh, issues, commits) refl

mint-sells :
    (call : Call) (s : Shop) (p : Payment) (o : Order) (l : License)
    → (m : Mintable call s p o l)
    → mint call s p o ≡ (
      announce call (sold_shop (with_customer call s o) p o m.store l) o l,
      ok (record { order = some (fulfilled_order p o l); retry = false }),
    )
unfolding mint
mint-sells call s p o l m = ap (finished call (with_customer call s o) p o) (
    transact-succeeds call (with_customer call s o) p (buyer call s o) o m.store l m.fresh m.issues
      m.committed)

-- A payment that fits the order it names is answered with that order fulfilled and linked to the
-- licence that is minted, when its event is not in the ledger, the licence service issues from the
-- order's terms and the database commits. It is so whatever the status of the order: an order that
-- is fulfilled already is sold again under another event.
pub fulfil_sells :
    (call : Call) (s : Shop) (p : Payment) (o : Order) (l : License)
    → (m : Mintable call s p o l)
    → fulfill_from_event call s p ≡ (
      announce call (sold_shop (with_customer call s o) p o m.store l) o l,
      ok (record { order = some (fulfilled_order p o l); retry = false }),
    )
unfolding fulfill_from_event
fulfil_sells call s p o l m =
    ap (settle call s p) (judge-passes s p o m.found m.fresh m.matches) ∙ mint-sells call s p o l m

settle-throws :
    (call : Call) (s : Shop) (p : Payment) (v : Verdict) (problem : Error)
    → (settle call s p v).1 ≡ err problem
    → (o : Order) × (v ≡ payable o)
settle-throws call s p not_ready problem h = cc
settle-throws call s p (settled o) problem h = cc
settle-throws call s p (mismatched o) problem h = cc
settle-throws call s p (payable o) problem h = (o, refl)

throws-payable :
    (call : Call) (s : Shop) (p : Payment) (problem : Error)
    → (fulfill_from_event call s p).1 ≡ err problem
    → (o : Order) × (judge s p ≡ payable o)
unfolding fulfill_from_event
throws-payable call s p problem h = settle-throws call s p (judge s p) problem h

-- The tables as a call leaves them, and those that a later call mints from.
abbrev pub left_by : Call → Shop → Payment → Shop
left_by call s p = (fulfill_from_event call s p).0

abbrev pub mint_store : Call → Shop → Order → Store
mint_store call s o = (with_customer call s o).store

-- After a delivery that throws, a delivery of the same payment is answered with its order fulfilled,
-- when the licence service then issues from the order's terms and the database commits.
pub retry_sells :
    (first later : Call) (s : Shop) (p : Payment) (problem : Error) (o : Order) (l : License)
    → (fulfill_from_event first s p).1 ≡ err problem
    → order_of s.orders p ≡ some o
    → (store : Store)
    → issue_from_snapshot later.env
        (mint_store later (left_by first s p) o)
        (snapshot_of (mint_store later (left_by first s p) o) (buyer later (left_by first s p) o) o)
      ≡ ok (store, l)
    → later.commits ≡ true
    → (fulfill_from_event later (left_by first s p) p).1
      ≡ ok (record { order = some (fulfilled_order p o l); retry = false })
retry_sells first later s p problem o l h found store issues commits =
    let (x, passed) = throws-payable first s p problem h in
    let (seen, (fresh, matches)) = judge-payable s p x passed in
    let clean = fulfil_throws-Clean first s p problem h in
    ap (λ r. r.1)
      (fulfil_sells later (left_by first s p) p o l (record {
        found = ap (λ os. order_of os p) clean.orders ∙ found;
        fresh = ap (λ es. is_processed es p.event_id) clean.unsold.processed ∙ fresh;
        matches = ap (amount_matches p) (some_eq x o (sym seen ∙ found)) ∙ matches;
        store = store;
        issues = issues;
        committed = commits;
      }))
  where
    some_eq : (a b : Order) → some a ≡ some b → b ≡ a
    some_eq a b k = cc
