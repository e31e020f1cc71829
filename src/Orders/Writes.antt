-- ===== src/Orders/Writes.antt =====
-- Which orders a delivery of src/billing/order.service.ts writes.
use open_editor_text_backend.Base.{
  ℕ, ◌≤◌, ◌+◌, Bool, List, Option, none, some, Text, text_eq, text_beq, is_empty, ◌≡◌, ◌≢◌, ◌⊎◌,
  inl, inr, refl, ap, sym, ◌∙◌, arith, Bool-cases, Option-cases, subst, Result, ok, err, Error,
  Ensures, of_ok, bad_request, not_found, find, count, update,
}
use open_editor_text_backend.Licenses.{License, Customer}
use open_editor_text_backend.Orders.Minting.{Committed, transact-Ensures, buyer}
use open_editor_text_backend.Orders.{Order, Shop, save_order, find_by_session, written_over}
use open_editor_text_backend.Orders.Fulfil.{
  Payment, Call, Verdict, not_ready, settled, mismatched, payable, judge, judge_order, judged,
  settle, is_sold, is_processed, amount_matches, caught, announce, finished, with_customer, mint,
  unjoined, fulfill_from_event, order_of, failed_order, fulfilled_order,
}
use open_editor_text_backend.Orders.Keys.{is_claimable}
use open_editor_text_backend.Orders.Rows.{bit, rows_with, count-found}

-- The orders that a call leaves when it may save one that it has in memory.
pub data OrderWrite (orders : List Order) (x : Order) : List Order → Type 0 where
  kept : OrderWrite orders x orders
  saved :
      (m : Order)
      → m.id ≡ x.id
      → m.license_delivered ≡ x.license_delivered
      → OrderWrite orders x (save_order orders m)

caught-OrderWrite :
    (s : Shop) (p : Payment) (o : Order) (e : Error)
    → OrderWrite s.orders o (caught s p o e).0.orders
unfolding caught
caught-OrderWrite s p o bad_request = saved (failed_order p o) refl refl
caught-OrderWrite s p o not_found = saved (failed_order p o) refl refl
caught-OrderWrite s p o _ = kept

announce-orders :
    (call : Call) (s : Shop) (o : Order) (l : License) → (announce call s o l).orders ≡ s.orders
unfolding announce
announce-orders call s o l = refl

finished-OrderWrite :
    (call : Call) (s : Shop) (p : Payment) (c : Customer) (o : Order) (r : Result (Shop × License))
    → Ensures (λ (q : Shop × License). Committed call s p c o q.0 q.1) r
    → OrderWrite s.orders o (finished call s p o r).0.orders
finished-OrderWrite call s p c o (err e) h = caught-OrderWrite s p o e
finished-OrderWrite call s p c o (ok (t, l)) h =
    let k = of_ok h refl in
    subst (OrderWrite s.orders o) (sym (announce-orders call t o l ∙ ap (λ u. u.orders) k.shop))
      (saved (fulfilled_order p o l) refl refl)

mint-OrderWrite :
    (call : Call) (s : Shop) (p : Payment) (o : Order)
    → OrderWrite s.orders o (mint call s p o).0.orders
unfolding mint
mint-OrderWrite call s p o =
    finished-OrderWrite call (with_customer call s o) p (buyer call s o) o _
      (transact-Ensures call (with_customer call s o) p (buyer call s o) o)

-- The order that a verdict lets the call write.
abbrev pub names : Verdict → Option Order
names not_ready = none
names (settled o) = none
names (mismatched o) = some o
names (payable o) = some o

pub settle-OrderWrite :
    (call : Call) (s : Shop) (p : Payment) (v : Verdict)
    → ((settle call s p v).0.orders ≡ s.orders)
      ⊎ ((x : Order) × ((names v ≡ some x) × OrderWrite s.orders x (settle call s p v).0.orders))
settle-OrderWrite call s p not_ready = inl refl
settle-OrderWrite call s p (settled o) = inl refl
settle-OrderWrite call s p (mismatched o) = inr (o, (refl, saved (failed_order p o) refl refl))
settle-OrderWrite call s p (payable o) = inr (o, (refl, mint-OrderWrite call s p o))

judge_order-names :
    (s : Shop) (p : Payment) (o x : Order) → names (judge_order s p o) ≡ some x → some o ≡ some x
unfolding judge_order
judge_order-names s p o x h = elim (Bool-cases (is_sold o)) [
  | inl e ↦ absurd (none_some (rw e at h))
  | inr e ↦ elim (Bool-cases (is_processed s.processed p.event_id)) [
    | inl f ↦ absurd (none_some (rw (e, f) at h))
    | inr f ↦ elim (Bool-cases (amount_matches p o)) [
      | inl g ↦ rw (e, f, g) at h
      | inr g ↦ rw (e, f, g) at h
    ]
  ]
]
  where
    none_some : none ≢ some x
    none_some k = cc

judged-names :
    (s : Shop) (p : Payment) (found : Option Order) (x : Order)
    → names (judged s p found) ≡ some x
    → found ≡ some x
judged-names s p none x h = cc
judged-names s p (some o) x h = judge_order-names s p o x h

-- What the object in memory shares with the row that was found.
record Row (orders : List Order) (x : Order) : Type 0 where
  pub row : Order
  pub test : Order → Bool
  pub found : find test orders ≡ some row
  pub same_id : x.id ≡ row.id
  pub same_mark : x.license_delivered ≡ row.license_delivered

unjoined-Row :
    (orders : List Order) (test : Order → Bool) (x : Order)
    → unjoined (find test orders) ≡ some x
    → Row orders x
unjoined-Row orders test x h = elim (Option-cases (find test orders)) [
  | inl e ↦ absurd (none_some (rw e at h))
  | inr (r, e) ↦ record {
    row = r;
    test = test;
    found = e;
    same_id = sym (ap (λ o. o.id) (some_eq r (rw e at h)));
    same_mark = sym (ap (λ o. o.license_delivered) (some_eq r (rw e at h)));
  }
]
  where
    none_some : none ≢ some x
    none_some k = cc

    some_eq :
        (r : Order) → some (record r { license = none }) ≡ some x → record r { license = none } ≡ x
    some_eq r k = cc

order_of-Row :
    (orders : List Order) (p : Payment) (x : Order) → order_of orders p ≡ some x → Row orders x
unfolding order_of find_by_session
order_of-Row orders p x h = elim (Bool-cases (is_empty p.order_id)) [
  | inl e ↦ unjoined-Row orders _ x (rw e at h)
  | inr e ↦ unjoined-Row orders _ x (rw e at h)
]

-- How many rows of an id there are, and how many of them could still be claimed.
pub record Same (id : Text) (orders others : List Order) : Type 0 where
  pub rows : rows_with id others ≡ rows_with id orders
  pub claimable : count (is_claimable id) others ≡ count (is_claimable id) orders

save_order-Same :
    (id : Text) (orders : List Order) (m : Order)
    → (r : Row orders m) → rows_with r.row.id orders ≤ 1
    → Same id orders (save_order orders m)
unfolding save_order
save_order-Same id orders m r one =
    let as_row : (λ (o : Order). text_beq o.id m.id) ≡ (λ o. text_beq o.id r.row.id) =
      ap (λ x. λ o. text_beq o.id x) r.same_id in
    let moved =
      λ (p : Order → Bool). count-found p r.test (written_over m) orders r.row r.found one in
    record {
      rows =
          ap (λ q. rows_with id (update q (written_over m) orders)) as_row
          ∙ cancel _ _ _ _ (moved (λ o. text_beq o.id id))
              (ap (λ x. bit (text_beq x id)) (sym r.same_id));
      claimable =
          ap (λ q. count (is_claimable id) (update q (written_over m) orders)) as_row
          ∙ cancel _ _ _ _ (moved (is_claimable id)) (rw (r.same_id, r.same_mark) refl);
    }
  where
    cancel : (a b c d : ℕ) → a + b ≡ c + d → b ≡ d → a ≡ c
    cancel a b c d h e = omega arith

OrderWrite-Same :
    (id : Text) (orders others : List Order) (x : Order)
    → Row orders x
    → OrderWrite orders x others
    → ((y : Text) → rows_with y orders ≤ 1)
    → Same id orders others
OrderWrite-Same id orders _ x r kept one = record { rows = refl; claimable = refl }
OrderWrite-Same id orders _ x r (saved m same mark) one =
    save_order-Same id orders m
      (record {
        row = r.row;
        test = r.test;
        found = r.found;
        same_id = same ∙ r.same_id;
        same_mark = mark ∙ r.same_mark;
      })
      (one r.row.id)

-- A delivery writes no other row than that of the order it found, and leaves its mark alone.
pub fulfil-Same :
    (id : Text) (call : Call) (s : Shop) (p : Payment)
    → ((y : Text) → rows_with y s.orders ≤ 1)
    → Same id s.orders (fulfill_from_event call s p).0.orders
unfolding fulfill_from_event judge
fulfil-Same id call s p one = elim (settle-OrderWrite call s p (judge s p)) [
  | inl e ↦ rw e (record { rows = refl; claimable = refl })
  | inr (x, (named, w)) ↦
      OrderWrite-Same id s.orders _ x
        (order_of-Row s.orders p x (judged-names s p (order_of s.orders p) x named)) w one
]
