-- ===== src/Orders/Ledger.antt =====
-- One licence for each event, however the deliveries of src/billing/order.service.ts interleave.
use open_editor_text_backend.Base.{
  suc, ◌≤◌, false, List, [], ◌∷◌, ◌++◌, Text, text_eq, text_beq_iff, ◌≡◌, inl, inr, refl, arith,
  Result, ok, of_ok, length, includes, Distinct,
}
use open_editor_text_backend.Licenses.{License, Customer, put}
use open_editor_text_backend.Orders.{
  Order, ProcessedEvent, Shop, Drawn, CheckoutInput, prepare_order, attach_session,
}
use open_editor_text_backend.Orders.Fulfil.{
  Payment, Outcome, Call, Verdict, judge, settle, is_processed, announce,
}
use open_editor_text_backend.Orders.Placing.{prepare_order-Ensures, attach_session-Ensures}
use open_editor_text_backend.Orders.Minting.{with_customer-Unsold, Committed, Sold, settle-cases}

abbrev pub event_ids : List ProcessedEvent → List Text
event_ids [] = []
event_ids (e ∷ es) = e.event_id ∷ event_ids es

-- The tables, and the deliveries that have made their tests and not yet written.
pub record Counter : Type 0 where
  pub shop : Shop
  pub in_flight : List (Payment × Verdict)

-- One access of one call. A delivery settles what it decided on the tables as they were.
pub data Move : Counter → Counter → Type 0 where
  judging :
      {w : Counter} (p : Payment)
      → Move w (record w { in_flight = (p, judge w.shop p) ∷ w.in_flight })
  settling :
      {w : Counter} (call : Call) (p : Payment) (v : Verdict)
      (sooner later : List (Payment × Verdict))
      → w.in_flight ≡ sooner ++ ((p, v) ∷ later)
      → Move w (record { shop = (settle call w.shop p v).0; in_flight = sooner ++ later })
  preparing :
      {w : Counter} (drawn : Drawn) (input : CheckoutInput) (s : Shop) (o : Order)
      → prepare_order drawn w.shop input ≡ ok (s, o)
      → Move w (record w { shop = s })
  attaching :
      {w : Counter} (id session : Text) (s : Shop)
      → attach_session w.shop id session ≡ ok s
      → Move w (record w { shop = s })

pub data Moves : Counter → Counter → Type 0 where
  begin : {w : Counter} → Moves w w
  next : {u v w : Counter} → Moves u v → Move v w → Moves u w

-- No event stands twice in the ledger, and there are no more licences than events in it.
pub record Balanced (s : Shop) : Type 0 where
  pub once : Distinct (event_ids s.processed)
  pub covered : length s.store.licenses ≤ length s.processed

length-put : (ls : List License) (l : License) → length (put ls l) ≤ suc (length ls)
unfolding put
length-put [] l = omega arith
length-put (m ∷ ms) l = ground (arith, length-put ms l)

is_processed-includes :
    (es : List ProcessedEvent) (id : Text)
    → is_processed es id ≡ false
    → includes id (event_ids es) ≡ false
unfolding includes
is_processed-includes [] id h = refl
is_processed-includes (e ∷ es) id h =
    ground
      (arith, is_processed-includes es id, text_beq_iff e.event_id id, text_beq_iff id e.event_id)

Committed-Balanced :
    {call : Call} {s t : Shop} {p : Payment} {o : Order} {l : License}
    → (c : Customer) → Committed call s p c o t l
    → Balanced s
    → Balanced t
Committed-Balanced {s} {t} {p} {l} c k b = record {
  once = rw k.shop (is_processed-includes s.processed p.event_id k.new_event, b.once);
  covered =
      let grown = length-put s.store.licenses l in
      rw (k.shop, k.minted.wrote.licenses) (omega (arith, grown, b.covered));
}

announce-Balanced :
    (call : Call) (s : Shop) (o : Order) (l : License) → Balanced s → Balanced (announce call s o l)
unfolding announce
announce-Balanced call s o l b = record { once = b.once; covered = b.covered }

same-Balanced :
    {s t : Shop}
    → t.store.licenses ≡ s.store.licenses
    → t.processed ≡ s.processed
    → Balanced s
    → Balanced t
same-Balanced same ledger b = record {
  once = rw ledger b.once;
  covered = rw (same, ledger) b.covered;
}

pub Sold-Balanced :
    {call : Call} {s : Shop} {p : Payment} {o : Order} {r : Shop × Result Outcome}
    → Sold call s p o r
    → Balanced s
    → Balanced r.0
Sold-Balanced {call} {s} {o} {r} k b =
    let u = with_customer-Unsold call s o in
    let start = same-Balanced u.licenses u.processed b in
    let done = announce-Balanced call k.sold o k.license (Committed-Balanced _ k.committed start) in
    rw k.shop done

Move-Balanced : {v w : Counter} → Move v w → Balanced v.shop → Balanced w.shop
Move-Balanced (judging p) b = b
Move-Balanced {v} (settling call p verdict sooner later e) b =
    elim (settle-cases call v.shop p verdict) [
      | inl (o, (_, sold)) ↦ Sold-Balanced sold b
      | inr u ↦ same-Balanced u.licenses u.processed b
    ]
Move-Balanced {v} (preparing drawn input s o e) b =
    let placed = of_ok (prepare_order-Ensures drawn v.shop input) e in
    same-Balanced placed.licenses placed.processed b
Move-Balanced {v} (attaching id session s e) b =
    let kept = of_ok (attach_session-Ensures v.shop id session) e in
    same-Balanced kept.licenses kept.processed b

-- However the tests and the transactions of deliveries interleave with each other and with new
-- orders, from tables in which no event is twice and the licences are no more than the events: no
-- event is ever twice in the ledger, and there are never more licences than events.
pub Moves-Balanced : {v w : Counter} → Moves v w → Balanced v.shop → Balanced w.shop
Moves-Balanced begin b = b
Moves-Balanced (next past last) b = Move-Balanced last (Moves-Balanced past b)
