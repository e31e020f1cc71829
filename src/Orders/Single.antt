-- ===== src/Orders/Single.antt =====
-- The success page of src/billing/order.service.ts hands out the key of an order once.
use open_editor_text_backend.Base.{
  Option, none, some, false, ℕ, zero, suc, ◌≤◌, ◌+◌, true, List, ◌∷◌, ◌++◌, Text, text_eq, text_beq,
  ◌≡◌, ok, count,
}
use open_editor_text_backend.Licenses.{License}
use open_editor_text_backend.Orders.{
  Order, Shop, Drawn, CheckoutInput, prepare_order, attach_session,
}
use open_editor_text_backend.Orders.Fulfil.{
  Payment, Call, Verdict, judge, settle, fulfill_from_event,
}
use open_editor_text_backend.Orders.Keys.{read_session, ready, claim_delivery, is_claimable}
use open_editor_text_backend.Orders.Rows.{rows_with}
use open_editor_text_backend.Orders.Writes.{names}

-- The tables, the orders that the reads of the success page in flight found, the ids of the orders
-- whose key was handed out, the deliveries that have read their order and not yet written, and the ids
-- of the orders that such deliveries wrote.
pub record Page : Type 0 where
  pub shop : Shop
  pub reads : List (Order × License)
  pub given : List Text
  pub in_flight : List (Payment × Verdict)
  pub late : List Text

abbrev pub give : Order → ℕ → List Text → List Text
give o zero ids = ids
give o (suc n) ids = o.id ∷ ids

abbrev pub noted : Option Order → List Text → List Text
noted none ids = ids
noted (some o) ids = o.id ∷ ids

abbrev pub times : Text → List Text → ℕ
times id ids = count (λ x. text_beq x id) ids

-- One call, where the read and the update of a retrieval are apart. A delivery goes through with nothing
-- in between (`fulfilling`), or saves later the order that it read before (`judging`, `settling`). The
-- database draws a new id for an order.
pub data Visit : Page → Page → Type 0 where
  preparing :
      {w : Page} (drawn : Drawn) (input : CheckoutInput) (s : Shop) (o : Order)
      → rows_with drawn.order_id w.shop.orders ≡ 0
      → prepare_order drawn w.shop input ≡ ok (s, o)
      → Visit w (record w { shop = s })
  attaching :
      {w : Page} (id session : Text) (s : Shop)
      → attach_session w.shop id session ≡ ok s
      → Visit w (record w { shop = s })
  fulfilling :
      {w : Page} (call : Call) (p : Payment)
      → Visit w (record w { shop = (fulfill_from_event call w.shop p).0 })
  judging :
      {w : Page} (p : Payment)
      → Visit w (record w { in_flight = (p, judge w.shop p) ∷ w.in_flight })
  settling :
      {w : Page} (call : Call) (p : Payment) (v : Verdict) (sooner later : List (Payment × Verdict))
      → w.in_flight ≡ sooner ++ ((p, v) ∷ later)
      → Visit w (record w {
        shop = (settle call w.shop p v).0;
        in_flight = sooner ++ later;
        late = noted (names v) w.late;
      })
  reading :
      {w : Page} (session : Text) (o : Order) (l : License)
      → read_session w.shop session ≡ ready o l
      → Visit w (record w { reads = (o, l) ∷ w.reads })
  claiming :
      {w : Page} (o : Order) (l : License) (sooner later : List (Order × License))
      → w.reads ≡ sooner ++ ((o, l) ∷ later)
      → Visit w (record w {
        shop = record w.shop { orders = (claim_delivery w.shop.orders o.id).0 };
        reads = sooner ++ later;
        given = give o (claim_delivery w.shop.orders o.id).1 w.given;
      })

pub data Visits : Page → Page → Type 0 where
  begin : {w : Page} → Visits w w
  next : {u v w : Page} → Visits u v → Visit v w → Visits u w

-- An id is drawn once, and the key of its order was handed out only if it is marked so, or a late
-- write has taken the mark off.
pub record Fair (w : Page) (id : Text) : Type 0 where
  pub one : rows_with id w.shop.orders ≤ 1
  pub spare :
      times id w.given + count (is_claimable id) w.shop.orders
      ≤ rows_with id w.shop.orders + times id w.late

abbrev marked : Order → Order
marked o = record o { license_delivered = true }

-- What a write by id leaves of the rows of an id.
record Late (id : Text) (orders : List Order) (x : Order) (after : List Order) : Type 0 where
  pub rows : rows_with id after ≡ rows_with id orders
  pub others :
      text_beq x.id id ≡ false → count (is_claimable id) after ≡ count (is_claimable id) orders
