-- ===== src/Orders/Rows.antt =====
-- How many orders of a kind the writes of src/billing/order.service.ts leave.
use open_editor_text_backend.Base.{
  ℕ, ◌≤◌, ◌+◌, Bool, true, List, some, Text, text_eq, text_beq, ◌≡◌, find, count, update,
}
use open_editor_text_backend.Base.Keyed
pub use open_editor_text_backend.Base.Keyed.{bit}
use open_editor_text_backend.Orders.{Order}

abbrev pub rows_with : Text → List Order → ℕ
rows_with = Keyed.rows_with (λ o. o.id)

pub rows_with-update :
    (id : Text) (q : Order → Bool) (f : Order → Order)
    → ((o : Order) → q o ≡ true → text_beq (f o).id id ≡ text_beq o.id id)
    → (orders : List Order) → rows_with id (update q f orders) ≡ rows_with id orders
rows_with-update = Keyed.rows_with-update (λ o. o.id)

-- A row that was found and is updated by its id moves the number of rows that pass a test by its own.
pub count-found :
    (p q : Order → Bool) (f : Order → Order) (orders : List Order) (o : Order)
    → find q orders ≡ some o
    → rows_with o.id orders ≤ 1
    → count p (update (λ r. text_beq r.id o.id) f orders) + bit (p o)
      ≡ count p orders + bit (p (f o))
count-found = Keyed.count-found (λ o. o.id)
