-- ===== src/Activations/Rows.antt =====
-- How many rows of an id the operations of src/delivery/license-activation.service.ts leave, and how
-- many of them unclaimed.
use open_editor_text_backend.Base.{
  ℕ, ◌≤◌, suc, Bool, false, List, [], ◌∷◌, ◌≡◌, inl, inr, refl, ap, sym, ◌∙◌, arith, Text, text_beq,
  text_beq_iff, text_eq, if◌then◌else◌, count, update, keep, Bool-cases,
}
use open_editor_text_backend.Activations.{Activation, is_open, rearmed, spent}

abbrev pub rows_with : Text → List Activation → ℕ
rows_with id rows = count (λ a. text_beq a.id id) rows

abbrev pub open_count : Text → List Activation → ℕ
open_count id rows = count (is_open id) rows

pub open-le : (id : Text) (rows : List Activation) → open_count id rows ≤ rows_with id rows
open-le id [] = omega arith
open-le id (a ∷ rows) = ground (arith, open-le id rows)

module _ (f : Activation → Activation) (same : (a : Activation) → (f a).id ≡ a.id)
    (p : Activation → Bool) where
  pub rows_with-update :
      (id : Text) (rows : List Activation) → rows_with id (update p f rows) ≡ rows_with id rows
  rows_with-update id [] = refl
  rows_with-update id (a ∷ rows) = ground (arith, rows_with-update id rows, same a)

pub open-rearmed_other :
    (lic : Text) (now : ℕ) (x id : Text) (rows : List Activation)
    → text_beq x id ≡ false
    → open_count id (update (λ r. text_beq r.id x) (rearmed lic now) rows) ≡ open_count id rows
open-rearmed_other lic now x id [] h = refl
open-rearmed_other lic now x id (a ∷ rows) h = ground (
  arith,
  open-rearmed_other lic now x id rows h,
  text_beq_iff a.id x,
  text_beq_iff a.id id,
  text_beq_iff x id,
)

-- A conditional update leaves no open row of its id, and the others as they were.
pub open-spent :
    (origin : Text) (now : ℕ) (x id : Text) (rows : List Activation)
    → open_count id (update (is_open x) (spent origin now) rows)
      ≡ (if text_beq x id then 0 else open_count id rows)
open-spent origin now x id [] = ground arith
open-spent origin now x id (a ∷ rows) = ground (
  arith,
  open-spent origin now x id rows,
  text_beq_iff a.id x,
  text_beq_iff a.id id,
  text_beq_iff x id,
)

pub rows_with-keep :
    (p : Activation → Bool) (id : Text) (rows : List Activation)
    → rows_with id (keep p rows) ≤ rows_with id rows
rows_with-keep p id [] = omega arith
rows_with-keep p id (a ∷ rows) = ground (arith, rows_with-keep p id rows)

pub open-keep :
    (p : Activation → Bool) (id : Text) (rows : List Activation)
    → open_count id (keep p rows) ≤ open_count id rows
open-keep p id [] = omega arith
open-keep p id (a ∷ rows) = ground (arith, open-keep p id rows)

rows_with-cons :
    (id : Text) (a : Activation) (rows : List Activation)
    → rows_with id (a ∷ rows)
      ≡ (if text_beq a.id id then suc (rows_with id rows) else rows_with id rows)
rows_with-cons id a rows = ground arith

pub new_row_one :
    (id : Text) (a : Activation) (rows : List Activation)
    → rows_with a.id rows ≡ 0
    → rows_with id rows ≤ 1
    → rows_with id (a ∷ rows) ≤ 1
new_row_one id a rows fresh h = elim (Bool-cases (text_beq a.id id)) [
  | inl e ↦
      let none_yet : rows_with id rows ≡ 0 =
        ap (λ x. rows_with x rows) (sym ((text_beq_iff a.id id).0 e)) ∙ fresh in
      let grown : rows_with id (a ∷ rows) ≡ suc (rows_with id rows) =
        rows_with-cons id a rows ∙ rw e in
      omega (arith, none_yet, grown)
  | inr e ↦ rw (rows_with-cons id a rows, e) h
]
