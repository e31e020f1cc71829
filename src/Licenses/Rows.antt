-- ===== src/Licenses/Rows.antt =====
-- The tables of src/licensing/license.service.ts keep their ids and licence ids unique, and `save`
-- changes one row.
use open_editor_text_backend.Base.{
  true, false, ◌||◌, List, [], ◌∷◌, some, ◌≡◌, refl, ap, arith, Text, text_eq, text_beq,
  text_beq_iff, map, if◌then◌else◌, find, update, includes, includes-nil, Distinct, Ensures,
  returns, throws, Bool-cases, inl, inr,
}
use open_editor_text_backend.Licenses.{License, Store, find_license, taken, put, save}

abbrev pub ids : List License → List Text
ids = map λ l. l.id

abbrev pub lic_ids : List License → List Text
lic_ids = map λ l. l.lic_id

pub record IsValid (s : Store) : Type 0 where
  pub rows : Distinct (ids s.licenses)
  pub licences : Distinct (lic_ids s.licenses)

find-put :
    (ms : List License) (l : License) (x : Text)
    → find (λ m. text_beq m.id x) (put ms l)
      ≡ (if text_beq l.id x then some l else find (λ m. text_beq m.id x) ms)
unfolding put
find-put [] l x = refl
find-put (m ∷ ms) l x =
    ground
      (arith, find-put ms l x, text_beq_iff m.id l.id, text_beq_iff m.id x, text_beq_iff l.id x)

includes-ids-put :
    (ms : List License) (l : License) (x : Text)
    → includes x (ids (put ms l)) ≡ (text_beq x l.id || includes x (ids ms))
unfolding put includes
includes-ids-put [] l x = refl
includes-ids-put (m ∷ ms) l x = ground (
  arith,
  includes-ids-put ms l x,
  text_beq_iff m.id l.id,
  text_beq_iff x l.id,
  text_beq_iff x m.id,
)

ids-put-Distinct : (ms : List License) (l : License) → Distinct (ids ms) → Distinct (ids (put ms l))
unfolding put
ids-put-Distinct [] l d = (includes-nil l.id, tt)
ids-put-Distinct (m ∷ ms) l d =
    ground (arith, ids-put-Distinct ms l, includes-ids-put ms l m.id, text_beq_iff m.id l.id)

includes-lic_ids-put :
    (ms : List License) (l : License) (x : Text)
    → includes x (lic_ids (put ms l)) ≡ true
    → (text_beq x l.lic_id || includes x (lic_ids ms)) ≡ true
unfolding put includes
includes-lic_ids-put [] l x h = h
includes-lic_ids-put (m ∷ ms) l x h = ground (arith, includes-lic_ids-put ms l x)

-- A licence id that is not taken stands in no row of another id.
free_lic_id :
    (ms : List License) (l : License)
    → taken ms l ≡ false
    → includes l.id (ids ms) ≡ false
    → includes l.lic_id (lic_ids ms) ≡ false
unfolding includes
free_lic_id [] l h k = refl
free_lic_id (m ∷ ms) l h k = ground (
  arith,
  free_lic_id ms l,
  text_beq_iff l.lic_id m.lic_id,
  text_beq_iff m.lic_id l.lic_id,
  text_beq_iff m.id l.id,
  text_beq_iff l.id m.id,
)

lic_ids-put-Distinct :
    (ms : List License) (l : License)
    → taken ms l ≡ false
    → Distinct (ids ms)
    → Distinct (lic_ids ms)
    → Distinct (lic_ids (put ms l))
unfolding put
lic_ids-put-Distinct [] l h d e = (includes-nil l.lic_id, tt)
lic_ids-put-Distinct (m ∷ ms) l h d e = elim (Bool-cases (text_beq m.id l.id)) [
  | inl same ↦
      rw same (free_lic_id ms l (ground arith) (ground (arith, text_beq_iff m.id l.id)), e.1)
  | inr other ↦ rw other (stays other, lic_ids-put-Distinct ms l (ground arith) d.1 e.1)
]
  where
    stays : text_beq m.id l.id ≡ false → includes m.lic_id (lic_ids (put ms l)) ≡ false
    stays other = ground (arith, includes-lic_ids-put ms l m.lic_id, text_beq_iff m.lic_id l.lic_id)

-- What one successful write of a row does to the tables.
pub record Wrote (s : Store) (l : License) (t : Store) : Type 0 where
  pub customers : t.customers ≡ s.customers
  pub packages : t.packages ≡ s.packages
  pub licenses : t.licenses ≡ put s.licenses l
  pub free : taken s.licenses l ≡ false

pub save-Ensures :
    (s : Store) (l : License)
    → Ensures (λ (r : Store × License). Wrote s l r.0 × (r.1 ≡ l)) (save s l)
unfolding save
save-Ensures s l = elim (Bool-cases (taken s.licenses l)) [
  | inl e ↦ rw e throws
  | inr e ↦
      rw e (returns (record { customers = refl; packages = refl; licenses = refl; free = e }, refl))
]

pub Wrote-IsValid : {s t : Store} {l : License} → Wrote s l t → IsValid s → IsValid t
Wrote-IsValid {s} {t} {l} w v = record {
  rows = rw w.licenses (ids-put-Distinct s.licenses l v.rows);
  licences = rw w.licenses (lic_ids-put-Distinct s.licenses l w.free v.rows v.licences);
}

-- After a write the row of that id is the one written, and every other row is as before.
pub find_license-Wrote :
    {s t : Store} {l : License}
    → Wrote s l t
    → (id : Text) → find_license t id ≡ (if text_beq l.id id then some l else find_license s id)
find_license-Wrote {s} {l} w id = rw w.licenses (find-put s.licenses l id)

found_id :
    (ls : List License) (id : Text) (l : License)
    → find (λ m. text_beq m.id id) ls ≡ some l
    → l.id ≡ id
found_id [] id l h = cc
found_id (m ∷ ms) id l h = ground (arith, found_id ms id l, text_beq_iff m.id id)

-- A row that is found has the id that was asked for.
pub find_license-id : (s : Store) (id : Text) {l : License} → find_license s id ≡ some l → l.id ≡ id
find_license-id s id {l} e = found_id s.licenses id l e

some_eq : (k m : License) → some k ≡ some m → k ≡ m
some_eq k m h = cc

-- An update of other columns of a row keeps the ids and the licence ids.
module _ (f : License → License) (same_id : (l : License) → (f l).id ≡ l.id) (x : Text) where
  pub ids-update : (ms : List License) → ids (update (λ m. text_beq m.id x) f ms) ≡ ids ms
  ids-update [] = refl
  ids-update (m ∷ ms) = ground (arith, ids-update ms, same_id m)

  updated_id : (m : License) → (if text_beq m.id x then f m else m).id ≡ m.id
  updated_id m = ground (arith, same_id m)

  pub find-update :
      (ms : List License) (y : Text) (m : License)
      → find (λ l. text_beq l.id y) ms ≡ some m
      → find (λ l. text_beq l.id y) (update (λ l. text_beq l.id x) f ms)
        ≡ some (if text_beq m.id x then f m else m)
  find-update [] y m h = cc
  find-update (k ∷ ks) y m h = rw (updated_id k) (elim (Bool-cases (text_beq k.id y)) [
    | inl e ↦ rw e (ap (λ l. some (if text_beq l.id x then f l else l)) (some_eq k m (rw e at h)))
    | inr e ↦ rw e (find-update ks y m (rw e at h))
  ])

  pub lic_ids-update :
      ((l : License) → (f l).lic_id ≡ l.lic_id)
      → (ms : List License) → lic_ids (update (λ m. text_beq m.id x) f ms) ≡ lic_ids ms
  lic_ids-update same [] = refl
  lic_ids-update same (m ∷ ms) = ground (arith, lic_ids-update same ms, same m)
