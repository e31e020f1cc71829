-- ===== src/Base/Keyed.antt =====
-- Rows of a table with an id: how many there are, and what an update of a row that was found moves.
use Prim.Native.Nat.{ℕ, ◌≤◌, ◌+◌}
use mathlib.Core.Path.{◌≡◌, refl, ap, ◌∙◌}
use mathlib.Core.Logic.{inl, inr}
use mathlib.Core.Bool.{Bool, true, false, not}
use mathlib.Core.List.{List, [], ◌∷◌}
use mathlib.Core.Option.{some}
use native.Mathlib.Omega.{arith}
use open_editor_text_backend.Base.Tests.{Bool-cases, &&_split}
use open_editor_text_backend.Base.Lists.{all, count, find, keep, length, update}
use open_editor_text_backend.Base.Texts.{Text, text_beq, text_beq_iff, text_eq}

abbrev pub bit : Bool → ℕ
bit true = 1
bit false = 0

module _ {A : Type 0} (id : A → Text) where
  abbrev pub rows_with : Text → List A → ℕ
  rows_with x rows = count (λ a. text_beq (id a) x) rows

  same_row : (a b : A) → some a ≡ some b → a ≡ b
  same_row a b h = cc

  -- A row that is found passes its tests somewhere.
  pub found-count :
      (p q : A → Bool) (rows : List A) (a : A)
      → find q rows ≡ some a
      → p a ≡ true
      → 1 ≤ count p rows
  found-count p q [] a h k = cc
  found-count p q (x ∷ xs) a h k = elim (Bool-cases (q x)) [
    | inl e ↦ ground (arith, ap (λ y. p y) (same_row x a (rw e at h)), k)
    | inr e ↦ ground (arith, found-count p q xs a (rw e at h) k)
  ]

  pub found-rows :
      (q : A → Bool) (rows : List A) (a : A) → find q rows ≡ some a → 1 ≤ rows_with (id a) rows
  found-rows q rows a h =
      found-count (λ b. text_beq (id b) (id a)) q rows a h ((text_beq_iff (id a) (id a)).1 refl)

  pub rows_with-update :
      (x : Text) (q : A → Bool) (f : A → A)
      → ((a : A) → q a ≡ true → text_beq (id (f a)) x ≡ text_beq (id a) x)
      → (rows : List A) → rows_with x (update q f rows) ≡ rows_with x rows
  rows_with-update x q f same [] = refl
  rows_with-update x q f same (a ∷ rows) = ground (arith, rows_with-update x q f same rows, same a)

  -- An update, and a removal, of an id that no row has.
  pub count-untouched :
      (p : A → Bool) (f : A → A) (x : Text) (rows : List A)
      → rows_with x rows ≡ 0
      → count p (update (λ a. text_beq (id a) x) f rows) ≡ count p rows
  count-untouched p f x [] h = refl
  count-untouched p f x (a ∷ rows) h = ground (arith, count-untouched p f x rows)

  pub count-unremoved :
      (p : A → Bool) (x : Text) (rows : List A)
      → rows_with x rows ≡ 0
      → count p (keep (λ a. not (text_beq (id a) x)) rows) ≡ count p rows
  count-unremoved p x [] h = refl
  count-unremoved p x (a ∷ rows) h = ground (arith, count-unremoved p x rows)

  -- A row that was found and is updated by its id moves the number of rows that pass a test by its
  -- own; and so does its removal.
  pub count-found :
      (p q : A → Bool) (f : A → A) (rows : List A) (a : A)
      → find q rows ≡ some a
      → rows_with (id a) rows ≤ 1
      → count p (update (λ b. text_beq (id b) (id a)) f rows) + bit (p a)
        ≡ count p rows + bit (p (f a))
  count-found p q f [] a h one = cc
  count-found p q f (x ∷ xs) a h one = elim (Bool-cases (q x)) [
    | inl e ↦
        let here : x ≡ a = same_row x a (rw e at h) in
        let mine : text_beq (id x) (id a) ≡ true = (text_beq_iff (id x) (id a)).1 (ap id here) in
        let alone : rows_with (id a) xs ≡ 0 = ground (arith, mine, one) in
        ground (
          arith,
          mine,
          ap (λ y. p y) here,
          ap (λ y. p (f y)) here,
          count-untouched p f (id a) xs alone,
        )
    | inr e ↦
        let there : find q xs ≡ some a = rw e at h in
        let other : text_beq (id x) (id a) ≡ false = ground (arith, one, found-rows q xs a there) in
        ground (arith, other, count-found p q f xs a there (ground (arith, one)))
  ]

  pub count-removed :
      (p q : A → Bool) (rows : List A) (a : A)
      → find q rows ≡ some a
      → rows_with (id a) rows ≤ 1
      → count p (keep (λ b. not (text_beq (id b) (id a))) rows) + bit (p a) ≡ count p rows
  count-removed p q [] a h one = cc
  count-removed p q (x ∷ xs) a h one = elim (Bool-cases (q x)) [
    | inl e ↦
        let here : x ≡ a = same_row x a (rw e at h) in
        let mine : text_beq (id x) (id a) ≡ true = (text_beq_iff (id x) (id a)).1 (ap id here) in
        let alone : rows_with (id a) xs ≡ 0 = ground (arith, mine, one) in
        ground (arith, mine, ap (λ y. p y) here, count-unremoved p (id a) xs alone)
    | inr e ↦
        let there : find q xs ≡ some a = rw e at h in
        let other : text_beq (id x) (id a) ≡ false = ground (arith, one, found-rows q xs a there) in
        ground (arith, other, count-removed p q xs a there (ground (arith, one)))
  ]

  pub rows_with-keep :
      (p : A → Bool) (x : Text) (rows : List A) → rows_with x (keep p rows) ≤ rows_with x rows
  rows_with-keep p x [] = omega arith
  rows_with-keep p x (a ∷ rows) = ground (arith, rows_with-keep p x rows)

-- A test that every row passes, over removals, updates and finds.
module _ {A : Type 0} (p : A → Bool) where
  pub all-keep : (q : A → Bool) (rows : List A) → all p rows ≡ true → all p (keep q rows) ≡ true
  all-keep q [] h = refl
  all-keep q (x ∷ xs) h = ground (arith, all-keep q xs, &&_split (p x) (all p xs) h)

  pub all-replaced :
      (a : A) (q : A → Bool) (rows : List A)
      → p a ≡ true
      → all p rows ≡ true
      → all p (update q (λ x. a) rows) ≡ true
  all-replaced a q [] h k = refl
  all-replaced a q (x ∷ xs) h k = elim (Bool-cases (q x)) [
    | inl e ↦ rw (e, h) (all-replaced a q xs h (&&_split (p x) (all p xs) k).1)
    | inr e ↦
        rw (e, (&&_split (p x) (all p xs) k).0)
          (all-replaced a q xs h (&&_split (p x) (all p xs) k).1)
  ]

  pub all-found :
      (q : A → Bool) (rows : List A) (a : A) → find q rows ≡ some a → all p rows ≡ true → p a ≡ true
  all-found q [] a h k = cc
  all-found q (x ∷ xs) a h k = elim (Bool-cases (q x)) [
    | inl e ↦ ap p (same (rw e at h)) ∙ (&&_split (p x) (all p xs) k).0
    | inr e ↦ all-found q xs a (rw e at h) (&&_split (p x) (all p xs) k).1
  ]
    where
      same : some x ≡ some a → a ≡ x
      same m = cc

pub length-update :
    {A : Type 0} (q : A → Bool) (f : A → A) (rows : List A) → length (update q f rows) ≡ length rows
length-update q f [] = refl
length-update q f (x ∷ xs) = omega (arith, length-update q f xs)

pub length-keep : {A : Type 0} (q : A → Bool) (rows : List A) → length (keep q rows) ≤ length rows
length-keep q [] = omega arith
length-keep q (x ∷ xs) = ground (arith, length-keep q xs)
