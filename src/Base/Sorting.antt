-- ===== src/Base/Sorting.antt =====
-- `Array.prototype.sort` on strings: ascending by code units. The algorithm is the library's of the
-- language; any stable sort gives the same list, and the model inserts.
use mathlib.Core.List.{Perm}
use mathlib.Core.List.Perm
use mathlib.Core.Path.{◌≡◌, refl, ap, sym, ◌∙◌}
use mathlib.Core.Logic.{◌⊎◌, inl, inr}
use mathlib.Core.Bool.{Bool, true, false, not, ◌&&◌, ◌||◌}
use mathlib.Core.List.{List, [], ◌∷◌, ◌++◌, perm_middle}
use native.Mathlib.Omega.{arith}
use open_editor_text_backend.Base.Tests.{if◌then◌else◌, ltb, nat_beq, ◌==◌, Bool-cases}
use open_editor_text_backend.Base.Lists.{All, includes, includes-cons, keep}
use open_editor_text_backend.Base.Texts.{Text, text_eq}

unfoldable pub text_leb : Text → Text → Bool
text_leb [] t = true
text_leb (x ∷ xs) [] = false
text_leb (x ∷ xs) (y ∷ ys) = if ltb x y then true else nat_beq x y && text_leb xs ys

pub text_leb_total : (s t : Text) → (text_leb s t ≡ true) ⊎ (text_leb t s ≡ true)
unfolding text_leb
text_leb_total [] t = inl refl
text_leb_total (x ∷ xs) [] = inr refl
text_leb_total (x ∷ xs) (y ∷ ys) = ground (arith, text_leb_total xs ys)

pub text_leb_trans :
    (r s t : Text) → text_leb r s ≡ true → text_leb s t ≡ true → text_leb r t ≡ true
unfolding text_leb
text_leb_trans [] s t p q = refl
text_leb_trans (x ∷ xs) [] t p q = cc
text_leb_trans (x ∷ xs) (y ∷ ys) [] p q = cc
text_leb_trans (x ∷ xs) (y ∷ ys) (z ∷ zs) p q = ground (arith, text_leb_trans xs ys zs)

unfoldable pub insert_text : Text → List Text → List Text
insert_text a [] = a ∷ []
insert_text a (x ∷ xs) = if text_leb a x then a ∷ x ∷ xs else x ∷ insert_text a xs

unfoldable pub sort : List Text → List Text
unfolding insert_text text_leb
sort [] = []
sort (x ∷ xs) = insert_text x (sort xs)

abbrev pub AllAbove : Text → List Text → Type 0
AllAbove a xs = All (λ x. text_leb a x ≡ true) xs

abbrev pub IsSorted : List Text → Type 0
IsSorted [] = Unit
IsSorted (x ∷ xs) = AllAbove x xs × IsSorted xs

AllAbove-trans : (a x : Text) (xs : List Text) → text_leb a x ≡ true → AllAbove x xs → AllAbove a xs
AllAbove-trans a x [] h k = tt
AllAbove-trans a x (y ∷ ys) h k = (text_leb_trans a x y h k.0, AllAbove-trans a x ys h k.1)

AllAbove-insert :
    (b a : Text) (xs : List Text)
    → text_leb b a ≡ true
    → AllAbove b xs
    → AllAbove b (insert_text a xs)
unfolding insert_text
AllAbove-insert b a [] h k = (h, tt)
AllAbove-insert b a (x ∷ xs) h k = elim (Bool-cases (text_leb a x)) [
  | inl e ↦ rw e (h, k)
  | inr e ↦ rw e (k.0, AllAbove-insert b a xs h k.1)
]

insert_text-IsSorted : (a : Text) (xs : List Text) → IsSorted xs → IsSorted (insert_text a xs)
unfolding insert_text
insert_text-IsSorted a [] s = (tt, tt)
insert_text-IsSorted a (x ∷ xs) s = elim (Bool-cases (text_leb a x)) [
  | inl e ↦ rw e ((e, AllAbove-trans a x xs e s.0), s)
  | inr e ↦ rw e (
    AllAbove-insert x a xs (ground (arith, text_leb_total a x)) s.0,
    insert_text-IsSorted a xs s.1,
  )
]

pub sort-IsSorted : (xs : List Text) → IsSorted (sort xs)
unfolding sort
sort-IsSorted [] = tt
sort-IsSorted (x ∷ xs) = insert_text-IsSorted x (sort xs) (sort-IsSorted xs)

insert_text-perm : (a : Text) (xs : List Text) → Perm (insert_text a xs) (a ∷ xs)
unfolding insert_text
insert_text-perm a [] = Perm.rfl
insert_text-perm a (x ∷ xs) = elim (Bool-cases (text_leb a x)) [
  | inl e ↦ rw e Perm.rfl
  | inr e ↦ rw e (Perm.trans (Perm.cons x (insert_text-perm a xs)) (Perm.swap a x xs))
]

pub sort-perm : (xs : List Text) → Perm (sort xs) xs
unfolding sort
sort-perm [] = Perm.rfl
sort-perm (x ∷ xs) = Perm.trans (insert_text-perm x (sort xs)) (Perm.cons x (sort-perm xs))

includes-insert_text :
    (b a : Text) (xs : List Text) → includes b (insert_text a xs) ≡ (b == a || includes b xs)
unfolding insert_text
includes-insert_text b a [] = includes-cons b a []
includes-insert_text b a (x ∷ xs) = ground (
  arith,
  includes-insert_text b a xs,
  includes-cons b a (x ∷ xs),
  includes-cons b x (insert_text a xs),
  includes-cons b x xs,
)

pub includes-sort : (b : Text) (xs : List Text) → includes b (sort xs) ≡ includes b xs
unfolding sort
includes-sort b [] = refl
includes-sort b (x ∷ xs) =
    includes-insert_text b x (sort xs)
    ∙ ap (λ r. b == x || r) (includes-sort b xs)
    ∙ sym (includes-cons b x xs)

-- A list falls apart into what passes a test and what does not.
pub keep-perm : (p : Text → Bool) (xs : List Text) → Perm (keep p xs ++ keep (λ x. not (p x)) xs) xs
keep-perm p [] = Perm.rfl
keep-perm p (x ∷ xs) = elim (Bool-cases (p x)) [
  | inl e ↦ rw e (Perm.cons x (keep-perm p xs))
  | inr e ↦ rw e (
      Perm.trans (perm_middle (keep p xs) (keep (λ y. not (p y)) xs))
        (Perm.cons x (keep-perm p xs)))
]
