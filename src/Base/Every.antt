-- ===== src/Base/Every.antt =====
-- A fact on every element of a list, over the list functions.
use mathlib.Core.Path.{◌≡◌, subst}
use mathlib.Core.Logic.{inl, inr}
use mathlib.Core.Bool.{Bool, true, false}
use mathlib.Core.List.{List, [], ◌∷◌}
use mathlib.Core.Option.{some}
use native.Mathlib.Omega.{arith}
use open_editor_text_backend.Base.Tests.{Bool-cases}
use open_editor_text_backend.Base.Lists.{All, any, find, keep, update}

module _ {A : Type 0} (P : A → Type 0) where
  pub All-keep : (q : A → Bool) (xs : List A) → All P xs → All P (keep q xs)
  All-keep q [] h = tt
  All-keep q (x ∷ xs) h = elim (Bool-cases (q x)) [
    | inl e ↦ rw e (h.0, All-keep q xs h.1)
    | inr e ↦ rw e (All-keep q xs h.1)
  ]

  pub All-found :
      (q : A → Bool) (xs : List A) (a : A) → find q xs ≡ some a → All P xs → P a × (q a ≡ true)
  All-found q [] a e h = cc
  All-found q (x ∷ xs) a e h = elim (Bool-cases (q x)) [
    | inl k ↦ subst (λ y. P y × (q y ≡ true)) (some_eq (rw k at e)) (h.0, k)
    | inr k ↦ All-found q xs a (rw k at e) h.1
  ]
    where
      some_eq : some x ≡ some a → x ≡ a
      some_eq m = cc

module _ {A : Type 0} (P Q : A → Type 0) where
  pub All-map : (xs : List A) → ((x : A) → P x → Q x) → All P xs → All Q xs
  All-map [] f h = tt
  All-map (x ∷ xs) f h = (f x h.0, All-map xs f h.1)

  pub All-both : (xs : List A) → All P xs → All Q xs → All (λ x. P x × Q x) xs
  All-both [] h k = tt
  All-both (x ∷ xs) h k = ((h.0, k.0), All-both xs h.1 k.1)

  pub All-update :
      (q : A → Bool) (f : A → A) (xs : List A)
      → ((x : A) → q x ≡ true → P x → Q (f x))
      → ((x : A) → q x ≡ false → P x → Q x)
      → All P xs
      → All Q (update q f xs)
  All-update q f [] changed kept h = tt
  All-update q f (x ∷ xs) changed kept h = elim (Bool-cases (q x)) [
    | inl e ↦ rw e (changed x e h.0, All-update q f xs changed kept h.1)
    | inr e ↦ rw e (kept x e h.0, All-update q f xs changed kept h.1)
  ]

pub All-fails :
    {A : Type 0} (q : A → Bool) (xs : List A) → any q xs ≡ false → All (λ x. q x ≡ false) xs
All-fails q [] h = tt
All-fails q (x ∷ xs) h = (ground arith, All-fails q xs (ground arith))

pub All-any : {A : Type 0} (xs : List A) → All (λ x. Unit {0}) xs
All-any [] = tt
All-any (x ∷ xs) = (tt, All-any xs)
