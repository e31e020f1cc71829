-- ===== src/Base/Lists.antt =====
-- Lists measured by native numbers, and searched by a Boolean test, as the source's arrays are.
use Prim.Native.Nat.{◌-◌, min, ℕ, zero, suc, ◌+◌}
use mathlib.Core.Path.{◌≡◌, refl, ap}
use mathlib.Core.Logic.{◌≢◌}
use mathlib.Core.Bool.{Bool, true, false, not, ◌&&◌, ◌||◌}
use mathlib.Core.List.{List, [], ◌∷◌, ◌++◌}
use mathlib.Core.Option.{Option, none, some}
use native.Mathlib.Omega.{arith}
use open_editor_text_backend.Base.Tests.{Eq, ◌==◌, if◌then◌else◌}

module _ {ℓ} {A : Type ℓ} where
  abbrev pub length : List A → ℕ
  length [] = 0
  length (x ∷ xs) = suc (length xs)

  pub length-append : (xs ys : List A) → length (xs ++ ys) ≡ length xs + length ys
  length-append [] ys = omega arith
  length-append (x ∷ xs) ys = omega (arith, length-append xs ys)

  abbrev pub take : ℕ → List A → List A
  take zero xs = []
  take (suc n) [] = []
  take (suc n) (x ∷ xs) = x ∷ take n xs

  abbrev pub drop : ℕ → List A → List A
  drop zero xs = xs
  drop (suc n) [] = []
  drop (suc n) (x ∷ xs) = drop n xs

  abbrev pub is_empty : List A → Bool
  is_empty [] = true
  is_empty (x ∷ xs) = false

  -- The source's `filter`, `some`, `every` and `find`, over a Boolean test.
  abbrev pub keep : (A → Bool) → List A → List A
  keep p [] = []
  keep p (x ∷ xs) = if p x then x ∷ keep p xs else keep p xs

  abbrev pub any : (A → Bool) → List A → Bool
  any p [] = false
  any p (x ∷ xs) = p x || any p xs

  abbrev pub all : (A → Bool) → List A → Bool
  all p [] = true
  all p (x ∷ xs) = p x && all p xs

  abbrev pub find : (A → Bool) → List A → Option A
  find p [] = none
  find p (x ∷ xs) = if p x then some x else find p xs

  abbrev pub count : (A → Bool) → List A → ℕ
  count p xs = length (keep p xs)

  -- A list with each element that passes the test changed.
  abbrev pub update : (A → Bool) → (A → A) → List A → List A
  update p f [] = []
  update p f (x ∷ xs) = (if p x then f x else x) ∷ update p f xs

-- A predicate at every element.
module _ {ℓ κ} {A : Type ℓ} (Holds : A → Type κ) where
  abbrev pub All : List A → Type κ
  All (y ∷ ys) = Holds y × All ys
  All [] = Unit

module _ {ℓ} {A : Type ℓ} ⦃e : Eq A⦄ where
  unfoldable pub includes : A → List A → Bool
  includes a [] = false
  includes a (x ∷ xs) = a == x || includes a xs

  -- `Set.add`, in the order of insertion.
  unfoldable pub add : A → List A → List A
  add a [] = a ∷ []
  add a (x ∷ xs) = if a == x then x ∷ xs else x ∷ add a xs

  -- `[...new Set(xs)]`.
  unfoldable pub dedup_from : List A → List A → List A
  dedup_from acc [] = acc
  dedup_from acc (x ∷ xs) = dedup_from (add x acc) xs

  unfoldable pub dedup : List A → List A
  dedup xs = dedup_from [] xs

  -- No element twice.
  abbrev pub Distinct : List A → Type 0
  Distinct [] = Unit
  Distinct (x ∷ xs) = (includes x xs ≡ false) × Distinct xs

  pub includes-nil : (a : A) → includes a [] ≡ false
  unfolding includes
  includes-nil a = refl

  pub includes-cons : (a x : A) (xs : List A) → includes a (x ∷ xs) ≡ (a == x || includes a xs)
  unfolding includes
  includes-cons a x xs = refl

  pub includes-add : (a b : A) (xs : List A) → includes b (add a xs) ≡ (b == a || includes b xs)
  unfolding includes add
  includes-add a b [] = refl
  includes-add a b (x ∷ xs) =
      ground (arith, includes-add a b xs, e.equals_iff a x, e.equals_iff b a, e.equals_iff b x)

  pub includes-keep :
      (p : A → Bool) (a : A) (xs : List A) → includes a (keep p xs) ≡ (p a && includes a xs)
  unfolding includes
  includes-keep p a [] = ground arith
  includes-keep p a (x ∷ xs) = ground (arith, includes-keep p a xs, e.equals_iff a x)

  pub add-Distinct : (a : A) (xs : List A) → Distinct xs → Distinct (add a xs)
  unfolding includes add
  add-Distinct a [] d = (refl, tt)
  add-Distinct a (x ∷ xs) d =
      ground (arith, add-Distinct a xs d.1, includes-add a x xs, e.equals_iff a x, e.equals_iff x a)

  pub includes-append :
      (a : A) (xs ys : List A) → includes a (xs ++ ys) ≡ (includes a xs || includes a ys)
  unfolding includes
  includes-append a [] ys = refl
  includes-append a (x ∷ xs) ys = ground (arith, includes-append a xs ys)

  includes-dedup_from :
      (a : A) (acc xs : List A) → includes a (dedup_from acc xs) ≡ (includes a acc || includes a xs)
  unfolding includes dedup_from
  includes-dedup_from a acc [] = ground arith
  includes-dedup_from a acc (x ∷ xs) =
      ground (arith, includes-dedup_from a (add x acc) xs, includes-add x a acc)

  pub includes-dedup : (a : A) (xs : List A) → includes a (dedup xs) ≡ includes a xs
  unfolding dedup includes
  includes-dedup a xs = includes-dedup_from a [] xs

  dedup_from-Distinct : (acc xs : List A) → Distinct acc → Distinct (dedup_from acc xs)
  unfolding dedup_from
  dedup_from-Distinct acc [] d = d
  dedup_from-Distinct acc (x ∷ xs) d = dedup_from-Distinct (add x acc) xs (add-Distinct x acc d)

  pub dedup-Distinct : (xs : List A) → Distinct (dedup xs)
  unfolding dedup
  dedup-Distinct xs = dedup_from-Distinct [] xs tt

  pub any-of-includes :
      (p : A → Bool) (a : A) (xs : List A) → includes a xs ≡ true → p a ≡ true → any p xs ≡ true
  unfolding includes
  any-of-includes p a [] h k = cc
  any-of-includes p a (x ∷ xs) h k = ground (arith, any-of-includes p a xs, e.equals_iff a x)

  pub holds-of-includes :
      (p : A → Bool) (a : A) (xs : List A) → all p xs ≡ true → includes a xs ≡ true → p a ≡ true
  unfolding includes
  holds-of-includes p a [] h k = cc
  holds-of-includes p a (x ∷ xs) h k = ground (arith, holds-of-includes p a xs, e.equals_iff a x)

module _ {ℓ} {A : Type ℓ} where
  pub drop-append : (xs ys : List A) → drop (length xs) (xs ++ ys) ≡ ys
  drop-append [] ys = refl
  drop-append (x ∷ xs) ys = drop-append xs ys

  pub take-append : (xs ys : List A) → take (length xs) (xs ++ ys) ≡ xs
  take-append [] ys = refl
  take-append (x ∷ xs) ys = ap (◌∷◌ x) (take-append xs ys)

  pub take-append-drop : (n : ℕ) (xs : List A) → take n xs ++ drop n xs ≡ xs
  take-append-drop zero xs = refl
  take-append-drop (suc n) [] = refl
  take-append-drop (suc n) (x ∷ xs) = ap (◌∷◌ x) (take-append-drop n xs)

  pub length-take : (n : ℕ) (xs : List A) → length (take n xs) ≡ min n (length xs)
  length-take zero xs = omega arith
  length-take (suc n) [] = omega arith
  length-take (suc n) (x ∷ xs) = omega (arith, length-take n xs)

  pub length-drop : (n : ℕ) (xs : List A) → length (drop n xs) ≡ length xs - n
  length-drop zero xs = omega arith
  length-drop (suc n) [] = omega arith
  length-drop (suc n) (x ∷ xs) = omega (arith, length-drop n xs)

module _ {ℓ} {A : Type ℓ} where
  pub is_empty-ne : (s : List A) → not (is_empty s) ≡ true → s ≢ []
  is_empty-ne [] h = cc
  is_empty-ne (x ∷ xs) h = cc

  pub ne-is_empty : (s : List A) → s ≢ [] → is_empty s ≡ false
  ne-is_empty [] h = absurd (h refl)
  ne-is_empty (x ∷ xs) h = refl

  pub is_empty→eq : (s : List A) → is_empty s ≡ true → s ≡ []
  is_empty→eq [] h = refl
  is_empty→eq (x ∷ xs) h = cc

module _ {ℓ} {A : Type ℓ} (p : A → Bool) where
  -- A search is as before in a list in which elements were changed that the test sees alike.
  pub find-update :
      (q : A → Bool) (f : A → A)
      → ((x : A) → p (f x) ≡ p x)
      → (xs : List A) (a : A) → find p xs ≡ some a
      → find p (update q f xs) ≡ some (if q a then f a else a)
  find-update q f same [] a h = cc
  find-update q f same (x ∷ xs) a h = ground (arith, find-update q f same xs a, same x)

  pub find-append : (xs ys : List A) (a : A) → find p xs ≡ some a → find p (xs ++ ys) ≡ some a
  find-append [] ys a h = cc
  find-append (x ∷ xs) ys a h = ground (arith, find-append xs ys a)
