-- ===== src/Base/Results.antt =====
-- Results of operations that throw.
use mathlib.Core.Path.{◌≡◌, refl, subst}
use mathlib.Core.Bool.{Bool, true, false}
use mathlib.Core.Option.{Option, none, some}

-- The errors that are thrown, without their messages: HTTP ones, and `failure` for any other; and the
-- reasons for which a refresh is denied.
pub data Error : Type 0 where
  bad_request not_found unavailable unauthorized forbidden conflict failure : Error
  refused rate_limited origin_blocked term_ended : Error

pub data Result {ℓ} (Value : Type ℓ) : Type ℓ where
  err : Error → Result Value
  ok : Value → Result Value

-- `if (!b) throw e`.
abbrev pub guard : Bool → Error → Result (Unit {0})
guard false problem = err problem
guard true problem = ok tt

abbrev pub or_throw {ℓ} : {A : Type ℓ} → Option A → Error → Result A
or_throw none e = err e
or_throw (some a) e = ok a

module _ {ℓ κ} {Value : Type ℓ} {Next : Type κ} where
  infixl 5 ◌>>=◌
  -- It stays shut, so that a `do` block shows its steps to the rule `after` below.
  unfoldable pub ◌>>=◌ : Result Value → (Value → Result Next) → Result Next
  err problem >>= next = err problem
  ok value >>= next = next value

  -- A step that succeeds has a value, from which the rest succeeds.
  pub >>=-eq-ok :
      (first : Result Value) (next : Value → Result Next) {out : Next}
      → (first >>= next) ≡ ok out
      → (value : Value) × (first ≡ ok value) × (next value ≡ ok out)
  unfolding ◌>>=◌
  >>=-eq-ok (err problem) next h = cc
  >>=-eq-ok (ok value) next h = (value, refl, h)

infixl 5 ◌>>◌
abbrev pub ◌>>◌ {κ} : {Next : Type κ} (first : Result (Unit {0})) → Result Next → Result Next
first >> rest = first >>= λ _. rest

pub >>-eq-ok {κ} :
    {B : Type κ} (m : Result (Unit {0})) (k : Result B) {b : B}
    → (m >> k) ≡ ok b
    → (m ≡ ok tt) × (k ≡ ok b)
unfolding ◌>>=◌
>>-eq-ok (ok a) k h = (refl, h)
>>-eq-ok (err e) k h = cc

pub guard-eq-ok : (b : Bool) (e : Error) {u : Unit {0}} → guard b e ≡ ok u → b ≡ true
guard-eq-ok false problem h = cc
guard-eq-ok true problem h = refl

-- A postcondition of an operation that may throw: `P` holds of the value that it returns.
pub data Ensures {ℓ κ} {A : Type ℓ} (P : A → Type κ) : Result A → Type (ℓ ⊔ κ) where
  returns : {a : A} → P a → Ensures P (ok a)
  throws : {e : Error} → Ensures P (err e)

-- The rule for a step of a `do` block: what follows may use that the step succeeded.
pub after {ℓ κ} :
    {A : Type ℓ} {B : Type ℓ} {P : B → Type κ} {m : Result A} {f : A → Result B}
    → ((a : A) → m ≡ ok a → Ensures P (f a))
    → Ensures P (m >>= f)
unfolding ◌>>=◌
after {m = ok a} k = k a refl
after {m = err e} k = throws

pub of_ok {ℓ κ} :
    {A : Type ℓ} {P : A → Type κ} {r : Result A} {a : A} → Ensures P r → r ≡ ok a → P a
of_ok {P} (returns h) e = subst P (cc) h
of_ok throws e = cc

pub weaken {ℓ κ} :
    {A : Type ℓ} {P Q : A → Type κ} {r : Result A}
    → ((a : A) → P a → Q a)
    → Ensures P r
    → Ensures Q r
weaken g (returns h) = returns (g _ h)
weaken g throws = throws

pub or_throw-eq-ok {ℓ} :
    {A : Type ℓ} (o : Option A) (e : Error) {a : A} → or_throw o e ≡ ok a → o ≡ some a
or_throw-eq-ok none e h = cc
or_throw-eq-ok (some a) e h = cc
