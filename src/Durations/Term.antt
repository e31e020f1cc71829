-- ===== src/Durations/Term.antt =====
-- The paid term of src/licensing/duration-policy.ts: what is stamped, what is carried over, and how
-- long a row stays active.
use open_editor_text_backend.Base.{true, none, some, ◌≡◌, refl, ap, ◌∙◌, arith, ◌⊎◌, inl, inr, ◌↔◌}
use open_editor_text_backend.Base.Int.{ℤ, pos, ◌+ℤ◌, ◌≤ℤ◌, ◌<ℤ◌, int_laws, +ℤ_parts}
use open_editor_text_backend.Durations.Clamp.{clamp_keeps, clamp-infinite}
use open_editor_text_backend.Durations.{
  Number, at, infinity, infinite_term, BillingInterval, once, monthly, yearly, lifetime, TermInput,
  Terms, term_seconds, stamped_renew_until, effective_renew_until, carried_renew_until_for,
  is_term_active, before, storable, boundary_of, interval_or_once, as_billing_interval,
  effective_ttl_seconds, duration_policy, clamp_ttl_to_term,
}

stored_boundary :
    (n : Number) (l : TermInput) → before (pos 0) n ≡ true → boundary_of (some (storable n)) l ≡ n
unfolding boundary_of
stored_boundary infinity l h = refl
stored_boundary (at n) l h = ground arith

effective_lem : (l : TermInput) → effective_renew_until l ≡ boundary_of l.renew_until l
unfolding effective_renew_until
effective_lem l = refl

pub carried_lem : (l : TermInput) → carried_renew_until_for l ≡ storable (effective_renew_until l)
unfolding carried_renew_until_for
carried_lem l = refl

pub active_lem :
    (l : TermInput) (now : ℤ) → is_term_active l now ≡ before now (effective_renew_until l)
unfolding is_term_active
active_lem l now = refl

-- Carrying a term to another row keeps its boundary: if a row's boundary is `Infinity` or lies after
-- the epoch, then every row that stores the carried value has that boundary, whatever its own dates
-- and package are.
pub carried_keeps_boundary :
    (old new : TermInput)
    → before (pos 0) (effective_renew_until old) ≡ true
    → new.renew_until ≡ some (carried_renew_until_for old)
    → effective_renew_until new ≡ effective_renew_until old
carried_keeps_boundary old new h e =
    effective_lem new
    ∙ ap (λ o. boundary_of o new) (e ∙ ap some (carried_lem old))
    ∙ stored_boundary (effective_renew_until old) new h

-- The boundary that a stamp stands for.
abbrev stamped_boundary : BillingInterval → ℤ → Number
stamped_boundary lifetime issued = infinity
stamped_boundary i issued = at (issued +ℤ term_seconds i)

stamp_storable :
    (i : BillingInterval) (issued : ℤ)
    → stamped_renew_until i issued ≡ storable (stamped_boundary i issued)
unfolding stamped_renew_until
stamp_storable once issued = refl
stamp_storable monthly issued = refl
stamp_storable yearly issued = refl
stamp_storable lifetime issued = refl

stamped_after_epoch :
    (i : BillingInterval) (issued : ℤ)
    → pos 0 ≤ℤ issued
    → before (pos 0) (stamped_boundary i issued) ≡ true
unfolding term_seconds
stamped_after_epoch once issued p = ground (arith, +ℤ_parts issued (term_seconds once))
stamped_after_epoch monthly issued p = ground (arith, +ℤ_parts issued (term_seconds monthly))
stamped_after_epoch yearly issued p = ground (arith, +ℤ_parts issued (term_seconds yearly))
stamped_after_epoch lifetime issued p = refl

effective_stamped :
    (i : BillingInterval) (l : TermInput) (issued : ℤ)
    → pos 0 ≤ℤ issued
    → l.renew_until ≡ some (stamped_renew_until i issued)
    → effective_renew_until l ≡ stamped_boundary i issued
effective_stamped i l issued p e =
    effective_lem l
    ∙ ap (λ o. boundary_of o l) (e ∙ ap some (stamp_storable i issued))
    ∙ stored_boundary (stamped_boundary i issued) l (stamped_after_epoch i issued p)

before_stamped_iff :
    (i : BillingInterval) (issued now : ℤ)
    → (before now (stamped_boundary i issued) ≡ true)
      ↔ ((i ≡ lifetime) ⊎ (now <ℤ issued +ℤ term_seconds i))
before_stamped_iff once issued now = ground arith
before_stamped_iff monthly issued now = ground arith
before_stamped_iff yearly issued now = ground arith
before_stamped_iff lifetime issued now = ground arith

-- A freshly stamped row is active exactly until its interval has passed, and for ever if the
-- interval is `lifetime`.
pub stamped_is_active_iff :
    (i : BillingInterval) (l : TermInput) (issued now : ℤ)
    → pos 0 ≤ℤ issued
    → l.renew_until ≡ some (stamped_renew_until i issued)
    → (is_term_active l now ≡ true) ↔ ((i ≡ lifetime) ⊎ (now <ℤ issued +ℤ term_seconds i))
stamped_is_active_iff i l issued now p e =
    rw (active_lem l now, effective_stamped i l issued p e) (before_stamped_iff i issued now)

-- The interval that a package is read as.
abbrev pub sold_interval : Terms → BillingInterval
sold_interval p = interval_or_once (as_billing_interval (some p.billing_interval))

default_ttl_lem : (i : BillingInterval) → (duration_policy i).ttl_seconds ≡ term_seconds i
unfolding duration_policy term_seconds
default_ttl_lem once = refl
default_ttl_lem monthly = refl
default_ttl_lem yearly = refl
default_ttl_lem lifetime = refl

default_ttl :
    (p : Terms)
    → p.ttl_override_seconds ≡ none
    → effective_ttl_seconds p ≡ term_seconds (sold_interval p)
unfolding effective_ttl_seconds
default_ttl p e = rw e (default_ttl_lem (sold_interval p))

term_fits :
    (i : BillingInterval) (now : ℤ)
    → pos 0 ≤ℤ now
    → clamp_ttl_to_term (some (at (term_seconds i))) (at (stamped_renew_until i now)) now
      ≡ some (at (term_seconds i))
unfolding stamped_renew_until term_seconds
term_fits once now p =
    clamp_keeps _ now (omega int_laws) (omega int_laws) _ (omega int_laws) (omega int_laws)
term_fits monthly now p =
    clamp_keeps _ now (omega int_laws) (omega int_laws) _ (omega int_laws) (omega int_laws)
term_fits yearly now p =
    clamp_keeps _ now (omega int_laws) (omega int_laws) _ (omega int_laws) (omega int_laws)
term_fits lifetime now p = ground (arith, clamp-infinite (some (at (term_seconds lifetime))) now)

-- A package without a lifetime override mints tokens for its whole term: the lifetime is the term of
-- its interval, and the clamp to the term that is stamped at the same time leaves it as it is.
pub default_ttl_is_term :
    (p : Terms) (now : ℤ)
    → p.ttl_override_seconds ≡ none
    → pos 0 ≤ℤ now
    → (effective_ttl_seconds p ≡ term_seconds (sold_interval p))
      × (clamp_ttl_to_term
            (some (at (effective_ttl_seconds p)))
            (at (stamped_renew_until (sold_interval p) now))
            now
          ≡ some (at (effective_ttl_seconds p)))
default_ttl_is_term p now e h =
    (default_ttl p e, rw (default_ttl p e) (term_fits (sold_interval p) now h))

-- What is stamped is the perpetual sentinel, or a time after the one it was stamped at.
pub stamped_after :
    (i : BillingInterval) (now : ℤ)
    → pos 0 ≤ℤ now
    → (stamped_renew_until i now ≡ infinite_term)
      ⊎ ((pos 0 <ℤ stamped_renew_until i now) × (now <ℤ stamped_renew_until i now))
unfolding stamped_renew_until term_seconds
stamped_after once now p = inr (omega int_laws, omega int_laws)
stamped_after monthly now p = inr (omega int_laws, omega int_laws)
stamped_after yearly now p = inr (omega int_laws, omega int_laws)
stamped_after lifetime now p = inl refl
