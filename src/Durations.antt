-- ===== src/Durations.antt =====
-- src/licensing/duration-policy.ts and the two constants of src/config/license.config.ts it uses.
-- Times and lifetimes are integers of seconds; a JavaScript number is an integer or `Infinity`.
pub mod Clamp
pub mod Term
mod Tests
use open_editor_text_backend.Base.{
  ℕ, ◌*◌, ◌+◌, ◌-◌, ◌/◌, Bool, true, false, not, ◌&&◌, ◌||◌, List, [], ◌∷◌, Option, none, some,
  Text, text, text_eq, text_beq, if◌then◌else◌, nat_beq, or_else,
}
use open_editor_text_backend.Base.Int.{ℤ, pos, negsuc, ◌+ℤ◌, ◌-ℤ◌, ltb_ℤ, leb_ℤ, min_ℤ, ℤ_beq}

-- `BillingInterval`.
pub data BillingInterval : Type 0 where
  once monthly yearly lifetime : BillingInterval

pub data RefreshPolicy : Type 0 where
  auto manual : RefreshPolicy

-- A JavaScript number: integer, or `Number.POSITIVE_INFINITY`.
pub data Number : Type 0 where
  at : ℤ → Number
  infinity : Number

-- `INFINITE_TERM`.
abbrev pub infinite_term : ℤ
infinite_term = negsuc 0

abbrev pub is_infinite_term : ℤ → Bool
is_infinite_term n = ℤ_beq n infinite_term

abbrev pub day : ℕ
day = 24 * 3600

-- `SAFE_MAX_TTL`: the verifier's ceiling, less a day.
abbrev pub safe_max_ttl : ℤ
safe_max_ttl = pos (3 * 366 * day + 30 * day - day)

abbrev pub default_ttl_seconds : ℤ
default_ttl_seconds = pos (30 * day)

pub record DurationPolicy : Type 0 where
  pub ttl_seconds : ℤ
  pub refresh_policy : RefreshPolicy

unfoldable pub duration_policy : BillingInterval → DurationPolicy
duration_policy lifetime = record { ttl_seconds = safe_max_ttl; refresh_policy = auto }
duration_policy yearly = record { ttl_seconds = pos (365 * day); refresh_policy = auto }
duration_policy monthly = record { ttl_seconds = pos (30 * day); refresh_policy = auto }
duration_policy once = record { ttl_seconds = default_ttl_seconds; refresh_policy = manual }

unfoldable pub term_seconds : BillingInterval → ℤ
term_seconds lifetime = safe_max_ttl
term_seconds yearly = pos (365 * day)
term_seconds monthly = pos (30 * day)
term_seconds once = default_ttl_seconds

abbrev is_lifetime : BillingInterval → Bool
is_lifetime lifetime = true
is_lifetime _ = false

unfoldable pub stamped_renew_until : BillingInterval → ℤ → ℤ
stamped_renew_until interval now =
    if is_lifetime interval then infinite_term else now +ℤ term_seconds interval

-- `asBillingInterval`, of a value that is present.
unfoldable pub interval_of : Text → Option BillingInterval
interval_of t =
    if text_beq t (text "once")
    then some once
    else if text_beq t (text "monthly")
    then some monthly
    else if text_beq t (text "yearly")
    then some yearly
    else if text_beq t (text "lifetime")
    then some lifetime
    else none

-- `asBillingInterval`; a missing value is read as the empty text.
unfoldable pub as_billing_interval : Option Text → Option BillingInterval
as_billing_interval v = interval_of (or_else v [])

abbrev less_headroom : ℤ → Option Number → Option Number
less_headroom head none = some (at head)
less_headroom head (some infinity) = some (at head)
less_headroom head (some (at ttl)) =
    if leb_ℤ ttl (pos 0) then some (at head) else some (at (min_ℤ ttl head))

-- The end of `clampTtlToTerm` at the boundary `Infinity`: the headroom is `Infinity`.
abbrev unbounded : Option Number → Option Number
unbounded none = some infinity
unbounded (some infinity) = some infinity
unbounded (some (at ttl)) = if leb_ℤ ttl (pos 0) then some infinity else some (at ttl)

-- `clampTtlToTerm`.
unfoldable pub clamp_ttl_to_term : Option Number → Number → ℤ → Option Number
clamp_ttl_to_term requested infinity now = unbounded requested
clamp_ttl_to_term requested (at renew) now =
    if is_infinite_term renew
    then requested
    else if not (ltb_ℤ (pos 0) renew)
    then requested
    else let headroom = renew -ℤ now in
      if leb_ℤ headroom (pos 0) then requested else less_headroom headroom requested

-- The shape that the term helpers take; `created_at` in milliseconds.
pub record TermInput : Type 0 where
  pub renew_until : Option ℤ
  pub created_at : Option ℕ
  pub issued_at : Option ℤ
  pub interval_for_term : Option Text

abbrev pub interval_or_once : Option BillingInterval → BillingInterval
interval_or_once none = once
interval_or_once (some i) = i

abbrev created_seconds : Option ℕ → Option ℤ → ℤ
created_seconds (some ms) issued = pos (ms / 1000)
created_seconds none none = pos 0
created_seconds none (some s) = s

-- The boundary of a row with no stored term.
derived_boundary : TermInput → Number
derived_boundary l =
    let interval =
      interval_or_once (as_billing_interval (some (or_else l.interval_for_term (text "once")))) in
    if is_lifetime interval
    then infinity
    else at (created_seconds l.created_at l.issued_at +ℤ term_seconds interval)

boundary_of : Option ℤ → TermInput → Number
unfolding derived_boundary
boundary_of none l = derived_boundary l
boundary_of (some n) l =
    if is_infinite_term n then infinity else if ltb_ℤ (pos 0) n then at n else derived_boundary l

unfoldable pub effective_renew_until : TermInput → Number
unfolding boundary_of
effective_renew_until l = boundary_of l.renew_until l

abbrev pub storable : Number → ℤ
storable infinity = infinite_term
storable (at n) = n

unfoldable pub carried_renew_until_for : TermInput → ℤ
carried_renew_until_for l = storable (effective_renew_until l)

-- `n < m` for a time and a JavaScript number.
abbrev pub before : ℤ → Number → Bool
before now infinity = true
before now (at n) = ltb_ℤ now n

unfoldable pub is_term_active : TermInput → ℤ → Bool
is_term_active l now = before now (effective_renew_until l)

-- The package fields that a lifetime is derived from.
pub record Terms : Type 0 where
  pub billing_interval : Text
  pub ttl_override_seconds : Option ℤ

derived_ttl : Text → ℤ
derived_ttl interval =
    (duration_policy (interval_or_once (as_billing_interval (some interval)))).ttl_seconds

override_or : Option ℤ → ℤ → ℤ
override_or none ttl = ttl
override_or (some n) ttl = if ltb_ℤ (pos 0) n then n else ttl

unfoldable pub effective_ttl_seconds : Terms → ℤ
unfolding derived_ttl override_or
effective_ttl_seconds p = override_or p.ttl_override_seconds (derived_ttl p.billing_interval)
