-- ===== src/Durations/Tests.antt =====
-- Runs of src/licensing/duration-policy.ts, and its theorems at inputs.
use open_editor_text_backend.Base.{true, false, none, some, ◌≡◌, refl, arith, text, text_beq}
use open_editor_text_backend.Base.Int.{pos, ◌+ℤ◌, ◌-ℤ◌, ◌≤ℤ◌}
use open_editor_text_backend.Durations.{
  at, infinity, infinite_term, monthly, TermInput, Terms, term_seconds, stamped_renew_until,
  effective_renew_until, carried_renew_until_for, is_term_active, before, interval_of,
  as_billing_interval, effective_ttl_seconds, duration_policy, clamp_ttl_to_term,
}

run : Unit {0}
unfolding clamp_ttl_to_term effective_renew_until carried_renew_until_for stamped_renew_until
    term_seconds interval_of as_billing_interval effective_ttl_seconds duration_policy
    is_term_active text_beq ◌+ℤ◌ ◌-ℤ◌
run = tt

-- A monthly row of before the column existed, made at second 1000.
abbrev legacy : TermInput
legacy = record {
  renew_until = some (pos 0);
  created_at = some 1000500;
  issued_at = some (pos 7);
  interval_for_term = some (text "monthly");
}

abbrev perpetual : TermInput
perpetual = record legacy { interval_for_term = some (text "lifetime") }

boundary_tests :
    (effective_renew_until legacy ≡ at (pos 2593000))
    × (effective_renew_until perpetual ≡ infinity)
    × (carried_renew_until_for legacy ≡ pos 2593000)
    × (carried_renew_until_for perpetual ≡ infinite_term)
    × (is_term_active legacy (pos 2593000) ≡ false)
unfolding run
boundary_tests = (refl, refl, refl, refl, refl)

clamp_tests :
    (clamp_ttl_to_term (some (at (pos 500))) (at (pos 1000)) (pos 700) ≡ some (at (pos 300)))
    × (clamp_ttl_to_term none (at (pos 1000)) (pos 700) ≡ some (at (pos 300)))
    × (clamp_ttl_to_term (some (at (pos 500))) (at (pos 1000)) (pos 1000) ≡ some (at (pos 500)))
    × (clamp_ttl_to_term none infinity (pos 1) ≡ some infinity)
unfolding run
clamp_tests = (refl, refl, refl, refl)

fits : pos 700 +ℤ pos 200 ≤ℤ pos 1000
unfolding run
fits = omega arith

-- The row that replaces `legacy`, made later and with no package.
abbrev replacement : TermInput
replacement = record {
  renew_until = some (carried_renew_until_for legacy);
  created_at = some 2000000000;
  issued_at = some (pos 2000000);
  interval_for_term = some (text "once");
}

after_epoch : before (pos 0) (effective_renew_until legacy) ≡ true
unfolding run
after_epoch = refl

abbrev stamped : TermInput
stamped = record legacy { renew_until = some (stamped_renew_until monthly (pos 5000)) }

abbrev yearly_plan : Terms
yearly_plan = record { billing_interval = text "yearly"; ttl_override_seconds = none }
