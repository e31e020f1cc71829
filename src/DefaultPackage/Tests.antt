-- ===== src/DefaultPackage/Tests.antt =====
-- Runs of src/licensing/default-package.service.ts, and its theorems at inputs.
use open_editor_text_backend.Base.{
  true, false, List, [], ◌∷◌, none, some, text, text_eq, text_beq, is_empty, ◌≡◌, refl, ok, ◌>>=◌,
  find,
}
use open_editor_text_backend.Base.Int.{pos}
use open_editor_text_backend.Licenses.{Package}
use open_editor_text_backend.DefaultPackage.{
  minimal, Tier, features_for_anonymous, features_for_refusal, load, refresh, land, ask, designate,
}
use open_editor_text_backend.DefaultPackage.Never.{
  History, begin, next, designating, default_tier_never_empty,
}

run : Unit {0}
unfolding text_beq features_for_anonymous features_for_refusal load refresh land ask designate ◌>>=◌
run = tt

abbrev basic : Package
basic = record {
  id = text "p1";
  name = text "Basic";
  price_cents = pos 0;
  currency = text "USD";
  billing_interval = text "once";
  ttl_override_seconds = none;
  domain_bound = false;
  max_domains = pos 0;
  max_installs = pos 0;
  active = true;
  publicly_listed = false;
  refresh_policy = text "auto";
  features = text "bold" ∷ [];
}

abbrev rich : Package
rich = record basic { id = text "p2"; features = text "bold" ∷ text "pdf" ∷ [] }

abbrev packages : List Package
packages = basic ∷ rich ∷ []

abbrev started : Tier
started = record { designation = none; cache = none; in_flight = none }

abbrev chosen : Tier
chosen = record {
  designation = some (record { package_id = text "p1"; actor = []; reason = [] });
  cache = some (record { features = text "bold" ∷ []; package_id = text "p1"; at = 5 });
  in_flight = none;
}

designates : designate true packages 5 started (text "p1") [] [] ≡ ok (chosen, 1)
unfolding run
designates = refl

found_basic : find (λ (p : Package). text_beq p.id (text "p1")) packages ≡ some basic
unfolding run
found_basic = refl

-- A refresh that was in flight before the designation lands with the old package.
abbrev stale_flight : Tier
stale_flight = refresh true packages 40000 chosen

abbrev outdated : Tier
outdated = record {
  designation = some (record { package_id = text "p2"; actor = []; reason = [] });
  cache = some (record { features = text "bold" ∷ []; package_id = text "p1"; at = 40000 });
  in_flight = none;
}

designates_late : designate true packages 40001 stale_flight (text "p2") [] [] ≡ ok (outdated, 2)
unfolding run
designates_late = refl

-- A designation whose own refresh fails falls back to the minimal set, not to the last good list.
abbrev forgot : Tier
forgot = record {
  designation = some (record { package_id = text "p2"; actor = []; reason = [] });
  cache = none;
  in_flight = none;
}

designates_blind : designate false packages 6 chosen (text "p2") [] [] ≡ ok (forgot, 2)
unfolding run
designates_blind = refl

history : History started forgot
history =
    next (next begin (designating true packages 5 (text "p1") [] [] chosen 1 designates))
      (designating false packages 6 (text "p2") [] [] forgot 2 designates_blind)

default_tier_never_empty_example :
    (is_empty (features_for_anonymous forgot) ≡ false)
    × (is_empty (features_for_refusal minimal forgot (text "revoked")) ≡ false)
default_tier_never_empty_example =
    default_tier_never_empty minimal (text "revoked") refl refl history
