-- ===== src/Sharing/Tests.antt =====
-- Runs of src/portal/sharing-detector.service.ts, and its theorem at an input.
use open_editor_text_backend.Base.{
  ℕ, true, false, List, [], ◌∷◌, none, Text, text, text_eq, text_beq, ◌≡◌, refl, includes, dedup,
  dedup_from, add,
}
use open_editor_text_backend.Base.Int.{pos, ◌-ℤ◌}
use open_editor_text_backend.Licenses.{active, License}
use open_editor_text_backend.Sharing.{
  RefreshEvent, Detector, Signal, evaluate, flag_row, evaluate_and_flag,
}
use open_editor_text_backend.Sharing.Soft.{Flagged, evaluate_and_flag_soft}

run : Unit {0}
unfolding text_beq dedup dedup_from add includes ◌-ℤ◌ evaluate flag_row evaluate_and_flag
run = tt

abbrev detector : Detector
detector = record { window_ms = 86400000; max_origins = 1; max_ips = 10 }

-- A stand-in for the printing of numbers.
abbrev show : ℕ → Text
show n = text "n"

abbrev event : Text → Text → ℕ → RefreshEvent
event origin outcome at_ms = record {
  lic_id = text "oe-1";
  ip = text "10.0.0.1";
  origin = origin;
  outcome = outcome;
  created_ms = at_ms;
}

abbrev row : License
row = record {
  id = text "r1";
  lic_id = text "oe-1";
  customer = text "c1";
  package_id = none;
  plan_name = text "Pro";
  plan_price_cents = pos 900;
  plan_currency = text "USD";
  features = text "bold" ∷ [];
  domains = text "a.io" ∷ [];
  status = active;
  token = text "token";
  kid = text "k1";
  issued_at = pos 1000;
  expires_at = pos 9000;
  renew_until = pos 9000;
  flagged_at = pos 0;
  flag_reason = [];
  reminder_sent_at = pos 0;
  created_at = 0;
  is_test = false;
  pinned_version = [];
  override_version = [];
  override_reason = [];
  override_review_at = pos 0;
  channel = text "stable";
}

abbrev spread : List RefreshEvent
spread =
    event (text "https://a.io") (text "refreshed") 90000000
    ∷ event (text "https://b.io") (text "origin-blocked") 90000000
    ∷ event (text "https://a.io") (text "refreshed") 90000000
    ∷ []

abbrev shared : Signal
shared = record {
  anomalous = true;
  distinct_origins = 2;
  distinct_ips = 1;
  reason = text "n distinct origins in nh";
}

flags : evaluate_and_flag show detector spread (row ∷ []) (text "oe-1") 90000001 ≡ (
  record row { flagged_at = pos 90000; flag_reason = text "n distinct origins in nh" } ∷ [],
  shared,
)
unfolding run
flags = refl

-- A blocked origin that is logged as refused, as the route of a session does, is no signal.
abbrev masked : List RefreshEvent
masked =
    event (text "https://a.io") (text "refreshed") 90000000
    ∷ event (text "https://b.io") (text "refused") 90000000
    ∷ []

misses_refused :
    (evaluate_and_flag show detector masked (row ∷ []) (text "oe-1") 90000001).0 ≡ row ∷ []
unfolding run
misses_refused = refl

evaluate_and_flag_soft_example :
    Flagged
      (evaluate show detector spread (text "oe-1") 90000001)
      (text "oe-1")
      (pos 90000)
      (row ∷ [])
      (evaluate_and_flag show detector spread (row ∷ []) (text "oe-1") 90000001).0
evaluate_and_flag_soft_example =
    evaluate_and_flag_soft show detector spread (row ∷ []) (text "oe-1") 90000001
