-- ===== src/Installs/Tests.antt =====
-- Runs of src/delivery/license-install.service.ts, and its theorems at inputs.
use open_editor_text_backend.Base.{◌≤◌, true, false, [], ◌∷◌, ◌≡◌, refl, arith, text, text_beq}
use open_editor_text_backend.Installs.{Install, active_count, touch, record_seat, check}
use open_editor_text_backend.Installs.Cap.{check_within_cap}

run : Unit {0}
unfolding text_beq touch record_seat check
run = tt

abbrev seat : Install
seat = record {
  lic_id = text "oe-1";
  install_id = text "tab";
  origin = text "a.io";
  blocked = false;
}

one : active_count (seat ∷ []) (text "oe-1") ≤ 1
unfolding run
one = omega arith

refuses_second : (check (seat ∷ []) (text "oe-1") (text "other") [] 1).1.allowed ≡ false
unfolding run
refuses_second = refl

knows_first : (check (seat ∷ []) (text "oe-1") (text "tab") [] 1).1.allowed ≡ true
unfolding run
knows_first = refl

check_within_cap_example :
    active_count (check (seat ∷ []) (text "oe-1") (text "other") [] 1).0 (text "oe-1") ≤ 1
check_within_cap_example = check_within_cap (seat ∷ []) (text "oe-1") (text "other") [] 1 one
