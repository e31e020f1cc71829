-- ===== src/Activations/Tests.antt =====
-- Runs of src/delivery/license-activation.service.ts, and its theorems at inputs.
use open_editor_text_backend.Base.{◌≤◌, List, [], ◌∷◌, some, ◌≡◌, refl, text, text_beq, trim}
use open_editor_text_backend.Activations.{
  Activation, new_activation, spent, create, look, take_claim, claim,
}
use open_editor_text_backend.Activations.Single.{
  World, empty_world, Run, begin, next, Access, arming, reading, taking, granted_at_most_armed,
  times,
}

run : Unit {0}
unfolding create look take_claim claim text_beq trim
run = tt

abbrev row : Activation
row = new_activation (text "r1") (text "tab") (text "oe-1") 5

abbrev spent_rows : List Activation
spent_rows = spent (text "a.io") 9 row ∷ []

claims : claim (row ∷ []) (text " tab") (text "a.io") 9 ≡ (spent_rows, some (text "oe-1"))
unfolding run
claims = refl

abbrev armed_world : World
armed_world = record empty_world { rows = row ∷ []; armed = text "r1" ∷ [] }

abbrev one_read : World
one_read = record armed_world { in_flight = row ∷ [] }

abbrev two_read : World
two_read = record armed_world { in_flight = row ∷ row ∷ [] }

abbrev one_took : World
one_took = record two_read { rows = spent_rows; in_flight = row ∷ []; granted = text "r1" ∷ [] }

abbrev both_took : World
both_took = record one_took { in_flight = [] }

arms : Access empty_world armed_world
unfolding run
arms = arming (text "r1") (text "tab") (text "oe-1") 5 refl

reads : Access armed_world one_read
unfolding run
reads = reading (text "tab") 9 row refl

reads_again : Access one_read two_read
unfolding run
reads_again = reading (text "tab") 9 row refl

takes : Access two_read one_took
unfolding run
takes = taking row (text "a.io") 9 (row ∷ [])

takes_again : Access one_took both_took
unfolding run
takes_again = taking row (text "b.io") 10 []

-- Two tabs read the row before either takes it.
race : Run empty_world both_took
race = next (next (next (next (next begin arms) reads) reads_again) takes) takes_again

granted_at_most_armed_example :
    times (text "r1") (text "r1" ∷ []) ≤ times (text "r1") (text "r1" ∷ [])
granted_at_most_armed_example = granted_at_most_armed (text "r1") race
