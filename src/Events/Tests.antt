-- ===== src/Events/Tests.antt =====
-- Runs of src/delivery/entitlement-events.service.ts, and its theorems at inputs.
use open_editor_text_backend.Base.{
  ℕ, zero, suc, Bool, false, List, [], ◌∷◌, text, text_eq, text_beq, is_empty, ◌≡◌, refl, arith,
  trim, add, nat_beq, nat_eq,
}
use open_editor_text_backend.Events.{
  Reason, purchased, Channel, admit, subscribe_found, subscribe, unsubscribe_found, unsubscribe,
  deliver, publish, stats,
}
use open_editor_text_backend.Events.Bounded.{IsBounded, Calls, begin, next, subscribing, publishing}
use open_editor_text_backend.Events.Stream.{no_content, ended, streaming, open_stream}
use open_editor_text_backend.Events.Refinement.{waiting, effects, Calls-follow}

run : Unit {0}
unfolding text_beq trim add admit subscribe_found subscribe unsubscribe_found unsubscribe deliver
    publish open_stream
run = tt

-- The third listener has lost its connection.
abbrev wedged : ℕ → Reason → Bool
wedged l reason = nat_beq l 3

abbrev opened : List Channel
opened = (record { key = text "lic_1"; listeners = 1 ∷ 3 ∷ 2 ∷ [] }) ∷ []

opens :
    (subscribe (subscribe (subscribe [] (text " lic_1") 1).0 (text "lic_1") 3).0 (text "lic_1") 2).0
    ≡ opened
unfolding run
opens = refl

publishes :
    publish wedged opened (text "lic_1") purchased
    ≡ ((record { key = text "lic_1"; listeners = 1 ∷ 2 ∷ [] }) ∷ [], 2)
unfolding run
publishes = refl

-- The last listener takes its channel with it.
closes : unsubscribe (subscribe [] (text "inst_1") 7).0 (text "inst_1") 7 ≡ []
unfolding run
closes = refl

refuses_nameless : subscribe opened (text " ") 5 ≡ (opened, false)
unfolding run
refuses_nameless = refl

-- A channel at its cap turns a listener away.
abbrev up_to : ℕ → List ℕ
up_to zero = []
up_to (suc n) = n ∷ up_to n

abbrev crowded : List Channel
crowded = (record { key = text "lic_1"; listeners = up_to 50 }) ∷ []

refuses_crowd : subscribe crowded (text "lic_1") 50 ≡ (crowded, false)
unfolding run
refuses_crowd = refl

counts : stats crowded ≡ (1, 50)
counts = refl

empty-IsBounded : IsBounded []
empty-IsBounded = record { few = omega arith; unique = λ key. omega arith; held = refl }

abbrev calls :
    Calls [] (publish wedged (subscribe [] (text "lic_1") 3).0 (text "lic_1") purchased).0
calls =
    next (next begin (subscribing (text "lic_1") 3)) (publishing wedged (text "lic_1") purchased)

named : is_empty (trim (text "lic_1")) ≡ false
unfolding run
named = refl

Calls-follow_example :
    waiting (publish wedged (subscribe [] (text "lic_1") 3).0 (text "lic_1") purchased).0
    ≡ effects calls (waiting [])
Calls-follow_example = Calls-follow calls

-- An editor opens its stream beside three others.
abbrev joined : List Channel
joined = (record { key = text "lic_1"; listeners = 1 ∷ 3 ∷ 2 ∷ 7 ∷ [] }) ∷ []

opens_stream : open_stream opened (text " lic_1 ") [] 7 ≡ (joined, streaming (text "lic_1"))
unfolding run
opens_stream = refl

nothing_to_hear : open_stream opened [] (text " ") 7 ≡ (opened, no_content)
unfolding run
nothing_to_hear = refl

turned_away : open_stream crowded (text "lic_1") [] 50 ≡ (crowded, ended)
unfolding run
turned_away = refl
