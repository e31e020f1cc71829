-- ===== src/Events/Refinement.antt =====
-- The channels of src/delivery/entitlement-events.service.ts as what they are for: at each name, the
-- listeners that wait there.
use open_editor_text_backend.Base.{
  ℕ, Bool, true, false, not, List, [], ◌∷◌, ◌++◌, Option, none, some, Text, text_eq, text_beq,
  text_beq_iff, is_empty, ◌≡◌, ◌≢◌, inl, inr, refl, ap, sym, ◌∙◌, Bool-cases, Option-cases, keep,
  update, length, if◌then◌else◌, trim, add, leb, nat_eq,
}
use mathlib.Core.Path.{fun_ext, subst}
use open_editor_text_backend.Events.{
  Reason, Channel, max_channels, has_key, find_channel, drop_channel, full, admit, new_channel,
  subscribe_found, subscribe, without, unsubscribe_found, unsubscribe, deliver, announce_on,
  publish, listeners_of, listeners_in, with_listener,
}
use open_editor_text_backend.Events.Bounded.{Call, subscribing, unsubscribing, publishing, Calls}
use open_editor_text_backend.Events.Publishing.{
  find-replaced, found_key, listeners-unsubscribe, delivered,
}

-- The abstract state.
abbrev pub Waiting : Type 0
Waiting = Text → List ℕ

abbrev pub at_name : Text → (List ℕ → List ℕ) → Waiting → Waiting
at_name name change w k = if text_beq k name then change (w k) else w k

-- The calls, with the answer to a subscription and the listeners that do not throw.
pub data Event : Type 0 where
  subscribed : (name : Text) (l : ℕ) (granted : Bool) → Event
  unsubscribed : (key : Text) (l : ℕ) → Event
  published : (name : Text) (alive : ℕ → Bool) → Event

abbrev pub if_granted : Bool → Text → ℕ → Waiting → Waiting
if_granted granted key l w = if granted then at_name key (add l) w else w

-- A name without a letter is no name.
abbrev pub effect : Event → Waiting → Waiting
effect (subscribed name l granted) w = if_granted granted (trim name) l w
effect (unsubscribed key l) w = at_name key (without l) w
effect (published name alive) w =
    if is_empty (trim name) then w else at_name (trim name) (keep alive) w

abbrev pub waiting : List Channel → Waiting
waiting channels k = listeners_of k channels

-- Another name is left alone.
module _ (k key : Text) (other : text_beq k key ≡ false) where
  foreign : (x : Channel) → has_key key x ≡ true → has_key k x ≡ false
  foreign x e = elim (Bool-cases (has_key k x)) [
    | inr m ↦ m
    | inl m ↦ absurd (
        apart (
          sym other
          ∙ (text_beq_iff k key).1
              (sym ((text_beq_iff x.key k).0 m) ∙ (text_beq_iff x.key key).0 e)))
  ]
    where
      apart : false ≢ true
      apart m = cc

  find-dropped_other :
      (channels : List Channel)
      → find_channel k (drop_channel key channels) ≡ find_channel k channels
  find-dropped_other [] = refl
  find-dropped_other (x ∷ xs) = elim (Bool-cases (has_key key x)) [
    | inl e ↦ rw (e, foreign x e) (find-dropped_other xs)
    | inr e ↦ elim (Bool-cases (has_key k x)) [
      | inl m ↦ rw (e, m) refl
      | inr m ↦ rw (e, m) (find-dropped_other xs)
    ]
  ]

  find-replaced_other :
      (n : Channel) (channels : List Channel)
      → has_key key n ≡ true
      → find_channel k (update (has_key key) (λ x. n) channels) ≡ find_channel k channels
  find-replaced_other n [] own = refl
  find-replaced_other n (x ∷ xs) own = elim (Bool-cases (has_key key x)) [
    | inl e ↦ rw (e, foreign x e, foreign n own) (find-replaced_other n xs own)
    | inr e ↦ elim (Bool-cases (has_key k x)) [
      | inl m ↦ rw (e, m) refl
      | inr m ↦ rw (e, m) (find-replaced_other n xs own)
    ]
  ]

  listeners-unsubscribe_other :
      (channels : List Channel) (l : ℕ)
      → listeners_of k (unsubscribe channels key l) ≡ listeners_of k channels
  unfolding unsubscribe unsubscribe_found
  listeners-unsubscribe_other channels l = elim (Option-cases (find_channel key channels)) [
    | inl e ↦ rw e refl
    | inr (c, e) ↦
        let own = found_key key channels c e in
        elim (Bool-cases (is_empty (without l c.listeners))) [
          | inl m ↦ rw (e, m, own) (ap listeners_in (find-dropped_other channels))
          | inr m ↦
              let n : Channel = record { key = key; listeners = without l c.listeners } in
              rw (e, m, own)
                (ap listeners_in (find-replaced_other n channels ((text_beq_iff key key).1 refl)))
        ]
  ]

  listeners-deliver_other :
      (fails : ℕ → Reason → Bool) (reason : Reason) (channels : List Channel) (ls : List ℕ)
      → listeners_of k (deliver fails reason key channels ls).0 ≡ listeners_of k channels
  unfolding deliver
  listeners-deliver_other fails reason channels [] = refl
  listeners-deliver_other fails reason channels (l ∷ ls) = elim (Bool-cases (fails l reason)) [
    | inl e ↦ rw e (
        listeners-deliver_other fails reason (unsubscribe channels key l) ls
        ∙ listeners-unsubscribe_other channels l)
    | inr e ↦ rw e (listeners-deliver_other fails reason channels ls)
  ]

-- The new channel at the end.
find-appended :
    (key : Text) (n : Channel) (channels : List Channel)
    → find_channel key channels ≡ none
    → has_key key n ≡ true
    → find_channel key (channels ++ n ∷ []) ≡ some n
find-appended key n [] h own = rw own refl
find-appended key n (x ∷ xs) h own = elim (Bool-cases (has_key key x)) [
  | inl e ↦ absurd (some_none (rw e at h))
  | inr e ↦ rw e (find-appended key n xs (rw e at h) own)
]
  where
    some_none : some x ≢ none
    some_none m = cc

find-appended_other :
    (k : Text) (n : Channel) (channels : List Channel)
    → has_key k n ≡ false
    → find_channel k (channels ++ n ∷ []) ≡ find_channel k channels
find-appended_other k n [] h = rw h refl
find-appended_other k n (x ∷ xs) h = elim (Bool-cases (has_key k x)) [
  | inl e ↦ rw e refl
  | inr e ↦ rw e (find-appended_other k n xs h)
]

at_name-eq :
    (name : Text) (change : List ℕ → List ℕ) (w v : Waiting)
    → v name ≡ change (w name)
    → ((k : Text) → text_beq k name ≡ false → v k ≡ w k)
    → v ≡ at_name name change w
at_name-eq name change w v own others = fun_ext λ k. elim (Bool-cases (text_beq k name)) [
  | inl e ↦ rw (e, (text_beq_iff k name).0 e) own
  | inr e ↦ rw e (others k e)
]

-- A channel that has room takes the listener.
admitted :
    (s channels : List Channel) (key : Text) (l : ℕ) (c : Channel)
    → c.key ≡ key
    → find_channel key channels ≡ some c
    → listeners_of key s ≡ c.listeners
    → ((k : Text) → text_beq k key ≡ false → listeners_of k channels ≡ listeners_of k s)
    → waiting (update (has_key key) (λ x. with_listener l c) channels)
      ≡ at_name key (add l) (waiting s)
admitted s channels key l c own found old others =
    let mine : has_key key (with_listener l c) ≡ true = (text_beq_iff c.key key).1 own in
    at_name-eq key (add l) (waiting s)
      (waiting (update (has_key key) (λ x. with_listener l c) channels))
      (ap listeners_in (find-replaced key c (with_listener l c) channels found mine)
        ∙ ap (add l) (sym old))
      (λ k differs.
        ap listeners_in (find-replaced_other k key differs (with_listener l c) channels mine)
        ∙ others k differs)

subscribe_found-follows :
    (channels : List Channel) (key : Text) (l : ℕ) (c : Option Channel)
    → find_channel key channels ≡ c
    → waiting (subscribe_found channels key l c).0
      ≡ if_granted (subscribe_found channels key l c).1 key l (waiting channels)
unfolding subscribe_found admit
subscribe_found-follows channels key l (some c) h =
    let own = found_key key channels c h in
    elim (Bool-cases (full c)) [
      | inl e ↦
          let crowded : is_empty c.listeners ≡ false = full_crowded c.listeners e in
          rw (e, crowded) refl
      | inr e ↦ rw e (
          subst
            (λ i.
              waiting (update (has_key i) (λ x. with_listener l c) channels)
              ≡ at_name key (add l) (waiting channels))
            (sym own)
            (admitted channels channels key l c own h (ap listeners_in h) (λ k differs. refl)))
    ]
  where
    full_crowded : (ls : List ℕ) → leb 50 (length ls) ≡ true → is_empty ls ≡ false
    full_crowded [] m = cc
    full_crowded (x ∷ xs) m = refl
subscribe_found-follows channels key l none h =
    let own : has_key key (new_channel key) ≡ true = (text_beq_iff key key).1 refl in
    elim (Bool-cases (leb max_channels (length channels))) [
      | inl e ↦ rw e refl
      | inr e ↦ rw e (
          admitted channels (channels ++ new_channel key ∷ []) key l (new_channel key) refl
            (find-appended key (new_channel key) channels h own) (ap listeners_in h)
            (λ k differs. ap listeners_in (
              find-appended_other k (new_channel key) channels
                (foreign k key differs (new_channel key) own))))
    ]

abbrev pub event_of : {s t : List Channel} → Call s t → Event
event_of {s} (subscribing name l) = subscribed name l (subscribe s name l).1
event_of (unsubscribing key l) = unsubscribed key l
event_of (publishing fails name reason) = published name (λ l. not (fails l reason))

abbrev pub effects : {s t : List Channel} → Calls s t → Waiting → Waiting
effects Calls.begin w = w
effects (Calls.next past last) w = effect (event_of last) (effects past w)

pub Call-follows :
    {s t : List Channel} (call : Call s t) → waiting t ≡ effect (event_of call) (waiting s)
unfolding subscribe publish announce_on
Call-follows {s} (subscribing name l) = elim (Bool-cases (is_empty (trim name))) [
  | inl e ↦ rw e refl
  | inr e ↦ rw e (subscribe_found-follows s (trim name) l (find_channel (trim name) s) refl)
]
Call-follows {s} (unsubscribing key l) =
    at_name-eq key (without l) (waiting s) (waiting (unsubscribe s key l))
      (listeners-unsubscribe s key l) (λ k differs. listeners-unsubscribe_other k key differs s l)
Call-follows {s} (publishing fails name reason) = elim (Bool-cases (is_empty (trim name))) [
  | inl e ↦ rw e refl
  | inr e ↦ rw e (
      at_name-eq (trim name) (keep (λ l. not (fails l reason))) (waiting s)
        (waiting (deliver fails reason (trim name) s (listeners_of (trim name) s)).0)
        (delivered fails reason s (trim name))
        (λ k differs.
          listeners-deliver_other k (trim name) differs fails reason s
            (listeners_of (trim name) s)))
]

-- The channels implement a table of the listeners that wait at each name, over any sequence of calls: a
-- subscription that is granted adds its listener at its name, one that is refused changes nothing, the
-- end of one removes its listener there, a publication keeps there the listeners that do not throw, and
-- every other name is left alone.
pub Calls-follow : {s t : List Channel} (calls : Calls s t) → waiting t ≡ effects calls (waiting s)
Calls-follow Calls.begin = refl
Calls-follow (Calls.next past last) =
    Call-follows last ∙ ap (effect (event_of last)) (Calls-follow past)
