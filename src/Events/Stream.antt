-- ===== src/Events/Stream.antt =====
-- The stream of events of src/delivery/session.controller.ts: an editor that holds it open waits on one
-- channel of src/delivery/entitlement-events.service.ts.
use open_editor_text_backend.Base.{
  nat_beq, nat_beq_iff, nat_eq, includes-add, includes-keep, ℕ, Bool, true, false, not, List, Text,
  text_eq, text_beq, text_beq_iff, is_empty, ◌≡◌, ◌≢◌, ◌⊎◌, inl, inr, refl, ap, sym, ◌∙◌, arith,
  Bool-cases, keep, length, if◌then◌else◌, includes, trim, add, subst,
}
use open_editor_text_backend.Base.Trim.{trim_twice}
use open_editor_text_backend.Events.{
  Reason, Channel, subscribe, without, unsubscribe, announce_on, publish, listeners_of,
}
use open_editor_text_backend.Events.Bounded.{subscribing, unsubscribing, Calls}
use open_editor_text_backend.Events.Publishing.{publish_reaches}
use open_editor_text_backend.Events.Refinement.{
  Waiting, at_name, Event, subscribed, unsubscribed, published, effect, event_of, waiting,
  Call-follows,
}

-- `(lic || installId || '').trim()`
abbrev pub stream_name : Text → Text → Text
stream_name lic install_id = trim (if is_empty lic then install_id else lic)

-- The answer of the route: nothing to wait for, a stream that ends at once, or an open stream with the
-- key of its subscription.
pub data Answer : Type 0 where
  no_content : Answer
  ended : Answer
  streaming : Text → Answer

abbrev answer_of : Text → List Channel × Bool → List Channel × Answer
answer_of name r = (r.0, if r.1 then streaming (trim name) else ended)

-- `events_`, with the licence id and the install id of the query, empty where they are missing.
unfoldable pub open_stream : List Channel → Text → Text → ℕ → List Channel × Answer
open_stream channels lic install_id l =
    if is_empty (stream_name lic install_id)
    then (channels, no_content)
    else answer_of (stream_name lic install_id) (subscribe channels (stream_name lic install_id) l)

-- `cleanup`, when the connection closes or fails.
unfoldable pub close_stream : List Channel → Text → ℕ → List Channel
close_stream channels key l = unsubscribe channels key l

abbrev pub waits : ℕ → Text → List Channel → Bool
waits l key channels = includes l (listeners_of key channels)

-- A call that neither ends the subscription of a listener nor finds its connection broken.
abbrev pub Spares : Text → ℕ → Event → Type 0
Spares key l (subscribed name m granted) = Unit
Spares key l (unsubscribed k m) = (k ≢ key) ⊎ (m ≢ l)
Spares key l (published name alive) = alive l ≡ true

abbrev pub Stays : {s t : List Channel} → Text → ℕ → Calls s t → Type 0
Stays key l Calls.begin = Unit
Stays key l (Calls.next past last) = Stays key l past × Spares key l (event_of last)

at_name-waits :
    (key name : Text) (l : ℕ) (change : List ℕ → List ℕ) (w : Waiting)
    → (text_beq key name ≡ true → includes l (change (w key)) ≡ true)
    → includes l (w key) ≡ true
    → includes l (at_name name change w key) ≡ true
at_name-waits key name l change w changed h = elim (Bool-cases (text_beq key name)) [
  | inl e ↦ rw e (changed e)
  | inr e ↦ rw e h
]

-- The effect of a call that spares a listener leaves it waiting.
effect-waits :
    (key : Text) (l : ℕ) (e : Event) (w : Waiting)
    → Spares key l e
    → includes l (w key) ≡ true
    → includes l (effect e w key) ≡ true
effect-waits key l (subscribed name m false) w spares h = h
effect-waits key l (subscribed name m true) w spares h =
    at_name-waits key (trim name) l (add m) w (λ e. rw includes-add (ground (arith, h))) h
effect-waits key l (unsubscribed k m) w spares h =
    at_name-waits key k l (without m) w
      (λ e.
        let differs : nat_beq l m ≡ false = other spares (sym ((text_beq_iff key k).0 e)) in
        rw (includes-keep (λ x. not (nat_beq x m)), differs, h) refl)
      h
  where
    other : (k ≢ key) ⊎ (m ≢ l) → k ≡ key → nat_beq l m ≡ false
    other (inl apart) same = absurd (apart same)
    other (inr apart) same = elim (Bool-cases (nat_beq l m)) [
      | inl n ↦ absurd (apart (sym ((nat_beq_iff l m).0 n)))
      | inr n ↦ n
    ]
effect-waits key l (published name alive) w spares h = elim (Bool-cases (is_empty (trim name))) [
  | inl e ↦ rw e h
  | inr e ↦ rw e (
      at_name-waits key (trim name) l (keep alive) w (λ m. rw (includes-keep alive, spares, h) refl)
        h)
]

waits-Stays :
    {s t : List Channel} (key : Text) (l : ℕ) (calls : Calls s t)
    → Stays key l calls
    → waits l key s ≡ true
    → waits l key t ≡ true
waits-Stays key l Calls.begin stays h = h
waits-Stays key l (Calls.next past last) (before, spares) h =
    ap (λ w. includes l (w key)) (Call-follows last)
    ∙ effect-waits key l (event_of last) _ spares (waits-Stays key l past before h)

-- What an answer with an open stream shows.
pub record IsOpen (t : List Channel) (l : ℕ) (key : Text) : Type 0 where
  pub named : is_empty key ≡ false
  pub waiting_there : waits l key t ≡ true

granted-waits :
    (s : List Channel) (name : Text) (l : ℕ)
    → (subscribe s name l).1 ≡ true
    → waits l (trim name) (subscribe s name l).0 ≡ true
granted-waits s name l granted =
    let mine : text_beq (trim name) (trim name) ≡ true =
      (text_beq_iff (trim name) (trim name)).1 refl in
    let here : nat_beq l l ≡ true = (nat_beq_iff l l).1 refl in
    let added : waiting (subscribe s name l).0 (trim name) ≡ add l (waiting s (trim name)) =
      ap (λ w. w (trim name)) (Call-follows {s = s} (subscribing name l))
      ∙ rw (granted, mine) refl in
    rw (added, includes-add, here) refl

granted-named :
    (s : List Channel) (name : Text) (l : ℕ)
    → (subscribe s name l).1 ≡ true
    → is_empty (trim name) ≡ false
unfolding subscribe
granted-named s name l h = elim (Bool-cases (is_empty (trim name))) [
  | inl e ↦ absurd (apart (rw e at h))
  | inr e ↦ e
]
  where
    apart : false ≢ true
    apart m = cc

opened-IsOpen :
    (s : List Channel) (name : Text) (l : ℕ) {t : List Channel} {key : Text}
    → answer_of name (subscribe s name l) ≡ (t, streaming key)
    → IsOpen t l key
opened-IsOpen s name l {t} {key} h = elim (Bool-cases (subscribe s name l).1) [
  | inr e ↦ absurd (not_ended (rw e at (ap (λ r. r.1) h)))
  | inl e ↦
      let same : trim name ≡ key = key_of (rw e at (ap (λ r. r.1) h)) in
      subst (λ k. IsOpen t l k) same
        (subst (λ cs. IsOpen cs l (trim name)) (ap (λ r. r.0) h)
          (record { named = granted-named s name l e; waiting_there = granted-waits s name l e }))
]
  where
    not_ended : ended ≢ streaming key
    not_ended m = cc

    key_of : streaming (trim name) ≡ streaming key → trim name ≡ key
    key_of m = cc

pub open_stream-IsOpen :
    (s : List Channel) (lic install_id : Text) (l : ℕ) {t : List Channel} {key : Text}
    → open_stream s lic install_id l ≡ (t, streaming key)
    → IsOpen t l key
unfolding open_stream
open_stream-IsOpen s lic install_id l {t} {key} h =
    elim (Bool-cases (is_empty (stream_name lic install_id))) [
      | inl e ↦ absurd (not_empty (ap (λ r. r.1) (rw e at h)))
      | inr e ↦ opened-IsOpen s (stream_name lic install_id) l (rw e at h)
    ]
  where
    not_empty : no_content ≢ streaming key
    not_empty m = cc

-- The key of an open stream is the name that was given, without outer spaces.
pub open_stream_key :
    (s : List Channel) (lic install_id : Text) (l : ℕ) {t : List Channel} {key : Text}
    → open_stream s lic install_id l ≡ (t, streaming key)
    → key ≡ stream_name lic install_id
unfolding open_stream
open_stream_key s lic install_id l {t} {key} h = elim (Bool-cases (is_empty name)) [
  | inl e ↦ absurd (not_empty (ap (λ r. r.1) (rw e at h)))
  | inr e ↦ key_of (subscribe s name l).1 (ap (λ r. r.1) (rw e at h)) ∙ trim_twice _
]
  where
    name : Text
    name = stream_name lic install_id

    not_empty : no_content ≢ streaming key
    not_empty m = cc

    key_of :
        (granted : Bool)
        → (if granted then streaming (trim name) else ended) ≡ streaming key
        → key ≡ trim name
    key_of true m = cc
    key_of false m = cc

-- What an open stream hears, and what is left of it when it is closed.
pub record Served (s : List Channel) (key : Text) (l : ℕ) (fails : ℕ → Reason → Bool) (name : Text)
    (reason : Reason) : Type 0 where
  pub told : includes l (announce_on fails s name reason).1 ≡ true
  pub counted : (publish fails s name reason).1 ≡ length (announce_on fails s name reason).1
  pub kept : waits l key (publish fails s name reason).0 ≡ true
  pub closed : waits l key (close_stream s key l) ≡ false
  pub others : (m : ℕ) → nat_beq m l ≡ false → waits m key (close_stream s key l) ≡ waits m key s

-- An editor whose stream was opened is told of each publication on the name it gave, until its stream is
-- closed or its connection breaks, whatever other editors, publications and broken connections come
-- between; and closing the stream ends the wait of this editor alone.
pub open_stream_hears :
    (s : List Channel) (lic install_id : Text) (l : ℕ) {s' t : List Channel} {key : Text}
    → open_stream s lic install_id l ≡ (s', streaming key)
    → (calls : Calls s' t) → Stays key l calls
    → (fails : ℕ → Reason → Bool) (name : Text) (reason : Reason) → trim name ≡ key
    → fails l reason ≡ false
    → Served t key l fails name reason
unfolding close_stream
open_stream_hears s lic install_id l {s'} {t} {key} h calls stays fails name reason same alive =
    let o = open_stream-IsOpen s lic install_id l h in
    let here : waits l key t ≡ true = waits-Stays key l calls stays o.waiting_there in
    let there : waits l (trim name) t ≡ true = rw same here in
    let (count_is, kept_is, told_is) =
      publish_reaches fails reason t name (ap (λ k. is_empty k) same ∙ o.named) in
    let heard : includes l (keep (λ x. not (fails x reason)) (listeners_of (trim name) t)) ≡ true =
      rw (includes-keep (λ x. not (fails x reason)), alive, there) refl in
    let mine : text_beq key key ≡ true = (text_beq_iff key key).1 refl in
    let left : waiting (unsubscribe t key l) key ≡ without l (waiting t key) =
      ap (λ w. w key) (Call-follows {s = t} (unsubscribing key l)) ∙ rw mine refl in
    let own : nat_beq l l ≡ true = (nat_beq_iff l l).1 refl in
    record {
      told = rw told_is heard;
      counted = count_is ∙ ap (λ ys. length ys) (sym told_is);
      kept = rw (← same, kept_is) heard;
      closed = rw (left, includes-keep (λ x. not (nat_beq x l)), own) refl;
      others = λ m differs. rw (left, includes-keep (λ x. not (nat_beq x l)), differs) refl;
    }
