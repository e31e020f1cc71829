-- ===== src/Events/Bounded.antt =====
-- What the channels of src/delivery/entitlement-events.service.ts may hold.
use open_editor_text_backend.Base.{
  ℕ, suc, ◌≤◌, ◌+◌, Bool, true, false, not, ◌&&◌, List, [], ◌∷◌, ◌++◌, Option, none, some, Text,
  text_eq, text_beq, text_beq_iff, is_empty, ◌≡◌, ◌≢◌, inl, inr, refl, ap, sym, ◌∙◌, arith,
  Bool-cases, update, length, trim, add, nat_beq, nat_eq, all, leb, &&_split, length-append,
}
use open_editor_text_backend.Base.Keyed
use open_editor_text_backend.Base.Keyed.{bit}
use open_editor_text_backend.Events.{
  Reason, Channel, max_channels, max_subscribers, has_key, find_channel, drop_channel, full, admit,
  new_channel, subscribe_found, subscribe, without, unsubscribe_found, unsubscribe, deliver,
  publish, listeners_of, with_listener, announce_on,
}

abbrev pub is_held : Channel → Bool
is_held c = not (is_empty c.listeners) && leb (length c.listeners) max_subscribers

abbrev pub channels_with : Text → List Channel → ℕ
channels_with = Keyed.rows_with (λ c. c.key)

-- Few channels, each of its own key, with some listeners but not too many.
pub record IsBounded (channels : List Channel) : Type 0 where
  pub few : length channels ≤ max_channels
  pub unique : (key : Text) → channels_with key channels ≤ 1
  pub held : all is_held channels ≡ true

length-add : (l : ℕ) (ls : List ℕ) → length (add l ls) ≤ suc (length ls)
unfolding add
length-add l [] = omega arith
length-add l (x ∷ xs) = ground (arith, length-add l xs)

is_empty-add : (l : ℕ) (ls : List ℕ) → is_empty (add l ls) ≡ false
unfolding add
is_empty-add l [] = refl
is_empty-add l (x ∷ xs) = ground arith

-- A channel with room is held once it has one more listener.
joined_held : (l : ℕ) (c : Channel) → full c ≡ false → is_held (with_listener l c) ≡ true
joined_held l c h = ground (arith, is_empty-add l c.listeners, length-add l c.listeners, h)

drop_channel-IsBounded :
    (key : Text) (channels : List Channel)
    → IsBounded channels
    → IsBounded (drop_channel key channels)
drop_channel-IsBounded key channels b = record {
  few = omega (arith, b.few, Keyed.length-keep (λ c. not (has_key key c)) channels);
  unique = λ k. omega (
    arith,
    b.unique k,
    Keyed.rows_with-keep (λ (c : Channel). c.key) (λ c. not (has_key key c)) k channels,
  );
  held = Keyed.all-keep is_held (λ c. not (has_key key c)) channels b.held;
}

replaced-IsBounded :
    (c : Channel) (channels : List Channel)
    → is_held c ≡ true
    → IsBounded channels
    → IsBounded (update (has_key c.key) (λ x. c) channels)
replaced-IsBounded c channels h b = record {
  few = rw (Keyed.length-update (has_key c.key) (λ x. c) channels) b.few;
  unique = λ k. omega (
    arith,
    b.unique k,
    Keyed.rows_with-update (λ (x : Channel). x.key) k (has_key c.key) (λ x. c)
        (λ a e. ap (λ y. text_beq y k) (sym ((text_beq_iff a.key c.key).0 e))) channels,
  );
  held = Keyed.all-replaced is_held c (has_key c.key) channels h b.held;
}

-- A new channel at the end, already with its listener.
appended-held :
    (c n : Channel) (channels : List Channel)
    → is_held c ≡ true
    → has_key c.key n ≡ true
    → all is_held channels ≡ true
    → all is_held (update (has_key c.key) (λ x. c) (channels ++ n ∷ [])) ≡ true
appended-held c n [] h k a = rw (k, h) refl
appended-held c n (x ∷ xs) h k a =
    let (first, rest) = &&_split (is_held x) (all is_held xs) a in
    elim (Bool-cases (has_key c.key x)) [
      | inl e ↦ rw (e, h) (appended-held c n xs h k rest)
      | inr e ↦ rw (e, first) (appended-held c n xs h k rest)
    ]

appended-rows :
    (key : Text) (n : Channel) (channels : List Channel)
    → channels_with key (channels ++ n ∷ []) ≡ channels_with key channels + bit (text_beq n.key key)
appended-rows key n [] = ground arith
appended-rows key n (x ∷ xs) = ground (arith, appended-rows key n xs)

missing-rows :
    (key : Text) (channels : List Channel)
    → find_channel key channels ≡ none
    → channels_with key channels ≡ 0
missing-rows key [] h = refl
missing-rows key (x ∷ xs) h = elim (Bool-cases (has_key key x)) [
  | inl e ↦ absurd (some_none (rw e at h))
  | inr e ↦ rw e (missing-rows key xs (rw e at h))
]
  where
    some_none : some x ≢ none
    some_none m = cc

appended-IsBounded :
    (c : Channel) (channels : List Channel)
    → is_held c ≡ true
    → find_channel c.key channels ≡ none
    → leb max_channels (length channels) ≡ false
    → IsBounded channels
    → IsBounded (update (has_key c.key) (λ x. c) (channels ++ new_channel c.key ∷ []))
appended-IsBounded c channels h new room b =
    let own : has_key c.key (new_channel c.key) ≡ true = (text_beq_iff c.key c.key).1 refl in
    record {
      few =
          rw (Keyed.length-update (has_key c.key) (λ x. c) (channels ++ new_channel c.key ∷ []))
            (ground (arith, length-append channels (new_channel c.key ∷ []), room));
      unique = λ k. omega (
        arith,
        once k,
        Keyed.rows_with-update (λ (x : Channel). x.key) k (has_key c.key) (λ x. c)
            (λ a e. ap (λ y. text_beq y k) (sym ((text_beq_iff a.key c.key).0 e)))
            (channels ++ new_channel c.key ∷ []),
      );
      held = appended-held c (new_channel c.key) channels h own b.held;
    }
  where
    once : (k : Text) → channels_with k (channels ++ new_channel c.key ∷ []) ≤ 1
    once k = elim (Bool-cases (text_beq c.key k)) [
      | inl e ↦
          let gone : channels_with k channels ≡ 0 =
            ap (λ y. channels_with y channels) (sym ((text_beq_iff c.key k).0 e))
            ∙ missing-rows c.key channels new in
          ground (arith, appended-rows k (new_channel c.key) channels, gone)
      | inr e ↦ ground (arith, appended-rows k (new_channel c.key) channels, e, b.unique k)
    ]

subscribe_found-IsBounded :
    (channels : List Channel) (key : Text) (l : ℕ) (c : Option Channel)
    → find_channel key channels ≡ c
    → IsBounded channels
    → IsBounded (subscribe_found channels key l c).0
unfolding subscribe_found admit
subscribe_found-IsBounded channels key l (some c) h b = elim (Bool-cases (full c)) [
  | inr e ↦ rw e (replaced-IsBounded (with_listener l c) channels (joined_held l c e) b)
  | inl e ↦ rw e (elim (Bool-cases (is_empty c.listeners)) [
    | inl m ↦ rw m (drop_channel-IsBounded c.key channels b)
    | inr m ↦ rw m b
  ])
]
subscribe_found-IsBounded channels key l none h b =
    elim (Bool-cases (leb max_channels (length channels))) [
      | inl e ↦ rw e b
      | inr e ↦ rw e (
          appended-IsBounded (with_listener l (new_channel key)) channels
            (joined_held l (new_channel key) refl) h e b)
    ]

subscribe-IsBounded :
    (channels : List Channel) (name : Text) (l : ℕ)
    → IsBounded channels
    → IsBounded (subscribe channels name l).0
unfolding subscribe
subscribe-IsBounded channels name l b = elim (Bool-cases (is_empty (trim name))) [
  | inl e ↦ rw e b
  | inr e ↦
      rw e (
        subscribe_found-IsBounded channels (trim name) l (find_channel (trim name) channels) refl b)
]

length-without : (l : ℕ) (ls : List ℕ) → length (without l ls) ≤ length ls
length-without l ls = Keyed.length-keep (λ x. not (nat_beq x l)) ls

unsubscribe_found-IsBounded :
    (channels : List Channel) (key : Text) (l : ℕ) (c : Option Channel)
    → find_channel key channels ≡ c
    → IsBounded channels
    → IsBounded (unsubscribe_found channels l c)
unfolding unsubscribe_found
unsubscribe_found-IsBounded channels key l none h b = b
unsubscribe_found-IsBounded channels key l (some c) h b =
    elim (Bool-cases (is_empty (without l c.listeners))) [
      | inl e ↦ rw e (drop_channel-IsBounded c.key channels b)
      | inr e ↦ rw e (
          replaced-IsBounded (record c { listeners = without l c.listeners }) channels
            (ground (
              arith,
              e,
              length-without l c.listeners,
              Keyed.all-found is_held (has_key key) channels c h b.held,
            ))
            b)
    ]

unsubscribe-IsBounded :
    (channels : List Channel) (key : Text) (l : ℕ)
    → IsBounded channels
    → IsBounded (unsubscribe channels key l)
unfolding unsubscribe
unsubscribe-IsBounded channels key l b =
    unsubscribe_found-IsBounded channels key l (find_channel key channels) refl b

deliver-IsBounded :
    (fails : ℕ → Reason → Bool) (reason : Reason) (key : Text) (channels : List Channel)
    (ls : List ℕ)
    → IsBounded channels
    → IsBounded (deliver fails reason key channels ls).0
unfolding deliver
deliver-IsBounded fails reason key channels [] b = b
deliver-IsBounded fails reason key channels (l ∷ ls) b = elim (Bool-cases (fails l reason)) [
  | inl e ↦ rw e (
      deliver-IsBounded fails reason key (unsubscribe channels key l) ls
        (unsubscribe-IsBounded channels key l b))
  | inr e ↦ rw e (deliver-IsBounded fails reason key channels ls b)
]

publish-IsBounded :
    (fails : ℕ → Reason → Bool) (channels : List Channel) (name : Text) (reason : Reason)
    → IsBounded channels
    → IsBounded (publish fails channels name reason).0
unfolding publish announce_on
publish-IsBounded fails channels name reason b = elim (Bool-cases (is_empty (trim name))) [
  | inl e ↦ rw e b
  | inr e ↦
      rw e
        (deliver-IsBounded fails reason (trim name) channels (listeners_of (trim name) channels) b)
]

-- One call of the service.
pub data Call : List Channel → List Channel → Type 0 where
  subscribing : {cs : List Channel} (name : Text) (l : ℕ) → Call cs (subscribe cs name l).0
  unsubscribing : {cs : List Channel} (key : Text) (l : ℕ) → Call cs (unsubscribe cs key l)
  publishing :
      {cs : List Channel} (fails : ℕ → Reason → Bool) (name : Text) (reason : Reason)
      → Call cs (publish fails cs name reason).0

pub data Calls : List Channel → List Channel → Type 0 where
  begin : {cs : List Channel} → Calls cs cs
  next : {s t u : List Channel} → Calls s t → Call t u → Calls s u

Call-IsBounded : {s t : List Channel} → Call s t → IsBounded s → IsBounded t
Call-IsBounded {s} (subscribing name l) b = subscribe-IsBounded s name l b
Call-IsBounded {s} (unsubscribing key l) b = unsubscribe-IsBounded s key l b
Call-IsBounded {s} (publishing fails name reason) b = publish-IsBounded fails s name reason b

-- Whatever is subscribed, unsubscribed and published, and whichever listeners throw, there are at most
-- 50000 channels, each of its own key, with one to 50 listeners, if that was so at the start.
pub Calls-IsBounded : {s t : List Channel} → Calls s t → IsBounded s → IsBounded t
Calls-IsBounded begin b = b
Calls-IsBounded (next past last) b = Call-IsBounded last (Calls-IsBounded past b)
