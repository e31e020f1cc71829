-- ===== src/Events/Publishing.antt =====
-- Whom src/delivery/entitlement-events.service.ts tells, and whom it drops.
use open_editor_text_backend.Base.{
  ℕ, Bool, true, false, not, ◌&&◌, List, [], ◌∷◌, Option, none, some, Text, text_eq, text_beq_iff,
  is_empty, ◌≡◌, inl, inr, refl, ap, sym, ◌∙◌, arith, Bool-cases, keep, count, update, includes,
  includes-nil, includes-cons, trim, nat_beq, nat_beq_iff, nat_eq, length,
}
use open_editor_text_backend.Events.{
  Reason, Channel, has_key, find_channel, drop_channel, without, unsubscribe_found, unsubscribe,
  deliver, announce_on, publish, listeners_of, listeners_in,
}

keep-keep :
    (f g h : ℕ → Bool) (ls : List ℕ)
    → ((x : ℕ) → (g x && f x) ≡ h x)
    → keep f (keep g ls) ≡ keep h ls
keep-keep f g h [] same = refl
keep-keep f g h (x ∷ xs) same = elim (Bool-cases (g x)) [
  | inl e ↦ elim (Bool-cases (f x)) [
    | inl k ↦ rw (e, k, both e k) (ap (λ ys. x ∷ ys) (keep-keep f g h xs same))
    | inr k ↦ rw (e, k, second k) (keep-keep f g h xs same)
  ]
  | inr e ↦ rw (e, first e) (keep-keep f g h xs same)
]
  where
    both : g x ≡ true → f x ≡ true → h x ≡ true
    both e k = ground (arith, same x, e, k)

    second : f x ≡ false → h x ≡ false
    second k = ground (arith, same x, k)

    first : g x ≡ false → h x ≡ false
    first e = ground (arith, same x, e)

keep_all : (f : ℕ → Bool) (ls : List ℕ) → ((x : ℕ) → f x ≡ true) → keep f ls ≡ ls
keep_all f [] h = refl
keep_all f (x ∷ xs) h = rw (h x) (ap (λ ys. x ∷ ys) (keep_all f xs h))

-- Two tests that agree on the elements of a list.
keep_agree :
    (f g : ℕ → Bool) (ls : List ℕ)
    → ((x : ℕ) → includes x ls ≡ true → f x ≡ g x)
    → keep f ls ≡ keep g ls
keep_agree f g [] h = refl
keep_agree f g (x ∷ xs) h =
    let rest : keep f xs ≡ keep g xs =
      keep_agree f g xs λ y m. h y (ground (arith, includes-cons y x xs, m)) in
    rw (h x (ground (arith, includes-cons x x xs, (nat_beq_iff x x).1 refl)))
      (elim (Bool-cases (g x)) [ inl e ↦ rw e (ap (λ ys. x ∷ ys) rest) | inr e ↦ rw e rest ])

pub find-dropped :
    (key : Text) (channels : List Channel) → find_channel key (drop_channel key channels) ≡ none
find-dropped key [] = refl
find-dropped key (x ∷ xs) = elim (Bool-cases (has_key key x)) [
  | inl e ↦ rw e (find-dropped key xs)
  | inr e ↦ rw (e, e) (find-dropped key xs)
]

pub find-replaced :
    (key : Text) (c n : Channel) (channels : List Channel)
    → find_channel key channels ≡ some c
    → has_key key n ≡ true
    → find_channel key (update (has_key key) (λ x. n) channels) ≡ some n
find-replaced key c n [] h own = cc
find-replaced key c n (x ∷ xs) h own = elim (Bool-cases (has_key key x)) [
  | inl e ↦ rw (e, own) refl
  | inr e ↦ rw (e, e) (find-replaced key c n xs (rw e at h) own)
]

pub found_key :
    (key : Text) (channels : List Channel) (c : Channel)
    → find_channel key channels ≡ some c
    → c.key ≡ key
found_key key [] c h = cc
found_key key (x ∷ xs) c h = elim (Bool-cases (has_key key x)) [
  | inl e ↦ ap (λ y. y.key) (same (rw e at h)) ∙ (text_beq_iff x.key key).0 e
  | inr e ↦ found_key key xs c (rw e at h)
]
  where
    same : some x ≡ some c → c ≡ x
    same m = cc

empty-nil : (ls : List ℕ) → is_empty ls ≡ true → [] ≡ ls
empty-nil [] h = refl
empty-nil (x ∷ xs) h = cc

listeners-unsubscribe_found :
    (channels : List Channel) (key : Text) (l : ℕ) (c : Option Channel)
    → find_channel key channels ≡ c
    → listeners_of key (unsubscribe_found channels l c) ≡ without l (listeners_in c)
unfolding unsubscribe_found
listeners-unsubscribe_found channels key l none h = rw h refl
listeners-unsubscribe_found channels key l (some c) h =
    let own = found_key key channels c h in
    elim (Bool-cases (is_empty (without l c.listeners))) [
      | inl e ↦ rw (e, own, find-dropped key channels) (empty-nil (without l c.listeners) e)
      | inr e ↦
          let n : Channel = record { key = key; listeners = without l c.listeners } in
          rw (e, own, find-replaced key c n channels h ((text_beq_iff key key).1 refl)) refl
    ]

pub listeners-unsubscribe :
    (channels : List Channel) (key : Text) (l : ℕ)
    → listeners_of key (unsubscribe channels key l) ≡ without l (listeners_of key channels)
unfolding unsubscribe
listeners-unsubscribe channels key l =
    listeners-unsubscribe_found channels key l (find_channel key channels) refl

module _ (fails : ℕ → Reason → Bool) (reason : Reason) where
  abbrev survives : List ℕ → ℕ → Bool
  survives ls x = not (includes x ls && fails x reason)

  listeners-deliver :
      (key : Text) (channels : List Channel) (ls : List ℕ)
      → listeners_of key (deliver fails reason key channels ls).0
        ≡ keep (survives ls) (listeners_of key channels)
  unfolding deliver
  listeners-deliver key channels [] =
      sym (keep_all (survives []) (listeners_of key channels) λ x. rw (includes-nil x) refl)
  listeners-deliver key channels (l ∷ ls) = elim (Bool-cases (fails l reason)) [
    | inl e ↦ rw e (
        listeners-deliver key (unsubscribe channels key l) ls
        ∙ ap (keep (survives ls)) (listeners-unsubscribe channels key l)
        ∙ keep-keep (survives ls) (λ x. not (nat_beq x l)) (survives (l ∷ ls))
            (listeners_of key channels) (dropped e))
    | inr e ↦ rw e (
        listeners-deliver key channels ls
        ∙ keep_agree (survives ls) (survives (l ∷ ls)) (listeners_of key channels)
            (λ x m. kept e x))
  ]
    where
      dropped :
          fails l reason ≡ true
          → (x : ℕ) → (not (nat_beq x l) && survives ls x) ≡ survives (l ∷ ls) x
      dropped e x = elim (Bool-cases (nat_beq x l)) [
        | inl k ↦
            let same : fails x reason ≡ true =
              ap (λ y. fails y reason) ((nat_beq_iff x l).0 k) ∙ e in
            ground (arith, includes-cons x l ls, k, same)
        | inr k ↦ ground (arith, includes-cons x l ls, k)
      ]

      kept : fails l reason ≡ false → (x : ℕ) → survives ls x ≡ survives (l ∷ ls) x
      kept e x = elim (Bool-cases (nat_beq x l)) [
        | inl k ↦
            let same : fails x reason ≡ false =
              ap (λ y. fails y reason) ((nat_beq_iff x l).0 k) ∙ e in
            ground (arith, includes-cons x l ls, k, same)
        | inr k ↦ ground (arith, includes-cons x l ls, k)
      ]

  told-deliver :
      (key : Text) (channels : List Channel) (ls : List ℕ)
      → (deliver fails reason key channels ls).1 ≡ keep (λ l. not (fails l reason)) ls
  unfolding deliver
  told-deliver key channels [] = refl
  told-deliver key channels (l ∷ ls) = elim (Bool-cases (fails l reason)) [
    | inl e ↦ rw e (told-deliver key (unsubscribe channels key l) ls)
    | inr e ↦ rw e (ap (λ ys. l ∷ ys) (told-deliver key channels ls))
  ]

  pub delivered :
      (channels : List Channel) (key : Text)
      → listeners_of key (deliver fails reason key channels (listeners_of key channels)).0
        ≡ keep (λ l. not (fails l reason)) (listeners_of key channels)
  delivered channels key =
      listeners-deliver key channels (listeners_of key channels)
      ∙ keep_agree (survives (listeners_of key channels)) (λ l. not (fails l reason))
          (listeners_of key channels) (λ x m. rw m refl)

  -- Publishing on a channel that is named tells exactly those of its listeners that do not throw,
  -- counts them, and keeps exactly them: a listener that throws keeps none of the others waiting.
  pub publish_reaches :
      (channels : List Channel) (name : Text)
      → is_empty (trim name) ≡ false
      → ((publish fails channels name reason).1
          ≡ count (λ l. not (fails l reason)) (listeners_of (trim name) channels))
        × (listeners_of (trim name) (publish fails channels name reason).0
            ≡ keep (λ l. not (fails l reason)) (listeners_of (trim name) channels))
        × ((announce_on fails channels name reason).1
            ≡ keep (λ l. not (fails l reason)) (listeners_of (trim name) channels))
  unfolding publish announce_on
  publish_reaches channels name named =
      let ls = listeners_of (trim name) channels in
      let told = told-deliver (trim name) channels ls in
      rw named (ap (λ ys. length ys) told, delivered channels (trim name), told)
