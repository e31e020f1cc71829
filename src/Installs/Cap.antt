-- ===== src/Installs/Cap.antt =====
-- What the cap of src/delivery/license-install.service.ts promises.
use open_editor_text_backend.Base.{
  ℕ, ◌≤◌, ◌<◌, ◌+◌, Bool, true, false, ◌&&◌, ◌||◌, List, [], ◌∷◌, ◌++◌, Option, none, some, ◌≡◌,
  ◌≢◌, ◌⊎◌, ◌↔◌, inl, inr, refl, ap, sym, ◌∙◌, arith, Text, leb, if◌then◌else◌, is_empty,
  ne-is_empty, Bool-cases,
}
use open_editor_text_backend.Installs.{
  Install, active_count, is_seat, find_seat, touch, record_seat, check_seat, check,
}

active-touch :
    (rows : List Install) (lic install origin : Text) (blocked : Bool) (i : Install)
    → find_seat rows lic install ≡ some i
    → (active_count (touch rows lic install origin blocked) lic + (if i.blocked then 0 else 1))
      ≡ (active_count rows lic + (if blocked then 0 else 1))
unfolding touch
active-touch [] lic install origin blocked i h = cc
active-touch (r ∷ rows) lic install origin blocked i h = elim (Bool-cases (is_seat lic install r)) [
  | inl e ↦
      let same : r.blocked ≡ i.blocked =
        ap (λ z. z.blocked) (let h' : some r ≡ some i = rw e at h in the_same h') in
      ground (arith, e, same)
  | inr e ↦
      let h' : find_seat rows lic install ≡ some i = rw e at h in
      ground (arith, e, active-touch rows lic install origin blocked i h')
]
  where
    the_same : some r ≡ some i → r ≡ i
    the_same h = cc

active-append :
    (rows : List Install) (lic : Text) (i : Install)
    → active_count (rows ++ i ∷ []) lic ≡ active_count rows lic + active_count (i ∷ []) lic
active-append [] lic i = ground arith
active-append (r ∷ rows) lic i = ground (arith, active-append rows lic i)

check_seat-cap :
    (rows : List Install) (lic install origin : Text) (cap : ℕ) (o : Option Install)
    → find_seat rows lic install ≡ o
    → active_count rows lic ≤ cap
    → active_count (check_seat rows lic install origin cap o).0 lic ≤ cap
unfolding record_seat
check_seat-cap rows lic install origin cap none f h =
    elim (Bool-cases (leb cap (active_count rows lic))) [
      | inl e ↦ rw (e, active-append rows lic _) (ground (arith, h))
      | inr e ↦ rw (e, active-append rows lic _) (ground (arith, h, e))
    ]
check_seat-cap rows lic install origin cap (some i) f h =
    elim (Bool-cases (i.blocked && leb cap (active_count rows lic))) [
      | inl e ↦ rw e (ground (arith, e, h, active-touch rows lic install origin true i f))
      | inr e ↦ rw e (ground (arith, e, h, active-touch rows lic install origin false i f))
    ]

-- A check never lets more browsers of a licence be active than its positive cap, if there were no more
-- before.
pub check_within_cap :
    (rows : List Install) (lic install origin : Text) (cap : ℕ)
    → active_count rows lic ≤ cap
    → active_count (check rows lic install origin cap).0 lic ≤ cap
unfolding check
check_within_cap rows lic install origin cap h = elim (Bool-cases (leb cap 0)) [
  | inl e ↦ rw e h
  | inr e ↦ elim (Bool-cases (is_empty lic || is_empty install)) [
    | inl e' ↦ rw (e, e') h
    | inr e' ↦ rw (e, e') (check_seat-cap rows lic install origin cap _ refl h)
  ]
]

-- The browser has a row that is not blocked, or the licence has fewer active browsers than the cap.
abbrev pub HasRoom : List Install → Text → Text → ℕ → Type 0
HasRoom rows lic install cap =
    ((i : Install) × (find_seat rows lic install ≡ some i) × (i.blocked ≡ false))
    ⊎ (active_count rows lic < cap)

check_seat_iff :
    (rows : List Install) (lic install origin : Text) (cap : ℕ) (o : Option Install)
    → find_seat rows lic install ≡ o
    → ((check_seat rows lic install origin cap o).1.allowed ≡ true) ↔ HasRoom rows lic install cap
check_seat_iff rows lic install origin cap none f =
    elim (Bool-cases (leb cap (active_count rows lic))) [
      | inl e ↦ (
        λ h. absurd (let h' : false ≡ true = rw e at h in cc),
        elim [ inl (i, g, b) ↦ absurd (cc) | inr l ↦ absurd (ground arith) ],
      )
      | inr e ↦ (λ h. inr (ground arith), λ h. rw e refl)
    ]
check_seat_iff rows lic install origin cap (some i) f = elim (Bool-cases i.blocked) [
  | inr b ↦ (λ h. inl (i, f, b), λ h. rw b refl)
  | inl b ↦ elim (Bool-cases (leb cap (active_count rows lic))) [
    | inr e ↦ (λ h. inr (ground arith), λ h. rw (b, e) refl)
    | inl e ↦ (
      λ h. absurd (let h' : false ≡ true = rw (b, e) at h in cc),
      elim [
        | inl (j, g, c) ↦ absurd (let same : j.blocked ≡ i.blocked = seat_eq j g in cc)
        | inr l ↦ absurd (ground arith)
      ],
    )
  ]
]
  where
    some_blocked : (j : Install) → some j ≡ some i → j.blocked ≡ i.blocked
    some_blocked j h = cc

    seat_eq : (j : Install) → find_seat rows lic install ≡ some j → j.blocked ≡ i.blocked
    seat_eq j g = let h : some j ≡ some i = sym g ∙ f in some_blocked j h

-- Under a positive cap, a browser that names itself is let through exactly when it already has a row
-- that is not blocked, however many there are, or when the licence is below its cap.
pub check_allowed_iff :
    (rows : List Install) (lic install origin : Text) (cap : ℕ)
    → 1 ≤ cap
    → lic ≢ []
    → install ≢ []
    → ((check rows lic install origin cap).1.allowed ≡ true) ↔ HasRoom rows lic install cap
unfolding check
check_allowed_iff rows lic install origin cap p l m =
    rw (positive, ne-is_empty lic l, ne-is_empty install m)
      (check_seat_iff rows lic install origin cap _ refl)
  where
    positive : leb cap 0 ≡ false
    positive = ground arith
