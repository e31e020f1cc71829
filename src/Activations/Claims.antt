-- ===== src/Activations/Claims.antt =====
-- What a claim of src/delivery/license-activation.service.ts takes, with nothing in between.
use open_editor_text_backend.Base.{
  ℕ, ◌<◌, true, false, List, [], ◌∷◌, Option, none, some, ◌≡◌, inl, inr, refl, ap, sym, ◌∙◌, arith,
  Text, text_beq, text_beq_iff, text_eq, if◌then◌else◌, update, Bool-cases, Option-cases, is_empty,
  trim,
}
use open_editor_text_backend.Activations.{
  Activation, is_unclaimed, is_open, find_activation, spent, look, claimable, take_claim, handed,
  finish, claim,
}

some_eq : (k m : Activation) → some k ≡ some m → k ≡ m
some_eq k m h = cc

find-spent :
    (id install origin : Text) (now : ℕ) (rows : List Activation) (a : Activation)
    → find_activation rows install ≡ some a
    → find_activation (update (is_open id) (spent origin now) rows) install
      ≡ some (if is_open id a then spent origin now a else a)
find-spent id install origin now [] a h = cc
find-spent id install origin now (r ∷ rows) a h =
    rw (kept r) (elim (Bool-cases (text_beq r.install_id install)) [
      | inl e ↦ rw e (
          ap (λ x. some (if is_open id x then spent origin now x else x)) (some_eq r a (rw e at h)))
      | inr e ↦ rw e (find-spent id install origin now rows a (rw e at h))
    ])
  where
    kept :
        (x : Activation)
        → (if is_open id x then spent origin now x else x).install_id ≡ x.install_id
    kept x = ground arith

claimable_lem :
    (now : ℕ) (b a : Activation)
    → (if claimable now b then some b else none) ≡ some a
    → (b ≡ a) × (is_unclaimed a ≡ true) × (now < a.expires_at)
claimable_lem now b a h = elim (Bool-cases (claimable now b)) [
  | inl e ↦
      let same : b ≡ a = some_eq b a (rw e at h) in
      let e' : claimable now a ≡ true = ap (claimable now) (sym same) ∙ e in
      (same, ground arith, ground arith)
  | inr e ↦ absurd (let h' : none ≡ some a = rw e at h in cc)
]

-- What a read of `claim` that goes on has found.
look_lem :
    (rows : List Activation) (install : Text) (now : ℕ) {a : Activation}
    → look rows install now ≡ some a
    → (find_activation rows (trim install) ≡ some a)
      × (is_unclaimed a ≡ true)
      × (now < a.expires_at)
unfolding look
look_lem rows install now {a} h = elim (Option-cases (find_activation rows (trim install))) [
  | inl f ↦ absurd (ground arith)
  | inr (b, f) ↦ elim (Bool-cases (is_empty (trim install))) [
    | inl e ↦ absurd (let h' : none ≡ some a = rw e at h in cc)
    | inr e ↦
        let (same, unclaimed, early) = claimable_lem now b a (rw (e, f) at h) in
        (f ∙ ap some same, unclaimed, early)
  ]
]

-- A row that is claimed stops every later read.
look-claimed :
    (rows : List Activation) (install : Text) (now : ℕ) (a : Activation)
    → find_activation rows (trim install) ≡ some a
    → is_unclaimed a ≡ false
    → look rows install now ≡ none
unfolding look
look-claimed rows install now a f e = elim (Bool-cases (is_empty (trim install))) [
  | inl z ↦ rw z
  | inr z ↦ rw (z, f, e)
]

spent_found :
    (rows : List Activation) (install origin : Text) (now : ℕ) (a : Activation)
    → find_activation rows (trim install) ≡ some a
    → is_unclaimed a ≡ true
    → find_activation (take_claim rows a.id origin now).0 (trim install) ≡ some (spent origin now a)
unfolding take_claim
spent_found rows install origin now a f e =
    find-spent a.id (trim install) origin now rows a f ∙ rw ((text_beq_iff a.id a.id).1 refl, e)

claim_lem :
    (rows : List Activation) (install origin : Text) (now : ℕ)
    → claim rows install origin now ≡ finish rows origin now (look rows install now)
unfolding claim
claim_lem rows install origin now = refl

-- What a claim that hands a licence out has done.
pub record Claimed (rows : List Activation) (install : Text) (now : ℕ) (after : List Activation)
    (lic : Text) : Type 0 where
  pub row : Activation
  pub found : find_activation rows (trim install) ≡ some row
  pub unclaimed : is_unclaimed row ≡ true
  pub in_window : now < row.expires_at
  pub licence : lic ≡ row.lic_id
  -- Whoever comes later, at any time, is handed nothing.
  pub single : (origin : Text) (later : ℕ) → claim after install origin later ≡ (after, none)

-- A claim that hands out a licence found the browser's row unclaimed and inside its window, and hands
-- out that row's licence; every later claim by that browser gets nothing and changes nothing, as
-- long as the row is not armed again.
pub claim_single :
    (rows : List Activation) (install origin : Text) (now : ℕ) {after : List Activation}
    {lic : Text}
    → claim rows install origin now ≡ (after, some lic)
    → Claimed rows install now after lic
claim_single rows install origin now {after} {lic} h = elim (Option-cases (look rows install now)) [
  | inl e ↦ absurd (let h' : none ≡ some lic = ap (λ p. p.1) (opened e) in cc)
  | inr (a, e) ↦
      let h' : ((take_claim rows a.id origin now).0, handed a (take_claim rows a.id origin now).1)
          ≡ (after, some lic) =
        opened e in
      let (found, unclaimed, early) = look_lem rows install now e in
      let rest : (take_claim rows a.id origin now).0 ≡ after = ap (λ p. p.0) h' in
      record {
        row = a;
        found = found;
        unclaimed = unclaimed;
        in_window = early;
        licence = handed_lem a _ lic (ap (λ p. p.1) h');
        single = λ other later.
            claim_lem after install other later
            ∙ ap (finish after other later) (
                look-claimed after install later (spent origin now a)
                  (ap (λ r. find_activation r (trim install)) (sym rest)
                    ∙ spent_found rows install origin now a found unclaimed)
                  refl);
      }
]
  where
    opened :
        {o : Option Activation}
        → look rows install now ≡ o
        → finish rows origin now o ≡ (after, some lic)
    opened e = ap (finish rows origin now) (sym e) ∙ sym (claim_lem rows install origin now) ∙ h

    handed_lem : (a : Activation) (n : ℕ) (l : Text) → handed a n ≡ some l → l ≡ a.lic_id
    handed_lem a n l h = ground arith
