-- ===== src/Sharing/Soft.antt =====
-- The flag of src/portal/sharing-detector.service.ts is soft.
use open_editor_text_backend.Base.{
  ◌⊎◌, arith, ◌/◌, ℕ, Bool, true, false, List, [], ◌∷◌, Option, none, some, Text, text_eq, text_beq,
  text_beq_iff, ◌≡◌, ◌≢◌, inl, inr, refl, ap, sym, ◌∙◌, Bool-cases, update, map,
}
use open_editor_text_backend.Base.Int.{ℤ, pos, ℤ_beq, eq_of_parts}
use open_editor_text_backend.Licenses.{License}
use open_editor_text_backend.Licenses.Reissue.{without_flag}
use open_editor_text_backend.Sharing.{
  RefreshEvent, Detector, Signal, evaluate, find_by_licence, patched, flag_row, evaluate_and_flag,
}

update-without_flag :
    (p : License → Bool) (l : License) (reason : Text) (now : ℤ) (rows : List License)
    → map without_flag (update p (patched l reason now) rows) ≡ map without_flag rows
update-without_flag p l reason now [] = refl
update-without_flag p l reason now (x ∷ xs) = elim (Bool-cases (p x)) [
  | inl e ↦ rw e (ap (λ ys. without_flag x ∷ ys) (update-without_flag p l reason now xs))
  | inr e ↦ rw e (ap (λ ys. without_flag x ∷ ys) (update-without_flag p l reason now xs))
]

find-update :
    (lic_id : Text) (l : License) (reason : Text) (now : ℤ) (rows : List License)
    → find_by_licence lic_id rows ≡ some l
    → find_by_licence lic_id (update (λ r. text_beq r.id l.id) (patched l reason now) rows)
      ≡ some (patched l reason now l)
find-update lic_id l reason now [] h = cc
find-update lic_id l reason now (x ∷ xs) h = elim (Bool-cases (text_beq x.lic_id lic_id)) [
  | inl e ↦
      let here : x ≡ l = same (rw e at h) in
      let own : text_beq x.id l.id ≡ true = (text_beq_iff x.id l.id).1 (ap (λ y. y.id) here) in
      rw (own, e) (ap (λ y. some (patched l reason now y)) here)
  | inr e ↦ elim (Bool-cases (text_beq x.id l.id)) [
    | inl k ↦ rw (k, e) (find-update lic_id l reason now xs (rw e at h))
    | inr k ↦ rw (k, e) (find-update lic_id l reason now xs (rw e at h))
  ]
]
  where
    same : some x ≡ some l → x ≡ l
    same m = cc

-- The flag of a row after a signal: its reason, and the time of the first of the signals.
pub record FlaggedAs (signal : Signal) (now : ℤ) (old new : License) : Type 0 where
  pub reason : new.flag_reason ≡ signal.reason
  pub first : old.flagged_at ≡ pos 0 → new.flagged_at ≡ now
  pub before : old.flagged_at ≢ pos 0 → new.flagged_at ≡ old.flagged_at
  pub rest : without_flag new ≡ without_flag old

patched-FlaggedAs :
    (signal : Signal) (now : ℤ) (l : License)
    → FlaggedAs signal now l (patched l signal.reason now l)
patched-FlaggedAs signal now l = record {
  reason = refl;
  first = λ e. rw e refl;
  before = λ other. kept (Bool-cases (ℤ_beq l.flagged_at (pos 0))) other;
  rest = refl;
}
  where
    kept :
        (ℤ_beq l.flagged_at (pos 0) ≡ true) ⊎ (ℤ_beq l.flagged_at (pos 0) ≡ false)
        → l.flagged_at ≢ pos 0
        → (patched l signal.reason now l).flagged_at ≡ l.flagged_at
    kept (inl e) other = absurd (other (eq_of_parts l.flagged_at (pos 0) (ground arith)))
    kept (inr e) other = rw e refl

-- What a run of the detector left of the rows.
pub record Flagged (signal : Signal) (lic_id : Text) (now : ℤ) (rows after : List License)
    : Type 0 where
  -- But for the two columns of the flag, each row is as it was.
  pub soft : map without_flag after ≡ map without_flag rows
  -- Nothing is written without a signal.
  pub quiet : signal.anomalous ≡ false → after ≡ rows
  -- With one, the row of the licence has its reason, and the time of its first flag.
  pub flagged :
      signal.anomalous ≡ true
      → (l : License) → find_by_licence lic_id rows ≡ some l
      → (m : License) × ((find_by_licence lic_id after ≡ some m) × FlaggedAs signal now l m)

flag_row-soft :
    (rows : List License) (signal : Signal) (now : ℤ) (l : Option License)
    → map without_flag (flag_row rows signal now l) ≡ map without_flag rows
unfolding flag_row
flag_row-soft rows signal now none = refl
flag_row-soft rows signal now (some l) =
    update-without_flag (λ r. text_beq r.id l.id) l signal.reason now rows

-- A run of the detector changes nothing of any row but the two columns of its flag, so no status, token
-- or term: without a signal it writes nothing, and with one the row of the licence gets the reason,
-- and the time of this run unless it was flagged before, when it keeps the time that it has.
pub evaluate_and_flag_soft :
    (show : ℕ → Text) (d : Detector) (events : List RefreshEvent) (rows : List License)
    (lic_id : Text) (now_ms : ℕ)
    → Flagged
        (evaluate show d events lic_id now_ms)
        lic_id
        (pos (now_ms / 1000))
        rows
        (evaluate_and_flag show d events rows lic_id now_ms).0
unfolding evaluate_and_flag
evaluate_and_flag_soft show d events rows lic_id now_ms =
    let signal = evaluate show d events lic_id now_ms in
    elim (Bool-cases signal.anomalous) [
      | inl e ↦ rw e (record {
        soft = flag_row-soft rows signal (pos (now_ms / 1000)) (find_by_licence lic_id rows);
        quiet = λ k. absurd (true_false (sym e ∙ k));
        flagged = λ k l found. (
          patched l signal.reason (pos (now_ms / 1000)) l,
          (flagged signal l found, patched-FlaggedAs signal (pos (now_ms / 1000)) l),
        );
      })
      | inr e ↦ rw e (record {
        soft = refl;
        quiet = λ k. refl;
        flagged = λ k. absurd (true_false (sym k ∙ e));
      })
    ]
  where
    true_false : true ≢ false
    true_false k = cc

    flagged :
        (signal : Signal) (l : License)
        → find_by_licence lic_id rows ≡ some l
        → find_by_licence lic_id
            (flag_row rows signal (pos (now_ms / 1000)) (find_by_licence lic_id rows))
          ≡ some (patched l signal.reason (pos (now_ms / 1000)) l)
    flagged signal l found =
        rw (found, flag_row) (find-update lic_id l signal.reason (pos (now_ms / 1000)) rows found)
