-- ===== src/Sharing.antt =====
-- src/portal/sharing-detector.service.ts: whether a licence looks shared, and the soft flag on its row.
-- How Node prints a number is a parameter; the settings are a record.
pub mod Soft
mod Tests
use open_editor_text_backend.Base.{
  ℕ, zero, suc, ◌≤◌, ◌+◌, Bool, true, false, not, ◌&&◌, ◌||◌, List, [], ◌∷◌, ◌++◌, Option, none,
  some, Text, text, text_eq, text_beq, text_beq_iff, is_empty, ◌≡◌, ◌≢◌, ◌⊎◌, inl, inr, refl, ap,
  sym, ◌∙◌, arith, Bool-cases, Option-cases, not-true, Result, ok, err, Error, guard, ◌>>=◌,
  Ensures, returns, after, of_ok, weaken, guard-eq-ok, bad_request, not_found, conflict, failure,
  unavailable, or_else, find, any, keep, count, update, length, if◌then◌else◌, includes,
  includes-nil, includes-cons, Distinct, All, dedup, map, ◌*◌, ◌/◌, leb,
}
use open_editor_text_backend.Base.Int.{ℤ, pos, ◌-ℤ◌, ltb_ℤ, ℤ_beq}
use open_editor_text_backend.Licenses.{License}

-- `RefreshEventEntity`; its time in milliseconds.
pub record RefreshEvent : Type 0 where
  pub lic_id : Text
  pub ip : Text
  pub origin : Text
  pub outcome : Text
  pub created_ms : ℕ

-- `SharingSignal`.
pub record Signal : Type 0 where
  pub anomalous : Bool
  pub distinct_origins : ℕ
  pub distinct_ips : ℕ
  pub reason : Text

-- The fields that the constructor sets.
pub record Detector : Type 0 where
  pub window_ms : ℕ
  pub max_origins : ℕ
  pub max_ips : ℕ

-- `Math.round(this.windowMs / 3600000)`
abbrev window_hours : Detector → ℕ
window_hours d = (2 * d.window_ms + 3600000) / 7200000

-- `COUNTED_OUTCOMES`.
abbrev pub counted_outcomes : List Text
counted_outcomes = text "refreshed" ∷ text "origin-blocked" ∷ []

abbrev pub is_counted : Detector → Text → ℕ → RefreshEvent → Bool
is_counted d lic_id now_ms e =
    text_beq e.lic_id lic_id
    && includes e.outcome counted_outcomes
    && ltb_ℤ (pos now_ms -ℤ pos d.window_ms) (pos e.created_ms)

-- The set of the values of a column that are not empty.
abbrev pub distinct_values : (RefreshEvent → Text) → List RefreshEvent → List Text
distinct_values column rows = dedup (keep (λ v. not (is_empty v)) (map column rows))

abbrev origins_part : (ℕ → Text) → ℕ → Text
origins_part show n = show n ++ text " distinct origins"

abbrev ips_part : (ℕ → Text) → ℕ → Text
ips_part show n = show n ++ text " distinct IPs"

-- `parts.join(' + ')`.
abbrev parts : (ℕ → Text) → Bool → Bool → ℕ → ℕ → Text
parts show true true o i = origins_part show o ++ text " + " ++ ips_part show i
parts show true false o i = origins_part show o
parts show false true o i = ips_part show i
parts show false false o i = []

abbrev reason_of : (ℕ → Text) → Detector → Bool → Bool → ℕ → ℕ → Text
reason_of show d over_origins over_ips o i =
    if over_origins || over_ips
    then parts show over_origins over_ips o i ++ text " in " ++ show (window_hours d) ++ text "h"
    else []

abbrev signal_of : (ℕ → Text) → Detector → ℕ → ℕ → Signal
signal_of show d o i = record {
  anomalous = not (leb o d.max_origins) || not (leb i d.max_ips);
  distinct_origins = o;
  distinct_ips = i;
  reason = reason_of show d (not (leb o d.max_origins)) (not (leb i d.max_ips)) o i;
}

abbrev pub quiet : Signal
quiet = record { anomalous = false; distinct_origins = 0; distinct_ips = 0; reason = [] }

-- `evaluate`.
unfoldable pub evaluate : (ℕ → Text) → Detector → List RefreshEvent → Text → ℕ → Signal
evaluate show d events lic_id now_ms =
    let rows = keep (is_counted d lic_id now_ms) events in
    if is_empty lic_id
    then quiet
    else signal_of show d (length (distinct_values (λ e. e.origin) rows))
        (length (distinct_values (λ e. e.ip) rows))

abbrev pub find_by_licence : Text → List License → Option License
find_by_licence lic_id rows = find (λ l. text_beq l.lic_id lic_id) rows

-- The update of two columns: the reason, and the time unless the row that was read had one.
abbrev pub patched : License → Text → ℤ → License → License
patched read reason now r = record r {
  flag_reason = reason;
  flagged_at = if ℤ_beq read.flagged_at (pos 0) then now else r.flagged_at;
}

unfoldable pub flag_row : List License → Signal → ℤ → Option License → List License
flag_row rows signal now none = rows
flag_row rows signal now (some l) =
    update (λ r. text_beq r.id l.id) (patched l signal.reason now) rows

-- `evaluateAndFlag`.
unfoldable pub evaluate_and_flag :
    (ℕ → Text) → Detector → List RefreshEvent → List License → Text → ℕ → List License × Signal
unfolding evaluate flag_row
evaluate_and_flag show d events rows lic_id now_ms =
    let signal = evaluate show d events lic_id now_ms in
    if signal.anomalous
    then (flag_row rows signal (pos (now_ms / 1000)) (find_by_licence lic_id rows), signal)
    else (rows, signal)
