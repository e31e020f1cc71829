-- ===== src/Licenses/Writes.antt =====
-- The writes that one call of src/licensing/license.service.ts makes, and what they keep.
use open_editor_text_backend.Base.{
  Bool, true, false, Option, none, some, ◌≡◌, ◌⊎◌, inl, inr, refl, ap, sym, ◌∙◌, arith, Text,
  text_beq, text_beq_iff, ok, Ensures, after, weaken, of_ok, Bool-cases, or_throw-eq-ok, List,
  update, Option-cases, ◌>>=◌,
}
use open_editor_text_backend.Licenses.{
  Package, Status, revoked, is_revoked, License, Store, Env, find_license,
}
use open_editor_text_backend.Licenses.Issuing.{issue_from_snapshot-Ensures}
use open_editor_text_backend.Licenses.Rows.{
  IsValid, Wrote, save-Ensures, Wrote-IsValid, find_license-Wrote, find_license-id, ids-update,
  find-update, lic_ids-update,
}
use open_editor_text_backend.Licenses.Reissue.{
  revoke, without_flag, dismiss_flag, regenerate, regenerate_with_domains, replace,
  replacement_input,
}
use open_editor_text_backend.Licenses.Delivery.{DeliveryPatch, Moved}

-- A row of that id is in the table, revoked.
abbrev pub IsRevokedIn : Store → Text → Type 0
IsRevokedIn s id = (l : License) × (find_license s id ≡ some l) × (is_revoked l.status ≡ true)

pub unflagged : Store → Text → Store
unflagged s x = record s { licenses = update (λ m. text_beq m.id x) without_flag s.licenses }

pub dismissed_store :
    (s : Store) (id : Text) {t : Store} {l : License}
    → dismiss_flag s id ≡ ok (t, l)
    → (x : Text) × (t ≡ unflagged s x)
unfolding dismiss_flag unflagged ◌>>=◌
dismissed_store s id e = elim (Option-cases (find_license s id)) [
  | inl f ↦ absurd (ground arith)
  | inr (m, f) ↦ (m.id, ground arith)
]

unflagged-IsValid : (s : Store) (x : Text) → IsValid s → IsValid (unflagged s x)
unfolding unflagged
unflagged-IsValid s x v = record {
  rows = rw (ids-update without_flag (λ l. refl) x s.licenses) v.rows;
  licences = rw (lic_ids-update without_flag (λ l. refl) x (λ l. refl) s.licenses) v.licences;
}

unflagged-revoked : (s : Store) (x id : Text) → IsRevokedIn s id → IsRevokedIn (unflagged s x) id
unfolding unflagged
unflagged-revoked s x id (m, found, r) = (
  _,
  find-update without_flag (λ l. refl) x s.licenses id m found,
  elim (Bool-cases (text_beq m.id x)) [ inl e ↦ rw e r | inr e ↦ rw e r ],
)

-- Writes that a call makes: each adds a row, or changes one without reviving it.
pub data Writes : Store → Store → Type 0 where
  added : {s t : Store} {l : License} → find_license s l.id ≡ none → Wrote s l t → Writes s t
  changed :
      {s t : Store} {old l : License}
      → find_license s l.id ≡ some old
      → (is_revoked old.status ≡ false) ⊎ (is_revoked l.status ≡ true)
      → Wrote s l t
      → Writes s t
  unflagging : {s t : Store} (x : Text) → t ≡ unflagged s x → Writes s t
  both : {s t u : Store} → Writes s t → Writes t u → Writes s u

pub Writes-IsValid : {s t : Store} → Writes s t → IsValid s → IsValid t
Writes-IsValid (added h w) v = Wrote-IsValid w v
Writes-IsValid (changed h k w) v = Wrote-IsValid w v
Writes-IsValid {s} (unflagging x e) v = rw e (unflagged-IsValid s x v)
Writes-IsValid (both a b) v = Writes-IsValid b (Writes-IsValid a v)

Wrote-revoked :
    {s t : Store} {l : License} (id : Text) (m : License)
    → Wrote s l t
    → find_license s id ≡ some m
    → is_revoked m.status ≡ true
    → (text_beq l.id id ≡ false) ⊎ (is_revoked l.status ≡ true)
    → IsRevokedIn t id
Wrote-revoked {l} id m w found r (inl other) = (m, find_license-Wrote w id ∙ rw other found, r)
Wrote-revoked {l} id m w found r (inr down) = elim (Bool-cases (text_beq l.id id)) [
  | inl same ↦ (l, find_license-Wrote w id ∙ rw same refl, down)
  | inr other ↦ (m, find_license-Wrote w id ∙ rw other found, r)
]

-- A row that is found has another id than one that no row has.
other_id :
    (s : Store) (a b : Text) {m : License}
    → find_license s a ≡ none
    → find_license s b ≡ some m
    → text_beq a b ≡ false
other_id s a b h k = elim (Bool-cases (text_beq a b)) [
  | inl e ↦ absurd (let g = ap (find_license s) ((text_beq_iff a b).0 e) in cc)
  | inr e ↦ e
]

not_revived :
    (s : Store) (id : Text) (m old l : License)
    → find_license s id ≡ some m
    → is_revoked m.status ≡ true
    → find_license s l.id ≡ some old
    → is_revoked old.status ≡ false
    → text_beq l.id id ≡ false
not_revived s id m old l found r known live = elim (Bool-cases (text_beq l.id id)) [
  | inl e ↦ absurd (let g = ap (find_license s) ((text_beq_iff l.id id).0 e) in cc)
  | inr e ↦ e
]

pub Writes-revoked : {s t : Store} (id : Text) → Writes s t → IsRevokedIn s id → IsRevokedIn t id
Writes-revoked {s} id (unflagging x e) h = rw e (unflagged-revoked s x id h)
Writes-revoked id (both a b) h = Writes-revoked id b (Writes-revoked id a h)
Writes-revoked {s} id (added {l} absent w) (m, found, r) =
    Wrote-revoked id m w found r (inl (other_id s l.id id absent found))
Writes-revoked {s} id (changed known (inr down) w) (m, found, r) =
    Wrote-revoked id m w found r (inr down)
Writes-revoked {s} id (changed {old} {l} known (inl live) w) (m, found, r) =
    Wrote-revoked id m w found r (inl (not_revived s id m old l found r known live))

-- A call that changes one row, which keeps its id.
pub write_changed :
    {s t : Store} (id : Text) {old l : License}
    → find_license s id ≡ some old
    → l.id ≡ old.id
    → (is_revoked old.status ≡ false) ⊎ (is_revoked l.status ≡ true)
    → Wrote s l t
    → Writes s t
write_changed {s} id found same k w =
    changed (ap (find_license s) (same ∙ find_license-id s id found) ∙ found) k w

pub revoke-Writes :
    (s : Store) (id : Text) → Ensures (λ (r : Store × License). Writes s r.0) (revoke s id)
unfolding revoke
revoke-Writes s id = after λ old found.
    weaken (λ r w. write_changed id (or_throw-eq-ok _ _ found) refl (inr refl) w.0)
      (save-Ensures s _)

kept_status : (a b : Status) → b ≡ a → (is_revoked a ≡ false) ⊎ (is_revoked b ≡ true)
kept_status a b e = elim (Bool-cases (is_revoked a)) [
  | inl h ↦ inr (rw (e, h) refl)
  | inr h ↦ inl h
]

pub Moved-Writes :
    (s : Store) (id : Text) (patch : DeliveryPatch) (t : Store) (l : License)
    → Moved s id patch t l
    → Writes s t
Moved-Writes s id patch t l m =
    write_changed id m.found (ap (λ z. z.id) m.same)
      (kept_status m.old.status l.status (ap (λ z. z.status) m.same)) m.wrote

replace-Writes :
    (env : Env) (s : Store) (id : Text) (old : License) (p : Option Package) (domains : List Text)
    (bound : Bool)
    → find_license s id ≡ some old
    → find_license s env.row_id ≡ none
    → Ensures (λ (r : Store × License). Writes s r.0) (replace env s old p domains bound)
unfolding replace
replace-Writes env s id old p domains bound found absent = after λ r e.
    let w = (of_ok (save-Ensures s (record old { status = revoked })) e).0 in
    weaken
      (λ q m.
        both (write_changed id found refl (inr refl) w)
          (added (still_absent r.0 q.1.id w (ap (λ z. z.id) m.row)) m.wrote))
      (issue_from_snapshot-Ensures env r.0 (replacement_input old p domains bound))
  where
    differs : text_beq old.id env.row_id ≡ false
    differs = elim (Bool-cases (text_beq old.id env.row_id)) [
      | inl e ↦ absurd (
          let g =
            ap (find_license s)
              (sym (find_license-id s id found) ∙ (text_beq_iff old.id env.row_id).0 e) in
          cc)
      | inr e ↦ e
    ]

    still_absent :
        (t : Store) (row : Text)
        → Wrote s (record old { status = revoked }) t
        → row ≡ env.row_id
        → find_license t row ≡ none
    still_absent t row w e = rw e (find_license-Wrote w env.row_id ∙ rw differs absent)

pub regenerate-Writes :
    (env : Env) (s : Store) (id : Text)
    → find_license s env.row_id ≡ none
    → Ensures (λ (r : Store × License). Writes s r.0) (regenerate env s id)
unfolding regenerate
regenerate-Writes env s id absent = after λ old found. after λ _ _.
    after λ _ _. after λ _ _. replace-Writes env s id old _ _ _ (or_throw-eq-ok _ _ found) absent

pub rebind-Writes :
    (env : Env) (s : Store) (id : Text) (domains : List Text)
    → find_license s env.row_id ≡ none
    → Ensures (λ (r : Store × License). Writes s r.0) (regenerate_with_domains env s id domains)
unfolding regenerate_with_domains
rebind-Writes env s id domains absent = after λ _ _. after λ _ _. after λ old found. after λ _ _.
    after λ _ _.
      after λ _ _. after λ _ _. replace-Writes env s id old _ _ _ (or_throw-eq-ok _ _ found) absent
