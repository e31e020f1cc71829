-- ===== src/Licenses/History.antt =====
-- Any sequence of the operations of src/licensing/license.service.ts on the tables.
use open_editor_text_backend.Base.{Option, none, ◌≡◌, inl, ap, ◌∙◌, Text, ok, of_ok, List}
use open_editor_text_backend.Base.Int.{ℤ, pos, ◌≤ℤ◌}
use open_editor_text_backend.Licenses.{License, Store, Env, find_license}
use open_editor_text_backend.Licenses.Issue.{IssueInput, SnapshotInput, issue, issue_from_snapshot}
use open_editor_text_backend.Licenses.Issuing.{issue-Ensures, issue_from_snapshot-Ensures}
use open_editor_text_backend.Licenses.Rows.{IsValid}
use open_editor_text_backend.Licenses.Reissue.{
  renew, revoke, dismiss_flag, regenerate, regenerate_with_domains,
}
use open_editor_text_backend.Licenses.Delivery.{DeliveryPatch, set_delivery, set_delivery-Ensures}
use open_editor_text_backend.Licenses.Renewed.{renew-Ensures}
use open_editor_text_backend.Licenses.Writes.{
  IsRevokedIn, Writes, added, unflagging, dismissed_store, Writes-IsValid, Writes-revoked,
  write_changed, revoke-Writes, Moved-Writes, regenerate-Writes, rebind-Writes,
}

-- One call that succeeded; a call that throws leaves the tables as they were. Each call has its own
-- clocks, and the database draws an id that no row has for a row that is added.
pub data Step : Store → Store → Type 0 where
  issued :
      {s t : Store} {l : License} (env : Env) (input : IssueInput)
      → find_license s env.row_id ≡ none
      → issue env s input ≡ ok (t, l)
      → Step s t
  minted :
      {s t : Store} {l : License} (env : Env) (input : SnapshotInput)
      → find_license s env.row_id ≡ none
      → issue_from_snapshot env s input ≡ ok (t, l)
      → Step s t
  renewed :
      {s t : Store} {l : License} (env : Env) (id : Text) (ttl : Option ℤ)
      → pos 0 ≤ℤ env.now
      → renew env s id ttl ≡ ok (t, l)
      → Step s t
  revoking : {s t : Store} {l : License} (id : Text) → revoke s id ≡ ok (t, l) → Step s t
  dismissed : {s t : Store} {l : License} (id : Text) → dismiss_flag s id ≡ ok (t, l) → Step s t
  moved :
      {s t : Store} {l : License} (id : Text) (patch : DeliveryPatch)
      → set_delivery s id patch ≡ ok (t, l)
      → Step s t
  regenerated :
      {s t : Store} {l : License} (env : Env) (id : Text)
      → find_license s env.row_id ≡ none
      → regenerate env s id ≡ ok (t, l)
      → Step s t
  rebound :
      {s t : Store} {l : License} (env : Env) (id : Text) (domains : List Text)
      → find_license s env.row_id ≡ none
      → regenerate_with_domains env s id domains ≡ ok (t, l)
      → Step s t

pub data Steps : Store → Store → Type 0 where
  start : {s : Store} → Steps s s
  followed : {s t u : Store} → Steps s t → Step t u → Steps s u

Step-Writes : {s t : Store} → Step s t → Writes s t
Step-Writes {s} (issued env input absent e) =
    let m = of_ok (issue-Ensures env s input) e in
    added (ap (find_license s) (ap (λ z. z.id) m.row) ∙ absent) m.wrote
Step-Writes {s} (minted env input absent e) =
    let m = of_ok (issue_from_snapshot-Ensures env s input) e in
    added (ap (find_license s) (ap (λ z. z.id) m.row) ∙ absent) m.wrote
Step-Writes {s} (renewed env id ttl h e) =
    let m = of_ok (renew-Ensures env s id ttl h) e in
    write_changed id m.found (ap (λ z. z.id) m.same) (inl m.live) m.wrote
Step-Writes {s} (revoking id e) = of_ok (revoke-Writes s id) e
Step-Writes {s} (dismissed id e) = let (x, same) = dismissed_store s id e in unflagging x same
Step-Writes {s} (moved id patch e) =
    Moved-Writes s id patch _ _ (of_ok (set_delivery-Ensures s id patch) e)
Step-Writes {s} (regenerated env id absent e) = of_ok (regenerate-Writes env s id absent) e
Step-Writes {s} (rebound env id domains absent e) = of_ok (rebind-Writes env s id domains absent) e

-- No sequence of successful calls of the licence service makes two rows share an id or a licence id,
-- if none did before.
pub Steps-IsValid : {s t : Store} → Steps s t → IsValid s → IsValid t
Steps-IsValid start v = v
Steps-IsValid (followed past last) v = Writes-IsValid (Step-Writes last) (Steps-IsValid past v)

-- A row that is revoked stays in the tables, revoked, through every sequence of successful calls of
-- the licence service, renewals and regenerations included, as long as the database draws unused ids
-- for the rows that are added and no renewal reads a clock before the epoch.
pub revoked_for_good : {s t : Store} (id : Text) → Steps s t → IsRevokedIn s id → IsRevokedIn t id
revoked_for_good id start h = h
revoked_for_good id (followed past last) h =
    Writes-revoked id (Step-Writes last) (revoked_for_good id past h)
