-- ===== src/Versions/Rollback.antt =====
-- `setDefault` followed by `rollback` in src/licensing/engine-version.service.ts.
use open_editor_text_backend.Base.{
  true, false, List, [], some, ◌≡◌, ◌≢◌, inl, inr, refl, ap, sym, ◌∙◌, Text, text_beq, text_beq_iff,
  if◌then◌else◌, ne-is_empty, ok, Ensures, after, returns, of_ok, ◌>>=◌, Bool-cases,
}
use open_editor_text_backend.Versions.{
  Bytes, Default, Kind, rollback, Registry, Audit, find_default, version_of, version_at, point,
  is_complete, missing_plans, record_move, previous_default, set_default, roll_back,
}
use open_editor_text_backend.Versions.Sequences.{find_default-point}

text_beq_same : (t : Text) → text_beq t t ≡ true
text_beq_same t = (text_beq_iff t t).1 refl

version_at-point :
    (ds : List Default) (scope version : Text) → version_at (point ds scope version) scope ≡ version
version_at-point ds scope version =
    ap version_of (find_default-point ds scope version scope)
    ∙ ap
        (λ b.
          version_of (
            if b
            then some (record { scope = scope; version = version })
            else find_default ds scope))
        (text_beq_same scope)

text_beq-ne : (a b : Text) → a ≢ b → text_beq a b ≡ false
text_beq-ne a b h = elim (Bool-cases (text_beq a b)) [
  | inl e ↦ absurd (h ((text_beq_iff a b).0 e))
  | inr e ↦ e
]

module _ (digest : Bytes → Text) where
  abbrev moved : Registry → Text → Text → Kind → Audit → Registry
  moved r scope version kind audit = record r {
    defaults = point r.defaults scope version;
    history = record_move r.history scope (version_at r.defaults scope) version kind audit;
  }

  set_default-moved :
      (r : Registry) (scope version : Text) (kind : Kind) (audit : Audit)
      → Ensures
          (λ t. t ≡ moved r scope version kind audit)
          (set_default digest r scope version kind audit)
  unfolding set_default
  set_default-moved r scope version kind audit = after λ _ _. after λ _ _. returns refl

  -- A rollback to a version that can be downloaded is refused for no other reason.
  rollback-set :
      (r : Registry) (scope version : Text) (audit : Audit)
      → is_complete digest r version ≡ true
      → set_default digest r scope version rollback audit
        ≡ ok (moved r scope version rollback audit)
  unfolding set_default ◌>>=◌
  rollback-set r scope version audit h = rw h refl

  previous-moved :
      (r : Registry) (scope version before : Text) (kind : Kind) (audit : Audit)
      → version_at r.defaults scope ≡ before
      → before ≢ []
      → before ≢ version
      → previous_default (moved r scope version kind audit) scope ≡ some before
  unfolding previous_default record_move
  previous-moved r scope version before kind audit at some_before other =
      rw (at, text_beq-ne before version other, text_beq_same scope, ne-is_empty before some_before)
        refl

  roll_back_lem :
      (r : Registry) (scope target : Text) (audit : Audit)
      → previous_default r scope ≡ some target
      → is_complete digest r target ≡ true
      → roll_back digest r scope audit
        ≡ ok (moved r scope target rollback audit, version_at r.defaults scope, target)
  unfolding roll_back ◌>>=◌
  roll_back_lem r scope target audit p h = rw (p, rollback-set r scope target audit h) refl

  complete-moved :
      (t : Registry) (scope before : Text) (again : Audit) (version : Text)
      → is_complete digest t version ≡ true
      → is_complete digest (moved t scope before rollback again) version ≡ true
  unfolding missing_plans
  complete-moved t scope before again version h = h

  -- After a pointer was moved from one version to another, a rollback succeeds and puts the pointer
  -- back, reporting both versions, as soon as the old version's bundles can still be downloaded,
  -- whether or not that version is retired. A second rollback right after it succeeds in the same
  -- way, and goes back to the version that the first one left, if its bundles are there too.
  pub rollback_restores :
      (r : Registry) (scope version before : Text) (kind : Kind) (audit again third : Audit)
      {t : Registry}
      → set_default digest r scope version kind audit ≡ ok t
      → version_at r.defaults scope ≡ before
      → before ≢ []
      → before ≢ version
      → version ≢ []
      → is_complete digest t before ≡ true
      → is_complete digest t version ≡ true
      → (u : Registry) × (w : Registry) × (roll_back digest t scope again ≡ ok (u, version, before))
        × (version_at u.defaults scope ≡ before)
        × (roll_back digest u scope third ≡ ok (w, before, version))
        × (version_at w.defaults scope ≡ version)
  rollback_restores r scope version before kind audit again third {t} e at some_before other
        some_version h left =
      let same : t ≡ moved r scope version kind audit =
        of_ok (set_default-moved r scope version kind audit) e in
      let found : previous_default t scope ≡ some before =
        ap (λ x. previous_default x scope) same
        ∙ previous-moved r scope version before kind audit at some_before other in
      let now : version_at t.defaults scope ≡ version =
        ap (λ x. version_at x.defaults scope) same ∙ version_at-point r.defaults scope version in
      let u : Registry = moved t scope before rollback again in
      let back : version_at u.defaults scope ≡ before = version_at-point t.defaults scope before in
      let found_again : previous_default u scope ≡ some version =
        previous-moved t scope before version rollback again now some_version
          (λ m. other (sym m)) in
      (
        u,
        moved u scope version rollback third,
        roll_back_lem t scope before again found h
            ∙ ap (λ v. ok (moved t scope before rollback again, v, before)) now,
        back,
        roll_back_lem u scope version third found_again
              (complete-moved t scope before again version left)
            ∙ ap (λ v. ok (moved u scope version rollback third, v, version)) back,
        version_at-point u.defaults scope version,
      )
