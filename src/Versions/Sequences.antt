-- ===== src/Versions/Sequences.antt =====
-- Any sequence of the changes of src/licensing/engine-version.service.ts.
use open_editor_text_backend.Base.{
  Bool, true, Option, none, some, ◌≡◌, ◌⊎◌, inl, inr, ap, sym, ◌∙◌, arith, Text, text_beq,
  text_beq_iff, if◌then◌else◌, ok, of_ok, List, [], ◌∷◌, Bool-cases,
}
use open_editor_text_backend.Resolution.{Channel}
use open_editor_text_backend.Versions.{
  Bytes, Build, Default, Kind, Registry, Audit, find_build, find_default, point, is_complete,
  set_default, roll_back, promote, publish_build, restore_bundle_bytes, retire,
}
use open_editor_text_backend.Versions.Complete.{
  Holds, Grew, Grew-refl, Grew-trans, Kept, Pointed, is_complete-Grew, set_default-Ensures,
  roll_back-Ensures, promote-Ensures, retire-Ensures, publish-Ensures, restore-Ensures,
}

-- A pointer after one of them was moved.
pub find_default-point :
    (ds : List Default) (scope version x : Text)
    → find_default (point ds scope version) x ≡ (
        if text_beq scope x
        then some (record { scope = scope; version = version })
        else find_default ds x)
unfolding point
find_default-point [] scope version x = ground arith
find_default-point (d ∷ ds) scope version x = ground (
  arith,
  find_default-point ds scope version x,
  text_beq_iff d.scope scope,
  text_beq_iff d.scope x,
  text_beq_iff scope x,
)

module _ (digest : Bytes → Text) where
  -- One call that succeeded; a call that throws leaves the registry as it was.
  pub data Act : Registry → Registry → Type 0 where
    defaulting :
        {r t : Registry} (scope version : Text) (kind : Kind) (audit : Audit)
        → set_default digest r scope version kind audit ≡ ok t
        → Act r t
    rolling :
        {r t : Registry} {from to : Text} (scope : Text) (audit : Audit)
        → roll_back digest r scope audit ≡ ok (t, from, to)
        → Act r t
    promoting :
        {r t : Registry} (version : Text) (channel : Channel)
        → promote digest r version channel ≡ ok t
        → Act r t
    publishing :
        {r t : Registry} (b : Build) (bytes : Option Bytes)
        → publish_build digest r b bytes ≡ ok t
        → Act r t
    restoring :
        {r t : Registry} {missing : Bool} (version plan : Text) (bytes : Bytes)
        → restore_bundle_bytes digest r version plan bytes ≡ ok (t, missing)
        → Act r t
    retiring : {r t : Registry} (version notes : Text) → retire r version notes ≡ ok t → Act r t

  pub data Acts : Registry → Registry → Type 0 where
    idle : {r : Registry} → Acts r r
    acting : {r s t : Registry} → Acts r s → Act s t → Acts r t

  Pointed-Grew :
      {r t : Registry} {scope version : Text} → Pointed digest r t scope version → Grew digest r t
  Pointed-Grew {r} {t} p = record {
    builds = λ version plan a h. rw p.builds ((Grew-refl digest r).builds version plan a h);
    stored = λ sha h. rw p.stored h;
  }

  Act-Grew : {r t : Registry} → Act r t → Grew digest r t
  Act-Grew {r} (defaulting scope version kind audit e) =
      Pointed-Grew (of_ok (set_default-Ensures digest r scope version kind audit) e)
  Act-Grew {r} (rolling scope audit e) =
      Pointed-Grew (of_ok (roll_back-Ensures digest r scope audit) e)
  Act-Grew {r} (promoting version channel e) =
      (of_ok (promote-Ensures digest r version channel) e).0
  Act-Grew {r} (publishing b bytes e) = (of_ok (publish-Ensures digest r b bytes) e).0
  Act-Grew {r} (restoring version plan bytes e) =
      (of_ok (restore-Ensures digest r version plan bytes) e).0
  Act-Grew {r} (retiring version notes e) = (of_ok (retire-Ensures digest r version notes) e).0

  Acts-Grew : {r t : Registry} → Acts r t → Grew digest r t
  Acts-Grew {r} idle = Grew-refl digest r
  Acts-Grew (acting past last) = Grew-trans digest (Acts-Grew past) (Act-Grew last)

  -- A pointer after a call is as before, or names a version that was complete.
  abbrev Checked : Registry → Registry → Text → Default → Type 0
  Checked r t x d = (find_default r.defaults x ≡ some d) ⊎ (is_complete digest r d.version ≡ true)

  Kept-Checked :
      {r t : Registry} (x : Text) (d : Default)
      → Kept digest r t
      → find_default t.defaults x ≡ some d
      → Checked r t x d
  Kept-Checked x d k h = inl (ap (λ ds. find_default ds x) (sym k.1) ∙ h)

  Pointed-Checked :
      {r t : Registry} {scope version : Text} (x : Text) (d : Default)
      → Pointed digest r t scope version
      → find_default t.defaults x ≡ some d
      → Checked r t x d
  Pointed-Checked {r} {t} {scope} {version} x d p h =
      let h' =
        sym (find_default-point r.defaults scope version x)
        ∙ ap (λ ds. find_default ds x) (sym p.defaults)
        ∙ h in
      elim (Bool-cases (text_beq scope x)) [
        | inl e ↦ inr (
            let v : version ≡ d.version = pointed_version version d (rw e at h') in
            rw⁻¹ v p.complete)
        | inr e ↦ inl (rw e at h')
      ]
    where
      pointed_version :
          (version : Text) (d : Default)
          → some (record { scope = scope; version = version }) ≡ some d
          → version ≡ d.version
      pointed_version version d e = ground arith

  Act-Checked :
      {r t : Registry} (x : Text) (d : Default)
      → Act r t
      → find_default t.defaults x ≡ some d
      → Checked r t x d
  Act-Checked {r} x d (defaulting scope version kind audit e) =
      Pointed-Checked x d (of_ok (set_default-Ensures digest r scope version kind audit) e)
  Act-Checked {r} x d (rolling scope audit e) =
      Pointed-Checked x d (of_ok (roll_back-Ensures digest r scope audit) e)
  Act-Checked {r} x d (promoting version channel e) =
      Kept-Checked x d (of_ok (promote-Ensures digest r version channel) e)
  Act-Checked {r} x d (publishing b bytes e) =
      Kept-Checked x d (of_ok (publish-Ensures digest r b bytes) e)
  Act-Checked {r} x d (restoring version plan bytes e) =
      Kept-Checked x d (of_ok (restore-Ensures digest r version plan bytes) e)
  Act-Checked {r} x d (retiring version notes e) =
      Kept-Checked x d (of_ok (retire-Ensures digest r version notes) e)

  -- In a registry that was built up from one with no pointer, every default names a version that has
  -- a stored bundle for each required plan, whatever was published, promoted, retired, restored or
  -- rolled back since.
  pub defaults_stay_complete :
      {r t : Registry} (x : Text) (d : Default)
      → r.defaults ≡ []
      → Acts r t
      → find_default t.defaults x ≡ some d
      → is_complete digest t d.version ≡ true
  defaults_stay_complete x d empty idle h =
      absurd (let h' : none ≡ some d = ap (λ ds. find_default ds x) (sym empty) ∙ h in cc)
  defaults_stay_complete x d empty (acting {s = s} {t = t} past last) h =
      is_complete-Grew digest s t d.version (Act-Grew last) (elim (Act-Checked x d last h) [
        | inl before ↦ defaults_stay_complete x d empty past before
        | inr now ↦ now
      ])

  -- A build that is published is found under its version and plan ever after, with the same features,
  -- key, digest and size.
  pub published_for_good :
      {r t : Registry} (version plan : Text) (a : Build)
      → Acts r t
      → find_build r.builds version plan ≡ some a
      → Holds t.builds version plan a
  published_for_good version plan a acts h = (Acts-Grew acts).builds version plan a h
