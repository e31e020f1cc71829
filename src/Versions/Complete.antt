-- ===== src/Versions/Complete.antt =====
-- The registry of src/licensing/engine-version.service.ts only grows: a build that is published
-- keeps its contents, and every default pointer names a version that can be downloaded.
use open_editor_text_backend.Base.{
  Bool, true, false, ◌&&◌, List, Option, none, some, ◌≡◌, inl, inr, refl, ap, sym, ◌∙◌, arith, Text,
  text, text_beq, lower, update, find-update, find-append, Ensures, after, of_ok, returns,
  Bool-cases, Option-cases, guard-eq-ok,
}
use open_editor_text_backend.Resolution.{Channel}
use open_editor_text_backend.Versions.{
  Bytes, Build, Kind, rollback, Registry, Audit, find_build, point, has_bundle, can_serve, has_plan,
  store_bytes, missing_plans, is_complete, set_default, roll_back, promote, publish_build, restored,
  restore_bundle_bytes, retire, retire_row,
}

-- The contents of a build: what may not change once it is published.
pub record SameContents (a b : Build) : Type 0 where
  pub version : b.version ≡ a.version
  pub plan : b.plan ≡ a.plan
  pub features : b.supported_features ≡ a.supported_features
  pub key : b.bundle_key ≡ a.bundle_key
  pub sha256 : b.bundle_sha256 ≡ a.bundle_sha256
  pub bytes : b.bundle_bytes ≡ a.bundle_bytes

abbrev same : (a : Build) → SameContents a a
same a = record {
  version = refl;
  plan = refl;
  features = refl;
  key = refl;
  sha256 = refl;
  bytes = refl;
}

SameContents-trans : {a b c : Build} → SameContents a b → SameContents b c → SameContents a c
SameContents-trans h k = record {
  version = k.version ∙ h.version;
  plan = k.plan ∙ h.plan;
  features = k.features ∙ h.features;
  key = k.key ∙ h.key;
  sha256 = k.sha256 ∙ h.sha256;
  bytes = k.bytes ∙ h.bytes;
}

-- The build of a version and a plan is there, with those contents.
abbrev pub Holds : List Build → Text → Text → Build → Type 0
Holds builds version plan a =
    (b : Build) × (find_build builds version plan ≡ some b) × SameContents a b

changed-Holds :
    (q : Build → Bool) (f : Build → Build)
    → ((b : Build) → SameContents b (f b))
    → (builds : List Build) (version plan : Text) (a : Build)
    → find_build builds version plan ≡ some a
    → Holds (update q f builds) version plan a
changed-Holds q f kept builds version plan a h = (
  _,
  find-update (λ b. text_beq b.version version && text_beq b.plan plan) q f
      (λ b. rw ((kept b).version, (kept b).plan) refl) builds a h,
  elim (Bool-cases (q a)) [ inl e ↦ rw e (kept a) | inr e ↦ rw e (same a) ],
)

module _ (digest : Bytes → Text) where
  -- What every change of the registry keeps.
  pub record Grew (r t : Registry) : Type 0 where
    pub builds :
        (version plan : Text) (a : Build)
        → find_build r.builds version plan ≡ some a
        → Holds t.builds version plan a
    pub stored :
        (sha : Text) → has_bundle digest r.stored sha ≡ true → has_bundle digest t.stored sha ≡ true

  pub Grew-refl : (r : Registry) → Grew r r
  Grew-refl r = record { builds = λ version plan a h. (a, h, same a); stored = λ sha h. h }

  pub Grew-trans : {r s t : Registry} → Grew r s → Grew s t → Grew r t
  Grew-trans g h = record {
    builds = λ version plan a found.
        let (b, found', k) = g.builds version plan a found in
        let (c, found'', k') = h.builds version plan b found' in
        (c, found'', SameContents-trans k k');
    stored = λ sha present. h.stored sha (g.stored sha present);
  }

  has_plan-Grew :
      (r t : Registry) (version plan : Text)
      → Grew r t
      → has_plan digest r version plan ≡ true
      → has_plan digest t version plan ≡ true
  has_plan-Grew r t version plan g h = elim (Option-cases (find_build r.builds version plan)) [
    | inl e ↦ absurd (let h' = ap (can_serve digest r.stored) (sym e) ∙ h in cc)
    | inr (a, e) ↦
        let (b, found, k) = g.builds version plan a e in
        let present : has_bundle digest r.stored (lower a.bundle_sha256) ≡ true =
          ap (can_serve digest r.stored) (sym e) ∙ h in
        ap (can_serve digest t.stored) found
        ∙ ap (λ x. has_bundle digest t.stored (lower x)) k.sha256
        ∙ g.stored (lower a.bundle_sha256) present
  ]

  complete_lem :
      (r : Registry) (version : Text)
      → is_complete digest r version
        ≡ (has_plan digest r version (text "free") && has_plan digest r version (text "premium"))
  unfolding missing_plans
  complete_lem r version = ground arith

  pub is_complete-Grew :
      (r t : Registry) (version : Text)
      → Grew r t
      → is_complete digest r version ≡ true
      → is_complete digest t version ≡ true
  is_complete-Grew r t version g h =
      let h' = sym (complete_lem r version) ∙ h in
      complete_lem t version
      ∙ ground (
        arith,
        h',
        has_plan-Grew r t version (text "free") g,
        has_plan-Grew r t version (text "premium") g,
      )

  -- A change that leaves the pointers alone.
  abbrev pub Kept : Registry → Registry → Type 0
  Kept r t = Grew r t × (t.defaults ≡ r.defaults)

  -- A change of one pointer to a version that can be downloaded.
  pub record Pointed (r t : Registry) (scope version : Text) : Type 0 where
    pub complete : is_complete digest r version ≡ true
    pub defaults : t.defaults ≡ point r.defaults scope version
    pub builds : t.builds ≡ r.builds
    pub stored : t.stored ≡ r.stored

  pub set_default-Ensures :
      (r : Registry) (scope version : Text) (kind : Kind) (audit : Audit)
      → Ensures (λ t. Pointed r t scope version) (set_default digest r scope version kind audit)
  unfolding set_default
  set_default-Ensures r scope version kind audit = after λ _ complete. after λ _ _.
      returns (record {
        complete = guard-eq-ok _ _ complete;
        defaults = refl;
        builds = refl;
        stored = refl;
      })

  pub roll_back-Ensures :
      (r : Registry) (scope : Text) (audit : Audit)
      → Ensures
          (λ (p : Registry × Text × Text). Pointed r p.0 scope p.2)
          (roll_back digest r scope audit)
  unfolding roll_back
  roll_back-Ensures r scope audit =
      after λ target _.
        after λ t e. returns (of_ok (set_default-Ensures r scope target rollback audit) e)

  changed-Kept :
      (r : Registry) (q : Build → Bool) (f : Build → Build)
      → ((b : Build) → SameContents b (f b))
      → Kept r (record r { builds = update q f r.builds })
  changed-Kept r q f kept = (
    record {
      builds = λ version plan a h. changed-Holds q f kept r.builds version plan a h;
      stored = λ sha h. h;
    },
    refl,
  )

  pub promote-Ensures :
      (r : Registry) (version : Text) (channel : Channel)
      → Ensures (λ t. Kept r t) (promote digest r version channel)
  unfolding promote
  promote-Ensures r version channel = after λ _ _. returns (
      changed-Kept r _ (λ b. record b { channel = channel })
        (λ b. record {
          version = refl;
          plan = refl;
          features = refl;
          key = refl;
          sha256 = refl;
          bytes = refl;
        }))

  pub retire-Ensures :
      (r : Registry) (version notes : Text) → Ensures (λ t. Kept r t) (retire r version notes)
  unfolding retire
  retire-Ensures r version notes = after λ _ _. returns (
      changed-Kept r _ (retire_row notes) (λ b. record {
        version = refl;
        plan = refl;
        features = refl;
        key = refl;
        sha256 = refl;
        bytes = refl;
      }))

  more_stored :
      (o : Option Bytes) (stored : List Bytes) (sha : Text)
      → has_bundle digest stored sha ≡ true
      → has_bundle digest (store_bytes digest o stored) sha ≡ true
  more_stored none stored sha h = h
  more_stored (some bytes) stored sha h = ground arith

  pub publish-Ensures :
      (r : Registry) (b : Build) (bytes : Option Bytes)
      → Ensures (λ t. Kept r t) (publish_build digest r b bytes)
  unfolding publish_build
  publish-Ensures r b bytes = after λ _ _. after λ _ _. after λ _ _. after λ _ _. returns (
    record {
      builds = λ version plan a h. (a, find-append _ r.builds _ a h, same a);
      stored = λ sha h. more_stored bytes r.stored sha h;
    },
    refl,
  )

  restored-Kept :
      (r : Registry) (bytes : Bytes) (present : Bool) → Kept r (restored digest r bytes present).0
  unfolding restored
  restored-Kept r bytes true = (Grew-refl r, refl)
  restored-Kept r bytes false = (
    record {
      builds = λ version plan a h. (a, h, same a);
      stored = λ sha h. more_stored (some bytes) r.stored sha h;
    },
    refl,
  )

  pub restore-Ensures :
      (r : Registry) (version plan : Text) (bytes : Bytes)
      → Ensures
          (λ (p : Registry × Bool). Kept r p.0)
          (restore_bundle_bytes digest r version plan bytes)
  unfolding restore_bundle_bytes
  restore-Ensures r version plan bytes = after λ b _. after λ _ _. returns (restored-Kept r bytes _)
