-- ===== src/Sessions/Requested.antt =====
-- What a version that a caller asks for does in src/delivery/session.service.ts.
use open_editor_text_backend.Base.{
  List, [], ◌∷◌, Bool, ◌&&◌, inl, inr, Bool-cases, text_beq, text_beq_iff, includes, ◌↔◌, ◌⊎◌,
  subst, arith, true, false, some, Text, text_eq, is_empty, ◌≡◌, refl, ok, ◌>>=◌,
}
use open_editor_text_backend.Resolution.{pin, all_features, resolve_version}
use open_editor_text_backend.Resolution.Features.{resolve_features_iff}
use open_editor_text_backend.Versions.{Build, find_build}
use open_editor_text_backend.Versions.Resolve.{
  DefaultVersions, Delivered, delivered, decision_for, resolve_for_licence, LicenceInput,
}
use open_editor_text_backend.Sessions.{Request, Server, Backend, Resolved, named_version}
use open_editor_text_backend.Sessions.Open.{delivery_input, delivery_of, licence_text, text_or}

asked_version :
    (pinned version : Text)
    → is_empty pinned ≡ true
    → is_empty version ≡ false
    → named_version (text_or pinned version) ≡ some version
asked_version pinned version none_pinned asked = rw (none_pinned, asked) refl

pinned_decision :
    (x : Server) (b : Backend) (d : DefaultVersions) (i : LicenceInput) (v : Text)
    → i.pinned_version ≡ some v
    → is_empty v ≡ false
    → decision_for x.bucket_hmac b.registry d i ≡ record { version = some v; source = some pin }
unfolding resolve_version
pinned_decision x b d i v pinned named = rw (pinned, named) refl

pinned_served :
    (x : Server) (b : Backend) (d : DefaultVersions) (i : LicenceInput) (v : Text) (row : Build)
    → i.pinned_version ≡ some v
    → is_empty v ≡ false
    → find_build b.registry.builds v i.plan ≡ some row
    → resolve_for_licence x.bucket_hmac b.registry d i ≡ ok (delivered i (some pin) row)
unfolding resolve_for_licence ◌>>=◌
pinned_served x b d i v row pinned named found =
    rw (pinned_decision x b d i v pinned named, found) refl

-- A build served for a version that was asked for: the one of the registry, with the features that it
-- supports and the caller was granted.
pub record ServedOf (row : Build) (req : Request) (r : Resolved) (v : Delivered) : Type 0 where
  pub version : v.version ≡ req.version
  pub plan : v.plan ≡ r.plan
  pub bundle_key : v.bundle_key ≡ row.bundle_key
  pub bundle_sha256 : v.bundle_sha256 ≡ row.bundle_sha256
  pub features :
      (f : Text)
      → (includes f v.features ≡ true) ↔ (
          (includes f row.supported_features ≡ true)
          × ((includes f r.features ≡ true) ⊎ (includes all_features r.features ≡ true)))

find_build-fits :
    (builds : List Build) (version plan : Text) (row : Build)
    → find_build builds version plan ≡ some row
    → (row.version ≡ version) × (row.plan ≡ plan)
find_build-fits [] version plan row h = cc
find_build-fits (x ∷ xs) version plan row h =
    elim (Bool-cases (text_beq x.version version && text_beq x.plan plan)) [
      | inr e ↦ find_build-fits xs version plan row (rw e at h)
      | inl e ↦
          let here : x ≡ row = same (rw e at h) in
          let (v, p) = both (text_beq x.version version) (text_beq x.plan plan) e in
          subst (λ (y : Build). (y.version ≡ version) × (y.plan ≡ plan)) here
            ((text_beq_iff x.version version).0 v, (text_beq_iff x.plan plan).0 p)
    ]
  where
    same : some x ≡ some row → x ≡ row
    same m = cc

    both : (a b : Bool) → (a && b) ≡ true → (a ≡ true) × (b ≡ true)
    both a b m = ground arith

-- A version that the caller asks for is served, if it has a build of the caller's plan, whenever the
-- caller has no licence or the licence has no pin: whatever the status and the channel of that build
-- and whatever override the licence carries. What is served is the bundle of that build, with exactly
-- those of its features that the caller was granted.
pub requested_version_served :
    (x : Server) (b : Backend) (d : DefaultVersions) (req : Request) (r : Resolved) (row : Build)
    → is_empty (licence_text (λ l. l.pinned_version) r.licence) ≡ true
    → is_empty req.version ≡ false
    → find_build b.registry.builds req.version r.plan ≡ some row
    → (v : Delivered) × ((delivery_of x b d req r ≡ ok v) × ServedOf row req r v)
unfolding delivery_of
requested_version_served x b d req r row unpinned asked found =
    let (version, plan) = find_build-fits b.registry.builds req.version r.plan row found in
    (
      delivered (delivery_input req r) (some pin) row,
      (
        pinned_served x b d (delivery_input req r) req.version row
            (asked_version (licence_text (λ l. l.pinned_version) r.licence) req.version unpinned
              asked)
            asked found,
        record {
          version = version;
          plan = plan;
          bundle_key = refl;
          bundle_sha256 = refl;
          features = (resolve_features_iff r.features row.supported_features).1;
        },
      ),
    )
