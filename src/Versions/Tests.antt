-- ===== src/Versions/Tests.antt =====
-- Runs of src/licensing/engine-version.service.ts, and its theorems at inputs.
use open_editor_text_backend.Base.{
  ℕ, ◌≢◌, true, false, List, [], ◌∷◌, none, some, ◌≡◌, refl, Text, text, text_beq, text_beq_iff,
  text_eq, trim, includes, ok, err, ◌>>=◌, bad_request,
}
use open_editor_text_backend.Base.Int.{pos}
use open_editor_text_backend.Base.Sorting.{sort}
use open_editor_text_backend.Resolution.{
  stable, published, channel_allows, eligible_as_default, resolve_version, resolve_features,
  missing_from_build,
}
use open_editor_text_backend.Versions.{
  Bytes, Build, Default, Move, Kind, release, Registry, Audit, find_build, find_default, version_at,
  is_complete, missing_plans, point, record_move, previous_default, set_default, roll_back, retire,
}
use open_editor_text_backend.Versions.Resolve.{
  defaults_for, clamp_percent, bucket_of, in_canary, canary_for, LicenceInput, Delivered,
  resolve_for_licence, plan_for_features, delivered, decision_for,
}
use open_editor_text_backend.Versions.Sequences.{
  Acts, idle, acting, defaulting, defaults_stay_complete,
}
use open_editor_text_backend.Versions.Rollback.{rollback_restores}
use open_editor_text_backend.Versions.Delivery.{Served, resolve_for_licence_sound}

run : Unit {0}
unfolding text_beq trim includes ◌>>=◌ missing_plans point record_move previous_default set_default
    roll_back retire eligible_as_default channel_allows resolve_version resolve_features
    missing_from_build clamp_percent bucket_of in_canary canary_for resolve_for_licence defaults_for
    plan_for_features sort
run = tt

abbrev toy_digest : Bytes → Text
toy_digest b = text "d"

abbrev build : Text → Text → List Text → Build
build version plan features = record {
  version = version;
  plan = plan;
  supported_features = features;
  bundle_key = [];
  bundle_sha256 = text "D";
  bundle_bytes = 1;
  channel = stable;
  notes = [];
  status = published;
}

abbrev builds : List Build
builds =
    build (text "1") (text "free") (text "bold" ∷ [])
    ∷ build (text "1") (text "premium") (text "bold" ∷ text "pdf" ∷ [])
    ∷ build (text "2") (text "free") (text "bold" ∷ [])
    ∷ build (text "2") (text "premium") (text "bold" ∷ text "pdf" ∷ [])
    ∷ []

abbrev at_none : Registry
at_none = record {
  builds = builds;
  defaults = [];
  history = [];
  canaries = [];
  stored = (1 ∷ []) ∷ [];
}

abbrev audit : Audit
audit = record { actor = text "a"; reason = text "r" }

abbrev pointer : Text → Default
pointer v = record { scope = text "global"; version = v }

abbrev move : Text → Text → Kind → Move
move a b k = record {
  scope = text "global";
  from_version = a;
  to_version = b;
  kind = k;
  actor = text "a";
  reason = text "r";
}

abbrev at_one : Registry
at_one = record at_none {
  defaults = pointer (text "1") ∷ [];
  history = move [] (text "1") release ∷ [];
}

abbrev at_two : Registry
at_two = record at_none {
  defaults = pointer (text "2") ∷ [];
  history = move (text "1") (text "2") release ∷ move [] (text "1") release ∷ [];
}

first_release : set_default toy_digest at_none (text "global") (text "1") release audit ≡ ok at_one
unfolding run
first_release = refl

second_release : set_default toy_digest at_one (text "global") (text "2") release audit ≡ ok at_two
unfolding run
second_release = refl

unknown_version :
    set_default toy_digest at_one (text "global") (text "3") release audit ≡ err bad_request
unfolding run
unknown_version = refl

nothing_before : roll_back toy_digest at_one (text "global") audit ≡ err bad_request
unfolding run
nothing_before = refl

acts : Acts toy_digest at_none at_two
acts =
    acting (acting idle (defaulting (text "global") (text "1") release audit first_release))
      (defaulting (text "global") (text "2") release audit second_release)

pointed : find_default at_two.defaults (text "global") ≡ some (pointer (text "2"))
unfolding run
pointed = refl

defaults_stay_complete_example : is_complete toy_digest at_two (text "2") ≡ true
defaults_stay_complete_example =
    defaults_stay_complete toy_digest (text "global") (pointer (text "2")) refl acts pointed

there :
    find_build at_none.builds (text "1") (text "free")
    ≡ some (build (text "1") (text "free") (text "bold" ∷ []))
unfolding run
there = refl

was_one : version_at at_one.defaults (text "global") ≡ text "1"
unfolding run
was_one = refl

still_complete : is_complete toy_digest at_two (text "1") ≡ true
unfolding run
still_complete = refl

differ : text_beq (text "1") (text "2") ≡ false
unfolding run
differ = refl

others : text "1" ≢ text "2"
others h = let e = (text_beq_iff (text "1") (text "2")).1 h in let d = differ in cc (d, e)

left_complete : is_complete toy_digest at_two (text "2") ≡ true
unfolding run
left_complete = refl

rollback_restores_example :
    (u : Registry) × (w : Registry) × (roll_back toy_digest at_two (text "global") audit
      ≡ ok (u, text "2", text "1"))
    × (version_at u.defaults (text "global") ≡ text "1")
    × (roll_back toy_digest u (text "global") audit ≡ ok (w, text "1", text "2"))
    × (version_at w.defaults (text "global") ≡ text "2")
rollback_restores_example =
    rollback_restores toy_digest at_one (text "global") (text "2") (text "1") release audit audit
      audit second_release was_one (λ h. cc) others (λ h. cc) still_complete left_complete

abbrev toy_hmac : Text → Text → ℕ
toy_hmac salt id = 104

early : in_canary toy_hmac (text "oe-1") (text "2") (pos 5) ≡ true
unfolding run
early = refl

abbrev caller : LicenceInput
caller = record {
  pinned_version = none;
  override_version = none;
  channel = none;
  package_features = text "pdf" ∷ text "seo" ∷ [];
  plan = text "premium";
  canary_identity = [];
}

abbrev served : Delivered
served =
    delivered caller (decision_for toy_hmac at_two (defaults_for at_two stable) caller).source
      (build (text "2") (text "premium") (text "bold" ∷ text "pdf" ∷ []))

resolves : resolve_for_licence toy_hmac at_two (defaults_for at_two stable) caller ≡ ok served
unfolding run
resolves = refl

resolve_for_licence_sound_example :
    Served toy_hmac at_two (defaults_for at_two stable) caller served
resolve_for_licence_sound_example =
    resolve_for_licence_sound toy_hmac at_two (defaults_for at_two stable) caller resolves

served_plans :
    (plan_for_features builds (text "2") (text "pdf" ∷ []) ≡ text "premium")
    × (plan_for_features builds (text "2") (text "bold" ∷ []) ≡ text "free")
unfolding run
served_plans = (refl, refl)
