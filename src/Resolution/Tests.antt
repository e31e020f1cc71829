-- ===== src/Resolution/Tests.antt =====
-- Runs of src/licensing/version-resolution.ts, and its theorems at inputs.
use open_editor_text_backend.Base.{
  List, [], ◌∷◌, ◌≡◌, refl, none, some, Text, text, text_eq, text_beq, includes,
}
use open_editor_text_backend.Base.Sorting.{sort}
use open_editor_text_backend.Resolution.{
  Input, override, resolve_version, resolve_features, missing_from_build, all_features,
}

run : Unit {0}
unfolding resolve_version resolve_features missing_from_build includes text_beq sort
run = tt

-- An empty pin falls through to the override, which outranks the defaults.
abbrev moved : Input
moved = record {
  pinned_version = some [];
  override_version = some (text "1.2.0");
  canary_version = none;
  channel_default = some (text "1.4.0");
  global_default = some (text "1.3.0");
}

moved_test : (resolve_version moved).source ≡ some override
unfolding run
moved_test = refl

abbrev plan : List Text
plan = text "table.merge" ∷ text "bold" ∷ text "ai" ∷ []

abbrev build : List Text
build = text "table.merge" ∷ text "bold" ∷ text "italic" ∷ []

features_test :
    (resolve_features plan build ≡ text "bold" ∷ text "table.merge" ∷ [])
    × (missing_from_build plan build ≡ text "ai" ∷ [])
    × (resolve_features (all_features ∷ []) build
        ≡ text "bold" ∷ text "italic" ∷ text "table.merge" ∷ [])
unfolding run
features_test = (refl, refl, refl)
