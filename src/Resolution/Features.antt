-- ===== src/Resolution/Features.antt =====
-- `resolveFeatures` and `missingFromBuild` of src/licensing/version-resolution.ts.
use mathlib.Core.List.{Perm}
use mathlib.Core.List.Perm
use open_editor_text_backend.Base.{
  true, false, List, [], ◌++◌, ◌≡◌, ◌↔◌, ◌⊎◌, inl, inr, arith, Text, text_eq, includes,
  includes-keep, keep, Bool-cases,
}
use open_editor_text_backend.Base.Sorting.{
  sort-IsSorted, sort-perm, IsSorted, includes-sort, keep-perm,
}
use open_editor_text_backend.Resolution.{all_features, resolve_features, missing_from_build}

includes-resolve :
    (f : Text) (features supported : List Text)
    → (includes f (resolve_features features supported) ≡ true) ↔ (
        (includes f supported ≡ true)
        × ((includes f features ≡ true) ⊎ (includes all_features features ≡ true)))
unfolding resolve_features
includes-resolve f features supported = ground (
  arith,
  includes-sort f supported,
  includes-sort f (keep (λ x. includes x supported) features),
  includes-keep (λ x. includes x supported) f features,
)

resolve-IsSorted : (features supported : List Text) → IsSorted (resolve_features features supported)
unfolding resolve_features
resolve-IsSorted features supported = elim (Bool-cases (includes all_features features)) [
  | inl e ↦ rw e (sort-IsSorted supported)
  | inr e ↦ rw e (sort-IsSorted (keep (λ x. includes x supported) features))
]

-- The granted features are sorted, and they are exactly those that the build supports and that the
-- plan lists, or that the build supports when the plan lists the sentinel `*`.
pub resolve_features_iff :
    (features supported : List Text)
    → IsSorted (resolve_features features supported)
      × ((f : Text)
          → (includes f (resolve_features features supported) ≡ true) ↔ (
              (includes f supported ≡ true)
              × ((includes f features ≡ true) ⊎ (includes all_features features ≡ true))))
resolve_features_iff features supported =
    (resolve-IsSorted features supported, λ f. includes-resolve f features supported)

-- What a plan without the sentinel `*` lists is granted or reported as missing, each entry as often
-- as the plan lists it; with the sentinel nothing is missing, and the build's list is granted.
pub resolve_features-missing :
    (features supported : List Text)
    → ((includes all_features features ≡ false)
        × Perm
            (resolve_features features supported ++ missing_from_build features supported)
            features)
      ⊎ ((includes all_features features ≡ true)
          × Perm (resolve_features features supported) supported
          × (missing_from_build features supported ≡ []))
unfolding resolve_features missing_from_build
resolve_features-missing features supported = elim (Bool-cases (includes all_features features)) [
  | inl e ↦ inr (e, rw e (sort-perm supported), rw e)
  | inr e ↦ inl (
    e,
    rw e (
        Perm.trans (Perm.append (sort-perm _) (sort-perm _))
          (keep-perm (λ x. includes x supported) features)),
  )
]
