-- ===== src/Licenses/Checks.antt =====
-- What the checks of src/licensing/license.service.ts establish when they do not throw.
use open_editor_text_backend.Base.{
  Bool, true, not, List, [], ◌∷◌, ◌≡◌, ◌≢◌, arith, Text, ok, is_empty, keep, guard-eq-ok, All,
  >>=-eq-ok, is_empty-ne,
}
use open_editor_text_backend.Domains.{assert_domains_acceptable}
use open_editor_text_backend.Domains.Acceptance.{IsAcceptable, assert_domains_acceptable_iff}
use open_editor_text_backend.Licenses.{
  CatalogFeature, is_known_feature, is_sellable_feature, assert_features_known,
  assert_features_sellable,
}

-- Some feature is granted, and every one is in the catalog and may be sold.
abbrev pub IsSellable : List CatalogFeature → List Text → Type 0
IsSellable catalog features =
    (features ≢ []) × All (λ f. is_sellable_feature catalog f ≡ true) features

abbrev pub IsKnown : List CatalogFeature → List Text → Type 0
IsKnown catalog features = (features ≢ []) × All (λ f. is_known_feature catalog f ≡ true) features

-- What `filter` with the negated test leaves nothing of passes the test.
All-of-none :
    (p : Text → Bool) (xs : List Text)
    → is_empty (keep (λ x. not (p x)) xs) ≡ true
    → All (λ x. p x ≡ true) xs
All-of-none p [] h = tt
All-of-none p (x ∷ xs) h = ground (arith, All-of-none p xs)

pub assert_features_known_lem :
    (catalog : List CatalogFeature) (features : List Text) {u : Unit {0}}
    → assert_features_known catalog features ≡ ok u
    → IsKnown catalog features
unfolding assert_features_known
assert_features_known_lem catalog features h =
    let (_, some_feature, known) = >>=-eq-ok _ _ h in
    (
      is_empty-ne features (guard-eq-ok _ _ some_feature),
      All-of-none _ features (guard-eq-ok _ _ known),
    )

pub assert_features_sellable_lem :
    (catalog : List CatalogFeature) (features : List Text) {u : Unit {0}}
    → assert_features_sellable catalog features ≡ ok u
    → IsSellable catalog features
unfolding assert_features_sellable
assert_features_sellable_lem catalog features h =
    let (_, known, sellable) = >>=-eq-ok _ _ h in
    (
      (assert_features_known_lem catalog features known).0,
      All-of-none _ features (guard-eq-ok _ _ sellable),
    )

pub acceptable_lem :
    (ds : List Text) {u : Unit {0}} → assert_domains_acceptable ds ≡ ok u → All IsAcceptable ds
acceptable_lem ds h = (assert_domains_acceptable_iff ds).0.0 h

pub assert_features_sellable-IsKnown :
    (catalog : List CatalogFeature) (features : List Text) {u : Unit {0}}
    → assert_features_sellable catalog features ≡ ok u
    → IsKnown catalog features
unfolding assert_features_sellable
assert_features_sellable-IsKnown catalog features h =
    let (_, known, _) = >>=-eq-ok _ _ h in assert_features_known_lem catalog features known
