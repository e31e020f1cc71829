-- ===== src/DefaultPackage.antt =====
-- src/licensing/default-package.service.ts: the package of a caller without a licence, which an
-- admin designates, behind a cache that is refreshed in the background. Times are milliseconds.
mod Tests
pub mod Never
use open_editor_text_backend.Base.{
  ℕ, zero, suc, ◌≤◌, ◌+◌, Bool, true, false, not, ◌&&◌, ◌||◌, List, [], ◌∷◌, ◌++◌, Option, none,
  some, Text, text, text_eq, text_beq, text_beq_iff, is_empty, ◌≡◌, ◌≢◌, ◌⊎◌, inl, inr, refl, ap,
  sym, ◌∙◌, arith, Bool-cases, Option-cases, not-true, Result, ok, err, Error, guard, ◌>>=◌,
  Ensures, returns, throws, after, of_ok, weaken, guard-eq-ok, bad_request, not_found, conflict,
  failure, unavailable, or_else, find, any, keep, count, update, length, if◌then◌else◌, includes,
  includes-nil, includes-cons, Distinct, All, or_throw, ◌>>◌, ltb, take, ◌-◌, lower,
}
use open_editor_text_backend.Licenses.{Package}

-- `MINIMAL_FALLBACK_FEATURES`.
abbrev pub minimal_fallback_features : List Text
minimal_fallback_features =
    text "text.bold"
    ∷ text "text.italic"
    ∷ text "text.underline"
    ∷ text "paragraph.headings"
    ∷ text "list.bullet"
    ∷ text "list.ordered"
    ∷ text "insert.link"
    ∷ []

-- `CACHE_TTL_MS`.
abbrev cache_ttl : ℕ
cache_ttl = 30000

-- `RevokedPolicy`.
pub data RevokedPolicy : Type 0 where
  free minimal : RevokedPolicy

-- `loadRevokedPolicy`, of the variable of the environment.
unfoldable pub load_revoked_policy : Text → RevokedPolicy
load_revoked_policy v = if text_beq (lower v) (text "minimal") then minimal else free

-- `DefaultPackageEntity`, of which there is one row.
pub record Designation : Type 0 where
  pub package_id : Text
  pub actor : Text
  pub reason : Text

-- `Cached`.
pub record Cached : Type 0 where
  pub features : List Text
  pub package_id : Text
  pub at : ℕ

-- The table, the cache, and the refresh in flight with what it read: a list to cache, or nothing.
pub record Tier : Type 0 where
  pub designation : Option Designation
  pub cache : Option Cached
  pub in_flight : Option (Option Cached)

-- `hasDesignation`.
abbrev pub named_package : Option Cached → Bool
named_package none = false
named_package (some c) = not (is_empty c.package_id)

unfoldable pub has_designation : Tier → Bool
has_designation t = named_package t.cache

-- What `featuresForAnonymous` returns.
abbrev pub cached_or_minimal : Option Cached → List Text
cached_or_minimal none = minimal_fallback_features
cached_or_minimal (some c) = c.features

unfoldable pub features_for_anonymous : Tier → List Text
features_for_anonymous t = cached_or_minimal t.cache

abbrev pub is_minimal : RevokedPolicy → Bool
is_minimal free = false
is_minimal minimal = true

-- `featuresForRefusal`.
unfoldable pub features_for_refusal : RevokedPolicy → Tier → Text → List Text
features_for_refusal policy t reason =
    if text_beq reason (text "revoked") && is_minimal policy
    then minimal_fallback_features
    else features_for_anonymous t

abbrev pub find_row : List Package → Text → Option Package
find_row packages id = find (λ p. text_beq p.id id) packages

-- `(pkg.features || []).map((f) => f.id).filter(Boolean)`
abbrev pub named_features : Package → List Text
named_features p = keep (λ f. not (is_empty f)) p.features

abbrev pub cached_package : ℕ → Option Package → Option Cached
cached_package now none = none
cached_package now (some p) =
    if is_empty (named_features p)
    then none
    else some (record { features = named_features p; package_id = p.id; at = now })

abbrev pub resolved_row : List Package → ℕ → Option Designation → Option Cached
resolved_row packages now none = none
resolved_row packages now (some d) =
    if is_empty d.package_id then none else cached_package now (find_row packages d.package_id)

-- What `load` reads: nothing when the database cannot be read.
unfoldable pub load : Bool → List Package → ℕ → Option Designation → Option Cached
load readable packages now row = if readable then resolved_row packages now row else none

-- `refresh`: joins the refresh in flight, or starts one, whose queries are made at once.
abbrev pub joined : Option (Option Cached) → Option Cached → Option Cached
joined none fresh = fresh
joined (some old) fresh = old

unfoldable pub refresh : Bool → List Package → ℕ → Tier → Tier
refresh readable packages now t = record t {
  in_flight = some (joined t.in_flight (load readable packages now t.designation));
}

-- The refresh in flight lands: the cache is replaced if something was read.
abbrev pub landed : Option Cached → Option (Option Cached) → Option Cached
landed cache none = cache
landed cache (some none) = cache
landed cache (some (some c)) = some c

unfoldable pub land : Tier → Tier
land t = record t { cache = landed t.cache t.in_flight; in_flight = none }

abbrev pub is_fresh : Option Cached → ℕ → Bool
is_fresh none now = false
is_fresh (some c) now = ltb (now - c.at) cache_ttl

-- `featuresForAnonymous`, as a change of the service: a stale cache starts a refresh.
unfoldable pub ask : Bool → List Package → ℕ → Tier → Tier
ask readable packages now t = if is_fresh t.cache now then t else refresh readable packages now t

-- The row that `designate` saves, and the cache that it drops.
abbrev pub designated : Tier → Text → Text → Text → Tier
designated t package_id actor reason = record t {
  designation =
      some (record { package_id = package_id; actor = take 128 actor; reason = take 500 reason });
  cache = none;
}

-- `designate`: the row is saved, the cache is dropped, and a refresh is awaited.
unfoldable pub designate : Bool → List Package → ℕ → Tier → Text → Text → Text → Result (Tier × ℕ)
unfolding refresh land
designate readable packages now t package_id actor reason = do
  p ← or_throw (find_row packages package_id) not_found
  guard (not (is_empty p.features)) bad_request
  ok (
    land (refresh readable packages now (designated t package_id actor reason)),
    length p.features,
  )

-- `isDesignated`.
unfoldable pub is_designated : Tier → Text → Bool
is_designated t package_id = elim t.designation [
  | none ↦ false
  | some d ↦ text_beq d.package_id package_id
]
