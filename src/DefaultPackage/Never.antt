-- ===== src/DefaultPackage/Never.antt =====
-- The default tier of src/licensing/default-package.service.ts is never without a feature.
use open_editor_text_backend.Base.{
  ℕ, Bool, true, false, ◌&&◌, List, Option, none, some, Text, text, text_eq, text_beq, is_empty,
  ◌≡◌, inl, inr, refl, Bool-cases, ok, Ensures, returns, after, of_ok, if◌then◌else◌,
  or_throw-eq-ok,
}
use open_editor_text_backend.Licenses.{Package}
use open_editor_text_backend.DefaultPackage.{
  RevokedPolicy, Designation, Cached, Tier, minimal_fallback_features, features_for_anonymous,
  features_for_refusal, find_row, cached_package, joined, landed, is_fresh, is_minimal,
  cached_or_minimal, designated, load, refresh, land, ask, designate, named_features,
}

-- One thing that happens to the service.
pub data Happens : Tier → Tier → Type 0 where
  asking :
      {t : Tier} (readable : Bool) (packages : List Package) (now : ℕ)
      → Happens t (ask readable packages now t)
  landing : {t : Tier} → Happens t (land t)
  designating :
      {t : Tier} (readable : Bool) (packages : List Package) (now : ℕ) (id actor reason : Text)
      (u : Tier) (n : ℕ)
      → designate readable packages now t id actor reason ≡ ok (u, n)
      → Happens t u

pub data History : Tier → Tier → Type 0 where
  begin : {t : Tier} → History t t
  next : {t u v : Tier} → History t u → Happens u v → History t v

abbrev pub HasFeatures : Option Cached → Type 0
HasFeatures none = Unit
HasFeatures (some c) = is_empty c.features ≡ false

abbrev pub InFlight : Option (Option Cached) → Type 0
InFlight none = Unit
InFlight (some c) = HasFeatures c

pub record Stocked (t : Tier) : Type 0 where
  pub cache : HasFeatures t.cache
  pub in_flight : InFlight t.in_flight

cached_package-HasFeatures :
    (packages : List Package) (readable : Bool) (now : ℕ) (row : Option Designation)
    → HasFeatures (load readable packages now row)
unfolding load
cached_package-HasFeatures packages false now row = tt
cached_package-HasFeatures packages true now none = tt
cached_package-HasFeatures packages true now (some d) = elim (Bool-cases (is_empty d.package_id)) [
  | inl e ↦ rw e tt
  | inr e ↦ rw e (found (find_row packages d.package_id))
]
  where
    found : (o : Option Package) → HasFeatures (cached_package now o)
    found none = tt
    found (some p) = elim (Bool-cases (is_empty (named_features p))) [
      | inl e ↦ rw e tt
      | inr e ↦ rw e e
    ]

refresh-Stocked :
    (readable : Bool) (packages : List Package) (now : ℕ) (t : Tier)
    → Stocked t
    → Stocked (refresh readable packages now t)
unfolding refresh
refresh-Stocked readable packages now t s = record {
  cache = s.cache;
  in_flight =
      joined-HasFeatures t.in_flight _ s.in_flight
        (cached_package-HasFeatures packages readable now t.designation);
}
  where
    joined-HasFeatures :
        (old : Option (Option Cached)) (fresh : Option Cached)
        → InFlight old
        → HasFeatures fresh
        → HasFeatures (joined old fresh)
    joined-HasFeatures none fresh h k = k
    joined-HasFeatures (some old) fresh h k = h

land-Stocked : (t : Tier) → Stocked t → Stocked (land t)
unfolding land
land-Stocked t s = record {
  cache = landed-HasFeatures t.cache t.in_flight s.cache s.in_flight;
  in_flight = tt;
}
  where
    landed-HasFeatures :
        (c : Option Cached) (f : Option (Option Cached))
        → HasFeatures c
        → InFlight f
        → HasFeatures (landed c f)
    landed-HasFeatures c none h k = h
    landed-HasFeatures c (some none) h k = h
    landed-HasFeatures c (some (some x)) h k = k

ask-Stocked :
    (readable : Bool) (packages : List Package) (now : ℕ) (t : Tier)
    → Stocked t
    → Stocked (ask readable packages now t)
unfolding ask
ask-Stocked readable packages now t s = elim (Bool-cases (is_fresh t.cache now)) [
  | inl e ↦ rw e s
  | inr e ↦ rw e (refresh-Stocked readable packages now t s)
]

-- What a designation that succeeds has found and left.
record Designated (readable : Bool) (packages : List Package) (now : ℕ) (t : Tier)
    (id actor reason : Text) (u : Tier) : Type 0 where
  pub package_row : Package
  pub known : find_row packages id ≡ some package_row
  pub tier : u ≡ land (refresh readable packages now (designated t id actor reason))

designate-Ensures :
    (readable : Bool) (packages : List Package) (now : ℕ) (t : Tier) (id actor reason : Text)
    → Ensures
        (λ (r : Tier × ℕ). Designated readable packages now t id actor reason r.0)
        (designate readable packages now t id actor reason)
unfolding designate
designate-Ensures readable packages now t id actor reason = after λ p ep.
    after λ _ _. returns record { package_row = p; known = or_throw-eq-ok _ _ ep; tier = refl }

Happens-Stocked : {t u : Tier} → Happens t u → Stocked t → Stocked u
Happens-Stocked {t} (asking readable packages now) s = ask-Stocked readable packages now t s
Happens-Stocked {t} landing s = land-Stocked t s
Happens-Stocked {t} (designating readable packages now id actor reason u n e) s =
    let d = of_ok (designate-Ensures readable packages now t id actor reason) e in
    rw d.tier (
      land-Stocked _ (
        refresh-Stocked readable packages now (designated t id actor reason)
          (record { cache = tt; in_flight = s.in_flight })))

History-Stocked : {t u : Tier} → History t u → Stocked t → Stocked u
History-Stocked begin s = s
History-Stocked (next past last) s = Happens-Stocked last (History-Stocked past s)

stocked_features : (c : Option Cached) → HasFeatures c → is_empty (cached_or_minimal c) ≡ false
stocked_features none h = refl
stocked_features (some c) h = h

-- Through any sequence of calls, refreshes that land, failing queries and designations, from a
-- service that has just started, the features of a caller without a licence and those of a caller
-- whose licence is refused, for whatever reason and under either policy, are never the empty list.
pub default_tier_never_empty :
    {t u : Tier} (policy : RevokedPolicy) (reason : Text)
    → t.cache ≡ none
    → t.in_flight ≡ none
    → History t u
    → (is_empty (features_for_anonymous u) ≡ false)
      × (is_empty (features_for_refusal policy u reason) ≡ false)
unfolding features_for_anonymous features_for_refusal
default_tier_never_empty {t} {u} policy reason no_cache no_flight run =
    let start : Stocked t = record { cache = rw no_cache tt; in_flight = rw no_flight tt } in
    let h = stocked_features u.cache (History-Stocked run start).cache in (h, refused h)
  where
    refused :
        is_empty (cached_or_minimal u.cache) ≡ false
        → is_empty (
            if text_beq reason (text "revoked") && is_minimal policy
            then minimal_fallback_features
            else cached_or_minimal u.cache)
          ≡ false
    refused h = elim (Bool-cases (text_beq reason (text "revoked") && is_minimal policy)) [
      | inl e ↦ rw e refl
      | inr e ↦ rw e h
    ]

-- A designation of a package that has a named feature takes effect at once when the database can
-- be read and no refresh was in flight: a caller without a licence gets the package's features.
pub designate_serves :
    (packages : List Package) (now : ℕ) (t : Tier) (id actor reason : Text) (p : Package) (u : Tier)
    (n : ℕ)
    → t.in_flight ≡ none
    → is_empty id ≡ false
    → find_row packages id ≡ some p
    → is_empty (named_features p) ≡ false
    → designate true packages now t id actor reason ≡ ok (u, n)
    → features_for_anonymous u ≡ named_features p
unfolding features_for_anonymous land refresh load
designate_serves packages now t id actor reason p u n idle named known stocked e =
    let d = of_ok (designate-Ensures true packages now t id actor reason) e in
    rw (d.tier, idle, named, known, stocked) refl
