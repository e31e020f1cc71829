-- ===== src/Sessions.antt =====
-- src/delivery/session.service.ts: what a caller is given, and the session that is signed for it.
-- A text that may be missing is the empty text where the source treats both alike.
pub mod Dead
pub mod Open
pub mod Granted
pub mod Refused
pub mod Requested
pub mod Seats
pub mod Served
mod Samples
mod Tests
use open_editor_text_backend.Base.{
  ℕ, zero, suc, ◌≤◌, ◌+◌, Bool, true, false, not, ◌&&◌, ◌||◌, List, [], ◌∷◌, ◌++◌, Option, none,
  some, Text, text, text_eq, text_beq, text_beq_iff, is_empty, ◌≡◌, ◌≢◌, ◌⊎◌, inl, inr, refl, ap,
  sym, ◌∙◌, arith, Bool-cases, Option-cases, not-true, Result, ok, err, Error, guard, ◌>>=◌,
  Ensures, returns, throws, after, of_ok, weaken, guard-eq-ok, bad_request, not_found, conflict,
  failure, unavailable, or_else, find, any, keep, count, update, length, if◌then◌else◌, includes,
  includes-nil, includes-cons, Distinct, All, lower, dedup,
}
use open_editor_text_backend.Base.Int.{ℤ, pos, pos_part, ltb_ℤ}
use open_editor_text_backend.Domains.{ends_with, host_allowed}
use open_editor_text_backend.Signer.{Config, Crypto, Claims, verify_own_token}
use open_editor_text_backend.Licenses.{License, Package, Store, is_revoked, is_expired, package_of}
use open_editor_text_backend.Versions.{Registry}
use open_editor_text_backend.Versions.Resolve.{DefaultVersions, plan_for_features}
use open_editor_text_backend.Installs
use open_editor_text_backend.Installs.{Install, InstallCheck}
use open_editor_text_backend.DefaultPackage.{
  RevokedPolicy, Tier, has_designation, features_for_anonymous, features_for_refusal,
}
use open_editor_text_backend.Bundles.{UrlConfig, Marking}
use open_editor_text_backend.Activations.{Activation}

-- `SessionRefusal`.
pub data Refusal : Type 0 where
  invalid_key revoked expired origin_blocked no_version install_cap : Refusal

abbrev pub refusal_name : Refusal → Text
refusal_name invalid_key = text "invalid-key"
refusal_name revoked = text "revoked"
refusal_name expired = text "expired"
refusal_name origin_blocked = text "origin-blocked"
refusal_name no_version = text "no-version"
refusal_name install_cap = text "install-cap"

-- `SessionRequest`.
pub record Request : Type 0 where
  pub licence_key : Text
  pub install_id : Text
  pub origin : Text
  pub version : Text

-- What the service takes from outside: Node's cryptography, the configuration, the clock in seconds,
-- the id that the signer makes, how a number is written, and the host name of an address as the URL
-- parser of Node reads it.
pub record Server : Type 0 where
  pub crypto : Crypto
  pub config : Config
  pub fresh : ℤ → Text
  pub now : ℤ
  pub bucket_hmac : Text → Text → ℕ
  pub hmac : Text → Text → Text
  pub digest : Text → Text
  pub written : ℤ → Text
  pub host_of : Text → Option Text
  pub urls : UrlConfig
  pub anonymous_free_bundle_only : Bool
  pub policy : RevokedPolicy

-- The tables and the services that a session reads; it writes the installs and the marked bundles.
pub record Backend : Type 0 where
  pub store : Store
  pub registry : Registry
  pub tier : Tier
  pub installs : List Install
  pub marking : Marking
  pub activations : List Activation

-- What a caller is resolved to before a build is chosen.
pub record Resolved : Type 0 where
  pub plan : Text
  pub features : List Text
  pub licence : Option License
  pub refusal : Option Refusal

abbrev pub free_plan : Text
free_plan = text "free"

abbrev pub premium_plan : Text
premium_plan = text "premium"

-- `a || b` on versions that may be missing.
abbrev pub either_version : Option Text → Option Text → Option Text
either_version none b = b
either_version (some v) b = some v

abbrev plan_of_version : Registry → List Text → Text → Option Text → Text
plan_of_version r features fallback none = fallback
plan_of_version r features fallback (some v) = plan_for_features r.builds v features

-- `planForDefaultTier`.
unfoldable pub plan_for_default_tier : Server → Backend → DefaultVersions → List Text → Text
plan_for_default_tier x b d features =
    if x.anonymous_free_bundle_only
    then free_plan
    else if not (has_designation b.tier)
    then free_plan
    else plan_of_version b.registry features free_plan
        (either_version d.channel_default d.global_default)

-- `resolveAnonymous`. The refresh that a stale cache starts in the background is left out.
unfoldable pub resolve_anonymous : Server → Backend → DefaultVersions → Resolved
resolve_anonymous x b d = record {
  plan = plan_for_default_tier x b d (features_for_anonymous b.tier);
  features = features_for_anonymous b.tier;
  licence = none;
  refusal = none;
}

-- `refused`.
unfoldable pub refused : Server → Backend → DefaultVersions → Refusal → Resolved
refused x b d reason =
    let features = features_for_refusal x.policy b.tier (refusal_name reason) in
    record {
      plan = plan_for_default_tier x b d features;
      features = features;
      licence = none;
      refusal = some reason;
    }

-- `devOrigin`.
unfoldable pub dev_origin : Text → Bool
dev_origin host =
    text_beq host (text "localhost")
    || text_beq host (text "127.0.0.1")
    || text_beq host (text "::1")
    || text_beq host (text "[::1]")
    || ends_with host (text ".localhost")

abbrev host_passes : List Text → Option Text → Bool
host_passes domains none = false
host_passes domains (some h) = dev_origin (lower h) || host_allowed (lower h) domains

-- `originAllowed`.
unfoldable pub origin_allowed : Server → Text → List Text → Bool
origin_allowed x origin domains =
    if is_empty domains
    then true
    else if is_empty origin
    then false
    else host_passes domains (x.host_of origin)

abbrev pub features_or : Option Package → List Text → List Text
features_or none legacy = legacy
features_or (some p) legacy = if is_empty p.features then legacy else p.features

-- The features of the package, or those that a row without a package has kept.
abbrev pub package_features : Backend → License → List Text
package_features b l = features_or (package_of b.store l) l.features

abbrev pub named_version : Text → Option Text
named_version v = if is_empty v then none else some v

-- The version that the plan is decided against.
abbrev pub version_for_plan : DefaultVersions → License → Option Text
version_for_plan d l = either_version (named_version l.pinned_version) (
    either_version (named_version l.override_version)
      (either_version d.channel_default d.global_default))

unfoldable pub granted : Backend → DefaultVersions → License → Resolved
granted b d l = record {
  plan = plan_of_version b.registry (package_features b l) premium_plan (version_for_plan d l);
  features = dedup (package_features b l);
  licence = some l;
  refusal = none;
}

abbrev pub find_by_lic_id : Store → Text → Option License
find_by_lic_id s lic = find (λ l. text_beq l.lic_id lic) s.licenses

abbrev pub cap_of : Option Package → ℤ
cap_of none = pos 0
cap_of (some p) = p.max_installs

abbrev pub seated :
    Server
    → Backend
    → DefaultVersions
    → License
    → List Install × InstallCheck
    → List Install × Resolved
seated x b d l (rows, seat) =
    if seat.allowed then (rows, granted b d l) else (rows, refused x b d install_cap)

-- The checks of a licence row, with that of the seats last.
unfoldable pub check_row :
    Server → Backend → DefaultVersions → Request → License → List Install × Resolved
check_row x b d req l =
    if is_revoked l.status
    then (b.installs, refused x b d revoked)
    else if is_expired l x.now
    then (b.installs, refused x b d expired)
    else if not (origin_allowed x req.origin l.domains)
    then (b.installs, refused x b d origin_blocked)
    else if ltb_ℤ (pos 0) (cap_of (package_of b.store l))
    then seated x b d l (
        Installs.check b.installs l.lic_id req.install_id req.origin
          (pos_part (cap_of (package_of b.store l))))
    else (b.installs, granted b d l)

abbrev pub checked_row :
    Server → Backend → DefaultVersions → Request → Option License → List Install × Resolved
checked_row x b d req none = (b.installs, refused x b d invalid_key)
checked_row x b d req (some l) = check_row x b d req l

abbrev pub checked_claims :
    Server → Backend → DefaultVersions → Request → Option Claims → List Install × Resolved
checked_claims x b d req none = (b.installs, refused x b d invalid_key)
checked_claims x b d req (some c) = checked_row x b d req (find_by_lic_id b.store c.lic)

-- `resolveLicensed`, with the rows of installs that the check of the seats leaves.
unfoldable pub resolve_licensed :
    Server → Backend → DefaultVersions → Request → List Install × Resolved
resolve_licensed x b d req =
    checked_claims x b d req (verify_own_token x.crypto x.config req.licence_key)

-- The first step of `open`.
unfoldable pub resolve_caller :
    Server → Backend → DefaultVersions → Request → List Install × Resolved
resolve_caller x b d req =
    if is_empty req.licence_key
    then (b.installs, resolve_anonymous x b d)
    else resolve_licensed x b d req

-- `keyForLicence`.
abbrev usable_key : Server → Option License → Option Text
usable_key x none = none
usable_key x (some l) =
    if is_revoked l.status || is_expired l x.now then none else named_version l.token

unfoldable pub key_for_licence : Server → Store → Text → Option Text
key_for_licence x s lic = if is_empty lic then none else usable_key x (find_by_lic_id s lic)
