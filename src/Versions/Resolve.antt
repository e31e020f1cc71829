-- ===== src/Versions/Resolve.antt =====
-- What a caller is served: src/licensing/canary.ts, and the resolution of
-- src/licensing/engine-version.service.ts. A table that cannot be read is not modelled.
use open_editor_text_backend.Base.{
  ℕ, ◌%◌, Bool, true, false, not, ◌&&◌, ◌||◌, List, [], ◌∷◌, ◌++◌, Option, none, some, Text, text,
  text_eq, text_beq, trim, ltb, leb, nat_beq, if◌then◌else◌, is_empty, find, all, keep, includes,
  take, Result, ok, guard, or_throw, ◌>>=◌, ◌>>◌, bad_request, not_found, or_else,
}
use open_editor_text_backend.Base.Int.{ℤ, pos, negsuc}
use open_editor_text_backend.Resolution.{
  Channel, internal, beta, stable, Source, pin, override, Decision, resolve_version,
  resolve_features, missing_from_build, all_features, channel_allows, eligible_as_default,
}
use open_editor_text_backend.Versions.{
  Bytes, Build, Canary, Registry, Audit, rows_of, find_build, version_at, is_complete,
}

abbrev channel_name : Channel → Text
channel_name internal = text "internal"
channel_name beta = text "beta"
channel_name stable = text "stable"

-- `channelScope` and `GLOBAL_SCOPE`.
abbrev pub channel_scope : Channel → Text
channel_scope c = text "channel:" ++ channel_name c

abbrev pub global_scope : Text
global_scope = text "global"

-- `Math.max(0, Math.min(100, ...))`, of a percentage that is rounded down.
unfoldable pub clamp_percent : ℤ → ℕ
clamp_percent (pos n) = if leb 100 n then 100 else n
clamp_percent (negsuc n) = 0

module _ (hmac : Text → Text → ℕ) where
  -- `bucketOf`; `hmac` is the first four bytes of the digest under the salt.
  unfoldable pub bucket_of : Text → Text → Option ℕ
  bucket_of identity salt =
      let id = trim identity in if is_empty id then none else some (hmac salt id % 100)

  abbrev in_bucket : Option ℕ → ℕ → Bool
  in_bucket none percent = false
  in_bucket (some b) percent = ltb b percent

  -- `inCanary`.
  unfoldable pub in_canary : Text → Text → ℤ → Bool
  in_canary identity version percent =
      let p = clamp_percent percent in
      not (nat_beq p 0 || is_empty version)
      && (leb 100 p || in_bucket (bucket_of identity version) p)

  abbrev find_canary : List Canary → Text → Option Canary
  find_canary rows scope = find (λ c. text_beq c.scope scope) rows

  -- The channel's row, else the global one.
  abbrev scoped_canary : List Canary → Channel → Option Canary
  scoped_canary rows c = elim (find_canary rows (channel_scope c)) [
    | some x ↦ some x
    | none ↦ find_canary rows global_scope
  ]

  abbrev served_canary : Text → Option Canary → Option Text
  served_canary identity none = none
  served_canary identity (some c) =
      if is_empty c.version || nat_beq c.percent 0
      then none
      else if in_canary identity c.version (pos c.percent)
      then some c.version
      else none

  -- `canaryFor`; a missing identity is the empty one.
  unfoldable pub canary_for : Registry → Channel → Text → Option Text
  canary_for r c identity =
      if is_empty identity then none else served_canary identity (scoped_canary r.canaries c)

-- `defaultsFor`: an empty version is none.
abbrev non_empty : Text → Option Text
non_empty v = if is_empty v then none else some v

pub record DefaultVersions : Type 0 where
  pub channel_default : Option Text
  pub global_default : Option Text

unfoldable pub defaults_for : Registry → Channel → DefaultVersions
defaults_for r c = record {
  channel_default = non_empty (version_at r.defaults (channel_scope c));
  global_default = non_empty (version_at r.defaults global_scope);
}

-- `ResolveForLicenceInput`.
pub record LicenceInput : Type 0 where
  pub pinned_version : Option Text
  pub override_version : Option Text
  pub channel : Option Channel
  pub package_features : List Text
  pub plan : Text
  pub canary_identity : Text

-- `ResolvedDelivery`.
pub record Delivered : Type 0 where
  pub version : Text
  pub plan : Text
  pub bundle_key : Text
  pub bundle_sha256 : Text
  pub features : List Text
  pub missing : List Text
  pub source : Option Source

abbrev pub caller_channel : LicenceInput → Channel
caller_channel i = or_else i.channel stable

-- The chain of the caller, with the defaults that it is given.
abbrev pub decision_for : (Text → Text → ℕ) → Registry → DefaultVersions → LicenceInput → Decision
decision_for hmac r defaults i = resolve_version (record {
  pinned_version = i.pinned_version;
  override_version = i.override_version;
  canary_version = canary_for hmac r (caller_channel i) i.canary_identity;
  channel_default = defaults.channel_default;
  global_default = defaults.global_default;
})

abbrev pub customer_chose : Option Source → Bool
customer_chose (some pin) = true
customer_chose (some override) = true
customer_chose _ = false

abbrev pub delivered : LicenceInput → Option Source → Build → Delivered
delivered i source b = record {
  version = b.version;
  plan = b.plan;
  bundle_key = b.bundle_key;
  bundle_sha256 = b.bundle_sha256;
  features = resolve_features i.package_features b.supported_features;
  missing = missing_from_build i.package_features b.supported_features;
  source = source;
}

-- `resolveForLicence`.
unfoldable pub resolve_for_licence :
    (Text → Text → ℕ) → Registry → DefaultVersions → LicenceInput → Result Delivered
resolve_for_licence hmac r defaults i = do
  let decision = decision_for hmac r defaults i
  version ← or_throw decision.version not_found
  b ← or_throw (find_build r.builds version i.plan) not_found
  guard (customer_chose decision.source || eligible_as_default b.status) not_found
  guard (customer_chose decision.source || channel_allows (caller_channel i) b.channel) not_found
  ok (delivered i decision.source b)

-- A row that supports every feature that is wanted.
abbrev pub covers : List Text → Build → Bool
covers wanted b = all (λ f. includes f b.supported_features) wanted

abbrev pub wanted_features : List Text → List Text
wanted_features fs = keep (λ f. not (is_empty f) && not (text_beq f all_features)) fs

abbrev is_free : Build → Bool
is_free b = text_beq b.plan (text "free")

-- The rows with those of the free plan first; a stable sort.
abbrev pub cheapest_first : List Build → List Build
cheapest_first rows = keep is_free rows ++ keep (λ b. not (is_free b)) rows

abbrev plan_or_premium : Option Build → Text
plan_or_premium none = text "premium"
plan_or_premium (some b) = b.plan

-- `planForFeatures`; without a row nothing covers, and the fallback is served.
unfoldable pub plan_for_features : List Build → Text → List Text → Text
plan_for_features builds version features =
    let wanted = wanted_features features in
    if is_empty wanted
    then text "free"
    else plan_or_premium (find (covers wanted) (cheapest_first (rows_of builds version)))

module _ (digest : Bytes → Text) where
  -- `save` of a canary row, one for each scope.
  abbrev put_canary : List Canary → Canary → List Canary
  put_canary [] c = c ∷ []
  put_canary (x ∷ xs) c = if text_beq x.scope c.scope then c ∷ xs else x ∷ put_canary xs c

  -- `startCanary`.
  unfoldable pub start_canary : Registry → Text → Text → ℤ → Audit → Result Registry
  start_canary r scope version percent audit = do
    guard (is_complete digest r version) bad_request
    ok (record r {
      canaries = put_canary r.canaries (record {
        scope = scope;
        version = version;
        percent = clamp_percent percent;
        actor = take 128 audit.actor;
        reason = take 500 audit.reason;
      });
    })

-- `haltCanary`.
unfoldable pub halt_canary : Registry → Text → Registry × Option Text
halt_canary r scope = elim (find (λ c. text_beq c.scope scope) r.canaries) [
  | none ↦ (r, none)
  | some c ↦
      (record r { canaries = keep (λ x. not (text_beq x.scope scope)) r.canaries }, some c.version)
]
