-- ===== src/Resolution.antt =====
-- src/licensing/version-resolution.ts: which build a caller gets, and what they may use in it.
-- An optional text is falsy when it is absent or empty.
pub mod Version
pub mod Features
mod Tests
use open_editor_text_backend.Base.{
  ℕ, Bool, true, false, not, List, [], ◌∷◌, Option, none, some, Text, text, text_eq, text_beq,
  includes, keep, leb, is_empty, if◌then◌else◌,
}
use open_editor_text_backend.Base.Sorting.{sort}

-- `EngineChannel`.
pub data Channel : Type 0 where
  internal beta stable : Channel

-- `VersionSource`.
pub data Source : Type 0 where
  pin override canary channel global : Source

pub record Input : Type 0 where
  pub pinned_version : Option Text
  pub override_version : Option Text
  pub channel_default : Option Text
  pub global_default : Option Text
  pub canary_version : Option Text

-- `VersionResolution`; `none` for the source `'none'`.
pub record Decision : Type 0 where
  pub version : Option Text
  pub source : Option Source

abbrev pub truthy : Option Text → Bool
truthy none = false
truthy (some v) = not (is_empty v)

abbrev pub decided : Option Text → Source → Decision
decided v s = record { version = v; source = some s }

unfoldable pub resolve_version : Input → Decision
resolve_version i =
    if truthy i.pinned_version
    then decided i.pinned_version pin
    else if truthy i.override_version
    then decided i.override_version override
    else if truthy i.canary_version
    then decided i.canary_version canary
    else if truthy i.channel_default
    then decided i.channel_default channel
    else if truthy i.global_default
    then decided i.global_default global
    else record { version = none; source = none }

-- `ALL_FEATURES`.
abbrev pub all_features : Text
all_features = text "*"

unfoldable pub resolve_features : List Text → List Text → List Text
resolve_features features supported =
    if includes all_features features
    then sort supported
    else sort (keep (λ f. includes f supported) features)

unfoldable pub missing_from_build : List Text → List Text → List Text
missing_from_build features supported =
    if includes all_features features
    then []
    else sort (keep (λ f. not (includes f supported)) features)

-- `CHANNEL_RANK`.
abbrev pub channel_rank : Channel → ℕ
channel_rank stable = 0
channel_rank beta = 1
channel_rank internal = 2

unfoldable pub channel_allows : Channel → Channel → Bool
channel_allows caller build = leb (channel_rank build) (channel_rank caller)

-- The status of a build; the column holds one of these words.
pub data BuildStatus : Type 0 where
  published retired : BuildStatus

unfoldable pub eligible_as_default : BuildStatus → Bool
eligible_as_default published = true
eligible_as_default retired = false
