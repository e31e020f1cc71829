-- ===== src/Versions.antt =====
-- src/licensing/engine-version.service.ts and src/licensing/canary.ts: the registry of published
-- builds, the default pointers and their history, and the gradual releases. The storage of bundles,
-- the history and the canaries are configured. SHA-256 and HMAC are parameters, and a write of the
-- history does not fail.
pub mod Resolve
pub mod Complete
pub mod Sequences
pub mod Rollback
pub mod Delivery
mod Tests
use open_editor_text_backend.Base.{
  ℕ, ◌%◌, zero, suc, Bool, true, false, not, ◌&&◌, ◌||◌, List, [], ◌∷◌, ◌++◌, Option, none, some,
  Text, text, text_eq, text_beq, lower, leb, ltb, nat_beq, if◌then◌else◌, is_empty, find, any, all,
  keep, update, length, take, is_digit, Result, ok, err, guard, or_throw, ◌>>=◌, ◌>>◌, bad_request,
  not_found,
}
use open_editor_text_backend.Resolution.{
  Channel, BuildStatus, published, retired, eligible_as_default,
}

abbrev pub Bytes : Type 0
Bytes = List ℕ

-- `EngineVersionEntity`; the pair of version and plan is a unique index.
pub record Build : Type 0 where
  pub version : Text
  pub plan : Text
  pub supported_features : List Text
  pub bundle_key : Text
  pub bundle_sha256 : Text
  pub bundle_bytes : ℕ
  pub channel : Channel
  pub notes : Text
  pub status : BuildStatus

-- `EngineDefaultEntity`.
pub record Default : Type 0 where
  pub scope : Text
  pub version : Text

pub data Kind : Type 0 where
  release rollback : Kind

-- `EngineDefaultHistoryEntity`.
pub record Move : Type 0 where
  pub scope : Text
  pub from_version : Text
  pub to_version : Text
  pub kind : Kind
  pub actor : Text
  pub reason : Text

-- `EngineCanaryEntity`.
pub record Canary : Type 0 where
  pub scope : Text
  pub version : Text
  pub percent : ℕ
  pub actor : Text
  pub reason : Text

-- The tables, the history with its newest row first, and the bundles that are stored.
pub record Registry : Type 0 where
  pub builds : List Build
  pub defaults : List Default
  pub history : List Move
  pub canaries : List Canary
  pub stored : List Bytes

pub record Audit : Type 0 where
  pub actor : Text
  pub reason : Text

-- `REQUIRED_PLANS`.
abbrev pub required_plans : List Text
required_plans = text "free" ∷ text "premium" ∷ []

abbrev pub rows_of : List Build → Text → List Build
rows_of builds version = keep (λ b. text_beq b.version version) builds

-- `findBuild`.
abbrev pub find_build : List Build → Text → Text → Option Build
find_build builds version plan =
    find (λ b. text_beq b.version version && text_beq b.plan plan) builds

abbrev pub find_default : List Default → Text → Option Default
find_default defaults scope = find (λ d. text_beq d.scope scope) defaults

-- A pointer's version, empty when there is none.
abbrev pub version_of : Option Default → Text
version_of none = []
version_of (some d) = d.version

abbrev pub version_at : List Default → Text → Text
version_at defaults scope = version_of (find_default defaults scope)

-- `save` of a pointer: its scope is the primary key.
unfoldable pub point : List Default → Text → Text → List Default
point [] scope version = record { scope = scope; version = version } ∷ []
point (d ∷ ds) scope version =
    if text_beq d.scope scope
    then record d { version = version } ∷ ds
    else d ∷ point ds scope version

abbrev is_rollback : Kind → Bool
is_rollback rollback = true
is_rollback release = false

-- The row that a move of a pointer leaves, if it is one.
unfoldable pub record_move : List Move → Text → Text → Text → Kind → Audit → List Move
record_move history scope before version kind audit =
    if text_beq before version
    then history
    else record {
      scope = scope;
      from_version = before;
      to_version = version;
      kind = kind;
      actor = take 128 audit.actor;
      reason = take 500 audit.reason;
    }
      ∷ history

-- `previousDefault`; the newest row of the scope, none when it started from nothing.
abbrev moved_from : Option Move → Option Text
moved_from none = none
moved_from (some m) = if is_empty m.from_version then none else some m.from_version

unfoldable pub previous_default : Registry → Text → Option Text
previous_default r scope = moved_from (find (λ m. text_beq m.scope scope) r.history)

module _ (digest : Bytes → Text) where
  -- `storage.has`: a bundle is stored under its digest.
  abbrev pub has_bundle : List Bytes → Text → Bool
  has_bundle stored sha = any (λ b. text_beq (digest b) sha) stored

  abbrev pub can_serve : List Bytes → Option Build → Bool
  can_serve stored none = false
  can_serve stored (some b) = has_bundle stored (lower b.bundle_sha256)

  abbrev pub has_plan : Registry → Text → Text → Bool
  has_plan r version plan = can_serve r.stored (find_build r.builds version plan)

  -- `isComplete`: the plans without a bundle that can be downloaded; complete when there are none.
  unfoldable pub missing_plans : Registry → Text → List Text
  missing_plans r version = keep (λ plan. not (has_plan r version plan)) required_plans

  abbrev pub is_complete : Registry → Text → Bool
  is_complete r version = is_empty (missing_plans r version)

  -- `setDefault`.
  unfoldable pub set_default : Registry → Text → Text → Kind → Audit → Result Registry
  set_default r scope version kind audit = do
    guard (is_complete r version) bad_request
    guard (is_rollback kind || all (λ b. eligible_as_default b.status) (rows_of r.builds version))
        bad_request
    ok (record r {
      defaults = point r.defaults scope version;
      history = record_move r.history scope (version_at r.defaults scope) version kind audit;
    })

  -- `rollback`, with the versions that it moved from and to.
  unfoldable pub roll_back : Registry → Text → Audit → Result (Registry × Text × Text)
  roll_back r scope audit = do
    target ← or_throw (previous_default r scope) bad_request
    moved ← set_default r scope target rollback audit
    ok (moved, version_at r.defaults scope, target)

  -- `promote`.
  unfoldable pub promote : Registry → Text → Channel → Result Registry
  promote r version channel = do
    guard (is_complete r version) bad_request
    ok (record r {
      builds =
          update (λ b. text_beq b.version version) (λ b. record b { channel = channel }) r.builds;
    })

  abbrev is_hex : ℕ → Bool
  is_hex c = is_digit c || (leb b'a' c && leb c b'f') || (leb b'A' c && leb c b'F')

  abbrev pub is_digest : Text → Bool
  is_digest t = nat_beq (length t) 64 && all is_hex t

  -- The checks of bytes that came with a build; none when none came.
  pub assert_bytes : Build → Option Bytes → Result (Unit {0})
  assert_bytes b none = ok tt
  assert_bytes b (some bytes) = do
    guard (text_beq (digest bytes) (lower b.bundle_sha256)) bad_request
    guard (nat_beq b.bundle_bytes 0 || nat_beq b.bundle_bytes (length bytes)) bad_request

  abbrev pub store_bytes : Option Bytes → List Bytes → List Bytes
  store_bytes none stored = stored
  store_bytes (some bytes) stored = bytes ∷ stored

  -- `publishBuild`, of the row that the input describes: its defaults are the caller's.
  unfoldable pub publish_build : Registry → Build → Option Bytes → Result Registry
  unfolding assert_bytes
  publish_build r b bytes = do
    guard (elim (find_build r.builds b.version b.plan) [ none ↦ true | some x ↦ false ]) bad_request
    guard (not (is_empty b.supported_features)) bad_request
    guard (is_digest b.bundle_sha256) bad_request
    assert_bytes b bytes
    ok (record r {
      builds = r.builds ++ record b { status = published } ∷ [];
      stored = store_bytes bytes r.stored;
    })

  pub restored : Registry → Bytes → Bool → Registry × Bool
  restored r bytes true = (r, false)
  restored r bytes false = (record r { stored = bytes ∷ r.stored }, true)

  -- `restoreBundleBytes`, with whether the bytes were missing.
  unfoldable pub restore_bundle_bytes : Registry → Text → Text → Bytes → Result (Registry × Bool)
  unfolding restored
  restore_bundle_bytes r version plan bytes = do
    b ← or_throw (find_build r.builds version plan) not_found
    guard (text_beq (digest bytes) (lower b.bundle_sha256)) bad_request
    ok (restored r bytes (has_bundle r.stored (lower b.bundle_sha256)))

  -- `readBundle`.
  unfoldable pub read_bundle : Registry → Text → Text → Text → Option Bytes
  read_bundle r version plan sha = elim (find_build r.builds version plan) [
    | none ↦ none
    | some b ↦
        if text_beq (lower b.bundle_sha256) (lower sha)
        then find (λ x. text_beq (digest x) (lower b.bundle_sha256)) r.stored
        else none
  ]

abbrev pub retire_row : Text → Build → Build
retire_row notes b = record b {
  status = retired;
  notes = if is_empty notes then b.notes else notes;
}

-- `retire`.
unfoldable pub retire : Registry → Text → Text → Result Registry
retire r version notes = do
  guard (not (is_empty (rows_of r.builds version))) not_found
  ok (record r { builds = update (λ b. text_beq b.version version) (retire_row notes) r.builds })
