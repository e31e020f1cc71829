-- ===== src/Licenses.antt =====
-- The rows that src/licensing/license.service.ts reads and writes (src/licensing/entities), the
-- tables as lists of rows, and the checks that its operations share. The database's clock, the
-- service's clock, the signer's clock and the ids that are drawn at random are the parameter `Env`.
pub mod Issue
pub mod Reissue
pub mod Rows
pub mod Checks
pub mod Issuing
pub mod Expiry
pub mod Replacement
pub mod Regenerated
pub mod Renewed
pub mod Writes
pub mod History
pub mod Delivery
mod Tests
use open_editor_text_backend.Base.{
  ℕ, Bool, true, false, not, ◌&&◌, ◌||◌, List, [], ◌∷◌, ◌++◌, Option, none, some, Text, text,
  text_eq, text_beq, ltb, map, if◌then◌else◌, is_empty, find, any, keep, update, length,
  starts_with, drop, includes, dedup, Result, ok, err, guard, or_throw, ◌>>=◌, ◌>>◌, bad_request,
  not_found, failure, or_else,
}
use open_editor_text_backend.Base.Int.{ℤ, pos, leb_ℤ, ltb_ℤ}
use open_editor_text_backend.Domains.{www_prefix}
use open_editor_text_backend.Resolution.{Channel}
use open_editor_text_backend.Signer.{Crypto, Config}

-- `LicenseStatus`; the column holds `active` or `revoked`, `expired` is only computed.
pub data Status : Type 0 where
  active revoked expired : Status

abbrev pub is_revoked : Status → Bool
is_revoked revoked = true
is_revoked _ = false

pub record Customer : Type 0 where
  pub id : Text
  pub name : Text
  pub email : Text
  pub domains : List Text

-- `PackageEntity`, with the ids of its features.
pub record Package : Type 0 where
  pub id : Text
  pub name : Text
  pub price_cents : ℤ
  pub currency : Text
  pub billing_interval : Text
  pub ttl_override_seconds : Option ℤ
  pub domain_bound : Bool
  pub max_domains : ℤ
  pub max_installs : ℤ
  pub active : Bool
  pub publicly_listed : Bool
  pub refresh_policy : Text
  pub features : List Text

-- `LicenseEntity`; its customer and its package by their ids.
pub record License : Type 0 where
  pub id : Text
  pub lic_id : Text
  pub customer : Text
  pub package_id : Option Text
  pub plan_name : Text
  pub plan_price_cents : ℤ
  pub plan_currency : Text
  pub features : List Text
  pub domains : List Text
  pub status : Status
  pub token : Text
  pub kid : Text
  pub issued_at : ℤ
  pub expires_at : ℤ
  pub renew_until : ℤ
  pub flagged_at : ℤ
  pub flag_reason : Text
  pub reminder_sent_at : ℤ
  pub created_at : ℕ
  pub is_test : Bool
  pub pinned_version : Text
  pub override_version : Text
  pub override_reason : Text
  pub override_review_at : ℤ
  pub channel : Text

-- `isExpired` and `effectiveStatus`.
unfoldable pub is_expired : License → ℤ → Bool
is_expired l now = leb_ℤ l.expires_at now

unfoldable pub effective_status : License → ℤ → Status
unfolding is_expired
effective_status l now =
    if is_revoked l.status then revoked else if is_expired l now then expired else active

pub record Store : Type 0 where
  pub customers : List Customer
  pub packages : List Package
  pub licenses : List License

-- An entry of `FEATURE_CATALOG`, a table that a script generates.
pub record CatalogFeature : Type 0 where
  pub id : Text
  pub deprecated : Bool
  pub sellable : Bool

-- What one call of the service takes from outside: Node's cryptography, the configuration, the id
-- that the signer makes, the service's clock and the signer's (a second reading of it) in seconds,
-- the database's clock in milliseconds, the id of a new row, and the feature catalog.
pub record Env : Type 0 where
  pub crypto : Crypto
  pub config : Config
  pub fresh : ℤ → Text
  pub now : ℤ
  pub sign_now : ℤ
  pub created_at : ℕ
  pub row_id : Text
  pub catalog : List CatalogFeature

abbrev pub find_customer : Store → Text → Option Customer
find_customer s id = find (λ c. text_beq c.id id) s.customers

abbrev pub find_package : Store → Text → Option Package
find_package s id = find (λ p. text_beq p.id id) s.packages

abbrev pub find_license : Store → Text → Option License
find_license s id = find (λ l. text_beq l.id id) s.licenses

-- The joined package of a licence; none when it was deleted (`onDelete: 'SET NULL'`).
abbrev pub package_of : Store → License → Option Package
package_of s l = elim l.package_id [ none ↦ none | some id ↦ find_package s id ]

-- Another row has the licence id: the unique index refuses the write.
abbrev pub taken : List License → License → Bool
taken ls l = any (λ m. text_beq m.lic_id l.lic_id && not (text_beq m.id l.id)) ls

-- `save`: the row of that id is replaced, or the row is added.
unfoldable pub put : List License → License → List License
put [] l = l ∷ []
put (m ∷ ms) l = if text_beq m.id l.id then l ∷ ms else m ∷ put ms l

unfoldable pub save : Store → License → Result (Store × License)
save s l =
    if taken s.licenses l then err failure else ok (record s { licenses = put s.licenses l }, l)

-- `isKnownFeature` and `isSellableFeature`.
abbrev catalog_entry : List CatalogFeature → Text → Option CatalogFeature
catalog_entry catalog id = find (λ f. text_beq f.id id) catalog

unfoldable pub is_known_feature : List CatalogFeature → Text → Bool
is_known_feature catalog id = elim (catalog_entry catalog id) [ none ↦ false | some f ↦ true ]

unfoldable pub is_sellable_feature : List CatalogFeature → Text → Bool
is_sellable_feature catalog id = elim (catalog_entry catalog id) [
  | none ↦ false
  | some f ↦ f.sellable && not f.deprecated
]

unfoldable pub assert_features_known : List CatalogFeature → List Text → Result (Unit {0})
assert_features_known catalog features = do
  guard (not (is_empty features)) bad_request
  guard (is_empty (keep (λ f. not (is_known_feature catalog f)) features)) bad_request

unfoldable pub assert_features_sellable : List CatalogFeature → List Text → Result (Unit {0})
unfolding assert_features_known
assert_features_sellable catalog features = do
  assert_features_known catalog features
  guard (is_empty (keep (λ f. not (is_sellable_feature catalog f)) features)) bad_request

abbrev without_www : Text → Text
without_www d = if starts_with d www_prefix then drop 4 d else d

-- The sites that a list of domains names: apex and `www.` count once.
abbrev pub sites : List Text → List Text
sites domains = dedup (map without_www domains)

unfoldable pub assert_domain_count : List Text → ℤ → Result (Unit {0})
assert_domain_count domains max =
    if leb_ℤ max (pos 0)
    then ok tt
    else guard (leb_ℤ (pos (length (sites domains))) max) bad_request
