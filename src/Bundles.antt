-- ===== src/Bundles.antt =====
-- The bytes of a build on their way to a browser: src/delivery/bundle-url-signer.ts,
-- src/delivery/watermark.ts and src/delivery/watermark.service.ts. Node's HMAC and digest, and how a
-- number is written as text, are parameters.
pub mod Urls
pub mod Marks
mod Tests
use open_editor_text_backend.Base.{
  ℕ, zero, suc, ◌≤◌, ◌+◌, Bool, true, false, not, ◌&&◌, ◌||◌, List, [], ◌∷◌, ◌++◌, Option, none,
  some, Text, text, text_eq, text_beq, text_beq_iff, is_empty, ◌≡◌, ◌≢◌, ◌⊎◌, inl, inr, refl, ap,
  sym, ◌∙◌, arith, Bool-cases, Option-cases, not-true, Result, ok, err, Error, guard, ◌>>=◌,
  Ensures, returns, throws, after, of_ok, weaken, guard-eq-ok, bad_request, not_found, conflict,
  failure, unavailable, or_else, find, any, keep, count, update, length, if◌then◌else◌, includes,
  includes-nil, includes-cons, Distinct, All, ◌>>◌, forbidden, trim, trim_start, starts_with, take,
  drop, leb, is_digit, nat_beq, is_some,
}
use open_editor_text_backend.Base.Int.{ℤ, pos, ◌+ℤ◌, ltb_ℤ}
use open_editor_text_backend.Versions.{Bytes}

-- The part of `DeliveryConfig` that is read here.
pub record UrlConfig : Type 0 where
  pub url_signing_secret : Text
  pub signing_enabled : Bool
  pub url_ttl_seconds : ℤ
  pub public_base_url : Text

-- `SignedBundleUrl`.
pub record SignedBundleUrl : Type 0 where
  pub exp : ℤ
  pub sig : Text

module _ (hmac : Text → Text → Text) where
  -- `compute`; `written` is the text of a number.
  abbrev pub compute : (ℤ → Text) → UrlConfig → Text → ℤ → Text
  compute written c digest exp = hmac c.url_signing_secret (digest ++ b'.' ∷ written exp)

  -- `BundleUrlSigner.sign`.
  unfoldable pub sign_url : (ℤ → Text) → UrlConfig → ℤ → Text → Result SignedBundleUrl
  sign_url written c now digest = do
    guard c.signing_enabled unavailable
    ok (record {
      exp = now +ℤ c.url_ttl_seconds;
      sig = compute written c digest (now +ℤ c.url_ttl_seconds);
    })

  -- `BundleUrlSigner.verify`; an expiry that is no number is none, a missing signature empty.
  unfoldable pub verify_url :
      (ℤ → Text) → UrlConfig → ℤ → Text → Option ℤ → Text → Result (Unit {0})
  verify_url written c now digest none sig = do guard c.signing_enabled unavailable; err forbidden
  verify_url written c now digest (some exp) sig = do
    guard c.signing_enabled unavailable
    guard (ltb_ℤ (pos 0) exp) forbidden
    guard (not (ltb_ℤ exp now)) forbidden
    guard (not (is_empty sig)) forbidden
    guard (text_beq (compute written c digest exp) sig) forbidden

  -- `watermarkToken`.
  unfoldable pub watermark_token : Text → Text → Text
  watermark_token secret lic = take 16 (hmac secret (text "wm:" ++ lic))

-- `BEGIN`, `END` and the second form of the marker.
abbrev pub mark_begin : Text
mark_begin = text "/*! oe-wm:"

abbrev pub newline : ℕ
newline = 10

abbrev pub mark_rest : Text → Text
mark_rest token =
    text " */" ++ newline ∷ (text "export const __oeWm=\"" ++ token ++ text "\";" ++ newline ∷ [])

abbrev pub marker : Text → Text
marker token = newline ∷ (mark_begin ++ token ++ mark_rest token)

-- `applyWatermark`, of bytes that are text.
unfoldable pub apply_watermark : (Text → Text → Text) → Text → Text → Text → Text
unfolding watermark_token
apply_watermark hmac bytes secret lic = bytes ++ marker (watermark_token hmac secret lic)

-- `[0-9a-f]`
abbrev pub is_hex : ℕ → Bool
is_hex c = is_digit c || (leb b'a' c && leb c b'f')

-- `[0-9a-f]{n}` at the start of a text.
abbrev pub hex_prefix : ℕ → Text → Bool
hex_prefix zero s = true
hex_prefix (suc n) [] = false
hex_prefix (suc n) (c ∷ s) = is_hex c && hex_prefix n s

abbrev pub token_at : Text → Option Text
token_at s =
    if starts_with s mark_begin && hex_prefix 16 (drop (length mark_begin) s)
    then some (take 16 (drop (length mark_begin) s))
    else none

abbrev is_quote : ℕ → Bool
is_quote c = nat_beq c b'"' || nat_beq c 39

abbrev quoted_at : Text → Option Text
quoted_at [] = none
quoted_at (q ∷ s) =
    if is_quote q && hex_prefix 16 s && any is_quote (take 1 (drop 16 s))
    then some (take 16 s)
    else none

abbrev after_name : Text → Option Text
after_name [] = none
after_name (c ∷ s) = if nat_beq c b'=' then quoted_at (trim_start s) else none

-- `/__oeWm\s*=\s*["']([0-9a-f]{16})["']/` at the start of a text.
abbrev pub assigned_at : Text → Option Text
assigned_at s = if starts_with s (text "__oeWm") then after_name (trim_start (drop 6 s)) else none

-- The first place where a pattern matches.
abbrev pub first_match : (Text → Option Text) → Text → Option Text
first_match pattern [] = pattern []
first_match pattern (c ∷ s) = elim (pattern (c ∷ s)) [
  | some t ↦ some t
  | none ↦ first_match pattern s
]

abbrev pub or_token : Option Text → Option Text → Option Text
or_token (some t) o = some t
or_token none o = o

-- `readWatermark`.
unfoldable pub read_watermark : Text → Option Text
read_watermark s = or_token (first_match token_at s) (first_match assigned_at s)

abbrev pub matched : (Text → Text → Text) → Text → List Text → Option Text → Option Text
matched hmac secret lics none = none
matched hmac secret lics (some token) =
    find (λ lic. text_beq (watermark_token hmac secret lic) token) lics

-- `matchWatermark`.
unfoldable pub match_watermark : (Text → Text → Text) → Text → Text → List Text → Option Text
unfolding watermark_token read_watermark
match_watermark hmac bytes secret lics = matched hmac secret lics (read_watermark bytes)

-- `WatermarkService`: the storage, keyed by digest, and what it remembers; a storage that fails is
-- not modelled, since the service then serves the bytes without a mark.
pub record Marking : Type 0 where
  pub stored : List (Text × Text)
  pub memo : List (Text × Text)

abbrev lookup : List (Text × Text) → Text → Option Text
lookup [] k = none
lookup ((key, v) ∷ rest) k = if text_beq key k then some v else lookup rest k

abbrev store_at : List (Text × Text) → Text → Text → List (Text × Text)
store_at entries k v = if is_some (lookup entries k) then entries else (k, v) ∷ entries

-- `secret`.
abbrev pub mark_secret : (Text → Text → Text) → UrlConfig → Text
mark_secret hmac c =
    if is_empty (trim c.url_signing_secret)
    then []
    else hmac (trim c.url_signing_secret) (text "watermark-v1")

abbrev memo_key : Text → Text → Text
memo_key sha lic = sha ++ (text "::" ++ lic)

abbrev mark_source :
    (Text → Text → Text)
    → (Text → Text)
    → UrlConfig
    → Marking
    → Text
    → Text
    → Option Text
    → Marking × Text
mark_source hmac digest c m sha lic none = (m, sha)
mark_source hmac digest c m sha lic (some bytes) =
    let marked = apply_watermark hmac bytes (mark_secret hmac c) lic in
    (
      record {
        stored = store_at m.stored (digest marked) marked;
        memo = (memo_key sha lic, digest marked) ∷ m.memo;
      },
      digest marked,
    )

abbrev marked_or :
    (Text → Text → Text)
    → (Text → Text)
    → UrlConfig
    → Marking
    → Text
    → Text
    → Option Text
    → Marking × Text
marked_or hmac digest c m sha lic (some d) = (m, d)
marked_or hmac digest c m sha lic none = mark_source hmac digest c m sha lic (lookup m.stored sha)

-- `digestForLicence`.
unfoldable pub digest_for_licence :
    (Text → Text → Text) → (Text → Text) → UrlConfig → Marking → Text → Text → Marking × Text
unfolding apply_watermark
digest_for_licence hmac digest c m sha lic =
    if is_empty (trim lic) || is_empty (mark_secret hmac c)
    then (m, sha)
    else marked_or hmac digest c m sha (trim lic) (lookup m.memo (memo_key sha (trim lic)))
