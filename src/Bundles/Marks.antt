-- ===== src/Bundles/Marks.antt =====
-- A mark of src/delivery/watermark.ts is read again.
use open_editor_text_backend.Base.{
  ℕ, zero, suc, Bool, true, false, ◌&&◌, List, [], ◌∷◌, ◌++◌, Option, none, some, Text, text,
  text_eq, text_beq, ◌≡◌, ◌≢◌, inl, inr, refl, ap, sym, ◌∙◌, arith, Bool-cases, Option-cases, find,
  length, if◌then◌else◌, starts_with, has_char, take, drop, take-append, &&_split,
}
use open_editor_text_backend.Bundles.{
  mark_begin, newline, marker, mark_rest, watermark_token, apply_watermark, is_hex, hex_prefix,
  token_at, assigned_at, first_match, read_watermark, or_token, matched, match_watermark,
}

starts_with-before :
    (x t p : Text) → has_char newline p ≡ false → starts_with (x ++ newline ∷ t) p ≡ starts_with x p
starts_with-before [] t [] h = refl
starts_with-before [] t (p ∷ ps) h = ground arith
starts_with-before (c ∷ x) t [] h = refl
starts_with-before (c ∷ x) t (p ∷ ps) h = ground (arith, starts_with-before x t ps)

hex_prefix-before : (n : ℕ) (x t : Text) → hex_prefix n (x ++ newline ∷ t) ≡ hex_prefix n x
hex_prefix-before zero x t = refl
hex_prefix-before (suc n) [] t = refl
hex_prefix-before (suc n) (c ∷ x) t = ap (λ b. is_hex c && b) (hex_prefix-before n x t)

drop-before :
    (x y p : Text) → starts_with x p ≡ true → drop (length p) (x ++ y) ≡ drop (length p) x ++ y
drop-before x y [] h = refl
drop-before [] y (p ∷ ps) h = cc
drop-before (c ∷ x) y (p ∷ ps) h = drop-before x y ps (&&_split _ _ h).1

if_none : (b : Bool) (t : Text) → (if b then some t else none) ≡ none → b ≡ false
if_none true t h = cc
if_none false t h = refl

-- No token starts in the bytes before a mark, if none does in the bytes alone.
token_at-before : (x t : Text) → token_at x ≡ none → token_at (x ++ newline ∷ t) ≡ none
token_at-before x t h = elim (Bool-cases (starts_with x mark_begin)) [
  | inr e ↦ rw (starts_with-before x t mark_begin refl, e) refl
  | inl e ↦
      let no_hex : hex_prefix 16 (drop (length mark_begin) x) ≡ false = if_none _ _ (rw e at h) in
      rw
        (
          starts_with-before x t mark_begin refl,
          e,
          drop-before x (newline ∷ t) mark_begin e,
          hex_prefix-before 16 (drop (length mark_begin) x) t,
          no_hex,
        )
        refl
]

first_match-none :
    (pattern : Text → Option Text) (c : ℕ) (s : Text)
    → first_match pattern (c ∷ s) ≡ none
    → (pattern (c ∷ s) ≡ none) × (first_match pattern s ≡ none)
first_match-none pattern c s h = elim (Option-cases (pattern (c ∷ s))) [
  | inl e ↦ (e, rw (first_match, e) at h)
  | inr (t, e) ↦ absurd (some_none t (rw (first_match, e) at h))
]
  where
    some_none : (t : Text) → some t ≢ none
    some_none t k = cc

first_match-skips :
    (pattern : Text → Option Text) (c : ℕ) (s : Text)
    → pattern (c ∷ s) ≡ none
    → first_match pattern (c ∷ s) ≡ first_match pattern s
first_match-skips pattern c s h = rw (first_match, h) refl

first_match-finds :
    (pattern : Text → Option Text) (s t : Text)
    → pattern s ≡ some t
    → first_match pattern s ≡ some t
first_match-finds pattern [] t h = h
first_match-finds pattern (c ∷ s) t h = rw (first_match, h) refl

first_match-before :
    (x t : Text)
    → first_match token_at x ≡ none
    → first_match token_at (x ++ newline ∷ t) ≡ first_match token_at (newline ∷ t)
first_match-before [] t h = refl
first_match-before (c ∷ x) t h =
    let (here, rest) = first_match-none token_at c x h in
    first_match-skips token_at c (x ++ newline ∷ t) (token_at-before (c ∷ x) t here)
    ∙ first_match-before x t rest

hex_prefix-take : (n : ℕ) (x y : Text) → hex_prefix n x ≡ true → hex_prefix n (take n x ++ y) ≡ true
hex_prefix-take zero x y h = refl
hex_prefix-take (suc n) [] y h = cc
hex_prefix-take (suc n) (c ∷ x) y h =
    let (here, rest) = &&_split (is_hex c) (hex_prefix n x) h in
    rw (here, hex_prefix-take n x y rest) refl

length-hex : (n : ℕ) (x : Text) → hex_prefix n x ≡ true → length (take n x) ≡ n
length-hex zero x h = refl
length-hex (suc n) [] h = cc
length-hex (suc n) (c ∷ x) h = ap (λ k. suc k) (length-hex n x (&&_split _ _ h).1)

-- A mark that stands at the start is read.
token_at-mark :
    (token rest : Text)
    → length token ≡ 16
    → hex_prefix 16 (token ++ rest) ≡ true
    → token_at (mark_begin ++ token ++ rest) ≡ some token
token_at-mark token rest long hex =
    rw hex (ap some (ap (λ n. take n (token ++ rest)) (sym long) ∙ take-append token rest))

module _ (hmac : Text → Text → Text) (secret : Text)
    (hex : (m : Text) → hex_prefix 16 (hmac secret m) ≡ true) where
  token-long : (lic : Text) → length (watermark_token hmac secret lic) ≡ 16
  unfolding watermark_token
  token-long lic = length-hex 16 (hmac secret (text "wm:" ++ lic)) (hex (text "wm:" ++ lic))

  token-hex : (lic rest : Text) → hex_prefix 16 (watermark_token hmac secret lic ++ rest) ≡ true
  unfolding watermark_token
  token-hex lic rest =
      hex_prefix-take 16 (hmac secret (text "wm:" ++ lic)) rest (hex (text "wm:" ++ lic))

  mark-read :
      (lic : Text)
      → first_match token_at (marker (watermark_token hmac secret lic))
        ≡ some (watermark_token hmac secret lic)
  mark-read lic =
      let token = watermark_token hmac secret lic in
      first_match-skips token_at newline (mark_begin ++ token ++ mark_rest token) refl
      ∙ first_match-finds token_at (mark_begin ++ token ++ mark_rest token) token
          (token_at-mark token (mark_rest token) (token-long lic) (token-hex lic (mark_rest token)))

-- Bytes in which no mark stands, once they are marked for a licence, are traced: the mark is read
-- back, and the licence that is named is the first one of the list with the token of that licence;
-- if Node's HMAC under the secret starts with sixteen hexadecimal digits.
pub match_watermark-apply_watermark :
    (hmac : Text → Text → Text) (secret bytes lic : Text) (lics : List Text)
    → ((m : Text) → hex_prefix 16 (hmac secret m) ≡ true)
    → first_match token_at bytes ≡ none
    → (read_watermark (apply_watermark hmac bytes secret lic)
        ≡ some (watermark_token hmac secret lic))
      × (match_watermark hmac (apply_watermark hmac bytes secret lic) secret lics
          ≡ find
              (λ x. text_beq (watermark_token hmac secret x) (watermark_token hmac secret lic))
              lics)
unfolding match_watermark apply_watermark read_watermark
match_watermark-apply_watermark hmac secret bytes lic lics hex clean =
    let token = watermark_token hmac secret lic in
    let seen =
      ap (λ o. or_token o (first_match assigned_at (bytes ++ marker token)))
        (first_match-before bytes (mark_begin ++ token ++ mark_rest token) clean
          ∙ mark-read hmac secret hex lic) in
    (seen, ap (matched hmac secret lics) seen)
