-- ===== src/Signer/Wire/Framing.antt =====
-- Taking apart what `sign` of src/licensing/license-signer.service.ts has joined.
use open_editor_text_backend.Base.{
  append_assoc, has_char, reverse, nat_beq, nat_eq, ℕ, false, [], ◌∷◌, ◌++◌, some, Text, text_eq,
  ◌≡◌, refl, ap, ◌∙◌, arith,
}
use mathlib.Core.List.{reverse-append, map}
use open_editor_text_backend.Signer.Wire.{
  Node, dot, b64url, url_char, drop_equals, split_dots, parts_of, Bytes,
}

has_char-append :
    (c : ℕ) (a b : Text) → has_char c a ≡ false → has_char c b ≡ false → has_char c (a ++ b) ≡ false
has_char-append c [] b h k = k
has_char-append c (x ∷ a) b h k = ground (arith, has_char-append c a b)

pub has_char-reverse : (c : ℕ) (s : Text) → has_char c s ≡ false → has_char c (reverse s) ≡ false
has_char-reverse c [] h = refl
has_char-reverse c (x ∷ s) h =
    ap (has_char c) (reverse-append (x ∷ []) s)
    ∙ has_char-append c (reverse s) (x ∷ []) (has_char-reverse c s (ground arith)) (ground arith)

url_plain : (s : Text) → has_char dot s ≡ false → has_char dot (map url_char s) ≡ false
url_plain [] h = refl
url_plain (c ∷ s) h = ground (arith, url_plain s)

drop_equals_plain : (s : Text) → has_char dot s ≡ false → has_char dot (drop_equals s) ≡ false
drop_equals_plain [] h = refl
drop_equals_plain (c ∷ s) h = ground (arith, drop_equals_plain s)

-- No part of a token has a dot.
pub b64url_plain :
    (n : Node) (b : Bytes) → has_char dot (n.base64 b) ≡ false → has_char dot (b64url n b) ≡ false
unfolding b64url
b64url_plain n b h =
    let mapped : Text = map url_char (n.base64 b) in
    has_char-reverse dot (drop_equals (reverse mapped))
      (drop_equals_plain (reverse mapped) (has_char-reverse dot mapped (url_plain (n.base64 b) h)))

split_last : (a : Text) → has_char dot a ≡ false → split_dots a ≡ a ∷ []
split_last [] h = refl
split_last (c ∷ a) h =
    let other : nat_beq c dot ≡ false = ground arith in rw (other, split_last a (ground arith)) refl

split_part : (a b : Text) → has_char dot a ≡ false → split_dots (a ++ (dot ∷ b)) ≡ a ∷ split_dots b
split_part [] b h = refl
split_part (c ∷ a) b h =
    let other : nat_beq c dot ≡ false = ground arith in
    rw (other, split_part a b (ground arith)) refl

pub parts-joined :
    (h p s : Text)
    → has_char dot h ≡ false
    → has_char dot p ≡ false
    → has_char dot s ≡ false
    → parts_of (split_dots ((h ++ (dot ∷ p)) ++ (dot ∷ s))) ≡ some (h, p, s)
parts-joined h p s i j k =
    rw
      (
        append_assoc h (dot ∷ p) (dot ∷ s),
        split_part h (p ++ (dot ∷ s)) i,
        split_part p s j,
        split_last s k,
      )
      refl
