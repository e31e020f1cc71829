-- ===== src/Signer/Der/RoundTrip.antt =====
-- The two DER conversions of src/licensing/license-signer.service.ts undo one another on signatures.
use open_editor_text_backend.Base.{
  ◌>>=◌, ℕ, zero, suc, ◌+◌, ◌-◌, ◌/◌, ◌%◌, ◌≤◌, ◌<◌, [], ◌∷◌, ◌++◌, ok, length, take, drop, nat_beq,
  ltb, ◌≡◌, refl, ap, ◌∙◌, arith, length-append, take-append, drop-append, take-append-drop,
  Bool-cases, inl, inr, append-nil, length-take, length-drop,
}
use open_editor_text_backend.Signer.Der.{
  Bytes, zeros, strip_zeros, high_bit, integer_bytes, encode_int, p1363_to_der, trim_to, place,
  read, after_header, der_to_p1363,
}

length-strip_zeros : (raw : Bytes) → length (strip_zeros raw) ≤ length raw
unfolding strip_zeros
length-strip_zeros [] = omega arith
length-strip_zeros (b ∷ []) = omega arith
length-strip_zeros (b ∷ c ∷ r) = ground (arith, length-strip_zeros (c ∷ r))

length-integer_bytes : (raw : Bytes) → length (integer_bytes raw) ≤ length raw + 1
unfolding integer_bytes
length-integer_bytes raw = ground (arith, length-strip_zeros raw)

-- Zeros put back to the left.
pad : ℕ → Bytes → Bytes
pad size bytes = zeros (size - length bytes) ++ bytes

pad-suc : (n : ℕ) (b : Bytes) → length b ≤ n → pad (suc n) b ≡ 0 ∷ pad n b
unfolding pad
pad-suc n b h = let e : suc n - length b ≡ suc (n - length b) = omega arith in rw e

pad_self : (b : Bytes) → pad (length b) b ≡ b
unfolding pad
pad_self b = let e : length b - length b ≡ 0 = omega arith in rw e

pad-strip_zeros : (raw : Bytes) → pad (length raw) (strip_zeros raw) ≡ raw
unfolding strip_zeros
pad-strip_zeros [] = pad_self []
pad-strip_zeros (b ∷ []) = pad_self (b ∷ [])
pad-strip_zeros (b ∷ c ∷ r) = elim (Bool-cases (nat_beq b 0)) [
  | inl e ↦ rw e (
      pad-suc (length (c ∷ r)) (strip_zeros (c ∷ r)) (length-strip_zeros (c ∷ r))
      ∙ ground (arith, pad-strip_zeros (c ∷ r)))
  | inr e ↦ rw e (pad_self (b ∷ c ∷ r))
]

zeros-snoc : (k : ℕ) (s : Bytes) → zeros k ++ 0 ∷ s ≡ zeros (suc k) ++ s
zeros-snoc zero s = refl
zeros-snoc (suc k) s = ap (◌∷◌ 0) (zeros-snoc k s)

pad-zero : (n : ℕ) (s : Bytes) → suc (length s) ≤ n → pad n (0 ∷ s) ≡ pad n s
unfolding pad
pad-zero n s h =
    let e : n - length s ≡ suc (n - suc (length s)) = omega arith in
    rw e (zeros-snoc (n - suc (length s)) s)

trim_to-le : (size : ℕ) (b : Bytes) → length b ≤ size → trim_to size b ≡ b
unfolding trim_to
trim_to-le size [] h = refl
trim_to-le size (x ∷ r) h = ground arith

place-le : (size : ℕ) (b : Bytes) → length b ≤ size → place size b ≡ ok (pad size b)
unfolding place pad
place-le size b h = ground arith

-- Reading a number without the zero in front, and with it.
place-plain : (n : ℕ) (s : Bytes) → length s ≤ n → place n (trim_to n s) ≡ ok (pad n s)
place-plain n s h = rw (trim_to-le n s h) (place-le n s h)

place-zero : (n : ℕ) (s : Bytes) → length s ≤ n → place n (trim_to n (0 ∷ s)) ≡ ok (pad n s)
unfolding trim_to
place-zero n s h = elim (Bool-cases (ltb n (suc (length s)))) [
  | inl e ↦ rw e (place-plain n s h)
  | inr e ↦ rw e (place-le n (0 ∷ s) (ground arith) ∙ ap ok (pad-zero n s (ground arith)))
]

place-integer :
    (raw : Bytes) → place (length raw) (trim_to (length raw) (integer_bytes raw)) ≡ ok raw
unfolding integer_bytes
place-integer raw = elim (Bool-cases (high_bit (strip_zeros raw))) [
  | inl e ↦ rw e (place-zero _ _ (length-strip_zeros raw) ∙ ap ok (pad-strip_zeros raw))
  | inr e ↦ rw e (place-plain _ _ (length-strip_zeros raw) ∙ ap ok (pad-strip_zeros raw))
]

byte_length : (n : ℕ) → n < 256 → n % 256 ≡ n
byte_length n h = omega arith

-- `read` undoes `encodeInt`, whatever follows.
read-encode_int :
    (raw rest : Bytes)
    → length raw < 128
    → read (length raw) (encode_int raw ++ rest) ≡ ok (raw, rest)
unfolding read encode_int ◌>>=◌
read-encode_int raw rest h = rw (
  byte_length (length (integer_bytes raw)) (omega (arith, length-integer_bytes raw)),
  take-append (integer_bytes raw) rest,
  drop-append (integer_bytes raw) rest,
  place-integer raw,
)

length-encode_int : (raw : Bytes) → length (encode_int raw) ≤ length raw + 3
unfolding encode_int
length-encode_int raw = omega (arith, length-integer_bytes raw)

encoded : Bytes → Bytes → Bytes
encoded r s = encode_int r ++ encode_int s

length-encoded : (r s : Bytes) → length (encoded r s) ≤ length r + length s + 6
unfolding encoded
length-encoded r s = omega (
  arith,
  length-append {0} (encode_int r) (encode_int s),
  length-encode_int r,
  length-encode_int s,
)

read_last : (s : Bytes) → length s < 128 → read (length s) (encode_int s) ≡ ok (s, [])
read_last s h = rw (← append-nil (encode_int s)) (read-encode_int s [] h)

short_header : (l : ℕ) (body : Bytes) → l < 128 → after_header (0x30 ∷ (l % 256) ∷ body) ≡ body
unfolding after_header
short_header l body h = let e : l % 256 ≡ l = omega arith in rw e (ground arith)

read_first :
    (r s : Bytes) (size : ℕ)
    → length r ≡ size
    → size ≤ 60
    → read size (encoded r s) ≡ ok (r, encode_int s)
unfolding encoded
read_first r s size p h = rw (← p) (read-encode_int r (encode_int s) (omega arith))

read_second :
    (s : Bytes) (size : ℕ) → length s ≡ size → size ≤ 60 → read size (encode_int s) ≡ ok (s, [])
read_second s size p h = rw (← p) (read_last s (omega arith))

decode-encode :
    (r s : Bytes) (size : ℕ)
    → length r ≡ size
    → length s ≡ size
    → size ≤ 60
    → der_to_p1363 (0x30 ∷ (length (encoded r s) % 256) ∷ encoded r s) size ≡ ok (r ++ s)
unfolding der_to_p1363 ◌>>=◌
decode-encode r s size p q h = rw (
  short_header (length (encoded r s)) (encoded r s) (omega (arith, length-encoded r s)),
  read_first r s size p h,
  read_second s size q h,
)

-- A signature in two halves of `size` bytes is encoded without an error, and decoding the result at
-- that size gives the signature back, for every size up to 60 bytes (P-256 has 32).
pub der_to_p1363-p1363_to_der :
    (sig : Bytes) (size : ℕ)
    → length sig ≡ size + size
    → size ≤ 60
    → (der : Bytes) × (p1363_to_der sig ≡ ok der) × (der_to_p1363 der size ≡ ok sig)
unfolding p1363_to_der encoded
der_to_p1363-p1363_to_der sig size e h =
    let half : length sig / 2 ≡ size = omega arith in
    let left : length (take size sig) ≡ size = omega (arith, length-take size sig) in
    let right : length (drop size sig) ≡ size = omega (arith, length-drop size sig) in
    let even : length sig % 2 ≡ 0 = omega arith in
    (
      _,
      rw (even, half),
      decode-encode (take size sig) (drop size sig) size left right h
          ∙ ap ok (take-append-drop size sig),
    )
