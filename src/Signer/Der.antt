-- ===== src/Signer/Der.antt =====
-- `p1363ToDer` and `derToP1363` of src/licensing/license-signer.service.ts, over lists of bytes.
pub mod Lengths
pub mod RoundTrip
pub mod Tests
use open_editor_text_backend.Base.{
  ℕ, zero, suc, ◌+◌, ◌-◌, ◌*◌, ◌/◌, ◌%◌, ◌≤◌, ◌<◌, Bool, true, false, not, ◌&&◌, List, [], ◌∷◌,
  ◌++◌, Result, ok, err, failure, if◌then◌else◌, length, take, drop, nat_beq, leb, ltb, ◌≡◌, refl,
  sym, ap, ◌∙◌, arith, append_assoc, ◌>>=◌, length-append, take-append, drop-append,
  take-append-drop, Bool-cases, inl, inr,
}

abbrev pub Bytes : Type 0
Bytes = List ℕ

abbrev zeros : ℕ → Bytes
zeros zero = []
zeros (suc n) = 0 ∷ zeros n

-- The loop that skips leading zeros, and keeps the last byte.
strip_zeros : Bytes → Bytes
strip_zeros [] = []
strip_zeros (b ∷ []) = b ∷ []
strip_zeros (b ∷ c ∷ r) = if nat_beq b 0 then strip_zeros (c ∷ r) else b ∷ c ∷ r

-- `bytes[0] & 0x80`
high_bit : Bytes → Bool
high_bit [] = false
high_bit (b ∷ r) = leb 128 b

integer_bytes : Bytes → Bytes
integer_bytes raw = let s = strip_zeros raw in if high_bit s then 0 ∷ s else s

-- `encodeInt`; `Buffer.from` keeps a length's lowest byte.
encode_int : Bytes → Bytes
encode_int raw = 0x02 ∷ (length (integer_bytes raw) % 256) ∷ integer_bytes raw

-- `p1363ToDer`.
pub p1363_to_der : Bytes → Result Bytes
p1363_to_der sig =
    if not (nat_beq (length sig % 2) 0)
    then err failure
    else let size = length sig / 2 in
      let body = encode_int (take size sig) ++ encode_int (drop size sig) in
      ok (0x30 ∷ (length body % 256) ∷ body)

-- `while (bytes.length > size && bytes[0] === 0x00) bytes = bytes.subarray(1)`
trim_to : ℕ → Bytes → Bytes
trim_to size [] = []
trim_to size (b ∷ r) = if ltb size (length (b ∷ r)) && nat_beq b 0 then trim_to size r else b ∷ r

-- `bytes.copy(out, size - bytes.length)` into a buffer of zeros; a negative offset throws.
place : ℕ → Bytes → Result Bytes
place size bytes =
    if ltb size (length bytes) then err failure else ok (zeros (size - length bytes) ++ bytes)

-- `read`, over the bytes from the offset on. A missing length reads no byte, and the offset is then
-- `NaN`, from which nothing can be read.
read : ℕ → Bytes → Result (Bytes × Bytes)
read size [] = err failure
read size (tag ∷ []) = if not (nat_beq tag 0x02) then err failure else ok (zeros size, [])
read size (tag ∷ len ∷ r) =
    if not (nat_beq tag 0x02)
    then err failure
    else do out ← place size (trim_to size (take len r)); ok (out, drop len r)

-- The bytes after the sequence header, with the long form of its length.
after_header : Bytes → Bytes
after_header [] = []
after_header (t ∷ []) = []
after_header (t ∷ l ∷ r) = if leb 128 l then drop (l % 128) r else r

-- `derToP1363`.
pub der_to_p1363 : Bytes → ℕ → Result Bytes
der_to_p1363 der size = do
  (r, rest) ← read size (after_header der)
  (s, _) ← read size rest
  ok (r ++ s)
