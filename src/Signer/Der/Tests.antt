-- ===== src/Signer/Der/Tests.antt =====
-- Runs of the DER conversions of src/licensing/license-signer.service.ts, and their theorem at one.
use open_editor_text_backend.Base.{◌>>=◌, [], ◌∷◌, ◌++◌, ◌≡◌, refl, ok}
use open_editor_text_backend.Signer.Der.{
  encode_int, integer_bytes, strip_zeros, high_bit, p1363_to_der, trim_to, place, read,
  after_header, der_to_p1363, Bytes,
}

-- Halves with leading zeros, and with a high bit.
der_tests :
    (p1363_to_der (0 ∷ 5 ∷ 200 ∷ 1 ∷ []) ≡ ok (48 ∷ 8 ∷ 2 ∷ 1 ∷ 5 ∷ 2 ∷ 3 ∷ 0 ∷ 200 ∷ 1 ∷ []))
    × (der_to_p1363 (48 ∷ 8 ∷ 2 ∷ 1 ∷ 5 ∷ 2 ∷ 3 ∷ 0 ∷ 200 ∷ 1 ∷ []) 2 ≡ ok (0 ∷ 5 ∷ 200 ∷ 1 ∷ []))
unfolding p1363_to_der der_to_p1363 encode_int integer_bytes strip_zeros high_bit trim_to place read
    after_header ◌>>=◌
der_tests = (refl, refl)

abbrev zeros_31 : Bytes
zeros_31 =
    0 ∷ 0 ∷ 0 ∷ 0 ∷ 0 ∷ 0 ∷ 0 ∷ 0 ∷ 0 ∷ 0 ∷ 0 ∷ 0 ∷ 0 ∷ 0 ∷ 0 ∷ 0 ∷ 0 ∷ 0 ∷ 0 ∷ 0 ∷ 0 ∷ 0 ∷ 0 ∷ 0
    ∷ 0 ∷ 0 ∷ 0 ∷ 0 ∷ 0 ∷ 0 ∷ 0 ∷ []

abbrev pub unit_signature : Bytes
unit_signature = zeros_31 ++ (1 ∷ zeros_31) ++ (1 ∷ [])

-- The DER form of 1 and 1.
pub unit_signature_read :
    der_to_p1363 (0x30 ∷ 6 ∷ 2 ∷ 1 ∷ 1 ∷ 2 ∷ 1 ∷ 1 ∷ []) 32 ≡ ok unit_signature
unfolding der_to_p1363 read place trim_to after_header ◌>>=◌
unit_signature_read = refl
