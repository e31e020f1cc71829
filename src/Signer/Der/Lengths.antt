-- ===== src/Signer/Der/Lengths.antt =====
-- The length of a signature that `derToP1363` of src/licensing/license-signer.service.ts reads.
use open_editor_text_backend.Base.{
  length-append, take, nat_beq, nat_eq, ltb, ◌-◌, ℕ, zero, suc, ◌≤◌, ◌+◌, false, [], ◌∷◌, text_eq,
  ◌≡◌, inl, inr, refl, arith, Bool-cases, Ensures, returns, after, of_ok, length, throws,
}
use open_editor_text_backend.Signer.Der.{
  Bytes, zeros, trim_to, place, read, after_header, der_to_p1363,
}

-- A signature that is read from DER has two halves of the size.
length-zeros : (k : ℕ) → length (zeros k) ≡ k
length-zeros zero = refl
length-zeros (suc k) = ground (arith, length-zeros k)

length-place : (size : ℕ) (b : Bytes) → Ensures (λ out. length out ≡ size) (place size b)
unfolding place
length-place size b = elim (Bool-cases (ltb size (length b))) [
  | inl e ↦ rw e throws
  | inr e ↦ rw e (
      returns (
        omega (
          arith,
          length-append {0} (zeros (size - length b)) b,
          length-zeros (size - length b),
          fits e,
        )))
]
  where
    fits : ltb size (length b) ≡ false → length b ≤ size
    fits e = ground arith

length-read :
    (size : ℕ) (b : Bytes) → Ensures (λ (q : Bytes × Bytes). length q.0 ≡ size) (read size b)
unfolding read
length-read size [] = throws
length-read size (tag ∷ []) = elim (Bool-cases (nat_beq tag 2)) [
  | inl e ↦ rw e (returns (length-zeros size))
  | inr e ↦ rw e throws
]
length-read size (tag ∷ len ∷ r) = elim (Bool-cases (nat_beq tag 2)) [
  | inr e ↦ rw e throws
  | inl e ↦
      rw e
        (after λ out placed. returns (of_ok (length-place size (trim_to size (take len r))) placed))
]

pub length-der_to_p1363 :
    (der : Bytes) (size : ℕ) → Ensures (λ sig. length sig ≡ size + size) (der_to_p1363 der size)
unfolding der_to_p1363
length-der_to_p1363 der size = after λ q first. after λ q' second.
    let l = of_ok (length-read size (after_header der)) first in
    let m = of_ok (length-read size q.1) second in
    returns (omega (arith, length-append {0} q.0 q'.0, l, m))
