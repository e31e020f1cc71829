-- ===== src/Durations/Clamp.antt =====
-- `clampTtlToTerm` of src/licensing/duration-policy.ts keeps a token inside the paid term.
use open_editor_text_backend.Base.{
  true, Option, none, some, ◌≡◌, refl, arith, Bool-cases, inl, inr, leb→le, ◌∙◌,
}
use open_editor_text_backend.Base.Int.{
  ℤ, pos, ◌+ℤ◌, ◌-ℤ◌, ◌≤ℤ◌, ◌<ℤ◌, int_laws, -ℤ_parts, leb_ℤ, le→leb_ℤ,
}
use open_editor_text_backend.Durations.{
  Number, at, infinity, clamp_ttl_to_term, less_headroom, infinite_term,
}

-- A perpetual term cuts nothing off.
pub clamp-infinite :
    (requested : Option Number) (now : ℤ)
    → clamp_ttl_to_term requested (at infinite_term) now ≡ requested
unfolding clamp_ttl_to_term
clamp-infinite requested now = refl

module _ (renew now : ℤ) (finite : pos 0 <ℤ renew) (open_term : now <ℤ renew) where
  clamp-inside :
      (requested : Option Number)
      → clamp_ttl_to_term requested (at renew) now ≡ less_headroom (renew -ℤ now) requested
  unfolding clamp_ttl_to_term
  clamp-inside requested = ground (arith, -ℤ_parts renew now)

  -- What is left of a lifetime when the headroom is cut off.
  abbrev Within : Option Number → Type 0
  Within o = (t : ℤ) × (o ≡ some (at t)) × (pos 0 <ℤ t) × (now +ℤ t ≤ℤ renew)

  less_headroom-Within :
      (requested : Option Number) → Within (less_headroom (renew -ℤ now) requested)
  less_headroom-Within none = (renew -ℤ now, refl, omega int_laws, omega int_laws)
  less_headroom-Within (some infinity) = (renew -ℤ now, refl, omega int_laws, omega int_laws)
  less_headroom-Within (some (at r)) = elim (Bool-cases (leb_ℤ r (pos 0))) [
    | inl e ↦ (renew -ℤ now, rw e, omega int_laws, omega int_laws)
    | inr e ↦ elim (Bool-cases (leb_ℤ r (renew -ℤ now))) [
      | inl f ↦ (r, rw (e, f), ground arith, ends_within r f)
      | inr f ↦ (renew -ℤ now, rw (e, f), omega int_laws, omega int_laws)
    ]
  ]
    where
      ends_within : (r : ℤ) → leb_ℤ r (renew -ℤ now) ≡ true → now +ℤ r ≤ℤ renew
      ends_within r f = omega (int_laws, leb→le _ _ f)

  -- Before the end of a finite term the clamped lifetime is a positive number of seconds, and a
  -- token of that lifetime ends within the term.
  pub clamp_within_term :
      (requested : Option Number)
      → (t : ℤ) × (clamp_ttl_to_term requested (at renew) now ≡ some (at t))
        × (pos 0 <ℤ t)
        × (now +ℤ t ≤ℤ renew)
  clamp_within_term requested = rw (clamp-inside requested) (less_headroom-Within requested)

  -- A positive lifetime that ends within the term is granted in full.
  pub clamp_keeps :
      (r : ℤ)
      → pos 0 <ℤ r
      → now +ℤ r ≤ℤ renew
      → clamp_ttl_to_term (some (at r)) (at renew) now ≡ some (at r)
  clamp_keeps r p q =
      clamp-inside (some (at r)) ∙ ground (arith, le→leb_ℤ r (renew -ℤ now) (omega int_laws))
