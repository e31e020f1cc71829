-- ===== src/Domains/Pairing.antt =====
-- `normalizeDomains` of src/licensing/domain-policy.ts: what its list holds, and what the list allows.
use open_editor_text_backend.Base.{
  true, false, List, [], ◌∷◌, ◌++◌, ◌≡◌, ◌≢◌, ◌↔◌, ◌⊎◌, inl, inr, refl, sym, ◌∙◌, arith, Option,
  none, some, some, Text, text_eq, text_beq, text_beq_iff, lower, starts_with, has_char, part_count,
  add, includes, includes-add, includes-nil, includes-cons, Bool-cases, add-Distinct, Distinct,
  is_empty→eq, ne-is_empty, any-of-includes,
}
use open_editor_text_backend.Domains.Matching.{exact, host_matches_pattern_iff}
use open_editor_text_backend.Domains.{
  star, dot, wildcard_prefix, www_prefix, paired, add_option, normalize_one_domain, normalize_step,
  normalize_from, normalize_domains, host_matches_pattern, host_allowed,
}

-- A domain comes from an entry of the input: it is the entry, cleaned, or its pair.
abbrev pub ComesFrom : Text → Text → Type 0
ComesFrom d raw =
    (normalize_one_domain raw ≢ [])
    × ((d ≡ normalize_one_domain raw) ⊎ (paired (normalize_one_domain raw) ≡ some d))

abbrev pub Arises : Text → List Text → Type 0
Arises d [] = ⊥
Arises d (raw ∷ raws) = ComesFrom d raw ⊎ Arises d raws

includes-add_option :
    (d : Text) (o : Option Text) (out : List Text)
    → (includes d (add_option o out) ≡ true) ↔ ((o ≡ some d) ⊎ (includes d out ≡ true))
unfolding add_option
includes-add_option d none out = ground arith
includes-add_option d (some p) out = ground (arith, includes-add p d out, text_beq_iff d p)

added_iff :
    (d n : Text) (out : List Text)
    → (includes d (add_option (paired n) (add n out)) ≡ true)
      ↔ ((includes d out ≡ true) ⊎ ((d ≡ n) ⊎ (paired n ≡ some d)))
added_iff d n out =
    ground
      (arith, includes-add_option d (paired n) (add n out), includes-add n d out, text_beq_iff d n)

normalize_step_iff :
    (d : Text) (out : List Text) (raw : Text)
    → (includes d (normalize_step out raw) ≡ true) ↔ ((includes d out ≡ true) ⊎ ComesFrom d raw)
unfolding normalize_step
normalize_step_iff d out raw =
    let n : Text = normalize_one_domain raw in
    ground (arith, added_iff d n out, is_empty→eq n, ne-is_empty n)

normalize_from_iff :
    (d : Text) (raws out : List Text)
    → (includes d (normalize_from out raws) ≡ true) ↔ ((includes d out ≡ true) ⊎ Arises d raws)
unfolding normalize_from
normalize_from_iff d [] out = ground arith
normalize_from_iff d (raw ∷ raws) out =
    ground (arith, normalize_from_iff d raws (normalize_step out raw), normalize_step_iff d out raw)

add_option-Distinct :
    (o : Option Text) (out : List Text) → Distinct out → Distinct (add_option o out)
unfolding add_option
add_option-Distinct none out h = h
add_option-Distinct (some p) out h = add-Distinct p out h

normalize_step-Distinct :
    (out : List Text) (raw : Text) → Distinct out → Distinct (normalize_step out raw)
unfolding normalize_step
normalize_step-Distinct out raw h =
    let n : Text = normalize_one_domain raw in
    ground (arith, add_option-Distinct (paired n) (add n out) (add-Distinct n out h))

normalize_from-Distinct : (raws out : List Text) → Distinct out → Distinct (normalize_from out raws)
unfolding normalize_from
normalize_from-Distinct [] out h = h
normalize_from-Distinct (raw ∷ raws) out h =
    normalize_from-Distinct raws (normalize_step out raw) (normalize_step-Distinct out raw h)

-- The normalised list has no domain twice, and it holds exactly the cleaned entries of the input
-- that are not empty, and the apex or `www.` pair of each such entry.
pub normalize_domains_iff :
    (raws : List Text)
    → Distinct (normalize_domains raws)
      × ((d : Text) → (includes d (normalize_domains raws) ≡ true) ↔ Arises d raws)
unfolding normalize_domains
normalize_domains_iff raws = (
  normalize_from-Distinct raws [] tt,
  λ d. ground (arith, normalize_from_iff d raws [], includes-nil d),
)

Arises-of-includes :
    (d raw : Text) (raws : List Text) → includes raw raws ≡ true → ComesFrom d raw → Arises d raws
Arises-of-includes d raw [] h c = absurd (ground (arith, includes-nil raw))
Arises-of-includes d raw (r ∷ raws) h c = elim (Bool-cases (text_beq raw r)) [
  | inl same ↦ inl (rw (← (text_beq_iff raw r).0 same) c)
  | inr other ↦ inr (Arises-of-includes d raw raws (ground (arith, includes-cons raw r raws)) c)
]

has_char-lower-star : (s : Text) → has_char star (lower s) ≡ has_char star s
has_char-lower-star [] = refl
has_char-lower-star (c ∷ s) = ground (arith, has_char-lower-star s)

starts_with-star : (s : Text) → has_char star s ≡ false → starts_with s wildcard_prefix ≡ false
starts_with-star [] h = refl
starts_with-star (c ∷ s) h = ground arith

-- A listed host without a star is allowed.
listed_allowed :
    (d : Text) (ds : List Text)
    → has_char star d ≡ false
    → includes d ds ≡ true
    → host_allowed d ds ≡ true
unfolding host_allowed
listed_allowed d [] plain h = refl
listed_allowed d (x ∷ xs) plain h =
    any-of-includes (λ p. host_matches_pattern d p) d (x ∷ xs) h
      ((host_matches_pattern_iff d d).1
        (exact (starts_with-star (lower d) (rw has_char-lower-star plain)) refl))

abbrev pub IsApex : Text → Type 0
IsApex h = (part_count dot h ≡ 2) × (has_char star h ≡ false) × (starts_with h www_prefix ≡ false)

IsApex-ne : (h : Text) → IsApex h → h ≢ []
IsApex-ne [] (two, _, _) e = absurd (omega arith)
IsApex-ne (c ∷ h) a e = cc

apex_pairs : (h : Text) → IsApex h → paired h ≡ some (www_prefix ++ h)
unfolding paired
apex_pairs h (two, plain, bare) = rw (starts_with-star h plain, plain, bare, two)

www_pairs : (h : Text) → IsApex h → paired (www_prefix ++ h) ≡ some h
unfolding paired
www_pairs h (two, plain, bare) = rw plain

-- Binding either of `example.com` and `www.example.com` allows both: for a host of two labels, with
-- no star and no leading `www.`, if an entry of the input cleans to the host or to its `www.` form,
-- then the normalised list allows the host and its `www.` form.
pub normalize_domains_allows :
    (h raw : Text) (raws : List Text)
    → IsApex h
    → includes raw raws ≡ true
    → (normalize_one_domain raw ≡ h) ⊎ (normalize_one_domain raw ≡ www_prefix ++ h)
    → (host_allowed h (normalize_domains raws) ≡ true)
      × (host_allowed (www_prefix ++ h) (normalize_domains raws) ≡ true)
normalize_domains_allows h raw raws a m c = (
  listed_allowed h _ a.1 (listed h here),
  listed_allowed (www_prefix ++ h) _ a.1 (listed _ there),
)
  where
    listed : (d : Text) → ComesFrom d raw → includes d (normalize_domains raws) ≡ true
    listed d from = ((normalize_domains_iff raws).1 d).1 (Arises-of-includes d raw raws m from)

    here : ComesFrom h raw
    here = elim c [
      | inl e ↦ (λ z. IsApex-ne h a (sym e ∙ z), inl (sym e))
      | inr e ↦ (λ z. cc, inr (rw e (www_pairs h a)))
    ]

    there : ComesFrom (www_prefix ++ h) raw
    there = elim c [
      | inl e ↦ (λ z. IsApex-ne h a (sym e ∙ z), inr (rw e (apex_pairs h a)))
      | inr e ↦ (λ z. cc, inl (sym e))
    ]
