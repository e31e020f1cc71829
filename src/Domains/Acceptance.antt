-- ===== src/Domains/Acceptance.antt =====
-- `assertDomainsAcceptable` of src/licensing/domain-policy.ts: what it accepts, and what that prevents.
use mathlib.Core.List.{map-append}
use open_editor_text_backend.Base.{
  ◌>>=◌, ◌≤◌, true, false, List, [], ◌∷◌, ◌++◌, ◌≡◌, ◌≢◌, ◌↔◌, ◌⊎◌, refl, sym, ap, ◌∙◌, arith, Text,
  text_eq, text_beq, text_beq_iff, lower, has_char, part_count, includes, all, All,
  holds-of-includes, starts_with-append, subst, ok, err, bad_request,
}
use open_editor_text_backend.Domains.Matching.{
  Covers, apex, below, Matches, exact, wildcard, host_matches_pattern_iff,
}
use open_editor_text_backend.Domains.{
  dot, wildcard_prefix, public_suffixes, base_of, assert_domains_acceptable, host_matches_pattern,
}

abbrev pub IsAcceptable : Text → Type 0
IsAcceptable d = (2 ≤ part_count dot (base_of d)) × (includes (base_of d) public_suffixes ≡ false)

-- A list of bindings is accepted exactly when every base has two labels at least and is no shared
-- hosting suffix; otherwise the request is refused as a bad request.
pub assert_domains_acceptable_iff :
    (ds : List Text)
    → ((assert_domains_acceptable ds ≡ ok tt) ↔ All IsAcceptable ds)
      × ((assert_domains_acceptable ds ≡ ok tt) ⊎ (assert_domains_acceptable ds ≡ err bad_request))
unfolding assert_domains_acceptable ◌>>=◌
assert_domains_acceptable_iff [] = ground arith
assert_domains_acceptable_iff (d ∷ ds) = ground (arith, assert_domains_acceptable_iff ds)

-- A text is cut at its first dot in one way.
dot_split :
    (a b x y : Text)
    → has_char dot a ≡ false
    → has_char dot b ≡ false
    → a ++ dot ∷ x ≡ b ++ dot ∷ y
    → (a ≡ b) × (x ≡ y)
dot_split [] [] x y p q e = (refl, cc)
dot_split [] (c ∷ b) x y p q e = absurd (ground arith)
dot_split (c ∷ a) [] x y p q e = absurd (ground arith)
dot_split (c ∷ a) (d ∷ b) x y p q e = ground (arith, dot_split a b x y)

has_char-lower-dot : (s : Text) → has_char dot (lower s) ≡ has_char dot s
has_char-lower-dot [] = refl
has_char-lower-dot (c ∷ s) = ground (arith, has_char-lower-dot s)

suffixes_lower : all (λ s. text_beq (lower s) s) public_suffixes ≡ true
unfolding text_beq
suffixes_lower = refl

-- The host of a tenant of a shared suffix.
abbrev pub tenant : Text → Text → Text
tenant label suffix = label ++ dot ∷ suffix

-- What a base covers below a suffix, when it is not the suffix itself.
Covers-one :
    (base s a b : Text)
    → has_char dot a ≡ false
    → has_char dot b ≡ false
    → base ≢ s
    → Covers base (tenant a s)
    → Covers base (tenant b s)
    → a ≡ b
Covers-one base s a b p q ne (apex e) (apex f) = (dot_split a b s s p q (e ∙ sym f)).0
Covers-one base s a b p q ne (below l e _ plain) _ =
    absurd (ne (sym (dot_split a l s base p plain e).1))
Covers-one base s a b p q ne _ (below l f _ plain) =
    absurd (ne (sym (dot_split b l s base q plain f).1))

lower-tenant :
    (a s : Text) → includes s public_suffixes ≡ true → lower (tenant a s) ≡ tenant (lower a) s
lower-tenant a s h = rw map-append (
    ap (λ t. lower a ++ dot ∷ t)
      ((text_beq_iff (lower s) s).0
        (holds-of-includes (λ x. text_beq (lower x) x) s public_suffixes suffixes_lower h)))

-- A binding that is a wildcard has the base that was accepted.
wildcard_base : (d base : Text) → d ≡ wildcard_prefix ++ base → base_of d ≡ base
wildcard_base d base e = rw e

Matches-one :
    (d s a b : Text)
    → includes (base_of d) public_suffixes ≡ false
    → includes s public_suffixes ≡ true
    → has_char dot a ≡ false
    → has_char dot b ≡ false
    → Matches d (tenant a s)
    → Matches d (tenant b s)
    → a ≡ b
Matches-one d s a b free shared p q (exact _ e) (exact _ f) = (dot_split a b s s p q (e ∙ sym f)).0
Matches-one d s a b free shared p q (exact plain _) (wildcard base e _ _ _) =
    absurd (cc (starts_with-append wildcard_prefix base, plain))
Matches-one d s a b free shared p q (wildcard base e _ _ _) (exact plain _) =
    absurd (cc (starts_with-append wildcard_prefix base, plain))
Matches-one d s a b free shared p q (wildcard base e _ _ c) (wildcard base' e' _ _ c') =
    Covers-one base s a b p q (λ z. cc (wildcard_base d base e)) c
      (subst (λ t. Covers t (tenant b s)) (sym (wildcard_base d base' e') ∙ wildcard_base d base e)
        c')

-- An accepted binding in lower case never covers two tenants of a listed shared hosting suffix: if
-- it matches the hosts `a.suffix` and `b.suffix`, where `a` and `b` are single labels, then `a` and
-- `b` are one label, letter case aside.
pub acceptable_one_tenant :
    (d s a b : Text)
    → lower d ≡ d
    → assert_domains_acceptable (d ∷ []) ≡ ok tt
    → includes s public_suffixes ≡ true
    → has_char dot a ≡ false
    → has_char dot b ≡ false
    → host_matches_pattern (tenant a s) d ≡ true
    → host_matches_pattern (tenant b s) d ≡ true
    → lower a ≡ lower b
acceptable_one_tenant d s a b low accepted shared p q m n =
    Matches-one d s (lower a) (lower b) ((assert_domains_acceptable_iff (d ∷ [])).0.0 accepted).0.1
      shared (rw has_char-lower-dot p) (rw has_char-lower-dot q) (matched a m) (matched b n)
  where
    matched :
        (l : Text) → host_matches_pattern (tenant l s) d ≡ true → Matches d (tenant (lower l) s)
    matched l h = rw (← lower-tenant l s shared) (
        subst (λ t. Matches t (lower (tenant l s))) low
          ((host_matches_pattern_iff (tenant l s) d).0 h))
