-- ===== src/Domains/Matching.antt =====
-- `hostMatchesPattern` and `hostAllowed` of src/licensing/domain-policy.ts decide a relation.
use open_editor_text_backend.Base.{
  ◌-◌, true, false, not, List, [], ◌∷◌, ◌++◌, ◌≡◌, ◌≢◌, ◌↔◌, ◌⊎◌, inl, inr, refl, sym, ap, ◌∙◌,
  arith, Text, text_beq, text_beq_iff, lower, starts_with, has_char, is_empty, drop, take, length,
  if◌then◌else◌, ◌||◌, length-append, drop-append, take-append, take-append-drop, Bool-cases, any,
  starts_with-split, starts_with-append, is_empty-ne, ne-is_empty,
}
use open_editor_text_backend.Domains.{
  star, dot, wildcard_prefix, ends_with, covers_base, host_matches_pattern, host_allowed,
}

-- A host is covered by a base: it is the base, or one label before it.
pub data Covers (base : Text) : Text → Type 0 where
  apex : {h : Text} → h ≡ base → Covers base h
  below :
      {h : Text} (label : Text)
      → h ≡ label ++ dot ∷ base
      → label ≢ []
      → has_char dot label ≡ false
      → Covers base h

pub data Matches (pat : Text) : Text → Type 0 where
  exact : {h : Text} → starts_with pat wildcard_prefix ≡ false → h ≡ pat → Matches pat h
  wildcard :
      {h : Text} (base : Text)
      → pat ≡ wildcard_prefix ++ base
      → base ≢ []
      → has_char star base ≡ false
      → Covers base h
      → Matches pat h

ends_with-split : (h t : Text) → ends_with h t ≡ true → h ≡ take (length h - length t) h ++ t
unfolding ends_with
ends_with-split h t e =
    let tail : drop (length h - length t) h ≡ t = (text_beq_iff _ t).0 (ground arith) in
    sym (take-append-drop (length h - length t) h)
    ∙ ap (λ r. take (length h - length t) h ++ r) tail

append-length-sub : (u t : Text) → length (u ++ t) - length t ≡ length u
append-length-sub u t = omega (arith, length-append {0} u t)

ends_with-append : (u t : Text) → ends_with (u ++ t) t ≡ true
unfolding ends_with
ends_with-append u t =
    rw (append-length-sub u t, drop-append u t, (text_beq_iff t t).1 refl)
      (ground (arith, length-append u t))

-- The label that `hostMatchesPattern` cuts off is what stands before `.base`.
label_length : (h base : Text) → length h - length base - 1 ≡ length h - length (dot ∷ base)
label_length h base = omega arith

covers_base_sound : (h base : Text) → covers_base h base ≡ true → Covers base h
unfolding covers_base
covers_base_sound h base e = elim (Bool-cases (text_beq h base)) [
  | inl same ↦ apex ((text_beq_iff h base).0 same)
  | inr other ↦ elim (Bool-cases (ends_with h (dot ∷ base))) [
    | inr miss ↦ absurd (cc)
    | inl hit ↦
        let label : Text = take (length h - length base - 1) h in
        below label (rw (label_length h base) (ends_with-split h (dot ∷ base) hit))
          (is_empty-ne label (ground arith)) (ground arith)
  ]
]

covers_base_complete : (h base : Text) → Covers base h → covers_base h base ≡ true
unfolding covers_base
covers_base_complete h base (apex e) = rw ((text_beq_iff h base).1 e)
covers_base_complete h base (below label e ne plain) =
    let cut : take (length h - length base - 1) h ≡ label =
      rw (label_length h base, e, append-length-sub label (dot ∷ base))
        (take-append label (dot ∷ base)) in
    let hit : ends_with h (dot ∷ base) ≡ true = rw e (ends_with-append label (dot ∷ base)) in
    rw (hit, cut, ne-is_empty label ne, plain) (ground arith)

host-Matches_sound :
    (host pattern : Text)
    → host_matches_pattern host pattern ≡ true
    → Matches (lower pattern) (lower host)
unfolding host_matches_pattern
host-Matches_sound host pattern e =
    elim (Bool-cases (starts_with (lower pattern) wildcard_prefix)) [
      | inr plain ↦ exact plain ((text_beq_iff _ _).0 (rw plain at e))
      | inl wild ↦
          let base : Text = drop 2 (lower pattern) in
          wildcard base (starts_with-split (lower pattern) wildcard_prefix wild)
            (is_empty-ne base (ground arith)) (ground arith)
            (covers_base_sound (lower host) base (ground arith))
    ]

Matches-complete :
    (h pat : Text)
    → Matches pat h
    → (if not (starts_with pat wildcard_prefix)
        then text_beq h pat
        else if is_empty (drop 2 pat) || has_char star (drop 2 pat)
        then false
        else covers_base h (drop 2 pat))
      ≡ true
Matches-complete h pat (exact plain e) = rw plain ((text_beq_iff h pat).1 e)
Matches-complete h pat (wildcard base e ne plain c) =
    rw (e, starts_with-append wildcard_prefix base, ne-is_empty base ne, plain)
      (covers_base_complete h base c)

-- `hostMatchesPattern` accepts exactly the hosts of the rule in its comment, letter case aside: the
-- pattern itself, or for `*.base` the base and the base behind one non-empty label without dots.
pub host_matches_pattern_iff :
    (host pattern : Text)
    → (host_matches_pattern host pattern ≡ true) ↔ Matches (lower pattern) (lower host)
unfolding host_matches_pattern
host_matches_pattern_iff host pattern =
    (host-Matches_sound host pattern, Matches-complete (lower host) (lower pattern))

-- One of the bindings of a list covers a host.
abbrev pub Listed : Text → List Text → Type 0
Listed host [] = ⊥
Listed host (d ∷ ds) = Matches (lower d) (lower host) ⊎ Listed host ds

any_iff :
    (host : Text) (ds : List Text)
    → (any (λ d. host_matches_pattern host d) ds ≡ true) ↔ Listed host ds
any_iff host [] = (λ h. cc, λ h. elim h [ ])
any_iff host (d ∷ ds) = (
  λ h. elim (Bool-cases (host_matches_pattern host d)) [
    | inl hit ↦ inl (host-Matches_sound host d hit)
    | inr miss ↦ inr ((any_iff host ds).0 (rw miss at h))
  ],
  elim [
    | inl m ↦ rw ((host_matches_pattern_iff host d).1 m)
    | inr m ↦ ground (arith, (any_iff host ds).1 m)
  ],
)

-- A licence with no domains allows every host; any other allows a host exactly when one of its
-- domains covers it.
pub host_allowed_iff :
    (host : Text) (domains : List Text)
    → (host_allowed host domains ≡ true) ↔ ((domains ≡ []) ⊎ Listed host domains)
unfolding host_allowed
host_allowed_iff host [] = (λ h. inl refl, λ h. refl)
host_allowed_iff host (d ∷ ds) = (
  λ h. inr ((any_iff host (d ∷ ds)).0 h),
  elim [ inl e ↦ cc | inr m ↦ (any_iff host (d ∷ ds)).1 m ],
)
