-- ===== src/Base/Trim.antt =====
-- Trimming a text twice is trimming it once.
use mathlib.Core.Path.{◌≡◌, refl, sym, ◌∙◌, ap}
use mathlib.Core.Bool.{Bool, true, false, not}
use mathlib.Core.Logic.{inl, inr, ◌≢◌}
use mathlib.Core.List.{[], ◌∷◌, ◌++◌, reverse, reverse-append, reverse-reverse}
use open_editor_text_backend.Base.Tests.{Bool-cases, if◌then◌else◌}
use open_editor_text_backend.Base.Texts.{Text, is_space, trim_start, trim}

abbrev starts_clean : Text → Bool
starts_clean [] = true
starts_clean (c ∷ s) = not (is_space c)

trim_start-clean : (s : Text) → starts_clean (trim_start s) ≡ true
trim_start-clean [] = refl
trim_start-clean (c ∷ s) = elim (Bool-cases (is_space c)) [
  | inl e ↦ rw e (trim_start-clean s)
  | inr e ↦ rw (e, e) refl
]

clean_kept : (s : Text) → starts_clean s ≡ true → trim_start s ≡ s
clean_kept [] h = refl
clean_kept (c ∷ s) h = elim (Bool-cases (is_space c)) [
  | inl e ↦ absurd (apart (rw e at h))
  | inr e ↦ rw e refl
]
  where
    apart : false ≢ true
    apart m = cc

clean_prefix : (a b : Text) → starts_clean (a ++ b) ≡ true → starts_clean a ≡ true
clean_prefix [] b h = refl
clean_prefix (c ∷ a) b h = h

-- What is cut off at the start.
abbrev cut : Text → Text
cut [] = []
cut (c ∷ s) = if is_space c then c ∷ cut s else []

cut_off : (s : Text) → cut s ++ trim_start s ≡ s
cut_off [] = refl
cut_off (c ∷ s) = elim (Bool-cases (is_space c)) [
  | inl e ↦ rw e (ap (λ x. c ∷ x) (cut_off s))
  | inr e ↦ rw e refl
]

pub trim_twice : (s : Text) → trim (trim s) ≡ trim s
unfolding trim
trim_twice s =
    let a = trim_start s in
    let r = trim_start (reverse a) in
    let parts : reverse r ++ reverse (cut (reverse a)) ≡ a =
      sym (reverse-append (cut (reverse a)) r)
      ∙ ap reverse (cut_off (reverse a))
      ∙ reverse-reverse a in
    let clean : starts_clean (reverse r) ≡ true =
      clean_prefix (reverse r) (reverse (cut (reverse a))) (rw parts (trim_start-clean s)) in
    ap (λ x. reverse (trim_start (reverse x))) (clean_kept (reverse r) clean)
    ∙ ap (λ x. reverse (trim_start x)) (reverse-reverse r)
    ∙ ap reverse (clean_kept r (trim_start-clean (reverse a)))
