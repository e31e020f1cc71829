-- ===== src/Resolution/Version.antt =====
-- `resolveVersion` of src/licensing/version-resolution.ts: the first candidate that is present wins.
use open_editor_text_backend.Base.{
  ℕ, ◌<◌, true, false, Option, none, some, ◌≡◌, ◌↔◌, ap, arith, Text,
}
use open_editor_text_backend.Resolution.{
  Input, Source, pin, override, canary, channel, global, truthy, decided, resolve_version,
}

-- What each source offers.
abbrev pub candidate : Input → Source → Option Text
candidate i pin = i.pinned_version
candidate i override = i.override_version
candidate i canary = i.canary_version
candidate i channel = i.channel_default
candidate i global = i.global_default

-- The order in which the sources are asked.
abbrev pub precedence : Source → ℕ
precedence pin = 0
precedence override = 1
precedence canary = 2
precedence channel = 3
precedence global = 4

-- A source wins when it offers a version and no source before it does.
abbrev pub Wins : Input → Source → Type 0
Wins i s =
    (truthy (candidate i s) ≡ true)
    × ((t : Source) → precedence t < precedence s → truthy (candidate i t) ≡ false)

earlier_absent :
    (i : Input) (s t : Source)
    → (resolve_version i).source ≡ some s
    → precedence t < precedence s
    → truthy (candidate i t) ≡ false
unfolding resolve_version
earlier_absent i s pin e h = ground arith
earlier_absent i s override e h = ground arith
earlier_absent i s canary e h = ground arith
earlier_absent i s channel e h = ground arith
earlier_absent i s global e h = ground arith

winner_present :
    (i : Input) (s : Source)
    → (resolve_version i).source ≡ some s
    → (truthy (candidate i s) ≡ true) × ((resolve_version i).version ≡ candidate i s)
unfolding resolve_version
winner_present i pin e = ground arith
winner_present i _ e = ground arith

Wins-complete : (i : Input) (s : Source) → Wins i s → resolve_version i ≡ decided (candidate i s) s
unfolding resolve_version
Wins-complete i pin (p, q) = ground arith
Wins-complete i _ (p, q) = ground (arith, q pin, q override, q canary, q channel)

-- The decision is what a source offers, under that source's name, exactly when the source offers a
-- version and no source before it in the order pin, override, canary, channel default, global
-- default does.
pub resolve_version_iff :
    (i : Input) (s : Source) → (resolve_version i ≡ decided (candidate i s) s) ↔ Wins i s
resolve_version_iff i s = (
  λ e.
      let e' : (resolve_version i).source ≡ some s = ap (λ d. d.source) e in
      ((winner_present i s e').0, λ t h. earlier_absent i s t e' h),
  Wins-complete i s,
)

none_offered :
    (i : Input) → (resolve_version i).version ≡ none → (s : Source) → truthy (candidate i s) ≡ false
unfolding resolve_version
none_offered i e pin = ground arith
none_offered i e _ = ground arith

-- No version is chosen exactly when no source offers one.
pub resolve_version-none :
    (i : Input)
    → ((resolve_version i).version ≡ none) ↔ ((s : Source) → truthy (candidate i s) ≡ false)
unfolding resolve_version
resolve_version-none i = (
  none_offered i,
  λ all. ground (arith, all pin, all override, all canary, all channel, all global),
)
