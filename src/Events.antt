-- ===== src/Events.antt =====
-- src/delivery/entitlement-events.service.ts: the channels on which open editors wait for a nudge. A
-- listener is an object of the caller, known by a number; whether it fails is a parameter.
pub mod Bounded
pub mod Publishing
pub mod Refinement
pub mod Stream
mod Tests
use open_editor_text_backend.Base.{
  ℕ, zero, suc, ◌≤◌, ◌+◌, Bool, true, false, not, ◌&&◌, ◌||◌, List, [], ◌∷◌, ◌++◌, Option, none,
  some, Text, text, text_eq, text_beq, text_beq_iff, is_empty, ◌≡◌, ◌≢◌, ◌⊎◌, inl, inr, refl, ap,
  sym, ◌∙◌, arith, Bool-cases, Option-cases, not-true, Result, ok, err, Error, guard, ◌>>=◌,
  Ensures, returns, after, of_ok, weaken, guard-eq-ok, bad_request, not_found, conflict, failure,
  unavailable, or_else, find, any, keep, count, update, length, if◌then◌else◌, includes,
  includes-nil, includes-cons, Distinct, All, trim, add, nat_beq, nat_eq, leb,
}

-- `EntitlementReason` is all that an event carries.
pub data Reason : Type 0 where
  purchased : Reason
  changed : Reason
  revoked : Reason

-- One entry of the map `channels`: a key and its set of listeners, in the order of insertion.
pub record Channel : Type 0 where
  pub key : Text
  pub listeners : List ℕ

abbrev pub max_channels : ℕ
max_channels = 50000

abbrev pub max_subscribers : ℕ
max_subscribers = 50

abbrev pub has_key : Text → Channel → Bool
has_key key c = text_beq c.key key

abbrev pub find_channel : Text → List Channel → Option Channel
find_channel key channels = find (has_key key) channels

-- `channels.delete`.
abbrev pub drop_channel : Text → List Channel → List Channel
drop_channel key channels = keep (λ c. not (has_key key c)) channels

abbrev pub full : Channel → Bool
full c = leb max_subscribers (length c.listeners)

abbrev with_listener : ℕ → Channel → Channel
with_listener l c = record c { listeners = add l c.listeners }

-- The part of `subscribe` after the channel is found or made.
unfoldable pub admit : List Channel → ℕ → Channel → List Channel × Bool
admit channels l c =
    if full c
    then (if is_empty c.listeners then drop_channel c.key channels else channels, false)
    else (update (has_key c.key) (λ x. with_listener l c) channels, true)

abbrev pub new_channel : Text → Channel
new_channel key = record { key = key; listeners = [] }

unfoldable pub subscribe_found : List Channel → Text → ℕ → Option Channel → List Channel × Bool
unfolding admit
subscribe_found channels key l (some c) = admit channels l c
subscribe_found channels key l none =
    if leb max_channels (length channels)
    then (channels, false)
    else admit (channels ++ new_channel key ∷ []) l (new_channel key)

-- `subscribe`: the channels, and whether there is a subscription to end.
unfoldable pub subscribe : List Channel → Text → ℕ → List Channel × Bool
unfolding subscribe_found
subscribe channels name l =
    if is_empty (trim name)
    then (channels, false)
    else subscribe_found channels (trim name) l (find_channel (trim name) channels)

abbrev pub without : ℕ → List ℕ → List ℕ
without l ls = keep (λ x. not (nat_beq x l)) ls

unfoldable pub unsubscribe_found : List Channel → ℕ → Option Channel → List Channel
unsubscribe_found channels l none = channels
unsubscribe_found channels l (some c) =
    if is_empty (without l c.listeners)
    then drop_channel c.key channels
    else update (has_key c.key) (λ x. record c { listeners = without l c.listeners }) channels

-- `unsubscribe`.
unfoldable pub unsubscribe : List Channel → Text → ℕ → List Channel
unfolding unsubscribe_found
unsubscribe channels key l = unsubscribe_found channels l (find_channel key channels)

-- The loop of `publish` over the listeners that were there at its start: one that fails is dropped,
-- and the rest are those that were told.
unfoldable pub deliver :
    (ℕ → Reason → Bool) → Reason → Text → List Channel → List ℕ → List Channel × List ℕ
unfolding unsubscribe
deliver fails reason key channels [] = (channels, [])
deliver fails reason key channels (l ∷ ls) =
    let after = if fails l reason then unsubscribe channels key l else channels in
    let rest = deliver fails reason key after ls in
    (rest.0, if fails l reason then rest.1 else l ∷ rest.1)

abbrev pub listeners_in : Option Channel → List ℕ
listeners_in none = []
listeners_in (some c) = c.listeners

abbrev pub listeners_of : Text → List Channel → List ℕ
listeners_of key channels = listeners_in (find_channel key channels)

-- The channels after a publication, and the listeners that were told. A missing name is the empty one.
unfoldable pub announce_on :
    (ℕ → Reason → Bool) → List Channel → Text → Reason → List Channel × List ℕ
unfolding deliver
announce_on fails channels name reason =
    if is_empty (trim name)
    then (channels, [])
    else deliver fails reason (trim name) channels (listeners_of (trim name) channels)

-- `publish`: the channels, and how many listeners were told.
unfoldable pub publish : (ℕ → Reason → Bool) → List Channel → Text → Reason → List Channel × ℕ
unfolding announce_on
publish fails channels name reason =
    let r = announce_on fails channels name reason in (r.0, length r.1)

abbrev pub subscribers : List Channel → ℕ
subscribers [] = 0
subscribers (c ∷ cs) = length c.listeners + subscribers cs

-- `stats`.
abbrev pub stats : List Channel → ℕ × ℕ
stats channels = (length channels, subscribers channels)
