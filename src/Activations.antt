-- ===== src/Activations.antt =====
-- src/delivery/license-activation.service.ts: one-time claims of a licence by a browser. Times are
-- milliseconds. A database error makes `create` return false and `claim` return null with no change;
-- it is not modelled.
pub mod Rows
pub mod Single
pub mod Claims
mod Tests
use open_editor_text_backend.Base.{
  ℕ, ◌*◌, ◌+◌, Bool, true, false, not, ◌&&◌, List, [], ◌∷◌, Option, none, some, Text, text_beq,
  text_eq, ltb, leb, trim, is_empty, if◌then◌else◌, find, keep, count, update, nat_beq, take,
  or_else,
}

-- `LicenseActivationEntity`.
pub record Activation : Type 0 where
  pub id : Text
  pub install_id : Text
  pub lic_id : Text
  pub expires_at : ℕ
  pub claimed_at : Option ℕ
  pub claimed_from_origin : Text

-- `ACTIVATION_TTL_HOURS`, in milliseconds.
abbrev activation_ttl : ℕ
activation_ttl = 48 * 3600 * 1000

abbrev pub is_unclaimed : Activation → Bool
is_unclaimed a = elim a.claimed_at [ none ↦ true | some t ↦ false ]

abbrev pub find_activation : List Activation → Text → Option Activation
find_activation rows install = find (λ a. text_beq a.install_id install) rows

-- The existing row, armed again: new licence, fresh window, unclaimed.
abbrev pub rearmed : Text → ℕ → Activation → Activation
rearmed lic now a = record a {
  lic_id = lic;
  expires_at = now + activation_ttl;
  claimed_at = none;
  claimed_from_origin = [];
}

abbrev pub new_activation : Text → Text → Text → ℕ → Activation
new_activation row_id install lic now = record {
  id = row_id;
  install_id = install;
  lic_id = lic;
  expires_at = now + activation_ttl;
  claimed_at = none;
  claimed_from_origin = [];
}

-- `create`, with the id that the database draws for a new row. It returns the id of the row that is
-- armed, if any; the source returns whether there is one.
unfoldable pub create : List Activation → Text → Text → Text → ℕ → List Activation × Option Text
create rows row_id install lic now =
    let id = trim install in
    if is_empty id
    then (rows, none)
    else if is_empty lic
    then (rows, none)
    else elim (find_activation rows id) [
      | none ↦ (new_activation row_id id lic now ∷ rows, some row_id)
      | some a ↦ (update (λ r. text_beq r.id a.id) (rearmed lic now) rows, some a.id)
    ]

-- The tests of `claim` before its update.
abbrev claimable : ℕ → Activation → Bool
claimable now a = is_unclaimed a && not (leb a.expires_at now)

-- The read of `claim`, with the tests that follow it.
unfoldable pub look : List Activation → Text → ℕ → Option Activation
look rows install now =
    let id = trim install in
    if is_empty id then none else elim (find_activation rows id) [
      | none ↦ none
      | some a ↦ if claimable now a then some a else none
    ]

abbrev pub is_open : Text → Activation → Bool
is_open id a = text_beq a.id id && is_unclaimed a

abbrev pub spent : Text → ℕ → Activation → Activation
spent origin now a = record a { claimed_at = some now; claimed_from_origin = take 255 origin }

-- The conditional update of `claim`, and how many rows it affected.
unfoldable pub take_claim : List Activation → Text → Text → ℕ → List Activation × ℕ
take_claim rows id origin now =
    (update (is_open id) (spent origin now) rows, count (is_open id) rows)

abbrev pub handed : Activation → ℕ → Option Text
handed a affected = if nat_beq affected 1 then some a.lic_id else none

-- The rest of `claim` after its read.
abbrev pub finish : List Activation → Text → ℕ → Option Activation → List Activation × Option Text
finish rows origin now none = (rows, none)
finish rows origin now (some a) =
    ((take_claim rows a.id origin now).0, handed a (take_claim rows a.id origin now).1)

-- `claim`, when nothing comes between its read and its update.
unfoldable pub claim : List Activation → Text → Text → ℕ → List Activation × Option Text
claim rows install origin now = finish rows origin now (look rows install now)

-- `pendingFor`.
unfoldable pub pending_for : List Activation → Text → ℕ → Option Activation
pending_for rows install now = elim (find_activation rows install) [
  | none ↦ none
  | some a ↦ if claimable now a then some a else none
]

-- `pruneExpired`.
unfoldable pub prune_expired : List Activation → ℕ → List Activation
prune_expired rows before = keep (λ a. not (is_unclaimed a && ltb a.expires_at before)) rows
