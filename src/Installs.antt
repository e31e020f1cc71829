-- ===== src/Installs.antt =====
-- src/delivery/license-install.service.ts: the browsers that one licence serves. A database error,
-- on which the service lets the caller pass, is not modelled.
pub mod Cap
mod Tests
use open_editor_text_backend.Base.{
  ℕ, suc, Bool, true, false, not, ◌&&◌, ◌||◌, List, [], ◌∷◌, ◌++◌, Option, none, some, Text,
  text_beq, leb, if◌then◌else◌, is_empty, find, keep, any, count, update, take,
}

-- `LicenseInstallEntity`; the pair of licence and browser is a unique index.
pub record Install : Type 0 where
  pub lic_id : Text
  pub install_id : Text
  pub origin : Text
  pub blocked : Bool

-- `InstallCheck`.
pub record InstallCheck : Type 0 where
  pub allowed : Bool
  pub count : ℕ
  pub cap : ℕ
  pub is_new : Bool

-- `ALLOW`.
abbrev pub allow_all : InstallCheck
allow_all = record { allowed = true; count = 0; cap = 0; is_new = false }

-- `activeCount`.
abbrev pub is_active : Text → Install → Bool
is_active lic i = text_beq i.lic_id lic && not i.blocked

abbrev pub active_count : List Install → Text → ℕ
active_count rows lic = count (is_active lic) rows

abbrev pub is_seat : Text → Text → Install → Bool
is_seat lic install i = text_beq i.lic_id lic && text_beq i.install_id install

abbrev pub find_seat : List Install → Text → Text → Option Install
find_seat rows lic install = find (is_seat lic install) rows

abbrev text_or_else : Text → Text → Text
text_or_else t d = if is_empty t then d else t

-- `touch`: the update of the row that was found; a missing origin is the empty one.
unfoldable pub touch : List Install → Text → Text → Text → Bool → List Install
touch [] lic install origin blocked = []
touch (i ∷ is) lic install origin blocked =
    if is_seat lic install i
    then record i { origin = take 255 (text_or_else origin i.origin); blocked = blocked } ∷ is
    else i ∷ touch is lic install origin blocked

-- `record`, of a browser that has no row.
unfoldable pub record_seat : List Install → Text → Text → Text → Bool → List Install
record_seat rows lic install origin blocked =
    rows
    ++ record { lic_id = lic; install_id = install; origin = take 255 origin; blocked = blocked }
      ∷ []

-- The check of a browser that has a row, and of one that has none.
abbrev pub check_seat :
    List Install → Text → Text → Text → ℕ → Option Install → List Install × InstallCheck
check_seat rows lic install origin cap (some i) =
    let n = active_count rows lic in
    if i.blocked && leb cap n
    then (
      touch rows lic install origin true,
      record { allowed = false; count = n; cap = cap; is_new = false },
    )
    else (
      touch rows lic install origin false,
      record { allowed = true; count = n; cap = cap; is_new = false },
    )
check_seat rows lic install origin cap none =
    let n = active_count rows lic in
    if leb cap n
    then (
      record_seat rows lic install origin true,
      record { allowed = false; count = n; cap = cap; is_new = true },
    )
    else (
      record_seat rows lic install origin false,
      record { allowed = true; count = suc n; cap = cap; is_new = true },
    )

-- `check`; a cap that is not positive is 0, and a missing browser id is the empty one.
unfoldable pub check : List Install → Text → Text → Text → ℕ → List Install × InstallCheck
check rows lic install origin cap =
    if leb cap 0
    then (rows, allow_all)
    else if is_empty lic || is_empty install
    then (rows, allow_all)
    else check_seat rows lic install origin cap (find_seat rows lic install)

-- `release`, with whether a row was deleted.
unfoldable pub release : List Install → Text → Text → List Install × Bool
release rows lic install =
    (keep (λ i. not (is_seat lic install i)) rows, any (is_seat lic install) rows)
