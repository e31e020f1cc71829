-- ===== src/Roles/Samples.antt =====
-- Roles and users for the runs of the operations on staff.
use open_editor_text_backend.Base.{true, List, [], ◌∷◌, ◌++◌, none, some, Text, text, text_eq}
use open_editor_text_backend.Roles.{
  Role, User, Staff, Actor, RolePatch, super_permission, new_role, bumped,
}
use open_editor_text_backend.Roles.Users.{UserPatch, NewUser, new_user}

abbrev pub hash : Text → Text
hash p = text "h:" ++ p

abbrev pub root : Role
root = record {
  id = text "r1";
  name = text "admin";
  description = [];
  system = true;
  permissions = super_permission ∷ [];
}

abbrev pub manager : Role
manager = new_role (text "r2") (text "manager") [] (text "user.manage" ∷ text "order.view" ∷ [])

abbrev pub ann : User
ann =
    new_user hash (text "u1")
      (record {
        email = text "ann@a.io";
        name = text "Ann";
        password = text "pw1";
        role_ids = text "r1" ∷ [];
      })
      (text "r1" ∷ [])

abbrev pub bob_input : NewUser
bob_input = record {
  email = text " Bob@a.io";
  name = text "Bob";
  password = text "pw2";
  role_ids = text "r2" ∷ [];
}

abbrev pub bob : User
bob = new_user hash (text "u2") bob_input (text "r2" ∷ [])

abbrev pub known : List Text
known = super_permission ∷ text "user.manage" ∷ text "order.view" ∷ []

abbrev pub staff : Staff
staff = record { permissions = known; roles = root ∷ []; users = ann ∷ [] }

abbrev pub by_ann : Actor
by_ann = record { perms = super_permission ∷ []; sub = text "u1" }

abbrev pub by_bob : Actor
by_bob = record { perms = text "user.manage" ∷ text "order.view" ∷ []; sub = text "u2" }

abbrev pub staffed : Staff
staffed = record staff { roles = manager ∷ root ∷ [] }

abbrev pub two : Staff
two = record staffed { users = bob ∷ ann ∷ [] }

abbrev pub to_viewer : RolePatch
to_viewer = record { name = none; description = none; permissions = some (text "order.view" ∷ []) }

abbrev pub viewer : Role
viewer = record manager { permissions = text "order.view" ∷ [] }

abbrev pub new_password : UserPatch
new_password = record { name = none; active = none; role_ids = none; password = some (text "mine") }

abbrev pub taken_over : User
taken_over = bumped (record ann { password_hash = text "h:mine" })
