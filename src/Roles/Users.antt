-- ===== src/Roles/Users.antt =====
-- The operations of src/admin/rbac.service.ts on users.
use open_editor_text_backend.Base.{
  Bool, true, false, not, ◌&&◌, ◌||◌, List, [], ◌∷◌, Option, none, some, Text, text_eq, text_beq,
  is_empty, Result, ok, guard, ◌>>=◌, bad_request, not_found, conflict, or_else, any, keep, update,
  if◌then◌else◌, ◌>>◌, trim, lower, or_throw, is_some,
}
use open_editor_text_backend.Roles.{
  Role, User, Staff, Actor, is_super, resolve_roles, roles_with, roles_grant_user_management,
  find_user, assert_actor_can_grant_roles, is_last_active_admin, bumped,
}

pub record NewUser : Type 0 where
  pub email : Text
  pub name : Text
  pub password : Text
  pub role_ids : List Text

abbrev pub new_user : (Text → Text) → Text → NewUser → List Text → User
new_user hash row_id input role_ids = record {
  id = row_id;
  email = trim (lower input.email);
  name = trim input.name;
  password_hash = hash input.password;
  active = true;
  token_version = 0;
  refresh_token_id = [];
  role_ids = role_ids;
}

-- `createUser`, with the id that the database draws.
unfoldable pub create_user : (Text → Text) → Staff → Text → NewUser → Actor → Result (Staff × User)
create_user hash s row_id input actor = do
  guard (not (any (λ u. text_beq u.email (trim (lower input.email))) s.users)) conflict
  role_ids ← resolve_roles s.roles input.role_ids
  assert_actor_can_grant_roles (roles_with s.roles role_ids) actor.perms
  let u = new_user hash row_id input role_ids
  ok (record s { users = u ∷ s.users }, u)

-- The patch of `updateUser`.
pub record UserPatch : Type 0 where
  pub name : Option Text
  pub active : Option Bool
  pub role_ids : Option (List Text)
  pub password : Option Text

unfoldable pub patched_roles : List Role → User → Option (List Text) → Result (List Text)
patched_roles roles u none = ok u.role_ids
patched_roles roles u (some ids) = resolve_roles roles ids

-- The checks of a change of roles: the ceiling, and no change of one's own.
unfoldable pub may_change_roles :
    Staff → User → Actor → List Text → Option (List Text) → Result (Unit {0})
may_change_roles s u actor role_ids none = ok tt
may_change_roles s u actor role_ids (some ids) = do
  assert_actor_can_grant_roles (roles_with s.roles role_ids) actor.perms
  guard (not (not (is_empty actor.sub) && text_beq actor.sub u.id && not (is_super actor.perms)))
      bad_request

abbrev patched_name : Option Text → Text → Text
patched_name none name = name
patched_name (some n) name = trim n

abbrev patched_hash : (Text → Text) → Option Text → Text → Text
patched_hash hash none h = h
patched_hash hash (some password) h = hash password

-- The row that is saved.
abbrev pub patched : (Text → Text) → UserPatch → List Text → User → User
patched hash patch role_ids u = record u {
  name = patched_name patch.name u.name;
  active = or_else patch.active u.active;
  role_ids = role_ids;
  password_hash = patched_hash hash patch.password u.password_hash;
}

abbrev differs : Option Bool → Bool → Bool
differs none b = false
differs (some true) b = not b
differs (some false) b = b

-- Whether the tokens of the user must be invalidated.
abbrev pub must_invalidate : UserPatch → User → Bool
must_invalidate patch u =
    differs patch.active u.active || is_some patch.role_ids || is_some patch.password

abbrev pub saved_user : (Text → Text) → UserPatch → List Text → User → User
saved_user hash patch role_ids u =
    if must_invalidate patch u
    then bumped (patched hash patch role_ids u)
    else patched hash patch role_ids u

-- `updateUser`.
unfoldable pub update_user :
    (Text → Text) → Staff → Text → UserPatch → Actor → Result (Staff × User)
update_user hash s id patch actor = do
  u ← or_throw (find_user s.users id) not_found
  role_ids ← patched_roles s.roles u patch.role_ids
  guard
      ((or_else patch.active u.active && roles_grant_user_management (roles_with s.roles role_ids))
        || not (is_last_active_admin s u))
      bad_request
  may_change_roles s u actor role_ids patch.role_ids
  let saved = saved_user hash patch role_ids u
  ok (record s { users = update (λ x. text_beq x.id u.id) (λ x. saved) s.users }, saved)

-- `deleteUser`.
unfoldable pub delete_user : Staff → Text → Result Staff
delete_user s id = do
  u ← or_throw (find_user s.users id) not_found
  guard (not (is_last_active_admin s u)) bad_request
  ok (record s { users = keep (λ x. not (text_beq x.id u.id)) s.users })
