-- ===== src/Roles.antt =====
-- src/admin/rbac.service.ts: the roles and the users of the admin panel, and who may grant what. The
-- hash of a password is a parameter.
pub mod Ceiling
pub mod Lockout
pub mod Samples
pub mod Users
pub mod Writes
mod Tests
use open_editor_text_backend.Base.{
  ℕ, zero, suc, ◌≤◌, ◌+◌, Bool, true, false, not, ◌&&◌, ◌||◌, List, [], ◌∷◌, ◌++◌, Option, none,
  some, Text, text, text_eq, text_beq, text_beq_iff, is_empty, ◌≡◌, ◌≢◌, ◌⊎◌, inl, inr, refl, ap,
  sym, ◌∙◌, arith, Bool-cases, Option-cases, not-true, Result, ok, err, Error, guard, ◌>>=◌,
  Ensures, returns, throws, after, of_ok, weaken, guard-eq-ok, bad_request, not_found, conflict,
  failure, unavailable, or_else, find, any, keep, count, update, length, if◌then◌else◌, includes,
  includes-nil, includes-cons, Distinct, All, ◌>>◌, trim, lower, dedup, all, map, nat_beq, or_throw,
  is_some,
}

-- `SUPER_PERMISSION`.
abbrev pub super_permission : Text
super_permission = text "*"

-- `RoleEntity`, with the keys of its permissions.
pub record Role : Type 0 where
  pub id : Text
  pub name : Text
  pub description : Text
  pub system : Bool
  pub permissions : List Text

-- `UserEntity`, with the ids of its roles.
pub record User : Type 0 where
  pub id : Text
  pub email : Text
  pub name : Text
  pub password_hash : Text
  pub active : Bool
  pub token_version : ℕ
  pub refresh_token_id : Text
  pub role_ids : List Text

-- The tables: the keys of the known permissions, the roles and the users.
pub record Staff : Type 0 where
  pub permissions : List Text
  pub roles : List Role
  pub users : List User

-- Who calls: its permissions and its user id.
pub record Actor : Type 0 where
  pub perms : List Text
  pub sub : Text

abbrev pub is_super : List Text → Bool
is_super perms = includes super_permission perms

-- `[...new Set(keys.map((k) => String(k || '').trim()).filter(Boolean))]`
abbrev pub cleaned : List Text → List Text
cleaned keys = dedup (keep (λ k. not (is_empty k)) (map trim keys))

-- `resolvePermissions`; the keys of the table are unique.
unfoldable pub resolve_permissions : Staff → List Text → List Text → Result (List Text)
resolve_permissions s keys actor = do
  let wanted = cleaned keys
  guard (not (includes super_permission wanted)) bad_request
  guard (all (λ k. includes k s.permissions) wanted) bad_request
  guard (is_super actor || all (λ k. includes k actor) wanted) bad_request
  ok wanted

abbrev pub role_named : List Role → Text → Option Role
role_named roles name = find (λ r. text_beq r.name name) roles

abbrev pub find_role : List Role → Text → Option Role
find_role roles id = find (λ r. text_beq r.id id) roles

abbrev pub find_user : List User → Text → Option User
find_user users id = find (λ u. text_beq u.id id) users

abbrev pub new_role : Text → Text → Text → List Text → Role
new_role row_id name description permissions = record {
  id = row_id;
  name = name;
  description = description;
  system = false;
  permissions = permissions;
}

-- `createRole`, with the id that the database draws.
unfoldable pub create_role :
    Staff → Text → Text → Text → List Text → List Text → Result (Staff × Role)
unfolding resolve_permissions
create_role s row_id name description keys actor = do
  guard (not (is_empty (trim name))) bad_request
  guard (not (is_some (role_named s.roles (trim name)))) conflict
  permissions ← resolve_permissions s keys actor
  let role = new_role row_id (trim name) (trim description) permissions
  ok (record s { roles = role ∷ s.roles }, role)

-- The patch of `updateRole`.
pub record RolePatch : Type 0 where
  pub name : Option Text
  pub description : Option Text
  pub permissions : Option (List Text)

abbrev is_other : Text → Option Role → Bool
is_other id none = false
is_other id (some r) = not (text_beq r.id id)

patch_name : Staff → Text → Option Text → Role → Result Role
patch_name s id none role = ok role
patch_name s id (some name) role = do
  guard (not (is_empty (trim name))) bad_request
  guard (not (is_other id (role_named s.roles (trim name)))) conflict
  ok (record role { name = trim name })

abbrev patch_description : Option Text → Role → Role
patch_description none role = role
patch_description (some d) role = record role { description = trim d }

patch_permissions : Staff → List Text → Option (List Text) → Role → Result Role
unfolding resolve_permissions
patch_permissions s actor none role = ok role
patch_permissions s actor (some keys) role = do
  permissions ← resolve_permissions s keys actor
  ok (record role { permissions = permissions })

-- `bumpTokenVersion`.
abbrev pub bumped : User → User
bumped u = record u { token_version = suc u.token_version; refresh_token_id = [] }

-- `invalidateUsersWithRole`.
unfoldable pub invalidate_users_with_role : List User → Text → List User
invalidate_users_with_role users id = update (λ u. includes id u.role_ids) bumped users

-- `updateRole`.
unfoldable pub update_role : Staff → Text → RolePatch → List Text → Result (Staff × Role)
unfolding patch_name patch_permissions invalidate_users_with_role
update_role s id patch actor = do
  role ← or_throw (find_role s.roles id) not_found
  guard (not role.system) bad_request
  named ← patch_name s id patch.name role
  granted ← patch_permissions s actor patch.permissions (patch_description patch.description named)
  ok (
    record s {
      roles = update (λ r. text_beq r.id id) (λ r. granted) s.roles;
      users = invalidate_users_with_role s.users id;
    },
    granted,
  )

-- `deleteRole`.
unfoldable pub delete_role : Staff → Text → Result Staff
delete_role s id = do
  role ← or_throw (find_role s.roles id) not_found
  guard (not role.system) bad_request
  guard (not (any (λ u. includes id u.role_ids) s.users)) conflict
  ok (record s { roles = keep (λ r. not (text_beq r.id id)) s.roles })

-- `resolveRoles`, to the ids.
unfoldable pub resolve_roles : List Role → List Text → Result (List Text)
resolve_roles roles ids = do
  let wanted = cleaned ids
  guard (all (λ id. is_some (find_role roles id)) wanted) bad_request
  ok wanted

-- The roles of some ids, as the join gives them.
abbrev pub roles_with : List Role → List Text → List Role
roles_with roles ids = keep (λ r. includes r.id ids) roles

-- `rolesGrantUserManagement`.
abbrev pub grants_management : Role → Bool
grants_management r =
    any (λ k. text_beq k super_permission || text_beq k (text "user.manage")) r.permissions

abbrev pub roles_grant_user_management : List Role → Bool
roles_grant_user_management roles = any grants_management roles

-- `assertActorCanGrantRoles`.
abbrev pub within : List Text → Role → Bool
within actor r = all (λ k. not (text_beq k super_permission) && includes k actor) r.permissions

unfoldable pub assert_actor_can_grant_roles : List Role → List Text → Result (Unit {0})
assert_actor_can_grant_roles roles actor =
    guard (is_super actor || all (within actor) roles) bad_request

abbrev pub is_manager : List Role → User → Bool
is_manager roles u = u.active && roles_grant_user_management (roles_with roles u.role_ids)

-- `managers.length === 1 && managers[0].id === user.id`
abbrev pub sole : List User → Text → Bool
sole [] id = false
sole (m ∷ []) id = text_beq m.id id
sole (m ∷ n ∷ ms) id = false

-- `isLastActiveAdmin`.
unfoldable pub is_last_active_admin : Staff → User → Bool
is_last_active_admin s u = is_manager s.roles u && sole (keep (is_manager s.roles) s.users) u.id
