-- ===== src/Roles/Tests.antt =====
-- Runs of src/admin/rbac.service.ts, and its theorems at inputs.
use open_editor_text_backend.Base.{
  ◌≤◌, [], ◌∷◌, none, some, Text, text, text_eq, text_beq, ◌≡◌, inl, inr, refl, arith, Bool-cases,
  ok, err, ◌>>=◌, bad_request, includes, trim, dedup, dedup_from, add,
}
use open_editor_text_backend.Roles.{
  Staff, super_permission, create_role, update_role, delete_role, resolve_permissions, patch_name,
  patch_permissions, resolve_roles, assert_actor_can_grant_roles, is_last_active_admin,
  invalidate_users_with_role, bumped,
}
use open_editor_text_backend.Roles.Users.{
  UserPatch, create_user, update_user, delete_user, may_change_roles, patched_roles,
}
use open_editor_text_backend.Roles.Lockout.{
  Governed, Changes, begin, next, creating, deleting, Changes-Governed, managers, users_with,
}
use open_editor_text_backend.Roles.Ceiling.{RoleChange, RoleChanges, RoleChanges-Plain, Plain}
use open_editor_text_backend.Roles.Samples.{
  to_viewer, viewer, new_password, taken_over, hash, root, manager, ann, bob_input, bob, staff,
  by_ann, by_bob, staffed, two,
}

run : Unit {0}
unfolding ◌>>=◌ text_beq trim includes dedup dedup_from add resolve_permissions patch_name
    patch_permissions create_role update_role delete_role resolve_roles assert_actor_can_grant_roles
    is_last_active_admin invalidate_users_with_role create_user update_user delete_user
    may_change_roles patched_roles
run = tt

creates_role :
    create_role staff
      (text "r2")
      (text " manager")
      []
      (text "user.manage" ∷ text " order.view" ∷ [])
      by_ann.perms
    ≡ ok (staffed, manager)
unfolding run
creates_role = refl

creates_user : create_user hash staffed (text "u2") bob_input by_ann ≡ ok (two, bob)
unfolding run
creates_user = refl

abbrev only_bob : Staff
only_bob = record staffed { users = bob ∷ [] }

deletes_ann : delete_user two (text "u1") ≡ ok only_bob
unfolding run
deletes_ann = refl

keeps_last : delete_user only_bob (text "u2") ≡ err bad_request
unfolding run
keeps_last = refl

-- The wildcard cannot be given to a role, nor what the caller does not hold.
refuses_wildcard :
    create_role staff (text "r3") (text "x") [] (super_permission ∷ []) by_ann.perms
    ≡ err bad_request
unfolding run
refuses_wildcard = refl

refuses_above :
    create_role two (text "r3") (text "x") [] (text "order.view" ∷ []) (text "user.manage" ∷ [])
    ≡ err bad_request
unfolding run
refuses_above = refl

abbrev locked_out : Staff
locked_out = record only_bob { roles = viewer ∷ root ∷ []; users = bumped bob ∷ [] }

-- A change of a role is not guarded: the last one that may manage users can lose that.
locks_out :
    (update_role only_bob (text "r2") to_viewer by_bob.perms ≡ ok (locked_out, viewer))
    × (managers only_bob ≡ 1)
    × (managers locked_out ≡ 0)
unfolding run
locks_out = (refl, refl, refl)

-- A manager without the wildcard sets the password of one who holds it.
takes_over :
    update_user hash two (text "u1") new_password by_bob
    ≡ ok (record two { users = bob ∷ taken_over ∷ [] }, taken_over)
unfolding run
takes_over = refl

abbrev promoted : UserPatch
promoted = record { name = none; active = none; role_ids = some (text "r1" ∷ []); password = none }

refuses_own_promotion : update_user hash two (text "u2") promoted by_bob ≡ err bad_request
unfolding run
refuses_own_promotion = refl

one_row : (id : Text) → users_with id (ann ∷ []) ≤ 1
one_row id = elim (Bool-cases (text_beq ann.id id)) [
  | inl e ↦ ground (arith, e)
  | inr e ↦ ground (arith, e)
]

staffed-Governed : Governed staffed
unfolding run
staffed-Governed = record { unique = one_row; managed = omega arith }

fresh_id : users_with (text "u2") staffed.users ≡ 0
unfolding run
fresh_id = refl

abbrev staff_changes : Changes hash staffed only_bob
staff_changes =
    next (next begin (creating (text "u2") bob_input by_ann two bob fresh_id creates_user))
      (deleting (text "u1") only_bob deletes_ann)

Changes-Governed_example : Governed only_bob
Changes-Governed_example = Changes-Governed staff_changes staffed-Governed

changes_role :
    update_role two (text "r2") to_viewer by_bob.perms
    ≡ ok (record two { roles = viewer ∷ root ∷ []; users = bumped bob ∷ ann ∷ [] }, viewer)
unfolding run
changes_role = refl

abbrev narrowed : Staff
narrowed = record two { roles = viewer ∷ root ∷ []; users = bumped bob ∷ ann ∷ [] }

abbrev role_changes : RoleChanges staff staffed
role_changes = RoleChanges.next RoleChanges.begin (
    RoleChange.creating (text "r2") (text " manager") []
      (text "user.manage" ∷ text " order.view" ∷ []) by_ann.perms staffed manager creates_role)

Plain-at_first : Plain staff
unfolding run
Plain-at_first = refl

RoleChanges-Plain_example : Plain staffed
RoleChanges-Plain_example = RoleChanges-Plain role_changes Plain-at_first
