-- ===== src/Roles/Writes.antt =====
-- What a change of a user that succeeds has done: src/admin/rbac.service.ts.
use open_editor_text_backend.Base.{
  true, false, not, ◌&&◌, ◌||◌, List, ◌∷◌, some, Text, text_eq, text_beq, ◌≡◌, refl, not-true, ok,
  Ensures, returns, after, guard-eq-ok, or_else, keep, update, or_throw-eq-ok, none, Option,
}
use open_editor_text_backend.Roles.{
  Role, User, Staff, Actor, roles_with, roles_grant_user_management, is_last_active_admin,
  find_user,
}
use open_editor_text_backend.Roles.Users.{
  NewUser, UserPatch, new_user, create_user, saved_user, update_user, delete_user, patched_roles,
}

pub record Created (hash : Text → Text) (s : Staff) (row_id : Text) (input : NewUser) (t : Staff)
    (u : User) : Type 0 where
  pub role_ids : List Text
  pub user : u ≡ new_user hash row_id input role_ids
  pub staff : t ≡ record s { users = u ∷ s.users }

pub create_user-Ensures :
    (hash : Text → Text) (s : Staff) (row_id : Text) (input : NewUser) (actor : Actor)
    → Ensures
        (λ (r : Staff × User). Created hash s row_id input r.0 r.1)
        (create_user hash s row_id input actor)
unfolding create_user
create_user-Ensures hash s row_id input actor =
    after λ _ _.
      after λ ids _. after λ _ _. returns record { role_ids = ids; user = refl; staff = refl }

pub record Updated (hash : Text → Text) (s : Staff) (id : Text) (patch : UserPatch) (t : Staff)
    (saved : User) : Type 0 where
  pub user : User
  pub role_ids : List Text
  pub found : find_user s.users id ≡ some user
  pub guarded :
      ((or_else patch.active user.active
          && roles_grant_user_management (roles_with s.roles role_ids))
        || not (is_last_active_admin s user))
      ≡ true
  pub roles : (patch.role_ids ≡ none) → role_ids ≡ user.role_ids
  pub row : saved ≡ saved_user hash patch role_ids user
  pub staff : t ≡ record s { users = update (λ x. text_beq x.id user.id) (λ x. saved) s.users }

kept_roles :
    (roles : List Role) (u : User) (asked : Option (List Text)) (ids : List Text)
    → asked ≡ none
    → patched_roles roles u asked ≡ ok ids
    → ids ≡ u.role_ids
unfolding patched_roles
kept_roles roles u none ids h e = cc
kept_roles roles u (some asked) ids h e = cc

pub update_user-Ensures :
    (hash : Text → Text) (s : Staff) (id : Text) (patch : UserPatch) (actor : Actor)
    → Ensures
        (λ (r : Staff × User). Updated hash s id patch r.0 r.1)
        (update_user hash s id patch actor)
unfolding update_user
update_user-Ensures hash s id patch actor = after λ u eu. after λ ids ei. after λ _ safe.
    after λ _ _. returns record {
      user = u;
      role_ids = ids;
      found = or_throw-eq-ok _ _ eu;
      guarded = guard-eq-ok _ _ safe;
      roles = λ e. kept_roles s.roles u patch.role_ids ids e ei;
      row = refl;
      staff = refl;
    }

pub record Deleted (s : Staff) (id : Text) (t : Staff) : Type 0 where
  pub user : User
  pub found : find_user s.users id ≡ some user
  pub spare : is_last_active_admin s user ≡ false
  pub staff : t ≡ record s { users = keep (λ x. not (text_beq x.id user.id)) s.users }

pub delete_user-Ensures : (s : Staff) (id : Text) → Ensures (Deleted s id) (delete_user s id)
unfolding delete_user
delete_user-Ensures s id = after λ u eu. after λ _ safe. returns record {
  user = u;
  found = or_throw-eq-ok _ _ eu;
  spare = not-true _ (guard-eq-ok _ _ safe);
  staff = refl;
}
