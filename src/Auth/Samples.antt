-- ===== src/Auth/Samples.antt =====
-- Staff, tokens and a stand-in for the token library, for the runs of src/auth.
use open_editor_text_backend.Base.{
  true, [], ◌∷◌, some, Text, text, text_eq, text_beq, ◌>>=◌, if◌then◌else◌, includes, trim, lower,
  dedup, dedup_from, add,
}
use open_editor_text_backend.Roles.{
  User, Staff, super_permission, update_role, resolve_permissions, resolve_roles,
  is_last_active_admin, assert_actor_can_grant_roles, bumped, invalidate_users_with_role,
}
use open_editor_text_backend.Roles.Users.{update_user, may_change_roles, patched_roles}
use open_editor_text_backend.Roles.Samples.{hash, ann, bob, two, taken_over, viewer}
use open_editor_text_backend.Auth.{
  Access, Renewal, Claims, access, renewal, Deps, Pair, with_refresh_id, validate_credentials,
  issue_tokens, verify_access, verify_active_access, bump_token_version, refresh_checks, rotate,
  refresh, login, assert_trusted_origin, refresh_route, logout, permitted, bearer_token, enter,
}

unfoldable pub run : Unit {0}
unfolding ◌>>=◌ text_beq trim lower includes dedup dedup_from add resolve_permissions update_role
    resolve_roles assert_actor_can_grant_roles is_last_active_admin invalidate_users_with_role
    update_user may_change_roles patched_roles validate_credentials issue_tokens verify_access
    verify_active_access bump_token_version refresh_checks rotate refresh login
    assert_trusted_origin refresh_route logout permitted bearer_token enter
run = tt

abbrev pub bob_claims : Access
bob_claims = record {
  sub = text "u2";
  email = text "bob@a.io";
  perms = text "user.manage" ∷ text "order.view" ∷ [];
  tv = 0;
}

abbrev pub bob_renewal : Renewal
bob_renewal = record { sub = text "u2"; tv = 0; jti = text "j1" }

abbrev pub name_of : Claims → Text
name_of (access c) = text "access"
name_of (renewal c) = text "renewal"

-- A stand-in for the token library, with two tokens of one user.
abbrev pub deps : Deps
deps = record {
  sign = λ secret c. name_of c;
  verify = λ secret token.
      if text_beq token (text "access")
      then some (access bob_claims)
      else some (renewal bob_renewal);
  compare = λ password h. text_beq (hash password) h;
  access_secret = text "k1";
  refresh_secret = text "k2";
  bff_secret = text "bff";
  admin_origins = text "https://admin.io" ∷ [];
}

abbrev pub pair : Pair
pair = record { access_token = text "access"; refresh_token = text "renewal" }

abbrev pub with_bob : User → Staff
with_bob u = record two { users = u ∷ ann ∷ [] }

abbrev pub entered : Staff
entered = with_bob (with_refresh_id (text "j1") bob)

-- A change of another user keeps the token of this one.
abbrev pub changed : Staff
changed = record entered { users = with_refresh_id (text "j1") bob ∷ taken_over ∷ [] }

-- A change of its role revokes the token, which would carry the old permissions.
abbrev pub narrowed_roles : Staff
narrowed_roles = record entered {
  roles =
      viewer
      ∷ (record {
        id = text "r1";
        name = text "admin";
        description = [];
        system = true;
        permissions = super_permission ∷ [];
      })
      ∷ [];
  users = bumped bob ∷ ann ∷ [];
}

abbrev pub rotated : Staff
rotated = with_bob (with_refresh_id (text "j2") bob)
