-- ===== src/Auth/Tests.antt =====
-- Runs of the login of staff, src/auth, and its theorems at inputs.
use open_editor_text_backend.Base.{
  ◌≤◌, false, [], ◌∷◌, some, Text, text, text_eq, text_beq, text_beq_iff, is_empty, ◌≡◌, ◌≢◌, inl,
  inr, refl, arith, Bool-cases, ok, err, unauthorized, forbidden, subst,
}
use open_editor_text_backend.Roles.{find_user, update_role}
use open_editor_text_backend.Roles.Users.{update_user}
use open_editor_text_backend.Roles.Lockout.{users_with}
use open_editor_text_backend.Roles.Samples.{
  hash, ann, bob, two, by_bob, new_password, taken_over, to_viewer, viewer,
}
use open_editor_text_backend.Auth.{
  access, renewal, with_refresh_id, validate_credentials, issue_tokens, verify_access,
  verify_active_access, refresh_checks, refresh, login, assert_trusted_origin, refresh_route,
  logout, permitted, bearer_token, enter, is_current, issued,
}
use open_editor_text_backend.Auth.Steps.{rest, followed, changing_user}
use open_editor_text_backend.Auth.Entry.{Entered, enter_with_current_permissions}
use open_editor_text_backend.Auth.Revocation.{logout_revokes, reuse_revokes}
use open_editor_text_backend.Auth.Rotation.{refresh_once}
use open_editor_text_backend.Auth.Session.{login_serves}
use open_editor_text_backend.Auth.Facts.{differ}
use open_editor_text_backend.Auth.Samples.{
  run, bob_claims, bob_renewal, deps, pair, entered, changed, narrowed_roles, rotated,
}

logs_in : login deps two (text "j1") (text " BOB@a.io") (text "pw2") ≡ ok (entered, pair)
unfolding run
logs_in = refl

refuses_password : login deps two (text "j1") (text "bob@a.io") (text "pw1") ≡ err unauthorized
unfolding run
refuses_password = refl

is_bob : validate_credentials deps two (text " BOB@a.io") (text "pw2") ≡ ok bob
unfolding run
is_bob = refl

changes : update_user hash entered (text "u1") new_password by_bob ≡ ok (changed, taken_over)
unfolding run
changes = refl

lets_in : enter deps changed (text "order.view" ∷ []) (text "Bearer access") ≡ ok bob_claims
unfolding run
lets_in = refl

keeps_out : enter deps changed (text "license.issue" ∷ []) (text "Bearer access") ≡ err forbidden
unfolding run
keeps_out = refl

narrows : update_role entered (text "r2") to_viewer by_bob.perms ≡ ok (narrowed_roles, viewer)
unfolding run
narrows = refl

revoked_by_role :
    enter deps narrowed_roles (text "order.view" ∷ []) (text "Bearer access") ≡ err unauthorized
unfolding run
revoked_by_role = refl

-- Without a list of origins, the shared secret is not asked for.
forgets_secret : assert_trusted_origin (record deps { admin_origins = [] }) [] [] ≡ ok tt
unfolding run
forgets_secret = refl

rejects_origin :
    refresh_route deps entered (text "j2") [] (text "https://b.io") (text "renewal")
    ≡ (entered, err forbidden)
unfolding run
rejects_origin = refl

two_unique : (id : Text) → users_with id two.users ≤ 1
unfolding run
two_unique id = elim (Bool-cases (text_beq bob.id id)) [
  | inr e ↦ elim (Bool-cases (text_beq ann.id id)) [
    | inl k ↦ ground (arith, e, k)
    | inr k ↦ ground (arith, e, k)
  ]
  | inl e ↦
      let ann_differs : text_beq ann.id id ≡ false =
        subst (λ i. text_beq ann.id i ≡ false) ((text_beq_iff bob.id id).0 e) refl in
      ground (arith, e, ann_differs)
]

signed :
    deps.verify deps.access_secret (deps.sign deps.access_secret (access bob_claims))
    ≡ some (access bob_claims)
unfolding run
signed = refl

bears : bearer_token (text "Bearer access") ≡ some pair.access_token
unfolding run
bears = refl

refuses_scheme : enter deps changed [] (text "Basic access") ≡ err unauthorized
unfolding run
refuses_scheme = refl

enter_with_current_permissions_example : Entered changed (text "order.view" ∷ []) bob_claims
unfolding run
enter_with_current_permissions_example =
    enter_with_current_permissions deps two (text "j1") (text " BOB@a.io") (text "pw2") deps
      (text "order.view" ∷ []) (text "Bearer access") logs_in is_bob signed two_unique
      (followed rest (changing_user hash (text "u1") new_password by_bob taken_over changes)) bears
      lets_in

accepts : verify_active_access deps entered (text "access") ≡ ok bob_claims
unfolding run
accepts = refl

reads : verify_access deps (text "access") ≡ ok bob_claims
unfolding run
reads = refl

named_bob : is_empty bob_claims.sub ≡ false
named_bob = refl

one_bob : users_with (text "u2") entered.users ≤ 1
unfolding run
one_bob = omega arith

logout_revokes_example :
    verify_active_access deps (logout entered bob_claims) (text "access") ≡ err unauthorized
logout_revokes_example =
    logout_revokes deps entered (text "access") accepts named_bob one_bob rest deps (text "access")
      bob_claims reads refl (omega arith)

rotates :
    refresh deps entered (text "j2") (text "renewal")
    ≡ (rotated, ok (pair, with_refresh_id (text "j2") bob))
unfolding run
rotates = refl

reads_renewal : deps.verify deps.refresh_secret (text "renewal") ≡ some (renewal bob_renewal)
unfolding run
reads_renewal = refl

other_id : text "j2" ≢ bob_renewal.jti
unfolding run
other_id = differ (text "j2") (text "j1") refl

refresh_once_example : (refresh deps rotated (text "j3") (text "renewal")).1 ≡ err unauthorized
refresh_once_example =
    refresh_once deps entered (text "j2") (text "renewal") bob_renewal reads_renewal rotates
      other_id rest deps (text "j3") reads_renewal

checks :
    refresh_checks deps rotated (text "renewal") ≡ ok (bob_renewal, with_refresh_id (text "j2") bob)
unfolding run
checks = refl

replayed : is_current bob_renewal (with_refresh_id (text "j2") bob) ≡ false
unfolding run
replayed = refl

one_rotated : users_with (text "u2") rotated.users ≤ 1
unfolding run
one_rotated = omega arith

reuse_revokes_example :
    ((refresh deps rotated (text "j3") (text "renewal")).1 ≡ err unauthorized)
    × (verify_active_access deps
          (refresh deps rotated (text "j3") (text "renewal")).0
          (text "access")
        ≡ err unauthorized)
reuse_revokes_example =
    reuse_revokes deps rotated (text "j3") (text "renewal") checks replayed one_rotated rest deps
      (text "access") bob_claims reads refl (omega arith)

unchanged : find_user changed.users (text "u2") ≡ find_user entered.users (text "u2")
unfolding run
unchanged = refl

signed_renewal :
    deps.verify deps.refresh_secret (deps.sign deps.refresh_secret (renewal bob_renewal))
    ≡ some (renewal bob_renewal)
unfolding run
signed_renewal = refl

allowed : permitted (text "order.view" ∷ []) bob_claims ≡ ok tt
unfolding run
allowed = refl

login_serves_example :
    (enter deps changed (text "order.view" ∷ []) (text "Bearer access") ≡ ok bob_claims)
    × (refresh deps changed (text "j2") (text "renewal")
        ≡ issued
            (issue_tokens deps changed (text "j2") (with_refresh_id (text "j1") bob))
            (with_refresh_id (text "j2") bob))
unfolding run
login_serves_example =
    login_serves deps two (text "j1") (text " BOB@a.io") (text "pw2") deps changed
      (text "order.view" ∷ []) (text "Bearer access") (text "j2") logs_in is_bob two_unique refl
      unchanged signed signed_renewal bears allowed
