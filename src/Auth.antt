-- ===== src/Auth.antt =====
-- The login of staff: src/auth/auth.service.ts, the routes of src/auth/auth.controller.ts, and the
-- guards src/auth/jwt-auth.guard.ts and src/auth/permissions.guard.ts. The library of JSON web tokens
-- and bcrypt are parameters.
pub mod Entry
pub mod Facts
pub mod Revocation
pub mod Rotation
pub mod Session
pub mod Steps
mod Samples
mod Tests
use open_editor_text_backend.Base.{
  ℕ, zero, suc, ◌≤◌, ◌+◌, Bool, true, false, not, ◌&&◌, ◌||◌, List, [], ◌∷◌, ◌++◌, Option, none,
  some, Text, text, text_eq, text_beq, text_beq_iff, is_empty, ◌≡◌, ◌≢◌, ◌⊎◌, inl, inr, refl, ap,
  sym, ◌∙◌, arith, Bool-cases, Option-cases, not-true, Result, ok, err, Error, guard, ◌>>=◌,
  Ensures, returns, after, of_ok, weaken, guard-eq-ok, bad_request, not_found, conflict, failure,
  unavailable, or_else, find, any, keep, count, update, length, if◌then◌else◌, includes,
  includes-nil, includes-cons, Distinct, All, unauthorized, forbidden, trim, lower, dedup, or_throw,
  ◌>>◌, all, nat_beq, map,
}
use open_editor_text_backend.Roles.{
  Role, User, Staff, super_permission, roles_with, find_user, bumped,
}

-- `AccessClaims` and `RefreshClaims`; the constructor is the field `type`.
pub record Access : Type 0 where
  pub sub : Text
  pub email : Text
  pub perms : List Text
  pub tv : ℕ

pub record Renewal : Type 0 where
  pub sub : Text
  pub tv : ℕ
  pub jti : Text

pub data Claims : Type 0 where
  access : Access → Claims
  renewal : Renewal → Claims

-- What a call takes from outside: tokens under a secret, as they verify at the time of the call, and the
-- comparison of a password with a hash.
pub record Deps : Type 0 where
  pub sign : Text → Claims → Text
  pub verify : Text → Text → Option Claims
  pub compare : Text → Text → Bool
  pub access_secret : Text
  pub refresh_secret : Text
  pub bff_secret : Text
  pub admin_origins : List Text

-- `TokenPair`.
pub record Pair : Type 0 where
  pub access_token : Text
  pub refresh_token : Text

-- `permissionKeys`.
abbrev pub all_keys : List Role → List Text
all_keys [] = []
all_keys (r ∷ rs) = r.permissions ++ all_keys rs

abbrev pub permission_keys : List Role → List Text → List Text
permission_keys roles ids = dedup (all_keys (roles_with roles ids))

-- `effectivePermissions`.
abbrev collapsed : List Text → List Text
collapsed keys = if includes super_permission keys then super_permission ∷ [] else keys

abbrev pub effective_permissions : List Role → User → List Text
effective_permissions roles u = collapsed (permission_keys roles u.role_ids)

-- `validateCredentials`; the comparison with a dummy hash only takes time.
unfoldable pub validate_credentials : Deps → Staff → Text → Text → Result User
validate_credentials d s email password = do
  u ← or_throw (find (λ u. text_beq u.email (trim (lower email))) s.users) unauthorized
  guard u.active unauthorized
  guard (d.compare password u.password_hash) unauthorized
  ok u

abbrev pub with_refresh_id : Text → User → User
with_refresh_id jti u = record u { refresh_token_id = jti }

abbrev pub access_claims : Staff → User → Access
access_claims s u = record {
  sub = u.id;
  email = u.email;
  perms = effective_permissions s.roles u;
  tv = u.token_version;
}

abbrev pair_for : Deps → Staff → Text → User → Pair
pair_for d s jti u = record {
  access_token = d.sign d.access_secret (access (access_claims s u));
  refresh_token =
      d.sign d.refresh_secret (renewal (record { sub = u.id; tv = u.token_version; jti = jti }));
}

-- `issueTokens`, with the id that is drawn for the refresh token.
unfoldable pub issue_tokens : Deps → Staff → Text → User → Staff × Pair
issue_tokens d s jti u = (
  record s { users = update (λ x. text_beq x.id u.id) (with_refresh_id jti) s.users },
  pair_for d s jti u,
)

abbrev as_access : Option Claims → Result Access
as_access (some (access c)) = ok c
as_access (some (renewal c)) = err unauthorized
as_access none = err unauthorized

-- `verifyAccess`.
unfoldable pub verify_access : Deps → Text → Result Access
verify_access d token = as_access (d.verify d.access_secret token)

-- `verifyActiveAccess`.
unfoldable pub verify_active_access : Deps → Staff → Text → Result Access
unfolding verify_access
verify_active_access d s token = do
  c ← verify_access d token
  u ← or_throw (find_user s.users c.sub) unauthorized
  guard u.active unauthorized
  guard (nat_beq u.token_version c.tv) unauthorized
  ok c

-- `bumpTokenVersion`.
unfoldable pub bump_token_version : Staff → Text → Staff
bump_token_version s id = record s { users = update (λ x. text_beq x.id id) bumped s.users }

abbrev pub as_renewal : Option Claims → Result Renewal
as_renewal (some (renewal c)) = ok c
as_renewal (some (access c)) = err unauthorized
as_renewal none = err unauthorized

-- The checks of `refresh` before the one for a reuse.
unfoldable pub refresh_checks : Deps → Staff → Text → Result (Renewal × User)
refresh_checks d s token = do
  c ← as_renewal (d.verify d.refresh_secret token)
  u ← or_throw (find_user s.users c.sub) unauthorized
  guard u.active unauthorized
  guard (nat_beq u.token_version c.tv) unauthorized
  ok (c, u)

abbrev pub is_current : Renewal → User → Bool
is_current c u = not (is_empty c.jti) && text_beq u.refresh_token_id c.jti

abbrev pub issued : Staff × Pair → User → Staff × Result (Pair × User)
issued (t, pair) u = (t, ok (pair, u))

-- A token that is not the current one was used before: all tokens of the user are revoked.
unfoldable pub rotate : Deps → Staff → Text → Result (Renewal × User) → Staff × Result (Pair × User)
unfolding issue_tokens bump_token_version
rotate d s jti (err e) = (s, err e)
rotate d s jti (ok (c, u)) =
    if is_current c u
    then issued (issue_tokens d s jti u) (with_refresh_id jti u)
    else (bump_token_version s u.id, err unauthorized)

-- `refresh`: the tables change also where it throws.
unfoldable pub refresh : Deps → Staff → Text → Text → Staff × Result (Pair × User)
unfolding rotate refresh_checks
refresh d s jti token = rotate d s jti (refresh_checks d s token)

-- The routes. A `login` that throws changes nothing.
unfoldable pub login : Deps → Staff → Text → Text → Text → Result (Staff × Pair)
unfolding issue_tokens
login d s jti email password = do
  u ← validate_credentials d s email password
  ok (issue_tokens d s jti u)

-- `assertTrustedOrigin`, of the two headers.
unfoldable pub assert_trusted_origin : Deps → Text → Text → Result (Unit {0})
assert_trusted_origin d presented header =
    if not (is_empty d.bff_secret) && text_beq presented d.bff_secret
    then ok tt
    else if is_empty d.admin_origins
    then ok tt
    else if not (is_empty (trim header)) && includes (trim header) d.admin_origins
    then ok tt
    else if is_empty (trim header) && is_empty d.bff_secret
    then ok tt
    else err forbidden

abbrev if_trusted :
    Result (Unit {0}) → Staff → Staff × Result (Pair × User) → Staff × Result (Pair × User)
if_trusted (ok x) s r = r
if_trusted (err e) s r = (s, err e)

-- The route of `refresh`, with the headers and the cookie.
unfoldable pub refresh_route :
    Deps → Staff → Text → Text → Text → Text → Staff × Result (Pair × User)
refresh_route d s jti presented header cookie =
    if_trusted (assert_trusted_origin d presented header) s (refresh d s jti cookie)

-- `logout`, of the claims that the guard accepted.
unfoldable pub logout : Staff → Access → Staff
unfolding bump_token_version
logout s c = if is_empty c.sub then s else bump_token_version s c.sub

-- `PermissionsGuard.canActivate`.
unfoldable pub permitted : List Text → Access → Result (Unit {0})
permitted required c =
    guard
      (is_empty required
        || includes super_permission c.perms
        || all (λ p. includes p c.perms) required)
      forbidden

-- `header.split(' ')`: the part before the first space, and what follows it.
abbrev space : ℕ
space = 32

abbrev pub first_part : Text → Text
first_part [] = []
first_part (c ∷ s) = if nat_beq c space then [] else c ∷ first_part s

abbrev pub after_part : Text → Text
after_part [] = []
after_part (c ∷ s) = if nat_beq c space then s else after_part s

-- The scheme is the first part of the header and the token its second; a part that is missing counts as
-- an empty one.
unfoldable pub bearer_token : Text → Option Text
bearer_token header =
    if text_beq (first_part header) (text "Bearer")
      && not (is_empty (first_part (after_part header)))
    then some (first_part (after_part header))
    else none

-- A protected route: `JwtAuthGuard`, with the header `authorization`, then `PermissionsGuard`.
unfoldable pub enter : Deps → Staff → List Text → Text → Result Access
unfolding verify_active_access permitted
enter d s required header = do
  token ← or_throw (bearer_token header) unauthorized
  c ← verify_active_access d s token
  permitted required c
  ok c
