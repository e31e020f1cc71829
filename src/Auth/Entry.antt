-- ===== src/Auth/Entry.antt =====
-- With which permissions a request enters by src/auth/jwt-auth.guard.ts and
-- src/auth/permissions.guard.ts.
use open_editor_text_backend.Base.{
  ◌≤◌, Bool, true, ◌||◌, List, [], some, Text, text_eq, text_beq, text_beq_iff, is_empty, ◌≡◌, refl,
  ap, sym, ◌∙◌, arith, Result, ok, Ensures, returns, after, of_ok, guard-eq-ok, find, includes, All,
  or_throw-eq-ok, all, trim, lower, >>-eq-ok, >>=-eq-ok, subst,
}
use open_editor_text_backend.Base.Every
use open_editor_text_backend.Roles.{User, Staff, find_user, super_permission}
use open_editor_text_backend.Roles.Lockout.{users_with}
use open_editor_text_backend.Auth.{
  Access, access, Deps, Pair, effective_permissions, access_claims, with_refresh_id,
  validate_credentials, issue_tokens, verify_access, verify_active_access, login, permitted,
  bearer_token, enter,
}
use open_editor_text_backend.Auth.Steps.{Steps, Steps-All}
use open_editor_text_backend.Auth.Facts.{
  Any, Carried, unique-found, Carried-Stable, verify_active-Ensures, Entering,
}

found_by_email :
    (d : Deps) (s : Staff) (email password : Text) (u : User)
    → validate_credentials d s email password ≡ ok u
    → find (λ x. text_beq x.email (trim (lower email))) s.users ≡ some u
unfolding validate_credentials
found_by_email d s email password u e =
    let (v, found, rest) = >>=-eq-ok _ _ e in
    or_throw-eq-ok _ _ found ∙ ap some (ok_eq v (>>-eq-ok _ _ (>>-eq-ok _ _ rest).1).1)
  where
    ok_eq : (v : User) → ◌≡◌ {A = Result User} (ok v) (ok u) → v ≡ u
    ok_eq v m = cc

-- What a login did.
record LoggedIn (d : Deps) (s : Staff) (jti email password : Text) (t : Staff) (pair : Pair)
    : Type 0 where
  pub user : User
  pub valid : validate_credentials d s email password ≡ ok user
  pub found : find (λ x. text_beq x.email (trim (lower email))) s.users ≡ some user
  pub given : (t, pair) ≡ issue_tokens d s jti user

login-Ensures :
    (d : Deps) (s : Staff) (jti email password : Text)
    → Ensures
        (λ (r : Staff × Pair). LoggedIn d s jti email password r.0 r.1)
        (login d s jti email password)
unfolding login
login-Ensures d s jti email password = after λ u valid. returns record {
  user = u;
  valid = valid;
  found = found_by_email d s email password u valid;
  given = refl;
}

enter-Ensures :
    (d : Deps) (s : Staff) (required : List Text) (header token : Text)
    → bearer_token header ≡ some token
    → Ensures (λ c. Entering d s required token c) (enter d s required header)
unfolding enter permitted
enter-Ensures d s required header token bears = after λ tok e. after λ c read. after λ _ allowed.
    let checked : Entering d s [] token c = of_ok (verify_active-Ensures d s token) (
      ap (verify_active_access d s) (some_eq token tok (sym bears ∙ or_throw-eq-ok _ _ e))
      ∙ read) in
    returns record {
      read = checked.read;
      user = checked.user;
      found = checked.found;
      active = checked.active;
      version = checked.version;
      allowed = guard-eq-ok _ _ allowed;
    }
  where
    some_eq : (a b : Text) → some a ≡ some b → a ≡ b
    some_eq a b m = cc

-- Who is behind a request that is let in.
pub record Entered (t : Staff) (required : List Text) (c : Access) : Type 0 where
  pub user : User
  pub found : find_user t.users c.sub ≡ some user
  pub active : user.active ≡ true
  pub current : c.perms ≡ effective_permissions t.roles user
  pub allowed :
      (is_empty required
        || includes super_permission (effective_permissions t.roles user)
        || all (λ p. includes p (effective_permissions t.roles user)) required)
      ≡ true

abbrev Allows : List Text → List Text → Type 0
Allows required perms =
    (is_empty required || includes super_permission perms || all (λ p. includes p perms) required)
    ≡ true

fresh-Carried :
    (d : Deps) (s : Staff) (jti : Text) (u : User) (q : User → Bool)
    → find q s.users ≡ some u
    → users_with u.id s.users ≤ 1
    → All (Carried (access_claims s u) s.roles) (issue_tokens d s jti u).0.users
unfolding issue_tokens
fresh-Carried d s jti u q found one =
    Every.All-update _ _ (λ x. text_beq x.id u.id) (with_refresh_id jti) s.users
      (λ x e h m. of_same x (h m)) (λ x e h m. of_same x (h m)) (unique-found q s.users u found one)
  where
    of_same :
        (x : User)
        → x ≡ u
        → (u.token_version ≤ x.token_version)
          × ((u.token_version ≡ x.token_version)
              → effective_permissions s.roles u ≡ effective_permissions s.roles x)
    of_same x m = (
      omega (arith, ap (λ y. y.token_version) m),
      λ k. ap (effective_permissions s.roles) (sym m),
    )

-- Between the login and the request, users and roles may have been created, changed and deleted, and
-- tokens issued and revoked, in any order: if a route lets the access token of a login in, it is that
-- of an active user, its permissions are those that the roles of the user grant now, and they allow the
-- route. (User ids are unique, and a token is read as the claims that were signed.)
pub enter_with_current_permissions :
    (d : Deps) (s : Staff) (jti email password : Text) {s' t : Staff} {pair : Pair} {u : User}
    (later : Deps) (required : List Text) (header : Text) {c : Access}
    → login d s jti email password ≡ ok (s', pair)
    → validate_credentials d s email password ≡ ok u
    → later.verify later.access_secret (d.sign d.access_secret (access (access_claims s u)))
      ≡ some (access (access_claims s u))
    → ((id : Text) → users_with id s.users ≤ 1)
    → Steps c.sub Any s' t
    → bearer_token header ≡ some pair.access_token
    → enter later t required header ≡ ok c
    → Entered t required c
unfolding issue_tokens verify_access
enter_with_current_permissions d s jti email password {s'} {t} {pair} {u} later required header {c}
      h valid reads unique steps bears e =
    let l = of_ok (login-Ensures d s jti email password) h in
    let w = of_ok (enter-Ensures later t required header pair.access_token bears) e in
    let issued : pair.access_token ≡ d.sign d.access_secret (access (access_claims s l.user)) =
      ap (λ r. r.1.access_token) l.given in
    let who : l.user ≡ u = user_eq l.user (sym l.valid ∙ valid) in
    let genuine : later.verify later.access_secret
          (d.sign d.access_secret (access (access_claims s l.user)))
        ≡ some (access (access_claims s l.user)) =
      rw who reads in
    let same : access_claims s l.user ≡ c =
      claims_eq (access_claims s l.user) c (rw (issued, genuine) at w.read) in
    let fresh : All (Carried c s'.roles) s'.users =
      subst (λ x. All (Carried c x.roles) x.users) (sym (ap (λ r. r.0) l.given))
        (subst (λ x. All (Carried x s.roles) (issue_tokens d s jti l.user).0.users) same
          (fresh-Carried d s jti l.user (λ x. text_beq x.email (trim (lower email))) l.found
            (unique l.user.id))) in
    let (carried, mine) =
      Every.All-found (Carried c t.roles) (λ x. text_beq x.id c.sub) t.users w.user w.found
        (Steps-All (Carried-Stable c) steps fresh) in
    let current : c.perms ≡ effective_permissions t.roles w.user =
      (carried ((text_beq_iff w.user.id c.sub).0 mine)).1 (sym w.version) in
    record {
      user = w.user;
      found = w.found;
      active = w.active;
      current = current;
      allowed = subst (Allows required) current w.allowed;
    }
  where
    claims_eq : (a b : Access) → ◌≡◌ {A = Result Access} (ok a) (ok b) → a ≡ b
    claims_eq a b m = cc

    user_eq : (v : User) → ◌≡◌ {A = Result User} (ok v) (ok u) → v ≡ u
    user_eq v m = cc
