-- ===== src/Auth/Facts.antt =====
-- Facts on users that no call of src/auth/auth.service.ts or src/admin/rbac.service.ts breaks, and what
-- the checks of a token establish.
use open_editor_text_backend.Base.{
  ℕ, ◌≤◌, Bool, true, false, ◌||◌, List, [], ◌∷◌, some, Text, text_eq, text_beq, text_beq_iff,
  is_empty, ◌≡◌, ◌≢◌, inl, inr, refl, ap, sym, ◌∙◌, arith, Bool-cases, ok, Ensures, returns, after,
  guard-eq-ok, find, includes, All, or_throw-eq-ok, nat_beq_iff, all, ◌<◌,
}
use open_editor_text_backend.Base.Every
use open_editor_text_backend.Base.Keyed
use open_editor_text_backend.Roles.{Role, User, Staff, find_user, super_permission}
use open_editor_text_backend.Roles.Lockout.{users_with}
use open_editor_text_backend.Auth.{
  Access, Renewal, Deps, effective_permissions, verify_access, verify_active_access, refresh_checks,
  as_renewal,
}
use open_editor_text_backend.Auth.Steps.{Stable}

abbrev pub Any : Text → Type 0
Any jti = Unit

apart : false ≢ true
apart m = cc

pub differ : (a b : Text) → text_beq a b ≡ false → a ≢ b
differ a b n m = apart (sym n ∙ (text_beq_iff a b).1 m)

pub strangers :
    (id : Text) (P : User → Type 0) (users : List User)
    → users_with id users ≡ 0
    → All (λ x. x.id ≡ id → P x) users
strangers id P [] h = tt
strangers id P (x ∷ xs) h = elim (Bool-cases (text_beq x.id id)) [
  | inl e ↦ absurd (ground (arith, e, h))
  | inr e ↦ (λ m. absurd (differ x.id id e m), strangers id P xs (ground (arith, e, h)))
]

-- The only row with its id.
pub unique-found :
    (q : User → Bool) (users : List User) (u : User)
    → find q users ≡ some u
    → users_with u.id users ≤ 1
    → All (λ x. x.id ≡ u.id → x ≡ u) users
unique-found q [] u e one = cc
unique-found q (x ∷ xs) u e one = elim (Bool-cases (q x)) [
  | inl k ↦
      let here : x ≡ u = same (rw k at e) in
      let mine : text_beq x.id u.id ≡ true = (text_beq_iff x.id u.id).1 (ap (λ y. y.id) here) in
      (λ m. here, strangers u.id (λ y. y ≡ u) xs (ground (arith, mine, one)))
  | inr k ↦
      let there : find q xs ≡ some u = rw k at e in
      let other : text_beq x.id u.id ≡ false =
        ground (arith, one, Keyed.found-rows (λ (y : User). y.id) q xs u there) in
      (λ m. absurd (differ x.id u.id other m), unique-found q xs u there (ground (arith, one)))
]
  where
    same : some x ≡ some u → x ≡ u
    same m = cc

-- What an access token says of the user it was issued to, as long as its version is current.
abbrev pub Carried : Access → List Role → User → Type 0
Carried c roles u =
    u.id ≡ c.sub
    → (c.tv ≤ u.token_version)
      × ((c.tv ≡ u.token_version) → c.perms ≡ effective_permissions roles u)

pub Carried-Stable : (c : Access) → Stable c.sub Any (Carried c)
Carried-Stable c = record {
  reissued = λ roles u jti ok_jti h. h;
  invalidated = λ roles roles' u v h id tv rid e.
      let (le, current) = h (sym id ∙ e) in
      (omega (arith, le, tv), λ m. absurd (omega (arith, le, tv, m)));
  kept = λ roles u v h same e.
      let (le, current) = h (sym same.0 ∙ e) in
      (omega (arith, le, same.1), λ m. rw same.3 (current (m ∙ same.1)));
  other_roles =
      λ roles roles' u same h e. let (le, current) = h e in (le, λ m. rw same (current m));
  stranger = λ roles u other e. absurd (other e);
}

-- All tokens up to a version are revoked.
abbrev pub Newer : Text → ℕ → List Role → User → Type 0
Newer sub tv roles u = u.id ≡ sub → tv < u.token_version

pub Newer-Stable : (sub : Text) (tv : ℕ) → Stable sub Any (Newer sub tv)
Newer-Stable sub tv = record {
  reissued = λ roles u jti ok_jti h. h;
  invalidated = λ roles roles' u v h id up rid e. omega (arith, h (sym id ∙ e), up);
  kept = λ roles u v h same e. omega (arith, h (sym same.0 ∙ e), same.1);
  other_roles = λ roles roles' u same h. h;
  stranger = λ roles u other e. absurd (other e);
}

-- A refresh token is not the current one of its user.
abbrev pub Spent : Text → Text → List Role → User → Type 0
Spent sub jti roles u = u.id ≡ sub → u.refresh_token_id ≢ jti

abbrev pub Other : Text → Text → Type 0
Other jti drawn = drawn ≢ jti

pub Spent-Stable : (sub jti : Text) → is_empty jti ≡ false → Stable sub (Other jti) (Spent sub jti)
Spent-Stable sub jti named = record {
  reissued = λ roles u drawn other h e. other;
  invalidated = λ roles roles' u v h id up rid e m. absurd (empty_named jti (sym rid ∙ m) named);
  kept = λ roles u v h same e m. h (sym same.0 ∙ e) (sym same.2 ∙ m);
  other_roles = λ roles roles' u same h. h;
  stranger = λ roles u other e. absurd (other e);
}
  where
    empty_named : (j : Text) → [] ≡ j → is_empty j ≢ false
    empty_named j m n = cc

pub find-passes : (q : User → Bool) (us : List User) (u : User) → find q us ≡ some u → q u ≡ true
find-passes q us u e = (Every.All-found (λ x. Unit {0}) q us u e (Every.All-any us)).1

-- An access token that a route lets in.
pub record Entering (d : Deps) (s : Staff) (required : List Text) (token : Text) (c : Access)
    : Type 0 where
  pub read : verify_access d token ≡ ok c
  pub user : User
  pub found : find_user s.users c.sub ≡ some user
  pub active : user.active ≡ true
  pub version : user.token_version ≡ c.tv
  pub allowed :
      (is_empty required
        || includes super_permission c.perms
        || all (λ p. includes p c.perms) required)
      ≡ true

pub verify_active-Ensures :
    (d : Deps) (s : Staff) (token : Text)
    → Ensures (λ c. Entering d s [] token c) (verify_active_access d s token)
unfolding verify_active_access
verify_active-Ensures d s token = after λ c read. after λ u found. after λ _ active.
    after λ _ version. returns record {
      read = read;
      user = u;
      found = or_throw-eq-ok _ _ found;
      active = guard-eq-ok _ _ active;
      version = (nat_beq_iff u.token_version c.tv).0 (guard-eq-ok _ _ version);
      allowed = refl;
    }

pub record Checked (d : Deps) (s : Staff) (token : Text) (r : Renewal) (u : User) : Type 0 where
  pub read : as_renewal (d.verify d.refresh_secret token) ≡ ok r
  pub found : find_user s.users r.sub ≡ some u
  pub own : u.id ≡ r.sub

pub refresh_checks-Ensures :
    (d : Deps) (s : Staff) (token : Text)
    → Ensures (λ (q : Renewal × User). Checked d s token q.0 q.1) (refresh_checks d s token)
unfolding refresh_checks
refresh_checks-Ensures d s token = after λ r read. after λ u found. after λ _ _. after λ _ _.
    let found_user = or_throw-eq-ok _ _ found in
    returns record {
      read = read;
      found = found_user;
      own =
          (text_beq_iff u.id r.sub).0 (find-passes (λ x. text_beq x.id r.sub) s.users u found_user);
    }
