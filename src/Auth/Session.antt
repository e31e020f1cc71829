-- ===== src/Auth/Session.antt =====
-- A login serves: its tokens work with src/auth/jwt-auth.guard.ts and src/auth/auth.service.ts.
use open_editor_text_backend.Base.{
  ◌≤◌, Bool, true, false, List, [], ◌∷◌, some, Text, text_eq, text_beq, text_beq_iff, is_empty, ◌≡◌,
  ◌≢◌, inl, inr, refl, ap, sym, ◌∙◌, Bool-cases, Result, ok, ◌>>=◌, Ensures, returns, after, of_ok,
  guard-eq-ok, find, All, find-update, or_throw-eq-ok, nat_beq_iff, subst,
}
use open_editor_text_backend.Roles.{User, Staff, find_user}
use open_editor_text_backend.Roles.Lockout.{users_with}
use open_editor_text_backend.Auth.{
  Access, Renewal, access, renewal, Deps, Pair, access_claims, with_refresh_id,
  validate_credentials, issue_tokens, verify_access, verify_active_access, login, permitted, enter,
  bearer_token, refresh_checks, rotate, refresh, issued, is_current, nat_beq, trim, lower,
}
use open_editor_text_backend.Auth.Facts.{unique-found}

-- What a password that is accepted shows.
record Accepted (s : Staff) (email : Text) (u : User) : Type 0 where
  pub found : find (λ x. text_beq x.email (trim (lower email))) s.users ≡ some u
  pub active : u.active ≡ true

validate-Ensures :
    (d : Deps) (s : Staff) (email password : Text)
    → Ensures (λ u. Accepted s email u) (validate_credentials d s email password)
unfolding validate_credentials
validate-Ensures d s email password = after λ u found. after λ _ active. after λ _ matches.
    returns record { found = or_throw-eq-ok _ _ found; active = guard-eq-ok _ _ active }

found_by_id :
    (q : User → Bool) (us : List User) (u : User)
    → find q us ≡ some u
    → All (λ x. x.id ≡ u.id → x ≡ u) us
    → find_user us u.id ≡ some u
found_by_id q [] u e h = cc
found_by_id q (x ∷ xs) u e h = elim (Bool-cases (text_beq x.id u.id)) [
  | inl k ↦ rw k (ap some (h.0 ((text_beq_iff x.id u.id).0 k)))
  | inr k ↦ elim (Bool-cases (q x)) [
    | inl m ↦
        absurd (apart (sym k ∙ (text_beq_iff x.id u.id).1 (ap (λ y. y.id) (same (rw m at e)))))
    | inr m ↦ rw k (found_by_id q xs u (rw m at e) h.1)
  ]
]
  where
    same : some x ≡ some u → x ≡ u
    same z = cc

    apart : false ≢ true
    apart z = cc

-- The row that a login leaves.
login_row :
    (d : Deps) (s : Staff) (jti email password : Text) (u : User)
    → validate_credentials d s email password ≡ ok u
    → users_with u.id s.users ≤ 1
    → find_user (issue_tokens d s jti u).0.users u.id ≡ some (with_refresh_id jti u)
unfolding issue_tokens
login_row d s jti email password u valid one =
    let v = of_ok (validate-Ensures d s email password) valid in
    let mine : text_beq u.id u.id ≡ true = (text_beq_iff u.id u.id).1 refl in
    let row : find_user s.users u.id ≡ some u =
      found_by_id _ s.users u v.found (unique-found _ s.users u v.found one) in
    find-update (λ x. text_beq x.id u.id) (λ x. text_beq x.id u.id) (with_refresh_id jti)
      (λ x. refl) s.users u row
    ∙ rw mine refl

abbrev renewal_of : Text → User → Renewal
renewal_of jti u = record { sub = u.id; tv = u.token_version; jti = jti }

entered :
    (d : Deps) (t : Staff) (required : List Text) (header token : Text) (c : Access) (v : User)
    → bearer_token header ≡ some token
    → d.verify d.access_secret token ≡ some (access c)
    → find_user t.users c.sub ≡ some v
    → v.active ≡ true
    → nat_beq v.token_version c.tv ≡ true
    → permitted required c ≡ ok tt
    → enter d t required header ≡ ok c
unfolding enter verify_access verify_active_access ◌>>=◌
entered d t required header token c v bears reads row active version allowed =
    rw (bears, reads, row, active, version, allowed) refl

refreshed :
    (d : Deps) (t : Staff) (next token : Text) (r : Renewal) (v : User)
    → d.verify d.refresh_secret token ≡ some (renewal r)
    → find_user t.users r.sub ≡ some v
    → v.active ≡ true
    → nat_beq v.token_version r.tv ≡ true
    → is_current r v ≡ true
    → refresh d t next token ≡ issued (issue_tokens d t next v) (with_refresh_id next v)
unfolding refresh rotate refresh_checks ◌>>=◌
refreshed d t next token r v reads row active version current =
    rw (reads, row, active, version, current) refl

-- After a login, as long as nothing has changed the row of its user, the access token enters each route
-- that the permissions of the user at the login allow, and the refresh token is exchanged for a new pair.
-- (User ids are unique, the id drawn for the refresh token is not empty, and a token is read as the
-- claims that were signed.)
pub login_serves :
    (d : Deps) (s : Staff) (jti email password : Text) {s' : Staff} {pair : Pair} {u : User}
    (later : Deps) (t : Staff) (required : List Text) (header next : Text)
    → login d s jti email password ≡ ok (s', pair)
    → validate_credentials d s email password ≡ ok u
    → ((id : Text) → users_with id s.users ≤ 1)
    → is_empty jti ≡ false
    → find_user t.users u.id ≡ find_user s'.users u.id
    → later.verify later.access_secret (d.sign d.access_secret (access (access_claims s u)))
      ≡ some (access (access_claims s u))
    → later.verify later.refresh_secret (d.sign d.refresh_secret (renewal (renewal_of jti u)))
      ≡ some (renewal (renewal_of jti u))
    → bearer_token header ≡ some pair.access_token
    → permitted required (access_claims s u) ≡ ok tt
    → (enter later t required header ≡ ok (access_claims s u))
      × (refresh later t next pair.refresh_token
          ≡ issued (issue_tokens later t next (with_refresh_id jti u)) (with_refresh_id next u))
unfolding login issue_tokens ◌>>=◌
login_serves d s jti email password {s'} {pair} {u} later t required header next h valid unique
      drawn unchanged reads renews bears allowed =
    let v = of_ok (validate-Ensures d s email password) valid in
    let given : issue_tokens d s jti u ≡ (s', pair) =
      same (issue_tokens d s jti u) (rw valid at h) in
    let row : find_user t.users u.id ≡ some (with_refresh_id jti u) =
      unchanged
      ∙ ap (λ x. find_user x.0.users u.id) (sym given)
      ∙ login_row d s jti email password u valid (unique u.id) in
    let version : nat_beq u.token_version u.token_version ≡ true = (nat_beq_iff _ _).1 refl in
    let current : is_current (renewal_of jti u) (with_refresh_id jti u) ≡ true =
      rw drawn ((text_beq_iff jti jti).1 refl) in
    (
      entered later t required header pair.access_token (access_claims s u) (with_refresh_id jti u)
          bears
          (subst
            (λ x.
              later.verify later.access_secret x.1.access_token ≡ some (access (access_claims s u)))
            given reads)
          row v.active version allowed,
      refreshed later t next pair.refresh_token (renewal_of jti u) (with_refresh_id jti u)
          (subst
            (λ x.
              later.verify later.refresh_secret x.1.refresh_token
              ≡ some (renewal (renewal_of jti u)))
            given renews)
          row v.active version current,
    )
  where
    same :
        (x : Staff × Pair) → ◌≡◌ {A = Result (Staff × Pair)} (ok x) (ok (s', pair)) → x ≡ (s', pair)
    same x m = cc
