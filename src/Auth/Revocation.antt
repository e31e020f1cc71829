-- ===== src/Auth/Revocation.antt =====
-- Which tokens src/auth/auth.service.ts revokes for good.
use open_editor_text_backend.Base.{
  ℕ, ◌≤◌, Bool, false, some, Text, text_eq, text_beq, text_beq_iff, is_empty, ◌≡◌, inl, inr, refl,
  ap, sym, arith, Bool-cases, Option-cases, ok, err, ◌>>=◌, of_ok, find, All, unauthorized, nat_beq,
  subst,
}
use open_editor_text_backend.Base.Every
use open_editor_text_backend.Roles.{User, Staff, find_user, bumped}
use open_editor_text_backend.Roles.Lockout.{users_with}
use open_editor_text_backend.Auth.{
  Access, Renewal, Deps, verify_access, verify_active_access, bump_token_version, refresh_checks,
  is_current, rotate, refresh, logout,
}
use open_editor_text_backend.Auth.Steps.{Steps, Steps-All}
use open_editor_text_backend.Auth.Facts.{
  Any, Newer, differ, unique-found, Newer-Stable, find-passes, verify_active-Ensures,
  refresh_checks-Ensures,
}

-- The fence that a revocation puts up.
bumped-Newer :
    (s : Staff) (q : User → Bool) (u : User) (tv : ℕ)
    → find q s.users ≡ some u
    → users_with u.id s.users ≤ 1
    → tv ≤ u.token_version
    → All (Newer u.id tv (bump_token_version s u.id).roles) (bump_token_version s u.id).users
unfolding bump_token_version
bumped-Newer s q u tv found one le =
    Every.All-update _ _ (λ x. text_beq x.id u.id) bumped s.users
      (λ x e h m. omega (arith, le, ap (λ y. y.token_version) (h m)))
      (λ x e h m. absurd (differ x.id u.id e m)) (unique-found q s.users u found one)

old_refused :
    (d : Deps) (s : Staff) (token : Text) (c : Access)
    → verify_access d token ≡ ok c
    → All (Newer c.sub c.tv s.roles) s.users
    → verify_active_access d s token ≡ err unauthorized
unfolding verify_active_access ◌>>=◌
old_refused d s token c read h = rw read (elim (Option-cases (find_user s.users c.sub)) [
  | inl e ↦ rw e refl
  | inr (u, e) ↦
      let (newer, mine) =
        Every.All-found (Newer c.sub c.tv s.roles) (λ x. text_beq x.id c.sub) s.users u e h in
      let lt = newer ((text_beq_iff u.id c.sub).0 mine) in
      let stale : nat_beq u.token_version c.tv ≡ false = ground (arith, lt) in
      elim (Bool-cases u.active) [ inl k ↦ rw (e, k, stale) refl | inr k ↦ rw (e, k) refl ]
])

-- Logging out revokes an accepted access token for good: whatever happens to the staff afterwards, the
-- token, and any other of the same user and version, is refused.
pub logout_revokes :
    (d : Deps) (s : Staff) (token : Text) {c : Access} {t : Staff}
    → verify_active_access d s token ≡ ok c
    → is_empty c.sub ≡ false
    → users_with c.sub s.users ≤ 1
    → Steps c.sub Any (logout s c) t
    → (later : Deps) (other : Text) (a : Access) → verify_access later other ≡ ok a
    → a.sub ≡ c.sub
    → a.tv ≤ c.tv
    → verify_active_access later t other ≡ err unauthorized
unfolding logout
logout_revokes d s token {c} {t} e named one steps later other a read same le =
    let w = of_ok (verify_active-Ensures d s token) e in
    let own : w.user.id ≡ c.sub =
      (text_beq_iff w.user.id c.sub).0
        (find-passes (λ x. text_beq x.id c.sub) s.users w.user w.found) in
    let fence : All (Newer c.sub a.tv (bump_token_version s c.sub).roles)
        (bump_token_version s c.sub).users =
      subst (λ i. All (Newer i a.tv (bump_token_version s i).roles) (bump_token_version s i).users)
        own
        (bumped-Newer s (λ x. text_beq x.id c.sub) w.user a.tv w.found (rw own one)
          (omega (arith, le, w.version))) in
    let from_bump : Steps c.sub Any (bump_token_version s c.sub) t = rw named at steps in
    old_refused later t other a read (
      subst (λ i. All (Newer i a.tv t.roles) t.users) (sym same)
        (Steps-All (Newer-Stable c.sub a.tv) from_bump fence))

-- A refresh token of a valid session that is not the current one, because it was used before, is
-- refused, and all tokens of its user are revoked for good: whatever happens to the staff afterwards,
-- no access token that the user had until then is accepted.
pub reuse_revokes :
    (d : Deps) (s : Staff) (jti token : Text) {r : Renewal} {u : User} {t : Staff}
    → refresh_checks d s token ≡ ok (r, u)
    → is_current r u ≡ false
    → users_with u.id s.users ≤ 1
    → Steps u.id Any (refresh d s jti token).0 t
    → (later : Deps) (other : Text) (a : Access) → verify_access later other ≡ ok a
    → a.sub ≡ u.id
    → a.tv ≤ u.token_version
    → ((refresh d s jti token).1 ≡ err unauthorized)
      × (verify_active_access later t other ≡ err unauthorized)
unfolding refresh rotate
reuse_revokes d s jti token {r} {u} {t} e stale one steps later other a read same le =
    let c = of_ok (refresh_checks-Ensures d s token) e in
    let from_bump : Steps u.id Any (bump_token_version s u.id) t = rw (e, stale) at steps in
    (
      rw (e, stale) refl,
      old_refused later t other a read (
          subst (λ i. All (Newer i a.tv t.roles) t.users) (sym same)
            (Steps-All (Newer-Stable u.id a.tv) from_bump
              (bumped-Newer s (λ x. text_beq x.id r.sub) u a.tv c.found one le))),
    )
