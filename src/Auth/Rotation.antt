-- ===== src/Auth/Rotation.antt =====
-- A refresh token of src/auth/auth.service.ts is accepted once.
use open_editor_text_backend.Base.{
  Bool, true, false, not, ◌&&◌, some, Text, text_eq, text_beq, text_beq_iff, is_empty, ◌≡◌, ◌≢◌,
  inl, inr, refl, ap, sym, ◌∙◌, arith, Bool-cases, Option-cases, not-true, Result, ok, err, ◌>>=◌,
  of_ok, All, unauthorized, &&_split, nat_beq,
}
use open_editor_text_backend.Base.Every
use open_editor_text_backend.Roles.{User, Staff, find_user}
use open_editor_text_backend.Auth.{
  Renewal, renewal, Deps, Pair, with_refresh_id, issue_tokens, refresh_checks, is_current, rotate,
  issued, refresh,
}
use open_editor_text_backend.Auth.Steps.{Steps, Steps-All}
use open_editor_text_backend.Auth.Facts.{Other, Spent, differ, Spent-Stable, refresh_checks-Ensures}

refused_when-Spent :
    (d : Deps) (s : Staff) (jti token : Text) (r : Renewal)
    → d.verify d.refresh_secret token ≡ some (renewal r)
    → All (Spent r.sub r.jti s.roles) s.users
    → (refresh d s jti token).1 ≡ err unauthorized
unfolding refresh rotate refresh_checks ◌>>=◌
refused_when-Spent d s jti token r read h = rw read (elim (Option-cases (find_user s.users r.sub)) [
  | inl e ↦ rw e refl
  | inr (u, e) ↦
      let (spent, mine) =
        Every.All-found (Spent r.sub r.jti s.roles) (λ x. text_beq x.id r.sub) s.users u e h in
      let gone : is_current r u ≡ false =
        both_false (is_empty r.jti) (text_beq u.refresh_token_id r.jti)
          (not_beq u.refresh_token_id r.jti (spent ((text_beq_iff u.id r.sub).0 mine))) in
      elim (Bool-cases u.active) [
        | inr k ↦ rw (e, k) refl
        | inl k ↦ elim (Bool-cases (nat_beq u.token_version r.tv)) [
          | inl v ↦ rw (e, k, v, gone) refl
          | inr v ↦ rw (e, k, v) refl
        ]
      ]
])
  where
    both_false : (a b : Bool) → b ≡ false → (not a && b) ≡ false
    both_false a b m = ground arith

    not_beq : (a b : Text) → a ≢ b → text_beq a b ≡ false
    not_beq a b m = elim (Bool-cases (text_beq a b)) [
      | inl k ↦ absurd (m ((text_beq_iff a b).0 k))
      | inr k ↦ k
    ]

-- What a refresh did that was accepted.
record Rotated (d : Deps) (s : Staff) (jti : Text) (r : Renewal) (t : Staff) : Type 0 where
  pub user : User
  pub named : is_empty r.jti ≡ false
  pub staff : t ≡ (issue_tokens d s jti user).0
  pub own : user.id ≡ r.sub

issued-Spent :
    (d : Deps) (s : Staff) (jti : Text) (r : Renewal) (u : User)
    → u.id ≡ r.sub
    → jti ≢ r.jti
    → All (Spent r.sub r.jti (issue_tokens d s jti u).0.roles) (issue_tokens d s jti u).0.users
unfolding issue_tokens
issued-Spent d s jti r u own other =
    Every.All-update (λ x. Unit {0}) _ (λ x. text_beq x.id u.id) (with_refresh_id jti) s.users
      (λ x e h m. other) (λ x e h m. absurd (differ x.id u.id e (m ∙ sym own)))
      (Every.All-any s.users)

record Exchanged (d : Deps) (s : Staff) (jti : Text) (q : Result (Renewal × User)) (t : Staff)
    : Type 0 where
  pub claims : Renewal
  pub user : User
  pub checked : q ≡ ok (claims, user)
  pub current : is_current claims user ≡ true
  pub staff : t ≡ (issue_tokens d s jti user).0

rotate-eq-ok :
    (d : Deps) (s : Staff) (jti : Text) (q : Result (Renewal × User)) {t : Staff} {pair : Pair}
    {u : User}
    → rotate d s jti q ≡ (t, ok (pair, u))
    → Exchanged d s jti q t
unfolding rotate
rotate-eq-ok d s jti (err problem) {t} {pair} {u} h = absurd (err_ok (ap (λ x. x.1) h))
  where
    err_ok : ◌≢◌ {A = Result (Pair × User)} (err problem) (ok (pair, u))
    err_ok m = cc
rotate-eq-ok d s jti (ok (c, v)) {t} {pair} {u} h = elim (Bool-cases (is_current c v)) [
  | inl k ↦
      let e : ◌≡◌ {A = Staff × Result (Pair × User)}
          (issued (issue_tokens d s jti v) (with_refresh_id jti v)) (t, ok (pair, u)) =
        rw k at h in
      record { claims = c; user = v; checked = refl; current = k; staff = sym (ap (λ x. x.0) e) }
  | inr k ↦ absurd (err_ok (ap (λ x. x.1) (rw k at h)))
]
  where
    err_ok : ◌≢◌ {A = Result (Pair × User)} (err unauthorized) (ok (pair, u))
    err_ok m = cc

rotated :
    (d : Deps) (s : Staff) (jti token : Text) (r : Renewal) {t : Staff} {pair : Pair} {u : User}
    → d.verify d.refresh_secret token ≡ some (renewal r)
    → refresh d s jti token ≡ (t, ok (pair, u))
    → Rotated d s jti r t
unfolding refresh
rotated d s jti token r {t} {pair} {u} read e =
    let x = rotate-eq-ok d s jti (refresh_checks d s token) e in
    let c = of_ok (refresh_checks-Ensures d s token) x.checked in
    let same : x.claims ≡ r = ok_eq x.claims (rw read at c.read) in
    record {
      user = x.user;
      named =
          not-true _
            (&&_split (not (is_empty r.jti)) (text_beq x.user.refresh_token_id r.jti)
              (rw same at x.current)).0;
      staff = x.staff;
      own = c.own ∙ ap (λ y. y.sub) same;
    }
  where
    ok_eq : (c : Renewal) → ◌≡◌ {A = Result Renewal} (ok r) (ok c) → c ≡ r
    ok_eq c m = cc

-- A refresh token is accepted once: after a refresh with it has succeeded, whatever happens to the
-- staff, every other refresh with it is refused, if no token has drawn its id again.
pub refresh_once :
    (d : Deps) (s : Staff) (jti token : Text) (r : Renewal) {s' t : Staff} {pair : Pair} {u : User}
    → d.verify d.refresh_secret token ≡ some (renewal r)
    → refresh d s jti token ≡ (s', ok (pair, u))
    → jti ≢ r.jti
    → Steps r.sub (Other r.jti) s' t
    → (later : Deps) (drawn : Text) → later.verify later.refresh_secret token ≡ some (renewal r)
    → (refresh later t drawn token).1 ≡ err unauthorized
refresh_once d s jti token r {s'} {t} {pair} {u} read e other steps later drawn again =
    let w = rotated d s jti token r read e in
    refused_when-Spent later t drawn token r again (
      Steps-All (Spent-Stable r.sub r.jti w.named) steps
        (rw w.staff (issued-Spent d s jti r w.user w.own other)))
