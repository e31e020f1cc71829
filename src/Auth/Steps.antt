-- ===== src/Auth/Steps.antt =====
-- What may happen to the staff between two requests: the calls of src/auth/auth.service.ts and of
-- src/admin/rbac.service.ts, in any order, and the facts on each user that they all keep.
use open_editor_text_backend.Base.{
  suc, false, not, List, [], ◌∷◌, Option, none, some, Text, text_eq, text_beq, text_beq_iff, ◌≡◌,
  ◌≢◌, inl, inr, refl, ap, sym, ◌∙◌, arith, Bool-cases, ok, of_ok, any, keep, update, includes, All,
}
use open_editor_text_backend.Base.Every
use open_editor_text_backend.Roles.{
  Role, User, Staff, Actor, RolePatch, roles_with, bumped, invalidate_users_with_role, create_role,
  update_role, delete_role,
}
use open_editor_text_backend.Roles.Users.{
  NewUser, UserPatch, create_user, update_user, delete_user, saved_user, patched, must_invalidate,
}
use open_editor_text_backend.Roles.Writes.{
  create_user-Ensures, update_user-Ensures, delete_user-Ensures,
}
use open_editor_text_backend.Roles.Ceiling.{
  create_role-Ensures, update_role-Ensures, delete_role-Ensures,
}
use open_editor_text_backend.Auth.{Deps, with_refresh_id, issue_tokens, bump_token_version}

-- One call, seen from the user with the id `sub`; a refresh token that is issued gets an id that
-- `Drawn` allows. The database draws new ids for users and roles.
pub data Step (sub : Text) (Drawn : Text → Type 0) : Staff → Staff → Type 0 where
  issuing :
      {s : Staff} (d : Deps) (jti : Text) (u : User)
      → Drawn jti
      → Step sub Drawn s (issue_tokens d s jti u).0
  revoking : {s : Staff} (id : Text) → Step sub Drawn s (bump_token_version s id)
  creating_user :
      {s t : Staff} (hash : Text → Text) (row_id : Text) (input : NewUser) (actor : Actor)
      (u : User)
      → row_id ≢ sub
      → create_user hash s row_id input actor ≡ ok (t, u)
      → Step sub Drawn s t
  changing_user :
      {s t : Staff} (hash : Text → Text) (id : Text) (patch : UserPatch) (actor : Actor) (u : User)
      → update_user hash s id patch actor ≡ ok (t, u)
      → Step sub Drawn s t
  deleting_user : {s t : Staff} (id : Text) → delete_user s id ≡ ok t → Step sub Drawn s t
  creating_role :
      {s t : Staff} (row_id name description : Text) (keys actor : List Text) (r : Role)
      → any (λ u. includes row_id u.role_ids) s.users ≡ false
      → create_role s row_id name description keys actor ≡ ok (t, r)
      → Step sub Drawn s t
  changing_role :
      {s t : Staff} (id : Text) (patch : RolePatch) (actor : List Text) (r : Role)
      → update_role s id patch actor ≡ ok (t, r)
      → Step sub Drawn s t
  deleting_role : {s t : Staff} (id : Text) → delete_role s id ≡ ok t → Step sub Drawn s t

pub data Steps (sub : Text) (Drawn : Text → Type 0) : Staff → Staff → Type 0 where
  rest : {s : Staff} → Steps sub Drawn s s
  followed : {s t u : Staff} → Steps sub Drawn s t → Step sub Drawn t u → Steps sub Drawn s u

-- A fact on a user and the roles that no call breaks: neither a new refresh token, nor an invalidation
-- whatever happens to the roles, nor a change of what it does not read; and it is about `sub` only.
pub record Stable (sub : Text) (Drawn : Text → Type 0) (P : List Role → User → Type 0)
    : Type 0 where
  pub reissued :
      (roles : List Role) (u : User) (jti : Text)
      → Drawn jti
      → P roles u
      → P roles (with_refresh_id jti u)
  pub invalidated :
      (roles roles' : List Role) (u v : User)
      → P roles u
      → v.id ≡ u.id
      → v.token_version ≡ suc u.token_version
      → v.refresh_token_id ≡ []
      → P roles' v
  pub kept :
      (roles : List Role) (u v : User)
      → P roles u
      → (v.id ≡ u.id)
        × (v.token_version ≡ u.token_version)
        × (v.refresh_token_id ≡ u.refresh_token_id)
        × (v.role_ids ≡ u.role_ids)
      → P roles v
  pub other_roles :
      (roles roles' : List Role) (u : User)
      → roles_with roles' u.role_ids ≡ roles_with roles u.role_ids
      → P roles u
      → P roles' u
  pub stranger : (roles : List Role) (u : User) → u.id ≢ sub → P roles u

-- Users who do not hold a role do not see it change.
roles_with-update :
    (id : Text) (r : Role) (ids : List Text) (roles : List Role)
    → r.id ≡ id
    → includes id ids ≡ false
    → roles_with (update (λ x. text_beq x.id id) (λ x. r) roles) ids ≡ roles_with roles ids
roles_with-update id r ids [] named h = refl
roles_with-update id r ids (x ∷ xs) named h = elim (Bool-cases (text_beq x.id id)) [
  | inl e ↦
      let mine : includes x.id ids ≡ false =
        ap (λ y. includes y ids) ((text_beq_iff x.id id).0 e) ∙ h in
      let new : includes r.id ids ≡ false = ap (λ y. includes y ids) named ∙ h in
      rw (e, mine, new) (roles_with-update id r ids xs named h)
  | inr e ↦ elim (Bool-cases (includes x.id ids)) [
    | inl k ↦ rw (e, k) (ap (λ ys. x ∷ ys) (roles_with-update id r ids xs named h))
    | inr k ↦ rw (e, k) (roles_with-update id r ids xs named h)
  ]
]

roles_with-keep :
    (id : Text) (ids : List Text) (roles : List Role)
    → includes id ids ≡ false
    → roles_with (keep (λ r. not (text_beq r.id id)) roles) ids ≡ roles_with roles ids
roles_with-keep id ids [] h = refl
roles_with-keep id ids (x ∷ xs) h = elim (Bool-cases (text_beq x.id id)) [
  | inl e ↦
      let mine : includes x.id ids ≡ false =
        ap (λ y. includes y ids) ((text_beq_iff x.id id).0 e) ∙ h in
      rw (e, mine) (roles_with-keep id ids xs h)
  | inr e ↦ elim (Bool-cases (includes x.id ids)) [
    | inl k ↦ rw (e, k) (ap (λ ys. x ∷ ys) (roles_with-keep id ids xs h))
    | inr k ↦ rw (e, k) (roles_with-keep id ids xs h)
  ]
]

module _ {sub : Text} {Drawn : Text → Type 0} {P : List Role → User → Type 0}
    (stable : Stable sub Drawn P) where
  saved-Stable :
      (hash : Text → Text) (roles : List Role) (patch : UserPatch) (ids : List Text) (u : User)
      → ((patch.role_ids ≡ none) → ids ≡ u.role_ids)
      → P roles u
      → P roles (saved_user hash patch ids u)
  saved-Stable hash roles patch ids u same h = elim (Bool-cases (must_invalidate patch u)) [
    | inl e ↦
        rw e (stable.invalidated roles roles u (bumped (patched hash patch ids u)) h refl refl refl)
    | inr e ↦ rw e (
        stable.kept roles u (patched hash patch ids u) h
          (refl, refl, refl, same (none_asked patch.role_ids e)))
  ]
    where
      none_asked :
          (asked : Option (List Text))
          → must_invalidate (record patch { role_ids = asked }) u ≡ false
          → asked ≡ none
      none_asked none k = refl
      none_asked (some x) k = ground arith

  changed_users :
      (roles : List Role) (users : List User) (id : Text) (r : Role)
      → r.id ≡ id
      → All (P roles) users
      → All
          (P (update (λ x. text_beq x.id id) (λ x. r) roles))
          (invalidate_users_with_role users id)
  unfolding invalidate_users_with_role
  changed_users roles users id r named h =
      Every.All-update _ _ (λ u. includes id u.role_ids) bumped users
        (λ u q k.
          stable.invalidated roles (update (λ x. text_beq x.id id) (λ x. r) roles) u (bumped u) k
            refl refl refl)
        (λ u q k.
          stable.other_roles roles (update (λ x. text_beq x.id id) (λ x. r) roles) u
            (roles_with-update id r u.role_ids roles named q) k)
        h

  pub Step-All :
      {s t : Staff} → Step sub Drawn s t → All (P s.roles) s.users → All (P t.roles) t.users
  unfolding issue_tokens bump_token_version
  Step-All {s} (issuing d jti u ok_jti) h =
      Every.All-update _ _ (λ x. text_beq x.id u.id) (with_refresh_id jti) s.users
        (λ x e k. stable.reissued s.roles x jti ok_jti k) (λ x e k. k) h
  Step-All {s} (revoking id) h =
      Every.All-update _ _ (λ x. text_beq x.id id) bumped s.users
        (λ x e k. stable.invalidated s.roles s.roles x (bumped x) k refl refl refl) (λ x e k. k) h
  Step-All {s} (creating_user hash row_id input actor u other e) h =
      let c = of_ok (create_user-Ensures hash s row_id input actor) e in
      rw c.staff (stable.stranger s.roles u (λ m. other (sym (ap (λ y. y.id) c.user) ∙ m)), h)
  Step-All {s} (changing_user hash id patch actor u e) h =
      let c = of_ok (update_user-Ensures hash s id patch actor) e in
      let mine = (Every.All-found (P s.roles) (λ x. text_beq x.id id) s.users c.user c.found h).0 in
      rw (c.staff, c.row)
        (Every.All-update _ _ (λ x. text_beq x.id c.user.id)
          (λ x. saved_user hash patch c.role_ids c.user) s.users
          (λ x q k. saved-Stable hash s.roles patch c.role_ids c.user c.roles mine) (λ x q k. k) h)
  Step-All {s} (deleting_user id e) h =
      let c = of_ok (delete_user-Ensures s id) e in
      rw c.staff (Every.All-keep (P s.roles) (λ x. not (text_beq x.id c.user.id)) s.users h)
  Step-All {s} (creating_role row_id name description keys actor r unheld e) h =
      let c = of_ok (create_role-Ensures s row_id name description keys actor) e in
      rw c.staff (
        Every.All-map (λ u. P s.roles u × (includes row_id u.role_ids ≡ false)) _ s.users
          (λ u k.
            let unseen : includes r.id u.role_ids ≡ false =
              ap (λ y. includes y u.role_ids) c.named ∙ k.1 in
            stable.other_roles s.roles (r ∷ s.roles) u (rw unseen refl) k.0)
          (Every.All-both (P s.roles) _ s.users h
            (Every.All-fails (λ u. includes row_id u.role_ids) s.users unheld)))
  Step-All {s} {t} (changing_role id patch actor r e) h =
      let c = of_ok (update_role-Ensures s id patch actor) e in
      let named : r.id ≡ id =
        c.named
        ∙ (text_beq_iff c.role.id id).0
            (Every.All-found (λ x. Unit {0}) (λ x. text_beq x.id id) s.roles c.role c.found
              (Every.All-any s.roles)).1 in
      rw (c.users, c.roles) (changed_users s.roles s.users id r named h)
  Step-All {s} (deleting_role id e) h =
      let c = of_ok (delete_role-Ensures s id) e in
      rw c.staff (
        Every.All-map (λ u. P s.roles u × (includes id u.role_ids ≡ false)) _ s.users
          (λ u k.
            stable.other_roles s.roles (keep (λ r. not (text_beq r.id id)) s.roles) u
              (roles_with-keep id u.role_ids s.roles k.1) k.0)
          (Every.All-both (P s.roles) _ s.users h
            (Every.All-fails (λ u. includes id u.role_ids) s.users c.unheld)))

  pub Steps-All :
      {s t : Staff} → Steps sub Drawn s t → All (P s.roles) s.users → All (P t.roles) t.users
  Steps-All rest h = h
  Steps-All (followed past last) h = Step-All last (Steps-All past h)
