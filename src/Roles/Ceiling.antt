-- ===== src/Roles/Ceiling.antt =====
-- Nobody grants through src/admin/rbac.service.ts what they do not hold.
use open_editor_text_backend.Base.{
  Bool, true, false, not, ◌&&◌, ◌||◌, List, ◌∷◌, Option, none, some, Text, text_eq, text_beq,
  is_empty, ◌≡◌, ◌⊎◌, inl, inr, refl, ◌∙◌, arith, not-true, ok, Ensures, returns, after, of_ok,
  guard-eq-ok, keep, update, includes, or_throw-eq-ok, all, >>-eq-ok, any,
}
use open_editor_text_backend.Base.Keyed
use open_editor_text_backend.Roles.{
  Role, RolePatch, User, Staff, Actor, super_permission, is_super, resolve_permissions, roles_with,
  assert_actor_can_grant_roles, within, create_role, update_role, delete_role, find_role,
  patch_name, patch_permissions, patch_description, invalidate_users_with_role,
}
use open_editor_text_backend.Roles.Users.{may_change_roles}

-- A list of permissions that an actor may grant: known ones without the wildcard, and held by the
-- actor unless it holds the wildcard.
pub record Grantable (s : Staff) (actor keys : List Text) : Type 0 where
  pub plain : includes super_permission keys ≡ false
  pub known : all (λ k. includes k s.permissions) keys ≡ true
  pub held : (is_super actor ≡ true) ⊎ (all (λ k. includes k actor) keys ≡ true)

either : (a b : Bool) → (a || b) ≡ true → (a ≡ true) ⊎ (b ≡ true)
either true b h = inl refl
either false b h = inr h

pub resolve_permissions-Ensures :
    (s : Staff) (keys actor : List Text)
    → Ensures (Grantable s actor) (resolve_permissions s keys actor)
unfolding resolve_permissions
resolve_permissions-Ensures s keys actor = after λ _ plain. after λ _ known. after λ _ held.
    returns record {
      plain = not-true _ (guard-eq-ok _ _ plain);
      known = guard-eq-ok _ _ known;
      held = either _ _ (guard-eq-ok _ _ held);
    }

pub record NewRole (s : Staff) (row_id : Text) (actor : List Text) (t : Staff) (r : Role)
    : Type 0 where
  pub grantable : Grantable s actor r.permissions
  pub ordinary : r.system ≡ false
  pub named : r.id ≡ row_id
  pub staff : t ≡ record s { roles = r ∷ s.roles }

pub create_role-Ensures :
    (s : Staff) (row_id name description : Text) (keys actor : List Text)
    → Ensures
        (λ (q : Staff × Role). NewRole s row_id actor q.0 q.1)
        (create_role s row_id name description keys actor)
unfolding create_role
create_role-Ensures s row_id name description keys actor = after λ _ _. after λ _ _. after λ ps e.
    returns record {
      grantable = of_ok (resolve_permissions-Ensures s keys actor) e;
      ordinary = refl;
      named = refl;
      staff = refl;
    }

record Named (role named : Role) : Type 0 where
  pub permissions : named.permissions ≡ role.permissions
  pub system : named.system ≡ role.system
  pub id : named.id ≡ role.id

patch_name-Ensures :
    (s : Staff) (id : Text) (name : Option Text) (role : Role)
    → Ensures (Named role) (patch_name s id name role)
unfolding patch_name
patch_name-Ensures s id none role = returns record { permissions = refl; system = refl; id = refl }
patch_name-Ensures s id (some name) role =
    after λ _ _. after λ _ _. returns record { permissions = refl; system = refl; id = refl }

patch_description-Named : (d : Option Text) (role : Role) → Named role (patch_description d role)
patch_description-Named none role = record { permissions = refl; system = refl; id = refl }
patch_description-Named (some d) role = record { permissions = refl; system = refl; id = refl }

-- The permissions of a changed role: as they were, or newly granted within the ceiling.
record Regranted (s : Staff) (actor : List Text) (role r : Role) : Type 0 where
  pub permissions : (r.permissions ≡ role.permissions) ⊎ Grantable s actor r.permissions
  pub system : r.system ≡ role.system
  pub id : r.id ≡ role.id

patch_permissions-Ensures :
    (s : Staff) (actor : List Text) (keys : Option (List Text)) (role : Role)
    → Ensures (Regranted s actor role) (patch_permissions s actor keys role)
unfolding patch_permissions
patch_permissions-Ensures s actor none role =
    returns record { permissions = inl refl; system = refl; id = refl }
patch_permissions-Ensures s actor (some keys) role = after λ ps e. returns record {
  permissions = inr (of_ok (resolve_permissions-Ensures s keys actor) e);
  system = refl;
  id = refl;
}

pub record ChangedRole (s : Staff) (id : Text) (actor : List Text) (t : Staff) (r : Role)
    : Type 0 where
  pub role : Role
  pub found : find_role s.roles id ≡ some role
  pub ordinary : (role.system ≡ false) × (r.system ≡ false)
  pub permissions : (r.permissions ≡ role.permissions) ⊎ Grantable s actor r.permissions
  pub named : r.id ≡ role.id
  pub roles : t.roles ≡ update (λ x. text_beq x.id id) (λ x. r) s.roles
  pub users : t.users ≡ invalidate_users_with_role s.users id

pub update_role-Ensures :
    (s : Staff) (id : Text) (patch : RolePatch) (actor : List Text)
    → Ensures (λ (q : Staff × Role). ChangedRole s id actor q.0 q.1) (update_role s id patch actor)
unfolding update_role
update_role-Ensures s id patch actor = after λ role er. after λ _ ordinary. after λ named en.
    after λ r eg.
      let plain = not-true _ (guard-eq-ok _ _ ordinary) in
      let n = of_ok (patch_name-Ensures s id patch.name role) en in
      let d = patch_description-Named patch.description named in
      let g =
        of_ok
          (patch_permissions-Ensures s actor patch.permissions
            (patch_description patch.description named))
          eg in
      returns record {
        role = role;
        found = or_throw-eq-ok _ _ er;
        ordinary = (plain, g.system ∙ d.system ∙ n.system ∙ plain);
        permissions = elim g.permissions [
          | inl e ↦ inl (e ∙ d.permissions ∙ n.permissions)
          | inr h ↦ inr h
        ];
        named = g.id ∙ d.id ∙ n.id;
        roles = refl;
        users = refl;
      }

-- One change of the roles.
pub data RoleChange : Staff → Staff → Type 0 where
  creating :
      {s : Staff} (row_id name description : Text) (keys actor : List Text) (t : Staff) (r : Role)
      → create_role s row_id name description keys actor ≡ ok (t, r)
      → RoleChange s t
  changing :
      {s : Staff} (id : Text) (patch : RolePatch) (actor : List Text) (t : Staff) (r : Role)
      → update_role s id patch actor ≡ ok (t, r)
      → RoleChange s t
  deleting : {s : Staff} (id : Text) (t : Staff) → delete_role s id ≡ ok t → RoleChange s t

pub data RoleChanges : Staff → Staff → Type 0 where
  begin : {s : Staff} → RoleChanges s s
  next : {s t u : Staff} → RoleChanges s t → RoleChange t u → RoleChanges s u

-- Only the built-in roles hold the wildcard.
abbrev pub is_plain : Role → Bool
is_plain r = r.system || not (includes super_permission r.permissions)

abbrev pub Plain : Staff → Type 0
Plain s = all is_plain s.roles ≡ true

granted_plain :
    (s : Staff) (actor : List Text) (r : Role) → Grantable s actor r.permissions → is_plain r ≡ true
granted_plain s actor r g = rw g.plain (ground arith)

changed-Plain :
    (s : Staff) (id : Text) (actor : List Text) (t : Staff) (r : Role)
    → ChangedRole s id actor t r
    → Plain s
    → is_plain r ≡ true
changed-Plain s id actor t r c h = elim c.permissions [
  | inr g ↦ granted_plain s actor r g
  | inl same ↦
      let old = Keyed.all-found is_plain (λ x. text_beq x.id id) s.roles c.role c.found h in
      let without : not (includes super_permission c.role.permissions) ≡ true =
        rw c.ordinary.0 at old in
      rw (same, without) (ground arith)
]

-- A role that is deleted is held by nobody.
pub record DeletedRole (s : Staff) (id : Text) (t : Staff) : Type 0 where
  pub unheld : any (λ u. includes id u.role_ids) s.users ≡ false
  pub staff : t ≡ record s { roles = keep (λ r. not (text_beq r.id id)) s.roles }

pub delete_role-Ensures : (s : Staff) (id : Text) → Ensures (DeletedRole s id) (delete_role s id)
unfolding delete_role
delete_role-Ensures s id = after λ _ _. after λ _ _.
    after λ _ free. returns record { unheld = not-true _ (guard-eq-ok _ _ free); staff = refl }

RoleChange-Plain : {s t : Staff} → RoleChange s t → Plain s → Plain t
RoleChange-Plain {s} (creating row_id name description keys actor t r e) h =
    let c = of_ok (create_role-Ensures s row_id name description keys actor) e in
    rw (c.staff, granted_plain s actor r c.grantable) h
RoleChange-Plain {s} (changing id patch actor t r e) h =
    let c = of_ok (update_role-Ensures s id patch actor) e in
    rw c.roles (
      Keyed.all-replaced is_plain r (λ x. text_beq x.id id) s.roles
        (changed-Plain s id actor t r c h) h)
RoleChange-Plain {s} (deleting id t e) h =
    rw (of_ok (delete_role-Ensures s id) e).staff
      (Keyed.all-keep is_plain (λ r. not (text_beq r.id id)) s.roles h)

-- Through any sequence of creations, changes and deletions of roles, whoever calls, no role but a
-- built-in one ever holds the wildcard, if that was so at the start.
pub RoleChanges-Plain : {s t : Staff} → RoleChanges s t → Plain s → Plain t
RoleChanges-Plain begin h = h
RoleChanges-Plain (next past last) h = RoleChange-Plain last (RoleChanges-Plain past h)

-- A change of a role that succeeds leaves a built-in role alone; and it leaves the permissions of the
-- role as they were, or gives it known ones, without the wildcard, that the caller holds unless the
-- caller holds the wildcard.
pub update_role_within_ceiling :
    (s : Staff) (id : Text) (patch : RolePatch) (actor : List Text) {t : Staff} {r : Role}
    → update_role s id patch actor ≡ ok (t, r)
    → ChangedRole s id actor t r
update_role_within_ceiling s id patch actor e = of_ok (update_role-Ensures s id patch actor) e

assert-within :
    (roles : List Role) (actor : List Text) {u : Unit {0}}
    → assert_actor_can_grant_roles roles actor ≡ ok u
    → (is_super actor ≡ true) ⊎ (all (within actor) roles ≡ true)
unfolding assert_actor_can_grant_roles
assert-within roles actor h = either _ _ (guard-eq-ok _ _ h)

may_change-within :
    (s : Staff) (u : User) (actor : Actor) (role_ids ids : List Text) {z : Unit {0}}
    → may_change_roles s u actor role_ids (some ids) ≡ ok z
    → ((is_super actor.perms ≡ true)
        ⊎ (all (within actor.perms) (roles_with s.roles role_ids) ≡ true))
      × ((is_empty actor.sub ≡ true)
          ⊎ (text_beq actor.sub u.id ≡ false)
          ⊎ (is_super actor.perms ≡ true))
unfolding may_change_roles
may_change-within s u actor role_ids ids h =
    let (within_held, own) = >>-eq-ok _ _ h in
    (
      assert-within (roles_with s.roles role_ids) actor.perms within_held,
      not_own (is_empty actor.sub) (text_beq actor.sub u.id) (is_super actor.perms)
          (guard-eq-ok _ _ own),
    )
  where
    not_own :
        (a b c : Bool) → not (not a && b && not c) ≡ true → (a ≡ true) ⊎ (b ≡ false) ⊎ (c ≡ true)
    not_own true b c k = inl refl
    not_own false false c k = inr (inl refl)
    not_own false true true k = inr (inr refl)
    not_own false true false k = cc
