-- ===== src/Roles/Lockout.antt =====
-- The changes of users of src/admin/rbac.service.ts leave somebody who may manage users.
use open_editor_text_backend.Base.{
  ℕ, ◌≤◌, ◌+◌, Bool, true, false, not, ◌&&◌, ◌||◌, List, [], ◌∷◌, some, Text, text_eq, text_beq,
  text_beq_iff, ◌≡◌, ◌≢◌, inl, inr, refl, ap, sym, ◌∙◌, arith, Bool-cases, ok, of_ok, or_else, find,
  keep, count, update, length,
}
use open_editor_text_backend.Base.Keyed
use open_editor_text_backend.Base.Keyed.{bit}
use open_editor_text_backend.Roles.{
  Role, User, Staff, Actor, roles_with, roles_grant_user_management, is_manager, sole,
  is_last_active_admin,
}
use open_editor_text_backend.Roles.Users.{
  NewUser, UserPatch, create_user, saved_user, update_user, delete_user, must_invalidate,
}
use open_editor_text_backend.Roles.Writes.{
  Created, Updated, Deleted, create_user-Ensures, update_user-Ensures, delete_user-Ensures,
}

abbrev pub managers : Staff → ℕ
managers s = count (is_manager s.roles) s.users

abbrev pub users_with : Text → List User → ℕ
users_with = Keyed.rows_with (λ u. u.id)

-- The only row that passes a test is the one that was found.
sole-found :
    (p q : User → Bool) (users : List User) (u : User)
    → find q users ≡ some u
    → p u ≡ true
    → count p users ≡ 1
    → sole (keep p users) u.id ≡ true
sole-found p q [] u h k n = cc
sole-found p q (x ∷ xs) u h k n = elim (Bool-cases (q x)) [
  | inl e ↦
      let here : x ≡ u = same_user x u (rw e at h) in
      let passes : p x ≡ true = ap p here ∙ k in
      rw passes (
        alone (keep p xs) (let m : count p (x ∷ xs) ≡ 1 = n in ground (arith, passes, m))
          ((text_beq_iff x.id u.id).1 (ap (λ y. y.id) here)))
  | inr e ↦
      let there : find q xs ≡ some u = rw e at h in
      let more = Keyed.found-count (λ (y : User). y.id) p q xs u there k in
      let fails : p x ≡ false = ground (arith, more, n) in
      rw fails (sole-found p q xs u there k (ground (arith, fails, n)))
]
  where
    same_user : (a b : User) → some a ≡ some b → a ≡ b
    same_user a b m = cc

    alone :
        (rest : List User)
        → length rest ≡ 0
        → text_beq x.id u.id ≡ true
        → sole (x ∷ rest) u.id ≡ true
    alone [] m same = same
    alone (y ∷ ys) m same = absurd (omega (arith, m))

-- Somebody manages users besides a manager that is not the last one.
not-last :
    (s : Staff) (q : User → Bool) (u : User)
    → find q s.users ≡ some u
    → is_last_active_admin s u ≡ false
    → 1 ≤ managers s
    → bit (is_manager s.roles u) + 1 ≤ managers s
unfolding is_last_active_admin
not-last s q u found h n = elim (Bool-cases (is_manager s.roles u)) [
  | inr e ↦ rw e n
  | inl e ↦
      let not_sole : sole (keep (is_manager s.roles) s.users) u.id ≡ false = rw e at h in
      let several : managers s ≢ 1 =
        λ m. true_false (sym (sole-found (is_manager s.roles) q s.users u found e m) ∙ not_sole) in
      rw e (omega (arith, n, several))
]
  where
    true_false : true ≢ false
    true_false k = cc

-- One change of the users. The database draws a new id for a user.
pub data Change (hash : Text → Text) : Staff → Staff → Type 0 where
  creating :
      {s : Staff} (row_id : Text) (input : NewUser) (actor : Actor) (t : Staff) (u : User)
      → users_with row_id s.users ≡ 0
      → create_user hash s row_id input actor ≡ ok (t, u)
      → Change hash s t
  changing :
      {s : Staff} (id : Text) (patch : UserPatch) (actor : Actor) (t : Staff) (u : User)
      → update_user hash s id patch actor ≡ ok (t, u)
      → Change hash s t
  deleting : {s : Staff} (id : Text) (t : Staff) → delete_user s id ≡ ok t → Change hash s t

pub data Changes (hash : Text → Text) : Staff → Staff → Type 0 where
  begin : {s : Staff} → Changes hash s s
  next : {s t u : Staff} → Changes hash s t → Change hash t u → Changes hash s u

-- Ids of users are unique, and somebody active may manage users.
pub record Governed (s : Staff) : Type 0 where
  pub unique : (id : Text) → users_with id s.users ≤ 1
  pub managed : 1 ≤ managers s

saved-fields :
    (hash : Text → Text) (patch : UserPatch) (ids : List Text) (u : User) (roles : List Role)
    → ((saved_user hash patch ids u).id ≡ u.id)
      × (is_manager roles (saved_user hash patch ids u)
          ≡ (or_else patch.active u.active && roles_grant_user_management (roles_with roles ids)))
saved-fields hash patch ids u roles = elim (Bool-cases (must_invalidate patch u)) [
  | inl e ↦ rw e (refl, refl)
  | inr e ↦ rw e (refl, refl)
]

deleting-Governed : (s : Staff) (id : Text) (t : Staff) → Deleted s id t → Governed s → Governed t
deleting-Governed s id t d g = record {
  unique = λ x. rw d.staff (
      omega (
        arith,
        g.unique x,
        Keyed.rows_with-keep (λ (u : User). u.id) (λ y. not (text_beq y.id d.user.id)) x s.users,
      ));
  managed =
      let left =
        Keyed.count-removed (λ (u : User). u.id) (is_manager s.roles) (λ y. text_beq y.id id)
          s.users d.user d.found (g.unique d.user.id) in
      rw d.staff
        (omega (arith, left, not-last s (λ y. text_beq y.id id) d.user d.found d.spare g.managed));
}

creating-Governed :
    (hash : Text → Text) (s : Staff) (row_id : Text) (input : NewUser) (t : Staff) (u : User)
    → users_with row_id s.users ≡ 0
    → Created hash s row_id input t u
    → Governed s
    → Governed t
creating-Governed hash s row_id input t u fresh c g =
    let named : u.id ≡ row_id = ap (λ y. y.id) c.user in
    record {
      unique = λ x. rw c.staff (one_more x (ap (λ y. users_with y s.users) named ∙ fresh));
      managed = rw c.staff (ground (arith, g.managed));
    }
  where
    one_more : (x : Text) → users_with u.id s.users ≡ 0 → users_with x (u ∷ s.users) ≤ 1
    one_more x unused = elim (Bool-cases (text_beq u.id x)) [
      | inl e ↦
          let none_yet : users_with x s.users ≡ 0 =
            ap (λ y. users_with y s.users) (sym ((text_beq_iff u.id x).0 e)) ∙ unused in
          ground (arith, e, none_yet)
      | inr e ↦ ground (arith, e, g.unique x)
    ]

only_right : (a b : Bool) → a ≡ false → (a || not b) ≡ true → b ≡ false
only_right a b h k = ground arith

changing-Governed :
    (hash : Text → Text) (s : Staff) (id : Text) (patch : UserPatch) (t : Staff) (saved : User)
    → Updated hash s id patch t saved
    → Governed s
    → Governed t
changing-Governed hash s id patch t saved c g =
    let (same_id, manages) = saved-fields hash patch c.role_ids c.user s.roles in
    let named : saved.id ≡ c.user.id = ap (λ y. y.id) c.row ∙ same_id in
    let moved =
      Keyed.count-found (λ (u : User). u.id) (is_manager s.roles) (λ y. text_beq y.id id)
        (λ y. saved) s.users c.user c.found (g.unique c.user.id) in
    record {
      unique = λ x. rw c.staff (
          omega (
            arith,
            g.unique x,
            Keyed.rows_with-update (λ (u : User). u.id) x (λ y. text_beq y.id c.user.id)
                (λ y. saved)
                (λ a h. ap (λ y. text_beq y x) (named ∙ sym ((text_beq_iff a.id c.user.id).0 h)))
                s.users,
          ));
      managed = rw c.staff (kept (ap (is_manager s.roles) c.row ∙ manages) moved);
    }
  where
    kept :
        is_manager s.roles saved ≡ (
          or_else patch.active c.user.active
          && roles_grant_user_management (roles_with s.roles c.role_ids))
        → count (is_manager s.roles) (update (λ x. text_beq x.id c.user.id) (λ x. saved) s.users)
            + bit (is_manager s.roles c.user)
          ≡ managers s + bit (is_manager s.roles saved)
        → 1
          ≤ count (is_manager s.roles) (update (λ x. text_beq x.id c.user.id) (λ x. saved) s.users)
    kept manages moved = elim (Bool-cases (is_manager s.roles saved)) [
      | inl e ↦ ground (arith, moved, e, g.managed)
      | inr e ↦
          let spare : is_last_active_admin s c.user ≡ false =
            only_right _ _ (sym manages ∙ e) c.guarded in
          let left = not-last s (λ y. text_beq y.id id) c.user c.found spare g.managed in
          ground (arith, moved, e, left)
    ]

Change-Governed : {hash : Text → Text} {s t : Staff} → Change hash s t → Governed s → Governed t
Change-Governed {hash} {s} (creating row_id input actor t u fresh e) g =
    creating-Governed hash s row_id input t u fresh
      (of_ok (create_user-Ensures hash s row_id input actor) e) g
Change-Governed {hash} {s} (changing id patch actor t u e) g =
    changing-Governed hash s id patch t u (of_ok (update_user-Ensures hash s id patch actor) e) g
Change-Governed {hash} {s} (deleting id t e) g =
    deleting-Governed s id t (of_ok (delete_user-Ensures s id) e) g

-- Through any sequence of creations, changes and deletions of users, ids of users stay unique and
-- some active user may still manage users, if that was so at the start.
pub Changes-Governed :
    {hash : Text → Text} {s t : Staff} → Changes hash s t → Governed s → Governed t
Changes-Governed begin g = g
Changes-Governed (next past last) g = Change-Governed last (Changes-Governed past g)
