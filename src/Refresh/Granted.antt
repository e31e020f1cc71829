-- ===== src/Refresh/Granted.antt =====
-- What a refresh that src/portal/refresh.service.ts grants has checked and written.
use open_editor_text_backend.Base.{
  ℕ, Bool, true, false, not, ◌&&◌, List, Option, none, some, ◌≡◌, ◌⊎◌, inl, inr, refl, ap, sym,
  subst, ◌∙◌, arith, Text, Result, ok, err, Ensures, after, returns, of_ok, or_throw-eq-ok,
  guard-eq-ok, not-true, Bool-cases, if◌then◌else◌, rate_limited,
}
use open_editor_text_backend.Base.Int.{ℤ, pos, ◌+ℤ◌, ◌≤ℤ◌, ◌<ℤ◌, ltb_ℤ, int_laws}
use open_editor_text_backend.Durations.{Number, at, infinity, before, clamp_ttl_to_term}
use open_editor_text_backend.Durations.Clamp.{clamp_within_term}
use open_editor_text_backend.Signer.{Claims, Signed, sign, verify_own_token}
use open_editor_text_backend.Signer.Tokens.{sign_lem, sign_within_request}
use open_editor_text_backend.Licenses.{active, is_revoked, License, Store, Env, package_of}
use open_editor_text_backend.Licenses.Rows.{Wrote, save-Ensures}
use open_editor_text_backend.Refresh.{
  Window, Limits, allow, boundary_of_row, find_by_lic_id, gate, base_ttl_of, refresh_request,
  refreshed_row, Grant, remint, limited, answered, refresh,
}

-- The new token ends by the boundary of the paid term, if it has one.
abbrev EndsBy : ℤ → Number → Type 0
EndsBy e infinity = Unit
EndsBy e (at b) = e ≤ℤ b

-- A row that may be refreshed.
record Passed (env : Env) (s : Store) (claims : Claims) (l : License) : Type 0 where
  found : find_by_lic_id s claims.lic ≡ some l
  live : is_revoked l.status ≡ false
  in_term : before env.now (boundary_of_row s l) ≡ true

gate-Ensures :
    (env : Env) (host_of : Text → Option Text) (s : Store) (claims : Claims) (origin : Text)
    → Ensures (λ l. Passed env s claims l) (gate env host_of s claims origin)
unfolding gate
gate-Ensures env host_of s claims origin = after λ l found. after λ _ live. after λ _ early.
    after λ _ _. returns (record {
      found = or_throw-eq-ok _ _ found;
      live = not-true _ (guard-eq-ok _ _ live);
      in_term = guard-eq-ok _ _ early;
    })

positive_later : (b n : ℤ) → pos 0 ≤ℤ n → n <ℤ b → pos 0 <ℤ b
positive_later b n h k = omega int_laws

ends_within : (e i n t b : ℤ) → i ≡ n → e ≤ℤ i +ℤ t → n +ℤ t ≤ℤ b → e ≤ℤ b
ends_within e i n t b p h k = let h' : e ≤ℤ n +ℤ t = subst (λ z. e ≤ℤ z +ℤ t) p h in omega int_laws

before_at : (n b : ℤ) → before n (at b) ≡ true → n <ℤ b
before_at n b h = ground arith

reminted_end :
    (env : Env) (s : Store) (claims : Claims) (l : License) (signed : Signed) (n : Number)
    → boundary_of_row s l ≡ n
    → pos 0 ≤ℤ env.now
    → before env.now (boundary_of_row s l) ≡ true
    → sign env.crypto env.config env.fresh env.sign_now (refresh_request env s claims l) ≡ ok signed
    → EndsBy signed.exp n
reminted_end env s claims l signed infinity b h early e = tt
reminted_end env s claims l signed (at end) b h early e =
    let later = before_at env.now end (ap (before env.now) (sym b) ∙ early) in
    let (t, same, positive, fits) =
      clamp_within_term end env.now (positive_later end env.now h later) later
        (base_ttl_of (package_of s l)) in
    let asked = ap (λ m. clamp_ttl_to_term (base_ttl_of (package_of s l)) m env.now) b ∙ same in
    let (start, ends) =
      sign_within_request env.crypto env.config env.fresh env.sign_now
        (refresh_request env s claims l) t positive asked e in
    ends_within signed.exp signed.iat env.now t end start ends fits

-- What the row and the reminder are after a refresh.
pub record Rolled (env : Env) (s : Store) (old : License) (t : Store) (g : Grant) : Type 0 where
  pub row : License
  -- The same row and licence id, live, with the token that is handed out, which starts now.
  pub same : row ≡ record old {
    token = g.token;
    kid = row.kid;
    issued_at = env.now;
    expires_at = g.expires_at;
    status = active;
    reminder_sent_at = row.reminder_sent_at;
  }
  pub lic_id : g.lic_id ≡ old.lic_id
  pub ends : EndsBy g.expires_at (boundary_of_row s old)
  -- A reminder is sent only if none is marked, and marked as it is sent.
  pub reminder :
      ((g.remind ≡ false) × (row.reminder_sent_at ≡ old.reminder_sent_at))
      ⊎ ((g.remind ≡ true)
          × (ltb_ℤ (pos 0) old.reminder_sent_at ≡ false)
          × (row.reminder_sent_at ≡ env.now))
  pub wrote : Wrote s row t

due_lem :
    (a c : Bool) (sent now : ℤ)
    → ((a && not (ltb_ℤ (pos 0) sent) && c ≡ false)
        × ((if a && not (ltb_ℤ (pos 0) sent) && c then now else sent) ≡ sent))
      ⊎ ((a && not (ltb_ℤ (pos 0) sent) && c ≡ true)
          × (ltb_ℤ (pos 0) sent ≡ false)
          × ((if a && not (ltb_ℤ (pos 0) sent) && c then now else sent) ≡ now))
due_lem a c sent now = elim (Bool-cases (a && not (ltb_ℤ (pos 0) sent) && c)) [
  | inl e ↦ inr (e, ground arith, rw e refl)
  | inr e ↦ inl (e, rw e refl)
]

remint-Ensures :
    (env : Env) (s : Store) (claims : Claims) (l : License)
    → pos 0 ≤ℤ env.now
    → before env.now (boundary_of_row s l) ≡ true
    → Ensures (λ (p : Store × Grant). Rolled env s l p.0 p.1) (remint env s claims l)
unfolding remint
remint-Ensures env s claims l h early = after λ signed e. after λ saved w.
    let (wrote, row) = of_ok (save-Ensures s (refreshed_row env s l signed)) w in
    let start : signed.iat ≡ env.now = ap (λ z. z.iat) (sign_lem _ _ _ _ _ e) in
    returns (record {
      row = refreshed_row env s l signed;
      same = rw start refl;
      lic_id = ap (λ z. z.lic_id) row;
      ends = reminted_end env s claims l signed (boundary_of_row s l) refl h early e;
      reminder = due_lem _ _ l.reminder_sent_at env.now;
      wrote = wrote;
    })

pub record Granted (env : Env) (c : Limits) (s : Store) (ws : List Window) (token : Text)
    (now_ms : ℕ) (t : Store) (g : Grant) : Type 0 where
  pub claims : Claims
  pub old : License
  pub verified : verify_own_token env.crypto env.config token ≡ some claims
  pub found : find_by_lic_id s claims.lic ≡ some old
  pub live : is_revoked old.status ≡ false
  pub in_term : before env.now (boundary_of_row s old) ≡ true
  pub allowed : (allow c ws old.id now_ms).1 ≡ true
  pub rolled : Rolled env s old t g

limited_lem :
    (env : Env) (c : Limits) (s : Store) (ws : List Window) (claims : Claims) (now_ms : ℕ)
    (r : Result License) {p : Store × Grant}
    → (limited env c s ws claims now_ms r).1 ≡ ok p
    → (l : License) × (r ≡ ok l)
      × ((allow c ws l.id now_ms).1 ≡ true)
      × (remint env s claims l ≡ ok p)
unfolding limited
limited_lem env c s ws claims now_ms (err e) h = cc
limited_lem env c s ws claims now_ms (ok l) h = elim (Bool-cases (allow c ws l.id now_ms).1) [
  | inl e ↦ (l, refl, e, rw e at h)
  | inr e ↦ absurd (refused_not (rw e at h))
]
  where
    refused_not : {p : Store × Grant} → err rate_limited ≡ ok p → ⊥
    refused_not h = cc

answered-Granted :
    (env : Env) (c : Limits) (host_of : Text → Option Text) (s : Store) (ws : List Window)
    (token origin : Text) (now_ms : ℕ) (o : Option Claims) (t : Store) (g : Grant)
    → verify_own_token env.crypto env.config token ≡ o
    → pos 0 ≤ℤ env.now
    → (answered env c host_of s ws origin now_ms o).1 ≡ ok (t, g)
    → Granted env c s ws token now_ms t g
answered-Granted env c host_of s ws token origin now_ms none t g v h e = cc
answered-Granted env c host_of s ws token origin now_ms (some claims) t g v h e =
    let (l, passed, allowed, minted) =
      limited_lem env c s ws claims now_ms (gate env host_of s claims origin) e in
    let p = of_ok (gate-Ensures env host_of s claims origin) passed in
    record {
      claims = claims;
      old = l;
      verified = v;
      found = p.found;
      live = p.live;
      in_term = p.in_term;
      allowed = allowed;
      rolled = of_ok (remint-Ensures env s claims l h p.in_term) minted;
    }

-- A refresh that is granted was asked for with a token that verifies, for a row that is live, in its
-- paid term and within its rate limit. It rolls the token of that row alone: the licence id, the
-- sale, the domains and the term stay, the new token starts now and ends by the boundary of the
-- term, and a reminder of its end is sent only if none is marked on the row, and is marked then.
pub refresh_rolls :
    (env : Env) (c : Limits) (host_of : Text → Option Text) (s : Store) (ws : List Window)
    (token origin : Text) (now_ms : ℕ) {t : Store} {g : Grant}
    → pos 0 ≤ℤ env.now
    → (refresh env c host_of s ws token origin now_ms).1 ≡ ok (t, g)
    → Granted env c s ws token now_ms t g
unfolding refresh
refresh_rolls env c host_of s ws token origin now_ms {t} {g} h e =
    answered-Granted env c host_of s ws token origin now_ms _ t g refl h e
