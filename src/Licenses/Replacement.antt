-- ===== src/Licenses/Replacement.antt =====
-- `regenerate` and `regenerateWithDomains` of src/licensing/license.service.ts replace a credential.
use open_editor_text_backend.Base.{
  Bool, true, Option, none, some, ◌≡◌, ◌⊎◌, inl, inr, refl, ap, sym, ◌∙◌, arith, Text, text_beq,
  text_beq_iff, text_eq, Ensures, after, weaken, of_ok, List, [], ◌∷◌, dedup, if◌then◌else◌, find,
  Bool-cases,
}
use open_editor_text_backend.Base.Int.{ℤ, pos, ◌+ℤ◌, ◌-ℤ◌, ◌≤ℤ◌, ◌<ℤ◌}
use open_editor_text_backend.Durations.{
  Number, at, infinity, before, effective_renew_until, is_term_active, infinite_term,
  carried_renew_until_for, clamp_ttl_to_term, storable,
}
use open_editor_text_backend.Durations.Term.{active_lem, carried_lem}
use open_editor_text_backend.Licenses.{
  active, revoked, Customer, Package, License, Store, Env, find_license,
}
use open_editor_text_backend.Licenses.Issue.{snapshot_term, carried_term}
use open_editor_text_backend.Licenses.Expiry.{clamped_expiry}
use open_editor_text_backend.Licenses.Issuing.{Minted, issue_from_snapshot-Ensures}
use open_editor_text_backend.Licenses.Rows.{Wrote, save-Ensures, find_license-Wrote}
use open_editor_text_backend.Licenses.Reissue.{term_input, plan_of, replacement_input, replace}

find_customer_id :
    (cs : List Customer) (id : Text) (c : Customer)
    → find (λ x. text_beq x.id id) cs ≡ some c
    → c.id ≡ id
find_customer_id [] id c h = cc
find_customer_id (x ∷ xs) id c h = ground (arith, find_customer_id xs id c, text_beq_iff x.id id)

text_beq_self : (t : Text) → text_beq t t ≡ true
text_beq_self t = (text_beq_iff t t).1 refl

-- What a replacement of the row `old` leaves in the tables.
pub record Replaced (env : Env) (s : Store) (old : License) (p : Option Package) (t : Store)
    (l : License) : Type 0 where
  -- The new row is live, and is the one stored under its id.
  pub live : l.status ≡ active
  pub stored : find_license t l.id ≡ some l
  pub new_id : l.id ≡ env.row_id
  -- It is the same sale: customer, plan, price and features.
  pub customer : l.customer ≡ old.customer
  pub plan : l.plan_name ≡ plan_of old p
  pub price : (l.plan_price_cents ≡ old.plan_price_cents) × (l.plan_currency ≡ old.plan_currency)
  pub features : l.features ≡ dedup old.features
  -- The stored term is the carried one; the token expires with it, or later by no more than the time
  -- between the service's reading of the clock and the signer's.
  pub term : l.renew_until ≡ carried_renew_until_for (term_input old p)
  pub expiry :
      (l.renew_until ≡ infinite_term) ⊎ (l.expires_at ≤ℤ l.renew_until +ℤ (env.sign_now -ℤ env.now))
  -- The sharing flag is carried over.
  pub flag : (l.flagged_at ≡ old.flagged_at) × (l.flag_reason ≡ old.flag_reason)
  -- The old row stands, revoked, unless the new one took its id; no other row has changed.
  pub others :
      (id : Text)
      → (id ≡ env.row_id)
        ⊎ (find_license t id ≡ (
            if text_beq old.id id
            then some (record old { status = revoked })
            else find_license s id))

-- A boundary that lies in the future, as it is stored.
storable_future :
    (n : Number) (now : ℤ)
    → pos 0 ≤ℤ now
    → before now n ≡ true
    → (storable n ≡ infinite_term) ⊎ ((pos 0 <ℤ storable n) × (now <ℤ storable n))
storable_future infinity now p h = inl refl
storable_future (at n) now p h = inr (ground arith, ground arith)

carried_future :
    (env : Env) (old : License) (p : Option Package)
    → pos 0 ≤ℤ env.now
    → is_term_active (term_input old p) env.now ≡ true
    → (carried_renew_until_for (term_input old p) ≡ infinite_term)
      ⊎ ((pos 0 <ℤ carried_renew_until_for (term_input old p))
          × (env.now <ℤ carried_renew_until_for (term_input old p)))
carried_future env old p h active_term = rw (carried_lem (term_input old p)) (
    storable_future (effective_renew_until (term_input old p)) env.now h
      (sym (active_lem (term_input old p) env.now) ∙ active_term))

carried_term-keeps : (n d : ℤ) → (n ≡ infinite_term) ⊎ (pos 0 <ℤ n) → carried_term (some n) d ≡ n
carried_term-keeps n d (inl e) = rw e
carried_term-keeps n d (inr h) = ground arith

module _ (env : Env) (s : Store) (old : License) (p : Option Package)
    (after_epoch : pos 0 ≤ℤ env.now)
    (in_term : is_term_active (term_input old p) env.now ≡ true) where
  abbrev carried : ℤ
  carried = carried_renew_until_for (term_input old p)

  kept_term :
      (domains : List Text) (bound : Bool)
      → snapshot_term env (replacement_input old p domains bound) ≡ carried
  kept_term domains bound =
      carried_term-keeps carried _
        (elim (carried_future env old p after_epoch in_term) [ inl e ↦ inl e | inr h ↦ inr h.0 ])

  Minted-expiry :
      (domains : List Text) (bound : Bool) (s' t : Store) (l : License)
      → Minted env s' (replacement_input old p domains bound) t l
      → (l.renew_until ≡ carried)
        × ((l.renew_until ≡ infinite_term)
            ⊎ (l.expires_at ≤ℤ l.renew_until +ℤ (env.sign_now -ℤ env.now)))
  Minted-expiry domains bound s' t l m =
      let term : l.renew_until ≡ carried =
        ap (λ z. z.renew_until) m.row ∙ kept_term domains bound in
      (
        term,
        elim (carried_future env old p after_epoch in_term) [
          | inl e ↦ inl (term ∙ e)
          | inr (positive, later) ↦ inr (
              rw (term, ap (λ z. z.expires_at) m.row)
                (clamped_expiry env _ none carried positive later refl
                  (ap (λ n. clamp_ttl_to_term none (at n) env.now) (kept_term domains bound))
                  m.minted).1)
        ],
      )

  pub replace-Ensures :
      (domains : List Text) (bound : Bool)
      → Ensures
          (λ (r : Store × License). Replaced env s old p r.0 r.1)
          (replace env s old p domains bound)
  unfolding replace
  replace-Ensures domains bound = after λ r e.
      weaken
        (λ q m.
          replaced r.0 q.0 q.1 (of_ok (save-Ensures s (record old { status = revoked })) e).0 m)
        (issue_from_snapshot-Ensures env r.0 (replacement_input old p domains bound))
    where
      other_row :
          (s' t : Store) (l : License)
          → Wrote s (record old { status = revoked }) s'
          → Wrote s' l t
          → l.id ≡ env.row_id
          → (id : Text)
          → (id ≡ env.row_id)
            ⊎ (find_license t id ≡ (
                if text_beq old.id id
                then some (record old { status = revoked })
                else find_license s id))
      other_row s' t l w w' e id = elim (Bool-cases (text_beq l.id id)) [
        | inl same ↦ inl (sym ((text_beq_iff l.id id).0 same) ∙ e)
        | inr differs ↦ inr (find_license-Wrote w' id ∙ rw differs (find_license-Wrote w id))
      ]

      replaced :
          (s' t : Store) (l : License)
          → Wrote s (record old { status = revoked }) s'
          → Minted env s' (replacement_input old p domains bound) t l
          → Replaced env s old p t l
      replaced s' t l w m = record {
        live = ap (λ z. z.status) m.row;
        stored = find_license-Wrote m.wrote l.id ∙ rw (text_beq_self l.id);
        new_id = ap (λ z. z.id) m.row;
        customer =
            ap (λ z. z.customer) m.row
            ∙ find_customer_id s'.customers old.customer m.customer m.known_customer;
        plan = ap (λ z. z.plan_name) m.row;
        price = (ap (λ z. z.plan_price_cents) m.row, ap (λ z. z.plan_currency) m.row);
        features = ap (λ z. z.features) m.row;
        term = (Minted-expiry domains bound s' t l m).0;
        expiry = (Minted-expiry domains bound s' t l m).1;
        flag = (ap (λ z. z.flagged_at) m.row, ap (λ z. z.flag_reason) m.row);
        others = other_row s' t l w m.wrote (ap (λ z. z.id) m.row);
      }
