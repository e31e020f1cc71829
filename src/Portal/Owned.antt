-- ===== src/Portal/Owned.antt =====
-- Whose licences src/portal/portal-license.service.ts shows and replaces.
use open_editor_text_backend.Base.{
  true, false, not, Option, some, Text, text_eq, text_beq_iff, is_empty, ◌≡◌, inl, inr, refl,
  Option-cases, ok, err, ◌>>=◌, Ensures, returns, throws, after, of_ok, weaken, guard-eq-ok,
  not_found, or_throw-eq-ok,
}
use open_editor_text_backend.Base.Int.{ℤ, pos, ◌≤ℤ◌}
use open_editor_text_backend.Durations.{is_term_active, effective_renew_until}
use open_editor_text_backend.Licenses.{
  Package, License, Store, Env, find_license, package_of, effective_status,
}
use open_editor_text_backend.Licenses.Reissue.{term_input}
use open_editor_text_backend.Licenses.Replacement.{Replaced, replace-Ensures}
use open_editor_text_backend.Licenses.Regenerated.{boundary_kept}
use open_editor_text_backend.Portal.{
  View, to_view, is_active, is_owned, owned_or_throw, reveal_token, regenerate_owned,
  regenerate_for_customer,
}

-- A row of the tables that is the customer's.
pub record Owned (s : Store) (customer id : Text) (l : License) : Type 0 where
  pub found : find_license s id ≡ some l
  pub owned : l.customer ≡ customer

owned_or_throw-Ensures :
    (s : Store) (customer id : Text) → Ensures (Owned s customer id) (owned_or_throw s customer id)
unfolding owned_or_throw
owned_or_throw-Ensures s customer id = after λ _ mine. elim (Option-cases (find_license s id)) [
  | inl e ↦ rw e throws
  | inr (l, e) ↦ rw e (
      returns record {
        found = e;
        owned = (text_beq_iff l.customer customer).0 (rw e at (guard-eq-ok _ _ mine));
      })
]

pub record Revealed (s : Store) (now : ℤ) (customer id : Text) (v : View) (token : Text)
    : Type 0 where
  pub row : License
  pub mine : Owned s customer id row
  pub live : is_active (effective_status row now) ≡ true
  pub shown : (v ≡ to_view row now) × (token ≡ row.token)

reveal_token-Ensures :
    (s : Store) (now : ℤ) (customer id : Text)
    → Ensures
        (λ (r : View × Text). Revealed s now customer id r.0 r.1)
        (reveal_token s now customer id)
unfolding reveal_token
reveal_token-Ensures s now customer id = after λ l e. after λ _ live. returns record {
  row = l;
  mine = of_ok (owned_or_throw-Ensures s customer id) e;
  live = guard-eq-ok _ _ live;
  shown = (refl, refl);
}

-- The portal reveals a key only to the customer of its licence, while that is neither revoked nor
-- expired.
pub reveal_token_reveals :
    (s : Store) (now : ℤ) (customer id : Text) {v : View} {token : Text}
    → reveal_token s now customer id ≡ ok (v, token)
    → Revealed s now customer id v token
reveal_token_reveals s now customer id e = of_ok (reveal_token-Ensures s now customer id) e

-- What a regeneration from the portal did.
pub record PortalRegenerated (env : Env) (s : Store) (customer id : Text) (t : Store) (l : License)
    : Type 0 where
  pub old : License
  pub mine : Owned s customer id old
  pub in_term : is_term_active (term_input old (package_of s old)) env.now ≡ true
  pub replaced : Replaced env s old (package_of s old) t l
  pub same_term :
      (q : Option Package)
      → effective_renew_until (term_input l q)
        ≡ effective_renew_until (term_input old (package_of s old))

regenerate_owned-Ensures :
    (env : Env) (s : Store) (customer id : Text)
    → pos 0 ≤ℤ env.now
    → Ensures
        (λ (r : Store × License). PortalRegenerated env s customer id r.0 r.1)
        (regenerate_owned env s customer id)
unfolding regenerate_owned
regenerate_owned-Ensures env s customer id h = after λ old found. after λ _ mine. after λ _ live.
    let in_term = guard-eq-ok _ _ live in
    weaken
      (λ r w. record {
        old = old;
        mine = record {
          found = or_throw-eq-ok _ _ found;
          owned = (text_beq_iff old.customer customer).0 (guard-eq-ok _ _ mine);
        };
        in_term = in_term;
        replaced = w;
        same_term = boundary_kept env s old (package_of s old) r.0 r.1 h in_term w;
      })
      (replace-Ensures env s old (package_of s old) h in_term old.domains
        (not (is_empty old.domains)))

-- The answer to a regeneration shows the new row and its key.
pub record Answered (env : Env) (l : License) (v : View) (key : Text) : Type 0 where
  pub view : v ≡ to_view l env.now
  pub token : key ≡ l.token

regenerate_for_customer-Ensures :
    (env : Env) (seen s : Store) (customer id : Text)
    → pos 0 ≤ℤ env.now
    → Ensures
        (λ (r : Store × (License × (View × Text))).
          PortalRegenerated env s customer id r.0 r.1.0 × Answered env r.1.0 r.1.1.0 r.1.1.1)
        (regenerate_for_customer env seen s customer id)
unfolding regenerate_for_customer
regenerate_for_customer-Ensures env seen s customer id h = after λ _ _. after λ r e.
    returns
      (of_ok (regenerate_owned-Ensures env s customer id h) e, record { view = refl; token = refl })

-- A customer who regenerates a licence replaces one of its own rows, in its paid term: the old row is
-- revoked and stays, a live row with a new licence stands for the same customer, plan, price and
-- features, no other row has changed, the paid term ends when it did before, and the answer shows
-- the new row and its key.
pub regenerate_for_customer_replaces :
    (env : Env) (seen s : Store) (customer id : Text) {t : Store} {l : License} {v : View}
    {token : Text}
    → pos 0 ≤ℤ env.now
    → regenerate_for_customer env seen s customer id ≡ ok (t, (l, (v, token)))
    → PortalRegenerated env s customer id t l × Answered env l v token
regenerate_for_customer_replaces env seen s customer id h e =
    of_ok (regenerate_for_customer-Ensures env seen s customer id h) e

hidden :
    (s : Store) (customer id : Text)
    → is_owned customer (find_license s id) ≡ false
    → owned_or_throw s customer id ≡ err not_found
unfolding owned_or_throw ◌>>=◌
hidden s customer id h = rw h refl

-- To a customer, a licence of another customer and a missing one look the same: both calls answer
-- that there is none, whatever else is in the tables.
pub foreign_hidden :
    (env : Env) (seen s : Store) (customer id : Text)
    → is_owned customer (find_license seen id) ≡ false
    → (reveal_token seen env.now customer id ≡ err not_found)
      × (regenerate_for_customer env seen s customer id ≡ err not_found)
unfolding reveal_token regenerate_for_customer ◌>>=◌
foreign_hidden env seen s customer id h = rw (hidden seen customer id h) (refl, refl)
