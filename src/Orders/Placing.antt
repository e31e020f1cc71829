-- ===== src/Orders/Placing.antt =====
-- What the start of a purchase in src/billing/order.service.ts checks and writes.
use open_editor_text_backend.Base.{
  true, false, ◌&&◌, ◌∷◌, some, Text, text_eq, text_beq, is_empty, ◌≡◌, refl, arith, not-true, ok,
  Ensures, returns, after, of_ok, guard-eq-ok, update, All, or_throw-eq-ok, &&_split, lower, trim,
}
use open_editor_text_backend.Base.Int.{pos, ◌<ℤ◌}
use open_editor_text_backend.Domains.{normalize_domains}
use open_editor_text_backend.Domains.Acceptance.{IsAcceptable}
use open_editor_text_backend.Licenses.{Package, find_package}
use open_editor_text_backend.Licenses.Checks.{acceptable_lem}
use open_editor_text_backend.Orders.{
  Order, Shop, Drawn, CheckoutInput, prepare_order, attach_session, new_order, session_taken,
}

-- What a purchase that is started has checked and written.
pub record Placed (drawn : Drawn) (s : Shop) (input : CheckoutInput) (t : Shop) (o : Order)
    : Type 0 where
  pub package_row : Package
  pub known_package : find_package s.store input.package_id ≡ some package_row
  pub on_sale : (package_row.active ≡ true) × (package_row.publicly_listed ≡ true)
  pub positive : pos 0 <ℤ package_row.price_cents
  pub named : is_empty o.customer_email ≡ false
  pub bound : (package_row.domain_bound && is_empty o.domains) ≡ false
  pub acceptable : All IsAcceptable o.domains
  pub free : session_taken s.orders o.id o.session_id ≡ false
  pub order :
      o
      ≡ new_order drawn input
          (trim (lower input.email))
          package_row
          (normalize_domains input.domains)
  pub shop : t ≡ record s { orders = o ∷ s.orders }
  pub licenses : t.store.licenses ≡ s.store.licenses
  pub processed : t.processed ≡ s.processed

pub prepare_order-Ensures :
    (drawn : Drawn) (s : Shop) (input : CheckoutInput)
    → Ensures (λ (r : Shop × Order). Placed drawn s input r.0 r.1) (prepare_order drawn s input)
unfolding prepare_order
prepare_order-Ensures drawn s input = after λ _ named. after λ p ep. after λ _ live.
    after λ _ priced. after λ _ bound. after λ _ fine. after λ _ free. returns record {
      package_row = p;
      known_package = or_throw-eq-ok _ _ ep;
      on_sale = &&_split _ _ (guard-eq-ok _ _ live);
      positive = ground (arith, guard-eq-ok _ _ priced);
      named = not-true _ (guard-eq-ok _ _ named);
      bound = not-true _ (guard-eq-ok _ _ bound);
      acceptable = acceptable_lem _ fine;
      free = not-true _ (guard-eq-ok _ _ free);
      order = refl;
      shop = refl;
      licenses = refl;
      processed = refl;
    }

-- A purchase that is started adds one pending order without a licence, priced by the package of
-- the tables, which is active, publicly listed and not free, for acceptable domains, at least one
-- where the package is bound to domains; nothing else changes.
pub prepare_order_places :
    (drawn : Drawn) (s : Shop) (input : CheckoutInput) {t : Shop} {o : Order}
    → prepare_order drawn s input ≡ ok (t, o)
    → Placed drawn s input t o
prepare_order_places drawn s input e = of_ok (prepare_order-Ensures drawn s input) e

-- What attaching a session keeps.
pub record Attached (s : Shop) (id session : Text) (t : Shop) : Type 0 where
  pub free : session_taken s.orders id session ≡ false
  pub shop : t ≡ record s {
    orders = update (λ o. text_beq o.id id) (λ o. record o { session_id = session }) s.orders;
  }
  pub licenses : t.store.licenses ≡ s.store.licenses
  pub processed : t.processed ≡ s.processed

pub attach_session-Ensures :
    (s : Shop) (id session : Text) → Ensures (Attached s id session) (attach_session s id session)
unfolding attach_session
attach_session-Ensures s id session = after λ _ free. returns record {
  free = not-true _ (guard-eq-ok _ _ free);
  shop = refl;
  licenses = refl;
  processed = refl;
}
