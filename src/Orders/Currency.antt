-- ===== src/Orders/Currency.antt =====
-- Whether the payment that src/billing/stripe.service.ts asks for is accepted by
-- src/billing/order.service.ts.
use open_editor_text_backend.Base.{
  true, some, text, text_eq, text_beq_iff, ◌≡◌, sym, arith, lower, ◌↔◌,
}
use open_editor_text_backend.Base.Int.{ℤ, ℤ_beq}
use open_editor_text_backend.Orders.{Order}
use open_editor_text_backend.Orders.Fulfil.{Payment, amount_matches}
use open_editor_text_backend.Orders.Webhook.{checkout_request}

ℤ_beq_refl : (a : ℤ) → ℤ_beq a a ≡ true
ℤ_beq_refl a = ground arith

-- A payment of the amount and in the currency that the checkout asked Stripe for is accepted for the
-- order exactly when the order's own currency is the US dollar, up to letter case.
pub checkout_payment_matches_iff :
    (p : Payment) (o : Order)
    → p.amount_paid_cents ≡ some (checkout_request o).unit_amount
    → p.currency_paid ≡ (checkout_request o).currency
    → (amount_matches p o ≡ true) ↔ (lower o.currency ≡ text "usd")
unfolding amount_matches checkout_request
checkout_payment_matches_iff p o amount currency =
    rw (amount, currency, ℤ_beq_refl o.amount_cents)
      (
        λ h. sym ((text_beq_iff (text "usd") (lower o.currency)).0 h),
        λ e. (text_beq_iff (text "usd") (lower o.currency)).1 (sym e),
      )
