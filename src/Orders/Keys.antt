-- ===== src/Orders/Keys.antt =====
-- The ways in which a key reaches its buyer in src/billing/order.service.ts: the success page, the
-- resent email and the rebind; and the list of orders with the mark of a stale one.
use open_editor_text_backend.Base.{
  ℕ, zero, suc, Bool, true, false, not, ◌&&◌, ◌||◌, List, [], ◌∷◌, Option, none, some, Text, text,
  text_eq, text_beq, is_empty, Result, ok, guard, ◌>>=◌, bad_request, not_found, keep, count,
  update, if◌then◌else◌, includes, or_throw, ◌>>◌, ltb, lower, trim, ◌*◌, starts_with, map,
}
use open_editor_text_backend.Base.Int.{ℤ, pos, ltb_ℤ, ◌-ℤ◌}
use open_editor_text_backend.Licenses.{
  Store, License, Env, Status, active, find_customer, find_license, effective_status, Customer,
}
use open_editor_text_backend.Licenses.Reissue.{regenerate_with_domains}
use open_editor_text_backend.Orders.{
  Order, OrderStatus, Mail, Shop, is_fulfilled, is_pending, find_by_session, pending, fulfilled,
  failed, lapsed,
}

-- The joined licence of an order; none when it was deleted.
abbrev pub license_of : Store → Order → Option License
license_of s o = elim o.license [ none ↦ none | some id ↦ find_license s id ]

pub record Delivery : Type 0 where
  pub plan_name : Text
  pub license_key : Text
  pub features : List Text
  pub domains : List Text

-- The answers of `retrieveLicenseOnce`.
pub data Answer : Type 0 where
  unknown : Answer
  unfinished : OrderStatus → Answer
  delivered : Answer
  handing : Delivery → Answer

-- What the read of `retrieveLicenseOnce` finds: an answer, or an order with its licence.
pub data Read : Type 0 where
  answered : Answer → Read
  ready : Order → License → Read

abbrev pub read_license : Order → Option License → Read
read_license o none = answered (unfinished o.status)
read_license o (some l) =
    if is_fulfilled o.status then ready o l else answered (unfinished o.status)

abbrev pub read_order : Store → Option Order → Read
read_order s none = answered unknown
read_order s (some o) = read_license o (license_of s o)

unfoldable pub read_session : Shop → Text → Read
read_session s session = read_order s.store (find_by_session s.orders session)

-- The conditional update that claims the delivery of an order, and how many rows it affected.
abbrev pub is_claimable : Text → Order → Bool
is_claimable id o = text_beq o.id id && not o.license_delivered

unfoldable pub claim_delivery : List Order → Text → List Order × ℕ
claim_delivery orders id = (
  update (is_claimable id) (λ o. record o { license_delivered = true }) orders,
  count (is_claimable id) orders,
)

abbrev pub handed_key : Order → License → ℕ → Answer
handed_key o l zero = delivered
handed_key o l (suc n) = handing record {
  plan_name = o.package_name;
  license_key = l.token;
  features = l.features;
  domains = l.domains;
}

-- What follows the read.
abbrev pub hand_over : Shop → Read → Shop × Answer
hand_over s (answered a) = (s, a)
hand_over s (ready o l) = (
  record s { orders = (claim_delivery s.orders o.id).0 },
  handed_key o l (claim_delivery s.orders o.id).1,
)

-- `retrieveLicenseOnce`, when nothing comes between its read and its update.
unfoldable pub retrieve_license_once : Shop → Text → Shop × Answer
retrieve_license_once s session = hand_over s (read_session s session)

abbrev is_active : Status → Bool
is_active active = true
is_active _ = false

abbrev plan_or : Text → Text
plan_or name = if is_empty name then text "your" else name

abbrev key_mail : Customer → License → Mail
key_mail c l = record {
  to = c.email;
  customer_name = c.name;
  plan_name = plan_or l.plan_name;
  license_key = l.token;
}

-- What resending returns: whether the transport took the email, and to whom it went.
pub record Sending : Type 0 where
  pub accepted : Bool
  pub to : Text

-- `resendLicenseEmail`, with the clock and what the email's transport answers. The licence keeps its
-- customer, whose deletion deletes it.
unfoldable pub resend_license_email :
    (transport : Mail → Bool) → ℤ → Shop → Text → Result (Shop × Sending)
resend_license_email transport now s id = do
  l ← or_throw (find_license s.store id) not_found
  guard (is_active (effective_status l now)) bad_request
  c ← or_throw (find_customer s.store l.customer) bad_request
  guard (not (is_empty c.email)) bad_request
  let mail = key_mail c l
  ok (record s { outbox = mail ∷ s.outbox }, record { accepted = transport mail; to = c.email })

pub record Rebound : Type 0 where
  pub license_id : Text
  pub accepted : Bool
  pub to : Text
  pub license_key : Option Text

-- The answer of a rebind, once the licence is replaced: the key is in it only if no email took it.
abbrev sent : (Mail → Bool) → Shop → License → Option Customer → Shop × Rebound
sent transport s l none =
    (s, record { license_id = l.id; accepted = false; to = []; license_key = some l.token })
sent transport s l (some c) =
    if is_empty c.email
    then (s, record { license_id = l.id; accepted = false; to = []; license_key = some l.token })
    else (
      record s { outbox = key_mail c l ∷ s.outbox },
      record {
        license_id = l.id;
        accepted = transport (key_mail c l);
        to = c.email;
        license_key = if transport (key_mail c l) then none else some l.token;
      },
    )

-- `rebindLicenseDomains`.
unfoldable pub rebind_license_domains :
    (transport : Mail → Bool) → Env → Shop → Text → List Text → Result (Shop × Rebound)
rebind_license_domains transport env s id domains = do
  (store, l) ← regenerate_with_domains env s.store id domains
  ok (sent transport (record s { store = store }) l (find_customer store l.customer))

-- `STALE_PENDING_MS`.
abbrev stale_pending : ℤ
stale_pending = pos (30 * 60 * 1000)

-- `isStalePending`; an unreadable time of creation is none.
unfoldable pub is_stale_pending : OrderStatus → Option ℕ → ℤ → Bool
is_stale_pending status created_at now =
    if not (is_pending status)
    then false
    else elim created_at [ none ↦ true | some ms ↦ ltb_ℤ stale_pending (now -ℤ pos ms) ]

-- A row of `listOrders`.
pub record Listed : Type 0 where
  pub id : Text
  pub status : OrderStatus
  pub package_name : Text
  pub amount_cents : ℤ
  pub currency : Text
  pub customer_email : Text
  pub customer_name : Text
  pub domains : List Text
  pub license_id : Option Text
  pub license_delivered : Bool
  pub created_at : ℕ
  pub stale_pending : Bool

abbrev listed_license : Option License → Option Text
listed_license none = none
listed_license (some l) = some l.id

abbrev listed : Store → ℤ → Order → Listed
listed s now o = record {
  id = o.id;
  status = o.status;
  package_name = o.package_name;
  amount_cents = o.amount_cents;
  currency = o.currency;
  customer_email = o.customer_email;
  customer_name = o.customer_name;
  domains = o.domains;
  license_id = listed_license (license_of s o);
  license_delivered = o.license_delivered;
  created_at = o.created_at;
  stale_pending = is_stale_pending o.status (some o.created_at) now;
}

-- `LIKE '%term%'` with its wildcards escaped.
abbrev pub contains : Text → Text → Bool
contains [] term = is_empty term
contains (c ∷ s) term = starts_with (c ∷ s) term || contains s term

abbrev status_names : List Text
status_names = text "pending" ∷ text "fulfilled" ∷ text "failed" ∷ text "expired" ∷ []

abbrev status_name : OrderStatus → Text
status_name pending = text "pending"
status_name fulfilled = text "fulfilled"
status_name failed = text "failed"
status_name lapsed = text "expired"

abbrev is_listed : Text → Text → Order → Bool
is_listed term status o =
    (is_empty term
      || contains (lower o.customer_email) (lower term)
      || contains (lower o.customer_name) (lower term))
    && (not (includes status status_names) || text_beq (status_name o.status) status)

-- Newest first.
abbrev newer_first : Order → List Order → List Order
newer_first o [] = o ∷ []
newer_first o (x ∷ xs) = if ltb o.created_at x.created_at then x ∷ newer_first o xs else o ∷ x ∷ xs

abbrev newest_first : List Order → List Order
newest_first [] = []
newest_first (o ∷ os) = newer_first o (newest_first os)

-- `listOrders`; a missing search or status is the empty text.
unfoldable pub list_orders : Shop → Text → Text → ℤ → List Listed
unfolding is_stale_pending
list_orders s q status now =
    map (listed s.store now) (newest_first (keep (is_listed (trim q) status) s.orders))
