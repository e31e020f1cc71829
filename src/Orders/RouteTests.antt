-- ===== src/Orders/RouteTests.antt =====
-- Runs of the routes of src/billing and of the hand-over of a key, and theorems at inputs.
use open_editor_text_backend.Base.{
  true, List, [], ◌∷◌, none, some, text, text_eq, text_beq, ◌≡◌, ◌≢◌, refl, ap, arith, ok, err,
  bad_request, length, if◌then◌else◌,
}
use open_editor_text_backend.Base.Int.{pos}
use open_editor_text_backend.Licenses.{License}
use open_editor_text_backend.Orders.{Order}
use open_editor_text_backend.Orders.Fulfil.{judge, settle, fulfill_from_event, fulfilled_order}
use open_editor_text_backend.Orders.Keys.{claim_delivery}
use open_editor_text_backend.Orders.Webhook.{Stripe, StripeEvent, Session, webhook, force_fulfill}
use open_editor_text_backend.Orders.Single.{Page, give}
use open_editor_text_backend.Orders.Signed.{SignedSale, webhook_sells_signed}
use open_editor_text_backend.Orders.Samples.{
  later_call, row_of_sale, run, empty_shop, order, open_shop, payment, first_call,
}

abbrev session : Session
session = record {
  id = text "cs";
  payment_status = text "paid";
  amount_total = some (pos 900);
  currency = text "usd";
  metadata_order_id = text "o1";
  client_reference_id = [];
}

abbrev event : StripeEvent
event = record { id = text "e1"; kind = text "checkout.session.completed"; session = session }

-- A stand-in for Stripe's client that takes one signature.
abbrev stripe : Stripe
stripe = record {
  enabled = true;
  construct_event = λ raw signature. if text_beq signature (text "good") then some event else none;
  retrieve_session = λ id. ok session;
  create_checkout_session = λ r. ok session;
}

webhook_mints :
    length (webhook stripe first_call open_shop (some (text "raw")) (text "good")).0.store.licenses
    ≡ 1
unfolding run
webhook_mints = refl

webhook_refuses :
    webhook stripe first_call open_shop (some (text "raw")) (text "bad")
    ≡ (open_shop, err bad_request)
unfolding run
webhook_refuses = refl

grew : (ls : List License) → length ls ≡ 1 → ls ≢ []
grew ls n h = let m : length ls ≡ 0 = ap (λ xs. length xs) h in omega (arith, n, m)

webhook_sells_signed_example : SignedSale stripe first_call open_shop (text "raw") (text "good")
webhook_sells_signed_example =
    webhook_sells_signed stripe first_call open_shop (text "raw") (text "good") (
      grew (webhook stripe first_call open_shop (some (text "raw")) (text "good")).0.store.licenses
        webhook_mints)

force_mints : length (force_fulfill stripe first_call open_shop (text "o1")).0.store.licenses ≡ 1
unfolding run
force_mints = refl

-- A late webhook after a forced fulfilment mints a second licence for the order.
late_webhook :
    length
      (webhook stripe later_call
        (force_fulfill stripe first_call open_shop (text "o1")).0
        (some (text "raw"))
        (text "good")).0.store.licenses
    ≡ 2
unfolding run
late_webhook = refl

abbrev opened : Page
opened = record { shop = empty_shop; reads = []; given = []; in_flight = []; late = [] }

abbrev ordered : Page
ordered = record opened { shop = open_shop }

abbrev bought : Page
bought = record ordered { shop = (fulfill_from_event first_call open_shop (payment (text "e1"))).0 }

abbrev bought_order : Order
bought_order = fulfilled_order (payment (text "e1")) order (row_of_sale (text "r1"))

abbrev looked : Page
looked = record bought { reads = (bought_order, row_of_sale (text "r1")) ∷ [] }

abbrev got : Page
got = record looked {
  shop = record looked.shop { orders = (claim_delivery looked.shop.orders bought_order.id).0 };
  reads = [];
  given = give bought_order (claim_delivery looked.shop.orders bought_order.id).1 [];
}

given_once : got.given ≡ text "o1" ∷ []
unfolding run
given_once = refl

-- A delivery that read the order before the key was taken, and saves it afterwards, takes the mark off:
-- the key can be taken again.
taken_again :
    (claim_delivery
      (settle later_call got.shop
        (payment (text "e2"))
        (judge bought.shop (payment (text "e2")))).0.orders
      (text "o1")).1
    ≡ 1
unfolding run
taken_again = refl
