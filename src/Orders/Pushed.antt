-- ===== src/Orders/Pushed.antt =====
-- A sale of src/billing/order.service.ts reaches the editor that waits for it on the stream of
-- src/delivery/session.controller.ts.
use open_editor_text_backend.Base.{
  ℕ, Bool, true, false, List, [], ◌∷◌, some, Text, text_eq, text_beq, text_beq_iff, is_empty, ◌≡◌,
  refl, ap, sym, ◌∙◌, arith, Result, ok, includes, includes-cons, includes-append, trim,
}
use open_editor_text_backend.Licenses.{License}
use open_editor_text_backend.Orders.{Order, Shop}
use open_editor_text_backend.Orders.Fulfil.{
  Payment, Call, Outcome, announce, fulfill_from_event, fulfilled_order,
}
use open_editor_text_backend.Orders.Retries.{Mintable, fulfil_sells}
use open_editor_text_backend.Events.{Channel, Reason, purchased}
use open_editor_text_backend.Events.Bounded.{Calls}
use open_editor_text_backend.Events.Stream.{
  streaming, open_stream, Stays, Served, open_stream_hears, open_stream_key, open_stream-IsOpen,
}

-- The order is answered as sold, its channel is published on, and the listener is told.
pub record Told (r : Shop × Result Outcome) (p : Payment) (o : Order) (l : License)
    (fails : ℕ → Reason → Bool) (channels : List Channel) (listener : ℕ) (key : Text) : Type 0 where
  pub sold : r.1 ≡ ok (record { order = some (fulfilled_order p o l); retry = false })
  pub published_on : includes o.install_id r.0.pushed ≡ true
  pub served : Served channels key listener fails o.install_id purchased

announced :
    (call : Call) (s : Shop) (o : Order) (l : License)
    → is_empty o.install_id ≡ false
    → includes o.install_id (announce call s o l).pushed ≡ true
unfolding announce
announced call s o l named =
    let here : text_beq o.install_id o.install_id ≡ true =
      (text_beq_iff o.install_id o.install_id).1 refl in
    rw (includes-append, includes-append, named, includes-cons, here) (ground arith)

nonblank : (id : Text) → is_empty (trim id) ≡ false → is_empty id ≡ false
unfolding trim
nonblank [] e = cc
nonblank (c ∷ id) e = refl

-- An editor that holds a stream open under its install id when a purchase of that browser is paid is
-- told of it: the order is answered as sold, the fulfilment publishes on the install id, and the
-- publication reaches the editor, whatever other streams were opened, closed or broken before; closing
-- the stream ends the wait of this editor alone. (Where a mint can go through, and as long as the
-- connection of the editor does not break.)
pub sale_reaches_editor :
    (call : Call) (s : Shop) (p : Payment) (o : Order) (l : License)
    → Mintable call s p o l
    → (channels : List Channel) (listener : ℕ) {joined t : List Channel} {key : Text}
    → open_stream channels [] o.install_id listener ≡ (joined, streaming key)
    → (calls : Calls joined t) → Stays key listener calls
    → (fails : ℕ → Reason → Bool) → fails listener purchased ≡ false
    → Told (fulfill_from_event call s p) p o l fails t listener key
sale_reaches_editor call s p o l m channels listener {joined} {t} {key} h calls stays fails alive =
    let is_key : key ≡ trim o.install_id = open_stream_key channels [] o.install_id listener h in
    let named : is_empty o.install_id ≡ false = nonblank o.install_id (
      ap (λ k. is_empty k) (sym is_key)
      ∙ (open_stream-IsOpen channels [] o.install_id listener h).named) in
    rw (fulfil_sells call s p o l m) (record {
      sold = refl;
      published_on = announced call _ o l named;
      served =
          open_stream_hears channels [] o.install_id listener h calls stays fails o.install_id
            purchased (sym is_key) alive;
    })
