-- ===== src/Licenses/Delivery.antt =====
-- `setDelivery` of src/licensing/license.service.ts, and what it may change.
use open_editor_text_backend.Base.{
  true, not, ◌||◌, List, [], ◌∷◌, Option, none, some, ◌≡◌, ◌≢◌, ◌⊎◌, inl, inr, refl, sym, ◌∙◌, Text,
  text, text_eq, Result, ok, Ensures, after, weaken, of_ok, returns, guard, guard-eq-ok, trim,
  is_empty, is_empty-ne, or_else, or_throw, or_throw-eq-ok, ◌>>=◌, ◌>>◌, if◌then◌else◌, includes,
  bad_request, not_found,
}
use open_editor_text_backend.Base.Int.{ℤ, pos}
use open_editor_text_backend.Licenses.{License, Store, find_license, save}
use open_editor_text_backend.Licenses.Rows.{Wrote, save-Ensures}

-- The patch of `setDelivery`; `none` leaves a field alone.
pub record DeliveryPatch : Type 0 where
  pub channel : Option Text
  pub pinned_version : Option Text
  pub override_version : Option Text
  pub override_reason : Option Text
  pub override_review_at : Option ℤ

abbrev pub channel_names : List Text
channel_names = text "stable" ∷ text "beta" ∷ text "internal" ∷ []

patch_channel : Option Text → License → Result License
patch_channel none l = ok l
patch_channel (some c) l = do
  guard (includes c channel_names) bad_request
  ok (record l { channel = c })

patch_pin : Option Text → License → License
patch_pin none l = l
patch_pin (some v) l = record l { pinned_version = trim v }

set_override : Text → License → License
set_override next l =
    if is_empty next
    then record l { override_version = next; override_reason = []; override_review_at = pos 0 }
    else record l { override_version = next }

patch_override : Option Text → Option Text → License → Result License
unfolding set_override
patch_override none reason l = ok l
patch_override (some v) reason l = do
  guard (is_empty (trim v) || not (is_empty (trim (or_else reason l.override_reason)))) bad_request
  ok (set_override (trim v) l)

patch_reason : Option Text → License → License
patch_reason none l = l
patch_reason (some r) l = record l { override_reason = trim r }

patch_review : Option ℤ → License → License
patch_review t l = record l { override_review_at = or_else t l.override_review_at }

-- `setDelivery`.
unfoldable pub set_delivery : Store → Text → DeliveryPatch → Result (Store × License)
unfolding patch_channel patch_pin patch_override patch_reason patch_review
set_delivery s id patch = do
  l ← or_throw (find_license s id) not_found
  on_channel ← patch_channel patch.channel l
  moved ←
      patch_override patch.override_version patch.override_reason
        (patch_pin patch.pinned_version on_channel)
  save s (patch_review patch.override_review_at (patch_reason patch.override_reason moved))

-- Only the five delivery fields differ.
abbrev pub SameSale : License → License → Type 0
SameSale l m = m ≡ record l {
  channel = m.channel;
  pinned_version = m.pinned_version;
  override_version = m.override_version;
  override_reason = m.override_reason;
  override_review_at = m.override_review_at;
}

-- What a patch of the override leaves.
abbrev pub Explained : Option Text → Option Text → License → License → Type 0
Explained none reason old l = l.override_version ≡ old.override_version
Explained (some v) reason old l =
    (l.override_version ≡ trim v)
    × (((trim v ≡ []) × (l.override_reason ≡ trim (or_else reason [])))
        ⊎ ((trim v ≢ []) × (l.override_reason ≢ [])))

patch_channel-Ensures :
    (c : Option Text) (l : License)
    → Ensures
        (λ m.
          SameSale l m
          × (m.override_version ≡ l.override_version)
          × (m.override_reason ≡ l.override_reason))
        (patch_channel c l)
unfolding patch_channel
patch_channel-Ensures none l = returns (refl, refl, refl)
patch_channel-Ensures (some c) l = after λ _ h. returns (refl, refl, refl)

patch_pin_lem :
    (v : Option Text) (l : License)
    → SameSale l (patch_pin v l)
      × ((patch_pin v l).override_version ≡ l.override_version)
      × ((patch_pin v l).override_reason ≡ l.override_reason)
unfolding patch_pin
patch_pin_lem none l = (refl, refl, refl)
patch_pin_lem (some v) l = (refl, refl, refl)

trimmed : (t : Text) → not (is_empty (trim t)) ≡ true → t ≢ []
unfolding trim
trimmed [] h = cc
trimmed (c ∷ t) h = cc

trim_nil : trim [] ≡ []
unfolding trim
trim_nil = refl

-- The override's branch with the assignments that follow it.
moved_lem :
    (next : Text) (reason : Option Text) (review : Option ℤ) (l m : License)
    → m ≡ patch_review review (patch_reason reason (set_override next l))
    → (is_empty next || not (is_empty (trim (or_else reason l.override_reason)))) ≡ true
    → SameSale l m
      × (m.override_version ≡ next)
      × (((next ≡ []) × (m.override_reason ≡ trim (or_else reason [])))
          ⊎ ((next ≢ []) × (m.override_reason ≢ [])))
unfolding set_override patch_review patch_reason
moved_lem [] none review l m e h = rw e (refl, refl, inl (refl, sym trim_nil))
moved_lem [] (some r) review l m e h = rw e (refl, refl, inl (refl, refl))
moved_lem (c ∷ cs) none review l m e h =
    rw e (refl, refl, inr (λ p. cc, trimmed l.override_reason h))
moved_lem (c ∷ cs) (some r) review l m e h =
    rw e (refl, refl, inr (λ p. cc, is_empty-ne (trim r) h))

moved_override :
    (v : Text) (reason : Option Text) (review : Option ℤ) (l m : License)
    → m ≡ patch_review review (patch_reason reason (set_override (trim v) l))
    → (is_empty (trim v) || not (is_empty (trim (or_else reason l.override_reason)))) ≡ true
    → SameSale l m × Explained (some v) reason l m
moved_override v reason review l m e h =
    let (same, version, why) = moved_lem (trim v) reason review l m e h in (same, (version, why))

patch_override-Ensures :
    (v reason : Option Text) (review : Option ℤ) (l : License)
    → Ensures
        (λ m.
          SameSale l (patch_review review (patch_reason reason m))
          × Explained v reason l (patch_review review (patch_reason reason m)))
        (patch_override v reason l)
unfolding patch_override patch_review patch_reason set_override
patch_override-Ensures none none review l = returns (refl, refl)
patch_override-Ensures none (some r) review l = returns (refl, refl)
patch_override-Ensures (some v) reason review l =
    after λ _ h. returns (moved_override v reason review l _ refl (guard-eq-ok _ _ h))

-- What a successful `setDelivery` did to one row.
pub record Moved (s : Store) (id : Text) (patch : DeliveryPatch) (t : Store) (l : License)
    : Type 0 where
  pub old : License
  pub found : find_license s id ≡ some old
  pub same : SameSale old l
  pub explained : Explained patch.override_version patch.override_reason old l
  pub wrote : Wrote s l t

SameSale-trans : (a b c : License) → SameSale a b → SameSale b c → SameSale a c
SameSale-trans a b c h k = k ∙ rw h refl

Explained-from :
    (v reason : Option Text) (a b c : License)
    → b.override_version ≡ a.override_version
    → Explained v reason b c
    → Explained v reason a c
Explained-from none reason a b c e h = h ∙ e
Explained-from (some v) reason a b c e h = h

pub set_delivery-Ensures :
    (s : Store) (id : Text) (patch : DeliveryPatch)
    → Ensures (λ (r : Store × License). Moved s id patch r.0 r.1) (set_delivery s id patch)
unfolding set_delivery
set_delivery-Ensures s id patch = after λ old found. after λ c ec. after λ m em.
    let (same_c, version_c, _) = of_ok (patch_channel-Ensures patch.channel old) ec in
    let (same_p, version_p, _) = patch_pin_lem patch.pinned_version c in
    let (same_m, why) = of_ok (patch_override-Ensures _ _ patch.override_review_at _) em in
    weaken
      (λ r w. record {
        old = old;
        found = or_throw-eq-ok _ _ found;
        same = rw w.1 (SameSale-trans old _ _ (SameSale-trans old c _ same_c same_p) same_m);
        explained = rw w.1 (Explained-from _ _ old _ _ (version_p ∙ version_c) why);
        wrote = rw w.1 w.0;
      })
      (save-Ensures s _)

-- A change of a licence's delivery that succeeds touches the five delivery fields of that row
-- alone, so neither its token nor its term. An override that the patch sets is stored trimmed and
-- with a reason, and clearing one clears its reason but for one that the patch gives; without an
-- override in the patch the row's override stands.
pub set_delivery_moves :
    (s : Store) (id : Text) (patch : DeliveryPatch) {t : Store} {l : License}
    → set_delivery s id patch ≡ ok (t, l)
    → Moved s id patch t l
set_delivery_moves s id patch e = of_ok (set_delivery-Ensures s id patch) e
