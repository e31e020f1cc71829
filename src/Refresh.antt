-- ===== src/Refresh.antt =====
-- src/portal/refresh-rate-limiter.ts and src/portal/refresh.service.ts: the silent refresh of a
-- token. The URL parser is a parameter, and so is the email service, which is only handed a reminder.
pub mod Limiter
pub mod Granted
mod Tests
use open_editor_text_backend.Base.{
  ℕ, ◌*◌, ◌+◌, suc, Bool, true, false, not, ◌&&◌, ◌||◌, List, [], ◌∷◌, ◌++◌, Option, none, some,
  Text, text, text_eq, text_beq, ltb, leb, if◌then◌else◌, is_empty, find, keep, update, length,
  drop, Result, ok, err, guard, or_throw, ◌>>=◌, ◌>>◌, or_else, refused, rate_limited,
  origin_blocked, term_ended,
}
use open_editor_text_backend.Base.Int.{ℤ, pos, ◌-ℤ◌, leb_ℤ, ltb_ℤ}
use open_editor_text_backend.Domains.{host_allowed}
use open_editor_text_backend.Durations.{
  Number, at, infinity, before, effective_renew_until, effective_ttl_seconds, clamp_ttl_to_term,
  day,
}
use open_editor_text_backend.Signer.{Claims, PayloadInput, Signed, sign, text_or, verify_own_token}
use open_editor_text_backend.Licenses.{
  active, is_revoked, Customer, Package, License, Store, Env, find_customer, package_of, save,
}
use open_editor_text_backend.Licenses.Issue.{request, terms_of}
use open_editor_text_backend.Licenses.Reissue.{term_input}

-- `Window`, with its key; the map keeps the order of insertion.
pub record Window : Type 0 where
  pub key : Text
  pub count : ℕ
  pub reset_at : ℕ

-- The limiter's settings: window length, refreshes per window, and keys at most.
pub record Limits : Type 0 where
  pub window_ms : ℕ
  pub limit : ℕ
  pub max_keys : ℕ

abbrev pub find_window : List Window → Text → Option Window
find_window ws key = find (λ w. text_beq w.key key) ws

abbrev pub evicted : Limits → List Window → List Window
evicted c ws = if leb c.max_keys (length ws) then drop 1 ws else ws

-- A new window for the key, in the newest place.
unfoldable pub opened : Limits → List Window → Text → ℕ → List Window
opened c ws key now =
    keep (λ w. not (text_beq w.key key)) (evicted c ws)
    ++ record { key = key; count = 1; reset_at = now + c.window_ms } ∷ []

-- `w.count += 1` on the window of the key.
unfoldable pub counted : List Window → Text → List Window
counted [] key = []
counted (w ∷ ws) key =
    if text_beq w.key key then record w { count = suc w.count } ∷ ws else w ∷ counted ws key

abbrev pub allow_in : Limits → List Window → Text → ℕ → Option Window → List Window × Bool
allow_in c ws key now none = (opened c ws key now, true)
allow_in c ws key now (some w) =
    if leb w.reset_at now
    then (opened c ws key now, true)
    else if leb c.limit w.count
    then (ws, false)
    else (counted ws key, true)

-- `allow`.
unfoldable pub allow : Limits → List Window → Text → ℕ → List Window × Bool
allow c ws key now = allow_in c ws key now (find_window ws key)

-- `originMatches`; `host_of` is the host that the URL parser finds, in lower case, without its port.
abbrev origin_matches : (Text → Option Text) → Text → List Text → Bool
origin_matches host_of origin domains = elim (host_of origin) [
  | none ↦ false
  | some h ↦ host_allowed h domains
]

abbrev pub boundary_of_row : Store → License → Number
boundary_of_row s l = effective_renew_until (term_input l (package_of s l))

abbrev pub find_by_lic_id : Store → Text → Option License
find_by_lic_id s lic = find (λ l. text_beq l.lic_id lic) s.licenses

-- The checks of `doRefresh` before the rate limit; a missing origin is the empty one.
unfoldable pub gate : Env → (Text → Option Text) → Store → Claims → Text → Result License
gate env host_of s claims origin = do
  l ← or_throw (find_by_lic_id s claims.lic) refused
  guard (not (is_revoked l.status)) refused
  guard (before env.now (boundary_of_row s l)) term_ended
  guard
      (not (
        not (is_empty l.domains)
        && not (is_empty origin)
        && not (origin_matches host_of origin l.domains)))
      origin_blocked
  ok l

abbrev pub base_ttl_of : Option Package → Option Number
base_ttl_of none = none
base_ttl_of (some p) = some (at (effective_ttl_seconds (terms_of p)))

abbrev holder : Option Customer → Text → Text
holder none d = d
holder (some c) d = c.id

-- What the signer is asked for: the same licence id, and a lifetime inside the paid term.
abbrev pub refresh_request : Env → Store → Claims → License → PayloadInput
refresh_request env s claims l =
    record (request l.features l.domains (holder (find_customer s l.customer) claims.customer)
      (text_or (some l.plan_name) (text "custom"))
      (clamp_ttl_to_term (base_ttl_of (package_of s l)) (boundary_of_row s l) env.now)) {
        iat = some env.now;
        lic = some l.lic_id;
      }

-- `EXPIRY_REMINDER_WINDOW_SECONDS`.
abbrev reminder_window : ℤ
reminder_window = pos (7 * day)

abbrev ends_soon : Number → ℤ → Bool
ends_soon infinity now = false
ends_soon (at b) now = leb_ℤ (b -ℤ now) reminder_window

abbrev has_email : Option Customer → Bool
has_email none = false
has_email (some c) = not (is_empty c.email)

-- Whether this refresh sends the reminder.
abbrev pub is_due : Env → Store → License → Bool
is_due env s l =
    ends_soon (boundary_of_row s l) env.now
    && not (ltb_ℤ (pos 0) l.reminder_sent_at)
    && has_email (find_customer s l.customer)

abbrev pub refreshed_row : Env → Store → License → Signed → License
refreshed_row env s l signed = record l {
  token = signed.token;
  kid = signed.kid;
  issued_at = signed.iat;
  expires_at = signed.exp;
  status = active;
  reminder_sent_at = if is_due env s l then env.now else l.reminder_sent_at;
}

-- The result of a refresh that is granted, with the reminder's flag.
pub record Grant : Type 0 where
  pub token : Text
  pub expires_at : ℤ
  pub lic_id : Text
  pub remind : Bool

unfoldable pub remint : Env → Store → Claims → License → Result (Store × Grant)
remint env s claims l = do
  signed ← sign env.crypto env.config env.fresh env.sign_now (refresh_request env s claims l)
  (t, row) ← save s (refreshed_row env s l signed)
  ok (
    t,
    record {
      token = signed.token;
      expires_at = signed.exp;
      lic_id = row.lic_id;
      remind = is_due env s l;
    },
  )

-- The rate limit and what follows it: the limiter keeps its count whatever becomes of the rest.
unfoldable pub limited :
    Env
    → Limits
    → Store
    → List Window
    → Claims
    → ℕ
    → Result License
    → List Window × Result (Store × Grant)
limited env c s ws claims now_ms (err e) = (ws, err e)
limited env c s ws claims now_ms (ok l) =
    let (after, allowed) = allow c ws l.id now_ms in
    (after, if allowed then remint env s claims l else err rate_limited)

-- The rest of `refresh` after it has read the token.
abbrev pub answered :
    Env
    → Limits
    → (Text → Option Text)
    → Store
    → List Window
    → Text
    → ℕ
    → Option Claims
    → List Window × Result (Store × Grant)
answered env c host_of s ws origin now_ms none = (ws, err refused)
answered env c host_of s ws origin now_ms (some claims) =
    limited env c s ws claims now_ms (gate env host_of s claims origin)

-- `refresh`. A denial carries its reason; the licence id beside it, for the log, is left out.
unfoldable pub refresh :
    Env
    → Limits
    → (Text → Option Text)
    → Store
    → List Window
    → Text
    → Text
    → ℕ
    → List Window × Result (Store × Grant)
refresh env c host_of s ws token origin now_ms =
    answered env c host_of s ws origin now_ms (verify_own_token env.crypto env.config token)
