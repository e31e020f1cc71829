-- ===== src/Sessions/Open.antt =====
-- `open` and `refresh` of src/delivery/session.service.ts, and the two routes of
-- src/delivery/session.controller.ts that call them.
use open_editor_text_backend.Base.{
  ℕ, not, ◌&&◌, List, [], ◌++◌, Option, none, some, Text, text, text_eq, text_beq, is_empty, Result,
  ok, err, ◌>>=◌, or_else, if◌then◌else◌, or_else, ◌*◌,
}
use open_editor_text_backend.Base.Int.{ℤ, pos}
use open_editor_text_backend.Durations.{at}
use open_editor_text_backend.Signer.{Claims, PayloadInput, sign, verify_own_token}
use open_editor_text_backend.Licenses.{License}
use open_editor_text_backend.Resolution.{Channel, internal, beta, stable}
use open_editor_text_backend.Versions.Resolve.{
  DefaultVersions, defaults_for, LicenceInput, Delivered, resolve_for_licence,
}
use open_editor_text_backend.Activations
use open_editor_text_backend.Activations.{Activation}
use open_editor_text_backend.Installs.{Install}
use open_editor_text_backend.Bundles.{Marking, sign_url, digest_for_licence}
use open_editor_text_backend.Sessions.{
  Refusal, Request, Server, Backend, Resolved, free_plan, premium_plan, named_version,
  resolve_caller, key_for_licence,
}

-- `SessionResponse`.
pub record Session : Type 0 where
  pub session_token : Text
  pub refresh_token : Text
  pub expires_at : ℤ
  pub plan : Text
  pub features : List Text
  pub version : Text
  pub engine_key : Text
  pub engine_sha256 : Text
  pub engine_url : Text
  pub licence_key : Option Text

pub record Opened : Type 0 where
  pub session : Session
  pub refusal : Option Refusal

-- `SESSION_TTL_SECONDS` and `REFRESH_TTL_SECONDS`.
abbrev pub session_ttl : ℤ
session_ttl = pos (15 * 60)

abbrev pub refresh_ttl : ℤ
refresh_ttl = pos (30 * 24 * 3600)

-- The channel of a row, which holds one of the three names.
abbrev channel_of : Text → Channel
channel_of name =
    if text_beq name (text "internal")
    then internal
    else if text_beq name (text "beta")
    then beta
    else stable

abbrev pub licence_text : (License → Text) → Option License → Text
licence_text f none = []
licence_text f (some l) = f l

abbrev pub text_or : Text → Text → Text
text_or a b = if is_empty a then b else a

-- The input of `resolveForLicence`: a version that the caller asks for stands in for a missing pin.
abbrev pub delivery_input : Request → Resolved → LicenceInput
delivery_input req r = record {
  pinned_version =
      named_version (text_or (licence_text (λ l. l.pinned_version) r.licence) req.version);
  override_version = named_version (licence_text (λ l. l.override_version) r.licence);
  channel = some (channel_of (licence_text (λ l. l.channel) r.licence));
  package_features = r.features;
  plan = r.plan;
  canary_identity = text_or (licence_text (λ l. l.lic_id) r.licence) req.install_id;
}

unfoldable pub delivery_of :
    Server → Backend → DefaultVersions → Request → Resolved → Result Delivered
delivery_of x b d req r = resolve_for_licence x.bucket_hmac b.registry d (delivery_input req r)

abbrev pub domains_of : Option License → List Text
domains_of none = []
domains_of (some l) = l.domains

-- What both tokens of a session say.
abbrev pub session_claims : Server → Resolved → Delivered → ℤ → PayloadInput
session_claims x r d ttl = record {
  features = d.features;
  domains = domains_of r.licence;
  customer = text_or (licence_text (λ l. l.customer) r.licence) (text "anonymous");
  plan = r.plan;
  ttl_seconds = some (at ttl);
  version = some d.version;
  iat = some x.now;
  lic = elim r.licence [ none ↦ none | some l ↦ some l.lic_id ];
}

-- The digest that the caller is given: that of the marked bundle for a premium licence.
abbrev pub engine_sha : Server → Backend → Resolved → Delivered → Marking × Text
engine_sha x b r d =
    if text_beq r.plan premium_plan && not (is_empty (licence_text (λ l. l.lic_id) r.licence))
    then digest_for_licence x.hmac x.digest x.urls b.marking d.bundle_sha256
        (licence_text (λ l. l.lic_id) r.licence)
    else (b.marking, d.bundle_sha256)

abbrev bundle_path : Server → Text → Text → Text → Text
bundle_path x version plan sha =
    x.urls.public_base_url
    ++ text "/engine/"
    ++ version
    ++ text "/"
    ++ plan
    ++ text "/"
    ++ sha
    ++ text ".js"

abbrev signed_path : Server → Text → Text → Result Text
signed_path x path sha = do
  u ← sign_url x.hmac x.written x.urls x.now sha
  ok (path ++ text "?exp=" ++ x.written u.exp ++ text "&sig=" ++ u.sig)

-- `bundleUrl`.
unfoldable pub bundle_url : Server → Text → Text → Text → Result Text
bundle_url x version plan sha =
    if text_beq plan premium_plan
    then signed_path x (bundle_path x version plan sha) sha
    else ok (bundle_path x version plan sha)

-- What `open` does once the build is chosen.
unfoldable pub session_for : Server → Resolved → Delivered → Text → Result Session
session_for x r d sha = do
  session ← sign x.crypto x.config x.fresh x.now (session_claims x r d session_ttl)
  refresh ← sign x.crypto x.config x.fresh x.now (session_claims x r d refresh_ttl)
  url ← bundle_url x d.version d.plan sha
  ok (record {
    session_token = session.token;
    refresh_token = refresh.token;
    expires_at = session.exp;
    plan = r.plan;
    features = d.features;
    version = d.version;
    engine_key = d.bundle_key;
    engine_sha256 = sha;
    engine_url = url;
    licence_key = none;
  })

abbrev pub with_refusal : Option Refusal → Result Session → Result Opened
with_refusal refusal (err e) = err e
with_refusal refusal (ok s) = ok (record { session = s; refusal = refusal })

abbrev pub answer : Server → Resolved → Delivered → Text → Result Opened
answer x r d sha = with_refusal r.refusal (session_for x r d sha)

abbrev pub answered : Server → Backend → Resolved → Result Delivered → Backend × Result Opened
answered x b r (err e) = (b, err e)
answered x b r (ok d) =
    (record b { marking = (engine_sha x b r d).0 }, answer x r d (engine_sha x b r d).1)

abbrev pub opened :
    Server → Backend → DefaultVersions → Request → List Install × Resolved → Backend × Result Opened
opened x b d req (rows, r) = answered x (record b { installs = rows }) r (delivery_of x b d req r)

-- `open`.
unfoldable pub open_for : Server → Backend → DefaultVersions → Request → Backend × Result Opened
open_for x b d req = opened x b d req (resolve_caller x b d req)

abbrev pub request_of : Text → Text → Request
request_of key origin = record { licence_key = key; install_id = []; origin = origin; version = [] }

-- What `refresh` returns: the session, and the licence id that the token names, for the log.
pub record Refreshed : Type 0 where
  pub answer : Opened
  pub lic_id : Option Text

abbrev pub attributed : Option Text → Backend × Result Opened → Backend × Result Refreshed
attributed lic (b, err e) = (b, err e)
attributed lic (b, ok o) = (b, ok (record { answer = o; lic_id = lic }))

abbrev pub refreshed :
    Server → Backend → DefaultVersions → Text → Option Claims → Backend × Result Refreshed
refreshed x b d origin none = attributed none (open_for x b d (request_of [] origin))
refreshed x b d origin (some c) =
    attributed (some c.lic)
      (open_for x b d (request_of (or_else (key_for_licence x b.store c.lic) []) origin))

abbrev pub either_claims : Option Claims → Option Claims → Option Claims
either_claims none b = b
either_claims (some c) b = some c

abbrev pub fallback_claims : Server → Text → Option Claims
fallback_claims x token = if is_empty token then none else verify_own_token x.crypto x.config token

-- `refresh`.
unfoldable pub refresh :
    Server → Backend → DefaultVersions → Text → Text → Text → Backend × Result Refreshed
refresh x b d token origin fallback =
    refreshed x b d origin
      (either_claims (verify_own_token x.crypto x.config token) (fallback_claims x fallback))

-- The activation that `openSession` redeems for a caller without a key, at a time in milliseconds.
abbrev redeemed : Server → Backend → List Activation × Option Text → Backend × Option Text
redeemed x b (rows, none) = (record b { activations = rows }, none)
redeemed x b (rows, some lic) = (record b { activations = rows }, key_for_licence x b.store lic)

unfoldable pub activate : Server → Backend → ℕ → Request → Backend × Option Text
activate x b now req =
    if is_empty req.licence_key && not (is_empty req.install_id)
    then redeemed x b (Activations.claim b.activations req.install_id req.origin now)
    else (b, none)

abbrev handed_over : Option Text → Opened → Session
handed_over none o = o.session
handed_over (some key) o =
    if text_beq o.session.plan free_plan
    then o.session
    else record o.session { licence_key = some key }

abbrev responded : Option Text → Backend × Result Opened → Backend × Result Session
responded key (b, err e) = (b, err e)
responded key (b, ok o) = (b, ok (handed_over key o))

abbrev opening : Server → Request → Backend × Option Text → Backend × Result Session
opening x req (b, key) = responded key (
    open_for x b (defaults_for b.registry stable)
      (record req { licence_key = text_or req.licence_key (or_else key []) }))

-- `openSession`.
unfoldable pub open_session : Server → Backend → ℕ → Request → Backend × Result Session
open_session x b now req = opening x req (activate x b now req)

-- `refreshSession`, without its log of refreshes.
unfoldable pub refresh_session : Server → Backend → Text → Text → Text → Backend × Result Refreshed
refresh_session x b token origin fallback =
    refresh x b (defaults_for b.registry stable) token origin fallback
