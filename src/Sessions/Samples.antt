-- ===== src/Sessions/Samples.antt =====
-- A server, its tables and a request for the runs of src/delivery/session.service.ts.
use open_editor_text_backend.Base.{
  true, false, List, [], ◌∷◌, none, some, Text, text, text_eq, text_beq, ◌>>=◌, if◌then◌else◌,
  includes, dedup, dedup_from, add, trim,
}
use open_editor_text_backend.Base.Int.{pos, ◌+ℤ◌}
use open_editor_text_backend.Base.Sorting.{sort}
use open_editor_text_backend.Domains.{host_allowed, host_matches_pattern}
use open_editor_text_backend.Signer.{Config, Crypto, Parsed, sign, verify_own_token}
use open_editor_text_backend.Licenses.{License, active, is_expired}
use open_editor_text_backend.Resolution.{
  internal, stable, published, retired, BuildStatus, Channel, channel_allows, eligible_as_default,
  resolve_version, resolve_features, missing_from_build,
}
use open_editor_text_backend.Versions.{Build, Registry}
use open_editor_text_backend.Versions.Resolve.{
  DefaultVersions, canary_for, resolve_for_licence, plan_for_features, defaults_for,
}
use open_editor_text_backend.Activations
use open_editor_text_backend.Activations.{Activation, new_activation, look, take_claim}
use open_editor_text_backend.Installs
use open_editor_text_backend.DefaultPackage.{
  free, Tier, has_designation, features_for_anonymous, features_for_refusal,
}
use open_editor_text_backend.Bundles.{sign_url, digest_for_licence}
use open_editor_text_backend.Sessions.{
  Request, Server, Backend, plan_for_default_tier, resolve_anonymous, refused, dev_origin,
  origin_allowed, granted, check_row, resolve_licensed, resolve_caller, key_for_licence,
}
use open_editor_text_backend.Sessions.Open.{
  delivery_of, bundle_url, session_for, open_for, refresh, activate, open_session, refresh_session,
}

unfoldable pub run : Unit {0}
unfolding text_beq trim dedup dedup_from add includes sort host_allowed host_matches_pattern sign
    verify_own_token is_expired channel_allows eligible_as_default resolve_version resolve_features
    missing_from_build canary_for resolve_for_licence plan_for_features defaults_for
    Activations.claim look take_claim Installs.check has_designation features_for_anonymous
    features_for_refusal sign_url digest_for_licence plan_for_default_tier resolve_anonymous refused
    dev_origin origin_allowed granted check_row resolve_licensed resolve_caller key_for_licence
    delivery_of bundle_url session_for open_for refresh activate open_session refresh_session ◌>>=◌
    ◌+ℤ◌
run = tt

abbrev pub config : Config
config = record {
  enabled = true;
  private_key_pem = text "key";
  kid = text "k1";
  default_ttl_seconds = pos 2592000;
  max_ttl_seconds = pos 9000000;
  retired_public_keys = [];
}

abbrev pub payload_of_key : Parsed
payload_of_key = record {
  alg = text "ES256";
  kid = text "k1";
  payload = record {
    lic = text "oe-1";
    customer = text "c1";
    plan = text "Pro";
    features = text "pdf" ∷ [];
    domains = [];
    iat = pos 0;
    exp = pos 10;
    version = none;
  };
}

-- A stand-in for Node that reads one key, which it takes for genuine.
abbrev pub toy : Crypto
toy = record {
  mint = λ pem kid p. text "token";
  parse = λ t. if text_beq t (text "good") then some payload_of_key else none;
  checks = λ pem t. true;
}

abbrev pub server : Server
server = record {
  crypto = toy;
  config = config;
  fresh = λ iat. text "oe-new";
  now = pos 1000;
  bucket_hmac = λ salt id. 0;
  hmac = λ key m. m;
  digest = λ b. text "marked";
  written = λ n. text "n";
  host_of = λ origin. if text_beq origin (text "https://a.io") then some (text "a.io") else none;
  urls = record {
    url_signing_secret = text "s";
    signing_enabled = true;
    url_ttl_seconds = pos 600;
    public_base_url = [];
  };
  anonymous_free_bundle_only = false;
  policy = free;
}

abbrev pub build : Text → Text → List Text → Channel → BuildStatus → Build
build version plan features channel status = record {
  version = version;
  plan = plan;
  supported_features = features;
  bundle_key = [];
  bundle_sha256 = text "base";
  bundle_bytes = 1;
  channel = channel;
  notes = [];
  status = status;
}

abbrev pub hidden : Build
hidden = build (text "9") (text "free") (text "bold" ∷ []) internal retired

abbrev pub registry : Registry
registry = record {
  builds =
      build (text "1") (text "free") (text "bold" ∷ []) stable published
      ∷ build (text "1") (text "premium") (text "bold" ∷ text "pdf" ∷ []) stable published
      ∷ hidden
      ∷ [];
  defaults = record { scope = text "global"; version = text "1" } ∷ [];
  history = [];
  canaries = [];
  stored = [];
}

abbrev pub licence : License
licence = record {
  id = text "r1";
  lic_id = text "oe-1";
  customer = text "c1";
  package_id = none;
  plan_name = text "Pro";
  plan_price_cents = pos 900;
  plan_currency = text "USD";
  features = text "pdf" ∷ [];
  domains = text "a.io" ∷ [];
  status = active;
  token = text "good";
  kid = text "k1";
  issued_at = pos 0;
  expires_at = pos 5000;
  renew_until = pos 5000;
  flagged_at = pos 0;
  flag_reason = [];
  reminder_sent_at = pos 0;
  created_at = 0;
  is_test = false;
  pinned_version = [];
  override_version = [];
  override_reason = [];
  override_review_at = pos 0;
  channel = text "stable";
}

abbrev pub tier_of : List Text → Tier
tier_of features = record {
  designation = none;
  cache = some (record { features = features; package_id = text "p0"; at = 0 });
  in_flight = none;
}

abbrev pub backend : Backend
backend = record {
  store = record { customers = []; packages = []; licenses = licence ∷ [] };
  registry = registry;
  tier = tier_of (text "bold" ∷ []);
  installs = [];
  marking = record { stored = []; memo = [] };
  activations = [];
}

abbrev pub defaults : DefaultVersions
defaults = record { channel_default = none; global_default = some (text "1") }

abbrev pub keyed : Text → Request
keyed origin = record {
  licence_key = text "good";
  install_id = text "tab";
  origin = origin;
  version = [];
}
