-- ===== src/Sessions/Tests.antt =====
-- Runs of src/delivery/session.service.ts and src/delivery/session.controller.ts, and their theorems
-- at inputs.
use open_editor_text_backend.Base.{
  inl, List, [], ◌∷◌, Option, none, some, Text, text, text_eq, ◌≡◌, ◌≢◌, refl, Result, ok, err,
}
use open_editor_text_backend.Base.Int.{pos}
use open_editor_text_backend.Signer.{Claims, claims_of, verify_own_token}
use open_editor_text_backend.Resolution.{global}
use open_editor_text_backend.Versions.{find_build}
use open_editor_text_backend.Versions.Resolve.{Delivered}
use open_editor_text_backend.Activations.{new_activation}
use open_editor_text_backend.Sessions.{
  origin_blocked, install_cap, granted, Request, Server, Backend, Resolved, resolve_licensed,
}
use open_editor_text_backend.Sessions.Open.{Session, Opened, delivery_of, open_for, open_session}
use open_editor_text_backend.Sessions.Granted.{Granting, open_grants}
use open_editor_text_backend.Sessions.Refused.{forgotten, refused_as_anonymous}
use open_editor_text_backend.Licenses.Rows.{IsValid}
use open_editor_text_backend.Sessions.Served.{Live, ServedAs, genuine_key_served}
use open_editor_text_backend.Sessions.Requested.{ServedOf, requested_version_served}
use open_editor_text_backend.Sessions.Samples.{
  run, config, payload_of_key, toy, server, hidden, registry, licence, tier_of, backend, defaults,
  keyed,
}

abbrev session_of : Result Opened → Option Session
session_of (err e) = none
session_of (ok o) = some o.session

abbrev features_of : Option Session → List Text
features_of none = []
features_of (some s) = s.features

at_home :
    features_of (session_of (open_for server backend defaults (keyed (text "https://a.io"))).1)
    ≡ text "pdf" ∷ []
unfolding run
at_home = refl

abroad :
    features_of (session_of (open_for server backend defaults (keyed (text "https://b.io"))).1)
    ≡ text "bold" ∷ []
unfolding run
abroad = refl

abbrev home_session : Opened
home_session = record {
  session = record {
    session_token = text "token";
    refresh_token = text "token";
    expires_at = pos 1900;
    plan = text "premium";
    features = text "pdf" ∷ [];
    version = text "1";
    engine_key = [];
    engine_sha256 = text "base";
    engine_url = text "/engine/1/premium/base.js?exp=n&sig=base.n";
    licence_key = none;
  };
  refusal = none;
}

opens_home : (open_for server backend defaults (keyed (text "https://a.io"))).1 ≡ ok home_session
unfolding run
opens_home = refl

open_grants_example : Granting server backend defaults (keyed (text "https://a.io")) home_session
open_grants_example = open_grants server backend defaults (keyed (text "https://a.io")) opens_home

blocked_abroad :
    (resolve_licensed server backend defaults (keyed (text "https://b.io"))).1.refusal
    ≡ some origin_blocked
unfolding run
blocked_abroad = refl

refused_as_anonymous_example :
    forgotten (open_for server backend defaults (keyed (text "https://b.io"))).1
    ≡ forgotten
        (open_for server backend defaults
          (record (keyed (text "https://b.io")) { licence_key = [] })).1
refused_as_anonymous_example =
    refused_as_anonymous server backend defaults (keyed (text "https://b.io")) origin_blocked refl
      refl blocked_abroad

not_the_cap : origin_blocked ≢ install_cap
not_the_cap h = cc

abbrev later : Server
later = record server { now = pos 5000 }

abbrev key_claims : Claims
key_claims = claims_of payload_of_key

reads_key : verify_own_token toy config (text "good") ≡ some key_claims
unfolding run
reads_key = refl

alone : IsValid backend.store
unfolding run
alone = record { rows = (refl, tt); licences = (refl, tt) }

live : Live server backend (keyed (text "https://a.io")) licence
unfolding run
live = record {
  claims = key_claims;
  given = refl;
  genuine = reads_key;
  row = refl;
  own = refl;
  unrevoked = refl;
  unexpired = refl;
  covered = refl;
  seat = inl refl;
}

abbrev home_build : Delivered
home_build = record {
  version = text "1";
  plan = text "premium";
  bundle_key = [];
  bundle_sha256 = text "base";
  features = text "pdf" ∷ [];
  missing = [];
  source = some global;
}

builds_home :
    delivery_of server backend defaults
      (keyed (text "https://a.io"))
      (granted backend defaults licence)
    ≡ ok home_build
unfolding run
builds_home = refl

genuine_key_served_example :
    (o : Opened) × (((open_for server backend defaults (keyed (text "https://a.io"))).1 ≡ ok o)
      × ServedAs backend defaults licence home_build o)
genuine_key_served_example =
    genuine_key_served server backend defaults (keyed (text "https://a.io")) licence home_build
      alone live refl builds_home

-- A caller without a key that asks for a retired build of the internal channel.
abbrev curious : Request
curious = record { licence_key = []; install_id = []; origin = []; version = text "9" }

abbrev nobody : Resolved
nobody = record { plan = text "free"; features = text "bold" ∷ []; licence = none; refusal = none }

finds_hidden : find_build registry.builds (text "9") (text "free") ≡ some hidden
unfolding run
finds_hidden = refl

requested_version_served_example :
    (v : Delivered) × ((delivery_of server backend defaults curious nobody ≡ ok v)
      × ServedOf hidden curious nobody v)
requested_version_served_example =
    requested_version_served server backend defaults curious nobody hidden refl refl finds_hidden

-- The key of a purchase is redeemed from a foreign origin: with a default tier that needs the
-- premium build, the refused caller is handed the key.
abbrev armed : Backend
armed = record backend {
  tier = tier_of (text "pdf" ∷ []);
  activations = new_activation (text "a1") (text "tab") (text "oe-1") 0 ∷ [];
}

abbrev key_of : Result Session → Option Text
key_of (err e) = none
key_of (ok s) = s.licence_key

abbrev foreign : Request
foreign = record {
  licence_key = [];
  install_id = text "tab";
  origin = text "https://b.io";
  version = [];
}

leaks_key : key_of (open_session server armed 1 foreign).1 ≡ some (text "good")
unfolding run
leaks_key = refl

-- A licence whose features the free build covers: its one-time activation is spent, and the key is
-- not handed over.
abbrev modest : Backend
modest = record armed {
  store = record {
    customers = [];
    packages = [];
    licenses = record licence { features = text "bold" ∷ [] } ∷ [];
  };
}

keeps_key :
    key_of (open_session server modest 1 (record foreign { origin = text "https://a.io" })).1 ≡ none
unfolding run
keeps_key = refl

spent_twice :
    key_of
      (open_session server
        (open_session server modest 1 (record foreign { origin = text "https://a.io" })).0
        2
        (record foreign { origin = text "https://a.io" })).1
    ≡ none
unfolding run
spent_twice = refl
