-- ===== src/Sessions/Served.antt =====
-- A live key gets what was sold: src/delivery/session.service.ts.
use open_editor_text_backend.Base.{
  Result, true, false, List, [], ◌∷◌, none, some, Text, text_eq, text_beq, text_beq_iff, is_empty,
  ◌≡◌, ◌≢◌, ◌⊎◌, inl, inr, refl, ap, sym, ◌∙◌, arith, Bool-cases, ok, find, includes, Distinct,
  ◌>>=◌, text,
}
use open_editor_text_backend.Base.Int.{pos, pos_part, ltb_ℤ, ℤ}
use open_editor_text_backend.Signer.{
  Crypto, Config, PayloadInput, Signed, sign, Claims, verify_own_token,
}
use open_editor_text_backend.Licenses.{License, is_revoked, is_expired, package_of, find_license}
use open_editor_text_backend.Licenses.Rows.{IsValid, lic_ids}
use open_editor_text_backend.Installs
use open_editor_text_backend.Installs.{Install, InstallCheck}
use open_editor_text_backend.Versions.Resolve.{DefaultVersions, Delivered}
use open_editor_text_backend.Sessions.{
  Request, Server, Backend, Resolved, granted, find_by_lic_id, cap_of, seated, check_row,
  resolve_licensed, resolve_caller, origin_allowed,
}
use open_editor_text_backend.Sessions.Open.{
  Session, Opened, delivery_of, open_for, opened, answered, session_for, session_claims,
  session_ttl, refresh_ttl, bundle_url, engine_sha,
}
use open_editor_text_backend.Bundles.{sign_url}
use open_editor_text_backend.Sessions.Granted.{answered-ok}

found-lic_id :
    (x : Text) (rows : List License) (l : License)
    → find (λ m. text_beq m.lic_id x) rows ≡ some l
    → includes x (lic_ids rows) ≡ true
unfolding includes
found-lic_id x [] l h = cc
found-lic_id x (m ∷ ms) l h = elim (Bool-cases (text_beq m.lic_id x)) [
  | inl e ↦ ground (arith, text_beq_iff m.lic_id x, text_beq_iff x m.lic_id, e)
  | inr e ↦ ground (arith, found-lic_id x ms l (rw e at h))
]

-- The row that has an id has its licence id to itself.
lic_id-found :
    (rows : List License) (id : Text) (l : License)
    → Distinct (lic_ids rows)
    → find (λ m. text_beq m.id id) rows ≡ some l
    → find (λ m. text_beq m.lic_id l.lic_id) rows ≡ some l
lic_id-found [] id l distinct h = cc
lic_id-found (m ∷ ms) id l distinct h = elim (Bool-cases (text_beq m.id id)) [
  | inl e ↦
      let here : m ≡ l = same (rw e at h) in
      let mine : text_beq m.lic_id l.lic_id ≡ true =
        (text_beq_iff m.lic_id l.lic_id).1 (ap (λ z. z.lic_id) here) in
      rw mine (ap some here)
  | inr e ↦
      let there : find (λ m. text_beq m.lic_id l.lic_id) ms ≡ some l =
        lic_id-found ms id l distinct.1 (rw e at h) in
      elim (Bool-cases (text_beq m.lic_id l.lic_id)) [
        | inr k ↦ rw k there
        | inl k ↦ absurd (
            apart (
              sym distinct.0
              ∙ ap (λ z. includes z (lic_ids ms)) ((text_beq_iff m.lic_id l.lic_id).0 k)
              ∙ found-lic_id l.lic_id ms l there))
      ]
]
  where
    same : some m ≡ some l → m ≡ l
    same z = cc

    apart : false ≢ true
    apart z = cc

-- Whether the cap of installs lets the caller in.
abbrev HasSeat : Backend → Request → License → Type 0
HasSeat b req l =
    (ltb_ℤ (pos 0) (cap_of (package_of b.store l)) ≡ false)
    ⊎ ((Installs.check b.installs l.lic_id req.install_id req.origin
          (pos_part (cap_of (package_of b.store l)))).1.allowed
        ≡ true)

-- A licence that an opened session rests on.
pub record Live (x : Server) (b : Backend) (req : Request) (l : License) : Type 0 where
  pub claims : Claims
  pub given : is_empty req.licence_key ≡ false
  pub genuine : verify_own_token x.crypto x.config req.licence_key ≡ some claims
  pub row : find_license b.store l.id ≡ some l
  pub own : claims.lic ≡ l.lic_id
  pub unrevoked : is_revoked l.status ≡ false
  pub unexpired : is_expired l x.now ≡ false
  pub covered : origin_allowed x req.origin l.domains ≡ true
  pub seat : HasSeat b req l

check_row-granted :
    (x : Server) (b : Backend) (d : DefaultVersions) (req : Request) (l : License)
    → Live x b req l
    → (check_row x b d req l).1 ≡ granted b d l
unfolding check_row
check_row-granted x b d req l v =
    rw (v.unrevoked, v.unexpired, v.covered)
      (elim (Bool-cases (ltb_ℤ (pos 0) (cap_of (package_of b.store l)))) [
        | inr e ↦ rw e refl
        | inl e ↦ rw e (seated_in (seat_of e v.seat))
      ])
  where
    seat_of :
        ltb_ℤ (pos 0) (cap_of (package_of b.store l)) ≡ true
        → HasSeat b req l
        → (Installs.check b.installs l.lic_id req.install_id req.origin
            (pos_part (cap_of (package_of b.store l)))).1.allowed
          ≡ true
    seat_of e (inl none_capped) = cc
    seat_of e (inr allowed) = allowed

    seated_in :
        (Installs.check b.installs l.lic_id req.install_id req.origin
            (pos_part (cap_of (package_of b.store l)))).1.allowed
          ≡ true
        → (seated x b d l (
            Installs.check b.installs l.lic_id req.install_id req.origin
              (pos_part (cap_of (package_of b.store l))))).1
          ≡ granted b d l
    seated_in allowed = rw allowed refl

resolve_caller-granted :
    (x : Server) (b : Backend) (d : DefaultVersions) (req : Request) (l : License)
    → IsValid b.store
    → Live x b req l
    → (resolve_caller x b d req).1 ≡ granted b d l
unfolding resolve_caller resolve_licensed
resolve_caller-granted x b d req l valid v =
    let found : find_by_lic_id b.store v.claims.lic ≡ some l =
      ap (find_by_lic_id b.store) v.own
      ∙ lic_id-found b.store.licenses l.id l valid.licences v.row in
    rw (v.given, v.genuine, found) (check_row-granted x b d req l v)

-- Whoever can read tokens can sign them.
verify-enabled :
    (x : Crypto) (c : Config) (token : Text) {cl : Claims}
    → verify_own_token x c token ≡ some cl
    → c.enabled ≡ true
unfolding verify_own_token
verify-enabled x c token {cl} h = elim (Bool-cases c.enabled) [
  | inl e ↦ e
  | inr e ↦ absurd (none_some (rw e at h))
]
  where
    none_some : none ≢ some cl
    none_some m = cc

sign-ok :
    (x : Crypto) (c : Config) (fresh : ℤ → Text) (now : ℤ) (i : PayloadInput)
    → c.enabled ≡ true
    → (s : Signed) × (sign x c fresh now i ≡ ok s)
unfolding sign
sign-ok x c fresh now i on = rw on (_, refl)

bundle_url-ok :
    (x : Server) (version plan sha : Text)
    → x.urls.signing_enabled ≡ true
    → (url : Text) × (bundle_url x version plan sha ≡ ok url)
unfolding bundle_url sign_url ◌>>=◌
bundle_url-ok x version plan sha on = elim (Bool-cases (text_beq plan (text "premium"))) [
  | inl e ↦ rw (e, on) (_, refl)
  | inr e ↦ rw e (_, refl)
]

-- With keys to sign with, a session is answered for each build.
session_for-ok :
    (x : Server) (r : Resolved) (v : Delivered) (sha : Text)
    → x.config.enabled ≡ true
    → x.urls.signing_enabled ≡ true
    → (s : Session) × (session_for x r v sha ≡ ok s)
unfolding session_for ◌>>=◌
session_for-ok x r v sha on urls =
    let (first, minted) =
      sign-ok x.crypto x.config x.fresh x.now (session_claims x r v session_ttl) on in
    let (second, renewed) =
      sign-ok x.crypto x.config x.fresh x.now (session_claims x r v refresh_ttl) on in
    let (url, addressed) = bundle_url-ok x v.version v.plan sha urls in
    rw (minted, renewed, addressed) (_, refl)

answered_of_ok :
    (x : Server) (b : Backend) (r : Resolved) (v : Delivered)
    → x.config.enabled ≡ true
    → x.urls.signing_enabled ≡ true
    → (o : Opened) × ((answered x b r (ok v)).1 ≡ ok o)
answered_of_ok x b r v on urls =
    let (s, e) = session_for-ok x r v (engine_sha x b r v).1 on urls in rw e (_, refl)

-- What the session of a live key is, for the build that is delivered.
pub record ServedAs (b : Backend) (d : DefaultVersions) (l : License) (v : Delivered) (o : Opened)
    : Type 0 where
  pub features : o.session.features ≡ v.features
  pub version : o.session.version ≡ v.version
  pub plan : o.session.plan ≡ (granted b d l).plan
  pub accepted : o.refusal ≡ none

answered-ServedAs :
    (x : Server) (b c : Backend) (d : DefaultVersions) (l : License) (v : Delivered) (o : Opened)
    → (answered x c (granted b d l) (ok v)).1 ≡ ok o
    → ServedAs b d l v o
unfolding granted
answered-ServedAs x b c d l v o h =
    let (w, (same, a)) = answered-ok x c (granted b d l) (ok v) o h in
    let built : w ≡ v = delivered_eq w same in
    record {
      features = a.features ∙ ap (λ z. z.features) built;
      version = a.version ∙ ap (λ z. z.version) built;
      plan = a.plan;
      accepted = a.refusal;
    }
  where
    delivered_eq : (w : Delivered) → ◌≡◌ {A = Result Delivered} (ok v) (ok w) → w ≡ v
    delivered_eq w m = cc

opened_granted :
    (x : Server) (b : Backend) (d : DefaultVersions) (req : Request) (l : License) (v : Delivered)
    (q : List Install × Resolved)
    → x.config.enabled ≡ true
    → x.urls.signing_enabled ≡ true
    → delivery_of x b d req (granted b d l) ≡ ok v
    → q.1 ≡ granted b d l
    → (o : Opened) × (((opened x b d req q).1 ≡ ok o) × ServedAs b d l v o)
opened_granted x b d req l v (rows, r) on urls resolves same =
    let c : Backend = record b { installs = rows } in
    let (o, e) = answered_of_ok x c (granted b d l) v on urls in
    let answers : (opened x b d req (rows, r)).1 ≡ ok o =
      ap (λ z. (answered x c z (delivery_of x b d req z)).1) same
      ∙ ap (λ m. (answered x c (granted b d l) m).1) resolves
      ∙ e in
    (o, (answers, answered-ServedAs x b c d l v o e))

-- A genuine key of a licence that is neither revoked nor expired, from an origin that the licence covers
-- and with a seat, is served and never taken for less, whenever the registry resolves a build for what
-- that licence was granted: a session is opened, it is not refused, and it has the features and the
-- version of that build and the plan of the licence. (The signing of addresses is configured.)
pub genuine_key_served :
    (x : Server) (b : Backend) (d : DefaultVersions) (req : Request) (l : License) (v : Delivered)
    → IsValid b.store
    → Live x b req l
    → x.urls.signing_enabled ≡ true
    → delivery_of x b d req (granted b d l) ≡ ok v
    → (o : Opened) × (((open_for x b d req).1 ≡ ok o) × ServedAs b d l v o)
unfolding open_for
genuine_key_served x b d req l v valid live urls resolves =
    opened_granted x b d req l v (resolve_caller x b d req)
      (verify-enabled x.crypto x.config req.licence_key live.genuine) urls resolves
      (resolve_caller-granted x b d req l valid live)
