-- ===== src/Sessions/Granted.antt =====
-- On what grounds src/delivery/session.service.ts grants the features of a session.
use open_editor_text_backend.Base.{
  true, false, List, Option, none, some, Text, text_eq, is_empty, ◌≡◌, ◌⊎◌, inl, inr, refl, sym,
  Bool-cases, subst, Result, ok, err, Ensures, returns, throws, after, of_ok,
}
use open_editor_text_backend.Base.Int.{pos, pos_part, ltb_ℤ}
use open_editor_text_backend.Signer.{Claims, verify_own_token}
use open_editor_text_backend.Licenses.{License, is_revoked, is_expired, package_of}
use open_editor_text_backend.Versions.Resolve.{DefaultVersions, Delivered}
use open_editor_text_backend.Versions.Delivery.{Served, resolve_for_licence_sound}
use open_editor_text_backend.Installs
use open_editor_text_backend.Installs.{Install, InstallCheck}
use open_editor_text_backend.Sessions.{
  Refusal, invalid_key, revoked, expired, origin_blocked, install_cap, Request, Server, Backend,
  Resolved, resolve_anonymous, refused, granted, origin_allowed, check_row, checked_row,
  checked_claims, resolve_licensed, resolve_caller, find_by_lic_id, cap_of, seated,
}
use open_editor_text_backend.Sessions.Open.{
  Session, Opened, session_for, with_refusal, delivery_input, delivery_of, answer, answered, opened,
  open_for,
}

-- The grounds of a licensed grant: a key that the signer made, for a licence that is neither revoked
-- nor expired, from an origin that it covers, and with a seat where the package caps them.
pub record Licensed (x : Server) (b : Backend) (d : DefaultVersions) (req : Request) (r : Resolved)
    : Type 0 where
  pub claims : Claims
  pub licence : License
  pub genuine : verify_own_token x.crypto x.config req.licence_key ≡ some claims
  pub found : find_by_lic_id b.store claims.lic ≡ some licence
  pub live : is_revoked licence.status ≡ false
  pub current : is_expired licence x.now ≡ false
  pub in_domain : origin_allowed x req.origin licence.domains ≡ true
  pub seat :
      (ltb_ℤ (pos 0) (cap_of (package_of b.store licence)) ≡ false)
      ⊎ ((Installs.check b.installs licence.lic_id req.install_id req.origin
            (pos_part (cap_of (package_of b.store licence)))).1.allowed
          ≡ true)
  pub resolved : r ≡ granted b d licence

Outcome : Server → Backend → DefaultVersions → Request → License → Resolved → Type 0
Outcome x b d req l r =
    ((reason : Refusal) × (r ≡ refused x b d reason))
    ⊎ ((is_revoked l.status ≡ false)
        × ((is_expired l x.now ≡ false)
            × ((origin_allowed x req.origin l.domains ≡ true)
                × (((ltb_ℤ (pos 0) (cap_of (package_of b.store l)) ≡ false)
                      ⊎ ((Installs.check b.installs l.lic_id req.install_id req.origin
                            (pos_part (cap_of (package_of b.store l)))).1.allowed
                          ≡ true))
                    × (r ≡ granted b d l)))))

seated-cases :
    (x : Server) (b : Backend) (d : DefaultVersions) (l : License) (q : List Install × InstallCheck)
    → ((seated x b d l q).1 ≡ refused x b d install_cap)
      ⊎ ((q.1.allowed ≡ true) × ((seated x b d l q).1 ≡ granted b d l))
seated-cases x b d l (rows, seat) = elim (Bool-cases seat.allowed) [
  | inl e ↦ inr (e, rw e refl)
  | inr e ↦ inl (rw e refl)
]

check_row-cases :
    (x : Server) (b : Backend) (d : DefaultVersions) (req : Request) (l : License)
    → Outcome x b d req l (check_row x b d req l).1
unfolding check_row Outcome
check_row-cases x b d req l = elim (Bool-cases (is_revoked l.status)) [
  | inl e ↦ rw e (inl (revoked, refl))
  | inr e ↦ elim (Bool-cases (is_expired l x.now)) [
    | inl f ↦ rw (e, f) (inl (expired, refl))
    | inr f ↦ elim (Bool-cases (origin_allowed x req.origin l.domains)) [
      | inr g ↦ rw (e, f, g) (inl (origin_blocked, refl))
      | inl g ↦ elim (Bool-cases (ltb_ℤ (pos 0) (cap_of (package_of b.store l)))) [
        | inr k ↦ rw (e, f, g, k) (inr (refl, (refl, (refl, (inl refl, refl)))))
        | inl k ↦
            elim (seated-cases x b d l (
              Installs.check b.installs l.lic_id req.install_id req.origin
                (pos_part (cap_of (package_of b.store l))))) [
                  | inl barred ↦ rw (e, f, g, k) (inl (install_cap, barred))
                  | inr (free, same) ↦
                      rw (e, f, g, k) (inr (refl, (refl, (refl, (inr free, same)))))
                ]
      ]
    ]
  ]
]

-- How a caller may be resolved: as an anonymous one, as one whose key is refused, or by its licence.
unfoldable pub Basis : Server → Backend → DefaultVersions → Request → Resolved → Type 0
Basis x b d req r =
    ((is_empty req.licence_key ≡ true) × (r ≡ resolve_anonymous x b d))
    ⊎ ((reason : Refusal) × (r ≡ refused x b d reason))
    ⊎ Licensed x b d req r

checked_row-Basis :
    (x : Server) (b : Backend) (d : DefaultVersions) (req : Request) (claims : Claims)
    (found : Option License)
    → verify_own_token x.crypto x.config req.licence_key ≡ some claims
    → find_by_lic_id b.store claims.lic ≡ found
    → Basis x b d req (checked_row x b d req found).1
unfolding Basis Outcome
checked_row-Basis x b d req claims none genuine e = inr (inl (invalid_key, refl))
checked_row-Basis x b d req claims (some l) genuine e = elim (check_row-cases x b d req l) [
  | inl turned_away ↦ inr (inl turned_away)
  | inr (live, (current, (in_domain, (seat, same)))) ↦ inr (
      inr record {
        claims = claims;
        licence = l;
        genuine = genuine;
        found = e;
        live = live;
        current = current;
        in_domain = in_domain;
        seat = seat;
        resolved = same;
      })
]

checked_claims-Basis :
    (x : Server) (b : Backend) (d : DefaultVersions) (req : Request) (c : Option Claims)
    → verify_own_token x.crypto x.config req.licence_key ≡ c
    → Basis x b d req (checked_claims x b d req c).1
unfolding Basis
checked_claims-Basis x b d req none e = inr (inl (invalid_key, refl))
checked_claims-Basis x b d req (some c) e =
    checked_row-Basis x b d req c (find_by_lic_id b.store c.lic) e refl

pub resolve_caller-keyed :
    (x : Server) (b : Backend) (d : DefaultVersions) (req : Request)
    → is_empty req.licence_key ≡ false
    → resolve_caller x b d req ≡ resolve_licensed x b d req
unfolding resolve_caller
resolve_caller-keyed x b d req e = rw e refl

pub resolve_caller-anonymous :
    (x : Server) (b : Backend) (d : DefaultVersions) (req : Request)
    → is_empty req.licence_key ≡ true
    → resolve_caller x b d req ≡ (b.installs, resolve_anonymous x b d)
unfolding resolve_caller
resolve_caller-anonymous x b d req e = rw e refl

pub resolve_licensed-Basis :
    (x : Server) (b : Backend) (d : DefaultVersions) (req : Request)
    → Basis x b d req (resolve_licensed x b d req).1
unfolding resolve_licensed
resolve_licensed-Basis x b d req = checked_claims-Basis x b d req _ refl

anonymous-Basis :
    (x : Server) (b : Backend) (d : DefaultVersions) (req : Request)
    → is_empty req.licence_key ≡ true
    → Basis x b d req (resolve_anonymous x b d)
unfolding Basis
anonymous-Basis x b d req e = inl (e, refl)

pub resolve_caller-Basis :
    (x : Server) (b : Backend) (d : DefaultVersions) (req : Request)
    → Basis x b d req (resolve_caller x b d req).1
resolve_caller-Basis x b d req = elim (Bool-cases (is_empty req.licence_key)) [
  | inl e ↦
      subst (λ (q : List Install × Resolved). Basis x b d req q.1)
        (sym (resolve_caller-anonymous x b d req e)) (anonymous-Basis x b d req e)
  | inr e ↦
      subst (λ (q : List Install × Resolved). Basis x b d req q.1)
        (sym (resolve_caller-keyed x b d req e)) (resolve_licensed-Basis x b d req)
]

-- What a session that is opened rests on.
pub record Granting (x : Server) (b : Backend) (d : DefaultVersions) (req : Request) (o : Opened)
    : Type 0 where
  pub resolved : Resolved
  pub basis : Basis x b d req resolved
  pub delivered : Delivered
  pub served : Served x.bucket_hmac b.registry d (delivery_input req resolved) delivered
  pub features : o.session.features ≡ delivered.features
  pub version : o.session.version ≡ delivered.version
  pub plan : o.session.plan ≡ resolved.plan
  pub refusal : o.refusal ≡ resolved.refusal

pub record Answer (r : Resolved) (v : Delivered) (o : Opened) : Type 0 where
  pub features : o.session.features ≡ v.features
  pub version : o.session.version ≡ v.version
  pub plan : o.session.plan ≡ r.plan
  pub refusal : o.refusal ≡ r.refusal

record Spoken (r : Resolved) (v : Delivered) (s : Session) : Type 0 where
  pub features : s.features ≡ v.features
  pub version : s.version ≡ v.version
  pub plan : s.plan ≡ r.plan

session_for-Ensures :
    (x : Server) (r : Resolved) (v : Delivered) (sha : Text)
    → Ensures (Spoken r v) (session_for x r v sha)
unfolding session_for
session_for-Ensures x r v sha =
    after λ _ _.
      after λ _ _. after λ _ _. returns record { features = refl; version = refl; plan = refl }

with_refusal-Ensures :
    (r : Resolved) (v : Delivered) (m : Result Session)
    → Ensures (Spoken r v) m
    → Ensures (Answer r v) (with_refusal r.refusal m)
with_refusal-Ensures r v (err e) h = throws
with_refusal-Ensures r v (ok s) h =
    let k = of_ok h refl in
    returns record { features = k.features; version = k.version; plan = k.plan; refusal = refl }

answer-Ensures :
    (x : Server) (r : Resolved) (v : Delivered) (sha : Text)
    → Ensures (Answer r v) (answer x r v sha)
answer-Ensures x r v sha =
    with_refusal-Ensures r v (session_for x r v sha) (session_for-Ensures x r v sha)

pub answered-ok :
    (x : Server) (b : Backend) (r : Resolved) (m : Result Delivered) (o : Opened)
    → (answered x b r m).1 ≡ ok o
    → (v : Delivered) × ((m ≡ ok v) × Answer r v o)
answered-ok x b r (err e) o h = cc
answered-ok x b r (ok v) o h = (v, (refl, of_ok (answer-Ensures x r v _) h))

opened-Granting :
    (x : Server) (b : Backend) (d : DefaultVersions) (req : Request) (q : List Install × Resolved)
    (o : Opened)
    → Basis x b d req q.1
    → (opened x b d req q).1 ≡ ok o
    → Granting x b d req o
unfolding delivery_of
opened-Granting x b d req (rows, r) o basis h =
    let (v, (resolves, a)) = answered-ok x (record b { installs = rows }) r _ o h in
    record {
      resolved = r;
      basis = basis;
      delivered = v;
      served = resolve_for_licence_sound x.bucket_hmac b.registry d (delivery_input req r) resolves;
      features = a.features;
      version = a.version;
      plan = a.plan;
      refusal = a.refusal;
    }

-- A session that is opened carries the features, the version and the plan of a build that the
-- version registry serves for what the caller was resolved to: the default tier for a caller without
-- a key or with a key that is refused, and the caller's own package only for a genuine key of a
-- licence that is neither revoked nor expired, from an origin that it covers, with a seat.
pub open_grants :
    (x : Server) (b : Backend) (d : DefaultVersions) (req : Request) {o : Opened}
    → (open_for x b d req).1 ≡ ok o
    → Granting x b d req o
unfolding open_for
open_grants x b d req {o} h =
    opened-Granting x b d req (resolve_caller x b d req) o (resolve_caller-Basis x b d req) h
