-- ===== src/Sessions/Refused.antt =====
-- What a refusal of src/delivery/session.service.ts costs: nothing but the licence.
use open_editor_text_backend.Base.{
  Bool, true, false, ◌&&◌, List, [], Option, none, some, Text, text, text_eq, text_beq, is_empty,
  ◌≡◌, ◌≢◌, inl, inr, refl, ap, sym, ◌∙◌, Result, ok, err, if◌then◌else◌,
}
use open_editor_text_backend.Versions.Resolve.{DefaultVersions, Delivered, resolve_for_licence}
use open_editor_text_backend.Installs.{Install}
use open_editor_text_backend.DefaultPackage.{
  RevokedPolicy, free, features_for_anonymous, features_for_refusal, is_minimal, Tier,
  minimal_fallback_features,
}
use open_editor_text_backend.Sessions.{
  Refusal, refusal_name, Request, Server, Backend, Resolved, resolve_anonymous, refused, granted,
  resolve_licensed, plan_for_default_tier,
}
use open_editor_text_backend.Sessions.Open.{
  Session, Opened, session_for, with_refusal, delivery_input, delivery_of, engine_sha, answered,
  opened, open_for,
}
use open_editor_text_backend.Sessions.Granted.{
  Basis, resolve_licensed-Basis, resolve_caller-keyed, resolve_caller-anonymous,
}

abbrev pub forgotten : Result Opened → Result Session
forgotten (err e) = err e
forgotten (ok o) = ok o.session

free_features :
    (policy : RevokedPolicy) (t : Tier) (reason : Text)
    → policy ≡ free
    → features_for_refusal policy t reason ≡ features_for_anonymous t
unfolding features_for_refusal
free_features policy t reason h = rw h (if_never (text_beq reason (text "revoked")))
  where
    if_never :
        (c : Bool)
        → (if c && is_minimal free then minimal_fallback_features else features_for_anonymous t)
          ≡ features_for_anonymous t
    if_never true = refl
    if_never false = refl

-- A refused caller differs from an anonymous one in nothing but the mark of the refusal.
refused-anonymous :
    (x : Server) (b : Backend) (d : DefaultVersions) (reason : Refusal)
    → x.policy ≡ free
    → refused x b d reason ≡ record (resolve_anonymous x b d) { refusal = some reason }
unfolding refused resolve_anonymous
refused-anonymous x b d reason h =
    ap
      (λ fs. record {
        plan = plan_for_default_tier x b d fs;
        features = fs;
        licence = none;
        refusal = some reason;
      })
      (free_features x.policy b.tier (refusal_name reason) h)

forgotten-with_refusal :
    (z : Option Refusal) (m : Result Session) → forgotten (with_refusal z m) ≡ m
forgotten-with_refusal z (err e) = refl
forgotten-with_refusal z (ok s) = refl

abbrev sessions_of : Server → Backend → Resolved → Result Delivered → Result Session
sessions_of x b r (err e) = err e
sessions_of x b r (ok v) = session_for x r v (engine_sha x b r v).1

forgotten-answered :
    (x : Server) (b : Backend) (r : Resolved) (m : Result Delivered)
    → forgotten (answered x b r m).1 ≡ sessions_of x b r m
forgotten-answered x b r (err e) = refl
forgotten-answered x b r (ok v) = forgotten-with_refusal r.refusal (session_for x r v _)

-- What is signed does not depend on the mark of a refusal, on the installs or on the key.
unmarked :
    (x : Server) (b : Backend) (r : Resolved) (z : Option Refusal) (rows : List Install)
    (m : Result Delivered)
    → sessions_of x (record b { installs = rows }) (record r { refusal = z }) m
      ≡ sessions_of x b r m
unfolding session_for
unmarked x b r z rows (err e) = refl
unmarked x b r z rows (ok v) = refl

refused-session :
    (x : Server) (b : Backend) (d : DefaultVersions) (req : Request) (reason : Refusal)
    (rows : List Install)
    → x.policy ≡ free
    → forgotten (opened x b d req (rows, refused x b d reason)).1
      ≡ forgotten
          (opened x b d (record req { licence_key = [] }) (b.installs, resolve_anonymous x b d)).1
unfolding delivery_of
refused-session x b d req reason rows h =
    let r = resolve_anonymous x b d in
    let m = resolve_for_licence x.bucket_hmac b.registry d (delivery_input req r) in
    ap (λ s. forgotten (opened x b d req (rows, s)).1) (refused-anonymous x b d reason h)
    ∙ forgotten-answered x (record b { installs = rows }) (record r { refusal = some reason }) m
    ∙ unmarked x b r (some reason) rows m
    ∙ sym (forgotten-answered x b r m)

refused_reason :
    (x : Server) (b : Backend) (d : DefaultVersions) (req : Request) (r : Resolved)
    (reason : Refusal)
    → Basis x b d req r
    → r.refusal ≡ some reason
    → r ≡ refused x b d reason
unfolding Basis resolve_anonymous granted refused
refused_reason x b d req r reason (inl (_, e)) h =
    absurd (none_some (ap (λ q. q.refusal) (sym e) ∙ h))
  where
    none_some : none ≢ some reason
    none_some k = cc
refused_reason x b d req r reason (inr (inl (other, e))) h =
    e ∙ ap (refused x b d) (same (ap (λ q. q.refusal) (sym e) ∙ h))
  where
    same : some other ≡ some reason → other ≡ reason
    same k = cc
refused_reason x b d req r reason (inr (inr l)) h =
    absurd (none_some (ap (λ q. q.refusal) (sym l.resolved) ∙ h))
  where
    none_some : none ≢ some reason
    none_some k = cc

-- Under the forgiving policy, a caller whose key is refused, for whatever reason, is served the very
-- session, or the error, that it would be served without a key.
pub refused_as_anonymous :
    (x : Server) (b : Backend) (d : DefaultVersions) (req : Request) (reason : Refusal)
    → x.policy ≡ free
    → is_empty req.licence_key ≡ false
    → (resolve_licensed x b d req).1.refusal ≡ some reason
    → forgotten (open_for x b d req).1
      ≡ forgotten (open_for x b d (record req { licence_key = [] })).1
unfolding open_for
refused_as_anonymous x b d req reason policy keyed h =
    let resolved =
      refused_reason x b d req (resolve_licensed x b d req).1 reason
        (resolve_licensed-Basis x b d req) h in
    ap (λ q. forgotten (opened x b d req q).1)
      (resolve_caller-keyed x b d req keyed
        ∙ ap (λ r. ((resolve_licensed x b d req).0, r)) resolved)
    ∙ refused-session x b d req reason (resolve_licensed x b d req).0 policy
    ∙ ap (λ q. forgotten (opened x b d (record req { licence_key = [] }) q).1)
        (sym (resolve_caller-anonymous x b d (record req { licence_key = [] }) refl))
