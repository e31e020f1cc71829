-- ===== src/Sessions/Seats.antt =====
-- A refusal of src/delivery/session.service.ts takes no seat of the licence.
use open_editor_text_backend.Base.{
  false, List, Option, none, some, text_eq, is_empty, ◌≡◌, ◌≢◌, ◌⊎◌, inl, inr, refl, ap, sym, ◌∙◌,
  Bool-cases, Result, ok, err,
}
use open_editor_text_backend.Base.Int.{pos, pos_part, ltb_ℤ}
use open_editor_text_backend.Signer.{Claims}
use open_editor_text_backend.Licenses.{License, is_revoked, is_expired, package_of}
use open_editor_text_backend.Versions.Resolve.{DefaultVersions, Delivered}
use open_editor_text_backend.Installs
use open_editor_text_backend.Installs.{Install, InstallCheck}
use open_editor_text_backend.Sessions.{
  Refusal, install_cap, Request, Server, Backend, Resolved, refused, granted, origin_allowed,
  check_row, checked_row, checked_claims, resolve_licensed, resolve_caller, find_by_lic_id, cap_of,
  seated,
}
use open_editor_text_backend.Sessions.Open.{delivery_of, answered, opened, open_for}
use open_editor_text_backend.Sessions.Granted.{resolve_caller-keyed}

record Untouched (x : Server) (b : Backend) (d : DefaultVersions) (q : List Install × Resolved)
    : Type 0 where
  pub kept : (q.0 ≡ b.installs) ⊎ (q.1.refusal ≡ none) ⊎ (q.1.refusal ≡ some install_cap)

check_row-installs :
    (x : Server) (b : Backend) (d : DefaultVersions) (req : Request) (l : License)
    → Untouched x b d (check_row x b d req l)
unfolding check_row granted refused
check_row-installs x b d req l = elim (Bool-cases (is_revoked l.status)) [
  | inl e ↦ rw e (record { kept = inl refl })
  | inr e ↦ elim (Bool-cases (is_expired l x.now)) [
    | inl f ↦ rw (e, f) (record { kept = inl refl })
    | inr f ↦ elim (Bool-cases (origin_allowed x req.origin l.domains)) [
      | inr g ↦ rw (e, f, g) (record { kept = inl refl })
      | inl g ↦ elim (Bool-cases (ltb_ℤ (pos 0) (cap_of (package_of b.store l)))) [
        | inr k ↦ rw (e, f, g, k) (record { kept = inl refl })
        | inl k ↦
            rw (e, f, g, k)
              (seated-Untouched (
                Installs.check b.installs l.lic_id req.install_id req.origin
                  (pos_part (cap_of (package_of b.store l)))))
      ]
    ]
  ]
]
  where
    seated-Untouched : (q : List Install × InstallCheck) → Untouched x b d (seated x b d l q)
    seated-Untouched (rows, seat) = elim (Bool-cases seat.allowed) [
      | inl e ↦ rw e (record { kept = inr (inl refl) })
      | inr e ↦ rw e (record { kept = inr (inr refl) })
    ]

checked_row-installs :
    (x : Server) (b : Backend) (d : DefaultVersions) (req : Request) (found : Option License)
    → Untouched x b d (checked_row x b d req found)
checked_row-installs x b d req none = record { kept = inl refl }
checked_row-installs x b d req (some l) = check_row-installs x b d req l

checked_claims-installs :
    (x : Server) (b : Backend) (d : DefaultVersions) (req : Request) (c : Option Claims)
    → Untouched x b d (checked_claims x b d req c)
checked_claims-installs x b d req none = record { kept = inl refl }
checked_claims-installs x b d req (some c) =
    checked_row-installs x b d req (find_by_lic_id b.store c.lic)

resolve_licensed-installs :
    (x : Server) (b : Backend) (d : DefaultVersions) (req : Request)
    → Untouched x b d (resolve_licensed x b d req)
unfolding resolve_licensed
resolve_licensed-installs x b d req = checked_claims-installs x b d req _

answered-installs :
    (x : Server) (b : Backend) (r : Resolved) (m : Result Delivered)
    → (answered x b r m).0.installs ≡ b.installs
answered-installs x b r (err e) = refl
answered-installs x b r (ok v) = refl

opened-installs :
    (x : Server) (b : Backend) (d : DefaultVersions) (req : Request) (q : List Install × Resolved)
    → (opened x b d req q).0.installs ≡ q.0
opened-installs x b d req (rows, r) =
    answered-installs x (record b { installs = rows }) r (delivery_of x b d req r)

-- A key that is refused for another reason than the cap of its seats takes no seat and changes none.
pub refused_takes_no_seat :
    (x : Server) (b : Backend) (d : DefaultVersions) (req : Request) (reason : Refusal)
    → is_empty req.licence_key ≡ false
    → (resolve_licensed x b d req).1.refusal ≡ some reason
    → reason ≢ install_cap
    → (open_for x b d req).0.installs ≡ b.installs
unfolding open_for
refused_takes_no_seat x b d req reason keyed h other =
    opened-installs x b d req (resolve_caller x b d req)
    ∙ ap (λ (q : List Install × Resolved). q.0) (resolve_caller-keyed x b d req keyed)
    ∙ elim (resolve_licensed-installs x b d req).kept [
      | inl kept ↦ kept
      | inr (inl unrefused) ↦ absurd (none_some (sym unrefused ∙ h))
      | inr (inr capped) ↦ absurd (other (same (sym h ∙ capped)))
    ]
  where
    none_some : none ≢ some reason
    none_some k = cc

    same : some reason ≡ some install_cap → reason ≡ install_cap
    same k = cc
