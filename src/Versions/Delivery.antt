-- ===== src/Versions/Delivery.antt =====
-- What the resolution of src/licensing/engine-version.service.ts and the buckets of
-- src/licensing/canary.ts promise.
use open_editor_text_backend.Base.{
  ℕ, Bool, true, false, not, ◌&&◌, ◌||◌, List, [], ◌∷◌, ◌++◌, none, some, ◌≡◌, ◌⊎◌, ◌↔◌, inl, inr,
  refl, ap, sym, ◌∙◌, arith, Text, text, text_eq, text_beq, text_beq_iff, is_empty, is_empty→eq,
  find, any, keep, includes, ok, Ensures, after, returns, of_ok, guard-eq-ok, or_throw-eq-ok,
  Bool-cases, Option-cases,
}
use open_editor_text_backend.Base.Int.{ℤ, ◌≤ℤ◌}
use open_editor_text_backend.Resolution.{
  BuildStatus, published, retired, channel_allows, eligible_as_default, all_features,
}
use open_editor_text_backend.Resolution.Features.{resolve_features_iff}
use open_editor_text_backend.Versions.{Build, Registry, rows_of, find_build}
use open_editor_text_backend.Versions.Resolve.{
  DefaultVersions, clamp_percent, bucket_of, in_canary, LicenceInput, Delivered, decision_for,
  caller_channel, customer_chose, delivered, resolve_for_licence, covers, wanted_features,
  cheapest_first, plan_for_features,
}

-- Raising the percentage of a release keeps everybody who is in it.
pub in_canary-grows :
    (hmac : Text → Text → ℕ) (identity version : Text) (p q : ℤ)
    → p ≤ℤ q
    → in_canary hmac identity version p ≡ true
    → in_canary hmac identity version q ≡ true
unfolding in_canary clamp_percent
in_canary-grows hmac identity version p q h e =
    elim (Option-cases (bucket_of hmac identity version)) [
      | inl n ↦ ground arith
      | inr (b, n) ↦ ground arith
    ]

-- What a resolution that succeeds has found.
pub record Served (hmac : Text → Text → ℕ) (r : Registry) (defaults : DefaultVersions)
    (i : LicenceInput) (d : Delivered) : Type 0 where
  pub build : Build
  pub version : Text
  -- The chain named the version, and its build for the caller's plan is what is served.
  pub decided : (decision_for hmac r defaults i).version ≡ some version
  pub found : find_build r.builds version i.plan ≡ some build
  pub row : d ≡ delivered i (decision_for hmac r defaults i).source build
  -- A build that no pin and no override asked for is not retired, and is on a channel that the
  -- caller may see.
  pub allowed :
      (customer_chose (decision_for hmac r defaults i).source ≡ true)
      ⊎ ((build.status ≡ published) × (channel_allows (caller_channel i) build.channel ≡ true))
  -- Nothing is promised that the build cannot do or the package does not grant.
  pub promised :
      (f : Text)
      → (includes f d.features ≡ true) ↔ (
          (includes f build.supported_features ≡ true)
          × ((includes f i.package_features ≡ true)
              ⊎ (includes all_features i.package_features ≡ true)))

eligible_published : (s : BuildStatus) → eligible_as_default s ≡ true → s ≡ published
unfolding eligible_as_default
eligible_published published h = refl
eligible_published retired h = cc

allowed_or_chosen :
    (chosen open_channel : Bool) (s : BuildStatus)
    → (chosen || eligible_as_default s) ≡ true
    → (chosen || open_channel) ≡ true
    → (chosen ≡ true) ⊎ ((s ≡ published) × (open_channel ≡ true))
allowed_or_chosen true open_channel s h k = inl refl
allowed_or_chosen false open_channel s h k = inr (eligible_published s h, k)

resolve_for_licence-Ensures :
    (hmac : Text → Text → ℕ) (r : Registry) (defaults : DefaultVersions) (i : LicenceInput)
    → Ensures (λ d. Served hmac r defaults i d) (resolve_for_licence hmac r defaults i)
unfolding resolve_for_licence
resolve_for_licence-Ensures hmac r defaults i = after λ version ev. after λ b eb.
    after λ _ eligible. after λ _ visible. returns (record {
      build = b;
      version = version;
      decided = or_throw-eq-ok _ _ ev;
      found = or_throw-eq-ok _ _ eb;
      row = refl;
      allowed = allowed_or_chosen _ _ b.status (guard-eq-ok _ _ eligible) (guard-eq-ok _ _ visible);
      promised = (resolve_features_iff i.package_features b.supported_features).1;
    })

-- A delivery that is resolved is the build of the caller's plan for the version that the chain
-- names; unless a pin or an override asked for it, the build is published and on a channel that the
-- caller may see; and the features that it promises are exactly those that the build has and the
-- package grants.
pub resolve_for_licence_sound :
    (hmac : Text → Text → ℕ) (r : Registry) (defaults : DefaultVersions) (i : LicenceInput)
    {d : Delivered}
    → resolve_for_licence hmac r defaults i ≡ ok d
    → Served hmac r defaults i d
resolve_for_licence_sound hmac r defaults i e =
    of_ok (resolve_for_licence-Ensures hmac r defaults i) e

find-any :
    (p : Build → Bool) (bs : List Build) (b : Build)
    → find p bs ≡ some b
    → any (λ x. text_beq x.plan b.plan && p x) bs ≡ true
find-any p [] b h = cc
find-any p (x ∷ xs) b h = elim (Bool-cases (p x)) [
  | inl e ↦
      let same : x ≡ b = (let h' : some x ≡ some b = rw e at h in cc) in
      ap (λ z. (text_beq z.plan b.plan && p z) || any (λ y. text_beq y.plan b.plan && p y) xs) same
      ∙ rw ((text_beq_iff b.plan b.plan).1 refl, ap p (sym same) ∙ e) refl
  | inr e ↦ let h' : find p xs ≡ some b = rw e at h in ground (arith, find-any p xs b h')
]

any-append : (p : Build → Bool) (xs ys : List Build) → any p (xs ++ ys) ≡ (any p xs || any p ys)
any-append p [] ys = refl
any-append p (x ∷ xs) ys = ground (arith, any-append p xs ys)

any-parted :
    (p q : Build → Bool) (xs : List Build)
    → (any p (keep q xs) || any p (keep (λ x. not (q x)) xs)) ≡ any p xs
any-parted p q [] = refl
any-parted p q (x ∷ xs) = ground (arith, any-parted p q xs)

any-cheapest : (p : Build → Bool) (rows : List Build) → any p (cheapest_first rows) ≡ any p rows
any-cheapest p rows = any-append p _ _ ∙ any-parted p _ rows

none-any : (p : Build → Bool) (bs : List Build) → find p bs ≡ none → any p bs ≡ false
none-any p [] h = refl
none-any p (x ∷ xs) h = ground (arith, none-any p xs)

-- The plan that is served asks for nothing special and is free, or is that of a build of the version
-- that supports every feature that is wanted, or is the premium one because no build does.
pub plan_for_features_lem :
    (builds : List Build) (version : Text) (features : List Text)
    → ((wanted_features features ≡ []) × (plan_for_features builds version features ≡ text "free"))
      ⊎ (any
            (λ b.
              text_beq b.plan (plan_for_features builds version features)
              && covers (wanted_features features) b)
            (rows_of builds version)
          ≡ true)
      ⊎ ((plan_for_features builds version features ≡ text "premium")
          × (any (covers (wanted_features features)) (rows_of builds version) ≡ false))
unfolding plan_for_features
plan_for_features_lem builds version features =
    elim (Bool-cases (is_empty (wanted_features features))) [
      | inl e ↦ inl (is_empty→eq _ e, rw e refl)
      | inr e ↦
          elim (Option-cases
            (find (covers (wanted_features features)) (cheapest_first (rows_of builds version)))) [
              | inl f ↦ inr (
                  inr (
                    rw (e, f) refl,
                    sym (any-cheapest (covers (wanted_features features)) (rows_of builds version))
                        ∙ none-any (covers (wanted_features features))
                            (cheapest_first (rows_of builds version)) f,
                  ))
              | inr (b, f) ↦ inr (
                  inl (
                    rw (e, f)
                      (sym (
                          any-cheapest
                            (λ x. text_beq x.plan b.plan && covers (wanted_features features) x)
                            (rows_of builds version))
                        ∙ find-any (covers (wanted_features features)) _ b f)))
            ]
    ]
