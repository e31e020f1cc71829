-- ===== src/Licenses/Issuing.antt =====
-- What `issue` and `issueFromSnapshot` of src/licensing/license.service.ts check and write.
use open_editor_text_backend.Base.{
  true, false, ◌&&◌, List, some, ◌≡◌, refl, Text, ok, Ensures, after, guard-eq-ok, is_empty, weaken,
  or_throw-eq-ok, not-true, All, dedup, Bool-cases, inl, inr, text_eq,
}
use open_editor_text_backend.Domains.{normalize_domains}
use open_editor_text_backend.Domains.Acceptance.{IsAcceptable}
use open_editor_text_backend.Signer.{Signed, sign}
use open_editor_text_backend.Licenses.{
  Customer, Package, License, Store, Env, find_customer, find_package, assert_domain_count,
}
use open_editor_text_backend.Licenses.Issue.{
  IssueInput, SnapshotInput, issue, issue_from_snapshot, issue_row, issue_ttl, snapshot_row,
  snapshot_ttl, request, texts_or, requested_domains, assert_snapshot_features,
}
use open_editor_text_backend.Licenses.Checks.{
  IsSellable, IsKnown, assert_features_known_lem, assert_features_sellable_lem,
  assert_features_sellable-IsKnown, acceptable_lem,
}
use open_editor_text_backend.Licenses.Rows.{Wrote, save-Ensures}

-- What `issue` has checked and written when it succeeds.
pub record Issued (env : Env) (s : Store) (input : IssueInput) (t : Store) (l : License)
    : Type 0 where
  pub customer : Customer
  pub package_row : Package
  pub signed : Signed
  pub domains : List Text
  pub known_customer : find_customer s input.customer_id ≡ some customer
  pub known_package : find_package s input.package_id ≡ some package_row
  pub on_sale : package_row.active ≡ true
  pub sellable : IsSellable env.catalog package_row.features
  pub bound : (package_row.domain_bound && is_empty domains) ≡ false
  pub acceptable : All IsAcceptable domains
  pub few : assert_domain_count domains package_row.max_domains ≡ ok tt
  pub normal : domains ≡ normalize_domains (texts_or input.domains customer.domains)
  pub minted :
      sign env.crypto env.config env.fresh env.sign_now (
        request package_row.features domains customer.id package_row.name
          (issue_ttl env input package_row))
      ≡ ok signed
  pub row : l ≡ issue_row env input customer package_row domains signed
  pub wrote : Wrote s l t

pub issue-Ensures :
    (env : Env) (s : Store) (input : IssueInput)
    → Ensures (λ (r : Store × License). Issued env s input r.0 r.1) (issue env s input)
unfolding issue
issue-Ensures env s input = after λ c ec. after λ p ep. after λ _ live. after λ _ sellable.
    after λ _ bound. after λ _ fine. after λ _ few. after λ signed es.
      weaken
        (λ r w. record {
          customer = c;
          package_row = p;
          signed = signed;
          domains = normalize_domains (texts_or input.domains c.domains);
          known_customer = or_throw-eq-ok _ _ ec;
          known_package = or_throw-eq-ok _ _ ep;
          on_sale = guard-eq-ok _ _ live;
          sellable = assert_features_sellable_lem _ _ sellable;
          bound = not-true _ (guard-eq-ok _ _ bound);
          acceptable = acceptable_lem _ fine;
          few = few;
          normal = refl;
          minted = es;
          row = w.1;
          wrote = rw w.1 w.0;
        })
        (save-Ensures s _)

-- What `issueFromSnapshot` has checked and written when it succeeds.
pub record Minted (env : Env) (s : Store) (input : SnapshotInput) (t : Store) (l : License)
    : Type 0 where
  pub customer : Customer
  pub signed : Signed
  pub domains : List Text
  pub known_customer : find_customer s input.customer_id ≡ some customer
  pub known_features : IsKnown env.catalog (dedup input.features)
  pub bound : (input.domain_bound && is_empty domains) ≡ false
  pub acceptable : All IsAcceptable domains
  pub normal : domains ≡ normalize_domains (requested_domains input customer)
  pub minted :
      sign env.crypto env.config env.fresh env.sign_now (
        request (dedup input.features) domains customer.id input.plan_name (snapshot_ttl env input))
      ≡ ok signed
  pub row : l ≡ snapshot_row env s input customer domains signed
  pub wrote : Wrote s l t

snapshot_features-IsKnown :
    (env : Env) (input : SnapshotInput) (features : List Text) {u : Unit {0}}
    → assert_snapshot_features env input features ≡ ok u
    → IsKnown env.catalog features
unfolding assert_snapshot_features
snapshot_features-IsKnown env input features h = elim (Bool-cases input.honor_snapshot) [
  | inl e ↦ assert_features_known_lem env.catalog features (rw e at h)
  | inr e ↦ assert_features_sellable-IsKnown env.catalog features (rw e at h)
]

pub issue_from_snapshot-Ensures :
    (env : Env) (s : Store) (input : SnapshotInput)
    → Ensures
        (λ (r : Store × License). Minted env s input r.0 r.1)
        (issue_from_snapshot env s input)
unfolding issue_from_snapshot
issue_from_snapshot-Ensures env s input = after λ c ec. after λ _ known. after λ _ bound.
    after λ _ fine. after λ _ few. after λ signed es.
      weaken
        (λ r w. record {
          customer = c;
          signed = signed;
          domains = normalize_domains (requested_domains input c);
          known_customer = or_throw-eq-ok _ _ ec;
          known_features = snapshot_features-IsKnown env input (dedup input.features) known;
          bound = not-true _ (guard-eq-ok _ _ bound);
          acceptable = acceptable_lem _ fine;
          normal = refl;
          minted = es;
          row = w.1;
          wrote = rw w.1 w.0;
        })
        (save-Ensures s _)
