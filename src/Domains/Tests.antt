-- ===== src/Domains/Tests.antt =====
-- Runs of src/licensing/domain-policy.ts at concrete domains, and its theorems at inputs.
use open_editor_text_backend.Base.{
  ◌>>=◌, true, false, [], ◌∷◌, ◌≡◌, ◌↔◌, ◌⊎◌, refl, text, text_beq, text_eq, trim, includes, add,
  ok, err, bad_request,
}
use open_editor_text_backend.Domains.Matching.{host_allowed_iff, Listed}
use open_editor_text_backend.Domains.Acceptance.{tenant}
use open_editor_text_backend.Domains.{
  normalize_one_domain, paired, normalize_domains, assert_domains_acceptable, host_matches_pattern,
  host_allowed, public_suffixes,
}

run : Unit {0}
unfolding ◌>>=◌ normalize_domains normalize_one_domain paired assert_domains_acceptable
    host_matches_pattern host_allowed text_beq trim includes add
run = tt

normalize_tests :
    (normalize_domains (text " Example.COM.:8080" ∷ text "example.com" ∷ text "" ∷ [])
      ≡ text "example.com." ∷ text "example.com" ∷ text "www.example.com" ∷ [])
    × (normalize_domains (text "app.example.com" ∷ text "*.example.com" ∷ [])
        ≡ text "app.example.com" ∷ text "*.example.com" ∷ [])
unfolding run
normalize_tests = (refl, refl)

-- A second pass adds an apex that the first did not.
normalize_again :
    (normalize_domains (text "www.www.a.io" ∷ []) ≡ text "www.www.a.io" ∷ text "www.a.io" ∷ [])
    × (normalize_domains (text "www.www.a.io" ∷ text "www.a.io" ∷ [])
        ≡ text "www.www.a.io" ∷ text "www.a.io" ∷ text "a.io" ∷ [])
unfolding run
normalize_again = (refl, refl)

match_tests :
    (host_matches_pattern (text "A.customer.com") (text "*.Customer.com") ≡ true)
    × (host_matches_pattern (text "customer.com") (text "*.customer.com") ≡ true)
    × (host_matches_pattern (text "a.b.customer.com") (text "*.customer.com") ≡ false)
    × (host_matches_pattern (text "evilcustomer.com") (text "*.customer.com") ≡ false)
    × (host_allowed (text "x.io") [] ≡ true)
    × (host_allowed (text "x.io") (text "y.io" ∷ []) ≡ false)
unfolding run
match_tests = (refl, refl, refl, refl, refl, refl)

accept_tests :
    (assert_domains_acceptable (text "*.co.uk" ∷ []) ≡ err bad_request)
    × (assert_domains_acceptable (text "*.com" ∷ []) ≡ err bad_request)
    × (assert_domains_acceptable (text "shop.co.uk" ∷ []) ≡ ok tt)
unfolding run
accept_tests = (refl, refl, refl)

host_allowed_example :
    (host_allowed (text "a.x.io") (text "*.x.io" ∷ []) ≡ true)
    ↔ ((text "*.x.io" ∷ [] ≡ []) ⊎ Listed (text "a.x.io") (text "*.x.io" ∷ []))
host_allowed_example = host_allowed_iff (text "a.x.io") (text "*.x.io" ∷ [])

cleans : normalize_one_domain (text "WWW.X.io") ≡ text "www.x.io"
unfolding run
cleans = refl

listed : includes (text "WWW.X.io") (text "WWW.X.io" ∷ []) ≡ true
unfolding run
listed = refl

tenant_accepted : assert_domains_acceptable (text "shop.github.io" ∷ []) ≡ ok tt
unfolding run
tenant_accepted = refl

shared_suffix : includes (text "github.io") public_suffixes ≡ true
unfolding run
shared_suffix = refl

tenant_matches :
    (host_matches_pattern (tenant (text "shop") (text "github.io")) (text "shop.github.io") ≡ true)
    × (host_matches_pattern (tenant (text "SHOP") (text "github.io")) (text "shop.github.io")
        ≡ true)
unfolding run
tenant_matches = (refl, refl)
