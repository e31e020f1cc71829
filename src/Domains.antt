-- ===== src/Domains.antt =====
-- src/licensing/domain-policy.ts: how the domains of a licence are normalised, accepted and matched.
-- A domain is a text; `normalizeDomains` keeps the order in which a `Set` receives its elements.
pub mod Matching
pub mod Pairing
pub mod Acceptance
mod Tests
use open_editor_text_backend.Base.{
  ℕ, ◌+◌, ◌-◌, Bool, true, false, not, ◌&&◌, ◌||◌, List, [], ◌∷◌, ◌++◌, Option, none, some, Text,
  text_eq, text, text_beq, lower, trim, is_digit, starts_with, has_char, part_count, is_empty, all,
  any, add, drop, take, length, nat_beq, leb, includes, if◌then◌else◌, Result, ok, err, guard, ◌>>◌,
  bad_request,
}

-- `PUBLIC_SUFFIXES`.
abbrev public_suffixes : List Text
public_suffixes =
    text "vercel.app"
    ∷ text "netlify.app"
    ∷ text "herokuapp.com"
    ∷ text "github.io"
    ∷ text "gitlab.io"
    ∷ text "pages.dev"
    ∷ text "workers.dev"
    ∷ text "web.app"
    ∷ text "firebaseapp.com"
    ∷ text "azurewebsites.net"
    ∷ text "onrender.com"
    ∷ text "railway.app"
    ∷ text "fly.dev"
    ∷ text "surge.sh"
    ∷ text "now.sh"
    ∷ text "glitch.me"
    ∷ text "repl.co"
    ∷ text "appspot.com"
    ∷ text "cloudfront.net"
    ∷ text "amplifyapp.com"
    ∷ text "wixsite.com"
    ∷ text "blogspot.com"
    ∷ text "wordpress.com"
    ∷ text "shopify.com"
    ∷ text "myshopify.com"
    ∷ text "co.uk"
    ∷ text "org.uk"
    ∷ text "me.uk"
    ∷ text "gov.uk"
    ∷ text "ac.uk"
    ∷ text "co.jp"
    ∷ text "or.jp"
    ∷ text "ne.jp"
    ∷ text "com.au"
    ∷ text "net.au"
    ∷ text "org.au"
    ∷ text "co.nz"
    ∷ text "com.br"
    ∷ text "com.cn"
    ∷ text "com.mx"
    ∷ text "co.in"
    ∷ text "co.za"
    ∷ text "com.sg"
    ∷ text "co.kr"
    ∷ text "com.tr"
    ∷ text "com.tw"
    ∷ text "co.il"
    ∷ []

abbrev pub star : ℕ
star = b'*'

abbrev pub dot : ℕ
dot = b'.'

abbrev pub wildcard_prefix : Text
wildcard_prefix = star ∷ dot ∷ []

abbrev pub www_prefix : Text
www_prefix = text "www."

-- `.replace(/\.$/, '')`
strip_dot : Text → Text
strip_dot [] = []
strip_dot (c ∷ s) = if nat_beq c dot && is_empty s then [] else c ∷ strip_dot s

-- `.replace(/:\d+$/, '')`
strip_port : Text → Text
strip_port [] = []
strip_port (c ∷ s) =
    if nat_beq c b':' && (not (is_empty s) && all is_digit s) then [] else c ∷ strip_port s

unfoldable pub normalize_one_domain : Text → Text
unfolding strip_dot strip_port
normalize_one_domain raw = strip_port (strip_dot (lower (trim raw)))

-- The second domain that the loop adds beside `d`, if any.
unfoldable pub paired : Text → Option Text
paired d =
    if not (starts_with d wildcard_prefix) && not (has_char star d)
    then if starts_with d www_prefix
      then some (drop 4 d)
      else if nat_beq (part_count dot d) 2
      then some (www_prefix ++ d)
      else none
    else none

add_option : Option Text → List Text → List Text
add_option none out = out
add_option (some d) out = add d out

normalize_step : List Text → Text → List Text
unfolding add_option
normalize_step out raw =
    let d = normalize_one_domain raw in
    if is_empty d then out else add_option (paired d) (add d out)

normalize_from : List Text → List Text → List Text
unfolding normalize_step
normalize_from out [] = out
normalize_from out (raw ∷ raws) = normalize_from (normalize_step out raw) raws

unfoldable pub normalize_domains : List Text → List Text
unfolding normalize_from
normalize_domains raws = normalize_from [] raws

-- The base of a binding: the domain without a leading `*.`.
abbrev pub base_of : Text → Text
base_of d = if starts_with d wildcard_prefix then drop 2 d else d

unfoldable pub assert_domains_acceptable : List Text → Result (Unit {0})
assert_domains_acceptable [] = ok tt
assert_domains_acceptable (d ∷ ds) = do
  guard (leb 2 (part_count dot (base_of d))) bad_request
  guard (not (includes (base_of d) public_suffixes)) bad_request
  assert_domains_acceptable ds

-- `h.endsWith(t)`
unfoldable pub ends_with : Text → Text → Bool
ends_with h t = leb (length t) (length h) && text_beq (drop (length h - length t) h) t

-- The part of `hostMatchesPattern` below the test of `base`.
covers_base : Text → Text → Bool
unfolding ends_with
covers_base h base =
    if text_beq h base
    then true
    else if not (ends_with h (dot ∷ base))
    then false
    else let label = take (length h - length base - 1) h in
      not (is_empty label) && not (has_char dot label)

unfoldable pub host_matches_pattern : Text → Text → Bool
unfolding covers_base
host_matches_pattern host pattern =
    let h = lower host in
    let pat = lower pattern in
    if not (starts_with pat wildcard_prefix)
    then text_beq h pat
    else let base = drop 2 pat in
      if is_empty base || has_char star base then false else covers_base h base

unfoldable pub host_allowed : Text → List Text → Bool
host_allowed host domains =
    if is_empty domains then true else any (λ d. host_matches_pattern host d) domains
