-- ===== src/Bundles/Tests.antt =====
-- Runs of src/delivery/bundle-url-signer.ts and src/delivery/watermark.ts, and their theorems at
-- inputs.
use open_editor_text_backend.Base.{
  true, [], ◌∷◌, ◌++◌, some, Text, text, text_eq, text_beq, ◌≡◌, refl, ap, ok, err, ◌>>=◌, find,
  forbidden, ◌↔◌, drop, trim,
}
use open_editor_text_backend.Base.Int.{ℤ, pos, ◌+ℤ◌, ◌≤ℤ◌}
use open_editor_text_backend.Bundles.{
  UrlConfig, SignedBundleUrl, sign_url, verify_url, watermark_token, apply_watermark,
  read_watermark, match_watermark, digest_for_licence,
}
use open_editor_text_backend.Bundles.Urls.{verify_url-sign_url}
use open_editor_text_backend.Bundles.Marks.{match_watermark-apply_watermark}

run : Unit {0}
unfolding text_beq sign_url verify_url watermark_token apply_watermark read_watermark
    match_watermark digest_for_licence trim ◌>>=◌ ◌+ℤ◌
run = tt

abbrev config : UrlConfig
config = record {
  url_signing_secret = text "s";
  signing_enabled = true;
  url_ttl_seconds = pos 600;
  public_base_url = [];
}

-- A stand-in for Node's HMAC that keeps the message after a prefix of digits.
abbrev toy_hmac : Text → Text → Text
toy_hmac key m = text "0123456789abcdef" ++ m

abbrev written : ℤ → Text
written n = text "t"

abbrev url : SignedBundleUrl
url = record { exp = pos 1600; sig = text "0123456789abcdefd.t" }

signs : sign_url toy_hmac written config (pos 1000) (text "d") ≡ ok url
unfolding run
signs = refl

same_message : (m n : Text) → toy_hmac (text "s") m ≡ toy_hmac (text "s") n → m ≡ n
same_message m n h = ap (λ t. drop 16 t) h

verify_url-sign_url_example :
    (verify_url toy_hmac written config (pos 1500) (text "d") (some (pos 1600)) url.sig ≡ ok tt)
    ↔ ((text "d" ≡ text "d") × (pos 1500 ≤ℤ pos 1600))
verify_url-sign_url_example =
    verify_url-sign_url toy_hmac written config (pos 1000) (pos 1500) (text "d") (text "d") url
      (λ m. refl) same_message refl signs

refuses_late :
    verify_url toy_hmac written config (pos 1601) (text "d") (some (pos 1600)) url.sig
    ≡ err forbidden
unfolding run
refuses_late = refl

refuses_other :
    verify_url toy_hmac written config (pos 1500) (text "e") (some (pos 1600)) url.sig
    ≡ err forbidden
unfolding run
refuses_other = refl

abbrev bytes : Text
bytes = text "let a"

match_watermark-apply_watermark_example :
    (read_watermark (apply_watermark toy_hmac bytes (text "k") (text "oe-1"))
      ≡ some (watermark_token toy_hmac (text "k") (text "oe-1")))
    × (match_watermark toy_hmac
          (apply_watermark toy_hmac bytes (text "k") (text "oe-1"))
          (text "k")
          (text "oe-1" ∷ [])
        ≡ find
            (λ x.
              text_beq
                (watermark_token toy_hmac (text "k") x)
                (watermark_token toy_hmac (text "k") (text "oe-1")))
            (text "oe-1" ∷ []))
match_watermark-apply_watermark_example =
    match_watermark-apply_watermark toy_hmac (text "k") bytes (text "oe-1") (text "oe-1" ∷ [])
      (λ m. refl) refl

-- A bundle that carries another mark before its own is traced to that one.
abbrev remarked : Text
remarked = apply_watermark toy_hmac (text "/*! oe-wm:ffffffffffffffff */") (text "k") (text "oe-1")

traced_wrongly : read_watermark remarked ≡ some (text "ffffffffffffffff")
unfolding run
traced_wrongly = refl

unstored :
    (digest_for_licence toy_hmac
      (λ b. text "x")
      config
      (record { stored = []; memo = [] })
      (text "d")
      (text "oe-1")).1
    ≡ text "d"
unfolding run
unstored = refl

stored_mark :
    (digest_for_licence toy_hmac
      (λ b. text "x")
      config
      (record { stored = (text "d", bytes) ∷ []; memo = [] })
      (text "d")
      (text "oe-1")).1
    ≡ text "x"
unfolding run
stored_mark = refl
