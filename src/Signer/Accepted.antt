-- ===== src/Signer/Accepted.antt =====
-- A token that src/licensing/license-signer.service.ts has built is read back, and its signature holds.
use open_editor_text_backend.Base.{has_char, true, false, some, Text, text, text_eq, ◌≡◌, ok}
use open_editor_text_backend.Signer.{Payload}
use open_editor_text_backend.Signer.Der.{Bytes, der_to_p1363}
use open_editor_text_backend.Signer.Wire.{Node, dot, b64url, signing_input, split_dots, parts_of}

-- What Node documents: JSON that was written for a kid and a payload is read back, its buffers undo what
-- they have encoded, and base64 has no dot.
pub record IsNode (n : Node) (kid : Text) (p : Payload) : Type 0 where
  pub header_back :
      n.read_header (n.header_json (record { alg = text "ES256"; kid = kid }))
      ≡ some (record { alg = text "ES256"; kid = kid })
  pub payload_back : n.read_payload (n.payload_json p) ≡ some p
  pub utf8_back : (t : Text) → n.from_utf8 (n.utf8 t) ≡ t
  pub base64_back : (b : Bytes) → n.from_base64url (b64url n b) ≡ b
  pub base64_plain : (b : Bytes) → has_char dot (n.base64 b) ≡ false

-- A key checks what another signs, for any DER form of the same two numbers.
abbrev pub Pairs : Node → Text → Text → Type 0
Pairs n private public =
    (m : Text) (der : Bytes)
    → der_to_p1363 der 32 ≡ der_to_p1363 (n.sign_der private m) 32
    → n.verify public m der ≡ true

-- The parts of a token that was built.
record IsBuilt (n : Node) (pem kid : Text) (p : Payload) (token : Text) : Type 0 where
  pub sig : Bytes
  pub read_sig : der_to_p1363 (n.sign_der pem (signing_input n kid p)) 32 ≡ ok sig
  pub parts :
      parts_of (split_dots token)
      ≡ some (
        b64url n (n.utf8 (n.header_json (record { alg = text "ES256"; kid = kid }))),
        b64url n (n.utf8 (n.payload_json p)),
        b64url n sig,
      )
