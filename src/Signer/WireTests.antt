-- ===== src/Signer/WireTests.antt =====
-- A run of the wire format of src/licensing/license-signer.service.ts, and its theorem at an input.
use open_editor_text_backend.Base.{
  nat_eq, ◌-◌, ◌+◌, [], ◌∷◌, ◌++◌, some, Text, text, text_eq, text_beq,
}
use open_editor_text_backend.Signer.{Crypto, Signed, signed_of}
use open_editor_text_backend.Signer.Der.{Bytes}
use open_editor_text_backend.Signer.Der.Tests.{unit_signature}
use open_editor_text_backend.Signer.Wire.{
  Node, dot, b64url, signing_input, parse_token, checks_token,
}
use open_editor_text_backend.Signer.Tests.{before_rotation, payload}

-- A stand-in for Node: bytes are written as characters from 100 on, one payload is known, and every
-- signature is the DER form of 1 and 1, which checks under the retired key.
abbrev shifted : Bytes → Text
shifted [] = []
shifted (b ∷ bs) = (b + 100) ∷ shifted bs

abbrev unshifted : Text → Bytes
unshifted [] = []
unshifted (c ∷ s) = (c - 100) ∷ unshifted s

abbrev node : Node
node = record {
  header_json = λ h. h.kid;
  payload_json = λ p. p.lic;
  read_header = λ t. some (record { alg = text "ES256"; kid = t });
  read_payload = λ t. some payload;
  utf8 = λ t. t;
  from_utf8 = λ b. b;
  base64 = shifted;
  from_base64url = unshifted;
  sign_der = λ pem m. 0x30 ∷ 6 ∷ 2 ∷ 1 ∷ 1 ∷ 2 ∷ 1 ∷ 1 ∷ [];
  verify = λ pem m der. text_beq pem (text "pub1");
}

abbrev wired : Crypto
wired = record {
  mint = λ pem kid p. signing_input node kid p ++ (dot ∷ b64url node unit_signature);
  parse = parse_token node;
  checks = checks_token node;
}

abbrev minted : Signed
minted = signed_of wired before_rotation payload
