-- ===== src/Sessions/Dead.antt =====
-- A refresh of src/delivery/session.service.ts under the token of a licence that is over.
use open_editor_text_backend.Base.{text_eq, or_else, or_else}
