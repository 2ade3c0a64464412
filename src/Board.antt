-- ===== src/Board.antt =====
-- web/src/modules/whiteboard/components/whiteboard-canvas.tsx: the document of a board. The canvas
-- package, `JSON.parse` and the decoding of frames are parameters.
pub mod Sending
pub mod Mermaid
pub mod Laws
pub mod Live
mod Tests
mod LiveTests
use scylladb_grpc_microservi.Common.{
  String, Bool, true, false, Option, none, some, List, [], ◌∷◌, ◌++◌, truthy, is_some, opt_is,
  if◌then◌else◌,
}

-- A parsed message. `no_object` stands for a text that does not parse and for a value that is no
-- object. `document` is the member of this name, `none` where there is none; it is falsy in the inner
-- option's `none`. A document is its text.
pub data Payload : Type 0 where
  no_object : Payload
  object : (document : Option (Option String)) (type : Option String) (whole : String) → Payload

unfoldable pub extract_document_payload : Payload → Option String
extract_document_payload no_object = none
extract_document_payload (object (some document) type whole) = document
extract_document_payload (object none type whole) = if opt_is type "ack" then none else some whole

-- `editor` tells whether an editor is set; `loaded_documents` are the documents given to
-- `loadSnapshot`, the latest first.
pub record BoardState : Type 0 where
  pub editor : Bool
  pub pending_document : Option String
  pub loaded_snapshot : Bool
  pub loaded_documents : List String

unfoldable pub apply_snapshot : Option String → BoardState → BoardState
apply_snapshot none s = s
apply_snapshot (some d) s = record s {
  loaded_documents = d ∷ s.loaded_documents;
  loaded_snapshot = true;
  pending_document = none;
}

unfoldable pub show_document : Option String → BoardState → BoardState
show_document none s = s
show_document (some d) s =
    if s.editor then apply_snapshot (some d) s else record s { pending_document = some d }

-- The message listener, on the parsed text of the frame; a frame without a text, or with an empty one,
-- is `none`.
unfoldable pub on_message : Option Payload → BoardState → BoardState
on_message none s = s
on_message (some p) s = show_document (extract_document_payload p) s

-- The editor is set, and the effects that follow. What the canvas sends is not part of the state.
unfoldable pub on_mount : BoardState → BoardState
on_mount s =
    let s' = record s { editor = true } in
    if s.loaded_snapshot then s' else apply_snapshot s.pending_document s'
