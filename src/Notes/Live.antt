-- ===== src/Notes/Live.antt =====
-- web/src/modules/notes/components/note-view.tsx over web/src/lib/board-socket-manager.ts: a note as a
-- user of its room. The text of a message, `JSON.stringify`, is a parameter, and so is what a listener
-- reads in a message.
pub mod Laws
use scylladb_grpc_microservi.Common.{Option, none, some, List, [], ◌∷◌, String}
use scylladb_grpc_microservi.Notes.Blocks.{Doc, PatchMessage}
use scylladb_grpc_microservi.Notes.Sync.{NoteState, patch_to_send, on_change}
use scylladb_grpc_microservi.Room.State.{Message, text}
use scylladb_grpc_microservi.Room.Client.{Client}

-- The JSON of a patch, and the patch, if it is one, that a listener reads in a message.
pub record Wire : Type 0 where
  pub encode : PatchMessage → String
  pub decode : Message → Option PatchMessage

-- `sendRoomMessage(id, JSON.stringify(patch))`, where `onChange` comes to it.
unfoldable pub patch_message : Wire → Option PatchMessage → List Message
patch_message w none = []
patch_message w (some p) = text (w.encode p) ∷ []

-- The actions are the values of the editor's changes.
abbrev pub note_client : Wire → Client NoteState Doc PatchMessage
note_client w = record {
  act = on_change;
  emits = λ value s. patch_message w (patch_to_send value s);
  read = w.decode;
}
