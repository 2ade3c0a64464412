-- ===== src/Notes/Sync.antt =====
-- web/src/modules/notes/components/note-view.tsx: the live document of one note. The state is the
-- component's refs. The editor package is a parameter: what its value is, and which blocks have a
-- Slate editor, after the changes made so far.
pub mod Laws
pub mod Echo
pub mod Content
pub mod Concurrent
use scylladb_grpc_microservi.Common.{
  ℕ, ◌+◌, ◌-◌, String, Bool, true, false, ◌&&◌, ◌||◌, not, Option, none, some, List, [], ◌∷◌, ◌++◌,
  is_none, is_some, str_eq, is_blank, any, length, ◌==◌, ltb, Dict, get, keys, if◌then◌else◌,
}
use scylladb_grpc_microservi.Notes.Blocks.{
  Block, Doc, PatchMessage, block_eq, diff_blocks, apply_patch, is_empty_list, is_empty_patch,
}

-- The messages that are handled in order with the document; `unknown` is one of any other type.
pub data Incoming : Type 0 where
  init : Option Doc → Incoming
  patch : PatchMessage → Incoming
  unknown : Incoming

-- What happens to the editor: `setEditorValue`, new children of a block's Slate editor with its
-- `onChange`, or an edit of the user that leaves this value.
pub data EditorChange : Type 0 where
  set_editor_value : Doc → EditorChange
  set_children : (id value : String) → EditorChange
  user_edit : Doc → EditorChange

pub record Editor : Type 0 where
  pub get_editor_value : List EditorChange → Doc
  pub has_block_editor : List EditorChange → String → Bool

-- `editor` tells whether `editorRef` holds an editor. `last_remote` is the value whose text
-- `lastRemoteSnapshotRef` holds, `none` for the empty text. `sent` are the patches sent to the room.
pub record NoteState : Type 0 where
  pub note_id : String
  pub editor : Bool
  pub editor_ready : Bool
  pub applying_remote : ℕ
  pub last_remote : Option Doc
  pub prev_value : Doc
  pub pending : List Incoming
  pub changes : List EditorChange
  pub sent : List PatchMessage

-- A block on which `test` holds, or which is missing on one side.
abbrev pub either_differs : (Block → Block → Bool) → Option Block → Option Block → Bool
either_differs differs (some a) (some b) = differs a b
either_differs differs none none = false
either_differs differs _ _ = true

abbrev pub other_kind : Block → Block → Bool
other_kind a b = not (str_eq a.kind b.kind)

abbrev pub other_meta : Block → Block → Bool
other_meta a b = not (str_eq a.meta b.meta)

unfoldable pub has_structural_change : Doc → Doc → Bool
has_structural_change current value =
    not (length (keys current) == length (keys value))
    || any (λ id. is_none (get id value)) (keys current)
    || any (λ id. is_none (get id current)) (keys value)
    || any (λ id. either_differs other_kind (get id current) (get id value)) (keys value)
    || any (λ id. either_differs other_meta (get id current) (get id value)) (keys value)

-- One turn of the loop over the entries of the new value: nothing, one block, or, with the loop left,
-- the whole value.
pub data Turn : Type 0 where
  skip : Turn
  block : (id value : String) → Turn
  whole : Turn

unfoldable pub turn : Option Block → Bool → String → Block → Turn
turn none has_editor id b = skip
turn (some a) has_editor id b =
    if str_eq a.value b.value then skip else if has_editor then block id b.value else whole

unfoldable pub text_changes : Doc → (String → Bool) → Doc → Doc → List EditorChange
text_changes current has_editor value [] = []
text_changes current has_editor value ((id, b) ∷ entries) =
    let rest = text_changes current has_editor value entries in
    elim (turn (get id current) (has_editor id) id b) [
      | skip ↦ rest
      | block i v ↦ set_children i v ∷ rest
      | whole ↦ set_editor_value value ∷ []
    ]

unfoldable pub remote_changes : Doc → (String → Bool) → Doc → List EditorChange
unfolding has_structural_change text_changes turn
remote_changes current has_editor value =
    if has_structural_change current value
    then set_editor_value value ∷ []
    else text_changes current has_editor value value

-- `JSON.stringify(a) === JSON.stringify(b)` for two documents.
unfoldable pub doc_eq : Doc → Doc → Bool
doc_eq [] [] = true
doc_eq ((i, a) ∷ d) ((j, b) ∷ e) = str_eq i j && block_eq a b && doc_eq d e
doc_eq _ _ = false

abbrev pub is_last_remote : Option Doc → Doc → Bool
is_last_remote none value = false
is_last_remote (some d) value = doc_eq value d

module _ (e : Editor) where
  unfoldable pub apply_remote_value : Doc → NoteState → NoteState
  unfolding remote_changes
  apply_remote_value value s = if is_empty_list value || not s.editor then s else record s {
    applying_remote = s.applying_remote + 1;
    changes =
        s.changes
        ++ remote_changes (e.get_editor_value s.changes) (e.has_block_editor s.changes) value;
    last_remote = some value;
    prev_value = value;
  }

  unfoldable pub apply_incoming_message : Incoming → NoteState → NoteState
  apply_incoming_message (init none) s = s
  apply_incoming_message (init (some v)) s =
      apply_remote_value v (record s { prev_value = v; last_remote = some v })
  apply_incoming_message (patch p) s =
      if is_empty_list s.prev_value
      then record s { pending = s.pending ++ patch p ∷ [] }
      else apply_remote_value (apply_patch s.prev_value p)
          (record s { prev_value = apply_patch s.prev_value p })
  apply_incoming_message unknown s = s

  -- The end of the message listener.
  unfoldable pub receive : Incoming → NoteState → NoteState
  receive m s =
      if s.editor_ready
      then apply_incoming_message m s
      else record s { pending = s.pending ++ m ∷ [] }

  abbrev pub drain : List Incoming → NoteState → NoteState
  drain [] s = s
  drain (m ∷ ms) s = drain ms (apply_incoming_message m s)

  -- `handleEditorReady` with an editor, and with none.
  unfoldable pub handle_editor_ready : NoteState → NoteState
  handle_editor_ready s =
      drain s.pending (record s { editor = true; editor_ready = true; pending = [] })

unfoldable pub handle_editor_gone : NoteState → NoteState
handle_editor_gone s = record s { editor = false; editor_ready = false }

-- The timer that `applyRemoteValue` sets.
unfoldable pub remote_settled : NoteState → NoteState
remote_settled s = record s { applying_remote = s.applying_remote - 1 }

-- The effect that connects the room of another note.
unfoldable pub open_note : String → NoteState → NoteState
open_note id s = record s { note_id = id; prev_value = []; last_remote = none }

-- What `onChange` of the editor's subscription sends.
unfoldable pub patch_to_send : Doc → NoteState → Option PatchMessage
patch_to_send value s =
    let p = diff_blocks s.prev_value value in
    if ltb 0 s.applying_remote
      || is_last_remote s.last_remote value
      || is_blank s.note_id
      || is_empty_patch p
    then none
    else some p

unfoldable pub on_change : Doc → NoteState → NoteState
unfolding patch_to_send
on_change value s = elim (patch_to_send value s) [
  | none ↦ s
  | some p ↦ record s { prev_value = value; sent = s.sent ++ p ∷ [] }
]
