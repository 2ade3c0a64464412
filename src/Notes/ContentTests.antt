-- ===== src/Notes/ContentTests.antt =====
-- web/src/modules/notes/components/note-view.tsx with an editor that keeps a document: the fast path
-- and the whole value on concrete documents.
use scylladb_grpc_microservi.Common.{
  String, true, some, List, [], ◌∷◌, ◌++◌, get, put, delete, keys, spread_keys, delete_all, str_eq,
  if◌then◌else◌, ◌≡◌, refl,
}
use scylladb_grpc_microservi.Notes.Blocks.{
  Doc, block_eq, is_changed, upsert, upsert_changed, diff_blocks, apply_patch,
}
use scylladb_grpc_microservi.Notes.Sync.{
  EditorChange, set_editor_value, set_children, user_edit, Editor, NoteState, apply_remote_value,
  doc_eq, remote_changes, text_changes, has_structural_change, turn,
}
use scylladb_grpc_microservi.Notes.Sync.Content.{IsGiven, apply_remote_value-IsGiven}
use scylladb_grpc_microservi.Notes.Tests.{two, peer}

abbrev set_block : String → String → Doc → Doc
set_block i v [] = []
set_block i v ((j, b) ∷ d) = (j, if str_eq i j then record b { value = v } else b) ∷ set_block i v d

abbrev changed : Doc → EditorChange → Doc
changed d (set_editor_value v) = v
changed d (user_edit v) = v
changed d (set_children i v) = set_block i v d

abbrev document : Doc → List EditorChange → Doc
document d [] = d
document d (c ∷ cs) = document (changed d c) cs

abbrev keeping : Editor
keeping = record { get_editor_value = document []; has_block_editor = λ cs id. true }

abbrev other : Doc
other =
    ("a", record { kind = "Paragraph"; meta = "{}"; value = "hello"; rest = "" })
    ∷ ("b", record { kind = "Paragraph"; meta = "{}"; value = "all"; rest = "" })
    ∷ []

program : Unit {0}
unfolding get put delete keys spread_keys delete_all block_eq is_changed upsert upsert_changed
    diff_blocks apply_patch doc_eq remote_changes text_changes has_structural_change turn
    apply_remote_value
program = tt

abbrev full_peer : NoteState
full_peer = record peer { prev_value = two; changes = set_editor_value two ∷ [] }

-- Only the block "b" differs, so only its children are set.
fast_path :
    (apply_remote_value keeping other full_peer).changes
    ≡ set_editor_value two ∷ set_children "b" "all" ∷ []
unfolding program
fast_path = refl

apply_remote_value-IsGiven_example :
    let s' = apply_remote_value keeping other full_peer in
    ((cs : List EditorChange) × (s'.changes ≡ full_peer.changes ++ cs)
      × IsGiven (keeping.get_editor_value full_peer.changes) other cs)
    × (s'.prev_value ≡ other)
    × (s'.last_remote ≡ some other)
unfolding program
apply_remote_value-IsGiven_example =
    apply_remote_value-IsGiven keeping other full_peer refl refl (refl, (refl, tt))
