-- ===== src/Notes/Tests.antt =====
-- web/src/modules/notes/components/note-view.tsx on concrete documents, and the theorems applied to
-- them.
use scylladb_grpc_microservi.Common.{
  true, false, ◌&&◌, none, some, List, [], ◌∷◌, String, ◌≡◌, refl, get, put, delete, keys, str_eq,
  spread_keys, delete_all, eq_iff, Bool-cases, inl, inr,
}
use scylladb_grpc_microservi.Notes.Blocks.{
  Block, Doc, PatchMessage, block_eq, is_changed, upsert, upsert_changed, diff_blocks, apply_patch,
}
use scylladb_grpc_microservi.Notes.Blocks.Laws.{SameBlocks, apply_patch-diff_blocks}
use scylladb_grpc_microservi.Notes.Blocks.Commute.{touches}
use scylladb_grpc_microservi.Notes.Sync.{
  init, patch, EditorChange, set_editor_value, user_edit, set_children, Editor, NoteState,
  handle_editor_ready, on_change, doc_eq,
}
use scylladb_grpc_microservi.Notes.Sync.Laws.{receive_all, patches, handle_editor_ready-receive_all}
use scylladb_grpc_microservi.Notes.Sync.Echo.{change_back_not_sent}

abbrev paragraph : String → Block
paragraph text = record { kind = "Paragraph"; meta = "{}"; value = text; rest = "" }

abbrev pub one : Doc
one = ("a", paragraph "hello") ∷ []

abbrev pub two : Doc
two = ("a", paragraph "hello") ∷ ("b", paragraph "world") ∷ []

abbrev pub three : Doc
three = ("b", paragraph "there") ∷ []

program : Unit {0}
unfolding get put delete keys spread_keys delete_all block_eq is_changed upsert upsert_changed
    diff_blocks apply_patch
program = tt

-- The block "a" is deleted and the block "b" replaced.
patch_replaces :
    (diff_blocks two three ≡ record { upserted = three; deleted = "a" ∷ [] })
    × (apply_patch two (diff_blocks two three) ≡ three)
unfolding program
patch_replaces = (refl, refl)

apply_patch-diff_blocks_example : SameBlocks (apply_patch two (diff_blocks two three)) three
apply_patch-diff_blocks_example = apply_patch-diff_blocks two three two (λ id. refl)

abbrev patch_a : PatchMessage
patch_a = record { upserted = []; deleted = "a" ∷ [] }

abbrev patch_b : PatchMessage
patch_b = record { upserted = three; deleted = [] }

apart : (id : String) → touches patch_a id && touches patch_b id ≡ false
unfolding program
apart id = elim (Bool-cases (str_eq "a" id)) [
  | inl e ↦ rw⁻¹ ((eq_iff "a" id).0 e) refl
  | inr e ↦ rw e refl
]

abbrev value_after : List EditorChange → Doc → Doc
value_after [] d = d
value_after (set_editor_value v ∷ cs) d = value_after cs v
value_after (user_edit v ∷ cs) d = value_after cs v
value_after (set_children i v ∷ cs) d = value_after cs d

abbrev pub editor : Editor
editor = record { get_editor_value = λ cs. value_after cs []; has_block_editor = λ cs id. false }

abbrev pub user : NoteState
user = record {
  note_id = "n1";
  editor = true;
  editor_ready = true;
  applying_remote = 0;
  last_remote = some one;
  prev_value = one;
  pending = [];
  changes = [];
  sent = [];
}

abbrev pub peer : NoteState
peer = record user { changes = set_editor_value one ∷ [] }

abbrev fresh : NoteState
fresh = record user { editor = false; editor_ready = false; last_remote = none; prev_value = [] }

handle_editor_ready-receive_all_example :
    handle_editor_ready editor (receive_all editor (init (some one) ∷ patch patch_b ∷ []) fresh)
    ≡ receive_all editor (init (some one) ∷ patch patch_b ∷ []) (handle_editor_ready editor fresh)
handle_editor_ready-receive_all_example =
    handle_editor_ready-receive_all editor (init (some one) ∷ patch patch_b ∷ []) fresh refl refl

change_back_not_sent_example :
    let s' = on_change one (on_change two user) in
    (s'.sent ≡ (on_change two user).sent)
    × SameBlocks (receive_all editor (patches s'.sent) peer).prev_value two
    × SameBlocks s'.prev_value two
unfolding program doc_eq receive_all
change_back_not_sent_example =
    change_back_not_sent editor one two user peer refl (refl, refl, refl) refl
      (refl, refl, λ id. refl)
