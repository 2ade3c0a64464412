-- ===== src/Notes/ConcurrentTests.antt =====
-- web/src/modules/notes/components/note-view.tsx: two users at once on concrete documents.
use scylladb_grpc_microservi.Common.{
  String, false, some, [], ◌∷◌, get, put, delete, keys, spread_keys, delete_all, str_eq, eq_iff,
  Bool-cases, inl, inr, ◌&&◌, ◌≡◌, refl,
}
use scylladb_grpc_microservi.Notes.Blocks.{
  Block, Doc, block_eq, is_changed, upsert, upsert_changed, diff_blocks, apply_patch,
}
use scylladb_grpc_microservi.Notes.Blocks.Laws.{SameBlocks}
use scylladb_grpc_microservi.Notes.Blocks.Commute.{touches}
use scylladb_grpc_microservi.Notes.Sync.{NoteState, doc_eq, on_change}
use scylladb_grpc_microservi.Notes.Sync.Laws.{receive_all, patches}
use scylladb_grpc_microservi.Notes.Sync.Concurrent.{
  Typing, concurrent_edits_converge, concurrent_edits_swap,
}
use scylladb_grpc_microservi.Notes.Tests.{user, editor}

abbrev paragraph : String → Block
paragraph text = record { kind = "Paragraph"; meta = "{}"; value = text; rest = "" }

abbrev draft : (a b : String) → Doc
draft a b = ("a", paragraph a) ∷ ("b", paragraph b) ∷ []

abbrev reader : NoteState
reader = record user { last_remote = some (draft "one" "two"); prev_value = draft "one" "two" }

program : Unit {0}
unfolding get put delete keys spread_keys delete_all block_eq is_changed upsert upsert_changed
    diff_blocks apply_patch doc_eq
program = tt

first-Typing : Typing reader (draft "ONE" "two")
unfolding program
first-Typing = record {
  mounted = refl;
  sent_nothing = refl;
  is_sent = (refl, refl, refl);
  full = refl;
}

second-Typing : Typing reader (draft "one" "TWO")
unfolding program
second-Typing = record {
  mounted = refl;
  sent_nothing = refl;
  is_sent = (refl, refl, refl);
  full = refl;
}

third-Typing : Typing reader (draft "one" "2")
unfolding program
third-Typing = record {
  mounted = refl;
  sent_nothing = refl;
  is_sent = (refl, refl, refl);
  full = refl;
}

apart :
    (id : String)
    → touches (diff_blocks reader.prev_value (draft "ONE" "two")) id
        && touches (diff_blocks reader.prev_value (draft "one" "TWO")) id
      ≡ false
unfolding program
apart id = elim (Bool-cases (str_eq "a" id)) [
  | inl e ↦ rw⁻¹ ((eq_iff "a" id).0 e) refl
  | inr e ↦ rw e refl
]

concurrent_edits_converge_example :
    SameBlocks
      (receive_all editor
        (patches (on_change (draft "one" "TWO") reader).sent)
        (on_change (draft "ONE" "two") reader)).prev_value
      (receive_all editor
        (patches (on_change (draft "ONE" "two") reader).sent)
        (on_change (draft "one" "TWO") reader)).prev_value
concurrent_edits_converge_example =
    concurrent_edits_converge editor (draft "ONE" "two") (draft "one" "TWO") reader reader
      first-Typing second-Typing (λ id. refl) apart

concurrent_edits_swap_example :
    (get "b"
        (receive_all editor
          (patches (on_change (draft "one" "2") reader).sent)
          (on_change (draft "one" "TWO") reader)).prev_value
      ≡ some (paragraph "2"))
    × (get "b"
          (receive_all editor
            (patches (on_change (draft "one" "TWO") reader).sent)
            (on_change (draft "one" "2") reader)).prev_value
        ≡ some (paragraph "TWO"))
unfolding program
concurrent_edits_swap_example =
    concurrent_edits_swap editor (draft "one" "TWO") (draft "one" "2") reader reader "b"
      (paragraph "TWO") (paragraph "2") second-Typing third-Typing refl refl refl refl
