-- ===== src/Board/Laws.antt =====
-- web/src/modules/whiteboard/components/whiteboard-canvas.tsx: which document the canvas shows.
use scylladb_grpc_microservi.Common.{
  String, false, Option, none, some, List, [], ◌∷◌, ◌≡◌, refl, ◌∙◌, ap, arith, if◌then◌else◌,
}
use scylladb_grpc_microservi.Board.{
  Payload, extract_document_payload, BoardState, apply_snapshot, show_document, on_message,
  on_mount,
}

pub on_messages : List (Option Payload) → BoardState → BoardState
on_messages [] s = s
on_messages (m ∷ ms) s = on_messages ms (on_message m s)

-- The document of a message, if it has one.
abbrev pub document_of : Option Payload → Option String
document_of none = none
document_of (some p) = extract_document_payload p

-- The document of the last message that has one, or else `d`.
abbrev pub last_document : List (Option Payload) → Option String → Option String
last_document [] d = d
last_document (m ∷ ms) d = last_document ms (elim (document_of m) [ none ↦ d | some e ↦ some e ])

-- What the canvas shows, or will show when it is mounted.
abbrev pub shown : BoardState → Option String
shown s =
    if s.editor then elim s.loaded_documents [ [] ↦ none | d ∷ ds ↦ some d ] else s.pending_document

show_document-shown :
    (o : Option String) (s : BoardState)
    → shown (show_document o s) ≡ elim o [ none ↦ shown s | some e ↦ some e ]
unfolding show_document apply_snapshot
show_document-shown none s = refl
show_document-shown (some d) s = ground arith

on_message-shown :
    (m : Option Payload) (s : BoardState)
    → shown (on_message m s) ≡ elim (document_of m) [ none ↦ shown s | some e ↦ some e ]
unfolding on_message
on_message-shown none s = refl
on_message-shown (some p) s = show_document-shown (extract_document_payload p) s

-- Whatever messages come, the canvas shows (or, before it is mounted, will be given) the document of
-- the last message that has one, or else what it showed before.
pub on_messages-shown :
    (ms : List (Option Payload)) (s : BoardState)
    → shown (on_messages ms s) ≡ last_document ms (shown s)
unfolding on_messages
on_messages-shown [] s = refl
on_messages-shown (m ∷ ms) s =
    on_messages-shown ms (on_message m s) ∙ ap (last_document ms) (on_message-shown m s)

show_document_off :
    (o : Option String) (s : BoardState)
    → s.editor ≡ false
    → show_document o s
      ≡ record s { pending_document = elim o [ none ↦ s.pending_document | some e ↦ some e ] }
unfolding show_document
show_document_off none s off = refl
show_document_off (some d) s off = rw off refl

on_message_off :
    (m : Option Payload) (s : BoardState)
    → s.editor ≡ false
    → on_message m s ≡ record s { pending_document = last_document (m ∷ []) s.pending_document }
unfolding on_message
on_message_off none s off = refl
on_message_off (some p) s off = show_document_off (extract_document_payload p) s off

on_messages_off :
    (ms : List (Option Payload)) (s : BoardState)
    → s.editor ≡ false
    → on_messages ms s ≡ record s { pending_document = last_document ms s.pending_document }
unfolding on_messages
on_messages_off [] s off = refl
on_messages_off (m ∷ ms) s off =
    let s' = record s { pending_document = last_document (m ∷ []) s.pending_document } in
    ap (on_messages ms) (on_message_off m s off) ∙ on_messages_off ms s' off

mount_shows :
    (d : Option String) (s : BoardState)
    → s.loaded_snapshot ≡ false
    → s.loaded_documents ≡ []
    → shown (on_mount (record s { pending_document = d })) ≡ d
unfolding on_mount apply_snapshot
mount_shows none s fresh blank = rw (fresh, blank) refl
mount_shows (some d) s fresh blank = rw fresh refl

-- A canvas that is mounted for the first time, after any messages, shows the document of the last
-- message that has one, or else the one that was pending.
pub on_mount-shown :
    (ms : List (Option Payload)) (s : BoardState)
    → s.editor ≡ false
    → s.loaded_snapshot ≡ false
    → s.loaded_documents ≡ []
    → shown (on_mount (on_messages ms s)) ≡ last_document ms s.pending_document
on_mount-shown ms s off fresh blank =
    ap (λ t. shown (on_mount t)) (on_messages_off ms s off)
    ∙ mount_shows (last_document ms s.pending_document) s fresh blank
