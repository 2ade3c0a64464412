-- ===== src/Board/Tests.antt =====
-- web/src/modules/whiteboard/components/whiteboard-canvas.tsx on concrete messages, and the theorems
-- applied to them.
use scylladb_grpc_microservi.Common.{arith, false, Option, none, some, List, [], ◌∷◌, ◌≡◌, refl}
use scylladb_grpc_microservi.Board.{
  Payload, object, no_object, extract_document_payload, BoardState,
}
use scylladb_grpc_microservi.Board.Laws.{last_document}
use scylladb_grpc_microservi.Board.Sending.{Sending, on_edit, on_time, edits}
use scylladb_grpc_microservi.Board.Sending.Laws.{burst-sent_once}

abbrev blank : BoardState
blank = record {
  editor = false;
  pending_document = none;
  loaded_snapshot = false;
  loaded_documents = [];
}

abbrev messages : List (Option Payload)
messages =
    some (object (some (some "d1")) none "m1")
    ∷ none
    ∷ some no_object
    ∷ some (object none (some "ack") "m2")
    ∷ []

acks_are_dropped : last_document messages none ≡ some "d1"
unfolding extract_document_payload
acks_are_dropped = refl

abbrev quiet : Sending
quiet = record { document = "d0"; debounce_timer = none; sent = [] }

burst-sent_once_example :
    (on_time 1500 (edits 1000 ((150, "d2") ∷ ((90, "d3") ∷ [])) (on_edit 1000 "d1" quiet))).sent
    ≡ "d3" ∷ []
burst-sent_once_example =
    burst-sent_once 1000 "d1" ((150, "d2") ∷ ((90, "d3") ∷ [])) quiet 1500
      (omega arith, (omega arith, tt)) (omega arith)
