-- ===== src/Board/Live.antt =====
-- web/src/modules/whiteboard/components/whiteboard-canvas.tsx over web/src/lib/board-socket-manager.ts:
-- a canvas as a user of its room. The text of a snapshot and the parsing of a frame are parameters.
pub mod Laws
use mathlib.Core.List.{append-nil}
use scylladb_grpc_microservi.Common.{
  ℕ, String, Option, none, some, List, [], ◌∷◌, ◌++◌, map, leb, if◌then◌else◌, ◌≡◌, refl, sym, ap,
  ◌∙◌, inl, inr, arith, Option-cases, Bool-cases,
}
use scylladb_grpc_microservi.Room.State.{Message, text, ConnectOptions}
use scylladb_grpc_microservi.Room.Delivery.{frames, opened_by}
use scylladb_grpc_microservi.Room.Client.{
  Client, Live, Action, own, event, LiveRun, read_all, state_after, emitted,
}
use scylladb_grpc_microservi.Room.Client.Laws.{read_all-append, LiveRun-state, LiveRun-opened}
use scylladb_grpc_microservi.Board.{Payload, BoardState}
use scylladb_grpc_microservi.Board.Laws.{
  on_messages, document_of, last_document, shown, on_messages-shown,
}
use scylladb_grpc_microservi.Board.Sending.{Sending, on_edit, on_time, fire, send_op}

-- `JSON.stringify` of a snapshot with its clock, and what `messageDataToText` and `JSON.parse` make of
-- a frame.
pub record Wire : Type 0 where
  pub snapshot : (clock : ℕ) → (document : String) → String
  pub parse : Message → Option Payload

-- The user edits, time has come to `now`, or the canvas loads a document that a message brought, which
-- leaves the timer as it is.
pub data BoardAction : Type 0 where
  edited : (now : ℕ) → (document : String) → BoardAction
  time_is : (now : ℕ) → BoardAction
  loaded : (document : String) → BoardAction

abbrev pub act : BoardAction → Sending → Sending
act (edited now document) s = on_edit now document s
act (time_is now) s = on_time now s
act (loaded document) s = record s { document = document }

-- The message of `sendOp`, when the timer is due.
unfoldable pub snapshot_message : Wire → ℕ → Option ℕ → String → List Message
snapshot_message w now none document = []
snapshot_message w now (some due) document =
    if leb due now then text (w.snapshot now document) ∷ [] else []

abbrev pub emits : Wire → BoardAction → Sending → List Message
emits w (edited now document) s = []
emits w (time_is now) s = snapshot_message w now s.debounce_timer s.document
emits w (loaded document) s = []

abbrev pub board_client : Wire → Client Sending BoardAction String
board_client w = record { act = act; emits = emits w; read = λ m. document_of (w.parse m) }
