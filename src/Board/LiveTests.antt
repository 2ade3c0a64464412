-- ===== src/Board/LiveTests.antt =====
-- web/src/modules/whiteboard/components/whiteboard-canvas.tsx over web/src/lib/board-socket-manager.ts
-- on a concrete run: a document sent on an open socket, which then breaks, and one before the next.
use scylladb_grpc_microservi.Common.{
  String, Option, none, some, List, [], ◌∷◌, map, ◌≡◌, refl, inl, true,
}
use scylladb_grpc_microservi.Room.State.{
  ConnectOptions, Message, text, buffer, new_room, notify_state, flush_queue, schedule_reconnect,
  backoff,
}
use scylladb_grpc_microservi.Room.Connect.{
  ready, connect_room, connect_unless_pending, connect_or_wait, start_attempt, finish_attempt,
  resume_attempt, settle,
}
use scylladb_grpc_microservi.Room.Events.{on_open, on_close, on_timer, send_room_message}
use scylladb_grpc_microservi.Room.Runs.{
  connect, attempt_ends, socket_opens, socket_closes, timer_fires, step,
}
use scylladb_grpc_microservi.Room.Delivery.{frames, opened_by}
use scylladb_grpc_microservi.Room.Client.{
  Client, Live, Action, own, event, perform, send_each, LiveRun, begin, after,
}
use scylladb_grpc_microservi.Board.{Payload, object, BoardState, extract_document_payload}
use scylladb_grpc_microservi.Board.Laws.{on_messages, shown}
use scylladb_grpc_microservi.Board.Sending.{Sending, on_edit, on_time, fire, send_op}
use scylladb_grpc_microservi.Board.Live.{
  Wire, BoardAction, edited, time_is, loaded, snapshot_message, board_client,
}
use scylladb_grpc_microservi.Board.Live.Laws.{reconnected-canvas}

program : Unit {0}
unfolding step new_room connect_room connect_unless_pending connect_or_wait start_attempt
    finish_attempt resume_attempt settle on_open on_close on_timer notify_state flush_queue
    schedule_reconnect send_room_message backoff send_each perform on_edit on_time fire send_op
    snapshot_message extract_document_payload
program = tt

abbrev parse_frame : Message → Option Payload
parse_frame (text t) = some (object (some (some t)) (some "snapshot") t)
parse_frame (buffer _) = none

abbrev wire : Wire
wire = record { snapshot = λ clock document. document; parse = parse_frame }

abbrev client : Client Sending BoardAction String
client = board_client wire

abbrev options : ConnectOptions
options = record { ws_url = "ws://localhost:9093"; path = "/ws/boards/b1" }

abbrev blank : Sending
blank = record { document = "blank"; debounce_timer = none; sent = [] }

abbrev first : Live Sending
first = perform client (own (time_is 300)) (
    perform client (own (edited 100 "square")) (
      perform client (own (loaded "stored")) (
        perform client (event (socket_opens 1)) (
          perform client (event (attempt_ends 1 (ready options "t-1")))
            (perform client (event connect) (record { state = blank; room = new_room }))))))

abbrev first_actions : List (Action BoardAction)
first_actions =
    own (time_is 300)
    ∷ own (edited 100 "square")
    ∷ own (loaded "stored")
    ∷ event (socket_opens 1)
    ∷ event (attempt_ends 1 (ready options "t-1"))
    ∷ event connect
    ∷ []

first_run : LiveRun client blank first_actions first
unfolding program
first_run =
    after
      (after
        (after
          (after
            (after (after begin (event connect) (tt, tt))
              (event (attempt_ends 1 (ready options "t-1"))) (inl refl, tt))
            (event (socket_opens 1)) (refl, tt))
          (own (loaded "stored")) tt)
        (own (edited 100 "square")) tt)
      (own (time_is 300)) tt

abbrev second : Live Sending
second = perform client (event (timer_fires 1)) (
    perform client (own (time_is 650)) (
      perform client (own (edited 400 "circle"))
        (perform client (event (socket_closes 1 1006)) first)))

abbrev second_actions : List (Action BoardAction)
second_actions =
    event (timer_fires 1)
    ∷ own (time_is 650)
    ∷ own (edited 400 "circle")
    ∷ event (socket_closes 1 1006)
    ∷ first_actions

second_run : LiveRun client blank second_actions second
unfolding program
second_run =
    after
      (after
        (after (after first_run (event (socket_closes 1 1006)) ((cc, cc), tt))
          (own (edited 400 "circle")) tt)
        (own (time_is 650)) tt)
      (event (timer_fires 1)) ((500, refl), tt)

abbrev other_canvas : BoardState
other_canvas = record {
  editor = true;
  pending_document = none;
  loaded_snapshot = true;
  loaded_documents = "blank" ∷ [];
}

reconnected-canvas_example :
    let r' = opened_by 2 options "t-2" second.room in
    (r'.queue ≡ none)
    × (shown (on_messages (map wire.parse (frames r'.sent)) other_canvas) ≡ some "circle")
unfolding program
reconnected-canvas_example =
    reconnected-canvas wire (λ now d. refl) other_canvas second_run tt refl refl refl 2 options
      "t-2" refl
