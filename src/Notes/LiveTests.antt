-- ===== src/Notes/LiveTests.antt =====
-- web/src/modules/notes/components/note-view.tsx over web/src/lib/board-socket-manager.ts on a
-- concrete run: an edit on an open socket, which then breaks, and an edit before the next one.
use scylladb_grpc_microservi.Common.{
  String, Option, none, some, List, [], ◌∷◌, ◌≡◌, refl, inl, get, put, delete, keys, spread_keys,
  delete_all, str_eq, if◌then◌else◌,
}
use scylladb_grpc_microservi.Notes.Blocks.{
  PatchMessage, block_eq, is_changed, upsert, upsert_changed, diff_blocks, apply_patch,
  is_empty_patch,
}
use scylladb_grpc_microservi.Notes.Blocks.{Doc}
use scylladb_grpc_microservi.Notes.Sync.{NoteState}
use scylladb_grpc_microservi.Notes.Blocks.Laws.{SameBlocks}
use scylladb_grpc_microservi.Notes.Sync.{init, doc_eq, patch_to_send, on_change, receive}
use scylladb_grpc_microservi.Notes.Sync.Laws.{receive_all, patches}
use scylladb_grpc_microservi.Notes.Tests.{one, two, three, user, peer, editor}
use scylladb_grpc_microservi.Room.State.{
  ConnectOptions, Message, text, buffer, new_room, notify_state, flush_queue, schedule_reconnect,
  backoff,
}
use scylladb_grpc_microservi.Room.Connect.{
  ready, connect_room, connect_unless_pending, connect_or_wait, start_attempt, finish_attempt,
  resume_attempt, settle,
}
use scylladb_grpc_microservi.Room.Events.{on_open, on_close, on_timer, send_room_message}
use scylladb_grpc_microservi.Room.Runs.{
  connect, attempt_ends, socket_opens, socket_closes, timer_fires, step,
}
use scylladb_grpc_microservi.Room.Delivery.{frames, opened_by}
use scylladb_grpc_microservi.Room.Client.{
  Client, Live, Action, own, event, perform, send_each, read_all, LiveRun, begin, after,
}
use scylladb_grpc_microservi.Notes.Live.{Wire, patch_message, note_client}
use scylladb_grpc_microservi.Notes.Live.Laws.{reconnected-peer, reconnected_diverges}

program : Unit {0}
unfolding get put delete keys spread_keys delete_all block_eq is_changed upsert upsert_changed
    diff_blocks apply_patch is_empty_patch doc_eq patch_to_send on_change step new_room connect_room
    connect_unless_pending connect_or_wait start_attempt finish_attempt resume_attempt settle
    on_open on_close on_timer notify_state flush_queue schedule_reconnect send_room_message backoff
    patch_message send_each perform
program = tt

abbrev added : PatchMessage
added = record {
  upserted = ("b", record { kind = "Paragraph"; meta = "{}"; value = "world"; rest = "" }) ∷ [];
  deleted = [];
}

abbrev replaced : PatchMessage
replaced = record { upserted = three; deleted = "a" ∷ [] }

abbrev wire_text : List String → String
wire_text [] = "added"
wire_text (_ ∷ _) = "replaced"

abbrev read_message : Message → Option PatchMessage
read_message (text t) =
    if str_eq t "added" then some added else if str_eq t "replaced" then some replaced else none
read_message (buffer _) = none

abbrev wire : Wire
wire = record { encode = λ p. wire_text p.deleted; decode = read_message }

abbrev client : Client NoteState Doc PatchMessage
client = note_client wire

abbrev options : ConnectOptions
options = record { ws_url = "ws://localhost:9092"; path = "/ws/notes/n1" }

abbrev opening : Live NoteState
opening = perform client (event (socket_opens 1)) (
    perform client (event (attempt_ends 1 (ready options "t-1")))
      (perform client (event connect) (record { state = user; room = new_room })))

abbrev opening_actions : List (Action Doc)
opening_actions =
    event (socket_opens 1) ∷ event (attempt_ends 1 (ready options "t-1")) ∷ event connect ∷ []

opening_run : LiveRun client user opening_actions opening
unfolding program
opening_run =
    after
      (after (after begin (event connect) (tt, tt)) (event (attempt_ends 1 (ready options "t-1")))
        (inl refl, tt))
      (event (socket_opens 1)) (refl, tt)

abbrev broken : Live NoteState
broken = perform client (event (socket_closes 1 1006)) (perform client (own two) opening)

abbrev broken_actions : List (Action Doc)
broken_actions = event (socket_closes 1 1006) ∷ own two ∷ opening_actions

broken_run : LiveRun client user broken_actions broken
unfolding program
broken_run = after (after opening_run (own two) tt) (event (socket_closes 1 1006)) ((cc, cc), tt)

abbrev retried : Live NoteState
retried = perform client (event (timer_fires 1)) (perform client (own three) broken)

abbrev retried_actions : List (Action Doc)
retried_actions = event (timer_fires 1) ∷ own three ∷ broken_actions

retried_run : LiveRun client user retried_actions retried
unfolding program
retried_run = after (after broken_run (own three) tt) (event (timer_fires 1)) ((500, refl), tt)

retried_sent : (retried.state.sent ≡ added ∷ replaced ∷ []) × (retried.room.pending ≡ some 2)
unfolding program
retried_sent = (refl, refl)

reconnected-peer_example :
    let r' = opened_by 2 options "t-2" retried.room in
    (r'.queue ≡ none)
    × SameBlocks
        (receive_all editor (patches (read_all client (frames r'.sent))) peer).prev_value
        three
unfolding program
reconnected-peer_example =
    reconnected-peer wire editor peer retried_run refl (refl, (refl, tt)) (refl, refl)
      ((refl, refl), ((refl, refl), tt)) refl refl (λ id. refl) 2 options "t-2" refl

other_blocks : ¬ SameBlocks one three
unfolding get
other_blocks same = cc (same "a")

reconnected_diverges_example :
    let u = receive editor (init (some one)) retried.state in
    let far =
      receive_all editor
        (patches (read_all client (frames (opened_by 2 options "t-2" retried.room).sent)))
        peer in
    (u.prev_value ≡ one) × ¬ SameBlocks u.prev_value far.prev_value
unfolding program
reconnected_diverges_example =
    reconnected_diverges wire editor peer retried_run refl (refl, (refl, tt)) (refl, refl)
      ((refl, refl), ((refl, refl), tt)) refl refl (λ id. refl) 2 options "t-2" refl one refl
      (λ id. refl) other_blocks
