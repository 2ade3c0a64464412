-- ===== src/Room/Tests.antt =====
-- web/src/lib/board-socket-manager.ts on concrete rooms: a connection that opens, breaks and is
-- retried, and the theorems applied to it.
use scylladb_grpc_microservi.Common.{ℕ, List, [], ◌∷◌, ◌++◌, ◌≡◌, inl, refl, none, some, ◌+◌}
use scylladb_grpc_microservi.Room.State.{
  SocketState, ConnectOptions, Room, Message, text, new_room, notify_state, flush_queue,
  schedule_reconnect, queued, send_all, backoff,
}
use scylladb_grpc_microservi.Room.Connect.{
  ready, started, connect_room, connect_unless_pending, connect_or_wait, start_attempt,
  finish_attempt, resume_attempt, settle,
}
use scylladb_grpc_microservi.Room.Events.{
  on_open, on_close, on_timer, disconnect_room, send_room_message, get_room_state,
}
use scylladb_grpc_microservi.Room.Invariant.{current}
use scylladb_grpc_microservi.Room.Runs.{
  Event, connect, attempt_ends, socket_opens, socket_closes, timer_fires, send, step, Run, start,
  next, one_live_socket,
}
use scylladb_grpc_microservi.Room.Delivery.{
  transcript, sends, opened_by, Run-transcript, attempt_opens,
}
use scylladb_grpc_microservi.Room.Retries.{retry_delay, disconnect_keeps_timer}

program : Unit {0}
unfolding step new_room connect_room connect_unless_pending connect_or_wait start_attempt
    finish_attempt resume_attempt settle on_open on_close on_timer notify_state flush_queue
    schedule_reconnect send_room_message get_room_state backoff
program = tt

abbrev options : ConnectOptions
options = record { ws_url = "ws://localhost:9092"; path = "/ws/notes/n1" }

abbrev hello : Message
hello = text "hello"

abbrev got_ticket : Event
got_ticket = attempt_ends 1 (ready options "t-1")

-- The first attempt, with a message sent before it has a socket.
abbrev waiting_events : List Event
waiting_events = send hello ∷ connect ∷ []

abbrev waiting_room : Room
waiting_room = step (send hello) (step connect new_room)

waiting_run : Run new_room waiting_events waiting_room
waiting_run = next (next start connect tt) (send hello) tt

abbrev connecting_room : Room
connecting_room = step got_ticket waiting_room

connecting_run : Run new_room (got_ticket ∷ waiting_events) connecting_room
unfolding program
connecting_run = next waiting_run got_ticket (inl refl)

abbrev open_room : Room
open_room = step (socket_opens 1) connecting_room

open_run : Run new_room (socket_opens 1 ∷ got_ticket ∷ waiting_events) open_room
unfolding program
open_run = next connecting_run (socket_opens 1) refl

-- The connection breaks: the timer of its entry runs.
abbrev broken_room : Room
broken_room = step (socket_closes 1 1006) open_room

broken_run :
    Run new_room (socket_closes 1 1006 ∷ socket_opens 1 ∷ got_ticket ∷ waiting_events) broken_room
unfolding program
broken_run = next open_run (socket_closes 1 1006) (cc, cc)

abbrev retried_room : Room
retried_room = step (timer_fires 1) broken_room

retried_run :
    Run new_room
      (timer_fires 1 ∷ socket_closes 1 1006 ∷ socket_opens 1 ∷ got_ticket ∷ waiting_events)
      retried_room
unfolding program
retried_run = next broken_run (timer_fires 1) (500, refl)

open_state : (get_room_state open_room ≡ SocketState.opened) × (open_room.sent ≡ (1, hello) ∷ [])
unfolding program
open_state = (refl, refl)

retried_state : (retried_room.token ≡ some 2) × ((retried_room.entries 1).retry ≡ some 2)
unfolding program
retried_state = (refl, refl)

one_live_socket_example :
    (◌≡◌ {A = ℕ} 1 1) × (open_room.socket ≡ some 1) × (open_room.token ≡ some 1)
unfolding program
one_live_socket_example = one_live_socket open_run 1 1 refl refl

Run-transcript_example : transcript broken_room ≡ sends waiting_events
unfolding program
Run-transcript_example = Run-transcript broken_run (cc, (cc, (cc, (cc, (cc, tt)))))

attempt_opens_example :
    (get_room_state (opened_by 1 options "t-1" waiting_room) ≡ SocketState.opened)
    × ((opened_by 1 options "t-1" waiting_room).queue ≡ none)
    × ((opened_by 1 options "t-1" waiting_room).sent
        ≡ waiting_room.sent ++ send_all 1 (queued waiting_room.queue))
unfolding program
attempt_opens_example = attempt_opens waiting_run 1 options "t-1" refl

abbrev first_delay : ℕ
first_delay = 500

retry_delay_example : first_delay ≡ 500
unfolding program
retry_delay_example = retry_delay broken_run 1 500 refl

disconnect_keeps_timer_example :
    let s = disconnect_room broken_room in
    ((s.entries 1).retry_timer ≡ some 500)
    × (s.queue ≡ broken_room.queue)
    × ((on_timer 1 s).1 ≡ started (current broken_room + 2))
unfolding program
disconnect_keeps_timer_example = disconnect_keeps_timer broken_run 1 500 refl refl
