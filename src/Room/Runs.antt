-- ===== src/Room/Runs.antt =====
-- web/src/lib/board-socket-manager.ts: the events of a room in any order in which they can come.
use scylladb_grpc_microservi.Common.{ℕ, List, [], ◌∷◌, ◌≡◌, ◌≢◌, ◌⊎◌, true, some, arith}
use scylladb_grpc_microservi.Room.State.{ReadyState, Room, Message, new_room}
use scylladb_grpc_microservi.Room.Connect.{
  TicketOutcome, is_superseded, connect_room, finish_attempt,
}
use scylladb_grpc_microservi.Room.Events.{
  on_open, on_close, on_error, on_timer, on_retry_rejected, disconnect_room, send_room_message,
}
use scylladb_grpc_microservi.Room.Invariant.{Inv, is_live, ready_of, new_room-Inv}
use scylladb_grpc_microservi.Room.Invariant.Connecting.{connect_room-Inv}
use scylladb_grpc_microservi.Room.Invariant.Attempt.{finish_attempt-Inv}
use scylladb_grpc_microservi.Room.Invariant.Sockets.{on_open-Inv, on_close-Inv, on_error-Inv}
use scylladb_grpc_microservi.Room.Invariant.Timers.{on_timer-Inv, on_retry_rejected-Inv}
use scylladb_grpc_microservi.Room.Invariant.Calls.{send_room_message-Inv, disconnect_room-Inv}

pub data Event : Type 0 where
  connect : Event
  attempt_ends : ℕ → TicketOutcome → Event
  socket_opens : ℕ → Event
  socket_closes : ℕ → ℕ → Event
  socket_fails : Event
  timer_fires : ℕ → Event
  retry_rejected : ℕ → Event
  disconnect : Event
  send : Message → Event

unfoldable pub step : Event → Room → Room
step connect r = (connect_room r).0
step (attempt_ends t o) r = (finish_attempt t o r).0
step (socket_opens t) r = on_open t r
step (socket_closes t code) r = on_close t code r
step socket_fails r = on_error r
step (timer_fires t) r = (on_timer t r).0
step (retry_rejected t) r = on_retry_rejected t r
step disconnect r = disconnect_room r
step (send m) r = send_room_message m r

-- When an event can come. An attempt that has not ended is the pending one, or has been superseded:
-- `pending` is cleared only by the attempt's own end, by an abort, or by a later attempt.
abbrev pub IsEnabled : Event → Room → Type 0
IsEnabled (attempt_ends t o) r =
    (r.pending ≡ some t) ⊎ ((is_superseded t r ≡ true) × (r.pending ≢ some t))
IsEnabled (socket_opens t) r = ready_of r t ≡ ReadyState.connecting
IsEnabled (socket_closes t code) r =
    (ready_of r t ≢ ReadyState.absent) × (ready_of r t ≢ ReadyState.closed)
IsEnabled (timer_fires t) r = (d : ℕ) × ((r.entries t).retry_timer ≡ some d)
IsEnabled (retry_rejected t) r = (a : ℕ) × ((r.entries t).retry ≡ some a)
IsEnabled _ r = Unit

-- The events `es`, each enabled where it comes, lead from `r` to `s`.
pub data Run (r : Room) : List Event → Room → Type 0 where
  start : Run r [] r
  next :
      {es : List Event} {s : Room}
      → Run r es s
      → (e : Event) → IsEnabled e s
      → Run r (e ∷ es) (step e s)

pub step-Inv : (e : Event) (r : Room) → Inv r → IsEnabled e r → Inv (step e r)
unfolding step
step-Inv connect r i h = connect_room-Inv r i
step-Inv (attempt_ends t o) r i h = finish_attempt-Inv r i t o h
step-Inv (socket_opens t) r i h = on_open-Inv r i t h
step-Inv (socket_closes t code) r i (made, n) = on_close-Inv r i t code made n
step-Inv socket_fails r i h = on_error-Inv r i
step-Inv (timer_fires t) r i (d, due) = on_timer-Inv r i t d due
step-Inv (retry_rejected t) r i (a, h) = on_retry_rejected-Inv r i t a h
step-Inv disconnect r i h = disconnect_room-Inv r i
step-Inv (send m) r i h = send_room_message-Inv r i m

-- The invariant holds after any run from a new room.
pub Run-Inv : {es : List Event} {r : Room} → Run new_room es r → Inv r
Run-Inv start = new_room-Inv
Run-Inv (next {s} run e h) = step-Inv e s (Run-Inv run) h

-- At most one socket of a room is connecting or open; it is the one in the map, and its token is the
-- room's current one.
pub one_live_socket :
    {es : List Event} {r : Room}
    → Run new_room es r
    → (t u : ℕ) → is_live (ready_of r t) ≡ true
    → is_live (ready_of r u) ≡ true
    → (t ≡ u) × (r.socket ≡ some t) × (r.token ≡ some t)
one_live_socket {r} run t u ht hu =
    let i = Run-Inv run in ground (arith, i.live_current t ht, i.live_current u hu)
