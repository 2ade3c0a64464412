-- ===== src/Room/Events.antt =====
-- web/src/lib/board-socket-manager.ts: the events of a socket and of the retry timer, and the calls
-- of the users of a room.
use scylladb_grpc_microservi.Common.{
  ℕ, ◌+◌, Option, none, some, [], ◌∷◌, ◌++◌, ◌==◌, not, if◌then◌else◌,
}
use scylladb_grpc_microservi.Room.State.{
  SocketState, ReadyState, Message, Room, or_zero, token_is, is_open, socket_ready, notify_state,
  set_entry, close_socket, queued, flush_queue, schedule_reconnect, evict,
}
use scylladb_grpc_microservi.Room.Connect.{
  Connection, existing, joined, waiting, started, connect_room,
}

-- The socket opens, and its "open" listener runs.
unfoldable pub on_open : ℕ → Room → Room
on_open t r =
    let e = r.entries t in
    let now_open = set_entry t (record e { ready = ReadyState.opened }) r in
    if not (token_is r t)
    then close_socket t now_open
    else notify_state SocketState.opened
        (flush_queue t (set_entry t (record e { ready = ReadyState.opened; retries = 0 }) r))

-- The socket has closed, and its "close" listener runs.
unfoldable pub on_close : ℕ → ℕ → Room → Room
on_close t code r =
    let now_closed = set_entry t (record (r.entries t) { ready = ReadyState.closed }) r in
    if not (token_is r t)
    then now_closed
    else if code == 1000
    then notify_state SocketState.closed (record now_closed { socket = none })
    else schedule_reconnect t (notify_state SocketState.error (record now_closed { socket = none }))

unfoldable pub on_error : Room → Room
on_error r = notify_state SocketState.error r

abbrev pub attempt_of : Connection → Option ℕ
attempt_of (existing t) = none
attempt_of (joined t) = some t
attempt_of (waiting t) = some t
attempt_of (started t) = some t

-- The reconnect timer of an entry fires: `connectRoom(entry.opts)`.
unfoldable pub on_timer : ℕ → Room → Room × Connection
on_timer t r =
    let (r', c) = connect_room (set_entry t (record (r.entries t) { retry_timer = none }) r) in
    (set_entry t (record (r'.entries t) { retry = attempt_of c }) r', c)

-- The timer's promise was rejected: the `catch` of its callback.
unfoldable pub on_retry_rejected : ℕ → Room → Room
on_retry_rejected t r = schedule_reconnect t (set_entry t (record (r.entries t) { retry = none }) r)

-- The pending attempt, if any, is aborted and forgotten.
unfoldable pub abort_pending : Room → Room
abort_pending r = elim r.pending [ none ↦ r | some p ↦ evict p r ]

unfoldable pub disconnect_room : Room → Room
unfolding abort_pending
disconnect_room r =
    let given_up = abort_pending (record r { token = some (or_zero r.token + 1) }) in
    elim r.socket [
      | none ↦ given_up
      | some t ↦
          notify_state SocketState.closed
            (record (close_socket t
              (set_entry t (record (r.entries t) { retry_timer = none }) given_up)) {
                socket = none;
                queue = none;
              })
    ]

unfoldable pub send_room_message : Message → Room → Room
send_room_message m r = elim r.socket [
  | none ↦ record r { queue = some (queued r.queue ++ m ∷ []) }
  | some t ↦
      if is_open (r.entries t).ready
      then record r { sent = r.sent ++ (t, m) ∷ [] }
      else record r { queue = some (queued r.queue ++ m ∷ []) }
]

unfoldable pub get_room_state : Room → SocketState
get_room_state r = elim (socket_ready r) [
  | ReadyState.absent ↦ SocketState.closed
  | ReadyState.connecting ↦ SocketState.connecting
  | ReadyState.opened ↦ SocketState.opened
  | ReadyState.closing ↦ SocketState.closed
  | ReadyState.closed ↦ SocketState.closed
]
