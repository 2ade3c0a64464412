-- ===== src/Room/Connect.antt =====
-- web/src/lib/board-socket-manager.ts: `connectRoom`, in the pieces between its pauses.
use scylladb_grpc_microservi.Common.{
  ℕ, ◌+◌, String, Bool, none, some, ◌==◌, not, ◌||◌, if◌then◌else◌,
}
use scylladb_grpc_microservi.Room.State.{
  SocketState, ReadyState, ConnectOptions, Room, no_entry, or_zero, token_is, is_open,
  is_connecting, notify_state, set_entry, evict,
}

-- What `connectRoom` returns: the open socket, the promise of the pending attempt, a promise of the
-- socket that is connecting, or the promise of a new attempt.
pub data Connection : Type 0 where
  existing joined waiting started : ℕ → Connection

-- The new attempt, up to its first pause.
unfoldable pub start_attempt : Room → Room × Connection
unfolding notify_state
start_attempt r =
    let t = or_zero r.token + 1 in
    (
      record (notify_state SocketState.connecting (record r { token = some t })) {
        pending = some t;
      },
      started t,
    )

unfoldable pub connect_or_wait : Room → Room × Connection
connect_or_wait r = elim r.socket [
  | none ↦ start_attempt r
  | some t ↦ if is_connecting (r.entries t).ready then (r, waiting t) else start_attempt r
]

unfoldable pub connect_unless_pending : Room → Room × Connection
connect_unless_pending r = elim r.pending [
  | none ↦ connect_or_wait r
  | some p ↦ if p == or_zero r.token then (r, joined p) else connect_or_wait (evict p r)
]

-- `connectRoom`, up to its first pause.
unfoldable pub connect_room : Room → Room × Connection
connect_room r = elim r.socket [
  | none ↦ connect_unless_pending r
  | some t ↦ if is_open (r.entries t).ready then (r, existing t) else connect_unless_pending r
]

-- How an attempt's ticket request and the making of its socket end.
pub data TicketOutcome : Type 0 where
  ready : ConnectOptions → String → TicketOutcome
  failed : TicketOutcome

pub data AttemptResult : Type 0 where
  made : ℕ → AttemptResult
  superseded : AttemptResult
  rejected : AttemptResult

abbrev pub is_superseded : ℕ → Room → Bool
is_superseded t r = r.aborted t || not (token_is r t)

-- The attempt behind `await opts.fetchTicket`, its `catch` included.
unfoldable pub resume_attempt : ℕ → TicketOutcome → Room → Room × AttemptResult
resume_attempt t failed r =
    if is_superseded t r then (r, superseded) else (notify_state SocketState.error r, rejected)
resume_attempt t (ready opts ticket) r = if is_superseded t r then (r, superseded) else (
  record (set_entry t
      (record no_entry { ready = ReadyState.connecting; opts = opts; ticket = ticket }) r) {
        socket = some t;
      },
  made t,
)

-- The `finally` block.
unfoldable pub settle : ℕ → Room → Room
settle t r = elim r.pending [
  | none ↦ r
  | some p ↦ if p == t then record r { pending = none } else r
]

-- The rest of an attempt, in one piece: between its end and the `finally` block only the reactions of
-- promises run.
unfoldable pub finish_attempt : ℕ → TicketOutcome → Room → Room × AttemptResult
finish_attempt t outcome r = let (r', result) = resume_attempt t outcome r in (settle t r', result)
