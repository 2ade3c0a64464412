-- ===== src/Room/Retries.antt =====
-- web/src/lib/board-socket-manager.ts: reconnecting, and what a disconnect ends and does not end.
use scylladb_grpc_microservi.Common.{
  ℕ, List, ◌+◌, ◌≡◌, false, none, some, arith, inl, inr, Bool-cases,
}
use scylladb_grpc_microservi.Room.State.{SocketState, Room, new_room, set_entry, notify_state}
use scylladb_grpc_microservi.Room.Connect.{
  started, superseded, TicketOutcome, start_attempt, connect_room, connect_or_wait,
  connect_unless_pending, finish_attempt,
}
use scylladb_grpc_microservi.Room.Events.{
  on_timer, on_retry_rejected, disconnect_room, abort_pending, get_room_state,
}
use scylladb_grpc_microservi.Room.Invariant.{Inv, is_live, current, ready_of}
use scylladb_grpc_microservi.Room.Invariant.Timers.{on_retry_rejected-gives_up}
use scylladb_grpc_microservi.Room.Invariant.Attempt.{finish_attempt-superseded}
use scylladb_grpc_microservi.Room.Invariant.Calls.{disconnect_room-Inv}
use scylladb_grpc_microservi.Room.Runs.{Event, Run, Run-Inv}

-- Every reconnect timer runs 500 ms: the exponential backoff never grows, since each new attempt has a
-- new entry with no retries.
pub retry_delay :
    {es : List Event} {r : Room}
    → Run new_room es r
    → (t d : ℕ) → (r.entries t).retry_timer ≡ some d
    → d ≡ 500
retry_delay run t d h = ((Run-Inv run).timer_closed t d h).0

-- When the attempt that a timer began is rejected, no further timer is set: the handler changes
-- nothing but its own record of the promise that it waited for.
pub retry_rejected_stops :
    {es : List Event} {r : Room} (run : Run new_room es r) (t a : ℕ)
    → (r.entries t).retry ≡ some a
    → on_retry_rejected t r ≡ set_entry t (record (r.entries t) { retry = none }) r
retry_rejected_stops {r} run t a h = on_retry_rejected-gives_up r (Run-Inv run) t a h

disconnect_sockets : (r : Room) → (disconnect_room r).socket ≡ none
unfolding disconnect_room abort_pending notify_state
disconnect_sockets r = ground arith

disconnect_token : (r : Room) → (disconnect_room r).token ≡ some (current r + 1)
unfolding disconnect_room abort_pending notify_state
disconnect_token r = ground arith

disconnect_pending : (r : Room) → (disconnect_room r).pending ≡ none
unfolding disconnect_room abort_pending notify_state
disconnect_pending r = ground arith

shut_state : (r : Room) → r.socket ≡ none → get_room_state r ≡ SocketState.closed
unfolding get_room_state
shut_state r h = ground arith

-- After a disconnect, which may come at any time, no socket is connecting or open, and the state
-- reads "closed".
pub disconnect_ends :
    {es : List Event} {r : Room} (run : Run new_room es r) (t : ℕ)
    → (is_live (ready_of (disconnect_room r) t) ≡ false)
      × (get_room_state (disconnect_room r) ≡ SocketState.closed)
disconnect_ends {r} run t =
    let s = disconnect_room r in
    let j = disconnect_room-Inv r (Run-Inv run) in
    (
      elim (Bool-cases (is_live (ready_of s t))) [
        | inl live ↦ absurd (ground (arith, j.live_current t live, disconnect_sockets r))
        | inr dead ↦ dead
      ],
      shut_state s (disconnect_sockets r),
    )

-- An attempt that is pending when the room is disconnected makes no socket when its ticket request
-- ends, in whichever way: it changes nothing.
pub disconnect_supersedes :
    {es : List Event} {r : Room} (run : Run new_room es r) (p : ℕ) (o : TicketOutcome)
    → r.pending ≡ some p
    → finish_attempt p o (disconnect_room r) ≡ (disconnect_room r, superseded)
disconnect_supersedes {r} run p o h =
    let i = Run-Inv run in
    finish_attempt-superseded (disconnect_room r) (disconnect_room-Inv r i) p o
      (ground (arith, disconnect_token r, i.pending_current p h))
      (ground (arith, disconnect_pending r))

timer_starts :
    (t : ℕ) (s : Room)
    → Inv s
    → (n : ℕ) → s.socket ≡ none
    → s.pending ≡ none
    → s.token ≡ some (n + 1)
    → (on_timer t s).1 ≡ started (n + 2)
unfolding on_timer connect_room connect_unless_pending connect_or_wait start_attempt
timer_starts t s j n a p k = ground arith

-- A disconnect between a lost connection and its reconnect timer does not stop the timer, and keeps
-- the waiting messages: when the timer fires, a new attempt starts although the room was left.
pub disconnect_keeps_timer :
    {es : List Event} {r : Room} (run : Run new_room es r) (t d : ℕ)
    → (r.entries t).retry_timer ≡ some d
    → r.socket ≡ none
    → let s = disconnect_room r in
      ((s.entries t).retry_timer ≡ some d)
      × (s.queue ≡ r.queue)
      × ((on_timer t s).1 ≡ started (current r + 2))
unfolding disconnect_room abort_pending
disconnect_keeps_timer {r} run t d h none_there = (
  ground arith,
  ground arith,
  timer_starts t (disconnect_room r) (disconnect_room-Inv r (Run-Inv run)) (current r)
      (disconnect_sockets r) (disconnect_pending r) (disconnect_token r),
)
