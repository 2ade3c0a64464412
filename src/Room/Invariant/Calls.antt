-- ===== src/Room/Invariant/Calls.antt =====
-- web/src/lib/board-socket-manager.ts: `sendRoomMessage` and `disconnectRoom` keep the invariant.
use scylladb_grpc_microservi.Common.{
  ℕ, List, ◌+◌, ◌<◌, ◌≡◌, ◌≢◌, ◌⊎◌, inl, inr, refl, false, none, some, arith, Option-cases,
  Bool-cases, [], ◌∷◌, ◌++◌,
}
use scylladb_grpc_microservi.Room.State.{
  SocketState, ReadyState, Room, Message, or_zero, set_entry, notify_state, queued, close_socket,
  is_open,
}
use scylladb_grpc_microservi.Room.Events.{abort_pending, disconnect_room, send_room_message}
use scylladb_grpc_microservi.Room.Invariant.{Inv, current, ready_of}

module _ (r : Room) (i : Inv r) where
  abbrev enqueued : Message → Room
  enqueued m = record r { queue = some (queued r.queue ++ m ∷ []) }

  -- What a send does: the message goes out on the open socket, or else to the end of the queue.
  pub send_room_message_cases :
      (m : Message)
      → ((t : ℕ) × (r.socket ≡ some t)
          × (ready_of r t ≡ ReadyState.opened)
          × (send_room_message m r ≡ record r { sent = r.sent ++ (t, m) ∷ [] }))
        ⊎ (((t : ℕ) → ready_of r t ≢ ReadyState.opened) × (send_room_message m r ≡ enqueued m))
  unfolding send_room_message
  send_room_message_cases m = elim (Option-cases r.socket) [
    | inl absent ↦ inr (λ t e. ground (arith, i.live_current t), ground arith)
    | inr (t, there) ↦ elim (Bool-cases (is_open (ready_of r t))) [
      | inl is ↦ inl (t, there, ground arith, ground arith)
      | inr other ↦ inr (λ u e. ground (arith, i.live_current u), ground arith)
    ]
  ]

  enqueued-Inv : (m : Message) → ((t : ℕ) → ready_of r t ≢ ReadyState.opened) → Inv (enqueued m)
  enqueued-Inv m h = record {
    socket_live = i.socket_live;
    live_current = i.live_current;
    pending_current = i.pending_current;
    unused_entry = i.unused_entry;
    timer_closed = i.timer_closed;
    retry_past = i.retry_past;
    retries_zero = i.retries_zero;
    queue_flushed = λ u e. absurd (h u e);
  }

  sent-Inv : (l : List (ℕ × Message)) → Inv (record r { sent = l })
  sent-Inv l = record {
    socket_live = i.socket_live;
    live_current = i.live_current;
    pending_current = i.pending_current;
    unused_entry = i.unused_entry;
    timer_closed = i.timer_closed;
    retry_past = i.retry_past;
    retries_zero = i.retries_zero;
    queue_flushed = i.queue_flushed;
  }

  pub send_room_message-Inv : (m : Message) → Inv (send_room_message m r)
  send_room_message-Inv m = elim (send_room_message_cases m) [
    | inl (t, there, is, e) ↦ rw e (sent-Inv (r.sent ++ (t, m) ∷ []))
    | inr (shut, e) ↦ rw e (enqueued-Inv m shut)
  ]

  abbrev given_up : Room
  given_up = abort_pending (record r { token = some (or_zero r.token + 1) })

  given_up-pending : given_up.pending ≡ none
  unfolding abort_pending
  given_up-pending = ground arith

  given_up-token : given_up.token ≡ some (current r + 1)
  unfolding abort_pending
  given_up-token = ground arith

  given_up-entry : (t : ℕ) → given_up.entries t ≡ r.entries t
  unfolding abort_pending
  given_up-entry t = ground arith

  given_up-kept :
      (given_up.socket ≡ r.socket) × (given_up.queue ≡ r.queue) × (given_up.sent ≡ r.sent)
  unfolding abort_pending
  given_up-kept = ground arith

  given_up-aborted : (t : ℕ) → current r + 1 < t → given_up.aborted t ≡ false
  unfolding abort_pending
  given_up-aborted t h = elim (Option-cases r.pending) [
    | inl idle ↦ ground (arith, i.unused_entry t)
    | inr (p, busy) ↦ ground (arith, i.unused_entry t, i.pending_current p busy)
  ]

  -- With no socket, a disconnect bumps the token and gives the pending attempt up.
  disconnect_idle-Inv : r.socket ≡ none → Inv given_up
  disconnect_idle-Inv s = record {
    socket_live = λ u e. ground (arith, given_up-kept);
    live_current = λ u e. ground (arith, i.live_current u, given_up-entry u);
    pending_current = λ q e. ground (arith, given_up-pending);
    unused_entry = λ u e.
        ground (arith, i.unused_entry u, given_up-token, given_up-entry u, given_up-aborted u);
    timer_closed = λ u d e. ground (arith, i.timer_closed u d, given_up-token, given_up-entry u);
    retry_past = λ u a e. ground (arith, i.retry_past u a, given_up-token, given_up-entry u);
    retries_zero = λ u e. ground (arith, i.retries_zero u, given_up-entry u);
    queue_flushed = λ u e. ground (arith, i.queue_flushed u, given_up-kept, given_up-entry u);
  }

  -- The room after a disconnect that finds the socket `t`.
  abbrev shut : ℕ → Room
  shut t =
      record (close_socket t (set_entry t (record (r.entries t) { retry_timer = none }) given_up)) {
        socket = none;
        queue = none;
        notified = given_up.notified ++ SocketState.closed ∷ [];
      }

  shut-Inv : (t : ℕ) → r.socket ≡ some t → Inv (shut t)
  shut-Inv t s = record {
    socket_live = λ u e. cc;
    live_current = λ u e. ground (arith, i.live_current u, i.socket_live t s, given_up-entry u);
    pending_current = λ q e. ground (arith, given_up-pending);
    unused_entry = λ u e. ground (
      arith,
      i.unused_entry u,
      i.live_current t (i.socket_live t s),
      given_up-token,
      given_up-entry u,
      given_up-aborted u,
    );
    timer_closed = λ u d e. ground (arith, i.timer_closed u d, given_up-token, given_up-entry u);
    retry_past = λ u a e. ground (arith, i.retry_past u a, given_up-token, given_up-entry u);
    retries_zero = λ u e. ground (arith, i.retries_zero u, i.socket_live t s, given_up-entry u);
    queue_flushed = λ u e. refl;
  }

  disconnect_room-shut : (t : ℕ) → r.socket ≡ some t → disconnect_room r ≡ shut t
  unfolding disconnect_room notify_state
  disconnect_room-shut t s = ground arith

  disconnect_room-idle : r.socket ≡ none → disconnect_room r ≡ given_up
  unfolding disconnect_room
  disconnect_room-idle s = ground arith

  pub disconnect_room-Inv : Inv (disconnect_room r)
  disconnect_room-Inv = elim (Option-cases r.socket) [
    | inl absent ↦ rw (disconnect_room-idle absent) (disconnect_idle-Inv absent)
    | inr (t, there) ↦ rw (disconnect_room-shut t there) (shut-Inv t there)
  ]
