-- ===== src/Room/Invariant/Sockets.antt =====
-- web/src/lib/board-socket-manager.ts: the events of a socket and of the timer keep the invariant.
use scylladb_grpc_microservi.Common.{
  ℕ, ◌+◌, ◌≡◌, ◌≢◌, inl, inr, refl, true, false, none, some, arith, Option-cases, Bool-cases, [],
  ◌∷◌, ◌++◌, ◌==◌,
}
use scylladb_grpc_microservi.Room.State.{
  SocketState, ReadyState, Room, token_is, set_entry, notify_state, flush_queue, schedule_reconnect,
  backoff,
}
use scylladb_grpc_microservi.Room.Events.{on_open, on_close, on_error}
use scylladb_grpc_microservi.Room.Invariant.{Inv, ready_of}

module _ (r : Room) (i : Inv r) (t : ℕ) where
  -- A socket that opens is the room's current one, so the "stale connection" branch is not taken.
  pub on_open-current :
      ready_of r t ≡ ReadyState.connecting
      → on_open t r
        ≡ notify_state SocketState.opened (
            flush_queue t
              (set_entry t (record (r.entries t) { ready = ReadyState.opened; retries = 0 }) r))
  unfolding on_open
  on_open-current h = ground (arith, i.live_current t)

  opened-Inv :
      ready_of r t ≡ ReadyState.connecting
      → Inv (
          notify_state SocketState.opened (
            flush_queue t
              (set_entry t (record (r.entries t) { ready = ReadyState.opened; retries = 0 }) r)))
  unfolding notify_state flush_queue
  opened-Inv h = record {
    socket_live = λ u e. ground (arith, i.socket_live u);
    live_current = λ u e. ground (arith, i.live_current u);
    pending_current = λ q e. ground (arith, i.pending_current q);
    unused_entry = λ u e. ground (arith, i.unused_entry u);
    timer_closed = λ u d e. ground (arith, i.timer_closed u d);
    retry_past = λ u a e. ground (arith, i.retry_past u a);
    retries_zero = λ u e. ground (arith, i.retries_zero u);
    queue_flushed = λ u e. refl;
  }

  pub on_open-Inv : ready_of r t ≡ ReadyState.connecting → Inv (on_open t r)
  on_open-Inv h = rw (on_open-current h) (opened-Inv h)

  abbrev now_closed : Room
  now_closed = set_entry t (record (r.entries t) { ready = ReadyState.closed }) r

  -- The room after a close that is not the users' own, with the reconnect timer set.
  abbrev retrying : Room
  retrying =
      record (set_entry t
        (record (r.entries t) {
          ready = ReadyState.closed;
          retries = (r.entries t).retries + 1;
          retry_timer = some (backoff (r.entries t).retries);
        })
        now_closed) { socket = none; notified = r.notified ++ SocketState.error ∷ [] }

  pub on_close-stale : (code : ℕ) → token_is r t ≡ false → on_close t code r ≡ now_closed
  unfolding on_close
  on_close-stale code h = ground arith

  pub on_close-normal :
      token_is r t ≡ true
      → on_close t 1000 r
        ≡ record now_closed { socket = none; notified = r.notified ++ SocketState.closed ∷ [] }
  unfolding on_close notify_state
  on_close-normal h = ground arith

  pub on_close-retry :
      (code : ℕ) → token_is r t ≡ true → (code == 1000) ≡ false → on_close t code r ≡ retrying
  unfolding on_close notify_state schedule_reconnect
  on_close-retry code h c = ground arith

  not_pending : token_is r t ≡ true → ready_of r t ≢ ReadyState.absent → r.pending ≡ none
  not_pending h a = elim (Option-cases r.pending) [
    | inl idle ↦ idle
    | inr (p, busy) ↦ absurd (ground (arith, i.pending_current p busy))
  ]

  first_delay : ready_of r t ≢ ReadyState.closed → backoff (r.entries t).retries ≡ 500
  unfolding backoff
  first_delay h = rw (i.retries_zero t h)

  module _ (made : ready_of r t ≢ ReadyState.absent) where
    stale-Inv : token_is r t ≡ false → Inv now_closed
    stale-Inv h = record {
      socket_live = λ u e. ground (arith, i.socket_live u, i.live_current u);
      live_current = λ u e. ground (arith, i.live_current u);
      pending_current = λ q e. ground (arith, i.pending_current q);
      unused_entry = λ u e. ground (arith, i.unused_entry u);
      timer_closed = λ u d e. ground (arith, i.timer_closed u d);
      retry_past = λ u a e. ground (arith, i.retry_past u a);
      retries_zero = λ u e. ground (arith, i.retries_zero u);
      queue_flushed = λ u e. ground (arith, i.queue_flushed u);
    }

    normal-Inv :
        token_is r t ≡ true
        → Inv
            (record now_closed { socket = none; notified = r.notified ++ SocketState.closed ∷ [] })
    normal-Inv h = record {
      socket_live = λ u e. cc;
      live_current = λ u e. ground (arith, i.live_current u);
      pending_current = λ q e. ground (arith, i.pending_current q);
      unused_entry = λ u e. ground (arith, i.unused_entry u);
      timer_closed = λ u d e. ground (arith, i.timer_closed u d);
      retry_past = λ u a e. ground (arith, i.retry_past u a);
      retries_zero = λ u e. ground (arith, i.retries_zero u);
      queue_flushed = λ u e. ground (arith, i.queue_flushed u);
    }

    retrying-Inv : token_is r t ≡ true → ready_of r t ≢ ReadyState.closed → Inv retrying
    retrying-Inv h n = record {
      socket_live = λ u e. cc;
      live_current = λ u e. ground (arith, i.live_current u);
      pending_current = λ q e. ground (arith, i.pending_current q);
      unused_entry = λ u e. ground (arith, i.unused_entry u);
      timer_closed = λ u d e. ground (arith, i.timer_closed u d, first_delay n, not_pending h made);
      retry_past = λ u a e. ground (arith, i.retry_past u a);
      retries_zero = λ u e. ground (arith, i.retries_zero u);
      queue_flushed = λ u e. ground (arith, i.queue_flushed u);
    }

  pub on_close-Inv :
      (code : ℕ)
      → ready_of r t ≢ ReadyState.absent
      → ready_of r t ≢ ReadyState.closed
      → Inv (on_close t code r)
  on_close-Inv code made n = elim (Bool-cases (token_is r t)) [
    | inr stale ↦ rw (on_close-stale code stale) (stale-Inv made stale)
    | inl here ↦ elim (Bool-cases (code == 1000)) [
      | inl normal ↦
          let e : code ≡ 1000 = ground arith in rw (e, on_close-normal here) (normal-Inv made here)
      | inr abnormal ↦ rw (on_close-retry code here abnormal) (retrying-Inv made here n)
    ]
  ]

pub on_error-Inv : (r : Room) → Inv r → Inv (on_error r)
unfolding on_error notify_state
on_error-Inv r i = record {
  socket_live = i.socket_live;
  live_current = i.live_current;
  pending_current = i.pending_current;
  unused_entry = i.unused_entry;
  timer_closed = i.timer_closed;
  retry_past = i.retry_past;
  retries_zero = i.retries_zero;
  queue_flushed = i.queue_flushed;
}
