-- ===== src/Room/Invariant/Attempt.antt =====
-- web/src/lib/board-socket-manager.ts: the end of an attempt keeps the invariant.
use scylladb_grpc_microservi.Common.{
  ℕ, ◌≡◌, ◌≢◌, ◌⊎◌, inl, inr, String, true, false, none, some, arith, Bool-cases,
}
use scylladb_grpc_microservi.Room.State.{
  SocketState, ReadyState, ConnectOptions, Room, no_entry, set_entry, notify_state,
}
use scylladb_grpc_microservi.Room.Connect.{
  TicketOutcome, ready, failed, made, superseded, rejected, is_superseded, resume_attempt, settle,
  finish_attempt,
}
use scylladb_grpc_microservi.Room.Invariant.{Inv, is_live, ready_of}
use scylladb_grpc_microservi.Room.Invariant.Connecting.{live_not_pending}

-- The room with the socket of an attempt.
abbrev pub connected : ℕ → ConnectOptions → String → Room → Room
connected t opts ticket r =
    record (set_entry t
      (record no_entry { ready = ReadyState.connecting; opts = opts; ticket = ticket }) r) {
        socket = some t;
        pending = none;
      }

module _ (r : Room) (i : Inv r) (t : ℕ) where
  pending_valid : r.pending ≡ some t → is_superseded t r ≡ false
  pending_valid p = ground (arith, i.pending_current t p)

  -- The attempt that is pending is not superseded: with a ticket it makes the room's socket.
  pub finish_attempt-ready :
      (opts : ConnectOptions) (ticket : String)
      → r.pending ≡ some t
      → finish_attempt t (ready opts ticket) r ≡ (connected t opts ticket r, made t)
  unfolding finish_attempt resume_attempt settle
  finish_attempt-ready opts ticket p = ground (arith, pending_valid p)

  pub finish_attempt-failed :
      r.pending ≡ some t
      → finish_attempt t failed r
        ≡ (record (notify_state SocketState.error r) { pending = none }, rejected)
  unfolding finish_attempt resume_attempt settle notify_state
  finish_attempt-failed p = ground (arith, pending_valid p)

  -- An attempt that was superseded, and is not pending, changes nothing when it ends.
  pub finish_attempt-superseded :
      (o : TicketOutcome)
      → is_superseded t r ≡ true
      → r.pending ≢ some t
      → finish_attempt t o r ≡ (r, superseded)
  unfolding finish_attempt resume_attempt settle
  finish_attempt-superseded (ready opts ticket) s p = ground arith
  finish_attempt-superseded failed s p = ground arith

  no_live : r.pending ≡ some t → (u : ℕ) → is_live (ready_of r u) ≡ false
  no_live p u = elim (Bool-cases (is_live (ready_of r u))) [
    | inl live ↦ absurd (ground (arith, live_not_pending r i u live))
    | inr dead ↦ dead
  ]

  connected-Inv :
      (opts : ConnectOptions) (ticket : String)
      → r.pending ≡ some t
      → Inv (connected t opts ticket r)
  connected-Inv opts ticket p = record {
    socket_live = λ u h. ground arith;
    live_current = λ u h. ground (arith, no_live p u, i.pending_current t p);
    pending_current = λ q h. cc;
    unused_entry = λ u h. ground (arith, i.unused_entry u, i.pending_current t p);
    timer_closed = λ u d h. ground (arith, i.timer_closed u d, i.pending_current t p);
    retry_past = λ u a h. ground (arith, i.retry_past u a);
    retries_zero = λ u h. ground (arith, i.retries_zero u);
    queue_flushed = λ u h. ground (arith, i.queue_flushed u);
  }

  failed-Inv : Inv (record (notify_state SocketState.error r) { pending = none })
  unfolding notify_state
  failed-Inv = record {
    socket_live = i.socket_live;
    live_current = i.live_current;
    pending_current = λ q h. cc;
    unused_entry = i.unused_entry;
    timer_closed = λ u d h. ground (arith, i.timer_closed u d h);
    retry_past = i.retry_past;
    retries_zero = i.retries_zero;
    queue_flushed = i.queue_flushed;
  }

  pub finish_attempt-Inv :
      (o : TicketOutcome)
      → (r.pending ≡ some t) ⊎ ((is_superseded t r ≡ true) × (r.pending ≢ some t))
      → Inv (finish_attempt t o r).0
  finish_attempt-Inv (ready opts ticket) (inl p) =
      rw (finish_attempt-ready opts ticket p) (connected-Inv opts ticket p)
  finish_attempt-Inv failed (inl p) = rw (finish_attempt-failed p) failed-Inv
  finish_attempt-Inv o (inr (s, p)) = rw (finish_attempt-superseded o s p) i
