-- ===== src/Room/Invariant/Timers.antt =====
-- web/src/lib/board-socket-manager.ts: the retry timer keeps the invariant.
use scylladb_grpc_microservi.Common.{
  ℕ, ◌+◌, ◌≤◌, ◌<◌, ◌≡◌, inl, inr, refl, Option, none, some, arith,
}
use native.Mathlib.Decide.{ℕ_discrete}
use scylladb_grpc_microservi.Room.State.{Room, set_entry, schedule_reconnect}
use scylladb_grpc_microservi.Room.Connect.{start_attempt, connect_room}
use scylladb_grpc_microservi.Room.Events.{on_timer, on_retry_rejected, attempt_of}
use scylladb_grpc_microservi.Room.Invariant.{Inv, current}
use scylladb_grpc_microservi.Room.Invariant.Connecting.{
  connect_room_cases, connect_room-Inv, connect_room_idle,
}

module _ (r : Room) (i : Inv r) (t : ℕ) where
  abbrev fired : Room
  fired = set_entry t (record (r.entries t) { retry_timer = none }) r

  fired-Inv : Inv fired
  fired-Inv = record {
    socket_live = λ u e. ground (arith, i.socket_live u);
    live_current = λ u e. ground (arith, i.live_current u);
    pending_current = λ q e. ground (arith, i.pending_current q);
    unused_entry = λ u e. ground (arith, i.unused_entry u);
    timer_closed = λ u d e. ground (arith, i.timer_closed u d);
    retry_past = λ u a e. ground (arith, i.retry_past u a);
    retries_zero = λ u e. ground (arith, i.retries_zero u);
    queue_flushed = λ u e. ground (arith, i.queue_flushed u);
  }

  -- The entry waits for a promise only if an attempt with a later token exists.
  set_retry-Inv :
      (o : Option ℕ) → t < current r → Inv (set_entry t (record (r.entries t) { retry = o }) r)
  set_retry-Inv o h = record {
    socket_live = λ u e. ground (arith, i.socket_live u);
    live_current = λ u e. ground (arith, i.live_current u);
    pending_current = λ q e. ground (arith, i.pending_current q);
    unused_entry = λ u e. ground (arith, i.unused_entry u);
    timer_closed = λ u d e. ground (arith, i.timer_closed u d);
    retry_past = λ u a e. ground (arith, i.retry_past u a);
    retries_zero = λ u e. ground (arith, i.retries_zero u);
    queue_flushed = λ u e. ground (arith, i.queue_flushed u);
  }

start_attempt-current : (r : Room) → current (start_attempt r).0 ≡ current r + 1
unfolding start_attempt
start_attempt-current r = refl

-- After a timer has fired, the token is past its entry's.
connect_past :
    (r : Room) (i : Inv r) (t : ℕ)
    → t ≤ current r
    → (t ≡ current r → (r.socket ≡ none) × (r.pending ≡ none))
    → t < current (connect_room r).0
connect_past r i t le idle = elim (ℕ_discrete t (current r)) [
  | yes e ↦
      rw (connect_room_idle r i (idle e).0 (idle e).1) (omega (arith, start_attempt-current r, e))
  | no ne ↦ elim (connect_room_cases r i) [
    | inl (c, kept) ↦ rw kept (omega arith)
    | inr (absent, pending, begun) ↦ rw begun (omega (arith, start_attempt-current r))
  ]
]

module _ (r : Room) (i : Inv r) (t d : ℕ) (due : (r.entries t).retry_timer ≡ some d) where
  pub on_timer-Inv : Inv (on_timer t r).0
  unfolding on_timer
  on_timer-Inv =
      set_retry-Inv (connect_room (fired r i t)).0
        (connect_room-Inv (fired r i t) (fired-Inv r i t)) t
        (attempt_of (connect_room (fired r i t)).1)
        (connect_past (fired r i t) (fired-Inv r i t) t (i.timer_closed t d due).1
          (i.timer_closed t d due).3)

-- When the promise that a timer waits for is rejected, its entry's token is past: no new timer is set.
pub on_retry_rejected-gives_up :
    (r : Room) (i : Inv r) (t a : ℕ)
    → (r.entries t).retry ≡ some a
    → on_retry_rejected t r ≡ set_entry t (record (r.entries t) { retry = none }) r
unfolding on_retry_rejected schedule_reconnect
on_retry_rejected-gives_up r i t a h = ground (arith, i.retry_past t a)

pub on_retry_rejected-Inv :
    (r : Room) (i : Inv r) (t a : ℕ) → (r.entries t).retry ≡ some a → Inv (on_retry_rejected t r)
on_retry_rejected-Inv r i t a h =
    rw (on_retry_rejected-gives_up r i t a h) (set_retry-Inv r i t none (i.retry_past t a h))
