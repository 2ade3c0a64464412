-- ===== src/Room/Invariant/Connecting.antt =====
-- web/src/lib/board-socket-manager.ts: `connectRoom` keeps the invariant.
use scylladb_grpc_microservi.Common.{
  ℕ, ◌+◌, ◌≡◌, ◌⊎◌, inl, inr, true, none, some, arith, Option-cases, Bool-cases,
}
use scylladb_grpc_microservi.Room.State.{Room, is_open}
use scylladb_grpc_microservi.Room.Connect.{
  Connection, existing, joined, waiting, start_attempt, connect_or_wait, connect_unless_pending,
  connect_room,
}
use scylladb_grpc_microservi.Room.Invariant.{Inv, is_live, current, ready_of}

module _ (r : Room) (i : Inv r) where
  start_attempt-Inv : r.socket ≡ none → r.pending ≡ none → Inv (start_attempt r).0
  unfolding start_attempt
  start_attempt-Inv s p = record {
    socket_live = λ t h. ground (arith, i.socket_live t);
    live_current = λ t h. ground (arith, i.live_current t);
    pending_current = λ q h. ground (arith, i.unused_entry (current r + 1));
    unused_entry = λ t h. ground (arith, i.unused_entry t);
    timer_closed = λ t d h. ground (arith, i.timer_closed t d);
    retry_past = λ t a h. ground (arith, i.retry_past t a);
    retries_zero = λ t h. i.retries_zero t h;
    queue_flushed = λ t h. i.queue_flushed t h;
  }

  pending_is_current : (p : ℕ) → r.pending ≡ some p → p ≡ current r
  pending_is_current p h = ground (arith, i.pending_current p h)

  connect_without_socket :
      r.socket ≡ none
      → ((c : Connection) × (connect_unless_pending r ≡ (r, c)))
        ⊎ ((r.pending ≡ none) × (connect_unless_pending r ≡ start_attempt r))
  unfolding connect_unless_pending connect_or_wait
  connect_without_socket s = elim (Option-cases r.pending) [
    | inl idle ↦ inr (idle, ground arith)
    | inr (p, busy) ↦ inl (joined p, ground (arith, pending_is_current p busy))
  ]

  -- While a socket is connecting or open, no attempt is pending.
  pub live_not_pending : (t : ℕ) → is_live (ready_of r t) ≡ true → r.pending ≡ none
  live_not_pending t live = elim (Option-cases r.pending) [
    | inl idle ↦ idle
    | inr (p, busy) ↦ absurd (ground (arith, i.pending_current p busy, i.live_current t live))
  ]

  connect_with_socket : (t : ℕ) → r.socket ≡ some t → (c : Connection) × (connect_room r ≡ (r, c))
  unfolding connect_room connect_unless_pending connect_or_wait
  connect_with_socket t there = elim (Bool-cases (is_open (ready_of r t))) [
    | inl yes_open ↦ (existing t, ground arith)
    | inr not_open ↦ (
      waiting t,
      ground (arith, i.socket_live t there, live_not_pending t (i.socket_live t there)),
    )
  ]

  -- A call of `connectRoom` either leaves the room as it is, or finds neither a socket nor a pending
  -- attempt and starts one.
  pub connect_room_cases :
      ((c : Connection) × (connect_room r ≡ (r, c)))
      ⊎ ((r.socket ≡ none) × (r.pending ≡ none) × (connect_room r ≡ start_attempt r))
  unfolding connect_room
  connect_room_cases = elim (Option-cases r.socket) [
    | inl absent ↦ elim (connect_without_socket absent) [
      | inl (c, kept) ↦ inl (c, ground arith)
      | inr (idle, begun) ↦ inr (absent, idle, ground arith)
    ]
    | inr (t, there) ↦ inl (connect_with_socket t there)
  ]

  -- With neither a socket nor a pending attempt a new one starts.
  pub connect_room_idle : r.socket ≡ none → r.pending ≡ none → connect_room r ≡ start_attempt r
  unfolding connect_room connect_unless_pending connect_or_wait
  connect_room_idle s p = ground arith

  pub connect_room-Inv : Inv (connect_room r).0
  connect_room-Inv = elim connect_room_cases [
    | inl (c, kept) ↦ rw kept i
    | inr (absent, idle, begun) ↦ rw begun (start_attempt-Inv absent idle)
  ]
