-- ===== src/Room/Invariant.antt =====
-- web/src/lib/board-socket-manager.ts: what holds of a room between two events.
pub mod Connecting
pub mod Attempt
pub mod Sockets
pub mod Timers
pub mod Calls
use scylladb_grpc_microservi.Common.{
  ℕ, ◌+◌, ◌≤◌, ◌<◌, ◌≡◌, ◌≢◌, ◌⊎◌, refl, Bool, true, false, Option, none, some, arith,
}
use scylladb_grpc_microservi.Room.State.{
  ReadyState, SocketEntry, Room, new_room, or_zero, is_open, is_connecting,
}

abbrev pub is_live : ReadyState → Bool
is_live ReadyState.connecting = true
is_live ReadyState.opened = true
is_live _ = false

-- `current` is the latest token, 0 before the first.
abbrev pub current : Room → ℕ
current r = or_zero r.token

abbrev pub ready_of : Room → ℕ → ReadyState
ready_of r t = (r.entries t).ready

pub record Inv (r : Room) : Type 0 where
  pub socket_live : (t : ℕ) → r.socket ≡ some t → is_live (ready_of r t) ≡ true
  pub live_current :
      (t : ℕ) → is_live (ready_of r t) ≡ true → (r.socket ≡ some t) × (r.token ≡ some t)
  pub pending_current :
      (p : ℕ)
      → r.pending ≡ some p
      → (r.token ≡ some p) × (ready_of r p ≡ ReadyState.absent) × (r.aborted p ≡ false)
  pub unused_entry :
      (t : ℕ)
      → current r < t
      → (ready_of r t ≡ ReadyState.absent)
        × ((r.entries t).retries ≡ 0)
        × ((r.entries t).retry_timer ≡ none)
        × ((r.entries t).retry ≡ none)
        × (r.aborted t ≡ false)
  pub timer_closed :
      (t d : ℕ)
      → (r.entries t).retry_timer ≡ some d
      → (d ≡ 500)
        × (t ≤ current r)
        × (ready_of r t ≡ ReadyState.closed)
        × (t ≡ current r → (r.socket ≡ none) × (r.pending ≡ none))
  pub retry_past : (t a : ℕ) → (r.entries t).retry ≡ some a → t < current r
  pub retries_zero : (t : ℕ) → ready_of r t ≢ ReadyState.closed → (r.entries t).retries ≡ 0
  pub queue_flushed : (t : ℕ) → ready_of r t ≡ ReadyState.opened → r.queue ≡ none

pub new_room-Inv : Inv new_room
unfolding new_room
new_room-Inv = record {
  socket_live = λ t h. cc;
  live_current = λ t h. cc;
  pending_current = λ p h. cc;
  unused_entry = λ t h. (refl, refl, refl, refl, refl);
  timer_closed = λ t d h. cc;
  retry_past = λ t a h. cc;
  retries_zero = λ t h. refl;
  queue_flushed = λ t h. cc;
}
