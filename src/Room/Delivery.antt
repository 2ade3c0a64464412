-- ===== src/Room/Delivery.antt =====
-- web/src/lib/board-socket-manager.ts: what becomes of the messages that are sent to a room.
use mathlib.Core.List.{append_assoc, append-nil}
use scylladb_grpc_microservi.Common.{
  ℕ, List, [], ◌∷◌, ◌++◌, ◌≡◌, ◌≢◌, inl, inr, refl, sym, ap, ◌∙◌, none, some, arith, All, String,
  Option-cases,
}
use scylladb_grpc_microservi.Room.State.{
  SocketState, ReadyState, ConnectOptions, Room, Message, new_room, queued, send_all, notify_state,
  flush_queue, set_entry, schedule_reconnect, evict,
}
use scylladb_grpc_microservi.Room.Connect.{
  TicketOutcome, ready, connect_room, connect_unless_pending, connect_or_wait, start_attempt,
  finish_attempt, resume_attempt, settle,
}
use scylladb_grpc_microservi.Room.Events.{
  on_open, on_close, on_error, on_timer, on_retry_rejected, send_room_message, get_room_state,
}
use scylladb_grpc_microservi.Room.Invariant.{Inv, ready_of}
use scylladb_grpc_microservi.Room.Invariant.Attempt.{connected, finish_attempt-ready}
use scylladb_grpc_microservi.Room.Invariant.Sockets.{on_open-current}
use scylladb_grpc_microservi.Room.Invariant.Calls.{send_room_message_cases}
use scylladb_grpc_microservi.Room.Runs.{
  Event, connect, attempt_ends, socket_opens, socket_closes, socket_fails, timer_fires,
  retry_rejected, disconnect, send, step, IsEnabled, Run, start, next, Run-Inv,
}

pub frames : List (ℕ × Message) → List Message
frames [] = []
frames ((t, m) ∷ l) = m ∷ frames l

-- What has been handed to any socket, then what waits.
abbrev pub transcript : Room → List Message
transcript r = frames r.sent ++ queued r.queue

-- The messages sent in a run, the first one first. The events of a run stand with the latest first.
abbrev pub sends : List Event → List Message
sends [] = []
sends (send m ∷ es) = sends es ++ m ∷ []
sends (_ ∷ es) = sends es

frames-append : (l k : List (ℕ × Message)) → frames (l ++ k) ≡ frames l ++ frames k
unfolding frames
frames-append [] k = refl
frames-append ((t, m) ∷ l) k = ap (◌∷◌ m) (frames-append l k)

frames-send_all : (t : ℕ) (ms : List Message) → frames (send_all t ms) ≡ ms
unfolding frames
frames-send_all t [] = refl
frames-send_all t (m ∷ ms) = ap (◌∷◌ m) (frames-send_all t ms)

frames-one : (t : ℕ) (m : Message) → frames ((t, m) ∷ []) ≡ m ∷ []
unfolding frames
frames-one t m = refl

-- The frames sent and the queue are as before.
abbrev Kept : Room → Room → Type 0
Kept r s = (s.sent ≡ r.sent) × (s.queue ≡ r.queue)

keep : (r s : Room) → Kept r s → transcript s ≡ transcript r ++ []
keep r s k = rw (k.0, k.1) (sym (append-nil (transcript r)))

connect_or_wait-Kept : (r : Room) → Kept r (connect_or_wait r).0
unfolding connect_or_wait start_attempt
connect_or_wait-Kept r = ground arith

connect_room-Kept : (r : Room) → Kept r (connect_room r).0
unfolding connect_room connect_unless_pending
connect_room-Kept r = elim (Option-cases r.pending) [
  | inl idle ↦ ground (arith, connect_or_wait-Kept r)
  | inr (p, busy) ↦ ground (arith, connect_or_wait-Kept r, connect_or_wait-Kept (evict p r))
]

finish_attempt-Kept : (t : ℕ) (o : TicketOutcome) (r : Room) → Kept r (finish_attempt t o r).0
unfolding finish_attempt resume_attempt settle notify_state
finish_attempt-Kept t (ready opts ticket) r = ground arith
finish_attempt-Kept t _ r = ground arith

on_error-Kept : (r : Room) → Kept r (on_error r)
unfolding on_error notify_state
on_error-Kept r = (refl, refl)

on_close-Kept : (t code : ℕ) (r : Room) → Kept r (on_close t code r)
unfolding on_close schedule_reconnect notify_state
on_close-Kept t code r = ground arith

on_timer-Kept : (t : ℕ) (r : Room) → Kept r (on_timer t r).0
unfolding on_timer
on_timer-Kept t r = connect_room-Kept (set_entry t (record (r.entries t) { retry_timer = none }) r)

on_retry_rejected-Kept : (t : ℕ) (r : Room) → Kept r (on_retry_rejected t r)
unfolding on_retry_rejected schedule_reconnect
on_retry_rejected-Kept t r = ground arith

on_open-transcript :
    (t : ℕ) (r : Room)
    → Inv r
    → ready_of r t ≡ ReadyState.connecting
    → transcript (on_open t r) ≡ transcript r
unfolding notify_state flush_queue
on_open-transcript t r i h = rw (on_open-current r i t h) (
    append-nil _
    ∙ frames-append r.sent (send_all t (queued r.queue))
    ∙ ap (λ l. frames r.sent ++ l) (frames-send_all t (queued r.queue)))

send-transcript :
    (m : Message) (r : Room) → Inv r → transcript (send_room_message m r) ≡ transcript r ++ m ∷ []
send-transcript m r i = elim (send_room_message_cases r i m) [
  | inl (t, there, is, e) ↦
      let flushed = i.queue_flushed t is in
      rw (e, flushed, frames-append, frames-one) (simp (append-nil))
  | inr (shut, e) ↦ rw e (sym (append_assoc (frames r.sent) (queued r.queue) (m ∷ [])))
]

step-transcript :
    (e : Event) (r : Room)
    → Inv r
    → IsEnabled e r
    → e ≢ disconnect
    → transcript (step e r) ≡ transcript r ++ sends (e ∷ [])
unfolding step
step-transcript connect r i h n = keep r (connect_room r).0 (connect_room-Kept r)
step-transcript (attempt_ends t o) r i h n =
    keep r (finish_attempt t o r).0 (finish_attempt-Kept t o r)
step-transcript (socket_opens t) r i h n =
    on_open-transcript t r i h ∙ sym (append-nil (transcript r))
step-transcript (socket_closes t code) r i h n = keep r (on_close t code r) (on_close-Kept t code r)
step-transcript socket_fails r i h n = keep r (on_error r) (on_error-Kept r)
step-transcript (timer_fires t) r i h n = keep r (on_timer t r).0 (on_timer-Kept t r)
step-transcript (retry_rejected t) r i h n =
    keep r (on_retry_rejected t r) (on_retry_rejected-Kept t r)
step-transcript disconnect r i h n = absurd (n refl)
step-transcript (send m) r i h n = send-transcript m r i

sends-cons : (e : Event) (es : List Event) → sends (e ∷ es) ≡ sends es ++ sends (e ∷ [])
sends-cons (send m) es = refl
sends-cons _ es = sym (append-nil (sends es))

-- In a run from a new room with no disconnect, what has been handed to sockets and then what waits
-- are exactly the messages that were sent, in order: none is lost, doubled or overtaken.
pub Run-transcript :
    {es : List Event} {r : Room}
    → Run new_room es r
    → All (λ e. e ≢ disconnect) es
    → transcript r ≡ sends es
unfolding new_room frames
Run-transcript start h = refl
Run-transcript (next {es} {s} run e on) (n, h) =
    step-transcript e s (Run-Inv run) on n
    ∙ ap (λ l. l ++ sends (e ∷ [])) (Run-transcript run h)
    ∙ sym (sends-cons e es)

-- The room in which the pending attempt has its ticket and its socket has opened.
abbrev pub opened_by : ℕ → ConnectOptions → String → Room → Room
opened_by t opts ticket r = on_open t (finish_attempt t (ready opts ticket) r).0

connected_opens :
    (t : ℕ) (opts : ConnectOptions) (ticket : String) (r : Room)
    → r.token ≡ some t
    → (get_room_state (on_open t (connected t opts ticket r)) ≡ SocketState.opened)
      × ((on_open t (connected t opts ticket r)).queue ≡ none)
      × ((on_open t (connected t opts ticket r)).sent ≡ r.sent ++ send_all t (queued r.queue))
unfolding on_open get_room_state notify_state flush_queue
connected_opens t opts ticket r h = ground arith

-- After any run, a pending attempt that gets its ticket and whose socket opens leaves the room open:
-- every waiting message has been handed to this socket, in order, and none waits.
pub attempt_opens :
    {es : List Event} {r : Room} (run : Run new_room es r) (t : ℕ) (opts : ConnectOptions)
    (ticket : String)
    → r.pending ≡ some t
    → (get_room_state (opened_by t opts ticket r) ≡ SocketState.opened)
      × ((opened_by t opts ticket r).queue ≡ none)
      × ((opened_by t opts ticket r).sent ≡ r.sent ++ send_all t (queued r.queue))
attempt_opens {r} run t opts ticket p =
    let i = Run-Inv run in
    rw (finish_attempt-ready r i t opts ticket p)
      (connected_opens t opts ticket r (i.pending_current t p).0)

-- Then the frames of all sockets are the transcript of the room before.
pub frames-opened_by :
    {es : List Event} {r : Room} (run : Run new_room es r) (t : ℕ) (opts : ConnectOptions)
    (ticket : String)
    → r.pending ≡ some t
    → frames (opened_by t opts ticket r).sent ≡ transcript r
frames-opened_by {r} run t opts ticket p =
    ap frames (attempt_opens run t opts ticket p).2
    ∙ frames-append r.sent (send_all t (queued r.queue))
    ∙ ap (λ l. frames r.sent ++ l) (frames-send_all t (queued r.queue))
