-- ===== src/Room/Client/Laws.antt =====
-- web/src/lib/board-socket-manager.ts with a user of it: what listeners can read of a live run.
use mathlib.Core.List.{append_assoc, append-nil}
use scylladb_grpc_microservi.Common.{
  ℕ, String, none, some, List, [], ◌∷◌, ◌++◌, All, ◌≡◌, ◌≢◌, refl, sym, ap, ◌∙◌, Option-cases, inl,
  inr,
}
use scylladb_grpc_microservi.Room.State.{Room, Message, ConnectOptions, new_room}
use scylladb_grpc_microservi.Room.Events.{send_room_message}
use scylladb_grpc_microservi.Room.Runs.{
  Event, connect, attempt_ends, socket_opens, socket_closes, socket_fails, timer_fires,
  retry_rejected, disconnect, send, step, IsEnabled, Run, start, next,
}
use scylladb_grpc_microservi.Room.Delivery.{
  frames, transcript, sends, opened_by, Run-transcript, attempt_opens, frames-opened_by,
}
use scylladb_grpc_microservi.Room.Client.{
  Client, Live, Action, own, event, send_each, perform, IsOther, LiveRun, begin, after, read_all,
  state_after, emitted,
}

sends_one : (e : Event) (es : List Event) → sends (e ∷ es) ≡ sends es ++ sends (e ∷ [])
sends_one (send m) es = refl
sends_one _ es = sym (append-nil (sends es))

-- A run of a room with no disconnect whose messages are `ms`.
abbrev pub Sent : List Message → Room → Type 0
Sent ms r = (es : List Event) × Run new_room es r × All (λ e. e ≢ disconnect) es × (sends es ≡ ms)

send_each-Sent : (ns ms : List Message) (r : Room) → Sent ms r → Sent (ms ++ ns) (send_each ns r)
unfolding send_each step
send_each-Sent [] ms r h = rw (append-nil ms) h
send_each-Sent (n ∷ ns) ms r (es, run, stays, same) = rw⁻¹ (append_assoc ms (n ∷ []) ns) (
    send_each-Sent ns (ms ++ n ∷ []) (send_room_message n r)
      (send n ∷ es, next run (send n) tt, (cc, stays), rw same refl))

module _ {S A X : Type 0} (c : Client S A X) where
  pub read_all-append :
      (ms ns : List Message) → read_all c (ms ++ ns) ≡ read_all c ms ++ read_all c ns
  read_all-append [] ns = refl
  read_all-append (m ∷ ms) ns = elim (Option-cases (c.read m)) [
    | inl e ↦ rw (e, read_all) (read_all-append ms ns)
    | inr (p, e) ↦ rw (e, read_all) (ap (◌∷◌ p) (read_all-append ms ns))
  ]

  other_unread : (e : Event) → IsOther c e → (e ≢ disconnect) × (read_all c (sends (e ∷ [])) ≡ [])
  other_unread disconnect h = absurd h
  other_unread (send m) h = (cc, rw (h, read_all) refl)
  other_unread connect h = (cc, refl)
  other_unread (attempt_ends t o) h = (cc, refl)
  other_unread (socket_opens t) h = (cc, refl)
  other_unread (socket_closes t k) h = (cc, refl)
  other_unread socket_fails h = (cc, refl)
  other_unread (timer_fires t) h = (cc, refl)
  other_unread (retry_rejected t) h = (cc, refl)

  pub LiveRun-state :
      {s : S} {acts : List (Action A)} {l : Live S}
      → LiveRun c s acts l
      → l.state ≡ state_after c s acts
  unfolding perform state_after
  LiveRun-state begin = refl
  LiveRun-state (after run (own a) h) = ap (c.act a) (LiveRun-state run)
  LiveRun-state (after run (event e) h) = LiveRun-state run

  -- A run of the room whose messages give listeners what the actions emitted.
  abbrev pub Emits : S → List (Action A) → Room → Type 0
  Emits s acts r = (ms : List Message) × Sent ms r × (read_all c ms ≡ emitted c s acts)

  event-Emits :
      (s : S) (acts : List (Action A)) (e : Event) (r : Room)
      → IsEnabled e r
      → IsOther c e
      → Emits s acts r
      → Emits s (event e ∷ acts) (step e r)
  unfolding emitted
  event-Emits s acts e r on other (ms, (es, run, stays, same), read) =
      let (n, unread) = other_unread e other in
      (
        ms ++ sends (e ∷ []),
        (e ∷ es, next run e on, (n, stays), sends_one e es ∙ ap (λ l. l ++ sends (e ∷ [])) same),
        read_all-append ms (sends (e ∷ []))
            ∙ ap (λ l. read_all c ms ++ l) unread
            ∙ append-nil (read_all c ms)
            ∙ read,
      )

  pub LiveRun-Emits :
      {s : S} {acts : List (Action A)} {l : Live S} → LiveRun c s acts l → Emits s acts l.room
  unfolding perform emitted
  LiveRun-Emits begin = ([], ([], start, tt, refl), refl)
  LiveRun-Emits {s} (after {acts} {l} run (own a) h) =
      let (ms, sent, read) = LiveRun-Emits run in
      let now = LiveRun-state run in
      let new = c.emits a l.state in
      (
        ms ++ new,
        send_each-Sent new ms l.room sent,
        read_all-append ms new
            ∙ ap (λ k. k ++ read_all c new) read
            ∙ ap (λ t. emitted c s acts ++ read_all c (c.emits a t)) now,
      )
  LiveRun-Emits {s} (after {acts} {l} run (event e) (on, other)) =
      event-Emits s acts e l.room on other (LiveRun-Emits run)

  -- Whatever the connection does, listeners can read in what went to sockets and then in what waits
  -- exactly what the actions emitted, in order.
  pub LiveRun-transcript :
      {s : S} {acts : List (Action A)} {l : Live S}
      → LiveRun c s acts l
      → read_all c (transcript l.room) ≡ emitted c s acts
  LiveRun-transcript run =
      let (ms, (es, room, stays, same), read) = LiveRun-Emits run in
      ap (read_all c) (Run-transcript room stays ∙ same) ∙ read

  -- Once the pending attempt has its ticket and its socket has opened, nothing waits, and listeners
  -- that get all frames read all that the actions emitted.
  pub LiveRun-opened :
      {s : S} {acts : List (Action A)} {l : Live S}
      → LiveRun c s acts l
      → (t : ℕ) (opts : ConnectOptions) (ticket : String) → l.room.pending ≡ some t
      → let r' = opened_by t opts ticket l.room in
        (r'.queue ≡ none) × (read_all c (frames r'.sent) ≡ emitted c s acts)
  LiveRun-opened run t opts ticket waits =
      let (ms, (es, room, stays, same), read) = LiveRun-Emits run in
      (
        (attempt_opens room t opts ticket waits).1,
        ap (read_all c) (frames-opened_by room t opts ticket waits) ∙ LiveRun-transcript run,
      )
