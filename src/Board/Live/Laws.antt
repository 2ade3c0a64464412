-- ===== src/Board/Live/Laws.antt =====
-- web/src/modules/whiteboard/components/whiteboard-canvas.tsx over web/src/lib/board-socket-manager.ts:
-- edits made whatever the connection does, and what another canvas shows.
use mathlib.Core.List.{append-nil}
use scylladb_grpc_microservi.Common.{
  ℕ, String, Option, none, some, List, [], ◌∷◌, ◌++◌, map, leb, ◌≡◌, refl, sym, ap, ◌∙◌, inl, inr,
  arith, Option-cases, Bool-cases,
}
use scylladb_grpc_microservi.Room.State.{Message, text, ConnectOptions}
use scylladb_grpc_microservi.Room.Delivery.{frames, opened_by}
use scylladb_grpc_microservi.Room.Client.{
  Live, Action, own, event, LiveRun, read_all, state_after, emitted,
}
use scylladb_grpc_microservi.Room.Client.Laws.{LiveRun-state, LiveRun-opened}
use scylladb_grpc_microservi.Board.{BoardState}
use scylladb_grpc_microservi.Board.Laws.{
  on_messages, document_of, last_document, shown, on_messages-shown,
}
use scylladb_grpc_microservi.Board.Sending.{Sending, on_edit, on_time, fire, send_op}
use scylladb_grpc_microservi.Board.Live.{
  Wire, BoardAction, edited, time_is, loaded, snapshot_message, board_client,
}

-- The last of some documents, or else `d`.
abbrev pub last_of : List String → Option String → Option String
last_of [] d = d
last_of (e ∷ es) d = last_of es (some e)

last_of-append :
    (l k : List String) (d : Option String) → last_of (l ++ k) d ≡ last_of k (last_of l d)
last_of-append [] k d = refl
last_of-append (e ∷ l) k d = last_of-append l k (some e)

-- Since the user's last edit, or since the start, the canvas has loaded no document. The actions stand
-- with the latest first.
abbrev pub OwnLast : List (Action BoardAction) → Type 0
OwnLast [] = Unit
OwnLast (event e ∷ acts) = OwnLast acts
OwnLast (own (edited now d) ∷ acts) = Unit
OwnLast (own (time_is now) ∷ acts) = OwnLast acts
OwnLast (own (loaded d) ∷ acts) = ⊥

module _ (w : Wire)
    (is_read : (now : ℕ) (d : String)
      → document_of (w.parse (text (w.snapshot now d))) ≡ some d) where
  -- The canvas of a listener takes the last document that it can read.
  last_document-read :
      (ms : List Message) (d : Option String)
      → last_document (map w.parse ms) d ≡ last_of (read_all (board_client w) ms) d
  last_document-read [] d = refl
  last_document-read (m ∷ ms) d = elim (Option-cases (document_of (w.parse m))) [
    | inl e ↦ rw (e, last_document, read_all) (last_document-read ms d)
    | inr (x, e) ↦ rw (e, last_document, read_all) (last_document-read ms (some x))
  ]

  one_read :
      (now : ℕ) (d : String) → read_all (board_client w) (text (w.snapshot now d) ∷ []) ≡ d ∷ []
  one_read now d = rw (is_read now d, read_all) refl

  -- When no timer runs, the last document emitted is the present one.
  abbrev Settled : Option String → List String → Sending → Type 0
  Settled d sent s = s.debounce_timer ≡ none → last_of sent d ≡ some s.document

  fire-Settled :
      (now : ℕ) (d : Option String) (sent : List String) (s : Sending) (timer : Option ℕ)
      → timer ≡ s.debounce_timer
      → (timer ≡ none → last_of sent d ≡ some s.document)
      → Settled d
          (sent ++ read_all (board_client w) (snapshot_message w now timer s.document))
          (fire now timer s)
  unfolding fire send_op snapshot_message
  fire-Settled now d sent s none same h still = rw (append-nil sent) (h refl)
  fire-Settled now d sent s (some due) same h still = elim (Bool-cases (leb due now)) [
    | inl over ↦ rw (over, one_read now s.document) (last_of-append sent (s.document ∷ []) d)
    | inr early ↦ absurd (ground arith)
  ]

  state-Settled :
      (s : Sending) (acts : List (Action BoardAction))
      → s.debounce_timer ≡ none
      → OwnLast acts
      → Settled
          (some s.document)
          (emitted (board_client w) s acts)
          (state_after (board_client w) s acts)
  unfolding state_after emitted on_edit on_time
  state-Settled s [] idle last still = refl
  state-Settled s (event e ∷ acts) idle last still = state-Settled s acts idle last still
  state-Settled s (own (loaded d) ∷ acts) idle last still = absurd last
  state-Settled s (own (edited now d) ∷ acts) idle last still = absurd (ground arith)
  state-Settled s (own (time_is now) ∷ acts) idle last still =
      let before = state_after (board_client w) s acts in
      fire-Settled now (some s.document) (emitted (board_client w) s acts) before
        before.debounce_timer refl (state-Settled s acts idle last) still

  -- A user edits a board, whatever happens to the connection, short of leaving the board, and whatever
  -- documents his canvas loads from messages in between, as long as it loads none after his last edit;
  -- then no timer of an edit runs any more, and a pending attempt gets its ticket and its socket opens.
  -- If listeners read each snapshot as it was sent, then no message waits any more, and another canvas
  -- that showed the document from before, and gets the user's frames in order and no others, shows the
  -- document that the user's canvas shows when the socket opens. What the service sends to the user's
  -- canvas on this socket comes later, and may replace the document there.
  pub reconnected-canvas :
      (r : BoardState) {s : Sending} {acts : List (Action BoardAction)} {l : Live Sending}
      → LiveRun (board_client w) s acts l
      → OwnLast acts
      → s.debounce_timer ≡ none
      → l.state.debounce_timer ≡ none
      → shown r ≡ some s.document
      → (t : ℕ) (opts : ConnectOptions) (ticket : String) → l.room.pending ≡ some t
      → let r' = opened_by t opts ticket l.room in
        (r'.queue ≡ none)
        × (shown (on_messages (map w.parse (frames r'.sent)) r) ≡ some l.state.document)
  reconnected-canvas r {s} {acts} {l} run last idle still same t opts ticket waits =
      let r' = opened_by t opts ticket l.room in
      let (clear, got) = LiveRun-opened (board_client w) run t opts ticket waits in
      let now = LiveRun-state (board_client w) run in
      (
        clear,
        on_messages-shown (map w.parse (frames r'.sent)) r
            ∙ last_document-read (frames r'.sent) (shown r)
            ∙ ap (last_of (read_all (board_client w) (frames r'.sent))) same
            ∙ ap (λ k. last_of k (some s.document)) got
            ∙ state-Settled s acts idle last (ap (λ x. x.debounce_timer) (sym now) ∙ still)
            ∙ ap (λ x. some x.document) (sym now),
      )
