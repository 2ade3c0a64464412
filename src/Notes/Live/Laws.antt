-- ===== src/Notes/Live/Laws.antt =====
-- web/src/modules/notes/components/note-view.tsx over web/src/lib/board-socket-manager.ts: edits made
-- whatever the connection does, and what a peer makes of the frames.
use mathlib.Core.List.{append-nil}
use scylladb_grpc_microservi.Common.{
  ℕ, none, some, List, [], ◌∷◌, ◌++◌, String, true, false, All, is_blank, ◌≡◌, refl, sym, ap, ◌∙◌,
  inl, inr, arith, Option-cases, get, ◌⊎◌,
}
use scylladb_grpc_microservi.Notes.Blocks.{Doc, PatchMessage, is_empty_list}
use scylladb_grpc_microservi.Notes.Blocks.Laws.{SameBlocks}
use scylladb_grpc_microservi.Notes.Sync.{
  init, Editor, NoteState, patch_to_send, on_change, is_last_remote, receive,
  apply_incoming_message, apply_remote_value,
}
use scylladb_grpc_microservi.Notes.Sync.Laws.{
  receive_all, patches, edit_all, last_value, edits_reach_peer,
}
use scylladb_grpc_microservi.Room.State.{text, ConnectOptions}
use scylladb_grpc_microservi.Room.Delivery.{frames, opened_by}
use scylladb_grpc_microservi.Room.Client.{
  Live, Action, own, event, LiveRun, read_all, state_after, emitted, owned,
}
use scylladb_grpc_microservi.Room.Client.Laws.{LiveRun-state, LiveRun-opened}
use scylladb_grpc_microservi.Notes.Live.{Wire, patch_message, note_client}

on_change-sent :
    (v : Doc) (s : NoteState)
    → ((patch_to_send v s ≡ none) × (on_change v s ≡ s))
      ⊎ ((p : PatchMessage) × (patch_to_send v s ≡ some p)
          × ((on_change v s).sent ≡ s.sent ++ p ∷ []))
unfolding on_change
on_change-sent v s = elim (Option-cases (patch_to_send v s)) [
  | inl e ↦ inl (e, rw (e, on_change) refl)
  | inr (p, e) ↦ inr (p, e, rw (e, on_change) refl)
]

edit_all-append :
    (vs : List Doc) (v : Doc) (s : NoteState)
    → edit_all (vs ++ v ∷ []) s ≡ on_change v (edit_all vs s)
unfolding edit_all
edit_all-append [] v s = refl
edit_all-append (w ∷ vs) v s = edit_all-append vs v (on_change w s)

All-append_left {ℓ κ} : {A : Type ℓ} (P : A → Type κ) (l k : List A) → All P (l ++ k) → All P l
All-append_left P [] k h = tt
All-append_left P (x ∷ l) k (p, h) = (p, All-append_left P l k h)

All-append_right {ℓ κ} : {A : Type ℓ} (P : A → Type κ) (l k : List A) → All P (l ++ k) → All P k
All-append_right P [] k h = h
All-append_right P (x ∷ l) k (p, h) = All-append_right P l k h

module _ (w : Wire) where
  -- A patch that a listener reads as it was sent.
  abbrev pub IsRead : PatchMessage → Type 0
  IsRead p = w.decode (text (w.encode p)) ≡ some p

  note-state :
      (s : NoteState) (acts : List (Action Doc))
      → state_after (note_client w) s acts ≡ edit_all (owned acts) s
  unfolding state_after edit_all
  note-state s [] = refl
  note-state s (own v ∷ acts) =
      ap (on_change v) (note-state s acts) ∙ sym (edit_all-append (owned acts) v s)
  note-state s (event e ∷ acts) = note-state s acts

  one_read :
      (p : PatchMessage) → IsRead p → read_all (note_client w) (text (w.encode p) ∷ []) ≡ p ∷ []
  one_read p h = rw (h, read_all) refl

  -- What one change adds to the patches sent is what listeners read of it.
  change-sent :
      (v : Doc) (s : NoteState)
      → All IsRead (on_change v s).sent
      → All IsRead s.sent
        × ((on_change v s).sent
            ≡ s.sent ++ read_all (note_client w) (patch_message w (patch_to_send v s)))
  unfolding patch_message
  change-sent v s read = elim (on_change-sent v s) [
    | inl (idle, e) ↦ rw (idle, e) ((rw e at read), sym (append-nil s.sent))
    | inr (p, some_patch, e) ↦
        let h : All IsRead (s.sent ++ p ∷ []) = (rw e at read) in
        rw (some_patch, e)
          (
            All-append_left IsRead s.sent (p ∷ []) h,
            ap (λ k. s.sent ++ k) (sym (one_read p (All-append_right IsRead s.sent (p ∷ []) h).0)),
          )
  ]

  emitted-sent :
      (s : NoteState) (acts : List (Action Doc))
      → s.sent ≡ []
      → All IsRead (state_after (note_client w) s acts).sent
      → emitted (note_client w) s acts ≡ (state_after (note_client w) s acts).sent
  unfolding state_after emitted
  emitted-sent s [] clear read = sym clear
  emitted-sent s (event e ∷ acts) clear read = emitted-sent s acts clear read
  emitted-sent s (own v ∷ acts) clear read =
      let before = state_after (note_client w) s acts in
      let (read', grown) = change-sent v before read in
      ap (λ k. k ++ read_all (note_client w) (patch_message w (patch_to_send v before)))
        (emitted-sent s acts clear read')
      ∙ sym grown

  module _ (e : Editor) (r : NoteState) {s : NoteState} {acts : List (Action Doc)}
      {l : Live NoteState} (run : LiveRun (note_client w) s acts l) (clear : s.sent ≡ [])
      (read : All IsRead l.state.sent)
      (idle : (s.applying_remote ≡ 0) × (is_blank s.note_id ≡ false))
      (typed : All
        (λ v. (is_last_remote s.last_remote v ≡ false) × (is_empty_list v ≡ false))
        (owned acts))
      (ready : r.editor_ready ≡ true) (base : is_empty_list r.prev_value ≡ false)
      (same : SameBlocks r.prev_value s.prev_value) (t : ℕ) (opts : ConnectOptions)
      (ticket : String) (waits : l.room.pending ≡ some t) where
    -- A user types values, none empty and none the last remote one, while no message comes in and
    -- nothing remote is being applied, and whatever happens to the connection, short of leaving the
    -- note; then a pending attempt gets its ticket and its socket opens. If listeners read each patch
    -- as it was sent, then no message waits any more, and a peer whose editor is mounted, who starts
    -- with the user's blocks and gets all frames in order, ends with the blocks of the last value.
    pub reconnected-peer :
        let r' = opened_by t opts ticket l.room in
        (r'.queue ≡ none)
        × SameBlocks
            (receive_all e (patches (read_all (note_client w) (frames r'.sent))) r).prev_value
            (last_value s.prev_value (owned acts))
    reconnected-peer =
        let (clear_queue, got) = LiveRun-opened (note_client w) run t opts ticket waits in
        let now = LiveRun-state (note_client w) run in
        let all : read_all (note_client w) (frames (opened_by t opts ticket l.room).sent)
            ≡ (edit_all (owned acts) s).sent =
          got ∙ emitted-sent s acts clear (rw now at read) ∙ ap (λ n. n.sent) (note-state s acts) in
        (clear_queue, rw all (edits_reach_peer e (owned acts) s r clear idle typed ready base same))

    reverted :
        (d : Doc) → l.state.editor_ready ≡ true → (receive e (init (some d)) l.state).prev_value ≡ d
    unfolding receive apply_incoming_message apply_remote_value
    reverted d mounted = ground arith

    -- A user types values, none empty and none the last remote one, while no message comes in and
    -- nothing remote is being applied, and whatever happens to the connection; then a pending attempt
    -- gets its ticket and its socket opens, and the service sends the user the document from before
    -- the edits. If listeners read each patch as it was sent and the last value has other blocks than
    -- that document, then the user's baseline is that document again and differs from the baseline of
    -- a peer whose editor is mounted, who started with the user's blocks and gets all frames in order.
    pub reconnected_diverges :
        (d : Doc)
        → l.state.editor_ready ≡ true
        → SameBlocks d s.prev_value
        → ¬ SameBlocks s.prev_value (last_value s.prev_value (owned acts))
        → let u = receive e (init (some d)) l.state in
          let peer =
            receive_all e
              (patches (read_all (note_client w) (frames (opened_by t opts ticket l.room).sent)))
              r in
          (u.prev_value ≡ d) × ¬ SameBlocks u.prev_value peer.prev_value
    reconnected_diverges d mounted old other = (
      reverted d mounted,
      λ agree. other (λ id.
          sym (old id) ∙ ap (get id) (sym (reverted d mounted)) ∙ agree id ∙ reconnected-peer.1 id),
    )
