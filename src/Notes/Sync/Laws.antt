-- ===== src/Notes/Sync/Laws.antt =====
-- web/src/modules/notes/components/note-view.tsx: edits at a peer, and messages that come before
-- the editor.
use mathlib.Core.List.{append_assoc, append-nil}
use scylladb_grpc_microservi.Common.{
  true, false, none, some, List, [], ◌∷◌, ◌++◌, All, is_blank, get, ◌≡◌, ◌⊎◌, inl, inr, refl, sym,
  ◌∙◌, arith, Bool-cases, ap, eq_refl,
}
use scylladb_grpc_microservi.Notes.Blocks.{
  Doc, PatchMessage, diff_blocks, apply_patch, is_empty_list, is_empty_patch,
}
use scylladb_grpc_microservi.Notes.Blocks.Laws.{SameBlocks, apply_patch-diff_blocks}
use scylladb_grpc_microservi.Notes.Blocks.Commute.{is_empty_patch-diff_blocks}
use scylladb_grpc_microservi.Notes.Sync.{
  Incoming, init, patch, unknown, Editor, NoteState, apply_remote_value, apply_incoming_message,
  receive, drain, handle_editor_ready, on_change, is_last_remote,
}

-- A change that the client sends: nothing remote is being applied, and the value is not the last
-- remote one.
abbrev pub IsSent : NoteState → Doc → Type 0
IsSent s v =
    (s.applying_remote ≡ 0)
    × (is_last_remote s.last_remote v ≡ false)
    × (is_blank s.note_id ≡ false)

pub on_change-cases :
    (v : Doc) (s : NoteState)
    → IsSent s v
    → (SameBlocks s.prev_value v × (on_change v s ≡ s))
      ⊎ (on_change v s
          ≡ record s { prev_value = v; sent = s.sent ++ diff_blocks s.prev_value v ∷ [] })
unfolding on_change
on_change-cases v s h = elim (Bool-cases (is_empty_patch (diff_blocks s.prev_value v))) [
  | inl e ↦ inl ((is_empty_patch-diff_blocks s.prev_value v).0 e, ground arith)
  | inr e ↦ inr (ground arith)
]

pub same_nonempty : (d f : Doc) → SameBlocks d f → is_empty_list f ≡ false → is_empty_list d ≡ false
unfolding get
same_nonempty [] [] same h = cc
same_nonempty [] ((k, b) ∷ f) same h = absurd (ground (arith, same k, eq_refl k))
same_nonempty ((k, b) ∷ d) f same h = refl

abbrev pub patches : List PatchMessage → List Incoming
patches [] = []
patches (p ∷ ps) = patch p ∷ patches ps

unfoldable pub edit_all : List Doc → NoteState → NoteState
edit_all [] s = s
edit_all (v ∷ vs) s = edit_all vs (on_change v s)

abbrev pub last_value : Doc → List Doc → Doc
last_value d [] = d
last_value d (v ∷ vs) = last_value v vs

module _ (e : Editor) where
  unfoldable pub receive_all : List Incoming → NoteState → NoteState
  receive_all [] s = s
  receive_all (m ∷ ms) s = receive_all ms (receive e m s)

  pub receive_all-append :
      (ps : List PatchMessage) (p : PatchMessage) (r : NoteState)
      → receive_all (patches (ps ++ p ∷ [])) r ≡ receive e (patch p) (receive_all (patches ps) r)
  unfolding receive_all
  receive_all-append [] p r = refl
  receive_all-append (q ∷ ps) p r = receive_all-append ps p (receive e (patch q) r)

  apply_incoming-ready :
      (m : Incoming) (s : NoteState) → (apply_incoming_message e m s).editor_ready ≡ s.editor_ready
  unfolding apply_incoming_message apply_remote_value
  apply_incoming-ready (init none) s = refl
  apply_incoming-ready (init (some v)) s = ground arith
  apply_incoming-ready (patch p) s = ground arith
  apply_incoming-ready unknown s = refl

  pub receive-ready :
      (m : Incoming) (s : NoteState)
      → s.editor_ready ≡ true
      → (receive e m s ≡ apply_incoming_message e m s) × ((receive e m s).editor_ready ≡ true)
  unfolding receive
  receive-ready m s h = ground (arith, apply_incoming-ready m s)

  pub apply_remote_value-prev :
      (v : Doc) (s : NoteState) → s.prev_value ≡ v → (apply_remote_value e v s).prev_value ≡ v
  unfolding apply_remote_value
  apply_remote_value-prev v s h = ground arith

  -- A patch on a baseline that is not empty is applied to it.
  pub receive-patch :
      (p : PatchMessage) (r : NoteState)
      → r.editor_ready ≡ true
      → is_empty_list r.prev_value ≡ false
      → (receive e (patch p) r).prev_value ≡ apply_patch r.prev_value p
  unfolding apply_incoming_message
  receive-patch p r ready some_base =
      rw ((receive-ready (patch p) r ready).0, some_base)
        (apply_remote_value-prev (apply_patch r.prev_value p)
          (record r { prev_value = apply_patch r.prev_value p }) refl)

  -- A peer `r` that has got what `s` sent: it has a baseline, with the blocks of the sender's.
  abbrev pub InStep : NoteState → NoteState → Type 0
  InStep s r =
      let r' = receive_all (patches s.sent) r in
      (r'.editor_ready ≡ true)
      × (is_empty_list r'.prev_value ≡ false)
      × SameBlocks r'.prev_value s.prev_value

  pub patch_in_step :
      (v : Doc) (s r : NoteState)
      → is_empty_list v ≡ false
      → (r.editor_ready ≡ true)
        × (is_empty_list r.prev_value ≡ false)
        × SameBlocks r.prev_value s.prev_value
      → let r' = receive e (patch (diff_blocks s.prev_value v)) r in
        (r'.editor_ready ≡ true)
        × (is_empty_list r'.prev_value ≡ false)
        × SameBlocks r'.prev_value v
  patch_in_step v s r full (ready, base, same) =
      let p = diff_blocks s.prev_value v in
      let reached = receive-patch p r ready base in
      let there = apply_patch-diff_blocks s.prev_value v r.prev_value same in
      (
        (receive-ready (patch p) r ready).1,
        rw reached (same_nonempty (apply_patch r.prev_value p) v there full),
        λ id. rw reached (there id),
      )

  pub on_change-InStep :
      (v : Doc) (s r : NoteState)
      → IsSent s v
      → is_empty_list v ≡ false
      → InStep s r
      → InStep (on_change v s) r
        × SameBlocks (on_change v s).prev_value v
        × ((on_change v s).last_remote ≡ s.last_remote)
        × ((on_change v s).applying_remote ≡ s.applying_remote)
        × ((on_change v s).note_id ≡ s.note_id)
  on_change-InStep v s r h full i = elim (on_change-cases v s h) [
    | inl (same, e') ↦ rw e' (i, same, refl, refl, refl)
    | inr e' ↦
        rw (e', receive_all-append s.sent (diff_blocks s.prev_value v) r)
          (patch_in_step v s (receive_all (patches s.sent) r) full i, λ id. refl, refl, refl, refl)
  ]

  edit_all-InStep :
      (vs : List Doc) (d : Doc) (s r : NoteState)
      → (s.applying_remote ≡ 0) × (is_blank s.note_id ≡ false)
      → All (λ v. (is_last_remote s.last_remote v ≡ false) × (is_empty_list v ≡ false)) vs
      → InStep s r
      → SameBlocks s.prev_value d
      → InStep (edit_all vs s) r × SameBlocks (edit_all vs s).prev_value (last_value d vs)
  unfolding edit_all
  edit_all-InStep [] d s r idle h i same = (i, same)
  edit_all-InStep (v ∷ vs) d s r (still, named) ((fresh, full), h) i same =
      let (i', same', kept, still', named') = on_change-InStep v s r (still, fresh, named) full i in
      edit_all-InStep vs v (on_change v s) r (still' ∙ still, (ap is_blank named' ∙ named))
        (rw kept h) i' same'

  -- A user types the values `vs`, one after another, while nothing remote is being applied; none is
  -- empty and none is the last remote value. A peer whose editor is mounted, who starts with the
  -- user's blocks and gets the patches sent, ends with the blocks of the last value.
  pub edits_reach_peer :
      (vs : List Doc) (s r : NoteState)
      → s.sent ≡ []
      → (s.applying_remote ≡ 0) × (is_blank s.note_id ≡ false)
      → All (λ v. (is_last_remote s.last_remote v ≡ false) × (is_empty_list v ≡ false)) vs
      → r.editor_ready ≡ true
      → is_empty_list r.prev_value ≡ false
      → SameBlocks r.prev_value s.prev_value
      → SameBlocks
          (receive_all (patches (edit_all vs s).sent) r).prev_value
          (last_value s.prev_value vs)
  unfolding receive_all
  edits_reach_peer vs s r clear idle h ready base same =
      let (i, reached) =
        edit_all-InStep vs s.prev_value s r idle h (rw clear (ready, base, same)) (λ id. refl) in
      λ id. i.2 id ∙ reached id

  receive_all-waits :
      (ms : List Incoming) (s : NoteState)
      → s.editor_ready ≡ false
      → receive_all ms s ≡ record s { pending = s.pending ++ ms }
  unfolding receive_all receive
  receive_all-waits [] s h = rw (append-nil s.pending) refl
  receive_all-waits (m ∷ ms) s h =
      let pushed = record s { pending = s.pending ++ m ∷ [] } in
      let kept : receive e m s ≡ pushed = ground arith in
      ap (receive_all ms) kept
      ∙ receive_all-waits ms pushed h
      ∙ ap (λ l. record s { pending = l }) (append_assoc s.pending (m ∷ []) ms)

  receive_all-drain :
      (ms : List Incoming) (s : NoteState) → s.editor_ready ≡ true → receive_all ms s ≡ drain e ms s
  unfolding receive_all
  receive_all-drain [] s h = refl
  receive_all-drain (m ∷ ms) s h =
      let (now, ready) = receive-ready m s h in
      receive_all-drain ms (receive e m s) ready ∙ ap (drain e ms) now

  -- Messages that come before the editor mounts have the effect that they have when they come just
  -- after it.
  pub handle_editor_ready-receive_all :
      (ms : List Incoming) (s : NoteState)
      → s.editor_ready ≡ false
      → s.pending ≡ []
      → handle_editor_ready e (receive_all ms s) ≡ receive_all ms (handle_editor_ready e s)
  unfolding handle_editor_ready
  handle_editor_ready-receive_all ms s off clear =
      rw (receive_all-waits ms s off, clear)
        (sym (
          receive_all-drain ms (record s { editor = true; editor_ready = true; pending = [] })
            refl))
