-- ===== src/Notes/Sync/Echo.antt =====
-- web/src/modules/notes/components/note-view.tsx: what is not sent, and patches without a baseline.
use scylladb_grpc_microservi.Common.{
  true, false, some, [], ◌∷◌, ◌++◌, ◌≡◌, refl, arith, eq_refl, ◌∙◌,
}
use scylladb_grpc_microservi.Notes.Blocks.{Doc, PatchMessage, is_empty_list}
use scylladb_grpc_microservi.Notes.Blocks.Laws.{SameBlocks}
use scylladb_grpc_microservi.Notes.Blocks.Commute.{block_eq_refl}
use scylladb_grpc_microservi.Notes.Sync.{
  init, patch, Editor, NoteState, apply_remote_value, apply_incoming_message, receive, on_change,
  remote_settled, doc_eq,
}
use scylladb_grpc_microservi.Notes.Sync.Laws.{
  IsSent, InStep, on_change-InStep, receive_all, patches,
}

doc_eq_refl : (d : Doc) → doc_eq d d ≡ true
unfolding doc_eq
doc_eq_refl [] = refl
doc_eq_refl ((i, b) ∷ d) = ground (arith, eq_refl i, block_eq_refl b, doc_eq_refl d)

last_remote_unchanged : (v : Doc) (s : NoteState) → s.last_remote ≡ some v → on_change v s ≡ s
unfolding on_change
last_remote_unchanged v s h = ground (arith, doc_eq_refl v)

module _ (e : Editor) where
  -- A remote value that is not empty is not echoed by a mounted editor: until the timer has run no
  -- change is sent, and after it a change event with that value still sends nothing.
  pub remote_not_echoed :
      (v : Doc) (s : NoteState)
      → is_empty_list v ≡ false
      → s.editor ≡ true
      → let s' = apply_remote_value e v s in
        ((w : Doc) → on_change w s' ≡ s') × (on_change v (remote_settled s') ≡ remote_settled s')
  unfolding apply_remote_value on_change remote_settled
  remote_not_echoed v s full mounted = (λ w. ground arith, ground (arith, doc_eq_refl v))

  -- A patch that comes when there is no baseline is put in the queue, and the value that comes next
  -- does not apply it: the baseline is then that value alone, and the patch still waits.
  pub early_patch_waits :
      (p : PatchMessage) (v : Doc) (s : NoteState)
      → s.editor_ready ≡ true
      → s.prev_value ≡ []
      → let s' = receive e (init (some v)) (receive e (patch p) s) in
        (s'.prev_value ≡ v) × (s'.pending ≡ s.pending ++ patch p ∷ [])
  unfolding receive apply_incoming_message apply_remote_value
  early_patch_waits p v s ready blank = (ground arith, ground arith)

  -- A user whose peer has got what was sent so far leaves the last remote value `a` for `b`, not empty
  -- and not the last remote value, while nothing remote is being applied, and goes back to `a`. The
  -- change to `b` reaches the peer, but the change back sends nothing: once the peer has all patches he
  -- has the blocks of `b`, and so has the user's own baseline.
  pub change_back_not_sent :
      (a b : Doc) (s r : NoteState)
      → s.last_remote ≡ some a
      → IsSent s b
      → is_empty_list b ≡ false
      → InStep e s r
      → let s' = on_change a (on_change b s) in
        (s'.sent ≡ (on_change b s).sent)
        × SameBlocks (receive_all e (patches s'.sent) r).prev_value b
        × SameBlocks s'.prev_value b
  change_back_not_sent a b s r h fresh full i =
      let (after, own, kept, still, named) = on_change-InStep e b s r fresh full i in
      let back = last_remote_unchanged a (on_change b s) (kept ∙ h) in
      rw back (refl, λ id. after.2 id ∙ own id, own)
