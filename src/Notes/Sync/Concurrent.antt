-- ===== src/Notes/Sync/Concurrent.antt =====
-- web/src/modules/notes/components/note-view.tsx: two users who edit at the same time, each before the
-- other's patch has come.
use scylladb_grpc_microservi.Common.{
  String, true, false, ◌&&◌, some, [], get, ◌≡◌, inl, inr, refl, sym, ap, ◌∙◌, arith,
}
use scylladb_grpc_microservi.Notes.Blocks.{
  Block, Doc, is_changed, diff_blocks, apply_patch, is_empty_list,
}
use scylladb_grpc_microservi.Notes.Blocks.Laws.{
  SameBlocks, apply_patch-diff_blocks, get-diff_blocks, has-diff_blocks, get-apply_patch,
}
use scylladb_grpc_microservi.Notes.Blocks.Commute.{
  touches, same_base, apply_nothing, empty-nothing, apply_patch_commute, is_empty_patch-diff_blocks,
}
use scylladb_grpc_microservi.Notes.Sync.{Editor, NoteState, on_change}
use scylladb_grpc_microservi.Notes.Sync.Laws.{
  IsSent, on_change-cases, receive_all, receive-patch, patches, same_nonempty,
}

-- A user with a mounted editor who makes the value `v` out of the baseline, and has sent nothing yet.
pub record Typing (s : NoteState) (v : Doc) : Type 0 where
  pub mounted : s.editor_ready ≡ true
  pub sent_nothing : s.sent ≡ []
  pub is_sent : IsSent s v
  pub full : is_empty_list v ≡ false

typed :
    (v : Doc) (s : NoteState)
    → Typing s v
    → ((on_change v s).editor_ready ≡ true) × SameBlocks (on_change v s).prev_value v
typed v s h = elim (on_change-cases v s h.is_sent) [
  | inl (same, e) ↦ rw e (h.mounted, same)
  | inr e ↦ rw e (h.mounted, λ id. refl)
]

no_patch : (d w : Doc) → SameBlocks d w → (x : Doc) → SameBlocks (apply_patch x (diff_blocks d w)) x
no_patch d w same x id =
    rw (empty-nothing (diff_blocks d w) ((is_empty_patch-diff_blocks d w).1 same))
      (apply_nothing x id)

module _ (e : Editor) where
  -- What one user has sent, at another who has a baseline.
  received :
      (w : Doc) (r x : NoteState)
      → Typing r w
      → x.editor_ready ≡ true
      → is_empty_list x.prev_value ≡ false
      → SameBlocks
          (receive_all e (patches (on_change w r).sent) x).prev_value
          (apply_patch x.prev_value (diff_blocks r.prev_value w))
  unfolding receive_all
  received w r x h ready base id = elim (on_change-cases w r h.is_sent) [
    | inl (same, e') ↦ rw (e', h.sent_nothing) (sym (no_patch r.prev_value w same x.prev_value id))
    | inr e' ↦
        rw (e', h.sent_nothing)
          (ap (get id) (receive-patch e (diff_blocks r.prev_value w) x ready base))
  ]

  both :
      (v w : Doc) (s r : NoteState)
      → Typing s v
      → Typing r w
      → SameBlocks
          (receive_all e (patches (on_change w r).sent) (on_change v s)).prev_value
          (apply_patch v (diff_blocks r.prev_value w))
  both v w s r hs hr id =
      let (ready, same) = typed v s hs in
      received w r (on_change v s) hr ready
        (same_nonempty (on_change v s).prev_value v same hs.full) id
      ∙ same_base (on_change v s).prev_value v (diff_blocks r.prev_value w) id (same id)

  -- Two users with mounted editors and the same blocks, who have sent nothing yet, type at the same
  -- time, one the value `v` and the other `w`, neither empty nor the last remote value, while nothing
  -- remote is being applied. If their patches touch no block in common, then both have the same blocks
  -- when each has got the other's patch.
  pub concurrent_edits_converge :
      (v w : Doc) (s r : NoteState)
      → Typing s v
      → Typing r w
      → SameBlocks s.prev_value r.prev_value
      → ((id : String)
          → touches (diff_blocks s.prev_value v) id && touches (diff_blocks r.prev_value w) id
            ≡ false)
      → SameBlocks
          (receive_all e (patches (on_change w r).sent) (on_change v s)).prev_value
          (receive_all e (patches (on_change v s).sent) (on_change w r)).prev_value
  concurrent_edits_converge v w s r hs hr start apart id =
      let d = s.prev_value in
      let p = diff_blocks d v in
      let q = diff_blocks r.prev_value w in
      let to_v : SameBlocks (apply_patch d p) v = apply_patch-diff_blocks d v d (λ i. refl) in
      let to_w : SameBlocks (apply_patch d q) w = apply_patch-diff_blocks r.prev_value w d start in
      both v w s r hs hr id
      ∙ same_base v (apply_patch d p) q id (sym (to_v id))
      ∙ apply_patch_commute d p q apart id
      ∙ same_base (apply_patch d q) w p id (to_w id)
      ∙ sym (both w v r s hr hs id)

  block_put :
      (id : String) (d w x : Doc) (y : Block)
      → get id w ≡ some y
      → is_changed (get id d) y ≡ true
      → get id (apply_patch x (diff_blocks d w)) ≡ some y
  block_put id d w x y there changed =
      rw (get-apply_patch, get-diff_blocks, has-diff_blocks, there) (ground arith)

  -- Two users with mounted editors, who have sent nothing yet, type at the same time, one the value `v`
  -- and the other `w`, neither empty nor the last remote value, while nothing remote is being applied.
  -- If both change the block of one id, then under this id each has the other's block when each has
  -- got the other's patch.
  pub concurrent_edits_swap :
      (v w : Doc) (s r : NoteState) (id : String) (x y : Block)
      → Typing s v
      → Typing r w
      → get id v ≡ some x
      → get id w ≡ some y
      → is_changed (get id s.prev_value) x ≡ true
      → is_changed (get id r.prev_value) y ≡ true
      → (get id (receive_all e (patches (on_change w r).sent) (on_change v s)).prev_value ≡ some y)
        × (get id (receive_all e (patches (on_change v s).sent) (on_change w r)).prev_value
            ≡ some x)
  concurrent_edits_swap v w s r id x y hs hr vx wy cx cy = (
    both v w s r hs hr id ∙ block_put id r.prev_value w v y wy cy,
    both w v r s hr hs id ∙ block_put id s.prev_value v w x vx cx,
  )
