-- ===== src/Sticky/Note/Laws.antt =====
-- web/src/components/editor/plugins/sticky-notes/sticky-notes-coponent.tsx: dragging a note.
use scylladb_grpc_microservi.Common.{
  String, false, not, List, [], ◌∷◌, ◌++◌, if◌then◌else◌, ◌≡◌, refl, ap, ◌∙◌, ◌⊎◌, inl, inr,
  Bool-cases,
}
use scylladb_grpc_microservi.Sticky.Note.{
  set_offset, NoteState, handle_pointer_down, dragged_to, handle_pointer_move, handle_pointer_up,
  next_color, moves,
}

module _ {Num : Type 0} (minus : Num → Num → Num) where
  -- What is kept while the pointer moves.
  pub record IsKept (s t : NoteState Num) : Type 0 where
    pub same_calls : t.calls ≡ s.calls
    pub same_offset : t.drag_offset ≡ s.drag_offset
    pub same_dragging : t.is_dragging ≡ s.is_dragging

  move-IsKept : (p : Num × Num) (s : NoteState Num) → IsKept s (handle_pointer_move minus p s)
  unfolding handle_pointer_move
  move-IsKept p s = elim (Bool-cases s.is_dragging) [
    | inl e ↦ rw e (record { same_calls = refl; same_offset = refl; same_dragging = refl })
    | inr e ↦ rw e (record { same_calls = refl; same_offset = refl; same_dragging = refl })
  ]

  moves-IsKept : (ps : List (Num × Num)) (s : NoteState Num) → IsKept s (moves minus ps s)
  moves-IsKept [] s = record { same_calls = refl; same_offset = refl; same_dragging = refl }
  moves-IsKept (p ∷ ps) s =
      let now = move-IsKept p s in
      let later = moves-IsKept ps (handle_pointer_move minus p s) in
      record {
        same_calls = later.same_calls ∙ now.same_calls;
        same_offset = later.same_offset ∙ now.same_offset;
        same_dragging = later.same_dragging ∙ now.same_dragging;
      }

  -- A drag of the card from one pointer place to another, by any moves between, asks for one change
  -- of the document: to the place that the note then has, which is the last pointer place less the
  -- offset that the pointer had to the card's corner.
  pub drag-stored_once :
      (p corner q : Num × Num) (ps : List (Num × Num)) (s : NoteState Num)
      → let x = minus q.0 (minus p.0 corner.0) in
        let y = minus q.1 (minus p.1 corner.1) in
        let s' =
          handle_pointer_up minus q (moves minus ps (handle_pointer_down minus false p corner s)) in
        (s'.calls ≡ s.calls ++ (set_offset x y ∷ [])) × (s'.pos ≡ (x, y)) × (s'.is_dragging ≡ false)
  unfolding handle_pointer_up handle_pointer_down
  drag-stored_once p corner q ps s =
      let down = handle_pointer_down minus false p corner s in
      let k = moves-IsKept ps down in
      rw (k.same_dragging, k.same_calls, k.same_offset) (refl, refl, refl)

  idle_move :
      (p : Num × Num) (s : NoteState Num)
      → s.is_dragging ≡ false
      → handle_pointer_move minus p s ≡ s
  unfolding handle_pointer_move
  idle_move p s h = ap (λ b. if not b then s else record s { pos = dragged_to minus p s }) h

  idle_moves :
      (ps : List (Num × Num)) (s : NoteState Num) → s.is_dragging ≡ false → moves minus ps s ≡ s
  idle_moves [] s h = refl
  idle_moves (p ∷ ps) s h = ap (moves minus ps) (idle_move p s h) ∙ idle_moves ps s h

  -- Without a press on the card the pointer changes nothing, wherever it moves and is released.
  pub undragged-same :
      (q : Num × Num) (ps : List (Num × Num)) (s : NoteState Num)
      → s.is_dragging ≡ false
      → handle_pointer_up minus q (moves minus ps s) ≡ s
  unfolding handle_pointer_up
  undragged-same q ps s h =
      ap (handle_pointer_up minus q) (idle_moves ps s h)
      ∙ ap
          (λ b. if not b then s else record s {
            is_dragging = false;
            pos = dragged_to minus q s;
            calls = s.calls ++ (set_offset (dragged_to minus q s).0 (dragged_to minus q s).1 ∷ []);
          })
          h

  -- Two changes of the colour give the first colour back, if it is one of the two.
  pub next_color_twice :
      (color : String)
      → (color ≡ "pink") ⊎ (color ≡ "yellow")
      → next_color minus (next_color minus color) ≡ color
  next_color_twice color (inl e) = rw e refl
  next_color_twice color (inr e) = rw e refl
