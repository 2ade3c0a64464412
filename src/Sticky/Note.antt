-- ===== src/Sticky/Note.antt =====
-- web/src/components/editor/plugins/sticky-notes/sticky-notes-coponent.tsx: the state of one note on
-- the page, and the changes of the document that its handlers ask for.
pub mod Laws
use scylladb_grpc_microservi.Common.{
  String, Bool, true, false, not, Option, none, some, List, [], ◌∷◌, ◌++◌, str_eq, if◌then◌else◌,
}
use scylladb_grpc_microservi.Sticky.{StickyProps, or_given}

-- A call of `Elements.updateElement` with the props it names, or of `editor.deleteBlock`.
pub data NoteCall (Num : Type 0) : Type 0 where
  set_offset : (x y : Num) → NoteCall Num
  set_color : String → NoteCall Num
  set_caption : String → NoteCall Num
  delete_block : NoteCall Num

pub record NoteState (Num : Type 0) : Type 0 where
  pub pos : Num × Num
  pub text : String
  pub is_visible : Bool
  pub is_dragging : Bool
  pub drag_offset : Num × Num
  pub calls : List (NoteCall Num)

module _ {Num : Type 0} (minus : Num → Num → Num) where
  -- The first rendering, with `zero` in the unused offset.
  abbrev pub mount_note : Num → StickyProps Num → NoteState Num
  mount_note zero p = record {
    pos = (p.x_offset, p.y_offset);
    text = p.caption;
    is_visible = true;
    is_dragging = false;
    drag_offset = (zero, zero);
    calls = [];
  }

  -- The effects that follow a change of the props.
  abbrev pub on_offset : (x y : Num) → NoteState Num → NoteState Num
  on_offset x y s = record s { pos = (x, y) }

  abbrev pub on_caption : Option String → NoteState Num → NoteState Num
  on_caption caption s = record s { text = or_given caption "" }

  -- `on_control`: the pointer is on the text area or a button. `corner` is the card's place.
  unfoldable pub handle_pointer_down :
      (on_control : Bool) → (pointer corner : Num × Num) → NoteState Num → NoteState Num
  handle_pointer_down on_control pointer corner s = if on_control then s else record s {
    is_dragging = true;
    drag_offset = (minus pointer.0 corner.0, minus pointer.1 corner.1);
  }

  abbrev pub dragged_to : (pointer : Num × Num) → NoteState Num → Num × Num
  dragged_to pointer s = (minus pointer.0 s.drag_offset.0, minus pointer.1 s.drag_offset.1)

  unfoldable pub handle_pointer_move : (pointer : Num × Num) → NoteState Num → NoteState Num
  handle_pointer_move pointer s =
      if not s.is_dragging then s else record s { pos = dragged_to pointer s }

  unfoldable pub handle_pointer_up : (pointer : Num × Num) → NoteState Num → NoteState Num
  handle_pointer_up pointer s = if not s.is_dragging then s else record s {
    is_dragging = false;
    pos = dragged_to pointer s;
    calls = s.calls ++ (set_offset (dragged_to pointer s).0 (dragged_to pointer s).1 ∷ []);
  }

  abbrev pub next_color : String → String
  next_color color = if str_eq color "pink" then "yellow" else "pink"

  abbrev pub handle_toggle_color : (color : String) → NoteState Num → NoteState Num
  handle_toggle_color color s = record s { calls = s.calls ++ (set_color (next_color color) ∷ []) }

  abbrev pub handle_close : NoteState Num → NoteState Num
  handle_close s = record s { is_visible = false; calls = s.calls ++ (delete_block ∷ []) }

  abbrev pub handle_caption_blur : NoteState Num → NoteState Num
  handle_caption_blur s = record s { calls = s.calls ++ (set_caption s.text ∷ []) }

  abbrev pub moves : List (Num × Num) → NoteState Num → NoteState Num
  moves [] s = s
  moves (p ∷ ps) s = moves ps (handle_pointer_move p s)
