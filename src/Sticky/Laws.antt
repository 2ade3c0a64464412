-- ===== src/Sticky/Laws.antt =====
-- web/src/components/editor/plugins/sticky-notes/index.ts: HTML of a note and back.
use Prim.Native.Char.{code}
use scylladb_grpc_microservi.Common.{
  String, Bool, true, not, ◌&&◌, Option, none, some, ◌==◌, ◌≡◌, refl,
}
use scylladb_grpc_microservi.Sticky.{
  StickyProps, DivElement, sticky_div, serialize_html, parse_html,
}

-- Nothing in the text is read as HTML: no less-than sign, no ampersand, no double quote, no carriage
-- return and no null.
unfoldable pub is_plain : String → Bool
is_plain String.[] = true
is_plain (String.◌∷◌ c s) =
    not (code c == b'<')
    && not (code c == b'&')
    && not (code c == b'"')
    && not (code c == 13)
    && not (code c == 0)
    && is_plain s

abbrev pub div_of : (x y color caption : String) → DivElement
div_of x y color caption = record {
  sticky_note = some "true";
  data_x = some x;
  data_y = some y;
  data_color = some color;
  text_content = some caption;
}

-- The browser reads the entries of a plain `div` as they are written.
abbrev pub ReadsDiv : (String → Option DivElement) → Type 0
ReadsDiv read_div =
    (x y color caption : String)
    → is_plain x ≡ true
    → is_plain y ≡ true
    → is_plain color ≡ true
    → is_plain caption ≡ true
    → read_div (sticky_div x y color caption) ≡ some (div_of x y color caption)

abbrev pub parsed {ℓ κ} : {A : Type ℓ} → {B : Type κ} → (A → Option B) → Option A → Option B
parsed f none = none
parsed f (some a) = f a

module _ {Num : Type 0} (to_text : Num → String) (to_number : String → Num) where
  -- A note whose colour and caption are plain comes back from its HTML: if the browser reads plain
  -- entries as they are written, and the text of a number is plain and gives the number back.
  pub parse_html-serialize_html :
      (read_div : String → Option DivElement)
      → ReadsDiv read_div
      → ((n : Num) → (to_number (to_text n) ≡ n) × (is_plain (to_text n) ≡ true))
      → (p : StickyProps Num) → is_plain p.color ≡ true
      → is_plain p.caption ≡ true
      → parsed (parse_html to_text to_number) (read_div (serialize_html to_text to_number p))
        ≡ some p
  unfolding serialize_html parse_html
  parse_html-serialize_html read_div reads numbers p plain_color plain_caption =
      let (x, plain_x) = numbers p.x_offset in
      let (y, plain_y) = numbers p.y_offset in
      rw (reads _ _ p.color p.caption plain_x plain_y plain_color plain_caption, x, y) refl
