-- ===== src/Sticky.antt =====
-- web/src/components/editor/plugins/sticky-notes: sticky notes and their texts. `Num` are JavaScript's
-- numbers, with their texts as parameters; the browser's reading of HTML is one too.
pub mod Note
pub mod Laws
use Prim.Native.String.{◌++◌}
use scylladb_grpc_microservi.Common.{String, Option, none, some, str_eq, opt_is, if◌then◌else◌}

-- `color` is a text, as the reading of HTML checks nothing.
pub record StickyProps (Num : Type 0) : Type 0 where
  pub x_offset : Num
  pub y_offset : Num
  pub color : String
  pub caption : String

-- What a `div` element gives: four entries of its `dataset`, and its text.
pub record DivElement : Type 0 where
  pub sticky_note : Option String
  pub data_x : Option String
  pub data_y : Option String
  pub data_color : Option String
  pub text_content : Option String

abbrev pub or_given : Option String → String → String
or_given none d = d
or_given (some s) d = s

abbrev pub background : String → String
background color = if str_eq color "pink" then "#ffb3c1" else "#fff59d"

-- The `div` with the entries written out.
abbrev pub sticky_div : (x y color caption : String) → String
sticky_div x y color caption =
    "<div data-sticky-note=\"true\" data-x=\""
    ++ (x
        ++ ("\" data-y=\""
            ++ (y
                ++ ("\" data-color=\""
                    ++ (color
                        ++ ("\" style=\"position:fixed;left:"
                            ++ (x
                                ++ ("px;top:"
                                    ++ (y
                                        ++ ("px;background:"
                                            ++ (background color
                                                ++ (";padding:12px;border-radius:8px;width:200px;box-shadow:2px 3px 8px rgba(0,0,0,.2);\">"
                                                    ++ (caption ++ "</div>")))))))))))))

module _ {Num : Type 0} (to_text : Num → String) (to_number : String → Num) where
  -- `html.serialize`
  unfoldable pub serialize_html : StickyProps Num → String
  serialize_html p = sticky_div (to_text p.x_offset) (to_text p.y_offset) p.color p.caption

  -- `html.deserialize.parse`
  unfoldable pub parse_html : DivElement → Option (StickyProps Num)
  parse_html el =
      if opt_is el.sticky_note "true"
      then some (record {
        x_offset = to_number (or_given el.data_x "100");
        y_offset = to_number (or_given el.data_y "100");
        color = or_given el.data_color "yellow";
        caption = or_given el.text_content "";
      })
      else none

  -- `markdown.serialize`
  abbrev pub serialize_markdown : StickyProps Num → String
  serialize_markdown p = "> 📝 **Sticky Note** (" ++ (p.color ++ (")\n> " ++ (p.caption ++ "\n")))
