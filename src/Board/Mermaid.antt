-- ===== src/Board/Mermaid.antt =====
-- web/src/modules/whiteboard/components: Mermaid text that is pasted on the canvas
-- (`MermaidPasteHandler`) or submitted in the dialog (mermaid-dialog.tsx). The rendering of a diagram
-- is a parameter: `none` is its success, else it tells whether an `Error` was thrown, with its message. A rendering that fails
-- leaves the canvas as it is.
pub mod Laws
use Prim.Native.String.{◌++◌}
use scylladb_grpc_microservi.Common.{
  String, Bool, true, false, ◌||◌, Option, none, some, List, [], ◌∷◌, ◌++◌ as append, is_blank,
  if◌then◌else◌, begins, any,
}
use scylladb_grpc_microservi.Workspace.Slug.{trim, drop_left, is_space}

abbrev pub keywords : List String
keywords =
    "flowchart"
    ∷ ("graph"
        ∷ ("sequenceDiagram"
            ∷ ("stateDiagram"
                ∷ ("classDiagram"
                    ∷ ("erDiagram" ∷ ("gantt" ∷ ("pie" ∷ ("gitGraph" ∷ ("mindmap" ∷ [])))))))))

-- `MERMAID_KEYWORD.test(text)`
unfoldable pub is_mermaid : String → Bool
is_mermaid text = any (λ k. begins k (drop_left is_space text)) keywords

-- What the canvas has been given, in order: diagrams, and texts handled as text.
pub data Inserted : Type 0 where
  diagram : String → Inserted
  plain_text : String → Inserted

abbrev pub Render : Type 0
Render = String → Option (Option String)

abbrev pub render_or_text : Option (Option String) → String → List Inserted → List Inserted
render_or_text none text canvas = append canvas (diagram text ∷ [])
render_or_text (some e) text canvas = append canvas (plain_text text ∷ [])

unfoldable pub handle_text_content : Render → String → List Inserted → List Inserted
handle_text_content insert_diagram text canvas =
    if is_mermaid text
    then render_or_text (insert_diagram text) text canvas
    else append canvas (plain_text text ∷ [])

pub record MermaidDialog : Type 0 where
  pub value : String
  pub error : Option String
  pub shown : Bool
  pub canvas : List Inserted

abbrev pub failure_text : Option String → String
failure_text (some message) = "Could not render diagram: " ++ message
failure_text none = "Could not render the Mermaid diagram. Please check your syntax."

-- The transition, when the rendering of `text` has ended.
unfoldable pub rendered : String → Option (Option String) → MermaidDialog → MermaidDialog
rendered text none d = record d {
  value = "";
  error = none;
  shown = false;
  canvas = append d.canvas (diagram text ∷ []);
}
rendered text (some e) d = record d { error = some (failure_text e) }

unfoldable pub handle_submit : Render → MermaidDialog → MermaidDialog
handle_submit insert_diagram d =
    if is_blank (trim d.value)
    then record d { error = some "Please paste some Mermaid code first." }
    else rendered (trim d.value) (insert_diagram (trim d.value)) d

unfoldable pub handle_open_change : Bool → MermaidDialog → MermaidDialog
handle_open_change next d =
    if next then record d { shown = true } else record d { shown = false; error = none }
