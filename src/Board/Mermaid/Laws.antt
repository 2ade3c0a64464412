-- ===== src/Board/Mermaid/Laws.antt =====
-- web/src/modules/whiteboard/components: pasted and submitted Mermaid text.
use scylladb_grpc_microservi.Common.{
  String, true, false, none, List, [], ◌∷◌, ◌++◌, is_blank, is_some, ◌≡◌, ◌⊎◌, refl, inl, inr,
  Bool-cases, Option-cases,
}
use scylladb_grpc_microservi.Workspace.Slug.{trim}
use scylladb_grpc_microservi.Board.Mermaid.{
  is_mermaid, Inserted, diagram, plain_text, Render, handle_text_content, MermaidDialog, rendered,
  handle_submit,
}

-- A pasted text comes on the canvas once: as a diagram, if it begins as one and can be rendered, and
-- as text otherwise.
pub handle_text_content-inserted :
    (insert_diagram : Render) (text : String) (canvas : List Inserted)
    → ((is_mermaid text ≡ true)
        × (insert_diagram text ≡ none)
        × (handle_text_content insert_diagram text canvas ≡ canvas ++ (diagram text ∷ [])))
      ⊎ (handle_text_content insert_diagram text canvas ≡ canvas ++ (plain_text text ∷ []))
unfolding handle_text_content
handle_text_content-inserted insert_diagram text canvas = elim (Bool-cases (is_mermaid text)) [
  | inr e ↦ inr (rw e refl)
  | inl e ↦ elim (Option-cases (insert_diagram text)) [
    | inl n ↦ inl (e, n, rw (e, n) refl)
    | inr (m, n) ↦ inr (rw (e, n) refl)
  ]
]

-- A submission either puts the trimmed text on the canvas, empties the field and closes the dialog,
-- or it shows an error and keeps the text, the canvas and the dialog as they were.
pub handle_submit-outcome :
    (insert_diagram : Render) (d : MermaidDialog)
    → let d' = handle_submit insert_diagram d in
      ((d'.canvas ≡ d.canvas ++ (diagram (trim d.value) ∷ []))
        × (d'.value ≡ "")
        × (d'.shown ≡ false)
        × (d'.error ≡ none))
      ⊎ ((d'.canvas ≡ d.canvas)
          × (d'.value ≡ d.value)
          × (d'.shown ≡ d.shown)
          × (is_some d'.error ≡ true))
unfolding handle_submit rendered
handle_submit-outcome insert_diagram d = elim (Bool-cases (is_blank (trim d.value))) [
  | inl e ↦ inr (rw e (refl, refl, refl, refl))
  | inr e ↦ elim (Option-cases (insert_diagram (trim d.value))) [
    | inl n ↦ inl (rw (e, n) (refl, refl, refl, refl))
    | inr (m, n) ↦ inr (rw (e, n) (refl, refl, refl, refl))
  ]
]
