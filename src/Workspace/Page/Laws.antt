-- ===== src/Workspace/Page/Laws.antt =====
-- web/src/modules/workspace/components/workspace-view.tsx: what the two buttons create.
use scylladb_grpc_microservi.Common.{
  String, true, false, not, ◌||◌, Option, none, some, List, [], ◌∷◌, ◌++◌, is_blank, if◌then◌else◌,
  ◌≡◌, refl, ap, ◌∙◌, inl, inr, Bool-cases,
}
use scylladb_grpc_microservi.Workspace.Page.{
  Tab, notes, is_notes, WorkspacePage, PageBackends, item_path, new_item, on_created_item,
  create_note_in, handle_create_whiteboard, handle_create_note,
}

module _ (b : PageBackends) where
  open b use {encode, create_board, create_note}

  abbrev went_to : Tab → Option String → List String → List String
  went_to kind none visited = visited
  went_to kind (some title) visited =
      if is_blank title then visited else visited ++ (item_path encode kind title ∷ [])

  on_created_item-visited :
      (kind : Tab) (o : Option String) (s : WorkspacePage)
      → let s' = on_created_item b kind o s in
        (s'.visited ≡ went_to kind o s.visited)
        × (s'.created_notes ≡ s.created_notes)
        × (s'.created_boards ≡ s.created_boards)
  unfolding on_created_item
  on_created_item-visited kind none s = (refl, refl, refl)
  on_created_item-visited kind (some title) s = elim (Bool-cases (is_blank title)) [
    | inl e ↦ rw e (refl, refl, refl)
    | inr e ↦ rw e (refl, refl, refl)
  ]

  -- On the tab of notes, while no note is being created, the button creates one note under the new
  -- slug, shared and in this workspace, creates no board, and goes to the page of the title that the
  -- service answers with, if it answers with one.
  pub handle_create_note-created :
      (id slug : String) (s : WorkspacePage)
      → s.active_tab ≡ notes
      → s.is_creating_note ≡ false
      → let s' = handle_create_note b (some id) slug s in
        (s'.created_notes ≡ s.created_notes ++ (new_item id slug ∷ []))
        × (s'.created_boards ≡ s.created_boards)
        × (s'.visited ≡ went_to notes (create_note (new_item id slug)) s.visited)
  unfolding handle_create_note create_note_in
  handle_create_note-created id slug s t idle =
      let asked = record s { created_notes = s.created_notes ++ (new_item id slug ∷ []) } in
      let (went, ns, bs) = on_created_item-visited notes (create_note (new_item id slug)) asked in
      let free : (not (is_notes s.active_tab) || s.is_creating_note) ≡ false = rw (t, idle) refl in
      let runs : handle_create_note b (some id) slug s ≡ create_note_in b id slug s =
        ap (λ c. if c then s else create_note_in b id slug s) free in
      (
        ap WorkspacePage.created_notes runs ∙ ns,
        ap WorkspacePage.created_boards runs ∙ bs,
        ap WorkspacePage.visited runs ∙ went,
      )

  -- On the other tab, or while a creation is under way, a button does nothing.
  pub handle_create-idle :
      (workspace : Option String) (slug : String) (s : WorkspacePage)
      → ((is_notes s.active_tab || s.is_creating_board) ≡ true
          → handle_create_whiteboard b workspace slug s ≡ s)
        × ((not (is_notes s.active_tab) || s.is_creating_note) ≡ true
            → handle_create_note b workspace slug s ≡ s)
  unfolding handle_create_whiteboard handle_create_note
  handle_create-idle none slug s = ((λ h. refl), (λ h. refl))
  handle_create-idle (some id) slug s = ((λ h. rw h refl), (λ h. rw h refl))
