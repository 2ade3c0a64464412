-- ===== src/Workspace/Page.antt =====
-- web/src/modules/workspace/components/workspace-view.tsx with the mutations useCreateWhiteboard and
-- useCreateNote and the links of workspace-library-table.tsx. The services, `generateSlug` and
-- `encodeURIComponent` are parameters; a call answers `none` when it throws.
pub mod Laws
use Prim.Native.String.{◌++◌}
use scylladb_grpc_microservi.Common.{
  String, Bool, true, false, not, ◌||◌, Option, none, some, List, [], ◌∷◌, ◌++◌ as append, is_blank,
  if◌then◌else◌,
}
use scylladb_grpc_microservi.Workspace.Queries.{WorkspaceLibraryItem}

pub data Tab : Type 0 where
  whiteboards notes : Tab

abbrev pub is_notes : Tab → Bool
is_notes whiteboards = false
is_notes notes = true

-- What `createBoard` and `createNote` are asked for.
pub record NewItem : Type 0 where
  pub workspace_id : String
  pub title : String
  pub is_private : Bool

-- `is_creating_board` and `is_creating_note` are the mutations' `isPending`.
pub record WorkspacePage : Type 0 where
  pub active_tab : Tab
  pub is_creating_board : Bool
  pub is_creating_note : Bool
  pub created_boards : List NewItem
  pub created_notes : List NewItem
  pub invalidated : List String
  pub visited : List String

pub record PageBackends : Type 0 where
  pub encode : String → String
  pub create_board : NewItem → Option String
  pub create_note : NewItem → Option String

-- Where an item of the library leads.
abbrev pub item_path : (String → String) → Tab → (title : String) → String
item_path encode whiteboards title = "/whiteboard/" ++ encode title
item_path encode notes title = "/notes/" ++ encode title

abbrev pub item_link : (String → String) → Tab → WorkspaceLibraryItem → String
item_link encode kind item = item_path encode kind item.title

-- The items of the tab that is shown, with the kind by which they are linked.
abbrev pub library_items :
    Tab → (boards notes : Option (List WorkspaceLibraryItem)) → List WorkspaceLibraryItem
library_items whiteboards none ns = []
library_items whiteboards (some bs) ns = bs
library_items notes bs none = []
library_items notes bs (some ns) = ns

abbrev pub new_item : (workspace_id slug : String) → NewItem
new_item workspace_id slug = record {
  workspace_id = workspace_id;
  title = slug;
  is_private = false;
}

module _ (b : PageBackends) where
  open b use {encode, create_board, create_note}

  -- The title that the service answers with leads to the new page; a blank one leads nowhere.
  unfoldable pub on_created_item : Tab → Option String → WorkspacePage → WorkspacePage
  on_created_item kind none s = s
  on_created_item kind (some title) s =
      let fresh = record s { invalidated = append s.invalidated ("workspaceLibrary" ∷ []) } in
      if is_blank title
      then fresh
      else record fresh { visited = append s.visited (item_path encode kind title ∷ []) }

  unfoldable pub create_board_in : (workspace_id slug : String) → WorkspacePage → WorkspacePage
  create_board_in id slug s =
      on_created_item whiteboards (create_board (new_item id slug))
        (record s { created_boards = append s.created_boards (new_item id slug ∷ []) })

  unfoldable pub create_note_in : (workspace_id slug : String) → WorkspacePage → WorkspacePage
  create_note_in id slug s =
      on_created_item notes (create_note (new_item id slug))
        (record s { created_notes = append s.created_notes (new_item id slug ∷ []) })

  unfoldable pub handle_create_whiteboard :
      (workspace : Option String) → (slug : String) → WorkspacePage → WorkspacePage
  handle_create_whiteboard none slug s = s
  handle_create_whiteboard (some id) slug s =
      if is_notes s.active_tab || s.is_creating_board then s else create_board_in id slug s

  unfoldable pub handle_create_note :
      (workspace : Option String) → (slug : String) → WorkspacePage → WorkspacePage
  handle_create_note none slug s = s
  handle_create_note (some id) slug s =
      if not (is_notes s.active_tab) || s.is_creating_note then s else create_note_in id slug s
