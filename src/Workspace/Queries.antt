-- ===== src/Workspace/Queries.antt =====
-- The queries of the workspace, whiteboard and notes modules (web/src/modules/*/api): their keys in
-- the query cache, when a hook runs them, and what they make of an answer. A call of a service
-- answers `none` when it throws, and so does the query.
pub mod Laws
use scylladb_grpc_microservi.Common.{
  ℕ, ◌+◌, ◌*◌, ◌/◌, String, Bool, true, false, not, ◌&&◌, ◌||◌, Option, none, some, List, [], ◌∷◌,
  map, any, length, leb, ◌==◌, is_blank, str_eq, if◌then◌else◌, text_length,
}

pub data AppQuery : Type 0 where
  my_workspaces : AppQuery
  one_workspace : (workspace_id : String) → AppQuery
  workspace_members : (workspace_id : String) → AppQuery
  workspace_notes : (workspace_id : String) → AppQuery
  workspace_boards : (workspace_id : String) → AppQuery
  board_by_slug : (slug : String) → AppQuery
  one_note : (note_id : String) → AppQuery
  note_by_slug : (slug : String) → AppQuery

unfoldable pub query_key : AppQuery → List String
query_key my_workspaces = "myWorkspaces" ∷ []
query_key (one_workspace id) = "myWorkspaces" ∷ (id ∷ [])
query_key (workspace_members id) = "myWorkspaces" ∷ (id ∷ ("members" ∷ []))
query_key (workspace_notes id) = "workspaceLibrary" ∷ (id ∷ ("notes" ∷ []))
query_key (workspace_boards id) = "workspaceLibrary" ∷ (id ∷ ("boards" ∷ []))
query_key (board_by_slug slug) = "whiteboard" ∷ ("bySlug" ∷ (slug ∷ []))
query_key (one_note id) = "notes" ∷ (id ∷ [])
query_key (note_by_slug slug) = "notes" ∷ ("bySlug" ∷ (slug ∷ []))

abbrev pub is_given : String → Bool
is_given s = not (text_length s == 0)

-- `enabled` of the hook that runs the query; `wanted` is the hook's own argument. A whiteboard is
-- looked up by slug without a session.
unfoldable pub is_enabled : (is_loading_auth wanted : Bool) → AppQuery → Bool
is_enabled is_loading_auth wanted my_workspaces = not is_loading_auth
is_enabled is_loading_auth wanted (one_workspace id) = not is_loading_auth && is_given id
is_enabled is_loading_auth wanted (workspace_members id) =
    wanted && not is_loading_auth && is_given id
is_enabled is_loading_auth wanted (workspace_notes id) =
    wanted && not is_loading_auth && is_given id
is_enabled is_loading_auth wanted (workspace_boards id) =
    wanted && not is_loading_auth && is_given id
is_enabled is_loading_auth wanted (board_by_slug slug) = is_given slug
is_enabled is_loading_auth wanted (one_note id) = not is_loading_auth && is_given id
is_enabled is_loading_auth wanted (note_by_slug slug) = not is_loading_auth && is_given slug

-- What a timestamp can be: nothing, a message with `toDate`, or the two numbers of its JSON form, of
-- which `none` stands for NaN; a missing one is 0. Their sum is taken exactly.
pub data Timestamp : Type 0 where
  no_time : Timestamp
  dated : ℕ → Timestamp
  parts : (seconds nanos : Option ℕ) → Timestamp

-- The last millisecond of a `Date`.
abbrev pub last_date : ℕ
last_date = 8640000000000000

pub record Note : Type 0 where
  pub id : String
  pub title : String
  pub created_by : String
  pub is_private : Bool
  pub updated_at : Timestamp

pub record Board : Type 0 where
  pub id : String
  pub title : String
  pub created_by : String
  pub is_private : Bool
  pub updated_at : Timestamp

pub record WorkspaceLibraryItem : Type 0 where
  pub id : String
  pub title : String
  pub created_by : String
  pub visibility : String
  pub updated_at : String

pub record Workspace : Type 0 where
  pub id : String
  pub name : String
  pub slug : String
  pub description : String
  pub icon_url : String
  pub owner_id : String
  pub is_public : Bool
  pub created_at : Timestamp
  pub updated_at : Timestamp
  pub my_role : ℕ

pub record PlainWorkspace : Type 0 where
  pub id : String
  pub name : String
  pub slug : String
  pub description : String
  pub icon_url : String
  pub owner_id : String
  pub is_public : Bool
  pub created_at : String
  pub updated_at : String
  pub my_role : ℕ

pub record BoardMatch : Type 0 where
  pub board : Board
  pub workspace_id : String

abbrev pub or_default : String → String → String
or_default s d = if is_blank s then d else s

abbrev pub visibility_of : Bool → String
visibility_of is_private = if is_private then "Private" else "Shared"

-- `getBoardBySlug` that answers without a board is an error.
unfoldable pub board_by_slug_result : Option (Option Board × String) → Option BoardMatch
board_by_slug_result none = none
board_by_slug_result (some (none, workspace_id)) = none
board_by_slug_result (some (some board, workspace_id)) =
    some (record { board = board; workspace_id = workspace_id })

module _ (locale_date : ℕ → String) where
  unfoldable pub format_workspace_library_timestamp : Timestamp → String
  format_workspace_library_timestamp no_time = "—"
  format_workspace_library_timestamp (dated ms) = locale_date ms
  format_workspace_library_timestamp (parts (some seconds) (some nanos)) =
      let ms = seconds * 1000 + nanos / 1000000 in if leb ms last_date then locale_date ms else "—"
  format_workspace_library_timestamp (parts _ _) = "—"

  unfoldable pub to_plain_workspace : Workspace → PlainWorkspace
  to_plain_workspace w = record {
    id = w.id;
    name = w.name;
    slug = w.slug;
    description = w.description;
    icon_url = w.icon_url;
    owner_id = w.owner_id;
    is_public = w.is_public;
    created_at = format_workspace_library_timestamp w.created_at;
    updated_at = format_workspace_library_timestamp w.updated_at;
    my_role = w.my_role;
  }

  unfoldable pub note_item : Note → WorkspaceLibraryItem
  note_item n = record {
    id = n.id;
    title = or_default n.title "Untitled note";
    created_by = or_default n.created_by "Unknown";
    visibility = visibility_of n.is_private;
    updated_at = format_workspace_library_timestamp n.updated_at;
  }

  unfoldable pub board_item : Board → WorkspaceLibraryItem
  board_item b = record {
    id = b.id;
    title = or_default b.title "Untitled board";
    created_by = or_default b.created_by "Unknown";
    visibility = visibility_of b.is_private;
    updated_at = format_workspace_library_timestamp b.updated_at;
  }

abbrev pub answered {ℓ κ} :
    {A : Type ℓ} → {B : Type κ} → (A → B) → Option (List A) → Option (List B)
answered f none = none
answered f (some xs) = some (map f xs)

-- The query functions; the services answer with a list.
abbrev pub workspaces_query : (ℕ → String) → Option (List Workspace) → Option (List PlainWorkspace)
workspaces_query locale_date = answered (to_plain_workspace locale_date)

abbrev pub notes_query : (ℕ → String) → Option (List Note) → Option (List WorkspaceLibraryItem)
notes_query locale_date = answered (note_item locale_date)

abbrev pub boards_query : (ℕ → String) → Option (List Board) → Option (List WorkspaceLibraryItem)
boards_query locale_date = answered (board_item locale_date)

-- The state of one of the board queries of `useWhiteboardBySlug`.
pub record BoardQuery : Type 0 where
  pub data_boards : Option (List Board)
  pub is_loading : Bool
  pub is_error : Bool

unfoldable pub find_title : String → List Board → Option Board
find_title slug [] = none
find_title slug (b ∷ bs) = if str_eq b.title slug then some b else find_title slug bs

abbrev pub boards_of : Option (List Board) → List Board
boards_of none = []
boards_of (some bs) = bs

abbrev pub match_in : (workspace_id : String) → Option Board → Option BoardMatch → Option BoardMatch
match_in workspace_id none later = later
match_in workspace_id (some b) later = some (record { board = b; workspace_id = workspace_id })

-- The loop over the queries, each with the id of its workspace.
unfoldable pub matched_board : String → List (String × BoardQuery) → Option BoardMatch
matched_board slug [] = none
matched_board slug ((workspace_id, q) ∷ qs) =
    match_in workspace_id (find_title slug (boards_of q.data_boards)) (matched_board slug qs)

pub record SlugResult : Type 0 where
  pub found : Option BoardMatch
  pub is_loading : Bool
  pub is_error : Bool

unfoldable pub use_whiteboard_by_slug :
    (slug : Option String) → (is_loading is_error : Bool) → List (String × BoardQuery) → SlugResult
use_whiteboard_by_slug slug is_loading is_error queries = record {
  found = matched_board (elim slug [ none ↦ "" | some s ↦ s ]) queries;
  is_loading = is_loading || (length queries == 0 || any (λ q. q.1.is_loading) queries);
  is_error = is_error || any (λ q. q.1.is_error) queries;
}
