-- ===== src/Workspace/Navigation.antt =====
-- web/src/modules/dashboard/components/dashboard-sidebar.tsx: which workspace is selected, which
-- entries the menu shows and what its handlers do. The workspace service is a parameter.
pub mod Laws
use Prim.Native.String.{◌++◌}
use scylladb_grpc_microservi.Common.{
  ℕ, String, Bool, true, false, not, ◌||◌, ◌&&◌, Option, none, some, List, [], ◌∷◌, ◌++◌ as append,
  map, filter, length, ltb, is_blank, str_eq, if◌then◌else◌, begins, includes,
}
use scylladb_grpc_microservi.Workspace.Slug.{trim, build_workspace_slug}

-- `id` of the route: absent, one, or several.
pub data RouteParam : Type 0 where
  no_param : RouteParam
  one_param : String → RouteParam
  many_params : List String → RouteParam

pub record WorkspaceOption : Type 0 where
  pub value : String
  pub label : String

pub record MenuItem : Type 0 where
  pub title : String
  pub url : Option String
  pub is_exact : Bool

unfoldable pub is_item_active : (pathname : String) → MenuItem → Bool
is_item_active pathname item = elim item.url [
  | none ↦ false
  | some url ↦
      if is_blank url
      then false
      else if item.is_exact
      then str_eq pathname url
      else if str_eq url "/"
      then str_eq pathname "/"
      else begins url pathname
]

-- `params.id[0]` of an empty array is `undefined`, which the fallback of the selection takes up.
abbrev pub route_workspace_id : RouteParam → String
route_workspace_id no_param = ""
route_workspace_id (one_param id) = id
route_workspace_id (many_params []) = ""
route_workspace_id (many_params (id ∷ ids)) = id

abbrev pub default_workspace_id : List WorkspaceOption → String
default_workspace_id [] = ""
default_workspace_id (o ∷ os) = o.value

unfoldable pub effective_workspace_id : RouteParam → List WorkspaceOption → String
effective_workspace_id params options =
    let route = route_workspace_id params in
    if is_blank route then default_workspace_id options else route

unfoldable pub label_of_id : String → List WorkspaceOption → String
label_of_id id [] = ""
label_of_id id (o ∷ os) = if str_eq o.value id then o.label else label_of_id id os

abbrev pub overview_item : String → MenuItem
overview_item id = record { title = "Overview"; url = some ("/workspace/" ++ id); is_exact = true }

abbrev pub members_item : String → MenuItem
members_item id = record {
  title = "Members";
  url = some ("/workspace/" ++ (id ++ "/members"));
  is_exact = false;
}

unfoldable pub navigation_items : (workspace_id : String) → List MenuItem
navigation_items id = if is_blank id then [] else overview_item id ∷ (members_item id ∷ [])

pub record NewWorkspace : Type 0 where
  pub name : String
  pub slug : String
  pub description : String
  pub icon_url : String
  pub is_public : Bool

-- The menu, with the workspaces asked for and the pages gone to.
pub record Menu : Type 0 where
  pub workspace_search : String
  pub workspace_menu_open : Bool
  pub created : List NewWorkspace
  pub visited : List String

-- The effect that clears the search of a closed menu.
unfoldable pub set_menu_open : Bool → Menu → Menu
set_menu_open shown m = record m {
  workspace_menu_open = shown;
  workspace_search = if shown then m.workspace_search else "";
}

unfoldable pub handle_workspace_change : String → Menu → Menu
handle_workspace_change id m = if is_blank id then m else record m {
  workspace_search = "";
  workspace_menu_open = false;
  visited = append m.visited (("/workspace/" ++ id) ∷ []);
}

module _ (to_lower_case : String → String) (create_workspace : NewWorkspace → Option String) where
  unfoldable pub filtered_workspaces :
      (search : String) → List WorkspaceOption → List WorkspaceOption
  filtered_workspaces search options =
      let normalized = to_lower_case (trim search) in
      if is_blank normalized
      then options
      else filter (λ o. includes normalized (to_lower_case o.label)) options

  abbrev pub new_workspace : String → NewWorkspace
  new_workspace name = record {
    name = name;
    slug = build_workspace_slug to_lower_case name;
    description = "";
    icon_url = "";
    is_public = false;
  }

  -- `none` stands for a call that throws: the menu stays.
  unfoldable pub on_created : Option String → Menu → Menu
  unfolding handle_workspace_change
  on_created none m = m
  on_created (some id) m = handle_workspace_change id m

  unfoldable pub handle_create_workspace : String → Menu → Menu
  handle_create_workspace name m =
      let trimmed = trim name in
      if is_blank trimmed
      then m
      else on_created (create_workspace (new_workspace trimmed))
          (record m { created = append m.created (new_workspace trimmed ∷ []) })

  unfoldable pub handle_search_key_down : (key : String) → List WorkspaceOption → Menu → Menu
  handle_search_key_down key options m =
      let found = filtered_workspaces m.workspace_search options in
      if not (str_eq key "Enter")
      then m
      else if is_blank (trim m.workspace_search) || ltb 0 (length found)
      then m
      else handle_create_workspace (trim m.workspace_search) m
