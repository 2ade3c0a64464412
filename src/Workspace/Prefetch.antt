-- ===== src/Workspace/Prefetch.antt =====
-- The pages of web/src/app that ask for data on the server before they render (layout.tsx and
-- workspace/page.tsx, workspace/[id]/page.tsx, workspace/[id]/members/page.tsx, notes/[slug]/page.tsx
-- under (dashboard), whiteboard/[slug]/page.tsx under (whiteboard)), the functions
-- web/src/modules/*/api/*-server-queries.ts that they call, and the queries that their components
-- read first. The query client is a package, and so a parameter.
pub mod Laws
use scylladb_grpc_microservi.Common.{
  String, Bool, true, false, ◌&&◌, Option, none, some, List, [], ◌∷◌, ◌++◌, str_eq, if◌then◌else◌,
  ◌≡◌,
}
use scylladb_grpc_microservi.Workspace.Queries.{
  AppQuery, my_workspaces, one_workspace, workspace_members, workspace_boards, board_by_slug,
  note_by_slug, query_key,
}

abbrev pub same_key : List String → List String → Bool
same_key [] [] = true
same_key (k ∷ ks) (j ∷ js) = str_eq k j && same_key ks js
same_key _ _ = false

abbrev pub or_else {ℓ} : {A : Type ℓ} → Option A → Option A → Option A
or_else none o = o
or_else (some a) o = some a

-- The query client of one request (`cache` gives all server components the same). `prefetchQuery`
-- does nothing where an answer is fresh, which each is for longer than a request takes, stores the
-- answer of the query function, and stores nothing where that throws.
pub record RequestClient : Type 1 where
  pub Client : Type 0
  pub Answer : Type 0
  pub new_client : Client
  pub get_query_data : List String → Client → Option Answer
  pub prefetch_query : List String → Option Answer → Client → Client
  pub get_query_data-new : (key : List String) → get_query_data key new_client ≡ none
  pub get_query_data-prefetch :
      (key other : List String) (o : Option Answer) (c : Client)
      → get_query_data key (prefetch_query other o c)
        ≡ (if same_key key other then or_else (get_query_data key c) o else get_query_data key c)

pub data AppPage : Type 0 where
  landing_page : AppPage
  library_page : (workspace_id : String) → AppPage
  members_page : (workspace_id : String) → AppPage
  note_page : (slug : String) → AppPage
  whiteboard_page : (slug : String) → AppPage

-- What the layout around a page prefetches: that of (dashboard) the workspaces of its sidebar, that
-- of (whiteboard) nothing.
unfoldable pub layout_prefetches : AppPage → List AppQuery
layout_prefetches (whiteboard_page slug) = []
layout_prefetches _ = my_workspaces ∷ []

unfoldable pub page_prefetches : AppPage → List AppQuery
page_prefetches landing_page = my_workspaces ∷ []
page_prefetches (library_page id) = one_workspace id ∷ (workspace_boards id ∷ [])
page_prefetches (members_page id) = one_workspace id ∷ (workspace_members id ∷ [])
page_prefetches (note_page slug) = note_by_slug slug ∷ []
page_prefetches (whiteboard_page slug) = board_by_slug slug ∷ []

abbrev pub prefetches : AppPage → List AppQuery
prefetches p = layout_prefetches p ++ page_prefetches p

-- What a component reads: a query of the modules, or that for the current user.
pub data Read : Type 0 where
  query : AppQuery → Read
  current_user : Read

-- The sidebar with its user button, which the layout of (dashboard) renders.
unfoldable pub sidebar_reads : AppPage → List Read
sidebar_reads (whiteboard_page slug) = []
sidebar_reads _ = query my_workspaces ∷ (current_user ∷ [])

module _ (r : RequestClient) (ask : AppQuery → Option r.Answer) where
  -- A function of the `-server-queries` files; `ask` is what the query function gets.
  unfoldable pub prefetch : AppQuery → r.Client → r.Client
  prefetch q c = r.prefetch_query (query_key q) (ask q) c

  -- The prefetches of a request, in the order in which they end.
  unfoldable pub prefetch_all : List AppQuery → r.Client → r.Client
  prefetch_all [] c = c
  prefetch_all (q ∷ qs) c = prefetch_all qs (prefetch q c)

  -- `WorkspaceView` opens on the whiteboards, of the workspace it is given, with the user of `useAuth`;
  -- without a workspace nothing is rendered.
  unfoldable pub view_reads :
      (id_of : r.Answer → String) → (workspace : Option r.Answer) → List Read
  view_reads id_of none = []
  view_reads id_of (some w) = current_user ∷ (query (workspace_boards (id_of w)) ∷ [])

  -- What the components of a page read when they are first rendered.
  unfoldable pub component_reads : (id_of : r.Answer → String) → AppPage → List Read
  component_reads id_of landing_page = []
  component_reads id_of (library_page id) =
      query (one_workspace id) ∷ view_reads id_of (ask (one_workspace id))
  component_reads id_of (members_page id) =
      query (one_workspace id) ∷ (query (workspace_members id) ∷ (current_user ∷ []))
  component_reads id_of (note_page slug) = query (note_by_slug slug) ∷ (current_user ∷ [])
  component_reads id_of (whiteboard_page slug) = query (board_by_slug slug) ∷ []

  abbrev pub first_reads : (id_of : r.Answer → String) → AppPage → List Read
  first_reads id_of p = sidebar_reads p ++ component_reads id_of p
