-- ===== src/Workspace/Mutations.antt =====
-- The mutations of web/src/modules/*/api (use-workspaces.ts, use-notes.ts, use-whiteboards.ts) and of
-- use-logout.ts, with what they do to the query cache. The cache is a package, and so a parameter.
pub mod Laws
use scylladb_grpc_microservi.Common.{
  String, Bool, true, false, ◌&&◌, Option, none, some, List, [], ◌∷◌, str_eq, if◌then◌else◌, ◌≡◌,
}

-- A key that another one begins with.
abbrev pub is_prefix : List String → List String → Bool
is_prefix [] key = true
is_prefix (k ∷ ks) [] = false
is_prefix (k ∷ ks) (j ∷ key) = str_eq k j && is_prefix ks key

-- The query cache: `invalidateQueries` makes the answers stale whose keys begin with the given one,
-- and `removeQueries` drops them.
pub record QueryCache : Type 1 where
  pub Cache : Type 0
  pub Answer : Type 0
  pub answer : List String → Cache → Option Answer
  pub is_stale : List String → Cache → Bool
  pub invalidate_queries : List String → Cache → Cache
  pub remove_queries : List String → Cache → Cache
  pub answer-invalidate :
      (prefix key : List String) (c : Cache)
      → answer key (invalidate_queries prefix c) ≡ answer key c
  pub is_stale-invalidate :
      (prefix key : List String) (c : Cache) (a : Answer)
      → answer key c ≡ some a
      → is_stale key (invalidate_queries prefix c)
        ≡ (if is_prefix prefix key then true else is_stale key c)
  pub answer-remove :
      (prefix key : List String) (c : Cache)
      → answer key (remove_queries prefix c) ≡ (if is_prefix prefix key then none else answer key c)

-- The mutations, each with what its input names; of an invitation, the workspace it leads to.
pub data Mutation : Type 0 where
  create_note : (workspace_id : String) → Mutation
  create_whiteboard : (workspace_id : String) → Mutation
  create_workspace : Mutation
  accept_invitation : (workspace_id : String) → Mutation
  reject_invitation : (workspace_id : String) → Mutation
  leave_workspace : (workspace_id : String) → Mutation

abbrev pub workspace_query_key : List String
workspace_query_key = "myWorkspaces" ∷ []

abbrev pub workspace_library_query_key : List String
workspace_library_query_key = "workspaceLibrary" ∷ []

abbrev pub current_user_key : List String
current_user_key = "currentUser" ∷ []

-- The key that `onSuccess` gives to `invalidateQueries`.
unfoldable pub invalidates : Mutation → List String
invalidates (create_note id) = workspace_library_query_key
invalidates (create_whiteboard id) = workspace_library_query_key
invalidates create_workspace = workspace_query_key
invalidates (accept_invitation id) = workspace_query_key
invalidates (reject_invitation id) = workspace_query_key
invalidates (leave_workspace id) = workspace_query_key

module _ (q : QueryCache) where
  -- A mutation whose call of the service succeeds, or throws.
  unfoldable pub mutate : (succeeds : Bool) → Mutation → q.Cache → q.Cache
  mutate true m c = q.invalidate_queries (invalidates m) c
  mutate false m c = c

  -- `useLogout`; the action throws when it is called from another site.
  unfoldable pub use_logout : (returns : Bool) → q.Cache → q.Cache
  use_logout true c = q.remove_queries current_user_key c
  use_logout false c = c
