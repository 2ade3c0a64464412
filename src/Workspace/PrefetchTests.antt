-- ===== src/Workspace/PrefetchTests.antt =====
-- web/src/app: the prefetches of the pages, with a client that is a function of its keys.
use scylladb_grpc_microservi.Common.{
  String, Option, none, some, List, [], ◌∷◌, ◌≡◌, refl, inl, inr, if◌then◌else◌,
}
use scylladb_grpc_microservi.Workspace.Queries.{
  AppQuery, my_workspaces, one_workspace, workspace_notes, workspace_boards, query_key,
}
use scylladb_grpc_microservi.Workspace.Mutations.{current_user_key}
use scylladb_grpc_microservi.Workspace.Prefetch.{
  query, same_key, or_else, RequestClient, library_page, layout_prefetches, page_prefetches,
  prefetches, first_reads, prefetch, prefetch_all,
}
use scylladb_grpc_microservi.Workspace.Prefetch.Laws.{
  IsIn, IsCovered, AnswersWithId, prefetch_all-first_reads,
}

abbrev client : RequestClient
client = record {
  Client = List String → Option String;
  Answer = String;
  new_client = λ key. none;
  get_query_data = λ key c. c key;
  prefetch_query = λ other o c key. if same_key key other then or_else (c key) o else c key;
  get_query_data-new = λ key. refl;
  get_query_data-prefetch = λ key other o c. refl;
}

-- The call for the list of workspaces throws.
abbrev services : AppQuery → Option String
services my_workspaces = none
services (one_workspace id) = some id
services (workspace_boards id) = some "two boards"
services _ = some "an answer"

services-AnswersWithId : AnswersWithId client services (λ w. w)
services-AnswersWithId id w e = cc

-- The page is done before the layout.
abbrev in_order : List AppQuery
in_order = workspace_boards "w1" ∷ (one_workspace "w1" ∷ (my_workspaces ∷ []))

notes_not_fetched :
    client.get_query_data
      (query_key (workspace_notes "w1"))
      (prefetch_all client services in_order client.new_client)
    ≡ none
unfolding prefetch_all prefetch query_key
notes_not_fetched = refl

in_order-IsCovered : IsCovered (prefetches (library_page "w1")) in_order
unfolding layout_prefetches page_prefetches
in_order-IsCovered q (inl e) = inr (inr (inl e))
in_order-IsCovered q (inr (inl e)) = inr (inl e)
in_order-IsCovered q (inr (inr (inl e))) = inl e
in_order-IsCovered q (inr (inr (inr i))) = absurd i

prefetch_all-first_reads_example :
    let c = prefetch_all client services in_order client.new_client in
    ((q : AppQuery)
      → IsIn (query q) (first_reads client services (λ w. w) (library_page "w1"))
      → client.get_query_data (query_key q) c ≡ services q)
    × (client.get_query_data current_user_key c ≡ none)
prefetch_all-first_reads_example =
    prefetch_all-first_reads client services (λ w. w) (library_page "w1") in_order
      services-AnswersWithId in_order-IsCovered
