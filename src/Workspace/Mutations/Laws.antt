-- ===== src/Workspace/Mutations/Laws.antt =====
-- web/src/modules/*/api: which cached answers a mutation leaves to be served.
use scylladb_grpc_microservi.Common.{Bool, true, false, none, some, str_eq, ◌≡◌, refl, ◌∙◌, arith}
use scylladb_grpc_microservi.Workspace.Queries.{
  AppQuery, my_workspaces, one_workspace, workspace_members, workspace_notes, workspace_boards,
  board_by_slug, one_note, note_by_slug, query_key,
}
use scylladb_grpc_microservi.Workspace.Mutations.{
  QueryCache, Mutation, create_note, create_whiteboard, create_workspace, accept_invitation,
  reject_invitation, leave_workspace, is_prefix, invalidates, mutate, use_logout, current_user_key,
}

-- The queries whose answer a mutation changes: the notes or boards of a workspace, the list of the
-- user's workspaces, a workspace and its members; whoever leaves a workspace is refused all of its
-- lists.
abbrev pub affects : Mutation → AppQuery → Bool
affects (create_note id) (workspace_notes w) = str_eq id w
affects (create_whiteboard id) (workspace_boards w) = str_eq id w
affects create_workspace my_workspaces = true
affects (accept_invitation id) my_workspaces = true
affects (accept_invitation id) (one_workspace w) = str_eq id w
affects (accept_invitation id) (workspace_members w) = str_eq id w
affects (reject_invitation id) (workspace_members w) = str_eq id w
affects (leave_workspace id) my_workspaces = true
affects (leave_workspace id) (one_workspace w) = str_eq id w
affects (leave_workspace id) (workspace_members w) = str_eq id w
affects (leave_workspace id) (workspace_notes w) = str_eq id w
affects (leave_workspace id) (workspace_boards w) = str_eq id w
affects _ _ = false

-- The queries that a mutation changes on the service but does not invalidate.
abbrev pub misses : Mutation → AppQuery → Bool
misses (leave_workspace id) (workspace_notes w) = str_eq id w
misses (leave_workspace id) (workspace_boards w) = str_eq id w
misses _ _ = false

affects-invalidates :
    (m : Mutation) (q : AppQuery)
    → affects m q ≡ true
    → misses m q ≡ false
    → is_prefix (invalidates m) (query_key q) ≡ true
unfolding invalidates query_key
affects-invalidates (create_note id) (workspace_notes w) h k = refl
affects-invalidates (create_whiteboard id) (workspace_boards w) h k = refl
affects-invalidates create_workspace my_workspaces h k = refl
affects-invalidates (accept_invitation id) my_workspaces h k = refl
affects-invalidates (accept_invitation id) (one_workspace w) h k = refl
affects-invalidates (accept_invitation id) (workspace_members w) h k = refl
affects-invalidates (reject_invitation id) (workspace_members w) h k = refl
affects-invalidates (leave_workspace id) my_workspaces h k = refl
affects-invalidates (leave_workspace id) (one_workspace w) h k = refl
affects-invalidates (leave_workspace id) (workspace_members w) h k = refl
affects-invalidates (leave_workspace id) (workspace_notes w) h k = cc
affects-invalidates (leave_workspace id) (workspace_boards w) h k = cc
affects-invalidates _ _ h k = cc

misses-invalidates :
    (m : Mutation) (q : AppQuery)
    → misses m q ≡ true
    → is_prefix (invalidates m) (query_key q) ≡ false
unfolding invalidates query_key
misses-invalidates (leave_workspace id) (workspace_notes w) h = refl
misses-invalidates (leave_workspace id) (workspace_boards w) h = refl
misses-invalidates _ _ h = cc

-- The queries of a single note or board.
abbrev pub IsDocument : AppQuery → Type 0
IsDocument (board_by_slug slug) = Unit
IsDocument (one_note id) = Unit
IsDocument (note_by_slug slug) = Unit
IsDocument _ = ⊥

document_kept :
    (m : Mutation) (q : AppQuery) → IsDocument q → is_prefix (invalidates m) (query_key q) ≡ false
unfolding invalidates query_key
document_kept (create_note id) (board_by_slug slug) h = refl
document_kept _ _ h = ground arith

module _ (q : QueryCache) (c : q.Cache) where
  -- When a mutation has succeeded, the cached answers that `affects` names, the lists, workspaces and
  -- members that it changes on the service, are stale, and stay until the next answer comes; all but the
  -- notes and boards of a workspace that the user leaves, which are as fresh as they were, though the
  -- service now refuses them. So are the answers for single notes and boards, those of a workspace that
  -- the user leaves among them. When it throws, the cache is as it was.
  pub mutate-is_stale :
      (m : Mutation) (r : AppQuery) (a : q.Answer)
      → q.answer (query_key r) c ≡ some a
      → (affects m r ≡ true
          → misses m r ≡ false
          → q.is_stale (query_key r) (mutate q true m c) ≡ true)
        × (misses m r ≡ true
            → q.is_stale (query_key r) (mutate q true m c) ≡ q.is_stale (query_key r) c)
        × (q.answer (query_key r) (mutate q true m c) ≡ some a)
        × (IsDocument r → q.is_stale (query_key r) (mutate q true m c) ≡ q.is_stale (query_key r) c)
        × (mutate q false m c ≡ c)
  unfolding mutate
  mutate-is_stale m r a h =
      let stale = q.is_stale-invalidate (invalidates m) (query_key r) c a h in
      (
        λ changed told. stale ∙ rw (affects-invalidates m r changed told) refl,
        λ missed. stale ∙ rw (misses-invalidates m r missed) refl,
        q.answer-invalidate (invalidates m) (query_key r) c ∙ h,
        λ single. stale ∙ rw (document_kept m r single) refl,
        refl,
      )

logout_kept : (r : AppQuery) → is_prefix current_user_key (query_key r) ≡ false
unfolding query_key
logout_kept my_workspaces = refl
logout_kept _ = refl

-- A logout drops the current user from the cache and keeps every other answer.
pub use_logout-answer :
    (q : QueryCache) (c : q.Cache) (r : AppQuery)
    → (q.answer current_user_key (use_logout q true c) ≡ none)
      × (q.answer (query_key r) (use_logout q true c) ≡ q.answer (query_key r) c)
unfolding use_logout
use_logout-answer q c r = (
  q.answer-remove current_user_key current_user_key c,
  q.answer-remove current_user_key (query_key r) c ∙ rw (logout_kept r) refl,
)
