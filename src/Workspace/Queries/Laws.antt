-- ===== src/Workspace/Queries/Laws.antt =====
-- web/src/modules/*/api: the keys of the query cache, the items of the library and the lookup of a
-- whiteboard by its slug.
use scylladb_grpc_microservi.Common.{
  String, Option, none, some, List, [], ◌∷◌, str_eq, if◌then◌else◌, ◌≡◌, ◌↔◌, refl, sym, ap, ◌∙◌,
  arith, eq_iff, inl, inr, ◌⊎◌,
}
use scylladb_grpc_microservi.Workspace.Queries.{
  AppQuery, my_workspaces, one_workspace, workspace_members, workspace_notes, workspace_boards,
  board_by_slug, one_note, note_by_slug, query_key, Board, BoardMatch, BoardQuery, find_title,
  boards_of, match_in, matched_board,
}

abbrev query_of_two : String → String → Option AppQuery
query_of_two a id =
    if str_eq a "myWorkspaces"
    then some (one_workspace id)
    else if str_eq a "notes"
    then some (one_note id)
    else none

abbrev query_of_three : String → String → String → Option AppQuery
query_of_three a b c =
    if str_eq a "myWorkspaces"
    then some (workspace_members b)
    else if str_eq a "workspaceLibrary"
    then some (if str_eq c "notes" then workspace_notes b else workspace_boards b)
    else if str_eq a "whiteboard"
    then some (board_by_slug c)
    else some (note_by_slug c)

-- The query that a key belongs to.
abbrev query_of : List String → Option AppQuery
query_of (a ∷ []) = some my_workspaces
query_of (a ∷ (b ∷ [])) = query_of_two a b
query_of (a ∷ (b ∷ (c ∷ []))) = query_of_three a b c
query_of _ = none

query_of-query_key : (q : AppQuery) → query_of (query_key q) ≡ some q
unfolding query_key
query_of-query_key my_workspaces = refl
query_of-query_key (one_workspace id) = refl
query_of-query_key (workspace_members id) = refl
query_of-query_key (workspace_notes id) = refl
query_of-query_key (workspace_boards id) = refl
query_of-query_key (board_by_slug slug) = refl
query_of-query_key (one_note id) = refl
query_of-query_key (note_by_slug slug) = refl

-- Two queries with the same key are the same query, so that no query reads the cached answer of
-- another one.
pub query_key-injective : (q r : AppQuery) → query_key q ≡ query_key r → q ≡ r
query_key-injective q r e =
    let same : some q ≡ some r =
      sym (query_of-query_key q) ∙ ap query_of e ∙ query_of-query_key r in
    cc

-- The title of the board found is the slug.
find_title-title :
    (slug : String) (bs : List Board) (b : Board) → find_title slug bs ≡ some b → b.title ≡ slug
unfolding find_title
find_title-title slug [] b h = cc
find_title-title slug (c ∷ bs) b h = ground (arith, find_title-title slug bs b, eq_iff c.title slug)

-- A query in the list has a board with the title, of its workspace.
abbrev pub Holds : String → BoardMatch → List (String × BoardQuery) → Type 0
Holds slug m [] = ⊥
Holds slug m ((id, q) ∷ qs) =
    ((id ≡ m.workspace_id) × (find_title slug (boards_of q.data_boards) ≡ some m.board))
    ⊎ ((find_title slug (boards_of q.data_boards) ≡ none) × Holds slug m qs)

match_in-first :
    {P : Type 0} (id : String) (o : Option Board) (later : Option BoardMatch) (m : BoardMatch)
    → (later ≡ some m → P)
    → match_in id o later ≡ some m
    → ((id ≡ m.workspace_id) × (o ≡ some m.board)) ⊎ ((o ≡ none) × P)
match_in-first id none later m f h = inr (refl, f h)
match_in-first id (some b) later m f h = inl (cc, cc)

match_in-here :
    (id : String) (o : Option Board) (later : Option BoardMatch) (m : BoardMatch)
    → id ≡ m.workspace_id
    → o ≡ some m.board
    → match_in id o later ≡ some m
match_in-here id o later m e h = rw (h, e) refl

-- The lookup by slug finds a board with a workspace exactly if the board is the first one of that
-- title in the list of that workspace, and no workspace before it has a board of that title.
pub matched_board_iff :
    (slug : String) (qs : List (String × BoardQuery)) (m : BoardMatch)
    → (matched_board slug qs ≡ some m) ↔ Holds slug m qs
unfolding matched_board
matched_board_iff slug [] m = ((λ h. cc), (λ h. absurd h))
matched_board_iff slug ((id, q) ∷ qs) m =
    let o = find_title slug (boards_of q.data_boards) in
    (
      match_in-first id o (matched_board slug qs) m (matched_board_iff slug qs m).0,
      λ h. elim h [
        | inl (e, f) ↦ match_in-here id o (matched_board slug qs) m e f
        | inr (e, rest) ↦ rw e ((matched_board_iff slug qs m).1 rest)
      ],
    )

-- A board that the lookup by slug finds has the slug for its title.
pub matched_board-title :
    (slug : String) (qs : List (String × BoardQuery)) (m : BoardMatch)
    → matched_board slug qs ≡ some m
    → m.board.title ≡ slug
matched_board-title slug [] m h = absurd ((matched_board_iff slug [] m).0 h)
matched_board-title slug ((id, q) ∷ qs) m h = elim ((matched_board_iff slug ((id, q) ∷ qs) m).0 h) [
  | inl (e, f) ↦ find_title-title slug (boards_of q.data_boards) m.board f
  | inr (e, rest) ↦ matched_board-title slug qs m ((matched_board_iff slug qs m).1 rest)
]
