-- ===== src/Workspace/Prefetch/Laws.antt =====
-- web/src/app and web/src/modules/*/api: the data that a page has before its components ask.
use scylladb_grpc_microservi.Common.{
  String, true, Bool-cases, false, ◌++◌, Option, none, some, List, [], ◌∷◌, ◌≡◌, refl, ap, ◌∙◌, ◌⊎◌,
  inl, inr, arith, eq_iff,
}
use scylladb_grpc_microservi.Workspace.Queries.{
  AppQuery, my_workspaces, one_workspace, workspace_boards, query_key,
}
use scylladb_grpc_microservi.Workspace.Queries.Laws.{query_key-injective}
use scylladb_grpc_microservi.Workspace.Mutations.{current_user_key}
use scylladb_grpc_microservi.Workspace.Prefetch.{
  Read, query, current_user, same_key, or_else, RequestClient, AppPage, landing_page, library_page,
  members_page, note_page, whiteboard_page, layout_prefetches, page_prefetches, prefetches,
  sidebar_reads, prefetch, prefetch_all, view_reads, component_reads, first_reads,
}

same_key_eq : (k j : List String) → same_key k j ≡ true → k ≡ j
same_key_eq [] [] h = refl
same_key_eq (k ∷ ks) (j ∷ js) h = ground (arith, same_key_eq ks js, eq_iff k j)
same_key_eq [] (j ∷ js) h = cc
same_key_eq (k ∷ ks) [] h = cc

same_key_refl : (k : List String) → same_key k k ≡ true
same_key_refl [] = refl
same_key_refl (k ∷ ks) = ground (arith, same_key_refl ks, eq_iff k k)

abbrev pub IsIn : {A : Type 0} → A → List A → Type 0
IsIn a [] = ⊥
IsIn a (b ∷ bs) = (a ≡ b) ⊎ IsIn a bs

IsIn-left : (q : AppQuery) (xs ys : List AppQuery) → IsIn q xs → IsIn q (xs ++ ys)
IsIn-left q [] ys i = absurd i
IsIn-left q (x ∷ xs) ys (inl e) = inl e
IsIn-left q (x ∷ xs) ys (inr i) = inr (IsIn-left q xs ys i)

IsIn-right : (q : AppQuery) (xs ys : List AppQuery) → IsIn q ys → IsIn q (xs ++ ys)
IsIn-right q [] ys i = i
IsIn-right q (x ∷ xs) ys i = inr (IsIn-right q xs ys i)

IsIn-split : (a : Read) (xs ys : List Read) → IsIn a (xs ++ ys) → IsIn a xs ⊎ IsIn a ys
IsIn-split a [] ys i = inr i
IsIn-split a (x ∷ xs) ys (inl e) = inl (inl e)
IsIn-split a (x ∷ xs) ys (inr i) = elim (IsIn-split a xs ys i) [
  | inl l ↦ inl (inr l)
  | inr r ↦ inr r
]

query-injective : (q p : AppQuery) → query q ≡ query p → q ≡ p
query-injective q p e = cc

of_sidebar :
    (q : AppQuery)
    → IsIn (query q) (query my_workspaces ∷ (current_user ∷ []))
    → IsIn q (my_workspaces ∷ [])
of_sidebar q (inl e) = inl (query-injective q my_workspaces e)
of_sidebar q (inr (inl e)) = cc
of_sidebar q (inr (inr i)) = absurd i

sidebar_reads-prefetched :
    (p : AppPage) (q : AppQuery) → IsIn (query q) (sidebar_reads p) → IsIn q (layout_prefetches p)
unfolding layout_prefetches sidebar_reads
sidebar_reads-prefetched (whiteboard_page slug) q i = i
sidebar_reads-prefetched landing_page q i = of_sidebar q i
sidebar_reads-prefetched (library_page id) q i = of_sidebar q i
sidebar_reads-prefetched (members_page id) q i = of_sidebar q i
sidebar_reads-prefetched (note_page slug) q i = of_sidebar q i

user_key_apart : (q : AppQuery) → same_key current_user_key (query_key q) ≡ false
unfolding query_key
user_key_apart my_workspaces = refl
user_key_apart _ = refl

abbrev pub IsCovered : List AppQuery → List AppQuery → Type 0
IsCovered qs rs = (q : AppQuery) → IsIn q qs → IsIn q rs

module _ (r : RequestClient) (ask : AppQuery → Option r.Answer) where
  -- There is no answer to the query yet, or the one that the service gives.
  abbrev IsKnown : AppQuery → r.Client → Type 0
  IsKnown q c =
      (r.get_query_data (query_key q) c ≡ none) ⊎ (r.get_query_data (query_key q) c ≡ ask q)

  or_else_known :
      (q : AppQuery) (o : Option r.Answer) → (o ≡ none) ⊎ (o ≡ ask q) → or_else o (ask q) ≡ ask q
  or_else_known q none h = refl
  or_else_known q (some a) (inl e) = cc
  or_else_known q (some a) (inr e) = e

  prefetch-same :
      (q : AppQuery) (c : r.Client)
      → IsKnown q c
      → r.get_query_data (query_key q) (prefetch r ask q c) ≡ ask q
  unfolding prefetch
  prefetch-same q c h =
      r.get_query_data-prefetch (query_key q) (query_key q) (ask q) c
      ∙ rw (same_key_refl (query_key q)) (or_else_known q (r.get_query_data (query_key q) c) h)

  prefetch-equal :
      (q p : AppQuery) (c : r.Client)
      → q ≡ p
      → IsKnown q c
      → r.get_query_data (query_key q) (prefetch r ask p c) ≡ ask q
  prefetch-equal q p c e h = let same = prefetch-same q c h in cc

  prefetch-cases :
      (q p : AppQuery) (c : r.Client)
      → IsKnown q c
      → (r.get_query_data (query_key q) (prefetch r ask p c) ≡ ask q)
        ⊎ (r.get_query_data (query_key q) (prefetch r ask p c) ≡ r.get_query_data (query_key q) c)
  unfolding prefetch
  prefetch-cases q p c h = elim (Bool-cases (same_key (query_key q) (query_key p))) [
    | inl e ↦
        let same = query_key-injective q p (same_key_eq (query_key q) (query_key p) e) in
        inl (prefetch-equal q p c same h)
    | inr e ↦ inr (r.get_query_data-prefetch (query_key q) (query_key p) (ask p) c ∙ rw e refl)
  ]

  -- What is known of an answer stays known.
  prefetch-IsKnown : (q p : AppQuery) (c : r.Client) → IsKnown q c → IsKnown q (prefetch r ask p c)
  prefetch-IsKnown q p c h = elim (prefetch-cases q p c h) [
    | inl e ↦ inr e
    | inr e ↦ elim h [ inl n ↦ inl (e ∙ n) | inr a ↦ inr (e ∙ a) ]
  ]

  -- An answer that is there stays.
  prefetch_all-kept :
      (qs : List AppQuery) (q : AppQuery) (c : r.Client)
      → r.get_query_data (query_key q) c ≡ ask q
      → r.get_query_data (query_key q) (prefetch_all r ask qs c) ≡ ask q
  unfolding prefetch_all
  prefetch_all-kept [] q c h = h
  prefetch_all-kept (p ∷ qs) q c h =
      prefetch_all-kept qs q (prefetch r ask p c)
        (elim (prefetch-cases q p c (inr h)) [ inl e ↦ e | inr e ↦ e ∙ h ])

  -- What is asked for, in whatever order and however often, is answered by the service.
  prefetch_all-asked :
      (qs : List AppQuery) (q : AppQuery) (c : r.Client)
      → IsKnown q c
      → IsIn q qs
      → r.get_query_data (query_key q) (prefetch_all r ask qs c) ≡ ask q
  unfolding prefetch_all
  prefetch_all-asked [] q c h i = absurd i
  prefetch_all-asked (p ∷ qs) q c h (inl e) =
      prefetch_all-kept qs q (prefetch r ask p c) (prefetch-equal q p c e h)
  prefetch_all-asked (p ∷ qs) q c h (inr i) =
      prefetch_all-asked qs q (prefetch r ask p c) (prefetch-IsKnown q p c h) i

  prefetch_all-user :
      (qs : List AppQuery) (c : r.Client)
      → r.get_query_data current_user_key c ≡ none
      → r.get_query_data current_user_key (prefetch_all r ask qs c) ≡ none
  unfolding prefetch_all prefetch
  prefetch_all-user [] c h = h
  prefetch_all-user (p ∷ qs) c h =
      prefetch_all-user qs (r.prefetch_query (query_key p) (ask p) c) (
        r.get_query_data-prefetch current_user_key (query_key p) (ask p) c
        ∙ rw (user_key_apart p) h)

  module _ (id_of : r.Answer → String) where
    -- The service answers with the workspace it was asked for.
    abbrev pub AnswersWithId : Type 0
    AnswersWithId = (id : String) (w : r.Answer) → ask (one_workspace id) ≡ some w → id_of w ≡ id

    view_reads-prefetched :
        (id : String) (o : Option r.Answer) (q : AppQuery)
        → ((w : r.Answer) → o ≡ some w → id_of w ≡ id)
        → IsIn (query q) (view_reads r ask id_of o)
        → q ≡ workspace_boards id
    unfolding view_reads
    view_reads-prefetched id none q h i = absurd i
    view_reads-prefetched id (some w) q h (inl e) = cc
    view_reads-prefetched id (some w) q h (inr (inl e)) =
        query-injective q (workspace_boards (id_of w)) e ∙ ap workspace_boards (h w refl)
    view_reads-prefetched id (some w) q h (inr (inr i)) = absurd i

    component_reads-prefetched :
        AnswersWithId
        → (p : AppPage) (q : AppQuery) → IsIn (query q) (component_reads r ask id_of p)
        → IsIn q (page_prefetches p)
    unfolding page_prefetches component_reads
    component_reads-prefetched h landing_page q i = absurd i
    component_reads-prefetched h (library_page id) q (inl e) = inl (query-injective q _ e)
    component_reads-prefetched h (library_page id) q (inr i) =
        inr (inl (view_reads-prefetched id (ask (one_workspace id)) q (h id) i))
    component_reads-prefetched h (members_page id) q (inl e) = inl (query-injective q _ e)
    component_reads-prefetched h (members_page id) q (inr (inl e)) =
        inr (inl (query-injective q _ e))
    component_reads-prefetched h (members_page id) q (inr (inr (inl e))) = cc
    component_reads-prefetched h (members_page id) q (inr (inr (inr i))) = absurd i
    component_reads-prefetched h (note_page slug) q (inl e) = inl (query-injective q _ e)
    component_reads-prefetched h (note_page slug) q (inr (inl e)) = cc
    component_reads-prefetched h (note_page slug) q (inr (inr i)) = absurd i
    component_reads-prefetched h (whiteboard_page slug) q (inl e) = inl (query-injective q _ e)
    component_reads-prefetched h (whiteboard_page slug) q (inr i) = absurd i

    first_reads-prefetched :
        AnswersWithId
        → (p : AppPage) (q : AppQuery) → IsIn (query q) (first_reads r ask id_of p)
        → IsIn q (prefetches p)
    first_reads-prefetched h p q i = elim (IsIn-split (query q) (sidebar_reads p) _ i) [
      | inl side ↦ IsIn-left q (layout_prefetches p) _ (sidebar_reads-prefetched p q side)
      | inr own ↦ IsIn-right q (layout_prefetches p) _ (component_reads-prefetched h p q own)
    ]

    -- What the components of a page read when they are first rendered: on a new client, once the
    -- prefetches of the layout and the page are made, in any order and however often, and other queries
    -- of the modules too, each of these queries that they read has the answer of the service, and none
    -- only where the service throws; provided that the service answers with the workspace asked for. The
    -- current user, who is read too, is never there and has to be fetched.
    pub prefetch_all-first_reads :
        (p : AppPage) (qs : List AppQuery)
        → AnswersWithId
        → IsCovered (prefetches p) qs
        → let c = prefetch_all r ask qs r.new_client in
          ((q : AppQuery)
            → IsIn (query q) (first_reads r ask id_of p)
            → r.get_query_data (query_key q) c ≡ ask q)
          × (r.get_query_data current_user_key c ≡ none)
    prefetch_all-first_reads p qs h cover = (
      λ q i.
          prefetch_all-asked qs q r.new_client (inl (r.get_query_data-new (query_key q)))
            (cover q (first_reads-prefetched h p q i)),
      prefetch_all-user qs r.new_client (r.get_query_data-new current_user_key),
    )
