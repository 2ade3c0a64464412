-- ===== src/Workspace/Navigation/Laws.antt =====
-- web/src/modules/dashboard/components/dashboard-sidebar.tsx: the active entry, the selection and the
-- workspaces that the search field creates.
use Prim.Native.Char.{Char}
use Prim.Native.String.{◌++◌}
use text.Mathlib.TextLemmas.{nil-append, cons-append, append_assoc}
use scylladb_grpc_microservi.Common.{
  String, true, false, ◌||◌, ◌&&◌, Option, none, some, List, [], ◌∷◌, ◌++◌ as append, filter,
  length, ltb, is_blank, str_eq, begins, text_length, length-append_text, All, ◌≡◌, ◌≢◌, refl, ap,
  arith, eq_iff, eq_refl, inl, inr, Bool-cases,
}
use scylladb_grpc_microservi.Workspace.Slug.{trim}
use scylladb_grpc_microservi.Workspace.Slug.Laws.{is_slug, build_workspace_slug-is_slug}
use scylladb_grpc_microservi.Workspace.Navigation.{
  no_param, WorkspaceOption, MenuItem, is_item_active, overview_item, members_item,
  effective_workspace_id, label_of_id, navigation_items, NewWorkspace, Menu,
  handle_workspace_change, filtered_workspaces, new_workspace, on_created, handle_create_workspace,
  handle_search_key_down,
}

begins-longer : (s : String) (c : Char) (t : String) → begins (s ++ (String.◌∷◌ c t)) s ≡ false
begins-longer String.[] c t = rw (nil-append (String.◌∷◌ c t)) refl
begins-longer (String.◌∷◌ d s) c t =
    rw (cons-append d s (String.◌∷◌ c t)) (ground (arith, begins-longer s c t))

not_one_char : (x : String) → "/workspace/" ++ x ≢ "/"
not_one_char x e =
    let lengths : text_length ("/workspace/" ++ x) ≡ 1 = ap text_length e in
    omega (arith, lengths, length-append_text "/workspace/" x)

not_root : (x : String) → str_eq ("/workspace/" ++ x) "/" ≡ false
not_root x = elim (Bool-cases (str_eq ("/workspace/" ++ x) "/")) [
  | inl e ↦ absurd (not_one_char x ((eq_iff ("/workspace/" ++ x) "/").0 e))
  | inr e ↦ e
]

overview_active :
    (pathname id : String)
    → is_item_active pathname (overview_item id) ≡ true
    → pathname ≡ "/workspace/" ++ id
unfolding is_item_active
overview_active pathname id h = ground (arith, eq_iff pathname ("/workspace/" ++ id))

members_inactive : (id : String) → is_item_active ("/workspace/" ++ id) (members_item id) ≡ false
unfolding is_item_active
members_inactive id =
    let longer : begins ("/workspace/" ++ (id ++ "/members")) ("/workspace/" ++ id) ≡ false =
      rw (← append_assoc "/workspace/" id "/members", cons-append "/" "members" "")
        (begins-longer ("/workspace/" ++ id) "/" ("members" ++ "")) in
    ground (arith, longer, not_root (id ++ "/members"))

items_apart :
    (pathname id : String)
    → is_item_active pathname (overview_item id) && is_item_active pathname (members_item id)
      ≡ false
items_apart pathname id = elim (Bool-cases (is_item_active pathname (overview_item id))) [
  | inl e ↦ rw (overview_active pathname id e, members_inactive id) (ground arith)
  | inr e ↦ rw e refl
]

-- The entries of the menu that are active.
abbrev pub active_items : String → List MenuItem → List MenuItem
active_items pathname items = filter (is_item_active pathname) items

-- Two entries of the menu are never active at the same time.
pub length-active_items :
    (pathname id : String) → ltb 1 (length (active_items pathname (navigation_items id))) ≡ false
unfolding navigation_items
length-active_items pathname id = ground (arith, items_apart pathname id)

-- Without a workspace in the route the first workspace is the selected one, and the menu shows its
-- name.
pub label-effective :
    (o : WorkspaceOption) (os : List WorkspaceOption)
    → (effective_workspace_id no_param (o ∷ os) ≡ o.value)
      × (label_of_id (effective_workspace_id no_param (o ∷ os)) (o ∷ os) ≡ o.label)
unfolding effective_workspace_id label_of_id
label-effective o os = (refl, rw (eq_refl o.value) refl)

module _ (to_lower_case : String → String) (create_workspace : NewWorkspace → Option String) where
  -- A workspace as the menu may create it: it has a name, and its slug is one.
  abbrev pub IsCreatable : NewWorkspace → Type 0
  IsCreatable n = (is_blank n.name ≡ false) × (is_slug true n.slug ≡ true)

  created-change : (id : String) (m : Menu) → (handle_workspace_change id m).created ≡ m.created
  unfolding handle_workspace_change
  created-change id m = elim (Bool-cases (is_blank id)) [ inl e ↦ rw e refl | inr e ↦ rw e refl ]

  created-on_created :
      (o : Option String) (m : Menu)
      → (on_created to_lower_case create_workspace o m).created ≡ m.created
  unfolding on_created
  created-on_created none m = refl
  created-on_created (some id) m = created-change id m

  All-snoc :
      (n : NewWorkspace) (ns : List NewWorkspace)
      → IsCreatable n
      → All IsCreatable ns
      → All IsCreatable (append ns (n ∷ []))
  All-snoc n [] h hs = (h, tt)
  All-snoc n (k ∷ ns) h hs = (hs.0, All-snoc n ns h hs.1)

  create-IsCreatable :
      (name : String) (m : Menu)
      → All IsCreatable m.created
      → All IsCreatable (handle_create_workspace to_lower_case create_workspace name m).created
  unfolding handle_create_workspace
  create-IsCreatable name m h = elim (Bool-cases (is_blank (trim name))) [
    | inl e ↦ rw e h
    | inr e ↦
        rw
          (
            e,
            created-on_created _ (record m {
              created =
                  append m.created (new_workspace to_lower_case create_workspace (trim name) ∷ []);
            }),
          )
          (All-snoc _ m.created (e, build_workspace_slug-is_slug to_lower_case (trim name)) h)
  ]

  -- Whatever is typed and whichever key is pressed, a workspace that the search field creates has a
  -- name and a slug of the letters a to z, digits and single dashes.
  pub handle_search_key_down-IsCreatable :
      (key : String) (options : List WorkspaceOption) (m : Menu)
      → All IsCreatable m.created
      → All IsCreatable
          (handle_search_key_down to_lower_case create_workspace key options m).created
  unfolding handle_search_key_down
  handle_search_key_down-IsCreatable key options m h = elim (Bool-cases (str_eq key "Enter")) [
    | inr e ↦ rw e h
    | inl e ↦
        elim (Bool-cases (
          is_blank (trim m.workspace_search)
          || ltb 0 (
              length
                (filtered_workspaces to_lower_case create_workspace m.workspace_search options)))) [
                  | inl f ↦ rw (e, f) h
                  | inr f ↦ rw (e, f) (create-IsCreatable (trim m.workspace_search) m h)
                ]
  ]

  -- Nothing is created while a workspace matches the search.
  pub handle_search_key_down-found :
      (key : String) (options : List WorkspaceOption) (m : Menu)
      → ltb 0
          (length (filtered_workspaces to_lower_case create_workspace m.workspace_search options))
        ≡ true
      → handle_search_key_down to_lower_case create_workspace key options m ≡ m
  unfolding handle_search_key_down
  handle_search_key_down-found key options m h = elim (Bool-cases (str_eq key "Enter")) [
    | inr e ↦ rw e refl
    | inl e ↦ elim (Bool-cases (is_blank (trim m.workspace_search))) [
      | inl f ↦ rw (e, f) refl
      | inr f ↦ rw (e, f, h) refl
    ]
  ]
