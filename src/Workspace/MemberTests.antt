-- ===== src/Workspace/MemberTests.antt =====
-- The members table, the queries, the invite page and the menu on concrete data, and the theorems
-- applied to them.
use Prim.Native.String.{◌++◌ as text_append}
use scylladb_grpc_microservi.Common.{
  String, true, false, Option, none, some, List, [], ◌∷◌, length, All, str_eq, if◌then◌else◌, ◌≡◌,
  refl,
}
use scylladb_grpc_microservi.Workspace.Slug.{drop_left, drop_right, is_space}
use scylladb_grpc_microservi.Workspace.Members.{
  role_number, role_name, absent, stamp, numeral, WorkspaceMember, Platform, filtered_members,
  compact_identity, shortened,
}
use scylladb_grpc_microservi.Workspace.Members.View.{
  ViewBackends, MembersView, idle, handle_copy_invite_link, handle_open_invite_dialog,
}
use scylladb_grpc_microservi.Workspace.Members.Laws.{IsDate}
use scylladb_grpc_microservi.Workspace.Members.Counts.{filtered_members-counts}
use scylladb_grpc_microservi.Workspace.Queries.{
  Board, BoardMatch, BoardQuery, no_time, matched_board, find_title,
}
use scylladb_grpc_microservi.Workspace.Invite.{answered, InvitePage, handle_accept, invite_code}
use scylladb_grpc_microservi.Workspace.Invite.Laws.{Decodes, copied_link-accepted}
use scylladb_grpc_microservi.Workspace.Navigation.{NewWorkspace, Menu, handle_search_key_down}
use scylladb_grpc_microservi.Workspace.Navigation.Laws.{
  IsCreatable, handle_search_key_down-IsCreatable,
}

abbrev ada : WorkspaceMember
ada = record {
  user_id = "01234567-89ab-cdef";
  user_name = " Ada ";
  user_email = "";
  role = role_number 1;
  invited_by = "";
  invited_by_name = none;
  invited_by_email = none;
  joined_at = stamp (some (numeral 1700000000)) none;
}

abbrev bob : WorkspaceMember
bob = record {
  user_id = "u2";
  user_name = "";
  user_email = "bob@example.org";
  role = role_name "WORKSPACE_ROLE_MEMBER";
  invited_by = "u1";
  invited_by_name = some "Ada";
  invited_by_email = none;
  joined_at = absent;
}

abbrev platform : Platform
platform = record {
  to_lower_case = λ s. s;
  parse_date = λ s. none;
  to_number = λ s. none;
  format_date = λ t. "Nov 14, 2023";
}

dates : IsDate platform
dates t = refl

short_id : compact_identity "  0123456789abcdef0123  " ≡ "01234567...ef0123"
unfolding compact_identity shortened drop_left drop_right is_space
short_id = refl

filtered_members-counts_example :
    (length (filtered_members platform "" "all" "Invited" (ada ∷ (bob ∷ []))) ≡ 1)
    × (length (filtered_members platform "" "all" "Active" (ada ∷ (bob ∷ []))) ≡ 1)
filtered_members-counts_example =
    filtered_members-counts platform dates refl (ada ∷ (bob ∷ [])) (refl, (refl, tt))

abbrev board : String → Board
board title = record {
  id = "b1";
  title = title;
  created_by = "u1";
  is_private = false;
  updated_at = no_time;
}

abbrev answered_with : List Board → BoardQuery
answered_with bs = record { data_boards = some bs; is_loading = false; is_error = false }

abbrev queries : List (String × BoardQuery)
queries =
    ("w1", answered_with (board "red-fox" ∷ []))
    ∷ (("w2", answered_with (board "blue-owl" ∷ [])) ∷ [])

abbrev owl : BoardMatch
owl = record { board = board "blue-owl"; workspace_id = "w2" }

owl_found : matched_board "blue-owl" queries ≡ some owl
unfolding matched_board find_title
owl_found = refl

-- An encoding of the two parameters that can be read back: the code, a bar, the id.
abbrev first_value : List (String × String) → String
first_value [] = ""
first_value ((k, v) ∷ ps) = v

abbrev view_backends : ViewBackends
view_backends = record {
  origin = "https://example.org";
  encode = first_value;
  invite_member = λ id. some "c0de";
  remove_member = λ w u. true;
  write_text = λ s. true;
}

abbrev get_param : String → String → Option String
get_param name query = if str_eq name "inviteCode" then some query else none

decodes : Decodes view_backends.encode get_param
decodes code id = refl

abbrev view : MembersView
view = record {
  is_invite_dialog_open = false;
  invite_code = "";
  copy_state = idle;
  invited = [];
  removed = [];
  clipboard = [];
  visited = [];
}

abbrev page : InvitePage
page = record {
  status_message = none;
  accepted = [];
  rejected = [];
  invalidated = [];
  visited = [];
}

copied_link-accepted_example :
    let v' =
      handle_copy_invite_link view_backends
        (some "w1")
        (handle_open_invite_dialog view_backends (some "w1") view) in
    (query : String) × ((v'.clipboard
        ≡ text_append "https://example.org" (text_append "/workspace/invite?" query) ∷ [])
      × ((handle_accept
            (λ s. s)
            (λ c. answered)
            (invite_code (get_param "inviteCode" query))
            page).accepted
          ≡ "c0de" ∷ []))
unfolding drop_left drop_right is_space
copied_link-accepted_example =
    copied_link-accepted view_backends get_param decodes (λ s. refl) "w1" "c0de" view refl refl refl
      refl (λ s. s) (λ c. answered) page

abbrev menu : Menu
menu = record {
  workspace_search = "My Team";
  workspace_menu_open = true;
  created = [];
  visited = [];
}

abbrev create : NewWorkspace → Option String
create n = some "w3"

handle_search_key_down-IsCreatable_example :
    All
      (IsCreatable (λ s. s) create)
      (handle_search_key_down (λ s. s) create "Enter" [] menu).created
handle_search_key_down-IsCreatable_example =
    handle_search_key_down-IsCreatable (λ s. s) create "Enter" [] menu tt
