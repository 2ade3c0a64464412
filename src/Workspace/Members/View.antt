-- ===== src/Workspace/Members/View.antt =====
-- web/src/modules/workspace/components/workspace-members-view.tsx: the counts, the invite link and
-- the handlers. `encode` is `URLSearchParams.toString`, a call of a service answers `none` when it
-- throws, and then the rest of the handler does not run.
use Prim.Native.String.{◌++◌}
use scylladb_grpc_microservi.Common.{
  ℕ, String, Bool, true, false, not, ◌||◌, Option, none, some, List, [], ◌∷◌, ◌++◌ as append,
  length, filter, is_blank, ◌==◌, str_eq, if◌then◌else◌,
}
use scylladb_grpc_microservi.Workspace.Members.{
  RoleValue, role_number, role_name, no_role, JoinedAt, absent, WorkspaceMember,
}

abbrev pub is_absent : JoinedAt → Bool
is_absent absent = true
is_absent _ = false

abbrev pub has_joined_at : WorkspaceMember → Bool
has_joined_at m = not (is_absent m.joined_at)

unfoldable pub can_manage_members : RoleValue → Bool
can_manage_members (role_name s) =
    str_eq s "WORKSPACE_ROLE_OWNER" || str_eq s "WORKSPACE_ROLE_ADMIN"
can_manage_members (role_number n) = n == 1 || n == 2
can_manage_members no_role = false

abbrev pub is_elevated : RoleValue → Bool
is_elevated (role_name s) = str_eq s "WORKSPACE_ROLE_OWNER" || str_eq s "WORKSPACE_ROLE_ADMIN"
is_elevated (role_number n) = n == 1 || n == 2
is_elevated no_role = false

abbrev pub is_elevated_role : WorkspaceMember → Bool
is_elevated_role m = is_elevated m.role

pub record MemberCounts : Type 0 where
  pub total_members : ℕ
  pub active_members : ℕ
  pub pending_invites : ℕ
  pub elevated_roles : ℕ

abbrev pub counts : List WorkspaceMember → MemberCounts
counts members = record {
  total_members = length members;
  active_members = length (filter has_joined_at members);
  pending_invites = length (filter (λ m. not (has_joined_at m)) members);
  elevated_roles = length (filter is_elevated_role members);
}

pub data CopyState : Type 0 where
  idle copied failed : CopyState

-- The state of the view and what it has done outside: the codes asked for, the members removed, the
-- texts on the clipboard, the pages gone to.
pub record MembersView : Type 0 where
  pub is_invite_dialog_open : Bool
  pub invite_code : String
  pub copy_state : CopyState
  pub invited : List String
  pub removed : List (String × String)
  pub clipboard : List String
  pub visited : List String

pub record ViewBackends : Type 0 where
  pub origin : String
  pub encode : List (String × String) → String
  pub invite_member : (workspace_id : String) → Option String
  pub remove_member : (workspace_id user_id : String) → Bool
  pub write_text : String → Bool

module _ (b : ViewBackends) where
  open b use {origin, encode, invite_member, remove_member, write_text}

  -- In a browser; the first argument is the id of the workspace, if there is one.
  unfoldable pub invite_link : Option String → String → String
  invite_link none code = ""
  invite_link (some workspace_id) code =
      if is_blank code
      then ""
      else origin
        ++ ("/workspace/invite?"
            ++ encode (("inviteCode", code) ∷ (("workspaceId", workspace_id) ∷ [])))

  unfoldable pub invited_with : String → Option String → MembersView → MembersView
  invited_with workspace_id none v = record v { invited = append v.invited (workspace_id ∷ []) }
  invited_with workspace_id (some code) v = record v {
    invite_code = code;
    invited = append v.invited (workspace_id ∷ []);
  }

  unfoldable pub generate_invite_code : Option String → MembersView → MembersView
  generate_invite_code none v = v
  generate_invite_code (some workspace_id) v =
      invited_with workspace_id (invite_member workspace_id) v

  unfoldable pub handle_open_invite_dialog : Option String → MembersView → MembersView
  handle_open_invite_dialog workspace v =
      let opened = record v { is_invite_dialog_open = true } in
      if is_blank v.invite_code then generate_invite_code workspace opened else opened

  -- `setIsInviteDialogOpen(false)` with the effect that runs after it.
  unfoldable pub close_invite_dialog : MembersView → MembersView
  close_invite_dialog v = record v { is_invite_dialog_open = false; copy_state = idle }

  unfoldable pub handle_copy_invite_link : Option String → MembersView → MembersView
  handle_copy_invite_link workspace v =
      let link = invite_link workspace v.invite_code in
      if is_blank link
      then v
      else if write_text link
      then record v { copy_state = copied; clipboard = append v.clipboard (link ∷ []) }
      else record v { copy_state = failed }

  unfoldable pub left : (workspace_id user_id : String) → Bool → MembersView → MembersView
  left workspace_id user_id ok v =
      let asked = record v { removed = append v.removed ((workspace_id, user_id) ∷ []) } in
      if ok then record asked { visited = append v.visited ("/workspace" ∷ []) } else asked

  unfoldable pub handle_leave_workspace :
      Option String → (user_id : Option String) → MembersView → MembersView
  handle_leave_workspace (some workspace_id) (some user_id) v =
      if is_blank user_id
      then v
      else left workspace_id user_id (remove_member workspace_id user_id) v
  handle_leave_workspace _ _ v = v
