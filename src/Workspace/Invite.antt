-- ===== src/Workspace/Invite.antt =====
-- web/src/app/(dashboard)/workspace/invite/page.tsx with the mutations of use-workspaces.ts that it
-- calls. The workspace service is a parameter; `to_lower_case` reads the tables of Unicode.
pub mod Laws
use scylladb_grpc_microservi.Common.{
  String, Bool, true, false, ◌||◌, Option, none, some, List, [], ◌∷◌, ◌++◌, is_blank, includes,
  if◌then◌else◌,
}
use scylladb_grpc_microservi.Workspace.Slug.{trim}
use scylladb_grpc_microservi.Workspace.Members.{or_empty}

-- What a call throws: an `Error` with its message, or another value.
pub data Thrown : Type 0 where
  error_message : String → Thrown
  other_thrown : Thrown

-- How a call ends; an answer to `acceptInvitation` may lack its workspace.
pub data Answer : Type 0 where
  answered : Answer
  answered_empty : Answer
  failed : Thrown → Answer

unfoldable pub message_of : String → String
message_of message =
    if includes "already used" message
    then "This invite link was already used. Ask for a fresh invite link."
    else if includes "expired" message
    then "This invite link has expired. Ask for a fresh invite link."
    else if includes "not found" message || includes "invalid" message
    then "This invite link is invalid. Ask for a valid invite link."
    else "Could not process this invite link. Please try again."

unfoldable pub get_invite_failure_message : (String → String) → Thrown → String
get_invite_failure_message to_lower_case (error_message m) = message_of (to_lower_case m)
get_invite_failure_message to_lower_case other_thrown =
    "Could not process this invite link. Please try again."

-- The mutation of `useAcceptWorkspaceInvitation`: `none` is its success.
unfoldable pub accept_workspace_invitation : Answer → Option Thrown
accept_workspace_invitation answered = none
accept_workspace_invitation answered_empty =
    some (error_message "invite response missing workspace")
accept_workspace_invitation (failed e) = some e

-- `searchParams.get("inviteCode")?.trim() ?? ""`
unfoldable pub invite_code : Option String → String
invite_code param = trim (or_empty param)

-- The page with the calls it has made, the keys it has invalidated and the pages it has gone to.
pub record InvitePage : Type 0 where
  pub status_message : Option String
  pub accepted : List String
  pub rejected : List String
  pub invalidated : List String
  pub visited : List String

module _ (to_lower_case : String → String) where
  unfoldable pub on_accepted : Option Thrown → InvitePage → InvitePage
  on_accepted none s = record s {
    status_message = some "Invite accepted. Redirecting to workspace...";
    invalidated = s.invalidated ++ ("myWorkspaces" ∷ []);
    visited = s.visited ++ ("/workspace" ∷ []);
  }
  on_accepted (some e) s = record s {
    status_message = some (get_invite_failure_message to_lower_case e);
  }

  unfoldable pub handle_accept : (String → Answer) → String → InvitePage → InvitePage
  handle_accept accept_invitation code s =
      if is_blank code
      then record s { status_message = some "Invite code is missing from this link." }
      else on_accepted (accept_workspace_invitation (accept_invitation code))
          (record s { accepted = s.accepted ++ (code ∷ []) })

abbrev pub is_failure : Answer → Bool
is_failure (failed e) = true
is_failure _ = false

-- The mutation of `useRejectWorkspaceInvitation`.
unfoldable pub reject_workspace_invitation : (String → Answer) → String → InvitePage → InvitePage
reject_workspace_invitation reject_invitation code s =
    let asked = record s { rejected = s.rejected ++ (code ∷ []) } in
    if is_failure (reject_invitation code)
    then asked
    else record asked { invalidated = s.invalidated ++ ("myWorkspaces" ∷ []) }

abbrev pub leave_page : InvitePage → InvitePage
leave_page s = record s { visited = s.visited ++ ("/workspace" ∷ []) }

unfoldable pub handle_reject : (String → Answer) → String → InvitePage → InvitePage
handle_reject reject_invitation code s =
    if is_blank code
    then leave_page s
    else leave_page (reject_workspace_invitation reject_invitation code s)
