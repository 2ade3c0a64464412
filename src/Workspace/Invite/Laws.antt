-- ===== src/Workspace/Invite/Laws.antt =====
-- The invite link that the members view makes, and what the invite page does with it.
use Prim.Native.String.{◌++◌ as text_append}
use scylladb_grpc_microservi.Common.{
  String, Bool, true, false, not, ◌&&◌, Option, some, List, [], ◌∷◌, ◌++◌, is_blank, if◌then◌else◌,
  ◌≡◌, refl, ap, ◌∙◌, inl, inr, Bool-cases, ◌≢◌, eq_iff, text_length, length-append_text, arith,
}
use scylladb_grpc_microservi.Workspace.Slug.{trim}
use scylladb_grpc_microservi.Workspace.Members.{or_empty}
use scylladb_grpc_microservi.Workspace.Members.View.{
  ViewBackends, MembersView, invite_link, handle_open_invite_dialog, handle_copy_invite_link,
  generate_invite_code, invited_with,
}
use scylladb_grpc_microservi.Workspace.Invite.{
  Answer, answered, answered_empty, failed, accept_workspace_invitation, invite_code, InvitePage,
  on_accepted, handle_accept, is_failure, reject_workspace_invitation, handle_reject,
}

-- Reject always leaves for the workspaces, with or without a code and whether or not the call fails.
pub handle_reject-visited :
    (reject : String → Answer) (code : String) (s : InvitePage)
    → (handle_reject reject code s).visited ≡ s.visited ++ ("/workspace" ∷ [])
unfolding handle_reject reject_workspace_invitation
handle_reject-visited reject code s = elim (Bool-cases (is_blank code)) [
  | inl e ↦ rw e refl
  | inr e ↦ elim (Bool-cases (is_failure (reject code))) [
    | inl f ↦ rw (e, f) refl
    | inr f ↦ rw (e, f) refl
  ]
]

abbrev pub has_workspace : Answer → Bool
has_workspace answered = true
has_workspace _ = false

abbrev went : Bool → InvitePage → List String
went goes s = if goes then s.visited ++ ("/workspace" ∷ []) else s.visited

on_accepted-visited :
    (to_lower_case : String → String) (a : Answer) (s : InvitePage)
    → let s' = on_accepted to_lower_case (accept_workspace_invitation a) s in
      (s'.visited ≡ went (has_workspace a) s) × (s'.accepted ≡ s.accepted)
unfolding on_accepted accept_workspace_invitation
on_accepted-visited to_lower_case answered s = (refl, refl)
on_accepted-visited to_lower_case answered_empty s = (refl, refl)
on_accepted-visited to_lower_case (failed e) s = (refl, refl)

module _ (to_lower_case : String → String) where
  -- Accept calls the service exactly if there is a code, and leaves for the workspaces exactly if
  -- the service then answers with a workspace.
  pub handle_accept-visited :
      (accept : String → Answer) (code : String) (s : InvitePage)
      → let s' = handle_accept to_lower_case accept code s in
        (s'.visited ≡ went (not (is_blank code) && has_workspace (accept code)) s)
        × (s'.accepted ≡ (if is_blank code then s.accepted else s.accepted ++ (code ∷ [])))
  unfolding handle_accept
  handle_accept-visited accept code s =
      let asked = record s { accepted = s.accepted ++ (code ∷ []) } in
      elim (Bool-cases (is_blank code)) [
        | inl e ↦ rw e (refl, refl)
        | inr e ↦ rw e (on_accepted-visited to_lower_case (accept code) asked)
      ]

-- `get` reads a parameter of the query that `encode` makes.
abbrev pub Decodes : (List (String × String) → String) → (String → String → Option String) → Type 0
Decodes encode get_param =
    (code id : String)
    → get_param "inviteCode" (encode (("inviteCode", code) ∷ (("workspaceId", id) ∷ [])))
      ≡ some code

-- The link of the members view carries its code to the invite page: if `get_param` reads what
-- `encode` writes, then the link is the address of the page with a query from which the page takes the
-- trimmed code.
pub invite_code-invite_link :
    (b : ViewBackends) (get_param : String → String → Option String)
    → Decodes b.encode get_param
    → (id code : String) → is_blank code ≡ false
    → (query : String) × ((invite_link b (some id) code
          ≡ text_append b.origin (text_append "/workspace/invite?" query))
        × (invite_code (get_param "inviteCode" query) ≡ trim code))
unfolding invite_link invite_code
invite_code-invite_link b get_param law id code full = (
  b.encode (("inviteCode", code) ∷ (("workspaceId", id) ∷ [])),
  (rw full refl, ap (λ o. trim (or_empty o)) (law code id)),
)

abbrev query_of : ViewBackends → (id code : String) → String
query_of b id code = b.encode (("inviteCode", code) ∷ (("workspaceId", id) ∷ []))

link_not_empty : (s t : String) → text_append s (text_append "/workspace/invite?" t) ≢ ""
link_not_empty s t e =
    let lengths : text_length (text_append s (text_append "/workspace/invite?" t)) ≡ 0 =
      ap text_length e in
    omega (
      arith,
      lengths,
      length-append_text s (text_append "/workspace/invite?" t),
      length-append_text "/workspace/invite?" t,
    )

blank_after_slash :
    (s t : String) → is_blank (text_append s (text_append "/workspace/invite?" t)) ≡ false
blank_after_slash s t =
    elim (Bool-cases (is_blank (text_append s (text_append "/workspace/invite?" t)))) [
      | inl e ↦ absurd (link_not_empty s t ((eq_iff _ "").0 e))
      | inr e ↦ e
    ]

invite_link-eq :
    (b : ViewBackends) (id code : String)
    → is_blank code ≡ false
    → invite_link b (some id) code
      ≡ text_append b.origin (text_append "/workspace/invite?" (query_of b id code))
unfolding invite_link
invite_link-eq b id code full = rw full refl

generated :
    (b : ViewBackends) (id code : String) (v : MembersView)
    → is_blank v.invite_code ≡ true
    → b.invite_member id ≡ some code
    → let v' = handle_open_invite_dialog b (some id) v in
      (v'.invite_code ≡ code) × (v'.clipboard ≡ v.clipboard)
unfolding handle_open_invite_dialog generate_invite_code invited_with
generated b id code v none_yet answer = rw (none_yet, answer) (refl, refl)

copied_link :
    (b : ViewBackends) (id : String) (v : MembersView)
    → ((s : String) → b.write_text s ≡ true)
    → is_blank (invite_link b (some id) v.invite_code) ≡ false
    → (handle_copy_invite_link b (some id) v).clipboard
      ≡ v.clipboard ++ (invite_link b (some id) v.invite_code ∷ [])
unfolding handle_copy_invite_link
copied_link b id v writes full = rw (full, writes (invite_link b (some id) v.invite_code)) refl

read_code :
    (b : ViewBackends) (get_param : String → String → Option String)
    → Decodes b.encode get_param
    → (id code : String) → invite_code (get_param "inviteCode" (query_of b id code)) ≡ trim code
unfolding invite_code
read_code b get_param law id code = ap (λ o. trim (or_empty o)) (law code id)

-- An invitation reaches its workspace: if the members view has no code yet and the service gives it
-- one, trimmed and not empty, then opening the dialog and copying, on a clipboard that works, copies
-- the address of the invite page with a query, and accepting on that page asks the service for this
-- code, once.
pub copied_link-accepted :
    (b : ViewBackends) (get_param : String → String → Option String)
    → Decodes b.encode get_param
    → ((s : String) → b.write_text s ≡ true)
    → (id code : String) (v : MembersView) → is_blank v.invite_code ≡ true
    → b.invite_member id ≡ some code
    → is_blank code ≡ false
    → trim code ≡ code
    → (to_lower_case : String → String) (accept : String → Answer) (page : InvitePage)
    → let v' = handle_copy_invite_link b (some id) (handle_open_invite_dialog b (some id) v) in
      (query : String) × ((v'.clipboard
          ≡ v.clipboard ++ (text_append b.origin (text_append "/workspace/invite?" query) ∷ []))
        × ((handle_accept to_lower_case accept
              (invite_code (get_param "inviteCode" query))
              page).accepted
            ≡ page.accepted ++ (code ∷ [])))
copied_link-accepted b get_param law writes id code v none_yet answer full trimmed to_lower_case
      accept page =
    let v' = handle_open_invite_dialog b (some id) v in
    let (same_code, same_clipboard) = generated b id code v none_yet answer in
    let query = query_of b id code in
    let address = text_append b.origin (text_append "/workspace/invite?" query) in
    let link : invite_link b (some id) v'.invite_code ≡ address =
      ap (invite_link b (some id)) same_code ∙ invite_link-eq b id code full in
    let there : is_blank (invite_link b (some id) v'.invite_code) ≡ false =
      ap is_blank link ∙ blank_after_slash b.origin query in
    (
      query,
      (
        copied_link b id v' writes there
            ∙ ap (λ c. c ++ (invite_link b (some id) v'.invite_code ∷ [])) same_clipboard
            ∙ ap (λ l. v.clipboard ++ (l ∷ [])) link,
        ap (λ c. (handle_accept to_lower_case accept c page).accepted)
              (read_code b get_param law id code ∙ trimmed)
            ∙ (handle_accept-visited to_lower_case accept code page).1
            ∙ ap (λ e. if e then page.accepted else page.accepted ++ (code ∷ [])) full,
      ),
    )

open_invite_dialog-present :
    (b : ViewBackends) (id : String) (v : MembersView)
    → is_blank v.invite_code ≡ false
    → handle_open_invite_dialog b (some id) v ≡ record v { is_invite_dialog_open = true }
unfolding handle_open_invite_dialog
open_invite_dialog-present b id v h = rw h refl

-- Once opening the dialog has given the view a code, opening it again asks the service for nothing
-- and keeps the code.
pub handle_open_invite_dialog_twice :
    (b : ViewBackends) (id : String) (v : MembersView)
    → let v' = handle_open_invite_dialog b (some id) v in
      is_blank v'.invite_code ≡ false
      → let v'' = handle_open_invite_dialog b (some id) v' in
        (v''.invited ≡ v'.invited) × (v''.invite_code ≡ v'.invite_code)
handle_open_invite_dialog_twice b id v h =
    let e = open_invite_dialog-present b id (handle_open_invite_dialog b (some id) v) h in
    (ap MembersView.invited e, ap MembersView.invite_code e)
