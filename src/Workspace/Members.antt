-- ===== src/Workspace/Members.antt =====
-- web/src/modules/workspace/components/workspace-members-table.tsx: the row of a member, and the rows
-- that a filter leaves. A text is taken as its code units. Unicode, dates and the numbers that
-- `Number` reads are parameters; a time lies after 1970.
pub mod View
pub mod Laws
pub mod Counts
use Prim.Native.String.{◌++◌}
use scylladb_grpc_microservi.Common.{
  ℕ, ◌+◌, ◌-◌, ◌*◌, ◌/◌, String, Bool, true, false, not, ◌&&◌, ◌||◌, Option, none, some, List, [],
  ◌∷◌, map, length, filter, has, is_blank, leb, ◌==◌, str_eq, if◌then◌else◌, text_length, text_take,
  text_drop, includes, join,
}
use scylladb_grpc_microservi.Workspace.Slug.{trim}

-- What a `role` can be: a number of the enumeration, its name, or nothing.
pub data RoleValue : Type 0 where
  role_number : ℕ → RoleValue
  role_name : String → RoleValue
  no_role : RoleValue

-- The numbers of `WorkspaceRole`.
pub data WorkspaceRole : Type 0 where
  owner admin editor member guest : WorkspaceRole

-- A number or the text of one.
pub data Numeral : Type 0 where
  numeral : ℕ → Numeral
  numeral_text : String → Numeral

-- What `joinedAt` can be.
pub data JoinedAt : Type 0 where
  absent : JoinedAt
  date_text : String → JoinedAt
  stamp : (seconds nanos : Option Numeral) → JoinedAt
  other_value : JoinedAt

pub record WorkspaceMember : Type 0 where
  pub user_id : String
  pub user_name : String
  pub user_email : String
  pub role : RoleValue
  pub invited_by : String
  pub invited_by_name : Option String
  pub invited_by_email : Option String
  pub joined_at : JoinedAt

pub record WorkspaceMemberRow : Type 0 where
  pub name : String
  pub email : String
  pub user_id : String
  pub role : String
  pub invited_by : String
  pub invited_by_label : String
  pub joined_at : String
  pub status : String

abbrev pub or_text : String → String → String
or_text s d = if is_blank s then d else s

-- `compactIdentity` of a trimmed text.
unfoldable pub shortened : String → String
shortened s =
    let n = text_length s in
    if is_blank s
    then "-"
    else if leb n 18
    then s
    else text_take 8 s ++ ("..." ++ text_drop (n - 6) s)

unfoldable pub compact_identity : String → String
unfolding shortened
compact_identity value = shortened (trim value)

unfoldable pub role_of_name : String → Option WorkspaceRole
role_of_name s =
    if str_eq s "WORKSPACE_ROLE_OWNER"
    then some owner
    else if str_eq s "WORKSPACE_ROLE_ADMIN"
    then some admin
    else if str_eq s "WORKSPACE_ROLE_EDITOR"
    then some editor
    else if str_eq s "WORKSPACE_ROLE_MEMBER"
    then some member
    else if str_eq s "WORKSPACE_ROLE_GUEST"
    then some guest
    else none

unfoldable pub role_of_number : ℕ → Option WorkspaceRole
role_of_number n =
    if n == 1
    then some owner
    else if n == 2
    then some admin
    else if n == 3
    then some editor
    else if n == 4
    then some member
    else if n == 5
    then some guest
    else none

abbrev pub label_of : Option WorkspaceRole → String
label_of (some owner) = "Owner"
label_of (some admin) = "Admin"
label_of (some editor) = "Editor"
label_of (some member) = "Member"
label_of (some guest) = "Guest"
label_of none = "Unknown"

unfoldable pub to_role_label : RoleValue → String
to_role_label (role_number n) = label_of (role_of_number n)
to_role_label (role_name s) = label_of (role_of_name (trim s))
to_role_label no_role = "Unknown"

-- `Array.from(new Set(texts.filter(Boolean)))`; the first argument holds what has been kept.
unfoldable pub distinct : List String → List String → List String
distinct seen [] = []
distinct seen (t ∷ ts) =
    if is_blank t || has t seen then distinct seen ts else t ∷ distinct (t ∷ seen) ts

abbrev pub or_zero : Option ℕ → ℕ
or_zero none = 0
or_zero (some n) = n

abbrev pub or_empty : Option String → String
or_empty none = ""
or_empty (some s) = s

-- `name.split(" ").filter(Boolean)`; the first argument tells whether a word has begun. Of each word
-- the first character remains.
unfoldable pub first_letters : Bool → String → List String
first_letters within String.[] = []
first_letters within (String.◌∷◌ c s) =
    let after = first_letters false s in
    let inside = first_letters true s in
    if str_eq (String.◌∷◌ c "") " "
    then after
    else if within
    then inside
    else String.◌∷◌ c "" ∷ inside

abbrev pub take_two : List String → List String
take_two [] = []
take_two (x ∷ []) = x ∷ []
take_two (x ∷ (y ∷ xs)) = x ∷ (y ∷ [])

-- `getInitials`; `to_upper_case` is a parameter.
unfoldable pub get_initials : (String → String) → String → String
get_initials to_upper_case name = to_upper_case (join "" (take_two (first_letters false name)))

abbrev pub deriveds : WorkspaceMember → String × String
deriveds m = (
  or_text (trim m.user_name) (compact_identity m.user_id),
  or_text (trim m.user_email) "Not available",
)

pub record Platform : Type 0 where
  pub to_lower_case : String → String
  pub parse_date : String → Option ℕ
  pub to_number : String → Option ℕ
  pub format_date : ℕ → String

module _ (p : Platform) where
  open p use {to_lower_case, parse_date, to_number, format_date}

  abbrev pub as_number : Numeral → Option ℕ
  as_number (numeral n) = some n
  as_number (numeral_text s) = to_number s

  abbrev pub nanos_number : Option Numeral → Option ℕ
  nanos_number none = some 0
  nanos_number (some n) = as_number n

  -- `none` stands for NaN.
  unfoldable pub millis : Option ℕ → Option ℕ → Option ℕ
  millis (some seconds) (some nanos) = some (seconds * 1000 + nanos / 1000000)
  millis _ _ = none

  abbrev pub shown_date : Option ℕ → String
  shown_date none = "Unknown"
  shown_date (some t) = format_date t

  unfoldable pub format_joined_at : JoinedAt → String
  format_joined_at absent = "Pending invitation"
  format_joined_at (date_text s) = shown_date (parse_date s)
  format_joined_at (stamp none nanos) = "Pending invitation"
  format_joined_at (stamp (some seconds) nanos) =
      shown_date (millis (as_number seconds) (nanos_number nanos))
  format_joined_at other_value = "Unknown"

  abbrev pub status_of : String → String
  status_of joined_at = if str_eq joined_at "Pending invitation" then "Invited" else "Active"

  unfoldable pub to_row : WorkspaceMember → WorkspaceMemberRow
  to_row m =
      let inviter = trim m.invited_by in
      let inviter_name = trim (or_empty m.invited_by_name) in
      let inviter_email = trim (or_empty m.invited_by_email) in
      let joined = format_joined_at m.joined_at in
      record {
        name = (deriveds m).0;
        email = (deriveds m).1;
        user_id = m.user_id;
        role = to_role_label m.role;
        invited_by =
            if is_blank inviter
            then "-"
            else join " • " (distinct [] (inviter_name ∷ (inviter_email ∷ (inviter ∷ []))));
        invited_by_label =
            or_text inviter_name (if is_blank inviter then "-" else compact_identity inviter);
        joined_at = joined;
        status = status_of joined;
      }

  unfoldable pub searchable_text : WorkspaceMemberRow → String
  searchable_text r = to_lower_case (
      join " " (
        r.name
        ∷ (r.email
            ∷ (r.user_id
                ∷ (r.role
                    ∷ (r.invited_by ∷ (r.invited_by_label ∷ (r.joined_at ∷ (r.status ∷ [])))))))))

  unfoldable pub matches : (search role_filter status_filter : String) → WorkspaceMemberRow → Bool
  matches search role_filter status_filter r =
      let normalized = to_lower_case (trim search) in
      (is_blank normalized || includes normalized (searchable_text r))
      && (str_eq role_filter "all" || str_eq r.role role_filter)
      && (str_eq status_filter "all" || str_eq r.status status_filter)

  unfoldable pub filtered_members :
      (search role_filter status_filter : String) → List WorkspaceMember → List WorkspaceMemberRow
  filtered_members search role_filter status_filter members =
      filter (matches search role_filter status_filter) (map to_row members)
