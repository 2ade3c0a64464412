-- ===== src/Workspace/Members/Laws.antt =====
-- web/src/modules/workspace/components: the names, roles and dates that a row shows.
use Prim.Native.String.{◌++◌}
use scylladb_grpc_microservi.Common.{
  ℕ, ◌-◌, ◌≤◌, String, Bool, true, false, ◌||◌, Option, none, some, is_blank, leb, ◌==◌, str_eq,
  if◌then◌else◌, text_length, text_take, text_drop, length-append_text, length-take_text-le,
  length-drop_text, ◌≡◌, refl, ap, ◌∙◌, arith, inl, inr, Bool-cases,
}
use scylladb_grpc_microservi.Workspace.Slug.{trim}
use scylladb_grpc_microservi.Workspace.Members.{
  RoleValue, role_number, role_name, no_role, WorkspaceRole, owner, admin, editor, member, guest,
  JoinedAt, absent, date_text, stamp, other_value, WorkspaceMember, shortened, compact_identity,
  role_of_name, role_of_number, label_of, to_role_label, Platform, millis, shown_date, as_number,
  nanos_number, format_joined_at, to_row,
}
use scylladb_grpc_microservi.Workspace.Members.View.{is_elevated}

length-long_text :
    (s : String)
    → leb (text_length s) 18 ≡ false
    → text_length (text_take 8 s ++ ("..." ++ text_drop (text_length s - 6) s)) ≤ 17
length-long_text s long = ground (
  arith,
  length-append_text (text_take 8 s) ("..." ++ text_drop (text_length s - 6) s),
  length-append_text "..." (text_drop (text_length s - 6) s),
  length-take_text-le 8 s,
  length-drop_text (text_length s - 6) s,
)

length-shortened-le : (s : String) → text_length (shortened s) ≤ 18
unfolding shortened
length-shortened-le s = elim (Bool-cases (is_blank s)) [
  | inl e ↦ rw e (omega arith)
  | inr e ↦ elim (Bool-cases (leb (text_length s) 18)) [
    | inl f ↦ rw (e, f) (ground (arith, f))
    | inr f ↦ rw (e, f) (ground (arith, length-long_text s f))
  ]
]

-- The short form of an id has at most 18 characters, however long the id is.
pub length-compact_identity-le : (value : String) → text_length (compact_identity value) ≤ 18
unfolding compact_identity
length-compact_identity-le value = length-shortened-le (trim value)

-- A name of a role without white space around it.
abbrev pub IsTrimmed : RoleValue → Type 0
IsTrimmed (role_name s) = trim s ≡ s
IsTrimmed _ = Unit

abbrev pub is_elevated_label : String → Bool
is_elevated_label label = str_eq label "Owner" || str_eq label "Admin"

abbrev elevated_role : Option WorkspaceRole → Bool
elevated_role (some owner) = true
elevated_role (some admin) = true
elevated_role _ = false

is_elevated_label-label_of :
    (r : Option WorkspaceRole) → is_elevated_label (label_of r) ≡ elevated_role r
is_elevated_label-label_of none = refl
is_elevated_label-label_of (some owner) = refl
is_elevated_label-label_of (some admin) = refl
is_elevated_label-label_of (some editor) = refl
is_elevated_label-label_of (some member) = refl
is_elevated_label-label_of (some guest) = refl

elevated_number : (n : ℕ) → elevated_role (role_of_number n) ≡ (n == 1 || n == 2)
unfolding role_of_number
elevated_number n = ground arith

elevated_name :
    (s : String)
    → elevated_role (role_of_name s)
      ≡ (str_eq s "WORKSPACE_ROLE_OWNER" || str_eq s "WORKSPACE_ROLE_ADMIN")
unfolding role_of_name
elevated_name s = ground arith

-- The counts and the table agree on who is elevated: a member counts as elevated exactly if the row
-- shows Owner or Admin, provided that a role given by name has no white space around it.
pub to_role_label-is_elevated :
    (r : RoleValue) → IsTrimmed r → is_elevated_label (to_role_label r) ≡ is_elevated r
unfolding to_role_label
to_role_label-is_elevated no_role h = refl
to_role_label-is_elevated (role_number n) h =
    is_elevated_label-label_of (role_of_number n) ∙ elevated_number n
to_role_label-is_elevated (role_name s) h =
    rw h (is_elevated_label-label_of (role_of_name s) ∙ elevated_name s)

-- There is no time in it: nothing, or a stamp without seconds.
abbrev pub is_undated : JoinedAt → Bool
is_undated absent = true
is_undated (stamp none nanos) = true
is_undated _ = false

module _ (p : Platform) where
  open p use {parse_date, to_number, format_date}

  -- No date reads "Pending invitation".
  abbrev pub IsDate : Type 0
  IsDate = (t : ℕ) → str_eq (format_date t) "Pending invitation" ≡ false

  shown_date-dated : IsDate → (o : Option ℕ) → str_eq (shown_date p o) "Pending invitation" ≡ false
  shown_date-dated d none = refl
  shown_date-dated d (some t) = d t

  format_joined_at-undated :
      IsDate → (j : JoinedAt) → str_eq (format_joined_at p j) "Pending invitation" ≡ is_undated j
  unfolding format_joined_at
  format_joined_at-undated d absent = refl
  format_joined_at-undated d (date_text s) = shown_date-dated d (parse_date s)
  format_joined_at-undated d (stamp none nanos) = refl
  format_joined_at-undated d (stamp (some seconds) nanos) =
      shown_date-dated d (millis p (as_number p seconds) (nanos_number p nanos))
  format_joined_at-undated d other_value = refl

  -- A row says Invited exactly if the member's join time is missing or has no seconds, and Active
  -- otherwise, provided that no date reads "Pending invitation".
  pub to_row-status :
      IsDate
      → (m : WorkspaceMember)
      → (to_row p m).status ≡ (if is_undated m.joined_at then "Invited" else "Active")
  unfolding to_row
  to_row-status d m =
      ap (λ b. if b then "Invited" else "Active") (format_joined_at-undated d m.joined_at)
