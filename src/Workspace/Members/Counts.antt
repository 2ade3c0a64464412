-- ===== src/Workspace/Members/Counts.antt =====
-- web/src/modules/workspace/components: the rows that a filter leaves against the counts of the view.
use scylladb_grpc_microservi.Common.{
  ◌+◌, String, not, ◌||◌, List, [], ◌∷◌, map, length, str_eq, All, length-filter-not, ◌≡◌, refl, ap,
  arith, Bool-cases, inl, inr,
}
use scylladb_grpc_microservi.Workspace.Slug.{drop_left, drop_right}
use scylladb_grpc_microservi.Workspace.Members.{
  WorkspaceMember, WorkspaceMemberRow, Platform, to_row, matches, filtered_members, searchable_text,
}
use scylladb_grpc_microservi.Workspace.Members.View.{is_absent, has_joined_at, counts}
use scylladb_grpc_microservi.Workspace.Members.Laws.{IsDate, is_undated, to_row-status}

-- Every member is active or pending, and none is both.
pub counts-total :
    (members : List WorkspaceMember)
    → let c = counts members in c.active_members + c.pending_invites ≡ c.total_members
counts-total members = length-filter-not has_joined_at members

-- A join time that is there has its seconds.
abbrev pub HasSeconds : WorkspaceMember → Type 0
HasSeconds m = is_undated m.joined_at ≡ is_absent m.joined_at

module _ (p : Platform) where
  open p use {to_lower_case}

  matches_all :
      (r : WorkspaceMemberRow) (status : String)
      → to_lower_case "" ≡ ""
      → matches p "" "all" status r ≡ (str_eq status "all" || str_eq r.status status)
  unfolding matches searchable_text drop_left drop_right
  matches_all r status e = rw (matches, e) refl

  matches-status :
      IsDate p
      → to_lower_case "" ≡ ""
      → (m : WorkspaceMember) → HasSeconds m
      → (matches p "" "all" "Invited" (to_row p m) ≡ not (has_joined_at m))
        × (matches p "" "all" "Active" (to_row p m) ≡ has_joined_at m)
  matches-status d e m dated = elim (Bool-cases (is_absent m.joined_at)) [
    | inl b ↦
        rw
          (
            matches_all (to_row p m) "Invited" e,
            matches_all (to_row p m) "Active" e,
            to_row-status p d m,
            dated,
            b,
          )
          (refl, refl)
    | inr b ↦
        rw
          (
            matches_all (to_row p m) "Invited" e,
            matches_all (to_row p m) "Active" e,
            to_row-status p d m,
            dated,
            b,
          )
          (refl, refl)
  ]

  -- Without a search and a filter every member has its row, in the order of the members.
  pub filtered_members-all :
      to_lower_case "" ≡ ""
      → (members : List WorkspaceMember)
      → filtered_members p "" "all" "all" members ≡ map (to_row p) members
  unfolding filtered_members
  filtered_members-all e [] = refl
  filtered_members-all e (m ∷ ms) =
      rw (matches_all (to_row p m) "all" e) (ap (λ rs. to_row p m ∷ rs) (filtered_members-all e ms))

  -- The filter Invited leaves as many rows as the view counts pending invitations, and the filter
  -- Active as many as it counts active members, provided that no date reads "Pending invitation" and
  -- every join time that is there has its seconds.
  pub filtered_members-counts :
      IsDate p
      → to_lower_case "" ≡ ""
      → (members : List WorkspaceMember) → All HasSeconds members
      → (length (filtered_members p "" "all" "Invited" members) ≡ (counts members).pending_invites)
        × (length (filtered_members p "" "all" "Active" members) ≡ (counts members).active_members)
  unfolding filtered_members
  filtered_members-counts d e [] dated = (refl, refl)
  filtered_members-counts d e (m ∷ ms) dated =
      let (invited, active) = matches-status d e m dated.0 in
      let (rest_invited, rest_active) = filtered_members-counts d e ms dated.1 in
      rw (invited, active) (ground (arith, rest_invited), ground (arith, rest_active))
