-- ===== src/Poll.antt =====
-- web/src/components/editor/plugins/poll/poll-component.tsx: the handlers of a poll. A handler gives
-- the options that it passes to `updateProps`, or `none` where it returns early.
pub mod Texts
pub mod Calls
pub mod Laws
pub mod Ids
pub mod Votes
pub mod Invariant
pub mod Counting
mod Tests
use scylladb_grpc_microservi.Common.{
  ℕ, ◌+◌, String, Bool, true, false, ◌||◌, not, Option, none, some, List, [], ◌∷◌, ◌++◌, length,
  filter, any, str_eq, leb, map, if◌then◌else◌,
}

pub record PollOption : Type 0 where
  pub id : String
  pub text : String
  pub votes : List String

-- `votes.includes(user)`
abbrev pub includes : List String → String → Bool
includes votes user = any (λ v. str_eq v user) votes

abbrev pub total_votes : List PollOption → ℕ
total_votes [] = 0
total_votes (o ∷ options) = length o.votes + total_votes options

unfoldable pub toggle_vote : Bool → String → List String → List String
toggle_vote already_voted user votes =
    if already_voted then filter (λ v. not (str_eq v user)) votes else votes ++ user ∷ []

unfoldable pub vote_option : PollOption → String → PollOption → PollOption
unfolding toggle_vote
vote_option option user o =
    if not (str_eq o.id option.id)
    then o
    else record o { votes = toggle_vote (includes option.votes user) user o.votes }

unfoldable pub handle_vote : Bool → String → PollOption → List PollOption → Option (List PollOption)
handle_vote is_authenticated user option options =
    if not is_authenticated then none else some (map (vote_option option user) options)

unfoldable pub handle_option_text : PollOption → String → List PollOption → List PollOption
handle_option_text option text options =
    map (λ o. if str_eq o.id option.id then record o { text = text } else o) options

-- The new id is the random one that `crypto.randomUUID()` gives.
unfoldable pub handle_add_option : String → List PollOption → List PollOption
handle_add_option uuid options = options ++ record { id = uuid; text = ""; votes = [] } ∷ []

unfoldable pub handle_delete_option : PollOption → List PollOption → Option (List PollOption)
handle_delete_option option options =
    if leb (length options) 2
    then none
    else some (filter (λ o. not (str_eq o.id option.id)) options)
