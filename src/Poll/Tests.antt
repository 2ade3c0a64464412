-- ===== src/Poll/Tests.antt =====
-- web/src/components/editor/plugins/poll/poll-component.tsx on a concrete poll, and the theorems
-- applied to it.
use scylladb_grpc_microservi.Common.{
  ◌+◌, true, false, some, List, [], ◌∷◌, ◌≡◌, refl, inl, inr, arith,
}
use scylladb_grpc_microservi.Poll.{
  PollOption, includes, total_votes, vote_option, toggle_vote, handle_vote, handle_option_text,
  handle_add_option, handle_delete_option,
}
use scylladb_grpc_microservi.Poll.Texts.{PollProps}
use scylladb_grpc_microservi.Poll.Calls.{
  default_poll, update_options, handle_question, handle_key_down, PollCall, vote, option_text,
  add_option, delete_option, question, call, calls,
}
use scylladb_grpc_microservi.Poll.Invariant.{IsValid, calls-IsValid, new_poll-IsValid}
use scylladb_grpc_microservi.Poll.Counting.{handle_vote-total}

abbrev tea : PollOption
tea = record { id = "o1"; text = "Tea"; votes = "ada" ∷ [] }

abbrev coffee : PollOption
coffee = record { id = "o2"; text = "Coffee"; votes = [] }

bob_votes :
    handle_vote true "bob" tea (tea ∷ coffee ∷ [])
    ≡ some (record tea { votes = "ada" ∷ "bob" ∷ [] } ∷ coffee ∷ [])
unfolding handle_vote vote_option toggle_vote
bob_votes = refl

-- A new poll gets a third option, a vote, a text and a question, and loses an option.
abbrev first_option : PollOption
first_option = record { id = "default-opt-1"; text = ""; votes = [] }

abbrev second_option : PollOption
second_option = record { id = "default-opt-2"; text = ""; votes = [] }

abbrev some_calls : List PollCall
some_calls =
    add_option "o3"
    ∷ vote true "bob" first_option
    ∷ option_text second_option "Tea"
    ∷ question "What to drink?"
    ∷ delete_option (record second_option { text = "Tea" })
    ∷ []

program : Unit {0}
unfolding handle_vote vote_option toggle_vote handle_option_text handle_add_option
    handle_delete_option update_options handle_question handle_key_down call calls
program = tt

some_calls_end :
    (calls some_calls default_poll).options
    ≡ record first_option { votes = "bob" ∷ [] } ∷ record { id = "o3"; text = ""; votes = [] } ∷ []
unfolding program
some_calls_end = refl

calls-IsValid_example : IsValid (calls some_calls default_poll)
unfolding program
calls-IsValid_example =
    calls-IsValid some_calls default_poll (new_poll-IsValid "default-opt-1" "default-opt-2" refl)
      (refl, (inl refl, (inr (inl refl), (tt, (inr (inl refl), tt)))))

abbrev drinks : PollProps
drinks = record { question = "What to drink?"; options = tea ∷ coffee ∷ [] }

drinks-IsValid : IsValid drinks
drinks-IsValid = record {
  two_options = omega arith;
  own_ids = (refl, (refl, tt));
  single_votes = ((refl, tt), (tt, tt));
}

handle_vote-total_example :
    (voted : List PollOption) × (handle_vote true "bob" tea drinks.options ≡ some voted)
    × (includes tea.votes "bob" ≡ false → total_votes voted ≡ total_votes drinks.options + 1)
    × (includes tea.votes "bob" ≡ true → total_votes voted + 1 ≡ total_votes drinks.options)
handle_vote-total_example = handle_vote-total "bob" tea drinks drinks-IsValid (inl refl)
