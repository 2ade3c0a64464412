-- ===== src/Poll/Invariant.antt =====
-- web/src/components/editor/plugins/poll/poll-component.tsx: what holds of a poll through all calls.
use scylladb_grpc_microservi.Common.{
  suc, ◌≤◌, String, Bool, true, false, not, ◌||◌, some, List, [], ◌∷◌, length, filter, str_eq, map,
  if◌then◌else◌, ◌≡◌, refl, ap, arith, All, Bool-cases, inl, inr, length-append,
}
use scylladb_grpc_microservi.Poll.{
  PollOption, vote_option, handle_vote, handle_option_text, handle_add_option, handle_delete_option,
}
use scylladb_grpc_microservi.Poll.Texts.{PollProps}
use scylladb_grpc_microservi.Poll.Calls.{
  new_poll, update_options, handle_question, handle_key_down, PollCall, vote, key_down, option_text,
  add_option, delete_option, question, call, has_id, Contains, IsPossible, calls, ArePossible,
}
use scylladb_grpc_microservi.Poll.Ids.{
  OwnIds, map-OwnIds, Contains-IsOnly, append-OwnIds, has_id-filter, count_id-contained,
}
use scylladb_grpc_microservi.Poll.Votes.{
  SingleVotes, vote_option-id, votes-SingleVotes, texts-SingleVotes, add-SingleVotes,
}
use scylladb_grpc_microservi.Poll.Laws.{handle_delete_option-length}

pub record IsValid (p : PollProps) : Type 0 where
  pub two_options : 2 ≤ length p.options
  pub own_ids : OwnIds p.options
  pub single_votes : All (λ o. SingleVotes o.votes) p.options

length-map :
    (f : PollOption → PollOption) (options : List PollOption)
    → length (map f options) ≡ length options
length-map f [] = refl
length-map f (o ∷ options) = ap suc (length-map f options)

handle_vote-IsValid :
    (is_authenticated : Bool) (user : String) (option : PollOption) (p : PollProps)
    → IsValid p
    → Contains option p.options
    → IsValid (update_options (handle_vote is_authenticated user option p.options) p)
unfolding update_options handle_vote
handle_vote-IsValid false user option p v there = v
handle_vote-IsValid true user option p v there = record {
  two_options = rw (length-map (vote_option option user) p.options) v.two_options;
  own_ids = map-OwnIds (vote_option option user) p.options (vote_option-id option user) v.own_ids;
  single_votes =
      votes-SingleVotes option user p.options (Contains-IsOnly option p.options v.own_ids there)
        v.single_votes;
}

text-id :
    (option : PollOption) (text : String) (o : PollOption)
    → (if str_eq o.id option.id then record o { text = text } else o).id ≡ o.id
text-id option text o = ground arith

handle_option_text-IsValid :
    (option : PollOption) (text : String) (p : PollProps)
    → IsValid p
    → IsValid (update_options (some (handle_option_text option text p.options)) p)
unfolding update_options handle_option_text
handle_option_text-IsValid option text p v = record {
  two_options =
      rw (length-map (λ o. if str_eq o.id option.id then record o { text = text } else o) p.options)
        v.two_options;
  own_ids =
      map-OwnIds (λ o. if str_eq o.id option.id then record o { text = text } else o) p.options
        (text-id option text) v.own_ids;
  single_votes = texts-SingleVotes option text p.options v.single_votes;
}

handle_add_option-IsValid :
    (uuid : String) (p : PollProps)
    → IsValid p
    → has_id uuid p.options ≡ false
    → IsValid (update_options (some (handle_add_option uuid p.options)) p)
unfolding update_options handle_add_option
handle_add_option-IsValid uuid p v fresh =
    let new : PollOption = record { id = uuid; text = ""; votes = [] } in
    let grown = length-append p.options (new ∷ []) in
    let enough = v.two_options in
    record {
      two_options = omega (arith, grown, enough);
      own_ids = append-OwnIds new p.options fresh v.own_ids;
      single_votes = add-SingleVotes new p.options tt v.single_votes;
    }

filter-OwnIds :
    (id : String) (options : List PollOption)
    → OwnIds options
    → OwnIds (filter (λ o. not (str_eq o.id id)) options)
filter-OwnIds id [] h = tt
filter-OwnIds id (o ∷ options) (own, h) = elim (Bool-cases (str_eq o.id id)) [
  | inl e ↦ rw e (filter-OwnIds id options h)
  | inr e ↦ rw e (has_id-filter o.id id options own, filter-OwnIds id options h)
]

filter-votes :
    (id : String) (options : List PollOption)
    → All (λ o. SingleVotes o.votes) options
    → All (λ o. SingleVotes o.votes) (filter (λ o. not (str_eq o.id id)) options)
filter-votes id [] h = tt
filter-votes id (o ∷ options) (first, h) = elim (Bool-cases (str_eq o.id id)) [
  | inl e ↦ rw e (filter-votes id options h)
  | inr e ↦ rw e (first, filter-votes id options h)
]

deleted :
    (option : PollOption) (options rest : List PollOption)
    → handle_delete_option option options ≡ some rest
    → rest ≡ filter (λ o. not (str_eq o.id option.id)) options
unfolding handle_delete_option
deleted option options rest h = ground arith

handle_delete_option-IsValid :
    (option : PollOption) (p : PollProps)
    → IsValid p
    → Contains option p.options
    → IsValid (update_options (handle_delete_option option p.options) p)
unfolding update_options
handle_delete_option-IsValid option p v there =
    elim (handle_delete_option-length option p.options
      (count_id-contained option p.options v.own_ids there)) [
        | inl (kept, few) ↦ rw kept v
        | inr (rest, e, shorter, enough) ↦
            let same = deleted option p.options rest e in
            rw e (record {
              two_options = enough;
              own_ids = rw same (filter-OwnIds option.id p.options v.own_ids);
              single_votes = rw same (filter-votes option.id p.options v.single_votes);
            })
      ]

handle_key_down-IsValid :
    (on_itself : Bool) (key : String) (is_authenticated : Bool) (user : String)
    (option : PollOption) (p : PollProps)
    → IsValid p
    → Contains option p.options
    → IsValid
        (update_options (handle_key_down on_itself key is_authenticated user option p.options) p)
unfolding handle_key_down update_options
handle_key_down-IsValid false key is_authenticated user option p v there = v
handle_key_down-IsValid true key is_authenticated user option p v there =
    elim (Bool-cases (str_eq key "Enter" || str_eq key " ")) [
      | inl e ↦ rw e (handle_vote-IsValid is_authenticated user option p v there)
      | inr e ↦ rw e v
    ]

call-IsValid : (c : PollCall) (p : PollProps) → IsValid p → IsPossible c p → IsValid (call c p)
unfolding call handle_question
call-IsValid (vote a user option) p v there = handle_vote-IsValid a user option p v there
call-IsValid (key_down on key a user option) p v there =
    handle_key_down-IsValid on key a user option p v there
call-IsValid (option_text option text) p v there = handle_option_text-IsValid option text p v
call-IsValid (add_option uuid) p v fresh = handle_add_option-IsValid uuid p v fresh
call-IsValid (delete_option option) p v there = handle_delete_option-IsValid option p v there
call-IsValid (question value) p v there = record {
  two_options = v.two_options;
  own_ids = v.own_ids;
  single_votes = v.single_votes;
}

-- Through any calls of the handlers, each with an option of the poll or a new random id, a poll keeps
-- at least two options, no two of which share an id, and no option has two votes of one user.
pub calls-IsValid :
    (cs : List PollCall) (p : PollProps) → IsValid p → ArePossible cs p → IsValid (calls cs p)
unfolding calls
calls-IsValid [] p v h = v
calls-IsValid (c ∷ cs) p v (now, h) = calls-IsValid cs (call c p) (call-IsValid c p v now) h

pub new_poll-IsValid :
    (first second : String) → str_eq second first ≡ false → IsValid (new_poll first second)
new_poll-IsValid first second apart = record {
  two_options = omega arith;
  own_ids = (ground arith, (refl, tt));
  single_votes = (tt, (tt, tt));
}
