-- ===== src/Poll/Votes.antt =====
-- web/src/components/editor/plugins/poll/poll-component.tsx: the votes of an option, each user's once.
use scylladb_grpc_microservi.Common.{
  String, false, not, ◌||◌, List, [], ◌∷◌, ◌++◌, filter, str_eq, map, ◌≡◌, refl, sym, ap, arith,
  eq_iff, All, Bool-cases, inl, inr,
}
use scylladb_grpc_microservi.Poll.{
  PollOption, includes, toggle_vote, vote_option, handle_option_text,
}
use scylladb_grpc_microservi.Poll.Ids.{IsOnly}

-- No user stands twice in the votes.
abbrev pub SingleVotes : List String → Type 0
SingleVotes [] = Unit
SingleVotes (v ∷ votes) = (includes votes v ≡ false) × SingleVotes votes

includes-filter :
    (u : String) (user : String) (votes : List String)
    → includes votes u ≡ false
    → includes (filter (λ v. not (str_eq v user)) votes) u ≡ false
includes-filter u user [] h = refl
includes-filter u user (v ∷ votes) h = elim (Bool-cases (str_eq v user)) [
  | inl e ↦ rw e (includes-filter u user votes (ground arith))
  | inr e ↦ rw e (ground (arith, includes-filter u user votes))
]

includes-append :
    (u user : String) (votes : List String)
    → includes (votes ++ user ∷ []) u ≡ includes votes u || str_eq user u
includes-append u user [] = ground arith
includes-append u user (v ∷ votes) = ground (arith, includes-append u user votes)

filter-SingleVotes :
    (user : String) (votes : List String)
    → SingleVotes votes
    → SingleVotes (filter (λ v. not (str_eq v user)) votes)
filter-SingleVotes user [] h = tt
filter-SingleVotes user (v ∷ votes) (new, h) = elim (Bool-cases (str_eq v user)) [
  | inl e ↦ rw e (filter-SingleVotes user votes h)
  | inr e ↦ rw e (includes-filter v user votes new, filter-SingleVotes user votes h)
]

append-SingleVotes :
    (user : String) (votes : List String)
    → includes votes user ≡ false
    → SingleVotes votes
    → SingleVotes (votes ++ user ∷ [])
append-SingleVotes user [] fresh h = (refl, tt)
append-SingleVotes user (v ∷ votes) fresh (new, h) = (
  ground (arith, includes-append v user votes, eq_iff user v, eq_iff v user),
  append-SingleVotes user votes (ground arith) h,
)

toggle_vote-SingleVotes :
    (user : String) (votes : List String)
    → SingleVotes votes
    → SingleVotes (toggle_vote (includes votes user) user votes)
unfolding toggle_vote
toggle_vote-SingleVotes user votes h = elim (Bool-cases (includes votes user)) [
  | inl e ↦ rw e (filter-SingleVotes user votes h)
  | inr e ↦ rw e (append-SingleVotes user votes e h)
]

pub vote_option-id :
    (option : PollOption) (user : String) (o : PollOption) → (vote_option option user o).id ≡ o.id
unfolding vote_option
vote_option-id option user o = ground arith

vote_option-SingleVotes :
    (option o : PollOption) (user : String)
    → (o.id ≡ option.id → o ≡ option)
    → SingleVotes o.votes
    → SingleVotes (vote_option option user o).votes
unfolding vote_option
vote_option-SingleVotes option o user only h = elim (Bool-cases (str_eq o.id option.id)) [
  | inl e ↦
      let same : option.votes ≡ o.votes =
        ap (λ x. x.votes) (sym (only ((eq_iff o.id option.id).0 e))) in
      rw (e, same) (toggle_vote-SingleVotes user o.votes h)
  | inr e ↦ rw e h
]

pub votes-SingleVotes :
    (option : PollOption) (user : String) (options : List PollOption)
    → IsOnly option options
    → All (λ o. SingleVotes o.votes) options
    → All (λ o. SingleVotes o.votes) (map (vote_option option user) options)
votes-SingleVotes option user [] only h = tt
votes-SingleVotes option user (o ∷ options) (only, onlys) (first, h) = (
  vote_option-SingleVotes option o user only first,
  votes-SingleVotes option user options onlys h,
)

pub texts-SingleVotes :
    (option : PollOption) (text : String) (options : List PollOption)
    → All (λ o. SingleVotes o.votes) options
    → All (λ o. SingleVotes o.votes) (handle_option_text option text options)
unfolding handle_option_text
texts-SingleVotes option text [] h = tt
texts-SingleVotes option text (o ∷ options) (first, h) = elim (Bool-cases (str_eq o.id option.id)) [
  | inl e ↦ rw e (first, texts-SingleVotes option text options h)
  | inr e ↦ rw e (first, texts-SingleVotes option text options h)
]

pub add-SingleVotes :
    (new : PollOption) (options : List PollOption)
    → SingleVotes new.votes
    → All (λ o. SingleVotes o.votes) options
    → All (λ o. SingleVotes o.votes) (options ++ new ∷ [])
add-SingleVotes new [] first h = (first, tt)
add-SingleVotes new (o ∷ options) first (own, h) = (own, add-SingleVotes new options first h)
