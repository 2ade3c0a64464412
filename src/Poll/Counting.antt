-- ===== src/Poll/Counting.antt =====
-- web/src/components/editor/plugins/poll/poll-component.tsx: the number of votes that is shown.
use scylladb_grpc_microservi.Common.{
  ◌+◌, String, true, false, not, some, List, [], ◌∷◌, length, filter, str_eq, map, if◌then◌else◌,
  ◌≡◌, refl, sym, ap, ◌∙◌, arith, eq_iff, eq_refl, Bool-cases, inl, inr, length-append, All,
}
use scylladb_grpc_microservi.Poll.{
  PollOption, includes, total_votes, toggle_vote, vote_option, handle_vote,
}
use scylladb_grpc_microservi.Poll.Texts.{PollProps}
use scylladb_grpc_microservi.Poll.Calls.{Contains, has_id}
use scylladb_grpc_microservi.Poll.Ids.{OwnIds, has_id-contained}
use scylladb_grpc_microservi.Poll.Votes.{SingleVotes}
use scylladb_grpc_microservi.Poll.Invariant.{IsValid}

filter-length :
    (user : String) (votes : List String)
    → SingleVotes votes
    → length (filter (λ v. not (str_eq v user)) votes) + (if includes votes user then 1 else 0)
      ≡ length votes
filter-length user [] h = refl
filter-length user (v ∷ votes) (new, h) = elim (Bool-cases (str_eq v user)) [
  | inl e ↦
      let absent : includes votes user ≡ false =
        ap (includes votes) (sym ((eq_iff v user).0 e)) ∙ new in
      ground (arith, filter-length user votes h)
  | inr e ↦ ground (arith, filter-length user votes h)
]

self_count :
    (option : PollOption) (user : String)
    → SingleVotes option.votes
    → length (vote_option option user option).votes + (if includes option.votes user then 1 else 0)
      ≡ length option.votes + (if includes option.votes user then 0 else 1)
unfolding vote_option toggle_vote
self_count option user h = elim (Bool-cases (includes option.votes user)) [
  | inl e ↦ ground (arith, eq_refl option.id, filter-length user option.votes h)
  | inr e ↦ ground (arith, eq_refl option.id, length-append option.votes (user ∷ []))
]

others_kept :
    (option : PollOption) (user : String) (options : List PollOption)
    → has_id option.id options ≡ false
    → total_votes (map (vote_option option user) options) ≡ total_votes options
unfolding vote_option
others_kept option user [] h = refl
others_kept option user (o ∷ options) h = ground (arith, others_kept option user options)

vote_other :
    (option o : PollOption) (user : String)
    → str_eq o.id option.id ≡ false
    → vote_option option user o ≡ o
unfolding vote_option
vote_other option o user h = rw h refl

votes_counted :
    (option : PollOption) (user : String) (options : List PollOption)
    → SingleVotes option.votes
    → OwnIds options
    → Contains option options
    → total_votes (map (vote_option option user) options)
        + (if includes option.votes user then 1 else 0)
      ≡ total_votes options + (if includes option.votes user then 0 else 1)
votes_counted option user [] single own there = absurd there
votes_counted option user (o ∷ options) single (new, own) (inl e) =
    let absent : has_id option.id options ≡ false = ap (λ x. has_id x.id options) (sym e) ∙ new in
    let rest = others_kept option user options absent in
    let self = self_count option user single in rw e (omega (arith, rest, self))
votes_counted option user (o ∷ options) single (new, own) (inr there) =
    let rest = votes_counted option user options single own there in
    let here = has_id-contained option options there in
    let apart : str_eq o.id option.id ≡ false =
      ground (arith, eq_iff o.id option.id, here, ap (λ (i : String). has_id i options)) in
    let kept = vote_other option o user apart in rw kept (omega (arith, rest))

single_of :
    (option : PollOption) (options : List PollOption)
    → All (λ o. SingleVotes o.votes) options
    → Contains option options
    → SingleVotes option.votes
single_of option [] h there = absurd there
single_of option (o ∷ options) (first, h) (inl e) = (rw e at first)
single_of option (o ∷ options) (first, h) (inr there) = single_of option options h there

-- In a poll with at least two options, no two of which share an id, and no option with two votes of
-- one user: a signed-in user who votes for an option without a vote of his adds one to the total; who
-- has voted for it takes one off.
pub handle_vote-total :
    (user : String) (option : PollOption) (p : PollProps)
    → IsValid p
    → Contains option p.options
    → (voted : List PollOption) × (handle_vote true user option p.options ≡ some voted)
      × (includes option.votes user ≡ false → total_votes voted ≡ total_votes p.options + 1)
      × (includes option.votes user ≡ true → total_votes voted + 1 ≡ total_votes p.options)
unfolding handle_vote
handle_vote-total user option p v there =
    let single = single_of option p.options v.single_votes there in
    let counted = votes_counted option user p.options single v.own_ids there in
    (
      map (vote_option option user) p.options,
      refl,
      λ h. ground (arith, counted),
      λ h. ground (arith, counted),
    )
