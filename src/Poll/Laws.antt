-- ===== src/Poll/Laws.antt =====
-- web/src/components/editor/plugins/poll/poll-component.tsx: votes taken back, and deletions.
use scylladb_grpc_microservi.Common.{
  ℕ, suc, ◌+◌, ◌≤◌, String, Bool, true, false, not, none, some, List, [], ◌∷◌, ◌++◌, length, filter,
  str_eq, leb, map, if◌then◌else◌, ◌≡◌, ◌⊎◌, refl, ap, ◌∙◌, arith, eq_iff, eq_refl, All, Bool-cases,
  inl, inr,
}
use scylladb_grpc_microservi.Poll.{
  PollOption, includes, toggle_vote, vote_option, handle_vote, handle_delete_option,
}

-- The option with the id of `option` is `option` itself.
abbrev pub IsOnly : PollOption → List PollOption → Type 0
IsOnly option options = All (λ o. o.id ≡ option.id → o ≡ option) options

filter_absent :
    (user : String) (votes : List String)
    → includes votes user ≡ false
    → filter (λ v. not (str_eq v user)) votes ≡ votes
filter_absent user [] h = refl
filter_absent user (v ∷ votes) h = elim (Bool-cases (str_eq v user)) [
  | inl e ↦ absurd (ground arith)
  | inr e ↦ rw e (ap (◌∷◌ v) (filter_absent user votes (ground arith)))
]

filter-append :
    (p : String → Bool) (l : List String) (x : String)
    → p x ≡ false
    → filter p (l ++ x ∷ []) ≡ filter p l
filter-append p [] x h = rw h refl
filter-append p (y ∷ l) x h = elim (Bool-cases (p y)) [
  | inl e ↦ rw e (ap (◌∷◌ y) (filter-append p l x h))
  | inr e ↦ rw e (filter-append p l x h)
]

includes-append : (votes : List String) (user : String) → includes (votes ++ user ∷ []) user ≡ true
includes-append [] user = ground (arith, eq_refl user)
includes-append (v ∷ votes) user = ground (arith, includes-append votes user)

abbrev with_vote : PollOption → String → PollOption
with_vote o user = record o { votes = o.votes ++ user ∷ [] }

vote_option_self :
    (option : PollOption) (user : String)
    → includes option.votes user ≡ false
    → vote_option option user option ≡ with_vote option user
unfolding vote_option toggle_vote
vote_option_self option user h = rw (eq_refl option.id, h) refl

vote_option_other :
    (option o : PollOption) (user : String)
    → str_eq o.id option.id ≡ false
    → vote_option option user o ≡ o
unfolding vote_option
vote_option_other option o user h = rw h refl

vote_option_back :
    (option : PollOption) (user : String)
    → includes option.votes user ≡ false
    → vote_option (with_vote option user) user (with_vote option user) ≡ option
unfolding vote_option toggle_vote
vote_option_back option user h =
    rw (eq_refl option.id, includes-append option.votes user)
      (ap (λ l. record option { votes = l })
        (filter-append (λ v. not (str_eq v user)) option.votes user (ground (arith, eq_refl user))
          ∙ filter_absent user option.votes h))

vote_option_twice :
    (option o : PollOption) (user : String)
    → includes option.votes user ≡ false
    → (o.id ≡ option.id → o ≡ option)
    → vote_option (vote_option option user option) user (vote_option option user o) ≡ o
vote_option_twice option o user h only = elim (Bool-cases (str_eq o.id option.id)) [
  | inl e ↦
      rw (only ((eq_iff o.id option.id).0 e), vote_option_self option user h)
        (vote_option_back option user h)
  | inr e ↦
      rw (vote_option_self option user h, vote_option_other option o user e)
        (vote_option_other (with_vote option user) o user e)
]

map_twice :
    (option : PollOption) (options : List PollOption) (user : String)
    → includes option.votes user ≡ false
    → IsOnly option options
    → map
        (vote_option (vote_option option user option) user)
        (map (vote_option option user) options)
      ≡ options
map_twice option [] user h only = refl
map_twice option (o ∷ options) user h (first, only) =
    rw (vote_option_twice option o user h first) (ap (◌∷◌ o) (map_twice option options user h only))

-- A signed-in user who has not voted for an option of the poll, votes for it and then takes the vote
-- back leaves the options as they were.
pub vote_twice :
    (option : PollOption) (options : List PollOption) (user : String)
    → includes option.votes user ≡ false
    → IsOnly option options
    → (voted : List PollOption) × (handle_vote true user option options ≡ some voted)
      × (handle_vote true user (vote_option option user option) voted ≡ some options)
unfolding handle_vote
vote_twice option options user h only =
    (map (vote_option option user) options, refl, ap some (map_twice option options user h only))

-- The option with this id occurs once.
abbrev pub count_id : String → List PollOption → ℕ
count_id id [] = 0
count_id id (o ∷ options) =
    if str_eq o.id id then suc (count_id id options) else count_id id options

length-filter_id :
    (id : String) (options : List PollOption)
    → length (filter (λ o. not (str_eq o.id id)) options) + count_id id options ≡ length options
length-filter_id id [] = refl
length-filter_id id (o ∷ options) = ground (arith, length-filter_id id options)

-- Where an option's id is its own, deleting it either is refused, at two options or fewer, or removes
-- just this one and leaves at least two.
pub handle_delete_option-length :
    (option : PollOption) (options : List PollOption)
    → count_id option.id options ≡ 1
    → ((handle_delete_option option options ≡ none) × (length options ≤ 2))
      ⊎ ((rest : List PollOption) × (handle_delete_option option options ≡ some rest)
          × (length rest + 1 ≡ length options)
          × (2 ≤ length rest))
unfolding handle_delete_option
handle_delete_option-length option options once = elim (Bool-cases (leb (length options) 2)) [
  | inl few ↦ inl (rw few refl, ground arith)
  | inr many ↦
      let counted = length-filter_id option.id options in
      inr (
        filter (λ o. not (str_eq o.id option.id)) options,
        rw many refl,
        omega (arith, counted, once),
        ground (arith, counted, once),
      )
]
