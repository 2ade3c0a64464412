-- ===== src/Poll/Ids.antt =====
-- web/src/components/editor/plugins/poll/poll-component.tsx: options told apart by their ids.
use scylladb_grpc_microservi.Common.{
  String, true, false, not, ◌||◌, List, [], ◌∷◌, ◌++◌, filter, str_eq, map, ◌≡◌, refl, sym, ap, ◌∙◌,
  arith, eq_iff, All, Bool-cases, inl, inr,
}
use scylladb_grpc_microservi.Poll.{PollOption}
use scylladb_grpc_microservi.Poll.Laws.{count_id}
use scylladb_grpc_microservi.Poll.Calls.{has_id, Contains}

abbrev pub OwnIds : List PollOption → Type 0
OwnIds [] = Unit
OwnIds (o ∷ options) = (has_id o.id options ≡ false) × OwnIds options

-- Handlers that keep the ids keep them apart.
has_id-map :
    (f : PollOption → PollOption) (id : String) (options : List PollOption)
    → ((o : PollOption) → (f o).id ≡ o.id)
    → has_id id (map f options) ≡ has_id id options
has_id-map f id [] same = refl
has_id-map f id (o ∷ options) same = rw (same o, has_id-map f id options same) refl

pub map-OwnIds :
    (f : PollOption → PollOption) (options : List PollOption)
    → ((o : PollOption) → (f o).id ≡ o.id)
    → OwnIds options
    → OwnIds (map f options)
map-OwnIds f [] same h = tt
map-OwnIds f (o ∷ options) same (own, h) = (
  ap (λ i. has_id i (map f options)) (same o) ∙ has_id-map f o.id options same ∙ own,
  map-OwnIds f options same h,
)

pub has_id-contained :
    (option : PollOption) (options : List PollOption)
    → Contains option options
    → has_id option.id options ≡ true
has_id-contained option [] h = absurd h
has_id-contained option (o ∷ options) (inl e) =
    ground (arith, eq_iff o.id option.id, ap (λ x. x.id) e)
has_id-contained option (o ∷ options) (inr h) = ground (arith, has_id-contained option options h)

abbrev pub IsOnly : PollOption → List PollOption → Type 0
IsOnly option options = All (λ o. o.id ≡ option.id → o ≡ option) options

elsewhere :
    (option : PollOption) (options : List PollOption)
    → has_id option.id options ≡ false
    → IsOnly option options
elsewhere option [] h = tt
elsewhere option (o ∷ options) h =
    (λ e. absurd (ground (arith, eq_iff o.id option.id)), elsewhere option options (ground arith))

-- An option of a poll is the only one with its id.
pub Contains-IsOnly :
    (option : PollOption) (options : List PollOption)
    → OwnIds options
    → Contains option options
    → IsOnly option options
Contains-IsOnly option [] own h = tt
Contains-IsOnly option (o ∷ options) (new, own) (inl e) =
    (λ _. e, elsewhere option options (rw e at new))
Contains-IsOnly option (o ∷ options) (new, own) (inr h) = (
  λ e. absurd (ground (arith, has_id-contained option options h, ap (λ i. has_id i options) e)),
  Contains-IsOnly option options own h,
)

has_id-append :
    (id : String) (new : PollOption) (options : List PollOption)
    → has_id id (options ++ new ∷ []) ≡ has_id id options || str_eq new.id id
has_id-append id new [] = ground arith
has_id-append id new (o ∷ options) = ground (arith, has_id-append id new options)

pub append-OwnIds :
    (new : PollOption) (options : List PollOption)
    → has_id new.id options ≡ false
    → OwnIds options
    → OwnIds (options ++ new ∷ [])
append-OwnIds new [] fresh h = (refl, tt)
append-OwnIds new (o ∷ options) fresh (own, h) = (
  ground (arith, has_id-append o.id new options, eq_iff new.id o.id, eq_iff o.id new.id),
  append-OwnIds new options (ground arith) h,
)

pub has_id-filter :
    (k id : String) (options : List PollOption)
    → has_id k options ≡ false
    → has_id k (filter (λ o. not (str_eq o.id id)) options) ≡ false
has_id-filter k id [] h = refl
has_id-filter k id (o ∷ options) h = elim (Bool-cases (str_eq o.id id)) [
  | inl e ↦ rw e (has_id-filter k id options (ground arith))
  | inr e ↦ rw e (ground (arith, has_id-filter k id options))
]

count_id-absent :
    (id : String) (options : List PollOption) → has_id id options ≡ false → count_id id options ≡ 0
count_id-absent id [] h = refl
count_id-absent id (o ∷ options) h = ground (arith, count_id-absent id options)

pub count_id-contained :
    (option : PollOption) (options : List PollOption)
    → OwnIds options
    → Contains option options
    → count_id option.id options ≡ 1
count_id-contained option [] own there = absurd there
count_id-contained option (o ∷ options) (new, own) (inl e) =
    let id : o.id ≡ option.id = ap (λ x. x.id) e in
    let absent : has_id option.id options ≡ false = ap (λ i. has_id i options) (sym id) ∙ new in
    ground (arith, count_id-absent option.id options absent, eq_iff o.id option.id)
count_id-contained option (o ∷ options) (new, own) (inr there) =
    let here = has_id-contained option options there in
    elim (Bool-cases (str_eq o.id option.id)) [
      | inl e ↦
          absurd (ground (arith, here, ap (λ i. has_id i options) ((eq_iff o.id option.id).0 e)))
      | inr e ↦ rw e (count_id-contained option options own there)
    ]
