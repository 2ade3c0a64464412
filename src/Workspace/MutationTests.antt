-- ===== src/Workspace/MutationTests.antt =====
-- web/src/modules/*/api: mutations over a cache that is a function of its keys.
use scylladb_grpc_microservi.Common.{
  String, Bool, true, false, Option, none, some, List, Bool-cases, inl, inr, ◌≡◌, refl,
  if◌then◌else◌,
}
use scylladb_grpc_microservi.Workspace.Queries.{AppQuery, workspace_notes, query_key}
use scylladb_grpc_microservi.Workspace.Mutations.{
  is_prefix, QueryCache, Mutation, leave_workspace, mutate,
}
use scylladb_grpc_microservi.Workspace.Mutations.Laws.{affects, misses, IsDocument, mutate-is_stale}

-- Each answer with whether it is stale.
abbrev Entries : Type 0
Entries = List String → Option (Bool × String)

abbrev staled : Option (Bool × String) → Option (Bool × String)
staled none = none
staled (some (old, a)) = some (true, a)

abbrev text_of : Option (Bool × String) → Option String
text_of none = none
text_of (some (old, a)) = some a

abbrev age_of : Option (Bool × String) → Bool
age_of none = false
age_of (some (old, a)) = old

abbrev invalidated : List String → Entries → Entries
invalidated prefix c key = if is_prefix prefix key then staled (c key) else c key

text_of-staled : (o : Option (Bool × String)) → text_of (staled o) ≡ text_of o
text_of-staled none = refl
text_of-staled (some o) = refl

age_of-staled :
    (o : Option (Bool × String)) (a : String) → text_of o ≡ some a → age_of (staled o) ≡ true
age_of-staled none a h = cc
age_of-staled (some o) a h = refl

invalidated-text :
    (prefix key : List String) (c : Entries) → text_of (invalidated prefix c key) ≡ text_of (c key)
invalidated-text prefix key c = elim (Bool-cases (is_prefix prefix key)) [
  | inl e ↦ rw e (text_of-staled (c key))
  | inr e ↦ rw e refl
]

invalidated-age :
    (prefix key : List String) (c : Entries) (a : String)
    → text_of (c key) ≡ some a
    → age_of (invalidated prefix c key) ≡ (if is_prefix prefix key then true else age_of (c key))
invalidated-age prefix key c a h = elim (Bool-cases (is_prefix prefix key)) [
  | inl e ↦ rw e (age_of-staled (c key) a h)
  | inr e ↦ rw e refl
]

removed-text :
    (prefix key : List String) (c : Entries)
    → text_of (if is_prefix prefix key then none else c key)
      ≡ (if is_prefix prefix key then none else text_of (c key))
removed-text prefix key c = elim (Bool-cases (is_prefix prefix key)) [
  | inl e ↦ rw e refl
  | inr e ↦ rw e refl
]

abbrev entries : QueryCache
entries = record {
  Cache = Entries;
  Answer = String;
  answer = λ key c. text_of (c key);
  is_stale = λ key c. age_of (c key);
  invalidate_queries = invalidated;
  remove_queries = λ prefix c key. if is_prefix prefix key then none else c key;
  answer-invalidate = invalidated-text;
  is_stale-invalidate = invalidated-age;
  answer-remove = removed-text;
}

abbrev two_notes : Entries
two_notes key = some (false, "two notes")

mutate-is_stale_example :
    let r : AppQuery = workspace_notes "w1" in
    let m : Mutation = leave_workspace "w1" in
    let after = mutate entries true m two_notes in
    (affects m r ≡ true → misses m r ≡ false → entries.is_stale (query_key r) after ≡ true)
    × (misses m r ≡ true
        → entries.is_stale (query_key r) after ≡ entries.is_stale (query_key r) two_notes)
    × (entries.answer (query_key r) after ≡ some "two notes")
    × (IsDocument r
        → entries.is_stale (query_key r) after ≡ entries.is_stale (query_key r) two_notes)
    × (mutate entries false m two_notes ≡ two_notes)
mutate-is_stale_example =
    mutate-is_stale entries two_notes (leave_workspace "w1") (workspace_notes "w1") "two notes" refl
