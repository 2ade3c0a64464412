-- ===== src/Notes/Blocks/Laws.antt =====
-- web/src/modules/notes/components/note-view.tsx: what a patch between two documents does.
use scylladb_grpc_microservi.Common.{
  String, true, ◌&&◌, Option, none, some, List, [], ◌∷◌, is_none, is_some, str_eq, get, keys,
  spread, if◌then◌else◌, ◌≡◌, refl, arith, eq_iff, has, or_else, has-keys, has-filter,
  get-delete_all, get-spread, get-put, Option-cases, Bool-cases, inl, inr,
}
use scylladb_grpc_microservi.Notes.Blocks.{
  Block, Doc, PatchMessage, block_eq, is_changed, upsert, upsert_changed, diff_blocks, apply_patch,
}

-- Two documents have the same block under every id.
abbrev pub SameBlocks : Doc → Doc → Type 0
SameBlocks d e = (id : String) → get id d ≡ get id e

pub block_eq-eq : (a b : Block) → block_eq a b ≡ true → a ≡ b
unfolding block_eq
block_eq-eq a b h = ground (
  arith,
  eq_iff a.kind b.kind,
  eq_iff a.meta b.meta,
  eq_iff a.value b.value,
  eq_iff a.rest b.rest,
)

-- What the patch holds under an id.
abbrev pub upserted_at : Option Block → Option Block → Option Block
upserted_at old none = none
upserted_at old (some b) = if is_changed old b then some b else none

get-upsert :
    (i id : String) (old new : Option Block) (acc : Doc)
    → get id (upsert i old new acc)
      ≡ (if str_eq i id then or_else (upserted_at old new) (get id acc) else get id acc)
unfolding upsert
get-upsert i id old none acc = ground arith
get-upsert i id old (some b) acc = ground (arith, get-put i id b acc)

get-upsert_changed :
    (prev next : Doc) (id : String) (ids : List String) (acc : Doc)
    → get id (upsert_changed prev next ids acc) ≡ (
        if has id ids
        then or_else (upserted_at (get id prev) (get id next)) (get id acc)
        else get id acc)
unfolding upsert_changed
get-upsert_changed prev next id [] acc = refl
get-upsert_changed prev next id (i ∷ ids) acc =
    elim (Option-cases (upserted_at (get id prev) (get id next))) [
      | inl e ↦ ground (
        arith,
        eq_iff i id,
        get-upsert_changed prev next id ids (upsert i (get i prev) (get i next) acc),
        get-upsert i id (get i prev) (get i next) acc,
      )
      | inr (v, e) ↦ ground (
        arith,
        eq_iff i id,
        get-upsert_changed prev next id ids (upsert i (get i prev) (get i next) acc),
        get-upsert i id (get i prev) (get i next) acc,
      )
    ]

pub get-diff_blocks :
    (prev next : Doc) (id : String)
    → get id (diff_blocks prev next).upserted ≡ upserted_at (get id prev) (get id next)
unfolding diff_blocks get
get-diff_blocks prev next id = elim (Option-cases (get id next)) [
  | inl e ↦ ground (arith, get-upsert_changed prev next id (keys next) [], has-keys id next)
  | inr (b, e) ↦ ground (arith, get-upsert_changed prev next id (keys next) [], has-keys id next)
]

pub has-diff_blocks :
    (prev next : Doc) (id : String)
    → has id (diff_blocks prev next).deleted ≡ is_some (get id prev) && is_none (get id next)
unfolding diff_blocks
has-diff_blocks prev next id =
    ground (arith, has-filter (λ i. is_none (get i next)) id (keys prev), has-keys id prev)

pub get-apply_patch :
    (local : Doc) (p : PatchMessage) (id : String)
    → get id (apply_patch local p)
      ≡ (if has id p.deleted then none else or_else (get id p.upserted) (get id local))
unfolding apply_patch
get-apply_patch local p id =
    ground
      (arith, get-delete_all id p.deleted (spread p.upserted local), get-spread id p.upserted local)

merged : Option Block → Option Block → Option Block
unfolding is_changed
merged old new = if is_some old && is_none new then none else or_else (upserted_at old new) old

merged-eq : (old new : Option Block) → merged old new ≡ new
unfolding merged is_changed
merged-eq none none = refl
merged-eq none (some b) = refl
merged-eq (some a) none = refl
merged-eq (some a) (some b) = elim (Bool-cases (block_eq a b)) [
  | inl same ↦ ground (arith, block_eq-eq a b same)
  | inr other ↦ ground arith
]

-- The patch from one document to another, applied to any document with the blocks of the first,
-- gives the blocks of the second.
pub apply_patch-diff_blocks :
    (prev next local : Doc)
    → SameBlocks local prev
    → SameBlocks (apply_patch local (diff_blocks prev next)) next
unfolding merged
apply_patch-diff_blocks prev next local same id =
    rw (get-apply_patch, get-diff_blocks, has-diff_blocks, same id)
      (merged-eq (get id prev) (get id next))
