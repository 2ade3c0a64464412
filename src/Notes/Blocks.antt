-- ===== src/Notes/Blocks.antt =====
-- web/src/modules/notes/components/note-view.tsx: documents of blocks, `diffBlocks` and `applyPatch`.
pub mod Laws
pub mod Commute
use scylladb_grpc_microservi.Common.{
  String, Bool, true, false, ◌&&◌, not, Option, none, some, List, [], ◌∷◌, is_none, str_eq, filter,
  Dict, get, put, keys, spread, delete_all, if◌then◌else◌,
}

-- A block, by the texts that `JSON.stringify` gives for its `type`, `meta`, `value` and all else; so
-- two blocks have the same text exactly when the four texts agree.
pub record Block : Type 0 where
  pub kind : String
  pub meta : String
  pub value : String
  pub rest : String

-- `YooptaContentValue`, keyed by block id.
abbrev pub Doc : Type 0
Doc = Dict Block

pub record PatchMessage : Type 0 where
  pub upserted : Doc
  pub deleted : List String

unfoldable pub block_eq : Block → Block → Bool
block_eq a b =
    str_eq a.kind b.kind && str_eq a.meta b.meta && str_eq a.value b.value && str_eq a.rest b.rest

-- `JSON.stringify(prev[id]) !== JSON.stringify(next[id])` for a block that `next` has.
unfoldable pub is_changed : Option Block → Block → Bool
is_changed none b = true
is_changed (some a) b = not (block_eq a b)

unfoldable pub upsert : String → Option Block → Option Block → Doc → Doc
unfolding is_changed
upsert id old none acc = acc
upsert id old (some b) acc = if is_changed old b then put id b acc else acc

-- The loop over the keys of `next`.
unfoldable pub upsert_changed : Doc → Doc → List String → Doc → Doc
upsert_changed prev next [] acc = acc
upsert_changed prev next (id ∷ ids) acc =
    upsert_changed prev next ids (upsert id (get id prev) (get id next) acc)

unfoldable pub diff_blocks : Doc → Doc → PatchMessage
diff_blocks prev next = record {
  upserted = upsert_changed prev next (keys next) [];
  deleted = filter (λ id. is_none (get id next)) (keys prev);
}

unfoldable pub apply_patch : Doc → PatchMessage → Doc
apply_patch local patch = delete_all patch.deleted (spread patch.upserted local)

-- `Object.keys(patch.upserted).length === 0 && patch.deleted.length === 0`
abbrev pub is_empty_list {ℓ} : {A : Type ℓ} → List A → Bool
is_empty_list [] = true
is_empty_list (_ ∷ _) = false

unfoldable pub is_empty_patch : PatchMessage → Bool
is_empty_patch p = is_empty_list p.upserted && is_empty_list p.deleted
