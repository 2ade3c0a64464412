-- ===== src/Notes/Sync/Content/Structure.antt =====
-- web/src/modules/notes/components/note-view.tsx: documents without a structural change.
use scylladb_grpc_microservi.Common.{
  String, Bool, true, false, Option, none, some, List, [], ◌∷◌, any, has, get, keys, has-keys,
  str_eq, eq_iff, is_none, is_some, ◌≡◌, inl, inr, refl, ap, ◌∙◌, arith, Bool-cases,
}
use scylladb_grpc_microservi.Notes.Blocks.{Block, Doc}
use scylladb_grpc_microservi.Notes.Sync.{
  either_differs, other_kind, other_meta, has_structural_change,
}

any-false :
    (p : String → Bool) (id : String) (l : List String)
    → any p l ≡ false
    → has id l ≡ true
    → p id ≡ false
any-false p id [] h k = cc
any-false p id (j ∷ l) h k = elim (Bool-cases (str_eq j id)) [
  | inl e ↦ let same = (eq_iff j id).0 e in ground (arith, ap p same)
  | inr e ↦ ground (arith, any-false p id l)
]

-- The editor has the block under the id already, but perhaps for its children.
abbrev pub SameShape : Option Block → Block → Type 0
SameShape o b = (a : Block) × (o ≡ some a) × (a.kind ≡ b.kind) × (a.meta ≡ b.meta)

either_same :
    (o : Option Block) (b : Block)
    → either_differs other_kind o (some b) ≡ false
    → either_differs other_meta o (some b) ≡ false
    → SameShape o b
either_same none b h k = cc
either_same (some a) b h k =
    (a, refl, ground (arith, eq_iff a.kind b.kind), ground (arith, eq_iff a.meta b.meta))

none_of : (o : Option Block) → is_some o ≡ false → o ≡ none
none_of none h = refl
none_of (some a) h = cc

-- Without a structural change each block of the new document was there, with its type and metadata.
pub same_shape :
    (current value : Doc)
    → has_structural_change current value ≡ false
    → (id : String) (b : Block) → get id value ≡ some b
    → SameShape (get id current) b
unfolding has_structural_change
same_shape current value h id b there =
    let listed : has id (keys value) ≡ true = has-keys id value ∙ ap is_some there in
    let kind =
      any-false (λ i. either_differs other_kind (get i current) (get i value)) id (keys value)
        (ground arith) listed in
    let meta =
      any-false (λ i. either_differs other_meta (get i current) (get i value)) id (keys value)
        (ground arith) listed in
    either_same (get id current) b (rw there at kind) (rw there at meta)

-- A block that only the current document has is a structural change.
pub no_other_block :
    (current value : Doc)
    → has_structural_change current value ≡ false
    → (id : String) → get id value ≡ none
    → get id current ≡ none
unfolding has_structural_change
no_other_block current value h id gone = elim (Bool-cases (is_some (get id current))) [
  | inl there ↦
      let kept = any-false (λ i. is_none (get i value)) id (keys current) (ground arith) in
      absurd (ground (arith, kept, has-keys id current))
  | inr e ↦ none_of (get id current) e
]
