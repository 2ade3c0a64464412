-- ===== src/Notes/Blocks/Commute.antt =====
-- web/src/modules/notes/components/note-view.tsx: patches of different blocks, and the patch that
-- changes nothing.
use scylladb_grpc_microservi.Common.{
  String, Bool, true, false, ◌&&◌, ◌||◌, Option, none, some, List, [], ◌∷◌, is_none, is_some, get,
  ◌≡◌, ◌↔◌, refl, sym, ◌∙◌, arith, eq_refl, has, Option-cases, Bool-cases, inl, inr,
}
use scylladb_grpc_microservi.Notes.Blocks.{
  Block, Doc, PatchMessage, block_eq, is_changed, diff_blocks, apply_patch, is_empty_list,
  is_empty_patch,
}
use scylladb_grpc_microservi.Notes.Blocks.Laws.{
  SameBlocks, upserted_at, get-diff_blocks, has-diff_blocks, get-apply_patch,
  apply_patch-diff_blocks,
}

-- A patch that deletes or upserts the block.
abbrev pub touches : PatchMessage → String → Bool
touches p id = has id p.deleted || is_some (get id p.upserted)

untouched :
    (d : Doc) (p : PatchMessage) (id : String)
    → touches p id ≡ false
    → get id (apply_patch d p) ≡ get id d
untouched d p id h = elim (Option-cases (get id p.upserted)) [
  | inl e ↦ ground (arith, get-apply_patch d p id)
  | inr (b, e) ↦ ground (arith, get-apply_patch d p id)
]

pub same_base :
    (d e : Doc) (p : PatchMessage) (id : String)
    → get id d ≡ get id e
    → get id (apply_patch d p) ≡ get id (apply_patch e p)
same_base d e p id h = rw (get-apply_patch d p id, get-apply_patch e p id, h) refl

other_false : (a b : Bool) → a && b ≡ false → b ≡ true → a ≡ false
other_false a b h k = ground arith

-- Two patches that touch no block in common give the same blocks in either order.
pub apply_patch_commute :
    (d : Doc) (p q : PatchMessage)
    → ((id : String) → touches p id && touches q id ≡ false)
    → SameBlocks (apply_patch (apply_patch d p) q) (apply_patch (apply_patch d q) p)
apply_patch_commute d p q apart id = elim (Bool-cases (touches q id)) [
  | inl hit ↦
      let miss = other_false (touches p id) (touches q id) (apart id) hit in
      same_base (apply_patch d p) d q id (untouched d p id miss)
      ∙ sym (untouched (apply_patch d q) p id miss)
  | inr miss ↦
      untouched (apply_patch d p) q id miss
      ∙ same_base d (apply_patch d q) p id (sym (untouched d q id miss))
]

no_keys : (ks : List String) → ((k : String) → has k ks ≡ false) → ks ≡ []
no_keys [] h = refl
no_keys (k ∷ ks) h = absurd (ground (arith, h k, eq_refl k))

no_blocks : (d : Doc) → ((k : String) → get k d ≡ none) → d ≡ []
unfolding get
no_blocks [] h = refl
no_blocks ((k, b) ∷ d) h = absurd (ground (arith, h k, eq_refl k))

pub block_eq_refl : (a : Block) → block_eq a a ≡ true
unfolding block_eq
block_eq_refl a = ground (arith, eq_refl a.kind, eq_refl a.meta, eq_refl a.value, eq_refl a.rest)

upserted_at_same : (o : Option Block) → upserted_at o o ≡ none
unfolding is_changed
upserted_at_same none = refl
upserted_at_same (some a) = ground (arith, block_eq_refl a)

empty_list-eq {ℓ} : {A : Type ℓ} (l : List A) → is_empty_list l ≡ true → l ≡ []
empty_list-eq [] h = refl
empty_list-eq (x ∷ l) h = cc

pub nothing : PatchMessage
nothing = record { upserted = []; deleted = [] }

pub apply_nothing : (d : Doc) (id : String) → get id (apply_patch d nothing) ≡ get id d
unfolding nothing get
apply_nothing d id = get-apply_patch d nothing id

pub empty-nothing : (p : PatchMessage) → is_empty_patch p ≡ true → p ≡ nothing
unfolding is_empty_patch nothing
empty-nothing p h = ground (arith, empty_list-eq p.upserted, empty_list-eq p.deleted)

no_change : (o : Option Block) → is_some o && is_none o ≡ false
no_change none = refl
no_change (some b) = refl

-- The patch between two documents is empty exactly when they have the same blocks.
pub is_empty_patch-diff_blocks :
    (prev next : Doc) → (is_empty_patch (diff_blocks prev next) ≡ true) ↔ SameBlocks prev next
unfolding is_empty_patch
is_empty_patch-diff_blocks prev next = (
  λ h id.
      sym (apply_nothing prev id)
      ∙ (rw⁻¹ (empty-nothing (diff_blocks prev next) h)
          (apply_patch-diff_blocks prev next prev (λ i. refl) id)),
  λ same.
      rw
        (
          no_blocks (diff_blocks prev next).upserted
              (λ k. rw (get-diff_blocks, same k) (upserted_at_same (get k next))),
          no_keys (diff_blocks prev next).deleted
              (λ k. rw (has-diff_blocks, same k) (no_change (get k next))),
        )
        refl,
)
