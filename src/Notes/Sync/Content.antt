-- ===== src/Notes/Sync/Content.antt =====
-- web/src/modules/notes/components/note-view.tsx, `applyRemoteValue`: what the editor is given of a
-- remote value. Nothing is assumed of the editor package.
mod Structure
use scylladb_grpc_microservi.Common.{
  String, Bool, true, false, Option, none, some, List, [], ◌∷◌, ◌++◌, All, get, str_eq, eq_iff, ◌≡◌,
  ◌≢◌, ◌⊎◌, inl, inr, refl, sym, ◌∙◌, arith, Bool-cases,
}
use scylladb_grpc_microservi.Notes.Blocks.{Block, Doc, is_empty_list}
use scylladb_grpc_microservi.Notes.Sync.{
  EditorChange, set_editor_value, set_children, Editor, NoteState, has_structural_change, Turn,
  skip, block, whole, turn, text_changes, remote_changes, apply_remote_value,
}
use scylladb_grpc_microservi.Notes.Sync.Content.Structure.{SameShape, same_shape, no_other_block}

abbrev pub Has : EditorChange → List EditorChange → Type 0
Has c [] = ⊥
Has c (d ∷ cs) = (c ≡ d) ⊎ Has c cs

-- Each entry is the one that its id gives: an object has no key twice.
abbrev pub IsObject : Doc → Type 0
IsObject d = All (λ entry. get (entry.0) d ≡ some (entry.1)) d

-- What an entry of `value` comes to: the children stand already, or are set in the block's Slate
-- editor, or the whole value is set.
abbrev IsDone : Doc → List EditorChange → String → Block → Block → Type 0
IsDone value cs id a b =
    Has (set_editor_value value) cs ⊎ ((a.value ≡ b.value) ⊎ Has (set_children id b.value) cs)

-- The changes give the editor, which had the document `current`, the document `value`.
pub record IsGiven (current value : Doc) (cs : List EditorChange) : Type 0 where
  -- Each block of the value is given with the whole value, or stood there with its type and metadata
  -- and has its children, or gets them.
  pub each_block :
      (id : String) (b : Block)
      → get id value ≡ some b
      → Has (set_editor_value value) cs
        ⊎ ((a : Block) × (get id current ≡ some a)
            × (a.kind ≡ b.kind)
            × (a.meta ≡ b.meta)
            × ((a.value ≡ b.value) ⊎ Has (set_children id b.value) cs))
  -- Where the whole value is not set, the editor has no other block.
  pub no_more :
      (id : String)
      → get id value ≡ none
      → Has (set_editor_value value) cs ⊎ (get id current ≡ none)
  -- The editor is given nothing else: children are set only where they differ.
  pub nothing_else :
      (c : EditorChange)
      → Has c cs
      → (c ≡ set_editor_value value)
        ⊎ ((i : String) × (b : Block) × (c ≡ set_children i b.value)
            × (get i value ≡ some b)
            × ((a : Block) → get i current ≡ some a → a.value ≢ b.value))

turn_cases :
    (o : Option Block) (has_editor : Bool) (i : String) (b : Block)
    → ((turn o has_editor i b ≡ skip) × ((a : Block) → o ≡ some a → a.value ≡ b.value))
      ⊎ (((turn o has_editor i b ≡ block i b.value)
            × ((a : Block) → o ≡ some a → a.value ≢ b.value))
          ⊎ (turn o has_editor i b ≡ whole))
unfolding turn
turn_cases none has_editor i b = inl (refl, λ a h. cc)
turn_cases (some a) has_editor i b = elim (Bool-cases (str_eq a.value b.value)) [
  | inl e ↦
      let same = (eq_iff a.value b.value).0 e in
      inl (ground arith, λ c h. let k : a ≡ c = cc in rw⁻¹ k same)
  | inr e ↦
      let differ : a.value ≢ b.value = λ s. ground (arith, eq_iff a.value b.value) in
      elim (Bool-cases has_editor) [
        | inl made ↦ inr (inl (ground arith, λ c h. let k : a ≡ c = cc in rw⁻¹ k differ))
        | inr none_made ↦ inr (inr (ground arith))
      ]
]

module _ (current : Doc) (has_editor : String → Bool) (value : Doc) where
  abbrev changes_of : Doc → List EditorChange
  changes_of = text_changes current has_editor value

  at_skip :
      (entries : Doc) (i : String) (c : Block)
      → turn (get i current) (has_editor i) i c ≡ skip
      → changes_of ((i, c) ∷ entries) ≡ changes_of entries
  unfolding text_changes
  at_skip entries i c e = rw (e, text_changes)

  at_block :
      (entries : Doc) (i : String) (c : Block)
      → turn (get i current) (has_editor i) i c ≡ block i c.value
      → changes_of ((i, c) ∷ entries) ≡ set_children i c.value ∷ changes_of entries
  unfolding text_changes
  at_block entries i c e = rw (e, text_changes)

  at_whole :
      (entries : Doc) (i : String) (c : Block)
      → turn (get i current) (has_editor i) i c ≡ whole
      → changes_of ((i, c) ∷ entries) ≡ set_editor_value value ∷ []
  unfolding text_changes
  at_whole entries i c e = rw (e, text_changes)

  IsDone-shift :
      (entries : Doc) (i id : String) (a b c : Block)
      → IsDone value (changes_of entries) id a b
      → IsDone value (changes_of ((i, c) ∷ entries)) id a b
  IsDone-shift entries i id a b c h = elim (turn_cases (get i current) (has_editor i) i c) [
    | inl (e, same) ↦ rw (at_skip entries i c e) h
    | inr (inl (e, differ)) ↦ rw (at_block entries i c e) (elim h [
      | inl w ↦ inl (inr w)
      | inr (inl s) ↦ inr (inl s)
      | inr (inr k) ↦ inr (inr (inr k))
    ])
    | inr (inr e) ↦ rw (at_whole entries i c e) (inl (inl refl))
  ]

  IsDone-here :
      (entries : Doc) (id : String) (a b : Block)
      → get id current ≡ some a
      → IsDone value (changes_of ((id, b) ∷ entries)) id a b
  IsDone-here entries id a b there = elim (turn_cases (get id current) (has_editor id) id b) [
    | inl (e, same) ↦ inr (inl (same a there))
    | inr (inl (e, differ)) ↦ rw (at_block entries id b e) (inr (inr (inl refl)))
    | inr (inr e) ↦ rw (at_whole entries id b e) (inl (inl refl))
  ]

  text_changes-IsDone :
      (entries : Doc) (id : String) (a b : Block)
      → get id current ≡ some a
      → get id entries ≡ some b
      → IsDone value (changes_of entries) id a b
  unfolding get
  text_changes-IsDone [] id a b there h = cc
  text_changes-IsDone ((i, c) ∷ entries) id a b there h = elim (Bool-cases (str_eq i id)) [
    | inl e ↦
        let here : some c ≡ some b = rw e at h in
        let same_block : c ≡ b = cc in
        let same = (eq_iff i id).0 e in rw (same, same_block) (IsDone-here entries id a b there)
    | inr e ↦ IsDone-shift entries i id a b c (text_changes-IsDone entries id a b there (rw e at h))
  ]

  abbrev IsOf : EditorChange → Type 0
  IsOf c =
      (c ≡ set_editor_value value)
      ⊎ ((i : String) × (b : Block) × (c ≡ set_children i b.value)
          × (get i value ≡ some b)
          × ((a : Block) → get i current ≡ some a → a.value ≢ b.value))

  text_changes-IsOf :
      (entries : Doc) (c : EditorChange)
      → All (λ entry. get (entry.0) value ≡ some (entry.1)) entries
      → Has c (changes_of entries)
      → IsOf c
  unfolding text_changes
  text_changes-IsOf [] c h i = absurd i
  text_changes-IsOf ((i, b) ∷ entries) c (entry, h) there =
      elim (turn_cases (get i current) (has_editor i) i b) [
        | inl (e, same) ↦ text_changes-IsOf entries c h (rw (at_skip entries i b e) at there)
        | inr (inl (e, differ)) ↦
            let split : (c ≡ set_children i b.value) ⊎ Has c (changes_of entries) =
              rw (at_block entries i b e) at there in
            elim split [
              | inl here ↦ inr (i, b, here, entry, differ)
              | inr later ↦ text_changes-IsOf entries c h later
            ]
        | inr (inr e) ↦
            let split : (c ≡ set_editor_value value) ⊎ ⊥ = rw (at_whole entries i b e) at there in
            elim split [ inl here ↦ inl here | inr never ↦ absurd never ]
      ]

  remote_changes-IsGiven :
      IsObject value → IsGiven current value (remote_changes current has_editor value)
  unfolding remote_changes
  remote_changes-IsGiven object = elim (Bool-cases (has_structural_change current value)) [
    | inl other ↦ rw other (record {
      each_block = λ id b h. inl (inl refl);
      no_more = λ id h. inl (inl refl);
      nothing_else = λ c h. elim h [ inl e ↦ inl e | inr never ↦ absurd never ];
    })
    | inr text_only ↦ rw text_only (record {
      each_block = λ id b h.
          let (a, there, kind, meta) = same_shape current value text_only id b h in
          elim (text_changes-IsDone value id a b there h) [
            | inl all ↦ inl all
            | inr set ↦ inr (a, there, kind, meta, set)
          ];
      no_more = λ id h. inr (no_other_block current value text_only id h);
      nothing_else = λ c h. text_changes-IsOf value c object h;
    })
  ]

-- A remote value that is not empty and has no id twice reaches a mounted editor whole: the changes
-- that it is given, after those before, are the value itself, or, where that is not among them, the
-- children of blocks of the value, of each block whose children differ from what the editor had and of
-- no other; the editor then had exactly the value's ids, with their types and metadata. The value is
-- the new baseline and the last remote value.
pub apply_remote_value-IsGiven :
    (e : Editor) (value : Doc) (s : NoteState)
    → is_empty_list value ≡ false
    → s.editor ≡ true
    → IsObject value
    → let s' = apply_remote_value e value s in
      ((cs : List EditorChange) × (s'.changes ≡ s.changes ++ cs)
        × IsGiven (e.get_editor_value s.changes) value cs)
      × (s'.prev_value ≡ value)
      × (s'.last_remote ≡ some value)
unfolding apply_remote_value
apply_remote_value-IsGiven e value s full mounted object =
    let current = e.get_editor_value s.changes in
    let has_editor = e.has_block_editor s.changes in
    rw (full, mounted)
      (
        (
          remote_changes current has_editor value,
          refl,
          remote_changes-IsGiven current has_editor value object,
        ),
        refl,
        refl,
      )
