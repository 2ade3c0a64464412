-- ===== src/Workspace/Slug/Laws.antt =====
-- web/src/modules/workspace/api/use-workspaces.ts: the form of slugs.
use Prim.Native.Char.{Char}
use text.Mathlib.TextEquality.{Char-path}
use scylladb_grpc_microservi.Common.{
  String, Bool, true, false, ◌&&◌, ◌||◌, not, if◌then◌else◌, ◌≡◌, refl, arith, Bool-cases, inl, inr,
}
use scylladb_grpc_microservi.Workspace.Slug.{
  is_slug_char, is_dash, is_space, is_nil, drop_left, drop_right, replace_runs, trim, strip_dashes,
  or_workspace, build_workspace_slug,
}

-- Words of lower-case letters and digits, joined by single dashes. The first argument tells whether
-- a word must begin here.
unfoldable pub is_slug : Bool → String → Bool
is_slug b String.[] = not b
is_slug b (String.◌∷◌ c s) =
    if is_slug_char c then is_slug false s else is_dash c && not b && is_slug true s

-- The same with a dash allowed at the end.
is_run : Bool → String → Bool
is_run b String.[] = true
is_run b (String.◌∷◌ c s) =
    if is_slug_char c then is_run false s else is_dash c && not b && is_run true s

dash_out : (is_slug_char "-" ≡ false) × (is_dash "-" ≡ true)
unfolding is_slug_char is_dash
dash_out = (refl, refl)

replace_runs-is_run : (b : Bool) (s : String) → is_run b (replace_runs b s) ≡ true
unfolding is_run replace_runs
replace_runs-is_run b String.[] = refl
replace_runs-is_run b (String.◌∷◌ c s) =
    ground (arith, dash_out, replace_runs-is_run false s, replace_runs-is_run true s)

is_run-weaken : (b : Bool) (s : String) → is_run true s ≡ true → is_run b s ≡ true
unfolding is_run
is_run-weaken b String.[] h = refl
is_run-weaken b (String.◌∷◌ c s) h = ground arith

slug_char_ne_dash : (c : Char) → is_slug_char c ≡ true → is_dash c ≡ false
unfolding is_slug_char is_dash
slug_char_ne_dash c h = ground arith

slug_char_ne_space : (c : Char) → is_slug_char c ≡ true → is_space c ≡ false
unfolding is_slug_char is_space
slug_char_ne_space c h = ground arith

drop_left-is_run :
    (b : Bool) (s : String) → is_run b s ≡ true → is_run true (drop_left is_dash s) ≡ true
unfolding is_run drop_left
drop_left-is_run b String.[] h = refl
drop_left-is_run b (String.◌∷◌ c s) h = ground (arith, slug_char_ne_dash c, drop_left-is_run true s)

abbrev keep_unless_last : Char → String → String
keep_unless_last c r = if is_nil r && is_dash c then "" else String.◌∷◌ c r

-- The end of a run of words without its dash.
ended :
    (b : Bool) (c : Char) (r : String)
    → (if is_slug_char c
        then is_nil r || is_slug false r
        else is_dash c && not b && (is_nil r || is_slug true r))
      ≡ true
    → is_nil (keep_unless_last c r) || is_slug b (keep_unless_last c r) ≡ true
unfolding is_slug
ended b c String.[] h = elim (Bool-cases (is_dash c)) [
  | inl dash ↦ rw dash refl
  | inr word ↦ rw (word, is_slug) (ground (arith, slug_char_ne_dash c))
]
ended b c (String.◌∷◌ d r) h = ground arith

drop_right-is_slug :
    (b : Bool) (s : String)
    → is_run b s ≡ true
    → is_nil (drop_right is_dash s) || is_slug b (drop_right is_dash s) ≡ true
unfolding is_run drop_right is_slug
drop_right-is_slug b String.[] h = refl
drop_right-is_slug b (String.◌∷◌ c s) h =
    ended b c (drop_right is_dash s)
      (ground (arith, drop_right-is_slug false s, drop_right-is_slug true s))

or_workspace-is_slug :
    (s : String) → is_nil s || is_slug true s ≡ true → is_slug true (or_workspace s) ≡ true
unfolding is_slug is_slug_char
or_workspace-is_slug String.[] h = refl
or_workspace-is_slug (String.◌∷◌ c s) h = h

-- Every slug is made of words of lower-case letters and digits joined by single dashes, with at
-- least one word, whatever the name and however lower case is made.
pub build_workspace_slug-is_slug :
    (to_lower_case : String → String) (name : String)
    → is_slug true (build_workspace_slug to_lower_case name) ≡ true
unfolding build_workspace_slug
build_workspace_slug-is_slug to_lower_case name =
    let text = replace_runs false (to_lower_case (trim name)) in
    or_workspace-is_slug (strip_dashes text) (
      drop_right-is_slug true (drop_left is_dash text)
        (drop_left-is_run false text (replace_runs-is_run false (to_lower_case (trim name)))))

drop_left_none :
    (p : Char → Bool) (s : String)
    → ((c : Char) → is_slug_char c ≡ true → p c ≡ false)
    → is_slug true s ≡ true
    → drop_left p s ≡ s
unfolding drop_left is_slug
drop_left_none p String.[] none_of h = refl
drop_left_none p (String.◌∷◌ c s) none_of h = ground (arith, none_of c)

kept :
    (p : Char → Bool) (b : Bool) (c : Char) (s : String)
    → ((d : Char) → is_slug_char d ≡ true → p d ≡ false)
    → is_slug b (String.◌∷◌ c s) ≡ true
    → (is_nil s && p c) ≡ false
unfolding is_slug
kept p b c String.[] none_of h = ground (arith, none_of c)
kept p b c (String.◌∷◌ d s) none_of h = refl

word_tail :
    (b : Bool) (c : Char) (s : String)
    → is_slug_char c ≡ true
    → is_slug b (String.◌∷◌ c s) ≡ true
    → is_slug false s ≡ true
unfolding is_slug
word_tail b c s w h = ground arith

dash_tail :
    (b : Bool) (c : Char) (s : String)
    → is_slug_char c ≡ false
    → is_slug b (String.◌∷◌ c s) ≡ true
    → (c ≡ "-") × (b ≡ false) × (is_slug true s ≡ true)
unfolding is_slug is_dash
dash_tail b c s d h = (Char-path c "-" (ground arith), ground arith, ground arith)

drop_right_none :
    (p : Char → Bool) (b : Bool) (s : String)
    → ((c : Char) → is_slug_char c ≡ true → p c ≡ false)
    → is_slug b s ≡ true
    → drop_right p s ≡ s
unfolding drop_right
drop_right_none p b String.[] none_of h = refl
drop_right_none p b (String.◌∷◌ c s) none_of h = elim (Bool-cases (is_slug_char c)) [
  | inl w ↦
      let rest = drop_right_none p false s none_of (word_tail b c s w h) in
      rw (rest, kept p b c s none_of h) refl
  | inr d ↦
      let rest = drop_right_none p true s none_of (dash_tail b c s d h).2 in
      rw (rest, kept p b c s none_of h) refl
]

replace_runs_none : (b : Bool) (s : String) → is_slug b s ≡ true → replace_runs b s ≡ s
unfolding replace_runs is_slug
replace_runs_none b String.[] h = refl
replace_runs_none b (String.◌∷◌ c s) h = elim (Bool-cases (is_slug_char c)) [
  | inl w ↦ rw (w, replace_runs_none false s (word_tail b c s w h)) refl
  | inr d ↦
      let (dash, begun, rest) = dash_tail b c s d h in
      rw (d, begun, replace_runs_none true s rest, dash) refl
]

weaker : (s : String) → is_slug true s ≡ true → is_slug false s ≡ true
unfolding is_slug
weaker String.[] h = refl
weaker (String.◌∷◌ c s) h = ground arith

or_workspace_none : (s : String) → is_slug true s ≡ true → or_workspace s ≡ s
unfolding is_slug
or_workspace_none String.[] h = cc
or_workspace_none (String.◌∷◌ c s) h = refl

-- A well-formed slug that lower case leaves alone is its own slug; so making a slug twice is making
-- it once.
pub build_workspace_slug_fixed :
    (to_lower_case : String → String) (s : String)
    → is_slug true s ≡ true
    → to_lower_case s ≡ s
    → build_workspace_slug to_lower_case s ≡ s
unfolding build_workspace_slug
build_workspace_slug_fixed to_lower_case s h lower =
    rw
      (
        drop_left_none is_space s slug_char_ne_space h,
        drop_right_none is_space true s slug_char_ne_space h,
        lower,
        replace_runs_none false s (weaker s h),
        drop_left_none is_dash s slug_char_ne_dash h,
        drop_right_none is_dash true s slug_char_ne_dash h,
      )
      (or_workspace_none s h)
