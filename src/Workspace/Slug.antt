-- ===== src/Workspace/Slug.antt =====
-- web/src/modules/workspace/api/use-workspaces.ts: `buildWorkspaceSlug`. `toLowerCase` is a
-- parameter, since it reads the tables of Unicode.
pub mod Laws
use Prim.Native.Char.{Char, code}
use scylladb_grpc_microservi.Common.{
  ℕ, String, Bool, true, false, ◌&&◌, ◌||◌, not, leb, ltb, ◌==◌, if◌then◌else◌,
}

-- `[a-z0-9]`
unfoldable pub is_slug_char : Char → Bool
is_slug_char c =
    (leb b'a' (code c) && leb (code c) b'z') || (leb b'0' (code c) && leb (code c) b'9')

unfoldable pub is_dash : Char → Bool
is_dash c = code c == b'-'

-- The white space and line ends that `trim` takes away.
unfoldable pub is_space : Char → Bool
is_space c =
    (leb 9 (code c) && leb (code c) 13)
    || code c == 32
    || code c == 160
    || code c == 5760
    || (leb 8192 (code c) && leb (code c) 8202)
    || code c == 8232
    || code c == 8233
    || code c == 8239
    || code c == 8287
    || code c == 12288
    || code c == 65279

abbrev pub is_nil : String → Bool
is_nil String.[] = true
is_nil (String.◌∷◌ c s) = false

unfoldable pub drop_left : (Char → Bool) → String → String
drop_left p String.[] = ""
drop_left p (String.◌∷◌ c s) = if p c then drop_left p s else String.◌∷◌ c s

unfoldable pub drop_right : (Char → Bool) → String → String
drop_right p String.[] = ""
drop_right p (String.◌∷◌ c s) =
    if is_nil (drop_right p s) && p c then "" else String.◌∷◌ c (drop_right p s)

-- `.replace(/[^a-z0-9]+/g, "-")`; the first argument tells whether a run has begun.
unfoldable pub replace_runs : Bool → String → String
replace_runs b String.[] = ""
replace_runs b (String.◌∷◌ c s) =
    let after = replace_runs false s in
    let within = replace_runs true s in
    if is_slug_char c then String.◌∷◌ c after else if b then within else String.◌∷◌ "-" within

abbrev pub trim : String → String
trim s = drop_right is_space (drop_left is_space s)

-- `.replace(/^-+|-+$/g, "")`
abbrev pub strip_dashes : String → String
strip_dashes s = drop_right is_dash (drop_left is_dash s)

abbrev pub or_workspace : String → String
or_workspace s = if is_nil s then "workspace" else s

unfoldable pub build_workspace_slug : (String → String) → String → String
unfolding is_slug_char is_dash is_space drop_left drop_right replace_runs
build_workspace_slug to_lower_case name =
    or_workspace (strip_dashes (replace_runs false (to_lower_case (trim name))))
