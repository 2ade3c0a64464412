-- ===== src/Assets/Canvas.antt =====
-- web/src/modules/whiteboard/components/whiteboard-canvas.tsx: `resolve` of the asset store, with its
-- cache of object URLs and the set of fetches that have begun. A URL has no line ends.
pub mod Laws
use Prim.Native.String.{◌++◌}
use scylladb_grpc_microservi.Common.{
  String, Bool, true, false, ◌||◌, Option, none, some, List, [], ◌∷◌, ◌++◌ as append, is_blank,
  is_some, truthy, has, Dict, get, put, if◌then◌else◌,
}
use scylladb_grpc_microservi.Assets.{strip_prefix, Downloaded}

abbrev pub starts_with : (prefix s : String) → Bool
starts_with prefix s = is_some (strip_prefix prefix s)

abbrev pub matched : Option String → Option String
matched none = none
matched (some rest) = if is_blank rest then none else some ("workspaces/" ++ rest)

-- The match of `/\/uploads\/(workspaces\/.+)/` at the start of the text.
unfoldable pub match_here : String → Option String
match_here s = matched (strip_prefix "/uploads/workspaces/" s)

abbrev pub first_of : Option String → Option String → Option String
first_of none o = o
first_of (some s) o = some s

-- `src.match(…)?.[1]`: the leftmost match.
unfoldable pub match_key : String → Option String
match_key String.[] = none
match_key (String.◌∷◌ c s) = first_of (match_here (String.◌∷◌ c s)) (match_key s)

-- `fetches` are the calls of `downloadAssetAction`, with the asset, in order.
pub record CanvasAssets : Type 0 where
  pub blob_urls : Dict String
  pub pending_fetches : List String
  pub fetches : List (String × String)

abbrev pub is_fetchable : String → Bool
is_fetchable src = starts_with "http" src || starts_with "/uploads/" src

unfoldable pub begin_fetch : String → Option String → CanvasAssets → CanvasAssets
begin_fetch id none s = record s { pending_fetches = id ∷ s.pending_fetches }
begin_fetch id (some key) s = record s {
  pending_fetches = id ∷ s.pending_fetches;
  fetches = append s.fetches ((id, key) ∷ []);
}

unfoldable pub resolve_uncached : String → String → CanvasAssets → CanvasAssets
resolve_uncached id src s = if has id s.pending_fetches then s else begin_fetch id (match_key src) s

-- `resolve(asset)`: what it answers, and what it starts.
unfoldable pub resolve : String → Option String → CanvasAssets → CanvasAssets × Option String
resolve id none s = (s, none)
resolve id (some src) s =
    if is_blank src
    then (s, some src)
    else if is_fetchable src
    then elim (truthy (get id s.blob_urls)) [
      | some url ↦ (s, some url)
      | none ↦ (resolve_uncached id src s, some src)
    ]
    else (s, some src)

-- A download ends; `url` is the object URL that the browser makes of its bytes.
unfoldable pub on_downloaded : String → String → Option Downloaded → CanvasAssets → CanvasAssets
on_downloaded id url none s = s
on_downloaded id url (some d) s =
    if is_blank d.base64 || is_blank d.mime_type
    then s
    else record s { blob_urls = put id url s.blob_urls }
