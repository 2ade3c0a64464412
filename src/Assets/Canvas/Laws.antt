-- ===== src/Assets/Canvas/Laws.antt =====
-- web/src/modules/whiteboard/components/whiteboard-canvas.tsx: how often a file is fetched.
use scylladb_grpc_microservi.Common.{
  ℕ, ◌+◌, ◌≤◌, String, true, false, Option, none, some, List, [], ◌∷◌, ◌++◌, is_blank, truthy, has,
  get, put, str_eq, if◌then◌else◌, ◌≡◌, refl, ap, eq_iff, arith, inl, inr, Bool-cases, Option-cases,
  get-put_self,
}
use scylladb_grpc_microservi.Assets.{Downloaded}
use scylladb_grpc_microservi.Assets.Canvas.{
  match_key, CanvasAssets, is_fetchable, begin_fetch, resolve_uncached, resolve, on_downloaded,
}

-- What happens to the asset store: the editor asks for a file, or a download ends.
pub data AssetEvent : Type 0 where
  asked : String → Option String → AssetEvent
  downloaded : String → String → Option Downloaded → AssetEvent

abbrev pub on_event : AssetEvent → CanvasAssets → CanvasAssets
on_event (asked id src) s = (resolve id src s).0
on_event (downloaded id url d) s = on_downloaded id url d s

abbrev pub on_events : List AssetEvent → CanvasAssets → CanvasAssets
on_events [] s = s
on_events (e ∷ es) s = on_events es (on_event e s)

abbrev pub opened : CanvasAssets
opened = record { blob_urls = []; pending_fetches = []; fetches = [] }

-- How many downloads of the asset have begun.
unfoldable pub fetched : String → List (String × String) → ℕ
fetched id [] = 0
fetched id ((j, key) ∷ fs) = (if str_eq j id then 1 else 0) + fetched id fs

fetched-append :
    (id : String) (fs gs : List (String × String))
    → fetched id (fs ++ gs) ≡ fetched id fs + fetched id gs
unfolding fetched
fetched-append id [] gs = omega arith
fetched-append id ((j, key) ∷ fs) gs = omega (arith, fetched-append id fs gs)

-- Only pending assets are fetched, and once.
abbrev IsOnce : CanvasAssets → Type 0
IsOnce s = (id : String) → fetched id s.fetches ≤ (if has id s.pending_fetches then 1 else 0)

begin_fetch-IsOnce :
    (id : String) (key : Option String) (s : CanvasAssets)
    → has id s.pending_fetches ≡ false
    → IsOnce s
    → IsOnce (begin_fetch id key s)
unfolding begin_fetch fetched
begin_fetch-IsOnce id none s new once j = ground (arith, once j)
begin_fetch-IsOnce id (some key) s new once j =
    ground (arith, once j, fetched-append j s.fetches ((id, key) ∷ []), eq_iff id j)

resolve_uncached-IsOnce :
    (id src : String) (s : CanvasAssets) → IsOnce s → IsOnce (resolve_uncached id src s)
unfolding resolve_uncached
resolve_uncached-IsOnce id src s once = elim (Bool-cases (has id s.pending_fetches)) [
  | inl e ↦ rw (resolve_uncached, e) once
  | inr e ↦ rw (resolve_uncached, e) (begin_fetch-IsOnce id (match_key src) s e once)
]

resolve-IsOnce :
    (id : String) (src : Option String) (s : CanvasAssets) → IsOnce s → IsOnce (resolve id src s).0
unfolding resolve
resolve-IsOnce id none s once j = once j
resolve-IsOnce id (some src) s once j = elim (Option-cases (truthy (get id s.blob_urls))) [
  | inl e ↦ rw e (ground (arith, once j, resolve_uncached-IsOnce id src s once j))
  | inr (url, e) ↦ rw e (ground (arith, once j))
]

on_downloaded-IsOnce :
    (id url : String) (d : Option Downloaded) (s : CanvasAssets)
    → IsOnce s
    → IsOnce (on_downloaded id url d s)
unfolding on_downloaded
on_downloaded-IsOnce id url none s once j = once j
on_downloaded-IsOnce id url (some d) s once j = ground (arith, once j)

on_events-IsOnce : (es : List AssetEvent) (s : CanvasAssets) → IsOnce s → IsOnce (on_events es s)
on_events-IsOnce [] s once = once
on_events-IsOnce (asked id src ∷ es) s once =
    on_events-IsOnce es (resolve id src s).0 (resolve-IsOnce id src s once)
on_events-IsOnce (downloaded id url d ∷ es) s once =
    on_events-IsOnce es (on_downloaded id url d s) (on_downloaded-IsOnce id url d s once)

-- However often the editor asks for a file and however the downloads end, at most one download of the
-- file begins while the canvas is open.
pub events-fetch_once :
    (es : List AssetEvent) (id : String) → fetched id (on_events es opened).fetches ≤ 1
unfolding fetched
events-fetch_once es id = ground (arith, on_events-IsOnce es opened (λ j. omega arith) id)

-- An asset whose download has failed is pending for ever: asking for it again starts nothing and
-- answers the src as it is.
pub resolve-pending :
    (id src : String) (s : CanvasAssets)
    → has id s.pending_fetches ≡ true
    → get id s.blob_urls ≡ none
    → resolve id (some src) s ≡ (s, some src)
unfolding resolve resolve_uncached
resolve-pending id src s h n = rw (n, h) (ground arith)

on_downloaded-content :
    (id url : String) (d : Downloaded) (s : CanvasAssets)
    → is_blank d.base64 ≡ false
    → is_blank d.mime_type ≡ false
    → on_downloaded id url (some d) s ≡ record s { blob_urls = put id url s.blob_urls }
unfolding on_downloaded
on_downloaded-content id url d s content typed = rw (content, typed) refl

-- When the download of an asset has ended with content, the next request is answered with the object
-- URL and starts nothing.
pub resolve-downloaded :
    (id src url : String) (d : Downloaded) (s : CanvasAssets)
    → is_fetchable src ≡ true
    → is_blank src ≡ false
    → is_blank url ≡ false
    → is_blank d.base64 ≡ false
    → is_blank d.mime_type ≡ false
    → let s' = on_downloaded id url (some d) s in resolve id (some src) s' ≡ (s', some url)
unfolding resolve
resolve-downloaded id src url d s web full named content typed =
    let kept = on_downloaded-content id url d s content typed in
    rw (kept, full, web, get-put_self id url s.blob_urls, named) (ap (λ x. (x, some url)) kept)
