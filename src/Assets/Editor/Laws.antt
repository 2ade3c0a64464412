-- ===== src/Assets/Editor/Laws.antt =====
-- The images of a note: what an upload leaves in the document, and what the renderer makes of it.
use Prim.Native.String.{◌++◌}
use text.Mathlib.TextLemmas.{cons-append, nil-append}
use scylladb_grpc_microservi.Common.{
  String, true, false, Option, none, some, [], is_blank, is_none, or_else, Dict, begins,
  get-put_self, ◌≡◌, refl, ap, ◌∙◌, arith, inl, inr, Bool-cases,
}
use scylladb_grpc_microservi.Assets.{
  File, UploadForm, Backends, World, Uploaded, Downloaded, upload_note_asset_action,
  download_note_asset_action, note_asset_key, strip_prefix, fetch_object,
}
use scylladb_grpc_microservi.Assets.Laws.{
  GetsPut, IsFilled, under_workspaces, upload-IsUploaded, fetch_stored,
}
use scylladb_grpc_microservi.Assets.Editor.{
  AssetContext, set_note_asset_context, clear_note_asset_context, upload_form, ImageProps,
  upload_to_s3_with, upload_to_s3, image_props, upload_image, from_marker, ImageElement,
  storage_key, cache_key, ImageState, mount_image, run_effect, on_image, resolved_src, cached,
  direct_src_of, id_text, change_element, has_dot, file_format,
}

mount_image-cached :
    (e : ImageElement) (url : String) (urls : Dict String)
    → cached (cache_key e) urls ≡ some url
    → let s = mount_image e urls in
      (s.blob_url ≡ some url) × (s.loading ≡ false) × ((run_effect e s).downloads ≡ [])
unfolding mount_image run_effect
mount_image-cached e url urls h = elim (Bool-cases (is_none (cache_key e))) [
  | inl k ↦ rw (k, h) (refl, refl, refl)
  | inr k ↦ rw (k, h) (refl, refl, refl)
]

on_image-kept :
    (e : ImageElement) (key url : String) (d : Downloaded) (s : ImageState)
    → cache_key e ≡ some key
    → is_blank d.base64 ≡ false
    → ((on_image e url (some d) s).blob_url ≡ some url)
      × (cached (cache_key e) (on_image e url (some d) s).blob_urls ≡ some url)
unfolding on_image
on_image-kept e key url d s k full = rw (full, k) (refl, get-put_self key url s.blob_urls)

-- Once the download has ended, the image is no longer loading, however it ended; and if it gave
-- bytes, the object URL is shown, and an image with the same key that is mounted later shows it at
-- once, without a download.
pub on_image-shown :
    (e : ImageElement) (key url : String) (d : Downloaded) (urls : Dict String)
    → cache_key e ≡ some key
    → is_blank d.base64 ≡ false
    → let s = on_image e url (some d) (run_effect e (mount_image e urls)) in
      let again = mount_image e s.blob_urls in
      (resolved_src e s ≡ some url)
      × (again.blob_url ≡ some url)
      × (again.loading ≡ false)
      × ((run_effect e again).downloads ≡ [])
on_image-shown e key url d urls k full =
    let s = run_effect e (mount_image e urls) in
    let (shown, kept) = on_image-kept e key url d s k full in
    let (at_once, ready, still) =
      mount_image-cached e url (on_image e url (some d) s).blob_urls kept in
    (ap (λ o. or_else o (direct_src_of e.src)) shown, at_once, ready, still)

pub on_image-loading :
    (e : ImageElement) (url : String) (d : Option Downloaded) (s : ImageState)
    → (on_image e url d s).loading ≡ false
unfolding on_image
on_image-loading e url none s = refl
on_image-loading e url (some d) s = elim (Bool-cases (is_blank d.base64)) [
  | inl f ↦ rw f refl
  | inr f ↦ rw f refl
]

-- The element that the plugin makes of an upload.
abbrev pub element_of : ImageProps → ImageElement
element_of p = record { id = p.id; src = some p.src; s3_key = p.s3_key }

begins-append : (p t : String) → begins p (p ++ t) ≡ true
begins-append String.[] t = refl
begins-append (String.◌∷◌ c p) t = rw (cons-append c p t) (ground (arith, begins-append p t))

from_marker-key : (t : String) → from_marker ("workspaces/" ++ t) ≡ some ("workspaces/" ++ t)
unfolding from_marker
from_marker-key t = rw (cons-append "w" "orkspaces/" t, begins-append "orkspaces/" t) refl

module _ (b : Backends) where
  open b use {put_object, base64, s3_bucket}

  download-key :
      (id key : String) (w : World b)
      → is_blank key ≡ false
      → (download_note_asset_action b id (some key) w).1 ≡ fetch_object b (some key) w
  unfolding download_note_asset_action
  download-key id key w full = rw (download_note_asset_action, full) refl

  shown_of :
      (w' : World b) (o : Option Uploaded) (key url : String) (file : File) (d : Downloaded)
      → ((up : Uploaded)
          → o ≡ some up
          → (up.s3_key ≡ key) × (fetch_object b (some key) w' ≡ some d))
      → from_marker key ≡ some key
      → is_blank key ≡ false
      → is_none o ≡ false
      → let e = element_of (image_props b url file o) in
        (storage_key e ≡ some key)
        × ((download_note_asset_action b (id_text e.id) (storage_key e) w').1 ≡ some d)
  unfolding image_props
  shown_of w' none key url file d found marked full h = cc
  shown_of w' (some up) key url file d found marked full h =
      let (keyed, fetched) = found up refl in
      rw (keyed, full, marked, full) (refl, download-key up.asset_id key w' full ∙ fetched)

  key_marked :
      (ws n i name : String)
      → (from_marker (note_asset_key ws n i name) ≡ some (note_asset_key ws n i name))
        × (is_blank (note_asset_key ws n i name) ≡ false)
  unfolding note_asset_key
  key_marked ws n i name = (from_marker-key _, (under_workspaces _).1)

  uploaded_found :
      GetsPut b
      → (f : UploadForm) (file : File) (n ws i : String) (w : World b) (up : Uploaded)
      → IsFilled b f file n ws i
      → is_blank file.mime_type ≡ false
      → strip_prefix (s3_bucket ++ "/") (note_asset_key ws n i file.name) ≡ none
      → (upload_note_asset_action b f w).1 ≡ some up
      → let key = note_asset_key ws n i file.name in
        (up.s3_key ≡ key)
        × (fetch_object b (some key) (upload_note_asset_action b f w).0
            ≡ some (record { base64 = base64 file.bytes; mime_type = file.mime_type }))
  uploaded_found gets f file n ws i w up filled typed apart h =
      let w' = (upload_note_asset_action b f w).0 in
      let key = note_asset_key ws n i file.name in
      let u = upload-IsUploaded b f file n ws i w up filled h in
      let full = (key_marked ws n i file.name).1 in
      let fetched =
        fetch_stored b ws i n file.name w' file.bytes file.mime_type apart
          (gets key file.bytes file.mime_type w.bucket w'.bucket u.put) typed in
      (u.same_key, rw full at fetched)

  -- An image that has been uploaded can be shown: if the store gives back what was put, then after
  -- an upload that shows no error the download that the renderer asks for, by the id and the storage
  -- key of the element, is the base64 text of the file's bytes with its type, whatever the session,
  -- provided that the file has a type and its key does not lie under the name of the bucket.
  pub download-upload_image :
      GetsPut b
      → (uuid object_url : String) (file : File) (n ws : String) (w : World b) → is_blank n ≡ false
      → is_blank ws ≡ false
      → is_blank uuid ≡ false
      → is_blank file.mime_type ≡ false
      → strip_prefix (s3_bucket ++ "/") (note_asset_key ws n uuid file.name) ≡ none
      → let context =
          set_note_asset_context n ws
            (record { current_note_id = none; current_workspace_id = none }) in
        let (w', (props, is_error)) = upload_image b uuid object_url file context w in
        is_error ≡ false
        → (storage_key (element_of props) ≡ some (note_asset_key ws n uuid file.name))
          × ((download_note_asset_action b (id_text props.id) (storage_key (element_of props)) w').1
              ≡ some (record { base64 = base64 file.bytes; mime_type = file.mime_type }))
  unfolding upload_image upload_to_s3_with
  download-upload_image gets uuid object_url file n ws w fn fws fu typed apart h =
      let form = upload_form file n ws uuid in
      let key = note_asset_key ws n uuid file.name in
      let filled : IsFilled b form file n ws uuid = record {
        a_file = refl;
        a_note = rw fn refl;
        a_workspace = rw fws refl;
        an_asset = rw fu refl;
      } in
      let same : upload_to_s3 b uuid file
            (set_note_asset_context n ws
              (record { current_note_id = none; current_workspace_id = none }))
            w
          ≡ upload_note_asset_action b form w =
        rw (fn, fws) refl in
      let (marked, full) = key_marked ws n uuid file.name in
      let shown =
        shown_of (upload_note_asset_action b form w).0 (upload_note_asset_action b form w).1 key
          object_url file (record { base64 = base64 file.bytes; mime_type = file.mime_type })
          (λ up e. uploaded_found gets form file n ws uuid w up filled typed apart e) marked full in
      rw same (shown (rw same at h))

  -- Without a note and a workspace an upload stores nothing: the image points into the page, and an
  -- error is shown.
  pub upload_image-no_context :
      (uuid object_url : String) (file : File) (c : AssetContext) (w : World b)
      → let (w', (props, is_error)) =
          upload_image b uuid object_url file (clear_note_asset_context c) w in
        (w' ≡ w) × (props.src ≡ object_url) × (is_error ≡ true)
  unfolding upload_image upload_to_s3_with image_props
  upload_image-no_context uuid object_url file c w = (refl, refl, refl)

-- An image that gets another key, of which the object URL is in the cache, shows what it showed.
pub change_element-shown :
    (e : ImageElement) (url shown : String) (s : ImageState)
    → cached (cache_key e) s.blob_urls ≡ some url
    → s.blob_url ≡ some shown
    → resolved_src e (change_element false e s) ≡ some shown
unfolding change_element run_effect
change_element-shown e url shown s there old = elim (Bool-cases (is_none (cache_key e))) [
  | inl k ↦ rw k (ap (λ o. or_else o (direct_src_of e.src)) old)
  | inr k ↦ rw (k, there) (ap (λ o. or_else o (direct_src_of e.src)) old)
]

dot-append : (s : String) → "." ++ s ≡ String.◌∷◌ "." s
dot-append s = cons-append "." String.[] s ∙ ap (String.◌∷◌ ".") (nil-append s)

dotted : (name extension : String) → has_dot (name ++ ("." ++ extension)) ≡ true
dotted String.[] extension = rw (nil-append, dot-append extension) refl
dotted (String.◌∷◌ c s) extension = rw cons-append (ground (arith, dotted s extension))

-- The format of a file is what follows the last dot of its name.
pub file_format-append :
    (name extension : String)
    → has_dot extension ≡ false
    → file_format (name ++ ("." ++ extension)) ≡ extension
unfolding file_format
file_format-append String.[] extension h = rw (nil-append, dot-append extension) (ground arith)
file_format-append (String.◌∷◌ c s) extension h =
    rw (cons-append, dotted s extension) (file_format-append s extension h)
