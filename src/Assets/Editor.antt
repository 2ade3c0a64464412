-- ===== src/Assets/Editor.antt =====
-- web/src/modules/notes/api/note-asset-context.ts, the uploads of
-- web/src/components/editor/plugins/index.ts and web/src/components/editor/asset-image-renderer.tsx.
-- Random ids, object URLs and the upload and download actions' backends are parameters.
pub mod Laws
use Prim.Native.Char.{code}
use Prim.Native.String.{◌++◌}
use scylladb_grpc_microservi.Common.{
  ℕ, String, Bool, true, false, not, ◌&&◌, ◌||◌, ◌==◌, Option, none, some, List, [], ◌∷◌,
  ◌++◌ as append, is_blank, is_none, is_some, truthy, or_else, Dict, get, put, length,
  if◌then◌else◌, begins,
}
use scylladb_grpc_microservi.Assets.{
  File, UploadForm, Backends, World, Uploaded, Downloaded, upload_note_asset_action,
}

-- The module's two variables.
pub record AssetContext : Type 0 where
  pub current_note_id : Option String
  pub current_workspace_id : Option String

abbrev pub set_note_asset_context : (note_id workspace_id : String) → AssetContext → AssetContext
set_note_asset_context note_id workspace_id c = record {
  current_note_id = some note_id;
  current_workspace_id = some workspace_id;
}

abbrev pub clear_note_asset_context : AssetContext → AssetContext
clear_note_asset_context c = record { current_note_id = none; current_workspace_id = none }

abbrev pub upload_form : File → (note_id workspace_id uuid : String) → UploadForm
upload_form file note_id workspace_id uuid = record {
  file = some file;
  note_id = some note_id;
  workspace_id = some workspace_id;
  asset_id = some uuid;
}

pub record ImageProps : Type 0 where
  pub id : Option String
  pub src : String
  pub alt : String
  pub size : ℕ
  pub s3_key : Option String

pub record FileProps : Type 0 where
  pub id : String
  pub src : String
  pub name : String
  pub size : ℕ
  pub format : String

abbrev pub has_dot : String → Bool
has_dot String.[] = false
has_dot (String.◌∷◌ c s) = code c == b'.' || has_dot s

-- `name.split(".").pop()`
unfoldable pub file_format : String → String
file_format String.[] = ""
file_format (String.◌∷◌ c s) =
    let later = file_format s in
    if has_dot s then later else if code c == b'.' then s else String.◌∷◌ c s

module _ (b : Backends) where
  -- `none` stands for the error that is thrown.
  unfoldable pub upload_to_s3_with :
      Option String → Option String → (uuid : String) → File → World b → World b × Option Uploaded
  upload_to_s3_with (some note_id) (some workspace_id) uuid file w =
      upload_note_asset_action b (upload_form file note_id workspace_id uuid) w
  upload_to_s3_with _ _ uuid file w = (w, none)

  abbrev pub upload_to_s3 :
      (uuid : String) → File → AssetContext → World b → World b × Option Uploaded
  upload_to_s3 uuid file c w =
      upload_to_s3_with (truthy c.current_note_id) (truthy c.current_workspace_id) uuid file w

  unfoldable pub image_props : (object_url : String) → File → Option Uploaded → ImageProps
  image_props object_url file (some up) = record {
    id = some up.asset_id;
    src = up.src;
    alt = file.name;
    size = length file.bytes;
    s3_key = some up.s3_key;
  }
  image_props object_url file none = record {
    id = some file.name;
    src = object_url;
    alt = file.name;
    size = length file.bytes;
    s3_key = none;
  }

  unfoldable pub file_props : (object_url : String) → File → Option Uploaded → FileProps
  file_props object_url file (some up) = record {
    id = up.asset_id;
    src = up.src;
    name = file.name;
    size = length file.bytes;
    format = file_format file.name;
  }
  file_props object_url file none = record {
    id = file.name;
    src = object_url;
    name = file.name;
    size = length file.bytes;
    format = file_format file.name;
  }

  -- `upload` of the image plugin; the Boolean tells whether an error is shown.
  unfoldable pub upload_image :
      (uuid object_url : String) → File → AssetContext → World b → World b × (ImageProps × Bool)
  upload_image uuid object_url file c w =
      let (w', result) = upload_to_s3 uuid file c w in
      (w', (image_props object_url file result, is_none result))

  -- `upload` of the file plugin.
  unfoldable pub upload_attachment :
      (uuid object_url : String) → File → AssetContext → World b → World b × (FileProps × Bool)
  upload_attachment uuid object_url file c w =
      let (w', result) = upload_to_s3 uuid file c w in
      (w', (file_props object_url file result, is_none result))

-- The text from the first "workspaces/" on.
unfoldable pub from_marker : String → Option String
from_marker String.[] = none
from_marker (String.◌∷◌ c s) =
    if begins "workspaces/" (String.◌∷◌ c s) then some (String.◌∷◌ c s) else from_marker s

-- `normalizeS3Key` of the renderer.
abbrev pub normalize_src_key : Option String → Option String
normalize_src_key none = none
normalize_src_key (some src) = if is_blank src then none else from_marker src

pub record ImageElement : Type 0 where
  pub id : Option String
  pub src : Option String
  pub s3_key : Option String

abbrev pub storage_key_with : Option String → Option String → Option String
storage_key_with none src = normalize_src_key src
storage_key_with (some s3_key) src = normalize_src_key (some s3_key)

-- `storageKey`
abbrev pub storage_key : ImageElement → Option String
storage_key e = storage_key_with (truthy e.s3_key) e.src

-- `key`, as its test for truth reads it.
abbrev pub cache_key : ImageElement → Option String
cache_key e = truthy (or_else e.id (or_else (storage_key e) e.src))

-- The shared cache of object URLs, the state of one image, and the downloads begun by it.
pub record ImageState : Type 0 where
  pub blob_urls : Dict String
  pub blob_url : Option String
  pub loading : Bool
  pub downloads : List (String × Option String)

abbrev pub id_text : Option String → String
id_text none = ""
id_text (some s) = s

abbrev pub cached : Option String → Dict String → Option String
cached none urls = none
cached (some key) urls = get key urls

-- The initial values of the state.
unfoldable pub mount_image : ImageElement → Dict String → ImageState
mount_image e urls = record {
  blob_urls = urls;
  blob_url = cached (cache_key e) urls;
  loading = is_some (cache_key e) && is_none (cached (cache_key e) urls);
  downloads = [];
}

-- The effect, which runs after the first rendering and when `key` changes.
unfoldable pub run_effect : ImageElement → ImageState → ImageState
run_effect e s =
    if is_none (cache_key e)
    then s
    else if is_some (cached (cache_key e) s.blob_urls)
    then s
    else record s { downloads = append s.downloads ((id_text e.id, storage_key e) ∷ []) }

abbrev pub keep_url : Option String → String → Dict String → Dict String
keep_url none url urls = urls
keep_url (some key) url urls = put key url urls

-- The download ends, and the image has not gone meanwhile; `url` is the object URL of the bytes.
unfoldable pub on_image :
    ImageElement → (url : String) → Option Downloaded → ImageState → ImageState
on_image e url none s = record s { loading = false }
on_image e url (some d) s = if is_blank d.base64 then record s { loading = false } else record s {
  blob_urls = keep_url (cache_key e) url s.blob_urls;
  blob_url = some url;
  loading = false;
}

-- The props change: if the key does, the effect runs again.
unfoldable pub change_element : (same_key : Bool) → ImageElement → ImageState → ImageState
unfolding run_effect
change_element same_key e s = if same_key then s else run_effect e s

abbrev pub direct_src_of : Option String → Option String
direct_src_of src = if is_none (normalize_src_key src) then truthy src else none

-- `resolvedSrc`
abbrev pub resolved_src : ImageElement → ImageState → Option String
resolved_src e s = or_else s.blob_url (direct_src_of e.src)
