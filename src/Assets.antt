-- ===== src/Assets.antt =====
-- web/src/actions/note-assets.ts: storing and fetching the files of notes. The object store, the notes
-- service and base64 are parameters; `none` stands for an exception of a call.
pub mod Laws
pub mod Storing
pub mod Boards
pub mod Canvas
pub mod Editor
mod Tests
mod BoardTests
use Prim.Native.Char.{Char, code}
use Prim.Native.String.{◌++◌}
use scylladb_grpc_microservi.Common.{
  ℕ, String, Bool, true, false, ◌||◌, Option, none, some, List, is_blank, truthy, length, ◌==◌,
  if◌then◌else◌,
}
use scylladb_grpc_microservi.Auth.Actions.{
  AuthService, ActionState, ActionResult, returned, thrown, require_access_token_action,
}

pub record File : Type 0 where
  pub name : String
  pub mime_type : String
  pub bytes : List ℕ

pub record UploadForm : Type 0 where
  pub file : Option File
  pub note_id : Option String
  pub workspace_id : Option String
  pub asset_id : Option String

pub record NoteAsset : Type 0 where
  pub asset_id : String
  pub note_id : String
  pub name : String
  pub mime_type : String
  pub size_bytes : ℕ
  pub s3_key : String

pub record S3Object : Type 0 where
  pub body : Option (List ℕ)
  pub content_type : Option String

pub record AssetUrl : Type 0 where
  pub download_url : String
  pub s3_key : String

pub record Backends : Type 1 where
  pub Bucket : Type 0
  pub put_object : (key : String) → List ℕ → (content_type : String) → Bucket → Option Bucket
  pub get_object : (key : String) → Bucket → Option S3Object
  pub Db : Type 0
  pub register_note_asset : (token : String) → NoteAsset → Db → Option Db
  pub get_asset_download_url : (token asset_id : String) → Db → Option AssetUrl
  pub auth : AuthService
  pub url_host : String → Option String
  pub is_production : Bool
  pub base64 : List ℕ → String
  pub s3_bucket : String

pub record Uploaded : Type 0 where
  pub asset_id : String
  pub s3_key : String
  pub src : String

pub record Downloaded : Type 0 where
  pub base64 : String
  pub mime_type : String

-- What remains of `value` behind `prefix`, if it starts with it.
unfoldable pub strip_prefix : (prefix value : String) → Option String
strip_prefix String.[] value = some value
strip_prefix (String.◌∷◌ c p) String.[] = none
strip_prefix (String.◌∷◌ c p) (String.◌∷◌ d s) =
    let rest = strip_prefix p s in if code c == code d then rest else none

abbrev pub or_value : Option String → String → String
or_value none d = d
or_value (some s) d = s

-- `value.replace(/^\/?uploads\//, "")`
unfoldable pub strip_uploads : String → String
strip_uploads value =
    or_value (strip_prefix "/uploads/" value) (or_value (strip_prefix "uploads/" value) value)

unfoldable pub normalize_s3_key : (bucket value : String) → String
unfolding strip_uploads
normalize_s3_key bucket value = or_value (strip_prefix (bucket ++ "/") value) (strip_uploads value)

unfoldable pub note_asset_key : (workspace_id note_id asset_id name : String) → String
note_asset_key workspace_id note_id asset_id name =
    "workspaces/"
    ++ (workspace_id ++ ("/notes/" ++ (note_id ++ ("/assets/" ++ (asset_id ++ ("_" ++ name))))))

abbrev pub new_asset : File → (note_id workspace_id asset_id : String) → NoteAsset
new_asset file note_id workspace_id asset_id = record {
  asset_id = asset_id;
  note_id = note_id;
  name = file.name;
  mime_type = file.mime_type;
  size_bytes = length file.bytes;
  s3_key = note_asset_key workspace_id note_id asset_id file.name;
}

module _ (b : Backends) where
  open b use {
    Bucket, put_object, get_object, Db, register_note_asset, get_asset_download_url, auth, url_host,
    is_production, base64, s3_bucket,
  }

  pub record World : Type 0 where
    pub session : ActionState
    pub bucket : Bucket
    pub db : Db

  unfoldable pub located : NoteAsset → World → Option AssetUrl → World × Option Uploaded
  located a w none = (w, none)
  located a w (some l) =
      (w, some (record { asset_id = a.asset_id; s3_key = a.s3_key; src = l.download_url }))

  unfoldable pub registered :
      (token : String) → NoteAsset → World → Option Db → World × Option Uploaded
  registered token a w none = (w, none)
  registered token a w (some db) =
      located a (record w { db = db }) (get_asset_download_url token a.asset_id db)

  -- `getNotesServerClient` and the two calls of its client.
  unfoldable pub with_client : NoteAsset → World → ActionResult String → World × Option Uploaded
  with_client a w thrown = (w, none)
  with_client a w (returned token) = registered token a w (register_note_asset token a w.db)

  unfoldable pub stored : NoteAsset → World → Option Bucket → World × Option Uploaded
  stored a w none = (w, none)
  stored a w (some bucket) =
      let (session, token) = require_access_token_action auth url_host is_production w.session in
      with_client a (record w { bucket = bucket; session = session }) token

  unfoldable pub upload_file :
      Option File → Option String → Option String → Option String → World → World × Option Uploaded
  upload_file (some file) (some note_id) (some workspace_id) (some asset_id) w =
      let a = new_asset file note_id workspace_id asset_id in
      stored a w (put_object a.s3_key file.bytes file.mime_type w.bucket)
  upload_file _ _ _ _ w = (w, none)

  -- `uploadNoteAssetAction`; `none` stands for `success: false`.
  unfoldable pub upload_note_asset_action : UploadForm → World → World × Option Uploaded
  upload_note_asset_action f w =
      upload_file f.file (truthy f.note_id) (truthy f.workspace_id) (truthy f.asset_id) w

  unfoldable pub read_object : Option S3Object → Option Downloaded
  read_object none = none
  read_object (some o) = elim o.body [
    | none ↦ none
    | some bytes ↦ some (record {
      base64 = base64 bytes;
      mime_type = or_value (truthy o.content_type) "application/octet-stream";
    })
  ]

  unfoldable pub fetch_object : Option String → World → Option Downloaded
  fetch_object none w = none
  fetch_object (some key) w = read_object (get_object (normalize_s3_key s3_bucket key) w.bucket)

  unfoldable pub found_key : ActionResult String → String → World → Option String
  found_key thrown asset_id w = none
  found_key (returned token) asset_id w = elim (get_asset_download_url token asset_id w.db) [
    | none ↦ none
    | some l ↦ some l.s3_key
  ]

  -- The inner `try` that looks the key up.
  unfoldable pub lookup_key : String → World → World × Option String
  lookup_key asset_id w =
      let (session, r) = require_access_token_action auth url_host is_production w.session in
      (record w { session = session }, found_key r asset_id w)

  unfoldable pub download_note_asset_action :
      String → Option String → World → World × Option Downloaded
  download_note_asset_action asset_id legacy_s3_key w = elim (truthy legacy_s3_key) [
    | none ↦ let (w', key) = lookup_key asset_id w in (w', fetch_object (truthy key) w')
    | some key ↦ (w, fetch_object (some key) w)
  ]
