-- ===== src/Assets/Boards.antt =====
-- web/src/actions/whiteboard-assets.ts: storing and fetching the files of boards. The object store, the
-- whiteboard service and base64 are parameters; `none` stands for an exception of a call.
pub mod Laws
pub mod RoundTrip
use Prim.Native.String.{◌++◌}
use scylladb_grpc_microservi.Common.{ℕ, String, Bool, Option, none, some, List, truthy, length}
use scylladb_grpc_microservi.Auth.Actions.{
  AuthService, ActionState, ActionResult, returned, thrown, require_access_token_action,
}
use scylladb_grpc_microservi.Assets.{File, S3Object, Downloaded, or_value}

pub record BoardForm : Type 0 where
  pub file : Option File
  pub board_id : Option String
  pub workspace_id : Option String
  pub asset_id : Option String

pub record BoardAsset : Type 0 where
  pub asset_id : String
  pub board_id : String
  pub workspace_id : String
  pub name : String
  pub mime_type : String
  pub size_bytes : ℕ
  pub s3_key : String

pub record BoardBackends : Type 1 where
  pub Bucket : Type 0
  pub put_object : (key : String) → List ℕ → (content_type : String) → Bucket → Option Bucket
  pub get_object : (key : String) → Bucket → Option S3Object
  pub Db : Type 0
  pub register_asset : (token : String) → BoardAsset → Db → Option Db
  pub auth : AuthService
  pub url_host : String → Option String
  pub is_production : Bool
  pub base64 : List ℕ → String
  pub s3_bucket : String
  pub s3_public_url : String

pub record BoardUpload : Type 0 where
  pub s3_key : String
  pub src : String

unfoldable pub board_asset_key : (workspace_id board_id asset_id name : String) → String
board_asset_key workspace_id board_id asset_id name =
    "workspaces/"
    ++ (workspace_id ++ ("/boards/" ++ (board_id ++ ("/assets/" ++ (asset_id ++ ("_" ++ name))))))

abbrev pub board_asset : File → (board_id workspace_id asset_id : String) → BoardAsset
board_asset file board_id workspace_id asset_id = record {
  asset_id = asset_id;
  board_id = board_id;
  workspace_id = workspace_id;
  name = file.name;
  mime_type = file.mime_type;
  size_bytes = length file.bytes;
  s3_key = board_asset_key workspace_id board_id asset_id file.name;
}

-- `${S3_PUBLIC_URL}/${S3_BUCKET}/${s3Key}`
abbrev pub direct_src : (public_url bucket key : String) → String
direct_src public_url bucket key = public_url ++ ("/" ++ (bucket ++ ("/" ++ key)))

module _ (b : BoardBackends) where
  open b use {
    Bucket, put_object, get_object, Db, register_asset, auth, url_host, is_production, base64,
    s3_bucket, s3_public_url,
  }

  pub record BoardWorld : Type 0 where
    pub session : ActionState
    pub bucket : Bucket
    pub db : Db

  unfoldable pub board_registered :
      BoardAsset → BoardWorld → Option Db → BoardWorld × Option BoardUpload
  board_registered a w none = (w, none)
  board_registered a w (some db) = (
    record w { db = db },
    some (record { s3_key = a.s3_key; src = direct_src s3_public_url s3_bucket a.s3_key }),
  )

  -- `getWhiteboardServerClient` and the call of its client.
  unfoldable pub with_board_client :
      BoardAsset → BoardWorld → ActionResult String → BoardWorld × Option BoardUpload
  with_board_client a w thrown = (w, none)
  with_board_client a w (returned token) = board_registered a w (register_asset token a w.db)

  unfoldable pub board_stored :
      BoardAsset → BoardWorld → Option Bucket → BoardWorld × Option BoardUpload
  board_stored a w none = (w, none)
  board_stored a w (some bucket) =
      let (session, token) = require_access_token_action auth url_host is_production w.session in
      with_board_client a (record w { bucket = bucket; session = session }) token

  unfoldable pub upload_board_file :
      Option File
      → Option String
      → Option String
      → Option String
      → BoardWorld
      → BoardWorld × Option BoardUpload
  upload_board_file (some file) (some board_id) (some workspace_id) (some asset_id) w =
      let a = board_asset file board_id workspace_id asset_id in
      board_stored a w (put_object a.s3_key file.bytes file.mime_type w.bucket)
  upload_board_file _ _ _ _ w = (w, none)

  -- `uploadAssetAction`; `none` stands for `success: false`.
  unfoldable pub upload_asset_action : BoardForm → BoardWorld → BoardWorld × Option BoardUpload
  upload_asset_action f w =
      upload_board_file f.file (truthy f.board_id) (truthy f.workspace_id) (truthy f.asset_id) w

  unfoldable pub read_board_object : Option S3Object → Option Downloaded
  read_board_object none = none
  read_board_object (some o) = elim o.body [
    | none ↦ none
    | some bytes ↦ some (record {
      base64 = base64 bytes;
      mime_type = or_value (truthy o.content_type) "application/octet-stream";
    })
  ]

  -- `downloadAssetAction`; it reads no session.
  unfoldable pub download_asset_action : String → BoardWorld → Option Downloaded
  download_asset_action key w = read_board_object (get_object key w.bucket)
