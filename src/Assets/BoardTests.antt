-- ===== src/Assets/BoardTests.antt =====
-- web/src/actions/whiteboard-assets.ts and the canvas on a store that holds one object, and the
-- theorems applied to them.
use scylladb_grpc_microservi.Common.{
  ◌≤◌, String, false, Option, none, some, List, [], ◌∷◌, str_eq, ◌≡◌, refl, eq_refl, if◌then◌else◌,
  write, empty, get,
}
use scylladb_grpc_microservi.Auth.Cookies.{
  auth_cookie, is_host_name, refresh_token_cookie_name, apply_writes, action_auth_cookies,
}
use scylladb_grpc_microservi.Auth.Actions.{require_access_token_action, refresh_access_token_action}
use scylladb_grpc_microservi.Assets.{S3Object, strip_prefix}
use scylladb_grpc_microservi.Assets.Boards.{
  BoardForm, BoardAsset, BoardBackends, BoardUpload, BoardWorld, board_asset_key, board_registered,
  with_board_client, board_stored, upload_board_file, upload_asset_action, download_asset_action,
}
use scylladb_grpc_microservi.Assets.Boards.Laws.{has_uploads}
use scylladb_grpc_microservi.Assets.Boards.RoundTrip.{BoardGetsPut, canvas_download-upload}
use scylladb_grpc_microservi.Assets.Canvas.{
  match_here, match_key, resolve, resolve_uncached, begin_fetch, on_downloaded,
}
use scylladb_grpc_microservi.Assets.Canvas.Laws.{
  AssetEvent, asked, downloaded, on_events, opened, fetched, events-fetch_once,
}
use scylladb_grpc_microservi.Assets.Tests.{auth, file}

abbrev object_at : String → Option (String × S3Object) → Option S3Object
object_at key none = none
object_at key (some (k, o)) = if str_eq k key then some o else none

abbrev backends : BoardBackends
backends = record {
  Bucket = Option (String × S3Object);
  put_object =
      λ key bytes t s. some (some (key, record { body = some bytes; content_type = some t }));
  get_object = object_at;
  Db = Option BoardAsset;
  register_asset = λ token a d. some (some a);
  auth = auth;
  url_host = λ s. none;
  is_production = false;
  base64 = λ bytes. "AQI=";
  s3_bucket = "uploads";
  s3_public_url = "http://localhost:9000";
}

abbrev form : BoardForm
form = record {
  file = some file;
  board_id = some "b1";
  workspace_id = some "w1";
  asset_id = some "a7";
}

abbrev start : BoardWorld backends
start = record {
  session = record { jar = write "refresh_token" (auth_cookie false "r0" 60) empty; calls = [] };
  bucket = none;
  db = none;
}

abbrev uploaded : BoardUpload
uploaded = record {
  s3_key = "workspaces/w1/boards/b1/assets/a7_plan.png";
  src = "http://localhost:9000/uploads/workspaces/w1/boards/b1/assets/a7_plan.png";
}

unwrap {ℓ} : {A : Type ℓ} {x y : A} → some x ≡ some y → x ≡ y
unwrap h = cc

gets : BoardGetsPut backends
gets key bytes t s s' h = rw⁻¹ (unwrap h) (rw (eq_refl key) refl)

upload_succeeds : (upload_asset_action backends form start).1 ≡ some uploaded
unfolding upload_asset_action upload_board_file board_stored with_board_client board_registered
    board_asset_key require_access_token_action refresh_access_token_action
    refresh_token_cookie_name auth_cookie is_host_name apply_writes action_auth_cookies
upload_succeeds = refl

apart : has_uploads "http://localhost:9000" ≡ false
unfolding has_uploads strip_prefix
apart = refl

canvas_download-upload_example :
    (match_key uploaded.src ≡ some uploaded.s3_key)
    × (download_asset_action backends uploaded.s3_key (upload_asset_action backends form start).0
        ≡ some (record { base64 = "AQI="; mime_type = "image/png" }))
canvas_download-upload_example =
    canvas_download-upload backends gets refl apart form file "b1" "w1" "a7" start uploaded
      (record { a_file = refl; a_board = refl; a_workspace = refl; an_asset = refl }) refl
      upload_succeeds

-- The first download fails.
abbrev asked_twice : List AssetEvent
asked_twice =
    asked "a7" (some uploaded.src)
    ∷ (downloaded "a7" "blob:1" none ∷ (asked "a7" (some uploaded.src) ∷ []))

one_fetch : (on_events asked_twice opened).fetches ≡ ("a7", uploaded.s3_key) ∷ []
unfolding resolve resolve_uncached begin_fetch match_key match_here strip_prefix get on_downloaded
one_fetch = refl

events-fetch_once_example : fetched "a7" (on_events asked_twice opened).fetches ≤ 1
events-fetch_once_example = events-fetch_once asked_twice "a7"
