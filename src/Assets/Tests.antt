-- ===== src/Assets/Tests.antt =====
-- web/src/actions/note-assets.ts on a store that holds one object and a service that knows one asset,
-- and the theorems applied to them.
use scylladb_grpc_microservi.Common.{
  String, false, Option, none, some, [], ◌∷◌, str_eq, ◌≡◌, refl, sym, ap, eq_refl, if◌then◌else◌,
  write, empty,
}
use scylladb_grpc_microservi.Auth.Cookies.{
  auth_cookie, is_host_name, refresh_token_cookie_name, apply_writes, action_auth_cookies,
}
use scylladb_grpc_microservi.Auth.Actions.{
  AuthResponse, AuthService, require_access_token_action, refresh_access_token_action,
}
use scylladb_grpc_microservi.Assets.{
  File, UploadForm, NoteAsset, S3Object, AssetUrl, Backends, Uploaded, World, note_asset_key,
  strip_prefix, normalize_s3_key, located, registered, with_client, stored, upload_file,
  upload_note_asset_action, download_note_asset_action,
}
use scylladb_grpc_microservi.Assets.Laws.{GetsPut, FindsRegistered, download-upload}
use scylladb_grpc_microservi.Assets.Editor.{
  upload_image, set_note_asset_context, image_props, upload_to_s3_with, id_text, storage_key,
}
use scylladb_grpc_microservi.Assets.Editor.Laws.{element_of, download-upload_image}

abbrev answer : AuthResponse
answer = record {
  access_token = "a1";
  refresh_token = "r1";
  user = record { user_id = "u1"; name = "Ada"; email = "ada@example.org" };
}

abbrev pub auth : AuthService
auth = record {
  on_login = λ email password. none;
  on_register = λ name email password. none;
  on_refresh = λ t. some answer;
  on_current_user = λ t. none;
}

abbrev object_at : String → Option (String × S3Object) → Option S3Object
object_at key none = none
object_at key (some (k, o)) = if str_eq k key then some o else none

abbrev url_of : String → Option NoteAsset → Option AssetUrl
url_of id none = none
url_of id (some a) =
    if str_eq a.asset_id id
    then some (record { download_url = "http://store/1"; s3_key = a.s3_key })
    else none

abbrev backends : Backends
backends = record {
  Bucket = Option (String × S3Object);
  put_object =
      λ key bytes t s. some (some (key, record { body = some bytes; content_type = some t }));
  get_object = object_at;
  Db = Option NoteAsset;
  register_note_asset = λ token a d. some (some a);
  get_asset_download_url = λ token id d. url_of id d;
  auth = auth;
  url_host = λ s. none;
  is_production = false;
  base64 = λ bytes. "AQI=";
  s3_bucket = "uploads";
}

abbrev pub file : File
file = record { name = "plan.png"; mime_type = "image/png"; bytes = 1 ∷ 2 ∷ [] }

abbrev form : UploadForm
form = record {
  file = some file;
  note_id = some "n1";
  workspace_id = some "w1";
  asset_id = some "a7";
}

abbrev start : World backends
start = record {
  session = record { jar = write "refresh_token" (auth_cookie false "r0" 60) empty; calls = [] };
  bucket = none;
  db = none;
}

abbrev uploaded : Uploaded
uploaded = record {
  asset_id = "a7";
  s3_key = "workspaces/w1/notes/n1/assets/a7_plan.png";
  src = "http://store/1";
}

program : Unit {0}
unfolding upload_note_asset_action upload_file stored with_client registered located note_asset_key
    strip_prefix normalize_s3_key require_access_token_action refresh_access_token_action
    refresh_token_cookie_name auth_cookie is_host_name apply_writes action_auth_cookies
program = tt

upload_succeeds : (upload_note_asset_action backends form start).1 ≡ some uploaded
unfolding program
upload_succeeds = refl

legacy_keys :
    (normalize_s3_key "uploads" "uploads/workspaces/k" ≡ "workspaces/k")
    × (normalize_s3_key "files" "/uploads/workspaces/k" ≡ "workspaces/k")
    × (normalize_s3_key "workspaces" "workspaces/k" ≡ "k")
unfolding program
legacy_keys = (refl, refl, refl)

unwrap {ℓ} : {A : Type ℓ} {x y : A} → some x ≡ some y → x ≡ y
unwrap h = cc

found : (a : NoteAsset) (l : AssetUrl) → url_of a.asset_id (some a) ≡ some l → l.s3_key ≡ a.s3_key
found a l k = sym (ap (λ (x : AssetUrl). x.s3_key) (unwrap (rw (eq_refl a.asset_id) at k)))

gets : GetsPut backends
gets key bytes t s s' h = rw⁻¹ (unwrap h) (rw (eq_refl key) refl)

finds : FindsRegistered backends
finds t u a d d' l h k = found a l (rw (sym (unwrap h)) at k)

abbrev result_url : AssetUrl
result_url = record { download_url = "http://store/1"; s3_key = uploaded.s3_key }

download-upload_example :
    (download_note_asset_action backends "a7" none
      (upload_note_asset_action backends form start).0).1
    ≡ some (record { base64 = "AQI="; mime_type = "image/png" })
unfolding program
download-upload_example =
    download-upload backends gets finds form file "n1" "w1" "a7" start uploaded "a1" result_url
      (record { a_file = refl; a_note = refl; a_workspace = refl; an_asset = refl }) refl refl refl
      refl refl

image_shown :
    (upload_image backends "a7" "blob:1" file
      (set_note_asset_context "n1" "w1"
        (record { current_note_id = none; current_workspace_id = none }))
      start).1.1
    ≡ false
unfolding program upload_image upload_to_s3_with image_props
image_shown = refl

download-upload_image_example :
    let (w', (props, is_error)) =
      upload_image backends "a7" "blob:1" file
        (set_note_asset_context "n1" "w1"
          (record { current_note_id = none; current_workspace_id = none }))
        start in
    (storage_key (element_of props) ≡ some (note_asset_key "w1" "n1" "a7" "plan.png"))
    × ((download_note_asset_action backends
          (id_text props.id)
          (storage_key (element_of props))
          w').1
        ≡ some (record { base64 = "AQI="; mime_type = "image/png" }))
unfolding program
download-upload_image_example =
    download-upload_image backends gets "a7" "blob:1" file "n1" "w1" start refl refl refl refl refl
      image_shown
