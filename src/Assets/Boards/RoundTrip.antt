-- ===== src/Assets/Boards/RoundTrip.antt =====
-- web/src/actions/whiteboard-assets.ts: what a finished upload has stored.
use scylladb_grpc_microservi.Common.{
  ℕ, String, false, Option, none, some, List, is_blank, truthy, ◌≡◌, refl,
}
use scylladb_grpc_microservi.Auth.Actions.{
  ActionResult, returned, thrown, require_access_token_action,
}
use scylladb_grpc_microservi.Assets.{File}
use scylladb_grpc_microservi.Assets.Canvas.{match_key}
use scylladb_grpc_microservi.Assets.Boards.{
  BoardForm, BoardAsset, BoardBackends, BoardUpload, board_asset_key, board_asset, direct_src,
  BoardWorld, board_registered, with_board_client, board_stored, upload_board_file,
  upload_asset_action, read_board_object, download_asset_action,
}
use scylladb_grpc_microservi.Assets.Boards.Laws.{has_uploads, match_key-direct_src}

module _ (b : BoardBackends) where
  open b use {
    Bucket, put_object, get_object, Db, register_asset, auth, url_host, is_production, base64,
    s3_bucket, s3_public_url,
  }

  -- The store gives back what was put under a key.
  abbrev pub BoardGetsPut : Type 0
  BoardGetsPut =
      (key : String) (bytes : List ℕ) (t : String) (s s' : Bucket)
      → put_object key bytes t s ≡ some s'
      → get_object key s' ≡ some (record { body = some bytes; content_type = some t })

  abbrev pub upload_of : BoardAsset → BoardUpload
  upload_of a = record { s3_key = a.s3_key; src = direct_src s3_public_url s3_bucket a.s3_key }

  abbrev IsStored :
      BoardAsset → Option Bucket → BoardWorld b × Option BoardUpload → BoardUpload → Type 0
  IsStored a o r up = (o ≡ some r.0.bucket) × (up ≡ upload_of a)

  registered-IsStored :
      (a : BoardAsset) (w : BoardWorld b) (o : Option Db) (up : BoardUpload)
      → (board_registered b a w o).1 ≡ some up
      → IsStored a (some w.bucket) (board_registered b a w o) up
  unfolding board_registered
  registered-IsStored a w none up h = cc
  registered-IsStored a w (some db) up h = (refl, cc)

  with_client-IsStored :
      (a : BoardAsset) (w : BoardWorld b) (r : ActionResult String) (up : BoardUpload)
      → (with_board_client b a w r).1 ≡ some up
      → IsStored a (some w.bucket) (with_board_client b a w r) up
  unfolding with_board_client
  with_client-IsStored a w thrown up h = cc
  with_client-IsStored a w (returned token) up h =
      registered-IsStored a w (register_asset token a w.db) up h

  board_stored-IsStored :
      (a : BoardAsset) (w : BoardWorld b) (o : Option Bucket) (up : BoardUpload)
      → (board_stored b a w o).1 ≡ some up
      → IsStored a o (board_stored b a w o) up
  unfolding board_stored
  board_stored-IsStored a w none up h = cc
  board_stored-IsStored a w (some bucket) up h =
      let (session, r) = require_access_token_action auth url_host is_production w.session in
      with_client-IsStored a (record w { bucket = bucket; session = session }) r up h

  -- A form whose four entries are there.
  pub record IsFilled (f : BoardForm) (file : File) (n w i : String) : Type 0 where
    pub a_file : f.file ≡ some file
    pub a_board : truthy f.board_id ≡ some n
    pub a_workspace : truthy f.workspace_id ≡ some w
    pub an_asset : truthy f.asset_id ≡ some i

  upload-board_stored :
      (f : BoardForm) (file : File) (n ws i : String) (w : BoardWorld b)
      → IsFilled f file n ws i
      → upload_asset_action b f w
        ≡ board_stored b
            (board_asset file n ws i)
            w
            (put_object (board_asset_key ws n i file.name) file.bytes file.mime_type w.bucket)
  unfolding upload_asset_action upload_board_file
  upload-board_stored f file n ws i w c = rw (c.a_file, c.a_board, c.a_workspace, c.an_asset) refl

  download-put :
      (key : String) (file : File) (w : BoardWorld b)
      → get_object key w.bucket
        ≡ some (record { body = some file.bytes; content_type = some file.mime_type })
      → is_blank file.mime_type ≡ false
      → download_asset_action b key w
        ≡ some (record { base64 = base64 file.bytes; mime_type = file.mime_type })
  unfolding download_asset_action read_board_object
  download-put key file w there typed = rw (there, typed) refl

  -- The canvas shows what was uploaded: if the store gives back what was put, the bucket is
  -- "uploads", the public url has no "/uploads" in it and the file has a type, then after an upload
  -- that succeeds the canvas finds the key in the src, and its download is the base64 text of the
  -- file's bytes with its type.
  pub canvas_download-upload :
      BoardGetsPut
      → s3_bucket ≡ "uploads"
      → has_uploads s3_public_url ≡ false
      → (f : BoardForm) (file : File) (n ws i : String) (w : BoardWorld b) (up : BoardUpload)
      → IsFilled f file n ws i
      → is_blank file.mime_type ≡ false
      → let (w', result) = upload_asset_action b f w in
        result ≡ some up
        → (match_key up.src ≡ some up.s3_key)
          × (download_asset_action b up.s3_key w'
              ≡ some (record { base64 = base64 file.bytes; mime_type = file.mime_type }))
  canvas_download-upload gets named apart f file n ws i w up filled typed h =
      let a = board_asset file n ws i in
      let start = upload-board_stored f file n ws i w filled in
      let put = put_object (board_asset_key ws n i file.name) file.bytes file.mime_type w.bucket in
      let stored = board_stored-IsStored a w put up (rw start at h) in
      rw (start, stored.1, named)
        (
          match_key-direct_src s3_public_url ws n i file.name apart,
          download-put a.s3_key file (board_stored b a w put).0
              (gets a.s3_key file.bytes file.mime_type w.bucket _ stored.0) typed,
        )
