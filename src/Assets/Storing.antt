-- ===== src/Assets/Storing.antt =====
-- web/src/actions/note-assets.ts: the order in which an upload stores and registers.
use scylladb_grpc_microservi.Common.{String, Option, none, some, ◌≡◌, ◌⊎◌, inl, inr, refl, sym, ap}
use scylladb_grpc_microservi.Auth.Actions.{
  ActionResult, returned, thrown, require_access_token_action,
}
use scylladb_grpc_microservi.Assets.{
  File, UploadForm, NoteAsset, Backends, note_asset_key, new_asset, World, registered, with_client,
  stored, upload_note_asset_action,
}
use scylladb_grpc_microservi.Assets.Laws.{IsFilled, located-world, upload-stored}

module _ (b : Backends) where
  open b use {
    Bucket, put_object, Db, register_note_asset, get_asset_download_url, auth, url_host,
    is_production,
  }

  registered-bucket :
      (token : String) (a : NoteAsset) (w : World b) (o : Option Db)
      → (registered b token a w o).0.bucket ≡ w.bucket
  unfolding registered
  registered-bucket token a w none = refl
  registered-bucket token a w (some db) =
      ap (λ (v : World b). v.bucket)
        (located-world b a (record w { db = db }) (get_asset_download_url token a.asset_id db))

  with_client-bucket :
      (a : NoteAsset) (w : World b) (r : ActionResult String)
      → (with_client b a w r).0.bucket ≡ w.bucket
  unfolding with_client
  with_client-bucket a w thrown = refl
  with_client-bucket a w (returned token) =
      registered-bucket token a w (register_note_asset token a w.db)

  stored-cases :
      (a : NoteAsset) (w : World b) (o : Option Bucket)
      → (stored b a w o ≡ (w, none)) ⊎ (o ≡ some (stored b a w o).0.bucket)
  unfolding stored
  stored-cases a w none = inl refl
  stored-cases a w (some bucket) =
      let (session, r) = require_access_token_action auth url_host is_production w.session in
      inr (ap some (sym (with_client-bucket a (record w { bucket = bucket; session = session }) r)))

  -- An upload of a filled form either fails and changes nothing, or has put the file's bytes in the
  -- store under the key that it makes; so an asset is registered only after its file is stored.
  pub upload-stores_first :
      (f : UploadForm) (file : File) (n ws i : String) (w : World b)
      → IsFilled b f file n ws i
      → (upload_note_asset_action b f w ≡ (w, none))
        ⊎ (put_object (note_asset_key ws n i file.name) file.bytes file.mime_type w.bucket
            ≡ some (upload_note_asset_action b f w).0.bucket)
  upload-stores_first f file n ws i w c = rw (upload-stored b f file n ws i w c) (
      stored-cases (new_asset file n ws i) w
        (put_object (note_asset_key ws n i file.name) file.bytes file.mime_type w.bucket))
