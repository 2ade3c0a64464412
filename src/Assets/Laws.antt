-- ===== src/Assets/Laws.antt =====
-- web/src/actions/note-assets.ts: keys, uploads and downloads.
use Prim.Native.String.{◌++◌}
use text.Mathlib.TextLemmas.{cons-append}
use scylladb_grpc_microservi.Common.{
  ℕ, String, false, Option, none, some, List, is_blank, truthy, ◌≡◌, inl, inr, refl, ap, ◌∙◌,
  Bool-cases, eq_iff,
}
use scylladb_grpc_microservi.Auth.Actions.{
  ActionResult, returned, thrown, require_access_token_action,
}
use scylladb_grpc_microservi.Assets.{
  File, UploadForm, NoteAsset, AssetUrl, Backends, Uploaded, strip_prefix, strip_uploads,
  normalize_s3_key, note_asset_key, new_asset, World, located, registered, with_client, stored,
  upload_file, upload_note_asset_action, read_object, fetch_object, found_key, lookup_key,
  download_note_asset_action,
}

not_blank : (s : String) → (s ≡ "" → ⊥) → is_blank s ≡ false
not_blank s n = elim (Bool-cases (is_blank s)) [
  | inl e ↦ absurd (n ((eq_iff s "").0 e))
  | inr e ↦ e
]

pub under_workspaces :
    (t : String)
    → (strip_uploads ("workspaces/" ++ t) ≡ "workspaces/" ++ t)
      × (is_blank ("workspaces/" ++ t) ≡ false)
unfolding strip_uploads strip_prefix
under_workspaces t = rw (cons-append "w" "orkspaces/" t) (refl, not_blank _ (λ e. cc))

-- A key that the upload makes is left alone by `normalizeS3Key`, unless it lies under the name of
-- the bucket.
pub normalize_s3_key-note_asset_key :
    (bucket w n i name : String)
    → strip_prefix (bucket ++ "/") (note_asset_key w n i name) ≡ none
    → normalize_s3_key bucket (note_asset_key w n i name) ≡ note_asset_key w n i name
unfolding normalize_s3_key note_asset_key
normalize_s3_key-note_asset_key bucket w n i name h = rw h (under_workspaces _).0

module _ (b : Backends) where
  open b use {
    Bucket, put_object, get_object, Db, register_note_asset, get_asset_download_url, auth, url_host,
    is_production, base64, s3_bucket,
  }

  -- The store gives back what was put under a key.
  abbrev pub GetsPut : Type 0
  GetsPut =
      (key : String) (bytes : List ℕ) (t : String) (s s' : Bucket)
      → put_object key bytes t s ≡ some s'
      → get_object key s' ≡ some (record { body = some bytes; content_type = some t })

  -- The service answers for a registered asset, if it answers, with the key that was registered.
  abbrev pub FindsRegistered : Type 0
  FindsRegistered =
      (t u : String) (a : NoteAsset) (d d' : Db) (l : AssetUrl)
      → register_note_asset t a d ≡ some d'
      → get_asset_download_url u a.asset_id d' ≡ some l
      → l.s3_key ≡ a.s3_key

  -- What a finished upload has done.
  pub record IsUploaded (a : NoteAsset) (o : Option Bucket) (w' : World b) (up : Uploaded)
      : Type 0 where
    pub put : o ≡ some w'.bucket
    pub token : String
    pub before : Db
    pub known : register_note_asset token a before ≡ some w'.db
    pub same_id : up.asset_id ≡ a.asset_id
    pub same_key : up.s3_key ≡ a.s3_key

  located-same :
      (a : NoteAsset) (w : World b) (o : Option AssetUrl) (up : Uploaded)
      → (located b a w o).1 ≡ some up
      → (up.asset_id ≡ a.asset_id) × (up.s3_key ≡ a.s3_key)
  unfolding located
  located-same a w none up h = cc
  located-same a w (some l) up h = (cc, cc)

  pub located-world : (a : NoteAsset) (w : World b) (o : Option AssetUrl) → (located b a w o).0 ≡ w
  unfolding located
  located-world a w none = refl
  located-world a w (some l) = refl

  registered-IsUploaded :
      (token : String) (a : NoteAsset) (w : World b) (o : Option Db) (up : Uploaded)
      → register_note_asset token a w.db ≡ o
      → (registered b token a w o).1 ≡ some up
      → IsUploaded a (some w.bucket) (registered b token a w o).0 up
  unfolding registered
  registered-IsUploaded token a w none up e h = cc
  registered-IsUploaded token a w (some db) up e h =
      let o = get_asset_download_url token a.asset_id db in
      let same = located-same a (record w { db = db }) o up h in
      rw (located-world a (record w { db = db }) o) (record {
        put = refl;
        token = token;
        before = w.db;
        known = e;
        same_id = same.0;
        same_key = same.1;
      })

  with_client-IsUploaded :
      (a : NoteAsset) (w : World b) (r : ActionResult String) (up : Uploaded)
      → (with_client b a w r).1 ≡ some up
      → IsUploaded a (some w.bucket) (with_client b a w r).0 up
  unfolding with_client
  with_client-IsUploaded a w thrown up h = cc
  with_client-IsUploaded a w (returned token) up h =
      registered-IsUploaded token a w (register_note_asset token a w.db) up refl h

  stored-IsUploaded :
      (a : NoteAsset) (w : World b) (o : Option Bucket) (up : Uploaded)
      → (stored b a w o).1 ≡ some up
      → IsUploaded a o (stored b a w o).0 up
  unfolding stored
  stored-IsUploaded a w none up h = cc
  stored-IsUploaded a w (some bucket) up h =
      let (session, r) = require_access_token_action auth url_host is_production w.session in
      with_client-IsUploaded a (record w { bucket = bucket; session = session }) r up h

  pub fetch_stored :
      (w i n name : String) (w' : World b) (bytes : List ℕ) (mime_type : String)
      → strip_prefix (s3_bucket ++ "/") (note_asset_key w n i name) ≡ none
      → get_object (note_asset_key w n i name) w'.bucket
        ≡ some (record { body = some bytes; content_type = some mime_type })
      → is_blank mime_type ≡ false
      → fetch_object b (truthy (some (note_asset_key w n i name))) w'
        ≡ some (record { base64 = base64 bytes; mime_type = mime_type })
  unfolding fetch_object read_object note_asset_key
  fetch_stored w i n name w' bytes mime_type apart there typed =
      rw
        (
          (under_workspaces _).1,
          fetch_object,
          normalize_s3_key-note_asset_key s3_bucket w n i name apart,
          there,
          typed,
        )
        refl

  -- The ids of a form that are all there.
  pub record IsFilled (f : UploadForm) (file : File) (n w i : String) : Type 0 where
    pub a_file : f.file ≡ some file
    pub a_note : truthy f.note_id ≡ some n
    pub a_workspace : truthy f.workspace_id ≡ some w
    pub an_asset : truthy f.asset_id ≡ some i

  pub upload-stored :
      (f : UploadForm) (file : File) (n ws i : String) (w : World b)
      → IsFilled f file n ws i
      → upload_note_asset_action b f w
        ≡ stored b
            (new_asset file n ws i)
            w
            (put_object (note_asset_key ws n i file.name) file.bytes file.mime_type w.bucket)
  unfolding upload_note_asset_action upload_file
  upload-stored f file n ws i w c = rw (c.a_file, c.a_note, c.a_workspace, c.an_asset) refl

  pub upload-IsUploaded :
      (f : UploadForm) (file : File) (n ws i : String) (w : World b) (up : Uploaded)
      → IsFilled f file n ws i
      → (upload_note_asset_action b f w).1 ≡ some up
      → IsUploaded
          (new_asset file n ws i)
          (put_object (note_asset_key ws n i file.name) file.bytes file.mime_type w.bucket)
          (upload_note_asset_action b f w).0
          up
  upload-IsUploaded f file n ws i w up c h =
      let e = upload-stored f file n ws i w c in
      rw e (
        stored-IsUploaded (new_asset file n ws i) w
          (put_object (note_asset_key ws n i file.name) file.bytes file.mime_type w.bucket) up
          (rw e at h))

  found_key-eq :
      (w : World b) (id token : String) (r : ActionResult String) (l : AssetUrl)
      → r ≡ returned token
      → get_asset_download_url token id w.db ≡ some l
      → found_key b r id w ≡ some l.s3_key
  unfolding found_key
  found_key-eq w id token r l e answer = rw (e, found_key, answer) refl

  download_found :
      (w : World b) (id key token : String) (l : AssetUrl)
      → (require_access_token_action auth url_host is_production w.session).1 ≡ returned token
      → get_asset_download_url token id w.db ≡ some l
      → l.s3_key ≡ key
      → (download_note_asset_action b id none w).1
        ≡ fetch_object b (truthy (some key)) (record w {
          session = (require_access_token_action auth url_host is_production w.session).0;
        })
  unfolding download_note_asset_action lookup_key
  download_found w id key token l session answer e =
      let (s', r) = require_access_token_action auth url_host is_production w.session in
      ap (λ k. fetch_object b (truthy k) (record w { session = s' }))
        (found_key-eq w id token r l session answer ∙ ap some e)

  -- An upload that succeeds can be downloaded: if the store gives back what was put and the service
  -- finds what was registered, then a download by the asset's id, by a session that still gets a token
  -- and whose lookup is answered, is the base64 text of the file's bytes with its type, provided that
  -- the file has a type and its key does not lie under the name of the bucket.
  pub download-upload :
      GetsPut
      → FindsRegistered
      → (f : UploadForm) (file : File) (n ws i : String) (w : World b) (up : Uploaded)
        (token : String) (l : AssetUrl)
      → IsFilled f file n ws i
      → is_blank file.mime_type ≡ false
      → strip_prefix (s3_bucket ++ "/") (note_asset_key ws n i file.name) ≡ none
      → let (w', result) = upload_note_asset_action b f w in
        result ≡ some up
        → (require_access_token_action auth url_host is_production w'.session).1 ≡ returned token
        → get_asset_download_url token up.asset_id w'.db ≡ some l
        → (download_note_asset_action b up.asset_id none w').1
          ≡ some (record { base64 = base64 file.bytes; mime_type = file.mime_type })
  download-upload gets finds f file n ws i w up token l filled typed apart h session answer =
      let w' = (upload_note_asset_action b f w).0 in
      let a = new_asset file n ws i in
      let u = upload-IsUploaded f file n ws i w up filled h in
      let found = finds u.token token a u.before w'.db l u.known (rw⁻¹ u.same_id answer) in
      download_found w' up.asset_id a.s3_key token l session answer found
      ∙ fetch_stored ws i n file.name
          (record w' {
            session = (require_access_token_action auth url_host is_production w'.session).0;
          })
          file.bytes file.mime_type apart
          (gets a.s3_key file.bytes file.mime_type w.bucket w'.bucket u.put) typed
