-- ===== src/Ingestion/Files.antt =====
-- `receive_file` of modules/ingestion/public.py: a stored upload becomes a document and a run that
-- parses it. `metadata` gives the JSON text of what is known of the upload.
pub mod Uploaded
use bbd_os.Prelude.{
  append, first_characters, ℕ, String, Option, none, some, Bool, true, false, List, [], ◌∷◌, ◌++◌,
  not, if◌then◌else◌, str_eq, find, http, runtime_error, Result, ok, err, ◌>>=◌, ◌>>◌, guard,
  require,
}
use bbd_os.Database.{
  Db, Source, Batch, Run, Document, get_source, is_active, put_source, new_event, no_payload,
}
use bbd_os.Documents.{
  Content, uploaded_document, add_uploaded_document, has_document_identity,
  lock_source_for_document,
}
use bbd_os.Ingestion.{
  NewIds, is_batch, is_run_of, new_batch, new_run, new_stage, touch, source_inactive,
}

pub record Uploads : Type 0 where
  pub content : Content
  pub metadata : String → String → ℕ → String → String

pub record UploadedFile : Type 0 where
  pub document_id : ℕ
  pub filename : String
  pub mime_type : String
  pub raw_uri : String
  pub size : ℕ
  pub digest : String

abbrev pub file_key : String → String
file_key digest = append "file:" digest

-- `filename[:500] or "Uploaded file"`
title_of : String → String
unfolding first_characters
title_of filename =
    let title = first_characters 500 filename in if str_eq title "" then "Uploaded file" else title

unfoldable pub document_of : Uploads → ℕ → UploadedFile → ℕ → Document
unfolding title_of
document_of u source_id f now =
    uploaded_document u.content f.document_id source_id (title_of f.filename) f.mime_type f.raw_uri
      (u.metadata f.filename f.digest f.size f.mime_type) (file_key f.digest) now

unfoldable pub file_rows : Db → Source → ℕ → UploadedFile → NewIds → ℕ → Db
file_rows db source source_id f ids now = record (put_source (touch now source) db) {
  batches = db.batches ++ new_batch ids.batch_id source_id (file_key f.digest) f.digest now ∷ [];
  runs = db.runs ++ new_run ids.run_id ids.batch_id source_id now ∷ [];
  stages = db.stages ++ new_stage ids.stage_id ids.run_id "parse_file" now ∷ [];
  outbox =
      db.outbox
      ++ new_event ids.event_id "document.file.uploaded" now "modules.ingestion"
          (record no_payload {
            run_id = some ids.run_id;
            stage_id = some ids.stage_id;
            document_id = some f.document_id;
            raw_uri = some f.raw_uri;
            mime_type = some f.mime_type;
            source_generation = some source.generation;
          })
        ∷ [];
}

-- The run, and whether it is new.
unfoldable pub file_new :
    Uploads → Db → Source → ℕ → UploadedFile → NewIds → ℕ → ℕ → Result (Run × Bool × Db)
unfolding file_rows document_of add_uploaded_document
file_new u db source source_id f ids version_id now = do
  db' ←
      add_uploaded_document u.content (file_rows db source source_id f ids now)
        (document_of u source_id f now) version_id now
  ok (new_run ids.run_id ids.batch_id source_id now, true, db')

unfoldable pub file_again : Db → ℕ → UploadedFile → Batch → Result (Run × Bool × Db)
unfolding has_document_identity
file_again db source_id f existing = do
  guard (str_eq existing.payload_hash f.digest)
      (http 409 "Upload identity conflicts with stored content")
  guard (has_document_identity db source_id (file_key f.digest))
      (http 409 "This file was previously ingested and its document was deleted")
  run ← require (find (is_run_of existing.id) db.runs) runtime_error
  ok (run, false, db)

unfoldable pub file_active :
    Uploads → Db → Source → ℕ → UploadedFile → NewIds → ℕ → ℕ → Result (Run × Bool × Db)
unfolding file_again file_new
file_active u db source source_id f ids version_id now =
    elim (find (is_batch source_id (file_key f.digest)) db.batches) [
      | some existing ↦ file_again db source_id f existing
      | none ↦ file_new u db source source_id f ids version_id now
    ]

unfoldable pub receive_file :
    Uploads → Db → ℕ → UploadedFile → NewIds → ℕ → ℕ → Result (Run × Bool × Db)
unfolding lock_source_for_document file_active
receive_file u db source_id f ids version_id now = do
  lock_source_for_document db source_id
  source ← require (get_source db source_id) source_inactive
  guard (is_active source.status) source_inactive
  file_active u db source source_id f ids version_id now
