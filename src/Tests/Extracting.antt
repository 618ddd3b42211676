-- ===== src/Tests/Extracting.antt =====
-- The job on an uploaded file.
use bbd_os.Prelude.{◌≡◌, refl, some, ok, err, false, List, [], ◌∷◌, find, row, put, timeout_error}
use bbd_os.Database.{Db, SourceStatus, Stage, Document, OutboxEvent, new_event, no_payload}
use bbd_os.Chunking.{ChunkDraft, chunk_text, chunk_end, previous, bisect_right}
use bbd_os.Chunking.Utf8.{decode}
use bbd_os.Documents.{first_version, get_version}
use bbd_os.Ingestion.{new_stage, touch}
use bbd_os.Ingestion.Files.{file_rows, document_of}
use bbd_os.Worker.{available}
use bbd_os.Uploading.{
  Extractor, Parsed, Upload, run_of, extract, reject_upload, process_claimed_upload,
}
use bbd_os.Uploading.Extraction.{HasFailedUpload, process_claimed_upload_fails}
use bbd_os.Uploading.Success.{IsExtracted, extract_succeeds}
use bbd_os.Tests.Data.{notes, run_one, contents, uploads, file, db_file}

abbrev extractor : Extractor
extractor = record {
  content = contents;
  parser_timeout = 60;
  with_extraction = λ metadata parsed. metadata;
}

abbrev upload_event : OutboxEvent
upload_event = new_event 1 "document.file.uploaded" 10 "modules.ingestion" (record no_payload {
  run_id = some 1;
  stage_id = some 1;
  document_id = some 7;
  raw_uri = some "ab/abcd";
  mime_type = some "application/pdf";
  source_generation = some 1;
})

abbrev upload : Upload
upload = record {
  event = upload_event;
  event_id = 1;
  source_id = 1;
  run_id = 1;
  stage_id = 1;
  document_id = 7;
  version_id = 8;
  chunk_id = λ n. n;
}

abbrev parsed : Parsed
parsed = record { text = "aa"; has_warnings = false; metadata = "{}" }

abbrev parse_stage : Stage
parse_stage = new_stage 1 1 "parse_file" 10

abbrev uploaded : Document
uploaded = document_of uploads 1 file 10

abbrev drafts : List ChunkDraft
drafts = record { content = "a"; token_count = 2; start_token = 0 } ∷ []

extract_succeeds_example :
    (db' : Db) × (extract extractor db_file upload (ok parsed) 50 ≡ ok db')
    × IsExtracted db_file upload parsed 1 50 (touch 10 notes) run_one parse_stage uploaded db'
unfolding row find chunk_text decode chunk_end previous bisect_right available run_of file_rows
    get_version document_of put
extract_succeeds_example =
    extract_succeeds extractor db_file upload parsed 50 (touch 10 notes) run_one parse_stage
      uploaded (first_version 1 7 "" "" 10) upload_event drafts refl refl refl refl refl refl refl
      refl refl refl

-- The source was archived before the text was extracted.
abbrev db_archived : Db
db_archived = record db_file {
  sources = record notes { status = SourceStatus.archived; generation = 2 } ∷ [];
}

abbrev db_rejected : Db
db_rejected = reject_upload db_archived upload

process_claimed_upload_fails_example :
    HasFailedUpload db_file upload "parser_timeout" 50
      (process_claimed_upload extractor db_file upload (err timeout_error) 50)
      (touch 10 notes)
      run_one
      parse_stage
      uploaded
      upload_event
unfolding row available run_of file_rows extract document_of put
process_claimed_upload_fails_example =
    process_claimed_upload_fails extractor db_file upload (err timeout_error) 50 timeout_error
      (touch 10 notes) run_one parse_stage uploaded upload_event refl refl refl refl refl refl refl
      refl
