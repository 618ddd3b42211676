-- ===== src/Uploading.antt =====
-- modules/ingestion/worker.py: the job that extracts the text of an uploaded file, in a transaction
-- that claims the stage and one that stores what was extracted, or that it failed. What the parser
-- process returns is an argument.
pub mod Extraction
pub mod Success
use bbd_os.Prelude.{
  ℕ, ◌+◌, ◌*◌, String, Option, none, some, Bool, true, false, List, length, ◌&&◌, ◌||◌, not,
  if◌then◌else◌, ◌==◌, str_eq, after, holds, Error, timeout_error, key_error, Result, ok, err,
  ◌>>=◌, require,
}
use bbd_os.Database.{
  Db, Source, Run, RunStatus, Stage, StageStatus, OutboxEvent, EventStatus, Document,
  ExtractionStatus, get_source, get_run, get_stage, get_event, get_document, put_source, put_run,
  put_stage, put_event, put_document, second,
}
use bbd_os.Chunking.{ChunkDraft, chunk_text}
use bbd_os.Documents.{Content}
use bbd_os.Documents.Versions.{save_extraction}
use bbd_os.Worker.{
  available, same_or_absent, failed_stage, failed_run, failed_event, has_succeeded, is_running,
  started_run, is_delivered,
}

-- What the parser returns: the text, whether there are warnings, and both as JSON text.
pub record Parsed : Type 0 where
  pub text : String
  pub has_warnings : Bool
  pub metadata : String

-- `parser_timeout_seconds` as a time, and the JSON object of a document with what was extracted.
pub record Extractor : Type 0 where
  pub content : Content
  pub parser_timeout : ℕ
  pub with_extraction : String → Parsed → String

pub data UploadClaim : Type 0 where
  skipped : Db → UploadClaim
  claimed : OutboxEvent → ℕ → ℕ → ℕ → ℕ → Db → UploadClaim

-- `if stage is not None` and `if run is not None`
unfoldable pub fail_stage : String → Option Stage → Db → Db
fail_stage code none db = db
fail_stage code (some stage) db = put_stage (failed_stage code stage) db

unfoldable pub fail_run : String → Option Run → Db → Db
fail_run code none db = db
fail_run code (some run) db = put_run (failed_run code run) db

unfoldable pub unavailable_upload : Db → OutboxEvent → Run → Option Stage → Db
unfolding fail_stage fail_run
unavailable_upload db event run stage = put_event (failed_event event) (
    fail_run "source_or_document_unavailable" (some run)
      (fail_stage "source_or_document_unavailable" stage db))

abbrev pub parsing_stage : ℕ → Stage → Stage
parsing_stage expires stage = record stage {
  status = StageStatus.running;
  attempts = stage.attempts + 1;
  lease_expires_at = some expires;
  error_code = none;
}

abbrev pub set_extraction : ExtractionStatus → Document → Document
set_extraction status document = record document { extraction_status = status }

unfoldable pub start_upload : Extractor → Db → Run → Stage → Document → ℕ → Db
start_upload x db run stage document now =
    put_document (set_extraction ExtractionStatus.processing document) (
      put_run (started_run run)
        (put_stage (parsing_stage (now + (x.parser_timeout + 30 * second)) stage) db))

unfoldable pub claim_upload_stage :
    Extractor → Db → OutboxEvent → Run → Stage → Document → ℕ → UploadClaim
unfolding has_succeeded is_running start_upload
claim_upload_stage x db event run stage document now =
    if has_succeeded stage.status
    then skipped (put_event (record event { status = EventStatus.delivered }) db)
    else if is_running stage.status && after stage.lease_expires_at now
    then skipped db
    else claimed event run.source_id run.id stage.id document.id
        (start_upload x db run stage document now)

unfoldable pub claim_upload_run :
    Extractor → Db → OutboxEvent → Run → Option Stage → Option Document → ℕ → UploadClaim
unfolding unavailable_upload claim_upload_stage available
claim_upload_run x db event run none document now = skipped (unavailable_upload db event run none)
claim_upload_run x db event run (some stage) none now =
    skipped (unavailable_upload db event run (some stage))
claim_upload_run x db event run (some stage) (some document) now =
    elim (available (get_source db run.source_id)
      (same_or_absent event.payload.source_generation)) [
        | none ↦ skipped (unavailable_upload db event run (some stage))
        | some source ↦ claim_upload_stage x db event run stage document now
      ]

unfoldable pub claim_upload_event : Extractor → Db → OutboxEvent → ℕ → Result UploadClaim
unfolding claim_upload_run
claim_upload_event x db event now = do
  run_id ← require event.payload.run_id key_error
  stage_id ← require event.payload.stage_id key_error
  document_id ← require event.payload.document_id key_error
  elim (get_run db run_id) [
    | none ↦ ok (skipped (put_event (failed_event event) db))
    | some run ↦
        ok (
          claim_upload_run x db event run (get_stage db stage_id) (get_document db document_id) now)
  ]

unfoldable pub claim_upload : Extractor → Db → ℕ → ℕ → Result UploadClaim
unfolding claim_upload_event
claim_upload x db event_id now = elim (get_event db event_id) [
  | none ↦ ok (skipped db)
  | some event ↦
      if is_delivered event.status then ok (skipped db) else claim_upload_event x db event now
]

-- The identifiers of a claimed upload, those that the new rows get, and the event as it was claimed.
pub record Upload : Type 0 where
  pub event : OutboxEvent
  pub event_id : ℕ
  pub source_id : ℕ
  pub run_id : ℕ
  pub stage_id : ℕ
  pub document_id : ℕ
  pub version_id : ℕ
  pub chunk_id : ℕ → ℕ

-- The run of the upload, which is selected with its source.
unfoldable pub run_of : Db → Upload → Option Run
run_of db u = elim (get_run db u.run_id) [
  | none ↦ none
  | some run ↦ if run.source_id == u.source_id then some run else none
]

unfoldable pub change_event : (OutboxEvent → OutboxEvent) → ℕ → Db → Db
change_event f event_id db = elim (get_event db event_id) [
  | none ↦ db
  | some e ↦ put_event (f e) db
]

unfoldable pub reject_rows : Db → Upload → Db
unfolding run_of fail_stage fail_run
reject_rows db u =
    fail_run "source_unavailable" (run_of db u)
      (fail_stage "source_unavailable" (get_stage db u.stage_id) db)

unfoldable pub reject_upload : Db → Upload → Db
unfolding reject_rows change_event
reject_upload db u = change_event failed_event u.event_id (reject_rows db u)

abbrev pub status_of : Parsed → ExtractionStatus
status_of p =
    if p.has_warnings && str_eq p.text ""
    then ExtractionStatus.needs_ocr
    else ExtractionStatus.succeeded

abbrev pub run_status_of : Parsed → RunStatus
run_status_of p =
    if p.has_warnings && str_eq p.text "" then RunStatus.needs_ocr else RunStatus.succeeded

abbrev pub extracted_stage : ℕ → Stage → Stage
extracted_stage count stage = record stage {
  status = StageStatus.succeeded;
  result_count = some count;
  lease_expires_at = none;
  error_code = none;
}

abbrev pub extracted_run : Parsed → Run → Run
extracted_run p run = record run { status = run_status_of p; error_code = none }

abbrev pub processed_source : ℕ → Source → Source
processed_source now s = record s {
  last_success_at = some now;
  last_error_code = none;
  processing_error_code = none;
}

abbrev pub annotated : Extractor → Parsed → Document → Document
annotated x p d = record d { metadata_json = x.with_extraction d.metadata_json p }

unfoldable pub extraction_rows :
    Extractor → Db → Parsed → Source → Run → Stage → Document → OutboxEvent → ℕ → ℕ → Db
extraction_rows x db p source run stage document event count now =
    put_source (processed_source now source) (
      put_event (record event { status = EventStatus.delivered })
        (put_run (extracted_run p run)
          (put_stage (extracted_stage count stage) (put_document (annotated x p document) db))))

-- A document or an event that is gone ends the transaction without a commit.
unfoldable pub commit_extraction :
    Extractor → Db → Upload → Parsed → Source → Run → Stage → ℕ → ℕ → Option Document × Db → Db
unfolding extraction_rows
commit_extraction x db u p source run stage count now (none, db') = db
commit_extraction x db u p source run stage count now (some document, db') =
    elim (get_event db' u.event_id) [
      | none ↦ db
      | some event ↦ extraction_rows x db' p source run stage document event count now
    ]

unfoldable pub extract_active :
    Extractor → Db → Upload → Parsed → List ChunkDraft → Source → Run → Stage → ℕ → Result Db
unfolding commit_extraction
extract_active x db u p drafts source run stage now = do
  saved ←
      save_extraction x.content db u.document_id p.text drafts (status_of p) u.version_id u.chunk_id
        now
  ok (commit_extraction x db u p source run stage (length drafts) now saved)

unfoldable pub extract_locked :
    Extractor
    → Db
    → Upload
    → Parsed
    → List ChunkDraft
    → Option Source
    → Option Run
    → Option Stage
    → ℕ
    → Result Db
unfolding reject_upload extract_active
extract_locked x db u p drafts (some source) (some run) (some stage) now =
    extract_active x db u p drafts source run stage now
extract_locked x db u p drafts (some source) (some run) none now = ok (reject_upload db u)
extract_locked x db u p drafts (some source) none stage now = ok (reject_upload db u)
extract_locked x db u p drafts none run stage now = ok (reject_upload db u)

-- The `try` block, from what the parser returns or raises.
unfoldable pub extract : Extractor → Db → Upload → Result Parsed → ℕ → Result Db
unfolding extract_locked available run_of
extract x db u parsed now = do
  p ← parsed
  drafts ← chunk_text x.content.tokenizer p.text 750 12 100
  extract_locked x db u p drafts
      (available (get_source db u.source_id) (holds u.event.payload.source_generation))
      (run_of db u) (get_stage db u.stage_id) now

abbrev pub failure_code : Error → String
failure_code timeout_error = "parser_timeout"
failure_code e = "parse_failed"

unfoldable pub fail_document : Option Document → Db → Db
fail_document none db = db
fail_document (some d) db = put_document (set_extraction ExtractionStatus.failed d) db

unfoldable pub release_stage : String → Option Stage → Db → Db
release_stage code none db = db
release_stage code (some stage) db =
    put_stage (record (failed_stage code stage) { lease_expires_at = none }) db

abbrev pub processing_failed : String → ℕ → Source → Source
processing_failed code now s = record s {
  processing_error_code = some code;
  last_error_code = some code;
  last_error_at = some now;
}

unfoldable pub failed_upload : Db → Upload → String → Source → OutboxEvent → ℕ → Db
unfolding fail_document release_stage fail_run run_of
failed_upload db u code source event now = put_event (failed_event event) (
    put_source (processing_failed code now source) (
      fail_document (get_document db u.document_id)
        (fail_run code (run_of db u) (release_stage code (get_stage db u.stage_id) db))))

unfoldable pub fail_upload : Db → Upload → String → ℕ → Db
unfolding failed_upload available
fail_upload db u code now = elim (get_event db u.event_id) [
  | none ↦ db
  | some event ↦
      elim (available (get_source db u.source_id) (holds event.payload.source_generation)) [
        | none ↦ put_event (failed_event event) db
        | some source ↦ failed_upload db u code source event now
      ]
]

-- The job behind its claim.
unfoldable pub end_upload : Db → Upload → ℕ → Result Db → Db
unfolding fail_upload
end_upload db u now (ok db') = db'
end_upload db u now (err e) = fail_upload db u (failure_code e) now

unfoldable pub process_claimed_upload : Extractor → Db → Upload → Result Parsed → ℕ → Db
unfolding extract end_upload
process_claimed_upload x db u parsed now = end_upload db u now (extract x db u parsed now)
