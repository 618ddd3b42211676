-- ===== src/Uploading/Extraction.antt =====
-- How the job on an uploaded file ends.
use bbd_os.Prelude.{
  ℕ, ◌≡◌, arith, String, Option, none, some, List, holds, Error, Result, ok, err, >>=-ok, row-key,
  row-put_self,
}
use bbd_os.Database.{
  Db, Source, Run, Stage, OutboxEvent, Document, ExtractionStatus, get_source, get_run, get_stage,
  get_event, get_document,
}
use bbd_os.Chunking.{ChunkDraft, chunk_text}
use bbd_os.Worker.{available, failed_stage, failed_run, failed_event}
use bbd_os.Uploading.{
  Extractor, Parsed, Upload, run_of, fail_stage, fail_run, change_event, reject_rows, reject_upload,
  extract, extract_locked, failure_code, fail_document, release_stage, failed_upload, fail_upload,
  end_upload, process_claimed_upload, set_extraction, processing_failed,
}

-- The documents and all that belongs to them are as they were.
pub record SameDocuments (db db' : Db) : Type 0 where
  pub documents : db'.documents ≡ db.documents
  pub versions : db'.versions ≡ db.versions
  pub chunks : db'.chunks ≡ db.chunks

reject_upload-SameDocuments : (db : Db) (u : Upload) → SameDocuments db (reject_upload db u)
unfolding reject_upload reject_rows fail_stage fail_run change_event run_of
reject_upload-SameDocuments db u = record {
  documents = ground arith;
  versions = ground arith;
  chunks = ground arith;
}

reject_rows-outbox : (db : Db) (u : Upload) → (reject_rows db u).outbox ≡ db.outbox
unfolding reject_rows fail_stage fail_run run_of
reject_rows-outbox db u = ground arith

reject_upload-event :
    (db : Db) (u : Upload) (event : OutboxEvent)
    → get_event db u.event_id ≡ some event
    → get_event (reject_upload db u) u.event_id ≡ some (failed_event event)
unfolding reject_upload change_event
reject_upload-event db u event at_event =
    let there : get_event (reject_rows db u) u.event_id ≡ some event =
      rw reject_rows-outbox at_event in
    rw (there, change_event) (row-put_self _ _ _ _ _ there (row-key _ _ _ at_event))

locked_gone :
    (x : Extractor) (db : Db) (u : Upload) (p : Parsed) (drafts : List ChunkDraft)
    (source : Option Source) (run : Option Run) (stage : Option Stage) (now : ℕ) (db' : Db)
    → source ≡ none
    → extract_locked x db u p drafts source run stage now ≡ ok db'
    → db' ≡ reject_upload db u
unfolding extract_locked
locked_gone x db u p drafts none run stage now db' gone e = ground arith
locked_gone x db u p drafts (some source) run stage now db' gone e = cc

-- If the source of an upload is not active with the event's generation when its text has been
-- extracted, no document, version or chunk changes, and the event has failed.
pub extract_unavailable :
    (x : Extractor) (db : Db) (u : Upload) (parsed : Result Parsed) (now : ℕ) (db' : Db)
    (event : OutboxEvent)
    → available (get_source db u.source_id) (holds u.event.payload.source_generation) ≡ none
    → get_event db u.event_id ≡ some event
    → extract x db u parsed now ≡ ok db'
    → SameDocuments db db' × (get_event db' u.event_id ≡ some (failed_event event))
unfolding extract
extract_unavailable x db u parsed now db' event gone at_event e =
    let (p, returned, e₁) = >>=-ok parsed _ e in
    let (drafts, chunked, e₂) = >>=-ok (chunk_text x.content.tokenizer p.text 750 12 100) _ e₁ in
    let same : db' ≡ reject_upload db u =
      locked_gone x db u p drafts
        (available (get_source db u.source_id) (holds u.event.payload.source_generation))
        (run_of db u) (get_stage db u.stage_id) now db' gone e₂ in
    rw same (reject_upload-SameDocuments db u, reject_upload-event db u event at_event)

-- What is left of an upload whose file could not be parsed.
pub record HasFailedUpload (db : Db) (u : Upload) (code : String) (now : ℕ) (db' : Db)
    (source : Source) (run : Run) (stage : Stage) (document : Document) (event : OutboxEvent)
    : Type 0 where
  pub stage_failed :
      get_stage db' u.stage_id ≡ some (record (failed_stage code stage) { lease_expires_at = none })
  pub run_failed : get_run db' u.run_id ≡ some (failed_run code run)
  pub document_failed :
      get_document db' u.document_id ≡ some (set_extraction ExtractionStatus.failed document)
  pub source_told : get_source db' u.source_id ≡ some (processing_failed code now source)
  pub event_failed : get_event db' u.event_id ≡ some (failed_event event)

-- If the parser or the chunking raises an error for an upload whose rows exist and whose source is
-- active with the generation of the stored event, the stage, the run, the document and the event have
-- failed, and the source shows the error, which tells a timeout from other errors.
pub process_claimed_upload_fails :
    (x : Extractor) (db : Db) (u : Upload) (parsed : Result Parsed) (now : ℕ) (raised : Error)
    (source : Source) (run : Run) (stage : Stage) (document : Document) (event : OutboxEvent)
    → extract x db u parsed now ≡ err raised
    → get_event db u.event_id ≡ some event
    → available (get_source db u.source_id) (holds event.payload.source_generation) ≡ some source
    → get_source db u.source_id ≡ some source
    → run_of db u ≡ some run
    → get_run db u.run_id ≡ some run
    → get_stage db u.stage_id ≡ some stage
    → get_document db u.document_id ≡ some document
    → HasFailedUpload db u
        (failure_code raised)
        now
        (process_claimed_upload x db u parsed now)
        source
        run
        stage
        document
        event
unfolding process_claimed_upload end_upload fail_upload failed_upload fail_document release_stage
    fail_run
process_claimed_upload_fails x db u parsed now raised source run stage document event failed
      at_event there at_source same_run at_run at_stage at_document =
    rw (failed, process_claimed_upload, end_upload)
      (rw (at_event, fail_upload)
        (rw there (
          rw (same_run, at_stage, at_document, failed_upload)
            (record {
              stage_failed = row-put_self _ _ _ _ _ at_stage (row-key _ _ _ at_stage);
              run_failed = row-put_self _ _ _ _ _ at_run (row-key _ _ _ at_run);
              document_failed = row-put_self _ _ _ _ _ at_document (row-key _ _ _ at_document);
              source_told = row-put_self _ _ _ _ _ at_source (row-key _ _ _ at_source);
              event_failed = row-put_self _ _ _ _ _ at_event (row-key _ _ _ at_event);
            }))))
