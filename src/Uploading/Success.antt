-- ===== src/Uploading/Success.antt =====
-- What the job on an uploaded file stores when the text was extracted.
use bbd_os.Prelude.{
  ℕ, ◌+◌, ◌≡◌, refl, ◌∙◌, arith, String, none, some, List, [], ◌∷◌, ◌++◌, length, holds, ok,
  row-key, row-put_self, Bool-cases, inl, inr, true, false, str_eq, eq_iff, find-append,
}
use bbd_os.Database.{
  Db, Source, Run, Stage, OutboxEvent, EventStatus, Document, DocumentVersion, ExtractionStatus,
  get_source, get_run, get_stage, get_event, get_document, put_document,
}
use bbd_os.Chunking.{ChunkDraft, chunk_text}
use bbd_os.Documents.{Content, get_version}
use bbd_os.Documents.Versions.{save_found, save_extraction, fill_chunks, extracted, next_version}
use bbd_os.Worker.{available}
use bbd_os.Uploading.{
  Extractor, Parsed, Upload, run_of, extract, extract_locked, extract_active, commit_extraction,
  extraction_rows, status_of, extracted_stage, extracted_run, processed_source, annotated,
}

module _ (c : Content) (db : Db) (document : Document) (current : DocumentVersion) (text : String)
    (drafts : List ChunkDraft) (status : ExtractionStatus) (version_id : ℕ) (chunk_id : ℕ → ℕ)
    (now : ℕ) where
  saved : Document × Db
  saved = save_found c db document current text drafts status version_id chunk_id now

  saved-stages : saved.1.stages ≡ db.stages
  unfolding saved save_found fill_chunks
  saved-stages = ground arith

  saved-runs : saved.1.runs ≡ db.runs
  unfolding saved save_found fill_chunks
  saved-runs = ground arith

  saved-outbox : saved.1.outbox ≡ db.outbox
  unfolding saved save_found fill_chunks
  saved-outbox = ground arith

  saved-sources : saved.1.sources ≡ db.sources
  unfolding saved save_found fill_chunks
  saved-sources = ground arith

  saved-documents : saved.1.documents ≡ (put_document saved.0 db).documents
  unfolding saved save_found fill_chunks
  saved-documents = ground arith

  saved-id : saved.0.id ≡ document.id
  unfolding saved save_found extracted
  saved-id = ground arith

  saved-status : saved.0.extraction_status ≡ status
  unfolding saved save_found extracted
  saved-status = ground arith

  kept_version :
      str_eq current.content text ≡ true
      → (saved.1.versions ≡ db.versions) × (saved.0.current_version ≡ document.current_version)
  unfolding saved save_found fill_chunks extracted
  kept_version same = (ground arith, ground arith)

  added_version :
      str_eq current.content text ≡ false
      → (saved.1.versions ≡ db.versions ++ next_version c document version_id text now ∷ [])
        × (saved.0.current_version ≡ document.current_version + 1)
  unfolding saved save_found fill_chunks extracted
  added_version other = (ground arith, ground arith)

  -- The current version of the document holds the text.
  saved-text :
      get_version db document.id document.current_version ≡ some current
      → get_version db document.id (document.current_version + 1) ≡ none
      → (v : DocumentVersion) × (get_version saved.1 document.id saved.0.current_version ≡ some v)
        × (v.content ≡ text)
  unfolding get_version
  saved-text at_current fresh = elim (Bool-cases (str_eq current.content text)) [
    | inl same ↦
        let (versions, number) = kept_version same in
        (current, rw (versions, number) at_current, (eq_iff current.content text).0 same)
    | inr other ↦
        let (versions, number) = added_version other in
        (
          next_version c document version_id text now,
          rw (versions, number) (rw find-append (rw fresh (ground arith))),
          refl,
        )
  ]

  save_extraction-saved :
      (document_id : ℕ)
      → get_document db document_id ≡ some document
      → get_version db document.id document.current_version ≡ some current
      → save_extraction c db document_id text drafts status version_id chunk_id now
        ≡ ok (some saved.0, saved.1)
  unfolding save_extraction saved
  save_extraction-saved document_id found at_current = rw (found, save_extraction) (rw at_current)

-- The upload is done: its stage counts the chunks, its event is delivered, and the current version of
-- its document holds the text.
pub record IsExtracted (db : Db) (u : Upload) (p : Parsed) (count : ℕ) (now : ℕ) (source : Source)
    (run : Run) (stage : Stage) (document : Document) (db' : Db) : Type 0 where
  pub stage_done : get_stage db' u.stage_id ≡ some (extracted_stage count stage)
  pub run_done : get_run db' u.run_id ≡ some (extracted_run p run)
  pub source_told : get_source db' u.source_id ≡ some (processed_source now source)
  pub delivered :
      (e : OutboxEvent) × (get_event db' u.event_id ≡ some e) × (e.status ≡ EventStatus.delivered)
  pub document_done :
      (d : Document) × (v : DocumentVersion) × (get_document db' u.document_id ≡ some d)
      × (d.extraction_status ≡ status_of p)
      × (get_version db' document.id d.current_version ≡ some v)
      × (v.content ≡ p.text)

module _ (x : Extractor) (db : Db) (u : Upload) (p : Parsed) (now : ℕ) (source : Source) (run : Run)
    (stage : Stage) (document : Document) (current : DocumentVersion) (event : OutboxEvent)
    (drafts : List ChunkDraft)
    (chunked : chunk_text x.content.tokenizer p.text 750 12 100 ≡ ok drafts)
    (there : available (get_source db u.source_id) (holds u.event.payload.source_generation)
      ≡ some source)
    (at_source : get_source db u.source_id ≡ some source) (same_run : run_of db u ≡ some run)
    (at_run : get_run db u.run_id ≡ some run) (at_stage : get_stage db u.stage_id ≡ some stage)
    (at_event : get_event db u.event_id ≡ some event)
    (at_document : get_document db u.document_id ≡ some document)
    (at_current : get_version db document.id document.current_version ≡ some current)
    (fresh : get_version db document.id (document.current_version + 1) ≡ none) where
  abbrev after_save : Document × Db
  after_save =
      saved x.content db document current p.text drafts (status_of p) u.version_id u.chunk_id now

  abbrev after_extract : Db
  after_extract =
      extraction_rows x after_save.1 p source run stage after_save.0 event (length drafts) now

  stage-saved : get_stage after_save.1 u.stage_id ≡ some stage
  stage-saved = rw saved-stages at_stage

  run-saved : get_run after_save.1 u.run_id ≡ some run
  run-saved = rw saved-runs at_run

  source-saved : get_source after_save.1 u.source_id ≡ some source
  source-saved = rw saved-sources at_source

  event-saved : get_event after_save.1 u.event_id ≡ some event
  event-saved = rw saved-outbox at_event

  extract-step : extract x db u (ok p) now ≡ ok after_extract
  unfolding extract extract_locked extract_active commit_extraction
  extract-step =
      rw (chunked, extract)
        (rw there (
          rw same_run (
            rw (at_stage, extract_locked, extract_active)
              (rw
                (
                  save_extraction-saved x.content db document current p.text drafts (status_of p)
                      u.version_id u.chunk_id now u.document_id at_document at_current,
                  commit_extraction,
                )
                (rw (event-saved, commit_extraction))))))

  document-saved : get_document after_save.1 u.document_id ≡ some after_save.0
  document-saved = rw saved-documents (
      row-put_self _ _ _ _ _ at_document (
        saved-id x.content db document current p.text drafts (status_of p) u.version_id u.chunk_id
          now
        ∙ row-key _ _ _ at_document))

  -- If the rows of an upload exist, its source is active with the event's generation, the parser
  -- returned and the text could be cut into chunks, and no version follows the current one, the job
  -- stores the text: it succeeds and `IsExtracted` holds.
  pub extract_succeeds :
      (db' : Db) × (extract x db u (ok p) now ≡ ok db')
      × IsExtracted db u p (length drafts) now source run stage document db'
  unfolding extraction_rows get_version
  extract_succeeds =
      let (v, at_v, content) =
        saved-text x.content db document current p.text drafts (status_of p) u.version_id u.chunk_id
          now at_current fresh in
      (
        after_extract,
        extract-step,
        record {
          stage_done = row-put_self _ _ _ _ _ (stage-saved) (row-key _ _ _ at_stage);
          run_done = row-put_self _ _ _ _ _ run-saved (row-key _ _ _ at_run);
          source_told = row-put_self _ _ _ _ _ source-saved (row-key _ _ _ at_source);
          delivered = (
            record event { status = EventStatus.delivered },
            row-put_self _ _ _ _ _ event-saved (row-key _ _ _ at_event),
            refl,
          );
          document_done = (
            annotated x p after_save.0,
            v,
            row-put_self _ _ _ _ _ document-saved (row-key _ _ _ document-saved),
            saved-status x.content db document current p.text drafts (status_of p) u.version_id
                u.chunk_id now,
            at_v,
            content,
          );
        },
      )
