-- ===== src/Tests/Data.antt =====
-- A small database and simple stand-ins for the hash functions.
use bbd_os.Prelude.{ℕ, String, none, some, false, [], ◌∷◌}
use bbd_os.Database.{
  Db, Source, SourceStatus, IngestionRecord, CrawlConfiguration, Batch, Run, empty_db,
}
use bbd_os.Chunking.{Tokenizer}
use bbd_os.Documents.{Content, first_version}
use bbd_os.Ingestion.{
  Hashes, NewIds, ReceiveBatch, new_batch, new_run, stored, with_state, state_of,
}
use bbd_os.Ingestion.Crawl.{crawl_stored}
use bbd_os.Ingestion.Files.{Uploads, UploadedFile, file_rows, document_of}

abbrev pub hashes : Hashes
hashes = record {
  batch = λ p. p.batch_key;
  content = λ version content metadata. content;
  crawl = λ source_id cursor configuration minute. "minute";
  configuration = λ c. c.url;
  text = λ s. s;
}

abbrev pub notes : Source
notes = record {
  id = 1;
  type = "manual";
  name = "Notes";
  provider = none;
  status = SourceStatus.active;
  local_only = false;
  last_sync_at = none;
  last_success_at = none;
  last_error_at = none;
  last_error_code = none;
  collected_at = none;
  indexed_at = none;
  collection_error_code = none;
  processing_error_code = none;
  generation = 1;
  retired_at = none;
  configuration = "{}";
  created_at = 0;
}

abbrev pub db_notes : Db
db_notes = record empty_db { sources = notes ∷ [] }

abbrev pub ids_at : ℕ → NewIds
ids_at n = record { batch_id = n; run_id = n; stage_id = n; event_id = n }

abbrev pub page : String → IngestionRecord
page content = record {
  provider_id = content;
  content = content;
  observed_at = 5;
  version = none;
  metadata = "{}";
}

abbrev pub payload_of : String → ReceiveBatch
payload_of key = record {
  source_id = 1;
  batch_key = key;
  cursor_before = none;
  cursor_after = some "c1";
  records = page "a" ∷ page "a" ∷ page "b" ∷ [];
}

abbrev pub batch_one : Batch
batch_one = new_batch 1 1 "one" "one" 10

abbrev pub run_one : Run
run_one = new_run 1 1 1 10

-- After the batch "one" was received.
abbrev pub db_one : Db
db_one = stored hashes (with_state db_notes 1) notes (payload_of "one") (ids_at 1) 10

abbrev pub configuration : CrawlConfiguration
configuration = record {
  url = "https://example.org";
  mode = "single";
  max_pages = 1;
  max_depth = 0;
  timeout_seconds = 30;
}

-- After a crawl was queued.
abbrev pub db_crawl : Db
db_crawl =
    crawl_stored hashes (with_state db_notes 1) 1 notes (state_of db_notes 1) none configuration
      (ids_at 1) 10

-- Each text is one token, which is the letter "a".
abbrev pub tokenizer : Tokenizer
tokenizer = record { encode = λ text. (0x61 ∷ []) ∷ (0x61 ∷ []) ∷ []; decode = λ bytes. some "a" }

abbrev pub contents : Content
contents = record { content_hash = λ text. text; tokenizer = tokenizer }

abbrev pub uploads : Uploads
uploads = record { content = contents; metadata = λ filename digest size mime. "{}" }

abbrev pub file : UploadedFile
file = record {
  document_id = 7;
  filename = "a.pdf";
  mime_type = "application/pdf";
  raw_uri = "ab/abcd";
  size = 4;
  digest = "abcd";
}

-- After the file was uploaded.
abbrev pub db_file : Db
db_file = record (file_rows db_notes notes 1 file (ids_at 1) 10) {
  documents = document_of uploads 1 file 10 ∷ [];
  versions = first_version 1 7 "" "" 10 ∷ [];
}
