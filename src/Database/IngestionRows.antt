-- ===== src/Database/IngestionRows.antt =====
-- modules/ingestion/models.py and the records of modules/ingestion/schemas.py
use bbd_os.Prelude.{ℕ, String, Option}

pub record Batch : Type 0 where
  pub id : ℕ
  pub source_id : ℕ
  pub batch_key : String
  pub payload_hash : String
  pub created_at : ℕ

pub data RunStatus : Type 0 where
  queued running succeeded needs_ocr failed : RunStatus

pub record Run : Type 0 where
  pub id : ℕ
  pub batch_id : ℕ
  pub source_id : ℕ
  pub status : RunStatus
  pub error_code : Option String
  pub created_at : ℕ

pub data StageStatus : Type 0 where
  pending queued running retrying succeeded failed : StageStatus

pub record Stage : Type 0 where
  pub id : ℕ
  pub run_id : ℕ
  pub stage_key : String
  pub status : StageStatus
  pub attempts : ℕ
  pub next_attempt_at : ℕ
  pub lease_expires_at : Option ℕ
  pub error_code : Option String
  pub result_count : Option ℕ

-- An item of a received batch; `metadata` is JSON text.
pub record IngestionRecord : Type 0 where
  pub provider_id : String
  pub content : String
  pub observed_at : ℕ
  pub version : Option String
  pub metadata : String

pub record Observation : Type 0 where
  pub source_id : ℕ
  pub batch_id : ℕ
  pub provider_id : String
  pub record_hash : String
  pub payload : IngestionRecord
  pub observed_at : ℕ

pub record IngestionState : Type 0 where
  pub source_id : ℕ
  pub cursor : Option String
  pub lease_run_id : Option ℕ
  pub lease_expires_at : Option ℕ

pub record Credential : Type 0 where
  pub token_hash : String
  pub source_id : ℕ
  pub scope : String
  pub created_at : ℕ
  pub revoked_at : Option ℕ

-- The configuration that a crawl request carries to the worker.
pub record CrawlConfiguration : Type 0 where
  pub url : String
  pub mode : String
  pub max_pages : ℕ
  pub max_depth : ℕ
  pub timeout_seconds : ℕ

-- The JSON object of an event: a key that is absent is `none`.
pub record EventPayload : Type 0 where
  pub run_id : Option ℕ
  pub stage_id : Option ℕ
  pub source_id : Option ℕ
  pub source_generation : Option ℕ
  pub document_id : Option ℕ
  pub operation_id : Option ℕ
  pub raw_uri : Option String
  pub mime_type : Option String
  pub cursor_before : Option (Option String)
  pub configuration : Option CrawlConfiguration

pub data EventStatus : Type 0 where
  pending queued delivered failed : EventStatus

pub record OutboxEvent : Type 0 where
  pub id : ℕ
  pub type : String
  pub version : ℕ
  pub occurred_at : ℕ
  pub producer : String
  pub payload : EventPayload
  pub status : EventStatus
  pub next_attempt_at : ℕ
  pub dispatched_at : Option ℕ
  pub created_at : ℕ
