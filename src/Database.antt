-- ===== src/Database.antt =====
-- The PostgreSQL tables behind the API and the worker, and the rows of each of them:
-- modules/sources/models.py, modules/ingestion/models.py, modules/knowledge/documents/models.py.
-- A time is a number of microseconds and an identifier is a number. The `updated_at` columns, which
-- only the server writes and only responses read, are left out.
mod SourceRows
mod IngestionRows
mod DocumentRows
pub use SourceRows.*
pub use IngestionRows.*
pub use DocumentRows.*
use bbd_os.Prelude.{ℕ, ◌*◌, String, Option, none, List, [], row, put}

pub record Db : Type 0 where
  pub sources : List Source
  pub purges : List PurgeOperation
  pub batches : List Batch
  pub runs : List Run
  pub stages : List Stage
  pub observations : List Observation
  pub states : List IngestionState
  pub credentials : List Credential
  pub outbox : List OutboxEvent
  pub documents : List Document
  pub versions : List DocumentVersion
  pub chunks : List DocumentChunk

abbrev pub empty_db : Db
empty_db = record {
  sources = [];
  purges = [];
  batches = [];
  runs = [];
  stages = [];
  observations = [];
  states = [];
  credentials = [];
  outbox = [];
  documents = [];
  versions = [];
  chunks = [];
}

abbrev pub get_source : Db → ℕ → Option Source
get_source db i = row (λ r. Source.id r) i db.sources

abbrev pub get_run : Db → ℕ → Option Run
get_run db i = row (λ r. Run.id r) i db.runs

abbrev pub get_stage : Db → ℕ → Option Stage
get_stage db i = row (λ r. Stage.id r) i db.stages

abbrev pub get_state : Db → ℕ → Option IngestionState
get_state db i = row (λ r. IngestionState.source_id r) i db.states

abbrev pub get_event : Db → ℕ → Option OutboxEvent
get_event db i = row (λ r. OutboxEvent.id r) i db.outbox

abbrev pub get_purge : Db → ℕ → Option PurgeOperation
get_purge db i = row (λ r. PurgeOperation.id r) i db.purges

abbrev pub get_document : Db → ℕ → Option Document
get_document db i = row (λ r. Document.id r) i db.documents

-- One second of a time difference.
abbrev pub second : ℕ
second = 1000000

-- COLLECTION_LEASE: fifteen minutes.
abbrev pub collection_lease : ℕ
collection_lease = 15 * 60 * second

-- The flush of a changed row.
abbrev pub put_source : Source → Db → Db
put_source s db = record db { sources = put (λ r. Source.id r) s db.sources }

abbrev pub put_run : Run → Db → Db
put_run s db = record db { runs = put (λ r. Run.id r) s db.runs }

abbrev pub put_stage : Stage → Db → Db
put_stage s db = record db { stages = put (λ r. Stage.id r) s db.stages }

abbrev pub put_state : IngestionState → Db → Db
put_state s db = record db { states = put (λ r. IngestionState.source_id r) s db.states }

abbrev pub put_event : OutboxEvent → Db → Db
put_event s db = record db { outbox = put (λ r. OutboxEvent.id r) s db.outbox }

abbrev pub put_purge : PurgeOperation → Db → Db
put_purge s db = record db { purges = put (λ r. PurgeOperation.id r) s db.purges }

abbrev pub put_document : Document → Db → Db
put_document s db = record db { documents = put (λ r. Document.id r) s db.documents }

-- What an event carries when no key of its payload is set.
abbrev pub no_payload : EventPayload
no_payload = record {
  run_id = none;
  stage_id = none;
  source_id = none;
  source_generation = none;
  document_id = none;
  operation_id = none;
  raw_uri = none;
  mime_type = none;
  cursor_before = none;
  configuration = none;
}

-- DomainEvent with the row that the outbox stores for it.
abbrev pub new_event : ℕ → String → ℕ → String → EventPayload → OutboxEvent
new_event id type now producer payload = record {
  id = id;
  type = type;
  version = 1;
  occurred_at = now;
  producer = producer;
  payload = payload;
  status = EventStatus.pending;
  next_attempt_at = now;
  dispatched_at = none;
  created_at = now;
}
