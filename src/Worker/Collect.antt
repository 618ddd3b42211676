-- ===== src/Worker/Collect.antt =====
-- The work of a claimed stage in apps/worker/main.py: for a crawl, the pages that the browser service
-- returns become observations of the batch. The service's answer is an argument; what the code uses of
-- settings, SHA-256 and ISO timestamps is the parameter `Collector`.
pub mod Cursor
pub mod Pages
use bbd_os.Prelude.{
  ℕ, ◌+◌, ◌*◌, ◌≤◌, String, Option, none, some, Bool, true, false, List, [], ◌∷◌, ◌++◌, map, ◌&&◌,
  ◌||◌, not, if◌then◌else◌, min, ltb, leb, length, any, holds, ◌==◌, str_eq, Result, ok, err, ◌>>=◌,
  ◌>>◌, guard, require, value_error,
}
use bbd_os.Database.{
  Db, Source, Run, Stage, Batch, IngestionRecord, IngestionState, Observation, OutboxEvent,
  CrawlConfiguration, get_source, get_run, get_stage, get_state, put_state, is_active, second,
}
use bbd_os.Prelude.{row, put}
use bbd_os.Ingestion.{Hashes, same_observation, count_where}
use bbd_os.Worker.{available}

-- `configured`: a token for the browser service is set. `digest` is SHA-256 over the JSON of the
-- pages. `isoformat` prints a time, and `fromisoformat` reads one with a time zone.
pub record Collector : Type 0 where
  pub hashes : Hashes
  pub configured : Bool
  pub digest : List IngestionRecord → String
  pub isoformat : ℕ → String
  pub fromisoformat : String → Option ℕ

-- How the request to the browser service ends. A response has its status, the time that its
-- Retry-After header asks for, if it can be read, and the records of its body, if they are valid.
pub data Reply : Type 0 where
  timed_out unreachable : Reply
  response : ℕ → Option ℕ → Option (List IngestionRecord) → Reply

-- How the work on a stage ends: it is done, it may be tried again, or it failed.
pub data Outcome : Type 0 where
  done : Db → Outcome
  transient : Option ℕ → Db → Outcome
  broken : Db → Outcome

abbrev pub retry_after_seconds : Option ℕ → Option ℕ
retry_after_seconds none = none
retry_after_seconds (some t) = some (min (60 * second) t)

abbrev is_transient : ℕ → Bool
is_transient code = code == 408 || code == 425 || code == 429 || leb 500 code

-- `on_conflict_do_nothing(constraint="uq_source_observations_batch_record_observed")`
abbrev pub conflicts : Observation → Observation → Bool
conflicts a b = a.batch_id == b.batch_id && same_observation a b

unfoldable pub insert_new : List Observation → List Observation → List Observation
insert_new table [] = table
insert_new table (o ∷ l) =
    let skip = insert_new table l in
    let keep = insert_new (table ++ o ∷ []) l in if any (conflicts o) table then skip else keep

abbrev pub canonical : ℕ → IngestionRecord → IngestionRecord
canonical now r = record r { observed_at = now }

abbrev pub page_observation : Hashes → ℕ → ℕ → ℕ → IngestionRecord → Observation
page_observation h source_id batch_id now r = record {
  source_id = source_id;
  batch_id = batch_id;
  provider_id = r.provider_id;
  record_hash = Hashes.content h r.version r.content r.metadata;
  payload = r;
  observed_at = now;
}

-- The cursor is the time of the event, unless the one before is a later time.
unfoldable pub cursor_after : Collector → Option String → ℕ → String
cursor_after c none now = c.isoformat now
cursor_after c (some cursor) now =
    if str_eq cursor "" then c.isoformat now else elim (c.fromisoformat cursor) [
      | none ↦ c.isoformat now
      | some prior ↦ if ltb now prior then cursor else c.isoformat now
    ]

unfoldable pub store_pages :
    Collector → Db → Source → Batch → IngestionState → ℕ → List IngestionRecord → Db
unfolding insert_new cursor_after
store_pages c db source batch state now records =
    let pages = map (canonical now) records in
    record (put_state (record state { cursor = some (cursor_after c state.cursor now) }) db) {
      observations =
          insert_new db.observations (map (page_observation c.hashes source.id batch.id now) pages);
      batches = put (λ b. Batch.id b) (record batch { payload_hash = c.digest pages }) db.batches;
    }

get_batch : Db → ℕ → Option Batch
get_batch db i = row (λ b. Batch.id b) i db.batches

-- The rows that the transaction reads. A crawl that is no longer active is a ValueError.
unfoldable pub active_crawl :
    Db → OutboxEvent → ℕ → ℕ → ℕ → Result (Source × Batch × IngestionState)
unfolding get_batch available
active_crawl db event source_id run_id stage_id = do
  source ←
      require (available (get_source db source_id) (holds event.payload.source_generation))
        value_error
  run ← require (get_run db run_id) value_error
  stage ← require (get_stage db stage_id) value_error
  batch ← require (get_batch db run.batch_id) value_error
  state ← require (get_state db source_id) value_error
  guard (run.source_id == source_id && holds state.lease_run_id run.id) value_error
  ok (source, batch, state)

unfoldable pub store_active :
    Collector → Db → ℕ → List IngestionRecord → Result (Source × Batch × IngestionState) → Outcome
unfolding store_pages
store_active c db now records (err e) = broken db
store_active c db now records (ok (source, batch, state)) =
    done (store_pages c db source batch state now records)

unfoldable pub store_crawl :
    Collector → Db → OutboxEvent → ℕ → ℕ → ℕ → List IngestionRecord → Outcome
unfolding active_crawl store_active
store_crawl c db event source_id run_id stage_id records =
    store_active c db event.occurred_at records (active_crawl db event source_id run_id stage_id)

accept_pages : Collector → Db → OutboxEvent → ℕ → ℕ → ℕ → Option (List IngestionRecord) → Outcome
unfolding store_crawl
accept_pages c db event source_id run_id stage_id none = broken db
accept_pages c db event source_id run_id stage_id (some records) =
    if length records == 0 || ltb 500 (length records)
    then broken db
    else store_crawl c db event source_id run_id stage_id records

unfoldable pub request_pages : Collector → Db → OutboxEvent → ℕ → ℕ → ℕ → Reply → Outcome
unfolding accept_pages
request_pages c db event source_id run_id stage_id timed_out = transient none db
request_pages c db event source_id run_id stage_id unreachable = transient none db
request_pages c db event source_id run_id stage_id (response code retry_after body) =
    if is_transient code
    then transient (retry_after_seconds retry_after) db
    else if leb 400 code
    then broken db
    else accept_pages c db event source_id run_id stage_id body

unfoldable pub collect_web_job : Collector → Db → OutboxEvent → ℕ → ℕ → Reply → Outcome
unfolding request_pages
collect_web_job c db event run_id stage_id reply = elim event.payload.configuration [
  | none ↦ broken db
  | some configuration ↦ elim event.payload.source_id [
    | none ↦ broken db
    | some source_id ↦
        if c.configured then request_pages c db event source_id run_id stage_id reply else broken db
  ]
]

-- The observations of the run's batch.
unfoldable pub observed : Db → ℕ → ℕ
observed db run_id = elim (get_run db run_id) [
  | none ↦ 0
  | some run ↦ count_where (λ o. Observation.batch_id o == run.batch_id) db.observations
]

-- A batch without observations is an error.
unfoldable pub check_observed : ℕ → Outcome → Outcome
unfolding observed
check_observed run_id (done db) = if observed db run_id == 0 then broken db else done db
check_observed run_id (transient t db) = transient t db
check_observed run_id (broken db) = broken db

unfoldable pub work : Collector → Db → OutboxEvent → ℕ → ℕ → Reply → Outcome
unfolding collect_web_job check_observed
work c db event run_id stage_id reply = check_observed run_id (
    if str_eq event.type "connector.crawl.requested"
    then collect_web_job c db event run_id stage_id reply
    else done db)
