-- ===== src/Sources/Purge.antt =====
-- modules/sources/worker.py: the job that erases an archived source. Rows that refer to deleted rows
-- go with them, or lose the reference, as the foreign keys of the tables say. `unlink` says for each
-- stored file what its removal comes to, and `others` is what other transactions do between the first
-- transaction of the job and its last; `later` is the time then.
pub mod Erased
pub mod Erasure
pub mod Recovery
use bbd_os.Prelude.{
  ℕ, ◌+◌, ◌*◌, String, Option, none, some, Bool, true, false, List, [], ◌∷◌, ◌&&◌, ◌||◌, not,
  if◌then◌else◌, ◌==◌, holds, any, all, is_none, update_where, delete_where, key_error, Error,
  os_error, value_error, Result, ok, err, ◌>>=◌, require,
}
use bbd_os.Database.{
  Db, Source, PurgeOperation, PurgeStatus, Credential, Document, DocumentVersion, DocumentChunk,
  Batch, Run, Stage, Observation, IngestionState, OutboxEvent, EventStatus, get_source, get_purge,
  get_event, put_purge, put_event, second,
}

abbrev pub is_succeeded : PurgeStatus → Bool
is_succeeded PurgeStatus.succeeded = true
is_succeeded PurgeStatus.queued = false
is_succeeded PurgeStatus.running = false
is_succeeded PurgeStatus.failed = false

abbrev pub is_delivered : EventStatus → Bool
is_delivered EventStatus.delivered = true
is_delivered EventStatus.pending = false
is_delivered EventStatus.queued = false
is_delivered EventStatus.failed = false

-- Rows that belong to the source, some of them by way of other rows.
owns_batch : ℕ → List Batch → ℕ → Bool
owns_batch source_id batches i =
    any (λ b. Batch.id b == i && Batch.source_id b == source_id) batches

run_goes : ℕ → Db → Run → Bool
unfolding owns_batch
run_goes source_id db r = owns_batch source_id db.batches r.batch_id

run_id_goes : ℕ → Db → ℕ → Bool
unfolding run_goes
run_id_goes source_id db i = any (λ r. Run.id r == i && run_goes source_id db r) db.runs

owns_document : ℕ → Db → ℕ → Bool
owns_document source_id db i =
    any (λ d. Document.id d == i && Document.source_id d == source_id) db.documents

owns_version : ℕ → Db → ℕ → Bool
unfolding owns_document
owns_version source_id db i =
    any (λ v. DocumentVersion.id v == i && owns_document source_id db v.document_id) db.versions

-- The run identifier of an event is that of a run of the source.
names_run_of : ℕ → List Run → Option ℕ → Bool
names_run_of source_id runs none = false
names_run_of source_id runs (some i) = any (λ r. Run.id r == i && Run.source_id r == source_id) runs

-- `lease_run_id` is set to null when its run is deleted; the state of the source gives up its lease.
released : ℕ → Db → IngestionState → IngestionState
unfolding run_id_goes
released source_id db s =
    if s.source_id == source_id
    then record s { lease_run_id = none; lease_expires_at = none }
    else record s {
      lease_run_id = elim s.lease_run_id [
        | none ↦ none
        | some i ↦ if run_id_goes source_id db i then none else some i
      ];
    }

abbrev pub is_doc_of : ℕ → Document → Bool
is_doc_of source_id d = d.source_id == source_id

abbrev pub is_batch_of : ℕ → Batch → Bool
is_batch_of source_id b = b.source_id == source_id

-- An observation is deleted for its source, or with its batch.
observation_goes : ℕ → Db → Observation → Bool
unfolding owns_batch
observation_goes source_id db o =
    o.source_id == source_id || owns_batch source_id db.batches o.batch_id

unfoldable pub erase : Db → ℕ → ℕ → Db
unfolding owns_batch run_goes run_id_goes owns_document owns_version names_run_of released
    observation_goes
erase db source_id now = record db {
  outbox =
      update_where (λ e. names_run_of source_id db.runs (OutboxEvent.payload e).run_id)
        (λ e. record e { status = EventStatus.failed }) db.outbox;
  documents = delete_where (is_doc_of source_id) db.documents;
  versions =
      delete_where (λ v. owns_document source_id db (DocumentVersion.document_id v)) db.versions;
  chunks =
      delete_where (λ c. owns_version source_id db (DocumentChunk.document_version_id c)) db.chunks;
  observations = delete_where (observation_goes source_id db) db.observations;
  batches = delete_where (is_batch_of source_id) db.batches;
  runs = delete_where (run_goes source_id db) db.runs;
  stages = delete_where (λ s. run_id_goes source_id db (Stage.run_id s)) db.stages;
  states = update_where (λ s. true) (released source_id db) db.states;
  credentials =
      update_where (λ c. c.source_id == source_id) (λ c. record c { revoked_at = some now })
        db.credentials;
}

abbrev pub running_purge : PurgeOperation → PurgeOperation
running_purge p = record p { status = PurgeStatus.running; error_code = none }

abbrev pub failed_purge : String → PurgeOperation → PurgeOperation
failed_purge code p = record p { status = PurgeStatus.failed; error_code = some code }

abbrev pub finished_purge : PurgeOperation → PurgeOperation
finished_purge p = record p { status = PurgeStatus.succeeded; error_code = none }

abbrev pub set_event : EventStatus → OutboxEvent → OutboxEvent
set_event status e = record e { status = status }

unfoldable pub change_purge : (PurgeOperation → PurgeOperation) → ℕ → Db → Db
change_purge f operation_id db = elim (get_purge db operation_id) [
  | none ↦ db
  | some p ↦ put_purge (f p) db
]

unfoldable pub change_event : (OutboxEvent → OutboxEvent) → ℕ → Db → Db
change_event f event_id db = elim (get_event db event_id) [
  | none ↦ db
  | some e ↦ put_event (f e) db
]

abbrev pub postponed : ℕ → OutboxEvent → OutboxEvent
postponed at e = record e { status = EventStatus.pending; next_attempt_at = at }

-- The last two transactions: the files could not all be removed, or they are gone.
unfoldable pub cleanup_failed : Db → ℕ → ℕ → ℕ → Db
unfolding change_purge change_event
cleanup_failed db event_id operation_id now =
    change_event (postponed (now + 30 * second)) event_id
      (change_purge (failed_purge "file_cleanup_failed") operation_id db)

unfoldable pub purge_succeeded : Db → ℕ → ℕ → Db
unfolding change_purge change_event
purge_succeeded db event_id operation_id =
    change_event (set_event EventStatus.delivered) event_id
      (change_purge finished_purge operation_id db)

-- How the job ends, with what it has committed.
pub data PurgeEnd : Type 0 where
  returned : Db → PurgeEnd
  raised : Error → Db → PurgeEnd

-- A file is removed or was not there, the file system refuses, or the path is not one of the storage.
pub data Removal : Type 0 where
  removed denied invalid : Removal

abbrev pub then_removal : Removal → Option Error → Option Error
then_removal removed rest = rest
then_removal denied rest = some os_error
then_removal invalid rest = some value_error

-- The removal stops at the first file that cannot be removed.
unfoldable pub first_error : (String → Removal) → List String → Option Error
first_error unlink [] = none
first_error unlink (uri ∷ uris) = then_removal (unlink uri) (first_error unlink uris)

unfoldable pub remove_files :
    (String → Removal) → (Db → Db) → Db → ℕ → ℕ → List String → ℕ → PurgeEnd
unfolding cleanup_failed purge_succeeded first_error
remove_files unlink others db event_id operation_id raw_uris later =
    elim (first_error unlink raw_uris) [
      | none ↦ returned (purge_succeeded (others db) event_id operation_id)
      | some e ↦ raised e (cleanup_failed (others db) event_id operation_id later)
    ]

unfoldable pub purge_operation :
    (String → Removal)
    → (Db → Db)
    → Db
    → ℕ
    → OutboxEvent
    → PurgeOperation
    → Option Source
    → ℕ
    → ℕ
    → PurgeEnd
unfolding erase remove_files
purge_operation unlink others db event_id event p none now later = returned (
    put_purge (failed_purge "source_generation_changed" p)
      (put_event (set_event EventStatus.failed event) db))
purge_operation unlink others db event_id event p (some source) now later =
    if source.generation == p.generation
    then (if is_succeeded p.status
        then returned (put_event (set_event EventStatus.delivered event) db)
        else remove_files unlink others (put_purge (running_purge p) (erase db source.id now))
            event_id p.id p.raw_uris later)
    else returned (
        put_purge (failed_purge "source_generation_changed" p)
          (put_event (set_event EventStatus.failed event) db))

unfoldable pub purge_event :
    (String → Removal) → (Db → Db) → Db → ℕ → OutboxEvent → ℕ → ℕ → PurgeEnd
unfolding purge_operation
purge_event unlink others db event_id event now later = elim event.payload.operation_id [
  | none ↦ raised key_error db
  | some operation_id ↦ elim (get_purge db operation_id) [
    | none ↦ returned (put_event (set_event EventStatus.failed event) db)
    | some p ↦
        purge_operation unlink others db event_id event p (get_source db p.source_id) now later
  ]
]

unfoldable pub process_source_purge : (String → Removal) → (Db → Db) → Db → ℕ → ℕ → ℕ → PurgeEnd
unfolding purge_event
process_source_purge unlink others db event_id now later = elim (get_event db event_id) [
  | none ↦ returned db
  | some event ↦
      if is_delivered event.status
      then returned db
      else purge_event unlink others db event_id event now later
]
