-- ===== src/Worker.antt =====
-- apps/worker/main.py: the job that processes one ingestion event. It is a sequence of transactions:
-- the claim of the stage, the work, and one that records how the work ended. Within a transaction a
-- locked row is the row that was read before it.
pub mod Collect
pub mod Ending
pub mod Claims
pub mod Retries
pub mod Process
pub mod Finishing
pub mod Unavailable
use bbd_os.Prelude.{
  ℕ, ◌+◌, ◌*◌, String, Option, none, some, Bool, true, false, ◌&&◌, ◌||◌, not, if◌then◌else◌, Error,
  key_error, Result, ok, err, ◌>>=◌, ◌>>◌, require, after, holds, ◌==◌,
}
use bbd_os.Database.{
  Db, Source, Run, RunStatus, Stage, StageStatus, IngestionState, OutboxEvent, EventStatus,
  get_source, get_run, get_stage, get_state, get_event, put_run, put_stage, put_state, put_event,
  is_active, second, collection_lease,
}
use bbd_os.Dispatcher.{mark_event_delivered}

abbrev pub stage_timeout : ℕ
stage_timeout = 120 * second

abbrev pub max_stage_attempts : ℕ
max_stage_attempts = 5

-- An active source whose generation passes a test.
unfoldable pub available : Option Source → (ℕ → Bool) → Option Source
available none test = none
available (some s) test = if is_active s.status && test s.generation then some s else none

-- `generation == int(payload.get("source_generation", generation))`
abbrev pub same_or_absent : Option ℕ → ℕ → Bool
same_or_absent none generation = true
same_or_absent (some g) generation = g == generation

-- The collection state of the source gives up the lease, if the run has it.
unfoldable pub release_lease : ℕ → ℕ → Db → Db
release_lease source_id run_id db = elim (get_state db source_id) [
  | none ↦ db
  | some s ↦
      if holds s.lease_run_id run_id
      then put_state (record s { lease_run_id = none; lease_expires_at = none }) db
      else db
]

abbrev pub failed_stage : String → Stage → Stage
failed_stage code stage = record stage { status = StageStatus.failed; error_code = some code }

abbrev pub failed_run : String → Run → Run
failed_run code run = record run { status = RunStatus.failed; error_code = some code }

abbrev pub failed_event : OutboxEvent → OutboxEvent
failed_event event = record event { status = EventStatus.failed }

unfoldable pub reject : String → Db → OutboxEvent → Run → Stage → Db
unfolding release_lease
reject code db event run stage = release_lease run.source_id run.id (
    put_event (failed_event event)
      (put_run (failed_run code run) (put_stage (failed_stage code stage) db)))

-- What the first transaction comes to: nothing is left to do, or the stage is claimed, for the event,
-- the run and the stage.
pub data Claim : Type 0 where
  skipped : Db → Claim
  claimed : OutboxEvent → ℕ → ℕ → Db → Claim

unfoldable pub has_succeeded : StageStatus → Bool
has_succeeded StageStatus.succeeded = true
has_succeeded StageStatus.pending = false
has_succeeded StageStatus.queued = false
has_succeeded StageStatus.running = false
has_succeeded StageStatus.retrying = false
has_succeeded StageStatus.failed = false

unfoldable pub is_running : StageStatus → Bool
is_running StageStatus.running = true
is_running StageStatus.pending = false
is_running StageStatus.queued = false
is_running StageStatus.retrying = false
is_running StageStatus.succeeded = false
is_running StageStatus.failed = false

abbrev pub started_stage : ℕ → Stage → Stage
started_stage now stage = record stage {
  status = StageStatus.running;
  attempts = stage.attempts + 1;
  lease_expires_at = some (now + stage_timeout);
  error_code = none;
}

abbrev pub started_run : Run → Run
started_run run = record run { status = RunStatus.running }

unfoldable pub start : Db → Run → Stage → IngestionState → ℕ → Db
start db run stage state now = put_run (started_run run) (
    put_state (record state { lease_expires_at = some (now + collection_lease) })
      (put_stage (started_stage now stage) db))

-- The stage is started if the run holds the collection lease of its source.
unfoldable pub claim_leased : Db → OutboxEvent → Run → Stage → ℕ → Claim
unfolding reject start
claim_leased db event run stage now = elim (get_state db run.source_id) [
  | none ↦ skipped (reject "lease_expired" db event run stage)
  | some state ↦
      if holds state.lease_run_id run.id && after state.lease_expires_at now
      then claimed event run.id stage.id (start db run stage state now)
      else skipped (reject "lease_expired" db event run stage)
]

unfoldable pub claim_stage : Db → OutboxEvent → Run → Stage → ℕ → Claim
unfolding has_succeeded is_running claim_leased
claim_stage db event run stage now =
    if has_succeeded stage.status
    then skipped (mark_event_delivered db event.id)
    else if is_running stage.status && after stage.lease_expires_at now
    then skipped db
    else claim_leased db event run stage now

unfoldable pub claim_run : Db → OutboxEvent → Run → Option Stage → ℕ → Claim
unfolding claim_stage available
claim_run db event run none now = skipped (put_event (failed_event event) db)
claim_run db event run (some stage) now =
    elim (available (get_source db run.source_id)
      (same_or_absent event.payload.source_generation)) [
        | none ↦ skipped (reject "source_unavailable" db event run stage)
        | some source ↦ claim_stage db event run stage now
      ]

abbrev pub is_delivered : EventStatus → Bool
is_delivered EventStatus.delivered = true
is_delivered EventStatus.pending = false
is_delivered EventStatus.queued = false
is_delivered EventStatus.failed = false

unfoldable pub claim_event : Db → OutboxEvent → ℕ → Result Claim
unfolding claim_run
claim_event db event now = do
  run_id ← require event.payload.run_id key_error
  stage_id ← require event.payload.stage_id key_error
  elim (get_run db run_id) [
    | none ↦ ok (skipped (put_event (failed_event event) db))
    | some run ↦ ok (claim_run db event run (get_stage db stage_id) now)
  ]

unfoldable pub claim : Db → ℕ → ℕ → Result Claim
unfolding claim_event
claim db event_id now = elim (get_event db event_id) [
  | none ↦ ok (skipped db)
  | some event ↦ if is_delivered event.status then ok (skipped db) else claim_event db event now
]
