-- ===== src/Ingestion/Retry.antt =====
-- `retry_run` of modules/ingestion/public.py: a failed run is queued again.
pub mod Restart
use bbd_os.Prelude.{
  ℕ, ◌+◌, String, Option, none, some, Bool, true, false, List, [], ◌∷◌, ◌++◌, ◌&&◌, not, ◌==◌,
  if◌then◌else◌, http, runtime_error, Result, ok, err, ◌>>=◌, ◌>>◌, guard, require, find, is_none,
  after, holds, ltb,
}
use bbd_os.Database.{
  Db, Source, Run, RunStatus, Stage, StageStatus, IngestionState, OutboxEvent, EventPayload,
  get_source, get_run, get_state, is_active, put_run, put_stage, put_state, new_event, no_payload,
  collection_lease,
}
use bbd_os.Ingestion.{source_inactive, already_leased}

-- The newest event of a stage.
unfoldable pub prior_event : ℕ → List OutboxEvent → Option OutboxEvent
prior_event stage_id [] = none
prior_event stage_id (e ∷ l) =
    let rest = prior_event stage_id l in
    if holds e.payload.stage_id stage_id
    then elim rest [
      | none ↦ some e
      | some f ↦ if ltb e.created_at f.created_at then some f else some e
    ]
    else rest

-- Only a failed stage is started again.
unfoldable pub restartable : StageStatus → Bool
restartable StageStatus.failed = true
restartable StageStatus.pending = false
restartable StageStatus.queued = false
restartable StageStatus.running = false
restartable StageStatus.retrying = false
restartable StageStatus.succeeded = false

abbrev pub restarted_stage : Stage → ℕ → Stage
restarted_stage stage now = record stage {
  status = StageStatus.pending;
  attempts = 0;
  error_code = none;
  next_attempt_at = now;
  lease_expires_at = none;
}

abbrev pub restarted_run : Run → Run
restarted_run run = record run { status = RunStatus.queued; error_code = none }

-- The event of the new attempt repeats the type and the payload of the last one.
unfoldable pub repeat_type : Option OutboxEvent → String
repeat_type none = "ingestion.stage.requested"
repeat_type (some e) = e.type

unfoldable pub repeat_payload : Option OutboxEvent → Run → Stage → EventPayload
repeat_payload none run stage = record no_payload { run_id = some run.id; stage_id = some stage.id }
repeat_payload (some e) run stage = e.payload

unfoldable pub retry_event : Db → Source → Run → Stage → ℕ → ℕ → OutboxEvent
unfolding prior_event repeat_type repeat_payload
retry_event db source run stage event_id now =
    let prior = prior_event stage.id db.outbox in
    new_event event_id (repeat_type prior) now "modules.ingestion"
      (record (repeat_payload prior run stage) { source_generation = some source.generation })

-- Another run holds a lease that has not expired.
unfoldable pub leased_by_other : IngestionState → ℕ → ℕ → Bool
leased_by_other s run_id now = elim s.lease_run_id [
  | none ↦ false
  | some r ↦ not (r == run_id) && after s.lease_expires_at now
]

unfoldable pub restarted : Db → Source → Run → Stage → ℕ → ℕ → Db
unfolding retry_event
restarted db source run stage event_id now =
    record (put_stage (restarted_stage stage now) (put_run (restarted_run run) db)) {
      outbox = db.outbox ++ retry_event db source run stage event_id now ∷ [];
    }

restart : Db → Source → Run → Stage → ℕ → ℕ → Result (Option Run × Db)
unfolding restarted leased_by_other
restart db source run stage event_id now =
    let db' = restarted db source run stage event_id now in
    elim (get_state db run.source_id) [
      | none ↦ ok (some (restarted_run run), db')
      | some s ↦ do
        guard (not (leased_by_other s run.id now)) already_leased
        ok (
          some (restarted_run run),
          put_state
              (record s {
                lease_run_id = some run.id;
                lease_expires_at = some (now + collection_lease);
              })
              db',
        )
    ]

retry_stage : Db → Source → Run → Stage → ℕ → ℕ → Result (Option Run × Db)
unfolding restart restartable
retry_stage db source run stage event_id now =
    if restartable stage.status then restart db source run stage event_id now else ok (some run, db)

unfoldable pub retry_run : Db → ℕ → ℕ → ℕ → Result (Option Run × Db)
unfolding retry_stage
retry_run db run_id event_id now = elim (get_run db run_id) [
  | none ↦ ok (none, db)
  | some run ↦ do
    source ← require (get_source db run.source_id) source_inactive
    guard (is_active source.status) source_inactive
    stage ← require (find (λ s. Stage.run_id s == run_id) db.stages) runtime_error
    retry_stage db source run stage event_id now
]
