-- ===== src/Worker/Ending.antt =====
-- How a claimed stage ends in apps/worker/main.py: `_fail_ingestion_stage`, the transaction that
-- follows a transient failure, and the one that follows success.
use bbd_os.Prelude.{
  ℕ, ◌+◌, ◌*◌, ◌^◌, String, Option, none, some, if◌then◌else◌, min, max, leb, name_error, Result,
  ok, err, holds,
}
use bbd_os.Database.{
  Db, Source, Run, RunStatus, Stage, StageStatus, OutboxEvent, EventStatus, get_source, get_run,
  get_stage, get_state, get_event, put_source, put_run, put_stage, put_state, put_event, second,
  collection_lease,
}
use bbd_os.Dispatcher.{mark_event_delivered}
use bbd_os.Worker.{
  available, release_lease, failed_stage, failed_run, failed_event, max_stage_attempts,
}

-- The error of a collection on its source.
abbrev pub collection_failed : String → ℕ → Source → Source
collection_failed code now s = record s {
  collection_error_code = some code;
  last_error_code = some code;
  last_error_at = some now;
}

unfoldable pub note_failure : String → ℕ → ℕ → Db → Db
note_failure code now source_id db = elim (get_source db source_id) [
  | none ↦ db
  | some s ↦ put_source (collection_failed code now s) db
]

unfoldable pub failed_rows : String → Db → OutboxEvent → Run → Stage → ℕ → Db
unfolding note_failure
failed_rows code db event run stage now = note_failure code now run.source_id (
    put_event (failed_event event) (
      put_run (failed_run code run)
        (put_stage (record (failed_stage code stage) { lease_expires_at = none }) db)))

unfoldable pub fail_rows : String → Db → OutboxEvent → Run → Stage → ℕ → Db
unfolding failed_rows release_lease
fail_rows code db event run stage now =
    release_lease run.source_id run.id (failed_rows code db event run stage now)

unfoldable pub fail_event : Db → ℕ → Db
fail_event db event_id = elim (get_event db event_id) [
  | none ↦ db
  | some event ↦ put_event (failed_event event) db
]

unfoldable pub fail_ingestion_stage : Db → ℕ → ℕ → ℕ → String → ℕ → Db
unfolding fail_event fail_rows
fail_ingestion_stage db event_id run_id stage_id code now = elim (get_run db run_id) [
  | none ↦ fail_event db event_id
  | some run ↦ elim (get_stage db stage_id) [
    | none ↦ db
    | some stage ↦ elim (get_event db event_id) [
      | none ↦ db
      | some event ↦ fail_rows code db event run stage now
    ]
  ]
]

-- `random.uniform` is the parameter `uniform`. A delay is a number of microseconds.
unfoldable pub retry_delay : (ℕ → ℕ → ℕ) → Option ℕ → ℕ → ℕ
retry_delay uniform none attempt = uniform 500000 (min (60 * second) (2 ^ attempt * second))
retry_delay uniform (some t) attempt = max 500000 t

-- The run goes on to hold the collection lease while it waits.
unfoldable pub extend_lease : ℕ → ℕ → ℕ → Db → Db
extend_lease source_id run_id now db = elim (get_state db source_id) [
  | none ↦ db
  | some s ↦
      if holds s.lease_run_id run_id
      then put_state (record s { lease_expires_at = some (now + collection_lease) }) db
      else db
]

abbrev pub waiting_stage : ℕ → Stage → Stage
waiting_stage at stage = record stage {
  status = StageStatus.retrying;
  error_code = some "transient_failure";
  next_attempt_at = at;
  lease_expires_at = none;
}

abbrev pub waiting_event : ℕ → OutboxEvent → OutboxEvent
waiting_event at event = record event { status = EventStatus.pending; next_attempt_at = at }

abbrev pub waiting_run : Run → Run
waiting_run run = record run { status = RunStatus.queued }

unfoldable pub waiting_rows : Db → OutboxEvent → Run → Stage → ℕ → Db
waiting_rows db event run stage at =
    put_event (waiting_event at event)
      (put_run (waiting_run run) (put_stage (waiting_stage at stage) db))

unfoldable pub schedule : Db → OutboxEvent → Run → Stage → ℕ → ℕ → Db
unfolding extend_lease waiting_rows
schedule db event run stage delay now =
    extend_lease run.source_id run.id now (waiting_rows db event run stage (now + delay))

-- After the last attempt the stage fails, in a transaction of its own.
unfoldable pub schedule_or_fail :
    (ℕ → ℕ → ℕ) → Db → OutboxEvent → Run → Stage → ℕ → ℕ → ℕ → Option ℕ → ℕ → Option ℕ × Db
unfolding fail_ingestion_stage retry_delay schedule
schedule_or_fail uniform db event run stage event_id run_id stage_id retry_after now =
    if leb max_stage_attempts stage.attempts
    then (none, fail_ingestion_stage db event_id run_id stage_id "retry_exhausted" now)
    else let delay = retry_delay uniform retry_after stage.attempts in
      (some delay, schedule db event run stage delay now)

-- The event, if it exists and its source is active with the event's generation.
unfoldable pub current_event : Db → ℕ → Run → Option OutboxEvent
unfolding available
current_event db event_id run = elim (get_event db event_id) [
  | none ↦ none
  | some event ↦
      elim (available (get_source db run.source_id) (holds event.payload.source_generation)) [
        | none ↦ none
        | some source ↦ some event
      ]
]

-- The transaction after a transient failure: the delay of the retry that is raised, if one is. If the
-- source is no longer available, the code changes rows and then reads `with_for_update`, which is no
-- name in it: NameError is raised before the commit.
unfoldable pub after_transient :
    (ℕ → ℕ → ℕ) → Db → ℕ → ℕ → ℕ → Option ℕ → ℕ → Result (Option ℕ × Db)
unfolding current_event schedule_or_fail
after_transient uniform db event_id run_id stage_id retry_after now = elim (get_run db run_id) [
  | none ↦ ok (none, db)
  | some run ↦ elim (current_event db event_id run) [
    | none ↦ err name_error
    | some event ↦ elim (get_stage db stage_id) [
      | none ↦ ok (none, db)
      | some stage ↦
          ok (schedule_or_fail uniform db event run stage event_id run_id stage_id retry_after now)
    ]
  ]
]

abbrev pub finished_stage : Stage → Stage
finished_stage stage = record stage {
  status = StageStatus.succeeded;
  error_code = none;
  lease_expires_at = none;
}

abbrev pub finished_run : Run → Run
finished_run run = record run { status = RunStatus.succeeded; error_code = none }

abbrev pub collected_source : ℕ → Source → Source
collected_source now s = record s {
  last_success_at = some now;
  last_error_code = none;
  collection_error_code = none;
}

unfoldable pub finished_rows : Db → Run → Stage → Source → ℕ → Db
finished_rows db run stage source now =
    put_source (collected_source now source)
      (put_run (finished_run run) (put_stage (finished_stage stage) db))

unfoldable pub succeed : Db → Run → Stage → Source → ℕ → Db
unfolding release_lease finished_rows
succeed db run stage source now =
    release_lease run.source_id run.id (finished_rows db run stage source now)

-- A source that has become unavailable: here the event is left as it is.
unfoldable pub unavailable_rows : Db → Run → Stage → Db
unavailable_rows db run stage =
    put_run (failed_run "source_unavailable" run)
      (put_stage (failed_stage "source_unavailable" stage) db)

unfoldable pub give_up : Db → Run → Stage → Db
unfolding release_lease unavailable_rows
give_up db run stage = release_lease run.source_id run.id (unavailable_rows db run stage)

-- The transactions after success, for the event as it was claimed.
unfoldable pub finish : Db → OutboxEvent → ℕ → ℕ → ℕ → ℕ → Db
unfolding succeed give_up available
finish db event event_id run_id stage_id now = elim (get_run db run_id) [
  | none ↦ db
  | some run ↦ elim (get_stage db stage_id) [
    | none ↦ db
    | some stage ↦
        elim (available (get_source db run.source_id) (holds event.payload.source_generation)) [
          | none ↦ give_up db run stage
          | some source ↦ mark_event_delivered (succeed db run stage source now) event_id
        ]
  ]
]
