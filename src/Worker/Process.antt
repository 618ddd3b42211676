-- ===== src/Worker/Process.antt =====
-- `process_ingestion_event` of apps/worker/main.py as a whole. What other transactions do to the
-- database between its own is a pair of arguments.
use bbd_os.Prelude.{ℕ, Option, none, some, Error, Result, ok, err}
use bbd_os.Database.{Db, OutboxEvent}
use bbd_os.Worker.{Claim, skipped, claimed, claim}
use bbd_os.Worker.Collect.{Collector, Reply, Outcome, done, transient, broken, work}
use bbd_os.Worker.Ending.{after_transient, fail_ingestion_stage, finish}

-- How the job ends, with what it has committed: it returns, raises arq's Retry, or another error.
pub data Processed : Type 0 where
  returned : Db → Processed
  deferred : ℕ → Db → Processed
  raised : Error → Db → Processed

pub record Meanwhile : Type 0 where
  pub before_work : Db → Db
  pub after_work : Db → Db

unfoldable pub retried : Db → Result (Option ℕ × Db) → Processed
retried db (err e) = raised e db
retried db (ok (none, db')) = returned db'
retried db (ok (some delay, db')) = deferred delay db'

unfoldable pub ended : (ℕ → ℕ → ℕ) → (Db → Db) → OutboxEvent → ℕ → ℕ → ℕ → ℕ → Outcome → Processed
unfolding retried after_transient fail_ingestion_stage finish
ended uniform others event event_id run_id stage_id now (done db) =
    returned (finish (others db) event event_id run_id stage_id now)
ended uniform others event event_id run_id stage_id now (transient retry_after db) =
    retried (others db)
      (after_transient uniform (others db) event_id run_id stage_id retry_after now)
ended uniform others event event_id run_id stage_id now (broken db) =
    returned (fail_ingestion_stage (others db) event_id run_id stage_id "stage_failed" now)

unfoldable pub process_claimed :
    Collector → (ℕ → ℕ → ℕ) → Meanwhile → Db → ℕ → Reply → ℕ → Result Claim → Processed
unfolding ended work
process_claimed c uniform m db event_id reply now (err e) = raised e db
process_claimed c uniform m db event_id reply now (ok (skipped db')) = returned db'
process_claimed c uniform m db event_id reply now (ok (claimed event run_id stage_id db')) =
    ended uniform m.after_work event event_id run_id stage_id now
      (work c (m.before_work db') event run_id stage_id reply)

-- The claim is made at `now`, and the work is over at `later`.
unfoldable pub process_ingestion_event :
    Collector → (ℕ → ℕ → ℕ) → Meanwhile → Db → ℕ → Reply → ℕ → ℕ → Processed
unfolding process_claimed claim
process_ingestion_event c uniform m db event_id reply now later =
    process_claimed c uniform m db event_id reply later (claim db event_id now)
