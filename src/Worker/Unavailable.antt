-- ===== src/Worker/Unavailable.antt =====
-- A crawl whose browser service fails for a moment, while its source is archived.
use bbd_os.Prelude.{ℕ, ◌≡◌, refl, Option, none, some, holds, name_error, ok, err}
use bbd_os.Database.{Db, Run, OutboxEvent, get_source, get_run, get_event}
use bbd_os.Worker.{claimed, claim, available}
use bbd_os.Worker.Collect.{Collector, Reply, transient, work}
use bbd_os.Worker.Ending.{after_transient, current_event}
use bbd_os.Worker.Process.{
  Meanwhile, raised, retried, ended, process_claimed, process_ingestion_event,
}

not_current :
    (db : Db) (event_id : ℕ) (run : Run) (event : OutboxEvent)
    → get_event db event_id ≡ some event
    → available (get_source db run.source_id) (holds event.payload.source_generation) ≡ none
    → current_event db event_id run ≡ none
unfolding current_event
not_current db event_id run event at_event gone = rw (at_event, current_event) (rw gone)

after_transient_fails :
    (uniform : ℕ → ℕ → ℕ) (db : Db) (event_id run_id stage_id : ℕ) (retry_after : Option ℕ)
    (now : ℕ) (run : Run)
    → get_run db run_id ≡ some run
    → current_event db event_id run ≡ none
    → after_transient uniform db event_id run_id stage_id retry_after now ≡ err name_error
unfolding after_transient
after_transient_fails uniform db event_id run_id stage_id retry_after now run at_run gone =
    rw (at_run, after_transient) (rw gone)

ended_raised :
    (uniform : ℕ → ℕ → ℕ) (others : Db → Db) (event : OutboxEvent)
    (event_id run_id stage_id now : ℕ) (retry_after : Option ℕ) (db : Db)
    → after_transient uniform (others db) event_id run_id stage_id retry_after now ≡ err name_error
    → ended uniform others event event_id run_id stage_id now (transient retry_after db)
      ≡ raised name_error (others db)
unfolding ended retried
ended_raised uniform others event event_id run_id stage_id now retry_after db failed =
    rw failed refl

-- If the work on a claimed stage fails for a moment and the source of the run is not active with the
-- event's generation afterwards, the job raises NameError and stores nothing more: the rows are left
-- as the claim and the other transactions made them.
pub process_raises_unavailable :
    (c : Collector) (uniform : ℕ → ℕ → ℕ) (m : Meanwhile) (db db₁ db₂ : Db) (event_id : ℕ)
    (reply : Reply) (now later : ℕ) (event row : OutboxEvent) (run_id stage_id : ℕ)
    (retry_after : Option ℕ) (run : Run)
    → claim db event_id now ≡ ok (claimed event run_id stage_id db₁)
    → work c (m.before_work db₁) event run_id stage_id reply ≡ transient retry_after db₂
    → get_run (m.after_work db₂) run_id ≡ some run
    → get_event (m.after_work db₂) event_id ≡ some row
    → available (get_source (m.after_work db₂) run.source_id) (holds row.payload.source_generation)
      ≡ none
    → process_ingestion_event c uniform m db event_id reply now later
      ≡ raised name_error (m.after_work db₂)
unfolding process_ingestion_event process_claimed
process_raises_unavailable c uniform m db db₁ db₂ event_id reply now later event row run_id stage_id
      retry_after run c₁ w at_run at_event gone =
    rw (c₁, process_claimed)
      (rw w (
        ended_raised uniform m.after_work event event_id run_id stage_id later retry_after db₂ (
          after_transient_fails uniform (m.after_work db₂) event_id run_id stage_id retry_after
            later run at_run (not_current (m.after_work db₂) event_id run row at_event gone))))
