-- ===== src/Worker/Finishing.antt =====
-- What the transactions after successful work leave behind, whatever happened to the source before.
use bbd_os.Prelude.{
  ℕ, ◌≡◌, ◌⊎◌, inl, inr, none, some, true, holds, Option-cases, row-put_self, row-key,
}
use mathlib.Core.Path.{subst}
use bbd_os.Database.{
  Db, Source, Run, Stage, OutboxEvent, EventStatus, get_source, get_run, get_stage, get_event,
  is_active, put_event,
}
use bbd_os.Dispatcher.{mark_event_delivered}
use bbd_os.Worker.{available, failed_stage, failed_run}
use bbd_os.Worker.Claims.{available_found}
use bbd_os.Worker.Retries.{IsFree, release_lease-SameRows, release_lease-IsFree}
use bbd_os.Worker.Ending.{
  finish, succeed, finished_rows, give_up, unavailable_rows, finished_run, finished_stage,
  collected_source,
}

abbrev delivered_event : OutboxEvent → OutboxEvent
delivered_event e = record e { status = EventStatus.delivered }

module _ (db : Db) (event : OutboxEvent) (event_id run_id stage_id now : ℕ) (run : Run)
    (stage : Stage) (row : OutboxEvent) where
  -- The run is recorded as a success, for the source as it is.
  pub record HasSucceeded (db' : Db) : Type 0 where
    pub source : Source
    pub at_source : get_source db run.source_id ≡ some source
    pub active : is_active source.status ≡ true
    pub fresh : holds event.payload.source_generation source.generation ≡ true
    pub stage_done : get_stage db' stage_id ≡ some (finished_stage stage)
    pub run_done : get_run db' run_id ≡ some (finished_run run)
    pub delivered : get_event db' event_id ≡ some (delivered_event row)
    pub source_told : get_source db' run.source_id ≡ some (collected_source now source)
    pub lease_free : IsFree db' run.source_id run_id

  -- The run has failed since its source is not available.
  pub record WasGivenUp (db' : Db) : Type 0 where
    pub gone :
        available (get_source db run.source_id) (holds event.payload.source_generation) ≡ none
    pub stage_failed : get_stage db' stage_id ≡ some (failed_stage "source_unavailable" stage)
    pub run_failed : get_run db' run_id ≡ some (failed_run "source_unavailable" run)
    pub sources_kept : db'.sources ≡ db.sources
    pub lease_free : IsFree db' run.source_id run_id

  module _ (at_run : get_run db run_id ≡ some run) (at_stage : get_stage db stage_id ≡ some stage)
      (at_event : get_event db event_id ≡ some row) where
    give_up-WasGivenUp :
        available (get_source db run.source_id) (holds event.payload.source_generation) ≡ none
        → WasGivenUp (give_up db run stage)
    unfolding give_up unavailable_rows
    give_up-WasGivenUp gone =
        let rows = release_lease-SameRows run.source_id run.id (unavailable_rows db run stage) in
        record {
          gone = gone;
          stage_failed = rw rows.stages (row-put_self _ _ _ _ _ at_stage (row-key _ _ _ at_stage));
          run_failed = rw rows.runs (row-put_self _ _ _ _ _ at_run (row-key _ _ _ at_run));
          sources_kept = rows.sources;
          lease_free =
              subst (λ (i : ℕ). IsFree (give_up db run stage) run.source_id i)
                (row-key _ _ _ at_run)
                (release_lease-IsFree run.source_id run.id (unavailable_rows db run stage));
        }

    event-succeed :
        (source : Source) → get_event (succeed db run stage source now) event_id ≡ some row
    unfolding succeed finished_rows
    event-succeed source =
        let rows =
          release_lease-SameRows run.source_id run.id (finished_rows db run stage source now) in
        rw rows.outbox at_event

    delivered_step :
        (source : Source)
        → mark_event_delivered (succeed db run stage source now) event_id
          ≡ put_event (delivered_event row) (succeed db run stage source now)
    unfolding mark_event_delivered
    delivered_step source = rw (event-succeed source, mark_event_delivered)

    succeed-HasSucceeded :
        (source : Source)
        → get_source db run.source_id ≡ some source
        → is_active source.status ≡ true
        → holds event.payload.source_generation source.generation ≡ true
        → HasSucceeded (put_event (delivered_event row) (succeed db run stage source now))
    unfolding succeed finished_rows
    succeed-HasSucceeded source at_source active fresh =
        let rows =
          release_lease-SameRows run.source_id run.id (finished_rows db run stage source now) in
        record {
          source = source;
          at_source = at_source;
          active = active;
          fresh = fresh;
          stage_done = rw rows.stages (row-put_self _ _ _ _ _ at_stage (row-key _ _ _ at_stage));
          run_done = rw rows.runs (row-put_self _ _ _ _ _ at_run (row-key _ _ _ at_run));
          delivered = row-put_self _ _ _ _ _ (event-succeed source) (row-key _ _ _ at_event);
          source_told =
              rw rows.sources (row-put_self _ _ _ _ _ at_source (row-key _ _ _ at_source));
          lease_free =
              subst (λ (i : ℕ). IsFree (succeed db run stage source now) run.source_id i)
                (row-key _ _ _ at_run)
                (release_lease-IsFree run.source_id run.id (finished_rows db run stage source now));
        }

    -- After successful work on a stage, the stage and the run have succeeded, the event is delivered
    -- and the source shows the success, if the source is active with the event's generation; if not,
    -- the stage and the run have failed and the sources are as they were. In both cases the run has
    -- no collection lease any more.
    pub finish_outcome :
        HasSucceeded (finish db event event_id run_id stage_id now)
        ⊎ WasGivenUp (finish db event event_id run_id stage_id now)
    unfolding finish
    finish_outcome =
        elim (Option-cases
          (available (get_source db run.source_id) (holds event.payload.source_generation))) [
            | inl gone ↦ rw (at_run, finish) (rw at_stage (rw gone (inr (give_up-WasGivenUp gone))))
            | inr (source, there) ↦
                let (at_source, active, fresh) =
                  available_found (get_source db run.source_id)
                    (holds event.payload.source_generation) source there in
                rw (at_run, finish)
                  (rw at_stage (
                    rw there (
                      rw (delivered_step source)
                        (inl (succeed-HasSucceeded source at_source active fresh)))))
          ]
