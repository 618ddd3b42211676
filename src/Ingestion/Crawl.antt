-- ===== src/Ingestion/Crawl.antt =====
-- `queue_connector_crawl` of modules/ingestion/public.py: a crawl of a source is queued as the run of
-- an ingestion batch, under the collection lease of the source.
pub mod Exclusive
use bbd_os.Prelude.{
  ℕ, ◌+◌, ◌*◌, ◌/◌, ◌<◌, ◌≡◌, refl, String, Option, none, some, Bool, true, false, List, [], ◌∷◌,
  ◌++◌, ◌&&◌, ◌||◌, not, ◌==◌, if◌then◌else◌, arith, Error, http, runtime_error, Result, ok, err,
  ◌>>=◌, ◌>>◌, >>=-ok, guard, require, find, row, put, is_none, str_eq, same_text, after,
  update_where, Option-cases, Bool-cases, inl, inr,
}
use bbd_os.Database.{
  Db, Source, Batch, Run, CrawlConfiguration, IngestionState, get_source, get_state, is_active,
  put_source, put_state, new_event, no_payload, second, collection_lease,
}
use bbd_os.Ingestion.{
  Hashes, NewIds, is_batch, is_run_of, state_of, with_state, new_batch, new_run, new_stage, touch,
  source_missing, source_inactive, already_leased, cursor_stale,
}

-- The key of a crawl: equal requests within one minute have the same.
abbrev pub crawl_key : Hashes → ℕ → Option String → CrawlConfiguration → ℕ → String
crawl_key h source_id cursor_before configuration now =
    h.crawl source_id cursor_before configuration (now / (60 * second))

unfoldable pub crawl_stored :
    Hashes → Db → ℕ → Source → IngestionState → Option String → CrawlConfiguration → NewIds → ℕ → Db
crawl_stored h db sid source state cursor_before configuration ids now =
    let key = crawl_key h sid cursor_before configuration now in
    record (put_state
      (record state {
        lease_run_id = some ids.run_id;
        lease_expires_at = some (now + collection_lease);
      })
      (put_source (touch now source) db)) {
        batches =
            db.batches ++ new_batch ids.batch_id sid key (h.configuration configuration) now ∷ [];
        runs = db.runs ++ new_run ids.run_id ids.batch_id sid now ∷ [];
        stages = db.stages ++ new_stage ids.stage_id ids.run_id "collect_web" now ∷ [];
        outbox =
            db.outbox
            ++ new_event ids.event_id "connector.crawl.requested" now "modules.connectors"
                (record no_payload {
                  source_id = some sid;
                  source_generation = some source.generation;
                  run_id = some ids.run_id;
                  stage_id = some ids.stage_id;
                  cursor_before = some cursor_before;
                  configuration = some configuration;
                })
              ∷ [];
      }

-- A run that was queued before is returned and the transaction is not committed.
crawl_again : Db → Batch → Result (Run × Db)
crawl_again db existing = do
  run ← require (find (is_run_of existing.id) db.runs) runtime_error
  ok (run, db)

crawl_new :
    Hashes → Db → ℕ → Source → Option String → CrawlConfiguration → NewIds → ℕ → Result (Run × Db)
unfolding crawl_stored with_state state_of
crawl_new h db source_id source cursor_before configuration ids now = do
  let state = state_of db source_id
  guard (not (after state.lease_expires_at now)) already_leased
  ok (
    new_run ids.run_id ids.batch_id source_id now,
    crawl_stored h (with_state db source_id) source_id source state cursor_before configuration ids
        now,
  )

crawl_active :
    Hashes → Db → ℕ → Source → Option String → CrawlConfiguration → NewIds → ℕ → Result (Run × Db)
unfolding crawl_again crawl_new
crawl_active h db source_id source cursor_before configuration ids now =
    elim (find (is_batch source_id (crawl_key h source_id cursor_before configuration now))
      db.batches) [
        | some existing ↦ crawl_again db existing
        | none ↦ crawl_new h db source_id source cursor_before configuration ids now
      ]

unfoldable pub queue_connector_crawl :
    Hashes → Db → ℕ → Option String → CrawlConfiguration → NewIds → ℕ → Result (Run × Db)
unfolding crawl_active
queue_connector_crawl h db source_id cursor_before configuration ids now = do
  source ← require (get_source db source_id) source_missing
  guard (is_active source.status) source_inactive
  guard (same_text (state_of db source_id).cursor cursor_before) cursor_stale
  crawl_active h db source_id source cursor_before configuration ids now
