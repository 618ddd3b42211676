-- ===== src/Tests/Working.antt =====
-- The worker and the dispatcher.
use mathlib.Core.List.{Memᴰ}
use bbd_os.Prelude.{
  ℕ, ◌+◌, ◌*◌, ◌<◌, ◌≤◌, ◌≡◌, ◌⊎◌, ◌&&◌, refl, Option, none, some, ok, true, false, not, List, [],
  ◌∷◌, ◌++◌, arith, find, row, put, update_where, All, String, length, Bool,
}
use bbd_os.Database.{
  Db, Batch, Source, SourceStatus, Stage, IngestionState, OutboxEvent, IngestionRecord, Observation,
  put_source, put_state, new_event, no_payload, second, collection_lease,
}
use bbd_os.Ingestion.{new_stage, new_batch, touch, stored, with_state, state_of}
use bbd_os.Ingestion.Crawl.{crawl_stored}
use bbd_os.Dispatcher.{is_due, selected}
use bbd_os.Dispatcher.Selection.{dispatch_selects, Ordered, AllOlder}
use bbd_os.Worker.{claim, skipped, start, max_stage_attempts}
use bbd_os.Worker.Claims.{claim_claimed, claim_excludes, IsClaimed}
use bbd_os.Worker.Retries.{after_transient_bounded, HasFailed, IsWaiting}
use bbd_os.Worker.Ending.{after_transient, finish, current_event}
use bbd_os.Worker.Finishing.{finish_outcome, HasSucceeded, WasGivenUp}
use bbd_os.Worker.Process.{Meanwhile}
use bbd_os.Worker.Collect.{Collector, Reply, response, collect_web_job, store_pages}
use bbd_os.Worker.Collect.Pages.{collect_web_job_done, Unique, none_yet, Present, pages_of}
use bbd_os.Tests.Times.{write_time, read_time}
use bbd_os.Tests.Data.{hashes, notes, page, run_one, db_one, configuration, db_crawl}

abbrev event_one : OutboxEvent
event_one =
    new_event 1 "ingestion.stage.requested" 10 "modules.ingestion"
      (record no_payload { run_id = some 1; stage_id = some 1; source_generation = some 1 })

abbrev stage_one : Stage
stage_one = new_stage 1 1 "receive" 10

abbrev state_one : IngestionState
state_one = record {
  source_id = 1;
  cursor = some "c1";
  lease_run_id = some 1;
  lease_expires_at = some (10 + collection_lease);
}

abbrev db_claimed : Db
db_claimed = start db_one run_one stage_one state_one 100

claim_claimed_example : IsClaimed db_one 1 100 event_one 1 1 db_claimed
unfolding claim find row stored update_where with_state put
claim_claimed_example = claim_claimed db_one 1 100 event_one 1 1 db_claimed refl

claim_excludes_example : claim db_claimed 1 200 ≡ ok (skipped db_claimed)
unfolding claim find row stored update_where with_state put
claim_excludes_example = claim_excludes db_one 1 100 200 event_one 1 1 db_claimed refl (omega arith)

-- A uniform distribution that is always at its lower end.
abbrev low_end : ℕ → ℕ → ℕ
low_end low high = low

after_transient_bounded_example :
    (delay : Option ℕ) × (db' : Db) × (after_transient low_end db_one 1 1 1 none 100
      ≡ ok (delay, db'))
    × (((stage_one.attempts < max_stage_attempts)
          × ((d : ℕ) × (delay ≡ some d)
              × (500000 ≤ d)
              × (d ≤ 60 * second)
              × IsWaiting event_one run_one stage_one 1 1 1 (100 + d) db'))
        ⊎ ((max_stage_attempts ≤ stage_one.attempts)
            × (delay ≡ none)
            × HasFailed db_one "retry_exhausted" event_one run_one stage_one 1 1 1 db'))
unfolding find row stored update_where current_event put with_state
after_transient_bounded_example =
    after_transient_bounded low_end db_one 1 1 1 none 100 run_one stage_one event_one refl refl refl
      (λ low high h. (omega arith, h)) (λ t e. absurd (ground arith))

finish_outcome_example :
    HasSucceeded db_one event_one 1 1 1 100 run_one stage_one event_one
      (finish db_one event_one 1 1 1 100)
    ⊎ WasGivenUp db_one event_one 1 1 1 100 run_one stage_one event_one
        (finish db_one event_one 1 1 1 100)
unfolding find row stored with_state
finish_outcome_example =
    finish_outcome db_one event_one 1 1 1 100 run_one stage_one event_one refl refl refl

abbrev collector : Collector
collector = record {
  hashes = hashes;
  configured = true;
  digest = λ pages. "digest";
  isoformat = write_time;
  fromisoformat = read_time;
}

abbrev crawl_event : OutboxEvent
crawl_event = new_event 1 "connector.crawl.requested" 10 "modules.connectors" (record no_payload {
  source_id = some 1;
  source_generation = some 1;
  run_id = some 1;
  stage_id = some 1;
  cursor_before = some none;
  configuration = some configuration;
})

abbrev archived_source : Source
archived_source = record notes { status = SourceStatus.archived; generation = 2 }

-- The source is archived while the browser service times out.
abbrev archiving : Meanwhile
archiving = record { before_work = λ db. db; after_work = λ db. put_source archived_source db }

abbrev crawl_state : IngestionState
crawl_state = record {
  source_id = 1;
  cursor = none;
  lease_run_id = some 1;
  lease_expires_at = some (10 + collection_lease);
}

abbrev db_crawling : Db
db_crawling = start db_crawl run_one (new_stage 1 1 "collect_web" 10) crawl_state 100

abbrev one_page : Reply
one_page = response 200 none (some (page "a" ∷ []))

abbrev crawled_state : IngestionState
crawled_state = record crawl_state { lease_expires_at = some (100 + collection_lease) }

abbrev crawl_batch : Batch
crawl_batch = new_batch 1 1 "minute" "https://example.org" 10

abbrev db_crawled : Db
db_crawled =
    store_pages collector db_crawling (touch 10 notes) crawl_batch crawled_state 10 (page "a" ∷ [])

collect_web_job_done_example :
    (code : ℕ) × (retry_after : Option ℕ) × (records : List IngestionRecord) × (source_id
      batch_id : ℕ)
    × (new : List Observation) × (one_page ≡ response code retry_after (some records))
    × (code < 400)
    × (1 ≤ length records)
    × (length records ≤ 500)
    × (db_crawled.observations ≡ db_crawling.observations ++ new)
    × All (Present db_crawled.observations) (pages_of collector source_id batch_id 10 records)
    × Unique db_crawled.observations
unfolding collect_web_job find row crawl_stored with_state state_of put start store_pages
collect_web_job_done_example =
    collect_web_job_done collector db_crawling crawl_event 1 1 one_page db_crawled refl none_yet

abbrev cursor_state : String → IngestionState
cursor_state cursor = record crawled_state { cursor = some cursor }

abbrev crawled_again : String → Db
crawled_again cursor =
    store_pages collector (put_state (cursor_state cursor) db_crawling) (touch 10 notes) crawl_batch
      (cursor_state cursor) 10 (page "a" ∷ [])

-- A full round of the dispatcher.
abbrev unlocked : OutboxEvent → Bool
unlocked e = false

dispatch_selects_example :
    (length (selected unlocked 100 db_one.outbox) ≤ 100)
    × Ordered (selected unlocked 100 db_one.outbox)
    × All (λ e. (is_due e 100 && not (unlocked e)) ≡ true) (selected unlocked 100 db_one.outbox)
    × ((g : OutboxEvent)
        → Memᴰ g db_one.outbox
        → (is_due g 100 && not (unlocked g)) ≡ true
        → Memᴰ g (selected unlocked 100 db_one.outbox)
          ⊎ AllOlder 100 g (selected unlocked 100 db_one.outbox))
dispatch_selects_example = dispatch_selects unlocked db_one 100
