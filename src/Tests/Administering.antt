-- ===== src/Tests/Administering.antt =====
-- Sources, their credentials and purges, and runs that are tried again.
use bbd_os.Prelude.{
  ℕ, ◌+◌, ◌*◌, ◌≡◌, ◌&&◌, refl, none, some, false, List, [], ◌∷◌, ◌++◌, find, row, update_where,
  String, str_eq, os_error, ◌==◌, arith, Bool-cases, inl, inr,
}
use bbd_os.Database.{
  Db, Source, SourceStatus, PurgeOperation, PurgeStatus, OutboxEvent, EventStatus, Stage,
  StageStatus, get_source, get_event, get_purge, is_active, new_event, no_payload, put_state,
  second, collection_lease,
}
use bbd_os.Sources.{revoke_all}
use bbd_os.Sources.Fence.{SourceRequest, update, archive, serve, serve-Evolves, Evolves}
use bbd_os.Sources.{SourcePatch}
use bbd_os.Sources.Purge.{
  Removal, removed, denied, process_source_purge, returned, raised, finished_purge, failed_purge,
  set_event, postponed,
}
use bbd_os.Sources.Purge.Erasure.{process_source_purge_erases, IsPending, Leaves}
use bbd_os.Sources.Purge.Erased.{IsErased}
use bbd_os.Sources.Purge.Recovery.{process_source_purge_recovers}
use bbd_os.Ingestion.{new_stage}
use bbd_os.Ingestion.Credentials.{
  new_credential, create_collector_credential, collector_can_ingest,
  create_collector_credential_rotates,
}
use bbd_os.Ingestion.Retry.{restarted}
use bbd_os.Ingestion.Files.{file_rows}
use bbd_os.Tests.Data.{hashes, notes, db_notes, run_one, db_one, db_file}

abbrev pausing : SourcePatch
pausing = record { name = none; status = some (some SourceStatus.paused) }

abbrev requests : List (SourceRequest × ℕ)
requests = (update 1 pausing, 20) ∷ (archive 1, 30) ∷ []

serve-Evolves_example :
    (s' : Source) × (get_source (serve db_notes requests) 1 ≡ some s') × Evolves notes s'
unfolding row
serve-Evolves_example = serve-Evolves db_notes requests 1 notes refl

abbrev db_token : Db
db_token = record db_notes { credentials = new_credential "old" 1 0 ∷ [] }

abbrev db_rotated : Db
db_rotated = record db_token {
  credentials =
      record (new_credential "old" 1 0) { revoked_at = some 10 } ∷ new_credential "new" 1 10 ∷ [];
}

create_collector_credential_rotates_example :
    collector_can_ingest hashes db_rotated 1 "old"
    ≡ (is_active notes.status && str_eq (hashes.text "new") (hashes.text "old"))
unfolding create_collector_credential row find update_where revoke_all
create_collector_credential_rotates_example =
    create_collector_credential_rotates hashes db_token 1 "new" "old" "new" 10 notes db_rotated refl
      refl

abbrev archived : Source
archived = record notes { status = SourceStatus.archived; generation = 2; retired_at = some 20 }

abbrev operation : PurgeOperation
operation = record {
  id = 4;
  source_id = 1;
  generation = 2;
  raw_uris = "ab/abcd" ∷ [];
  status = PurgeStatus.queued;
  error_code = none;
  created_at = 20;
}

abbrev purge_event : OutboxEvent
purge_event =
    new_event 5 "source.purge.requested" 20 "modules.sources"
      (record no_payload { operation_id = some 4 })

abbrev db_purge : Db
db_purge = record db_file {
  sources = archived ∷ [];
  purges = operation ∷ [];
  outbox = db_file.outbox ++ purge_event ∷ [];
}

abbrev pending : IsPending db_purge 5 purge_event operation archived
unfolding row file_rows
pending = record {
  at_event = refl;
  undelivered = refl;
  names = refl;
  no_run = refl;
  at_purge = refl;
  at_source = refl;
  same_generation = refl;
  unfinished = refl;
}

abbrev removes : String → Removal
removes uri = removed

abbrev sticks : String → Removal
sticks uri = denied

-- While the files are removed another source is renamed.
abbrev renames : Db → Db
renames db = record db {
  sources = update_where (λ s. s.id == 2) (λ s. record s { name = "Renamed" }) db.sources;
}

renames-Leaves : Leaves renames db_purge 1 4 5
unfolding update_where row
renames-Leaves = record {
  same_event = λ d. refl;
  same_purge = λ d. refl;
  same_source = λ d. other_source d.sources;
  nothing_back = λ d e. record {
    no_documents = e.no_documents;
    no_versions = e.no_versions;
    no_chunks = e.no_chunks;
    no_observations = e.no_observations;
    no_batches = e.no_batches;
    no_runs = e.no_runs;
    no_stages = e.no_stages;
    no_lease = e.no_lease;
    no_credentials = e.no_credentials;
    no_events = e.no_events;
    others_kept = e.others_kept;
  };
}
  where
    other_source :
        (l : List Source)
        → row
            (λ s. Source.id s)
            1
            (update_where (λ s. s.id == 2) (λ s. record s { name = "Renamed" }) l)
          ≡ row (λ s. Source.id s) 1 l
    other_source [] = refl
    other_source (s ∷ l) = elim (Bool-cases (s.id == 2)) [
      | inl renamed ↦
          let other : (s.id == 1) ≡ false = ground arith in rw renamed (rw other (other_source l))
      | inr kept ↦ elim (Bool-cases (s.id == 1)) [
        | inl here ↦ rw kept (rw here refl)
        | inr other ↦ rw kept (rw other (other_source l))
      ]
    ]

process_source_purge_erases_example :
    (db' : Db) × (process_source_purge removes renames db_purge 5 30 31 ≡ returned db')
    × IsErased db_purge 1 db'
    × (get_purge db' 4 ≡ some (finished_purge operation))
    × (get_event db' 5 ≡ some (set_event EventStatus.delivered purge_event))
process_source_purge_erases_example =
    process_source_purge_erases removes renames db_purge 5 purge_event operation archived 30 31
      pending renames-Leaves (refl, tt)

process_source_purge_recovers_example :
    (db₁ db₂ : Db) × (process_source_purge sticks renames db_purge 5 30 31 ≡ raised os_error db₁)
    × IsErased db_purge 1 db₁
    × (get_purge db₁ 4 ≡ some (failed_purge "file_cleanup_failed" operation))
    × (get_event db₁ 5 ≡ some (postponed (31 + 30 * second) purge_event))
    × (process_source_purge removes renames db₁ 5 40 41 ≡ returned db₂)
    × IsErased db_purge 1 db₂
    × (get_purge db₂ 4 ≡ some (finished_purge operation))
process_source_purge_recovers_example =
    process_source_purge_recovers sticks removes renames renames db_purge 5 purge_event operation
      archived 30 31 40 41 [] "ab/abcd" [] os_error pending renames-Leaves renames-Leaves refl tt
      (inl (refl, refl)) (refl, tt)

abbrev stage_failed : Stage
stage_failed = record (new_stage 1 1 "receive" 10) { status = StageStatus.failed; attempts = 5 }

abbrev db_failed : Db
db_failed = record db_one { stages = stage_failed ∷ [] }

abbrev told_notes : Source
told_notes = record notes { last_sync_at = some 10; collected_at = some 10 }

abbrev db_again : Db
db_again =
    put_state
      (record {
        source_id = 1;
        cursor = some "c1";
        lease_run_id = some 1;
        lease_expires_at = some (50 + collection_lease);
      })
      (restarted db_failed told_notes run_one stage_failed 9 50)
