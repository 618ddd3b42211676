-- ===== src/Ingestion.antt =====
-- `receive_batch` of modules/ingestion/public.py: the transaction that accepts the records of a
-- collector. SHA-256 over canonical JSON is the parameter `Hashes`; the identifiers that uuid4 draws
-- are arguments; the clock readings of one transaction are one number, `now`.
pub mod Credentials
pub mod Crawl
pub mod Files
pub mod Retry
pub mod Accepted
pub mod Replay
pub mod Exclusive
pub mod Records
use bbd_os.Prelude.{
  ℕ, zero, suc, ◌+◌, String, Option, none, some, Bool, true, false, List, [], ◌∷◌, ◌++◌, ◌==◌, ◌&&◌,
  not, if◌then◌else◌, Error, http, runtime_error, Result, ok, err, ◌>>=◌, ◌>>◌, guard, require,
  after, same_text, find, update_where, str_eq, any,
}
use bbd_os.Database.{
  Db, Source, Batch, Run, RunStatus, Stage, StageStatus, IngestionRecord, Observation,
  IngestionState, CrawlConfiguration, EventPayload, get_source, get_state, put_source, is_active,
  new_event, no_payload, collection_lease,
}

pub record ReceiveBatch : Type 0 where
  pub source_id : ℕ
  pub batch_key : String
  pub cursor_before : Option String
  pub cursor_after : Option String
  pub records : List IngestionRecord

-- `_digest` at the values that the program hashes, and SHA-256 of a text.
pub record Hashes : Type 0 where
  pub batch : ReceiveBatch → String
  pub content : Option String → String → String → String
  pub crawl : ℕ → Option String → CrawlConfiguration → ℕ → String
  pub configuration : CrawlConfiguration → String
  pub text : String → String

pub record NewIds : Type 0 where
  pub batch_id : ℕ
  pub run_id : ℕ
  pub stage_id : ℕ
  pub event_id : ℕ

abbrev pub is_batch : ℕ → String → Batch → Bool
is_batch source_id batch_key b = b.source_id == source_id && str_eq b.batch_key batch_key

abbrev pub is_run_of : ℕ → Run → Bool
is_run_of batch_id r = r.batch_id == batch_id

abbrev pub source_missing : Error
source_missing = http 404 "Source not found"

abbrev pub source_inactive : Error
source_inactive = http 409 "Source is not active"

abbrev pub already_leased : Error
already_leased = http 409 "Source already has an active collection run"

abbrev pub cursor_stale : Error
cursor_stale = http 409 "Collection cursor is stale"

-- A new collection state has no cursor and no lease.
unfoldable pub state_of : Db → ℕ → IngestionState
state_of db source_id = elim (get_state db source_id) [
  | none ↦ record {
    source_id = source_id;
    cursor = none;
    lease_run_id = none;
    lease_expires_at = none;
  }
  | some state ↦ state
]

unfoldable pub with_state : Db → ℕ → Db
unfolding state_of
with_state db source_id = record db {
  states = elim (get_state db source_id) [
    | none ↦ db.states ++ state_of db source_id ∷ []
    | some state ↦ db.states
  ];
}

abbrev pub touch : ℕ → Source → Source
touch now source = record source { last_sync_at = some now; collected_at = some now }

abbrev pub new_batch : ℕ → ℕ → String → String → ℕ → Batch
new_batch id source_id key hash now = record {
  id = id;
  source_id = source_id;
  batch_key = key;
  payload_hash = hash;
  created_at = now;
}

abbrev pub new_run : ℕ → ℕ → ℕ → ℕ → Run
new_run id batch_id source_id now = record {
  id = id;
  batch_id = batch_id;
  source_id = source_id;
  status = RunStatus.queued;
  error_code = none;
  created_at = now;
}

abbrev pub new_stage : ℕ → ℕ → String → ℕ → Stage
new_stage id run_id key now = record {
  id = id;
  run_id = run_id;
  stage_key = key;
  status = StageStatus.pending;
  attempts = 0;
  next_attempt_at = now;
  lease_expires_at = none;
  error_code = none;
  result_count = none;
}

abbrev pub same_observation : Observation → Observation → Bool
same_observation a b =
    str_eq a.provider_id b.provider_id
    && str_eq a.record_hash b.record_hash
    && a.observed_at == b.observed_at

abbrev pub observation_of : Hashes → ℕ → ℕ → IngestionRecord → Observation
observation_of h source_id batch_id r = record {
  source_id = source_id;
  batch_id = batch_id;
  provider_id = r.provider_id;
  record_hash = Hashes.content h r.version r.content r.metadata;
  payload = r;
  observed_at = r.observed_at;
}

-- The loop over `payload.records`: `seen` holds the observations that were added.
unfoldable pub observe : Hashes → ℕ → ℕ → List Observation → List IngestionRecord → List Observation
observe h source_id batch_id seen [] = []
observe h source_id batch_id seen (r ∷ records) =
    let o = observation_of h source_id batch_id r in
    let skip = observe h source_id batch_id seen records in
    let keep = o ∷ observe h source_id batch_id (o ∷ seen) records in
    if any (same_observation o) seen then skip else keep

-- The states that the compare-and-set of the cursor updates, and their number.
abbrev pub at_cursor : ℕ → Option String → IngestionState → Bool
at_cursor source_id cursor s = s.source_id == source_id && same_text s.cursor cursor

unfoldable pub count_where {ℓ} : {A : Type ℓ} → (A → Bool) → List A → ℕ
count_where p [] = 0
count_where p (x ∷ xs) = (if p x then 1 else 0) + count_where p xs

-- The rows of a new batch, and the cursor with the lease.
unfoldable pub stored : Hashes → Db → Source → ReceiveBatch → NewIds → ℕ → Db
stored h db source payload ids now =
    let sid = payload.source_id in
    record (put_source (touch now source) db) {
      batches =
          db.batches ++ new_batch ids.batch_id sid payload.batch_key (h.batch payload) now ∷ [];
      runs = db.runs ++ new_run ids.run_id ids.batch_id sid now ∷ [];
      stages = db.stages ++ new_stage ids.stage_id ids.run_id "receive" now ∷ [];
      outbox =
          db.outbox
          ++ new_event ids.event_id "ingestion.stage.requested" now "modules.ingestion"
              (record no_payload {
                run_id = some ids.run_id;
                stage_id = some ids.stage_id;
                source_generation = some source.generation;
              })
            ∷ [];
      observations = db.observations ++ observe h sid ids.batch_id [] payload.records;
      states =
          update_where (at_cursor sid payload.cursor_before)
            (λ s. record s {
              cursor = payload.cursor_after;
              lease_run_id = some ids.run_id;
              lease_expires_at = some (now + collection_lease);
            })
            db.states;
    }

accept : Hashes → Db → Source → ReceiveBatch → NewIds → ℕ → Result (Batch × Run × Db)
unfolding with_state state_of stored count_where
accept h db source payload ids now = do
  let sid = payload.source_id
  let state = state_of db sid
  let db' = with_state db sid
  guard (not (after state.lease_expires_at now)) already_leased
  guard (same_text state.cursor payload.cursor_before) cursor_stale
  guard (count_where (at_cursor sid payload.cursor_before) db'.states == 1)
      (http 409 "Collection cursor changed")
  ok (
    new_batch ids.batch_id sid payload.batch_key (h.batch payload) now,
    new_run ids.run_id ids.batch_id sid now,
    stored h db' source payload ids now,
  )

-- A batch key that was used before: its run, if the content is the same.
replay : Hashes → Db → ReceiveBatch → Batch → Result (Batch × Run × Db)
replay h db payload existing = do
  guard (str_eq existing.payload_hash (h.batch payload))
      (http 409 "Batch key was already used with different content")
  run ← require (find (is_run_of existing.id) db.runs) runtime_error
  ok (existing, run, db)

receive_active : Hashes → Db → Source → ReceiveBatch → NewIds → ℕ → Result (Batch × Run × Db)
unfolding replay accept
receive_active h db source payload ids now =
    elim (find (is_batch payload.source_id payload.batch_key) db.batches) [
      | some existing ↦ replay h db payload existing
      | none ↦ accept h db source payload ids now
    ]

unfoldable pub receive_batch : Hashes → Db → ReceiveBatch → NewIds → ℕ → Result (Batch × Run × Db)
unfolding receive_active
receive_batch h db payload ids now = do
  source ← require (get_source db payload.source_id) source_missing
  guard (is_active source.status) source_inactive
  receive_active h db source payload ids now
