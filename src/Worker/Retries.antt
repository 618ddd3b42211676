-- ===== src/Worker/Retries.antt =====
-- What failures of a stage leave behind.
use mathlib.Core.Path.{subst}
use bbd_os.Prelude.{
  ℕ, zero, suc, ◌+◌, ◌*◌, ◌^◌, ◌≤◌, ◌<◌, ◌≡◌, ◌⊎◌, inl, inr, refl, arith, String, Option, none,
  some, false, min, leb, ok, holds, Option-cases, Bool-cases, put, row-put_self, row-key,
}
use bbd_os.Database.{
  Db, Run, Stage, IngestionState, OutboxEvent, get_source, get_run, get_stage, get_state, get_event,
  second,
}
use bbd_os.Worker.{
  available, release_lease, failed_stage, failed_run, failed_event, max_stage_attempts,
}
use bbd_os.Worker.Ending.{
  note_failure, failed_rows, fail_rows, fail_ingestion_stage, retry_delay, extend_lease,
  waiting_stage, waiting_event, waiting_run, waiting_rows, schedule, schedule_or_fail,
  current_event, after_transient,
}

-- The collection state of the source, if there is one, does not name the run as its lease holder.
abbrev pub IsFree : Db → ℕ → ℕ → Type 0
IsFree db source_id run_id =
    (get_state db source_id ≡ none)
    ⊎ ((s : IngestionState) × (get_state db source_id ≡ some s)
        × (holds s.lease_run_id run_id ≡ false))

abbrev released_state : IngestionState → IngestionState
released_state s = record s { lease_run_id = none; lease_expires_at = none }

-- Only the collection states differ.
pub record SameRows (db db' : Db) : Type 0 where
  pub runs : db'.runs ≡ db.runs
  pub stages : db'.stages ≡ db.stages
  pub outbox : db'.outbox ≡ db.outbox
  pub sources : db'.sources ≡ db.sources

module _ (source_id run_id : ℕ) (db : Db) where
  pub release_lease-SameRows : SameRows db (release_lease source_id run_id db)
  unfolding release_lease
  release_lease-SameRows = elim (Option-cases (get_state db source_id)) [
    | inl missing ↦
        rw (missing, release_lease)
          (record { runs = refl; stages = refl; outbox = refl; sources = refl })
    | inr (s, found) ↦ elim (Bool-cases (holds s.lease_run_id run_id)) [
      | inl held ↦
          rw (found, held, release_lease)
            (record { runs = refl; stages = refl; outbox = refl; sources = refl })
      | inr other ↦
          rw (found, other, release_lease)
            (record { runs = refl; stages = refl; outbox = refl; sources = refl })
    ]
  ]

  pub release_lease-IsFree : IsFree (release_lease source_id run_id db) source_id run_id
  unfolding release_lease
  release_lease-IsFree = elim (Option-cases (get_state db source_id)) [
    | inl missing ↦ rw (missing, release_lease) (inl missing)
    | inr (s, found) ↦ elim (Bool-cases (holds s.lease_run_id run_id)) [
      | inl held ↦
          rw (found, held, release_lease)
            (inr (released_state s, row-put_self _ _ _ _ _ found (row-key _ _ _ found), refl))
      | inr other ↦ rw (found, other, release_lease) (inr (s, found, other))
    ]
  ]

-- The run, its stage and the event have failed with the code, and the run has no collection lease.
pub record HasFailed (db : Db) (code : String) (event : OutboxEvent) (run : Run) (stage : Stage)
    (event_id run_id stage_id : ℕ) (db' : Db) : Type 0 where
  pub stage_failed :
      get_stage db' stage_id ≡ some (record (failed_stage code stage) { lease_expires_at = none })
  pub run_failed : get_run db' run_id ≡ some (failed_run code run)
  pub event_failed : get_event db' event_id ≡ some (failed_event event)
  pub lease_free : IsFree db' run.source_id run_id

module _ (code : String) (event : OutboxEvent) (run : Run) (stage : Stage) (now : ℕ) (db : Db) where
  failed-stages :
      (failed_rows code db event run stage now).stages
      ≡ put
          (λ r. Stage.id r)
          (record (failed_stage code stage) { lease_expires_at = none })
          db.stages
  unfolding failed_rows note_failure
  failed-stages = ground arith

  failed-runs :
      (failed_rows code db event run stage now).runs
      ≡ put (λ r. Run.id r) (failed_run code run) db.runs
  unfolding failed_rows note_failure
  failed-runs = ground arith

  failed-outbox :
      (failed_rows code db event run stage now).outbox
      ≡ put (λ r. OutboxEvent.id r) (failed_event event) db.outbox
  unfolding failed_rows note_failure
  failed-outbox = ground arith

module _ (db : Db) (code : String) (event : OutboxEvent) (run : Run) (stage : Stage)
    (event_id run_id stage_id now : ℕ) (at_event : get_event db event_id ≡ some event)
    (at_run : get_run db run_id ≡ some run) (at_stage : get_stage db stage_id ≡ some stage) where
  fail_rows-HasFailed :
      HasFailed db code event run stage event_id run_id stage_id
        (fail_rows code db event run stage now)
  unfolding fail_rows
  fail_rows-HasFailed =
      let rows =
        release_lease-SameRows run.source_id run.id (failed_rows code db event run stage now) in
      record {
        stage_failed =
            rw (rows.stages, failed-stages)
              (row-put_self _ _ _ _ _ at_stage (row-key _ _ _ at_stage));
        run_failed =
            rw (rows.runs, failed-runs) (row-put_self _ _ _ _ _ at_run (row-key _ _ _ at_run));
        event_failed =
            rw (rows.outbox, failed-outbox)
              (row-put_self _ _ _ _ _ at_event (row-key _ _ _ at_event));
        lease_free =
            subst (λ (i : ℕ). IsFree (fail_rows code db event run stage now) run.source_id i)
              (row-key _ _ _ at_run)
              (release_lease-IsFree run.source_id run.id (failed_rows code db event run stage now));
      }

  -- A stage that fails for good takes its run and its event with it, and gives up the collection
  -- lease of the source, if the run has it.
  pub fail_ingestion_stage-HasFailed :
      HasFailed db code event run stage event_id run_id stage_id
        (fail_ingestion_stage db event_id run_id stage_id code now)
  unfolding fail_ingestion_stage
  fail_ingestion_stage-HasFailed =
      rw (at_run, fail_ingestion_stage) (rw at_stage (rw at_event fail_rows-HasFailed))

-- The retry of the event is due at `at`, and so is its stage.
pub record IsWaiting (event : OutboxEvent) (run : Run) (stage : Stage)
    (event_id run_id stage_id at : ℕ) (db' : Db) : Type 0 where
  pub event_waits : get_event db' event_id ≡ some (waiting_event at event)
  pub stage_waits : get_stage db' stage_id ≡ some (waiting_stage at stage)
  pub run_waits : get_run db' run_id ≡ some (waiting_run run)

extend_lease-SameRows :
    (source_id run_id now : ℕ) (db : Db) → SameRows db (extend_lease source_id run_id now db)
unfolding extend_lease
extend_lease-SameRows source_id run_id now db = elim (Option-cases (get_state db source_id)) [
  | inl missing ↦
      rw (missing, extend_lease)
        (record { runs = refl; stages = refl; outbox = refl; sources = refl })
  | inr (s, found) ↦ elim (Bool-cases (holds s.lease_run_id run_id)) [
    | inl held ↦
        rw (found, held, extend_lease)
          (record { runs = refl; stages = refl; outbox = refl; sources = refl })
    | inr other ↦
        rw (found, other, extend_lease)
          (record { runs = refl; stages = refl; outbox = refl; sources = refl })
  ]
]

schedule-IsWaiting :
    (db : Db) (event : OutboxEvent) (run : Run) (stage : Stage)
    (event_id run_id stage_id delay now : ℕ)
    → get_event db event_id ≡ some event
    → get_run db run_id ≡ some run
    → get_stage db stage_id ≡ some stage
    → IsWaiting event run stage event_id run_id stage_id
        (now + delay)
        (schedule db event run stage delay now)
unfolding schedule waiting_rows
schedule-IsWaiting db event run stage event_id run_id stage_id delay now at_event at_run at_stage =
    let rows =
      extend_lease-SameRows run.source_id run.id now
        (waiting_rows db event run stage (now + delay)) in
    record {
      event_waits = rw rows.outbox (row-put_self _ _ _ _ _ at_event (row-key _ _ _ at_event));
      stage_waits = rw rows.stages (row-put_self _ _ _ _ _ at_stage (row-key _ _ _ at_stage));
      run_waits = rw rows.runs (row-put_self _ _ _ _ _ at_run (row-key _ _ _ at_run));
    }

power_positive : (n : ℕ) → 1 ≤ 2 ^ n
power_positive zero = omega arith
power_positive (suc n) = omega (arith, power_positive n)

retry_delay_bounds :
    (uniform : ℕ → ℕ → ℕ) (retry_after : Option ℕ) (attempt : ℕ)
    → ((low high : ℕ) → low ≤ high → (low ≤ uniform low high) × (uniform low high ≤ high))
    → ((t : ℕ) → retry_after ≡ some t → t ≤ 60 * second)
    → (500000 ≤ retry_delay uniform retry_after attempt)
      × (retry_delay uniform retry_after attempt ≤ 60 * second)
unfolding retry_delay
retry_delay_bounds uniform none attempt between small =
    let enough : 500000 ≤ min (60 * second) (2 ^ attempt * second) =
      omega (arith, power_positive attempt) in
    let (p, q) = between 500000 (min (60 * second) (2 ^ attempt * second)) enough in
    (p, omega (arith, q))
retry_delay_bounds uniform (some t) attempt between small =
    (omega arith, omega (arith, small t refl))

current_found :
    (db : Db) (event_id : ℕ) (run : Run) (event : OutboxEvent)
    → current_event db event_id run ≡ some event
    → get_event db event_id ≡ some event
unfolding current_event
current_found db event_id run event h = elim (Option-cases (get_event db event_id)) [
  | inl missing ↦ let none_found = rw (missing, current_event) at h in absurd (ground arith)
  | inr (found, at_event) ↦
      let h₁ = rw (at_event, current_event) at h in
      elim (Option-cases
        (available (get_source db run.source_id) (holds found.payload.source_generation))) [
          | inl gone ↦ let h₂ = rw gone at h₁ in absurd (ground arith)
          | inr (s, there) ↦ let h₂ = rw there at h₁ in ground arith
        ]
]

module _ (uniform : ℕ → ℕ → ℕ) (db : Db) (event_id run_id stage_id : ℕ) (retry_after : Option ℕ)
    (now : ℕ) (run : Run) (stage : Stage) (event : OutboxEvent)
    (at_run : get_run db run_id ≡ some run) (at_stage : get_stage db stage_id ≡ some stage)
    (current : current_event db event_id run ≡ some event) where
  after_transient-step :
      after_transient uniform db event_id run_id stage_id retry_after now
      ≡ ok (schedule_or_fail uniform db event run stage event_id run_id stage_id retry_after now)
  unfolding after_transient
  after_transient-step = rw (at_run, after_transient) (rw current (rw at_stage))

  -- While the source stays available, a stage that failed for a moment and has had fewer than five
  -- attempts waits for a time between half a second and a minute, and with it its event and its run;
  -- after the fifth attempt it fails for good. `random.uniform` is taken to stay in its range, and a
  -- Retry-After to be a minute at most, as the request has cut it.
  pub after_transient_bounded :
      ((low high : ℕ) → low ≤ high → (low ≤ uniform low high) × (uniform low high ≤ high))
      → ((t : ℕ) → retry_after ≡ some t → t ≤ 60 * second)
      → (delay : Option ℕ) × (db' : Db) × (after_transient uniform db event_id run_id stage_id
            retry_after now
          ≡ ok (delay, db'))
        × (((stage.attempts < max_stage_attempts)
              × ((d : ℕ) × (delay ≡ some d)
                  × (500000 ≤ d)
                  × (d ≤ 60 * second)
                  × IsWaiting event run stage event_id run_id stage_id (now + d) db'))
            ⊎ ((max_stage_attempts ≤ stage.attempts)
                × (delay ≡ none)
                × HasFailed db "retry_exhausted" event run stage event_id run_id stage_id db'))
  unfolding schedule_or_fail
  after_transient_bounded between small =
      let at_event = current_found db event_id run event current in
      elim (Bool-cases (leb max_stage_attempts stage.attempts)) [
        | inl exhausted ↦ (
          none,
          fail_ingestion_stage db event_id run_id stage_id "retry_exhausted" now,
          rw after_transient-step (rw (exhausted, schedule_or_fail)),
          inr (
            ground arith,
            refl,
            fail_ingestion_stage-HasFailed db "retry_exhausted" event run stage event_id run_id
                stage_id now at_event at_run at_stage,
          ),
        )
        | inr again ↦
            let d = retry_delay uniform retry_after stage.attempts in
            let (p, q) = retry_delay_bounds uniform retry_after stage.attempts between small in
            (
              some d,
              schedule db event run stage d now,
              rw after_transient-step (rw (again, schedule_or_fail)),
              inl (
                ground arith,
                (
                  d,
                  refl,
                  p,
                  q,
                  schedule-IsWaiting db event run stage event_id run_id stage_id d now at_event
                      at_run at_stage,
                ),
              ),
            )
      ]
