-- ===== src/Worker/Claims.antt =====
-- What the claim of a stage takes, and that it keeps other workers out.
use bbd_os.Prelude.{
  ℕ, ◌+◌, ◌<◌, ◌≡◌, refl, arith, Option, none, some, Bool, true, false, ◌&&◌, ok, >>=-ok, require,
  after, key_error, holds, Option-cases, Bool-cases, inl, inr, row-key, row-put_self,
}
use bbd_os.Database.{
  Db, Source, Run, Stage, IngestionState, OutboxEvent, get_source, get_run, get_stage, get_state,
  get_event, is_active,
}
use bbd_os.Worker.{
  available, same_or_absent, skipped, claimed, has_succeeded, is_running, started_stage,
  started_run, start, claim_leased, claim_stage, claim_run, claim_event, claim, is_delivered,
  stage_timeout,
}

pub available_found :
    (o : Option Source) (test : ℕ → Bool) (s : Source)
    → available o test ≡ some s
    → (o ≡ some s) × (is_active s.status ≡ true) × (test s.generation ≡ true)
unfolding available
available_found none test s h = cc
available_found (some x) test s h = ground arith

-- The event, the run and the stage were free to be claimed, and the run holds the collection lease.
pub record IsClaimed (db : Db) (event_id now : ℕ) (event : OutboxEvent) (run_id stage_id : ℕ)
    (db' : Db) : Type 0 where
  pub run : Run
  pub stage : Stage
  pub source : Source
  pub state : IngestionState
  pub at_event : get_event db event_id ≡ some event
  pub undelivered : is_delivered event.status ≡ false
  pub names_run : event.payload.run_id ≡ some run_id
  pub names_stage : event.payload.stage_id ≡ some stage_id
  pub at_run : get_run db run_id ≡ some run
  pub at_stage : get_stage db stage_id ≡ some stage
  pub at_source : get_source db run.source_id ≡ some source
  pub active : is_active source.status ≡ true
  pub fresh : same_or_absent event.payload.source_generation source.generation ≡ true
  pub unfinished : has_succeeded stage.status ≡ false
  pub free : (is_running stage.status && after stage.lease_expires_at now) ≡ false
  pub at_state : get_state db run.source_id ≡ some state
  pub holder : holds state.lease_run_id run_id ≡ true
  pub unexpired : after state.lease_expires_at now ≡ true
  pub store : db' ≡ start db run stage state now

module _ (db : Db) (event_id now : ℕ) (event e : OutboxEvent) (run_id stage_id rid sid : ℕ)
    (db' : Db) (at_event : get_event db event_id ≡ some event)
    (undelivered : is_delivered event.status ≡ false) (names_run : event.payload.run_id ≡ some rid)
    (names_stage : event.payload.stage_id ≡ some sid) where
  module _ (run : Run) (stage : Stage) (at_run : get_run db rid ≡ some run)
      (at_stage : get_stage db sid ≡ some stage) where
    claim_leased-IsClaimed :
        (source : Source)
        → get_source db run.source_id ≡ some source
        → is_active source.status ≡ true
        → same_or_absent event.payload.source_generation source.generation ≡ true
        → has_succeeded stage.status ≡ false
        → (is_running stage.status && after stage.lease_expires_at now) ≡ false
        → claim_leased db event run stage now ≡ claimed e run_id stage_id db'
        → IsClaimed db event_id now e run_id stage_id db'
    unfolding claim_leased
    claim_leased-IsClaimed source at_source active fresh unfinished free c =
        let run_key = row-key (λ r. Run.id r) rid db.runs at_run in
        let stage_key = row-key (λ r. Stage.id r) sid db.stages at_stage in
        elim (Option-cases (get_state db run.source_id)) [
          | inl missing ↦ let returned = rw (missing, claim_leased) at c in absurd (ground arith)
          | inr (state, found) ↦
              let returned = rw (found, claim_leased) at c in
              record {
                run = run;
                stage = stage;
                source = source;
                state = state;
                at_event = ground arith;
                undelivered = ground arith;
                names_run = ground arith;
                names_stage = ground arith;
                at_run = ground arith;
                at_stage = ground arith;
                at_source = at_source;
                active = active;
                fresh = ground arith;
                unfinished = unfinished;
                free = free;
                at_state = found;
                holder = ground arith;
                unexpired = ground arith;
                store = ground arith;
              }
        ]

    claim_stage-IsClaimed :
        (source : Source)
        → get_source db run.source_id ≡ some source
        → is_active source.status ≡ true
        → same_or_absent event.payload.source_generation source.generation ≡ true
        → claim_stage db event run stage now ≡ claimed e run_id stage_id db'
        → IsClaimed db event_id now e run_id stage_id db'
    unfolding claim_stage
    claim_stage-IsClaimed source at_source active fresh c =
        claim_leased-IsClaimed source at_source active fresh (ground arith) (ground arith)
          (ground arith)

  claim_run-IsClaimed :
      (run : Run)
      → get_run db rid ≡ some run
      → claim_run db event run (get_stage db sid) now ≡ claimed e run_id stage_id db'
      → IsClaimed db event_id now e run_id stage_id db'
  unfolding claim_run
  claim_run-IsClaimed run at_run c = elim (Option-cases (get_stage db sid)) [
    | inl missing ↦ let returned = rw (missing, claim_run) at c in absurd (ground arith)
    | inr (stage, at_stage) ↦
        let c₁ = rw (at_stage, claim_run) at c in
        elim (Option-cases (
          available (get_source db run.source_id)
            (same_or_absent event.payload.source_generation))) [
              | inl gone ↦ let c₂ = rw gone at c₁ in absurd (ground arith)
              | inr (source, found) ↦
                  let (at_source, active, fresh) =
                    available_found (get_source db run.source_id)
                      (same_or_absent event.payload.source_generation) source found in
                  claim_stage-IsClaimed run stage at_run at_stage source at_source active fresh
                    (rw found at c₁)
            ]
  ]

claim_event-IsClaimed :
    (db : Db) (event_id now : ℕ) (event e : OutboxEvent) (run_id stage_id : ℕ) (db' : Db)
    → get_event db event_id ≡ some event
    → is_delivered event.status ≡ false
    → claim_event db event now ≡ ok (claimed e run_id stage_id db')
    → IsClaimed db event_id now e run_id stage_id db'
unfolding claim_event
claim_event-IsClaimed db event_id now event e run_id stage_id db' at_event undelivered c =
    let (rid, names_run, c₁) = >>=-ok (require event.payload.run_id key_error) _ c in
    let (sid, names_stage, c₂) = >>=-ok (require event.payload.stage_id key_error) _ c₁ in
    elim (Option-cases (get_run db rid)) [
      | inl missing ↦ let c₃ = rw missing at c₂ in absurd (ground arith)
      | inr (run, at_run) ↦
          let c₃ = rw at_run at c₂ in
          claim_run-IsClaimed db event_id now event e run_id stage_id rid sid db' at_event
            undelivered (ground arith) (ground arith) run at_run (ground arith)
    ]

-- A stage is claimed only for an event that was not delivered, of an active source whose generation
-- is the event's, if the event has one; the stage has not succeeded and no other worker has it; its
-- run holds the collection lease of the source, unexpired. The claim stores one more attempt, a stage
-- lease of two minutes and a new collection lease.
pub claim_claimed :
    (db : Db) (event_id now : ℕ) (event : OutboxEvent) (run_id stage_id : ℕ) (db' : Db)
    → claim db event_id now ≡ ok (claimed event run_id stage_id db')
    → IsClaimed db event_id now event run_id stage_id db'
unfolding claim
claim_claimed db event_id now event run_id stage_id db' c =
    elim (Option-cases (get_event db event_id)) [
      | inl missing ↦ let c₁ = rw (missing, claim) at c in absurd (ground arith)
      | inr (found, at_event) ↦ elim (Bool-cases (is_delivered found.status)) [
        | inl delivered ↦
            let c₁ = rw (at_event, claim) at c in
            let c₂ = rw delivered at c₁ in absurd (ground arith)
        | inr undelivered ↦
            let c₁ = rw (at_event, claim) at c in
            claim_event-IsClaimed db event_id now found event run_id stage_id db' at_event
              undelivered (rw undelivered at c₁)
      ]
    ]

module _ (db : Db) (run : Run) (stage : Stage) (state : IngestionState) (now : ℕ)
    (run_id stage_id : ℕ) where
  run-started :
      get_run db run_id ≡ some run
      → get_run (start db run stage state now) run_id ≡ some (started_run run)
  unfolding start
  run-started h = row-put_self _ _ _ _ _ h (row-key _ _ _ h)

  stage-started :
      get_stage db stage_id ≡ some stage
      → get_stage (start db run stage state now) stage_id ≡ some (started_stage now stage)
  unfolding start
  stage-started h = row-put_self _ _ _ _ _ h (row-key _ _ _ h)

-- A stage that is leased to a worker is left alone.
busy_stage :
    (db : Db) (event : OutboxEvent) (run : Run) (stage : Stage) (now : ℕ)
    → has_succeeded stage.status ≡ false
    → (is_running stage.status && after stage.lease_expires_at now) ≡ true
    → claim_stage db event run stage now ≡ skipped db
unfolding claim_stage
busy_stage db event run stage now unfinished busy = ground arith

busy_run :
    (db : Db) (event : OutboxEvent) (run : Run) (stage : Stage) (source : Source) (now : ℕ)
    → get_source db run.source_id ≡ some source
    → is_active source.status ≡ true
    → same_or_absent event.payload.source_generation source.generation ≡ true
    → has_succeeded stage.status ≡ false
    → (is_running stage.status && after stage.lease_expires_at now) ≡ true
    → claim_run db event run (some stage) now ≡ skipped db
unfolding claim_run available
busy_run db event run stage source now at_source active fresh unfinished busy =
    rw (at_source, claim_run, available)
      (rw active (rw fresh (busy_stage db event run stage now unfinished busy)))

busy_event :
    (db : Db) (event_id : ℕ) (event : OutboxEvent) (run_id stage_id : ℕ) (run : Run) (stage : Stage)
    (now : ℕ)
    → get_event db event_id ≡ some event
    → is_delivered event.status ≡ false
    → event.payload.run_id ≡ some run_id
    → event.payload.stage_id ≡ some stage_id
    → get_run db run_id ≡ some run
    → get_stage db stage_id ≡ some stage
    → claim_run db event run (some stage) now ≡ skipped db
    → claim db event_id now ≡ ok (skipped db)
unfolding claim claim_event
busy_event db event_id event run_id stage_id run stage now at_event undelivered names_run
      names_stage at_run at_stage skip =
    rw (at_event, claim)
      (rw undelivered
        (rw (names_run, claim_event) (rw names_stage (rw at_run (rw (at_stage, skip))))))

-- For two minutes after a stage was claimed for an event, a second claim for the event finds nothing
-- to do and changes nothing.
pub claim_excludes :
    (db : Db) (event_id now now' : ℕ) (event : OutboxEvent) (run_id stage_id : ℕ) (db' : Db)
    → claim db event_id now ≡ ok (claimed event run_id stage_id db')
    → now' < now + stage_timeout
    → claim db' event_id now' ≡ ok (skipped db')
unfolding start has_succeeded is_running
claim_excludes db event_id now now' event run_id stage_id db' c early =
    let k = claim_claimed db event_id now event run_id stage_id db' c in
    rw k.store (
      busy_event (start db k.run k.stage k.state now) event_id event run_id stage_id
        (started_run k.run) (started_stage now k.stage) now' k.at_event k.undelivered k.names_run
        k.names_stage (run-started db k.run k.stage k.state now run_id stage_id k.at_run)
        (stage-started db k.run k.stage k.state now run_id stage_id k.at_stage)
        (busy_run (start db k.run k.stage k.state now) event (started_run k.run)
          (started_stage now k.stage) k.source now' k.at_source k.active k.fresh refl
          (ground arith)))
