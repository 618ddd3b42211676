-- ===== src/Ingestion/Retry/Restart.antt =====
-- What a retry does to the run, its stage and the collection lease.
use bbd_os.Prelude.{
  Bool, List, ◌≢◌, ◌∙◌, sym, find-true, put, ℕ, ◌+◌, ◌≡◌, ◌⊎◌, refl, ap, Option, none, some, true,
  false, [], ◌∷◌, ◌++◌, ◌==◌, arith, ok, find, row-put_self, row-key, Option-cases, Bool-cases, inl,
  inr,
}
use bbd_os.Database.{
  Db, Source, Run, Stage, StageStatus, IngestionState, get_run, get_state, put_state,
  collection_lease,
}
use bbd_os.Ingestion.Retry.{
  retry_stage, restart, restarted, restarted_run, restarted_stage, retry_event, leased_by_other,
  restartable,
}

-- The run `run` of the stage `stage` was started again.
pub record IsRestarted (db : Db) (run : Run) (source : Source) (stage : Stage) (event_id now : ℕ)
    (db' : Db) : Type 0 where
  pub at_stage : find (λ s. Stage.run_id s == run.id) db.stages ≡ some stage
  pub failed : stage.status ≡ StageStatus.failed
  pub stage_reset :
      find (λ s. Stage.run_id s == run.id) db'.stages ≡ some (restarted_stage stage now)
  pub run_queued : get_run db' run.id ≡ some (restarted_run run)
  pub event : db'.outbox ≡ db.outbox ++ retry_event db source run stage event_id now ∷ []
  pub lease :
      (get_state db run.source_id ≡ none)
      ⊎ ((s : IngestionState) × (get_state db run.source_id ≡ some s)
          × (leased_by_other s run.id now ≡ false)
          × (get_state db' run.source_id
              ≡ some (record s {
                lease_run_id = some run.id;
                lease_expires_at = some (now + collection_lease);
              })))

-- The row that passes a test is found where it was put back and still passes.
find-put {ℓ} :
    {A : Type ℓ} (key : A → ℕ) (p : A → Bool) (r x : A) (l : List A)
    → find p l ≡ some x
    → key r ≡ key x
    → p r ≡ true
    → find p (put key r l) ≡ some r
unfolding find put
find-put key p r x [] found same passes = cc
find-put key p r x (y ∷ l) found same passes = elim (Bool-cases (key y == key r)) [
  | inl here ↦ rw here (rw passes refl)
  | inr there ↦ elim (Bool-cases (p y)) [
    | inl passed ↦ let e : some y ≡ some x = rw passed at found in absurd (ground arith)
    | inr other ↦ rw there (rw other (find-put key p r x l (rw other at found) same passes))
  ]
]

module _ (db : Db) (run : Run) (source : Source) (stage : Stage) (event_id now : ℕ) where
  stage-restarted :
      find (λ s. Stage.run_id s == run.id) db.stages ≡ some stage
      → find (λ s. Stage.run_id s == run.id) (restarted db source run stage event_id now).stages
        ≡ some (restarted_stage stage now)
  unfolding restarted
  stage-restarted at_stage =
      find-put (λ s. Stage.id s) (λ s. Stage.run_id s == run.id) (restarted_stage stage now) stage
        db.stages at_stage refl (find-true (λ s. Stage.run_id s == run.id) db.stages at_stage)

  run-restarted :
      get_run db run.id ≡ some run
      → get_run (restarted db source run stage event_id now) run.id ≡ some (restarted_run run)
  unfolding restarted
  run-restarted listed = row-put_self _ _ _ _ _ listed refl

  state-leased :
      (s : IngestionState)
      → get_state db run.source_id ≡ some s
      → get_state
          (put_state
            (record s {
              lease_run_id = some run.id;
              lease_expires_at = some (now + collection_lease);
            })
            (restarted db source run stage event_id now))
          run.source_id
        ≡ some (record s {
          lease_run_id = some run.id;
          lease_expires_at = some (now + collection_lease);
        })
  unfolding restarted
  state-leased s found = row-put_self _ _ _ _ _ found (row-key _ _ _ found)

  restart-IsRestarted :
      (result : Option Run) (db' : Db)
      → get_run db run.id ≡ some run
      → find (λ s. Stage.run_id s == run.id) db.stages ≡ some stage
      → stage.status ≡ StageStatus.failed
      → restart db source run stage event_id now ≡ ok (result, db')
      → (result ≡ some (restarted_run run)) × IsRestarted db run source stage event_id now db'
  unfolding restart restarted
  restart-IsRestarted result db' listed at_stage failed e =
      elim (Option-cases (get_state db run.source_id)) [
        | inl missing ↦
            let returned = rw (missing, restart) at e in
            (
              ground arith,
              record {
                at_stage = at_stage;
                failed = failed;
                stage_reset = ground (arith, stage-restarted at_stage);
                run_queued = ground (arith, run-restarted);
                event = ground arith;
                lease = inl missing;
              },
            )
        | inr (s, found) ↦
            let returned = rw (found, restart) at e in
            (
              ground arith,
              record {
                at_stage = at_stage;
                failed = failed;
                stage_reset = ground (arith, stage-restarted at_stage);
                run_queued = ground (arith, run-restarted);
                event = ground arith;
                lease = inr (s, found, ground arith, ground (arith, state-leased s found));
              },
            )
      ]

restartable-failed : (s : StageStatus) → restartable s ≡ true → s ≡ StageStatus.failed
unfolding restartable
restartable-failed s h = ground arith

not_restartable : (s : StageStatus) → restartable s ≡ false → s ≢ StageStatus.failed
unfolding restartable
not_restartable s h failed =
    let e : restartable StageStatus.failed ≡ false = ap restartable (sym failed) ∙ h in cc

module _ (db : Db) (run : Run) (source : Source) (stage : Stage) (event_id now : ℕ)
    (result : Option Run) (db' : Db) where
  retried :
      get_run db run.id ≡ some run
      → find (λ s. Stage.run_id s == run.id) db.stages ≡ some stage
      → retry_stage db source run stage event_id now ≡ ok (result, db')
      → ((stage.status ≢ StageStatus.failed) × (result ≡ some run) × (db' ≡ db))
        ⊎ ((result ≡ some (restarted_run run)) × IsRestarted db run source stage event_id now db')
  unfolding retry_stage
  retried listed at_stage e = elim (Bool-cases (restartable stage.status)) [
    | inl failed ↦ inr (
        restart-IsRestarted db run source stage event_id now result db' listed at_stage
          (restartable-failed stage.status failed) (rw (failed, retry_stage) at e))
    | inr going ↦
        let returned = rw (going, retry_stage) at e in
        inl (not_restartable stage.status going, ground arith, ground arith)
  ]
