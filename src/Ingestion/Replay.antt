-- ===== src/Ingestion/Replay.antt =====
-- A collector that repeats a batch gets the answer that it got first.
use bbd_os.Prelude.{
  ℕ, ◌≡◌, none, some, true, arith, ok, find, row-put_self, row-key, find-append, str_eq, eq_refl,
  inl, inr,
}
use bbd_os.Database.{Db, Source, Batch, Run, get_source, is_active}
use bbd_os.Ingestion.{
  ReceiveBatch, Hashes, NewIds, is_batch, is_run_of, with_state, new_batch, new_run, stored,
  receive_batch, touch,
}
use bbd_os.Ingestion.Accepted.{receive_batch_outcome}

module _ (h : Hashes) (db : Db) (source : Source) (payload : ReceiveBatch) (ids : NewIds)
    (now : ℕ) where
  abbrev pub after_accept : Db
  after_accept = stored h (with_state db payload.source_id) source payload ids now

  pub source-stored :
      get_source db payload.source_id ≡ some source
      → get_source after_accept payload.source_id ≡ some (touch now source)
  unfolding stored with_state
  source-stored listed = row-put_self _ _ _ _ _ listed (row-key _ _ _ listed)

  batch-stored :
      find (is_batch payload.source_id payload.batch_key) db.batches ≡ none
      → find (is_batch payload.source_id payload.batch_key) after_accept.batches
        ≡ some (new_batch ids.batch_id payload.source_id payload.batch_key (h.batch payload) now)
  unfolding stored with_state
  batch-stored unused = rw find-append (rw unused (ground (arith, eq_refl payload.batch_key)))

  run-stored :
      find (is_run_of ids.batch_id) db.runs ≡ none
      → find (is_run_of ids.batch_id) after_accept.runs
        ≡ some (new_run ids.run_id ids.batch_id payload.source_id now)
  unfolding stored with_state
  run-stored fresh = rw find-append (rw fresh (ground arith))

-- The inverse direction of `IsReplayed`: an active source and a known batch with its run.
replays :
    (h : Hashes) (db : Db) (payload : ReceiveBatch) (ids : NewIds) (now : ℕ) (source : Source)
    (b : Batch) (r : Run)
    → get_source db payload.source_id ≡ some source
    → is_active source.status ≡ true
    → find (is_batch payload.source_id payload.batch_key) db.batches ≡ some b
    → str_eq b.payload_hash (h.batch payload) ≡ true
    → find (is_run_of b.id) db.runs ≡ some r
    → receive_batch h db payload ids now ≡ ok (b, r, db)
unfolding receive_batch
replays h db payload ids now source b r listed active found same run = ground arith

-- If no run uses the new batch identifier yet, a batch that was received once is answered with the
-- same batch and run when it is received again at any later time, and the second call changes
-- nothing.
pub receive_batch_again :
    (h : Hashes) (db : Db) (payload : ReceiveBatch) (ids ids' : NewIds) (now now' : ℕ) (b : Batch)
    (r : Run) (db' : Db)
    → find (is_run_of ids.batch_id) db.runs ≡ none
    → receive_batch h db payload ids now ≡ ok (b, r, db')
    → receive_batch h db' payload ids' now' ≡ ok (b, r, db')
receive_batch_again h db payload ids ids' now now' b r db' fresh e =
    elim (receive_batch_outcome h db payload ids now b r db' e) [
      | inl a ↦
          rw (a.store, a.batch, a.run)
            (replays h (after_accept h db a.source payload ids now) payload ids' now'
              (touch now a.source) _ _ (source-stored h db a.source payload ids now a.listed)
              a.active (batch-stored h db a.source payload ids now a.unused)
              (eq_refl (h.batch payload)) (run-stored h db a.source payload ids now fresh))
      | inr a ↦
          rw a.store
            (replays h db payload ids' now' a.source b r a.listed a.active a.known a.same a.run)
    ]
