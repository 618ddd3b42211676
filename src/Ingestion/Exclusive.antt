-- ===== src/Ingestion/Exclusive.antt =====
-- The cursor is compared and set, and the collection lease that is taken with it keeps every other
-- collection of the source out until it expires.
use bbd_os.Prelude.{
  ℕ, ◌+◌, ◌<◌, ◌≡◌, none, some, true, false, arith, ok, err, find, row-key, row-append,
  row-update_where, after, same_text, Option-cases, inl, inr,
}
use bbd_os.Database.{
  Db, Source, Batch, Run, IngestionState, get_source, get_state, is_active, collection_lease,
}
use bbd_os.Ingestion.{
  ReceiveBatch, Hashes, NewIds, is_batch, state_of, with_state, stored, receive_batch, touch,
  already_leased,
}
use bbd_os.Ingestion.Accepted.{IsAccepted, unused-IsAccepted}
use bbd_os.Ingestion.Replay.{source-stored}

abbrev state_key : IngestionState → ℕ
state_key s = s.source_id

pub state_of-source_id : (db : Db) (i : ℕ) → (state_of db i).source_id ≡ i
unfolding state_of
state_of-source_id db i = elim (Option-cases (get_state db i)) [
  | inl missing ↦ rw (missing, state_of)
  | inr (s, found) ↦ rw (found, state_of) (row-key state_key i db.states found)
]

pub state-with_state : (db : Db) (i : ℕ) → get_state (with_state db i) i ≡ some (state_of db i)
unfolding with_state state_of
state-with_state db i = ground (arith, row-append state_key i db.states (state_of db i))

-- The state of a source that a batch was accepted for: its cursor, and the lease of the new run.
abbrev pub leased : ReceiveBatch → ℕ → ℕ → IngestionState
leased payload run_id now = record {
  source_id = payload.source_id;
  cursor = payload.cursor_after;
  lease_run_id = some run_id;
  lease_expires_at = some (now + collection_lease);
}

module _ (h : Hashes) (db : Db) (payload : ReceiveBatch) (ids : NewIds) (now : ℕ) {b : Batch}
    {r : Run} {db' : Db} where
  state-accepted :
      IsAccepted h db payload ids now b r db'
      → get_state db' payload.source_id ≡ some (leased payload ids.run_id now)
  unfolding stored
  state-accepted a =
      rw (a.store, row-update_where, state-with_state)
        (ground (arith, a.at_before, state_of-source_id db payload.source_id))

  source-accepted :
      IsAccepted h db payload ids now b r db'
      → (s : Source) × (get_source db' payload.source_id ≡ some s) × (is_active s.status ≡ true)
  source-accepted a = (
    touch now a.source,
    rw a.store (source-stored h db a.source payload ids now a.listed),
    a.active,
  )

-- A batch with an unused key is accepted only at the cursor that the source has and while no
-- collection of the source holds a lease; then the cursor is the batch's `cursor_after`, and the new
-- run holds a lease of fifteen minutes.
pub receive_batch_advances :
    (h : Hashes) (db : Db) (payload : ReceiveBatch) (ids : NewIds) (now : ℕ) (b : Batch) (r : Run)
    (db' : Db)
    → find (is_batch payload.source_id payload.batch_key) db.batches ≡ none
    → receive_batch h db payload ids now ≡ ok (b, r, db')
    → (same_text (state_of db payload.source_id).cursor payload.cursor_before ≡ true)
      × (after (state_of db payload.source_id).lease_expires_at now ≡ false)
      × (get_state db' payload.source_id ≡ some (leased payload ids.run_id now))
receive_batch_advances h db payload ids now b r db' unused e =
    let a = unused-IsAccepted h db payload ids now b r db' unused e in
    (a.at_before, a.free, state-accepted h db payload ids now a)

pub refused_while_leased :
    (h : Hashes) (db : Db) (payload : ReceiveBatch) (ids : NewIds) (now : ℕ) (s : Source)
    (st : IngestionState)
    → get_source db payload.source_id ≡ some s
    → is_active s.status ≡ true
    → get_state db payload.source_id ≡ some st
    → after st.lease_expires_at now ≡ true
    → find (is_batch payload.source_id payload.batch_key) db.batches ≡ none
    → receive_batch h db payload ids now ≡ err already_leased
unfolding receive_batch
refused_while_leased h db payload ids now s st listed active state leased unused = ground arith

-- Within fifteen minutes after a batch was accepted, any other batch for the same source, with a key
-- that is not in use, is refused with 409 and stores nothing.
pub receive_batch_excludes :
    (h : Hashes) (db : Db) (payload payload' : ReceiveBatch) (ids ids' : NewIds) (now now' : ℕ)
    (b : Batch) (r : Run) (db' : Db)
    → find (is_batch payload.source_id payload.batch_key) db.batches ≡ none
    → receive_batch h db payload ids now ≡ ok (b, r, db')
    → payload'.source_id ≡ payload.source_id
    → find (is_batch payload'.source_id payload'.batch_key) db'.batches ≡ none
    → now' < now + collection_lease
    → receive_batch h db' payload' ids' now' ≡ err already_leased
receive_batch_excludes h db payload payload' ids ids' now now' b r db' unused e same other early =
    let a = unused-IsAccepted h db payload ids now b r db' unused e in
    let (s, listed, active) = source-accepted h db payload ids now a in
    refused_while_leased h db' payload' ids' now' s (leased payload ids.run_id now) (rw same listed)
      active (rw same (state-accepted h db payload ids now a)) (ground arith) other
