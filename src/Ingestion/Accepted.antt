-- ===== src/Ingestion/Accepted.antt =====
-- What a batch that `receive_batch` accepts leaves in the database.
use bbd_os.Prelude.{
  ℕ, ◌≡◌, none, some, true, false, ◌⊎◌, arith, ok, >>=-ok, guard, require, find, str_eq, after,
  same_text, Option-cases, inl, inr,
}
use bbd_os.Database.{Db, Source, Batch, Run, get_source, is_active}
use bbd_os.Ingestion.{
  ReceiveBatch, Hashes, NewIds, is_batch, is_run_of, state_of, with_state, new_batch, new_run,
  stored, accept, replay, receive_active, receive_batch, source_missing, source_inactive,
}

module _ (h : Hashes) (db : Db) (payload : ReceiveBatch) (ids : NewIds) (now : ℕ) where
  -- The conditions under which a new batch is accepted, and what is returned and stored.
  pub record IsAccepted (b : Batch) (r : Run) (db' : Db) : Type 0 where
    pub source : Source
    pub listed : get_source db payload.source_id ≡ some source
    pub active : is_active source.status ≡ true
    pub unused : find (is_batch payload.source_id payload.batch_key) db.batches ≡ none
    pub free : after (state_of db payload.source_id).lease_expires_at now ≡ false
    pub at_before : same_text (state_of db payload.source_id).cursor payload.cursor_before ≡ true
    pub batch : b ≡ new_batch ids.batch_id payload.source_id payload.batch_key (h.batch payload) now
    pub run : r ≡ new_run ids.run_id ids.batch_id payload.source_id now
    pub store : db' ≡ stored h (with_state db payload.source_id) source payload ids now

  -- The batch key was used before, with the same content, and nothing changes.
  pub record IsReplayed (b : Batch) (r : Run) (db' : Db) : Type 0 where
    pub source : Source
    pub listed : get_source db payload.source_id ≡ some source
    pub active : is_active source.status ≡ true
    pub known : find (is_batch payload.source_id payload.batch_key) db.batches ≡ some b
    pub same : str_eq b.payload_hash (h.batch payload) ≡ true
    pub run : find (is_run_of b.id) db.runs ≡ some r
    pub store : db' ≡ db

  module _ (source : Source) (b : Batch) (r : Run) (db' : Db) where
    accept-IsAccepted :
        get_source db payload.source_id ≡ some source
        → is_active source.status ≡ true
        → find (is_batch payload.source_id payload.batch_key) db.batches ≡ none
        → accept h db source payload ids now ≡ ok (b, r, db')
        → IsAccepted b r db'
    unfolding accept
    accept-IsAccepted listed active unused e = record {
      source = source;
      listed = listed;
      active = active;
      unused = unused;
      free = ground arith;
      at_before = ground arith;
      batch = ground arith;
      run = ground arith;
      store = ground arith;
    }

    replay-IsReplayed :
        (existing : Batch)
        → get_source db payload.source_id ≡ some source
        → is_active source.status ≡ true
        → find (is_batch payload.source_id payload.batch_key) db.batches ≡ some existing
        → replay h db payload existing ≡ ok (b, r, db')
        → IsReplayed b r db'
    unfolding replay
    replay-IsReplayed existing listed active found e = record {
      source = source;
      listed = listed;
      active = active;
      known = ground arith;
      same = ground arith;
      run = ground arith;
      store = ground arith;
    }

  -- A batch that is received was either accepted as a new one or is a repetition.
  pub receive_batch_outcome :
      (b : Batch) (r : Run) (db' : Db)
      → receive_batch h db payload ids now ≡ ok (b, r, db')
      → IsAccepted b r db' ⊎ IsReplayed b r db'
  unfolding receive_batch
  receive_batch_outcome b r db' e =
      let (source, listed, e₁) =
        >>=-ok (require (get_source db payload.source_id) source_missing) _ e in
      let (_, active, e₂) = >>=-ok (guard (is_active source.status) source_inactive) _ e₁ in
      elim (Option-cases (find (is_batch payload.source_id payload.batch_key) db.batches)) [
        | inl unused ↦ inl (
            accept-IsAccepted source b r db' (ground arith) (ground arith) unused
              (rw (unused, receive_active) at e₂))
        | inr (existing, found) ↦ inr (
            replay-IsReplayed source b r db' existing (ground arith) (ground arith) found
              (rw (found, receive_active) at e₂))
      ]

  pub unused-IsAccepted :
      (b : Batch) (r : Run) (db' : Db)
      → find (is_batch payload.source_id payload.batch_key) db.batches ≡ none
      → receive_batch h db payload ids now ≡ ok (b, r, db')
      → IsAccepted b r db'
  unused-IsAccepted b r db' unused e = elim (receive_batch_outcome b r db' e) [
    | inl a ↦ a
    | inr a ↦ ground (arith, a.known)
  ]
