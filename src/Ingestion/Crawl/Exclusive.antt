-- ===== src/Ingestion/Crawl/Exclusive.antt =====
-- What a queued crawl keeps out, and what a repeated request for it gets.
use mathlib.Core.Path.{subst}
use bbd_os.Prelude.{
  ℕ, ◌+◌, ◌*◌, ◌/◌, ◌<◌, ◌≡◌, String, Option, none, some, true, false, arith, ok, err, >>=-ok,
  guard, require, find, find-append, row-put_self, row-key, eq_refl, same_text, after, sym,
}
use bbd_os.Database.{
  Db, Source, Batch, Run, CrawlConfiguration, IngestionState, get_source, get_state, is_active,
  second, collection_lease,
}
use bbd_os.Ingestion.{
  Hashes, NewIds, ReceiveBatch, receive_batch, is_batch, is_run_of, state_of, with_state, new_batch,
  new_run, touch, source_missing, source_inactive, already_leased, cursor_stale,
}
use bbd_os.Ingestion.Exclusive.{state_of-source_id, state-with_state, refused_while_leased}
use bbd_os.Ingestion.Crawl.{
  crawl_key, crawl_stored, crawl_new, crawl_again, crawl_active, queue_connector_crawl,
}

module _ (h : Hashes) (db : Db) (source_id : ℕ) (cursor : Option String) (c : CrawlConfiguration)
    (ids : NewIds) (now : ℕ) where
  -- The crawl is new, and what it stores.
  record IsQueued (run : Run) (db' : Db) : Type 0 where
    source : Source
    listed : get_source db source_id ≡ some source
    active : is_active source.status ≡ true
    at_cursor : same_text (state_of db source_id).cursor cursor ≡ true
    free : after (state_of db source_id).lease_expires_at now ≡ false
    new : run ≡ new_run ids.run_id ids.batch_id source_id now
    store :
        db'
        ≡ crawl_stored h
            (with_state db source_id)
            source_id
            source
            (state_of db source_id)
            cursor
            c
            ids
            now

  crawl_new-IsQueued :
      (source : Source) (run : Run) (db' : Db)
      → get_source db source_id ≡ some source
      → is_active source.status ≡ true
      → same_text (state_of db source_id).cursor cursor ≡ true
      → crawl_new h db source_id source cursor c ids now ≡ ok (run, db')
      → IsQueued run db'
  unfolding crawl_new
  crawl_new-IsQueued source run db' listed active at_cursor e = record {
    source = source;
    listed = listed;
    active = active;
    at_cursor = at_cursor;
    free = ground arith;
    new = ground arith;
    store = ground arith;
  }

  queued :
      (run : Run) (db' : Db)
      → find (is_batch source_id (crawl_key h source_id cursor c now)) db.batches ≡ none
      → queue_connector_crawl h db source_id cursor c ids now ≡ ok (run, db')
      → IsQueued run db'
  unfolding queue_connector_crawl
  queued run db' unused e =
      let (source, listed, e₁) = >>=-ok (require (get_source db source_id) source_missing) _ e in
      let (_, active, e₂) = >>=-ok (guard (is_active source.status) source_inactive) _ e₁ in
      let (_, current, e₃) =
        >>=-ok (guard (same_text (state_of db source_id).cursor cursor) cursor_stale) _ e₂ in
      crawl_new-IsQueued source run db' (ground arith) (ground arith) (ground arith)
        (rw (unused, crawl_active) at e₃)

  abbrev leased : IngestionState
  leased = record (state_of db source_id) {
    lease_run_id = some ids.run_id;
    lease_expires_at = some (now + collection_lease);
  }

  abbrev new_crawl : Batch
  new_crawl =
      new_batch ids.batch_id source_id (crawl_key h source_id cursor c now) (h.configuration c) now

  module _ (source : Source) where
    stored_db : Db
    stored_db =
        crawl_stored h (with_state db source_id) source_id source (state_of db source_id) cursor c
          ids now

    state-stored : get_state stored_db source_id ≡ some leased
    unfolding stored_db crawl_stored
    state-stored =
        row-put_self _ _ _ _ _ (state-with_state db source_id) (state_of-source_id db source_id)

    source-stored :
        get_source db source_id ≡ some source
        → get_source stored_db source_id ≡ some (touch now source)
    unfolding stored_db crawl_stored with_state
    source-stored listed = row-put_self _ _ _ _ _ listed (row-key _ _ _ listed)

    batch-stored :
        find (is_batch source_id (crawl_key h source_id cursor c now)) db.batches ≡ none
        → find (is_batch source_id (crawl_key h source_id cursor c now)) stored_db.batches
          ≡ some new_crawl
    unfolding stored_db crawl_stored with_state
    batch-stored unused =
        rw find-append (rw unused (ground (arith, eq_refl (crawl_key h source_id cursor c now))))

    run-stored :
        find (is_run_of ids.batch_id) db.runs ≡ none
        → find (is_run_of ids.batch_id) stored_db.runs
          ≡ some (new_run ids.run_id ids.batch_id source_id now)
    unfolding stored_db crawl_stored with_state
    run-stored fresh = rw find-append (rw fresh (ground arith))

-- Within fifteen minutes after a new crawl of a source was queued, a batch for the source with a key
-- that is not in use is refused with 409 and stores nothing.
pub queue_connector_crawl_excludes :
    (h : Hashes) (db : Db) (source_id : ℕ) (cursor : Option String) (c : CrawlConfiguration)
    (ids ids' : NewIds) (now now' : ℕ) (run : Run) (db' : Db) (payload : ReceiveBatch)
    → find (is_batch source_id (crawl_key h source_id cursor c now)) db.batches ≡ none
    → queue_connector_crawl h db source_id cursor c ids now ≡ ok (run, db')
    → payload.source_id ≡ source_id
    → find (is_batch payload.source_id payload.batch_key) db'.batches ≡ none
    → now' < now + collection_lease
    → receive_batch h db' payload ids' now' ≡ err already_leased
unfolding stored_db
queue_connector_crawl_excludes h db source_id cursor c ids ids' now now' run db' payload unused e
      same other early =
    let q = queued h db source_id cursor c ids now run db' unused e in
    refused_while_leased h db' payload ids' now' (touch now q.source)
      (leased h db source_id cursor c ids now)
      (rw (same, q.store) (source-stored h db source_id cursor c ids now q.source q.listed))
      q.active (rw (same, q.store) (state-stored h db source_id cursor c ids now q.source))
      (ground arith) other

same_cursor :
    (h : Hashes) (db : Db) (source_id : ℕ) (s : IngestionState) (cursor : Option String)
    → get_state db source_id ≡ some s
    → same_text s.cursor cursor ≡ true
    → same_text (state_of db source_id).cursor cursor ≡ true
unfolding state_of
same_cursor h db source_id s cursor found same = ground arith

crawls_again :
    (h : Hashes) (db : Db) (source_id : ℕ) (cursor : Option String) (c : CrawlConfiguration)
    (ids : NewIds) (now : ℕ) (source : Source) (b : Batch) (r : Run)
    → get_source db source_id ≡ some source
    → is_active source.status ≡ true
    → same_text (state_of db source_id).cursor cursor ≡ true
    → find (is_batch source_id (crawl_key h source_id cursor c now)) db.batches ≡ some b
    → find (is_run_of b.id) db.runs ≡ some r
    → queue_connector_crawl h db source_id cursor c ids now ≡ ok (r, db)
unfolding queue_connector_crawl crawl_active crawl_again
crawls_again h db source_id cursor c ids now source b r listed active current found run =
    ground arith

-- A crawl that was queued, with a batch identifier that no run uses yet, and that is requested again
-- at the same cursor within the same minute, gets the same run and changes nothing, although the
-- source is leased.
pub queue_connector_crawl_again :
    (h : Hashes) (db : Db) (source_id : ℕ) (cursor : Option String) (c : CrawlConfiguration)
    (ids ids' : NewIds) (now now' : ℕ) (run : Run) (db' : Db)
    → find (is_batch source_id (crawl_key h source_id cursor c now)) db.batches ≡ none
    → find (is_run_of ids.batch_id) db.runs ≡ none
    → queue_connector_crawl h db source_id cursor c ids now ≡ ok (run, db')
    → now' / (60 * second) ≡ now / (60 * second)
    → queue_connector_crawl h db' source_id cursor c ids' now' ≡ ok (run, db')
unfolding stored_db
queue_connector_crawl_again h db source_id cursor c ids ids' now now' run db' unused fresh e
      minute =
    let q = queued h db source_id cursor c ids now run db' unused e in
    rw (q.store, q.new)
      (crawls_again h (stored_db h db source_id cursor c ids now q.source) source_id cursor c ids'
        now' (touch now q.source) (new_crawl h db source_id cursor c ids now)
        (new_run ids.run_id ids.batch_id source_id now)
        (source-stored h db source_id cursor c ids now q.source q.listed) q.active
        (same_cursor h (stored_db h db source_id cursor c ids now q.source) source_id _ cursor
          (state-stored h db source_id cursor c ids now q.source) q.at_cursor)
        (subst
          (λ (m : ℕ).
            find (is_batch source_id (h.crawl source_id cursor c m))
              (stored_db h db source_id cursor c ids now q.source).batches
            ≡ some (new_crawl h db source_id cursor c ids now))
          (sym minute) (batch-stored h db source_id cursor c ids now q.source unused))
        (run-stored h db source_id cursor c ids now q.source fresh))
