-- ===== src/Worker/Collect/Cursor.antt =====
-- The cursor of a source does not go back in time.
use bbd_os.Prelude.{
  ℕ, ◌≤◌, ◌≡◌, ap, arith, String, Option, some, false, ltb, str_eq, row-put_self, row-key,
  Bool-cases, inl, inr, holds, ok, >>=-ok, guard, require, value_error, ◌&&◌, ◌==◌,
}
use bbd_os.Database.{
  Db, Source, Batch, IngestionState, OutboxEvent, get_source, get_run, get_stage, get_state,
}
use bbd_os.Worker.{available}
use bbd_os.Worker.Collect.{
  Collector, Reply, done, cursor_after, store_pages, active_crawl, get_batch, collect_web_job,
}
use bbd_os.Worker.Collect.Pages.{collect_done}

-- A cursor stands for the time `t`.
abbrev pub Shows : Collector → Option String → ℕ → Type 0
Shows c cursor t =
    (text : String) × (cursor ≡ some text)
    × (str_eq text "" ≡ false)
    × (c.fromisoformat text ≡ some t)

-- Timestamps are read as they were written, and none is empty.
abbrev pub ReadsBack : Collector → Type 0
ReadsBack c =
    (t : ℕ) → (str_eq (c.isoformat t) "" ≡ false) × (c.fromisoformat (c.isoformat t) ≡ some t)

cursor_grows :
    (c : Collector) (cursor : Option String) (prior now : ℕ)
    → ReadsBack c
    → Shows c cursor prior
    → (t : ℕ) × Shows c (some (cursor_after c cursor now)) t × (prior ≤ t) × (now ≤ t)
unfolding cursor_after
cursor_grows c cursor prior now reads (text, same, nonempty, read) =
    elim (Bool-cases (ltb now prior)) [
      | inl later ↦
          let e : cursor_after c cursor now ≡ text = ground arith in
          (prior, (text, ap some e, nonempty, read), ground arith, ground arith)
      | inr earlier ↦
          let e : cursor_after c cursor now ≡ c.isoformat now = ground arith in
          (
            now,
            (c.isoformat now, ap some e, (reads now).0, (reads now).1),
            ground arith,
            ground arith,
          )
    ]

active_state :
    (db : Db) (event : OutboxEvent) (source_id run_id stage_id : ℕ) (source : Source)
    (batch : Batch) (state : IngestionState)
    → active_crawl db event source_id run_id stage_id ≡ ok (source, batch, state)
    → get_state db source_id ≡ some state
unfolding active_crawl
active_state db event source_id run_id stage_id source batch state h =
    let (s, found, h₁) =
      >>=-ok
        (require (available (get_source db source_id) (holds event.payload.source_generation))
          value_error)
        _ h in
    let (r, at_run, h₂) = >>=-ok (require (get_run db run_id) value_error) _ h₁ in
    let (_, at_stage, h₃) = >>=-ok (require (get_stage db stage_id) value_error) _ h₂ in
    let (b, at_batch, h₄) = >>=-ok (require (get_batch db r.batch_id) value_error) _ h₃ in
    let (st, at_state, h₅) = >>=-ok (require (get_state db source_id) value_error) _ h₄ in
    let (_, leased, h₆) =
      >>=-ok (guard (r.source_id == source_id && holds st.lease_run_id r.id) value_error) _ h₅ in
    ground arith

-- If timestamps are read back as they were written, a crawl that is done leaves the cursor of its
-- source at a time that is neither before that of the crawl's event nor, if the cursor showed a time
-- before, before that time.
pub collect_web_job_cursor :
    (c : Collector) (db : Db) (event : OutboxEvent) (run_id stage_id source_id : ℕ) (reply : Reply)
    (db' : Db) (state : IngestionState) (prior : ℕ)
    → ReadsBack c
    → collect_web_job c db event run_id stage_id reply ≡ done db'
    → event.payload.source_id ≡ some source_id
    → get_state db source_id ≡ some state
    → Shows c state.cursor prior
    → (state' : IngestionState) × (t : ℕ) × (get_state db' source_id ≡ some state')
      × Shows c state'.cursor t
      × (prior ≤ t)
      × (event.occurred_at ≤ t)
unfolding store_pages
collect_web_job_cursor c db event run_id stage_id source_id reply db' state prior reads h named
      at_state shows =
    let k = collect_done c db event run_id stage_id reply db' h in
    let same_id : k.source_id ≡ source_id = let n = k.names_source in ground arith in
    let there =
      active_state db event k.source_id run_id stage_id k.source k.batch k.state k.active in
    let same : k.state ≡ state = ground (arith, there) in
    let (t, shown, p, q) = cursor_grows c state.cursor prior event.occurred_at reads shows in
    (
      record state { cursor = some (cursor_after c state.cursor event.occurred_at) },
      t,
      rw (k.store, same) (row-put_self _ _ _ _ _ at_state (row-key _ _ _ at_state)),
      shown,
      p,
      q,
    )
