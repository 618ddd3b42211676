-- ===== src/Worker/Collect/Pages.antt =====
-- What a crawl that is done has stored.
use bbd_os.Prelude.{
  ℕ, ◌≤◌, ◌<◌, ◌≡◌, refl, sym, ap, ◌∙◌, arith, Option, none, some, true, false, List, [], ◌∷◌, ◌++◌,
  map, ◌||◌, length, any, All, eq_refl, Option-cases, Bool-cases, inl, inr, Result, ok, err,
}
use mathlib.Core.Path.{subst}
use mathlib.Core.List.{append_assoc, append-nil}
use bbd_os.Database.{Db, Source, Batch, IngestionRecord, IngestionState, Observation, OutboxEvent}
use bbd_os.Worker.Collect.{
  Collector, Reply, timed_out, unreachable, response, done, canonical, conflicts, page_observation,
  insert_new, store_pages, active_crawl, store_active, store_crawl, accept_pages, request_pages,
  collect_web_job,
}

-- The unique constraint of the table: no row conflicts with one that was stored before it.
pub data Unique : List Observation → Type 0 where
  none_yet : Unique []
  one_more :
      (l : List Observation) (o : Observation)
      → Unique l
      → any (conflicts o) l ≡ false
      → Unique (l ++ o ∷ [])

any-append :
    (o : Observation) (l k : List Observation)
    → any (conflicts o) (l ++ k) ≡ (any (conflicts o) l || any (conflicts o) k)
any-append o [] k = refl
any-append o (x ∷ l) k = ground (arith, any-append o l k)

conflicts_refl : (o : Observation) → conflicts o o ≡ true
conflicts_refl o = ground (arith, eq_refl o.provider_id, eq_refl o.record_hash)

-- The table after an insertion: the rows of before, then new ones.
abbrev Extends : List Observation → List Observation → Type 0
Extends table out = (new : List Observation) × (out ≡ table ++ new)

module _ (table : List Observation) (o : Observation) (l : List Observation) where
  insert_old : any (conflicts o) table ≡ true → insert_new table (o ∷ l) ≡ insert_new table l
  unfolding insert_new
  insert_old h = rw (h, insert_new)

  insert_fresh :
      any (conflicts o) table ≡ false → insert_new table (o ∷ l) ≡ insert_new (table ++ o ∷ []) l
  unfolding insert_new
  insert_fresh h = rw (h, insert_new)

insert_new-Extends : (table l : List Observation) → Extends table (insert_new table l)
unfolding insert_new
insert_new-Extends table [] = ([], sym (append-nil table))
insert_new-Extends table (o ∷ l) = elim (Bool-cases (any (conflicts o) table)) [
  | inl old ↦ subst (Extends table) (sym (insert_old table o l old)) (insert_new-Extends table l)
  | inr fresh ↦
      let (new, e) = insert_new-Extends (table ++ o ∷ []) l in
      subst (Extends table) (sym (insert_fresh table o l fresh))
        (o ∷ new, cc (e, append_assoc table (o ∷ []) new))
]

insert_new-Unique : (table l : List Observation) → Unique table → Unique (insert_new table l)
unfolding insert_new
insert_new-Unique table [] u = u
insert_new-Unique table (o ∷ l) u = elim (Bool-cases (any (conflicts o) table)) [
  | inl old ↦ subst Unique (sym (insert_old table o l old)) (insert_new-Unique table l u)
  | inr fresh ↦
      subst Unique (sym (insert_fresh table o l fresh))
        (insert_new-Unique (table ++ o ∷ []) l (one_more table o u fresh))
]

-- A row that conflicts with `o` is in the table.
abbrev pub Present : List Observation → Observation → Type 0
Present table o = any (conflicts o) table ≡ true

insert_new-Present :
    (table l : List Observation) (o : Observation)
    → Present table o
    → Present (insert_new table l) o
insert_new-Present table l o h =
    let (new, e) = insert_new-Extends table l in
    subst (λ t. Present t o) (sym e) (ground (arith, any-append o table new))

insert_new_covers : (table l : List Observation) → All (Present (insert_new table l)) l
unfolding insert_new
insert_new_covers table [] = tt
insert_new_covers table (o ∷ l) = elim (Bool-cases (any (conflicts o) table)) [
  | inl old ↦
      subst (λ t. All (Present t) (o ∷ l)) (sym (insert_old table o l old))
        (insert_new-Present table l o old, insert_new_covers table l)
  | inr fresh ↦
      subst (λ t. All (Present t) (o ∷ l)) (sym (insert_fresh table o l fresh))
        (
          insert_new-Present (table ++ o ∷ []) l o
              (ground (arith, any-append o table (o ∷ []), conflicts_refl o)),
          insert_new_covers (table ++ o ∷ []) l,
        )
]

module _ (c : Collector) (db : Db) (event : OutboxEvent) (run_id stage_id : ℕ) (reply : Reply)
    (db' : Db) where
  -- The crawl returned the records `records`, and they were stored for the source.
  pub record IsCollected : Type 0 where
    pub code : ℕ
    pub retry_after : Option ℕ
    pub records : List IngestionRecord
    pub source_id : ℕ
    pub source : Source
    pub batch : Batch
    pub state : IngestionState
    pub replied : reply ≡ response code retry_after (some records)
    pub names_source : event.payload.source_id ≡ some source_id
    pub nonempty : 1 ≤ length records
    pub few : length records ≤ 500
    pub accepted : code < 400
    pub active : active_crawl db event source_id run_id stage_id ≡ ok (source, batch, state)
    pub store : db' ≡ store_pages c db source batch state event.occurred_at records

active_done :
    (c : Collector) (db : Db) (now : ℕ) (records : List IngestionRecord)
    (r : Result (Source × Batch × IngestionState)) (db' : Db)
    → store_active c db now records r ≡ done db'
    → (source : Source) × (batch : Batch) × (state : IngestionState) × (r
        ≡ ok (source, batch, state))
      × (db' ≡ store_pages c db source batch state now records)
unfolding store_active
active_done c db now records (err e) db' h = absurd (ground arith)
active_done c db now records (ok (source, batch, state)) db' h =
    (source, batch, state, refl, ground arith)

store_done :
    (c : Collector) (db : Db) (event : OutboxEvent) (source_id run_id stage_id : ℕ)
    (records : List IngestionRecord) (db' : Db)
    → store_crawl c db event source_id run_id stage_id records ≡ done db'
    → (source : Source) × (batch : Batch) × (state : IngestionState) × (active_crawl db event
          source_id run_id stage_id
        ≡ ok (source, batch, state))
      × (db' ≡ store_pages c db source batch state event.occurred_at records)
unfolding store_crawl
store_done c db event source_id run_id stage_id records db' h =
    active_done c db event.occurred_at records (active_crawl db event source_id run_id stage_id) db'
      h

module _ (c : Collector) (db : Db) (event : OutboxEvent) (run_id stage_id : ℕ) (reply : Reply)
    (db' : Db) where
  request_done :
      (source_id code : ℕ) (retry_after : Option ℕ) (records : List IngestionRecord)
      → reply ≡ response code retry_after (some records)
      → event.payload.source_id ≡ some source_id
      → code < 400
      → accept_pages c db event source_id run_id stage_id (some records) ≡ done db'
      → IsCollected c db event run_id stage_id reply db'
  unfolding accept_pages
  request_done source_id code retry_after records replied names_source accepted h =
      let (source, batch, state, active, store) =
        store_done c db event source_id run_id stage_id records db' (ground arith) in
      record {
        code = code;
        retry_after = retry_after;
        records = records;
        source_id = source_id;
        source = source;
        batch = batch;
        state = state;
        replied = replied;
        names_source = names_source;
        nonempty = ground arith;
        few = ground arith;
        accepted = accepted;
        active = active;
        store = store;
      }

reply_done :
    (c : Collector) (db : Db) (event : OutboxEvent) (run_id stage_id source_id : ℕ) (reply : Reply)
    (db' : Db)
    → event.payload.source_id ≡ some source_id
    → request_pages c db event source_id run_id stage_id reply ≡ done db'
    → IsCollected c db event run_id stage_id reply db'
unfolding request_pages accept_pages
reply_done c db event run_id stage_id source_id timed_out db' n h = absurd (ground arith)
reply_done c db event run_id stage_id source_id unreachable db' n h = absurd (ground arith)
reply_done c db event run_id stage_id source_id (response code retry_after none) db' n h =
    absurd (ground arith)
reply_done c db event run_id stage_id source_id (response code retry_after (some records)) db' n h =
    request_done c db event run_id stage_id (response code retry_after (some records)) db' source_id
      code retry_after records refl n (ground arith) (ground arith)

pub collect_done :
    (c : Collector) (db : Db) (event : OutboxEvent) (run_id stage_id : ℕ) (reply : Reply) (db' : Db)
    → collect_web_job c db event run_id stage_id reply ≡ done db'
    → IsCollected c db event run_id stage_id reply db'
unfolding collect_web_job
collect_done c db event run_id stage_id reply db' h =
    elim (Option-cases event.payload.configuration) [
      | inl missing ↦ let h₁ = rw (missing, collect_web_job) at h in absurd (ground arith)
      | inr (configuration, found) ↦
          let h₁ = rw (found, collect_web_job) at h in
          elim (Option-cases event.payload.source_id) [
            | inl missing ↦ let h₂ = rw missing at h₁ in absurd (ground arith)
            | inr (source_id, named) ↦
                reply_done c db event run_id stage_id source_id reply db' named
                  (let h₂ = rw named at h₁ in ground arith)
          ]
    ]

-- The pages that a crawl returned, as the observations of a batch at the time of its event.
abbrev pub pages_of : Collector → ℕ → ℕ → ℕ → List IngestionRecord → List Observation
pages_of c source_id batch_id now records =
    map (page_observation c.hashes source_id batch_id now) (map (canonical now) records)

-- A crawl is done only if the browser service returned between one and five hundred pages with a
-- status below 400. Then the observations of before are all kept, each page has an observation, and
-- if the unique constraint held before it does now.
pub collect_web_job_done :
    (c : Collector) (db : Db) (event : OutboxEvent) (run_id stage_id : ℕ) (reply : Reply) (db' : Db)
    → collect_web_job c db event run_id stage_id reply ≡ done db'
    → Unique db.observations
    → (code : ℕ) × (retry_after : Option ℕ) × (records : List IngestionRecord) × (source_id
        batch_id : ℕ)
      × (new : List Observation) × (reply ≡ response code retry_after (some records))
      × (code < 400)
      × (1 ≤ length records)
      × (length records ≤ 500)
      × (db'.observations ≡ db.observations ++ new)
      × All (Present db'.observations) (pages_of c source_id batch_id event.occurred_at records)
      × Unique db'.observations
unfolding store_pages
collect_web_job_done c db event run_id stage_id reply db' h u =
    let k = collect_done c db event run_id stage_id reply db' h in
    let pages = pages_of c k.source.id k.batch.id event.occurred_at k.records in
    let (new, e) = insert_new-Extends db.observations pages in
    let stored : db'.observations ≡ insert_new db.observations pages =
      ap (λ (d : Db). d.observations) k.store in
    (
      k.code,
      k.retry_after,
      k.records,
      k.source.id,
      k.batch.id,
      new,
      k.replied,
      k.accepted,
      k.nonempty,
      k.few,
      stored ∙ e,
      subst (λ t. All (Present t) pages) (sym stored) (insert_new_covers db.observations pages),
      subst Unique (sym stored) (insert_new-Unique db.observations pages u),
    )
