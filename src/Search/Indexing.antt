-- ===== src/Search/Indexing.antt =====
-- The job index_pending_chunks of modules/search/indexing.py, transaction by transaction, and
-- create_generation. A new row takes the identifier that is drawn for it. What other transactions do in
-- between is an argument of the whole job.
pub mod Job
pub mod Activation
pub mod Single
pub mod Sending
use bbd_os.Prelude.{
  ℕ, zero, suc, ◌+◌, String, Option, none, some, Bool, true, false, List, [], ◌∷◌, ◌++◌, ◌&&◌, ◌||◌,
  not, if◌then◌else◌, ◌==◌, ltb, leb, str_eq, same_text, is_none, length, all, any, row, put, find,
  delete_where, Result, ok, err, Error, value_error, integrity_error,
}
use bbd_os.Database.{Db, Source, DocumentChunk, get_source, is_active}
use bbd_os.Gateway.{ModelMapping}
use bbd_os.Search.{
  GenerationStatus, ItemStatus, IndexGeneration, IndexItem, SearchDb, get_generation, get_item,
  get_chunk, put_generation, put_item, joined, is_current, Joined, is_eligible, first_by, is_open,
  is_live, is_running, is_pending, is_succeeded, item_of,
}
use bbd_os.Search.Embedding.{Json, Number, embedding_values, max_vector_dimensions}

abbrev pub older : IndexGeneration → IndexGeneration → Bool
older a b = ltb a.created_at b.created_at || a.created_at == b.created_at && ltb a.id b.id

abbrev pub new_generation : ℕ → ModelMapping → ℕ → IndexGeneration
new_generation id mapping now = record {
  id = id;
  model_id = mapping.model;
  model_version = mapping.version;
  response_model_id = none;
  dimensions = none;
  status = GenerationStatus.queued;
  error_code = none;
  created_at = now;
}

abbrev pub existing_or :
    SearchDb → IndexGeneration → Option IndexGeneration → IndexGeneration × SearchDb
existing_or s g (some existing) = (existing, s)
existing_or s g none = (g, record s { generations = s.generations ++ g ∷ [] })

-- The advisory lock makes this one step.
unfoldable pub create_generation : SearchDb → ModelMapping → ℕ → ℕ → IndexGeneration × SearchDb
unfolding first_by
create_generation s mapping id now =
    existing_or s (new_generation id mapping now)
      (first_by (λ a b. ltb a.created_at b.created_at) (λ g. is_open g.status) s.generations)

-- The generation that a run works on.
abbrev pub or_active : SearchDb → Option IndexGeneration → Option IndexGeneration
or_active s (some g) = some g
or_active s none = find (λ g. is_live g.status) s.generations

unfoldable pub choose_generation : SearchDb → Option IndexGeneration
unfolding first_by find
choose_generation s = or_active s (first_by older (λ g. is_open g.status) s.generations)

-- A set of models that cannot be used fails a generation that is not active yet.
abbrev pub fail_unless_active : SearchDb → Option IndexGeneration → SearchDb
fail_unless_active s none = s
fail_unless_active s (some g) =
    if is_live g.status
    then s
    else put_generation
        (record g { status = GenerationStatus.failed; error_code = some "model_unavailable" }) s

unfoldable pub model_unavailable : SearchDb → ℕ → SearchDb
unfolding put row
model_unavailable s i = fail_unless_active s (get_generation s i)

abbrev pub wants_item : Option IndexItem → Bool
wants_item none = true
wants_item (some i) = is_pending i.status

-- The next chunk to index: eligible, and without an item or with a pending one.
unfoldable pub next_chunk : SearchDb → ℕ → Option DocumentChunk
unfolding first_by item_of is_eligible find
next_chunk s generation_id =
    first_by (λ a b. ltb a.id b.id)
      (λ c. is_eligible s.db c && wants_item (item_of generation_id c.id s.items)) s.db.chunks

-- The chunk of an item is eligible.
abbrev pub eligible_chunk : Db → Option DocumentChunk → Bool
eligible_chunk db none = false
eligible_chunk db (some c) = is_eligible db c

-- DELETE of the items that did not succeed and whose chunk is not eligible any more.
unfoldable pub drop_stale : ℕ → SearchDb → SearchDb
unfolding delete_where is_eligible row
drop_stale generation_id s = record s {
  items =
      delete_where
        (λ i.
          i.generation_id == generation_id
          && not (is_succeeded i.status)
          && not (eligible_chunk s.db (get_chunk s.db i.chunk_id)))
        s.items;
}

abbrev pub retire_prior : SearchDb → Option IndexGeneration → SearchDb
retire_prior s none = s
retire_prior s (some prior) = put_generation (record prior { status = GenerationStatus.retired }) s

abbrev pub is_indexable : Option ℕ → Bool
is_indexable none = false
is_indexable (some n) = leb 1 n && leb n max_vector_dimensions

unfoldable pub activate_generation : SearchDb → IndexGeneration → Result SearchDb
unfolding find put
activate_generation s g =
    if is_indexable g.dimensions
    then ok (
        put_generation (record g { status = GenerationStatus.active; error_code = none })
          (retire_prior s (find (λ p. is_live p.status) s.generations)))
    else err value_error

abbrev pub failed_generation : String → IndexGeneration → IndexGeneration
failed_generation code g = record g { status = GenerationStatus.failed; error_code = some code }

-- No chunk is left: the generation becomes active, or it fails.
unfoldable pub conclude : SearchDb → IndexGeneration → Result SearchDb
unfolding activate_generation
conclude s g =
    if any (λ i. i.generation_id == g.id && not (is_succeeded i.status)) s.items
    then ok (put_generation (failed_generation "item_failed" g) s)
    else if is_none g.dimensions
    then ok (put_generation (failed_generation "no_indexable_chunks" g) s)
    else activate_generation s g

-- What a pick leaves to do.
pub record Work : Type 0 where
  pub generation : IndexGeneration
  pub item_id : ℕ
  pub chunk : DocumentChunk
  pub source_id : ℕ

abbrev pub started_status : GenerationStatus → GenerationStatus
started_status GenerationStatus.queued = GenerationStatus.running
started_status GenerationStatus.running = GenerationStatus.running
started_status GenerationStatus.active = GenerationStatus.active
started_status GenerationStatus.failed = GenerationStatus.failed
started_status GenerationStatus.retired = GenerationStatus.retired

abbrev pub started : IndexGeneration → IndexGeneration
started g = record g { status = started_status g.status }

abbrev pub new_item : ℕ → ℕ → ℕ → IndexItem
new_item id generation_id chunk_id = record {
  id = id;
  generation_id = generation_id;
  chunk_id = chunk_id;
  status = ItemStatus.pending;
  error_code = none;
  embedding = none;
}

-- The item of the chunk, which is added where there is none.
abbrev pub item_for :
    SearchDb → ℕ → IndexGeneration → DocumentChunk → Option IndexItem → ℕ × SearchDb
item_for s id g c (some i) = (i.id, s)
item_for s id g c none = (id, record s { items = s.items ++ new_item id g.id c.id ∷ [] })

abbrev pub no_work : SearchDb → Option Work × SearchDb
no_work s = (none, s)

-- An eligible chunk has its joins, so that the first clause is never met.
abbrev pub work_on :
    SearchDb → ℕ → IndexGeneration → DocumentChunk → Option Joined → Result (Option Work × SearchDb)
work_on s id g c none = ok (no_work s)
work_on s id g c (some (v, d, source)) =
    let (item_id, s') = item_for s id g c (item_of g.id c.id s.items) in
    ok (some (record { generation = g; item_id = item_id; chunk = c; source_id = source.id }), s')

abbrev pub concluded : Result SearchDb → Result (Option Work × SearchDb)
concluded (ok s) = ok (no_work s)
concluded (err e) = err e

unfoldable pub pick_next :
    SearchDb → ℕ → IndexGeneration → Option DocumentChunk → Result (Option Work × SearchDb)
unfolding conclude drop_stale item_of joined
pick_next s id g none =
    if is_running g.status then concluded (conclude (drop_stale g.id s) g) else ok (no_work s)
pick_next s id g (some c) = work_on s id g c (joined s.db c)

unfoldable pub pick_found : SearchDb → ℕ → Option IndexGeneration → Result (Option Work × SearchDb)
unfolding pick_next next_chunk put
pick_found s id none = ok (no_work s)
pick_found s id (some g) =
    if is_open g.status || is_live g.status
    then pick_next (put_generation (started g) s) id (started g) (next_chunk s g.id)
    else ok (no_work s)

-- The first transaction of a round.
unfoldable pub pick : SearchDb → ℕ → ℕ → Result (Option Work × SearchDb)
unfolding pick_found row
pick s generation_id id = pick_found s id (get_generation s generation_id)
