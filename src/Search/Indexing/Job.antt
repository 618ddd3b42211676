-- ===== src/Search/Indexing/Job.antt =====
-- The transaction of index_pending_chunks that sends a chunk to the embedding model, the one that
-- records a failure, and the rounds of the job.
use bbd_os.Prelude.{
  ℕ, zero, suc, ◌+◌, String, Option, none, some, Bool, true, false, List, [], ◌∷◌, ◌++◌, ◌&&◌, ◌||◌,
  not, if◌then◌else◌, ◌==◌, str_eq, same_text, length, put, row, delete_where, Result, ok, err,
  Error, model_gateway_error, privacy_policy_denied, capability_unsupported, redis_error,
  value_error,
}
use bbd_os.Database.{Db, Source, DocumentChunk, DocumentVersion, Document, get_source, is_active}
use bbd_os.Gateway.{
  ModelMapping, RequestPolicy, Capability, ModelGateway, ModelRequest, Meets, Sent, request,
}
use bbd_os.Search.{
  ItemStatus, IndexGeneration, IndexItem, SearchDb, get_generation, get_item, get_chunk,
  put_generation, put_item, versioned, is_current, is_live, is_running,
}
use bbd_os.Search.Embedding.{Json, Number, embedding_values}
use bbd_os.Search.Indexing.{Work, pick, failed_generation, choose_generation, model_unavailable}

-- configured_embedding, with the privacy settings and the mapping that Redis holds.
abbrev pub embedding_policy : Bool → RequestPolicy
embedding_policy allow_remote_embeddings = record {
  reasoning_allowed = false;
  embeddings_allowed = allow_remote_embeddings;
  local_only = false;
  permitted_destinations = "omniroute" ∷ [];
}

pub record Configured : Type 0 where
  pub allow_remote_embeddings : Bool
  pub mapping : Option ModelMapping

-- The model as the job meets it; `input` is the JSON of a request and `parse` reads that of an answer.
pub record Model : Type 0 where
  pub configured : Result Configured
  pub gateway : ModelGateway
  pub meets : Meets
  pub input : String → String
  pub parse : String → Json

abbrev pub embed_request : Model → Configured → String → ModelRequest
embed_request m c content = record {
  alias = "embedding";
  mapping = c.mapping;
  policy = embedding_policy c.allow_remote_embeddings;
  capability = Capability.embeddings;
  path = "embeddings";
  payload = m.input content;
  probe = false;
}

-- How a round goes on: with the next round, with no other, with the recording of a failure, or with an
-- exception that ends the job.
pub data Next : Type 0 where
  again stop completed failing : Next
  raised : Error → Next

-- The exceptions that the job catches: ModelGatewayError with its subclasses, RedisError, ValueError.
abbrev pub is_caught : Error → Bool
is_caught (model_gateway_error why) = true
is_caught (privacy_policy_denied why) = true
is_caught (capability_unsupported why) = true
is_caught redis_error = true
is_caught value_error = true
is_caught other = false

abbrev pub failure : Error → Next
failure e = if is_caught e then failing else raised e

pub record Embedded : Type 0 where
  pub next : Next
  pub after : SearchDb
  pub sent : List Sent

abbrev pub silent : Next → SearchDb → Embedded
silent next s = record { next = next; after = s; sent = [] }

-- `session.delete(item)` where there is one.
abbrev pub drop_item : SearchDb → Option IndexItem → SearchDb
drop_item s none = s
drop_item s (some i) = record s { items = delete_where (λ r. IndexItem.id r == i.id) s.items }

abbrev pub is_current_version : Option (DocumentVersion × Document) → Bool
is_current_version none = false
is_current_version (some (v, d)) = is_current v d

unfoldable pub is_current_chunk : Db → Option DocumentChunk → Bool
unfolding versioned
is_current_chunk db none = false
is_current_chunk db (some c) = is_current_version (versioned db c)

-- The locked source may be sent, and the chunk is current.
abbrev pub may_embed : Option Source → Bool → Bool
may_embed none current = false
may_embed (some source) current = is_active source.status && not source.local_only && current

abbrev pub same_model : Option ModelMapping → IndexGeneration → Bool
same_model none g = false
same_model (some mapping) g =
    str_eq mapping.model g.model_id && same_text mapping.version g.model_version

abbrev pub embedded_item : List Number → IndexItem → IndexItem
embedded_item values i = record i {
  status = ItemStatus.succeeded;
  error_code = none;
  embedding = some values;
}

-- The vector is stored in the dimensions of the generation, which the first vector sets with the model
-- that answered; another model fails the generation.
unfoldable pub store_in :
    SearchDb
    → List Number
    → Option String
    → IndexGeneration
    → IndexItem
    → Option ℕ
    → Next × SearchDb
unfolding put
store_in s values model g i none = (
  completed,
  put_item (embedded_item values i) (
      put_generation (record g { response_model_id = model; dimensions = some (length values) }) s),
)
store_in s values model g i (some dimensions) =
    if not (same_text model g.response_model_id)
    then (
      stop,
      put_item (record i { status = ItemStatus.failed; error_code = some "model_identity_changed" })
          (put_generation (failed_generation "model_identity_changed" g) s),
    )
    else if dimensions == length values
    then (completed, put_item (embedded_item values i) s)
    else (failing, s)

unfoldable pub store_vector :
    SearchDb → List Number → Option String → IndexGeneration → IndexItem → Next × SearchDb
unfolding store_in
store_vector s values model g i = store_in s values model g i g.dimensions

unfoldable pub store_embedding :
    SearchDb
    → List Number
    → Option String
    → Option IndexGeneration
    → Option IndexItem
    → Next × SearchDb
unfolding store_vector delete_where
store_embedding s values model none item = (again, drop_item s item)
store_embedding s values model (some g) none = (again, s)
store_embedding s values model (some g) (some i) =
    if is_running g.status || is_live g.status
    then store_vector s values model g i
    else (again, drop_item s (some i))

-- What is done with the answer of the model.
unfoldable pub receive_embedding :
    SearchDb → Work → Result (List Number × Option String) → Next × SearchDb
unfolding store_embedding row
receive_embedding s work (err e) = (failure e, s)
receive_embedding s work (ok (values, model)) =
    store_embedding s values model (get_generation s work.generation.id) (get_item s work.item_id)

abbrev pub parsed : Model → Option ℕ → Result String → Result (List Number × Option String)
parsed m dimensions (err e) = err e
parsed m dimensions (ok body) = embedding_values (m.parse body) dimensions

abbrev pub with_sent : Next × SearchDb → List Sent → Embedded
with_sent (next, s) sent = record { next = next; after = s; sent = sent }

unfoldable pub embed_configured : SearchDb → Work → Model → Result Configured → Embedded
unfolding request embedding_values receive_embedding
embed_configured s work m (err e) = silent (failure e) s
embed_configured s work m (ok c) =
    if not c.allow_remote_embeddings
    then silent stop s
    else if same_model c.mapping work.generation
    then with_sent
        (receive_embedding s work (
          parsed m work.generation.dimensions
            (request m.gateway (embed_request m c work.chunk.content) m.meets).0))
        (request m.gateway (embed_request m c work.chunk.content) m.meets).1
    else silent failing s

-- The second transaction of a round, which holds the lock of the source while it waits for the model.
unfoldable pub embed_chunk : SearchDb → Work → Model → Embedded
unfolding embed_configured is_current_chunk row delete_where
embed_chunk s work m =
    if may_embed (get_source s.db work.source_id)
      (is_current_chunk s.db (get_chunk s.db work.chunk.id))
    then embed_configured s work m m.configured
    else silent again (drop_item s (get_item s work.item_id))

abbrev pub fail_found : SearchDb → Option IndexItem → SearchDb
fail_found s none = s
fail_found s (some i) =
    put_item (record i { status = ItemStatus.failed; error_code = some "embedding_failed" }) s

-- The transaction after an error.
unfoldable pub fail_item : SearchDb → ℕ → SearchDb
unfolding row put
fail_item s id = fail_found s (get_item s id)

-- What a round meets: what other transactions do before the embedding and before the recording of a
-- failure, the model, and the identifier that is drawn for a new item.
pub record Round : Type 0 where
  pub before_embedding : SearchDb → SearchDb
  pub before_failure : SearchDb → SearchDb
  pub before_next : SearchDb → SearchDb
  pub model : Model
  pub id : ℕ

-- The number of vectors that were stored, the rows, and the requests that were sent.
pub record Indexed : Type 0 where
  pub count : ℕ
  pub after : SearchDb
  pub sent : List Sent

abbrev pub and_then : ℕ → List Sent → Result Indexed → Result Indexed
and_then n sent (err e) = err e
and_then n sent (ok r) = ok (record r { count = n + r.count; sent = sent ++ r.sent })

-- What follows an embedding: `more` is the rest of the loop.
unfoldable pub after_embedding :
    Round → Work → Embedded → (SearchDb → Result Indexed) → Result Indexed
unfolding fail_item
after_embedding r work e more = elim e.next [
  | again ↦ and_then 0 e.sent (more e.after)
  | stop ↦ ok (record { count = 0; after = e.after; sent = e.sent })
  | completed ↦ and_then 1 e.sent (more e.after)
  | failing ↦ and_then 0 e.sent (more (fail_item (r.before_failure e.after) work.item_id))
  | raised error ↦ err error
]

unfoldable pub after_pick :
    Round → Result (Option Work × SearchDb) → (SearchDb → Result Indexed) → Result Indexed
unfolding embed_chunk after_embedding
after_pick r (err e) more = err e
after_pick r (ok (none, s)) more = ok (record { count = 0; after = s; sent = [] })
after_pick r (ok (some work, s)) more =
    after_embedding r work (embed_chunk (r.before_embedding s) work r.model) more

-- `for _ in range(2)`
unfoldable pub index_rounds : ℕ → (ℕ → Round) → ℕ → SearchDb → Result Indexed
unfolding pick after_pick
index_rounds zero rounds generation_id s = ok (record { count = 0; after = s; sent = [] })
index_rounds (suc left) rounds generation_id s =
    after_pick (rounds left) (pick s generation_id (rounds left).id)
      (λ t. index_rounds left rounds generation_id ((rounds left).before_next t))

abbrev pub unchanged : SearchDb → Result Indexed
unchanged s = ok (record { count = 0; after = s; sent = [] })

-- `s` is what the job finds behind the reading of its generation.
unfoldable pub index_generation :
    Result Configured → (ℕ → Round) → SearchDb → Option IndexGeneration → Result Indexed
unfolding index_rounds model_unavailable
index_generation configured rounds s none = unchanged s
index_generation (err e) rounds s (some g) = unchanged (model_unavailable s g.id)
index_generation (ok c) rounds s (some g) =
    if not c.allow_remote_embeddings
    then unchanged s
    else if same_model c.mapping g
    then index_rounds 2 rounds g.id s
    else unchanged (model_unavailable s g.id)

-- The job behind the backfill of chunks; `between` is what happens while the settings are read.
unfoldable pub index_pending_chunks :
    Result Configured → (SearchDb → SearchDb) → (ℕ → Round) → SearchDb → Result Indexed
unfolding choose_generation index_generation
index_pending_chunks configured between rounds s =
    index_generation configured rounds (between s) (choose_generation s)
