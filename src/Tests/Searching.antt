-- ===== src/Tests/Searching.antt =====
-- The job that builds an index, from a queued generation to an active one.
use bbd_os.Prelude.{
  ℕ, ◌+◌, ◌≡◌, ◌⊎◌, refl, arith, some, none, ok, true, false, [], ◌∷◌, find, row, put, delete_where,
  lstrip_slash, ends_with, is_blank,
}
use bbd_os.Database.{Db, Document, DocumentChunk, ExtractionStatus}
use bbd_os.Documents.{first_version}
use bbd_os.Ingestion.Files.{document_of}
use bbd_os.Gateway.{
  ModelMapping, Destination, reply, request, send, send_in_slot, url_under, configured, verified,
  may_send, after_answer, is_transient, read_reply,
}
use bbd_os.Search.{
  GenerationStatus, IndexGeneration, SearchDb, get_generation, first_by, item_of, is_eligible,
  joined, versioned,
}
use bbd_os.Search.Embedding.{
  Number, object, field, end, array, cons, nil, number, embedding_values, get, numbers, row_numbers,
  only_row, returned_model, checked_values,
}
use bbd_os.Search.Indexing.{
  Work, new_generation, choose_generation, pick, pick_found, pick_next, next_chunk, drop_stale,
  conclude, activate_generation, started, new_item,
}
use bbd_os.Search.Indexing.Activation.{IsIndexComplete, pick_complete}
use bbd_os.Search.Indexing.Job.{
  Model, Configured, Round, Indexed, embedded_item, embed_chunk, embed_configured, is_current_chunk,
  receive_embedding, store_embedding, store_vector, store_in, index_rounds, after_pick,
  after_embedding, index_generation, index_pending_chunks,
}
use bbd_os.Search.Indexing.Sending.{WasEmbedded, embed_chunk_sends}
use bbd_os.Search.Indexing.Single.{IsSingle, copies, count_status}
use bbd_os.Search.Indexing.Single.Whole.{index_pending_chunks-IsSingle}
use bbd_os.Tests.Data.{db_notes, uploads, file}

abbrev document : Document
document = record (document_of uploads 1 file 10) { extraction_status = ExtractionStatus.ready }

abbrev pub chunk : DocumentChunk
chunk = record {
  id = 9;
  document_version_id = 1;
  chunk_index = 0;
  content = "note";
  content_hash = "note";
  token_count = 1;
  start_token = 0;
}

abbrev pub db : Db
db = record db_notes {
  documents = document ∷ [];
  versions = first_version 1 7 "note" "note" 10 ∷ [];
  chunks = chunk ∷ [];
}

abbrev pub mapping : ModelMapping
mapping = record { model = "small"; version = none; destination = Destination.remote }

abbrev queued : IndexGeneration
queued = new_generation 1 mapping 20

abbrev search_queued : SearchDb
search_queued = record { db = db; generations = queued ∷ []; items = [] }

abbrev one : Number
one = record { text = "1"; is_finite = true; is_zero = false }

abbrev settings : Configured
settings = record { allow_remote_embeddings = true; mapping = some mapping }

abbrev pub model : Model
model = record {
  configured = ok settings;
  gateway = record {
    base_url = some "https://models";
    api_key = "key";
    destination_id = "omniroute";
  };
  meets = record {
    stored = ok (some "supported");
    slot = true;
    answers = λ attempt. reply 200 (some "vector");
  };
  input = λ content. content;
  parse = λ body. object (
      field "data"
        (array (cons (object (field "embedding" (array (cons (number one) nil)) end)) nil)) end);
}

abbrev work : Work
work = record { generation = started queued; item_id = 5; chunk = chunk; source_id = 1 }

abbrev search_picked : SearchDb
search_picked = record search_queued {
  generations = started queued ∷ [];
  items = new_item 5 1 9 ∷ [];
}

picked : pick search_queued 1 5 ≡ ok (some work, search_picked)
unfolding pick pick_found pick_next next_chunk first_by is_eligible joined versioned item_of find
    row put document_of
picked = refl

abbrev built : IndexGeneration
built = record (started queued) { dimensions = some 1 }

abbrev search_embedded : SearchDb
search_embedded = record search_queued {
  generations = built ∷ [];
  items = embedded_item (one ∷ []) (new_item 5 1 9) ∷ [];
}

embedded : (embed_chunk search_picked work model).after ≡ search_embedded
unfolding embed_chunk embed_configured is_current_chunk versioned row put receive_embedding
    store_embedding store_vector store_in embedding_values get numbers row_numbers only_row
    returned_model checked_values request may_send configured verified send_in_slot send
    after_answer is_transient read_reply is_blank document_of
embedded = refl

embed_chunk_sends_example :
    ((embed_chunk search_picked work model).sent ≡ [])
    ⊎ WasEmbedded search_picked work model (embed_chunk search_picked work model).sent
embed_chunk_sends_example = embed_chunk_sends search_picked work model

abbrev pub search_active : SearchDb
search_active = record search_embedded {
  generations = record built { status = GenerationStatus.active } ∷ [];
}

activated : pick search_embedded 1 6 ≡ ok (none, search_active)
unfolding pick pick_found pick_next next_chunk first_by is_eligible joined versioned item_of find
    row put drop_stale delete_where conclude activate_generation document_of
activated = refl

read_built : get_generation search_embedded 1 ≡ some built
unfolding row
read_built = refl

read_active :
    get_generation search_active 1 ≡ some (record built { status = GenerationStatus.active })
unfolding row
read_active = refl

pick_complete_example : IsIndexComplete search_active 1
pick_complete_example =
    pick_complete search_embedded search_active 1 6 built
      (record built { status = GenerationStatus.active }) none read_built refl activated read_active
      refl

abbrev rounds : ℕ → Round
rounds n = record {
  before_embedding = λ s. s;
  before_failure = λ s. s;
  before_next = λ s. s;
  model = model;
  id = 5 + n;
}

queued-IsSingle : IsSingle search_queued.generations
unfolding copies count_status
queued-IsSingle = record {
  keys = λ i. ground arith;
  one_open = omega arith;
  one_active = omega arith;
}

abbrev all_indexed : Indexed
all_indexed = record {
  count = 1;
  after = record search_active { items = embedded_item (one ∷ []) (new_item 6 1 9) ∷ [] };
  sent =
      record {
        endpoint = "https://models/v1/embeddings";
        model = "small";
        payload = "note";
        authorization = some "Bearer key";
      }
      ∷ [];
}

indexed : index_pending_chunks (ok settings) (λ s. s) rounds search_queued ≡ ok all_indexed
unfolding index_pending_chunks choose_generation index_generation index_rounds after_pick
    after_embedding pick pick_found pick_next next_chunk first_by is_eligible joined versioned
    item_of find row put drop_stale delete_where conclude activate_generation embed_chunk
    embed_configured is_current_chunk receive_embedding store_embedding store_vector store_in
    embedding_values get numbers row_numbers only_row returned_model checked_values request may_send
    configured verified send_in_slot send after_answer is_transient read_reply is_blank url_under
    ends_with lstrip_slash document_of
indexed = refl

index_pending_chunks-IsSingle_example : IsSingle all_indexed.after.generations
index_pending_chunks-IsSingle_example =
    index_pending_chunks-IsSingle (ok settings) (λ s. s) rounds search_queued all_indexed (λ t h. h)
      (λ n. record { embedding = λ s h. h; recording = λ s h. h; rest = λ s h. h }) queued-IsSingle
      indexed
