-- ===== src/Tests/Querying.antt =====
-- Searches over two chunks.
use bbd_os.Prelude.{
  ℕ, ◌+◌, ◌/◌, ◌≤◌, ◌≡◌, refl, none, some, ok, err, true, false, [], ◌∷◌, List, All, ltb, length,
  row, redis_error,
}
use bbd_os.Database.{Db, DocumentChunk}
use bbd_os.Ingestion.Files.{document_of}
use bbd_os.Paging.{insert, sort, select_where}
use bbd_os.Search.{SearchDb, joined, versioned}
use bbd_os.Search.Indexing.Job.{Model}
use bbd_os.Search.Querying.{
  Floats, SearchResponse, add_score, rank_from, rank_all, fused, respond, search,
}
use bbd_os.Search.Querying.Finding.{Ranking, by_words, lexical_ids, passes, is_visible, candidates}
use bbd_os.Search.Querying.Offsets.{
  Question, lexical, SearchRequest, offset_of, encode_search_cursor,
}
use bbd_os.Search.Querying.Accepted.{search_continues}
use bbd_os.Search.Querying.Visible.{IsShown, search_shows}
use bbd_os.Tests.Searching.{chunk, db, model, search_active}

abbrev floats : Floats ℕ
floats = record { zero_score = 0; plus = λ a b. a + b; reciprocal = λ n. 1000000 / n; less = ltb }

abbrev ranking : Ranking
ranking = record { matches = λ query content. true; rank = λ query content. 1; distance = λ a b. 0 }

abbrev second_chunk : DocumentChunk
second_chunk = record chunk { id = 10; chunk_index = 1 }

abbrev db_chunks : Db
db_chunks = record db { chunks = chunk ∷ second_chunk ∷ [] }

abbrev searched : SearchDb
searched = record search_active { db = db_chunks }

abbrev question : Question
question = record {
  query = "note";
  filters = record { source_ids = []; date_from = none; date_to = none; content_types = [] };
  mode = lexical;
}

abbrev request : SearchRequest
request = record { question = question; limit = 1; cursor = none }

abbrev scope : Question → List ℕ
scope q = 97 ∷ []

abbrev response : SearchResponse ℕ
response = respond floats scope db_chunks request 0 (by_words (9 ∷ 10 ∷ []))

found :
    (search floats scope ranking model searched searched false db_chunks request).0 ≡ ok response
unfolding search offset_of candidates lexical_ids is_visible passes joined versioned row sort insert
    select_where document_of
found = refl

search_continues_example :
    (offset : ℕ) × (offset_of scope request ≡ ok offset)
    × (offset_of scope (record request { cursor = some (encode_search_cursor scope question 1) })
        ≡ ok (offset + 1))
unfolding respond fused rank_all rank_from add_score sort insert
search_continues_example =
    search_continues floats scope (λ q. (refl, tt)) ranking model searched searched false db_chunks
      request response (encode_search_cursor scope question 1) found refl

search_shows_example :
    All (IsShown floats db_chunks question.filters) response.items × (length response.items ≤ 1)
search_shows_example =
    search_shows floats scope ranking model searched searched false db_chunks request response found

abbrev broken : Model
broken = record model { configured = err redis_error }
