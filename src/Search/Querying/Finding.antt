-- ===== src/Search/Querying/Finding.antt =====
-- The candidates of a search in modules/search/public.py: _filters, _visible_rows, _lexical_ids, _vector_ids
-- and the part of `search` that asks for the embedding of the query. How well a text matches and how far
-- vectors are apart are parameters.
use bbd_os.Prelude.{
  ℕ, String, Option, none, some, Bool, true, false, List, [], ◌∷◌, ◌&&◌, ◌||◌, not, if◌then◌else◌,
  ◌==◌, str_eq, same_text, ltb, leb, length, take, map, any, find, row, Result, ok, err, Error,
  model_gateway_error, privacy_policy_denied, capability_unsupported, redis_error, value_error,
  os_error, timeout_error, integrity_error, guard, ◌>>=◌, ◌>>◌,
}
use bbd_os.Database.{Db, Document, DocumentVersion, DocumentChunk, is_active}
use bbd_os.Gateway.{Sent, request}
use bbd_os.Paging.{sort, select_where}
use bbd_os.Search.{
  IndexGeneration, IndexItem, SearchDb, Joined, joined, get_chunk, is_current, is_live,
  is_succeeded,
}
use bbd_os.Search.Embedding.{Number, embedding_values}
use bbd_os.Search.Indexing.Job.{Model, Configured, embed_request, same_model}
use bbd_os.Search.Querying.Offsets.{SearchFilters, Question, Mode, lexical, hybrid}

-- `@@` and `ts_rank_cd` of a query and a text, and `<=>` of two vectors; of the last two only the order of
-- their values counts.
pub record Ranking : Type 0 where
  pub matches : String → String → Bool
  pub rank : String → String → ℕ
  pub distance : List Number → List Number → ℕ

-- `coalesce(published_at, document.observed_at, version.observed_at)`
abbrev pub either_time : Option ℕ → ℕ → ℕ
either_time none t = t
either_time (some t) other = t

abbrev pub time_of : DocumentVersion → Document → ℕ
time_of v d = either_time d.published_at (either_time d.observed_at v.observed_at)

abbrev pub not_before : Option ℕ → ℕ → Bool
not_before none t = true
not_before (some date) t = leb date t

abbrev pub not_after : Option ℕ → ℕ → Bool
not_after none t = true
not_after (some date) t = leb t date

abbrev pub has_type : List String → Option String → Bool
has_type types none = false
has_type types (some type) = any (λ t. str_eq t type) types

-- A list that is empty does not filter.
unfoldable pub passes : SearchFilters → DocumentVersion → Document → Bool
passes f v d =
    (length f.source_ids == 0 || any (λ i. i == d.source_id) f.source_ids)
    && (length f.content_types == 0 || has_type f.content_types d.content_type)
    && not_before f.date_from (time_of v d)
    && not_after f.date_to (time_of v d)

unfoldable pub is_visible : SearchFilters → Joined → Bool
unfolding passes
is_visible f (v, d, s) = is_current v d && is_active s.status && passes f v d

abbrev pub row_visible : SearchFilters → Option Joined → Bool
row_visible f none = false
row_visible f (some row) = is_visible f row

module _ (r : Ranking) where
  abbrev pub rank_key : String → DocumentChunk → ℕ × ℕ
  rank_key query c = (r.rank query c.content, c.id)

  abbrev pub ranked_below : String → ℕ × ℕ → DocumentChunk → Bool
  ranked_below query key c =
      ltb (r.rank query c.content) key.0 || r.rank query c.content == key.0 && ltb key.1 c.id

  unfoldable pub lexical_ids : Db → Question → List ℕ
  unfolding is_visible joined sort select_where
  lexical_ids db q =
      map (λ c. DocumentChunk.id c)
        (take 500 (
          sort (rank_key q.query) (ranked_below q.query) (
            select_where (λ c. row_visible q.filters (joined db c) && r.matches q.query c.content)
              db.chunks)))

  abbrev pub may_leave : SearchFilters → Option Joined → Bool
  may_leave f none = false
  may_leave f (some (v, d, s)) = is_visible f (v, d, s) && not s.local_only

  abbrev pub chunk_may_leave : Db → SearchFilters → Option DocumentChunk → Bool
  chunk_may_leave db f none = false
  chunk_may_leave db f (some c) = may_leave f (joined db c)

  abbrev pub has_embedding : Option (List Number) → Bool
  has_embedding none = false
  has_embedding (some values) = true

  abbrev pub is_near_candidate : SearchDb → SearchFilters → ℕ → IndexItem → Bool
  is_near_candidate s f generation_id i =
      i.generation_id == generation_id
      && is_succeeded i.status
      && has_embedding i.embedding
      && chunk_may_leave s.db f (get_chunk s.db i.chunk_id)

  abbrev pub distance_from : List Number → Option (List Number) → ℕ
  distance_from values none = 0
  distance_from values (some embedding) = r.distance embedding values

  abbrev pub near_key : List Number → IndexItem → ℕ × ℕ
  near_key values i = (distance_from values i.embedding, i.chunk_id)

  abbrev pub farther : List Number → ℕ × ℕ → IndexItem → Bool
  farther values key i =
      ltb key.0 (distance_from values i.embedding)
      || distance_from values i.embedding == key.0 && ltb key.1 i.chunk_id

  unfoldable pub vector_ids : SearchDb → Question → IndexGeneration → List Number → List ℕ
  unfolding is_visible joined sort select_where row
  vector_ids s q g values =
      map (λ i. IndexItem.chunk_id i)
        (take 500 (
          sort (near_key values) (farther values)
            (select_where (is_near_candidate s q.filters g.id) s.items)))

  -- The vector must come of the model that built the index; PostgreSQL may fail to compare vectors.
  unfoldable pub compare_vectors :
      SearchDb → Bool → Question → IndexGeneration → List Number × Option String → Result (List ℕ)
  unfolding vector_ids
  compare_vectors later fails q g embedding =
      guard (same_text embedding.1 g.response_model_id) value_error
      >> guard (not fails) integrity_error
      >> ok (vector_ids later q g embedding.0)

  -- The query is embedded by the model of the active generation, where the owner permits it. `later` is the
  -- database after the model has answered.
  unfoldable pub nearest :
      Model
      → SearchDb
      → Bool
      → Question
      → Configured
      → IndexGeneration
      → ℕ
      → Result (List ℕ) × List Sent
  unfolding compare_vectors request embedding_values
  nearest m later fails q c g dimensions =
      let (answer, sent) = request m.gateway (embed_request m c q.query) m.meets in
      (
        answer
            >>= (λ body. embedding_values (m.parse body) (some dimensions))
            >>= compare_vectors later fails q g,
        sent,
      )

  abbrev pub permitted : Configured → IndexGeneration → Bool
  permitted c g = same_model c.mapping g && c.allow_remote_embeddings

  unfoldable pub in_dimensions :
      Model
      → SearchDb
      → Bool
      → Question
      → Configured
      → IndexGeneration
      → Option ℕ
      → Result (List ℕ) × List Sent
  unfolding nearest
  in_dimensions m later fails q c g none = (err value_error, [])
  in_dimensions m later fails q c g (some n) =
      if permitted c g then nearest m later fails q c g n else (err value_error, [])

  unfoldable pub by_generation :
      Model
      → SearchDb
      → Bool
      → Question
      → Configured
      → Option IndexGeneration
      → Result (List ℕ) × List Sent
  unfolding in_dimensions
  by_generation m later fails q c none = (err value_error, [])
  by_generation m later fails q c (some g) = in_dimensions m later fails q c g g.dimensions

  abbrev pub with_settings :
      Model
      → SearchDb
      → Bool
      → Question
      → Option IndexGeneration
      → Result Configured
      → Result (List ℕ) × List Sent
  with_settings m later fails q g (err e) = (err e, [])
  with_settings m later fails q g (ok c) = by_generation m later fails q c g

  unfoldable pub semantic :
      Model → SearchDb → SearchDb → Bool → Question → Result (List ℕ) × List Sent
  unfolding by_generation find
  semantic m before later fails q =
      with_settings m later fails q (find (λ g. is_live g.status) before.generations) m.configured

-- ModelGatewayError with its subclasses, RedisError, ValueError, OSError and DBAPIError.
abbrev pub falls_back : Error → Bool
falls_back (model_gateway_error why) = true
falls_back (privacy_policy_denied why) = true
falls_back (capability_unsupported why) = true
falls_back redis_error = true
falls_back value_error = true
falls_back os_error = true
falls_back timeout_error = true
falls_back integrity_error = true
falls_back other = false

abbrev pub fallback_warning : String
fallback_warning = "Semantic search unavailable"

pub record Found : Type 0 where
  pub candidates : List (List ℕ)
  pub effective_mode : Mode
  pub warnings : List String

abbrev pub by_words : List ℕ → Found
by_words words = record { candidates = words ∷ []; effective_mode = lexical; warnings = [] }

abbrev pub combined : List ℕ → Result (List ℕ) → Result Found
combined words (ok near) =
    ok (record { candidates = words ∷ near ∷ []; effective_mode = hybrid; warnings = [] })
combined words (err e) =
    if falls_back e
    then ok (record (by_words words) { warnings = fallback_warning ∷ [] })
    else err e

unfoldable pub candidates :
    Ranking → Model → SearchDb → SearchDb → Bool → Question → Mode → Result Found × List Sent
unfolding lexical_ids semantic
candidates r m before later fails q lexical = (ok (by_words (lexical_ids r before.db q)), [])
candidates r m before later fails q hybrid =
    let (near, sent) = semantic r m before later fails q in
    (combined (lexical_ids r before.db q) near, sent)
