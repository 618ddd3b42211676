-- ===== src/Search/Querying.antt =====
-- search in modules/search/public.py: the reciprocal rank fusion of the candidates, and the second look at
-- what may still be seen. The arithmetic of floats is a parameter.
pub mod Offsets
pub mod Cursor
pub mod Finding
pub mod Bounded
pub mod Accepted
pub mod Visible
pub mod Covered
pub mod Fallback
use bbd_os.Prelude.{
  ℕ, ◌+◌, String, Option, none, some, Bool, List, [], ◌∷◌, ◌&&◌, ◌||◌, not, if◌then◌else◌, ◌==◌,
  ltb, length, take, drop, row, first_characters, Result, ok, err, ◌>>=◌,
}
use bbd_os.Database.{Db, DocumentChunk}
use bbd_os.Gateway.{Sent}
use bbd_os.Paging.{sort}
use bbd_os.Search.{SearchDb, Joined, joined, get_chunk}
use bbd_os.Search.Indexing.Job.{Model}
use bbd_os.Search.Querying.Offsets.{
  SearchFilters, Question, Mode, SearchRequest, offset_of, encode_search_cursor,
}
use bbd_os.Search.Querying.Finding.{Ranking, either_time, is_visible, Found, candidates}

-- Floats: 0.0, the sum, the reciprocal of an integer, and the order.
pub record Floats (Score : Type 0) : Type 0 where
  pub zero_score : Score
  pub plus : Score → Score → Score
  pub reciprocal : ℕ → Score
  pub less : Score → Score → Bool

-- The citation of a hit repeats its fields.
pub record SearchHit (Score : Type 0) : Type 0 where
  pub chunk_id : ℕ
  pub version_id : ℕ
  pub version_number : ℕ
  pub document_id : ℕ
  pub source_id : ℕ
  pub source_name : String
  pub source_type : String
  pub title : String
  pub excerpt : String
  pub score : Score
  pub observed_at : Option ℕ
  pub published_at : Option ℕ
  pub content_type : Option String
  pub url : Option String

pub record SearchResponse (Score : Type 0) : Type 0 where
  pub items : List (SearchHit Score)
  pub next_cursor : Option (List ℕ)
  pub effective_mode : Mode
  pub warnings : List String

module _ {Score : Type 0} (fl : Floats Score) where
  -- `ranked[chunk_id] = ranked.get(chunk_id, 0.0) + x`
  unfoldable pub add_score : ℕ → Score → List (ℕ × Score) → List (ℕ × Score)
  add_score c x [] = (c, fl.plus fl.zero_score x) ∷ []
  add_score c x ((d, y) ∷ l) = if d == c then (d, fl.plus y x) ∷ l else (d, y) ∷ add_score c x l

  unfoldable pub rank_from : ℕ → List ℕ → List (ℕ × Score) → List (ℕ × Score)
  unfolding add_score
  rank_from rank [] ranked = ranked
  rank_from rank (c ∷ l) ranked =
      rank_from (rank + 1) l (add_score c (fl.reciprocal (60 + rank)) ranked)

  unfoldable pub rank_all : List (List ℕ) → List (ℕ × Score) → List (ℕ × Score)
  unfolding rank_from
  rank_all [] ranked = ranked
  rank_all (l ∷ lists) ranked = rank_all lists (rank_from 1 l ranked)

  abbrev pub score_key : ℕ × Score → Score × ℕ
  score_key (c, x) = (x, c)

  abbrev pub scored_below : Score × ℕ → ℕ × Score → Bool
  scored_below (x, c) (d, y) = fl.less y x || not (fl.less x y) && ltb c d

  unfoldable pub fused : List (List ℕ) → List (ℕ × Score)
  unfolding rank_all sort
  fused lists = sort score_key scored_below (rank_all lists [])

  abbrev pub hit_of : Score → DocumentChunk → Joined → SearchHit Score
  hit_of score c (v, d, s) = record {
    chunk_id = c.id;
    version_id = v.id;
    version_number = v.version_number;
    document_id = d.id;
    source_id = s.id;
    source_name = s.name;
    source_type = s.type;
    title = d.title;
    excerpt = first_characters 500 c.content;
    score = score;
    observed_at = some (either_time d.observed_at v.observed_at);
    published_at = d.published_at;
    content_type = d.content_type;
    url = d.canonical_url;
  }

  abbrev pub shown_row :
      SearchFilters → Score → DocumentChunk → Option Joined → Option (SearchHit Score)
  shown_row f score c none = none
  shown_row f score c (some row) = if is_visible f row then some (hit_of score c row) else none

  abbrev pub shown_chunk :
      Db → SearchFilters → Score → Option DocumentChunk → Option (SearchHit Score)
  shown_chunk db f score none = none
  shown_chunk db f score (some c) = shown_row f score c (joined db c)

  abbrev pub add_shown : Option (SearchHit Score) → List (SearchHit Score) → List (SearchHit Score)
  add_shown none hits = hits
  add_shown (some hit) hits = hit ∷ hits

  -- Candidates that may no longer be seen are left out.
  unfoldable pub hits : Db → SearchFilters → List (ℕ × Score) → List (SearchHit Score)
  unfolding is_visible joined row first_characters
  hits db f [] = []
  hits db f ((c, score) ∷ l) = add_shown (shown_chunk db f score (get_chunk db c)) (hits db f l)

  module _ (cursor_scope : Question → List ℕ) where
    unfoldable pub respond : Db → SearchRequest → ℕ → Found → SearchResponse Score
    unfolding fused hits encode_search_cursor
    respond last request offset found =
        let selected = take (request.limit + 1) (drop offset (fused found.candidates)) in
        record {
          items = hits last request.question.filters (take request.limit selected);
          next_cursor =
              if ltb request.limit (length selected)
              then some
                  (encode_search_cursor cursor_scope request.question (offset + request.limit))
              else none;
          effective_mode = found.effective_mode;
          warnings = found.warnings;
        }

    abbrev pub responded : Db → SearchRequest → ℕ → Result Found → Result (SearchResponse Score)
    responded last request offset found = found >>= λ f. ok (respond last request offset f)

    -- `before`, `later` and `last` are the database as the three queries read it.
    abbrev pub search_from :
        Ranking
        → Model
        → SearchDb
        → SearchDb
        → Bool
        → Db
        → SearchRequest
        → Result ℕ
        → Result (SearchResponse Score) × List Sent
    search_from r m before later fails last request (err e) = (err e, [])
    search_from r m before later fails last request (ok offset) =
        let (found, sent) =
          candidates r m before later fails request.question request.question.mode in
        (responded last request offset found, sent)

    unfoldable pub search :
        Ranking
        → Model
        → SearchDb
        → SearchDb
        → Bool
        → Db
        → SearchRequest
        → Result (SearchResponse Score) × List Sent
    unfolding offset_of candidates respond
    search r m before later fails last request =
        search_from r m before later fails last request (offset_of cursor_scope request)
