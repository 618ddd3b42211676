-- ===== src/Search/Querying/Visible.antt =====
-- What a search shows.
use bbd_os.Prelude.{
  ℕ, ◌+◌, ◌≤◌, ◌≡◌, refl, arith, Option, none, some, Bool, true, List, [], ◌∷◌, length, take, drop,
  length-take, All, Result, ok, err, >>=-ok, ok-injective, if_elim,
}
use mathlib.Core.Path.{subst}
use bbd_os.Database.{Db, Source, Document, DocumentVersion, DocumentChunk, is_active}
use bbd_os.Search.{SearchDb, Joined, joined, get_chunk, is_current}
use bbd_os.Search.Indexing.Job.{Model}
use bbd_os.Search.Querying.{
  Floats, SearchHit, SearchResponse, hit_of, shown_row, shown_chunk, add_shown, hits, fused,
  respond, search, search_from,
}
use bbd_os.Search.Querying.Finding.{Ranking, candidates, passes, is_visible}
use bbd_os.Search.Querying.Offsets.{SearchFilters, Question, SearchRequest, offset_of}

-- A hit shows a chunk of the current version of an extracted document of an active source, which passes the
-- filters, as the database `last` has them.
pub record IsShown {Score : Type 0} (fl : Floats Score) (last : Db) (f : SearchFilters)
    (hit : SearchHit Score) : Type 0 where
  pub chunk_id : ℕ
  pub chunk : DocumentChunk
  pub version : DocumentVersion
  pub document : Document
  pub source : Source
  pub score : Score
  pub is_chunk : get_chunk last chunk_id ≡ some chunk
  pub is_joined : joined last chunk ≡ some (version, document, source)
  pub is_current_text : is_current version document ≡ true
  pub is_active_source : is_active source.status ≡ true
  pub is_asked_for : passes f version document ≡ true
  pub shows : hit ≡ hit_of fl score chunk (version, document, source)

module _ {Score : Type 0} (fl : Floats Score) (last : Db) (f : SearchFilters) where
  row-IsShown :
      (chunk_id : ℕ) (score : Score) (c : DocumentChunk) (row : Option Joined)
      (l : List (SearchHit Score))
      → get_chunk last chunk_id ≡ some c
      → joined last c ≡ row
      → All (IsShown fl last f) l
      → All (IsShown fl last f) (add_shown fl (shown_row fl f score c row) l)
  unfolding is_visible
  row-IsShown chunk_id score c none l is_chunk is_joined h = h
  row-IsShown chunk_id score c (some (v, d, s)) l is_chunk is_joined h =
      if_elim (λ o. All (IsShown fl last f) (add_shown fl o l)) (is_visible f (v, d, s))
        (some (hit_of fl score c (v, d, s))) none
        (λ visible. (
          record {
            chunk_id = chunk_id;
            chunk = c;
            version = v;
            document = d;
            source = s;
            score = score;
            is_chunk = is_chunk;
            is_joined = is_joined;
            is_current_text = ground arith;
            is_active_source = ground arith;
            is_asked_for = ground arith;
            shows = refl;
          },
          h,
        ))
        (λ hidden. h)

  chunk-IsShown :
      (chunk_id : ℕ) (score : Score) (o : Option DocumentChunk) (l : List (SearchHit Score))
      → get_chunk last chunk_id ≡ o
      → All (IsShown fl last f) l
      → All (IsShown fl last f) (add_shown fl (shown_chunk fl last f score o) l)
  chunk-IsShown chunk_id score none l e h = h
  chunk-IsShown chunk_id score (some c) l e h =
      row-IsShown chunk_id score c (joined last c) l e refl h

  hits-IsShown : (l : List (ℕ × Score)) → All (IsShown fl last f) (hits fl last f l)
  unfolding hits
  hits-IsShown [] = tt
  hits-IsShown ((c, score) ∷ l) =
      chunk-IsShown c score (get_chunk last c) (hits fl last f l) refl (hits-IsShown l)

  length-add_shown :
      (o : Option (SearchHit Score)) (l : List (SearchHit Score))
      → length (add_shown fl o l) ≤ length l + 1
  length-add_shown none l = omega arith
  length-add_shown (some hit) l = omega arith

  length-hits : (l : List (ℕ × Score)) → length (hits fl last f l) ≤ length l
  unfolding hits
  length-hits [] = omega arith
  length-hits ((c, score) ∷ l) = omega (
    arith,
    length-hits l,
    length-add_shown (shown_chunk fl last f score (get_chunk last c)) (hits fl last f l),
  )

module _ {Score : Type 0} (fl : Floats Score) (cursor_scope : Question → List ℕ) where
  shows :
      (r : Ranking) (m : Model) (before later : SearchDb) (fails : Bool) (last : Db)
      (request : SearchRequest) (start : Result ℕ) (response : SearchResponse Score)
      → (search_from fl cursor_scope r m before later fails last request start).0 ≡ ok response
      → All (IsShown fl last request.question.filters) response.items
        × (length response.items ≤ request.limit)
  unfolding respond
  shows r m before later fails last request (err e) response h = cc
  shows r m before later fails last request (ok offset) response h =
      let (found, finds, e) =
        >>=-ok (candidates r m before later fails request.question request.question.mode).0
          (λ f. ok (respond fl cursor_scope last request offset f)) h in
      let selected = take (request.limit + 1) (drop offset (fused fl found.candidates)) in
      subst
        (λ (x : SearchResponse Score).
          All (IsShown fl last request.question.filters) x.items × (length x.items ≤ request.limit))
        (ok-injective e)
        (
          hits-IsShown fl last request.question.filters (take request.limit selected),
          omega (
            arith,
            length-take request.limit selected,
            length-hits fl last request.question.filters (take request.limit selected),
          ),
        )

  -- Whatever the candidates were, a search shows no more than its limit, and only chunks of the current
  -- version of an extracted document of an active source that pass the filters of the request, as they are
  -- in the database when the answer is put together.
  pub search_shows :
      (r : Ranking) (m : Model) (before later : SearchDb) (fails : Bool) (last : Db)
      (request : SearchRequest) (response : SearchResponse Score)
      → (search fl cursor_scope r m before later fails last request).0 ≡ ok response
      → All (IsShown fl last request.question.filters) response.items
        × (length response.items ≤ request.limit)
  unfolding search
  search_shows r m before later fails last request response h =
      shows r m before later fails last request (offset_of cursor_scope request) response h
