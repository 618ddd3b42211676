-- ===== src/Search/Querying/Fallback.antt =====
-- A search by words and vectors of which the second part fails.
use bbd_os.Prelude.{◌⊎◌, ℕ, ◌≡◌, none, List, [], ◌∷◌, Result, ok, err, Error}
use bbd_os.Search.Querying.{Floats, SearchResponse}
use bbd_os.Search.Querying.Finding.{fallback_warning}
use bbd_os.Search.Querying.Offsets.{Question, Mode, lexical, hybrid, SearchRequest}

abbrev pub in_mode : Mode → Question → Question
in_mode mode q = record q { mode = mode }

-- The first page of a question.
abbrev pub first_page : Question → ℕ → SearchRequest
first_page q limit = record { question = q; limit = limit; cursor = none }

module _ {Score : Type 0} (fl : Floats Score) (cursor_scope : Question → List ℕ) where
  -- Both searches are answered. Where the candidates by vectors were found the second is answered with them,
  -- and where not it has the hits of the first, with a warning.
  pub record IsAnswered (near : Result (List ℕ)) (words answer : Result (SearchResponse Score))
      : Type 0 where
    pub by_words_alone : SearchResponse Score
    pub response : SearchResponse Score
    pub words_answered : words ≡ ok by_words_alone
    pub answered : answer ≡ ok response
    pub as_found :
        ((ids : List ℕ) × (near ≡ ok ids)
          × (response.effective_mode ≡ hybrid)
          × (response.warnings ≡ []))
        ⊎ ((e : Error) × (near ≡ err e)
            × (response.items ≡ by_words_alone.items)
            × (response.effective_mode ≡ lexical)
            × (response.warnings ≡ fallback_warning ∷ []))
