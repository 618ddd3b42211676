-- ===== src/Search/Querying/Accepted.antt =====
-- The cursor of the next page is within the bound that the search for the next page checks.
use bbd_os.Prelude.{
  ℕ, ◌+◌, ◌≤◌, ◌<◌, ◌≡◌, refl, sym, ap, ◌∙◌, arith, some, Bool, Bool-cases, inl, inr, true, List,
  ltb, length, take, drop, length-take, All, Result, ok, err, >>=-ok, ok-injective, if_true,
  if_false,
}
use bbd_os.Database.{Db}
use bbd_os.Gateway.{request}
use bbd_os.Search.{SearchDb}
use bbd_os.Search.Indexing.Job.{Model}
use bbd_os.Search.Querying.{Floats, SearchResponse, fused, respond, search, search_from}
use bbd_os.Search.Querying.Finding.{Ranking, Found, candidates}
use bbd_os.Search.Querying.Offsets.{
  Question, SearchRequest, offset_of, read_offset, invalid_search_cursor, encode_search_cursor,
}
use bbd_os.Search.Querying.Cursor.{is_hex, read_offset-encode_search_cursor}
use bbd_os.Search.Querying.Bounded.{
  total, length-fused, length-drop, some_injective, candidates-total,
}

module _ {Score : Type 0} (fl : Floats Score) (cursor_scope : Question → List ℕ) where
  -- A next page begins within the ranked candidates.
  next_within :
      (last : Db) (request : SearchRequest) (offset : ℕ) (found : Found) (cursor : List ℕ)
      → total found.candidates ≤ 1000
      → (respond fl cursor_scope last request offset found).next_cursor ≡ some cursor
      → (encode_search_cursor cursor_scope request.question (offset + request.limit) ≡ cursor)
        × (offset + request.limit ≤ 1000)
  unfolding respond
  next_within last request offset found cursor few h =
      let ranked = fused fl found.candidates in
      let sizes = length-take (request.limit + 1) (drop offset ranked) in
      elim (Bool-cases
        (ltb request.limit (length (take (request.limit + 1) (drop offset ranked))))) [
          | inl more ↦
              let many : request.limit < length (take (request.limit + 1) (drop offset ranked)) =
                ground arith in
              (
                some_injective (sym (if_true _ _ more) ∙ h),
                omega (arith, sizes, length-drop offset ranked, length-fused fl found.candidates),
              )
          | inr no_more ↦ let wrong = sym (if_false _ _ no_more) ∙ h in cc
        ]

  continues :
      (hex : (q : Question) → All (λ c. is_hex c ≡ true) (cursor_scope q)) (r : Ranking) (m : Model)
      (before later : SearchDb) (fails : Bool) (last : Db) (request : SearchRequest)
      (start : Result ℕ) (response : SearchResponse Score) (cursor : List ℕ)
      → (search_from fl cursor_scope r m before later fails last request start).0 ≡ ok response
      → response.next_cursor ≡ some cursor
      → (offset : ℕ) × (start ≡ ok offset)
        × (offset_of cursor_scope (record request { cursor = some cursor })
            ≡ ok (offset + request.limit))
  unfolding offset_of
  continues hex r m before later fails last request (err e) response cursor h next = cc
  continues hex r m before later fails last request (ok offset) response cursor h next =
      let q = request.question in
      let (found, finds, e) =
        >>=-ok (candidates r m before later fails q q.mode).0
          (λ f. ok (respond fl cursor_scope last request offset f)) h in
      let (same, within) =
        next_within last request offset found cursor
          (candidates-total r m before later fails q q.mode found finds)
          (ap (λ (x : SearchResponse Score). x.next_cursor) (ok-injective e) ∙ next) in
      (
        offset,
        refl,
        ap (λ c. invalid_search_cursor (read_offset cursor_scope q c)) (sym same)
            ∙ ap invalid_search_cursor (
                read_offset-encode_search_cursor cursor_scope hex q (offset + request.limit)
                  within),
      )

  -- Where a search returns the cursor of a next page, the search with that cursor accepts it and begins
  -- where the page ended: no page is beyond the bound on offsets. The scope of a cursor is hexadecimal.
  pub search_continues :
      (hex : (q : Question) → All (λ c. is_hex c ≡ true) (cursor_scope q)) (r : Ranking) (m : Model)
      (before later : SearchDb) (fails : Bool) (last : Db) (request : SearchRequest)
      (response : SearchResponse Score) (cursor : List ℕ)
      → (search fl cursor_scope r m before later fails last request).0 ≡ ok response
      → response.next_cursor ≡ some cursor
      → (offset : ℕ) × (offset_of cursor_scope request ≡ ok offset)
        × (offset_of cursor_scope (record request { cursor = some cursor })
            ≡ ok (offset + request.limit))
  unfolding search
  search_continues hex r m before later fails last request response cursor h next =
      continues hex r m before later fails last request (offset_of cursor_scope request) response
        cursor h next
