-- ===== src/Search/Querying/Offsets.antt =====
-- The cursors of searches: _cursor_scope, _offset and _encode_cursor in modules/search/public.py. The text
-- of a cursor is the base64 of the scope, a colon and the offset.
use bbd_os.Prelude.{
  ℕ, zero, suc, ◌+◌, ◌-◌, ◌*◌, ◌/◌, ◌%◌, String, Option, none, some, Bool, false, List, [], ◌∷◌,
  ◌++◌, ◌&&◌, not, if◌then◌else◌, ◌==◌, leb, ltb, length, all, Result, ok, err, http, value_error,
  require, guard, ◌>>=◌, ◌>>◌,
}
use bbd_os.Chunking.Utf8.{Utf8State, clean, is_clean}
use bbd_os.Chunking.Utf8.{decode as decode_utf8}
use bbd_os.Paging.Base64.{six_bits, encode, same_codes}
use bbd_os.Paging.Cursors.{decimal, read_int}

pub record SearchFilters : Type 0 where
  pub source_ids : List ℕ
  pub date_from : Option ℕ
  pub date_to : Option ℕ
  pub content_types : List String

pub data Mode : Type 0 where
  lexical hybrid : Mode

-- A request without its cursor and limit.
pub record Question : Type 0 where
  pub query : String
  pub filters : SearchFilters
  pub mode : Mode

pub record SearchRequest : Type 0 where
  pub question : Question
  pub limit : ℕ
  pub cursor : Option (List ℕ)

-- What a character of the text does, behind `q` characters of a group of four and `pads` signs of
-- equality: it ends the text, is skipped, or gives six bits. The decoder does not validate.
pub data Reading : Type 0 where
  ended : Reading
  skipped : ℕ → Reading
  bits : ℕ → Reading

abbrev pub read_value : ℕ → Option ℕ → Reading
read_value pads none = skipped pads
read_value pads (some v) = bits v

-- The characters of both alphabets are read.
abbrev pub any_bits : ℕ → Option ℕ
any_bits c = if c == 43 then some 62 else if c == 47 then some 63 else six_bits c

unfoldable pub reading : ℕ → ℕ → ℕ → Reading
unfolding six_bits
reading q pads c =
    if c == 61
    then (if leb 2 q
        then (if leb 4 (q + suc pads) then ended else skipped (suc pads))
        else skipped pads)
    else read_value pads (any_bits c)

abbrev pub byte_before : ℕ → Result (List ℕ) → Result (List ℕ)
byte_before b (err e) = err e
byte_before b (ok bytes) = ok (b ∷ bytes)

unfoldable pub emit : ℕ → ℕ → ℕ → Result (List ℕ) → Result (List ℕ)
emit q left v rest =
    if q == 0
    then rest
    else if q == 1
    then byte_before (left * 4 + v / 16) rest
    else if q == 2
    then byte_before (left * 16 + v / 4) rest
    else byte_before (left * 64 + v) rest

abbrev pub left_of : ℕ → ℕ → ℕ
left_of q v = if q == 0 then v else if q == 1 then v % 16 else if q == 2 then v % 4 else 0

unfoldable pub urlsafe_b64decode : ℕ → ℕ → ℕ → List ℕ → Result (List ℕ)
unfolding reading emit
urlsafe_b64decode q left pads [] = if q == 0 then ok [] else err value_error
urlsafe_b64decode q left pads (c ∷ rest) = elim (reading q pads c) [
  | ended ↦ ok []
  | skipped more ↦ urlsafe_b64decode q left more rest
  | bits v ↦ emit q left v (urlsafe_b64decode ((q + 1) % 4) (left_of q v) 0 rest)
]

abbrev pub equal_signs : ℕ → List ℕ
equal_signs zero = []
equal_signs (suc n) = 61 ∷ equal_signs n

-- `"=" * (-len(cursor) % 4)`
abbrev pub padding : List ℕ → List ℕ
padding cursor = equal_signs ((4 - length cursor % 4) % 4)

-- `raw.split(":", 1)`
abbrev pub before_colon : ℕ → Option (List ℕ × List ℕ) → Option (List ℕ × List ℕ)
before_colon c none = none
before_colon c (some (scope, position)) = some (c ∷ scope, position)

unfoldable pub split_colon : List ℕ → Option (List ℕ × List ℕ)
split_colon [] = none
split_colon (c ∷ rest) =
    let later = split_colon rest in if c == 58 then some ([], rest) else before_colon c later

abbrev pub is_text : Option Utf8State → Bool
is_text none = false
is_text (some s) = is_clean s

abbrev pub max_ranked_candidates : ℕ
max_ranked_candidates = 1000

abbrev pub not_negative : Option (Bool × ℕ) → Result ℕ
not_negative none = err value_error
not_negative (some (negative, n)) = if negative && not (n == 0) then err value_error else ok n

abbrev pub invalid_search_cursor : Result ℕ → Result ℕ
invalid_search_cursor (err e) = err (http 422 "Invalid search cursor")
invalid_search_cursor (ok n) = ok n

-- The scope is a part of the SHA-256 of the JSON text of a question.
module _ (cursor_scope : Question → List ℕ) where
  unfoldable pub encode_search_cursor : Question → ℕ → List ℕ
  unfolding encode
  encode_search_cursor question offset = encode (cursor_scope question ++ 58 ∷ decimal offset)

  unfoldable pub read_offset : Question → List ℕ → Result ℕ
  unfolding urlsafe_b64decode decode_utf8 split_colon read_int same_codes encode_search_cursor
  read_offset question cursor = do
    guard (all (λ c. ltb c 128) cursor) value_error
    raw ← urlsafe_b64decode 0 0 0 (cursor ++ padding cursor)
    guard (is_text (decode_utf8 clean raw)) value_error
    parts ← require (split_colon raw) value_error
    offset ← not_negative (read_int parts.1)
    guard
        (same_codes parts.0 (cursor_scope question)
          && leb offset max_ranked_candidates
          && same_codes (encode_search_cursor question offset) cursor)
        value_error
    ok offset

  abbrev pub cursor_offset : Question → Option (List ℕ) → Result ℕ
  cursor_offset question none = ok 0
  cursor_offset question (some cursor) = invalid_search_cursor (read_offset question cursor)

  unfoldable pub offset_of : SearchRequest → Result ℕ
  unfolding read_offset
  offset_of request = cursor_offset request.question request.cursor
