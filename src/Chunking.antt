-- ===== src/Chunking.antt =====
-- core/chunking.py: a text is cut into overlapping chunks of tokens, at token positions where no
-- UTF-8 character is split. tiktoken's encoding and the strict decoding of bytes are the parameter
-- `Tokenizer`. `int(target_tokens * overlap_ratio)` is computed with the ratio as a fraction.
pub mod Utf8
pub mod Boundaries
pub mod Tiling
pub mod Found
pub mod Total
use bbd_os.Prelude.{
  ℕ, zero, suc, ◌+◌, ◌-◌, ◌*◌, ◌/◌, min, String, Option, none, some, Bool, true, false, List, [],
  ◌∷◌, ◌++◌, ◌==◌, ◌||◌, not, if◌then◌else◌, Error, value_error, index_error, out_of_fuel, Result,
  ok, err, ◌>>=◌, ◌>>◌, guard, require, ltb, leb, length, take, drop,
}
use Utf8.{Utf8State, clean, is_clean, decode}

pub record ChunkDraft : Type 0 where
  pub content : String
  pub token_count : ℕ
  pub start_token : ℕ

-- `encode` gives the bytes of each token of a text; `decode` is `bytes.decode("utf-8")`.
pub record Tokenizer : Type 0 where
  pub encode : String → List (List ℕ)
  pub decode : List ℕ → Option String

-- The token positions, from `index` on, at which the incremental decoder holds no partial character.
unfoldable pub boundaries_from : ℕ → Utf8State → List (List ℕ) → Result (List ℕ)
boundaries_from index state [] = ok []
boundaries_from index state (token ∷ tokens) = do
  state' ← require (decode state token) value_error
  rest ← boundaries_from (index + 1) state' tokens
  ok (if is_clean state' then index ∷ rest else rest)

unfoldable pub find_boundaries : List (List ℕ) → Result (List ℕ)
unfolding boundaries_from
find_boundaries tokens = do rest ← boundaries_from 1 clean tokens; ok (0 ∷ rest)

abbrev pub get_elem? {ℓ} : {A : Type ℓ} → List A → ℕ → Option A
get_elem? [] i = none
get_elem? (x ∷ xs) zero = some x
get_elem? (x ∷ xs) (suc i) = get_elem? xs i

-- `bisect_right` on an ascending list: how many of its elements are at most `x`.
unfoldable pub bisect_right : List ℕ → ℕ → ℕ
bisect_right [] x = 0
bisect_right (b ∷ bs) x = if leb b x then suc (bisect_right bs x) else 0

-- `boundaries[bisect_right(boundaries, x) - 1]`, if there is such a position.
unfoldable pub previous : List ℕ → ℕ → Option ℕ
previous bs x = elim (bisect_right bs x) [ zero ↦ none | suc k ↦ get_elem? bs k ]

unfoldable pub next : List ℕ → ℕ → Option ℕ
next bs x = get_elem? bs (bisect_right bs x)

-- The end of the chunk that begins at `start`: the last boundary within the target, or the first one
-- behind `start`. `none` is an IndexError.
unfoldable pub chunk_end : List ℕ → ℕ → ℕ → Option ℕ
chunk_end bs start desired_end = elim (previous bs desired_end) [
  | none ↦ next bs start
  | some end ↦ if ltb start end then some end else next bs start
]

-- The start of the chunk that follows one from `start` to `end`.
unfoldable pub next_start : List ℕ → ℕ → ℕ → ℕ → ℕ
next_start bs overlap start end = elim (previous bs (end - overlap)) [
  | none ↦ end
  | some b ↦ if leb (start + 1) b then b else end
]

-- `if end == len(tokens): break`, else the chunks of the following rounds.
unfoldable pub continue : ℕ → ℕ → ℕ → Result (List (ℕ × ℕ)) → Result (List (ℕ × ℕ))
continue n start end rest =
    if end == n then ok ((start, end) ∷ []) else (rest >>= λ more. ok ((start, end) ∷ more))

-- The loop, as the positions of its chunks. Each round moves `start` forward.
unfoldable pub spans : List ℕ → ℕ → ℕ → ℕ → ℕ → ℕ → Result (List (ℕ × ℕ))
unfolding continue
spans bs n target overlap zero start = err out_of_fuel
spans bs n target overlap (suc fuel) start =
    let round : Result (List (ℕ × ℕ)) = elim (chunk_end bs start (min (start + target) n)) [
      | none ↦ err index_error
      | some end ↦
          let rest = spans bs n target overlap fuel (next_start bs overlap start end) in
          continue n start end rest
    ] in
    if ltb start n then round else ok []

abbrev pub concat : List (List ℕ) → List ℕ
concat [] = []
concat (token ∷ tokens) = token ++ concat tokens

-- The chunk of the tokens from `start` to `end`.
draft : Tokenizer → List (List ℕ) → ℕ → ℕ → Result ChunkDraft
draft t tokens start end = do
  content ← require (t.decode (concat (take (end - start) (drop start tokens)))) value_error
  ok (record { content = content; token_count = end - start; start_token = start })

drafts : Tokenizer → List (List ℕ) → List (ℕ × ℕ) → Result (List ChunkDraft)
unfolding draft
drafts t tokens [] = ok []
drafts t tokens ((start, end) ∷ rest) = do
  chunk ← draft t tokens start end
  chunks ← drafts t tokens rest
  ok (chunk ∷ chunks)

-- `min(target_tokens - 1, int(target_tokens * overlap_ratio))`
abbrev pub overlap_of : ℕ → ℕ → ℕ → ℕ
overlap_of target numerator denominator = min (target - 1) (target * numerator / denominator)

unfoldable pub chunk_text : Tokenizer → String → ℕ → ℕ → ℕ → Result (List ChunkDraft)
unfolding find_boundaries spans drafts
chunk_text t text target numerator denominator = do
  guard (not (ltb target 1)) value_error
  guard (ltb numerator denominator) value_error
  let tokens = t.encode text
  let n = length tokens
  if n == 0 then ok [] else do
    bs ← find_boundaries tokens
    positions ← spans bs n target (overlap_of target numerator denominator) n 0
    drafts t tokens positions
