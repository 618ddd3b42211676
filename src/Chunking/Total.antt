-- ===== src/Chunking/Total.antt =====
-- `chunk_text` succeeds, and its chunks cover the text.
use bbd_os.Prelude.{◌≢◌, ℕ, ◌+◌, ◌≡◌, map, none, some, List, ok, take, drop, All}
use bbd_os.Chunking.{Tokenizer, ChunkDraft, concat, drafts}
use bbd_os.Chunking.Utf8.{decode}
use bbd_os.Chunking.Boundaries.{Listed}
use bbd_os.Chunking.Found.{IsUtf8}

-- The tokens of a chunk, from the first to behind the last.
abbrev pub span_of : ChunkDraft → ℕ × ℕ
span_of c = (c.start_token, c.start_token + c.token_count)

-- The content of a chunk is the text of its tokens.
abbrev pub IsDecoded : Tokenizer → List (List ℕ) → ChunkDraft → Type 0
IsDecoded t tokens c =
    t.decode (concat (take c.token_count (drop c.start_token tokens))) ≡ some c.content

module _ (t : Tokenizer) (tokens : List (List ℕ)) (bs : List ℕ) (n target overlap : ℕ)
    (decodes : (bytes : List ℕ) → IsUtf8 bytes → t.decode bytes ≢ none)
    (cuts : (y : ℕ) → Listed y bs → IsUtf8 (concat (take y tokens))) where
  -- The chunks for the positions `l`.
  abbrev Drafted : List (ℕ × ℕ) → Type 0
  Drafted l =
      (chunks : List ChunkDraft) × (drafts t tokens l ≡ ok chunks)
      × (map span_of chunks ≡ l)
      × All (IsDecoded t tokens) chunks
