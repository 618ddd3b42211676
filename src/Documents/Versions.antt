-- ===== src/Documents/Versions.antt =====
-- The operations of modules/knowledge/documents/public.py that add a version to a document:
-- `append_content` and `save_extraction`.
use bbd_os.Prelude.{
  ℕ, ◌+◌, String, Option, none, some, List, [], ◌∷◌, ◌++◌, if◌then◌else◌, ◌==◌, str_eq, any,
  value_error, runtime_error, Result, ok, ◌>>=◌, ◌>>◌, guard, require,
}
use bbd_os.Database.{
  Db, Document, DocumentVersion, DocumentChunk, ExtractionStatus, get_document, put_document,
}
use bbd_os.Chunking.{ChunkDraft}
use bbd_os.Documents.{Content, add_content_chunks, chunk_rows, get_version}

abbrev pub next_version : Content → Document → ℕ → String → ℕ → DocumentVersion
next_version c document version_id content now = record {
  id = version_id;
  document_id = document.id;
  version_number = document.current_version + 1;
  content = content;
  content_hash = c.content_hash content;
  observed_at = now;
  created_at = now;
}

abbrev pub advance : Content → String → Document → Document
advance c content document = record document {
  current_version = document.current_version + 1;
  content_hash = c.content_hash content;
}

unfoldable pub add_version :
    Content → Db → Document → String → ℕ → (ℕ → ℕ) → ℕ → Result (Option Document × Db)
unfolding add_content_chunks
add_version c db document content version_id chunk_id now = do
  let version = next_version c document version_id content now
  db' ← add_content_chunks c (record db { versions = db.versions ++ version ∷ [] }) version chunk_id
  ok (some (advance c content document), put_document (advance c content document) db')

unfoldable pub append_found :
    Content → Db → Document → ℕ → String → ℕ → (ℕ → ℕ) → ℕ → Result (Option Document × Db)
unfolding add_version
append_found c db document expected_version content version_id chunk_id now = do
  current ← require (get_version db document.id document.current_version) runtime_error
  if str_eq current.content content then ok (some document, db) else do
    guard (document.current_version == expected_version) value_error
    add_version c db document content version_id chunk_id now

unfoldable pub append_content :
    Content → Db → ℕ → ℕ → String → ℕ → (ℕ → ℕ) → ℕ → Result (Option Document × Db)
unfolding append_found
append_content c db document_id expected_version content version_id chunk_id now =
    elim (get_document db document_id) [
      | none ↦ ok (none, db)
      | some document ↦ append_found c db document expected_version content version_id chunk_id now
    ]

-- The chunks of a version are written once.
unfoldable pub fill_chunks : Content → Db → ℕ → (ℕ → ℕ) → List ChunkDraft → Db
fill_chunks c db version_id chunk_id drafts =
    if any (λ k. DocumentChunk.document_version_id k == version_id) db.chunks
    then db
    else record db { chunks = db.chunks ++ chunk_rows c version_id chunk_id 0 drafts }

unfoldable pub extracted : ExtractionStatus → Document → Document
extracted status document = record document { extraction_status = status }

unfoldable pub save_found :
    Content
    → Db
    → Document
    → DocumentVersion
    → String
    → List ChunkDraft
    → ExtractionStatus
    → ℕ
    → (ℕ → ℕ)
    → ℕ
    → Document × Db
unfolding fill_chunks extracted
save_found c db document current text drafts status version_id chunk_id now =
    if str_eq current.content text
    then (
      extracted status document,
      put_document (extracted status document) (fill_chunks c db current.id chunk_id drafts),
    )
    else (
      extracted status (advance c text document),
      put_document (extracted status (advance c text document)) (
          fill_chunks c
            (record db {
              versions = db.versions ++ next_version c document version_id text now ∷ [];
            })
            version_id chunk_id drafts),
    )

unfoldable pub save_extraction :
    Content
    → Db
    → ℕ
    → String
    → List ChunkDraft
    → ExtractionStatus
    → ℕ
    → (ℕ → ℕ)
    → ℕ
    → Result (Option Document × Db)
unfolding save_found
save_extraction c db document_id text drafts status version_id chunk_id now =
    elim (get_document db document_id) [
      | none ↦ ok (none, db)
      | some document ↦ do
        current ← require (get_version db document.id document.current_version) runtime_error
        let (document', db') =
            save_found c db document current text drafts status version_id chunk_id now
        ok (some document', db')
    ]
