-- ===== src/Documents.antt =====
-- modules/knowledge/documents/public.py: documents, their immutable versions, and the chunks of each
-- version. The identifiers that uuid4 draws are arguments. A call is one transaction, except that
-- `add_uploaded_document` and `save_extraction` are parts of their callers' transactions.
pub mod Versions
pub mod Appending
pub mod Numbers
pub mod History
pub mod Reachable
pub mod Log
use bbd_os.Prelude.{
  ℕ, ◌+◌, String, Option, none, some, Bool, true, false, List, [], ◌∷◌, ◌++◌, ◌&&◌, ◌||◌, not,
  if◌then◌else◌, ◌==◌, str_eq, same_text, is_none, any, find, delete_where, Error, lookup_error,
  value_error, runtime_error, integrity_error, Result, ok, err, ◌>>=◌, ◌>>◌, guard, require,
}
use bbd_os.Database.{
  Db, Source, Document, DocumentVersion, DocumentChunk, ExtractionStatus, get_source, get_document,
  is_active, put_document,
}
use bbd_os.Chunking.{ChunkDraft, Tokenizer, chunk_text}

-- SHA-256 of a text, and the tokens of tiktoken.
pub record Content : Type 0 where
  pub content_hash : String → String
  pub tokenizer : Tokenizer

pub record DocumentCreate : Type 0 where
  pub source_id : ℕ
  pub external_id : Option String
  pub title : String
  pub content : String
  pub metadata : String

pub record DocumentIds : Type 0 where
  pub document_id : ℕ
  pub version_id : ℕ
  pub chunk_id : ℕ → ℕ

unfoldable pub lock_source_for_document : Db → ℕ → Result (Unit {0})
lock_source_for_document db source_id = do
  source ← require (get_source db source_id) lookup_error
  guard (is_active source.status) value_error

abbrev pub new_chunk : Content → ℕ → (ℕ → ℕ) → ℕ → ChunkDraft → DocumentChunk
new_chunk c version_id chunk_id index draft = record {
  id = chunk_id index;
  document_version_id = version_id;
  chunk_index = index;
  content = draft.content;
  content_hash = c.content_hash draft.content;
  token_count = draft.token_count;
  start_token = draft.start_token;
}

-- `enumerate(drafts)`, from `index` on.
unfoldable pub chunk_rows : Content → ℕ → (ℕ → ℕ) → ℕ → List ChunkDraft → List DocumentChunk
chunk_rows c version_id chunk_id index [] = []
chunk_rows c version_id chunk_id index (draft ∷ drafts) =
    new_chunk c version_id chunk_id index draft
    ∷ chunk_rows c version_id chunk_id (index + 1) drafts

-- The defaults of `chunk_text`: 750 tokens and an overlap of 0.12.
unfoldable pub add_content_chunks : Content → Db → DocumentVersion → (ℕ → ℕ) → Result Db
unfolding chunk_rows
add_content_chunks c db version chunk_id = do
  drafts ← chunk_text c.tokenizer version.content 750 12 100
  ok (record db { chunks = db.chunks ++ chunk_rows c version.id chunk_id 0 drafts })

abbrev pub has_identity : ℕ → String → Document → Bool
has_identity source_id external_id d =
    d.source_id == source_id && same_text d.external_id (some external_id)

unfoldable pub has_document_identity : Db → ℕ → String → Bool
has_document_identity db source_id external_id =
    any (has_identity source_id external_id) db.documents

-- The unique constraint on the source and the external identifier; nulls never conflict.
unfoldable pub is_new : Db → ℕ → Option String → Bool
unfolding has_document_identity
is_new db source_id none = true
is_new db source_id (some external_id) = not (has_document_identity db source_id external_id)

abbrev pub first_version : ℕ → ℕ → String → String → ℕ → DocumentVersion
first_version id document_id content digest now = record {
  id = id;
  document_id = document_id;
  version_number = 1;
  content = content;
  content_hash = digest;
  observed_at = now;
  created_at = now;
}

abbrev pub new_document : ℕ → DocumentCreate → String → ℕ → Document
new_document id payload digest now = record {
  id = id;
  source_id = payload.source_id;
  external_id = payload.external_id;
  title = payload.title;
  content_type = none;
  mime_type = none;
  raw_uri = none;
  canonical_url = none;
  author = none;
  metadata_json = payload.metadata;
  current_version = 1;
  content_hash = digest;
  extraction_status = ExtractionStatus.ready;
  published_at = none;
  observed_at = none;
  language = none;
  created_at = now;
}

unfoldable pub create_document :
    Content → Db → DocumentCreate → DocumentIds → ℕ → Result (Document × Db)
unfolding lock_source_for_document is_new add_content_chunks
create_document c db payload ids now = do
  lock_source_for_document db payload.source_id
  let digest = c.content_hash payload.content
  let document = new_document ids.document_id payload digest now
  let version = first_version ids.version_id ids.document_id payload.content digest now
  guard (is_new db payload.source_id payload.external_id) integrity_error
  db' ←
      add_content_chunks c
        (record db {
          documents = db.documents ++ document ∷ [];
          versions = db.versions ++ version ∷ [];
        })
        version ids.chunk_id
  ok (document, db')

abbrev pub uploaded_document :
    Content → ℕ → ℕ → String → String → String → String → String → ℕ → Document
uploaded_document c id source_id title mime_type raw_uri metadata external_id now = record {
  id = id;
  source_id = source_id;
  external_id = some external_id;
  title = title;
  content_type = some "file";
  mime_type = some mime_type;
  raw_uri = some raw_uri;
  canonical_url = none;
  author = none;
  metadata_json = metadata;
  current_version = 1;
  content_hash = c.content_hash "";
  extraction_status = ExtractionStatus.queued;
  published_at = none;
  observed_at = none;
  language = none;
  created_at = now;
}

-- The document of an upload has an empty first version until its text is extracted.
unfoldable pub add_uploaded_document : Content → Db → Document → ℕ → ℕ → Result Db
unfolding is_new
add_uploaded_document c db document version_id now = do
  guard (is_new db document.source_id document.external_id) integrity_error
  ok (record db {
    documents = db.documents ++ document ∷ [];
    versions = db.versions ++ first_version version_id document.id "" (c.content_hash "") now ∷ [];
  })

abbrev pub is_version : ℕ → ℕ → DocumentVersion → Bool
is_version document_id number v = v.document_id == document_id && v.version_number == number

unfoldable pub get_version : Db → ℕ → ℕ → Option DocumentVersion
get_version db document_id number = find (is_version document_id number) db.versions

abbrev pub is_version_of : ℕ → DocumentVersion → Bool
is_version_of document_id v = v.document_id == document_id

-- The foreign keys take the versions of a deleted document, and their chunks, with it.
chunk_of : Db → ℕ → DocumentChunk → Bool
chunk_of db document_id k =
    any (λ v. DocumentVersion.id v == k.document_version_id && is_version_of document_id v)
      db.versions

unfoldable pub delete_document : Db → ℕ → Bool × Db
unfolding chunk_of
delete_document db document_id = elim (get_document db document_id) [
  | none ↦ (false, db)
  | some document ↦ (
    true,
    record db {
      documents = delete_where (λ d. Document.id d == document_id) db.documents;
      versions = delete_where (is_version_of document_id) db.versions;
      chunks = delete_where (chunk_of db document_id) db.chunks;
    },
  )
]

-- A field of a patch is `none` when it is not set.
pub record DocumentPatch : Type 0 where
  pub title : Option (Option String)
  pub metadata : Option (Option String)

text_or : String → Option (Option String) → String → String
text_or empty none current = current
text_or empty (some none) current = empty
text_or empty (some (some text)) current = text

unfoldable pub update_document : Db → Document → DocumentPatch → Document × Db
unfolding text_or
update_document db document payload =
    let document' = record document {
      title = text_or "" payload.title document.title;
      metadata_json = text_or "{}" payload.metadata document.metadata_json;
    } in
    (document', put_document document' db)
