-- ===== src/Search.antt =====
-- modules/search: the index generations and their items (models.py), with the chunks that may be
-- indexed (eligible_chunks in indexing.py). The index on the vectors has no rows of its own.
pub mod Embedding
pub mod Indexing
pub mod Querying
use bbd_os.Prelude.{
  ℕ, String, Option, none, some, Bool, true, false, List, [], ◌∷◌, ◌&&◌, ◌||◌, not, if◌then◌else◌,
  ◌==◌, ltb, row, put, find,
}
use bbd_os.Database.{
  Db, Source, Document, DocumentVersion, DocumentChunk, ExtractionStatus, get_source, get_document,
  is_active,
}
use bbd_os.Search.Embedding.{Number}

pub data GenerationStatus : Type 0 where
  queued running active failed retired : GenerationStatus

pub record IndexGeneration : Type 0 where
  pub id : ℕ
  pub model_id : String
  pub model_version : Option String
  pub response_model_id : Option String
  pub dimensions : Option ℕ
  pub status : GenerationStatus
  pub error_code : Option String
  pub created_at : ℕ

pub data ItemStatus : Type 0 where
  pending succeeded failed : ItemStatus

pub record IndexItem : Type 0 where
  pub id : ℕ
  pub generation_id : ℕ
  pub chunk_id : ℕ
  pub status : ItemStatus
  pub error_code : Option String
  pub embedding : Option (List Number)

pub record SearchDb : Type 0 where
  pub db : Db
  pub generations : List IndexGeneration
  pub items : List IndexItem

abbrev pub get_generation : SearchDb → ℕ → Option IndexGeneration
get_generation s i = row (λ r. IndexGeneration.id r) i s.generations

abbrev pub get_item : SearchDb → ℕ → Option IndexItem
get_item s i = row (λ r. IndexItem.id r) i s.items

abbrev pub get_chunk : Db → ℕ → Option DocumentChunk
get_chunk db i = row (λ r. DocumentChunk.id r) i db.chunks

abbrev pub get_version_row : Db → ℕ → Option DocumentVersion
get_version_row db i = row (λ r. DocumentVersion.id r) i db.versions

abbrev pub put_generation : IndexGeneration → SearchDb → SearchDb
put_generation g s = record s { generations = put (λ r. IndexGeneration.id r) g s.generations }

abbrev pub put_item : IndexItem → SearchDb → SearchDb
put_item i s = record s { items = put (λ r. IndexItem.id r) i s.items }

abbrev pub is_extracted : ExtractionStatus → Bool
is_extracted ExtractionStatus.ready = true
is_extracted ExtractionStatus.succeeded = true
is_extracted ExtractionStatus.queued = false
is_extracted ExtractionStatus.processing = false
is_extracted ExtractionStatus.needs_ocr = false
is_extracted ExtractionStatus.failed = false

-- The joins from a chunk to its version, its document and its source.
abbrev pub with_document : DocumentVersion → Option Document → Option (DocumentVersion × Document)
with_document v none = none
with_document v (some d) = some (v, d)

abbrev pub with_version : Db → Option DocumentVersion → Option (DocumentVersion × Document)
with_version db none = none
with_version db (some v) = with_document v (get_document db v.document_id)

unfoldable pub versioned : Db → DocumentChunk → Option (DocumentVersion × Document)
unfolding row
versioned db c = with_version db (get_version_row db c.document_version_id)

abbrev pub Joined : Type 0
Joined = DocumentVersion × Document × Source

abbrev pub with_source : DocumentVersion → Document → Option Source → Option Joined
with_source v d none = none
with_source v d (some s) = some (v, d, s)

abbrev pub with_documents : Db → Option (DocumentVersion × Document) → Option Joined
with_documents db none = none
with_documents db (some (v, d)) = with_source v d (get_source db d.source_id)

unfoldable pub joined : Db → DocumentChunk → Option Joined
unfolding versioned
joined db c = with_documents db (versioned db c)

-- The chunk is of the current version of a document whose text was extracted.
abbrev pub is_current : DocumentVersion → Document → Bool
is_current v d = d.current_version == v.version_number && is_extracted d.extraction_status

abbrev pub may_index : Option Joined → Bool
may_index none = false
may_index (some (v, d, s)) = is_current v d && is_active s.status && not s.local_only

unfoldable pub is_eligible : Db → DocumentChunk → Bool
unfolding joined
is_eligible db c = may_index (joined db c)

-- `ORDER BY ... LIMIT 1` over the rows that pass a test.
abbrev pub earlier {ℓ} : {A : Type ℓ} → (A → A → Bool) → A → Option A → Option A
earlier before x none = some x
earlier before x (some y) = if before y x then some y else some x

unfoldable pub first_by {ℓ} : {A : Type ℓ} → (A → A → Bool) → (A → Bool) → List A → Option A
first_by before p [] = none
first_by before p (x ∷ l) =
    let rest = first_by before p l in if p x then earlier before x rest else rest

abbrev pub is_open : GenerationStatus → Bool
is_open queued = true
is_open running = true
is_open active = false
is_open GenerationStatus.failed = false
is_open retired = false

abbrev pub is_live : GenerationStatus → Bool
is_live active = true
is_live queued = false
is_live running = false
is_live GenerationStatus.failed = false
is_live retired = false

abbrev pub is_running : GenerationStatus → Bool
is_running running = true
is_running queued = false
is_running active = false
is_running GenerationStatus.failed = false
is_running retired = false

abbrev pub is_pending : ItemStatus → Bool
is_pending pending = true
is_pending ItemStatus.succeeded = false
is_pending ItemStatus.failed = false

abbrev pub is_succeeded : ItemStatus → Bool
is_succeeded ItemStatus.succeeded = true
is_succeeded pending = false
is_succeeded ItemStatus.failed = false

-- The item of a chunk in a generation.
unfoldable pub item_of : ℕ → ℕ → List IndexItem → Option IndexItem
item_of generation_id chunk_id =
    find (λ i. i.generation_id == generation_id && i.chunk_id == chunk_id)
