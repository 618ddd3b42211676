-- ===== src/Database/DocumentRows.antt =====
-- modules/knowledge/documents/models.py
use bbd_os.Prelude.{ℕ, String, Option}

pub data ExtractionStatus : Type 0 where
  ready queued processing succeeded needs_ocr failed : ExtractionStatus

pub record Document : Type 0 where
  pub id : ℕ
  pub source_id : ℕ
  pub external_id : Option String
  pub title : String
  pub content_type : Option String
  pub mime_type : Option String
  pub raw_uri : Option String
  pub canonical_url : Option String
  pub author : Option String
  pub metadata_json : String
  pub current_version : ℕ
  pub content_hash : String
  pub extraction_status : ExtractionStatus
  pub published_at : Option ℕ
  pub observed_at : Option ℕ
  pub language : Option String
  pub created_at : ℕ

pub record DocumentVersion : Type 0 where
  pub id : ℕ
  pub document_id : ℕ
  pub version_number : ℕ
  pub content : String
  pub content_hash : String
  pub observed_at : ℕ
  pub created_at : ℕ

pub record DocumentChunk : Type 0 where
  pub id : ℕ
  pub document_version_id : ℕ
  pub chunk_index : ℕ
  pub content : String
  pub content_hash : String
  pub token_count : ℕ
  pub start_token : ℕ
