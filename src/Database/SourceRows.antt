-- ===== src/Database/SourceRows.antt =====
-- modules/sources/models.py
use bbd_os.Prelude.{ℕ, String, Option, Bool, true, false, List}

pub data SourceStatus : Type 0 where
  active paused archived : SourceStatus

pub record Source : Type 0 where
  pub id : ℕ
  pub type : String
  pub name : String
  pub provider : Option String
  pub status : SourceStatus
  pub local_only : Bool
  pub last_sync_at : Option ℕ
  pub last_success_at : Option ℕ
  pub last_error_at : Option ℕ
  pub last_error_code : Option String
  pub collected_at : Option ℕ
  pub indexed_at : Option ℕ
  pub collection_error_code : Option String
  pub processing_error_code : Option String
  pub generation : ℕ
  pub retired_at : Option ℕ
  pub configuration : String
  pub created_at : ℕ

abbrev pub is_active : SourceStatus → Bool
is_active active = true
is_active paused = false
is_active archived = false

abbrev pub is_archived : SourceStatus → Bool
is_archived archived = true
is_archived active = false
is_archived paused = false

abbrev pub same_status : SourceStatus → SourceStatus → Bool
same_status active s = is_active s
same_status paused paused = true
same_status paused active = false
same_status paused archived = false
same_status archived s = is_archived s

pub data PurgeStatus : Type 0 where
  queued running succeeded failed : PurgeStatus

pub record PurgeOperation : Type 0 where
  pub id : ℕ
  pub source_id : ℕ
  pub generation : ℕ
  pub raw_uris : List String
  pub status : PurgeStatus
  pub error_code : Option String
  pub created_at : ℕ
