-- ===== src/Sources.antt =====
-- modules/sources/public.py: the life of a source, from its creation to its archive and purge.
-- A call is one transaction. What it returns stands beside the database that it commits; a call
-- that raises commits nothing. The clock readings of one transaction are one number, `now`.
pub mod Purge
pub mod Fence
use bbd_os.Prelude.{
  ℕ, ◌+◌, String, Option, none, some, Bool, true, false, List, [], ◌∷◌, ◌++◌, ◌==◌, ◌||◌, ◌&&◌, not,
  if◌then◌else◌, Error, Result, ok, err, ltb, is_none, update_where, str_eq,
}
use bbd_os.Database.{
  Db, Source, SourceStatus, PurgeOperation, PurgeStatus, Credential, Document, get_source,
  put_source, is_archived, is_active, same_status, new_event, no_payload,
}

pub record SourceCreate : Type 0 where
  pub type : String
  pub name : String
  pub provider : Option String

-- `model_fields_set` and the values: a field that is not set is `none`, a null is `some none`.
pub record SourcePatch : Type 0 where
  pub name : Option (Option String)
  pub status : Option (Option SourceStatus)

unfoldable pub create_source : Db → SourceCreate → ℕ → ℕ → Source × Db
create_source db payload id now =
    let source : Source = record {
      id = id;
      type = payload.type;
      name = payload.name;
      provider = payload.provider;
      status = SourceStatus.active;
      local_only = str_eq payload.type "manual";
      last_sync_at = none;
      last_success_at = none;
      last_error_at = none;
      last_error_code = none;
      collected_at = none;
      indexed_at = none;
      collection_error_code = none;
      processing_error_code = none;
      generation = 1;
      retired_at = none;
      configuration = "{}";
      created_at = now;
    } in
    (source, record db { sources = db.sources ++ source ∷ [] })

-- `payload.status not in (None, "archived")`
abbrev reactivates : Option (Option SourceStatus) → Bool
reactivates (some (some status)) = not (is_archived status)
reactivates (some none) = false
reactivates none = false

rename : Option (Option String) → Source → Source
rename none source = source
rename (some none) source = record source { name = "" }
rename (some (some name)) source = record source { name = name }

retired_at : SourceStatus → ℕ → Option ℕ
retired_at SourceStatus.archived now = some now
retired_at SourceStatus.active now = none
retired_at SourceStatus.paused now = none

-- A null status would be stored as "", which the table's CHECK constraint refuses.
set_status : Option (Option SourceStatus) → ℕ → Source → Result Source
unfolding retired_at
set_status none now source = ok source
set_status (some none) now source = err Error.integrity_error
set_status (some (some status)) now source =
    if same_status status source.status
    then ok source
    else ok (record source {
      generation = source.generation + 1;
      status = status;
      retired_at = retired_at status now;
    })

store_update : Db → Result Source → Result (Option Source × Db)
store_update db (err e) = err e
store_update db (ok changed) = ok (some changed, put_source changed db)

update_found : Db → SourcePatch → ℕ → Source → Result (Option Source × Db)
unfolding store_update
update_found db payload now source =
    if is_archived source.status && reactivates payload.status
    then err Error.value_error
    else store_update db (set_status payload.status now (rename payload.name source))

unfoldable pub update_source : Db → ℕ → SourcePatch → ℕ → Result (Option Source × Db)
unfolding rename set_status update_found
update_source db source_id payload now = elim (get_source db source_id) [
  | none ↦ ok (none, db)
  | some source ↦ update_found db payload now source
]

-- The archived source: a new generation, unless it was archived already.
pub retire : Source → ℕ → Source
retire source now = if is_archived source.status then source else record source {
  generation = source.generation + 1;
  status = SourceStatus.archived;
  retired_at = some now;
}

unfoldable pub revoke_all : ℕ → ℕ → List Credential → List Credential
revoke_all source_id now =
    update_where (λ c. c.source_id == source_id && is_none c.revoked_at)
      (λ c. record c { revoked_at = some now })

unfoldable pub archive_source : Db → ℕ → ℕ → Option Source × Db
unfolding retire revoke_all
archive_source db source_id now = elim (get_source db source_id) [
  | none ↦ (none, db)
  | some source ↦
      let archived = retire source now in
      (
        some archived,
        record (put_source archived db) { credentials = revoke_all source_id now db.credentials },
      )
]

-- `order_by(created_at.desc()).limit(1)` over the operations of one source.
latest_purge : ℕ → List PurgeOperation → Option PurgeOperation
latest_purge source_id [] = none
latest_purge source_id (p ∷ l) =
    let rest = latest_purge source_id l in
    if p.source_id == source_id
    then elim rest [
      | none ↦ some p
      | some q ↦ if ltb p.created_at q.created_at then some q else some p
    ]
    else rest

in_progress : PurgeStatus → Bool
in_progress PurgeStatus.queued = true
in_progress PurgeStatus.running = true
in_progress PurgeStatus.succeeded = false
in_progress PurgeStatus.failed = false

-- The non-empty paths of the uploaded files of a source.
raw_uris_of : ℕ → List Document → List String
raw_uris_of source_id [] = []
raw_uris_of source_id (d ∷ l) =
    let rest = raw_uris_of source_id l in
    if d.source_id == source_id
    then elim d.raw_uri [ none ↦ rest | some uri ↦ if str_eq uri "" then rest else uri ∷ rest ]
    else rest

new_purge : Db → Source → ℕ → ℕ → PurgeOperation
unfolding raw_uris_of
new_purge db source operation_id now = record {
  id = operation_id;
  source_id = source.id;
  generation = source.generation;
  raw_uris = raw_uris_of source.id db.documents;
  status = PurgeStatus.queued;
  error_code = none;
  created_at = now;
}

queue_purge : Db → Source → ℕ → ℕ → ℕ → PurgeOperation × Db
unfolding retire new_purge
queue_purge db source operation_id event_id now =
    let archived = retire source now in
    let operation = new_purge db archived operation_id now in
    let payload = record no_payload { operation_id = some operation_id } in
    (
      operation,
      record (put_source archived db) {
        purges = db.purges ++ operation ∷ [];
        credentials =
            update_where (λ c. c.source_id == source.id) (λ c. record c { revoked_at = some now })
              db.credentials;
        outbox =
            db.outbox
            ++ new_event event_id "source.purge.requested" now "modules.sources" payload ∷ [];
      },
    )

unfoldable pub start_source_purge : Db → ℕ → ℕ → ℕ → ℕ → Option PurgeOperation × Db
unfolding latest_purge in_progress queue_purge
start_source_purge db source_id operation_id event_id now = elim (get_source db source_id) [
  | none ↦ (none, db)
  | some source ↦ elim (latest_purge source_id db.purges) [
    | none ↦
        let (operation, db') = queue_purge db source operation_id event_id now in
        (some operation, db')
    | some current ↦
        if is_archived source.status || in_progress current.status
        then (some current, db)
        else let (operation, db') = queue_purge db source operation_id event_id now in
          (some operation, db')
  ]
]
