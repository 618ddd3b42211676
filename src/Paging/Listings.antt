-- ===== src/Paging/Listings.antt =====
-- list_documents in modules/knowledge/documents/public.py and list_sources in modules/sources/public.py.
use bbd_os.Prelude.{
  ℕ, ◌≤◌, ◌<◌, ◌≡◌, Option, none, some, Bool, true, List, length, ◌==◌, Result, ok,
}
use bbd_os.Database.{Db, Source, Document}
use bbd_os.Paging.{select_where}
use bbd_os.Paging.Walk.{walk}
use bbd_os.Paging.Stamps.{
  StampText, IsStampText, list_rows, newest_first, HasKeys, HasKeys-select_where, walk-list_rows,
}

abbrev pub in_source : Option ℕ → Document → Bool
in_source none d = true
in_source (some source_id) d = d.source_id == source_id

-- The documents that are listed: of one source where it is named.
abbrev pub listed : Db → Option ℕ → List Document
listed db source_id = select_where (in_source source_id) db.documents

unfoldable pub list_documents :
    StampText → Db → Option ℕ → ℕ → Option (List ℕ) → Result (List Document × Option (List ℕ))
unfolding list_rows
list_documents t db source_id limit cursor =
    list_rows Document.created_at Document.id t (listed db source_id) limit cursor

unfoldable pub list_sources :
    StampText → Db → ℕ → Option (List ℕ) → Result (List Source × Option (List ℕ))
unfolding list_rows
list_sources t db limit cursor = list_rows Source.created_at Source.id t db.sources limit cursor

-- The pages of the documents, of a row at least and read one after the other, are all documents of the
-- source, each once and the newest first, where identifiers are keys and the text of a cursor is bytes and
-- can be read back.
pub walk-list_documents :
    (t : StampText) (db : Db) (source_id : Option ℕ) (limit fuel : ℕ)
    → IsStampText t
    → HasKeys Document.created_at Document.id db.documents
    → 1 ≤ limit
    → length (listed db source_id) < fuel
    → walk fuel (list_documents t db source_id limit) none
      ≡ ok (newest_first Document.created_at Document.id (listed db source_id))
unfolding list_documents
walk-list_documents t db source_id limit fuel is_text keys some_rows enough =
    walk-list_rows Document.created_at Document.id t is_text (listed db source_id)
      (HasKeys-select_where Document.created_at Document.id (in_source source_id) db.documents keys)
      limit fuel some_rows enough

-- The pages of the sources, read one after the other, are all sources, each once and the newest first.
pub walk-list_sources :
    (t : StampText) (db : Db) (limit fuel : ℕ)
    → IsStampText t
    → HasKeys Source.created_at Source.id db.sources
    → 1 ≤ limit
    → length db.sources < fuel
    → walk fuel (list_sources t db limit) none
      ≡ ok (newest_first Source.created_at Source.id db.sources)
unfolding list_sources
walk-list_sources t db limit fuel is_text keys some_rows enough =
    walk-list_rows Source.created_at Source.id t is_text db.sources keys limit fuel some_rows enough
