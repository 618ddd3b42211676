-- ===== src/Documents/Reachable.antt =====
-- Every sequence of the operations on documents, and the state it leads to.
use mathlib.Core.Path.{subst}
use bbd_os.Prelude.{
  sym, ℕ, ◌≡◌, refl, arith, String, Option, none, some, List, [], str_eq, All, runtime_error, ok,
  >>=-ok, require, Option-cases, Bool-cases, inl, inr,
}
use bbd_os.Database.{Db, Document, DocumentVersion, ExtractionStatus, get_document}
use bbd_os.Chunking.{ChunkDraft}
use bbd_os.Documents.{
  Content, DocumentCreate, DocumentIds, DocumentPatch, create_document, delete_document,
  update_document, add_uploaded_document, get_version,
}
use bbd_os.Documents.Versions.{
  advance, append_content, save_extraction, save_found, fill_chunks, extracted,
}
use bbd_os.Documents.History.{
  HasHistories, HasHistory, All-row, kept, advanced, created, uploaded, added-HasHistories,
  deleted-HasHistories, patched-HasHistories, append_content-HasHistories,
}
use bbd_os.Documents.Numbers.{numbers}

fill_chunks-versions :
    (c : Content) (db : Db) (version_id : ℕ) (chunk_id : ℕ → ℕ) (drafts : List ChunkDraft)
    → (fill_chunks c db version_id chunk_id drafts).versions ≡ db.versions
unfolding fill_chunks
fill_chunks-versions c db version_id chunk_id drafts = ground arith

fill_chunks-documents :
    (c : Content) (db : Db) (version_id : ℕ) (chunk_id : ℕ → ℕ) (drafts : List ChunkDraft)
    → (fill_chunks c db version_id chunk_id drafts).documents ≡ db.documents
unfolding fill_chunks
fill_chunks-documents c db version_id chunk_id drafts = ground arith

saved-HasHistories :
    (c : Content) (db : Db) (document_id : ℕ) (document : Document) (current : DocumentVersion)
    (text : String) (drafts : List ChunkDraft) (status : ExtractionStatus) (version_id : ℕ)
    (chunk_id : ℕ → ℕ) (now : ℕ)
    → get_document db document_id ≡ some document
    → HasHistories db
    → HasHistories (save_found c db document current text drafts status version_id chunk_id now).1
unfolding save_found extracted
saved-HasHistories c db document_id document current text drafts status version_id chunk_id now
      found all =
    let history = All-row (HasHistory db.versions) document_id db.documents all found in
    elim (Bool-cases (str_eq current.content text)) [
      | inl same ↦
          rw (same, save_found)
            (rw (fill_chunks-versions, fill_chunks-documents)
              (kept db.versions document (extracted status document) db.documents refl refl history
                all))
      | inr other ↦
          rw (other, save_found)
            (rw (fill_chunks-versions, fill_chunks-documents)
              (advanced c db.versions document (extracted status (advance c text document))
                version_id text now db.documents refl refl history all))
    ]

save_extraction-HasHistories :
    (c : Content) (db : Db) (document_id : ℕ) (text : String) (drafts : List ChunkDraft)
    (status : ExtractionStatus) (version_id : ℕ) (chunk_id : ℕ → ℕ) (now : ℕ)
    (result : Option Document) (db' : Db)
    → save_extraction c db document_id text drafts status version_id chunk_id now ≡ ok (result, db')
    → HasHistories db
    → HasHistories db'
unfolding save_extraction
save_extraction-HasHistories c db document_id text drafts status version_id chunk_id now result db'
      e all =
    elim (Option-cases (get_document db document_id)) [
      | inl missing ↦
          let e₁ = rw (missing, save_extraction) at e in
          let same : db' ≡ db = ground arith in rw same all
      | inr (document, found) ↦
          let e₁ = rw (found, save_extraction) at e in
          let (current, at_current, e₂) =
            >>=-ok (require (get_version db document.id document.current_version) runtime_error) _
              e₁ in
          let same : db'
              ≡ (save_found c db document current text drafts status version_id chunk_id now).1 =
            ground arith in
          rw same (
            saved-HasHistories c db document_id document current text drafts status version_id
              chunk_id now found all)
    ]

-- One operation that succeeds. A new document has an identifier that no row uses.
pub data Step (c : Content) : Db → Db → Type 0 where
  creates :
      (db db' : Db) (payload : DocumentCreate) (ids : DocumentIds) (now : ℕ) (document : Document)
      → get_document db ids.document_id ≡ none
      → numbers ids.document_id db.versions ≡ []
      → create_document c db payload ids now ≡ ok (document, db')
      → Step c db db'
  uploads :
      (db db' : Db) (document : Document) (version_id now : ℕ)
      → get_document db document.id ≡ none
      → numbers document.id db.versions ≡ []
      → document.current_version ≡ 1
      → add_uploaded_document c db document version_id now ≡ ok db'
      → Step c db db'
  appends :
      (db db' : Db) (document_id expected_version : ℕ) (content : String) (version_id : ℕ)
      (chunk_id : ℕ → ℕ) (now : ℕ) (result : Option Document)
      → append_content c db document_id expected_version content version_id chunk_id now
        ≡ ok (result, db')
      → Step c db db'
  extracts :
      (db db' : Db) (document_id : ℕ) (text : String) (drafts : List ChunkDraft)
      (status : ExtractionStatus) (version_id : ℕ) (chunk_id : ℕ → ℕ) (now : ℕ)
      (result : Option Document)
      → save_extraction c db document_id text drafts status version_id chunk_id now
        ≡ ok (result, db')
      → Step c db db'
  patches :
      (db : Db) (document_id : ℕ) (document : Document) (payload : DocumentPatch)
      → get_document db document_id ≡ some document
      → Step c db (update_document db document payload).1
  deletes : (db : Db) (document_id : ℕ) → Step c db (delete_document db document_id).1

pub data Reaches (c : Content) (db : Db) : Db → Type 0 where
  start : Reaches c db db
  step : (db₁ db₂ : Db) → Reaches c db db₁ → Step c db₁ db₂ → Reaches c db db₂

Step-HasHistories : (c : Content) (db db' : Db) → Step c db db' → HasHistories db → HasHistories db'
Step-HasHistories c _ _ (creates db db' payload ids now document absent unnumbered e) all =
    let (versions, documents) = created c db payload ids now document db' e in
    added-HasHistories db _ ids.version_id payload.content (c.content_hash payload.content) now db'
      absent unnumbered refl versions documents all
Step-HasHistories c _ _ (uploads db db' document version_id now absent unnumbered first e) all =
    let (versions, documents) = uploaded c db document version_id now db' e in
    added-HasHistories db document version_id "" (c.content_hash "") now db' absent unnumbered first
      versions documents all
Step-HasHistories c _ _
      (appends db db' document_id expected_version content version_id chunk_id now result e) all =
    append_content-HasHistories c db document_id expected_version content version_id chunk_id now
      result db' e all
Step-HasHistories c _ _
      (extracts db db' document_id text drafts status version_id chunk_id now result e) all =
    save_extraction-HasHistories c db document_id text drafts status version_id chunk_id now result
      db' e all
Step-HasHistories c _ _ (patches db document_id document payload found) all =
    patched-HasHistories db document_id document payload found all
Step-HasHistories c _ _ (deletes db document_id) all = deleted-HasHistories db document_id all

-- After any sequence of document operations that starts with no documents, the versions of every
-- document are numbered 1, 2 and so on up to its current version, in the order of their insertion.
pub Reaches-HasHistories :
    (c : Content) (db₀ db : Db) → db₀.documents ≡ [] → Reaches c db₀ db → HasHistories db
Reaches-HasHistories c db₀ _ empty start = subst (All (HasHistory db₀.versions)) (sym empty) tt
Reaches-HasHistories c db₀ _ empty (step db₁ db₂ r s) =
    Step-HasHistories c db₁ db₂ s (Reaches-HasHistories c db₀ db₁ empty r)
