-- ===== src/Documents/History.antt =====
-- The versions of every document are numbered from 1 to its current version, without a gap.
use bbd_os.Prelude.{
  ℕ, ◌+◌, ◌≡◌, inl, inr, refl, sym, ap, ◌∙◌, arith, String, Option, none, some, Bool, false, List,
  [], ◌∷◌, ◌++◌, ◌==◌, All, All-append, integrity_error, ok, >>=-ok, guard, Option-cases,
  Bool-cases, row, put, delete_where,
}
use mathlib.Core.Path.{subst}
use bbd_os.Database.{Db, Document, DocumentVersion, get_document}
use bbd_os.Chunking.{chunk_text}
use bbd_os.Documents.{
  Content, DocumentCreate, DocumentIds, DocumentPatch, create_document, delete_document,
  update_document, add_uploaded_document, add_content_chunks, is_new, first_version, new_document,
  lock_source_for_document, is_version_of,
}
use bbd_os.Documents.Versions.{next_version, advance, append_content}
use bbd_os.Documents.Appending.{IsAppended, append_content_outcome}
use bbd_os.Documents.Numbers.{
  numbers, one_to, numbers-delete_where, numbers_other, numbers_same, one_to_next,
}

abbrev document_key : Document → ℕ
document_key d = d.id

abbrev pub HasHistory : List DocumentVersion → Document → Type 0
HasHistory versions d = numbers d.id versions ≡ one_to d.current_version

abbrev pub HasHistories : Db → Type 0
HasHistories db = All (HasHistory db.versions) db.documents

-- A row was replaced: the others keep their property.
All-put :
    (P Q : Document → Type 0) (r : Document) (l : List Document)
    → Q r
    → ((x : Document) → (x.id == r.id) ≡ false → P x → Q x)
    → All P l
    → All Q (put document_key r l)
unfolding put
All-put P Q r [] q keep h = tt
All-put P Q r (x ∷ l) q keep h = elim (Bool-cases (x.id == r.id)) [
  | inl same ↦ rw (same, put) (q, All-put P Q r l q keep h.1)
  | inr other ↦ rw (other, put) (keep x other h.0, All-put P Q r l q keep h.1)
]

All-delete_where :
    (P Q : Document → Type 0) (p : Document → Bool) (l : List Document)
    → ((x : Document) → p x ≡ false → P x → Q x)
    → All P l
    → All Q (delete_where p l)
unfolding delete_where
All-delete_where P Q p [] keep h = tt
All-delete_where P Q p (x ∷ l) keep h = elim (Bool-cases (p x)) [
  | inl goes ↦ rw (goes, delete_where) (All-delete_where P Q p l keep h.1)
  | inr stays ↦ rw (stays, delete_where) (keep x stays h.0, All-delete_where P Q p l keep h.1)
]

pub All-row :
    (P : Document → Type 0) (i : ℕ) (l : List Document) {d : Document}
    → All P l
    → row document_key i l ≡ some d
    → P d
unfolding row
All-row P i [] h e = cc
All-row P i (x ∷ l) h e = elim (Bool-cases (x.id == i)) [
  | inl same ↦ subst P (let q : x ≡ _ = ground arith in q) h.0
  | inr other ↦ All-row P i l h.1 (ground arith)
]

All-absent :
    (P Q : Document → Type 0) (i : ℕ) (l : List Document)
    → row document_key i l ≡ none
    → ((x : Document) → (x.id == i) ≡ false → P x → Q x)
    → All P l
    → All Q l
unfolding row
All-absent P Q i [] none_at keep h = tt
All-absent P Q i (x ∷ l) none_at keep h = elim (Bool-cases (x.id == i)) [
  | inl same ↦ absurd (ground arith)
  | inr other ↦ (keep x other h.0, All-absent P Q i l (ground arith) keep h.1)
]

-- A version that follows the last one of a document.
pub advanced :
    (c : Content) (versions : List DocumentVersion) (document d : Document) (version_id : ℕ)
    (content : String) (now : ℕ) (documents : List Document)
    → d.id ≡ document.id
    → d.current_version ≡ document.current_version + 1
    → HasHistory versions document
    → All (HasHistory versions) documents
    → All
        (HasHistory (versions ++ next_version c document version_id content now ∷ []))
        (put document_key d documents)
advanced c versions document d version_id content now documents same_id next h all =
    let v = next_version c document version_id content now in
    All-put (HasHistory versions) (HasHistory (versions ++ v ∷ [])) d documents
      (numbers_same d.id versions v same_id
        ∙ (ap (λ (i : ℕ). numbers i versions ++ v.version_number ∷ []) same_id
            ∙ (ap (λ (l : List ℕ). l ++ v.version_number ∷ []) h
                ∙ (sym (one_to_next document.current_version) ∙ sym (ap one_to next)))))
      (λ x other k. numbers_other x.id versions v (ground arith) ∙ k) all

-- A changed row with the same identifier and current version.
pub kept :
    (versions : List DocumentVersion) (document d : Document) (documents : List Document)
    → d.id ≡ document.id
    → d.current_version ≡ document.current_version
    → HasHistory versions document
    → All (HasHistory versions) documents
    → All (HasHistory versions) (put document_key d documents)
kept versions document d documents same_id same_version h all =
    All-put (HasHistory versions) (HasHistory versions) d documents
      (ap (λ (i : ℕ). numbers i versions) same_id ∙ (h ∙ sym (ap one_to same_version)))
      (λ x other k. k) all

-- A new document with its first version.
added :
    (versions : List DocumentVersion) (documents : List Document) (d : Document) (version_id : ℕ)
    (content digest : String) (now : ℕ)
    → row document_key d.id documents ≡ none
    → numbers d.id versions ≡ []
    → d.current_version ≡ 1
    → All (HasHistory versions) documents
    → All
        (HasHistory (versions ++ first_version version_id d.id content digest now ∷ []))
        (documents ++ d ∷ [])
added versions documents d version_id content digest now absent unnumbered first all =
    let v = first_version version_id d.id content digest now in
    All-append (HasHistory (versions ++ v ∷ [])) documents (d ∷ [])
      (All-absent (HasHistory versions) (HasHistory (versions ++ v ∷ [])) d.id documents absent
        (λ x other k. numbers_other x.id versions v other ∙ k) all)
      (
        numbers_same d.id versions v refl
            ∙ (ap (λ (l : List ℕ). l ++ 1 ∷ []) unnumbered ∙ sym (ap one_to first)),
        tt,
      )

appended-HasHistories :
    (c : Content) (db : Db) (expected_version : ℕ) (content : String) (version_id : ℕ)
    (chunk_id : ℕ → ℕ) (now document_id : ℕ) (document : Document) (result : Option Document)
    (db' : Db)
    → get_document db document_id ≡ some document
    → IsAppended c db expected_version content version_id chunk_id now document result db'
    → HasHistories db
    → HasHistories db'
appended-HasHistories c db expected_version content version_id chunk_id now document_id document
      result db' found a all =
    rw (a.versions, a.documents)
      (advanced c db.versions document (advance c content document) version_id content now
        db.documents refl refl (All-row (HasHistory db.versions) document_id db.documents all found)
        all)

pub append_content-HasHistories :
    (c : Content) (db : Db) (document_id expected_version : ℕ) (content : String) (version_id : ℕ)
    (chunk_id : ℕ → ℕ) (now : ℕ) (result : Option Document) (db' : Db)
    → append_content c db document_id expected_version content version_id chunk_id now
      ≡ ok (result, db')
    → HasHistories db
    → HasHistories db'
append_content-HasHistories c db document_id expected_version content version_id chunk_id now result
      db' e all =
    elim (append_content_outcome c db document_id expected_version content version_id chunk_id now
      result db' e) [
        | inl (missing, nothing, same) ↦ rw same all
        | inr (document, found, inl unchanged) ↦ rw unchanged.store all
        | inr (document, found, inr a) ↦
            appended-HasHistories c db expected_version content version_id chunk_id now document_id
              document result db' found a all
      ]

pub added-HasHistories :
    (db : Db) (d : Document) (version_id : ℕ) (content digest : String) (now : ℕ) (db' : Db)
    → get_document db d.id ≡ none
    → numbers d.id db.versions ≡ []
    → d.current_version ≡ 1
    → db'.versions ≡ db.versions ++ first_version version_id d.id content digest now ∷ []
    → db'.documents ≡ db.documents ++ d ∷ []
    → HasHistories db
    → HasHistories db'
added-HasHistories db d version_id content digest now db' absent unnumbered first versions documents
      all =
    rw (versions, documents)
      (added db.versions db.documents d version_id content digest now absent unnumbered first all)

-- The rows that a created document adds.
pub created :
    (c : Content) (db : Db) (payload : DocumentCreate) (ids : DocumentIds) (now : ℕ)
    (document : Document) (db' : Db)
    → create_document c db payload ids now ≡ ok (document, db')
    → (db'.versions
        ≡ db.versions
          ++ first_version ids.version_id ids.document_id payload.content
              (c.content_hash payload.content)
              now
            ∷ [])
      × (db'.documents
          ≡ db.documents
            ++ new_document ids.document_id payload (c.content_hash payload.content) now ∷ [])
unfolding create_document add_content_chunks
created c db payload ids now document db' e =
    let (_, locked, e₁) = >>=-ok (lock_source_for_document db payload.source_id) _ e in
    let (_, new, e₂) =
      >>=-ok (guard (is_new db payload.source_id payload.external_id) integrity_error) _ e₁ in
    let (db₁, chunks, e₃) =
      >>=-ok
        (add_content_chunks c _
          (first_version ids.version_id ids.document_id payload.content
            (c.content_hash payload.content) now)
          ids.chunk_id)
        _ e₂ in
    let (drafts, chunked, e₄) =
      >>=-ok (chunk_text c.tokenizer payload.content 750 12 100) _ chunks in
    (ground arith, ground arith)

pub uploaded :
    (c : Content) (db : Db) (document : Document) (version_id now : ℕ) (db' : Db)
    → add_uploaded_document c db document version_id now ≡ ok db'
    → (db'.versions
        ≡ db.versions ++ first_version version_id document.id "" (c.content_hash "") now ∷ [])
      × (db'.documents ≡ db.documents ++ document ∷ [])
unfolding add_uploaded_document
uploaded c db document version_id now db' e =
    let (_, new, e₁) =
      >>=-ok (guard (is_new db document.source_id document.external_id) integrity_error) _ e in
    (ground arith, ground arith)

pub deleted-HasHistories :
    (db : Db) (document_id : ℕ) → HasHistories db → HasHistories (delete_document db document_id).1
unfolding delete_document
deleted-HasHistories db document_id all = elim (Option-cases (get_document db document_id)) [
  | inl missing ↦ rw (missing, delete_document) all
  | inr (d, found) ↦
      rw (found, delete_document)
        (All-delete_where (HasHistory db.versions)
          (HasHistory (delete_where (is_version_of document_id) db.versions))
          (λ x. x.id == document_id) db.documents
          (λ x other k. numbers-delete_where x.id document_id db.versions other ∙ k) all)
]

pub patched-HasHistories :
    (db : Db) (document_id : ℕ) (document : Document) (payload : DocumentPatch)
    → get_document db document_id ≡ some document
    → HasHistories db
    → HasHistories (update_document db document payload).1
unfolding update_document
patched-HasHistories db document_id document payload found all =
    kept db.versions document (update_document db document payload).0 db.documents refl refl
      (All-row (HasHistory db.versions) document_id db.documents all found) all
