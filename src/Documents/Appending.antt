-- ===== src/Documents/Appending.antt =====
-- What `append_content` answers and stores, and what it refuses.
use mathlib.Core.Path.{subst}
use bbd_os.Prelude.{
  sym, ap, ◌∙◌, ℕ, ◌+◌, ◌≡◌, ◌⊎◌, inl, inr, arith, String, Option, none, some, true, false, List,
  [], ◌∷◌, ◌++◌, ◌==◌, str_eq, find-append, value_error, runtime_error, ok, err, >>=-ok, guard,
  require, Option-cases, Bool-cases, row-key, row-put_self,
}
use bbd_os.Database.{Db, Document, DocumentVersion, get_document, put_document}
use bbd_os.Chunking.{ChunkDraft, chunk_text}
use bbd_os.Documents.{Content, add_content_chunks, chunk_rows, get_version}
use bbd_os.Documents.Versions.{next_version, advance, add_version, append_found, append_content}

module _ (c : Content) (db : Db) (expected_version : ℕ) (content : String) (version_id : ℕ)
    (chunk_id : ℕ → ℕ) (now : ℕ) (document : Document) where
  -- The content is that of the current version, and nothing changes.
  pub record IsUnchanged (result : Option Document) (db' : Db) : Type 0 where
    pub current : DocumentVersion
    pub at_current : get_version db document.id document.current_version ≡ some current
    pub same : str_eq current.content content ≡ true
    pub answer : result ≡ some document
    pub store : db' ≡ db

  -- The document was at the expected version, and a version with the content and its chunks follows.
  pub record IsAppended (result : Option Document) (db' : Db) : Type 0 where
    pub current : DocumentVersion
    pub at_current : get_version db document.id document.current_version ≡ some current
    pub other : str_eq current.content content ≡ false
    pub expected : document.current_version ≡ expected_version
    pub drafts : List ChunkDraft
    pub chunked : chunk_text c.tokenizer content 750 12 100 ≡ ok drafts
    pub answer : result ≡ some (advance c content document)
    pub versions : db'.versions ≡ db.versions ++ next_version c document version_id content now ∷ []
    pub chunks : db'.chunks ≡ db.chunks ++ chunk_rows c version_id chunk_id 0 drafts
    pub documents : db'.documents ≡ (put_document (advance c content document) db).documents

  append_found_outcome :
      (result : Option Document) (db' : Db)
      → append_found c db document expected_version content version_id chunk_id now
        ≡ ok (result, db')
      → IsUnchanged result db' ⊎ IsAppended result db'
  unfolding append_found add_version add_content_chunks
  append_found_outcome result db' e =
      let (v, at_v, e₁) =
        >>=-ok (require (get_version db document.id document.current_version) runtime_error) _ e in
      elim (Bool-cases (str_eq v.content content)) [
        | inl same ↦
            let e₂ = rw same at e₁ in
            inl (record {
              current = v;
              at_current = ground arith;
              same = same;
              answer = ground arith;
              store = ground arith;
            })
        | inr other ↦
            let e₂ = rw other at e₁ in
            let (_, expected, e₃) =
              >>=-ok (guard (document.current_version == expected_version) value_error) _ e₂ in
            let (db₁, e₄, e₅) =
              >>=-ok
                (add_content_chunks c _ (next_version c document version_id content now) chunk_id) _
                e₃ in
            let (drafts, chunked, e₆) = >>=-ok (chunk_text c.tokenizer content 750 12 100) _ e₄ in
            inr (record {
              current = v;
              at_current = ground arith;
              other = other;
              expected = ground arith;
              drafts = drafts;
              chunked = chunked;
              answer = ground arith;
              versions = ground arith;
              chunks = ground arith;
              documents = ground arith;
            })
      ]

-- An append that succeeds finds no document, or leaves a document unchanged that has the content
-- already, or finds the document at the expected version and adds exactly one version and its chunks
-- behind those that there are, which stay as they are.
pub append_content_outcome :
    (c : Content) (db : Db) (document_id expected_version : ℕ) (content : String) (version_id : ℕ)
    (chunk_id : ℕ → ℕ) (now : ℕ) (result : Option Document) (db' : Db)
    → append_content c db document_id expected_version content version_id chunk_id now
      ≡ ok (result, db')
    → ((get_document db document_id ≡ none) × (result ≡ none) × (db' ≡ db))
      ⊎ ((document : Document) × (get_document db document_id ≡ some document)
          × (IsUnchanged c db expected_version content version_id chunk_id now document result db'
              ⊎ IsAppended c db expected_version content version_id chunk_id now document result
                  db'))
unfolding append_content
append_content_outcome c db document_id expected_version content version_id chunk_id now result db'
      e =
    elim (Option-cases (get_document db document_id)) [
      | inl missing ↦
          let e₁ = rw (missing, append_content) at e in inl (missing, ground arith, ground arith)
      | inr (document, found) ↦
          let e₁ = rw (found, append_content) at e in
          inr (
            document,
            found,
            append_found_outcome c db expected_version content version_id chunk_id now document
                result db' e₁,
          )
    ]

stale :
    (c : Content) (db : Db) (document : Document) (current : DocumentVersion)
    (document_id expected_version : ℕ) (content : String) (version_id : ℕ) (chunk_id : ℕ → ℕ)
    (now : ℕ)
    → get_document db document_id ≡ some document
    → get_version db document.id document.current_version ≡ some current
    → str_eq current.content content ≡ false
    → (document.current_version == expected_version) ≡ false
    → append_content c db document_id expected_version content version_id chunk_id now
      ≡ err value_error
unfolding append_content append_found
stale c db document current document_id expected_version content version_id chunk_id now found
      at_current other late =
    rw (found, append_content) (rw (at_current, append_found) (rw other (rw late)))

module _ (c : Content) (db : Db) (expected_version : ℕ) (content : String) (version_id : ℕ)
    (chunk_id : ℕ → ℕ) (now : ℕ) (document : Document) (result : Option Document) (db' : Db)
    (a : IsAppended c db expected_version content version_id chunk_id now document result db') where
  document-appended :
      (document_id : ℕ)
      → get_document db document_id ≡ some document
      → get_document db' document_id ≡ some (advance c content document)
  document-appended document_id found =
      rw a.documents (row-put_self _ _ _ _ _ found (row-key _ _ _ found))

  version-appended :
      get_version db document.id (document.current_version + 1) ≡ none
      → get_version db' document.id (document.current_version + 1)
        ≡ some (next_version c document version_id content now)
  unfolding get_version
  version-appended fresh = rw (a.versions, find-append) (rw fresh (ground arith))

different-IsAppended :
    (c : Content) (db : Db) (expected_version : ℕ) (content : String) (version_id : ℕ)
    (chunk_id : ℕ → ℕ) (now : ℕ) (document : Document) (current : DocumentVersion)
    (result : Option Document) (db' : Db)
    → get_version db document.id document.current_version ≡ some current
    → str_eq current.content content ≡ false
    → IsUnchanged c db expected_version content version_id chunk_id now document result db'
      ⊎ IsAppended c db expected_version content version_id chunk_id now document result db'
    → IsAppended c db expected_version content version_id chunk_id now document result db'
different-IsAppended c db expected_version content version_id chunk_id now document current result
      db' at_current other (inr a) =
    a
different-IsAppended c db expected_version content version_id chunk_id now document current result
      db' at_current other (inl u) =
    let same_version : some u.current ≡ some current = sym u.at_current ∙ at_current in
    let same = u.same in
    let v : u.current ≡ current = cc in
    absurd
      (true-false (sym same ∙ ap (λ (w : DocumentVersion). str_eq w.content content) v ∙ other))
  where
    true-false : true ≡ false → ⊥
    true-false e = cc

-- Two clients append to a document at the version that both have read. If the first call succeeds with a
-- text other than that of the current version, the next call, with yet another text and the same expected
-- version, is refused with ValueError; the version number that the first call gave must not have been in
-- use.
pub append_content_conflict :
    (c : Content) (db : Db) (document_id expected_version : ℕ) (content content' : String)
    (version_id version_id' : ℕ) (chunk_id chunk_id' : ℕ → ℕ) (now now' : ℕ) (document : Document)
    (current : DocumentVersion) (result : Option Document) (db' : Db)
    → get_document db document_id ≡ some document
    → get_version db document.id document.current_version ≡ some current
    → get_version db document.id (document.current_version + 1) ≡ none
    → str_eq current.content content ≡ false
    → append_content c db document_id expected_version content version_id chunk_id now
      ≡ ok (result, db')
    → str_eq content content' ≡ false
    → append_content c db' document_id expected_version content' version_id' chunk_id' now'
      ≡ err value_error
append_content_conflict c db document_id expected_version content content' version_id version_id'
      chunk_id chunk_id' now now' document current result db' found at_current fresh other first
      different =
    elim (append_content_outcome c db document_id expected_version content version_id chunk_id now
      result db' first) [
        | inl (missing, _, _) ↦ let wrong = sym missing ∙ found in cc
        | inr (d, at_d, outcome) ↦
            let same_document : some d ≡ some document = sym at_d ∙ found in
            let same : d ≡ document = cc in
            let a =
              different-IsAppended c db expected_version content version_id chunk_id now document
                current result db' at_current other
                (subst
                  (λ (x : Document).
                    IsUnchanged c db expected_version content version_id chunk_id now x result db'
                    ⊎ IsAppended c db expected_version content version_id chunk_id now x result db')
                  same outcome) in
            stale c db' (advance c content document)
              (next_version c document version_id content now) document_id expected_version content'
              version_id' chunk_id' now'
              (document-appended c db expected_version content version_id chunk_id now document
                result db' a document_id found)
              (version-appended c db expected_version content version_id chunk_id now document
                result db' a fresh)
              different (let expected = a.expected in ground arith)
      ]
