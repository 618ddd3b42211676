-- ===== src/Documents/Log.antt =====
-- What `append_content` promises: a document is a log of texts, which grows at its end.
use bbd_os.Prelude.{
  ℕ, suc, ◌-◌, ◌≤◌, ◌<◌, ◌≡◌, refl, ap, ◌∙◌, inl, inr, arith, String, Option, none, some, Bool,
  Bool-cases, true, false, List, [], ◌∷◌, ◌++◌, if◌then◌else◌, ◌==◌, str_eq, length, find, All,
  value_error, Result, ok, err, ◌>>=◌,
}
use bbd_os.Database.{Db, Document, DocumentVersion, get_document, put_document}
use bbd_os.Chunking.{ChunkDraft, chunk_text}
use bbd_os.Documents.{Content, add_content_chunks, chunk_rows, get_version, is_version}
use bbd_os.Documents.Versions.{next_version, advance, add_version, append_found, append_content}
use bbd_os.Documents.History.{HasHistory}
use bbd_os.Documents.Numbers.{numbers, one_to, one_to_bounds, length-one_to}

abbrev pub Logs : Type 0
Logs = ℕ → List String

abbrev last_text : List String → Option String
last_text [] = none
last_text (t ∷ []) = some t
last_text (t ∷ u ∷ l) = last_text (u ∷ l)

abbrev is_last : Option String → String → Bool
is_last none content = false
is_last (some t) content = str_eq t content

-- The text that the log ends with is not added again; else the log must be as long as expected.
abbrev pub append_entry : Logs → ℕ → ℕ → String → Option Logs
append_entry logs i expected content =
    if is_last (last_text (logs i)) content
    then some logs
    else if length (logs i) == expected
    then some (λ j. if i == j then logs j ++ content ∷ [] else logs j)
    else none

unfoldable pub texts : ℕ → List DocumentVersion → List String
texts i [] = []
texts i (v ∷ l) = let rest = texts i l in if v.document_id == i then v.content ∷ rest else rest

abbrev pub logs_of : Db → Logs
logs_of db i = texts i db.versions

texts-append :
    (i : ℕ) (l : List DocumentVersion) (v : DocumentVersion)
    → texts i (l ++ v ∷ [])
      ≡ (if v.document_id == i then texts i l ++ v.content ∷ [] else texts i l)
unfolding texts
texts-append i [] v = refl
texts-append i (x ∷ l) v = ground (arith, texts-append i l v)

length-texts : (i : ℕ) (l : List DocumentVersion) → length (texts i l) ≡ length (numbers i l)
unfolding texts numbers
length-texts i [] = refl
length-texts i (x ∷ l) = elim (Bool-cases (x.document_id == i)) [
  | inl of_it ↦ rw of_it (omega (arith, length-texts i l))
  | inr of_other ↦ rw of_other (length-texts i l)
]

last_text-behind :
    (t u : String) (l : List String) → last_text l ≡ some u → last_text (t ∷ l) ≡ some u
last_text-behind t u [] h = cc
last_text-behind t u (x ∷ l) h = h

no_texts : (i : ℕ) (l : List DocumentVersion) → numbers i l ≡ [] → texts i l ≡ []
no_texts i l h = empty (texts i l) (omega (arith, length-texts i l, ap length h))
  where
    empty : (l : List String) → length l ≡ 0 → l ≡ []
    empty [] h = refl
    empty (x ∷ l) h = absurd (omega arith)

-- The version whose number ends the numbers of a document, and occurs once among them, has the last text.
last_version :
    (i k : ℕ) (l : List DocumentVersion) (front : List ℕ)
    → numbers i l ≡ front ++ k ∷ []
    → All (λ x. x < k) front
    → (v : DocumentVersion) × (find (is_version i k) l ≡ some v)
      × (last_text (texts i l) ≡ some v.content)
unfolding numbers texts find
last_version i k [] [] h below = cc
last_version i k [] (y ∷ front) h below = cc
last_version i k (x ∷ l) [] h below = elim (Bool-cases (x.document_id == i)) [
  | inr of_other ↦
      let (v, at_v, ends) = last_version i k l [] (rw of_other at h) below in
      (v, rw of_other at_v, rw of_other ends)
  | inl of_it ↦
      let e : x.version_number ∷ numbers i l ≡ k ∷ [] = rw of_it at h in
      let number : x.version_number ≡ k = cc in
      let nothing : texts i l ≡ [] = no_texts i l (let rest : numbers i l ≡ [] = cc in rest) in
      let it : is_version i k x ≡ true = ground arith in (x, rw it refl, rw (of_it, nothing) refl)
]
last_version i k (x ∷ l) (y ∷ front) h below = elim (Bool-cases (x.document_id == i)) [
  | inr of_other ↦
      let (v, at_v, ends) = last_version i k l (y ∷ front) (rw of_other at h) below in
      (v, rw of_other at_v, rw of_other ends)
  | inl of_it ↦
      let e : x.version_number ∷ numbers i l ≡ y ∷ front ++ k ∷ [] = rw of_it at h in
      let number : x.version_number ≡ y = cc in
      let (v, at_v, ends) =
        last_version i k l front (let rest : numbers i l ≡ front ++ k ∷ [] = cc in rest) below.1 in
      let smaller = below.0 in
      let other : is_version i k x ≡ false = ground arith in
      (v, rw other at_v, rw of_it (last_text-behind x.content v.content (texts i l) ends))
]

-- What the code does with a store agrees with what the log does: it refuses with ValueError where the log
-- does, and else the texts of every document `j` are those of the log, unless the text cannot be cut up.
abbrev pub Refines : Content → String → ℕ → Option Logs → Result (Option Document × Db) → Type 0
Refines c content j none (err e) = e ≡ value_error
Refines c content j none (ok (result, db')) = ⊥
Refines c content j (some logs) (ok (result, db')) = logs_of db' j ≡ logs j
Refines c content j (some logs) (err e) = chunk_text c.tokenizer content 750 12 100 ≡ err e

module _ (c : Content) (db : Db) (document : Document) (expected : ℕ) (content : String)
    (version_id : ℕ) (chunk_id : ℕ → ℕ) (now j : ℕ) (history : HasHistory db.versions document)
    (some_version : 1 ≤ document.current_version) where
  abbrev spec : Option Logs
  spec = append_entry (logs_of db) document.id expected content

  abbrev grown : Logs
  grown k = if document.id == k then logs_of db k ++ content ∷ [] else logs_of db k

  log_length : length (logs_of db document.id) ≡ document.current_version
  log_length =
      length-texts document.id db.versions
      ∙ ap length history
      ∙ length-one_to document.current_version

  -- The version to append to is the last of the log.
  current_last :
      (v : DocumentVersion) × (get_version db document.id document.current_version ≡ some v)
      × (last_text (logs_of db document.id) ≡ some v.content)
  unfolding get_version
  current_last =
      let n = document.current_version - 1 in
      let next : document.current_version ≡ suc n = omega arith in
      let (v, at_v, ends) =
        last_version document.id (suc n) db.versions (one_to n) (history ∙ ap one_to next)
          (one_to_bounds n) in
      (v, ap (get_version db document.id) next ∙ at_v, ends)

  chunked-Refines :
      (drafts : Result (List ChunkDraft))
      → chunk_text c.tokenizer content 750 12 100 ≡ drafts
      → Refines c content j (some grown) (
          (drafts >>= λ d. ok (record db {
            versions = db.versions ++ next_version c document version_id content now ∷ [];
            chunks = db.chunks ++ chunk_rows c version_id chunk_id 0 d;
          }))
          >>= λ db'.
              ok (some (advance c content document), put_document (advance c content document) db'))
  chunked-Refines (err e) h = h
  chunked-Refines (ok drafts) h =
      texts-append j db.versions (next_version c document version_id content now)

  found-Refines :
      Refines c content j spec (append_found c db document expected content version_id chunk_id now)
  unfolding append_found add_version add_content_chunks
  found-Refines =
      let (v, at_v, ends) = current_last in
      rw at_v (
        rw ends (elim (Bool-cases (str_eq v.content content)) [
          | inl same ↦ rw same refl
          | inr other ↦
              rw (other, log_length)
                (elim (Bool-cases (document.current_version == expected)) [
                  | inl at_expected ↦
                      rw at_expected
                        (chunked-Refines (chunk_text c.tokenizer content 750 12 100) refl)
                  | inr stale ↦ rw stale refl
                ])
        ]))

-- An append refines the append to a log: where the versions of a document are numbered without a gap, and
-- there is one, it is refused exactly where the log refuses it, and else, if the text can be cut into chunks,
-- the texts of all documents are those of the new log.
pub append_content-Refines :
    (c : Content) (db : Db) (document : Document) (expected : ℕ) (content : String) (version_id : ℕ)
    (chunk_id : ℕ → ℕ) (now j : ℕ)
    → get_document db document.id ≡ some document
    → HasHistory db.versions document
    → 1 ≤ document.current_version
    → Refines c content j
        (append_entry (logs_of db) document.id expected content)
        (append_content c db document.id expected content version_id chunk_id now)
unfolding append_content
append_content-Refines c db document expected content version_id chunk_id now j found history
      some_version =
    rw (found, append_content)
      (found-Refines c db document expected content version_id chunk_id now j history some_version)
