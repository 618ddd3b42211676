-- ===== src/Tests/Writing.antt =====
-- Documents and chunks.
use bbd_os.Prelude.{
  ℕ, ◌≡◌, refl, none, some, ok, err, List, [], ◌∷◌, find, row, put, value_error, arith,
}
use bbd_os.Database.{Db, Document}
use bbd_os.Chunking.{
  ChunkDraft, find_boundaries, chunk_text, spans, bisect_right, chunk_end, previous,
}
use bbd_os.Chunking.Utf8.{decode}
use bbd_os.Documents.{
  DocumentCreate, DocumentIds, create_document, first_version, new_document, new_chunk, get_version,
}
use bbd_os.Documents.Versions.{append_content, advance, next_version}
use bbd_os.Documents.Appending.{append_content_conflict}
use bbd_os.Documents.Log.{Refines, append_entry, logs_of, append_content-Refines}
use bbd_os.Documents.Versions.{append_content}
use bbd_os.Documents.History.{HasHistories}
use bbd_os.Documents.Numbers.{numbers}
use bbd_os.Documents.Reachable.{start, step, creates, Reaches-HasHistories}
use bbd_os.Tests.Data.{db_notes, contents}

abbrev letter : List ℕ
letter = 0x61 ∷ []

abbrev payload : DocumentCreate
payload = record {
  source_id = 1;
  external_id = none;
  title = "T";
  content = "one";
  metadata = "{}";
}

abbrev ids : DocumentIds
ids = record { document_id = 3; version_id = 4; chunk_id = λ n. n }

abbrev pub document : Document
document = new_document 3 payload "one" 10

abbrev whole_draft : ChunkDraft
whole_draft = record { content = "a"; token_count = 2; start_token = 0 }

abbrev db_document : Db
db_document = record db_notes {
  documents = document ∷ [];
  versions = first_version 4 3 "one" "one" 10 ∷ [];
  chunks = new_chunk contents 4 (λ n. n) 0 whole_draft ∷ [];
}

Reaches-HasHistories_example : HasHistories db_document
unfolding create_document row chunk_text find_boundaries spans decode chunk_end previous
    bisect_right numbers
Reaches-HasHistories_example = Reaches-HasHistories contents db_notes db_document refl (
    step db_notes db_document start
      (creates db_notes db_document payload ids 10 document refl refl refl))

abbrev pub db_appended : Db
db_appended = record db_document {
  documents = advance contents "two" document ∷ [];
  versions = first_version 4 3 "one" "one" 10 ∷ next_version contents document 5 "two" 20 ∷ [];
  chunks =
      new_chunk contents 4 (λ n. n) 0 whole_draft
      ∷ new_chunk contents 5 (λ n. n) 0 whole_draft
      ∷ [];
}

-- The call that adds the second version.
appended :
    append_content contents db_document 3 1 "two" 5 (λ n. n) 20
    ≡ ok (some (advance contents "two" document), db_appended)
unfolding append_content row put find get_version chunk_text find_boundaries spans decode chunk_end
    previous bisect_right
appended = refl

append_content_conflict_example :
    append_content contents db_appended 3 1 "three" 6 (λ n. n) 30 ≡ err value_error
unfolding row find get_version
append_content_conflict_example =
    append_content_conflict contents db_document 3 1 "two" "three" 5 6 (λ n. n) (λ n. n) 20 30
      document (first_version 4 3 "one" "one" 10) (some (advance contents "two" document))
      db_appended refl refl refl refl appended refl

append_content-Refines_example :
    Refines contents "two" 3
      (append_entry (logs_of db_document) 3 1 "two")
      (append_content contents db_document 3 1 "two" 5 (λ n. n) 20)
unfolding row numbers
append_content-Refines_example =
    append_content-Refines contents db_document document 1 "two" 5 (λ n. n) 20 3 refl refl
      (omega arith)
