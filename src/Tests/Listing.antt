-- ===== src/Tests/Listing.antt =====
-- Lists that are read page by page.
use bbd_os.Prelude.{
  ℕ, zero, suc, ◌+◌, ◌<◌, ◌≡◌, refl, ap, ◌∙◌, arith, some, none, ok, err, value_error, Result, List,
  [], ◌∷◌, All, row,
}
use bbd_os.Database.{Db, Document}
use bbd_os.Documents.Versions.{advance}
use bbd_os.Documents.Numbers.{numbers}
use bbd_os.Paging.{insert, sort, select_where}
use bbd_os.Paging.Walk.{walk}
use bbd_os.Paging.Cursors.{
  encode_version_cursor, decode_version_cursor, decode_version_cursor-encode_version_cursor,
}
use bbd_os.Paging.Versions.{get_versions, is_of, walk-get_versions}
use bbd_os.Paging.Stamps.{StampText, IsStampText, newest_first}
use bbd_os.Paging.Listings.{list_documents, walk-list_documents}
use bbd_os.Tests.Data.{contents}
use bbd_os.Tests.Writing.{document, db_appended}

decode_version_cursor-encode_version_cursor_example :
    decode_version_cursor (encode_version_cursor 12) ≡ ok 12
decode_version_cursor-encode_version_cursor_example =
    decode_version_cursor-encode_version_cursor 12 (omega arith) (omega arith)

-- The document of the other tests, with two versions.
walk-get_versions_example :
    walk 3 (get_versions db_appended 3 1) none ≡ ok (select_where (is_of 3) db_appended.versions)
unfolding row numbers
walk-get_versions_example =
    walk-get_versions db_appended (advance contents "two" document) refl refl (omega arith) 1 3
      (omega arith) (omega arith)

-- A text of two numbers.
abbrev ones : ℕ → List ℕ → List ℕ
ones zero l = l
ones (suc n) l = 1 ∷ ones n l

abbrev read_second : ℕ → ℕ → List ℕ → Result (ℕ × ℕ)
read_second t i [] = ok (t, i)
read_second t i (b ∷ l) = read_second t (suc i) l

abbrev read_first : ℕ → List ℕ → Result (ℕ × ℕ)
read_first t [] = err value_error
read_first t (zero ∷ l) = read_second t 0 l
read_first t (suc b ∷ l) = read_first (suc t) l

abbrev texts : StampText
texts = record { write = λ stamp. ones stamp.0 (0 ∷ ones stamp.1 []); read = read_first 0 }

ones_bytes : (n : ℕ) (l : List ℕ) → All (λ b. b < 256) l → All (λ b. b < 256) (ones n l)
ones_bytes zero l h = h
ones_bytes (suc n) l h = (omega arith, ones_bytes n l h)

read_second-ones : (t i n : ℕ) → read_second t n (ones i []) ≡ ok (t, n + i)
read_second-ones t zero n = ap (λ k. ok (t, k)) (omega arith)
read_second-ones t (suc i) n = read_second-ones t i (suc n) ∙ ap (λ k. ok (t, k)) (omega arith)

read_first-ones : (t i n : ℕ) → read_first n (ones t (0 ∷ ones i [])) ≡ ok (n + t, i)
read_first-ones zero i n =
    read_second-ones n i 0 ∙ ap (λ k. ok (n, k)) (omega arith) ∙ ap (λ k. ok (k, i)) (omega arith)
read_first-ones (suc t) i n = read_first-ones t i (suc n) ∙ ap (λ k. ok (k, i)) (omega arith)

texts-IsStampText : IsStampText texts
texts-IsStampText = record {
  bytes = λ stamp. ones_bytes stamp.0 (0 ∷ ones stamp.1 []) (omega arith, ones_bytes stamp.1 [] tt);
  read_back = λ stamp. read_first-ones stamp.0 stamp.1 0 ∙ ap (λ k. ok (k, stamp.1)) (omega arith);
}

abbrev newer : Document
newer = record document { id = 4; created_at = 11 }

abbrev db_two : Db
db_two = record db_appended { documents = document ∷ newer ∷ [] }

walk-list_documents_example :
    walk 3 (list_documents texts db_two (some 1) 1) none ≡ ok (newer ∷ document ∷ [])
unfolding newest_first sort insert select_where
walk-list_documents_example =
    walk-list_documents texts db_two (some 1) 1 3 texts-IsStampText ((refl, tt), (tt, tt))
      (omega arith) (omega arith)
