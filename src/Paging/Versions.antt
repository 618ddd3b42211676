-- ===== src/Paging/Versions.antt =====
-- list_versions in modules/knowledge/documents/public.py and its route in
-- modules/knowledge/documents/routes.py: the versions of a document, page by page.
use bbd_os.Prelude.{
  ℕ, zero, suc, ◌≤◌, ◌<◌, ◌≡◌, refl, sym, ap, ◌∙◌, arith, Option, none, some, Bool, List, [], ◌∷◌,
  ◌++◌, ◌==◌, ltb, length, All, All-mono, All-append, Result, ok, http, require, ◌>>=◌,
}
use mathlib.Core.Path.{subst}
use bbd_os.Database.{Db, Document, DocumentVersion, get_document}
use bbd_os.Documents.History.{HasHistory}
use bbd_os.Documents.Numbers.{numbers, one_to, one_to_bounds, length-one_to}
use bbd_os.Paging.{insert, sort, select_where, map_option, page}
use bbd_os.Paging.Order.{IsOrder, IsOrdered}
use bbd_os.Paging.Walk.{walk, walk-rows}
use bbd_os.Paging.Cursors.{
  encode_version_cursor, decode_version_cursor, decode_version_cursor-encode_version_cursor,
}

abbrev pub is_of : ℕ → DocumentVersion → Bool
is_of document_id v = v.document_id == document_id

abbrev pub beyond_version : ℕ → DocumentVersion → Bool
beyond_version n v = ltb n v.version_number

-- The versions of a document, ordered by their numbers.
unfoldable pub versions_in_order : Db → ℕ → List DocumentVersion
unfolding sort select_where
versions_in_order db document_id =
    sort DocumentVersion.version_number beyond_version
      (select_where (is_of document_id) db.versions)

abbrev pub read_cursor : Option (List ℕ) → Result (Option ℕ)
read_cursor none = ok none
read_cursor (some cursor) = decode_version_cursor cursor >>= λ n. ok (some n)

abbrev pub encode_next : List DocumentVersion × Option ℕ → List DocumentVersion × Option (List ℕ)
encode_next p = (p.0, map_option encode_version_cursor p.1)

-- The cursor is decoded before the document is looked for.
unfoldable pub list_versions :
    Db → ℕ → ℕ → Option (List ℕ) → Result (Option (List DocumentVersion) × Option (List ℕ))
unfolding page versions_in_order
list_versions db document_id limit cursor = do
  after_version ← read_cursor cursor
  elim (get_document db document_id) [
    | none ↦ ok (none, none)
    | some document ↦
        let p = encode_next (
          page DocumentVersion.version_number beyond_version limit after_version
            (versions_in_order db document_id)) in
        ok (some p.0, p.1)
  ]

unfoldable pub get_versions :
    Db → ℕ → ℕ → Option (List ℕ) → Result (List DocumentVersion × Option (List ℕ))
unfolding list_versions
get_versions db document_id limit cursor = do
  found ← list_versions db document_id limit cursor
  versions ← require found.0 (http 404 "Document not found")
  ok (versions, found.1)

version_order : IsOrder DocumentVersion.version_number beyond_version
version_order = record { irrefl = λ x. ground arith; trans = λ x y z h k. ground arith }

abbrev IsIncreasing : List ℕ → Type 0
IsIncreasing [] = Unit
IsIncreasing (x ∷ l) = All (λ y. x < y) l × IsIncreasing l

IsIncreasing-append :
    (l : List ℕ) (n : ℕ) → IsIncreasing l → All (λ y. y < n) l → IsIncreasing (l ++ n ∷ [])
IsIncreasing-append [] n h k = (tt, tt)
IsIncreasing-append (x ∷ l) n h k =
    (All-append (λ y. x < y) l (n ∷ []) h.0 (k.0, tt), IsIncreasing-append l n h.1 k.1)

one_to_positive : (n : ℕ) → All (λ y. 1 ≤ y) (one_to n)
one_to_positive zero = tt
one_to_positive (suc n) =
    All-append (λ y. 1 ≤ y) (one_to n) (suc n ∷ []) (one_to_positive n) (omega arith, tt)

one_to-IsIncreasing : (n : ℕ) → IsIncreasing (one_to n)
one_to-IsIncreasing zero = tt
one_to-IsIncreasing (suc n) =
    IsIncreasing-append (one_to n) (suc n) (one_to-IsIncreasing n) (one_to_bounds n)

abbrev numbers_of : List DocumentVersion → List ℕ
numbers_of [] = []
numbers_of (v ∷ l) = v.version_number ∷ numbers_of l

numbers_select :
    (i : ℕ) (l : List DocumentVersion) → numbers_of (select_where (is_of i) l) ≡ numbers i l
unfolding select_where numbers
numbers_select i [] = refl
numbers_select i (v ∷ l) = ground (arith, numbers_select i l)

All-numbers :
    (P : ℕ → Type 0) (l : List DocumentVersion)
    → All P (numbers_of l)
    → All (λ v. P v.version_number) l
All-numbers P [] h = tt
All-numbers P (v ∷ l) h = (h.0, All-numbers P l h.1)

numbers-IsOrdered :
    (l : List DocumentVersion)
    → IsIncreasing (numbers_of l)
    → IsOrdered DocumentVersion.version_number beyond_version version_order l
numbers-IsOrdered [] h = tt
numbers-IsOrdered (v ∷ l) h = (
  All-mono (λ w (k : v.version_number < w.version_number). ground arith) l
      (All-numbers (λ n. v.version_number < n) l h.0),
  numbers-IsOrdered l h.1,
)

-- Rows that are in order stay as they are.
sort_ordered :
    (l : List DocumentVersion)
    → IsOrdered DocumentVersion.version_number beyond_version version_order l
    → sort DocumentVersion.version_number beyond_version l ≡ l
unfolding sort insert
sort_ordered [] h = refl
sort_ordered (v ∷ []) h = refl
sort_ordered (v ∷ w ∷ l) h = rw (sort_ordered (w ∷ l) h.1) (rw (h.0.0) refl)

length-numbers : (l : List DocumentVersion) → length (numbers_of l) ≡ length l
length-numbers [] = refl
length-numbers (v ∷ l) = omega (arith, length-numbers l)

All-split :
    (P : DocumentVersion → Type 0) (before : List DocumentVersion) (x : DocumentVersion)
    (after : List DocumentVersion)
    → All P (before ++ x ∷ after)
    → P x
All-split P [] x after h = h.0
All-split P (y ∷ before) x after h = All-split P before x after h.1

module _ (db : Db) (document : Document) (found : get_document db document.id ≡ some document)
    (history : HasHistory db.versions document) (few : document.current_version ≤ 2147483647) where
  abbrev rows : List DocumentVersion
  rows = select_where (is_of document.id) db.versions

  numbers_of-rows : numbers_of rows ≡ one_to document.current_version
  numbers_of-rows = numbers_select document.id db.versions ∙ history

  rows-IsOrdered : IsOrdered DocumentVersion.version_number beyond_version version_order rows
  rows-IsOrdered =
      numbers-IsOrdered rows
        (subst IsIncreasing (sym numbers_of-rows) (one_to-IsIncreasing document.current_version))

  in_order : versions_in_order db document.id ≡ rows
  unfolding versions_in_order
  in_order = sort_ordered rows rows-IsOrdered

  first_page :
      (limit : ℕ)
      → get_versions db document.id limit none
        ≡ ok (encode_next (page DocumentVersion.version_number beyond_version limit none rows))
  unfolding get_versions list_versions
  first_page limit = rw (found, in_order) refl

  later_page :
      (limit : ℕ) (before : List DocumentVersion) (x : DocumentVersion)
      (after : List DocumentVersion)
      → rows ≡ before ++ x ∷ after
      → get_versions db document.id limit (some (encode_version_cursor x.version_number))
        ≡ ok (
            encode_next (
              page DocumentVersion.version_number beyond_version limit
                (some x.version_number)
                rows))
  unfolding get_versions list_versions
  later_page limit before x after split =
      let low : 1 ≤ x.version_number =
        All-split (λ v. 1 ≤ v.version_number) before x after
          (subst (All (λ v. 1 ≤ v.version_number)) split (
            All-numbers (λ n. 1 ≤ n) rows
              (subst (All (λ n. 1 ≤ n)) (sym numbers_of-rows)
                (one_to_positive document.current_version)))) in
      let high : x.version_number < suc document.current_version =
        All-split (λ v. v.version_number < suc document.current_version) before x after
          (subst (All (λ v. v.version_number < suc document.current_version)) split (
            All-numbers (λ n. n < suc document.current_version) rows
              (subst (All (λ n. n < suc document.current_version)) (sym numbers_of-rows)
                (one_to_bounds document.current_version)))) in
      rw
        (
          decode_version_cursor-encode_version_cursor x.version_number low (omega arith),
          found,
          in_order,
        )
        refl

  length-rows : length rows ≡ document.current_version
  length-rows =
      sym (length-numbers rows) ∙ ap length numbers_of-rows ∙ length-one_to document.current_version

  -- Where the versions of a document are numbered from 1 to its current version, which is in the range of
  -- the column, and a page has a row at least, a client that reads page after page gets the versions of
  -- the document in the order of their insertion, each of them once. It needs no more reads than there
  -- are versions, and one.
  pub walk-get_versions :
      (limit fuel : ℕ)
      → 1 ≤ limit
      → document.current_version < fuel
      → walk fuel (get_versions db document.id limit) none
        ≡ ok (select_where (is_of document.id) db.versions)
  walk-get_versions zero fuel some_rows enough = absurd (omega arith)
  walk-get_versions (suc n) fuel some_rows enough =
      walk-rows DocumentVersion.version_number beyond_version version_order encode_version_cursor n
        rows rows-IsOrdered (get_versions db document.id (suc n)) (later_page (suc n)) fuel
        (omega (arith, length-rows)) (first_page (suc n))
