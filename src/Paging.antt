-- ===== src/Paging.antt =====
-- Lists that are read page by page: each page begins behind the cursor of the row that ended the one
-- before it (list_versions and list_documents in modules/knowledge/documents/public.py, list_sources in
-- modules/sources/public.py). The texts of cursors are in Cursors.
pub mod Order
pub mod Walk
pub mod Base64
pub mod Cursors
pub mod Versions
pub mod Stamps
pub mod Listings
use bbd_os.Prelude.{
  ℕ, zero, suc, Option, none, some, Bool, true, false, List, [], ◌∷◌, ◌++◌, if◌then◌else◌, ltb,
  take, length,
}

module _ {ℓ κ} {A : Type ℓ} {C : Type κ} (cursor_of : A → C) (beyond : C → A → Bool) where
  -- `ORDER BY`
  unfoldable pub insert : A → List A → List A
  insert x [] = x ∷ []
  insert x (y ∷ l) = if beyond (cursor_of x) y then x ∷ y ∷ l else y ∷ insert x l

  unfoldable pub sort : List A → List A
  unfolding insert
  sort [] = []
  sort (x ∷ l) = insert x (sort l)

-- `WHERE`
unfoldable pub select_where {ℓ} : {A : Type ℓ} → (A → Bool) → List A → List A
select_where p [] = []
select_where p (x ∷ l) = let rest = select_where p l in if p x then x ∷ rest else rest

abbrev pub last {ℓ} : {A : Type ℓ} → List A → Option A
last [] = none
last (x ∷ []) = some x
last (x ∷ y ∷ l) = last (y ∷ l)

abbrev pub map_option {ℓ κ} : {A : Type ℓ} {B : Type κ} → (A → B) → Option A → Option B
map_option f none = none
map_option f (some x) = some (f x)

-- What is returned of the rows that were found: there are more where more than a page was found.
unfoldable pub page_of {ℓ κ} : {A : Type ℓ} {C : Type κ} → (A → C) → ℕ → List A → List A × Option C
page_of cursor_of limit found = (
  take limit found,
  if ltb limit (length found) then map_option cursor_of (last (take limit found)) else none,
)

-- The rows behind a cursor, of rows in order; the test of the cursor is applied behind the ordering,
-- which makes no difference.
abbrev pub behind {ℓ κ} : {A : Type ℓ} {C : Type κ} → (C → A → Bool) → Option C → List A → List A
behind beyond none rows = rows
behind beyond (some c) rows = select_where (beyond c) rows

-- One row more than the page is read.
unfoldable pub page {ℓ κ} :
    {A : Type ℓ} {C : Type κ} → (A → C) → (C → A → Bool) → ℕ → Option C → List A → List A × Option C
unfolding page_of select_where
page cursor_of beyond limit cursor rows =
    page_of cursor_of limit (take (suc limit) (behind beyond cursor rows))
