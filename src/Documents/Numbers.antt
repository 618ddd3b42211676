-- ===== src/Documents/Numbers.antt =====
-- The numbers of the versions of a document.
use bbd_os.Prelude.{
  ℕ, zero, suc, ◌+◌, ◌≡◌, refl, sym, ap, ◌∙◌, arith, false, List, [], ◌∷◌, ◌++◌, if◌then◌else◌,
  ◌==◌, All, All-append, All-mono, length, length-append, ◌<◌, delete_where,
}
use bbd_os.Database.{DocumentVersion}
use bbd_os.Documents.{is_version_of}

-- The numbers of the versions of a document, in the order of their insertion.
unfoldable pub numbers : ℕ → List DocumentVersion → List ℕ
numbers document_id [] = []
numbers document_id (v ∷ l) =
    let rest = numbers document_id l in
    if v.document_id == document_id then v.version_number ∷ rest else rest

-- 1, 2, up to `n`
abbrev pub one_to : ℕ → List ℕ
one_to zero = []
one_to (suc n) = one_to n ++ suc n ∷ []

pub one_to_bounds : (n : ℕ) → All (λ y. y < suc n) (one_to n)
one_to_bounds zero = tt
one_to_bounds (suc n) =
    All-append (λ y. y < suc (suc n)) (one_to n) (suc n ∷ [])
      (All-mono (λ y (h : y < suc n). omega arith) (one_to n) (one_to_bounds n)) (omega arith, tt)

pub length-one_to : (n : ℕ) → length (one_to n) ≡ n
length-one_to zero = refl
length-one_to (suc n) = omega (arith, length-append (one_to n) (suc n ∷ []), length-one_to n)

pub numbers-append :
    (i : ℕ) (l : List DocumentVersion) (v : DocumentVersion)
    → numbers i (l ++ v ∷ [])
      ≡ (if v.document_id == i then numbers i l ++ v.version_number ∷ [] else numbers i l)
unfolding numbers
numbers-append i [] v = refl
numbers-append i (x ∷ l) v = ground (arith, numbers-append i l v)

pub numbers-delete_where :
    (i j : ℕ) (l : List DocumentVersion)
    → (i == j) ≡ false
    → numbers i (delete_where (is_version_of j) l) ≡ numbers i l
unfolding numbers delete_where
numbers-delete_where i j [] h = refl
numbers-delete_where i j (v ∷ l) h = ground (arith, numbers-delete_where i j l h)

pub numbers_other :
    (i : ℕ) (l : List DocumentVersion) (v : DocumentVersion)
    → (i == v.document_id) ≡ false
    → numbers i (l ++ v ∷ []) ≡ numbers i l
numbers_other i l v other = ground (arith, numbers-append i l v)

pub numbers_same :
    (i : ℕ) (l : List DocumentVersion) (v : DocumentVersion)
    → i ≡ v.document_id
    → numbers i (l ++ v ∷ []) ≡ numbers i l ++ v.version_number ∷ []
numbers_same i l v same = ground (arith, numbers-append i l v)

pub one_to_next : (n : ℕ) → one_to (n + 1) ≡ one_to n ++ ((n + 1) ∷ [])
one_to_next n =
    let e : n + 1 ≡ suc n = omega arith in ap one_to e ∙ ap (λ (k : ℕ). one_to n ++ k ∷ []) (sym e)
