-- ===== src/Search/Indexing/Single.antt =====
-- At most one generation is queued or running, and at most one is active.
pub mod Kept
pub mod Whole
use bbd_os.Prelude.{
  ℕ, ◌+◌, ◌≤◌, ◌≡◌, refl, sym, ap, ◌∙◌, arith, Option, none, some, Option-cases, Bool, Bool-cases,
  inl, inr, true, false, List, [], ◌∷◌, ◌++◌, if◌then◌else◌, ◌==◌, find, row, row-put, put,
}
use bbd_os.Search.{GenerationStatus, IndexGeneration, first_by, is_open, is_live}
use bbd_os.Search.Indexing.Activation.{earlier-ne-none}

abbrev pub bit : Bool → ℕ
bit true = 1
bit false = 0

unfoldable pub copies : ℕ → List IndexGeneration → ℕ
copies i [] = 0
copies i (g ∷ l) = bit (g.id == i) + copies i l

unfoldable pub count_status : (GenerationStatus → Bool) → List IndexGeneration → ℕ
count_status p [] = 0
count_status p (g ∷ l) = bit (p g.status) + count_status p l

abbrev pub row_of : ℕ → List IndexGeneration → Option IndexGeneration
row_of i l = row (λ r. IndexGeneration.id r) i l

abbrev pub put_in : IndexGeneration → List IndexGeneration → List IndexGeneration
put_in g l = put (λ r. IndexGeneration.id r) g l

-- Identifiers are a primary key; one generation is being built, and one is active.
pub record IsSingle (l : List IndexGeneration) : Type 0 where
  pub keys : (i : ℕ) → copies i l ≤ 1
  pub one_open : count_status is_open l ≤ 1
  pub one_active : count_status is_live l ≤ 1

pub copies-put :
    (i : ℕ) (g : IndexGeneration) (l : List IndexGeneration) → copies i (put_in g l) ≡ copies i l
unfolding copies put
copies-put i g [] = refl
copies-put i g (x ∷ l) = ground (arith, copies-put i g l)

put_absent : (g : IndexGeneration) (l : List IndexGeneration) → copies g.id l ≡ 0 → put_in g l ≡ l
unfolding copies put
put_absent g [] h = refl
put_absent g (x ∷ l) h = elim (Bool-cases (x.id == g.id)) [
  | inl there ↦ absurd (ground arith)
  | inr other ↦ rw other (ap (λ r. x ∷ r) (put_absent g l (ground arith)))
]

-- A put exchanges one row.
pub count_put :
    (p : GenerationStatus → Bool) (g old : IndexGeneration) (l : List IndexGeneration)
    → copies g.id l ≤ 1
    → row_of g.id l ≡ some old
    → count_status p (put_in g l) + bit (p old.status) ≡ count_status p l + bit (p g.status)
unfolding copies count_status put row
count_put p g old [] h is_row = cc
count_put p g old (x ∷ l) h is_row = elim (Bool-cases (x.id == g.id)) [
  | inl there ↦
      let same : x ≡ old = let e : some x ≡ some old = rw there at is_row in ground arith in
      let status = ap (λ r. bit (p (IndexGeneration.status r))) same in
      let rest = ap (count_status p) (put_absent g l (ground arith)) in rw there (omega arith)
  | inr other ↦
      let rest = count_put p g old l (ground arith) (rw other at is_row) in rw other (omega arith)
]

copies_of_row :
    (i : ℕ) (l : List IndexGeneration) (g : IndexGeneration) → row_of i l ≡ some g → 1 ≤ copies i l
unfolding copies row
copies_of_row i [] g h = cc
copies_of_row i (x ∷ l) g h = elim (Bool-cases (x.id == i)) [
  | inl there ↦ rw there (omega arith)
  | inr other ↦ rw other (omega (arith, copies_of_row i l g (rw other at h)))
]

-- A selected row is the row of its key.
pub row_of-find :
    (p : IndexGeneration → Bool) (l : List IndexGeneration) (g : IndexGeneration)
    → copies g.id l ≤ 1
    → find p l ≡ some g
    → row_of g.id l ≡ some g
unfolding copies row find
row_of-find p [] g h found = cc
row_of-find p (x ∷ l) g h found = elim (Bool-cases (p x)) [
  | inl here ↦
      let same : x ≡ g = let e : some x ≡ some g = rw here at found in ground arith in
      let key : (x.id == g.id) ≡ true =
        let k = ap (λ r. IndexGeneration.id r) same in ground arith in
      rw key (ap some same)
  | inr later ↦
      let rest = row_of-find p l g (ground arith) (rw later at found) in
      let there = copies_of_row g.id l g rest in
      elim (Bool-cases (x.id == g.id)) [
        | inl again ↦ absurd (ground arith)
        | inr other ↦ rw other rest
      ]
]

pub find-none_count :
    (p : GenerationStatus → Bool) (l : List IndexGeneration)
    → find (λ g. p g.status) l ≡ none
    → count_status p l ≡ 0
unfolding count_status find
find-none_count p [] h = refl
find-none_count p (x ∷ l) h = elim (Bool-cases (p x.status)) [
  | inl here ↦ let e = rw here at h in cc
  | inr later ↦ rw later (omega (arith, find-none_count p l (rw later at h)))
]

pub first_none_count :
    (before : IndexGeneration → IndexGeneration → Bool) (p : GenerationStatus → Bool)
    (l : List IndexGeneration)
    → first_by before (λ g. p g.status) l ≡ none
    → count_status p l ≡ 0
unfolding count_status first_by
first_none_count before p [] h = refl
first_none_count before p (x ∷ l) h = elim (Bool-cases (p x.status)) [
  | inl here ↦
      absurd (earlier-ne-none before x (first_by before (λ g. p g.status) l) (rw here at h))
  | inr later ↦ rw later (omega (arith, first_none_count before p l (rw later at h)))
]

-- A change of a row that opens or activates nothing.
pub put-IsSingle :
    (g old : IndexGeneration) (l : List IndexGeneration)
    → IsSingle l
    → row_of g.id l ≡ some old
    → bit (is_open g.status) ≤ bit (is_open old.status)
    → bit (is_live g.status) ≤ bit (is_live old.status)
    → IsSingle (put_in g l)
put-IsSingle g old l single is_row opens lives = record {
  keys = λ i. omega (arith, copies-put i g l, single.keys i);
  one_open = omega (arith, count_put is_open g old l (single.keys g.id) is_row, single.one_open);
  one_active =
      omega (arith, count_put is_live g old l (single.keys g.id) is_row, single.one_active);
}
