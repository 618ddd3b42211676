-- ===== src/Prelude/Table.antt =====
-- A database table is the list of its rows, in the order of insertion. A row is read by its primary
-- key, a loaded row that was changed is put back under its key, and rows are updated or deleted by
-- a test.
use Prim.Native.Nat.{ℕ}
use mathlib.Core.Path.{◌≡◌, refl}
use mathlib.Core.Logic.{inl, inr}
use mathlib.Core.Bool.{Bool, true, false}
use mathlib.Core.Option.{Option, none, some}
use mathlib.Core.List.{List, [], ◌∷◌, ◌++◌}
use native.Mathlib.Omega.{arith}
use bbd_os.Prelude.Tests.{◌==◌, if◌then◌else◌, Bool-cases, is_none}
use bbd_os.Prelude.Lists.{length}

module _ {ℓ} {A : Type ℓ} where
  -- The first row that passes a test.
  unfoldable pub find : (A → Bool) → List A → Option A
  find p [] = none
  find p (r ∷ l) = if p r then some r else find p l

  unfoldable pub update_where : (A → Bool) → (A → A) → List A → List A
  update_where p f [] = []
  update_where p f (r ∷ l) = (if p r then f r else r) ∷ update_where p f l

  unfoldable pub delete_where : (A → Bool) → List A → List A
  delete_where p [] = []
  delete_where p (r ∷ l) = let rest = delete_where p l in if p r then rest else r ∷ rest

  pub find-append :
      (p : A → Bool) (l : List A) (r : A)
      → find p (l ++ r ∷ [])
        ≡ (if is_none (find p l) then (if p r then some r else none) else find p l)
  unfolding find
  find-append p [] r = refl
  find-append p (x ∷ l) r = ground (arith, find-append p l r)

  pub find-true : (p : A → Bool) (l : List A) {r : A} → find p l ≡ some r → p r ≡ true
  unfolding find
  find-true p [] h = cc
  find-true p (x ∷ l) h = elim (Bool-cases (p x)) [
    | inl yes_x ↦ ground arith
    | inr no_x ↦ find-true p l (ground arith)
  ]

  pub find-delete_where : (p : A → Bool) (l : List A) → find p (delete_where p l) ≡ none
  unfolding find delete_where
  find-delete_where p [] = refl
  find-delete_where p (r ∷ l) = ground (arith, find-delete_where p l)

  -- After an update of every row that passes `p`, no row passes a test that the update falsifies.
  pub find-update_where :
      (p q : A → Bool) (f : A → A) (l : List A)
      → ((r : A) → p r ≡ true → q (f r) ≡ false)
      → ((r : A) → p r ≡ false → q r ≡ false)
      → find q (update_where p f l) ≡ none
  unfolding find update_where
  find-update_where p q f [] h k = refl
  find-update_where p q f (r ∷ l) h k = ground (arith, find-update_where p q f l h k, h r, k r)

module _ {ℓ} {A : Type ℓ} (key : A → ℕ) where
  -- `session.get(Row, i)`
  unfoldable pub row : ℕ → List A → Option A
  row i [] = none
  row i (r ∷ l) = if key r == i then some r else row i l

  -- The flush of a loaded row `r` that the session changed.
  unfoldable pub put : A → List A → List A
  put r [] = []
  put r (x ∷ l) = (if key x == key r then r else x) ∷ put r l

  pub row-key : (i : ℕ) (l : List A) {r : A} → row i l ≡ some r → key r ≡ i
  unfolding row
  row-key i [] h = cc
  row-key i (x ∷ l) h = elim (Bool-cases (key x == i)) [
    | inl yes_x ↦ ground arith
    | inr no_x ↦ row-key i l (ground arith)
  ]

  pub row-put :
      (i : ℕ) (r : A) (l : List A)
      → row i (put r l)
        ≡ (if key r == i then (if is_none (row i l) then none else some r) else row i l)
  unfolding row put
  row-put i r [] = ground arith
  row-put i r (x ∷ l) = ground (arith, row-put i r l)

  -- A row that was loaded and put back is read back.
  pub row-put_self :
      (i : ℕ) (r x : A) (l : List A) → row i l ≡ some x → key r ≡ i → row i (put r l) ≡ some r
  row-put_self i r x l h k = ground (arith, row-put i r l)

  pub row-append :
      (i : ℕ) (l : List A) (r : A)
      → row i (l ++ r ∷ [])
        ≡ (if is_none (row i l) then (if key r == i then some r else none) else row i l)
  unfolding row
  row-append i [] r = refl
  row-append i (x ∷ l) r = ground (arith, row-append i l r)

  pub length-put : (r : A) (l : List A) → length (put r l) ≡ length l
  unfolding put
  length-put r [] = refl
  length-put r (x ∷ l) = omega (arith, length-put r l)

  pub row-update_where :
      (p : A → Bool) (f : A → A) (i : ℕ) (l : List A)
      → ((r : A) → key (f r) ≡ key r)
      → row i (update_where p f l)
        ≡ elim (row i l) [ none ↦ none | some r ↦ some (if p r then f r else r) ]
  unfolding row update_where
  row-update_where p f i [] same = refl
  row-update_where p f i (r ∷ l) same = ground (arith, row-update_where p f i l same, same r)
