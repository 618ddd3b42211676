-- ===== src/Paging/Order.antt =====
-- Rows in the order of their cursors.
use bbd_os.Prelude.{
  suc, length, arith, ◌≡◌, ◌⊎◌, inl, inr, refl, ap, Bool, Bool-cases, true, false, List, [], ◌∷◌,
  ◌++◌, All, All-mono,
}
use bbd_os.Paging.{insert, sort, select_where}

-- The test by which a cursor is compared orders the rows.
pub record IsOrder {ℓ κ} {A : Type ℓ} {C : Type κ} (cursor_of : A → C) (beyond : C → A → Bool)
    : Type ℓ where
  pub irrefl : (x : A) → beyond (cursor_of x) x ≡ false
  pub trans :
      (x y z : A)
      → beyond (cursor_of x) y ≡ true
      → beyond (cursor_of y) z ≡ true
      → beyond (cursor_of x) z ≡ true

module _ {ℓ κ} {A : Type ℓ} {C : Type κ} (cursor_of : A → C) (beyond : C → A → Bool)
    (order : IsOrder cursor_of beyond) where
  abbrev pub Follows : A → A → Type 0
  Follows x y = beyond (cursor_of x) y ≡ true

  -- Each row is followed by all rows behind it.
  abbrev pub IsOrdered : List A → Type ℓ
  IsOrdered [] = Unit
  IsOrdered (x ∷ l) = All (Follows x) l × IsOrdered l

  -- Any two rows can be told apart by their cursors.
  abbrev pub IsDistinct : List A → Type ℓ
  IsDistinct [] = Unit
  IsDistinct (x ∷ l) = All (λ y. Follows x y ⊎ Follows y x) l × IsDistinct l

  pub asym : (x y : A) → Follows x y → beyond (cursor_of y) x ≡ false
  asym x y h = elim (Bool-cases (beyond (cursor_of y) x)) [
    | inl back ↦ let e = order.trans x y x h back in let n = order.irrefl x in cc
    | inr fine ↦ fine
  ]

  All-insert :
      (P : A → Type 0) (x : A) (l : List A) → P x → All P l → All P (insert cursor_of beyond x l)
  unfolding insert
  All-insert P x [] px h = (px, tt)
  All-insert P x (y ∷ l) px h = elim (Bool-cases (beyond (cursor_of x) y)) [
    | inl before ↦ rw before (px, h)
    | inr later ↦ rw later (h.0, All-insert P x l px h.1)
  ]

  pub insert-IsOrdered :
      (x : A) (l : List A)
      → All (λ y. Follows x y ⊎ Follows y x) l
      → IsOrdered l
      → IsOrdered (insert cursor_of beyond x l)
  unfolding insert
  insert-IsOrdered x [] apart ordered = (tt, tt)
  insert-IsOrdered x (y ∷ l) (here, apart) (all_behind, ordered) =
      elim (Bool-cases (beyond (cursor_of x) y)) [
        | inl before ↦ rw before (
          (before, All-mono (λ z h. order.trans x y z before h) l all_behind),
          (all_behind, ordered),
        )
        | inr later ↦
            let back : Follows y x = elim here [ inl wrong ↦ cc | inr h ↦ h ] in
            rw later
              (All-insert (Follows y) x l back all_behind, insert-IsOrdered x l apart ordered)
      ]

  All-sort : (P : A → Type 0) (l : List A) → All P l → All P (sort cursor_of beyond l)
  unfolding sort
  All-sort P [] h = tt
  All-sort P (x ∷ l) h = All-insert P x (sort cursor_of beyond l) h.0 (All-sort P l h.1)

  pub sort-IsOrdered : (l : List A) → IsDistinct l → IsOrdered (sort cursor_of beyond l)
  unfolding sort
  sort-IsOrdered [] h = tt
  sort-IsOrdered (x ∷ l) (apart, h) =
      insert-IsOrdered x (sort cursor_of beyond l)
        (All-sort (λ y. Follows x y ⊎ Follows y x) l apart) (sort-IsOrdered l h)

  -- The rows behind the cursor of a row are those that follow it.
  pub select_behind :
      (x : A) (before after : List A)
      → IsOrdered (before ++ x ∷ after)
      → select_where (beyond (cursor_of x)) (before ++ x ∷ after) ≡ after
  unfolding select_where
  select_behind x [] after (follow, ordered) = rw (order.irrefl x) (all_selected after follow)
    where
      all_selected : (l : List A) → All (Follows x) l → select_where (beyond (cursor_of x)) l ≡ l
      all_selected [] h = refl
      all_selected (y ∷ l) h = rw (h.0) (ap (λ r. y ∷ r) (all_selected l h.1))
  select_behind x (y ∷ before) after (follow, ordered) =
      rw (asym y x (middle before follow)) (select_behind x before after ordered)
    where
      middle : (l : List A) → All (Follows y) (l ++ x ∷ after) → Follows y x
      middle [] h = h.0
      middle (z ∷ l) h = middle l h.1

module _ {ℓ κ} {A : Type ℓ} {C : Type κ} (cursor_of : A → C) (beyond : C → A → Bool) where
  length-insert : (x : A) (l : List A) → length (insert cursor_of beyond x l) ≡ suc (length l)
  unfolding insert
  length-insert x [] = refl
  length-insert x (y ∷ l) = elim (Bool-cases (beyond (cursor_of x) y)) [
    | inl first ↦ rw first refl
    | inr later ↦ rw later (omega (arith, length-insert x l))
  ]

  -- Sorting keeps the number of rows.
  pub length-sort : (l : List A) → length (sort cursor_of beyond l) ≡ length l
  unfolding sort
  length-sort [] = refl
  length-sort (x ∷ l) = omega (arith, length-insert x (sort cursor_of beyond l), length-sort l)
