-- ===== src/Paging/Walk.antt =====
-- The pages that a client reads one after the other are the rows, each of them once and in order.
use bbd_os.Prelude.{
  ℕ, zero, suc, ◌≤◌, ◌<◌, ◌≡◌, inl, inr, refl, sym, ap, ◌∙◌, arith, Option, none, some, Bool,
  Bool-cases, true, false, List, [], ◌∷◌, ◌++◌, ltb, take, drop, length, take-append-drop,
  length-take, length-append, Result, ok, err, out_of_fuel, ◌>>=◌,
}
use mathlib.Core.Path.{subst}
use bbd_os.Paging.{last, map_option, select_where, page_of, page}
use bbd_os.Paging.Order.{IsOrder, IsOrdered, select_behind}

module _ {ℓ} {A : Type ℓ} where
  pub take-take : (n : ℕ) (l : List A) → take n (take (suc n) l) ≡ take n l
  take-take zero l = refl
  take-take (suc n) [] = refl
  take-take (suc n) (x ∷ l) = ap (λ r. x ∷ r) (take-take n l)

  pub take_all : (n : ℕ) (l : List A) → length l ≤ n → take n l ≡ l
  take_all zero [] h = refl
  take_all zero (x ∷ l) h = absurd (omega arith)
  take_all (suc n) [] h = refl
  take_all (suc n) (x ∷ l) h = ap (λ r. x ∷ r) (take_all n l (omega arith))

  -- A page that is not the last has a last row, and the rows split at it.
  pub last-take :
      (n : ℕ) (l : List A)
      → suc n ≤ length l
      → (front : List A) × (x : A) × (last (take (suc n) l) ≡ some x)
        × (take (suc n) l ≡ front ++ x ∷ [])
  last-take zero (x ∷ l) h = ([], x, refl, refl)
  last-take zero [] h = absurd (omega arith)
  last-take (suc n) [] h = absurd (omega arith)
  last-take (suc n) (x ∷ []) h = absurd (omega arith)
  last-take (suc n) (x ∷ y ∷ l) h =
      let (front, z, is_last, split) = last-take n (y ∷ l) (omega arith) in
      (x ∷ front, z, is_last, ap (λ r. x ∷ r) split)

  pub append_assoc : (xs ys zs : List A) → (xs ++ ys) ++ zs ≡ xs ++ (ys ++ zs)
  append_assoc [] ys zs = refl
  append_assoc (x ∷ xs) ys zs = ap (λ r. x ∷ r) (append_assoc xs ys zs)

module _ {ℓ κ} {A : Type ℓ} {C : Type κ} (cursor_of : A → C) (n : ℕ) (ys : List A) where
  page_last : length ys ≤ suc n → page_of cursor_of (suc n) (take (suc (suc n)) ys) ≡ (ys, none)
  unfolding page_of
  page_last h =
      let short : ltb (suc n) (length (take (suc (suc n)) ys)) ≡ false =
        let e = length-take (suc (suc n)) ys in ground arith in
      rw (short, take-take (suc n) ys, take_all (suc n) ys h) refl

  page_more :
      suc n < length ys
      → page_of cursor_of (suc n) (take (suc (suc n)) ys)
        ≡ (take (suc n) ys, map_option cursor_of (last (take (suc n) ys)))
  unfolding page_of
  page_more h =
      let long : ltb (suc n) (length (take (suc (suc n)) ys)) ≡ true =
        let e = length-take (suc (suc n)) ys in ground arith in
      rw (long, take-take (suc n) ys) refl

-- A client that reads page after page, with fuel: what it has read in the end.
abbrev pub then_pages {ℓ κ} :
    {A : Type ℓ} {K : Type κ} → (K → Result (List A)) → List A × Option K → Result (List A)
then_pages more (rows, none) = ok rows
then_pages more (rows, some next) = more next >>= λ rest. ok (rows ++ rest)

unfoldable pub walk {ℓ κ} :
    {A : Type ℓ} {K : Type κ}
    → ℕ
    → (Option K → Result (List A × Option K))
    → Option K
    → Result (List A)
walk zero read cursor = err out_of_fuel
walk (suc fuel) read cursor = read cursor >>= then_pages (λ next. walk fuel read (some next))

module _ {ℓ κ λ'} {A : Type ℓ} {C : Type κ} {K : Type λ'} (cursor_of : A → C)
    (beyond : C → A → Bool) (order : IsOrder cursor_of beyond) (encode : C → K) where
  -- The page with the text of its cursor.
  abbrev pub encoded : List A × Option C → List A × Option K
  encoded p = (p.0, map_option encode p.1)

  module _ (n : ℕ) (rows : List A) (ordered : IsOrdered cursor_of beyond order rows)
      (read : Option K → Result (List A × Option K))
      (later : (before : List A) (x : A) (after : List A)
        → rows ≡ before ++ x ∷ after
        → read (some (encode (cursor_of x)))
          ≡ ok (encoded (page cursor_of beyond (suc n) (some (cursor_of x)) rows))) where
    -- The cursor of the row `x` gives the page behind it.
    reads_behind :
        (before : List A) (x : A) (after : List A)
        → rows ≡ before ++ x ∷ after
        → read (some (encode (cursor_of x)))
          ≡ ok (encoded (page_of cursor_of (suc n) (take (suc (suc n)) after)))
    unfolding page
    reads_behind before x after split =
        let rest : select_where (beyond (cursor_of x)) rows ≡ after =
          ap (select_where (beyond (cursor_of x))) split
          ∙ select_behind cursor_of beyond order x before after
              (subst (IsOrdered cursor_of beyond order) split ordered) in
        later before x after split
        ∙ ap (λ l. ok (encoded (page_of cursor_of (suc n) (take (suc (suc n)) l)))) rest

    walk_from :
        (fuel : ℕ) (cursor : Option K) (xs ys : List A)
        → rows ≡ xs ++ ys
        → length ys < fuel
        → read cursor ≡ ok (encoded (page_of cursor_of (suc n) (take (suc (suc n)) ys)))
        → walk fuel read cursor ≡ ok ys
    unfolding walk
    walk_from zero cursor xs ys split enough reads = absurd (omega arith)
    walk_from (suc fuel) cursor xs ys split enough reads =
        elim (Bool-cases (ltb (suc n) (length ys))) [
          | inr small ↦
              ap (λ r. r >>= then_pages (λ next. walk fuel read (some next)))
                (reads ∙ ap (λ p. ok (encoded p)) (page_last cursor_of n ys (ground arith)))
          | inl large ↦
              let (front, x, is_last, at_end) = last-take n ys (ground arith) in
              let remaining = drop (suc n) ys in
              let whole : ys ≡ front ++ x ∷ remaining =
                sym (take-append-drop (suc n) ys)
                ∙ ap (λ l. l ++ remaining) at_end
                ∙ append_assoc front (x ∷ []) remaining in
              let split' : rows ≡ (xs ++ front) ++ x ∷ remaining =
                split ∙ ap (λ l. xs ++ l) whole ∙ sym (append_assoc xs front (x ∷ remaining)) in
              let shorter : length remaining < fuel =
                omega (arith, ap length whole, length-append {ℓ} front (x ∷ remaining)) in
              let rest : walk fuel read (some (encode (cursor_of x))) ≡ ok remaining =
                walk_from fuel (some (encode (cursor_of x))) ((xs ++ front) ++ x ∷ []) remaining
                  (split' ∙ sym (append_assoc (xs ++ front) (x ∷ []) remaining)) shorter
                  (reads_behind (xs ++ front) x remaining split') in
              let here : read cursor ≡ ok (take (suc n) ys, some (encode (cursor_of x))) =
                reads
                ∙ ap (λ p. ok (encoded p)) (page_more cursor_of n ys (ground arith))
                ∙ ap (λ o. ok (take (suc n) ys, map_option encode (map_option cursor_of o)))
                    is_last in
              ap (λ r. r >>= then_pages (λ next. walk fuel read (some next))) here
              ∙ ap (λ r. r >>= λ more. ok (take (suc n) ys ++ more)) rest
              ∙ ap ok (take-append-drop (suc n) ys)
        ]

    -- All pages together are the rows.
    pub walk-rows :
        (fuel : ℕ)
        → length rows < fuel
        → read none ≡ ok (encoded (page cursor_of beyond (suc n) none rows))
        → walk fuel read none ≡ ok rows
    unfolding page
    walk-rows fuel enough first = walk_from fuel none [] rows refl enough first
