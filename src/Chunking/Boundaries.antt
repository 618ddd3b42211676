-- ===== src/Chunking/Boundaries.antt =====
-- The positions that the two searches find among ascending boundaries.
use mathlib.Core.Path.{subst}
use bbd_os.Prelude.{
  ◌≢◌, sym, ℕ, ◌≤◌, ◌<◌, ◌≡◌, refl, none, some, Bool, true, false, List, [], ◌∷◌, arith, leb, ◌==◌,
  ◌||◌, if◌then◌else◌, inl, inr, Bool-cases,
}
use bbd_os.Chunking.{get_elem?, bisect_right, previous, next}

-- The list ascends from above `low`.
abbrev pub Ascending : ℕ → List ℕ → Type 0
Ascending low [] = Unit
Ascending low (b ∷ bs) = (low < b) × Ascending b bs

abbrev pub listed : ℕ → List ℕ → Bool
listed x [] = false
listed x (b ∷ bs) = b == x || listed x bs

abbrev pub Listed : ℕ → List ℕ → Type 0
Listed x bs = listed x bs ≡ true

pub next-cons : (b x : ℕ) (bs : List ℕ) → next (b ∷ bs) x ≡ (if leb b x then next bs x else some b)
unfolding next bisect_right
next-cons b x bs = ground arith

-- `next` finds the least boundary above `x`.
pub next_found :
    (bs : List ℕ) (low x e : ℕ) → Ascending low bs → next bs x ≡ some e → (x < e) × Listed e bs
unfolding next bisect_right
next_found [] low x e a h = cc
next_found (b ∷ bs) low x e a h = elim (Bool-cases (leb b x)) [
  | inl small ↦
      let (p, q) = next_found bs b x e a.1 (ground (arith, next-cons b x bs)) in (p, ground arith)
  | inr large ↦ ground (arith, next-cons b x bs)
]

pub Listed-above : (low y : ℕ) (bs : List ℕ) → Ascending low bs → Listed y bs → low < y
Listed-above low y [] a m = cc
Listed-above low y (b ∷ bs) a m = elim (Bool-cases (b == y)) [
  | inl here ↦ ground arith
  | inr there ↦ omega (arith, Listed-above b y bs a.1 (ground arith), a.0)
]

pub next_least :
    (bs : List ℕ) (low x e y : ℕ)
    → Ascending low bs
    → next bs x ≡ some e
    → Listed y bs
    → x < y
    → e ≤ y
unfolding next bisect_right
next_least [] low x e y a h m lt = cc
next_least (b ∷ bs) low x e y a h m lt = elim (Bool-cases (leb b x)) [
  | inl small ↦ next_least bs b x e y a.1 (ground (arith, next-cons b x bs)) (ground arith) lt
  | inr large ↦ elim (Bool-cases (b == y)) [
    | inl here ↦ ground (arith, next-cons b x bs)
    | inr there ↦ ground (arith, next-cons b x bs, Listed-above b y bs a.1 (ground arith))
  ]
]

pub next_exists : (bs : List ℕ) (x y : ℕ) → Listed y bs → x < y → next bs x ≢ none
next_exists [] x y m lt h = cc
next_exists (b ∷ bs) x y m lt h = elim (Bool-cases (leb b x)) [
  | inl small ↦ next_exists bs x y (ground arith) lt (ground (arith, next-cons b x bs))
  | inr large ↦ ground (arith, next-cons b x bs)
]

-- The last boundary at most `x`, of `b` and the ascending boundaries that follow it.
last_at_most : ℕ → ℕ → List ℕ → ℕ
last_at_most x b [] = b
last_at_most x b (c ∷ cs) = let later = last_at_most x c cs in if leb c x then later else b

get_elem?-bisect_right :
    (x b : ℕ) (bs : List ℕ) → get_elem? (b ∷ bs) (bisect_right bs x) ≡ some (last_at_most x b bs)
unfolding bisect_right last_at_most
get_elem?-bisect_right x b [] = refl
get_elem?-bisect_right x b (c ∷ cs) = elim (Bool-cases (leb c x)) [
  | inl small ↦ rw (small, bisect_right, last_at_most) (get_elem?-bisect_right x c cs)
  | inr large ↦ rw (large, bisect_right, last_at_most)
]

previous-cons :
    (x b : ℕ) (bs : List ℕ)
    → previous (b ∷ bs) x ≡ (if leb b x then some (last_at_most x b bs) else none)
unfolding previous bisect_right
previous-cons x b bs = ground (arith, get_elem?-bisect_right x b bs)

last_at_most_step :
    (x b c : ℕ) (cs : List ℕ) → leb c x ≡ true → last_at_most x b (c ∷ cs) ≡ last_at_most x c cs
unfolding last_at_most
last_at_most_step x b c cs small = rw (small, last_at_most)

last_at_most_found :
    (x b : ℕ) (bs : List ℕ)
    → b ≤ x
    → (last_at_most x b bs ≤ x) × Listed (last_at_most x b bs) (b ∷ bs)
unfolding last_at_most
last_at_most_found x b [] h = ground arith
last_at_most_found x b (c ∷ cs) h = elim (Bool-cases (leb c x)) [
  | inl small ↦
      let (p, q) = last_at_most_found x c cs (ground arith) in
      subst (λ m. (m ≤ x) × Listed m (b ∷ c ∷ cs)) (sym (last_at_most_step x b c cs small))
        (p, ground arith)
  | inr large ↦ rw (large, last_at_most) (h, ground arith)
]

pub previous_found : (bs : List ℕ) (x b : ℕ) → previous bs x ≡ some b → (b ≤ x) × Listed b bs
unfolding previous bisect_right
previous_found [] x b h = cc
previous_found (c ∷ cs) x b h = elim (Bool-cases (leb c x)) [
  | inl small ↦ ground (arith, previous-cons x c cs, last_at_most_found x c cs)
  | inr large ↦ ground (arith, previous-cons x c cs)
]
