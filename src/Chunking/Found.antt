-- ===== src/Chunking/Found.antt =====
-- The boundaries that the incremental decoder reports, and why each chunk decodes.
use mathlib.Core.Path.{subst}
use bbd_os.Prelude.{
  ◌≢◌, ℕ, suc, ◌+◌, ◌-◌, ◌≤◌, ◌≡◌, refl, sym, ap, ◌∙◌, none, some, true, false, List, [], ◌∷◌, ◌++◌,
  arith, ◌==◌, ◌⊎◌, inl, inr, Bool-cases, Option-cases, ok, length, take,
}
use bbd_os.Chunking.{boundaries_from, find_boundaries, concat}
use bbd_os.Chunking.Utf8.{Utf8State, clean, is_clean, feed, decode}
use bbd_os.Chunking.Boundaries.{Ascending, Listed, Listed-above}
use bbd_os.Chunking.Tiling.{AreBoundaries}

pub decode-append :
    (s : Utf8State) (xs ys : List ℕ) (t : Utf8State)
    → decode s xs ≡ some t
    → decode s (xs ++ ys) ≡ decode t ys
unfolding decode
decode-append s [] ys t h = ground arith
decode-append s (x ∷ xs) ys t h = elim (Option-cases (feed s x)) [
  | inl refused ↦ ground arith
  | inr (u, fed) ↦ rw (fed, decode) (decode-append u xs ys t (rw (fed, decode) at h))
]

decode-prefix : (s : Utf8State) (xs ys : List ℕ) → decode s xs ≡ none → decode s (xs ++ ys) ≡ none
unfolding decode
decode-prefix s [] ys h = cc
decode-prefix s (x ∷ xs) ys h = elim (Option-cases (feed s x)) [
  | inl refused ↦ rw (refused, decode)
  | inr (u, fed) ↦ rw (fed, decode) (decode-prefix u xs ys (rw (fed, decode) at h))
]

feed-clean : (s t : Utf8State) (x : ℕ) → feed s x ≡ some t → is_clean t ≡ true → t ≡ clean
unfolding feed
feed-clean s t x h c = ground arith

decode-clean :
    (s t : Utf8State) (xs : List ℕ)
    → decode s xs ≡ some t
    → is_clean t ≡ true
    → (s ≡ t) ⊎ (t ≡ clean)
unfolding decode
decode-clean s t [] h c = inl (ground arith)
decode-clean s t (x ∷ xs) h c = elim (Option-cases (feed s x)) [
  | inl refused ↦ ground arith
  | inr (u, fed) ↦ elim (decode-clean u t xs (rw (fed, decode) at h) c) [
    | inl same ↦ inr (feed-clean s t x (ground arith) c)
    | inr done ↦ inr done
  ]
]

-- The bytes are complete UTF-8.
pub record IsUtf8 (bytes : List ℕ) : Type 0 where
  pub complete : decode clean bytes ≡ some clean

decode_clean_complete :
    (t : Utf8State) (xs : List ℕ) → decode clean xs ≡ some t → is_clean t ≡ true → IsUtf8 xs
decode_clean_complete t xs h c = elim (decode-clean clean t xs h c) [
  | inl same ↦ record { complete = ground arith }
  | inr done ↦ record { complete = ground arith }
]

-- A state that holds no partial character is the initial one.
abbrev IsRegular : Utf8State → Type 0
IsRegular s = is_clean s ≡ true → s ≡ clean

regular : (s t : Utf8State) (xs : List ℕ) → IsRegular s → decode s xs ≡ some t → IsRegular t
regular s t xs r h c = elim (decode-clean s t xs h c) [
  | inl same ↦ ground (arith, r)
  | inr done ↦ done
]

-- The boundaries behind position `k`, where the decoder is in state `s` and the tokens lead it to `t`.
record Found (k : ℕ) (s : Utf8State) (tokens : List (List ℕ)) (t : Utf8State) (rest : List ℕ)
    : Type 0 where
  ascending : Ascending k rest
  within : (y : ℕ) → Listed y rest → y ≤ k + length tokens
  cut : (y : ℕ) → Listed y rest → decode s (concat (take (y - k) tokens)) ≡ some clean
  last : is_clean t ≡ true → tokens ≢ [] → Listed (k + length tokens) rest

Ascending-weaken : (k : ℕ) (rest : List ℕ) → Ascending (k + 1) rest → Ascending k rest
Ascending-weaken k [] a = tt
Ascending-weaken k (b ∷ bs) a = (omega (arith, a.0), a.1)

-- Position `k + n + 1`, reached by one token and `n` more.
shift : (k n : ℕ) (rest : List ℕ) → Listed (k + 1 + n) rest → Listed (k + suc n) rest
shift k n rest m =
    subst (λ (y : ℕ). Listed y rest) (let e : k + 1 + n ≡ k + suc n = omega arith in e) m

last_later :
    (k : ℕ) (u t : Utf8State) (tokens : List (List ℕ)) (rest : List ℕ)
    → Found (k + 1) u tokens t rest
    → (tokens ≡ [] → t ≡ u)
    → is_clean t ≡ true
    → ((tokens ≡ []) × (is_clean u ≡ true)) ⊎ Listed (k + suc (length tokens)) rest
last_later k u t [] rest found ends c = inl (refl, ground (arith, ends refl))
last_later k u t (x ∷ xs) rest found ends c =
    inr (shift k (length (x ∷ xs)) rest (found.last c (λ e. cc)))

module _ (k : ℕ) (s u t : Utf8State) (token : List ℕ) (tokens : List (List ℕ)) (rest : List ℕ)
    (first : decode s token ≡ some u) (found : Found (k + 1) u tokens t rest) where
  cut_later :
      (y : ℕ) → Listed y rest → decode s (concat (take (y - k) (token ∷ tokens))) ≡ some clean
  cut_later y m =
      let above = Listed-above (k + 1) y rest found.ascending m in
      let e : y - k ≡ suc (y - (k + 1)) = omega arith in
      subst (λ (j : ℕ). decode s (concat (take j (token ∷ tokens))) ≡ some clean) (sym e)
        (decode-append s token _ u first ∙ found.cut y m)

  cut_here :
      u ≡ clean
      → (y : ℕ) → k + 1 ≡ y
      → decode s (concat (take (y - k) (token ∷ tokens))) ≡ some clean
  unfolding decode
  cut_here tidy y here =
      let e : y - k ≡ 1 = omega arith in
      subst (λ (j : ℕ). decode s (concat (take j (token ∷ tokens))) ≡ some clean) (sym e)
        (decode-append s token [] u first ∙ ap some tidy)

  module _ (ends : tokens ≡ [] → t ≡ u) where
    Found-skip : is_clean u ≡ false → Found k s (token ∷ tokens) t rest
    Found-skip dirty = record {
      ascending = Ascending-weaken k rest found.ascending;
      within = λ y m. omega (arith, found.within y m);
      cut = cut_later;
      last = λ c _. elim (last_later k u t tokens rest found ends c) [
        | inl (_, tidy) ↦ ground arith
        | inr m ↦ m
      ];
    }

    Found-keep : u ≡ clean → Found k s (token ∷ tokens) t ((k + 1) ∷ rest)
    Found-keep tidy = record {
      ascending = (omega arith, found.ascending);
      within = λ y m. elim (Bool-cases (k + 1 == y)) [
        | inl here ↦ ground arith
        | inr later ↦ omega (arith, found.within y (ground arith))
      ];
      cut = λ y m. elim (Bool-cases (k + 1 == y)) [
        | inl here ↦ cut_here tidy y (ground arith)
        | inr later ↦ cut_later y (ground arith)
      ];
      last = λ c _. elim (last_later k u t tokens rest found ends c) [
        | inl (none_left, _) ↦ ground (arith, ap (λ (l : List (List ℕ)). length l) none_left)
        | inr m ↦ ground arith
      ];
    }

ends_of :
    (u t : Utf8State) (tokens : List (List ℕ))
    → decode u (concat tokens) ≡ some t
    → tokens ≡ []
    → t ≡ u
unfolding decode
ends_of u t [] h e = ground arith
ends_of u t (x ∷ xs) h e = cc

boundaries_from-Found :
    (k : ℕ) (s t : Utf8State) (tokens : List (List ℕ))
    → IsRegular s
    → decode s (concat tokens) ≡ some t
    → (rest : List ℕ) × (boundaries_from (k + 1) s tokens ≡ ok rest) × Found k s tokens t rest
unfolding boundaries_from
boundaries_from-Found k s t [] r h = (
  [],
  refl,
  record { ascending = tt; within = λ y m. cc; cut = λ y m. cc; last = λ c n. absurd (n refl) },
)
boundaries_from-Found k s t (token ∷ tokens) r h = elim (Option-cases (decode s token)) [
  | inl refused ↦ absurd (ground (arith, decode-prefix s token (concat tokens)))
  | inr (u, first) ↦
      let onward = sym (decode-append s token (concat tokens) u first) ∙ h in
      let (rest, returned, found) =
        boundaries_from-Found (k + 1) u t tokens (regular s u token r first) onward in
      let ends = ends_of u t tokens onward in
      elim (Bool-cases (is_clean u)) [
        | inl tidy ↦ (
          (k + 1) ∷ rest,
          rw first (rw returned (rw tidy)),
          Found-keep k s u t token tokens rest first found ends (regular s u token r first tidy),
        )
        | inr dirty ↦ (
          rest,
          rw first (rw returned (rw dirty)),
          Found-skip k s u t token tokens rest first found ends dirty,
        )
      ]
]

-- For tokens that make up complete UTF-8 the search succeeds; the text is cut between characters at
-- each boundary.
pub find_boundaries-AreBoundaries :
    (tokens : List (List ℕ))
    → tokens ≢ []
    → IsUtf8 (concat tokens)
    → (rest : List ℕ) × (find_boundaries tokens ≡ ok (0 ∷ rest))
      × AreBoundaries rest (length tokens)
      × ((y : ℕ) → Listed y (0 ∷ rest) → IsUtf8 (concat (take y tokens)))
unfolding find_boundaries decode
find_boundaries-AreBoundaries tokens some_token whole =
    let (rest, returned, found) =
      boundaries_from-Found 0 clean clean tokens (λ _. refl) whole.complete in
    (
      rest,
      rw returned,
      record {
        ascending = found.ascending;
        last = ground (arith, found.last refl some_token);
        within = λ y m. ground (arith, found.within y);
      },
      λ y m. elim (Bool-cases (0 == y)) [
        | inl start ↦
            subst (λ (j : ℕ). IsUtf8 (concat (take j tokens))) (let e : 0 ≡ y = ground arith in e)
              (record { complete = refl })
        | inr later ↦
            subst (λ (j : ℕ). IsUtf8 (concat (take j tokens)))
              (let e : y - 0 ≡ y = omega arith in e)
              (record { complete = found.cut y (ground arith) })
      ],
    )
