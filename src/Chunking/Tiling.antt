-- ===== src/Chunking/Tiling.antt =====
-- The chunks of a text cover its tokens from the first to the last.
use mathlib.Core.Path.{subst}
use native.Mathlib.Decide.{ℕ_discrete}
use bbd_os.Prelude.{
  ◌≢◌, ℕ, zero, suc, ◌+◌, ◌-◌, ◌≤◌, ◌<◌, ◌≡◌, refl, sym, min, some, List, [], ◌∷◌, arith, ltb, leb,
  ◌⊎◌, inl, inr, Bool-cases, Option-cases, Result, ok,
}
use bbd_os.Chunking.{previous, next, chunk_end, next_start, continue, spans}
use bbd_os.Chunking.Boundaries.{
  Ascending, Listed, next-cons, next_found, next_least, next_exists, previous_found,
}

-- The boundaries of `n` tokens: 0, and `rest`, which ascends to `n`.
pub record AreBoundaries (rest : List ℕ) (n : ℕ) : Type 0 where
  pub ascending : Ascending 0 rest
  pub last : Listed n (0 ∷ rest)
  pub within : (y : ℕ) → Listed y (0 ∷ rest) → y ≤ n

-- A chunk from `s` to `e`: not empty, cut at boundaries, and within the target, unless no smaller
-- cut is possible.
pub record IsSpan (bs : List ℕ) (target s e : ℕ) : Type 0 where
  pub nonempty : s < e
  pub starts : Listed s bs
  pub ends : Listed e bs
  pub fits : (e ≤ s + target) ⊎ ((y : ℕ) → Listed y bs → s < y → e ≤ y)

-- The chunks of the tokens from `s` to `n`. Each begins behind the start of the one before it and
-- at its end at the latest; if earlier, the two share `overlap` tokens at least. The last ends at `n`.
pub data Tiles (bs : List ℕ) (n target overlap : ℕ) : ℕ → List (ℕ × ℕ) → Type 0 where
  last : (s : ℕ) → IsSpan bs target s n → Tiles bs n target overlap s ((s, n) ∷ [])
  more :
      (s e t : ℕ) (rest : List (ℕ × ℕ))
      → IsSpan bs target s e
      → s < t
      → t ≤ e
      → (t ≡ e) ⊎ (t + overlap ≤ e)
      → Tiles bs n target overlap t rest
      → Tiles bs n target overlap s ((s, e) ∷ rest)

module _ (rest : List ℕ) (n target overlap : ℕ) (h : AreBoundaries rest n) where
  abbrev bs : List ℕ
  bs = 0 ∷ rest

  next_bounds : (s e : ℕ) → next bs s ≡ some e → (s < e) × Listed e bs
  next_bounds s e c =
      let (p, q) = next_found rest 0 s e h.ascending (ground (arith, next-cons 0 s rest)) in
      (p, ground arith)

  next_least_all : (s e y : ℕ) → next bs s ≡ some e → Listed y bs → s < y → e ≤ y
  next_least_all s e y c m lt =
      next_least rest 0 s e y h.ascending (ground (arith, next-cons 0 s rest)) (ground arith) lt

  next-IsSpan : (s e : ℕ) → Listed s bs → next bs s ≡ some e → IsSpan bs target s e
  next-IsSpan s e m c = record {
    nonempty = (next_bounds s e c).0;
    starts = m;
    ends = (next_bounds s e c).1;
    fits = inr (λ y my lt. next_least_all s e y c my lt);
  }

  -- A chunk that begins before the end has an end.
  chunk_end_total : (s desired : ℕ) → s < n → (e : ℕ) × (chunk_end bs s desired ≡ some e)
  unfolding chunk_end
  chunk_end_total s desired lt = elim (Option-cases (next bs s)) [
    | inl missing ↦ absurd (next_exists bs s n h.last lt missing)
    | inr (e, found) ↦ elim (Option-cases (previous bs desired)) [
      | inl no_previous ↦ (e, rw (no_previous, chunk_end) found)
      | inr (b, at_b) ↦ elim (Bool-cases (ltb s b)) [
        | inl later ↦ (b, rw (at_b, chunk_end) (rw later))
        | inr earlier ↦ (e, rw (at_b, chunk_end) (rw earlier found))
      ]
    ]
  ]

  chunk_end-IsSpan :
      (s e : ℕ) → Listed s bs → chunk_end bs s (min (s + target) n) ≡ some e → IsSpan bs target s e
  unfolding chunk_end
  chunk_end-IsSpan s e m c = elim (Option-cases (previous bs (min (s + target) n))) [
    | inl no_previous ↦ next-IsSpan s e m (rw (no_previous, chunk_end) at c)
    | inr (b, at_b) ↦ elim (Bool-cases (ltb s b)) [
      | inl later ↦
          let (p, q) = previous_found bs _ b at_b in
          let same : b ≡ e = ground arith in
          record {
            nonempty = ground arith;
            starts = m;
            ends = subst (λ x. Listed x bs) same q;
            fits = inl (ground arith);
          }
      | inr earlier ↦ next-IsSpan s e m (ground arith)
    ]
  ]

  -- Where the chunk behind one from `s` to `e` may begin.
  abbrev Follows : ℕ → ℕ → ℕ → Type 0
  Follows s e t = (s < t) × (t ≤ e) × Listed t bs × ((t ≡ e) ⊎ (t + overlap ≤ e))

  next_start-Follows : (s e : ℕ) → Listed e bs → s < e → Follows s e (next_start bs overlap s e)
  unfolding next_start
  next_start-Follows s e m lt = elim (Option-cases (previous bs (e - overlap))) [
    | inl no_previous ↦
        subst (Follows s e) (sym (rw (no_previous, next_start))) (lt, omega arith, m, inl refl)
    | inr (b, at_b) ↦
        let (p, q) = previous_found bs _ b at_b in
        elim (Bool-cases (leb (s + 1) b)) [
          | inl later ↦
              subst (Follows s e) (sym (rw (at_b, next_start) (rw later)))
                (ground arith, omega arith, q, inr (ground arith))
          | inr earlier ↦
              subst (Follows s e) (sym (rw (at_b, next_start) (rw earlier)))
                (lt, omega arith, m, inl refl)
        ]
  ]

  spans-step :
      (fuel s e : ℕ)
      → s < n
      → chunk_end bs s (min (s + target) n) ≡ some e
      → spans bs n target overlap (suc fuel) s
        ≡ continue n s e (spans bs n target overlap fuel (next_start bs overlap s e))
  unfolding spans
  spans-step fuel s e lt found = rw (found, spans) (ground arith)

  -- What `spans` returns from `s` on.
  abbrev pub Returned : ℕ → Result (List (ℕ × ℕ)) → Type 0
  Returned s r = (l : List (ℕ × ℕ)) × (r ≡ ok l) × Tiles bs n target overlap s l

  continue-last :
      (s e : ℕ) (r : Result (List (ℕ × ℕ)))
      → e ≡ n
      → IsSpan bs target s e
      → Returned s (continue n s e r)
  unfolding continue
  continue-last s e r same span =
      ((s, n) ∷ [], ground arith, last s (subst (IsSpan bs target s) same span))

  continue-more :
      (s e t : ℕ) (r : Result (List (ℕ × ℕ)))
      → e ≢ n
      → IsSpan bs target s e
      → Follows s e t
      → Returned t r
      → Returned s (continue n s e r)
  unfolding continue
  continue-more s e t r other span (p, q, k, shared) (l, returned, tiles) =
      ((s, e) ∷ l, ground arith, more s e t l span p q shared tiles)

  pub spans-Tiles :
      (fuel s : ℕ)
      → Listed s bs
      → s < n
      → n ≤ s + fuel
      → Returned s (spans bs n target overlap fuel s)
  spans-Tiles zero s m lt enough = absurd (omega arith)
  spans-Tiles (suc fuel) s m lt enough =
      let (e, found) = chunk_end_total s (min (s + target) n) lt in
      let span = chunk_end-IsSpan s e m found in
      let t = next_start bs overlap s e in
      let follows = next_start-Follows s e span.ends span.nonempty in
      let bound = h.within e span.ends in
      subst (Returned s) (sym (spans-step fuel s e lt found)) (elim (ℕ_discrete e n) [
        | yes same ↦ continue-last s e (spans bs n target overlap fuel t) same span
        | no other ↦
            continue-more s e t (spans bs n target overlap fuel t) other span follows
              (spans-Tiles fuel t follows.2 (omega arith) (omega arith))
      ])
