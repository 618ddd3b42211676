-- ===== src/Search/Indexing/Activation.antt =====
-- A generation becomes active only when its index is complete.
use mathlib.Core.Path.{subst}
use bbd_os.Prelude.{
  ℕ, ◌≡◌, ◌≢◌, refl, sym, ap, ◌∙◌, arith, Option, none, some, Bool, Bool-cases, inl, inr, true,
  false, List, [], ◌∷◌, ◌&&◌, ◌||◌, not, ◌==◌, any, find, find-true, delete_where, row, row-key,
  row-put_self, Option-cases, is_none, ltb, Result, ok, err, ok-injective,
}
use bbd_os.Database.{Db, DocumentChunk}
use bbd_os.Search.{
  GenerationStatus, ItemStatus, IndexGeneration, IndexItem, SearchDb, get_generation, get_chunk,
  put_generation, is_eligible, joined, Joined, first_by, earlier, item_of, is_open, is_live,
  is_running, is_succeeded,
}
use bbd_os.Search.Indexing.{
  wants_item, next_chunk, eligible_chunk, drop_stale, retire_prior, is_indexable,
  activate_generation, failed_generation, conclude, Work, started, started_status, concluded,
  work_on, pick_next, pick_found, pick,
}

pub earlier-ne-none {ℓ} :
    {A : Type ℓ} (before : A → A → Bool) (x : A) (o : Option A) → earlier before x o ≢ none
earlier-ne-none before x none h = cc
earlier-ne-none before x (some y) h = ground arith

-- No row was selected: a row that is stored does not pass the test.
first_by-none :
    (before : DocumentChunk → DocumentChunk → Bool) (p : DocumentChunk → Bool)
    (l : List DocumentChunk)
    → first_by before p l ≡ none
    → (k : ℕ) (c : DocumentChunk) → row (λ r. DocumentChunk.id r) k l ≡ some c
    → p c ≡ false
unfolding first_by row
first_by-none before p [] h k c is_row = cc
first_by-none before p (x ∷ l) h k c is_row = elim (Bool-cases (p x)) [
  | inl passes ↦ absurd (earlier-ne-none before x (first_by before p l) (rw passes at h))
  | inr fails ↦ elim (Bool-cases (x.id == k)) [
    | inl here ↦
        let same : x ≡ c = let e : some x ≡ some c = rw here at is_row in ground arith in
        ap p (sym same) ∙ fails
    | inr later ↦ first_by-none before p l (rw fails at h) k c (rw later at is_row)
  ]
]

find-delete_where_keep {ℓ} :
    {A : Type ℓ} (p q : A → Bool) (l : List A) (r : A)
    → find p l ≡ some r
    → q r ≡ false
    → find p (delete_where q l) ≡ some r
unfolding find delete_where
find-delete_where_keep p q [] r h kept = h
find-delete_where_keep p q (x ∷ l) r h kept = elim (Bool-cases (p x)) [
  | inl here ↦
      let same : x ≡ r = let e : some x ≡ some r = rw here at h in ground arith in
      let stays : q x ≡ false = ap q same ∙ kept in rw (stays, here) (ap some same)
  | inr later ↦
      let found = find-delete_where_keep p q l r (rw later at h) kept in
      elim (Bool-cases (q x)) [ inl gone ↦ rw gone found | inr stays ↦ rw (stays, later) found ]
]

any-false {ℓ} :
    {A : Type ℓ} (p q : A → Bool) (l : List A) (r : A)
    → any q l ≡ false
    → find p l ≡ some r
    → q r ≡ false
unfolding find
any-false p q [] r none_passes h = cc
any-false p q (x ∷ l) r none_passes h = elim (Bool-cases (p x)) [
  | inl here ↦
      let same : x ≡ r = let e : some x ≡ some r = rw here at h in ground arith in
      ap q (sym same) ∙ ground arith
  | inr later ↦ any-false p q l r (ground arith) (rw later at h)
]

-- Every chunk that may be indexed has an item that succeeded.
abbrev pub IsCompleteIn : ℕ → Db → List IndexItem → Type 0
IsCompleteIn generation_id db items =
    (k : ℕ) (c : DocumentChunk)
    → get_chunk db k ≡ some c
    → is_eligible db c ≡ true
    → (i : IndexItem) × (item_of generation_id c.id items ≡ some i)
      × (i.status ≡ ItemStatus.succeeded)

abbrev pub IsIndexComplete : SearchDb → ℕ → Type 0
IsIndexComplete s generation_id = IsCompleteIn generation_id s.db s.items

is_succeeded_iff :
    (status : ItemStatus) → is_succeeded status ≡ true → status ≡ ItemStatus.succeeded
is_succeeded_iff ItemStatus.succeeded h = refl
is_succeeded_iff ItemStatus.pending h = cc
is_succeeded_iff ItemStatus.failed h = cc

wanted : (o : Option IndexItem) → wants_item o ≡ false → (i : IndexItem) × (o ≡ some i)
wanted none h = cc
wanted (some i) h = (i, refl)

module _ (s : SearchDb) (gid : ℕ) where
  -- The test by which the item of a chunk is found.
  abbrev of_chunk : ℕ → IndexItem → Bool
  of_chunk k i = i.generation_id == gid && i.chunk_id == k

  abbrev is_unfinished : IndexItem → Bool
  is_unfinished i = i.generation_id == gid && not (is_succeeded i.status)

  abbrev is_stale : IndexItem → Bool
  is_stale i = is_unfinished i && not (eligible_chunk s.db (get_chunk s.db i.chunk_id))

  dropped_complete :
      next_chunk s gid ≡ none
      → any is_unfinished (delete_where is_stale s.items) ≡ false
      → IsIndexComplete (drop_stale gid s) gid
  unfolding next_chunk drop_stale item_of
  dropped_complete nothing finished k c is_row eligible =
      let passed_by =
        first_by-none (λ a b. ltb a.id b.id)
          (λ d. is_eligible s.db d && wants_item (find (of_chunk d.id) s.items)) s.db.chunks nothing
          k c is_row in
      let (i, found) = wanted (find (of_chunk c.id) s.items) (ground arith) in
      let own = find-true (of_chunk c.id) s.items found in
      let here : i.chunk_id ≡ k =
        ground (arith, row-key (λ r. DocumentChunk.id r) k s.db.chunks is_row) in
      let chunk_there : eligible_chunk s.db (get_chunk s.db i.chunk_id) ≡ true =
        subst (λ j. eligible_chunk s.db (get_chunk s.db j) ≡ true) (sym here)
          (rw is_row eligible) in
      let stays = find-delete_where_keep (of_chunk c.id) is_stale s.items i found (ground arith) in
      let ended =
        any-false (of_chunk c.id) is_unfinished (delete_where is_stale s.items) i finished stays in
      (i, stays, is_succeeded_iff i.status (ground arith))

-- Where the generation is active afterwards, all its items had succeeded, and the items stay.
abbrev Finished : SearchDb → IndexGeneration → SearchDb → Type 0
Finished s g s' =
    (any (λ i. i.generation_id == g.id && not (is_succeeded i.status)) s.items ≡ false)
    × (s'.items ≡ s.items)
    × (s'.db ≡ s.db)

put_not_active :
    (s : SearchDb) (g g' x : IndexGeneration)
    → get_generation s g.id ≡ some x
    → get_generation (put_generation g s) g.id ≡ some g'
    → is_live g.status ≡ false
    → g'.status ≢ GenerationStatus.active
put_not_active s g g' x is_row read dead active =
    let own = row-put_self (λ r. IndexGeneration.id r) g.id g x s.generations is_row refl in
    let same : g ≡ g' = let e : some g ≡ some g' = sym own ∙ read in ground arith in
    let live : is_live g.status ≡ true =
      ap (λ r. is_live (IndexGeneration.status r)) same ∙ ap is_live active in
    cc

pub retire_prior_keeps :
    (s : SearchDb) (o : Option IndexGeneration)
    → ((retire_prior s o).items ≡ s.items) × ((retire_prior s o).db ≡ s.db)
retire_prior_keeps s none = (refl, refl)
retire_prior_keeps s (some prior) = (refl, refl)

conclude_active :
    (s s' : SearchDb) (g g' x : IndexGeneration)
    → conclude s g ≡ ok s'
    → get_generation s g.id ≡ some x
    → get_generation s' g.id ≡ some g'
    → g'.status ≡ GenerationStatus.active
    → Finished s g s'
unfolding conclude activate_generation
conclude_active s s' g g' x is_ok is_row read active =
    elim (Bool-cases (any (λ i. i.generation_id == g.id && not (is_succeeded i.status)) s.items)) [
      | inl unfinished ↦
          let made = ok-injective (rw unfinished at is_ok) in
          absurd (
            put_not_active s (failed_generation "item_failed" g) g' x is_row
              (ap (λ t. get_generation t g.id) made ∙ read) refl active)
      | inr finished ↦ elim (Bool-cases (is_none g.dimensions)) [
        | inl no_chunk ↦
            let made = ok-injective (rw (finished, no_chunk) at is_ok) in
            absurd (
              put_not_active s (failed_generation "no_indexable_chunks" g) g' x is_row
                (ap (λ t. get_generation t g.id) made ∙ read) refl active)
        | inr has_chunk ↦ elim (Bool-cases (is_indexable g.dimensions)) [
          | inr bad ↦ let e = rw (finished, has_chunk, bad) at is_ok in cc
          | inl good ↦
              let made = ok-injective (rw (finished, has_chunk, good) at is_ok) in
              let (items, db) = retire_prior_keeps s (find (λ p. is_live p.status) s.generations) in
              (
                finished,
                ap (λ t. SearchDb.items t) (sym made) ∙ items,
                ap (λ t. SearchDb.db t) (sym made) ∙ db,
              )
        ]
      ]
    ]

pub work_on_generations :
    (s s' : SearchDb) (id : ℕ) (g : IndexGeneration) (c : DocumentChunk) (j : Option Joined)
    (w : Option Work)
    → work_on s id g c j ≡ ok (w, s')
    → s'.generations ≡ s.generations
work_on_generations s s' id g c none w is_ok = ap (λ p. p.1.generations) (sym (ok-injective is_ok))
work_on_generations s s' id g c (some (v, d, source)) w is_ok =
    elim (Option-cases (item_of g.id c.id s.items)) [
      | inl missing ↦
          ap {A = Option Work × SearchDb} (λ p. p.1.generations)
            (sym (ok-injective (rw missing at is_ok)))
      | inr (i, there) ↦
          ap {A = Option Work × SearchDb} (λ p. p.1.generations)
            (sym (ok-injective (rw there at is_ok)))
    ]

pub concluded_ok :
    (r : Result SearchDb) {w : Option Work} {s' : SearchDb}
    → concluded r ≡ ok (w, s')
    → (r ≡ ok s') × (w ≡ none)
concluded_ok (ok s) h = (ap (λ p. ok p.1) (ok-injective h), ap (λ p. p.0) (sym (ok-injective h)))
concluded_ok (err e) h = cc

started_running :
    (g : IndexGeneration) → is_open g.status ≡ true → (started g).status ≡ GenerationStatus.running
started_running g h = open_started g.status h
  where
    open_started :
        (status : GenerationStatus)
        → is_open status ≡ true
        → started_status status ≡ GenerationStatus.running
    open_started GenerationStatus.queued h = refl
    open_started GenerationStatus.running h = refl
    open_started GenerationStatus.active h = cc
    open_started GenerationStatus.failed h = cc
    open_started GenerationStatus.retired h = cc

module _ (s s' : SearchDb) (id : ℕ) (g g' : IndexGeneration) (w : Option Work)
    (is_row : get_generation s g.id ≡ some g) (opens : is_open g.status ≡ true)
    (read : get_generation s' g.id ≡ some g') (active : g'.status ≡ GenerationStatus.active) where
  started_row : get_generation (put_generation (started g) s) g.id ≡ some (started g)
  started_row =
      row-put_self (λ r. IndexGeneration.id r) g.id (started g) g s.generations is_row refl

  nothing_left :
      next_chunk s g.id ≡ none
      → pick_next (put_generation (started g) s) id (started g) none ≡ ok (w, s')
      → IsIndexComplete s' g.id
  unfolding pick_next next_chunk drop_stale
  nothing_left nothing is_ok =
      let runs : is_running (started g).status ≡ true = ap is_running (started_running g opens) in
      let (done, _) =
        concluded_ok (conclude (drop_stale g.id (put_generation (started g) s)) (started g))
          (rw runs at is_ok) in
      let (finished, items, db) =
        conclude_active (drop_stale g.id (put_generation (started g) s)) s' (started g) g'
          (started g) done started_row read active in
      subst (λ d. IsCompleteIn g.id d s'.items) (sym db)
        (subst (IsCompleteIn g.id s.db) (sym items)
          (dropped_complete (put_generation (started g) s) g.id nothing finished))

  something_left :
      (c : DocumentChunk)
      → pick_next (put_generation (started g) s) id (started g) (some c) ≡ ok (w, s')
      → ⊥
  unfolding pick_next
  something_left c is_ok =
      let same =
        work_on_generations (put_generation (started g) s) s' id (started g) c (joined s.db c) w
          is_ok in
      let e : some (started g) ≡ some g' =
        sym started_row ∙ ap (row (λ r. IndexGeneration.id r) g.id) (sym same) ∙ read in
      let here : started g ≡ g' = ground arith in
      let running : GenerationStatus.running ≡ GenerationStatus.active =
        sym (started_running g opens) ∙ ap (λ r. IndexGeneration.status r) here ∙ active in
      cc

  found_complete : pick_found s id (some g) ≡ ok (w, s') → IsIndexComplete s' g.id
  unfolding pick_found
  found_complete is_ok =
      let may : is_open g.status || is_live g.status ≡ true = rw opens refl in
      let next = rw may at is_ok in
      elim (Option-cases (next_chunk s g.id)) [
        | inl nothing ↦ nothing_left nothing (rw nothing at next)
        | inr (c, there) ↦ absurd (something_left c (rw there at next))
      ]

-- If a run makes a generation active that was queued or running, then every chunk that may be indexed has
-- an item of the generation that succeeded.
pub pick_complete :
    (s s' : SearchDb) (generation_id id : ℕ) (g g' : IndexGeneration) (w : Option Work)
    → get_generation s generation_id ≡ some g
    → is_open g.status ≡ true
    → pick s generation_id id ≡ ok (w, s')
    → get_generation s' generation_id ≡ some g'
    → g'.status ≡ GenerationStatus.active
    → IsIndexComplete s' generation_id
unfolding pick
pick_complete s s' gid id g g' w is_row opens is_ok read active =
    let here = row-key (λ r. IndexGeneration.id r) gid s.generations is_row in
    subst (IsIndexComplete s') here (
      found_complete s s' id g g' w (ap (get_generation s) here ∙ is_row) opens
        (ap (get_generation s') here ∙ read) active (ap (pick_found s id) (sym is_row) ∙ is_ok))
