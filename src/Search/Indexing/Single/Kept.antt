-- ===== src/Search/Indexing/Single/Kept.antt =====
-- The transactions of the job, and create_generation, keep the generations single.
use mathlib.Core.Path.{subst}
use bbd_os.Prelude.{
  ℕ, ◌+◌, ◌≤◌, ◌≡◌, refl, sym, ap, ◌∙◌, arith, String, Option, none, some, Option-cases, Bool,
  Bool-cases, inl, inr, List, [], ◌∷◌, ◌++◌, ◌||◌, ◌&&◌, not, if_elim, ◌==◌, ltb, is_none, any,
  find, find-true, row-key, row-put, row-put_self, ok, ok-injective,
}
use bbd_os.Gateway.{ModelMapping}
use bbd_os.Database.{DocumentChunk}
use bbd_os.Search.{
  GenerationStatus, IndexGeneration, SearchDb, get_generation, put_generation, first_by, is_open,
  is_live, is_running, joined, is_succeeded,
}
use bbd_os.Search.Indexing.{
  new_generation, create_generation, model_unavailable, failed_generation, retire_prior,
  is_indexable, activate_generation, conclude, drop_stale, started_status, started, pick_next,
  pick_found, pick, next_chunk, Work,
}
use bbd_os.Search.Indexing.Activation.{work_on_generations, concluded_ok}
use bbd_os.Search.Indexing.Single.{
  bit, copies, count_status, row_of, IsSingle, put-IsSingle, count_put, copies-put, row_of-find,
  find-none_count, first_none_count,
}

copies-append :
    (i : ℕ) (l : List IndexGeneration) (g : IndexGeneration)
    → copies i (l ++ g ∷ []) ≡ copies i l + bit (g.id == i)
unfolding copies
copies-append i [] g = omega arith
copies-append i (x ∷ l) g = omega (arith, copies-append i l g)

count-append :
    (p : GenerationStatus → Bool) (l : List IndexGeneration) (g : IndexGeneration)
    → count_status p (l ++ g ∷ []) ≡ count_status p l + bit (p g.status)
unfolding count_status
count-append p [] g = omega arith
count-append p (x ∷ l) g = omega (arith, count-append p l g)

new_key : (i j n : ℕ) → n ≤ 1 → (i ≡ j → n ≡ 0) → n + bit (i == j) ≤ 1
new_key i j n few fresh = elim (Bool-cases (i == j)) [
  | inl same ↦ rw same (let e = fresh (ground arith) in omega arith)
  | inr other ↦ rw other (omega arith)
]

pub create_generation-IsSingle :
    (s : SearchDb) (mapping : ModelMapping) (id now : ℕ)
    → copies id s.generations ≡ 0
    → IsSingle s.generations
    → IsSingle (create_generation s mapping id now).1.generations
unfolding create_generation
create_generation-IsSingle s mapping id now fresh single =
    elim (Option-cases
      (first_by (λ a b. ltb a.created_at b.created_at) (λ g. is_open g.status) s.generations)) [
        | inr (g, there) ↦ rw there single
        | inl nothing ↦
            let g = new_generation id mapping now in
            let none_open =
              first_none_count (λ a b. ltb a.created_at b.created_at) is_open s.generations
                nothing in
            rw nothing (record {
              keys = λ i. rw (copies-append i s.generations g) (
                  new_key id i (copies i s.generations) (single.keys i)
                    (λ e. ap (λ j. copies j s.generations) (sym e) ∙ fresh));
              one_open = omega (arith, count-append is_open s.generations g);
              one_active = omega (arith, count-append is_live s.generations g, single.one_active);
            })
      ]

-- A generation that was read and is put back with a status that opens and activates nothing.
pub status_change :
    (s : SearchDb) (g g' : IndexGeneration)
    → g'.id ≡ g.id
    → get_generation s g.id ≡ some g
    → bit (is_open g'.status) ≤ bit (is_open g.status)
    → bit (is_live g'.status) ≤ bit (is_live g.status)
    → IsSingle s.generations
    → IsSingle (put_generation g' s).generations
status_change s g g' same is_row opens lives single =
    put-IsSingle g' g s.generations single (ap (λ i. row_of i s.generations) same ∙ is_row) opens
      lives

pub model_unavailable-IsSingle :
    (s : SearchDb) (i : ℕ) → IsSingle s.generations → IsSingle (model_unavailable s i).generations
unfolding model_unavailable
model_unavailable-IsSingle s i single = elim (Option-cases (get_generation s i)) [
  | inl missing ↦ rw missing single
  | inr (g, there) ↦
      let key = row-key (λ r. IndexGeneration.id r) i s.generations there in
      rw there (
        if_elim (λ t. IsSingle (SearchDb.generations t)) (is_live g.status) _ _ (λ live. single)
          (λ dead.
            status_change s g
              (record g { status = GenerationStatus.failed; error_code = some "model_unavailable" })
              refl (ap (get_generation s) key ∙ there) (omega arith) (omega arith) single))
]

-- After the active generation was retired, none is active.
retired_none :
    (s : SearchDb)
    → IsSingle s.generations
    → IsSingle (retire_prior s (find (λ p. is_live p.status) s.generations)).generations
      × (count_status is_live
            (retire_prior s (find (λ p. is_live p.status) s.generations)).generations
          ≡ 0)
retired_none s single =
    elim (Option-cases (find (λ p. is_live (IndexGeneration.status p)) s.generations)) [
      | inl nothing ↦ rw nothing (single, find-none_count is_live s.generations nothing)
      | inr (prior, found) ↦
          let retired = record prior { status = GenerationStatus.retired } in
          let is_row =
            row_of-find (λ p. is_live p.status) s.generations prior (single.keys prior.id) found in
          let live = find-true (λ p. is_live p.status) s.generations found in
          let changed =
            count_put is_live retired prior s.generations (single.keys prior.id) is_row in
          let one : bit (is_live prior.status) ≡ 1 = ap bit live in
          rw found (
            status_change s prior retired refl is_row (omega arith) (omega arith) single,
            omega (arith, single.one_active),
          )
    ]

row_retired :
    (s : SearchDb) (g : IndexGeneration) (o : Option IndexGeneration)
    → get_generation s g.id ≡ some g
    → (old : IndexGeneration) × (get_generation (retire_prior s o) g.id ≡ some old)
row_retired s g none is_row = (g, is_row)
row_retired s g (some prior) is_row =
    let retired = record prior { status = GenerationStatus.retired } in
    let read = row-put (λ r. IndexGeneration.id r) g.id retired s.generations in
    elim (Bool-cases (prior.id == g.id)) [
      | inl same ↦ (retired, ground arith)
      | inr other ↦ (g, ground arith)
    ]

activate-IsSingle :
    (s s' : SearchDb) (g : IndexGeneration)
    → get_generation s g.id ≡ some g
    → activate_generation s g ≡ ok s'
    → IsSingle s.generations
    → IsSingle s'.generations
unfolding activate_generation
activate-IsSingle s s' g is_row is_ok single = elim (Bool-cases (is_indexable g.dimensions)) [
  | inr bad ↦ let e = rw bad at is_ok in cc
  | inl good ↦
      let made = ok-injective (rw good at is_ok) in
      let prior = find (λ p. is_live (IndexGeneration.status p)) s.generations in
      let (kept, nobody) = retired_none s single in
      let (old, old_row) = row_retired s g prior is_row in
      let live = record g { status = GenerationStatus.active; error_code = none } in
      subst (λ t. IsSingle (SearchDb.generations t)) made
        (record {
          keys =
              λ i. omega (arith, copies-put i live (retire_prior s prior).generations, kept.keys i);
          one_open = omega (
            arith,
            count_put is_open live old (retire_prior s prior).generations (kept.keys g.id) old_row,
            kept.one_open,
          );
          one_active = omega (
            arith,
            count_put is_live live old (retire_prior s prior).generations (kept.keys g.id) old_row,
          );
        })
]

pub failed_keeps :
    (s : SearchDb) (g : IndexGeneration) (code : String)
    → get_generation s g.id ≡ some g
    → IsSingle s.generations
    → IsSingle (put_generation (failed_generation code g) s).generations
failed_keeps s g code is_row single =
    status_change s g (failed_generation code g) refl is_row (omega arith) (omega arith) single

conclude-IsSingle :
    (s s' : SearchDb) (g : IndexGeneration)
    → get_generation s g.id ≡ some g
    → conclude s g ≡ ok s'
    → IsSingle s.generations
    → IsSingle s'.generations
unfolding conclude
conclude-IsSingle s s' g is_row is_ok single =
    elim (Bool-cases (any (λ i. i.generation_id == g.id && not (is_succeeded i.status)) s.items)) [
      | inl unfinished ↦
          subst (λ t. IsSingle (SearchDb.generations t)) (ok-injective (rw unfinished at is_ok))
            (failed_keeps s g "item_failed" is_row single)
      | inr finished ↦ elim (Bool-cases (is_none g.dimensions)) [
        | inl no_chunk ↦
            subst (λ t. IsSingle (SearchDb.generations t))
              (ok-injective (rw (finished, no_chunk) at is_ok))
              (failed_keeps s g "no_indexable_chunks" is_row single)
        | inr has_chunk ↦ activate-IsSingle s s' g is_row (rw (finished, has_chunk) at is_ok) single
      ]
    ]

started_open :
    (status : GenerationStatus) → bit (is_open (started_status status)) ≤ bit (is_open status)
started_open GenerationStatus.queued = omega arith
started_open GenerationStatus.running = omega arith
started_open GenerationStatus.active = omega arith
started_open GenerationStatus.failed = omega arith
started_open GenerationStatus.retired = omega arith

started_live :
    (status : GenerationStatus) → bit (is_live (started_status status)) ≤ bit (is_live status)
started_live GenerationStatus.queued = omega arith
started_live GenerationStatus.running = omega arith
started_live GenerationStatus.active = omega arith
started_live GenerationStatus.failed = omega arith
started_live GenerationStatus.retired = omega arith

pick_next-IsSingle :
    (s s' : SearchDb) (id : ℕ) (g : IndexGeneration) (o : Option DocumentChunk) (w : Option Work)
    → get_generation s g.id ≡ some g
    → pick_next s id g o ≡ ok (w, s')
    → IsSingle s.generations
    → IsSingle s'.generations
unfolding pick_next drop_stale
pick_next-IsSingle s s' id g none w is_row is_ok single = elim (Bool-cases (is_running g.status)) [
  | inl runs ↦
      let (done, _) = concluded_ok (conclude (drop_stale g.id s) g) (rw runs at is_ok) in
      conclude-IsSingle (drop_stale g.id s) s' g is_row done single
  | inr rests ↦
      subst {A = Option Work × SearchDb} (λ p. IsSingle p.1.generations)
        (ok-injective (rw rests at is_ok)) single
]
pick_next-IsSingle s s' id g (some c) w is_row is_ok single =
    subst IsSingle (sym (work_on_generations s s' id g c (joined s.db c) w is_ok)) single

-- The first transaction of a round.
pub pick-IsSingle :
    (s s' : SearchDb) (generation_id id : ℕ) (w : Option Work)
    → pick s generation_id id ≡ ok (w, s')
    → IsSingle s.generations
    → IsSingle s'.generations
unfolding pick pick_found
pick-IsSingle s s' gid id w is_ok single = elim (Option-cases (get_generation s gid)) [
  | inl missing ↦
      subst {A = Option Work × SearchDb} (λ p. IsSingle p.1.generations)
        (ok-injective (rw missing at is_ok)) single
  | inr (g, there) ↦
      let key = row-key (λ r. IndexGeneration.id r) gid s.generations there in
      let is_row = ap (get_generation s) key ∙ there in
      let found = rw there at is_ok in
      elim (Bool-cases (is_open g.status || is_live g.status)) [
        | inr ended ↦
            subst {A = Option Work × SearchDb} (λ p. IsSingle p.1.generations)
              (ok-injective (rw ended at found)) single
        | inl runs ↦
            pick_next-IsSingle (put_generation (started g) s) s' id (started g) (next_chunk s g.id)
              w
              (row-put_self (λ r. IndexGeneration.id r) g.id (started g) g s.generations is_row
                refl)
              (rw runs at found)
              (status_change s g (started g) refl is_row (started_open g.status)
                (started_live g.status) single)
      ]
]
