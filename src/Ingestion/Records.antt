-- ===== src/Ingestion/Records.antt =====
-- The observations that a batch stores: one for each provider, content and time that it reports.
use mathlib.Core.List.{Memᴰ}
use mathlib.Core.Path.{subst, sym}
use bbd_os.Prelude.{
  none, ok, find, ap, ℕ, ◌≡◌, refl, String, true, false, List, [], ◌∷◌, ◌++◌, arith, Bool-cases,
  inl, inr, any, All, All-mono, map, str_eq, eq_iff, eq_refl, ◌||◌,
}
use bbd_os.Ingestion.Accepted.{unused-IsAccepted}
use bbd_os.Database.{Db, Batch, Run, IngestionRecord, Observation}
use bbd_os.Ingestion.{
  Hashes, ReceiveBatch, NewIds, is_batch, receive_batch, stored, with_state, observe,
  observation_of, same_observation,
}

same_observation_refl : (a : Observation) → same_observation a a ≡ true
same_observation_refl a = ground (arith, eq_refl a.provider_id, eq_refl a.record_hash)

str_eq_comm : (a b : String) → str_eq a b ≡ str_eq b a
str_eq_comm a b = ground (arith, eq_iff a b, eq_iff b a)

same_observation_comm : (a b : Observation) → same_observation a b ≡ same_observation b a
same_observation_comm a b =
    ground (arith, str_eq_comm a.provider_id b.provider_id, str_eq_comm a.record_hash b.record_hash)

-- No two elements are the same observation.
abbrev pub Distinct : List Observation → Type 0
Distinct [] = Unit
Distinct (o ∷ l) = (any (same_observation o) l ≡ false) × Distinct l

abbrev pub Lists : List Observation → Observation → Type 0
Lists l o = any (same_observation o) l ≡ true

not_any :
    (o : Observation) (l : List Observation)
    → All (λ x. same_observation x o ≡ false) l
    → any (same_observation o) l ≡ false
not_any o [] h = refl
not_any o (x ∷ l) h = ground (arith, same_observation_comm o x, not_any o l h.1)

module _ (h : Hashes) (sid bid : ℕ) where
  observe-unseen :
      (seen : List Observation) (records : List IngestionRecord)
      → All (λ o. any (same_observation o) seen ≡ false) (observe h sid bid seen records)
  unfolding observe
  observe-unseen seen [] = tt
  observe-unseen seen (r ∷ records) =
      elim (Bool-cases (any (same_observation (observation_of h sid bid r)) seen)) [
        | inl old ↦ rw (old, observe) (observe-unseen seen records)
        | inr new ↦
            rw (new, observe)
              (
                new,
                All-mono (λ o k. ground arith) _
                    (observe-unseen (observation_of h sid bid r ∷ seen) records),
              )
      ]

  observe-Distinct :
      (seen : List Observation) (records : List IngestionRecord)
      → Distinct (observe h sid bid seen records)
  unfolding observe
  observe-Distinct seen [] = tt
  observe-Distinct seen (r ∷ records) =
      elim (Bool-cases (any (same_observation (observation_of h sid bid r)) seen)) [
        | inl old ↦ rw (old, observe) (observe-Distinct seen records)
        | inr new ↦
            let o = observation_of h sid bid r in
            rw (new, observe)
              (
                not_any o _ (All-mono (λ x k. ground arith) _ (observe-unseen (o ∷ seen) records)),
                observe-Distinct (o ∷ seen) records,
              )
      ]

  observe_old :
      (seen : List Observation) (r : IngestionRecord) (records : List IngestionRecord)
      → any (same_observation (observation_of h sid bid r)) seen ≡ true
      → observe h sid bid seen (r ∷ records) ≡ observe h sid bid seen records
  unfolding observe
  observe_old seen r records old = rw (old, observe)

  observe_new :
      (seen : List Observation) (r : IngestionRecord) (records : List IngestionRecord)
      → any (same_observation (observation_of h sid bid r)) seen ≡ false
      → observe h sid bid seen (r ∷ records)
        ≡ observation_of h sid bid r ∷ observe h sid bid (observation_of h sid bid r ∷ seen) records
  unfolding observe
  observe_new seen r records new = rw (new, observe)

  -- Each record is among the observations `out` or was seen before.
  abbrev Covered : List Observation → List Observation → List IngestionRecord → Type 0
  Covered seen out = All λ r.
      (any (same_observation (observation_of h sid bid r)) out
        || any (same_observation (observation_of h sid bid r)) seen)
      ≡ true

  observe_covers :
      (seen : List Observation) (records : List IngestionRecord)
      → Covered seen (observe h sid bid seen records) records
  observe_covers seen [] = tt
  observe_covers seen (r ∷ records) =
      elim (Bool-cases (any (same_observation (observation_of h sid bid r)) seen)) [
        | inl old ↦
            subst (λ out. Covered seen out (r ∷ records)) (sym (observe_old seen r records old))
              (ground arith, observe_covers seen records)
        | inr new ↦
            let o = observation_of h sid bid r in
            subst (λ out. Covered seen out (r ∷ records)) (sym (observe_new seen r records new))
              (
                ground (arith, same_observation_refl o),
                All-mono (λ x k. ground arith) records (observe_covers (o ∷ seen) records),
              )
      ]

  observe_from :
      (seen : List Observation) (records : List IngestionRecord)
      → All (λ o. Memᴰ o (map (observation_of h sid bid) records)) (observe h sid bid seen records)
  unfolding observe
  observe_from seen [] = tt
  observe_from seen (r ∷ records) =
      elim (Bool-cases (any (same_observation (observation_of h sid bid r)) seen)) [
        | inl old ↦ rw (old, observe) (All-mono (λ o m. Memᴰ.tail m) _ (observe_from seen records))
        | inr new ↦
            let o = observation_of h sid bid r in
            rw (new, observe)
              (Memᴰ.head refl, All-mono (λ x m. Memᴰ.tail m) _ (observe_from (o ∷ seen) records))
      ]

  observe_covers-All :
      (records : List IngestionRecord)
      → All (λ r. Lists (observe h sid bid [] records) (observation_of h sid bid r)) records
  observe_covers-All records = All-mono (λ r k. ground arith) records (observe_covers [] records)

-- A batch with an unused key that is accepted adds observations to those stored: no two of them with
-- the same provider, content hash and time, one for every record of the batch, and each of them
-- made from a record of the batch.
pub receive_batch_records :
    (h : Hashes) (db : Db) (payload : ReceiveBatch) (ids : NewIds) (now : ℕ) (b : Batch) (r : Run)
    (db' : Db)
    → find (is_batch payload.source_id payload.batch_key) db.batches ≡ none
    → receive_batch h db payload ids now ≡ ok (b, r, db')
    → (new : List Observation) × (db'.observations ≡ db.observations ++ new)
      × Distinct new
      × All (λ x. Lists new (observation_of h payload.source_id ids.batch_id x)) payload.records
      × All
          (λ o. Memᴰ o (map (observation_of h payload.source_id ids.batch_id) payload.records))
          new
unfolding stored with_state
receive_batch_records h db payload ids now b r db' unused e =
    let a = unused-IsAccepted h db payload ids now b r db' unused e in
    let sid = payload.source_id in
    (
      observe h sid ids.batch_id [] payload.records,
      ap (λ (d : Db). d.observations) a.store,
      observe-Distinct h sid ids.batch_id [] payload.records,
      observe_covers-All h sid ids.batch_id payload.records,
      observe_from h sid ids.batch_id [] payload.records,
    )
