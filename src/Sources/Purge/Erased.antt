-- ===== src/Sources/Purge/Erased.antt =====
-- What the first transaction of a purge leaves of a source.
use bbd_os.Prelude.{
  ℕ, ◌≡◌, refl, ap, ◌∙◌, arith, none, some, Bool, true, false, List, [], ◌∷◌, ◌&&◌, not, ◌==◌,
  ==_iff, any, holds, is_none, Option, find, row, put, delete_where, update_where,
  find-delete_where, find-update_where, Bool-cases, inl, inr,
}
use bbd_os.Database.{
  Db, Document, DocumentVersion, DocumentChunk, Batch, Run, Stage, Observation, IngestionState,
  Credential, OutboxEvent, EventStatus, get_document, get_run, PurgeOperation, put_purge, put_event,
}
use bbd_os.Sources.Purge.{
  erase, owns_batch, run_goes, run_id_goes, owns_document, owns_version, observation_goes,
  names_run_of, released, is_doc_of, is_batch_of,
}

abbrev is_failed : EventStatus → Bool
is_failed EventStatus.failed = true
is_failed EventStatus.pending = false
is_failed EventStatus.queued = false
is_failed EventStatus.delivered = false

-- The state of the source has a lease.
abbrev is_leased : ℕ → IngestionState → Bool
is_leased source_id s =
    s.source_id == source_id && not (is_none s.lease_run_id && is_none s.lease_expires_at)

abbrev is_usable : ℕ → Credential → Bool
is_usable source_id c = c.source_id == source_id && is_none c.revoked_at

-- An event of a run that may still be acted on.
abbrev is_alive : ℕ → OutboxEvent → Bool
is_alive run_id e = holds e.payload.run_id run_id && not (is_failed e.status)

-- Of the source as it was in `db`, `db'` has no document with its versions and their chunks, no observation, no
-- batch with its runs and their stages, no lease, no credential in force, and no event of a run of the
-- source but failed ones; documents of other sources are kept.
pub record IsErased (db : Db) (source_id : ℕ) (db' : Db) : Type 0 where
  pub no_documents : find (is_doc_of source_id) db'.documents ≡ none
  pub no_versions :
      (i : ℕ) (d : Document)
      → get_document db i ≡ some d
      → is_doc_of source_id d ≡ true
      → find (λ v. DocumentVersion.document_id v == i) db'.versions ≡ none
  pub no_chunks :
      (i j : ℕ) (d : Document) (v : DocumentVersion)
      → get_document db i ≡ some d
      → is_doc_of source_id d ≡ true
      → row (λ r. DocumentVersion.id r) j db.versions ≡ some v
      → (v.document_id == i) ≡ true
      → find (λ c. DocumentChunk.document_version_id c == j) db'.chunks ≡ none
  pub no_observations : find (λ o. Observation.source_id o == source_id) db'.observations ≡ none
  pub no_batches : find (is_batch_of source_id) db'.batches ≡ none
  pub no_runs :
      (i : ℕ) (b : Batch)
      → row (λ r. Batch.id r) i db.batches ≡ some b
      → is_batch_of source_id b ≡ true
      → find (λ r. Run.batch_id r == i) db'.runs ≡ none
  pub no_stages :
      (i j : ℕ) (b : Batch) (r : Run)
      → row (λ r. Batch.id r) i db.batches ≡ some b
      → is_batch_of source_id b ≡ true
      → get_run db j ≡ some r
      → (r.batch_id == i) ≡ true
      → find (λ s. Stage.run_id s == j) db'.stages ≡ none
  pub no_lease : find (is_leased source_id) db'.states ≡ none
  pub no_credentials : find (is_usable source_id) db'.credentials ≡ none
  pub no_events :
      (j : ℕ) (r : Run)
      → get_run db j ≡ some r
      → (r.source_id == source_id) ≡ true
      → find (is_alive j) db'.outbox ≡ none
  pub others_kept :
      (i : ℕ) (d : Document)
      → get_document db i ≡ some d
      → is_doc_of source_id d ≡ false
      → get_document db' i ≡ some d

module _ {ℓ} {A : Type ℓ} where
  row-delete_where :
      (key : A → ℕ) (p : A → Bool) (i : ℕ) (x : A) (l : List A)
      → row key i l ≡ some x
      → p x ≡ false
      → row key i (delete_where p l) ≡ some x
  unfolding row delete_where
  row-delete_where key p i x [] h k = cc
  row-delete_where key p i x (r ∷ l) h k = elim (Bool-cases (key r == i)) [
    | inl same ↦
        let e : r ≡ x = ground arith in let kept : p r ≡ false = cc (ap p e, k) in ground arith
    | inr other ↦ elim (Bool-cases (p r)) [
      | inl goes ↦ ground (arith, row-delete_where key p i x l)
      | inr stays ↦ ground (arith, row-delete_where key p i x l)
    ]
  ]

  -- Rows that pass `p` are deleted with those that pass `q`.
  find-delete_all :
      (p q : A → Bool) (l : List A)
      → ((x : A) → p x ≡ true → q x ≡ true)
      → find p (delete_where q l) ≡ none
  unfolding find delete_where
  find-delete_all p q [] h = refl
  find-delete_all p q (x ∷ l) h = ground (arith, find-delete_all p q l h, h x)

  -- What is not there stays away.
  find-delete_where-none :
      (p q : A → Bool) (l : List A) → find p l ≡ none → find p (delete_where q l) ≡ none
  unfolding find delete_where
  find-delete_where-none p q [] h = refl
  find-delete_where-none p q (x ∷ l) h = ground (arith, find-delete_where-none p q l)

  find-update_where-none :
      (p q : A → Bool) (f : A → A) (l : List A)
      → ((x : A) → p x ≡ false → p (f x) ≡ false)
      → find p l ≡ none
      → find p (update_where q f l) ≡ none
  unfolding find update_where
  find-update_where-none p q f [] keep h = refl
  find-update_where-none p q f (x ∷ l) keep h =
      ground (arith, find-update_where-none p q f l keep, keep x)

  find-put-none :
      (key : A → ℕ) (p : A → Bool) (r : A) (l : List A)
      → find p l ≡ none
      → p r ≡ false
      → find p (put key r l) ≡ none
  unfolding find put
  find-put-none key p r [] h away = refl
  find-put-none key p r (x ∷ l) h away = ground (arith, find-put-none key p r l)

  any-row :
      (key : A → ℕ) (t : A → Bool) (i : ℕ) (x : A) (l : List A)
      → row key i l ≡ some x
      → t x ≡ true
      → any (λ y. key y == i && t y) l ≡ true
  unfolding row
  any-row key t i x [] h k = cc
  any-row key t i x (y ∷ l) h k = elim (Bool-cases (key y == i)) [
    | inl same ↦
        let e : some y ≡ some x = rw same at h in
        let y_is : y ≡ x = cc in let passes : t y ≡ true = ap t y_is ∙ k in rw (same, passes) refl
    | inr other ↦ rw other (any-row key t i x l (rw other at h) k)
  ]

module _ (db : Db) (source_id now : ℕ) where
  observation_gone :
      (l : List Observation)
      → find
          (λ o. Observation.source_id o == source_id)
          (delete_where (observation_goes source_id db) l)
        ≡ none
  unfolding observation_goes
  observation_gone l = find-delete_all _ _ l (λ o h. rw h refl)

  lease_gone :
      (l : List IngestionState)
      → find (is_leased source_id) (update_where (λ s. true) (released source_id db) l) ≡ none
  unfolding released
  lease_gone l =
      find-update_where (λ s. true) (is_leased source_id) (released source_id db) l
        (λ s h. released_free s) (λ s h. cc)
    where
      released_free : (s : IngestionState) → is_leased source_id (released source_id db s) ≡ false
      released_free s = elim (Bool-cases (s.source_id == source_id)) [
        | inl same ↦ rw (same, same) refl
        | inr other ↦ rw (other, other) refl
      ]

  credentials_gone :
      (l : List Credential)
      → find
          (is_usable source_id)
          (update_where (λ c. c.source_id == source_id) (λ c. record c { revoked_at = some now }) l)
        ≡ none
  credentials_gone l = find-update_where _ _ _ l (λ c h. ground arith) (λ c h. ground arith)

  document_owned :
      (i k : ℕ) (d : Document)
      → get_document db i ≡ some d
      → is_doc_of source_id d ≡ true
      → (k == i) ≡ true
      → owns_document source_id db k ≡ true
  unfolding owns_document
  document_owned i k d at_d own same =
      ap (owns_document source_id db) ((==_iff k i).0 same)
      ∙ any-row (λ r. Document.id r) (is_doc_of source_id) i d db.documents at_d own

  version_owned :
      (i j k : ℕ) (d : Document) (v : DocumentVersion)
      → get_document db i ≡ some d
      → is_doc_of source_id d ≡ true
      → row (λ r. DocumentVersion.id r) j db.versions ≡ some v
      → (v.document_id == i) ≡ true
      → (k == j) ≡ true
      → owns_version source_id db k ≡ true
  unfolding owns_version
  version_owned i j k d v at_d own at_v same same_version =
      ap (owns_version source_id db) ((==_iff k j).0 same_version)
      ∙ any-row (λ r. DocumentVersion.id r) (λ w. owns_document source_id db w.document_id) j v
          db.versions at_v (document_owned i v.document_id d at_d own same)

  batch_owned :
      (i k : ℕ) (b : Batch)
      → row (λ r. Batch.id r) i db.batches ≡ some b
      → is_batch_of source_id b ≡ true
      → (k == i) ≡ true
      → owns_batch source_id db.batches k ≡ true
  unfolding owns_batch
  batch_owned i k b at_b own same =
      ap (owns_batch source_id db.batches) ((==_iff k i).0 same)
      ∙ any-row (λ r. Batch.id r) (is_batch_of source_id) i b db.batches at_b own

  run_owned :
      (i j k : ℕ) (b : Batch) (r : Run)
      → row (λ r. Batch.id r) i db.batches ≡ some b
      → is_batch_of source_id b ≡ true
      → get_run db j ≡ some r
      → (r.batch_id == i) ≡ true
      → (k == j) ≡ true
      → run_id_goes source_id db k ≡ true
  unfolding run_id_goes run_goes
  run_owned i j k b r at_b own at_r same same_run =
      ap (run_id_goes source_id db) ((==_iff k j).0 same_run)
      ∙ any-row (λ r. Run.id r) (run_goes source_id db) j r db.runs at_r
          (batch_owned i r.batch_id b at_b own same)

  run_named :
      (j : ℕ) (r : Run) (o : Option ℕ)
      → get_run db j ≡ some r
      → (r.source_id == source_id) ≡ true
      → holds o j ≡ true
      → names_run_of source_id db.runs o ≡ true
  unfolding names_run_of
  run_named j r none at_r own held = cc
  run_named j r (some k) at_r own held =
      ap (λ i. names_run_of source_id db.runs (some i)) ((==_iff k j).0 held)
      ∙ any-row (λ r. Run.id r) (λ r. r.source_id == source_id) j r db.runs at_r own

  alive-run : (j : ℕ) (e : OutboxEvent) → is_alive j e ≡ true → holds e.payload.run_id j ≡ true
  alive-run j e alive = ground arith

  events_gone :
      (j : ℕ) (r : Run) (l : List OutboxEvent)
      → get_run db j ≡ some r
      → (r.source_id == source_id) ≡ true
      → find (is_alive j) (
          update_where
            (λ e. names_run_of source_id db.runs (OutboxEvent.payload e).run_id)
            (λ e. record e { status = EventStatus.failed })
            l)
        ≡ none
  events_gone j r l at_r own =
      find-update_where _ (is_alive j) _ l (λ e h. ground arith)
        (λ e h. elim (Bool-cases (is_alive j e)) [
          | inr dead ↦ dead
          | inl alive ↦
              let named = run_named j r e.payload.run_id at_r own (alive-run j e alive) in cc
        ])

  pub erase-IsErased : IsErased db source_id (erase db source_id now)
  unfolding erase run_goes
  erase-IsErased = record {
    no_documents = find-delete_where _ _;
    no_versions = λ i d at_d own.
        find-delete_all _ _ db.versions (λ v h. document_owned i v.document_id d at_d own h);
    no_chunks = λ i j d v at_d own at_v same.
        find-delete_all _ _ db.chunks
          (λ c h. version_owned i j c.document_version_id d v at_d own at_v same h);
    no_observations = observation_gone db.observations;
    no_batches = find-delete_where _ _;
    no_runs =
        λ i b at_b own. find-delete_all _ _ db.runs (λ r h. batch_owned i r.batch_id b at_b own h);
    no_stages = λ i j b r at_b own at_r same.
        find-delete_all _ _ db.stages (λ s h. run_owned i j s.run_id b r at_b own at_r same h);
    no_lease = lease_gone db.states;
    no_credentials = credentials_gone db.credentials;
    no_events = λ j r at_r own. events_gone j r db.outbox at_r own;
    others_kept = λ i d at other. row-delete_where _ _ i d db.documents at other;
  }

  -- What was erased stays erased when the transaction runs again.
  pub erase_again :
      (before : Db)
      → IsErased before source_id db
      → IsErased before source_id (erase db source_id now)
  unfolding erase
  erase_again before h = record {
    no_documents = find-delete_where _ _;
    no_versions =
        λ i d at_d own. find-delete_where-none _ _ db.versions (h.no_versions i d at_d own);
    no_chunks = λ i j d v at_d own at_v same.
        find-delete_where-none _ _ db.chunks (h.no_chunks i j d v at_d own at_v same);
    no_observations = observation_gone db.observations;
    no_batches = find-delete_where _ _;
    no_runs = λ i b at_b own. find-delete_where-none _ _ db.runs (h.no_runs i b at_b own);
    no_stages = λ i j b r at_b own at_r same.
        find-delete_where-none _ _ db.stages (h.no_stages i j b r at_b own at_r same);
    no_lease = lease_gone db.states;
    no_credentials = credentials_gone db.credentials;
    no_events = λ j r at_r own.
        find-update_where-none (is_alive j) _ _ db.outbox (λ e dead. ground arith)
          (h.no_events j r at_r own);
    others_kept =
        λ i d at other. row-delete_where _ _ i d db.documents (h.others_kept i d at other) other;
  }

-- The operation of the purge is no row of the source.
pub put_purge-IsErased :
    (before db : Db) (source_id : ℕ) (p : PurgeOperation)
    → IsErased before source_id db
    → IsErased before source_id (put_purge p db)
put_purge-IsErased before db source_id p e = record {
  no_documents = e.no_documents;
  no_versions = e.no_versions;
  no_chunks = e.no_chunks;
  no_observations = e.no_observations;
  no_batches = e.no_batches;
  no_runs = e.no_runs;
  no_stages = e.no_stages;
  no_lease = e.no_lease;
  no_credentials = e.no_credentials;
  no_events = e.no_events;
  others_kept = e.others_kept;
}

-- Nor is an event that names no run.
pub put_event-IsErased :
    (before db : Db) (source_id : ℕ) (event : OutboxEvent)
    → event.payload.run_id ≡ none
    → IsErased before source_id db
    → IsErased before source_id (put_event event db)
put_event-IsErased before db source_id event no_run e = record {
  no_documents = e.no_documents;
  no_versions = e.no_versions;
  no_chunks = e.no_chunks;
  no_observations = e.no_observations;
  no_batches = e.no_batches;
  no_runs = e.no_runs;
  no_stages = e.no_stages;
  no_lease = e.no_lease;
  no_credentials = e.no_credentials;
  no_events = λ j r at_r own.
      find-put-none (λ x. OutboxEvent.id x) (is_alive j) event db.outbox (e.no_events j r at_r own)
        (rw no_run refl);
  others_kept = e.others_kept;
}
