-- ===== src/Sources/Purge/Recovery.antt =====
-- A purge whose files could not be removed is carried out later.
use bbd_os.Prelude.{
  ℕ, ◌+◌, ◌*◌, ◌≡◌, ◌⊎◌, inl, inr, refl, sym, ap, row-key, ◌∙◌, String, some, List, [], ◌∷◌, ◌++◌,
  All, Error, os_error, value_error,
}
use bbd_os.Database.{
  put_purge, Db, Source, PurgeOperation, OutboxEvent, get_source, get_purge, get_event, second,
}
use bbd_os.Sources.Purge.{
  Removal, removed, denied, invalid, first_error, erase, running_purge, finished_purge,
  failed_purge, postponed, cleanup_failed, remove_files, returned, raised, process_source_purge,
}
use bbd_os.Sources.Purge.Erased.{IsErased, erase-IsErased, erase_again, put_purge-IsErased}
use bbd_os.Sources.Purge.Erasure.{
  IsPending, Leaves, process-step, changed, changed_step, event-changed, purge-changed,
  changed-IsErased, purge_ends,
}

-- The exception of a removal that is refused: OSError of the file system, or ValueError of the path.
abbrev pub Refuses : Removal → Error → Type 0
Refuses r e = ((r ≡ denied) × (e ≡ os_error)) ⊎ ((r ≡ invalid) × (e ≡ value_error))

-- The files before the one that cannot be removed are removed.
first_refused :
    (unlink : String → Removal) (front : List String) (uri : String) (rest : List String)
    (e : Error)
    → All (λ u. unlink u ≡ removed) front
    → Refuses (unlink uri) e
    → first_error unlink (front ++ uri ∷ rest) ≡ some e
unfolding first_error
first_refused unlink [] uri rest e h refuses = elim refuses [
  | inl (by_file_system, raises) ↦ rw by_file_system (ap some (sym raises))
  | inr (by_path, raises) ↦ rw by_path (ap some (sym raises))
]
first_refused unlink (u ∷ front) uri rest e (here, h) refuses =
    rw here (first_refused unlink front uri rest e h refuses)

module _ (unlink : String → Removal) (others : Db → Db) (db : Db) (event_id : ℕ)
    (event : OutboxEvent) (p : PurgeOperation) (source : Source) (now later : ℕ)
    (h : IsPending db event_id event p source)
    (leaves : Leaves others db source.id p.id event_id) where
  abbrev failed_operation : PurgeOperation
  failed_operation = failed_purge "file_cleanup_failed" p

  gone : IsErased db source.id (put_purge (running_purge p) (erase db source.id now))
  gone =
      put_purge-IsErased db (erase db source.id now) source.id (running_purge p)
        (erase-IsErased db source.id now)

  abbrev failed_db : Db
  failed_db =
      changed unlink others db event_id event p source now later h db gone leaves
        (postponed (later + 30 * second)) (failed_purge "file_cleanup_failed") refl h.no_run refl

  failed-IsErased : IsErased db source.id failed_db
  failed-IsErased =
      changed-IsErased unlink others db event_id event p source now later h db gone leaves
        (postponed (later + 30 * second)) (failed_purge "file_cleanup_failed") refl h.no_run refl

  source-kept : get_source failed_db p.source_id ≡ some source
  unfolding erase
  source-kept =
      let key = row-key (λ s. Source.id s) p.source_id db.sources h.at_source in
      ap (get_source failed_db) (sym key)
      ∙ leaves.same_source (put_purge (running_purge p) (erase db source.id now))
      ∙ ap (get_source db) key
      ∙ h.at_source

  failed-IsPending :
      IsPending failed_db event_id (postponed (later + 30 * second) event) failed_operation source
  failed-IsPending = record {
    at_event =
        event-changed unlink others db event_id event p source now later h db gone leaves
          (postponed (later + 30 * second)) (failed_purge "file_cleanup_failed") refl h.no_run refl;
    undelivered = refl;
    names = h.names;
    no_run = h.no_run;
    at_purge =
        purge-changed unlink others db event_id event p source now later h db gone leaves
          (postponed (later + 30 * second)) (failed_purge "file_cleanup_failed") refl h.no_run refl;
    at_source = source-kept;
    same_generation = h.same_generation;
    unfinished = refl;
  }

-- If a file of a pending purge cannot be removed, the job raises the exception of the first such file: OSError
-- or ValueError. What was in the database of the source is erased then, the operation has failed and its event
-- is pending for half a minute later. When the job runs again for the event, and every file can be removed, it
-- returns and the operation has succeeded, with all erased still. In both runs other transactions may come in
-- between that leave the rows of the purge as they are and bring nothing back.
pub process_source_purge_recovers :
    (unlink unlink' : String → Removal) (others others' : Db → Db) (db : Db) (event_id : ℕ)
    (event : OutboxEvent) (p : PurgeOperation) (source : Source) (now later now' later' : ℕ)
    (front : List String) (uri : String) (rest : List String) (e : Error)
    → IsPending db event_id event p source
    → Leaves others db source.id p.id event_id
    → Leaves others' db source.id p.id event_id
    → p.raw_uris ≡ front ++ uri ∷ rest
    → All (λ u. unlink u ≡ removed) front
    → Refuses (unlink uri) e
    → All (λ u. unlink' u ≡ removed) p.raw_uris
    → (db₁ db₂ : Db) × (process_source_purge unlink others db event_id now later ≡ raised e db₁)
      × IsErased db source.id db₁
      × (get_purge db₁ p.id ≡ some (failed_purge "file_cleanup_failed" p))
      × (get_event db₁ event_id ≡ some (postponed (later + 30 * second) event))
      × (process_source_purge unlink' others' db₁ event_id now' later' ≡ returned db₂)
      × IsErased db source.id db₂
      × (get_purge db₂ p.id ≡ some (finished_purge p))
unfolding remove_files cleanup_failed
process_source_purge_recovers unlink unlink' others others' db event_id event p source now later
      now' later' front uri rest e h leaves leaves' uris removed_front refuses all_removed =
    let db₁ = failed_db unlink others db event_id event p source now later h leaves in
    let operation = failed_operation unlink others db event_id event p source now later h leaves in
    let pending = failed-IsPending unlink others db event_id event p source now later h leaves in
    let erased = failed-IsErased unlink others db event_id event p source now later h leaves in
    let again =
      put_purge-IsErased db (erase db₁ source.id now') source.id (running_purge operation)
        (erase_again db₁ source.id now' db erased) in
    let (db₂, returns, erased₂, finished, delivered) =
      purge_ends unlink' others' db₁ event_id (postponed (later + 30 * second) event) operation
        source now' later' pending db again leaves' all_removed in
    let stuck : first_error unlink p.raw_uris ≡ some e =
      ap (first_error unlink) uris ∙ first_refused unlink front uri rest e removed_front refuses in
    (
      db₁,
      db₂,
      rw (process-step unlink others db event_id event p source now later h) (
          rw (stuck, remove_files, cleanup_failed)
            (ap (raised e) (
              changed_step unlink others db event_id event p source now later h db
                (gone unlink others db event_id event p source now later h leaves) leaves
                (postponed (later + 30 * second)) (failed_purge "file_cleanup_failed") refl h.no_run
                refl))),
      erased,
      pending.at_purge,
      pending.at_event,
      returns,
      erased₂,
      finished,
    )
