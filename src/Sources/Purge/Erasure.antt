-- ===== src/Sources/Purge/Erasure.antt =====
-- What a purge that is carried out leaves of a source.
use bbd_os.Prelude.{
  ℕ, ◌≡◌, refl, ap, ◌∙◌, arith, String, none, some, false, List, [], ◌∷◌, All, row-key,
  row-put_self, row-update_where,
}
use bbd_os.Database.{
  Db, Source, PurgeOperation, OutboxEvent, EventStatus, get_source, get_purge, get_event, put_purge,
  put_event,
}
use bbd_os.Sources.Purge.{
  Removal, removed, first_error, erase, change_purge, change_event, is_succeeded, is_delivered,
  running_purge, finished_purge, set_event, purge_succeeded, remove_files, purge_operation,
  purge_event, returned, process_source_purge, names_run_of,
}
use bbd_os.Sources.Purge.Erased.{IsErased, erase-IsErased, put_purge-IsErased, put_event-IsErased}

pub no_error :
    (unlink : String → Removal) (uris : List String)
    → All (λ uri. unlink uri ≡ removed) uris
    → first_error unlink uris ≡ none
unfolding first_error
no_error unlink [] h = refl
no_error unlink (uri ∷ uris) (here, rest) = rw here (no_error unlink uris rest)

-- A purge that can be carried out: its event was not delivered, it has not succeeded, and the source
-- has the generation that it was requested for.
pub record IsPending (db : Db) (event_id : ℕ) (event : OutboxEvent) (p : PurgeOperation)
    (source : Source) : Type 0 where
  pub at_event : get_event db event_id ≡ some event
  pub undelivered : is_delivered event.status ≡ false
  pub names : event.payload.operation_id ≡ some p.id
  pub no_run : event.payload.run_id ≡ none
  pub at_purge : get_purge db p.id ≡ some p
  pub at_source : get_source db p.source_id ≡ some source
  pub same_generation : source.generation ≡ p.generation
  pub unfinished : is_succeeded p.status ≡ false

-- Other transactions leave the event, the operation and the source of a purge as they are, and bring nothing
-- back that was erased: the source is archived.
pub record Leaves (others : Db → Db) (start : Db) (source_id operation_id event_id : ℕ)
    : Type 0 where
  pub same_event : (d : Db) → get_event (others d) event_id ≡ get_event d event_id
  pub same_purge : (d : Db) → get_purge (others d) operation_id ≡ get_purge d operation_id
  pub same_source : (d : Db) → get_source (others d) source_id ≡ get_source d source_id
  pub nothing_back : (d : Db) → IsErased start source_id d → IsErased start source_id (others d)

module _ (unlink : String → Removal) (others : Db → Db) (db : Db) (event_id : ℕ)
    (event : OutboxEvent) (p : PurgeOperation) (source : Source) (now later : ℕ)
    (h : IsPending db event_id event p source) where
  -- The database after the first transaction.
  abbrev pub after_erase : Db
  after_erase = put_purge (running_purge p) (erase db source.id now)

  pub process-step :
      process_source_purge unlink others db event_id now later
      ≡ remove_files unlink others after_erase event_id p.id p.raw_uris later
  unfolding process_source_purge purge_event purge_operation
  process-step =
      rw (h.at_event, process_source_purge)
        (rw h.undelivered (
          rw (h.names, purge_event)
            (rw h.at_purge (rw h.at_source (ground (arith, h.same_generation, h.unfinished))))))

  event-erased : get_event after_erase event_id ≡ some event
  unfolding erase names_run_of
  event-erased = rw (row-update_where, h.at_event) (ground (arith, h.no_run))

  purge-erased : get_purge after_erase p.id ≡ some (running_purge p)
  unfolding erase
  purge-erased = row-put_self _ _ _ _ _ h.at_purge refl

  -- The database that the last transaction finds.
  abbrev pub between : Db
  between = others after_erase

  -- `start` is the database before the first attempt of the purge.
  module _ (start : Db) (gone : IsErased start source.id after_erase)
      (leaves : Leaves others start source.id p.id event_id) where
    event_between : get_event between event_id ≡ some event
    event_between = leaves.same_event after_erase ∙ event-erased

    purge_between : get_purge between p.id ≡ some (running_purge p)
    purge_between = leaves.same_purge after_erase ∙ purge-erased

    module _ (f : OutboxEvent → OutboxEvent) (g : PurgeOperation → PurgeOperation)
        (same_event : (f event).id ≡ event.id) (no_run : (f event).payload.run_id ≡ none)
        (same_purge : (g (running_purge p)).id ≡ p.id) where
      -- The database after both rows were changed.
      abbrev pub changed : Db
      changed = put_event (f event) (put_purge (g (running_purge p)) between)

      pub changed_step : change_event f event_id (change_purge g p.id between) ≡ changed
      unfolding change_event change_purge
      changed_step = rw (purge_between, change_purge) (rw (event_between, change_event))

      pub event-changed : get_event changed event_id ≡ some (f event)
      event-changed = row-put_self _ _ _ _ _ event_between (same_event ∙ row-key _ _ _ h.at_event)

      pub purge-changed : get_purge changed p.id ≡ some (g (running_purge p))
      purge-changed = row-put_self _ _ _ _ _ purge_between same_purge

      pub changed-IsErased : IsErased start source.id changed
      changed-IsErased =
          put_event-IsErased start (put_purge (g (running_purge p)) between) source.id (f event)
            no_run
            (put_purge-IsErased start between source.id (g (running_purge p))
              (leaves.nothing_back after_erase gone))

    -- How the job ends when every file is removed.
    pub purge_ends :
        All (λ uri. unlink uri ≡ removed) p.raw_uris
        → (db' : Db) × (process_source_purge unlink others db event_id now later ≡ returned db')
          × IsErased start source.id db'
          × (get_purge db' p.id ≡ some (finished_purge p))
          × (get_event db' event_id ≡ some (set_event EventStatus.delivered event))
    unfolding remove_files purge_succeeded
    purge_ends all_removed =
        let f = set_event EventStatus.delivered in
        (
          changed f finished_purge refl h.no_run refl,
          rw process-step (
              rw (no_error unlink p.raw_uris all_removed, remove_files, purge_succeeded)
                (ap returned (changed_step f finished_purge refl h.no_run refl))),
          changed-IsErased f finished_purge refl h.no_run refl,
          purge-changed f finished_purge refl h.no_run refl,
          event-changed f finished_purge refl h.no_run refl,
        )

-- If every file can be removed, a pending purge returns, and nothing of its source is left: no document with its
-- versions and chunks, no observation, no batch with its runs and stages, no lease, no credential in force and
-- no event of its runs but failed ones. No document of another source is deleted, the operation has succeeded
-- and the event is delivered. Other transactions may come in between that leave the rows of the purge as they
-- are and bring nothing back.
pub process_source_purge_erases :
    (unlink : String → Removal) (others : Db → Db) (db : Db) (event_id : ℕ) (event : OutboxEvent)
    (p : PurgeOperation) (source : Source) (now later : ℕ)
    → IsPending db event_id event p source
    → Leaves others db source.id p.id event_id
    → All (λ uri. unlink uri ≡ removed) p.raw_uris
    → (db' : Db) × (process_source_purge unlink others db event_id now later ≡ returned db')
      × IsErased db source.id db'
      × (get_purge db' p.id ≡ some (finished_purge p))
      × (get_event db' event_id ≡ some (set_event EventStatus.delivered event))
process_source_purge_erases unlink others db event_id event p source now later h leaves
      all_removed =
    purge_ends unlink others db event_id event p source now later h db
      (put_purge-IsErased db (erase db source.id now) source.id (running_purge p)
        (erase-IsErased db source.id now))
      leaves all_removed
