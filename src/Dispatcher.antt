-- ===== src/Dispatcher.antt =====
-- modules/ingestion/dispatcher.py: the outbox events that are due become jobs of the queue. A
-- transaction locks the rows that it selects; rows that other transactions have locked are skipped,
-- so that `locked` events are left out of the selection.
pub mod Selection
pub mod Dispatch
use bbd_os.Prelude.{
  ℕ, zero, suc, ◌+◌, ◌*◌, String, Option, none, some, Bool, true, false, List, [], ◌∷◌, ◌&&◌, ◌||◌,
  not, if◌then◌else◌, ltb, leb, length, take, update_where, str_eq, ◌==◌, put,
}
use bbd_os.Database.{Db, OutboxEvent, EventStatus, get_event, put_event, second}

-- A job that was given to the queue.
pub record Job : Type 0 where
  pub function : String
  pub event_id : ℕ
  pub defer_until : ℕ

abbrev pub dispatch_stale_after : ℕ
dispatch_stale_after = 30 * second

-- `dispatched_at < now - DISPATCH_STALE_AFTER`; a null time is not.
unfoldable pub is_stale : Option ℕ → ℕ → Bool
is_stale none now = false
is_stale (some t) now = ltb (t + dispatch_stale_after) now

unfoldable pub is_due : OutboxEvent → ℕ → Bool
unfolding is_stale
is_due e now = elim e.status [
  | EventStatus.pending ↦ leb e.next_attempt_at now
  | EventStatus.queued ↦ is_stale e.dispatched_at now
  | EventStatus.delivered ↦ false
  | EventStatus.failed ↦ false
]

-- `order_by(created_at)`: an event behind those that are not newer.
unfoldable pub insert : OutboxEvent → List OutboxEvent → List OutboxEvent
insert e [] = e ∷ []
insert e (f ∷ l) =
    let rest = insert e l in if leb e.created_at f.created_at then e ∷ f ∷ l else f ∷ rest

unfoldable pub due : (OutboxEvent → Bool) → ℕ → List OutboxEvent → List OutboxEvent
unfolding is_due insert
due locked now [] = []
due locked now (e ∷ l) =
    let rest = due locked now l in if is_due e now && not (locked e) then insert e rest else rest

abbrev pub selected : (OutboxEvent → Bool) → ℕ → List OutboxEvent → List OutboxEvent
selected locked now outbox = take 100 (due locked now outbox)

unfoldable pub job_for : String → String
job_for type =
    if str_eq type "document.file.uploaded"
    then "process_uploaded_file"
    else if str_eq type "source.purge.requested"
    then "process_source_purge"
    else "process_ingestion_event"

abbrev pub job_of : ℕ → OutboxEvent → Job
job_of now e = record { function = job_for e.type; event_id = e.id; defer_until = now }

unfoldable pub jobs_of : ℕ → List OutboxEvent → List Job
unfolding job_for
jobs_of now [] = []
jobs_of now (e ∷ l) = job_of now e ∷ jobs_of now l

abbrev pub queued_event : ℕ → OutboxEvent → OutboxEvent
queued_event now e = record e { status = EventStatus.queued; dispatched_at = some now }

-- The changed rows are written back at the commit.
unfoldable pub mark_queued : ℕ → List OutboxEvent → Db → Db
mark_queued now [] db = db
mark_queued now (e ∷ l) db = mark_queued now l (put_event (queued_event now e) db)

-- The jobs that are enqueued, their number, and the database that is committed.
unfoldable pub dispatch_pending_work : (OutboxEvent → Bool) → Db → ℕ → List Job × ℕ × Db
unfolding due jobs_of mark_queued
dispatch_pending_work locked db now =
    let events = selected locked now db.outbox in
    (jobs_of now events, length events, mark_queued now events db)

unfoldable pub mark_event_delivered : Db → ℕ → Db
mark_event_delivered db event_id = elim (get_event db event_id) [
  | none ↦ db
  | some event ↦ put_event (record event { status = EventStatus.delivered }) db
]
