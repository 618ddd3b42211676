-- ===== src/Dispatcher/Dispatch.antt =====
-- An event that was dispatched is not dispatched again before it is stale.
use mathlib.Core.List.{Memᴰ}
use bbd_os.Prelude.{
  ℕ, zero, suc, ◌+◌, ◌≤◌, ◌≡◌, ◌≢◌, refl, ap, arith, none, some, Bool, false, List, [], ◌∷◌, ◌&&◌,
  not, ◌⊎◌, inl, inr, ◌==◌, leb, take, Bool-cases, Option-cases, row, row-put, put,
}
use bbd_os.Database.{Db, OutboxEvent, EventStatus, get_event, put_event}
use bbd_os.Dispatcher.{
  is_due, is_stale, insert, due, selected, dispatch_pending_work, dispatch_stale_after,
  queued_event, mark_queued,
}

insert-from : (e g : OutboxEvent) (l : List OutboxEvent) → Memᴰ g (insert e l) → (g ≡ e) ⊎ Memᴰ g l
unfolding insert
insert-from e g [] (Memᴰ.head p) = inl p
insert-from e g [] (Memᴰ.tail m) = elim m [ ]
insert-from e g (f ∷ l) m = elim (Bool-cases (leb e.created_at f.created_at)) [
  | inl first ↦ elim (rw (first, insert) at m) [ Memᴰ.head p ↦ inl p | Memᴰ.tail k ↦ inr k ]
  | inr later ↦ elim (rw (later, insert) at m) [
    | Memᴰ.head p ↦ inr (Memᴰ.head p)
    | Memᴰ.tail k ↦ elim (insert-from e g l k) [ inl p ↦ inl p | inr q ↦ inr (Memᴰ.tail q) ]
  ]
]

due-from :
    (locked : OutboxEvent → Bool) (now : ℕ) (g : OutboxEvent) (l : List OutboxEvent)
    → Memᴰ g (due locked now l)
    → Memᴰ g l
unfolding due
due-from locked now g [] m = elim m [ ]
due-from locked now g (e ∷ l) m = elim (Bool-cases (is_due e now && not (locked e))) [
  | inl yes_e ↦ elim (insert-from e g (due locked now l) (rw (yes_e, due) at m)) [
    | inl p ↦ Memᴰ.head p
    | inr k ↦ Memᴰ.tail (due-from locked now g l k)
  ]
  | inr no_e ↦ Memᴰ.tail (due-from locked now g l (rw (no_e, due) at m))
]

take-from : (n : ℕ) (g : OutboxEvent) (l : List OutboxEvent) → Memᴰ g (take n l) → Memᴰ g l
take-from zero g l m = elim m [ ]
take-from (suc n) g [] m = elim m [ ]
take-from (suc n) g (x ∷ xs) (Memᴰ.head p) = Memᴰ.head p
take-from (suc n) g (x ∷ xs) (Memᴰ.tail m) = Memᴰ.tail (take-from n g xs m)

abbrev event_key : OutboxEvent → ℕ
event_key e = e.id

row-Mem : (g : OutboxEvent) (l : List OutboxEvent) → Memᴰ g l → row event_key g.id l ≢ none
unfolding row
row-Mem g [] m h = elim m [ ]
row-Mem g (x ∷ l) (Memᴰ.head p) h = ground (arith, ap event_key p)
row-Mem g (x ∷ l) (Memᴰ.tail m) h = ground (arith, row-Mem g l m)

-- The row is queued and was dispatched at `now`.
abbrev IsQueued : ℕ → ℕ → List OutboxEvent → Type 0
IsQueued now i l =
    (x : OutboxEvent) × (row event_key i l ≡ some x)
    × (x.status ≡ EventStatus.queued)
    × (x.dispatched_at ≡ some now)

put-IsQueued :
    (now i : ℕ) (e : OutboxEvent) (l : List OutboxEvent)
    → IsQueued now i l
    → IsQueued now i (put event_key (queued_event now e) l)
put-IsQueued now i e l (x, found, queued, at_now) = elim (Bool-cases (e.id == i)) [
  | inl same ↦
      (queued_event now e, ground (arith, row-put event_key i (queued_event now e) l), refl, refl)
  | inr other ↦ (x, ground (arith, row-put event_key i (queued_event now e) l), queued, at_now)
]

mark_queued-IsQueued :
    (now i : ℕ) (l : List OutboxEvent) (db : Db)
    → IsQueued now i db.outbox
    → IsQueued now i (mark_queued now l db).outbox
unfolding mark_queued
mark_queued-IsQueued now i [] db q = q
mark_queued-IsQueued now i (e ∷ l) db q =
    mark_queued-IsQueued now i l (put_event (queued_event now e) db)
      (put-IsQueued now i e db.outbox q)

first_queued :
    (now : ℕ) (e g : OutboxEvent) (l : List OutboxEvent)
    → g ≡ e
    → row event_key g.id l ≢ none
    → IsQueued now g.id (put event_key (queued_event now e) l)
first_queued now e g l p present = elim (Option-cases (row event_key g.id l)) [
  | inl missing ↦ absurd (present missing)
  | inr (x, found) ↦ (
    queued_event now e,
    ground (arith, row-put event_key g.id (queued_event now e) l, ap event_key p),
    refl,
    refl,
  )
]

put_present :
    (now i : ℕ) (e : OutboxEvent) (l : List OutboxEvent)
    → row event_key i l ≢ none
    → row event_key i (put event_key (queued_event now e) l) ≢ none
put_present now i e l present h = elim (Option-cases (row event_key i l)) [
  | inl missing ↦ present missing
  | inr (x, found) ↦ ground (arith, row-put event_key i (queued_event now e) l)
]

marked :
    (now : ℕ) (g : OutboxEvent) (l : List OutboxEvent) (db : Db)
    → Memᴰ g l
    → row event_key g.id db.outbox ≢ none
    → IsQueued now g.id (mark_queued now l db).outbox
unfolding mark_queued
marked now g [] db m present = elim m [ ]
marked now g (e ∷ l) db (Memᴰ.head p) present =
    mark_queued-IsQueued now g.id l (put_event (queued_event now e) db)
      (first_queued now e g db.outbox p present)
marked now g (e ∷ l) db (Memᴰ.tail m) present =
    marked now g l (put_event (queued_event now e) db) m (put_present now g.id e db.outbox present)

not_due :
    (x : OutboxEvent) (now now' : ℕ)
    → x.status ≡ EventStatus.queued
    → x.dispatched_at ≡ some now
    → now' ≤ now + dispatch_stale_after
    → is_due x now' ≡ false
unfolding is_due is_stale
not_due x now now' queued at_now early = ground arith

-- An event that a round dispatched is queued after the round, and no later round dispatches its row
-- again within thirty seconds.
pub dispatch_once :
    (locked : OutboxEvent → Bool) (db : Db) (now now' : ℕ) (e : OutboxEvent)
    → Memᴰ e (selected locked now db.outbox)
    → now' ≤ now + dispatch_stale_after
    → (x : OutboxEvent) × (get_event (dispatch_pending_work locked db now).2 e.id ≡ some x)
      × (x.status ≡ EventStatus.queued)
      × (is_due x now' ≡ false)
unfolding dispatch_pending_work
dispatch_once locked db now now' e m early =
    let listed = due-from locked now e db.outbox (take-from 100 e (due locked now db.outbox) m) in
    let (x, found, queued, at_now) =
      marked now e (selected locked now db.outbox) db m (row-Mem e db.outbox listed) in
    (x, found, queued, not_due x now now' queued at_now early)
