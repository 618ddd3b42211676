-- ===== src/Dispatcher/Selection.antt =====
-- Which events one round of the dispatcher selects.
use mathlib.Core.List.{Memᴰ}
use mathlib.Core.Path.{subst}
use bbd_os.Prelude.{
  ℕ, zero, suc, ◌≤◌, ◌≡◌, refl, ap, arith, Bool, true, List, [], ◌∷◌, ◌&&◌, not, ◌⊎◌, inl, inr, leb,
  length, take, All, All-mono, Bool-cases, length-take, sym,
}
use bbd_os.Database.{Db, OutboxEvent}
use bbd_os.Dispatcher.{is_due, insert, due, selected}

-- The events are in the order of their creation.
abbrev pub Ordered : List OutboxEvent → Type 0
Ordered [] = Unit
Ordered (e ∷ l) = All (λ f. e.created_at ≤ f.created_at) l × Ordered l

insert-All :
    (P : OutboxEvent → Type 0) (e : OutboxEvent) (l : List OutboxEvent)
    → P e
    → All P l
    → All P (insert e l)
unfolding insert
insert-All P e [] p h = (p, tt)
insert-All P e (f ∷ l) p h = elim (Bool-cases (leb e.created_at f.created_at)) [
  | inl first ↦ rw (first, insert) (p, h)
  | inr later ↦ rw (later, insert) (h.0, insert-All P e l p h.1)
]

insert-Ordered : (e : OutboxEvent) (l : List OutboxEvent) → Ordered l → Ordered (insert e l)
unfolding insert
insert-Ordered e [] o = (tt, tt)
insert-Ordered e (f ∷ l) o = elim (Bool-cases (leb e.created_at f.created_at)) [
  | inl first ↦ rw (first, insert) ((ground arith, All-mono (λ g k. ground arith) l o.0), o)
  | inr later ↦ rw (later, insert) (insert-All _ e l (ground arith) o.0, insert-Ordered e l o.1)
]

due-Ordered :
    (locked : OutboxEvent → Bool) (now : ℕ) (l : List OutboxEvent) → Ordered (due locked now l)
unfolding due
due-Ordered locked now [] = tt
due-Ordered locked now (e ∷ l) = elim (Bool-cases (is_due e now && not (locked e))) [
  | inl yes_e ↦ rw (yes_e, due) (insert-Ordered e (due locked now l) (due-Ordered locked now l))
  | inr no_e ↦ rw (no_e, due) (due-Ordered locked now l)
]

due-All :
    (locked : OutboxEvent → Bool) (now : ℕ) (l : List OutboxEvent)
    → All (λ e. (is_due e now && not (locked e)) ≡ true) (due locked now l)
unfolding due
due-All locked now [] = tt
due-All locked now (e ∷ l) = elim (Bool-cases (is_due e now && not (locked e))) [
  | inl yes_e ↦ rw (yes_e, due) (insert-All _ e (due locked now l) yes_e (due-All locked now l))
  | inr no_e ↦ rw (no_e, due) (due-All locked now l)
]

insert-Mem-head : (e : OutboxEvent) (l : List OutboxEvent) → Memᴰ e (insert e l)
unfolding insert
insert-Mem-head e [] = Memᴰ.head refl
insert-Mem-head e (f ∷ l) = elim (Bool-cases (leb e.created_at f.created_at)) [
  | inl first ↦ rw (first, insert) (Memᴰ.head refl)
  | inr later ↦ rw (later, insert) (Memᴰ.tail (insert-Mem-head e l))
]

insert-Mem : (e g : OutboxEvent) (l : List OutboxEvent) → Memᴰ g l → Memᴰ g (insert e l)
unfolding insert
insert-Mem e g [] m = elim m [ ]
insert-Mem e g (f ∷ l) m = elim (Bool-cases (leb e.created_at f.created_at)) [
  | inl first ↦ rw (first, insert) (Memᴰ.tail m)
  | inr later ↦
      rw (later, insert)
        (elim m [ Memᴰ.head p ↦ Memᴰ.head p | Memᴰ.tail k ↦ Memᴰ.tail (insert-Mem e g l k) ])
]

pub due-Mem :
    (locked : OutboxEvent → Bool) (now : ℕ) (g : OutboxEvent) (l : List OutboxEvent)
    → Memᴰ g l
    → (is_due g now && not (locked g)) ≡ true
    → Memᴰ g (due locked now l)
unfolding due
due-Mem locked now g [] m h = elim m [ ]
due-Mem locked now g (e ∷ l) (Memᴰ.head p) h =
    let due_e : (is_due e now && not (locked e)) ≡ true =
      subst (λ x. (is_due x now && not (locked x)) ≡ true) p h in
    rw (due_e, due)
      (subst (λ x. Memᴰ x (insert e (due locked now l))) (sym p)
        (insert-Mem-head e (due locked now l)))
due-Mem locked now g (e ∷ l) (Memᴰ.tail m) h = elim (Bool-cases (is_due e now && not (locked e))) [
  | inl yes_e ↦ rw (yes_e, due) (insert-Mem e g (due locked now l) (due-Mem locked now g l m h))
  | inr no_e ↦ rw (no_e, due) (due-Mem locked now g l m h)
]

All-take : (P : OutboxEvent → Type 0) (n : ℕ) (l : List OutboxEvent) → All P l → All P (take n l)
All-take P zero l h = tt
All-take P (suc n) [] h = tt
All-take P (suc n) (x ∷ xs) h = (h.0, All-take P n xs h.1)

Ordered-take : (n : ℕ) (l : List OutboxEvent) → Ordered l → Ordered (take n l)
Ordered-take zero l h = tt
Ordered-take (suc n) [] h = tt
Ordered-take (suc n) (x ∷ xs) h = (All-take _ n xs h.0, Ordered-take n xs h.1)

All-Mem :
    (P : OutboxEvent → Type 0) (g : OutboxEvent) (l : List OutboxEvent) → All P l → Memᴰ g l → P g
All-Mem P g [] h m = elim m [ ]
All-Mem P g (x ∷ l) h (Memᴰ.head p) = subst P (sym p) h.0
All-Mem P g (x ∷ l) h (Memᴰ.tail m) = All-Mem P g l h.1 m

-- `n` events that are not newer than `g` are all taken.
abbrev pub AllOlder : ℕ → OutboxEvent → List OutboxEvent → Type 0
AllOlder n g l = (length l ≡ n) × All (λ f. f.created_at ≤ g.created_at) l

taken :
    (n : ℕ) (g : OutboxEvent) (l : List OutboxEvent)
    → Ordered l
    → Memᴰ g l
    → Memᴰ g (take n l) ⊎ AllOlder n g (take n l)
taken zero g l o m = inr (refl, tt)
taken (suc n) g [] o m = elim m [ ]
taken (suc n) g (x ∷ xs) o (Memᴰ.head p) = inl (Memᴰ.head p)
taken (suc n) g (x ∷ xs) o (Memᴰ.tail m) = elim (taken n g xs o.1 m) [
  | inl k ↦ inl (Memᴰ.tail k)
  | inr older ↦
      inr (ap suc older.0, (All-Mem (λ f. x.created_at ≤ f.created_at) g xs o.0 m, older.1))
]

-- A round of the dispatcher selects at most a hundred events, in the order of their creation; each is
-- due and not locked. An event that is due and not locked is selected, or a hundred events were
-- selected that are all as old as it is at least.
pub dispatch_selects :
    (locked : OutboxEvent → Bool) (db : Db) (now : ℕ)
    → (length (selected locked now db.outbox) ≤ 100)
      × Ordered (selected locked now db.outbox)
      × All (λ e. (is_due e now && not (locked e)) ≡ true) (selected locked now db.outbox)
      × ((g : OutboxEvent)
          → Memᴰ g db.outbox
          → (is_due g now && not (locked g)) ≡ true
          → Memᴰ g (selected locked now db.outbox) ⊎ AllOlder 100 g (selected locked now db.outbox))
dispatch_selects locked db now =
    let l = due locked now db.outbox in
    (
      omega (arith, length-take 100 l),
      Ordered-take 100 l (due-Ordered locked now db.outbox),
      All-take _ 100 l (due-All locked now db.outbox),
      λ g m h.
          taken 100 g l (due-Ordered locked now db.outbox) (due-Mem locked now g db.outbox m h),
    )
