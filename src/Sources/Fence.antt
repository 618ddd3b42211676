-- ===== src/Sources/Fence.antt =====
-- What a generation number says about a source. Workers compare the generation that an event
-- carries with that of the source, and take an equal one to mean that nothing has happened to it.
use bbd_os.Prelude.{
  ℕ, ◌≤◌, ◌≡◌, refl, Option, none, some, true, false, ◌&&◌, ◌||◌, String, List, [], ◌∷◌, arith,
  Result, ok, err, row, put, row-put, row-put_self, row-append, row-key, ◌==◌, Bool-cases,
  Option-cases, inl, inr,
}
use bbd_os.Database.{Db, Source, SourceStatus, get_source, same_status, is_archived}
use bbd_os.Sources.{
  SourceCreate, SourcePatch, create_source, update_source, archive_source, start_source_purge,
  update_found, store_update, latest_purge, in_progress, queue_purge, retire, rename, set_status,
  reactivates,
}

-- A later state of a source.
pub record Evolves (s s' : Source) : Type 0 where
  pub same_id : s'.id ≡ s.id
  pub grows : s.generation ≤ s'.generation
  pub fenced : s'.generation ≡ s.generation → s'.status ≡ s.status
  pub terminal : s.status ≡ SourceStatus.archived → s'.status ≡ SourceStatus.archived

Evolves-refl : (s : Source) → Evolves s s
Evolves-refl s = ground arith

Evolves-trans : {a b c : Source} → Evolves a b → Evolves b c → Evolves a c
Evolves-trans p q = record {
  same_id = cc (p.same_id, q.same_id);
  grows = omega (arith, p.grows, q.grows);
  fenced = λ e.
      cc (q.fenced (omega (arith, p.grows, q.grows)), p.fenced (omega (arith, p.grows, q.grows)));
  terminal = λ e. q.terminal (p.terminal e);
}

-- The requests of modules/sources/routes.py that change a source. A request that fails changes
-- nothing.
pub data SourceRequest : Type 0 where
  create : SourceCreate → ℕ → SourceRequest
  update : ℕ → SourcePatch → SourceRequest
  archive : ℕ → SourceRequest
  purge : ℕ → ℕ → ℕ → SourceRequest

committed : Result (Option Source × Db) → Db → Db
committed (ok (_, db')) db = db'
committed (err _) db = db

unfoldable pub handle : Db → SourceRequest → ℕ → Db
unfolding committed
handle db (create payload id) now = (create_source db payload id now).1
handle db (update id payload) now = committed (update_source db id payload now) db
handle db (archive id) now = (archive_source db id now).1
handle db (purge id operation_id event_id) now =
    (start_source_purge db id operation_id event_id now).1

-- The requests in the order of their transactions, each with its time.
unfoldable pub serve : Db → List (SourceRequest × ℕ) → Db
serve db [] = db
serve db ((request, now) ∷ rest) = serve (handle db request now) rest

-- The row `i` of the sources is a later state of `s`.
abbrev pub Kept : ℕ → Source → List Source → Type 0
Kept i s l = (s' : Source) × (row (λ r. Source.id r) i l ≡ some s') × Evolves s s'

same_status→eq : (a b : SourceStatus) → same_status a b ≡ true → a ≡ b
same_status→eq a b h = ground arith

retire-Evolves : (s : Source) (now : ℕ) → Evolves s (retire s now)
unfolding retire
retire-Evolves s now = ground arith

rename-Evolves : (name : Option (Option String)) (s : Source) → Evolves s (rename name s)
unfolding rename
rename-Evolves none s = Evolves-refl s
rename-Evolves (some none) s = ground arith
rename-Evolves (some (some n)) s = ground arith

set_status-Evolves :
    (status : Option (Option SourceStatus)) (now : ℕ) (s c : Source)
    → (is_archived s.status && reactivates status) ≡ false
    → set_status status now s ≡ ok c
    → Evolves s c
unfolding set_status
set_status-Evolves none now s c ne h = ground (arith, Evolves-refl s)
set_status-Evolves (some none) now s c ne h = ground arith
set_status-Evolves (some (some status)) now s c ne h = ground arith

rename_allowed :
    (payload : SourcePatch) (s : Source)
    → (is_archived s.status && reactivates payload.status) ≡ false
    → (is_archived (rename payload.name s).status && reactivates payload.status) ≡ false
unfolding rename
rename_allowed payload s h = ground arith

-- A row that was loaded, changed and put back.
put-Kept :
    (i j : ℕ) (s old new : Source) (l : List Source)
    → row (λ r. Source.id r) i l ≡ some s
    → row (λ r. Source.id r) j l ≡ some old
    → Evolves old new
    → Kept i s (put (λ r. Source.id r) new l)
put-Kept i j s old new l h k e = elim (Bool-cases (new.id == i)) [
  | inl same ↦ (
    new,
    ground (arith, row-put (λ r. Source.id r) i new l),
    ground
        (arith, row-key (λ r. Source.id r) j l {r = old}, row-key (λ r. Source.id r) i l {r = s}),
  )
  | inr other ↦ (s, ground (arith, row-put (λ r. Source.id r) i new l), Evolves-refl s)
]

archive_source-Kept :
    (db : Db) (id now i : ℕ) (s : Source)
    → get_source db i ≡ some s
    → Kept i s (archive_source db id now).1.sources
unfolding archive_source
archive_source-Kept db id now i s h = elim (Option-cases (get_source db id)) [
  | inl missing ↦ rw (missing, archive_source) (s, h, Evolves-refl s)
  | inr (old, found) ↦
      rw (found, archive_source)
        (put-Kept i id s old (retire old now) db.sources h found (retire-Evolves old now))
]

queue_purge-Kept :
    (db : Db) (source : Source) (id operation_id event_id now i : ℕ) (s : Source)
    → get_source db i ≡ some s
    → get_source db id ≡ some source
    → Kept i s (queue_purge db source operation_id event_id now).1.sources
unfolding queue_purge
queue_purge-Kept db source id operation_id event_id now i s h found =
    put-Kept i id s source (retire source now) db.sources h found (retire-Evolves source now)

start_source_purge-Kept :
    (db : Db) (id operation_id event_id now i : ℕ) (s : Source)
    → get_source db i ≡ some s
    → Kept i s (start_source_purge db id operation_id event_id now).1.sources
unfolding start_source_purge
start_source_purge-Kept db id operation_id event_id now i s h =
    elim (Option-cases (get_source db id)) [
      | inl missing ↦ rw (missing, start_source_purge) (s, h, Evolves-refl s)
      | inr (old, found) ↦
          let queued = queue_purge-Kept db old id operation_id event_id now i s h found in
          elim (Option-cases (latest_purge id db.purges)) [
            | inl first ↦ rw (found, first, start_source_purge) queued
            | inr (current, last) ↦
                elim (Bool-cases (is_archived old.status || in_progress current.status)) [
                  | inl busy ↦ rw (found, last, busy, start_source_purge) (s, h, Evolves-refl s)
                  | inr idle ↦ rw (found, last, idle, start_source_purge) queued
                ]
          ]
    ]

store_update-Kept :
    (db : Db) (id i : ℕ) (s old : Source) (r : Result Source)
    → get_source db i ≡ some s
    → get_source db id ≡ some old
    → ((c : Source) → r ≡ ok c → Evolves old c)
    → Kept i s (committed (store_update db r) db).sources
unfolding store_update committed
store_update-Kept db id i s old (err e) h found evolves = (s, h, Evolves-refl s)
store_update-Kept db id i s old (ok c) h found evolves =
    put-Kept i id s old c db.sources h found (evolves c refl)

update_found-Kept :
    (db : Db) (id : ℕ) (payload : SourcePatch) (now i : ℕ) (s old : Source)
    → get_source db i ≡ some s
    → get_source db id ≡ some old
    → Kept i s (committed (update_found db payload now old) db).sources
unfolding update_found committed
update_found-Kept db id payload now i s old h found =
    elim (Bool-cases (is_archived old.status && reactivates payload.status)) [
      | inl refused ↦ rw (refused, update_found, committed) (s, h, Evolves-refl s)
      | inr allowed ↦
          rw (allowed, update_found)
            (store_update-Kept db id i s old
              (set_status payload.status now (rename payload.name old)) h found
              (λ c e. Evolves-trans (rename-Evolves payload.name old) (
                set_status-Evolves payload.status now (rename payload.name old) c
                  (rename_allowed payload old allowed) e)))
    ]

update_source-Kept :
    (db : Db) (id : ℕ) (payload : SourcePatch) (now i : ℕ) (s : Source)
    → get_source db i ≡ some s
    → Kept i s (committed (update_source db id payload now) db).sources
unfolding update_source committed
update_source-Kept db id payload now i s h = elim (Option-cases (get_source db id)) [
  | inl missing ↦ rw (missing, update_source, committed) (s, h, Evolves-refl s)
  | inr (old, found) ↦
      rw (found, update_source) (update_found-Kept db id payload now i s old h found)
]

handle-Kept :
    (db : Db) (request : SourceRequest) (now i : ℕ) (s : Source)
    → get_source db i ≡ some s
    → Kept i s (handle db request now).sources
unfolding handle create_source
handle-Kept db (create payload id) now i s h = (s, rw row-append (rw h), Evolves-refl s)
handle-Kept db (update id payload) now i s h = update_source-Kept db id payload now i s h
handle-Kept db (archive id) now i s h = archive_source-Kept db id now i s h
handle-Kept db (purge id operation_id event_id) now i s h =
    start_source_purge-Kept db id operation_id event_id now i s h

-- A source that exists goes on to exist under any sequence of requests; its generation never falls,
-- an unchanged generation means an unchanged status, and an archived source stays archived.
pub serve-Evolves :
    (db : Db) (requests : List (SourceRequest × ℕ)) (i : ℕ) (s : Source)
    → get_source db i ≡ some s
    → (s' : Source) × (get_source (serve db requests) i ≡ some s') × Evolves s s'
unfolding serve
serve-Evolves db [] i s h = (s, h, Evolves-refl s)
serve-Evolves db ((request, now) ∷ rest) i s h =
    let (t, found, first) = handle-Kept db request now i s h in
    let (s', there, later) = serve-Evolves (handle db request now) rest i t found in
    (s', there, Evolves-trans first later)

retire-archived : (s : Source) (now : ℕ) → (retire s now).status ≡ SourceStatus.archived
unfolding retire
retire-archived s now = ground arith

retire-id : (s : Source) (now : ℕ) → (retire s now).id ≡ s.id
unfolding retire
retire-id s now = ground arith

pub archive_source-archived :
    (db : Db) (id now : ℕ) (source : Source)
    → get_source db id ≡ some source
    → (s : Source) × (get_source (archive_source db id now).1 id ≡ some s)
      × (s.status ≡ SourceStatus.archived)
unfolding archive_source
archive_source-archived db id now source listed =
    rw (listed, archive_source)
      (
        retire source now,
        row-put_self (λ r. Source.id r) id (retire source now) source db.sources listed
            (cc (retire-id source now, row-key (λ r. Source.id r) id db.sources listed)),
        retire-archived source now,
      )
