-- ===== src/Gateway/Slots/Capacity.antt =====
-- At most two clients hold a slot.
use mathlib.Core.Path.{subst}
use bbd_os.Prelude.{
  ℕ, zero, suc, ◌+◌, ◌≤◌, ◌<◌, ◌≡◌, inl, inr, refl, sym, ap, ◌∙◌, arith, some, Bool-cases, true,
  false, List, [], ◌∷◌, ◌++◌, if◌then◌else◌, ◌==◌, ==_refl, All, length,
}
use bbd_os.Gateway.Slots.{
  Lease, Holder, Slots, is_free, first_free, set_key, lease_for, held, release, Step, enter, orphan,
  leave, lost, tick, Reach, here, next,
}

-- How many clients hold a slot.
unfoldable pub occupied : ℕ → List Holder → ℕ
occupied slot [] = 0
occupied slot (h ∷ l) = (if h.slot == slot then 1 else 0) + occupied slot l

occupied-append :
    (slot : ℕ) (xs ys : List Holder)
    → occupied slot (xs ++ ys) ≡ occupied slot xs + occupied slot ys
unfolding occupied
occupied-append slot [] ys = omega arith
occupied-append slot (x ∷ xs) ys = omega (arith, occupied-append slot xs ys)

-- Each client's key is set for longer than the client stays.
abbrev IsHeld : Slots → Holder → Type 0
IsHeld s h =
    (h.slot < 2)
    × (s.now ≤ h.deadline)
    × (l : Lease) × (s.keys h.slot ≡ some l)
    × (h.deadline < l.expires_at)

record IsExclusive (s : Slots) : Type 0 where
  held_all : All (IsHeld s) s.holders
  once : (slot : ℕ) → occupied slot s.holders ≤ 1

free_expired : (l : Lease) (now : ℕ) → is_free (some l) now ≡ true → l.expires_at ≤ now
unfolding is_free
free_expired l now h = ground arith

-- A free key has no client.
unoccupied :
    (s : Slots) (slot : ℕ) (holders : List Holder)
    → is_free (s.keys slot) s.now ≡ true
    → All (IsHeld s) holders
    → occupied slot holders ≡ 0
unfolding occupied
unoccupied s slot [] free h = refl
unoccupied s slot (x ∷ holders) free ((below, early, l, is_set, long), later) =
    elim (Bool-cases (x.slot == slot)) [
      | inr other ↦ rw other (omega (arith, unoccupied s slot holders free later))
      | inl same ↦
          let there : x.slot ≡ slot = ground arith in
          let expired =
            free_expired l s.now
              (subst (λ o. is_free o s.now ≡ true) (ap s.keys (sym there) ∙ is_set) free) in
          absurd (omega arith)
    ]

first_free_sound :
    (left slot : ℕ) (s : Slots) (k : ℕ)
    → first_free left slot s ≡ some k
    → (is_free (s.keys k) s.now ≡ true) × (k < slot + left)
unfolding first_free
first_free_sound zero slot s k h = cc
first_free_sound (suc left) slot s k h = elim (Bool-cases (is_free (s.keys slot) s.now)) [
  | inl free ↦
      let same : slot ≡ k = let e : some slot ≡ some k = rw free at h in ground arith in
      (subst (λ j. is_free (s.keys j) s.now ≡ true) same free, omega arith)
  | inr taken ↦
      let found = first_free_sound left (suc slot) s k (rw taken at h) in
      (found.0, omega (arith, found.1))
]

-- Clients of other keys do not notice a write to a key.
keep_off :
    (s s' : Slots) (k : ℕ) (l : List Holder)
    → s'.now ≡ s.now
    → ((j : ℕ) → (j == k) ≡ false → s'.keys j ≡ s.keys j)
    → occupied k l ≡ 0
    → All (IsHeld s) l
    → All (IsHeld s') l
unfolding occupied
keep_off s s' k [] same off none_there h = tt
keep_off s s' k (x ∷ l) same off none_there ((below, early, lease, is_set, long), later) = (
  (below, rw same early, lease, off x.slot (ground arith) ∙ is_set, long),
  keep_off s s' k l same off (omega arith) later,
)

All-without :
    (P : Holder → Type 0) (before after : List Holder) (h : Holder)
    → All P (before ++ h ∷ after)
    → All P (before ++ after)
All-without P [] after h all = all.1
All-without P (x ∷ before) after h all = (all.0, All-without P before after h all.1)

occupied-without :
    (j : ℕ) (before after : List Holder) (h : Holder)
    → occupied j (before ++ h ∷ after)
      ≡ (if h.slot == j then 1 else 0) + occupied j (before ++ after)
unfolding occupied
occupied-without j [] after h = refl
occupied-without j (x ∷ before) after h = omega (arith, occupied-without j before after h)

entered :
    (token slot deadline : ℕ) (l : List Holder)
    → occupied slot l ≡ 0
    → ((j : ℕ) → occupied j l ≤ 1)
    → (j : ℕ) → occupied j (record { token = token; slot = slot; deadline = deadline } ∷ l) ≤ 1
unfolding occupied
entered token slot deadline l none_there once j = elim (Bool-cases (slot == j)) [
  | inl taken ↦
      let same : slot ≡ j = ground arith in
      rw taken (omega (arith, subst (λ k. occupied k l ≡ 0) same none_there))
  | inr other ↦ rw other (omega (arith, once j))
]

enter-IsExclusive :
    (timeout : ℕ) (s : Slots) (token started slot : ℕ)
    → started ≤ s.now
    → s.now ≤ started + timeout
    → first_free 2 0 s ≡ some slot
    → IsExclusive s
    → IsExclusive (held timeout token started slot s)
enter-IsExclusive timeout s token started slot begun early free inv =
    let (is_free_slot, below) = first_free_sound 2 0 s slot free in
    let none_there = unoccupied s slot s.holders is_free_slot inv.held_all in
    record {
      held_all = (
        (
          omega arith,
          early,
          record { token = token; expires_at = s.now + timeout + 10 },
          ground arith,
          omega arith,
        ),
        keep_off s (held timeout token started slot s) slot s.holders refl (λ j other. ground arith)
            none_there inv.held_all,
      );
      once = entered token slot (started + timeout) s.holders none_there inv.once;
    }

-- A release leaves the keys of the other clients.
release_off :
    (s : Slots) (slot token j : ℕ) → (j == slot) ≡ false → (release slot token s).keys j ≡ s.keys j
unfolding release
release_off s slot token j other = ground arith

release_now : (s : Slots) (slot token : ℕ) → (release slot token s).now ≡ s.now
unfolding release
release_now s slot token = ground arith

module _ (s : Slots) (before after : List Holder) (h : Holder)
    (split : s.holders ≡ before ++ h ∷ after) (inv : IsExclusive s) where
  others-IsHeld : All (IsHeld s) (before ++ after)
  others-IsHeld = All-without (IsHeld s) before after h (subst (All (IsHeld s)) split inv.held_all)

  others_once : (j : ℕ) → occupied j (before ++ after) ≤ 1
  others_once j =
      omega
        (arith, occupied-without j before after h, subst (λ l. occupied j l ≤ 1) split (inv.once j))

  left_none : occupied h.slot (before ++ after) ≡ 0
  left_none =
      let all = subst (λ l. occupied h.slot l ≤ 1) split (inv.once h.slot) in
      let counted = occupied-without h.slot before after h in
      let this = ==_refl h.slot in ground arith

ticked :
    (s : Slots) (later : ℕ) (l : List Holder)
    → All (λ h. later ≤ h.deadline) l
    → All (IsHeld s) l
    → All (IsHeld (record s { now = later })) l
ticked s later [] due h = tt
ticked s later (x ∷ l) (due, dues) ((below, early, lease, is_set, long), helds) =
    ((below, due, lease, is_set, long), ticked s later l dues helds)

nobody : (j : ℕ) → occupied j [] ≤ 1
unfolding occupied
nobody j = omega arith

Step-IsExclusive : {timeout : ℕ} {s t : Slots} → Step timeout s t → IsExclusive s → IsExclusive t
Step-IsExclusive {timeout} {s} (enter token started slot begun early free) inv =
    enter-IsExclusive timeout s token started slot begun early free inv
Step-IsExclusive {timeout} {s} (orphan token slot free) inv =
    let (is_free_slot, below) = first_free_sound 2 0 s slot free in
    record {
      held_all =
          keep_off s (set_key slot (lease_for timeout token s) s) slot s.holders refl
            (λ j other. ground arith) (unoccupied s slot s.holders is_free_slot inv.held_all)
            inv.held_all;
      once = inv.once;
    }
Step-IsExclusive {timeout} {s} (leave before after h split) inv = record {
  held_all =
      keep_off s (record (release h.slot h.token s) { holders = before ++ after }) h.slot
        (before ++ after) (release_now s h.slot h.token) (release_off s h.slot h.token)
        (left_none s before after h split inv) (others-IsHeld s before after h split inv);
  once = others_once s before after h split inv;
}
Step-IsExclusive {timeout} {s} (lost before after h split) inv = record {
  held_all = others-IsHeld s before after h split inv;
  once = others_once s before after h split inv;
}
Step-IsExclusive {timeout} {s} (tick later passes due) inv = record {
  held_all = ticked s later s.holders due inv.held_all;
  once = inv.once;
}

Reach-IsExclusive : {timeout : ℕ} {s t : Slots} → IsExclusive s → Reach timeout s t → IsExclusive t
Reach-IsExclusive inv here = inv
Reach-IsExclusive inv (next r step) = Step-IsExclusive step (Reach-IsExclusive inv r)

length-occupied :
    (s : Slots) (l : List Holder) → All (IsHeld s) l → length l ≡ occupied 0 l + occupied 1 l
unfolding occupied
length-occupied s [] h = refl
length-occupied s (x ∷ l) (held_x, later) =
    let below = held_x.0 in let rest = length-occupied s l later in ground arith

-- From a state in which no client has a slot, however clients are interleaved, at most two hold a slot
-- at any time, where none stays in it past its deadline; also after releases were lost and keys were
-- set for clients that failed.
pub two_slots :
    (timeout : ℕ) (s t : Slots) → s.holders ≡ [] → Reach timeout s t → length t.holders ≤ 2
two_slots timeout s t quiet r =
    let inv =
      Reach-IsExclusive
        (record {
          held_all = subst (All (IsHeld s)) (sym quiet) tt;
          once = λ j. subst (λ l. occupied j l ≤ 1) (sym quiet) (nobody j);
        })
        r in
    omega (arith, length-occupied t t.holders inv.held_all, inv.once 0, inv.once 1)
