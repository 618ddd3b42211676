-- ===== src/Gateway/Slots.antt =====
-- ModelGateway._slot: two keys in Redis bound how many requests are sent at a time. A client tries the
-- keys in turn, holds the one that it set until its time is up, and deletes it if it still holds its
-- token. Clients are interleaved in any order; `timeout` is `timeout_seconds`, in whole seconds, and a
-- client that has a slot is cancelled at its deadline.
pub mod Capacity
use bbd_os.Prelude.{
  ℕ, zero, suc, ◌+◌, ◌≤◌, ◌<◌, ◌≡◌, ◌⊎◌, Option, none, some, Bool, true, false, List, [], ◌∷◌, ◌++◌,
  if◌then◌else◌, ◌==◌, leb, ltb, All,
}

pub record Lease : Type 0 where
  pub token : ℕ
  pub expires_at : ℕ

-- A client between its SET and its release.
pub record Holder : Type 0 where
  pub token : ℕ
  pub slot : ℕ
  pub deadline : ℕ

pub record Slots : Type 0 where
  pub now : ℕ
  pub keys : ℕ → Option Lease
  pub holders : List Holder

unfoldable pub is_free : Option Lease → ℕ → Bool
is_free none now = true
is_free (some lease) now = leb lease.expires_at now

-- `for slot in range(2)`: the first key that SET NX sets.
unfoldable pub first_free : ℕ → ℕ → Slots → Option ℕ
unfolding is_free
first_free zero slot s = none
first_free (suc left) slot s =
    let more = first_free left (suc slot) s in
    if is_free (s.keys slot) s.now then some slot else more

abbrev pub set_key : ℕ → Option Lease → Slots → Slots
set_key slot lease s = record s { keys = λ k. if k == slot then lease else s.keys k }

unfoldable pub holds_token : Option Lease → ℕ → Bool
holds_token none token = false
holds_token (some lease) token = lease.token == token

-- The script _RELEASE.
unfoldable pub release : ℕ → ℕ → Slots → Slots
unfolding holds_token
release slot token s = if holds_token (s.keys slot) token then set_key slot none s else s

-- SET NX EX at `slot`.
abbrev pub lease_for : ℕ → ℕ → Slots → Option Lease
lease_for timeout token s = some (record { token = token; expires_at = s.now + timeout + 10 })

abbrev pub held : ℕ → ℕ → ℕ → ℕ → Slots → Slots
held timeout token started slot s = record s {
  keys = λ k. if k == slot then lease_for timeout token s else s.keys k;
  holders = record { token = token; slot = slot; deadline = started + timeout } ∷ s.holders;
}

pub data Step (timeout : ℕ) (s : Slots) : Slots → Type 0 where
  -- a client that started at `started` gets a key before its deadline
  enter :
      (token started slot : ℕ)
      → started ≤ s.now
      → s.now ≤ started + timeout
      → first_free 2 0 s ≡ some slot
      → Step timeout s (held timeout token started slot s)
  -- the key is set, but the client learns only of an error
  orphan :
      (token slot : ℕ)
      → first_free 2 0 s ≡ some slot
      → Step timeout s (set_key slot (lease_for timeout token s) s)
  -- a client ends, with its script run or lost
  leave :
      (before after : List Holder) (h : Holder)
      → s.holders ≡ before ++ h ∷ after
      → Step timeout s (record (release h.slot h.token s) { holders = before ++ after })
  lost :
      (before after : List Holder) (h : Holder)
      → s.holders ≡ before ++ h ∷ after
      → Step timeout s (record s { holders = before ++ after })
  -- time passes, and no client is in its slot after its deadline
  tick :
      (later : ℕ)
      → s.now ≤ later
      → All (λ h. later ≤ h.deadline) s.holders
      → Step timeout s (record s { now = later })

pub data Reach (timeout : ℕ) (s : Slots) : Slots → Type 0 where
  here : Reach timeout s s
  next : {t u : Slots} → Reach timeout s t → Step timeout t u → Reach timeout s u
