-- ===== src/Gateway/Streaming/Received.antt =====
-- What the caller of ModelGateway.stream receives.
use bbd_os.Prelude.{ℕ, suc, ◌<◌, ◌≡◌, ◌≢◌, ◌⊎◌, String, Bool, true, List, not, str_eq, [], ok}
use bbd_os.Paging.{select_where}
use bbd_os.Gateway.Streaming.{
  StreamAnswer, streamed, unreachable, protocol_failed, no_time, complete, broken, late, garbled,
  Streamed,
}

abbrev pub is_full : String → Bool
is_full line = not (str_eq line "")

-- The lines of the answer to one attempt that are not empty.
abbrev pub lines_of : StreamAnswer → List String
lines_of (streamed status lines ending) = select_where is_full lines
lines_of unreachable = []
lines_of protocol_failed = []
lines_of no_time = []

-- An answer that came to its end.
abbrev pub IsComplete : StreamAnswer → Type 0
IsComplete (streamed status lines complete) = status < 400
IsComplete (streamed status lines broken) = ⊥
IsComplete (streamed status lines late) = ⊥
IsComplete (streamed status lines garbled) = ⊥
IsComplete unreachable = ⊥
IsComplete protocol_failed = ⊥
IsComplete no_time = ⊥

-- What the caller got is of one answer: all its lines, or none of them and an error.
pub record FromAnswer (a : StreamAnswer) (s : Streamed) : Type 0 where
  pub received : ((s.lines ≡ []) × (s.outcome ≢ ok tt)) ⊎ (s.lines ≡ lines_of a)
  pub whole : s.outcome ≡ ok tt → IsComplete a

-- An attempt is the last, with one request, or the first and passed over.
abbrev Settles : Bool → StreamAnswer → Streamed → Streamed → Type 0
Settles first a again s = ((first ≡ true) × (s ≡ again)) ⊎ (FromAnswer a s × (s.requests ≡ 1))

-- The stream stops before a request, or with the answer to the first or the second attempt.
abbrev pub FromAttempt : (ℕ → StreamAnswer) → Streamed → Type 0
FromAttempt answers s = (i : ℕ) × (i < 2) × FromAnswer (answers i) s × (s.requests ≡ suc i)

abbrev Stops : (ℕ → StreamAnswer) → Streamed → Type 0
Stops answers s = ((s.lines ≡ []) × (s.requests ≡ 0) × (s.outcome ≢ ok tt)) ⊎ FromAttempt answers s
