-- ===== src/Gateway/Streaming.antt =====
-- The streamed answers of ModelGateway.stream.
pub mod Received
use bbd_os.Prelude.{
  ℕ, zero, suc, ◌≡◌, ◌⊎◌, inl, inr, refl, sym, ap, ◌∙◌, arith, String, Option, none, some, Bool,
  true, false, List, [], ◌∷◌, ◌&&◌, ◌||◌, not, if◌then◌else◌, ◌==◌, leb, str_eq, append, ends_with,
  Result, ok, err, Error, model_gateway_error, privacy_policy_denied, transport_error, length,
}
use bbd_os.Gateway.{
  ModelGateway, ModelRequest, ModelMapping, Capability, Sent, Meets, is_transient, refusal,
  may_send, verified, bearer,
}

-- How the body of a streamed answer ends: whole, by an error of the network or of the protocol, or by the
-- deadline of the slot.
pub data Ending : Type 0 where
  complete broken late garbled : Ending

-- An answer with its status, the lines that arrive, and how they end; or an error before any answer.
pub data StreamAnswer : Type 0 where
  streamed : ℕ → List String → Ending → StreamAnswer
  unreachable protocol_failed no_time : StreamAnswer

abbrev pub no_capacity : Error
no_capacity = model_gateway_error "Model capacity is unavailable"

abbrev pub stream_failure : Error
stream_failure = model_gateway_error "Model gateway stream failed"

-- Empty lines are not passed on.
unfoldable pub passed_on : List String → List String
passed_on [] = []
passed_on (line ∷ lines) =
    let rest = passed_on lines in if str_eq line "" then rest else line ∷ rest

abbrev pub is_nil {ℓ} : {A : Type ℓ} → List A → Bool
is_nil [] = true
is_nil (x ∷ xs) = false

-- What the caller has received, how the stream ended, and the number of requests.
pub record Streamed : Type 0 where
  pub lines : List String
  pub outcome : Result (Unit {0})
  pub requests : ℕ

abbrev pub one_more : Streamed → Streamed
one_more s = record s { requests = suc s.requests }

abbrev pub ended : List String → Result (Unit {0}) → Streamed
ended lines outcome = record { lines = lines; outcome = outcome; requests = 1 }

-- The body: a break is an error once a line was passed on or in the last attempt.
unfoldable pub read_body : Bool → List String → Ending → Streamed → Streamed
unfolding passed_on
read_body first lines complete again = ended (passed_on lines) (ok tt)
read_body first lines late again = ended (passed_on lines) (err no_capacity)
read_body first lines garbled again = ended (passed_on lines) (err transport_error)
read_body first lines broken again =
    if not first || not (is_nil (passed_on lines))
    then ended (passed_on lines) (err stream_failure)
    else again

unfoldable pub after_stream : Bool → StreamAnswer → Streamed → Streamed
unfolding read_body is_transient refusal
after_stream first (streamed status lines ending) again =
    if is_transient status && first
    then again
    else if leb 400 status
    then ended [] (err (refusal status "The configured gateway rejected streaming"))
    else read_body first lines ending again
after_stream first unreachable again = if first then again else ended [] (err stream_failure)
after_stream first protocol_failed again = ended [] (err transport_error)
after_stream first no_time again = ended [] (err no_capacity)

-- The loop over two attempts; it cannot end without a return, since the second attempt ends.
unfoldable pub stream_attempts : ℕ → ℕ → (ℕ → StreamAnswer) → Streamed
unfolding after_stream
stream_attempts zero attempt answers = record { lines = []; outcome = ok tt; requests = 0 }
stream_attempts (suc left) attempt answers =
    after_stream (attempt == 0) (answers attempt)
      (one_more (stream_attempts left (suc attempt) answers))

abbrev pub not_sent : Error → Streamed
not_sent e = record { lines = []; outcome = err e; requests = 0 }

unfoldable pub stream_verified : Bool → (ℕ → StreamAnswer) → Result (Unit {0}) → Streamed
unfolding stream_attempts
stream_verified slot answers (err e) = not_sent e
stream_verified slot answers (ok done) =
    if slot then stream_attempts 2 0 answers else not_sent no_capacity

abbrev pub is_some {ℓ} : {A : Type ℓ} → Option A → Bool
is_some none = false
is_some (some x) = true

unfoldable pub stream :
    ModelGateway → ModelRequest → Result (Option String) → Bool → (ℕ → StreamAnswer) → Streamed
unfolding may_send verified stream_verified
stream gateway r stored slot answers =
    if may_send r.policy r.alias r.mapping gateway.destination_id (not (str_eq gateway.api_key ""))
        Capability.streaming
      && is_some gateway.base_url
      && is_some r.mapping
    then stream_verified slot answers
        (if r.probe then ok tt else verified "Streaming capability has not been verified" stored)
    else not_sent (privacy_policy_denied "Model request denied by privacy policy")
