-- ===== src/Gateway.antt =====
-- core/model_gateway: which requests may be sent to a model (policy.py), and how they are sent
-- (client.py). What a server answers is an argument: one answer for each attempt. A payload is its
-- JSON text. `base_url` is as the constructor leaves it, without slashes at its end.
pub mod Sending
pub mod Streaming
pub mod Slots
use bbd_os.Prelude.{
  ℕ, zero, suc, ◌+◌, String, Option, none, some, Bool, true, false, List, [], ◌∷◌, ◌&&◌, ◌||◌, not,
  if◌then◌else◌, ◌==◌, leb, str_eq, any, append, is_blank, lstrip_slash, rstrip_slash, ends_with,
  Error, model_gateway_error, privacy_policy_denied, capability_unsupported, transport_error,
  Result, ok, err,
}

pub data Destination : Type 0 where
  unknown remote : Destination

pub record ModelMapping : Type 0 where
  pub model : String
  pub version : Option String
  pub destination : Destination

pub record RequestPolicy : Type 0 where
  pub reasoning_allowed : Bool
  pub embeddings_allowed : Bool
  pub local_only : Bool
  pub permitted_destinations : List String

pub data Capability : Type 0 where
  chat streaming embeddings structured tools reranking : Capability

abbrev pub is_remote : Destination → Bool
is_remote remote = true
is_remote unknown = false

-- Embeddings and reranking have a permission of their own.
abbrev pub permission : RequestPolicy → Capability → Bool
permission policy embeddings = policy.embeddings_allowed
permission policy reranking = policy.embeddings_allowed
permission policy chat = policy.reasoning_allowed
permission policy streaming = policy.reasoning_allowed
permission policy structured = policy.reasoning_allowed
permission policy tools = policy.reasoning_allowed

unfoldable pub may_send :
    RequestPolicy → String → Option ModelMapping → String → Bool → Capability → Bool
may_send policy alias none destination_id credential_configured capability = false
may_send policy alias (some mapping) destination_id credential_configured capability =
    if is_blank mapping.model
    then false
    else if not credential_configured
        || policy.local_only
        || str_eq alias "local-private"
        || not (is_remote mapping.destination)
        || not (any (λ d. str_eq d destination_id) policy.permitted_destinations)
    then false
    else permission policy capability

pub record ModelGateway : Type 0 where
  pub base_url : Option String
  pub api_key : String
  pub destination_id : String

abbrev pub not_empty : Option String → Option String
not_empty none = none
not_empty (some text) = if str_eq text "" then none else some (rstrip_slash text)

unfoldable pub new_gateway : Option String → String → String → ModelGateway
unfolding rstrip_slash
new_gateway base_url api_key destination_id = record {
  base_url = not_empty base_url;
  api_key = api_key;
  destination_id = destination_id;
}

-- A request that leaves the program.
pub record Sent : Type 0 where
  pub endpoint : String
  pub model : String
  pub payload : String
  pub authorization : Option String

-- What comes of one attempt: an answer with its status and its JSON, if that can be read; an error of
-- the transport; or the deadline of the slot.
pub data Answer : Type 0 where
  reply : ℕ → Option String → Answer
  timed_out network_failed transport_failed deadline : Answer

unfoldable pub is_transient : ℕ → Bool
is_transient status = status == 408 || status == 425 || status == 429 || leb 500 status

unfoldable pub is_unsupported : ℕ → Bool
is_unsupported status = status == 400 || status == 404 || status == 405 || status == 422

abbrev pub gateway_failure : Error
gateway_failure = model_gateway_error "Model gateway request failed"

abbrev pub read_json : Option String → Result String
read_json none = err (model_gateway_error "Model gateway returned invalid JSON")
read_json (some value) = ok value

unfoldable pub refusal : ℕ → String → Error
unfolding is_unsupported
refusal status why =
    if is_unsupported status
    then capability_unsupported why
    else model_gateway_error "Model gateway returned an HTTP error"

unfoldable pub read_reply : ℕ → Option String → Result String
unfolding refusal
read_reply status body =
    if leb 400 status
    then err (refusal status "The configured gateway rejected this capability")
    else read_json body

-- The attempts of `send`: `left` are left, of two. What the answer to each attempt is, is an argument.
-- With the result comes the number of requests that were sent.
abbrev pub attempted : Result String × ℕ → Result String × ℕ
attempted (r, n) = (r, suc n)

-- What follows an answer: the result, or another attempt.
unfoldable pub after_answer : Bool → Answer → Result String × ℕ → Result String × ℕ
unfolding is_transient read_reply
after_answer first (reply status body) again =
    if is_transient status && first then again else (read_reply status body, 1)
after_answer first timed_out again = if first then again else (err gateway_failure, 1)
after_answer first network_failed again = if first then again else (err gateway_failure, 1)
after_answer first transport_failed again = (err transport_error, 1)
after_answer first deadline again = (err (model_gateway_error "Model capacity is unavailable"), 1)

unfoldable pub send : ℕ → ℕ → (ℕ → Answer) → Result String × ℕ
unfolding after_answer
send zero attempt answers = (err gateway_failure, 0)
send (suc left) attempt answers =
    after_answer (attempt == 0) (answers attempt) (attempted (send left (suc attempt) answers))

-- What a request meets: the result of the last probe that Redis holds for the capability (`none` where
-- there is none that can be read), whether a slot is got, and the answers.
pub record Meets : Type 0 where
  pub stored : Result (Option String)
  pub slot : Bool
  pub answers : ℕ → Answer

pub record ModelRequest : Type 0 where
  pub alias : String
  pub mapping : Option ModelMapping
  pub policy : RequestPolicy
  pub capability : Capability
  pub path : String
  pub payload : String
  pub probe : Bool

unfoldable pub verified : String → Result (Option String) → Result (Unit {0})
verified why (err e) = err e
verified why (ok none) = err (model_gateway_error why)
verified why (ok (some result)) =
    if str_eq result "supported" then ok tt else err (model_gateway_error why)

unfoldable pub url_under : String → String → String
unfolding ends_with lstrip_slash
url_under base path =
    if ends_with "/v1" base
    then append base (append "/" (lstrip_slash path))
    else append base (append "/v1/" (lstrip_slash path))

abbrev pub bearer : String → Option String
bearer api_key = if str_eq api_key "" then none else some (append "Bearer " api_key)

abbrev pub times : Sent → ℕ → List Sent
times sent zero = []
times sent (suc n) = sent ∷ times sent n

abbrev pub sent_to : ModelGateway → ModelRequest → String → ModelMapping → Sent
sent_to gateway request base mapping = record {
  endpoint = url_under base request.path;
  model = mapping.model;
  payload = request.payload;
  authorization = bearer gateway.api_key;
}

-- What is answered, and the requests that were sent.
unfoldable pub send_in_slot :
    ModelGateway
    → ModelRequest
    → Meets
    → Result (Unit {0})
    → String
    → ModelMapping
    → Result String × List Sent
unfolding send url_under
send_in_slot gateway request meets (err e) base mapping = (err e, [])
send_in_slot gateway request meets (ok done) base mapping =
    if meets.slot
    then (
      (send 2 0 meets.answers).0,
      times (sent_to gateway request base mapping) (send 2 0 meets.answers).1,
    )
    else (err (model_gateway_error "Model capacity is unavailable"), [])

unfoldable pub configured :
    ModelGateway
    → ModelRequest
    → Meets
    → Option String
    → Option ModelMapping
    → Result String × List Sent
unfolding send_in_slot verified
configured gateway request meets none mapping =
    (err (model_gateway_error "Model gateway is not configured"), [])
configured gateway request meets (some base) none =
    (err (model_gateway_error "Model gateway is not configured"), [])
configured gateway request meets (some base) (some mapping) =
    send_in_slot gateway request meets
      (if request.probe then ok tt else verified "Model capability is not supported" meets.stored)
      base mapping

abbrev pub allowed : ModelGateway → ModelRequest → Bool
allowed gateway request =
    may_send request.policy request.alias request.mapping gateway.destination_id
      (not (str_eq gateway.api_key "")) request.capability

unfoldable pub request : ModelGateway → ModelRequest → Meets → Result String × List Sent
unfolding may_send configured
request gateway r meets =
    if allowed gateway r
    then configured gateway r meets gateway.base_url r.mapping
    else (err (privacy_policy_denied "Model request denied by privacy policy"), [])
