-- ===== src/Tests/Asking.antt =====
-- Requests to the model gateway.
use bbd_os.Prelude.{
  ℕ, zero, suc, ◌≤◌, ◌≡◌, ◌⊎◌, refl, arith, some, none, ok, err, true, false, [], ◌∷◌, length,
  privacy_policy_denied, is_blank, lstrip_slash, rstrip_slash, ends_with,
}
use bbd_os.Gateway.{
  ModelGateway, ModelMapping, Destination, RequestPolicy, Capability, ModelRequest, Meets, Answer,
  reply, sent_to, new_gateway, request, send, send_in_slot, url_under, configured, verified,
  may_send, after_answer, is_transient, read_reply,
}
use bbd_os.Gateway.Sending.{WasSent, request_sends}
use bbd_os.Gateway.Streaming.{
  StreamAnswer, streamed, complete, broken, stream, stream_attempts, stream_verified, after_stream,
  read_body, passed_on,
}
use bbd_os.Gateway.Slots.{Slots, held, is_free, first_free, enter, Reach, here, next}
use bbd_os.Gateway.Slots.Capacity.{two_slots}

abbrev mapping : ModelMapping
mapping = record { model = "small"; version = none; destination = Destination.remote }

abbrev gateway : ModelGateway
gateway = record {
  base_url = some "https://models/v1";
  api_key = "key";
  destination_id = "omniroute";
}

abbrev policy : RequestPolicy
policy = record {
  reasoning_allowed = false;
  embeddings_allowed = true;
  local_only = false;
  permitted_destinations = "omniroute" ∷ [];
}

abbrev embed : ModelRequest
embed = record {
  alias = "embedding";
  mapping = some mapping;
  policy = policy;
  capability = Capability.embeddings;
  path = "embeddings";
  payload = "[\"text\"]";
  probe = false;
}

abbrev busy_once : ℕ → Answer
busy_once zero = reply 503 none
busy_once (suc n) = reply 200 (some "{}")

abbrev meets : Meets
meets = record { stored = ok (some "supported"); slot = true; answers = busy_once }

slashes_stripped : new_gateway (some "https://models/v1/") "key" "omniroute" ≡ gateway
unfolding new_gateway rstrip_slash
slashes_stripped = refl

sent_twice : request gateway embed meets ≡ (
  ok "{}",
  sent_to gateway embed "https://models/v1" mapping
      ∷ sent_to gateway embed "https://models/v1" mapping
      ∷ [],
)
unfolding request may_send configured verified send_in_slot send after_answer is_transient
    read_reply url_under ends_with lstrip_slash is_blank
sent_twice = refl

chat_denied :
    request gateway (record embed { capability = Capability.chat }) meets
    ≡ (err (privacy_policy_denied "Model request denied by privacy policy"), [])
unfolding request may_send configured is_blank
chat_denied = refl

request_sends_example :
    ((request gateway embed meets).1 ≡ [])
    ⊎ WasSent gateway embed meets (request gateway embed meets).1
request_sends_example = request_sends gateway embed meets

-- A first answer that breaks off before a line, then a whole one.
abbrev broken_once : ℕ → StreamAnswer
broken_once zero = streamed 200 ("" ∷ []) broken
broken_once (suc n) = streamed 200 ("a" ∷ "" ∷ "b" ∷ []) complete

abbrev talk : ModelRequest
talk = record embed {
  policy = record policy { reasoning_allowed = true };
  capability = Capability.streaming;
}

streamed_lines :
    stream gateway talk (ok (some "supported")) true broken_once
    ≡ record { lines = "a" ∷ "b" ∷ []; outcome = ok tt; requests = 2 }
unfolding stream may_send verified stream_verified stream_attempts after_stream read_body passed_on
    is_transient is_blank
streamed_lines = refl

abbrev quiet : Slots
quiet = record { now = 0; keys = λ k. none; holders = [] }

abbrev both_held : Slots
both_held = held 20 2 0 1 (held 20 1 0 0 quiet)

none_left : first_free 2 0 both_held ≡ none
unfolding first_free is_free
none_left = refl

both_reached : Reach 20 quiet both_held
unfolding first_free is_free
both_reached =
    next (next here (enter 1 0 0 (omega arith) (omega arith) refl))
      (enter 2 0 1 (omega arith) (omega arith) refl)

two_slots_example : length both_held.holders ≤ 2
two_slots_example = two_slots 20 quiet both_held refl both_reached
