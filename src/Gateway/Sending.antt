-- ===== src/Gateway/Sending.antt =====
-- Which requests leave the program, and how often.
use bbd_os.Prelude.{
  ℕ, zero, suc, ◌≡◌, ◌≢◌, ◌⊎◌, inl, inr, refl, sym, ap, ◌∙◌, arith, String, Option, none, some,
  Bool, Bool-cases, true, false, List, [], not, if◌then◌else◌, if_true, if_false, str_eq, eq_iff,
  any, is_blank, length, All, Result, ok, err,
}
use mathlib.Core.Path.{subst}
use bbd_os.Gateway.{
  ModelGateway, ModelRequest, ModelMapping, Destination, Meets, Sent, Answer, reply, timed_out,
  network_failed, transport_failed, deadline, is_transient, attempted, after_answer, send,
  send_in_slot, sent_to, times, configured, request, allowed, may_send, permission, verified,
  is_remote,
}

-- The permission that the owner gave: a remote model, a destination on the list, the permission for the
-- capability, and no alias or policy that keeps the request local.
pub record IsPermitted (g : ModelGateway) (r : ModelRequest) (mapping : ModelMapping) : Type 0 where
  pub names_model : is_blank mapping.model ≡ false
  pub is_remote : mapping.destination ≡ Destination.remote
  pub has_credential : g.api_key ≢ ""
  pub not_local : r.policy.local_only ≡ false
  pub not_private : r.alias ≢ "local-private"
  pub destination : any (λ d. str_eq d g.destination_id) r.policy.permitted_destinations ≡ true
  pub permitted : permission r.policy r.capability ≡ true

is_remote_iff : (d : Destination) → is_remote d ≡ true → d ≡ Destination.remote
is_remote_iff Destination.remote h = refl
is_remote_iff Destination.unknown h = cc

may_send-IsPermitted :
    (g : ModelGateway) (r : ModelRequest) (mapping : ModelMapping)
    → may_send r.policy r.alias
        (some mapping)
        g.destination_id
        (not (str_eq g.api_key ""))
        r.capability
      ≡ true
    → IsPermitted g r mapping
unfolding may_send
may_send-IsPermitted g r mapping h = record {
  names_model = ground arith;
  is_remote = is_remote_iff mapping.destination (ground arith);
  has_credential = ground (arith, eq_iff g.api_key "");
  not_local = ground arith;
  not_private = ground (arith, eq_iff r.alias "local-private");
  destination = ground arith;
  permitted = ground arith;
}

-- The first answer asks for another attempt.
abbrev pub IsTransient : Answer → Type 0
IsTransient (reply status body) = is_transient status ≡ true
IsTransient timed_out = Unit
IsTransient network_failed = Unit
IsTransient transport_failed = ⊥
IsTransient deadline = ⊥

last_answer : (a : Answer) (again : Result String × ℕ) → (after_answer false a again).1 ≡ 1
unfolding after_answer
last_answer (reply status body) again = ground arith
last_answer timed_out again = refl
last_answer network_failed again = refl
last_answer transport_failed again = refl
last_answer deadline again = refl

first_answer :
    (a : Answer) (again : Result String × ℕ)
    → ((after_answer true a again).1 ≡ 1) ⊎ ((after_answer true a again ≡ again) × IsTransient a)
unfolding after_answer
first_answer (reply status body) again = elim (Bool-cases (is_transient status)) [
  | inl passing ↦ inr (ground arith, passing)
  | inr final ↦ inl (ground arith)
]
first_answer timed_out again = inr (refl, tt)
first_answer network_failed again = inr (refl, tt)
first_answer transport_failed again = inl refl
first_answer deadline again = inl refl

send_count :
    (answers : ℕ → Answer)
    → ((send 2 0 answers).1 ≡ 1) ⊎ (((send 2 0 answers).1 ≡ 2) × IsTransient (answers 0))
unfolding send
send_count answers = elim (first_answer (answers 0) (attempted (send 1 1 answers))) [
  | inl once ↦ inl once
  | inr (twice, passing) ↦ inr (
    ap (λ r. r.1) twice ∙ ap suc (last_answer (answers 1) (attempted (send 0 2 answers))),
    passing,
  )
]

length-times : (sent : Sent) (n : ℕ) → length (times sent n) ≡ n
length-times sent zero = refl
length-times sent (suc n) = ap suc (length-times sent n)

All-times : (P : Sent → Type 0) (sent : Sent) (n : ℕ) → P sent → All P (times sent n)
All-times P sent zero h = tt
All-times P sent (suc n) h = (h, All-times P sent n h)

verified_supported :
    (why : String) (stored : Result (Option String))
    → verified why stored ≡ ok tt
    → stored ≡ ok (some "supported")
unfolding verified
verified_supported why (err e) h = cc
verified_supported why (ok none) h = cc
verified_supported why (ok (some result)) h = ground (arith, eq_iff result "supported")

-- The requests that left, for a request of `mapping` to `base`.
pub record WasSent (g : ModelGateway) (r : ModelRequest) (meets : Meets) (log : List Sent)
    : Type 0 where
  pub mapping : ModelMapping
  pub is_mapped : r.mapping ≡ some mapping
  pub is_permitted : IsPermitted g r mapping
  pub is_verified : (r.probe ≡ true) ⊎ (meets.stored ≡ ok (some "supported"))
  pub has_slot : meets.slot ≡ true
  pub to_model : All (λ sent. (sent.model ≡ mapping.model) × (sent.payload ≡ r.payload)) log
  pub attempts : (length log ≡ 1) ⊎ ((length log ≡ 2) × IsTransient (meets.answers 0))

module _ (g : ModelGateway) (r : ModelRequest) (meets : Meets) (base : String)
    (mapping : ModelMapping) (mapped : r.mapping ≡ some mapping)
    (permitted : IsPermitted g r mapping) where
  got_slot :
      meets.slot ≡ true
      → (r.probe ≡ true) ⊎ (meets.stored ≡ ok (some "supported"))
      → WasSent g r meets (times (sent_to g r base mapping) (send 2 0 meets.answers).1)
  got_slot got check = record {
    mapping = mapping;
    is_mapped = mapped;
    is_permitted = permitted;
    is_verified = check;
    has_slot = got;
    to_model =
        All-times (λ sent. (sent.model ≡ mapping.model) × (sent.payload ≡ r.payload))
          (sent_to g r base mapping) (send 2 0 meets.answers).1 (refl, refl);
    attempts =
        rw (length-times (sent_to g r base mapping) (send 2 0 meets.answers).1)
          (send_count meets.answers);
  }

  slot_sent :
      (slot : Bool) (refused : Result String × List Sent)
      → refused.1 ≡ []
      → meets.slot ≡ slot
      → (r.probe ≡ true) ⊎ (meets.stored ≡ ok (some "supported"))
      → (log : Result String × List Sent)
      → log ≡ (
          if slot
          then (
            (send 2 0 meets.answers).0,
            times (sent_to g r base mapping) (send 2 0 meets.answers).1,
          )
          else refused)
      → (log.1 ≡ []) ⊎ WasSent g r meets log.1
  slot_sent true refused none_sent got check log e =
      inr (subst (λ l. WasSent g r meets l.1) (sym e) (got_slot got check))
  slot_sent false refused none_sent full check log e = inl (ap (λ l. l.1) e ∙ none_sent)

  checked_sent :
      (check : Result (Unit {0}))
      → (check ≡ ok tt → (r.probe ≡ true) ⊎ (meets.stored ≡ ok (some "supported")))
      → ((send_in_slot g r meets check base mapping).1 ≡ [])
        ⊎ WasSent g r meets (send_in_slot g r meets check base mapping).1
  unfolding send_in_slot
  checked_sent (err e) ok_check = inl refl
  checked_sent (ok done) ok_check =
      slot_sent meets.slot _ refl refl (ok_check refl)
        (send_in_slot g r meets (ok done) base mapping) refl

probe_or_verified :
    (probe : Bool) (stored : Result (Option String))
    → (if probe then ok tt else verified "Model capability is not supported" stored) ≡ ok tt
    → (probe ≡ true) ⊎ (stored ≡ ok (some "supported"))
probe_or_verified true stored h = inl refl
probe_or_verified false stored h =
    inr (verified_supported "Model capability is not supported" stored h)

configured_sent :
    (g : ModelGateway) (r : ModelRequest) (meets : Meets) (base : Option String)
    (mapping : Option ModelMapping)
    → r.mapping ≡ mapping
    → may_send r.policy r.alias mapping g.destination_id (not (str_eq g.api_key "")) r.capability
      ≡ true
    → ((configured g r meets base mapping).1 ≡ [])
      ⊎ WasSent g r meets (configured g r meets base mapping).1
unfolding configured
configured_sent g r meets none mapping mapped h = inl refl
configured_sent g r meets (some base) none mapped h = inl refl
configured_sent g r meets (some base) (some mapping) mapped h =
    checked_sent g r meets base mapping mapped (may_send-IsPermitted g r mapping h) _
      (probe_or_verified r.probe meets.stored)

-- A request sends nothing, or it sends its payload to the model that its alias is mapped to, where the
-- owner's policy permits it, the capability was verified by a probe or the request is a probe, and a
-- slot was got: once, or twice where the first answer was a transient failure.
pub request_sends :
    (g : ModelGateway) (r : ModelRequest) (meets : Meets)
    → ((request g r meets).1 ≡ []) ⊎ WasSent g r meets (request g r meets).1
unfolding request
request_sends g r meets = elim (Bool-cases (allowed g r)) [
  | inl permitted ↦
      subst {A = Result String × List Sent} (λ l. (l.1 ≡ []) ⊎ WasSent g r meets l.1)
        (sym (if_true _ _ permitted))
        (configured_sent g r meets g.base_url r.mapping refl permitted)
  | inr denied ↦ inl (ap {A = Result String × List Sent} (λ l. l.1) (if_false _ _ denied))
]
