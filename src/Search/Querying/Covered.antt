-- ===== src/Search/Querying/Covered.antt =====
-- The exceptions of the semantic part of a search.
use bbd_os.Prelude.{
  ℕ, zero, suc, ◌≡◌, ◌≢◌, refl, ap, String, Option, none, some, Bool, true, false, List, ◌&&◌, not,
  leb, ◌==◌, if_elim, same_text, str_eq, is_blank, all, guard, find, Error, redis_error,
  value_error, integrity_error, Result, ok, err, ◌>>=◌, ◌>>◌,
}
use bbd_os.Gateway.{
  ModelGateway, ModelRequest, ModelMapping, Meets, Sent, Answer, reply, timed_out, network_failed,
  transport_failed, deadline, is_transient, is_unsupported, refusal, read_reply, read_json,
  after_answer, attempted, send, verified, send_in_slot, configured, allowed, request,
}
use bbd_os.Search.{IndexGeneration, SearchDb, is_live}
use bbd_os.Search.Embedding.{
  Json, Items, Number, null, boolean, number, text, array, object, nil, cons, one_more, numbers,
  array_numbers, row_numbers, only_row, returned_model, checked_values, embedding_values, get,
}
use bbd_os.Search.Indexing.Job.{Model, Configured, embed_request}
use bbd_os.Search.Querying.Offsets.{Question}
use bbd_os.Search.Querying.Finding.{
  Ranking, falls_back, vector_ids, compare_vectors, nearest, permitted, in_dimensions,
  by_generation, with_settings, semantic,
}

-- An exception that a search catches, if any.
abbrev pub IsCovered {ℓ} : {A : Type ℓ} → Result A → Type 0
IsCovered (err e) = falls_back e ≡ true
IsCovered (ok x) = Unit

-- Reading from Redis fails with its own exceptions.
abbrev pub IsRedisOnly {ℓ} : {A : Type ℓ} → Result A → Type 0
IsRedisOnly (err e) = e ≡ redis_error
IsRedisOnly (ok x) = Unit

then-IsCovered {ℓ κ} :
    {A : Type ℓ} {B : Type κ} (first : Result A) (rest : A → Result B)
    → IsCovered first
    → ((x : A) → IsCovered (rest x))
    → IsCovered (first >>= rest)
then-IsCovered (err e) rest h k = h
then-IsCovered (ok x) rest h k = k x

guard-IsCovered : (b : Bool) (e : Error) → falls_back e ≡ true → IsCovered (guard b e)
guard-IsCovered false e h = h
guard-IsCovered true e h = tt

one_more-IsCovered : (v : Json) (l : Result (List Number)) → IsCovered l → IsCovered (one_more v l)
one_more-IsCovered (number n) (ok l) h = tt
one_more-IsCovered (number n) (err e) h = h
one_more-IsCovered null l h = refl
one_more-IsCovered (boolean b) l h = refl
one_more-IsCovered (text t) l h = refl
one_more-IsCovered (array a) l h = refl
one_more-IsCovered (object o) l h = refl

numbers-IsCovered : (l : Items) → IsCovered (numbers l)
unfolding numbers
numbers-IsCovered nil = tt
numbers-IsCovered (cons v rest) = one_more-IsCovered v (numbers rest) (numbers-IsCovered rest)

array_numbers-IsCovered : (o : Option Json) → IsCovered (array_numbers o)
array_numbers-IsCovered (some (array items)) = numbers-IsCovered items
array_numbers-IsCovered (some null) = refl
array_numbers-IsCovered (some (boolean b)) = refl
array_numbers-IsCovered (some (number n)) = refl
array_numbers-IsCovered (some (text t)) = refl
array_numbers-IsCovered (some (object o)) = refl
array_numbers-IsCovered none = refl

row_numbers-IsCovered : (v : Json) → IsCovered (row_numbers v)
unfolding row_numbers
row_numbers-IsCovered (object fields) = array_numbers-IsCovered (get "embedding" fields)
row_numbers-IsCovered null = refl
row_numbers-IsCovered (boolean b) = refl
row_numbers-IsCovered (number n) = refl
row_numbers-IsCovered (text t) = refl
row_numbers-IsCovered (array a) = refl

only_row-IsCovered : (o : Option Json) → IsCovered (only_row o)
unfolding only_row
only_row-IsCovered (some (array (cons row nil))) = row_numbers-IsCovered row
only_row-IsCovered (some (array nil)) = refl
only_row-IsCovered (some (array (cons row (cons other rest)))) = refl
only_row-IsCovered (some null) = refl
only_row-IsCovered (some (boolean b)) = refl
only_row-IsCovered (some (number n)) = refl
only_row-IsCovered (some (text t)) = refl
only_row-IsCovered (some (object o)) = refl
only_row-IsCovered none = refl

returned_model-IsCovered : (o : Option Json) → IsCovered (returned_model o)
unfolding returned_model
returned_model-IsCovered none = tt
returned_model-IsCovered (some null) = tt
returned_model-IsCovered (some (text t)) = if_elim IsCovered (is_blank t) _ _ (λ h. refl) (λ h. tt)
returned_model-IsCovered (some (boolean b)) = refl
returned_model-IsCovered (some (number n)) = refl
returned_model-IsCovered (some (array a)) = refl
returned_model-IsCovered (some (object o)) = refl

checked_values-IsCovered :
    (values : List Number) (n : Option ℕ) → IsCovered (checked_values values n)
unfolding checked_values
checked_values-IsCovered values n =
    then-IsCovered (guard _ value_error) (λ done. _) (guard-IsCovered _ value_error refl)
      (λ done.
        then-IsCovered (guard (all (λ x. x.is_finite) values) value_error) (λ done. _)
          (guard-IsCovered _ value_error refl) (λ done. guard-IsCovered _ value_error refl))

embedding_values-IsCovered : (body : Json) (n : Option ℕ) → IsCovered (embedding_values body n)
unfolding embedding_values
embedding_values-IsCovered (object fields) n =
    then-IsCovered (only_row (get "data" fields)) (λ values. _)
      (only_row-IsCovered (get "data" fields))
      (λ values.
        then-IsCovered (returned_model (get "model" fields)) (λ model. _)
          (returned_model-IsCovered (get "model" fields))
          (λ model.
            then-IsCovered (checked_values values n) (λ done. ok (values, model))
              (checked_values-IsCovered values n) (λ done. tt)))
embedding_values-IsCovered null n = refl
embedding_values-IsCovered (boolean b) n = refl
embedding_values-IsCovered (number x) n = refl
embedding_values-IsCovered (text t) n = refl
embedding_values-IsCovered (array a) n = refl

refusal-caught : (status : ℕ) (why : String) → falls_back (refusal status why) ≡ true
unfolding refusal
refusal-caught status why =
    if_elim (λ e. falls_back e ≡ true) (is_unsupported status) _ _ (λ h. refl) (λ h. refl)

read_json-IsCovered : (body : Option String) → IsCovered (read_json body)
read_json-IsCovered none = refl
read_json-IsCovered (some value) = tt

read_reply-IsCovered : (status : ℕ) (body : Option String) → IsCovered (read_reply status body)
unfolding read_reply
read_reply-IsCovered status body =
    if_elim IsCovered (leb 400 status) _ _ (λ h. refusal-caught status _)
      (λ h. read_json-IsCovered body)

after_answer-IsCovered :
    (first : Bool) (a : Answer) (again : Result String × ℕ)
    → a ≢ transport_failed
    → IsCovered again.0
    → IsCovered (after_answer first a again).0
unfolding after_answer
after_answer-IsCovered first (reply status body) again h k =
    if_elim (λ (x : Result String × ℕ). IsCovered x.0) (is_transient status && first) _ _ (λ e. k)
      (λ e. read_reply-IsCovered status body)
after_answer-IsCovered true timed_out again h k = k
after_answer-IsCovered false timed_out again h k = refl
after_answer-IsCovered true network_failed again h k = k
after_answer-IsCovered false network_failed again h k = refl
after_answer-IsCovered first transport_failed again h k = absurd (h refl)
after_answer-IsCovered first deadline again h k = refl

send-IsCovered :
    (left attempt : ℕ) (answers : ℕ → Answer)
    → ((i : ℕ) → answers i ≢ transport_failed)
    → IsCovered (send left attempt answers).0
unfolding send
send-IsCovered zero attempt answers h = refl
send-IsCovered (suc left) attempt answers h =
    after_answer-IsCovered (attempt == 0) (answers attempt)
      (attempted (send left (suc attempt) answers)) (h attempt)
      (send-IsCovered left (suc attempt) answers h)

verified-IsCovered :
    (why : String) (stored : Result (Option String))
    → IsRedisOnly stored
    → IsCovered (verified why stored)
unfolding verified
verified-IsCovered why (err e) h = ap falls_back h
verified-IsCovered why (ok none) h = refl
verified-IsCovered why (ok (some result)) h =
    if_elim IsCovered (str_eq result "supported") _ _ (λ e. tt) (λ e. refl)

module _ (g : ModelGateway) (r : ModelRequest) (meets : Meets) (stored : IsRedisOnly meets.stored)
    (answered : (i : ℕ) → meets.answers i ≢ transport_failed) where
  send_in_slot-IsCovered :
      (check : Result (Unit {0})) (base : String) (mapping : ModelMapping)
      → IsCovered check
      → IsCovered (send_in_slot g r meets check base mapping).0
  unfolding send_in_slot
  send_in_slot-IsCovered (err e) base mapping h = h
  send_in_slot-IsCovered (ok done) base mapping h =
      if_elim (λ (x : Result String × List Sent). IsCovered x.0) meets.slot _ _
        (λ e. send-IsCovered 2 0 meets.answers answered) (λ e. refl)

  configured-IsCovered :
      (base : Option String) (mapping : Option ModelMapping)
      → IsCovered (configured g r meets base mapping).0
  unfolding configured
  configured-IsCovered none mapping = refl
  configured-IsCovered (some base) none = refl
  configured-IsCovered (some base) (some mapping) =
      send_in_slot-IsCovered _ base mapping
        (if_elim IsCovered r.probe _ _ (λ e. tt) (λ e. verified-IsCovered _ meets.stored stored))

  request-IsCovered : IsCovered (request g r meets).0
  unfolding request
  request-IsCovered =
      if_elim (λ (x : Result String × List Sent). IsCovered x.0) (allowed g r) _ _
        (λ e. configured-IsCovered g.base_url r.mapping) (λ e. refl)

module _ (r : Ranking) (m : Model) (later : SearchDb) (fails : Bool) (q : Question)
    (stored : IsRedisOnly m.meets.stored)
    (answered : (i : ℕ) → m.meets.answers i ≢ transport_failed) where
  compare_vectors-IsCovered :
      (g : IndexGeneration) (embedding : List Number × Option String)
      → IsCovered (compare_vectors r later fails q g embedding)
  unfolding compare_vectors
  compare_vectors-IsCovered g embedding =
      then-IsCovered
        (guard (same_text embedding.1 g.response_model_id) value_error
          >> guard (not fails) integrity_error)
        (λ done. ok (vector_ids r later q g embedding.0))
        (then-IsCovered (guard (same_text embedding.1 g.response_model_id) value_error)
          (λ done. guard (not fails) integrity_error) (guard-IsCovered _ value_error refl)
          (λ done. guard-IsCovered (not fails) integrity_error refl))
        (λ done. tt)

  nearest-IsCovered :
      (c : Configured) (g : IndexGeneration) (n : ℕ) → IsCovered (nearest r m later fails q c g n).0
  unfolding nearest
  nearest-IsCovered c g n =
      let answer = (request m.gateway (embed_request m c q.query) m.meets).0 in
      then-IsCovered (answer >>= (λ body. embedding_values (m.parse body) (some n)))
        (compare_vectors r later fails q g)
        (then-IsCovered answer (λ body. embedding_values (m.parse body) (some n))
          (request-IsCovered m.gateway (embed_request m c q.query) m.meets stored answered)
          (λ body. embedding_values-IsCovered (m.parse body) (some n)))
        (compare_vectors-IsCovered g)

  in_dimensions-IsCovered :
      (c : Configured) (g : IndexGeneration) (n : Option ℕ)
      → IsCovered (in_dimensions r m later fails q c g n).0
  unfolding in_dimensions
  in_dimensions-IsCovered c g none = refl
  in_dimensions-IsCovered c g (some n) =
      if_elim (λ (x : Result (List ℕ) × List Sent). IsCovered x.0) (permitted r c g) _ _
        (λ e. nearest-IsCovered c g n) (λ e. refl)

  by_generation-IsCovered :
      (c : Configured) (g : Option IndexGeneration)
      → IsCovered (by_generation r m later fails q c g).0
  unfolding by_generation
  by_generation-IsCovered c none = refl
  by_generation-IsCovered c (some g) = in_dimensions-IsCovered c g g.dimensions

  settings-IsCovered :
      (g : Option IndexGeneration) (settings : Result Configured)
      → IsRedisOnly settings
      → IsCovered (with_settings r m later fails q g settings).0
  settings-IsCovered g (err e) h = ap falls_back h
  settings-IsCovered g (ok c) h = by_generation-IsCovered c g

  pub semantic-IsCovered :
      (before : SearchDb)
      → IsRedisOnly m.configured
      → IsCovered (semantic r m before later fails q).0
  unfolding semantic
  semantic-IsCovered before h =
      settings-IsCovered (find (λ g. is_live g.status) before.generations) m.configured h
