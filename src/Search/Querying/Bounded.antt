-- ===== src/Search/Querying/Bounded.antt =====
-- How many candidates a search ranks.
use bbd_os.Prelude.{
  ℕ, zero, suc, ◌+◌, ◌-◌, ◌≤◌, ◌≡◌, refl, sym, ◌∙◌, arith, Option, none, some, Bool, Bool-cases,
  inl, inr, List, [], ◌∷◌, ◌==◌, ◌>>=◌, length, take, drop, length-take, map, Result, ok, err,
  ok-injective, if_true, if_elim, guard, value_error, integrity_error, not, same_text, String, ◌>>◌,
  if_false, find,
}
use bbd_os.Database.{Db}
use bbd_os.Gateway.{Sent, request}
use mathlib.Core.Path.{subst}
use bbd_os.Search.{SearchDb, IndexGeneration, IndexItem, is_live}
use bbd_os.Paging.Order.{length-sort}
use bbd_os.Search.Indexing.Job.{Model, Configured, embed_request}
use bbd_os.Search.Embedding.{Number, embedding_values}
use bbd_os.Search.Querying.{Floats, add_score, rank_from, rank_all, fused, score_key, scored_below}
use bbd_os.Search.Querying.Finding.{
  Ranking, Found, candidates, combined, lexical_ids, semantic, by_generation, nearest, vector_ids,
  falls_back, permitted, compare_vectors, in_dimensions, with_settings,
}
use bbd_os.Search.Querying.Offsets.{Question, Mode, lexical, hybrid}

abbrev pub total : List (List ℕ) → ℕ
total [] = 0
total (l ∷ lists) = length l + total lists

module _ {Score : Type 0} (fl : Floats Score) where
  length-add_score :
      (c : ℕ) (x : Score) (l : List (ℕ × Score)) → length (add_score fl c x l) ≤ suc (length l)
  unfolding add_score
  length-add_score c x [] = omega arith
  length-add_score c x ((d, y) ∷ l) = elim (Bool-cases (d == c)) [
    | inl same ↦ rw same (omega arith)
    | inr other ↦ rw other (omega (arith, length-add_score c x l))
  ]

  length-rank_from :
      (rank : ℕ) (l : List ℕ) (ranked : List (ℕ × Score))
      → length (rank_from fl rank l ranked) ≤ length l + length ranked
  unfolding rank_from
  length-rank_from rank [] ranked = omega arith
  length-rank_from rank (c ∷ l) ranked =
      let more = add_score fl c (fl.reciprocal (60 + rank)) ranked in
      omega (
        arith,
        length-rank_from (rank + 1) l more,
        length-add_score c (fl.reciprocal (60 + rank)) ranked,
      )

  length-rank_all :
      (lists : List (List ℕ)) (ranked : List (ℕ × Score))
      → length (rank_all fl lists ranked) ≤ total lists + length ranked
  unfolding rank_all
  length-rank_all [] ranked = omega arith
  length-rank_all (l ∷ lists) ranked =
      omega (arith, length-rank_all lists (rank_from fl 1 l ranked), length-rank_from 1 l ranked)

  pub length-fused : (lists : List (List ℕ)) → length (fused fl lists) ≤ total lists
  unfolding fused
  length-fused lists = omega (
    arith,
    length-sort (score_key fl) (scored_below fl) (rank_all fl lists []),
    length-rank_all lists [],
  )

length-map {ℓ κ} : {A : Type ℓ} {B : Type κ} (f : A → B) (l : List A) → length (map f l) ≡ length l
length-map f [] = refl
length-map f (x ∷ l) = omega (arith, length-map f l)

pub length-drop {ℓ} : {A : Type ℓ} (n : ℕ) (l : List A) → length (drop n l) ≡ length l - n
length-drop zero l = omega arith
length-drop (suc n) [] = omega arith
length-drop (suc n) (x ∷ l) = omega (arith, length-drop n l)

pub some_injective {ℓ} : {A : Type ℓ} {x y : A} → some x ≡ some y → x ≡ y
some_injective h = cc

at_most_500 {ℓ} : {A : Type ℓ} (f : A → ℕ) (l : List A) → length (map f (take 500 l)) ≤ 500
at_most_500 f l = omega (arith, length-map f (take 500 l), length-take 500 l)

module _ (r : Ranking) where
  length-lexical_ids : (db : Db) (q : Question) → length (lexical_ids r db q) ≤ 500
  unfolding lexical_ids
  length-lexical_ids db q = at_most_500 _ _

  abbrev IsShort : Result (List ℕ) → Type 0
  IsShort (err e) = Unit
  IsShort (ok l) = length l ≤ 500

  -- A chain ends with a short list where its last part does.
  then-IsShort {κ} :
      {X : Type κ} (first : Result X) (rest : X → Result (List ℕ))
      → ((x : X) → IsShort (rest x))
      → IsShort (first >>= rest)
  then-IsShort (err e) rest h = tt
  then-IsShort (ok x) rest h = h x

  compare_vectors-IsShort :
      (later : SearchDb) (fails : Bool) (q : Question) (g : IndexGeneration)
      (embedding : List Number × Option String)
      → IsShort (compare_vectors r later fails q g embedding)
  unfolding compare_vectors vector_ids
  compare_vectors-IsShort later fails q g embedding =
      then-IsShort
        (guard (same_text embedding.1 g.response_model_id) value_error
          >> guard (not fails) integrity_error)
        (λ done. ok (vector_ids r later q g embedding.0))
        (λ done. at_most_500 (λ (i : IndexItem). i.chunk_id) _)

  nearest-IsShort :
      (m : Model) (later : SearchDb) (fails : Bool) (q : Question) (c : Configured)
      (g : IndexGeneration) (n : ℕ)
      → IsShort (nearest r m later fails q c g n).0
  unfolding nearest
  nearest-IsShort m later fails q c g n =
      then-IsShort
        ((request m.gateway (embed_request m c q.query) m.meets).0
          >>= (λ body. embedding_values (m.parse body) (some n)))
        (compare_vectors r later fails q g) (compare_vectors-IsShort later fails q g)

  in_dimensions-IsShort :
      (m : Model) (later : SearchDb) (fails : Bool) (q : Question) (c : Configured)
      (g : IndexGeneration) (n : Option ℕ)
      → IsShort (in_dimensions r m later fails q c g n).0
  unfolding in_dimensions
  in_dimensions-IsShort m later fails q c g none = tt
  in_dimensions-IsShort m later fails q c g (some n) =
      if_elim (λ (x : Result (List ℕ) × List Sent). IsShort x.0) (permitted r c g)
        (nearest r m later fails q c g n) (err value_error, [])
        (λ may. nearest-IsShort m later fails q c g n) (λ may_not. tt)

  by_generation-IsShort :
      (m : Model) (later : SearchDb) (fails : Bool) (q : Question) (c : Configured)
      (g : Option IndexGeneration)
      → IsShort (by_generation r m later fails q c g).0
  unfolding by_generation
  by_generation-IsShort m later fails q c none = tt
  by_generation-IsShort m later fails q c (some g) =
      in_dimensions-IsShort m later fails q c g g.dimensions

  semantic-IsShort :
      (m : Model) (before later : SearchDb) (fails : Bool) (q : Question)
      (settings : Result Configured) (g : Option IndexGeneration)
      → IsShort (with_settings r m later fails q g settings).0
  semantic-IsShort m before later fails q (err e) g = tt
  semantic-IsShort m before later fails q (ok c) g = by_generation-IsShort m later fails q c g

  combined-total :
      (words : List ℕ) (near : Result (List ℕ)) (found : Found)
      → length words ≤ 500
      → IsShort near
      → combined words near ≡ ok found
      → total found.candidates ≤ 1000
  combined-total words (ok near) found few short h =
      subst (λ (f : Found). total f.candidates ≤ 1000) (ok-injective h) (omega arith)
  combined-total words (err e) found few short h = elim (Bool-cases (falls_back e)) [
    | inl back ↦
        subst (λ (f : Found). total f.candidates ≤ 1000) (ok-injective (sym (if_true _ _ back) ∙ h))
          (omega arith)
    | inr raises ↦ let wrong = sym (if_false _ _ raises) ∙ h in cc
  ]

  pub candidates-total :
      (m : Model) (before later : SearchDb) (fails : Bool) (q : Question) (mode : Mode)
      (found : Found)
      → (candidates r m before later fails q mode).0 ≡ ok found
      → total found.candidates ≤ 1000
  unfolding candidates semantic
  candidates-total m before later fails q lexical found h =
      subst (λ (f : Found). total f.candidates ≤ 1000) (ok-injective h)
        (omega (arith, length-lexical_ids before.db q))
  candidates-total m before later fails q hybrid found h =
      combined-total (lexical_ids r before.db q) _ found (length-lexical_ids before.db q)
        (semantic-IsShort m before later fails q m.configured
          (find (λ g. is_live g.status) before.generations))
        h
