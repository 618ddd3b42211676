-- ===== src/Search/Indexing/Single/Whole.antt =====
-- The whole job keeps the generations single.
use mathlib.Core.Path.{subst}
use bbd_os.Prelude.{
  ℕ, zero, suc, ◌≡◌, refl, ap, ◌∙◌, arith, String, Option, none, some, Option-cases, inl, inr, List,
  ◌||◌, not, if_elim, ◌==◌, length, row-key, Result, ok, err, same_text,
}
use bbd_os.Database.{get_source}
use bbd_os.Gateway.{Sent, request}
use bbd_os.Search.{
  IndexGeneration, IndexItem, SearchDb, get_generation, get_item, get_chunk, is_live, is_running,
}
use bbd_os.Search.Embedding.{Number}
use bbd_os.Search.Indexing.{Work, pick, choose_generation}
use bbd_os.Search.Indexing.Job.{
  Configured, Model, embed_request, Next, again, stop, completed, failing, raised, Embedded,
  drop_item, store_in, store_vector, store_embedding, receive_embedding, parsed, may_embed,
  is_current_chunk, same_model, embed_configured, embed_chunk, fail_found, fail_item, Round,
  Indexed, and_then, after_embedding, after_pick, index_rounds, index_generation,
  index_pending_chunks,
}
use bbd_os.Search.Indexing.Single.{IsSingle}
use bbd_os.Search.Indexing.Single.Kept.{
  status_change, failed_keeps, pick-IsSingle, model_unavailable-IsSingle,
}

abbrev pub KeepsSingle : SearchDb → Type 0
KeepsSingle s = IsSingle s.generations

drop_keeps : (s : SearchDb) (o : Option IndexItem) → KeepsSingle s → KeepsSingle (drop_item s o)
drop_keeps s none single = single
drop_keeps s (some i) single = single

module _ (s : SearchDb) (values : List Number) (model : Option String)
    (single : KeepsSingle s) where
  store_in_keeps :
      (g : IndexGeneration) (i : IndexItem) (dimensions : Option ℕ)
      → get_generation s g.id ≡ some g
      → KeepsSingle (store_in s values model g i dimensions).1
  unfolding store_in
  store_in_keeps g i none is_row =
      status_change s g (record g { response_model_id = model; dimensions = some (length values) })
        refl is_row (omega arith) (omega arith) single
  store_in_keeps g i (some n) is_row =
      if_elim {A = Next × SearchDb} (λ r. KeepsSingle r.1)
        (not (same_text model g.response_model_id)) _ _
        (λ other. failed_keeps s g "model_identity_changed" is_row single)
        (λ same.
          if_elim {A = Next × SearchDb} (λ r. KeepsSingle r.1) (n == length values) _ _
            (λ fits. single) (λ differs. single))

  found_keeps :
      (g : IndexGeneration) (j : ℕ)
      → get_generation s j ≡ some g
      → (o : Option IndexItem) → KeepsSingle (store_embedding s values model (some g) o).1
  unfolding store_embedding store_vector
  found_keeps g j there none = single
  found_keeps g j there (some i) =
      if_elim {A = Next × SearchDb} (λ r. KeepsSingle r.1) (is_running g.status || is_live g.status)
        _ _
        (λ runs. store_in_keeps g i g.dimensions (
          ap (get_generation s) (row-key (λ r. IndexGeneration.id r) j s.generations there)
          ∙ there))
        (λ ended. drop_keeps s (some i) single)

  store_keeps :
      (j : ℕ) (o : Option IndexItem)
      → KeepsSingle (store_embedding s values model (get_generation s j) o).1
  unfolding store_embedding
  store_keeps j o = elim (Option-cases (get_generation s j)) [
    | inl missing ↦ rw missing (drop_keeps s o single)
    | inr (g, there) ↦ rw there (found_keeps g j there o)
  ]

receive_keeps :
    (s : SearchDb) (work : Work) (r : Result (List Number × Option String))
    → KeepsSingle s
    → KeepsSingle (receive_embedding s work r).1
unfolding receive_embedding
receive_keeps s work (err e) single = single
receive_keeps s work (ok (values, model)) single =
    store_keeps s values model single work.generation.id (get_item s work.item_id)

configured_keeps :
    (s : SearchDb) (work : Work) (m : Model) (c : Result Configured)
    → KeepsSingle s
    → KeepsSingle (embed_configured s work m c).after
unfolding embed_configured
configured_keeps s work m (err e) single = single
configured_keeps s work m (ok c) single =
    if_elim (λ r. KeepsSingle (Embedded.after r)) (not c.allow_remote_embeddings) _ _
      (λ forbidden. single)
      (λ permitted.
        if_elim (λ r. KeepsSingle (Embedded.after r)) (same_model c.mapping work.generation) _ _
          (λ same.
            receive_keeps s work
              (parsed m work.generation.dimensions
                (request m.gateway (embed_request m c work.chunk.content) m.meets).0)
              single)
          (λ other. single))

pub embed_chunk-IsSingle :
    (s : SearchDb) (work : Work) (m : Model)
    → KeepsSingle s
    → KeepsSingle (embed_chunk s work m).after
unfolding embed_chunk
embed_chunk-IsSingle s work m single =
    if_elim (λ r. KeepsSingle (Embedded.after r))
      (may_embed (get_source s.db work.source_id)
        (is_current_chunk s.db (get_chunk s.db work.chunk.id)))
      _ _ (λ may. configured_keeps s work m m.configured single)
      (λ may_not. drop_keeps s (get_item s work.item_id) single)

fail_found_keeps :
    (s : SearchDb) (o : Option IndexItem) → KeepsSingle s → KeepsSingle (fail_found s o)
fail_found_keeps s none single = single
fail_found_keeps s (some i) single = single

-- Other transactions keep them too.
pub record KeepsRound (r : Round) : Type 0 where
  pub embedding : (s : SearchDb) → KeepsSingle s → KeepsSingle (r.before_embedding s)
  pub recording : (s : SearchDb) → KeepsSingle s → KeepsSingle (r.before_failure s)
  pub rest : (s : SearchDb) → KeepsSingle s → KeepsSingle (r.before_next s)

-- What the job leaves, if it ends without an exception.
abbrev Leaves : Result Indexed → Type 0
Leaves (ok r) = KeepsSingle r.after
Leaves (err e) = Unit

and_then-Leaves :
    (n : ℕ) (sent : List Sent) (r : Result Indexed) → Leaves r → Leaves (and_then n sent r)
and_then-Leaves n sent (err e) h = tt
and_then-Leaves n sent (ok r) h = h

after_embedding-Leaves :
    (r : Round) (work : Work) (e : Embedded) (more : SearchDb → Result Indexed)
    → KeepsRound r
    → KeepsSingle e.after
    → ((s : SearchDb) → KeepsSingle s → Leaves (more s))
    → Leaves (after_embedding r work e more)
unfolding after_embedding fail_item
after_embedding-Leaves r work e more keeps single later = go e.next
  where
    go : (n : Next) → Leaves (after_embedding r work (record e { next = n }) more)
    go again = and_then-Leaves 0 e.sent (more e.after) (later e.after single)
    go stop = single
    go completed = and_then-Leaves 1 e.sent (more e.after) (later e.after single)
    go failing =
        let failed_at = r.before_failure e.after in
        let kept =
          fail_found_keeps failed_at (get_item failed_at work.item_id)
            (keeps.recording e.after single) in
        and_then-Leaves 0 e.sent (more (fail_item failed_at work.item_id))
          (later (fail_item failed_at work.item_id) kept)
    go (raised error) = tt

after_pick-Leaves :
    (r : Round) (s : SearchDb) (generation_id : ℕ) (picked : Result (Option Work × SearchDb))
    (more : SearchDb → Result Indexed)
    → pick s generation_id r.id ≡ picked
    → KeepsRound r
    → KeepsSingle s
    → ((s : SearchDb) → KeepsSingle s → Leaves (more s))
    → Leaves (after_pick r picked more)
unfolding after_pick
after_pick-Leaves r s i (err e) more is_picked keeps single later = tt
after_pick-Leaves r s i (ok (none, t)) more is_picked keeps single later =
    pick-IsSingle s t i r.id none is_picked single
after_pick-Leaves r s i (ok (some work, t)) more is_picked keeps single later =
    let kept = keeps.embedding t (pick-IsSingle s t i r.id (some work) is_picked single) in
    after_embedding-Leaves r work (embed_chunk (r.before_embedding t) work r.model) more keeps
      (embed_chunk-IsSingle (r.before_embedding t) work r.model kept) later

index_rounds-Leaves :
    (left : ℕ) (rounds : ℕ → Round) (generation_id : ℕ) (s : SearchDb)
    → ((n : ℕ) → KeepsRound (rounds n))
    → KeepsSingle s
    → Leaves (index_rounds left rounds generation_id s)
unfolding index_rounds
index_rounds-Leaves zero rounds i s keep single = single
index_rounds-Leaves (suc left) rounds i s keep single =
    after_pick-Leaves (rounds left) s i (pick s i (rounds left).id)
      (λ t. index_rounds left rounds i ((rounds left).before_next t)) refl (keep left) single
      (λ t h.
        index_rounds-Leaves left rounds i ((rounds left).before_next t) keep ((keep left).rest t h))

index_generation-Leaves :
    (c : Result Configured) (rounds : ℕ → Round) (s : SearchDb) (o : Option IndexGeneration)
    → ((n : ℕ) → KeepsRound (rounds n))
    → KeepsSingle s
    → Leaves (index_generation c rounds s o)
unfolding index_generation
index_generation-Leaves c rounds s none keep single = single
index_generation-Leaves (err e) rounds s (some g) keep single =
    model_unavailable-IsSingle s g.id single
index_generation-Leaves (ok c) rounds s (some g) keep single =
    if_elim Leaves (not c.allow_remote_embeddings) _ _ (λ forbidden. single)
      (λ permitted.
        if_elim Leaves (same_model c.mapping g) _ _
          (λ same. index_rounds-Leaves 2 rounds g.id s keep single)
          (λ other. model_unavailable-IsSingle s g.id single))

-- If at most one generation is queued or running and at most one is active, with distinct identifiers,
-- and the other transactions that run in between keep it so, then the whole job keeps it so, on every
-- path on which it ends without an exception.
pub index_pending_chunks-IsSingle :
    (configured : Result Configured) (between : SearchDb → SearchDb) (rounds : ℕ → Round)
    (s : SearchDb) (r : Indexed)
    → ((t : SearchDb) → KeepsSingle t → KeepsSingle (between t))
    → ((n : ℕ) → KeepsRound (rounds n))
    → IsSingle s.generations
    → index_pending_chunks configured between rounds s ≡ ok r
    → IsSingle r.after.generations
unfolding index_pending_chunks
index_pending_chunks-IsSingle configured between rounds s r keep_between keep single is_ok =
    subst Leaves is_ok (
      index_generation-Leaves configured rounds (between s) (choose_generation s) keep
        (keep_between s single))
