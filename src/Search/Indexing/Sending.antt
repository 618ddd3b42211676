-- ===== src/Search/Indexing/Sending.antt =====
-- What leaves the program when chunks are embedded.
use bbd_os.Prelude.{
  ◌≡◌, ◌⊎◌, inl, inr, refl, arith, Option, none, some, Bool, true, false, List, [], not, if_elim,
  eq_iff, Result, ok, err,
}
use bbd_os.Database.{Source, get_source, is_active}
use bbd_os.Gateway.{ModelMapping, Sent}
use bbd_os.Gateway.Sending.{WasSent, request_sends}
use bbd_os.Search.{SearchDb, IndexGeneration, get_chunk}
use bbd_os.Search.Indexing.{Work}
use bbd_os.Search.Indexing.Job.{
  Model, Configured, embed_request, Embedded, is_current_chunk, may_embed, same_model,
  embed_configured, embed_chunk,
}

-- The text of a chunk went to the model of its generation: its source is active and may leave the
-- program, the chunk is of a current version, the owner allows embeddings, and the gateway sent it.
pub record WasEmbedded (s : SearchDb) (work : Work) (m : Model) (log : List Sent) : Type 0 where
  pub source : Source
  pub is_locked : get_source s.db work.source_id ≡ some source
  pub is_active_source : is_active source.status ≡ true
  pub may_leave : source.local_only ≡ false
  pub is_current : is_current_chunk s.db (get_chunk s.db work.chunk.id) ≡ true
  pub settings : Configured
  pub are_read : m.configured ≡ ok settings
  pub is_allowed : settings.allow_remote_embeddings ≡ true
  pub mapping : ModelMapping
  pub is_mapped : settings.mapping ≡ some mapping
  pub is_model : mapping.model ≡ work.generation.model_id
  pub was_sent : WasSent m.gateway (embed_request m settings work.chunk.content) m.meets log

may_embed_source :
    (o : Option Source) (current : Bool)
    → may_embed o current ≡ true
    → (source : Source) × (o ≡ some source)
      × (is_active source.status ≡ true)
      × (source.local_only ≡ false)
      × (current ≡ true)
may_embed_source none current h = cc
may_embed_source (some source) current h = (source, refl, ground arith, ground arith, ground arith)

same_model_mapping :
    (o : Option ModelMapping) (g : IndexGeneration)
    → same_model o g ≡ true
    → (mapping : ModelMapping) × (o ≡ some mapping) × (mapping.model ≡ g.model_id)
same_model_mapping none g h = cc
same_model_mapping (some mapping) g h =
    (mapping, refl, ground (arith, eq_iff mapping.model g.model_id))

abbrev Sends : SearchDb → Work → Model → List Sent → Type 0
Sends s work m log = (log ≡ []) ⊎ WasEmbedded s work m log

module _ (s : SearchDb) (work : Work) (m : Model) (source : Source)
    (locked : get_source s.db work.source_id ≡ some source)
    (active : is_active source.status ≡ true) (leaves : source.local_only ≡ false)
    (current : is_current_chunk s.db (get_chunk s.db work.chunk.id) ≡ true) where
  configured-Sends :
      (configured : Result Configured)
      → m.configured ≡ configured
      → Sends s work m (embed_configured s work m configured).sent
  unfolding embed_configured
  configured-Sends (err e) read = inl refl
  configured-Sends (ok c) read =
      if_elim (λ r. Sends s work m (Embedded.sent r)) (not c.allow_remote_embeddings) _ _
        (λ forbidden. inl refl)
        (λ permitted.
          if_elim (λ r. Sends s work m (Embedded.sent r)) (same_model c.mapping work.generation) _ _
            (λ same. elim (request_sends m.gateway (embed_request m c work.chunk.content) m.meets) [
              | inl nothing ↦ inl nothing
              | inr sent ↦
                  let (mapping, mapped, model) =
                    same_model_mapping c.mapping work.generation same in
                  inr (record {
                    source = source;
                    is_locked = locked;
                    is_active_source = active;
                    may_leave = leaves;
                    is_current = current;
                    settings = c;
                    are_read = read;
                    is_allowed = ground arith;
                    mapping = mapping;
                    is_mapped = mapped;
                    is_model = model;
                    was_sent = sent;
                  })
            ])
            (λ other. inl refl))

-- Embedding a chunk sends nothing, or the text of the chunk to the gateway: only where the source is
-- active and not local, the chunk is of the current version of an extracted document, the owner allows
-- remote embeddings and the mapping is the one of the generation, and as the gateway's policy permits.
pub embed_chunk_sends :
    (s : SearchDb) (work : Work) (m : Model)
    → ((embed_chunk s work m).sent ≡ []) ⊎ WasEmbedded s work m (embed_chunk s work m).sent
unfolding embed_chunk
embed_chunk_sends s work m =
    if_elim (λ r. Sends s work m (Embedded.sent r))
      (may_embed (get_source s.db work.source_id)
        (is_current_chunk s.db (get_chunk s.db work.chunk.id)))
      _ _
      (λ may.
        let (source, locked, active, leaves, current) =
          may_embed_source (get_source s.db work.source_id)
            (is_current_chunk s.db (get_chunk s.db work.chunk.id)) may in
        configured-Sends s work m source locked active leaves current m.configured refl)
      (λ may_not. inl refl)
