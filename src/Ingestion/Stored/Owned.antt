-- ===== src/Ingestion/Stored/Owned.antt =====
-- app/rag/ingestion.py: each row of a document is stored with the vector of its own text.
use ai_receptionist_for_immi.Prelude.{
  ℕ, suc, String, ◌≡◌, refl, sym, ap, subst, ◌∙◌, Bool, true, false, Option, none, some, List, [],
  ◌∷◌, ◌++◌, map, if◌then◌else◌, is_nil,
}
use ai_receptionist_for_immi.Ingestion.Embedded.{embed_texts_lem, EmbedsAs}
use ai_receptionist_for_immi.Ingestion.{
  chunk_document, embed_text, embed_key, score_quality, embed_texts, Chunk,
}
use ai_receptionist_for_immi.Ingestion.Stored.{
  child_rows, quality_at, parent_rows, enrich, texts_of, all_texts, persist, store_chunks,
  ingest_document, Pipeline, ChunkRow, Enriched, DocumentWrite, delete_document, insert_document,
  insert_chunk, cache_vector,
}

module _ {N : Type 0} (env : Pipeline N) (doc_id language : String) (embed : String → List N) where
  -- the text of a row that is embedded
  abbrev pub row_text : ChunkRow N → String
  row_text r = elim r.parent_chunk_id [
    | none ↦ embed_text env.tools r.context_prefix r.content
    | some id ↦ r.content
  ]

  abbrev pub Owned : List (ChunkRow N) → Type 0
  Owned [] = Unit {0}
  Owned (r ∷ rows) = (r.embedding ≡ embed (row_text r)) × Owned rows

  Owned-append : (rows more : List (ChunkRow N)) → Owned rows → Owned more → Owned (rows ++ more)
  Owned-append [] more p q = q
  Owned-append (r ∷ rows) more p q = (p.0, Owned-append rows more p.1 q)

  child_rows-Owned :
      (parent_id prefix : String) (quality : N) (parent_vec : List N) (c_idx ids : ℕ)
      (more : List (List N)) (children : List String)
      → let r =
          child_rows env doc_id language parent_id prefix quality parent_vec c_idx ids
            (map embed children ++ more)
            children in
        Owned r.0 × (r.2 ≡ more)
  unfolding child_rows
  child_rows-Owned parent_id prefix quality parent_vec c_idx ids more [] = (tt, refl)
  child_rows-Owned parent_id prefix quality parent_vec c_idx ids more (child ∷ children) =
      let rest =
        child_rows-Owned parent_id prefix quality parent_vec (suc c_idx) (suc ids) more children in
      ((refl, rest.0), rest.1)

  map-append : (f : String → List N) (xs ys : List String) → map f (xs ++ ys) ≡ map f xs ++ map f ys
  map-append f [] ys = refl
  map-append f (x ∷ xs) ys = ap (◌∷◌ (f x)) (map-append f xs ys)

  parent_rows-Owned :
      (scores : List N) (idx ids : ℕ) (chunks : List Enriched)
      → Owned
          (parent_rows env doc_id language scores idx ids (map embed (all_texts env chunks)) chunks)
  unfolding parent_rows all_texts texts_of
  parent_rows-Owned scores idx ids [] = tt
  parent_rows-Owned scores idx ids (e ∷ chunks) =
      let parent_id = env.uuid ids in
      let vec = embed (embed_text env.tools e.context_prefix e.chunk.content) in
      let quality = quality_at env doc_id language scores idx in
      let more = map embed (all_texts env chunks) in
      let children =
        child_rows-Owned parent_id e.context_prefix quality vec 0 (suc ids) more e.chunk.children in
      let rows =
        child_rows env doc_id language parent_id e.context_prefix quality vec 0 (suc ids)
          (map embed e.chunk.children ++ more) e.chunk.children in
      let later =
        subst (λ vs. Owned (parent_rows env doc_id language scores (suc idx) rows.1 vs chunks))
          (sym children.1) (parent_rows-Owned scores (suc idx) rows.1 chunks) in
      rw (map-append embed e.chunk.children (all_texts env chunks)) (
        refl,
        Owned-append rows.0 (parent_rows env doc_id language scores (suc idx) rows.1 rows.2 chunks)
            children.0 later,
      )

-- the rows that are inserted, in order
abbrev pub inserted : {N : Type 0} → List (DocumentWrite N) → List (ChunkRow N)
inserted [] = []
inserted (insert_chunk r ∷ ws) = r ∷ inserted ws
inserted (_ ∷ ws) = inserted ws

module _ {N : Type 0} where
  inserted-append :
      (ws more : List (DocumentWrite N)) → inserted (ws ++ more) ≡ inserted ws ++ inserted more
  inserted-append [] more = refl
  inserted-append (insert_chunk r ∷ ws) more = ap (◌∷◌ r) (inserted-append ws more)
  inserted-append (delete_document id ∷ ws) more = inserted-append ws more
  inserted-append (insert_document id title source_type language hash ∷ ws) more =
      inserted-append ws more
  inserted-append (cache_vector key vec ∷ ws) more = inserted-append ws more

  inserted_deleted :
      (ids : List String) (ws : List (DocumentWrite N))
      → inserted (map delete_document ids ++ ws) ≡ inserted ws
  inserted_deleted [] ws = refl
  inserted_deleted (id ∷ ids) ws = inserted_deleted ids ws

  inserted_rows : (rows : List (ChunkRow N)) → inserted (map insert_chunk rows) ≡ rows
  inserted_rows [] = refl
  inserted_rows (r ∷ rows) = ap (◌∷◌ r) (inserted_rows rows)

  inserted_cached :
      (key : String → String) (vs : List (String × List N)) (ws : List (DocumentWrite N))
      → inserted (map (λ w. cache_vector (key w.0) w.1) vs ++ ws) ≡ inserted ws
  inserted_cached key [] ws = refl
  inserted_cached key (v ∷ vs) ws = inserted_cached key vs ws

  abbrev stored_scores : Pipeline N → List Enriched → List N
  stored_scores env chunks =
      score_quality env.default_quality env.replies (map (λ e. e.chunk.content) chunks)

  abbrev embedded : Pipeline N → List Enriched → List (List N) × List (String × List N)
  embedded env chunks = embed_texts env.zeros env.cached env.answer (all_texts env chunks)

  inserted-store_chunks :
      (env : Pipeline N) (title source_type language content : String) (old_ids : List String)
      (chunks : List Chunk)
      → let enriched = map (enrich env title) chunks in
        inserted (store_chunks env title source_type language content old_ids chunks).1
        ≡ parent_rows env
            (env.uuid 0)
            language
            (stored_scores env enriched)
            0
            1
            (embedded env enriched).0
            enriched
  unfolding store_chunks persist
  inserted-store_chunks env title source_type language content old_ids chunks =
      let enriched = map (enrich env title) chunks in
      let rows =
        parent_rows env (env.uuid 0) language (stored_scores env enriched) 0 1
          (embedded env enriched).0 enriched in
      inserted_cached (embed_key env.tools) (embedded env enriched).1
        (persist env title source_type language (env.tools.sha256 content) old_ids enriched
          (stored_scores env enriched) (embedded env enriched).0).1
      ∙ inserted_deleted old_ids (
          insert_document (env.uuid 0) title source_type language (env.tools.sha256 content)
          ∷ map insert_chunk rows)
      ∙ inserted_rows rows

  store_chunks-Owned :
      (env : Pipeline N) (embed : String → List N) (title source_type language content : String)
      (old_ids : List String) (chunks : List Chunk)
      → EmbedsAs embed env.cached env.answer
      → Owned env
          (env.uuid 0)
          language
          embed
          (inserted (store_chunks env title source_type language content old_ids chunks).1)
  store_chunks-Owned env embed title source_type language content old_ids chunks h =
      let enriched = map (enrich env title) chunks in
      let vectors =
        ap (λ r. r.0)
          (embed_texts_lem embed env.zeros env.cached env.answer h (all_texts env enriched)) in
      subst (Owned env (env.uuid 0) language embed)
        (sym (inserted-store_chunks env title source_type language content old_ids chunks))
        (subst
          (λ vs.
            Owned env (env.uuid 0) language embed
              (parent_rows env (env.uuid 0) language (stored_scores env enriched) 0 1 vs enriched))
          (sym vectors)
          (parent_rows-Owned env (env.uuid 0) language embed (stored_scores env enriched) 0 1
            enriched))

kept_or_skipped :
    {N : Type 0} (P : List (ChunkRow N) → Type 0) (skipped : Bool) (id : String)
    (ws : List (DocumentWrite N))
    → P []
    → P (inserted ws)
    → P (
        let r : Option String × List (DocumentWrite N) =
          if skipped then (none, []) else (some id, ws) in
        inserted r.1)
kept_or_skipped P true id ws p q = p
kept_or_skipped P false id ws p q = q

-- Where the service and the cache embed each text as `embed` does, every chunk of a document that is
-- stored gets the vector of its own text: a parent that of its prefix and content, a child that of its
-- content. The iterator over the vectors never falls out of step with the rows.
pub ingest_document-Owned :
    {N : Type 0} (env : Pipeline N) (embed : String → List N)
    (title source_type language content : String) (existing : Option String) (old_ids : List String)
    (pool : Bool)
    → EmbedsAs embed env.cached env.answer
    → Owned env
        (env.uuid 0)
        language
        embed
        (inserted (ingest_document env pool existing old_ids title source_type language content).1)
unfolding ingest_document store_chunks persist
ingest_document-Owned env embed title source_type language content existing old_ids false h = tt
ingest_document-Owned env embed title source_type language content (some id) old_ids true h = tt
ingest_document-Owned env embed title source_type language content none old_ids true h =
    let chunks = chunk_document env.tools content language in
    let rows = store_chunks-Owned env embed title source_type language content old_ids chunks h in
    kept_or_skipped (Owned env (env.uuid 0) language embed) (is_nil chunks) (env.uuid 0)
      (store_chunks env title source_type language content old_ids chunks).1 tt rows
