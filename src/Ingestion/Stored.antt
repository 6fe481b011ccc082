-- ===== src/Ingestion/Stored.antt =====
-- app/rag/ingestion.py: `_enrich_chunks`, `_persist`, `ingest_document` and
-- `ingest_conversation_transcript`. The rows of the database are an effect each, in the order of the
-- statements of the one transaction.
pub mod Owned
use ai_receptionist_for_immi.Prelude.{
  ℕ, suc, String, Bool, true, false, not, ◌||◌, Option, none, some, List, [], ◌∷◌, ◌++◌, map, ◌==◌,
  if◌then◌else◌, ◌⊕◌, nonempty, is_nil, get_elem?,
}
use ai_receptionist_for_immi.Context.{join}
use ai_receptionist_for_immi.Worker.{cut_text}
use ai_receptionist_for_immi.Ingestion.{
  chunk_document, embed_text, embed_key, score_quality, embed_texts, Tools, Chunk,
}

-- The services behind the pipeline, and the numbers that it uses.
pub record Pipeline (N : Type 0) : Type 0 where
  pub tools : Tools
  -- the stripped reply to a title and the first 800 characters of a chunk; `none` is an exception
  pub prefix_of : String → String → Option String
  pub replies : List String → Option (List (Option N))
  pub cached : String → Option (List N)
  pub answer : List String → Option (List (List N))
  -- the n-th result of `uuid.uuid4()`
  pub uuid : ℕ → String
  -- 5.0, the product with 0.9, and 1536 zeros
  pub default_quality : N
  pub nine_tenths : N → N
  pub zeros : List N

pub record ChunkRow (N : Type 0) : Type 0 where
  pub id : String
  pub document_id : String
  pub parent_chunk_id : Option String
  pub chunk_index : ℕ
  pub content : String
  pub context_prefix : String
  pub language : String
  pub quality_score : N
  pub embedding : List N

-- a chunk with its `context_prefix`
pub record Enriched : Type 0 where
  pub chunk : Chunk
  pub context_prefix : String

-- what is sent to the database, and to the cache of vectors
pub data DocumentWrite (N : Type 0) : Type 0 where
  delete_document : String → DocumentWrite N
  insert_document : (id title source_type language content_hash : String) → DocumentWrite N
  insert_chunk : ChunkRow N → DocumentWrite N
  cache_vector : String → List N → DocumentWrite N

module _ {N : Type 0} where
  -- `next(iterator, default)`
  abbrev pub next_or : List N → List (List N) → List N × List (List N)
  next_or default [] = (default, [])
  next_or default (v ∷ vecs) = (v, vecs)

  module _ (env : Pipeline N) (doc_id language : String) where
    -- The loop over the children of one parent: the rows, with the ids and the vectors that are left.
    unfoldable pub child_rows :
        String
        → String
        → N
        → List N
        → ℕ
        → ℕ
        → List (List N)
        → List String
        → List (ChunkRow N) × ℕ × List (List N)
    child_rows parent_id prefix quality parent_vec c_idx ids vecs [] = ([], ids, vecs)
    child_rows parent_id prefix quality parent_vec c_idx ids vecs (child ∷ children) =
        let (vec, rest) = next_or parent_vec vecs in
        let row : ChunkRow N = record {
          id = env.uuid ids;
          document_id = doc_id;
          parent_chunk_id = some parent_id;
          chunk_index = c_idx;
          content = child;
          context_prefix = prefix;
          language = language;
          quality_score = env.nine_tenths quality;
          embedding = vec;
        } in
        let (rows, next_id, left) =
          child_rows parent_id prefix quality parent_vec (suc c_idx) (suc ids) rest children in
        (row ∷ rows, next_id, left)

    -- `scores[idx] if idx < len(scores) else 5.0`
    abbrev pub quality_at : List N → ℕ → N
    quality_at scores idx = elim (get_elem? scores idx) [ none ↦ env.default_quality | some q ↦ q ]

    unfoldable pub parent_rows : List N → ℕ → ℕ → List (List N) → List Enriched → List (ChunkRow N)
    unfolding child_rows
    parent_rows scores idx ids vecs [] = []
    parent_rows scores idx ids vecs (e ∷ chunks) =
        let (vec, rest) = next_or env.zeros vecs in
        let quality = quality_at scores idx in
        let row : ChunkRow N = record {
          id = env.uuid ids;
          document_id = doc_id;
          parent_chunk_id = none;
          chunk_index = idx;
          content = e.chunk.content;
          context_prefix = e.context_prefix;
          language = language;
          quality_score = quality;
          embedding = vec;
        } in
        let (rows, next_id, left) =
          child_rows (env.uuid ids) e.context_prefix quality vec 0 (suc ids) rest
            e.chunk.children in
        (row ∷ rows) ++ parent_rows scores (suc idx) next_id left chunks

  module _ (env : Pipeline N) where
    unfoldable pub enrich : String → Chunk → Enriched
    unfolding cut_text
    enrich title chunk = record {
      chunk = chunk;
      context_prefix = elim (env.prefix_of title (cut_text 800 chunk.content)) [
        | none ↦ ""
        | some prefix ↦ prefix
      ];
    }

    -- the text of a parent that is embedded, then those of its children
    unfoldable pub texts_of : Enriched → List String
    unfolding embed_text
    texts_of e = embed_text env.tools e.context_prefix e.chunk.content ∷ e.chunk.children

    unfoldable pub all_texts : List Enriched → List String
    unfolding texts_of
    all_texts [] = []
    all_texts (e ∷ chunks) = texts_of e ++ all_texts chunks

    -- `_persist`; `old_ids` are the documents that the title and the source already have
    unfoldable pub persist :
        (title source_type language content_hash : String)
        → List String
        → List Enriched
        → List N
        → List (List N)
        → String × List (DocumentWrite N)
    unfolding parent_rows
    persist title source_type language content_hash old_ids chunks scores vecs =
        let doc_id = env.uuid 0 in
        (
          doc_id,
          map delete_document old_ids
              ++ insert_document doc_id title source_type language content_hash
                ∷ map insert_chunk (parent_rows env doc_id language scores 0 1 vecs chunks),
        )

    -- behind the chunking
    unfoldable pub store_chunks :
        (title source_type language content : String)
        → List String
        → List Chunk
        → String × List (DocumentWrite N)
    unfolding enrich all_texts score_quality embed_texts persist
    store_chunks title source_type language content old_ids chunks =
        let enriched = map (enrich title) chunks in
        let scores =
          score_quality env.default_quality env.replies (map (λ e. e.chunk.content) enriched) in
        let (vecs, writes) = embed_texts env.zeros env.cached env.answer (all_texts enriched) in
        let (doc_id, effects) =
          persist title source_type language (env.tools.sha256 content) old_ids enriched scores
            vecs in
        (doc_id, map (λ w. cache_vector (embed_key env.tools w.0) w.1) writes ++ effects)

    -- `pool` tells whether there is a pool, `existing` is the id of a document with the same hash.
    unfoldable pub ingest_document :
        Bool
        → Option String
        → List String
        → (title source_type language content : String) → Option String × List (DocumentWrite N)
    unfolding chunk_document store_chunks
    ingest_document false existing old_ids title source_type language content = (none, [])
    ingest_document true (some id) old_ids title source_type language content = (some id, [])
    ingest_document true none old_ids title source_type language content =
        let chunks = chunk_document env.tools content language in
        let (doc_id, effects) = store_chunks title source_type language content old_ids chunks in
        if is_nil chunks then (none, []) else (some doc_id, effects)

-- a row of `conversation_messages`, and what is read of the row of `conversations`; an empty text stands
-- for NULL
pub record MessageRow : Type 0 where
  pub role : String
  pub content : String

pub record CallMeta : Type 0 where
  pub caller_name : String
  pub call_outcome : String
  -- the first ten characters of `str(started_at)`
  pub started_on : String

abbrev pub no_meta : CallMeta
no_meta = record { caller_name = ""; call_outcome = ""; started_on = "" }

abbrev pub turn_line : MessageRow → String
turn_line r = (if r.role == "caller" then "Caller" else "Agent") ⊕ ": " ⊕ r.content

abbrev pub labelled : List String → String
labelled [] = ""
labelled (p ∷ parts) = " (" ⊕ join ", " (p ∷ parts) ⊕ ")"

abbrev pub given_part : String → List String
given_part t = if nonempty t then t ∷ [] else []

-- the title and the content of the document that a call becomes
unfoldable pub transcript_document : String → List MessageRow → CallMeta → String × String
unfolding cut_text join
transcript_document call_sid rows meta = (
  "Call transcript "
      ⊕ cut_text 8 call_sid
      ⊕ labelled (
          given_part meta.caller_name
          ++ given_part meta.started_on
          ++ given_part meta.call_outcome),
  (if nonempty meta.caller_name then "Caller: " ⊕ meta.caller_name ⊕ "\n" else "")
      ⊕ join "\n" (map turn_line rows),
)

module _ {N : Type 0} (env : Pipeline N) where
  unfoldable pub ingest_conversation_transcript :
      Bool
      → Option String
      → List String
      → String
      → List MessageRow
      → Option CallMeta
      → Option String × List (DocumentWrite N)
  unfolding ingest_document transcript_document
  ingest_conversation_transcript pool existing old_ids call_sid rows conv_meta =
      let meta : CallMeta = elim conv_meta [ none ↦ no_meta | some m ↦ m ] in
      let (title, content) = transcript_document call_sid rows meta in
      if not pool || is_nil rows
      then (none, [])
      else ingest_document env pool existing old_ids title "conversation_transcript" "en" content
