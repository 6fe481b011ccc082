-- ===== src/Ingestion.antt =====
-- app/rag/ingestion.py: how a document is cut into parents and children, and how its chunks are scored
-- and embedded. The splitting into sentences, the counts of tokens and the replies of the services
-- are parameters; `N` is the type of the floating numbers.
pub mod Stored
pub mod Packing
pub mod Embedded
mod Tests
use ai_receptionist_for_immi.Prelude.{
  ℕ, zero, suc, ◌+◌, ◌*◌, String, true, false, not, ◌&&◌, Option, none, some, List, [], ◌∷◌, ◌++◌,
  map, ltb, if◌then◌else◌, is_some, ◌⊕◌, nonempty, is_nil, length, take, drop,
}
use ai_receptionist_for_immi.Context.{join}

abbrev pub parent_token_limit : ℕ
parent_token_limit = 400

abbrev pub child_token_limit : ℕ
child_token_limit = 100

abbrev pub quality_batch_size : ℕ
quality_batch_size = 20

abbrev pub embed_cache_ttl : ℕ
embed_cache_ttl = 60 * 60 * 24 * 7

-- What the module uses of Python and of its libraries.
pub record Tools : Type 0 where
  pub token_count : String → ℕ
  pub split_sentences : String → List String
  pub strip : String → String
  pub sha256 : String → String

-- a parent chunk with the texts of its children
pub record Chunk : Type 0 where
  pub content : String
  pub language : String
  pub children : List String

module _ (tools : Tools) where
  -- The loop of `_chunk_document` and of `_make_children`: `current` holds the sentences since the last
  -- flush, and `tokens` their counts.
  unfoldable pub pack_from : ℕ → List String → List String → ℕ → List (List String)
  pack_from limit [] current tokens = if is_nil current then [] else current ∷ []
  pack_from limit (sent ∷ sentences) current tokens =
      let t = tools.token_count sent in
      elim (ltb limit (tokens + t) && not (is_nil current)) [
        | true ↦ current ∷ pack_from limit sentences (sent ∷ []) t
        | false ↦ pack_from limit sentences (current ++ sent ∷ []) (tokens + t)
      ]

  unfoldable pub make_children : String → List String
  unfolding pack_from join
  make_children parent_text =
      map (join " ") (pack_from child_token_limit (tools.split_sentences parent_text) [] 0)

  unfoldable pub chunk_of : String → List String → Chunk
  unfolding make_children join
  chunk_of language sentences =
      let parent_text = join " " sentences in
      record { content = parent_text; language = language; children = make_children parent_text }

  unfoldable pub chunk_document : String → String → List Chunk
  unfolding pack_from chunk_of
  chunk_document doc language =
      map (chunk_of language) (pack_from parent_token_limit (tools.split_sentences doc) [] 0)

  -- the text that a parent is embedded as
  unfoldable pub embed_text : String → String → String
  embed_text prefix content =
      if nonempty prefix then tools.strip (prefix ⊕ "\n" ⊕ content) else content

  abbrev pub embed_key : String → String
  embed_key t = "emb:cache:" ⊕ tools.sha256 t

module _ {N : Type 0} where
  -- The scores of one batch of `n` texts: `parsed` are the numbers of the reply, `none` is one that
  -- `float` raises at; a text without a score keeps the default.
  unfoldable pub batch_scores : N → ℕ → List (Option N) → List N
  batch_scores default zero parsed = []
  batch_scores default (suc n) [] = default ∷ batch_scores default n []
  batch_scores default (suc n) (none ∷ _) = default ∷ batch_scores default n []
  batch_scores default (suc n) (some score ∷ parsed) = score ∷ batch_scores default n parsed

  -- an answer that raises, or that cannot be read, scores nothing
  abbrev pub parsed_in : Option (List (Option N)) → List (Option N)
  parsed_in none = []
  parsed_in (some scores) = scores

  -- The loop over the batches, of which `replies` are the answers; `fuel` bounds their number.
  unfoldable pub score_batches :
      N → (List String → Option (List (Option N))) → ℕ → List String → List N
  unfolding batch_scores
  score_batches default replies zero texts = []
  score_batches default replies (suc fuel) [] = []
  score_batches default replies (suc fuel) (t ∷ texts) =
      let batch = take quality_batch_size (t ∷ texts) in
      batch_scores default (length batch) (parsed_in (replies batch))
      ++ score_batches default replies fuel (drop quality_batch_size (t ∷ texts))

  unfoldable pub score_quality : N → (List String → Option (List (Option N))) → List String → List N
  unfolding score_batches
  score_quality default replies texts = score_batches default replies (length texts) texts

  -- `r or [0.0] * 1536`
  abbrev pub or_zeros : List N → List N → List N
  or_zeros zeros v = if is_nil v then zeros else v

  -- what the cache holds for each text: `none` where it holds nothing that can be read
  abbrev pub looked_up : (String → Option (List N)) → List String → List (Option (List N))
  looked_up cached texts = map cached texts

  unfoldable pub uncached : (String → Option (List N)) → List String → List String
  uncached cached [] = []
  uncached cached (t ∷ texts) =
      let rest = uncached cached texts in if is_some (cached t) then rest else t ∷ rest

  -- the vectors of the answer go to the places that are still empty, in order
  unfoldable pub filled : List N → List (Option (List N)) → List (List N) → List (List N)
  filled zeros [] vecs = []
  filled zeros (some v ∷ results) vecs = or_zeros zeros v ∷ filled zeros results vecs
  filled zeros (none ∷ results) (v ∷ vecs) = or_zeros zeros v ∷ filled zeros results vecs
  filled zeros (none ∷ results) [] = zeros ∷ filled zeros results []

  abbrev pub vectors_in : Option (List (List N)) → List (List N)
  vectors_in none = []
  vectors_in (some vecs) = vecs

  abbrev pub pairs : List String → List (List N) → List (String × List N)
  pairs (t ∷ texts) (v ∷ vecs) = (t, v) ∷ pairs texts vecs
  pairs _ _ = []

  -- The vectors of the texts, and what is written to the cache: each new text with its vector.
  -- `answer` is what the service makes of the uncached texts, if it does not raise.
  unfoldable pub embed_texts :
      List N
      → (String → Option (List N))
      → (List String → Option (List (List N)))
      → List String
      → List (List N) × List (String × List N)
  unfolding uncached filled
  embed_texts zeros cached answer texts =
      let missing = uncached cached texts in
      let vecs = if is_nil missing then [] else vectors_in (answer missing) in
      (filled zeros (looked_up cached texts) vecs, pairs missing vecs)
