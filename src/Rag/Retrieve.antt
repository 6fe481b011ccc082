-- ===== src/Rag/Retrieve.antt =====
-- app/rag/retrieval.py: `_resolve_parents` and `retrieve`, from the query to the chunks.
use ai_receptionist_for_immi.Prelude.{
  String, Bool, true, false, not, ◌&&◌, Option, none, some, List, [], ◌∷◌, map, ◌==◌, ltb,
  if◌then◌else◌, nonempty, is_nil, any, is_in, length, take,
}
use ai_receptionist_for_immi.Rag.{
  result_cache_ttl, final_k, rerank_top_n, is_full, classify_path, path_name, Scores, Row,
  ChunkResult, PathKind, Effect, log_query, cache_result,
}
use ai_receptionist_for_immi.Rag.Search.{
  chunk_of, Candidates, add_all, add_fallback, rrf_score, rerank, mmr_select,
}

-- What a retrieval meets: whether there is a database, what the cache holds for the query (`none` also
-- where it raises), the hits for the query itself, those for the HyDE passage and the variants of the
-- full path, those in the other language, the scores of the reranker and the parents (`none` where the
-- database raises).
pub record World (Score Stored : Type 0) : Type 0 where
  pub has_pool : Bool
  pub cached : Option Stored
  pub first_hits : List (Row Score)
  pub more_hits : List (List (Row Score))
  pub fallback_hits : List (Row Score)
  pub rerank_reply : Option (List Score)
  pub parents : Option (List (Row Score))

-- The stored dicts of the cache, or chunks.
pub data Answer (Score Stored : Type 0) : Type 0 where
  from_cache : Stored → Answer Score Stored
  chunks : List (ChunkResult Score) → Answer Score Stored

module _ (S : Scores) where
  open S use {Score, zero_score, confidence_threshold, lt}

  abbrev pub find_row : List (Row Score) → String → Option (Row Score)
  find_row [] id = none
  find_row (r ∷ rows) id = if r.id == id then some r else find_row rows id

  -- the parent of a chunk, where it has one that the database knows
  abbrev pub parent_of : List (Row Score) → ChunkResult Score → Option (Row Score)
  parent_of rows c = elim c.parent_chunk_id [
    | none ↦ none
    | some key ↦ if nonempty key then find_row rows key else none
  ]

  -- a parent row with the scores of its chunk
  abbrev pub parent_chunk : ChunkResult Score → Row Score → ChunkResult Score
  parent_chunk c p = record {
    id = p.id;
    document_id = p.document_id;
    parent_chunk_id = none;
    content = p.content;
    context_prefix = p.context_prefix;
    language = p.language;
    source_type = p.source_type;
    title = p.title;
    quality_score = p.quality_score;
    embedding = [];
    rrf_score = c.rrf_score;
    rerank_score = c.rerank_score;
  }

  -- the chunk itself, or its parent
  abbrev pub replaced : List (Row Score) → ChunkResult Score → ChunkResult Score
  replaced rows c = elim (parent_of rows c) [ none ↦ c | some p ↦ parent_chunk c p ]

  -- the loop of `_resolve_parents`; the id of what is appended is its key in `seen`
  unfoldable pub resolve_from :
      List (Row Score) → List String → List (ChunkResult Score) → List (ChunkResult Score)
  resolve_from rows seen [] = []
  resolve_from rows seen (c ∷ cs) =
      let d = replaced rows c in
      let kept = resolve_from rows (d.id ∷ seen) cs in
      let skipped = resolve_from rows seen cs in if is_in d.id seen then skipped else d ∷ kept

  abbrev pub has_parent : ChunkResult Score → Bool
  has_parent c = elim c.parent_chunk_id [ none ↦ false | some key ↦ nonempty key ]

  unfoldable pub resolve_parents :
      Option (List (Row Score)) → List (ChunkResult Score) → List (ChunkResult Score)
  unfolding resolve_from
  resolve_parents rows cs =
      if not (any has_parent cs)
      then cs
      else elim rows [ none ↦ cs | some found ↦ resolve_from found [] cs ]

  abbrev pub as_chunks : List (Row Score) → List (ChunkResult Score)
  as_chunks rows = map (chunk_of S) rows

  abbrev pub fills_up : Candidates S → Bool
  fills_up d = ltb (length d) 3

  abbrev pub below_threshold : List (ChunkResult Score) → Bool
  below_threshold [] = false
  below_threshold (c ∷ cs) = lt c.rerank_score confidence_threshold

  module _ {Stored : Type 0} (mmr : List (ChunkResult Score) → ChunkResult Score → Score) where
    unfoldable pub candidates_of : PathKind → World Score Stored → Candidates S
    unfolding add_all add_fallback chunk_of
    candidates_of path w =
        let found =
          add_all S
            (as_chunks w.first_hits ∷ (if is_full path then map as_chunks w.more_hits else []))
            [] in
        if fills_up found then add_fallback S 1 (as_chunks w.fallback_hits) found else found

    -- behind the ranking: the gate, the choice and the parents
    unfoldable pub choose :
        PathKind
        → Bool
        → World Score Stored
        → List (ChunkResult Score)
        → Answer Score Stored × List Effect
    unfolding mmr_select resolve_parents
    choose path cross_lang w top =
        if below_threshold top
        then (chunks [], log_query (path_name path) true 0 true cross_lang ∷ [])
        else let final = resolve_parents w.parents (mmr_select S mmr top final_k) in
          (
            chunks final,
            cache_result result_cache_ttl (length final)
                ∷ log_query (path_name path) false (length final) false cross_lang
                ∷ [],
          )

    -- whether hits in the other language were called for and found
    abbrev pub cross_lang_of : PathKind → World Score Stored → Bool
    cross_lang_of path w =
        fills_up (
          add_all S
            (as_chunks w.first_hits ∷ (if is_full path then map as_chunks w.more_hits else [])) [])
        && not (is_nil w.fallback_hits)

    -- the first of the ranking, reranked on the full path
    abbrev pub top_of : PathKind → World Score Stored → List (ChunkResult Score)
    top_of path w =
        let top = take rerank_top_n (rrf_score S (candidates_of path w)) in
        if is_full path then rerank S w.rerank_reply top else top

    unfoldable pub search_and_choose :
        PathKind → World Score Stored → Answer Score Stored × List Effect
    unfolding candidates_of rrf_score rerank choose
    search_and_choose path w =
        if is_nil (candidates_of path w)
        then (chunks [], log_query (path_name path) false 0 false (cross_lang_of path w) ∷ [])
        else choose path (cross_lang_of path w) w (top_of path w)

    -- what the cache holds is returned as it is
    abbrev pub use_cache :
        Option Stored → Answer Score Stored × List Effect → Answer Score Stored × List Effect
    use_cache none found = found
    use_cache (some stored) found = (from_cache stored, log_query "cache" true 0 false false ∷ [])

    module _ (strip lower : String → String) (words : String → List String) where
      unfoldable pub retrieve : String → World Score Stored → Answer Score Stored × List Effect
      unfolding search_and_choose classify_path
      retrieve query w =
          if not w.has_pool
          then (chunks [], [])
          else if not (nonempty (strip query))
          then (chunks [], [])
          else use_cache w.cached (search_and_choose (classify_path lower words (strip query)) w)
