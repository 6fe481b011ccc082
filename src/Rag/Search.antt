-- ===== src/Rag/Search.antt =====
-- app/rag/retrieval.py: the candidates of a query, their ranking and the choice of diverse chunks.
use ai_receptionist_for_immi.Prelude.{
  ℕ, zero, suc, ◌+◌, ◌-◌, Option, none, some, List, [], ◌∷◌, ◌++◌, leb, if◌then◌else◌, is_nil,
  length, take,
}
use ai_receptionist_for_immi.Dict.{Dict, get, put}
use ai_receptionist_for_immi.Rag.{Scores, Row, ChunkResult}

module _ (S : Scores) where
  open S use {Score, zero_score, confidence_threshold, lt, recip, times_ten, share_ten}

  -- what `_hybrid_search` makes of a row
  unfoldable pub chunk_of : Row Score → ChunkResult Score
  chunk_of r = record {
    id = r.id;
    document_id = r.document_id;
    parent_chunk_id = r.parent_chunk_id;
    content = r.content;
    context_prefix = r.context_prefix;
    language = r.language;
    source_type = r.source_type;
    title = r.title;
    quality_score = r.quality_score;
    embedding = r.embedding;
    rrf_score = r.fused;
    rerank_score = zero_score;
  }

  -- candidates by their id, each with the sum of its ranks
  abbrev pub Candidates : Type 0
  Candidates = Dict (ChunkResult Score × ℕ)

  -- a candidate that is found again adds its rank
  abbrev pub merged : ℕ → ChunkResult Score → Option (ChunkResult Score × ℕ) → ChunkResult Score × ℕ
  merged rank chunk none = (chunk, rank)
  merged rank chunk (some (first, rank_sum)) = (first, rank_sum + rank)

  unfoldable pub add_hit : ℕ → ChunkResult Score → Candidates → Candidates
  unfolding get put
  add_hit rank chunk d = put d chunk.id (merged rank chunk (get d chunk.id))

  unfoldable pub add_hits : ℕ → List (ChunkResult Score) → Candidates → Candidates
  unfolding add_hit
  add_hits rank [] d = d
  add_hits rank (c ∷ chunks) d = add_hits (rank + 1) chunks (add_hit rank c d)

  unfoldable pub add_all : List (List (ChunkResult Score)) → Candidates → Candidates
  unfolding add_hits
  add_all [] d = d
  add_all (hits ∷ more) d = add_all more (add_hits 1 hits d)

  -- hits in the other language only fill up, a hundred ranks behind
  abbrev pub fill : ℕ → ChunkResult Score → Candidates → Option (ChunkResult Score × ℕ) → Candidates
  fill rank chunk d none = put d chunk.id (chunk, rank + 100)
  fill rank chunk d (some found) = d

  unfoldable pub add_fallback : ℕ → List (ChunkResult Score) → Candidates → Candidates
  unfolding get put
  add_fallback rank [] d = d
  add_fallback rank (c ∷ chunks) d = add_fallback (rank + 1) chunks (fill rank c d (get d c.id))

  -- `sorted(…, key=key, reverse=True)`: stable, the largest key first
  unfoldable pub insert_by :
      (ChunkResult Score → Score)
      → ChunkResult Score
      → List (ChunkResult Score)
      → List (ChunkResult Score)
  insert_by key c [] = c ∷ []
  insert_by key c (d ∷ ds) = if lt (key c) (key d) then d ∷ insert_by key c ds else c ∷ d ∷ ds

  unfoldable pub sort_by :
      (ChunkResult Score → Score) → List (ChunkResult Score) → List (ChunkResult Score)
  unfolding insert_by
  sort_by key [] = []
  sort_by key (c ∷ cs) = insert_by key c (sort_by key cs)

  unfoldable pub scored : Candidates → List (ChunkResult Score)
  scored [] = []
  scored ((id, (chunk, rank_sum)) ∷ d) =
      record chunk { rrf_score = recip (60 + rank_sum) } ∷ scored d

  unfoldable pub rrf_score : Candidates → List (ChunkResult Score)
  unfolding sort_by scored
  rrf_score d = sort_by (λ c. c.rrf_score) (scored d)

  -- the scores of the model, in the order of the chunks; a chunk without one keeps ten times its rrf score
  unfoldable pub give_scores : List Score → List (ChunkResult Score) → List (ChunkResult Score)
  give_scores scores [] = []
  give_scores [] (c ∷ cs) = record c { rerank_score = times_ten c.rrf_score } ∷ give_scores [] cs
  give_scores (s ∷ scores) (c ∷ cs) = record c { rerank_score = s } ∷ give_scores scores cs

  -- the fallback: ten times the share of the largest rrf score
  unfoldable pub share_all : Score → List (ChunkResult Score) → List (ChunkResult Score)
  share_all top [] = []
  share_all top (c ∷ cs) = record c { rerank_score = share_ten c.rrf_score top } ∷ share_all top cs

  unfoldable pub top_rrf : Score → List (ChunkResult Score) → Score
  top_rrf best [] = best
  top_rrf best (c ∷ cs) = top_rrf (if lt best c.rrf_score then c.rrf_score else best) cs

  -- `none` is a reply that raises
  unfoldable pub rerank : Option (List Score) → List (ChunkResult Score) → List (ChunkResult Score)
  unfolding sort_by give_scores share_all top_rrf
  rerank reply [] = []
  rerank none (c ∷ cs) = sort_by (λ d. d.rerank_score) (share_all (top_rrf c.rrf_score cs) (c ∷ cs))
  rerank (some scores) (c ∷ cs) = sort_by (λ d. d.rerank_score) (give_scores scores (c ∷ cs))

  -- the first of the largest, and the others in order
  unfoldable pub pick_best :
      (ChunkResult Score → Score)
      → ChunkResult Score
      → List (ChunkResult Score)
      → ChunkResult Score × List (ChunkResult Score)
  pick_best value c [] = (c, [])
  pick_best value c (d ∷ ds) =
      let rest = pick_best value d ds in
      if lt (value c) (value rest.0) then (rest.0, c ∷ rest.1) else (c, d ∷ ds)

  abbrev pub with_embedding : List (ChunkResult Score) → List (ChunkResult Score)
  with_embedding [] = []
  with_embedding (c ∷ cs) = if is_nil c.embedding then with_embedding cs else c ∷ with_embedding cs

  abbrev pub without_embedding : List (ChunkResult Score) → List (ChunkResult Score)
  without_embedding [] = []
  without_embedding (c ∷ cs) =
      if is_nil c.embedding then c ∷ without_embedding cs else without_embedding cs

  -- `mmr selected c` is lam * relevance - (1 - lam) * (the largest similarity to one that is selected)
  module _ (mmr : List (ChunkResult Score) → ChunkResult Score → Score) where
    -- the `while` loop: so many rounds more
    unfoldable pub select_more :
        ℕ → List (ChunkResult Score) → List (ChunkResult Score) → List (ChunkResult Score)
    unfolding pick_best
    select_more zero selected remaining = selected
    select_more (suc n) selected [] = selected
    select_more (suc n) selected (c ∷ cs) =
        let best = pick_best (mmr selected) c cs in select_more n (selected ++ best.0 ∷ []) best.1

    -- the embedded chunks, of which there are some
    unfoldable pub select_embedded : ℕ → List (ChunkResult Score) → List (ChunkResult Score)
    unfolding pick_best select_more
    select_embedded k [] = []
    select_embedded k (c ∷ cs) =
        let best = pick_best (λ d. d.rerank_score) c cs in select_more (k - 1) (best.0 ∷ []) best.1

    unfoldable pub mmr_select : List (ChunkResult Score) → ℕ → List (ChunkResult Score)
    unfolding select_embedded
    mmr_select chunks k =
        if leb (length chunks) k
        then chunks
        else if is_nil (with_embedding chunks)
        then take k chunks
        else let selected = select_embedded k (with_embedding chunks) in
          selected ++ take (k - length selected) (without_embedding chunks)
