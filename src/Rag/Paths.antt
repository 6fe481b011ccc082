-- ===== src/Rag/Paths.antt =====
-- What the two paths of a retrieval can return, and which phases the tables know.
use ai_receptionist_for_immi.Prelude.{
  String, ◌≡◌, refl, ap, ◌∙◌, inl, inr, Bool, true, false, not, Option, none, List, [], ◌∷◌,
  if◌then◌else◌, Bool-cases, nonempty, is_nil, take,
}
use ai_receptionist_for_immi.Conversation.{
  phase_value, Phase, greeting, identification, urgency_triage, intake_phase, consultation_pitch,
  booking, confirmation, closing,
}
use ai_receptionist_for_immi.Rag.{
  rerank_top_n, classify_path, default_source_types, phase_prefetch_query, Scores, IsLawful,
  ChunkResult, fast, Effect,
}
use ai_receptionist_for_immi.Rag.Search.{add_hits, add_all, scored, rrf_score}
use ai_receptionist_for_immi.Rag.Retrieve.{
  as_chunks, fills_up, candidates_of, choose, search_and_choose, use_cache, retrieve, World, Answer,
  chunks,
}
use ai_receptionist_for_immi.Rag.Unranked.{
  Unranked, AllUnranked, AllUnranked-add_hits, AllUnranked-add_fallback, as_chunks-Unranked,
  scored-Unranked, sort_by-Unranked, take-Unranked,
}

-- The tables are keyed by names in capitals, and the voice agent passes the values of its phases: it
-- prefetches nothing at any phase, and every phase has the same default source types.
pub phase_tables_missed :
    (p : Phase) (language : String) (case_type : Option String)
    → (phase_prefetch_query (phase_value p) language case_type ≡ none)
      × (default_source_types (phase_value p)
          ≡ "faq" ∷ "case_guide" ∷ "firm_policy" ∷ "uscis_form" ∷ [])
unfolding phase_prefetch_query default_source_types phase_value
phase_tables_missed greeting language case_type = (refl, refl)
phase_tables_missed identification language case_type = (refl, refl)
phase_tables_missed urgency_triage language case_type = (refl, refl)
phase_tables_missed intake_phase language case_type = (refl, refl)
phase_tables_missed consultation_pitch language case_type = (refl, refl)
phase_tables_missed booking language case_type = (refl, refl)
phase_tables_missed confirmation language case_type = (refl, refl)
phase_tables_missed closing language case_type = (refl, refl)

module _ (S : Scores) where
  open S use {Score, zero_score, confidence_threshold, lt}

  module _ {Stored : Type 0} (mmr : List (ChunkResult Score) → ChunkResult Score → Score) where
    candidates_of-AllUnranked :
        (w : World Score Stored) → AllUnranked S (candidates_of S mmr fast w)
    unfolding candidates_of add_all
    candidates_of-AllUnranked w =
        let found = add_hits S 1 (as_chunks S w.first_hits) [] in
        let h =
          AllUnranked-add_hits S 1 (as_chunks S w.first_hits) [] (as_chunks-Unranked S w.first_hits)
            tt in
        elim (Bool-cases (fills_up S found)) [
          | inl e ↦ rw e (
              AllUnranked-add_fallback S 1 (as_chunks S w.fallback_hits) found
                (as_chunks-Unranked S w.fallback_hits) h)
          | inr e ↦ rw e h
        ]

    guarded :
        (a b : Bool) (y : Answer Score Stored × List Effect)
        → y.0 ≡ chunks []
        → (if not a then (chunks [], []) else if not b then (chunks [], []) else y).0 ≡ chunks []
    guarded true true y e = e
    guarded true false y e = refl
    guarded false b y e = refl

    module _ (laws : IsLawful S) where
      choose-Unranked :
          (cross : Bool) (w : World Score Stored) (top : List (ChunkResult Score))
          → Unranked S top
          → (choose S mmr fast cross w top).0 ≡ chunks []
      unfolding choose
      choose-Unranked cross w [] h = refl
      choose-Unranked cross w (c ∷ cs) h =
          let gate : lt c.rerank_score confidence_threshold ≡ true =
            ap (λ s. lt s confidence_threshold) h.0 ∙ laws.zero-lt-threshold in
          rw gate refl

      search_fast_empty : (w : World Score Stored) → (search_and_choose S mmr fast w).0 ≡ chunks []
      unfolding search_and_choose rrf_score
      search_fast_empty w =
          let found = candidates_of S mmr fast w in
          elim (Bool-cases (is_nil found)) [
            | inl e ↦ rw e refl
            | inr e ↦ rw e (
                choose-Unranked _ w (take rerank_top_n (rrf_score S found)) (
                  take-Unranked S rerank_top_n (rrf_score S found) (
                    sort_by-Unranked S (λ c. c.rrf_score) (scored S found)
                      (scored-Unranked S found (candidates_of-AllUnranked w)))))
          ]

      module _ (strip lower : String → String) (words : String → List String) where
        -- On the fast path nothing is ever returned that is not in the cache: the chunks are not reranked,
        -- so the score of the first one is 0, below the threshold of the gate.
        pub fast_path_empty :
            (query : String) (w : World Score Stored)
            → w.cached ≡ none
            → classify_path lower words (strip query) ≡ fast
            → (retrieve S mmr strip lower words query w).0 ≡ chunks []
        unfolding retrieve
        fast_path_empty query w c f =
            guarded w.has_pool (nonempty (strip query))
              (use_cache S mmr w.cached
                (search_and_choose S mmr (classify_path lower words (strip query)) w))
              (ap
                  (λ o.
                    (use_cache S mmr o
                      (search_and_choose S mmr (classify_path lower words (strip query)) w)).0)
                  c
                ∙ ap (λ p. (search_and_choose S mmr p w).0) f
                ∙ search_fast_empty w)
