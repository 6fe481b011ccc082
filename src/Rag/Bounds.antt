-- ===== src/Rag/Bounds.antt =====
-- How many chunks a retrieval returns, and that no two of them have one id.
use ai_receptionist_for_immi.Prelude.{
  ℕ, zero, suc, ◌+◌, ◌-◌, ◌≤◌, String, ◌≡◌, refl, ap, inl, inr, Bool, false, Option, List, [], ◌∷◌,
  ◌++◌, arith, leb, Bool-cases, Option-cases, is_nil, any, is_in, length, length-append, take,
  length-take,
}
use ai_receptionist_for_immi.Rag.{final_k, Scores, Row, ChunkResult, PathKind}
use ai_receptionist_for_immi.Rag.Search.{
  pick_best, with_embedding, without_embedding, select_more, select_embedded, mmr_select,
}
use ai_receptionist_for_immi.Rag.Retrieve.{
  replaced, resolve_from, has_parent, resolve_parents, below_threshold, candidates_of, choose,
  cross_lang_of, top_of, search_and_choose, World, Answer, from_cache, chunks,
}

module _ (S : Scores) where
  open S use {Score, lt, confidence_threshold}

  length-pick_best :
      (value : ChunkResult Score → Score) (c : ChunkResult Score) (cs : List (ChunkResult Score))
      → length (pick_best S value c cs).1 ≡ length cs
  unfolding pick_best
  length-pick_best value c [] = refl
  length-pick_best value c (d ∷ ds) =
      elim (Bool-cases (lt (value c) (value (pick_best S value d ds).0))) [
        | inl e ↦ rw e (ap suc (length-pick_best value d ds))
        | inr e ↦ rw e refl
      ]

  module _ (mmr : List (ChunkResult Score) → ChunkResult Score → Score) where
    length-select_more :
        (n : ℕ) (selected remaining : List (ChunkResult Score))
        → length (select_more S mmr n selected remaining) ≤ length selected + n
    unfolding select_more
    length-select_more zero selected remaining = omega arith
    length-select_more (suc n) selected [] = omega arith
    length-select_more (suc n) selected (c ∷ cs) =
        let best = pick_best S (mmr selected) c cs in
        omega (
          arith,
          length-select_more n (selected ++ best.0 ∷ []) best.1,
          length-append selected (best.0 ∷ []),
        )

    length-select_embedded :
        (k : ℕ) (cs : List (ChunkResult Score)) → 1 ≤ k → length (select_embedded S mmr k cs) ≤ k
    unfolding select_embedded
    length-select_embedded k [] h = omega arith
    length-select_embedded k (c ∷ cs) h =
        let best = pick_best S (λ d. d.rerank_score) c cs in
        omega (arith, length-select_more (k - 1) (best.0 ∷ []) best.1)

    length-mmr_select :
        (cs : List (ChunkResult Score)) (k : ℕ) → 1 ≤ k → length (mmr_select S mmr cs k) ≤ k
    unfolding mmr_select
    length-mmr_select cs k h =
        let selected = select_embedded S mmr k (with_embedding S cs) in
        elim (Bool-cases (leb (length cs) k)) [
          | inl e ↦ rw e (ground arith)
          | inr e ↦ elim (Bool-cases (is_nil (with_embedding S cs))) [
            | inl f ↦ rw (e, f) (omega (arith, length-take k cs))
            | inr f ↦
                rw (e, f)
                  (omega (
                    arith,
                    length-append selected (take (k - length selected) (without_embedding S cs)),
                    length-take (k - length selected) (without_embedding S cs),
                    length-select_embedded k (with_embedding S cs) h,
                  ))
          ]
        ]

  length-resolve_from :
      (rows : List (Row Score)) (seen : List String) (cs : List (ChunkResult Score))
      → length (resolve_from S rows seen cs) ≤ length cs
  unfolding resolve_from
  length-resolve_from rows seen [] = omega arith
  length-resolve_from rows seen (c ∷ cs) =
      let d = replaced S rows c in
      elim (Bool-cases (is_in d.id seen)) [
        | inl e ↦ rw e (omega (arith, length-resolve_from rows seen cs))
        | inr e ↦ rw e (omega (arith, length-resolve_from rows (d.id ∷ seen) cs))
      ]

  length-resolve_parents :
      (rows : Option (List (Row Score))) (cs : List (ChunkResult Score))
      → length (resolve_parents S rows cs) ≤ length cs
  unfolding resolve_parents
  length-resolve_parents rows cs = elim (Bool-cases (any (has_parent S) cs)) [
    | inr e ↦ rw e (omega arith)
    | inl e ↦ elim (Option-cases rows) [
      | inl f ↦ rw (e, f) (omega arith)
      | inr (found, f) ↦ rw (e, f) (length-resolve_from found [] cs)
    ]
  ]

  -- no id stands in `seen`, and none twice
  abbrev pub Fresh : List String → List (ChunkResult Score) → Type 0
  Fresh seen [] = Unit {0}
  Fresh seen (c ∷ cs) = (is_in c.id seen ≡ false) × Fresh (c.id ∷ seen) cs

  -- Once the parents are read, no two of the chunks that are returned have the same id, however many
  -- children of one parent were found.
  pub resolve_from-Fresh :
      (rows : List (Row Score)) (seen : List String) (cs : List (ChunkResult Score))
      → Fresh seen (resolve_from S rows seen cs)
  unfolding resolve_from
  resolve_from-Fresh rows seen [] = tt
  resolve_from-Fresh rows seen (c ∷ cs) =
      let d = replaced S rows c in
      elim (Bool-cases (is_in d.id seen)) [
        | inl e ↦ rw e (resolve_from-Fresh rows seen cs)
        | inr e ↦ rw e (e, resolve_from-Fresh rows (d.id ∷ seen) cs)
      ]

  module _ {Stored : Type 0} (mmr : List (ChunkResult Score) → ChunkResult Score → Score) where
    abbrev pub returned : Answer Score Stored → List (ChunkResult Score)
    returned (from_cache stored) = []
    returned (chunks cs) = cs

    returned-choose :
        (path : PathKind) (cross : Bool) (w : World Score Stored) (top : List (ChunkResult Score))
        → length (returned (choose S mmr path cross w top).0) ≤ final_k
    unfolding choose
    returned-choose path cross w top = elim (Bool-cases (below_threshold S top)) [
      | inl e ↦ rw e (omega arith)
      | inr e ↦ rw e (
          omega (
            arith,
            length-resolve_parents w.parents (mmr_select S mmr top final_k),
            length-mmr_select mmr top final_k (omega arith),
          ))
    ]

    -- A search of the database returns at most five chunks, on either path and whatever it finds.
    pub search_bound :
        (path : PathKind) (w : World Score Stored)
        → length (returned (search_and_choose S mmr path w).0) ≤ 5
    unfolding search_and_choose
    search_bound path w =
        let found = candidates_of S mmr path w in
        elim (Bool-cases (is_nil found)) [
          | inl e ↦ rw e (omega arith)
          | inr e ↦ rw e (returned-choose path (cross_lang_of S mmr path w) w (top_of S mmr path w))
        ]
