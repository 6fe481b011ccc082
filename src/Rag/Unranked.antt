-- ===== src/Rag/Unranked.antt =====
-- Chunks that were never reranked keep the score 0, through the fusion and the sort.
use mathlib.Core.Option.{some-injective}
use ai_receptionist_for_immi.Prelude.{
  ℕ, zero, suc, ◌+◌, String, ◌≡◌, refl, sym, ap, ◌∙◌, inl, inr, Option, none, some, List, [], ◌∷◌,
  arith, ◌==◌, if◌then◌else◌, Bool-cases, take,
}
use ai_receptionist_for_immi.Dict.{get, put}
use ai_receptionist_for_immi.Rag.{Scores, Row, ChunkResult}
use ai_receptionist_for_immi.Rag.Search.{
  chunk_of, Candidates, merged, add_hit, add_hits, fill, add_fallback, insert_by, sort_by, scored,
}
use ai_receptionist_for_immi.Rag.Retrieve.{as_chunks}

module _ (S : Scores) where
  open S use {Score, zero_score, confidence_threshold, lt}

  -- none of the chunks has been reranked
  abbrev pub Unranked : List (ChunkResult Score) → Type 0
  Unranked [] = Unit {0}
  Unranked (c ∷ cs) = (c.rerank_score ≡ zero_score) × Unranked cs

  abbrev pub AllUnranked : Candidates S → Type 0
  AllUnranked [] = Unit {0}
  AllUnranked ((id, (c, n)) ∷ d) = (c.rerank_score ≡ zero_score) × AllUnranked d

  pub AllUnranked-put :
      (d : Candidates S) (k : String) (c : ChunkResult Score) (n : ℕ)
      → c.rerank_score ≡ zero_score
      → AllUnranked d
      → AllUnranked (put d k (c, n))
  unfolding put
  AllUnranked-put [] k c n z h = (z, tt)
  AllUnranked-put ((j, (e, m)) ∷ d) k c n z h = elim (Bool-cases (j == k)) [
    | inl s ↦ rw s (z, h.1)
    | inr s ↦ rw s (h.0, AllUnranked-put d k c n z h.1)
  ]

  get-Unranked :
      (d : Candidates S) (k : String) (c : ChunkResult Score) (n : ℕ)
      → AllUnranked d
      → get d k ≡ some (c, n)
      → c.rerank_score ≡ zero_score
  unfolding get
  get-Unranked [] k c n h e = ground arith
  get-Unranked ((j, (f, m)) ∷ d) k c n h e = elim (Bool-cases (j == k)) [
    | inl s ↦
        sym (
          ap (λ r. r.0.rerank_score)
            (some-injective (f, m) (c, n)
              (sym (ap (λ b. if b then some (f, m) else get d k) s) ∙ e)))
        ∙ h.0
    | inr s ↦ get-Unranked d k c n h.1 (sym (ap (λ b. if b then some (f, m) else get d k) s) ∙ e)
  ]

  merged-Unranked :
      (rank : ℕ) (c : ChunkResult Score) (d : Candidates S)
      → (o : Option (ChunkResult Score × ℕ)) → get d c.id ≡ o
      → c.rerank_score ≡ zero_score
      → AllUnranked d
      → (merged S rank c o).0.rerank_score ≡ zero_score
  merged-Unranked rank c d none e z h = z
  merged-Unranked rank c d (some (f, n)) e z h = get-Unranked d c.id f n h e

  AllUnranked-add_hit :
      (rank : ℕ) (c : ChunkResult Score) (d : Candidates S)
      → c.rerank_score ≡ zero_score
      → AllUnranked d
      → AllUnranked (add_hit S rank c d)
  unfolding add_hit
  AllUnranked-add_hit rank c d z h =
      let m = merged S rank c (get d c.id) in
      AllUnranked-put d c.id m.0 m.1 (merged-Unranked rank c d (get d c.id) refl z h) h

  pub AllUnranked-add_hits :
      (rank : ℕ) (cs : List (ChunkResult Score)) (d : Candidates S)
      → Unranked cs
      → AllUnranked d
      → AllUnranked (add_hits S rank cs d)
  unfolding add_hits
  AllUnranked-add_hits rank [] d z h = h
  AllUnranked-add_hits rank (c ∷ cs) d z h =
      AllUnranked-add_hits (rank + 1) cs (add_hit S rank c d) z.1
        (AllUnranked-add_hit rank c d z.0 h)

  AllUnranked-fill :
      (rank : ℕ) (c : ChunkResult Score) (d : Candidates S)
      → (o : Option (ChunkResult Score × ℕ)) → c.rerank_score ≡ zero_score
      → AllUnranked d
      → AllUnranked (fill S rank c d o)
  AllUnranked-fill rank c d none z h = AllUnranked-put d c.id c (rank + 100) z h
  AllUnranked-fill rank c d (some f) z h = h

  pub AllUnranked-add_fallback :
      (rank : ℕ) (cs : List (ChunkResult Score)) (d : Candidates S)
      → Unranked cs
      → AllUnranked d
      → AllUnranked (add_fallback S rank cs d)
  unfolding add_fallback
  AllUnranked-add_fallback rank [] d z h = h
  AllUnranked-add_fallback rank (c ∷ cs) d z h =
      AllUnranked-add_fallback (rank + 1) cs (fill S rank c d (get d c.id)) z.1
        (AllUnranked-fill rank c d (get d c.id) z.0 h)

  pub as_chunks-Unranked : (rows : List (Row Score)) → Unranked (as_chunks S rows)
  unfolding chunk_of
  as_chunks-Unranked [] = tt
  as_chunks-Unranked (r ∷ rows) = (refl, as_chunks-Unranked rows)

  pub scored-Unranked : (d : Candidates S) → AllUnranked d → Unranked (scored S d)
  unfolding scored
  scored-Unranked [] h = tt
  scored-Unranked ((id, (c, n)) ∷ d) h = (h.0, scored-Unranked d h.1)

  insert_by-Unranked :
      (key : ChunkResult Score → Score) (c : ChunkResult Score) (cs : List (ChunkResult Score))
      → c.rerank_score ≡ zero_score
      → Unranked cs
      → Unranked (insert_by S key c cs)
  unfolding insert_by
  insert_by-Unranked key c [] z h = (z, tt)
  insert_by-Unranked key c (d ∷ ds) z h = elim (Bool-cases (lt (key c) (key d))) [
    | inl e ↦ rw e (h.0, insert_by-Unranked key c ds z h.1)
    | inr e ↦ rw e (z, h)
  ]

  pub sort_by-Unranked :
      (key : ChunkResult Score → Score) (cs : List (ChunkResult Score))
      → Unranked cs
      → Unranked (sort_by S key cs)
  unfolding sort_by
  sort_by-Unranked key [] h = tt
  sort_by-Unranked key (c ∷ cs) h =
      insert_by-Unranked key c (sort_by S key cs) h.0 (sort_by-Unranked key cs h.1)

  pub take-Unranked : (n : ℕ) (cs : List (ChunkResult Score)) → Unranked cs → Unranked (take n cs)
  take-Unranked zero cs h = tt
  take-Unranked (suc n) [] h = tt
  take-Unranked (suc n) (c ∷ cs) h = (h.0, take-Unranked n cs h.1)
