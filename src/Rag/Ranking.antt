-- ===== src/Rag/Ranking.antt =====
-- How the candidates of several searches are fused and sorted.
use mathlib.Core.List.{Perm}
use mathlib.Core.List.Perm
use ai_receptionist_for_immi.Prelude.{
  ℕ, ◌+◌, ◌≤◌, ◌≡◌, refl, ap, ◌∙◌, inl, inr, true, false, some, List, [], ◌∷◌, arith, eq_refl,
  Bool-cases,
}
use ai_receptionist_for_immi.Dict.{get, put, get-put}
use ai_receptionist_for_immi.Rag.{Scores, IsLawful, ChunkResult}
use ai_receptionist_for_immi.Rag.Search.{
  Candidates, merged, add_hit, insert_by, sort_by, scored, rrf_score,
}

module _ (S : Scores) where
  open S use {Score, lt, recip}

  insert_by-perm :
      (key : ChunkResult Score → Score) (c : ChunkResult Score) (cs : List (ChunkResult Score))
      → Perm (insert_by S key c cs) (c ∷ cs)
  unfolding insert_by
  insert_by-perm key c [] = Perm.refl (c ∷ [])
  insert_by-perm key c (d ∷ ds) = elim (Bool-cases (lt (key c) (key d))) [
    | inl e ↦ rw e (Perm.trans (Perm.cons d (insert_by-perm key c ds)) (Perm.swap c d ds))
    | inr e ↦ rw e (Perm.refl (c ∷ d ∷ ds))
  ]

  sort_by-perm :
      (key : ChunkResult Score → Score) (cs : List (ChunkResult Score)) → Perm (sort_by S key cs) cs
  unfolding sort_by
  sort_by-perm key [] = Perm.refl []
  sort_by-perm key (c ∷ cs) =
      Perm.trans (insert_by-perm key c (sort_by S key cs)) (Perm.cons c (sort_by-perm key cs))

  -- no chunk has a smaller key than the next one
  abbrev pub Falls : (ChunkResult Score → Score) → List (ChunkResult Score) → Type 0
  Falls key [] = Unit {0}
  Falls key (c ∷ []) = Unit {0}
  Falls key (c ∷ d ∷ ds) = (lt (key c) (key d) ≡ false) × Falls key (d ∷ ds)

  module _ (laws : IsLawful S) where
    insert_by-Falls :
        (key : ChunkResult Score → Score) (c : ChunkResult Score) (cs : List (ChunkResult Score))
        → Falls key cs
        → Falls key (insert_by S key c cs)
    unfolding insert_by
    insert_by-Falls key c [] h = tt
    insert_by-Falls key c (d ∷ []) h = elim (Bool-cases (lt (key c) (key d))) [
      | inl e ↦ rw e (laws.lt_asym (key c) (key d) e, tt)
      | inr e ↦ rw e (e, tt)
    ]
    insert_by-Falls key c (d ∷ e ∷ es) h = elim (Bool-cases (lt (key c) (key d))) [
      | inr n ↦ rw n (n, h)
      | inl y ↦ elim (Bool-cases (lt (key c) (key e))) [
        | inl z ↦ rw (y, z) (h.0, rw z at (insert_by-Falls key c (e ∷ es) h.1))
        | inr z ↦ rw (y, z) (laws.lt_asym (key c) (key d) y, (z, h.1))
      ]
    ]

    sort_by-Falls :
        (key : ChunkResult Score → Score) (cs : List (ChunkResult Score))
        → Falls key (sort_by S key cs)
    unfolding sort_by
    sort_by-Falls key [] = tt
    sort_by-Falls key (c ∷ cs) = insert_by-Falls key c (sort_by S key cs) (sort_by-Falls key cs)

    -- The ranking holds each candidate exactly once, with the score of its rank sum, and no score is
    -- smaller than the next one.
    pub rrf_score-sorted :
        (d : Candidates S)
        → Perm (rrf_score S d) (scored S d) × Falls (λ c. c.rrf_score) (rrf_score S d)
    unfolding rrf_score
    rrf_score-sorted d = (
      sort_by-perm (λ c. c.rrf_score) (scored S d),
      sort_by-Falls (λ c. c.rrf_score) (scored S d),
    )

    -- A candidate that one more search finds is scored lower than before: its ranks are added, and a
    -- larger sum has a smaller reciprocal.
    pub found_again_falls :
        (rank n : ℕ) (c first : ChunkResult Score) (d : Candidates S)
        → 1 ≤ rank
        → get d c.id ≡ some (first, n)
        → (get (add_hit S rank c d) c.id ≡ some (first, n + rank))
          × (lt (recip (60 + (n + rank))) (recip (60 + n)) ≡ true)
    unfolding add_hit
    found_again_falls rank n c first d h e = (
      ap (λ o. get (put d c.id (merged S rank c o)) c.id) e
          ∙ get-put d c.id c.id (first, n + rank)
          ∙ rw (eq_refl c.id) refl,
      laws.recip_falls (60 + n) (60 + (n + rank)) (omega arith),
    )
