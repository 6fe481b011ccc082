-- ===== src/Ingestion/Embedded.antt =====
-- app/rag/ingestion.py: what `_embed_texts` and `_score_quality` return, whatever the services answer.
use ai_receptionist_for_immi.Prelude.{
  ℕ, zero, suc, ◌≤◌, String, ◌≡◌, refl, ap, ◌∙◌, inl, inr, false, Option, none, some, List, [], ◌∷◌,
  map, arith, if◌then◌else◌, Option-cases, is_nil, length, length-append, take, drop, length-take,
  length-drop, length-map,
}
use ai_receptionist_for_immi.Ingestion.{
  batch_scores, parsed_in, score_batches, score_quality, looked_up, uncached, filled, vectors_in,
  pairs, embed_texts,
}

module _ {N : Type 0} where
  length-filled :
      (zeros : List N) (results : List (Option (List N))) (vecs : List (List N))
      → length (filled zeros results vecs) ≡ length results
  unfolding filled
  length-filled zeros [] vecs = refl
  length-filled zeros (some v ∷ results) vecs = ap suc (length-filled zeros results vecs)
  length-filled zeros (none ∷ results) (v ∷ vecs) = ap suc (length-filled zeros results vecs)
  length-filled zeros (none ∷ results) [] = ap suc (length-filled zeros results [])

  length-batch_scores :
      (default : N) (n : ℕ) (parsed : List (Option N)) → length (batch_scores default n parsed) ≡ n
  unfolding batch_scores
  length-batch_scores default zero parsed = refl
  length-batch_scores default (suc n) [] = ap suc (length-batch_scores default n [])
  length-batch_scores default (suc n) (none ∷ parsed) = ap suc (length-batch_scores default n [])
  length-batch_scores default (suc n) (some score ∷ parsed) =
      ap suc (length-batch_scores default n parsed)

  length-score_batches :
      (default : N) (replies : List String → Option (List (Option N))) (fuel : ℕ)
      (texts : List String)
      → length texts ≤ fuel
      → length (score_batches default replies fuel texts) ≡ length texts
  unfolding score_batches
  length-score_batches default replies zero [] h = refl
  length-score_batches default replies zero (t ∷ texts) h = absurd (omega arith)
  length-score_batches default replies (suc fuel) [] h = refl
  length-score_batches default replies (suc fuel) (t ∷ texts) h =
      let batch = t ∷ take 19 texts in
      omega (
        arith,
        length-append (batch_scores default (length batch) (parsed_in (replies batch)))
            (score_batches default replies fuel (drop 19 texts)),
        length-batch_scores default (length batch) (parsed_in (replies batch)),
        length-score_batches default replies fuel (drop 19 texts)
            (omega (arith, h, length-drop 19 texts)),
        length-take 19 texts,
        length-drop 19 texts,
      )

  -- The service that embeds each text as `embed` does, and a cache that holds such vectors only.
  pub record EmbedsAs (embed : String → List N) (cached : String → Option (List N))
      (answer : List String → Option (List (List N))) : Type 0 where
    pub nonempty_vectors : (t : String) → is_nil (embed t) ≡ false
    pub coherent : (t : String) (v : List N) → cached t ≡ some v → v ≡ embed t
    pub answers : (ts : List String) → answer ts ≡ some (map embed ts)

  filled_lem :
      (embed : String → List N) (zeros : List N) (cached : String → Option (List N))
      → ((t : String) → is_nil (embed t) ≡ false)
      → ((t : String) (v : List N) → cached t ≡ some v → v ≡ embed t)
      → (texts : List String)
      → filled zeros (looked_up cached texts) (map embed (uncached cached texts)) ≡ map embed texts
  unfolding filled uncached
  filled_lem embed zeros cached n c [] = refl
  filled_lem embed zeros cached n c (t ∷ texts) = elim (Option-cases (cached t)) [
    | inl e ↦ ground (arith, e, n t, filled_lem embed zeros cached n c texts)
    | inr (v, e) ↦ ground (arith, e, n t, c t v e, filled_lem embed zeros cached n c texts)
  ]

  pairs_lem :
      (embed : String → List N) (texts : List String)
      → pairs texts (map embed texts) ≡ map (λ t. (t, embed t)) texts
  pairs_lem embed [] = refl
  pairs_lem embed (t ∷ texts) = ap (◌∷◌ (t, embed t)) (pairs_lem embed texts)

  missing_vectors :
      (embed : String → List N) (answer : List String → Option (List (List N)))
      → ((ts : List String) → answer ts ≡ some (map embed ts))
      → (missing : List String)
      → (if is_nil missing then [] else vectors_in (answer missing)) ≡ map embed missing
  missing_vectors embed answer a [] = refl
  missing_vectors embed answer a (t ∷ ts) = ap vectors_in (a (t ∷ ts))

  -- Each text gets its own vector, in the order of the texts, whichever of them the cache holds; and
  -- exactly the texts that it does not hold are written to it, each with its vector.
  pub embed_texts_lem :
      (embed : String → List N) (zeros : List N) (cached : String → Option (List N))
      (answer : List String → Option (List (List N)))
      → EmbedsAs embed cached answer
      → (texts : List String)
      → embed_texts zeros cached answer texts
        ≡ (map embed texts, map (λ t. (t, embed t)) (uncached cached texts))
  unfolding embed_texts
  embed_texts_lem embed zeros cached answer h texts =
      rw
        (
          missing_vectors embed answer h.answers (uncached cached texts),
          filled_lem embed zeros cached h.nonempty_vectors h.coherent texts,
          pairs_lem embed (uncached cached texts),
        )
        refl

  -- Whatever the services answer, there is one score and one vector for each text.
  pub one_for_each :
      (default : N) (zeros : List N) (replies : List String → Option (List (Option N)))
      (cached : String → Option (List N)) (answer : List String → Option (List (List N)))
      (texts : List String)
      → (length (score_quality default replies texts) ≡ length texts)
        × (length (embed_texts zeros cached answer texts).0 ≡ length texts)
  unfolding score_quality embed_texts
  one_for_each default zeros replies cached answer texts = (
    length-score_batches default replies (length texts) texts (omega arith),
    length-filled zeros (looked_up cached texts) _ ∙ length-map texts cached,
  )
