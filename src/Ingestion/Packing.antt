-- ===== src/Ingestion/Packing.antt =====
-- app/rag/ingestion.py: what `_chunk_document` and `_make_children` make of the sentences.

use ai_receptionist_for_immi.Prelude.{
  ℕ, ◌+◌, ◌≤◌, ◌<◌, String, ◌≡◌, refl, sym, ap, subst, ◌∙◌, ◌⊎◌, inl, inr, true, false, Option,
  none, some, List, [], ◌∷◌, ◌++◌, map, append_assoc, arith, ltb, ltb→lt, Bool-cases,
}
use ai_receptionist_for_immi.Context.{join}
use ai_receptionist_for_immi.Ingestion.{pack_from, make_children, chunk_of, chunk_document, Tools}

abbrev pub concat : List (List String) → List String
concat [] = []
concat (g ∷ gs) = g ++ concat gs

module _ (tools : Tools) (limit : ℕ) where
  abbrev pub total : List String → ℕ
  total [] = 0
  total (s ∷ g) = tools.token_count s + total g

  -- a group is within the limit, or it is one sentence
  abbrev pub Fits : List String → Type 0
  Fits g = (total g ≤ limit) ⊎ ((s : String) × (g ≡ s ∷ []))

  abbrev pub After : Option ℕ → String → Type 0
  After none s = Unit {0}
  After (some before) s = limit < before + tools.token_count s

  -- No group is empty, each fits, and its first sentence did not fit into the group before, of which
  -- `before` are the tokens.
  abbrev pub Packed : Option ℕ → List (List String) → Type 0
  Packed before [] = Unit {0}
  Packed before ([] ∷ gs) = ⊥
  Packed before ((s ∷ g) ∷ gs) = Fits (s ∷ g) × After before s × Packed (some (total (s ∷ g))) gs

  total-append : (g h : List String) → total (g ++ h) ≡ total g + total h
  total-append [] h = omega arith
  total-append (s ∷ g) h = omega (arith, total-append g h)

  pack_first :
      (sent : String) (sentences : List String) (tokens : ℕ)
      → pack_from tools limit (sent ∷ sentences) [] tokens
        ≡ pack_from tools limit sentences (sent ∷ []) (tokens + tools.token_count sent)
  unfolding pack_from
  pack_first sent sentences tokens = ground arith

  pack_next :
      (sent : String) (sentences : List String) (s : String) (g : List String) (tokens : ℕ)
      → (ltb limit (tokens + tools.token_count sent) ≡ false)
      → pack_from tools limit (sent ∷ sentences) (s ∷ g) tokens
        ≡ pack_from tools limit sentences (s ∷ (g ++ sent ∷ [])) (tokens + tools.token_count sent)
  unfolding pack_from
  pack_next sent sentences s g tokens f = ground (arith, f)

  pack_over :
      (sent : String) (sentences : List String) (s : String) (g : List String) (tokens : ℕ)
      → (ltb limit (tokens + tools.token_count sent) ≡ true)
      → pack_from tools limit (sent ∷ sentences) (s ∷ g) tokens
        ≡ (s ∷ g) ∷ pack_from tools limit sentences (sent ∷ []) (tools.token_count sent)
  unfolding pack_from
  pack_over sent sentences s g tokens t = ground (arith, t)

  concat-pack_from :
      (sentences : List String) (s : String) (g : List String) (tokens : ℕ)
      → concat (pack_from tools limit sentences (s ∷ g) tokens) ≡ (s ∷ g) ++ sentences
  unfolding pack_from
  concat-pack_from [] s g tokens = refl
  concat-pack_from (sent ∷ sentences) s g tokens =
      let n = tokens + tools.token_count sent in
      elim (Bool-cases (ltb limit n)) [
        | inl t ↦
            ap concat (pack_over sent sentences s g tokens t)
            ∙ ap (◌++◌ (s ∷ g)) (concat-pack_from sentences sent [] (tools.token_count sent))
        | inr f ↦
            ap concat (pack_next sent sentences s g tokens f)
            ∙ concat-pack_from sentences s (g ++ sent ∷ []) n
            ∙ append_assoc (s ∷ g) (sent ∷ []) sentences
      ]

  concat-pack :
      (sentences : List String) → concat (pack_from tools limit sentences [] 0) ≡ sentences
  unfolding pack_from
  concat-pack [] = refl
  concat-pack (s ∷ sentences) =
      ap concat (pack_first s sentences 0)
      ∙ concat-pack_from sentences s [] (0 + tools.token_count s)

  pack_from-Packed :
      (sentences : List String) (s : String) (g : List String) (tokens : ℕ) (before : Option ℕ)
      → tokens ≡ total (s ∷ g)
      → Fits (s ∷ g)
      → After before s
      → Packed before (pack_from tools limit sentences (s ∷ g) tokens)
  unfolding pack_from
  pack_from-Packed [] s g tokens before e f a = (f, a, tt)
  pack_from-Packed (sent ∷ sentences) s g tokens before e f a =
      let n = tokens + tools.token_count sent in
      elim (Bool-cases (ltb limit n)) [
        | inl t ↦
            let rest =
              pack_from-Packed sentences sent [] (tools.token_count sent) (some (total (s ∷ g)))
                (omega arith) (inr (sent, refl)) (omega (arith, e, ltb→lt limit n t)) in
            subst (Packed before) (sym (pack_over sent sentences s g tokens t)) (f, a, rest)
        | inr b ↦
            let fits : total (s ∷ (g ++ sent ∷ [])) ≤ limit =
              ground (arith, e, b, total-append g (sent ∷ [])) in
            subst (Packed before) (sym (pack_next sent sentences s g tokens b)) (
              pack_from-Packed sentences s (g ++ sent ∷ []) n before
                (omega (arith, e, total-append g (sent ∷ []))) (inl fits) a)
      ]

  pack-Packed : (sentences : List String) → Packed none (pack_from tools limit sentences [] 0)
  unfolding pack_from
  pack-Packed [] = tt
  pack-Packed (s ∷ sentences) = subst (Packed none) (sym (pack_first s sentences 0)) (
      pack_from-Packed sentences s [] (0 + tools.token_count s) none (omega arith) (inr (s, refl))
        tt)

-- How a text is cut into groups of sentences: none is lost or moved, each group keeps within the limit
-- or is one sentence, and no sentence starts a new group that would have fitted into the one before.
pub record CutInto (tools : Tools) (limit : ℕ) (whole : String) (gs : List (List String))
    : Type 0 where
  pub all_kept : concat gs ≡ tools.split_sentences whole
  pub well_packed : Packed tools limit none gs

pub cut-CutInto :
    (tools : Tools) (limit : ℕ) (whole : String)
    → CutInto tools limit whole (pack_from tools limit (tools.split_sentences whole) [] 0)
cut-CutInto tools limit whole = record {
  all_kept = concat-pack tools limit (tools.split_sentences whole);
  well_packed = pack-Packed tools limit (tools.split_sentences whole);
}

-- The parents of a document are its sentences in order, joined in groups of at most 400 tokens, and the
-- children of a parent are the sentences of its text in groups of at most 100. A group over the limit is
-- one sentence, and a group ends only before a sentence that would pass the limit.
pub chunk_document-CutInto :
    (tools : Tools) (doc language parent : String)
    → ((gs : List (List String)) × (chunk_document tools doc language
          ≡ map (chunk_of tools language) gs)
        × CutInto tools 400 doc gs)
      × ((hs : List (List String)) × (make_children tools parent ≡ map (join " ") hs)
          × CutInto tools 100 parent hs)
unfolding chunk_document make_children
chunk_document-CutInto tools doc language parent = (
  (pack_from tools 400 (tools.split_sentences doc) [] 0, refl, cut-CutInto tools 400 doc),
  (pack_from tools 100 (tools.split_sentences parent) [] 0, refl, cut-CutInto tools 100 parent),
)
