-- ===== src/Rag/Tests.antt =====
-- Runs of app/rag/retrieval.py and app/rag/context_builder.py, and the theorems of this part at
-- concrete inputs, with fractions for the scores.

use ai_receptionist_for_immi.Prelude.{
  ℕ, ◌+◌, ◌*◌, ◌≤◌, String, count, ◌≡◌, refl, true, Option, none, some, List, [], ◌∷◌, map, arith,
  ltb, contains, length,
}
use ai_receptionist_for_immi.Dict.{get, get_or}
use ai_receptionist_for_immi.Context.{join}
use ai_receptionist_for_immi.Rag.{classify_path, Scores, IsLawful, Row, ChunkResult, full}
use ai_receptionist_for_immi.Rag.Search.{chunk_of, Candidates, rrf_score}
use ai_receptionist_for_immi.Rag.Retrieve.{resolve_from, search_and_choose, retrieve, World, chunks}
use ai_receptionist_for_immi.Rag.Context.{
  default_budget, char_budget, lost_in_middle_order, entry_of, entries_within, build_rag_context,
}
use ai_receptionist_for_immi.Rag.Paths.{fast_path_empty}
use ai_receptionist_for_immi.Rag.Budget.{rag_context_bound}
use ai_receptionist_for_immi.Rag.Bounds.{Fresh, resolve_from-Fresh, returned, search_bound}

-- a fraction, by its numerator and denominator
abbrev fractions : Scores
fractions = record {
  Score = ℕ × ℕ;
  zero_score = (0, 1);
  confidence_threshold = (5, 1);
  lt = λ a b. ltb (a.0 * b.1) (b.0 * a.1);
  recip = λ n. (1, n);
  times_ten = λ a. (a.0 * 10, a.1);
  share_ten = λ a b. (a.0 * b.1 * 10, a.1 * b.0);
}

fractions-IsLawful : IsLawful fractions
fractions-IsLawful = record {
  zero-lt-threshold = refl;
  lt_asym = λ a b h. ground arith;
  recip_falls = λ m n h. ground arith;
}

abbrev Fraction : Type 0
Fraction = ℕ × ℕ

abbrev row : String → Option String → Row Fraction
row name parent = record {
  id = name;
  document_id = "d";
  parent_chunk_id = parent;
  content = "Form I-130";
  context_prefix = "";
  language = "en";
  source_type = "faq";
  title = "Forms";
  quality_score = (5, 1);
  embedding = (1, 1) ∷ [];
  fused = (1, 61);
}

abbrev chunk : String → ChunkResult Fraction
chunk name = chunk_of fractions (row name none)

abbrev world : World Fraction String
world = record {
  has_pool = true;
  cached = none;
  first_hits = row "a" (some "p") ∷ row "b" (some "p") ∷ row "c" none ∷ [];
  more_hits = (row "c" none ∷ []) ∷ [];
  fallback_hits = [];
  rerank_reply = some ((9, 1) ∷ (8, 1) ∷ (7, 1) ∷ []);
  parents = some (row "p" none ∷ []);
}

abbrev relevance : List (ChunkResult Fraction) → ChunkResult Fraction → Fraction
relevance selected c = c.rerank_score

abbrev same : String → String
same t = t

abbrev one_word : String → List String
one_word t = t ∷ []

-- two children of one parent give the parent once
full_test :
    map
      (λ c. c.id)
      (returned fractions relevance (search_and_choose fractions relevance full world).0)
    ≡ "p" ∷ "c" ∷ []
unfolding search_and_choose rrf_score
full_test = refl

context_test :
    build_rag_context (chunk "a" ∷ []) "voice"
    ≡ "[RELEVANT KNOWLEDGE BASE CONTEXT]\n\nForm I-130\n[Source: Forms (faq)]\n\n[END KNOWLEDGE BASE CONTEXT]"
unfolding build_rag_context get_or get lost_in_middle_order entries_within entry_of join chunk_of
context_test = refl

fast_path_empty_example :
    (retrieve fractions relevance same same one_word "how much?" world).0 ≡ chunks []
unfolding classify_path contains
fast_path_empty_example =
    fast_path_empty fractions relevance fractions-IsLawful same same one_word "how much?" world refl
      refl

abbrev known : Candidates fractions
known = ("a", (chunk "a", 1)) ∷ ("b", (chunk "b", 2)) ∷ []

search_bound_example :
    length (returned fractions relevance (search_and_choose fractions relevance full world).0) ≤ 5
search_bound_example = search_bound fractions relevance full world

resolve_from-Fresh_example : Fresh fractions [] (
    resolve_from fractions
      (row "p" none ∷ [])
      []
      (chunk_of fractions (row "a" (some "p")) ∷ chunk_of fractions (row "b" (some "p")) ∷ []))
resolve_from-Fresh_example =
    resolve_from-Fresh fractions (row "p" none ∷ []) []
      (chunk_of fractions (row "a" (some "p")) ∷ chunk_of fractions (row "b" (some "p")) ∷ [])

rag_context_bound_example :
    count (build_rag_context (chunk "a" ∷ []) "web") ≤ get_or char_budget "web" default_budget + 30
rag_context_bound_example = rag_context_bound (chunk "a" ∷ []) "web"
