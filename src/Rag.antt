-- ===== src/Rag.antt =====
-- app/rag/retrieval.py: how the knowledge base is searched for a query. The scores are floating
-- numbers: their type and the operations on it are a parameter, and so are the rows that the database
-- returns, the replies of the model and the answers of the cache.
pub mod Search
pub mod Retrieve
pub mod Context
pub mod Ranking
pub mod Unranked
pub mod Paths
pub mod Budget
pub mod Bounds
mod Tests
use mathlib.Core.Option
use ai_receptionist_for_immi.Prelude.{
  ℕ, ◌<◌, String, ◌≡◌, Bool, true, false, not, Option, none, some, List, [], ◌∷◌, ◌==◌, ltb,
  if◌then◌else◌, ◌⊕◌, contains, nonempty, any, length,
}
use ai_receptionist_for_immi.Dict.{Dict, get, get_or}

pub record Scores : Type 1 where
  pub Score : Type 0
  -- 0.0, and the threshold of the confidence gate
  pub zero_score : Score
  pub confidence_threshold : Score
  pub lt : Score → Score → Bool
  -- 1.0 / n
  pub recip : ℕ → Score
  -- s * 10, and (s / top) * 10 for the largest score `top`, or for 1 where that is zero
  pub times_ten : Score → Score
  pub share_ten : Score → Score → Score

-- What the theorems need of the numbers.
pub record IsLawful (S : Scores) : Type 0 where
  pub zero-lt-threshold : S.lt S.zero_score S.confidence_threshold ≡ true
  -- no score is both below and above another
  pub lt_asym : (a b : S.Score) → S.lt a b ≡ true → S.lt b a ≡ false
  pub recip_falls : (m n : ℕ) → m < n → S.lt (S.recip n) (S.recip m) ≡ true

abbrev pub result_cache_ttl : ℕ
result_cache_ttl = 300

abbrev pub final_k : ℕ
final_k = 5

abbrev pub rerank_top_n : ℕ
rerank_top_n = 10

abbrev pub case_keywords : List String
case_keywords =
    "visa" ∷ "court" ∷ "ice" ∷ "detained" ∷ "daca" ∷ "deportation" ∷ "i-485" ∷ "i-130" ∷ "i-765"
    ∷ "i-131" ∷ "n-400" ∷ "work" ∷ "permit" ∷ "asylum" ∷ "green" ∷ "card" ∷ "renewal" ∷ "denied"
    ∷ "petition" ∷ "removal" ∷ "ead" ∷ "travel" ∷ "document" ∷ "sponsor" ∷ "h-1b" ∷ "h1b" ∷ "tps"
    ∷ "parole" ∷ "naturalization" ∷ []

-- A row of the search, and of the lookup of parents.
pub record Row (Score : Type 0) : Type 0 where
  pub id : String
  pub document_id : String
  pub parent_chunk_id : Option String
  pub content : String
  pub context_prefix : String
  pub language : String
  pub source_type : String
  pub title : String
  pub quality_score : Score
  pub embedding : List Score
  pub fused : Score

pub record ChunkResult (Score : Type 0) : Type 0 where
  pub id : String
  pub document_id : String
  pub parent_chunk_id : Option String
  pub content : String
  pub context_prefix : String
  pub language : String
  pub source_type : String
  pub title : String
  pub quality_score : Score
  pub embedding : List Score
  pub rrf_score : Score
  pub rerank_score : Score

pub data PathKind : Type 0 where
  fast full : PathKind

abbrev pub is_full : PathKind → Bool
is_full fast = false
is_full full = true

-- `lower` is `str.lower`, and `words` its `split()`
unfoldable pub classify_path : (String → String) → (String → List String) → String → PathKind
classify_path lower words query =
    if ltb (length (words (lower query))) 8
    then (if any (contains (lower query)) case_keywords then full else fast)
    else full

unfoldable pub default_source_types : String → List String
default_source_types phase =
    if phase == "URGENCY_TRIAGE"
    then "faq" ∷ "case_guide" ∷ "firm_policy" ∷ []
    else if phase == "INTAKE"
    then "case_guide" ∷ "uscis_form" ∷ "faq" ∷ []
    else if phase == "CONSULTATION_PITCH"
    then "firm_policy" ∷ "faq" ∷ "case_guide" ∷ []
    else if phase == "BOOKING"
    then "firm_policy" ∷ "faq" ∷ []
    else if phase == "CONFIRMATION"
    then "firm_policy" ∷ []
    else "faq" ∷ "case_guide" ∷ "firm_policy" ∷ "uscis_form" ∷ []

-- `case_type or other`
abbrev pub or_word : Option String → String → String
or_word none other = other
or_word (some t) other = if nonempty t then t else other

abbrev pub templates : Option String → Dict String
templates case_type =
    ("URGENCY_TRIAGE", "emergency immigration detention court date")
    ∷ ("INTAKE", or_word case_type "immigration" ⊕ " case requirements documents process")
    ∷ (
      "CONSULTATION_PITCH",
      "immigration attorney consultation " ⊕ or_word case_type "services" ⊕ " fees",
    )
    ∷ ("BOOKING", "schedule appointment immigration attorney")
    ∷ ("CONFIRMATION", "appointment confirmation immigration law firm")
    ∷ []

abbrev pub query_map : Option String → Dict String
query_map case_type =
    ("URGENCY_TRIAGE", "detención inmigración fecha de corte emergencia")
    ∷ ("INTAKE", "proceso documentos caso de inmigración " ⊕ or_word case_type "")
    ∷ ("CONSULTATION_PITCH", "consulta abogado inmigración " ⊕ or_word case_type "servicios")
    ∷ ("BOOKING", "programar cita abogado inmigración")
    ∷ ("CONFIRMATION", "confirmación cita firma de abogados")
    ∷ []

unfoldable pub phase_prefetch_query : String → String → Option String → Option String
unfolding get get_or
phase_prefetch_query phase language case_type = elim (get (templates case_type) phase) [
  | none ↦ none
  | some query ↦
      if not (nonempty query)
      then none
      else if language == "es"
      then some (get_or (query_map case_type) phase query)
      else some query
]

pub data Effect : Type 0 where
  -- path, cache_hit, chunks_returned, confidence_gate, cross_lang
  log_query : String → Bool → ℕ → Bool → Bool → Effect
  -- `setex(cache_key, ttl, …)`, the number of chunks stored
  cache_result : ℕ → ℕ → Effect

abbrev pub path_name : PathKind → String
path_name fast = "fast"
path_name full = "full"
