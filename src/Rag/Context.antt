-- ===== src/Rag/Context.antt =====
-- app/rag/context_builder.py: the text for the prompt that is made of the chunks of a retrieval.
use ai_receptionist_for_immi.Prelude.{
  ℕ, ◌+◌, ◌*◌, ◌/◌, String, count, List, [], ◌∷◌, ◌++◌, ltb, leb, if◌then◌else◌, ◌⊕◌, nonempty,
  is_nil, length, take, drop,
}
use ai_receptionist_for_immi.Dict.{Dict, get_or}
use ai_receptionist_for_immi.Context.{join}
use ai_receptionist_for_immi.Rag.{ChunkResult}

abbrev pub default_budget : ℕ
default_budget = 1200 * 4

abbrev pub char_budget : Dict ℕ
char_budget = ("voice", 1200 * 4) ∷ ("web", 2500 * 4) ∷ ("prefetch", 2500 * 4) ∷ []

abbrev pub context_head : String
context_head = "[RELEVANT KNOWLEDGE BASE CONTEXT]"

abbrev pub context_end : String
context_end = "[END KNOWLEDGE BASE CONTEXT]"

module _ {Score : Type 0} where
  -- `top + bottom`, or the first of the top, the bottom and the rest of the top
  abbrev pub interleave :
      List (ChunkResult Score) → List (ChunkResult Score) → List (ChunkResult Score)
  interleave [] bottom = bottom
  interleave (t ∷ []) bottom = t ∷ bottom
  interleave (t ∷ u ∷ top) bottom = t ∷ (bottom ++ u ∷ top)

  unfoldable pub lost_in_middle_order : List (ChunkResult Score) → List (ChunkResult Score)
  lost_in_middle_order chunks =
      if leb (length chunks) 2
      then chunks
      else interleave (take (length chunks / 2) chunks) (drop (length chunks / 2) chunks)

  unfoldable pub entry_of : ChunkResult Score → String
  entry_of c =
      (if nonempty c.context_prefix then "(" ⊕ c.context_prefix ⊕ ") " else "")
      ⊕ c.content
      ⊕ "\n[Source: "
      ⊕ c.title
      ⊕ " ("
      ⊕ c.source_type
      ⊕ ")]"

  -- the loop over the chunks: the entries that fit, up to the first that does not
  unfoldable pub entries_within : ℕ → ℕ → List (ChunkResult Score) → List String
  entries_within budget used [] = []
  entries_within budget used (c ∷ cs) =
      let entry_chars = count (entry_of c) + 2 in
      let rest = entries_within budget (used + entry_chars) cs in
      if ltb budget (used + entry_chars) then [] else entry_of c ∷ rest

  unfoldable pub build_rag_context : List (ChunkResult Score) → String → String
  build_rag_context chunks channel =
      let budget = get_or char_budget channel default_budget in
      let entries = entries_within budget (count context_head) (lost_in_middle_order chunks) in
      if is_nil chunks
      then ""
      else if is_nil entries
      then ""
      else join "\n\n" (context_head ∷ (entries ++ context_end ∷ []))
