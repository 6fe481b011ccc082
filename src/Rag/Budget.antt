-- ===== src/Rag/Budget.antt =====
-- How long the text for the prompt may get, and which chunks it is made of.
use mathlib.Core.List.{Perm, perm_append_comm}
use mathlib.Core.List.Perm
use text.Mathlib.TextLemmas.{length-append as count-append}
use ai_receptionist_for_immi.Prelude.{
  ℕ, ◌+◌, ◌/◌, ◌≤◌, String, count, ◌≡◌, subst, ◌∙◌, inl, inr, List, [], ◌∷◌, ◌++◌, arith, ltb, leb,
  Bool-cases, ◌⊕◌, is_nil, length, take, drop, take-append-drop,
}
use ai_receptionist_for_immi.Dict.{get, get_or}
use ai_receptionist_for_immi.Context.{join}
use ai_receptionist_for_immi.Rag.{ChunkResult}
use ai_receptionist_for_immi.Rag.Context.{
  default_budget, char_budget, context_head, context_end, interleave, lost_in_middle_order,
  entry_of, entries_within, build_rag_context,
}

-- the characters of the entries, each with its separator
abbrev spent : List String → ℕ
spent [] = 0
spent (e ∷ es) = count e + 2 + spent es

spent-append : (es fs : List String) → spent (es ++ fs) ≡ spent es + spent fs
spent-append [] fs = omega arith
spent-append (e ∷ es) fs = omega (arith, spent-append es fs)

count-join : (e : String) (es : List String) → count (join "\n\n" (e ∷ es)) ≡ count e + spent es
unfolding join
count-join e [] = omega arith
count-join e (f ∷ es) =
    count-append e ("\n\n" ⊕ join "\n\n" (f ∷ es))
    ∙ omega (arith, count-append "\n\n" (join "\n\n" (f ∷ es)), count-join f es)

head-le-budget : (channel : String) → count context_head ≤ get_or char_budget channel default_budget
unfolding get_or get
head-le-budget channel = ground arith

module _ {Score : Type 0} where
  spent-entries_within :
      (budget used : ℕ) (cs : List (ChunkResult Score))
      → used ≤ budget
      → used + spent (entries_within budget used cs) ≤ budget
  unfolding entries_within
  spent-entries_within budget used [] h = omega arith
  spent-entries_within budget used (c ∷ cs) h =
      elim (Bool-cases (ltb budget (used + (count (entry_of c) + 2)))) [
        | inl e ↦ rw e (omega arith)
        | inr e ↦ rw e (
            omega (
              arith,
              spent-entries_within budget (used + (count (entry_of c) + 2)) cs (ground arith),
            ))
      ]

  interleave-perm :
      (top bottom : List (ChunkResult Score)) → Perm (interleave top bottom) (top ++ bottom)
  interleave-perm [] bottom = Perm.refl bottom
  interleave-perm (t ∷ []) bottom = Perm.refl (t ∷ bottom)
  interleave-perm (t ∷ u ∷ top) bottom = Perm.cons t (perm_append_comm bottom (u ∷ top))

  -- Reordering against the loss in the middle neither drops nor repeats a chunk.
  pub lost_in_middle_order-perm :
      (chunks : List (ChunkResult Score)) → Perm (lost_in_middle_order chunks) chunks
  unfolding lost_in_middle_order
  lost_in_middle_order-perm chunks = elim (Bool-cases (leb (length chunks) 2)) [
    | inl e ↦ rw e (Perm.refl chunks)
    | inr e ↦ rw e (
        subst
          (λ l.
            Perm (interleave (take (length chunks / 2) chunks) (drop (length chunks / 2) chunks)) l)
          (take-append-drop (length chunks / 2) chunks)
          (interleave-perm (take (length chunks / 2) chunks) (drop (length chunks / 2) chunks)))
  ]

  -- The text for the prompt is at most 30 characters longer than the budget of its channel: the closing
  -- mark and its separator are not counted against it.
  pub rag_context_bound :
      (chunks : List (ChunkResult Score)) (channel : String)
      → count (build_rag_context chunks channel) ≤ get_or char_budget channel default_budget + 30
  unfolding build_rag_context
  rag_context_bound chunks channel =
      let budget = get_or char_budget channel default_budget in
      let entries = entries_within budget (count context_head) (lost_in_middle_order chunks) in
      elim (Bool-cases (is_nil chunks)) [
        | inl e ↦ rw e (omega arith)
        | inr e ↦ elim (Bool-cases (is_nil entries)) [
          | inl f ↦ rw (e, f) (omega arith)
          | inr f ↦
              rw (e, f)
                (omega (
                  arith,
                  count-join context_head (entries ++ context_end ∷ []),
                  spent-append entries (context_end ∷ []),
                  spent-entries_within budget (count context_head) (lost_in_middle_order chunks)
                      (head-le-budget channel),
                ))
        ]
      ]
