-- ===== src/Context.antt =====
-- app/voice/context_manager.py: the window of recent turns, the running summary of older ones, and
-- the messages that are sent to the language model. The summary that the OpenAI client returns is an
-- argument, `none` where the call raises.
pub mod Window
pub mod Summary
pub mod Messages
mod Tests
use ai_receptionist_for_immi.Prelude.{
  ℕ, zero, suc, ◌-◌, String, count, Bool, true, false, Option, none, some, List, [], ◌∷◌, ◌++◌, ltb,
  if◌then◌else◌, ◌⊕◌, nonempty, length, take, drop, leb_ℤ, ℤ, pos,
}
use ai_receptionist_for_immi.Dict.{Dict}
use ai_receptionist_for_immi.Value.{truthy, Value}
use ai_receptionist_for_immi.Conversation.{label_value, Turn, CallState}

abbrev pub history_max_turns : ℕ
history_max_turns = 6

abbrev pub turns_to_compress : ℕ
turns_to_compress = 4

abbrev pub summary_max_chars : ℕ
summary_max_chars = 2000

-- `text[n:]`, in characters
unfoldable pub drop_chars : ℕ → String → String
drop_chars zero s = s
drop_chars (suc n) String.[] = String.[]
drop_chars (suc n) (String.◌∷◌ c s) = drop_chars n s

-- `text[-n:]` for n > 0
pub last_chars : ℕ → String → String
unfolding drop_chars
last_chars n s = drop_chars (count s - n) s

abbrev pub omitted : String
omitted = "...(earlier context omitted)...\n"

-- the summary after a new fragment
unfoldable pub merge_summary : String → String → String
unfolding last_chars
merge_summary old fragment =
    let merged = old ⊕ "\n" ⊕ fragment in
    if nonempty old
    then (if ltb summary_max_chars (count merged)
        then omitted ⊕ last_chars summary_max_chars merged
        else merged)
    else fragment

unfoldable pub compress_old_turns : Option String → CallState → CallState
compress_old_turns none s = record s {
  turns = take turns_to_compress s.turns ++ drop turns_to_compress s.turns;
}
compress_old_turns (some fragment) s = record s {
  turns = drop turns_to_compress s.turns;
  summary = merge_summary s.summary fragment;
}

unfoldable pub add_turn : Option String → String → String → CallState → CallState
unfolding compress_old_turns
add_turn fragment speaker said s =
    let longer = record s { turns = s.turns ++ record { role = speaker; content = said } ∷ [] } in
    if ltb history_max_turns (length longer.turns)
    then compress_old_turns fragment longer
    else longer

-- `"sep".join(parts)`
unfoldable pub join : String → List String → String
join sep [] = ""
join sep (p ∷ []) = p
join sep (p ∷ q ∷ ps) = p ⊕ sep ⊕ join sep (q ∷ ps)

abbrev when : Bool → String → List String
when true part = part ∷ []
when false part = []

abbrev pub is_filled : Dict Value → Bool
is_filled [] = false
is_filled (_ ∷ _) = true

abbrev pub injection : List String → List Turn
injection [] = []
injection (p ∷ ps) = record { role = "system"; content = join "\n\n" (p ∷ ps) } ∷ []

-- `repr v` is Python's `repr(v)`, and `show n` its `str(n)`
module _ (repr : Value → String) (show : ℤ → String) where
  collected : Dict Value → List String
  collected [] = []
  collected ((k, v) ∷ d) = when (truthy v) (k ⊕ "=" ⊕ repr v) ++ collected d

  pub context_parts : CallState → String → String → List String
  unfolding collected join
  context_parts s extra_context rag_context =
      when (nonempty s.summary) ("[Earlier conversation summary]\n" ⊕ s.summary)
      ++ (when (is_filled s.intake) ("[Intake collected so far]\n" ⊕ join ", " (collected s.intake))
          ++ (when (leb_ℤ (pos 6) s.urgency_score) (
                "[Urgency]\nScore="
                ⊕ show s.urgency_score
                ⊕ " label="
                ⊕ label_value s.urgency_label
                ⊕ " — handle with priority.")
              ++ (when (nonempty extra_context) extra_context
                  ++ when (nonempty rag_context) rag_context)))

  unfoldable pub build_messages : CallState → String → String → String → List Turn
  unfolding context_parts
  build_messages s system_prompt extra_context rag_context =
      record { role = "system"; content = system_prompt }
      ∷ (injection (context_parts s extra_context rag_context) ++ s.turns)
