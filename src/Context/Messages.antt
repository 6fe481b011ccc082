-- ===== src/Context/Messages.antt =====
-- The messages that are sent to the language model.
use ai_receptionist_for_immi.Prelude.{
  ℕ, suc, ◌+◌, String, ◌≡◌, ap, ◌∙◌, Bool, true, false, ◌||◌, ◌∷◌, arith, if◌then◌else◌, nonempty,
  length, length-append, last_of, last_of-append, leb_ℤ, ℤ, pos,
}
use ai_receptionist_for_immi.Value.{Value}
use ai_receptionist_for_immi.Conversation.{Turn, CallState}
use ai_receptionist_for_immi.Context.{is_filled, injection, context_parts, build_messages}

-- there is something to say beside the system prompt and the turns
abbrev pub needs_context : CallState → String → String → Bool
needs_context s extra_context rag_context =
    nonempty s.summary
    || is_filled s.intake
    || leb_ℤ (pos 6) s.urgency_score
    || nonempty extra_context
    || nonempty rag_context

one_more : (b : Bool) (m k : ℕ) → m ≡ (if b then 1 else 0) → suc (m + k) ≡ k + (if b then 2 else 1)
one_more true m k h = omega arith
one_more false m k h = omega arith

module _ (repr : Value → String) (show : ℤ → String) (s : CallState)
    (system_prompt extra_context rag_context : String) where
  length-injection :
      length (injection (context_parts repr show s extra_context rag_context))
      ≡ (if needs_context s extra_context rag_context then 1 else 0)
  unfolding context_parts
  length-injection = ground arith

  -- The messages are the system prompt, at most one injected system message, and the window: the
  -- injected message is there exactly if there is a summary, an intake field, an urgency of six or
  -- more, an extra hint or knowledge to pass on.
  pub length-build_messages :
      (length (build_messages repr show s system_prompt extra_context rag_context)
        ≡ length s.turns + (if needs_context s extra_context rag_context then 2 else 1))
      × (last_of
            (length s.turns)
            (build_messages repr show s system_prompt extra_context rag_context)
          ≡ s.turns)
  unfolding build_messages
  length-build_messages =
      let parts = injection (context_parts repr show s extra_context rag_context) in
      let first : Turn = record { role = "system"; content = system_prompt } in
      (
        ap suc (length-append parts s.turns)
            ∙ one_more (needs_context s extra_context rag_context) (length parts) (length s.turns)
                length-injection,
        last_of-append (first ∷ parts) s.turns,
      )
