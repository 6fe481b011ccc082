-- ===== src/TurnLoop/Triage.antt =====
-- When the loop starts the urgency classifier: what the turns do to the phase of the call state.
use ai_receptionist_for_immi.Prelude.{
  ℕ, ◌-◌, String, ◌≡◌, refl, sym, ap, subst, ◌∙◌, inl, inr, false, not, ◌&&◌, ◌||◌, Option, none,
  some, List, [], ◌∷◌, arith, ◌==◌, ltb, if◌then◌else◌, Bool-cases, nonempty, is_in,
}
use ai_receptionist_for_immi.Value.{Value, text}
use ai_receptionist_for_immi.Conversation.{
  intake_fields, increment_turns, record_intake, CallState, greeting,
}
use ai_receptionist_for_immi.Context.{add_turn}
use ai_receptionist_for_immi.TurnLoop.{
  is_early, is_triage, is_zero, on_timeout, apply_signals, store_answer, fast_path, hint_for, hear,
  answer, on_transcript, step, run, Loop, Env, Event, timeout, transcript,
}
use ai_receptionist_for_immi.TurnLoop.Silence.{run-active, run-inactive}
use ai_receptionist_for_immi.IntakeFlow.{next_question, IntakeQuestion}
use ai_receptionist_for_immi.Agent.{ResponseSignals}

phase-add_turn :
    (o : Option String) (who said : String) (s : CallState)
    → (add_turn o who said s).phase ≡ s.phase
unfolding add_turn
phase-add_turn none who said s = ground arith
phase-add_turn (some f) who said s = ground arith

phase-record_intake :
    (key : String) (v : Value) (now : ℕ) (s : CallState)
    → (record_intake key v now s).phase ≡ s.phase
unfolding record_intake
phase-record_intake key v now s = elim (Bool-cases (is_in key intake_fields)) [
  | inl e ↦ rw e refl
  | inr e ↦ rw e refl
]

-- the phase of the state is the first one, and the classifier has not been started
abbrev pub Untriaged : Loop → Type 0
Untriaged l = (l.state.phase ≡ greeting) × (l.urgency_started ≡ false)

apply_signals-Untriaged :
    (signals : ResponseSignals) (l : Loop) → Untriaged l → Untriaged (apply_signals signals l)
unfolding apply_signals
apply_signals-Untriaged signals l h = (ground (arith, h), ground (arith, h))

module _ (str_lower : Value → String) (extract : String → String → String) where
  phase-store_answer :
      (now : ℕ) (said : String) (s : CallState) (o : Option IntakeQuestion)
      → (store_answer str_lower extract now said s o).phase ≡ s.phase
  unfolding store_answer
  phase-store_answer now said s none = refl
  phase-store_answer now said s (some q) = elim (Bool-cases (nonempty (extract q.field said))) [
    | inl e ↦ rw e (phase-record_intake q.field (text (extract q.field said)) now s)
    | inr e ↦ rw e refl
  ]

  phase-fast_path :
      (now : ℕ) (said : String) (s : CallState)
      → (fast_path str_lower extract now said s).phase ≡ s.phase
  unfolding fast_path
  phase-fast_path now said s = phase-store_answer now said s (next_question str_lower s)

  -- the state behind the agent's turn and the fast path
  abbrev stored : Env → String → String → Loop → CallState
  stored env said response l =
      let s = add_turn env.agent_fragment "assistant" response l.state in
      if is_early s.phase then fast_path str_lower extract env.stored_at said s else s

  phase-stored :
      (env : Env) (said response : String) (l : Loop)
      → (stored env said response l).phase ≡ l.state.phase
  phase-stored env said response l =
      let s = add_turn env.agent_fragment "assistant" response l.state in
      let p = phase-add_turn env.agent_fragment "assistant" response l.state in
      elim (Bool-cases (is_early s.phase)) [
        | inl e ↦ rw e (phase-fast_path env.stored_at said s ∙ p)
        | inr e ↦ rw e p
      ]

  answer-Untriaged :
      (env : Env) (said response : String) (l : Loop)
      → Untriaged l
      → Untriaged (answer str_lower extract env said response l)
  unfolding answer is_early is_triage
  answer-Untriaged env said response l h =
      let p = phase-stored env said response l ∙ h.0 in
      (
        p,
        ap
              (λ b.
                l.urgency_started
                || (b
                    && not l.urgency_started
                    && is_zero (stored env said response l).urgency_score))
              (ap is_triage p)
            ∙ ap (λ u. u || false) h.1,
      )

  module _ (warning hard : ℕ) where
    timeout-keeps :
        (now : ℕ) (l : Loop)
        → ((on_timeout warning hard now l).state ≡ l.state)
          × ((on_timeout warning hard now l).urgency_started ≡ l.urgency_started)
    unfolding on_timeout
    timeout-keeps now l =
        let elapsed = now - l.last_speech_time in
        elim (Bool-cases (not l.silence_warned && ltb warning elapsed)) [
          | inl e ↦ rw e (refl, refl)
          | inr e ↦ elim (Bool-cases (ltb hard elapsed)) [
            | inl f ↦ rw (e, f) (refl, refl)
            | inr f ↦ rw (e, f) (refl, refl)
          ]
        ]

    step-Untriaged :
        (e : Event) (l : Loop) → Untriaged l → Untriaged (step str_lower extract warning hard e l)
    unfolding step on_timeout on_transcript hear increment_turns
    step-Untriaged (timeout now) l h =
        (let k = timeout-keeps now l in (ap (λ s. s.phase) k.0 ∙ h.0, k.1 ∙ h.1))
    step-Untriaged (transcript said env) l h =
        let awake = record l { last_speech_time = env.heard_at; silence_warned = false } in
        let heard = hear str_lower extract env said awake in
        let response = env.response (hint_for str_lower extract heard) in
        let spoken = record heard {
          last_speech_time = env.spoken_at;
          silence_warned = false;
          agent_phase = env.phase_after;
        } in
        let k : Untriaged spoken =
          (phase-add_turn env.caller_fragment "user" said l.state ∙ h.0, h.1) in
        elim (Bool-cases (said == "__LOW_CONF_HANDOFF__")) [
          | inl e ↦ rw e h
          | inr e ↦ elim (Bool-cases (nonempty response)) [
            | inl r ↦
                rw (e, r)
                  (apply_signals-Untriaged env.signals
                    (answer str_lower extract env said response spoken)
                    (answer-Untriaged env said response spoken k))
            | inr r ↦ rw (e, r) k
          ]
        ]

    -- Whatever is said on a call and whatever the model signals, the phase of the call state stays the
    -- greeting that it starts with, and the urgency classifier, which waits for a later phase, is never started.
    pub run-Untriaged :
        (es : List Event) (l : Loop)
        → Untriaged l
        → Untriaged (run str_lower extract warning hard es l)
    unfolding run
    run-Untriaged [] l h = h
    run-Untriaged (e ∷ es) l h = elim (Bool-cases l.active) [
      | inl a ↦
          subst Untriaged (sym (run-active str_lower extract warning hard e es l a))
            (run-Untriaged es (step str_lower extract warning hard e l) (step-Untriaged e l h))
      | inr a ↦ subst Untriaged (sym (run-inactive str_lower extract warning hard (e ∷ es) l a)) h
    ]
