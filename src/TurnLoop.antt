-- ===== src/TurnLoop.antt =====
-- app/voice/websocket_handler.py: `_llm_tts_loop`, one call of the queue at a time, and
-- `_handle_emergency_transfer`. A session with a state, a context and an agent is taken; what the
-- model says, what it signals and the readings of the clock are arguments.
pub mod Silence
pub mod Triage
mod Tests
use ai_receptionist_for_immi.Prelude.{
  ℕ, ◌-◌, String, Bool, true, false, not, ◌&&◌, ◌||◌, Option, none, some, List, [], ◌∷◌, ◌==◌, ltb,
  eqb, if◌then◌else◌, nonempty, ℤ, pos, negsuc,
}
use ai_receptionist_for_immi.Value.{Value, text}
use ai_receptionist_for_immi.Conversation.{
  increment_turns, record_intake, CallState, Phase, greeting, identification, urgency_triage,
  intake_phase, consultation_pitch, booking, confirmation, closing,
}
use ai_receptionist_for_immi.Context.{add_turn}
use ai_receptionist_for_immi.IntakeFlow.{next_question, build_next_question_hint, IntakeQuestion}
use ai_receptionist_for_immi.Agent.{ResponseSignals}

pub record Loop : Type 0 where
  pub active : Bool
  pub state : CallState
  pub agent_phase : Phase
  pub language : String
  pub urgency_started : Bool
  pub silence_warned : Bool
  pub last_speech_time : ℕ

-- What a turn meets: the clock when the caller is heard, when the turn is counted, when the agent
-- has spoken and when an answer is stored; the summaries of the model; its answer to a hint ("" for
-- none) with the phase and the signals that follow from it.
pub record Env : Type 0 where
  pub heard_at : ℕ
  pub counted_at : ℕ
  pub spoken_at : ℕ
  pub stored_at : ℕ
  pub caller_fragment : Option String
  pub agent_fragment : Option String
  pub response : String → String
  pub phase_after : Phase
  pub signals : ResponseSignals

pub data Event : Type 0 where
  -- a second without a transcript, with the clock
  timeout : ℕ → Event
  transcript : String → Env → Event

-- `phase in (GREETING, IDENTIFICATION, URGENCY_TRIAGE, INTAKE)`
unfoldable pub is_early : Phase → Bool
is_early greeting = true
is_early identification = true
is_early urgency_triage = true
is_early intake_phase = true
is_early consultation_pitch = false
is_early booking = false
is_early confirmation = false
is_early closing = false

-- `phase in (URGENCY_TRIAGE, INTAKE)`
unfoldable pub is_triage : Phase → Bool
is_triage greeting = false
is_triage identification = false
is_triage urgency_triage = true
is_triage intake_phase = true
is_triage consultation_pitch = false
is_triage booking = false
is_triage confirmation = false
is_triage closing = false

abbrev pub is_zero : ℤ → Bool
is_zero (pos n) = eqb n 0
is_zero (negsuc n) = false

module _ (warning hard : ℕ) where
  -- `silence_warning_timeout` and `silence_hard_timeout`, in the ticks of the clock
  unfoldable pub on_timeout : ℕ → Loop → Loop
  on_timeout now l =
      let elapsed = now - l.last_speech_time in
      if not l.silence_warned && ltb warning elapsed
      then record l { silence_warned = true }
      else if ltb hard elapsed
      then record l { active = false }
      else l

unfoldable pub apply_signals : ResponseSignals → Loop → Loop
apply_signals signals l =
    if signals.emergency_transfer
    then record l { active = false }
    else if signals.end_call
    then record l { active = false }
    else if signals.language_switch_es
    then record l { language = "es"; state = record l.state { language = "es" } }
    else if signals.language_switch_en
    then record l { language = "en"; state = record l.state { language = "en" } }
    else l

-- `extract` is `extract_field_from_response`
module _ (str_lower : Value → String) (extract : String → String → String) where
  -- the answer of the caller to the question that is due
  unfoldable pub store_answer : ℕ → String → CallState → Option IntakeQuestion → CallState
  unfolding record_intake
  store_answer now said s none = s
  store_answer now said s (some q) =
      if nonempty (extract q.field said)
      then record_intake q.field (text (extract q.field said)) now s
      else s

  unfoldable pub fast_path : ℕ → String → CallState → CallState
  unfolding store_answer next_question
  fast_path now said s = store_answer now said s (next_question str_lower s)

  unfoldable pub hint_for : Loop → String
  hint_for l = if is_early l.agent_phase then build_next_question_hint str_lower l.state else ""

  -- the caller's turn is in the state
  unfoldable pub hear : Env → String → Loop → Loop
  unfolding increment_turns add_turn
  hear env said l = record l {
    state = increment_turns env.counted_at (add_turn env.caller_fragment "user" said l.state);
  }

  -- the agent's turn, the fast path and the urgency task
  unfoldable pub answer : Env → String → String → Loop → Loop
  unfolding add_turn fast_path is_early is_triage
  answer env said response l =
      let s = add_turn env.agent_fragment "assistant" response l.state in
      let s2 = if is_early s.phase then fast_path env.stored_at said s else s in
      record l {
        state = s2;
        urgency_started =
            l.urgency_started
            || (is_triage s2.phase && not l.urgency_started && is_zero s2.urgency_score);
      }

  unfoldable pub on_transcript : String → Env → Loop → Loop
  unfolding hint_for hear answer apply_signals
  on_transcript said env l =
      let awake = record l { last_speech_time = env.heard_at; silence_warned = false } in
      if said == "__LOW_CONF_HANDOFF__"
      then record awake { active = false }
      else let heard = hear env said awake in
        let response = env.response (hint_for heard) in
        let spoken = record heard {
          last_speech_time = env.spoken_at;
          silence_warned = false;
          agent_phase = env.phase_after;
        } in
        if nonempty response
        then apply_signals env.signals (answer env said response spoken)
        else spoken

  module _ (warning hard : ℕ) where
    unfoldable pub step : Event → Loop → Loop
    unfolding on_timeout on_transcript
    step (timeout now) l = on_timeout warning hard now l
    step (transcript said env) l = on_transcript said env l

    -- the loop ends with the call
    unfoldable pub run : List Event → Loop → Loop
    unfolding step
    run [] l = l
    run (e ∷ es) l = if l.active then run es (step e l) else l
