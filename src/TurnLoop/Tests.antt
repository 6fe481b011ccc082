-- ===== src/TurnLoop/Tests.antt =====
-- Runs of `_llm_tts_loop`, and the theorems of this part at concrete inputs.
use ai_receptionist_for_immi.Prelude.{String, ◌≡◌, refl, true, false, none, [], ◌∷◌}
use ai_receptionist_for_immi.Value.{Value, text}
use ai_receptionist_for_immi.Conversation.{new, greeting, urgency_triage}
use ai_receptionist_for_immi.TurnLoop.{
  apply_signals, fast_path, hear, answer, on_transcript, step, run, Loop, Env, transcript,
}
use ai_receptionist_for_immi.TurnLoop.Triage.{Untriaged, run-Untriaged}
use ai_receptionist_for_immi.Agent.{ResponseSignals}

abbrev opening : Loop
opening = record {
  active = true;
  state = new "CA1" 0;
  agent_phase = greeting;
  language = "en";
  urgency_started = false;
  silence_warned = false;
  last_speech_time = 0;
}

abbrev lowered : Value → String
lowered (text t) = t
lowered v = ""

-- every question is answered by what is said
abbrev said_is_answer : String → String → String
said_is_answer name said = said

abbrev quiet : ResponseSignals
quiet = record {
  emergency_transfer = false;
  schedule_now = false;
  confirm_slot = "";
  end_call = false;
  language_switch_es = false;
  language_switch_en = false;
}

abbrev at_once : Env
at_once = record {
  heard_at = 3;
  counted_at = 3;
  spoken_at = 5;
  stored_at = 5;
  caller_fragment = none;
  agent_fragment = none;
  response = λ hint. "Thank you.";
  phase_after = urgency_triage;
  signals = quiet;
}

abbrev ending : Env
ending = record at_once { signals = record quiet { end_call = true } }

first_turn_test :
    (step lowered said_is_answer 15 30 (transcript "Ana Gomez" at_once) opening).state.turn_count
    ≡ 1
unfolding step on_transcript hear answer fast_path new
first_turn_test = refl

end_call_test : (apply_signals ending.signals opening).active ≡ false
unfolding apply_signals
end_call_test = refl

run-Untriaged_example : Untriaged (
    run lowered said_is_answer 15 30
      (transcript "My brother is detained" at_once ∷ transcript "Please help" at_once ∷ [])
      opening)
unfolding new
run-Untriaged_example =
    run-Untriaged lowered said_is_answer 15 30
      (transcript "My brother is detained" at_once ∷ transcript "Please help" at_once ∷ []) opening
      (refl, refl)
