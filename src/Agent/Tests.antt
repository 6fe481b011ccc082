-- ===== src/Agent/Tests.antt =====
-- Runs of app/agent/llm_agent.py, and the theorems of this part at concrete inputs.
use ai_receptionist_for_immi.Prelude.{
  String, ◌≡◌, refl, Bool, true, false, some, [], ◌∷◌, ◌==◌, contains, length,
}
use ai_receptionist_for_immi.Conversation.{phase_value, new, greeting, intake_phase}
use ai_receptionist_for_immi.Agent.{
  split_lines, respond_stream, maybe_advance_phase, check_signals, finish_response, build_messages,
  get_history_for_db, Agent,
}
use ai_receptionist_for_immi.Agent.Streaming.{joined, respond_stream-joined}
use ai_receptionist_for_immi.Agent.Language.{switch_unheard}
use ai_receptionist_for_immi.TurnLoop.{apply_signals, Loop}

abbrev same : String → String
same t = t

abbrev no_slot : String → String
no_slot t = ""

abbrev is_marker : String → Bool
is_marker line = line == "SCHEDULE_NOW"

abbrev ana : Agent
ana = record { phase = greeting; language = "en"; runtime_context = ""; history = [] }

stream_test :
    respond_stream is_marker ("Let me see.\nSCHED" ∷ "ULE_NOW\nOne mo" ∷ "ment." ∷ [])
    ≡ "Let me see.\n" ∷ "One moment." ∷ []
unfolding respond_stream
stream_test = refl

marker_test : (maybe_advance_phase same no_slot "PHASE:INTAKE" ana).1 ≡ some intake_phase
unfolding maybe_advance_phase contains phase_value
marker_test = refl

messages_test : length (build_messages "prompt" "indicaciones" ana) ≡ 1
unfolding build_messages
messages_test = refl

history_test :
    get_history_for_db
      (record { role = "system"; content = "x" } ∷ record { role = "user"; content = "y" } ∷ [])
    ≡ record { role = "user"; content = "y" } ∷ []
unfolding get_history_for_db
history_test = refl

respond_stream-joined_example :
    respond_stream is_marker ("Hello\nSCHED" ∷ "ULE_NOW" ∷ [])
    ≡ respond_stream is_marker ("Hello\nSCHEDULE_NOW" ∷ [])
respond_stream-joined_example = respond_stream-joined is_marker ("Hello\nSCHED" ∷ "ULE_NOW" ∷ [])

abbrev call : Loop
call = record {
  active = true;
  state = new "CA1" 0;
  agent_phase = greeting;
  language = "en";
  urgency_started = false;
  silence_warned = false;
  last_speech_time = 0;
}

abbrev switch_line : String → Bool
switch_line line = line == "LANGUAGE_SWITCH_ES"

switch_unheard_example :
    let heard = joined (respond_stream switch_line ("Claro.\nLANGUAGE_" ∷ "SWITCH_ES" ∷ [])) in
    ((finish_response same no_slot "Claro.\nLANGUAGE_SWITCH_ES" ana).language ≡ "es")
    × ((apply_signals (check_signals same no_slot heard) call).language ≡ call.language)
    × ((apply_signals (check_signals same no_slot heard) call).state.language ≡ call.state.language)
unfolding check_signals contains split_lines
switch_unheard_example =
    switch_unheard same no_slot switch_line ("Claro.\nLANGUAGE_" ∷ "SWITCH_ES" ∷ []) ("Claro." ∷ [])
      "LANGUAGE_SWITCH_ES" ana call refl refl refl refl (refl, refl, refl, refl)
