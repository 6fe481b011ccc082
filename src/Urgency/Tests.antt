-- ===== src/Urgency/Tests.antt =====
-- Runs of app/agent/urgency_classifier.py, and the theorems of this part at concrete inputs.
use ai_receptionist_for_immi.Prelude.{String, ◌≡◌, refl, true, none, some, [], ◌∷◌, pos}
use ai_receptionist_for_immi.Conversation.{
  score_to_urgency_label, new, record_intake, Turn, CallState, low,
}
use ai_receptionist_for_immi.Urgency.{fill_case_type, classify, Result, tool_call}

abbrev said : String → String → Turn
said who what = record { role = who; content = what }

abbrev call : CallState
call = record (new "CA1" 0) {
  turns = said "user" "my brother is detained" ∷ said "assistant" "I understand" ∷ [];
}

abbrev detained : Result
detained = record {
  urgency_score = some (pos 9);
  urgency_factors = some ("detained" ∷ []);
  recommended_action = none;
  detected_case_type = some "removal_defense";
}

no_score_test :
    (classify "CA1"
      (tool_call (record detained { urgency_score = none }))
      true
      5
      call).0.urgency_label
    ≡ low
unfolding classify score_to_urgency_label fill_case_type record_intake new
no_score_test = refl
