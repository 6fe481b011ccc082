-- ===== src/LeadScore/Tests.antt =====
-- Runs of app/agent/lead_scorer.py, and the theorems of this part at concrete calls.
use ai_receptionist_for_immi.Prelude.{String, ◌≡◌, refl, [], ◌∷◌, pos, negsuc}
use ai_receptionist_for_immi.Value.{Value, text}
use ai_receptionist_for_immi.Conversation.{CallState, closing, high}
use ai_receptionist_for_immi.LeadScore.{score, raises}

abbrev show_text : Value → String
show_text (text s) = s
show_text _ = "other"

abbrev asylum_call : CallState
asylum_call = record {
  call_sid = "CA1";
  phase = closing;
  language = "en";
  turns = record { role = "user"; content = "hello" } ∷ [];
  summary = "";
  intake = ("full_name", text "Ana") ∷ ("case_type", text "asylum") ∷ [];
  urgency_score = pos 7;
  urgency_label = high;
  scheduled_at = "";
  appointment_id = "";
  transferred_at = "";
  lead_score = negsuc 0;
  phase_turns = 0;
  turn_count = 9;
  last_updated = 100;
}

score_test : (score show_text "CA1" asylum_call raises).0.total ≡ pos 58
unfolding score
score_test = refl
