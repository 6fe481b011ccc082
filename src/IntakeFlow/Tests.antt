-- ===== src/IntakeFlow/Tests.antt =====
-- Runs of app/agent/intake_flow.py, and the theorems of this part at concrete calls.
use ai_receptionist_for_immi.Prelude.{String, ◌≡◌, refl, true, none, some, arith}
use ai_receptionist_for_immi.Value.{truthy, Value, text}
use ai_receptionist_for_immi.Conversation.{new, intake_complete, CallState}
use ai_receptionist_for_immi.IntakeFlow.{next_question, IntakeQuestion}
use ai_receptionist_for_immi.IntakeFlow.Interview.{interview, interview_ends}

abbrev show_text : Value → String
show_text (text s) = s
show_text _ = "other"

abbrev fresh : CallState
fresh = new "CA1" 100

abbrev yes_answer : IntakeQuestion → Value
yes_answer q = text "yes"

truthy_yes : (q : IntakeQuestion) → truthy (yes_answer q) ≡ true
unfolding truthy
truthy_yes q = refl

abbrev done : CallState
done = interview show_text yes_answer 7 15 fresh

first_test :
    next_question show_text fresh
    ≡ some (record {
      field = "full_name";
      prompt_en = "May I have your full legal name, please?";
      prompt_es = "¿Me puede dar su nombre completo, por favor?";
      condition = none;
    })
unfolding new next_question
first_test = refl

interview_ends_example : (next_question show_text done ≡ none) × (intake_complete done ≡ true)
interview_ends_example = interview_ends show_text yes_answer 7 15 fresh truthy_yes (omega arith)
