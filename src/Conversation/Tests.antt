-- ===== src/Conversation/Tests.antt =====
-- Runs of app/voice/conversation_state.py, and the theorems of this part at concrete calls.
use ai_receptionist_for_immi.Prelude.{
  ℕ, zero, suc, String, ◌≡◌, refl, Option, none, some, List, [], ◌∷◌, ◌==◌, if◌then◌else◌, ◌⊕◌, ℤ,
  pos, negsuc,
}
use ai_receptionist_for_immi.Value.{Value, text}
use ai_receptionist_for_immi.Conversation.{
  intake_fields, score_to_urgency_label, new, advance_phase, force_phase, increment_turns,
  record_intake, missing_intake_fields, Turn, CallState, identification, booking, low, high,
}
use ai_receptionist_for_immi.Conversation.Phases.{run, Event, spoke, advanced}
use ai_receptionist_for_immi.Dict.{Dict}
use ai_receptionist_for_immi.Conversation.Redis.{save_call_state, load_call_state, Codec}
use ai_receptionist_for_immi.Conversation.RoundTrip.{load-save_call_state}

abbrev fresh : CallState
fresh = new "CA1" 100

abbrev two_turns : List Event
two_turns = advanced ∷ spoke 101 ∷ advanced ∷ spoke 102 ∷ spoke 103 ∷ []

two_turns_test :
    ((run fresh two_turns).phase ≡ identification) × ((run fresh two_turns).phase_turns ≡ 2)
unfolding new run increment_turns advance_phase
two_turns_test = (refl, refl)

force_test : (force_phase booking (run fresh two_turns)).phase ≡ booking
unfolding new force_phase run increment_turns advance_phase
force_test = refl

score_test : (score_to_urgency_label (pos 6) ≡ high) × (score_to_urgency_label (negsuc 0) ≡ low)
unfolding score_to_urgency_label
score_test = (refl, refl)

missing_test : missing_intake_fields (record_intake "full_name" (text "") 5 fresh) ≡ intake_fields
unfolding new missing_intake_fields record_intake
missing_test = refl

abbrev one_turn : String → Option (List Turn)
one_turn t = if t == "[]" then some [] else some (record { role = "user"; content = t } ∷ [])

abbrev words_of : List Turn → String
words_of [] = "[]"
words_of (t ∷ ts) = t.content

abbrev name_of : Dict Value → String
name_of [] = "{}"
name_of ((k, text v) ∷ d) = v
name_of (f ∷ d) = "?"

abbrev one_name : String → Option (Dict Value)
one_name t = if t == "{}" then some [] else some (("full_name", text t) ∷ [])

abbrev sign_of : ℤ → String
sign_of (pos n) = "0"
sign_of (negsuc n) = "-1"

abbrev int_of : String → Option ℤ
int_of t = if t == "0" then some (pos 0) else if t == "-1" then some (negsuc 0) else none

-- counters as strokes
abbrev strokes : ℕ → String
strokes zero = ""
strokes (suc n) = "|" ⊕ strokes n

abbrev count : String → Option ℕ
count String.[] = some 0
count (String.◌∷◌ c s) = elim (count s) [ none ↦ none | some n ↦ some (suc n) ]

abbrev codec : Codec
codec = record {
  dumps_turns = words_of;
  loads_turns = one_turn;
  dumps_intake = name_of;
  loads_intake = one_name;
  show_int = sign_of;
  read_int = int_of;
  show_nat = strokes;
  read_nat = count;
  show_time = strokes;
  read_time = count;
}

abbrev ana : CallState
ana = record {
  call_sid = "CA1";
  phase = booking;
  language = "es";
  turns = record { role = "user"; content = "hola" } ∷ [];
  summary = "";
  intake = ("full_name", text "Ana") ∷ [];
  urgency_score = pos 0;
  urgency_label = high;
  scheduled_at = "";
  appointment_id = "a1";
  transferred_at = "";
  lead_score = negsuc 0;
  phase_turns = 2;
  turn_count = 3;
  last_updated = 5;
}

abbrev stored : String → Dict String
stored key = ("phase", "closing") ∷ ("note", "x") ∷ []

load-save_call_state_example :
    load_call_state codec "CA1" (save_call_state codec ana stored) 9 ≡ some ana
load-save_call_state_example = load-save_call_state codec ana stored 9 (record {
  loads-turns = refl;
  loads-intake = refl;
  read-urgency = refl;
  read-lead = refl;
  read-phase_turns = refl;
  read-turn_count = refl;
  read-time = refl;
})
