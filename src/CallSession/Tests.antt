-- ===== src/CallSession/Tests.antt =====
-- Runs of the start and the end of a call in app/voice/websocket_handler.py, and the theorems of this
-- part at concrete inputs.
use Prim.Native.Char.{code}
use ai_receptionist_for_immi.Prelude.{
  String, ◌≡◌, refl, true, false, not, ◌&&◌, ◌||◌, none, some, List, [], ◌∷◌, leb, if◌then◌else◌,
  is_some, nonempty,
}
use ai_receptionist_for_immi.Value.{Value, null, text, object, end, field}
use ai_receptionist_for_immi.Conversation.{new, CallState, greeting}
use ai_receptionist_for_immi.LeadScore.{raises}
use ai_receptionist_for_immi.Crm.{Texts}
use ai_receptionist_for_immi.Worker.{send_sms}
use ai_receptionist_for_immi.Reminders.{
  check_sms_consent, confirmation_body, SmsTexts, send_sms, queue_sms,
}
use ai_receptionist_for_immi.CallSession.{take_transcript, seed_intake, Line}
use ai_receptionist_for_immi.CallSession.Ended.{finalize_state, finalize_call, Replies, Session}
use ai_receptionist_for_immi.CallSession.Ended.Reached.{marked, marked-finalize_call}
use ai_receptionist_for_immi.CallSession.Ended.Texted.{
  texted, AllTo, known_else_synced, texts-Needed,
}

abbrev show_text : Value → String
show_text (text t) = t
show_text _ = ""

abbrev texts : Texts
texts = record {
  is_digit = λ c. leb b'0' (code c) && leb (code c) b'9';
  lower = λ t. t;
  upper = λ t. t;
  strip = λ t. t;
  str = show_text;
  show = λ n. "0";
  safe_tag = λ t. t;
  split_name = λ t. (t, none);
  dumps = λ v. "";
  loads = λ t. none;
}

abbrev sms_texts : SmsTexts
sms_texts = record { str = show_text; lower = λ t. t; time_of = λ t. t; law_firm_name = "Firm" }

abbrev booked : CallState
booked = record (new "CA1" 0) {
  intake = ("full_name", text "Ana") ∷ ("_pending_slots", text "slot") ∷ [];
  scheduled_at = "2024-05-01T10:00";
}

abbrev line : Line
line = record {
  is_speaking = false;
  barged_in = false;
  language = "en";
  agent = record { phase = greeting; language = "en"; runtime_context = ""; history = [] };
  state = booked;
  low_conf_streak = 0;
  queue = [];
  spoken = [];
}

-- the CRM cannot be reached for the sync, and the text message is refused
abbrev replies : Replies
replies = record {
  extracted = some (("_pending_slots", null) ∷ ("case_type", text "asylum") ∷ []);
  scoring = raises;
  crm = record { available = false; takes = λ e. false; created = none };
  sms = record {
    contact = some (some (("customField", object (field "sms_consent" (text "yes") end)) ∷ []));
    sms = some false;
    tags = true;
  };
  saves = true;
  marks = true;
}

abbrev session : Session
session = record {
  call_sid = "CA1";
  from_number = "+12125550100";
  language = "en";
  ghl_contact_id = text "c1";
  state = some booked;
  duration_sec = 90;
}

hearing_test : (take_transcript "hola" false "es" line).state.language ≡ "es"
unfolding take_transcript
hearing_test = refl

seed_test :
    seed_intake "+1212" (text "Ana") (("full_name", text "") ∷ [])
    ≡ ("full_name", text "Ana") ∷ ("caller_phone", text "+1212") ∷ []
unfolding seed_intake
seed_test = refl

abbrev mumbled : List (String × String)
mumbled = ("uh", "en") ∷ ("que", "es") ∷ ("hm", "en") ∷ ("eh", "en") ∷ []

marked-finalize_call_example : marked (finalize_call texts sms_texts show_text replies session) ≡ (
    if (not (is_some session.state) || replies.saves) && replies.marks
    then session.duration_sec ∷ []
    else [])
marked-finalize_call_example = marked-finalize_call texts sms_texts show_text replies session

abbrev message : String
message = confirmation_body sms_texts "2024-05-01T10:00" "Ana" "en"

texted_test :
    texted (finalize_state texts sms_texts show_text replies session booked)
    ≡ send_sms (text "c1") message ∷ queue_sms (text "c1") message ∷ []
unfolding finalize_state new
texted_test = refl

texts-Needed_example :
    (nonempty booked.scheduled_at ≡ true)
    × (check_sms_consent sms_texts replies.sms.contact ≡ some true)
    × AllTo
        (known_else_synced texts sms_texts show_text replies session booked)
        (send_sms (text "c1") message ∷ queue_sms (text "c1") message ∷ [])
texts-Needed_example =
    texts-Needed texts sms_texts show_text replies session booked (send_sms (text "c1") message)
      (queue_sms (text "c1") message ∷ []) texted_test
