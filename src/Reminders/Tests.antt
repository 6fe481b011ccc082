-- ===== src/Reminders/Tests.antt =====
-- Runs of app/scheduling/reminders.py, and the theorems of this part at concrete contacts.
use ai_receptionist_for_immi.Prelude.{String, ◌≡◌, refl, true, false, some, [], ◌∷◌}
use ai_receptionist_for_immi.Dict.{get, get_or}
use ai_receptionist_for_immi.Value.{truthy, Value, text, object, end, field}
use ai_receptionist_for_immi.Reminders.{
  voicemail_body, send_confirmation_sms, send_voicemail_follow_up_sms, schedule_no_show_follow_up,
  SmsTexts, SmsAnswers, send_sms, queue_sms, queue_follow_up,
}
use ai_receptionist_for_immi.Reminders.Footer.{Consented, messages-Consented}

abbrev show_text : Value → String
show_text (text t) = t
show_text _ = ""

abbrev sms_texts : SmsTexts
sms_texts = record { str = show_text; lower = λ t. t; time_of = λ t. t; law_firm_name = "Firm" }

abbrev answers : SmsAnswers
answers = record {
  contact = some (some (("customField", object (field "sms_consent" (text "yes") end)) ∷ []));
  sms = some false;
  tags = true;
}

sms_test : send_voicemail_follow_up_sms sms_texts answers (text "c1") "" "en" ≡ (
  some false,
  send_sms (text "c1") (voicemail_body sms_texts "" "en")
      ∷ queue_sms (text "c1") (voicemail_body sms_texts "" "en")
      ∷ [],
)
unfolding send_voicemail_follow_up_sms get_or get truthy
sms_test = refl

no_show_test :
    schedule_no_show_follow_up false (text "c1") (text "a1")
    ≡ queue_follow_up (text "c1") (text "a1") ∷ []
unfolding schedule_no_show_follow_up
no_show_test = refl

messages-Consented_example :
    Consented sms_texts "es" answers
      (send_confirmation_sms sms_texts answers (text "c1") "2026-01-05" "Ana" "es")
    × Consented sms_texts "es" answers
        (send_voicemail_follow_up_sms sms_texts answers (text "c1") "Ana" "es")
messages-Consented_example =
    messages-Consented sms_texts answers (text "c1") "2026-01-05" "Ana" "es"
