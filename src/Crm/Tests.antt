-- ===== src/Crm/Tests.antt =====
-- Runs of app/crm/contact_manager.py, and the theorems of this part at concrete callers.
use Prim.Native.Char.{code}
use ai_receptionist_for_immi.Prelude.{
  String, ◌≡◌, refl, true, false, ◌&&◌, none, some, [], ◌∷◌, arith, ◌==◌, leb, if◌then◌else◌, pos,
}
use ai_receptionist_for_immi.Dict.{Dict, get, get_or}
use ai_receptionist_for_immi.Value.{truthy, Value, null, integer, text, object, end, field}
use ai_receptionist_for_immi.Conversation.{label_value, new, CallState, high}
use ai_receptionist_for_immi.Worker.{Services}
use ai_receptionist_for_immi.Worker.Rows.{object_of}
use ai_receptionist_for_immi.Crm.{Cache, normalise_phone, entry_of_contact, lookup_caller, Texts}
use ai_receptionist_for_immi.Crm.Sync.{build_tags, custom_fields, Answers, queue_sync}
use ai_receptionist_for_immi.Crm.Call.{payload_of, sync_call_to_crm}
use ai_receptionist_for_immi.Crm.Lookups.{lookup_caller-twice}
use ai_receptionist_for_immi.Crm.Consent.{sync_consents}
use ai_receptionist_for_immi.Reminders.{check_sms_consent, SmsTexts}
use ai_receptionist_for_immi.Worker.Sync.{intake_of, name_fields, duration_fields, conversation_row}
use ai_receptionist_for_immi.Worker.Readings.{duration_of}
use ai_receptionist_for_immi.Crm.Handover.{sync-conversation_row}

abbrev show_text : Value → String
show_text (text t) = t
show_text _ = ""

-- a cache that holds one entry
abbrev ana_entry : Value
ana_entry = object (field "name" (text "Ana Paz") (field "contact_id" (text "c1") end))

abbrev texts : Texts
texts = record {
  is_digit = λ c. leb b'0' (code c) && leb (code c) b'9';
  lower = λ t. t;
  upper = λ t. t;
  strip = λ t. t;
  str = show_text;
  show = λ n. "0";
  safe_tag = λ t. t;
  split_name = λ t. (t, none);
  dumps = λ v. "entry";
  loads = λ t. if t == "entry" then some ana_entry else none;
}

phone_test :
    (normalise_phone texts "(212) 555-0100" ≡ "+12125550100")
    × (normalise_phone texts "+1 212 555 0100" ≡ "+12125550100")
unfolding normalise_phone
phone_test = (refl, refl)

abbrev ana_contact : Dict Value
ana_contact = ("firstName", text "Ana") ∷ ("lastName", text "Paz") ∷ ("id", text "c1") ∷ []

abbrev empty_cache : Cache
empty_cache key = none

lookup_caller-twice_example :
    ((lookup_caller texts true 100 "(212) 555-0100" (some (some ana_contact)) empty_cache).0
      ≡ entry_of_contact texts ana_contact)
    × ((lookup_caller texts true 5000 "+1 212 555 0100" none
          (lookup_caller texts true 100 "(212) 555-0100" (some (some ana_contact)) empty_cache).1).0
        ≡ entry_of_contact texts ana_contact)
unfolding normalise_phone get_or get truthy
lookup_caller-twice_example =
    lookup_caller-twice texts "(212) 555-0100" "+1 212 555 0100" ("firstName", text "Ana")
      (("lastName", text "Paz") ∷ ("id", text "c1") ∷ []) empty_cache true 100 5000 none
      (omega arith) refl refl refl refl

abbrev ana : CallState
ana = record (new "CA1" 0) {
  intake = ("full_name", text "Ana Paz") ∷ ("case_type", text "asylum") ∷ [];
  appointment_id = "a1";
  urgency_score = pos 7;
  urgency_label = high;
}

-- nothing can be reached
abbrev unavailable : Answers
unavailable = record { available = false; takes = λ e. false; created = none }

sync_test :
    sync_call_to_crm texts unavailable ana null (pos 80)
    ≡ (null, queue_sync (payload_of ana null (pos 80)) ∷ [])
unfolding sync_call_to_crm
sync_test = refl

tags_test :
    build_tags texts ana (pos 80)
    ≡ some ("ivr-lead" ∷ "lead-hot" ∷ "urgency-high" ∷ "case-asylum" ∷ [])
unfolding build_tags new
tags_test = refl

abbrev sms_texts : SmsTexts
sms_texts = record { str = show_text; lower = λ t. t; time_of = λ t. t; law_firm_name = "Firm" }

sync_consents_example :
    check_sms_consent sms_texts
      (some (some (("customField", object (object_of (custom_fields texts ana.intake))) ∷ [])))
    ≡ some true
sync_consents_example = sync_consents texts sms_texts ana.intake [] refl

abbrev services : Services
services = record {
  accepts = λ e. true;
  loads = λ t. none;
  now = "now";
  iso_of_ms = λ v. none;
  iso_before = λ v. some "before";
  call_hash = λ v. some (("duration_seconds", "60") ∷ []);
  read_int = λ t. if t == "60" then some (pos 60) else none;
  str = show_text;
  lower = λ t. t;
  strip = λ t. t;
  is_iso_date = λ t. false;
  other_date = λ t. none;
  two_digits = λ n. "";
  is_email = λ t. false;
  find_contact = λ v. none;
  find_appointment = λ v. none;
  law_firm_name = "Firm";
  booking_url = "url";
}

abbrev ana_name : Dict Value
ana_name = ("caller_name", text "Ana Paz") ∷ []

abbrev one_minute : Dict Value
one_minute = ("duration_seconds", integer (pos 60)) ∷ ("started_at", text "before") ∷ []

sync-conversation_row_example :
    (intake_of (get (payload_of ana (text "c1") (pos 80)) "intake") ≡ some ana.intake)
    × (row : Dict Value) × (conversation_row services
          (text "CA1")
          (payload_of ana (text "c1") (pos 80))
          ana.intake
        ≡ some row)
    × (get row "lead_score" ≡ some (integer (pos 80)))
    × (get row "urgency_score" ≡ some (integer (pos 7)))
    × (get row "urgency_label" ≡ some (text (label_value high)))
    × (get row "appointment_id" ≡ some (text "a1"))
unfolding new name_fields duration_fields duration_of payload_of
sync-conversation_row_example =
    sync-conversation_row services ana (text "c1") 80 ana_name one_minute refl refl refl
