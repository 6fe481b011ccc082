-- ===== src/Reminders.antt =====
-- app/scheduling/reminders.py: text messages about appointments and voicemails, which are sent only with
-- the consent of the contact. The answers of the CRM are arguments, and an exception of the CRM leaves
-- these functions.
pub mod Footer
mod Tests
use ai_receptionist_for_immi.Prelude.{
  String, Bool, true, false, Option, none, some, List, [], ◌∷◌, ◌==◌, if◌then◌else◌, ◌⊕◌, nonempty,
  is_in,
}
use ai_receptionist_for_immi.Dict.{Dict, get, get_or}
use ai_receptionist_for_immi.Value.{truthy, Value, null, boolean, integer, text, array, object, end}
use ai_receptionist_for_immi.Worker.{or_value, field_of, fields_of}

pub data SmsRequest : Type 0 where
  send_sms : Value → String → SmsRequest
  add_tags : Value → List String → SmsRequest
  -- `rpush` into `twilio_sms_queue` and into `follow_up_queue`
  queue_sms : Value → String → SmsRequest
  queue_follow_up : Value → Value → SmsRequest

pub record SmsTexts : Type 0 where
  pub str : Value → String
  pub lower : String → String
  -- a time as it is spoken, from its ISO form
  pub time_of : String → String
  pub law_firm_name : String

unfoldable pub stop_footer : String → String
stop_footer language =
    if language == "es"
    then "\nResponda STOP para cancelar mensajes."
    else "\nReply STOP to opt out."

abbrev pub name_part : String → String
name_part name = if nonempty name then ", " ⊕ name else ""

-- What the CRM answers; `none` is an exception.
pub record SmsAnswers : Type 0 where
  pub contact : Option (Option (Dict Value))
  pub sms : Option Bool
  pub tags : Bool

module _ (env : SmsTexts) where
  -- the custom fields of a contact; only a dict can be read from
  abbrev pub consent_in : Value → Option Bool
  consent_in (object fs) = some (
      is_in (env.lower (env.str (get_or (fields_of fs) "sms_consent" (text ""))))
        ("yes" ∷ "true" ∷ "1" ∷ "opt-in" ∷ []))
  consent_in null = none
  consent_in (boolean b) = none
  consent_in (integer n) = none
  consent_in (text t) = none
  consent_in (array xs) = none

  unfoldable pub check_sms_consent : Option (Option (Dict Value)) → Option Bool
  unfolding get_or get truthy fields_of
  check_sms_consent none = none
  check_sms_consent (some none) = some false
  check_sms_consent (some (some [])) = some false
  check_sms_consent (some (some (f ∷ contact))) = consent_in (
      or_value
        (or_value (field_of (f ∷ contact) "customField") (field_of (f ∷ contact) "custom_fields"))
        (object end))

  unfoldable pub confirmation_body : String → String → String → String
  unfolding stop_footer
  confirmation_body appointment caller_name language =
      if language == "es"
      then "Hola"
        ⊕ name_part caller_name
        ⊕ "! Su consulta de inmigración ha sido confirmada para "
        ⊕ env.time_of appointment
        ⊕ ". Si necesita reprogramar, llámenos. "
        ⊕ env.law_firm_name
        ⊕ stop_footer "es"
      else "Hi"
        ⊕ name_part caller_name
        ⊕ "! Your immigration consultation is confirmed for "
        ⊕ env.time_of appointment
        ⊕ ". If you need to reschedule, please call us. "
        ⊕ env.law_firm_name
        ⊕ stop_footer "en"

  unfoldable pub voicemail_body : String → String → String
  unfolding stop_footer
  voicemail_body caller_name language =
      if language == "es"
      then "Hola"
        ⊕ name_part caller_name
        ⊕ "! Recibimos su mensaje en "
        ⊕ env.law_firm_name
        ⊕ ". Un representante se comunicará con usted dentro de las próximas 2 horas hábiles."
        ⊕ stop_footer "es"
      else "Hi"
        ⊕ name_part caller_name
        ⊕ "! We received your voicemail at "
        ⊕ env.law_firm_name
        ⊕ ". A representative will reach out within the next 2 business hours."
        ⊕ stop_footer "en"

  -- the answer to a message: the result, `none` where an exception leaves, and what is done
  abbrev pub after_sms :
      Value → String → Option Bool → List SmsRequest → Bool → Option Bool × List SmsRequest
  after_sms contact_id body none follow ok = (none, send_sms contact_id body ∷ [])
  after_sms contact_id body (some false) follow ok =
      (some false, send_sms contact_id body ∷ queue_sms contact_id body ∷ [])
  after_sms contact_id body (some true) follow ok =
      (if ok then some true else none, send_sms contact_id body ∷ follow)

  -- with consent only
  abbrev pub guarded : Option Bool → Option Bool × List SmsRequest → Option Bool × List SmsRequest
  guarded none next = (none, [])
  guarded (some false) next = (some false, [])
  guarded (some true) next = next

  unfoldable pub send_confirmation_sms :
      SmsAnswers → Value → String → String → String → Option Bool × List SmsRequest
  unfolding check_sms_consent confirmation_body
  send_confirmation_sms answers contact_id appointment caller_name language =
      guarded (check_sms_consent answers.contact) (
        after_sms contact_id (confirmation_body appointment caller_name language) answers.sms
          (add_tags contact_id ("confirmation-sent" ∷ "reminder-24h" ∷ "reminder-2h" ∷ []) ∷ [])
          answers.tags)

  unfoldable pub send_voicemail_follow_up_sms :
      SmsAnswers → Value → String → String → Option Bool × List SmsRequest
  unfolding check_sms_consent voicemail_body
  send_voicemail_follow_up_sms answers contact_id caller_name language =
      guarded (check_sms_consent answers.contact)
        (after_sms contact_id (voicemail_body caller_name language) answers.sms [] true)

-- the follow-up is queued, and where that does not raise the contact is tagged
unfoldable pub schedule_no_show_follow_up : Bool → Value → Value → List SmsRequest
schedule_no_show_follow_up queued contact_id appointment_id =
    if queued
    then queue_follow_up contact_id appointment_id
      ∷ add_tags contact_id ("no-show-candidate" ∷ [])
      ∷ []
    else queue_follow_up contact_id appointment_id ∷ []
