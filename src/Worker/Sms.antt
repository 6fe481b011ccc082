-- ===== src/Worker/Sms.antt =====
-- The handlers of app/logging_analytics/db_worker.py that send text messages: `_handle_twilio_sms` and
-- `_handle_follow_up`.
use ai_receptionist_for_immi.Prelude.{
  String, Bool, true, false, not, ◌&&◌, Option, none, some, List, [], ◌∷◌, if◌then◌else◌, ◌⊕◌,
  nonempty, is_in,
}
use ai_receptionist_for_immi.Dict.{Dict, get, get_or}
use ai_receptionist_for_immi.Value.{truthy, Value, null, boolean, integer, text, array, object}
use ai_receptionist_for_immi.Worker.{
  failed, done, strict, or_value, field_of, Services, Handled, Effect, send_sms,
}

-- a message to a contact who was found and has a phone number
abbrev pub message_to : Option (Dict Value) → Value → Value → List Effect
message_to none phone message = []
message_to (some []) phone message = []
message_to (some (f ∷ contact)) phone message =
    if truthy phone then send_sms phone message ∷ [] else []

-- what is read of a contact that may not be there
abbrev pub of_contact : Option (Dict Value) → String → String → Value
of_contact none k j = null
of_contact (some contact) k j = or_value (field_of contact k) (get_or contact j (text ""))

module _ (env : Services) where
  -- no exception leaves this handler
  unfoldable pub handle_twilio_sms : Dict Value → Handled
  unfolding get_or get truthy
  handle_twilio_sms payload =
      if truthy (get_or payload "message" (text ""))
      then elim (env.find_contact (get_or payload "contact_id" (text ""))) [
        | none ↦ done []
        | some contact ↦ done (
            message_to contact (of_contact contact "phone" "phoneRaw")
              (get_or payload "message" (text "")))
      ]
      else done []

  -- `status and status.lower() not in (…)`, where only a text has `lower`
  unfoldable pub settled_status : Value → Option Bool
  unfolding truthy
  settled_status (text t) =
      some
        (nonempty t && not (is_in (env.lower t) ("noshow" ∷ "no_show" ∷ "unconfirmed" ∷ "" ∷ [])))
  settled_status null = some false
  settled_status (boolean b) = if b then none else some false
  settled_status (integer n) = if truthy (integer n) then none else some false
  settled_status (array xs) = if truthy (array xs) then none else some false
  settled_status (object fs) = if truthy (object fs) then none else some false

  -- `(appt or {}).get("status", "")`
  abbrev pub status_of : Option (Dict Value) → Value
  status_of none = text ""
  status_of (some appt) = get_or appt "status" (text "")

  -- the status of the appointment, where the payload names one; `none` is an exception of the CRM
  abbrev pub status_for : Value → Option Value
  status_for appointment_id =
      if truthy appointment_id
      then elim (env.find_appointment appointment_id) [
        | none ↦ none
        | some appt ↦ some (status_of appt)
      ]
      else some null

  abbrev pub name_part : Value → String
  name_part name = if truthy name then ", " ⊕ env.str name else ""

  abbrev pub follow_up_message : Value → String
  follow_up_message name =
      "Hi"
      ⊕ name_part name
      ⊕ "! We noticed you missed your consultation with "
      ⊕ env.law_firm_name
      ⊕ ". We'd love to reschedule — please call us or visit "
      ⊕ env.booking_url
      ⊕ " to pick a new time. We're here to help."

  -- an exception of the message is raised again
  abbrev pub sent : List Effect → Handled
  sent [] = done []
  sent (e ∷ es) = strict env e

  abbrev pub follow_contact : Option (Option (Dict Value)) → Handled
  follow_contact none = failed
  follow_contact (some contact) = sent (
      message_to contact (of_contact contact "phone" "phoneRaw")
        (text (follow_up_message (of_contact contact "firstName" "name"))))

  abbrev pub unless_settled : Option Bool → Handled → Handled
  unless_settled none next = failed
  unless_settled (some true) next = done []
  unless_settled (some false) next = next

  unfoldable pub handle_follow_up : Dict Value → Handled
  unfolding get_or get truthy settled_status
  handle_follow_up payload =
      let contact_id = get_or payload "contact_id" (text "") in
      if truthy contact_id
      then elim (status_for (get_or payload "appointment_id" (text ""))) [
        | none ↦ failed
        | some status ↦
            unless_settled (settled_status status) (follow_contact (env.find_contact contact_id))
      ]
      else done []
