-- ===== src/Ghl/Appointments.antt =====
-- app/crm/ghl_client.py: the methods of `GHLClient` on slots, appointments, opportunities and text
-- messages.
use ai_receptionist_for_immi.Prelude.{
  ℕ, String, true, false, none, some, List, [], ◌∷◌, ◌++◌, map, if◌then◌else◌, ◌⊕◌, nonempty, pos,
}
use ai_receptionist_for_immi.Dict.{Dict, get_or}
use ai_receptionist_for_immi.Value.{
  truthy, Value, null, boolean, integer, text, array, object, nil, end, field,
}
use ai_receptionist_for_immi.Worker.{or_value, only_if, fields_of}
use ai_receptionist_for_immi.Ghl.Answers.{of_items, dict_in, unwrapped, event_in, iterated, Setup}
use ai_receptionist_for_immi.Ghl.{
  Action, pure, given, guarded, ◌>>=◌, Server, send, gets, posts, puts, type_error, value_error,
}

module _ (setup : Setup) (server : Server) where
  -- one slot of the answer; what cannot be read keeps its start and has no end
  unfoldable pub slot_of : Value → Value
  slot_of (text start_iso) = elim (setup.slot_times start_iso) [
    | some (start_time, end_time) ↦
        object (field "startTime" (text start_time) (field "endTime" (text end_time) end))
    | none ↦ object (field "startTime" (text start_iso) (field "endTime" (text "") end))
  ]
  slot_of v = object (field "startTime" v (field "endTime" (text "") end))

  -- the loop over the days of the answer
  unfoldable pub slots_in : Dict Value → Action (List Value)
  unfolding slot_of
  slots_in [] = pure []
  slots_in ((day, object fs) ∷ d) = do
    starts ← given type_error (iterated (get_or (fields_of fs) "slots" (array nil)))
    rest ← slots_in d
    pure (map slot_of starts ++ rest)
  slots_in ((day, v) ∷ d) = slots_in d

  abbrev pub slots_of : Value → Action Value
  slots_of answer = do d ← dict_in answer; slots ← slots_in d; pure (array (of_items slots))

  -- the request for the slots between two times
  unfoldable pub fetch_slots : ℕ → ℕ → String → Action Value
  unfolding send slots_in
  fetch_slots start_ms end_ms timezone = guarded (array nil) (
      send server gets ("/calendars/" ⊕ setup.calendar_id ⊕ "/free-slots") (
        ("startDate", integer (pos start_ms))
        ∷ ("endDate", integer (pos end_ms))
        ∷ ("timezone", text (if nonempty timezone then timezone else setup.office_timezone))
        ∷ [])
      >>= slots_of)

  unfoldable pub get_available_slots : String → String → String → Action Value
  unfolding fetch_slots
  get_available_slots start_date end_date timezone = do
    start_ms ← given value_error (setup.day_start start_date)
    end_ms ← given value_error (setup.day_end end_date)
    fetch_slots start_ms end_ms timezone

  abbrev pub appointment_payload : String → String → String → String → String → String → Dict Value
  appointment_payload contact_id start_time end_time title notes timezone =
      ("calendarId", text setup.calendar_id)
      ∷ ("locationId", text setup.location_id)
      ∷ ("contactId", text contact_id)
      ∷ ("startTime", text start_time)
      ∷ ("endTime", text end_time)
      ∷ ("title", text title)
      ∷ ("appoinmentStatus", text "confirmed")
      ∷ ("timezone", text (if nonempty timezone then timezone else setup.office_timezone))
      ∷ only_if (nonempty notes) "notes" (text notes)

  unfoldable pub create_appointment :
      String → String → String → String → String → String → Action Value
  unfolding send truthy
  create_appointment contact_id start_time end_time title notes timezone = guarded null (
      send server posts "/calendars/events/appointments"
        (appointment_payload contact_id start_time end_time title notes timezone)
      >>= event_in)

  unfoldable pub update_appointment_status : String → String → Action Value
  unfolding send
  update_appointment_status appointment_id status = guarded (boolean false) (
      send server puts ("/calendars/events/appointments/" ⊕ appointment_id)
        (("appoinmentStatus", text status) ∷ [])
      >>= λ _. pure (boolean true))

  abbrev pub event_or_none : Value → Action Value
  event_or_none answer = do found ← event_in answer; pure (or_value found null)

  unfoldable pub get_appointment : String → Action Value
  unfolding send truthy
  get_appointment appointment_id =
      guarded null
        (send server gets ("/calendars/events/appointments/" ⊕ appointment_id) [] >>= event_or_none)

  -- `monetary_value` is given as the value that is sent
  abbrev pub opportunity_payload : String → String → String → String → Value → String → Dict Value
  opportunity_payload contact_id name pipeline_id stage_id monetary_value status =
      ("pipelineId", text pipeline_id)
      ∷ ("locationId", text setup.location_id)
      ∷ ("name", text name)
      ∷ ("pipelineStageId", text stage_id)
      ∷ ("status", text status)
      ∷ ("contactId", text contact_id)
      ∷ ("monetaryValue", monetary_value)
      ∷ []

  unfoldable pub create_opportunity :
      String → String → String → String → Value → String → Action Value
  unfolding send truthy
  create_opportunity contact_id name pipeline_id stage_id monetary_value status = guarded null (
      send server posts "/opportunities/"
        (opportunity_payload contact_id name pipeline_id stage_id monetary_value status)
      >>= unwrapped "opportunity")

  abbrev pub sms_payload : String → String → String → Dict Value
  sms_payload contact_id message from_number =
      ("type", text "SMS")
      ∷ ("message", text message)
      ∷ ("contactId", text contact_id)
      ∷ (
        "fromNumber",
        text (if nonempty from_number then from_number else setup.twilio_phone_number),
      )
      ∷ []

  unfoldable pub send_sms : String → String → String → Action Value
  unfolding send
  send_sms contact_id message from_number = guarded (boolean false) (
      send server posts "/conversations/messages" (sms_payload contact_id message from_number)
      >>= λ _. pure (boolean true))
