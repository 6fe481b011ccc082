-- ===== src/Ghl/Calls.antt =====
-- app/crm/ghl_client.py: the methods of the client as calls, made one after the other.
use ai_receptionist_for_immi.Prelude.{ℕ, ◌+◌, String, List, [], ◌∷◌}
use ai_receptionist_for_immi.Dict.{Dict}
use ai_receptionist_for_immi.Value.{Value, null}
use ai_receptionist_for_immi.Ghl.Answers.{Setup}
use ai_receptionist_for_immi.Ghl.Methods.{
  search_contacts_by_query, search_contact_by_phone, get_contact, create_contact, update_contact,
  add_tags, add_note,
}
use ai_receptionist_for_immi.Ghl.Appointments.{
  get_available_slots, create_appointment, update_appointment_status, get_appointment,
  create_opportunity, send_sms,
}
use ai_receptionist_for_immi.Ghl.{Action, Server, Client, returned}

-- The methods of the client, and `waits`, which lets time pass between two of them.
pub data Call : Type 0 where
  waits : ℕ → Call
  searches : String → ℕ → Call
  finds_phone : String → Call
  reads_contact : String → Call
  creates : String → String → String → String → List Value → Dict Value → String → Call
  updates : String → Dict Value → Call
  tags : String → List Value → Call
  notes : String → String → Call
  lists_slots : String → String → String → Call
  books : String → String → String → String → String → String → Call
  sets_status : String → String → Call
  reads_appointment : String → Call
  opens : String → String → String → String → Value → String → Call
  texts : String → String → String → Call

module _ (setup : Setup) (server : Server) where
  unfoldable pub perform : Call → Action Value
  unfolding search_contacts_by_query
  perform (waits d) = λ c. (returned null, record c { now = c.now + d })
  perform (searches query limit) = search_contacts_by_query setup server query limit
  perform (finds_phone phone) = search_contact_by_phone setup server phone
  perform (reads_contact id) = get_contact setup server id
  perform (creates phone first last email ts custom language) =
      create_contact setup server phone first last email ts custom language
  perform (updates id fields) = update_contact setup server id fields
  perform (tags id ts) = add_tags setup server id ts
  perform (notes id body) = add_note setup server id body
  perform (lists_slots from to tz) = get_available_slots setup server from to tz
  perform (books id from to title body tz) =
      create_appointment setup server id from to title body tz
  perform (sets_status id status) = update_appointment_status setup server id status
  perform (reads_appointment id) = get_appointment setup server id
  perform (opens id name pipeline stage worth status) =
      create_opportunity setup server id name pipeline stage worth status
  perform (texts id message from) = send_sms setup server id message from

  unfoldable pub perform_all : List Call → Client → Client
  unfolding perform
  perform_all [] c = c
  perform_all (call ∷ calls) c = perform_all calls (perform call c).1
