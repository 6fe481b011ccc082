-- ===== src/Booking.antt =====
-- app/voice/websocket_handler.py: `_handle_schedule_now` and `_handle_booking_confirmed`, which offer
-- slots to a caller and book the one that the agent confirms. The intake keys `_pending_slots_full`
-- and `_pending_slots` are one field of the session; Redis answers are arguments.
pub mod Loop
pub mod Order
pub mod Found
pub mod Confirmed
mod Tests
use ai_receptionist_for_immi.Prelude.{
  ℕ, ◌+◌, String, Bool, true, false, not, ◌&&◌, ◌||◌, Option, none, some, List, [], ◌∷◌, ◌++◌, ◌==◌,
  starts_with, if◌then◌else◌, ◌⊕◌, nonempty, is_nil, take,
}
use ai_receptionist_for_immi.Dict.{get, put, get_or}
use ai_receptionist_for_immi.Value.{has, Value, text, end}
use ai_receptionist_for_immi.Conversation.{CallState}
use ai_receptionist_for_immi.Calendar.{
  or_empty, first_text, prefix, book_appointment, Slot, Appointment, Answers, Booking, Reply,
  raised, refused, created, Effect, lock_slot, release_slot, save_state, speak,
}

pub record Session : Type 0 where
  pub state : CallState
  pub pending : List Slot
  -- "" before a contact is known
  pub ghl_contact_id : String
  pub has_agent : Bool
  pub language : String

-- `slot.get("startTime", "")`
abbrev pub start_of : Slot → String
start_of slot = or_empty slot.start_time

-- `slot.get("startTime", iso)`
abbrev pub start_or : String → Slot → String
start_or iso slot = elim slot.start_time [ none ↦ iso | some t ↦ t ]

unfoldable pub slot_matches : String → Slot → Bool
slot_matches confirm_iso slot =
    let wanted = prefix 16 confirm_iso in
    nonempty wanted
    && (starts_with (start_of slot) wanted || starts_with confirm_iso (prefix 16 (start_of slot)))

abbrev pub keep_behind : Slot → Option (Slot × List Slot) → Option (Slot × List Slot)
keep_behind s none = none
keep_behind s (some found) = some (found.0, s ∷ found.1)

-- the matched slot and the slots at the other positions, in order; `none` where none matches
unfoldable pub split_match : String → List Slot → Option (Slot × List Slot)
split_match iso [] = none
split_match iso (s ∷ slots) =
    let rest = split_match iso slots in
    if slot_matches iso s then some (s, slots) else keep_behind s rest

abbrev pub in_front : List Slot → Option (Slot × List Slot) → List Slot
in_front pending none = pending
in_front pending (some found) = found.0 ∷ found.1

-- The slots in the order in which they are tried: the first one stands in where none matches.
unfoldable pub candidates : String → List Slot → List Slot
unfolding split_match
candidates iso pending = in_front pending (split_match iso pending)

abbrev pub lock_key : String → Slot → String
lock_key calendar_id slot = "slot_lock:" ⊕ calendar_id ⊕ ":" ⊕ start_of slot

-- the lifetime of a lock in seconds
abbrev pub lock_seconds : ℕ
lock_seconds = 30

abbrev pub booked_appointment : Reply → Option Appointment
booked_appointment raised = none
booked_appointment refused = none
booked_appointment (created appt) = some appt

-- the first success ends the loop
abbrev pub stop_or_go_on :
    Slot
    → Option (Slot × Appointment) × List Effect
    → Option Appointment
    → List Effect
    → Option (Slot × Appointment) × List Effect
stop_or_go_on slot rest (some appt) es = (some (slot, appt), es)
stop_or_go_on slot rest none es = (rest.0, es ++ rest.1)

module _ (calendar_id : String) (sid : String) where
  -- one round of the loop, where Redis answers; a call of it that raises leaves the handler
  unfoldable pub try_slot : Booking → Slot → Answers → Option Appointment × List Effect
  unfolding book_appointment
  try_slot b slot answers =
      let key = lock_key calendar_id slot in
      if not answers.acquired then (none, lock_slot key sid lock_seconds false ∷ []) else (
        booked_appointment (book_appointment b slot answers).0,
        lock_slot key sid lock_seconds true
            ∷ ((book_appointment b slot answers).1 ++ release_slot key answers.seconds ∷ []),
      )

  -- the loop from its n-th round on; `world n` are the answers that this round meets
  unfoldable pub book_first :
      Booking → (ℕ → Answers) → ℕ → List Slot → Option (Slot × Appointment) × List Effect
  unfolding try_slot
  book_first b world n [] = (none, [])
  book_first b world n (slot ∷ slots) =
      let rest = book_first b world (n + 1) slots in
      stop_or_go_on slot rest (try_slot b slot (world n)).0 (try_slot b slot (world n)).1

-- What a confirmation meets: the contact that the eager sync creates, the name that the agent
-- extracts ("" for nothing or an exception), the answers to each attempt, and the slots that are
-- open afterwards with the sentence that offers them.
pub record World : Type 0 where
  pub synced_contact : String
  pub extracted_name : String
  pub attempts : ℕ → Answers
  pub fresh_slots : List Slot
  pub slot_speech : String

abbrev pub retry_message : String → String → String
retry_message language slot_speech =
    if language == "en"
    then "I'm sorry, those slots just became unavailable. Here are the next openings: "
      ⊕ slot_speech
    else "Lo siento, esos horarios ya no están disponibles. Estos son los próximos: " ⊕ slot_speech

abbrev pub no_slots_message : String → String
no_slots_message language =
    if language == "en"
    then "I'm sorry, we don't have any available slots at the moment. An attorney will call you back to schedule at a convenient time."
    else "Lo siento, no tenemos horarios disponibles en este momento. Un abogado le llamará para programar una cita en un momento conveniente."

-- `appt.get("id") or appt.get("appointment_id", "")`
abbrev pub id_of : Appointment → String
id_of appt = first_text appt.id appt.appointment_id

-- the end of the handler: the booked slot is stored, or fresh slots are offered
unfoldable pub settle :
    World → String → Option (Slot × Appointment) → Session → Session × List Effect
settle w iso (some found) s = (
  record s {
    state = record s.state { scheduled_at = start_or iso found.0; appointment_id = id_of found.1 };
    pending = [];
  },
  save_state ∷ [],
)
settle w iso none s =
    if is_nil w.fresh_slots then (s, speak (no_slots_message s.language) ∷ []) else (
      record s { pending = take 5 w.fresh_slots },
      save_state ∷ speak (retry_message s.language w.slot_speech) ∷ [],
    )

-- the contact is synced first where it is missing
abbrev pub with_contact : World → Session → Session
with_contact w s =
    if nonempty s.ghl_contact_id then s else record s { ghl_contact_id = w.synced_contact }

-- the name is taken from the transcript where the intake has none
abbrev pub named : World → Session → Session × List Effect
named w s =
    if s.has_agent && not (has s.state.intake "full_name") && nonempty w.extracted_name
    then (
      record s {
        state = record s.state { intake = put s.state.intake "full_name" (text w.extracted_name) };
      },
      save_state ∷ [],
    )
    else (s, [])

-- `show` is the text of an intake value that is not a text already
module _ (calendar_id : String) (show : Value → String) where
  abbrev pub field_text : Session → String → String
  field_text s key = show (get_or s.state.intake key (text ""))

  abbrev pub booking_of : Session → Booking
  booking_of s = record {
    contact_id = s.ghl_contact_id;
    caller_name = field_text s "full_name";
    caller_email = field_text s "email";
    case_type = field_text s "case_type";
    language = s.language;
  }

  -- the part behind the guards
  unfoldable pub confirm : World → String → Session → Session × List Effect
  unfolding book_first settle put has get get_or candidates
  confirm w iso s =
      let s1 = named w s in
      let found =
        book_first calendar_id s.state.call_sid (booking_of s1.0) w.attempts 0
          (candidates iso s.pending) in
      let end = settle w iso found.0 s1.0 in (end.0, s1.1 ++ (found.1 ++ end.1))

  unfoldable pub handle_booking_confirmed : World → String → Session → Session × List Effect
  unfolding confirm
  handle_booking_confirmed w iso s =
      let s0 = with_contact w s in
      if not (nonempty s0.ghl_contact_id)
      then (s0, [])
      else if is_nil s0.pending
      then (s0, [])
      else confirm w iso s0

-- `_handle_schedule_now`, with the slots that are open and the sentence that offers them
unfoldable pub handle_schedule_now : List Slot → String → Session → Session × List Effect
handle_schedule_now slots slot_speech s =
    if is_nil slots
    then (s, [])
    else (record s { pending = take 5 slots }, speak slot_speech ∷ save_state ∷ [])
