-- ===== src/Calendar/Tests.antt =====
-- Runs of app/scheduling/calendar_service.py, and the theorems of this part at concrete inputs.
use ai_receptionist_for_immi.Prelude.{String, ◌≡◌, refl, true, none, some, [], ◌∷◌}
use ai_receptionist_for_immi.Calendar.{
  format_slots_for_speech, Slot, Appointment, Answers, Booking, created,
}

abbrev morning : Slot
morning = record {
  start_time = some "2026-01-05T09:00:00";
  start_snake = none;
  end_time = some "2026-01-05T09:30:00";
  end_snake = none;
  display = "Mon Jan 5, 9:00 AM";
}

abbrev at_two : Slot
at_two = record morning { display = "Mon Jan 5, 2:00 PM" }

abbrev display_of : Slot → String
display_of slot = slot.display

speech_test :
    format_slots_for_speech display_of (morning ∷ at_two ∷ []) "en" 3
    ≡ "I have openings on Mon Jan 5, 9:00 AM, or Mon Jan 5, 2:00 PM. Which works best for you?"
unfolding format_slots_for_speech
speech_test = refl

abbrev caller : Booking
caller = record {
  contact_id = "c1";
  caller_name = "Ana";
  caller_email = "";
  case_type = "asylum";
  language = "en";
}

abbrev kept : Appointment
kept = record { id = some "a1"; appointment_id = none }

abbrev accepting : Answers
accepting = record { acquired = true; ghl_available = true; reply = created kept; seconds = 1 }
