-- ===== src/Booking/Tests.antt =====
-- Runs of `_handle_booking_confirmed`, and the theorems of this part at concrete inputs.
use mathlib.Core.List.{Perm}
use mathlib.Core.Logic.{◌↔◌}
use ai_receptionist_for_immi.Prelude.{
  ℕ, zero, suc, String, ◌≡◌, refl, ◌↔◌, true, false, none, some, [], ◌∷◌, arith,
}
use ai_receptionist_for_immi.Conversation.{new}
use ai_receptionist_for_immi.Value.{Value, text}
use ai_receptionist_for_immi.Calendar.{Slot, Appointment, Answers, Booking, refused, created}
use ai_receptionist_for_immi.Booking.{
  slot_matches, candidates, book_first, handle_booking_confirmed, handle_schedule_now, Session,
  World,
}
use ai_receptionist_for_immi.Booking.Loop.{locked, locked-book_first}
use ai_receptionist_for_immi.Booking.Order.{candidates-perm}
use ai_receptionist_for_immi.Booking.Found.{FirstBooked, book_first-FirstBooked}
use ai_receptionist_for_immi.Booking.Confirmed.{
  BookedFor, unmatched_books_first, contact_for, Outcome, confirmation_outcome,
}

abbrev slot_at : String → String → Slot
slot_at start stop = record {
  start_time = some start;
  start_snake = none;
  end_time = some stop;
  end_snake = none;
  display = start;
}

abbrev nine : Slot
nine = slot_at "2026-01-05T09:00:00-05:00" "2026-01-05T09:30:00-05:00"

abbrev ten : Slot
ten = slot_at "2026-01-05T10:00:00-05:00" "2026-01-05T10:30:00-05:00"

abbrev kept : Appointment
kept = record { id = some "a1"; appointment_id = none }

-- the lock of the first slot that is tried is taken, and the CRM accepts the second
abbrev answers : ℕ → Answers
answers zero = record { acquired = false; ghl_available = true; reply = refused; seconds = 1 }
answers (suc n) = record {
  acquired = true;
  ghl_available = true;
  reply = created kept;
  seconds = 1;
}

abbrev accepting : ℕ → Answers
accepting n = record { acquired = true; ghl_available = true; reply = created kept; seconds = 1 }

abbrev caller : Booking
caller = record {
  contact_id = "c1";
  caller_name = "Ana";
  caller_email = "";
  case_type = "";
  language = "en";
}

abbrev world : World
world = record {
  synced_contact = "";
  extracted_name = "Ana";
  attempts = accepting;
  fresh_slots = [];
  slot_speech = "";
}

abbrev session : Session
session = record {
  state = new "CA1" 0;
  pending = nine ∷ ten ∷ [];
  ghl_contact_id = "c1";
  has_agent = true;
  language = "en";
}

abbrev show : Value → String
show (text t) = t
show v = ""

second_test : (book_first "cal" "CA1" caller answers 0 (nine ∷ ten ∷ [])).0 ≡ some (ten, kept)
unfolding book_first
second_test = refl

schedule_test : (handle_schedule_now (ten ∷ []) "ten" session).0.pending ≡ ten ∷ []
unfolding handle_schedule_now
schedule_test = refl

locked-book_first_example :
    locked none (book_first "cal" "CA1" caller accepting 0 (nine ∷ ten ∷ [])).1 ≡ true
locked-book_first_example =
    locked-book_first "cal" "CA1" caller accepting 0 (nine ∷ ten ∷ []) (λ k. omega arith)

candidates-perm_example : Perm (candidates "2026-01-05T10:00" (nine ∷ ten ∷ [])) (nine ∷ ten ∷ [])
candidates-perm_example = candidates-perm "2026-01-05T10:00" (nine ∷ ten ∷ [])

book_first-FirstBooked_example :
    ((book_first "cal" "CA1" caller answers 0 (nine ∷ ten ∷ [])).0 ≡ some (ten, kept))
    ↔ FirstBooked answers 0 (nine ∷ ten ∷ []) ten kept
book_first-FirstBooked_example =
    book_first-FirstBooked "cal" "CA1" caller answers 0 (nine ∷ ten ∷ []) ten kept

unmatched_books_first_example :
    BookedFor "cal" show "c1" "2026-02-09T16:00" nine kept
      (handle_booking_confirmed "cal" show world "2026-02-09T16:00" session)
unfolding slot_matches
unmatched_books_first_example =
    unmatched_books_first "cal" show world "2026-02-09T16:00" session nine (ten ∷ []) kept refl refl
      refl (refl, refl) (refl, refl, refl)

confirmation_outcome_example :
    Outcome "cal" show
      (contact_for "cal" show world session)
      "2026-01-05T10:00"
      session.state
      session.pending
      (handle_booking_confirmed "cal" show world "2026-01-05T10:00" session)
unfolding new
confirmation_outcome_example = confirmation_outcome "cal" show world "2026-01-05T10:00" session
