-- ===== src/Calendar/Openings.antt =====
-- Which slots `get_available_slots` returns, and what `book_appointment` accepts.
use mathlib.Core.Logic.{◌↔◌}
use ai_receptionist_for_immi.Prelude.{
  ℕ, String, ◌≡◌, refl, ◌↔◌, Bool, true, false, List, [], ◌∷◌, ◌++◌, map, arith, if◌then◌else◌,
  nonempty,
}
use ai_receptionist_for_immi.Calendar.{
  first_text, book_appointment, annotate, day_slots, collect, get_available_slots, Slot,
  Appointment, Answers, Booking, created,
}

module _ (formatted : Slot → String) where
  -- the slots of all the days, as the CRM returns them, each with a display
  abbrev pub live : (ℕ → List Slot) → List ℕ → List Slot
  live ghl [] = []
  live ghl (day ∷ days) = map (annotate formatted) (ghl day) ++ live ghl days

  fresh_day :
      (has_redis : Bool) (cache fetched : List Slot)
      → (day_slots formatted has_redis true cache fetched).0 ≡ map (annotate formatted) fetched
  unfolding day_slots
  fresh_day true cache fetched = refl
  fresh_day false cache fetched = refl

  fresh_collect :
      (has_redis : Bool) (cache ghl : ℕ → List Slot) (days : List ℕ)
      → collect formatted has_redis true cache ghl days ≡ live ghl days
  unfolding collect
  fresh_collect has_redis cache ghl [] = refl
  fresh_collect has_redis cache ghl (day ∷ days) =
      rw (fresh_day has_redis (cache day) (ghl day), fresh_collect has_redis cache ghl days) refl

  -- With force_fresh, the slots are those that the CRM returns for the days, whatever the cache holds; while
  -- the CRM is unavailable there are none.
  pub fresh_slots :
      (available has_redis : Bool) (cache ghl : ℕ → List Slot) (days : List ℕ)
      → get_available_slots formatted available has_redis true cache ghl days
        ≡ (if available then live ghl days else [])
  unfolding get_available_slots
  fresh_slots true has_redis cache ghl days = fresh_collect has_redis cache ghl days
  fresh_slots false has_redis cache ghl days = refl

-- A booking is accepted if and only if the slot has a start and an end, the CRM can be called and it
-- creates the appointment; the attorneys' calendar has no say.
pub book_appointment_accepts :
    (b : Booking) (slot : Slot) (answers : Answers) (appt : Appointment)
    → ((book_appointment b slot answers).0 ≡ created appt) ↔ (
        (nonempty (first_text slot.start_time slot.start_snake) ≡ true)
        × (nonempty (first_text slot.end_time slot.end_snake) ≡ true)
        × (answers.ghl_available ≡ true)
        × (answers.reply ≡ created appt))
unfolding book_appointment
book_appointment_accepts b slot answers appt = (
  λ e. (ground arith, ground arith, ground arith, ground arith),
  λ h. rw (h.0, h.1, h.2, h.3) refl,
)
