-- ===== src/Booking/Found.antt =====
-- Which of the candidates the loop of `_handle_booking_confirmed` books.
use mathlib.Core.List.{Mem, mem-cons_self, mem-cons_of_mem}
use mathlib.Core.Logic.{◌↔◌}
use mathlib.Core.Option.{some-injective}
use ai_receptionist_for_immi.Prelude.{
  ℕ, ◌+◌, String, ◌≡◌, refl, sym, ap, subst, ◌∙◌, ◌↔◌, ◌⊎◌, inl, inr, true, ◌&&◌, Option, none,
  some, List, [], ◌∷◌, arith, if◌then◌else◌, Option-cases, nonempty,
}
use ai_receptionist_for_immi.Calendar.{
  first_text, book_appointment, Slot, Appointment, Answers, Booking, created,
}
use ai_receptionist_for_immi.Booking.{booked_appointment, try_slot, book_first}
use ai_receptionist_for_immi.Booking.Loop.{book_booked, book_next}

abbrev pub Bookable : Slot → Type 0
Bookable slot =
    (nonempty (first_text slot.start_time slot.start_snake) ≡ true)
    × (nonempty (first_text slot.end_time slot.end_snake) ≡ true)

-- the appointment that an attempt to book the slot yields: the lock is free, the slot has both its
-- times, and the CRM can be called and creates it
abbrev pub taken : Slot → Answers → Option Appointment
taken slot a =
    if a.acquired
      && nonempty (first_text slot.start_time slot.start_snake)
      && nonempty (first_text slot.end_time slot.end_snake)
      && a.ghl_available
    then booked_appointment a.reply
    else none

-- The slot that is booked: all slots before it were locked by another call or turned down.
abbrev pub FirstBooked : (ℕ → Answers) → ℕ → List Slot → Slot → Appointment → Type 0
FirstBooked world n [] slot appt = ⊥
FirstBooked world n (s ∷ slots) slot appt =
    ((s ≡ slot) × (taken s (world n) ≡ some appt))
    ⊎ ((taken s (world n) ≡ none) × FirstBooked world (n + 1) slots slot appt)

module _ (calendar_id : String) where
  try_slot-taken :
      (sid : String) (b : Booking) (slot : Slot) (a : Answers)
      → (try_slot calendar_id sid b slot a).0 ≡ taken slot a
  unfolding try_slot book_appointment
  try_slot-taken sid b slot a = ground arith

  pub found-FirstBooked :
      (sid : String) (b : Booking) (world : ℕ → Answers) (n : ℕ) (slots : List Slot) (slot : Slot)
      → (appt : Appointment) → (book_first calendar_id sid b world n slots).0 ≡ some (slot, appt)
      → FirstBooked world n slots slot appt
  unfolding book_first
  found-FirstBooked sid b world n [] slot appt e = ground arith
  found-FirstBooked sid b world n (s ∷ slots) slot appt q =
      elim (Option-cases (try_slot calendar_id sid b s (world n)).0) [
        | inl e ↦ inr (
          sym (try_slot-taken sid b s (world n)) ∙ e,
          found-FirstBooked sid b world (n + 1) slots slot appt
              (sym (ap (λ r. r.0) (book_next calendar_id sid b world n s slots e)) ∙ q),
        )
        | inr (a, e) ↦
            let p =
              some-injective (s, a) (slot, appt)
                (sym (ap (λ r. r.0) (book_booked calendar_id sid b world n s slots a e)) ∙ q) in
            inl (ap (λ r. r.0) p, sym (try_slot-taken sid b s (world n)) ∙ e ∙ ap (λ r. some r.1) p)
      ]

  FirstBooked-found :
      (sid : String) (b : Booking) (world : ℕ → Answers) (n : ℕ) (slots : List Slot) (slot : Slot)
      → (appt : Appointment) → FirstBooked world n slots slot appt
      → (book_first calendar_id sid b world n slots).0 ≡ some (slot, appt)
  FirstBooked-found sid b world n [] slot appt f = absurd f
  FirstBooked-found sid b world n (s ∷ slots) slot appt (inl (e, t)) =
      ap (λ r. r.0)
        (book_booked calendar_id sid b world n s slots appt (try_slot-taken sid b s (world n) ∙ t))
      ∙ ap (λ x. some (x, appt)) e
  FirstBooked-found sid b world n (s ∷ slots) slot appt (inr (t, f)) =
      ap (λ r. r.0)
        (book_next calendar_id sid b world n s slots (try_slot-taken sid b s (world n) ∙ t))
      ∙ FirstBooked-found sid b world (n + 1) slots slot appt f

  -- The loop books a slot if and only if it is the first of the candidates whose lock is free and whose
  -- booking the CRM accepts.
  pub book_first-FirstBooked :
      (sid : String) (b : Booking) (world : ℕ → Answers) (n : ℕ) (slots : List Slot) (slot : Slot)
      → (appt : Appointment)
      → ((book_first calendar_id sid b world n slots).0 ≡ some (slot, appt))
        ↔ FirstBooked world n slots slot appt
  book_first-FirstBooked sid b world n slots slot appt = (
    found-FirstBooked sid b world n slots slot appt,
    FirstBooked-found sid b world n slots slot appt,
  )

  pub try_slot-free :
      (sid : String) (b : Booking) (slot : Slot) (a : Answers) (appt : Appointment)
      → Bookable slot
      → (a.acquired ≡ true) × (a.ghl_available ≡ true) × (a.reply ≡ created appt)
      → (try_slot calendar_id sid b slot a).0 ≡ some appt
  unfolding try_slot book_appointment
  try_slot-free sid b slot a appt k h = rw (h.0, h.1, h.2, k.0, k.1) refl

  pub Mem-FirstBooked :
      (world : ℕ → Answers) (n : ℕ) (slots : List Slot) (slot : Slot)
      → (appt : Appointment) → FirstBooked world n slots slot appt
      → Mem slot slots
  Mem-FirstBooked world n [] slot appt f = absurd f
  Mem-FirstBooked world n (s ∷ slots) slot appt (inl (e, t)) =
      subst (λ x. Mem x (s ∷ slots)) e mem-cons_self
  Mem-FirstBooked world n (s ∷ slots) slot appt (inr (t, f)) =
      mem-cons_of_mem s (Mem-FirstBooked world (n + 1) slots slot appt f)
