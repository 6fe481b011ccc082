-- ===== src/Booking/Loop.antt =====
-- The loop of `_handle_booking_confirmed` over the candidate slots: the locks it holds and the
-- appointments that it makes.
use ai_receptionist_for_immi.Prelude.{
  ℕ, ◌+◌, ◌<◌, String, ◌≡◌, refl, sym, ap, ◌∙◌, inl, inr, Bool, true, false, ◌&&◌, Option, none,
  some, List, [], ◌∷◌, ◌++◌, append-nil, append_assoc, arith, ◌==◌, eq_refl, ltb, if◌then◌else◌,
  Bool-cases, Option-cases, nonempty,
}
use ai_receptionist_for_immi.Calendar.{
  first_text, book_appointment, Slot, Appointment, Answers, Booking, raised, refused, created,
  Effect, create_appointment, create_calendar_event, invalidate_date, lock_slot, release_slot,
  save_state, speak,
}
use ai_receptionist_for_immi.Booking.{
  lock_key, booked_appointment, stop_or_go_on, try_slot, book_first,
}

-- a text under one of two keys, the second where the first is missing or empty
abbrev pub one_of : Option String → Option String → String
one_of none none = ""
one_of none (some u) = u
one_of (some t) none = if nonempty t then t else ""
one_of (some t) (some u) = if nonempty t then t else u

pub one_of_lem : (a b : Option String) → first_text a b ≡ one_of a b
one_of_lem none none = refl
one_of_lem none (some u) = refl
one_of_lem (some t) none = refl
one_of_lem (some t) (some u) = refl

-- an appointment that the CRM has created: for which contact, from when to when, and what it gave back
abbrev pub Made : Type 0
Made = String × String × String × Appointment

abbrev pub made : List Effect → List Made
made [] = []
made (create_appointment c s e t n (created appt) ∷ es) = (c, s, e, appt) ∷ made es
made (_ ∷ es) = made es

-- the appointment of a contact for a slot
abbrev pub made_for : String → Slot → Appointment → Made
made_for contact slot appt =
    (contact, one_of slot.start_time slot.start_snake, one_of slot.end_time slot.end_snake, appt)

abbrev pub made_of : String → Option (Slot × Appointment) → List Made
made_of contact none = []
made_of contact (some found) = made_for contact found.0 found.1 ∷ []

abbrev pub with_slot : Slot → Option Appointment → Option (Slot × Appointment)
with_slot slot none = none
with_slot slot (some appt) = some (slot, appt)

-- A lock is held while an appointment is made, and released behind it and before it expires, one at a
-- time; the first argument is the key that is held, with its lifetime.
abbrev pub locked : Option (String × ℕ) → List Effect → Bool
locked none [] = true
locked (some k) [] = false
locked none (create_appointment c s e t n r ∷ es) = false
locked (some k) (create_appointment c s e t n r ∷ es) = locked (some k) es
locked h (create_calendar_event t s e d a ∷ es) = locked h es
locked h (invalidate_date d ∷ es) = locked h es
locked none (lock_slot k sid ex true ∷ es) = locked (some (k, ex)) es
locked (some j) (lock_slot k sid ex true ∷ es) = false
locked h (lock_slot k sid ex false ∷ es) = locked h es
locked none (release_slot k age ∷ es) = false
locked (some j) (release_slot k age ∷ es) = j.0 == k && (ltb age j.1 && locked none es)
locked h (save_state ∷ es) = locked h es
locked h (speak t ∷ es) = locked h es

pub made-append : (es fs : List Effect) → made (es ++ fs) ≡ made es ++ made fs
made-append [] fs = refl
made-append (create_appointment c s e t n (created appt) ∷ es) fs =
    ap (λ ms. (c, s, e, appt) ∷ ms) (made-append es fs)
made-append (create_appointment c s e t n raised ∷ es) fs = made-append es fs
made-append (create_appointment c s e t n refused ∷ es) fs = made-append es fs
made-append (create_calendar_event t s e d a ∷ es) fs = made-append es fs
made-append (invalidate_date d ∷ es) fs = made-append es fs
made-append (lock_slot k sid ex ok ∷ es) fs = made-append es fs
made-append (release_slot k age ∷ es) fs = made-append es fs
made-append (save_state ∷ es) fs = made-append es fs
made-append (speak t ∷ es) fs = made-append es fs

made-book :
    (b : Booking) (slot : Slot) (a : Answers) (es : List Effect)
    → made ((book_appointment b slot a).1 ++ es)
      ≡ made_of b.contact_id (with_slot slot (booked_appointment (book_appointment b slot a).0))
        ++ made es
unfolding book_appointment
made-book b slot a es =
    ground
      (arith, one_of_lem slot.start_time slot.start_snake, one_of_lem slot.end_time slot.end_snake)

locked-book :
    (b : Booking) (slot : Slot) (a : Answers) (k : String × ℕ) (es : List Effect)
    → locked (some k) ((book_appointment b slot a).1 ++ es) ≡ locked (some k) es
unfolding book_appointment
locked-book b slot a k es = ground arith

module _ (calendar_id : String) (sid : String) (b : Booking) where
  pub book_booked :
      (world : ℕ → Answers) (n : ℕ) (slot : Slot) (slots : List Slot) (appt : Appointment)
      → (try_slot calendar_id sid b slot (world n)).0 ≡ some appt
      → book_first calendar_id sid b world n (slot ∷ slots)
        ≡ (some (slot, appt), (try_slot calendar_id sid b slot (world n)).1)
  unfolding book_first
  book_booked world n slot slots appt e =
      ap
        (λ o.
          stop_or_go_on slot (book_first calendar_id sid b world (n + 1) slots) o
            (try_slot calendar_id sid b slot (world n)).1)
        e

  pub book_next :
      (world : ℕ → Answers) (n : ℕ) (slot : Slot) (slots : List Slot)
      → (try_slot calendar_id sid b slot (world n)).0 ≡ none
      → book_first calendar_id sid b world n (slot ∷ slots) ≡ (
        (book_first calendar_id sid b world (n + 1) slots).0,
        (try_slot calendar_id sid b slot (world n)).1
            ++ (book_first calendar_id sid b world (n + 1) slots).1,
      )
  unfolding book_first
  book_next world n slot slots e =
      ap
        (λ o.
          stop_or_go_on slot (book_first calendar_id sid b world (n + 1) slots) o
            (try_slot calendar_id sid b slot (world n)).1)
        e

  made-try :
      (slot : Slot) (a : Answers)
      → made (try_slot calendar_id sid b slot a).1
        ≡ made_of b.contact_id (with_slot slot (try_slot calendar_id sid b slot a).0)
  unfolding try_slot
  made-try slot a = elim (Bool-cases a.acquired) [
    | inr n ↦ rw n refl
    | inl y ↦ rw y (
        made-book b slot a (release_slot (lock_key calendar_id slot) a.seconds ∷ [])
        ∙ append-nil (
            made_of b.contact_id
              (with_slot slot (booked_appointment (book_appointment b slot a).0))))
  ]

  locked-try :
      (slot : Slot) (a : Answers) (es : List Effect)
      → a.seconds < 30
      → locked none ((try_slot calendar_id sid b slot a).1 ++ es) ≡ locked none es
  unfolding try_slot
  locked-try slot a es quick = elim (Bool-cases a.acquired) [
    | inr n ↦ rw n refl
    | inl y ↦
        let key = lock_key calendar_id slot in
        let release = release_slot key a.seconds in
        let early : ltb a.seconds 30 ≡ true = ground arith in
        rw y (
          ap (locked (some (key, 30)))
            (append_assoc (book_appointment b slot a).1 (release ∷ []) es)
          ∙ locked-book b slot a (key, 30) (release ∷ es)
          ∙ rw (eq_refl key, early) refl)
  ]

  -- One pass over the candidates creates exactly one appointment in the CRM if a slot is returned as booked,
  -- for this slot and the contact, and none if no slot is.
  pub made-book_first :
      (world : ℕ → Answers) (n : ℕ) (slots : List Slot)
      → made (book_first calendar_id sid b world n slots).1
        ≡ made_of b.contact_id (book_first calendar_id sid b world n slots).0
  unfolding book_first
  made-book_first world n [] = refl
  made-book_first world n (slot ∷ slots) =
      elim (Option-cases (try_slot calendar_id sid b slot (world n)).0) [
        | inr (appt, e) ↦
            rw (book_booked world n slot slots appt e)
              (made-try slot (world n) ∙ ap (λ o. made_of b.contact_id (with_slot slot o)) e)
        | inl e ↦ rw e (
            made-append (try_slot calendar_id sid b slot (world n)).1
              (book_first calendar_id sid b world (n + 1) slots).1
            ∙ ap (λ ms. ms ++ made (book_first calendar_id sid b world (n + 1) slots).1)
                (made-try slot (world n) ∙ ap (λ o. made_of b.contact_id (with_slot slot o)) e)
            ∙ made-book_first world (n + 1) slots)
      ]

  -- Where Redis answers and no attempt to book takes as long as the 30 seconds that a lock lives, an
  -- appointment is only ever made while a slot lock is held, no second lock is taken before the first is
  -- released, the key that is released is the one that is held and has not expired, and no lock is held
  -- in the end.
  pub locked-book_first :
      (world : ℕ → Answers) (n : ℕ) (slots : List Slot)
      → ((k : ℕ) → (world k).seconds < 30)
      → locked none (book_first calendar_id sid b world n slots).1 ≡ true
  unfolding book_first
  locked-book_first world n [] quick = refl
  locked-book_first world n (slot ∷ slots) quick =
      elim (Option-cases (try_slot calendar_id sid b slot (world n)).0) [
        | inr (appt, e) ↦ rw e (
            ap (locked none) (sym (append-nil (try_slot calendar_id sid b slot (world n)).1))
            ∙ locked-try slot (world n) [] (quick n))
        | inl e ↦ rw e (
            locked-try slot (world n) (book_first calendar_id sid b world (n + 1) slots).1 (quick n)
            ∙ locked-book_first world (n + 1) slots quick)
      ]
