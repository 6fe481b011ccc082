-- ===== src/Booking/Confirmed.antt =====
-- What a confirmation does to the session: the appointment that is made and what is stored of it.
use mathlib.Core.List.{Mem}
use mathlib.Core.List.Perm
use ai_receptionist_for_immi.Prelude.{
  String, ◌≡◌, refl, sym, ap, subst, ◌∙◌, ◌⊎◌, inl, inr, Bool, true, false, not, Option, none, some,
  List, [], ◌∷◌, ◌++◌, append-nil, arith, if◌then◌else◌, Option-cases, nonempty, is_nil, any,
}
use ai_receptionist_for_immi.Conversation.{CallState}
use ai_receptionist_for_immi.Value.{Value}
use ai_receptionist_for_immi.Calendar.{Slot, Appointment, created, Effect}
use ai_receptionist_for_immi.Booking.{
  slot_matches, candidates, book_first, settle, with_contact, named, booking_of, confirm,
  handle_booking_confirmed, Session, World,
}
use ai_receptionist_for_immi.Booking.Loop.{
  one_of, one_of_lem, made, made_for, made_of, made-append, book_booked, made-book_first,
}
use ai_receptionist_for_immi.Booking.Order.{candidates-perm, candidates_unmatched}
use ai_receptionist_for_immi.Booking.Found.{
  Bookable, found-FirstBooked, try_slot-free, Mem-FirstBooked,
}

module _ (calendar_id : String) where
  module _ (show : Value → String) where
    abbrev pub Unbooked : Session → Session × List Effect → Type 0
    Unbooked s r =
        (made r.1 ≡ [])
        × (r.0.state.scheduled_at ≡ s.state.scheduled_at)
        × (r.0.state.appointment_id ≡ s.state.appointment_id)

    -- the time of the slot, or that which was confirmed where the slot has none, and the id of the
    -- appointment are stored
    abbrev pub Stored : String → Slot → Appointment → Session × List Effect → Type 0
    Stored iso slot appt r =
        (r.0.state.scheduled_at ≡ elim slot.start_time [ none ↦ iso | some t ↦ t ])
        × (r.0.state.appointment_id ≡ one_of appt.id appt.appointment_id)

    abbrev attempt : World → String → Session → Option (Slot × Appointment) × List Effect
    attempt w iso s =
        book_first calendar_id s.state.call_sid (booking_of calendar_id show (named w s).0)
          w.attempts 0 (candidates iso s.pending)

    named-Unbooked : (w : World) (s : Session) → Unbooked s (named w s)
    named-Unbooked w s = ground arith

    settle-Unbooked : (w : World) (iso : String) (s : Session) → Unbooked s (settle w iso none s)
    unfolding settle
    settle-Unbooked w iso s = ground arith

    made-settle :
        (w : World) (iso : String) (s : Session) (o : Option (Slot × Appointment))
        → made (settle w iso o s).1 ≡ []
    unfolding settle
    made-settle w iso s none = (settle-Unbooked w iso s).0
    made-settle w iso s (some found) = refl

    guard-cases {ℓ} :
        {A : Type ℓ} (c d : Bool) (x y : A)
        → ((if c then x else if d then x else y) ≡ x) ⊎ ((if c then x else if d then x else y) ≡ y)
    guard-cases true d x y = inl refl
    guard-cases false true x y = inl refl
    guard-cases false false x y = inr refl

    with_contact-state :
        (w : World) (s : Session)
        → ((with_contact w s).state ≡ s.state) × ((with_contact w s).pending ≡ s.pending)
    with_contact-state w s = ground arith

    made-named : (w : World) (s : Session) (es : List Effect) → made ((named w s).1 ++ es) ≡ made es
    made-named w s es = ground arith

    contact-named : (w : World) (s : Session) → (named w s).0.ghl_contact_id ≡ s.ghl_contact_id
    contact-named w s = ground arith

    made-confirm :
        (w : World) (iso : String) (s : Session)
        → made (confirm calendar_id show w iso s).1 ≡ made_of s.ghl_contact_id (attempt w iso s).0
    unfolding confirm
    made-confirm w iso s =
        let s1 = named w s in
        let found = attempt w iso s in
        let end = settle w iso found.0 s1.0 in
        made-named w s (found.1 ++ end.1)
        ∙ made-append found.1 end.1
        ∙ ap (λ ms. made found.1 ++ ms) (made-settle w iso s1.0 found.0)
        ∙ append-nil (made found.1)
        ∙ made-book_first calendar_id s.state.call_sid (booking_of calendar_id show s1.0) w.attempts
            0 (candidates iso s.pending)
        ∙ ap (λ c. made_of c found.0) (contact-named w s)

    confirm-Stored :
        (w : World) (iso : String) (s : Session) (slot : Slot) (appt : Appointment)
        → (attempt w iso s).0 ≡ some (slot, appt)
        → Stored iso slot appt (confirm calendar_id show w iso s)
    unfolding confirm settle
    confirm-Stored w iso s slot appt e = (
      ap (λ o. (settle w iso o (named w s).0).0.state.scheduled_at) e,
      ap (λ o. (settle w iso o (named w s).0).0.state.appointment_id) e
          ∙ one_of_lem appt.id appt.appointment_id,
    )

    -- exactly one appointment is made, for the contact and the slot, and it is stored
    abbrev pub BookedFor : String → String → Slot → Appointment → Session × List Effect → Type 0
    BookedFor contact iso slot appt r =
        (made r.1 ≡ made_for contact slot appt ∷ []) × Stored iso slot appt r

    confirm-BookedFor :
        (w : World) (iso : String) (s : Session) (slot : Slot) (appt : Appointment)
        → (attempt w iso s).0 ≡ some (slot, appt)
        → BookedFor s.ghl_contact_id iso slot appt (confirm calendar_id show w iso s)
    confirm-BookedFor w iso s slot appt e =
        (made-confirm w iso s ∙ ap (made_of s.ghl_contact_id) e, confirm-Stored w iso s slot appt e)

    confirm-Unbooked :
        (w : World) (iso : String) (s : Session)
        → (attempt w iso s).0 ≡ none
        → Unbooked s (confirm calendar_id show w iso s)
    unfolding confirm
    confirm-Unbooked w iso s e =
        let s1 = (named w s).0 in
        let u = settle-Unbooked w iso s1 in
        (
          made-confirm w iso s ∙ ap (made_of s.ghl_contact_id) e,
          ap (λ o. (settle w iso o s1).0.state.scheduled_at) e ∙ u.1 ∙ (named-Unbooked w s).1,
          ap (λ o. (settle w iso o s1).0.state.appointment_id) e ∙ u.2 ∙ (named-Unbooked w s).2,
        )

    abbrev guarded : World → String → Session → Session × List Effect
    guarded w iso s =
        if not (nonempty s.ghl_contact_id)
        then (s, [])
        else if is_nil s.pending
        then (s, [])
        else confirm calendar_id show w iso s

    passed :
        (w : World) (iso : String) (s : Session)
        → nonempty s.ghl_contact_id ≡ true
        → is_nil s.pending ≡ false
        → guarded w iso s ≡ confirm calendar_id show w iso s
    passed w iso s c n = rw (c, n) refl

    confirmed :
        (w : World) (iso : String) (s : Session)
        → nonempty s.ghl_contact_id ≡ true
        → is_nil s.pending ≡ false
        → handle_booking_confirmed calendar_id show w iso s ≡ confirm calendar_id show w iso s
    unfolding handle_booking_confirmed
    confirmed w iso s c n =
        let kept : with_contact w s ≡ s = rw c refl in ap (guarded w iso) kept ∙ passed w iso s c n

    -- The time that the caller has confirmed need not be one that was offered: where the contact is known,
    -- the time matches no offered slot and Redis answers, the first one is booked for the contact, the only
    -- appointment that is made, and stored as the caller's, if it has a start and an end, its lock is free
    -- and the CRM accepts it.
    pub unmatched_books_first :
        (w : World) (iso : String) (s : Session) (slot : Slot) (slots : List Slot)
        → (appt : Appointment) → nonempty s.ghl_contact_id ≡ true
        → s.pending ≡ slot ∷ slots
        → any (slot_matches iso) (slot ∷ slots) ≡ false
        → Bookable slot
        → ((w.attempts 0).acquired ≡ true)
          × ((w.attempts 0).ghl_available ≡ true)
          × ((w.attempts 0).reply ≡ created appt)
        → BookedFor s.ghl_contact_id iso slot appt
            (handle_booking_confirmed calendar_id show w iso s)
    unmatched_books_first w iso s slot slots appt c p u k h =
        let b = booking_of calendar_id show (named w s).0 in
        let order : candidates iso s.pending ≡ slot ∷ slots =
          ap (candidates iso) p ∙ candidates_unmatched iso (slot ∷ slots) u in
        let t = try_slot-free calendar_id s.state.call_sid b slot (w.attempts 0) appt k h in
        let e : (attempt w iso s).0 ≡ some (slot, appt) =
          ap (λ l. (book_first calendar_id s.state.call_sid b w.attempts 0 l).0) order
          ∙ ap (λ r. r.0)
              (book_booked calendar_id s.state.call_sid b w.attempts 0 slot slots appt t) in
        subst (BookedFor s.ghl_contact_id iso slot appt) (sym (confirmed w iso s c (ap is_nil p)))
          (confirm-BookedFor w iso s slot appt e)

    -- the contact of the appointment: the one of the call, else the one that is synced first
    abbrev pub contact_for : World → Session → String
    contact_for w s = if nonempty s.ghl_contact_id then s.ghl_contact_id else w.synced_contact

    abbrev pub Outcome : String → String → CallState → List Slot → Session × List Effect → Type 0
    Outcome contact iso state pending r =
        ((made r.1 ≡ [])
          × (r.0.state.scheduled_at ≡ state.scheduled_at)
          × (r.0.state.appointment_id ≡ state.appointment_id))
        ⊎ ((slot : Slot) × (appt : Appointment) × Mem slot pending
            × BookedFor contact iso slot appt r)

    contact-with_contact :
        (w : World) (s : Session) → (with_contact w s).ghl_contact_id ≡ contact_for w s
    contact-with_contact w s = ground arith

    confirm-Outcome :
        (w : World) (iso : String) (s : Session)
        → Outcome s.ghl_contact_id iso s.state s.pending (confirm calendar_id show w iso s)
    confirm-Outcome w iso s = elim (Option-cases (attempt w iso s).0) [
      | inl e ↦ inl (confirm-Unbooked w iso s e)
      | inr ((slot, appt), e) ↦ inr (
        slot,
        appt,
        (Perm.mem_iff (candidates-perm iso s.pending)).0 (
            Mem-FirstBooked calendar_id w.attempts 0 (candidates iso s.pending) slot appt (
              found-FirstBooked calendar_id s.state.call_sid
                (booking_of calendar_id show (named w s).0) w.attempts 0 (candidates iso s.pending)
                slot appt e)),
        confirm-BookedFor w iso s slot appt e,
      )
    ]

    -- Where Redis answers, a confirmation either makes no appointment and leaves the caller's appointment
    -- as it was, or makes exactly one, for the contact of the call and the start and end of one of the slots
    -- that were offered, and stores the time of that slot and the id that the CRM gave to this appointment.
    pub confirmation_outcome :
        (w : World) (iso : String) (s : Session)
        → Outcome
            (contact_for w s)
            iso
            s.state
            s.pending
            (handle_booking_confirmed calendar_id show w iso s)
    unfolding handle_booking_confirmed
    confirmation_outcome w iso s =
        let s0 = with_contact w s in
        let e = with_contact-state w s in
        let done = confirm calendar_id show w iso s0 in
        elim (guard-cases (not (nonempty s0.ghl_contact_id)) (is_nil s0.pending) (s0, []) done) [
          | inl g ↦ inl (
            ap (λ r. made r.1) g,
            ap (λ r. r.0.state.scheduled_at) g ∙ ap (λ t. t.scheduled_at) e.0,
            ap (λ r. r.0.state.appointment_id) g ∙ ap (λ t. t.appointment_id) e.0,
          )
          | inr g ↦
              subst (λ r. Outcome (contact_for w s) iso s.state s.pending r) (sym g)
                (subst (λ c. Outcome c iso s.state s.pending done) (contact-with_contact w s)
                  (subst (λ t. Outcome s0.ghl_contact_id iso t s.pending done) e.0
                    (subst (λ p. Outcome s0.ghl_contact_id iso s0.state p done) e.1
                      (confirm-Outcome w iso s0))))
        ]
