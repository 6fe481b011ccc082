-- ===== src/Calendar.antt =====
-- app/scheduling/calendar_service.py: the list of open slots, how it is read aloud, and the booking
-- of one slot in the CRM and in the attorneys' calendar, with `invalidate_date` of
-- app/scheduling/slot_cache.py. What the services answer is an argument; what is sent to them is a
-- list of effects.
pub mod Openings
mod Tests
use mathlib.Core.Option
use ai_receptionist_for_immi.Prelude.{
  ℕ, zero, suc, String, Bool, true, false, not, ◌&&◌, ◌||◌, Option, none, some, List, [], ◌∷◌, ◌++◌,
  map, ◌==◌, if◌then◌else◌, ◌⊕◌, nonempty, is_nil, take,
}

-- A slot that `get_available_slots` returned: a key that is missing is `none`, and "display" is set.
pub record Slot : Type 0 where
  pub start_time : Option String
  pub start_snake : Option String
  pub end_time : Option String
  pub end_snake : Option String
  pub display : String

abbrev pub or_empty : Option String → String
or_empty none = ""
or_empty (some t) = t

-- `slot.get(a) or slot.get(b, "")`
abbrev pub first_text : Option String → Option String → String
first_text a b = if nonempty (or_empty a) then or_empty a else or_empty b

abbrev pub prefix : ℕ → String → String
prefix zero s = ""
prefix (suc n) String.[] = ""
prefix (suc n) (String.◌∷◌ c s) = String.◌∷◌ c (prefix n s)

-- The appointment that the CRM returns: its keys "id" and "appointment_id".
pub record Appointment : Type 0 where
  pub id : Option String
  pub appointment_id : Option String

pub data Reply : Type 0 where
  raised refused : Reply
  created : Appointment → Reply

-- `create_appointment` is recorded with the reply to it.
pub data Effect : Type 0 where
  -- contact, start, end, title, notes
  create_appointment : String → String → String → String → String → Reply → Effect
  -- summary, start, end, description, attendee
  create_calendar_event : String → String → String → String → String → Effect
  invalidate_date : String → Effect
  -- `redis.set(key, sid, nx=True, ex=…)`, with the answer
  lock_slot : (key sid : String) → (ex : ℕ) → Bool → Effect
  -- `redis.delete(key)`, so many seconds behind the `set`
  release_slot : (key : String) → (seconds : ℕ) → Effect
  save_state : Effect
  speak : String → Effect

-- What one attempt to book meets: whether the lock was free, whether the CRM can be called, its reply,
-- and how many whole seconds the calls of the CRM and the calendar take.
pub record Answers : Type 0 where
  pub acquired : Bool
  pub ghl_available : Bool
  pub reply : Reply
  pub seconds : ℕ

-- What is said of the caller.
pub record Booking : Type 0 where
  pub contact_id : String
  pub caller_name : String
  pub caller_email : String
  pub case_type : String
  pub language : String

abbrev pub lang_label : String → String
lang_label language = if language == "es" then "Spanish" else "English"

abbrev pub title_of : Booking → String
title_of b =
    let title =
      "Immigration Consultation ("
      ⊕ lang_label b.language
      ⊕ ")"
      ⊕ (if nonempty b.case_type then " — " ⊕ b.case_type else "") in
    if nonempty b.caller_name then b.caller_name ⊕ " — " ⊕ title else title

abbrev pub notes_of : Booking → String
notes_of b =
    "Booked via Aria. Language: "
    ⊕ lang_label b.language
    ⊕ "."
    ⊕ (if nonempty b.case_type then " Case type: " ⊕ b.case_type ⊕ "." else "")

abbrev pub description_of : Booking → String
description_of b =
    notes_of b ⊕ (if nonempty b.caller_email then "\nCallerEmail: " ⊕ b.caller_email else "")

-- the calls that follow a reply of the CRM; `raised` leaves by the exception
after_reply : Booking → String → String → Reply → List Effect
after_reply b start stop raised = []
after_reply b start stop refused = []
after_reply b start stop (created appt) =
    create_calendar_event (title_of b) start stop (description_of b) b.caller_email
    ∷ invalidate_date (prefix 10 start)
    ∷ []

-- The result, with the exception of `create_appointment` as `raised`, and the effects.
unfoldable pub book_appointment : Booking → Slot → Answers → Reply × List Effect
unfolding after_reply
book_appointment b slot answers =
    let start_iso = first_text slot.start_time slot.start_snake in
    let end_iso = first_text slot.end_time slot.end_snake in
    if not (nonempty start_iso) || not (nonempty end_iso)
    then (refused, [])
    else if not answers.ghl_available
    then (refused, [])
    else (
      answers.reply,
      create_appointment b.contact_id start_iso end_iso (title_of b) (notes_of b) answers.reply
          ∷ after_reply b start_iso end_iso answers.reply,
    )

-- One day of `get_available_slots`: what the cache holds for it, what the CRM returns, and the slots
-- that are written to the cache. `formatted` is `_format_slot_display`.
module _ (formatted : Slot → String) where
  abbrev pub annotate : Slot → Slot
  annotate slot = record slot { display = formatted slot }

  abbrev pub fill_display : Slot → Slot
  fill_display slot = if nonempty slot.display then slot else annotate slot

  unfoldable pub day_slots :
      (has_redis force_fresh : Bool) → List Slot → List Slot → List Slot × Option (List Slot)
  day_slots has_redis force_fresh cache fetched =
      let cached = if has_redis && not force_fresh then cache else [] in
      if not (is_nil cached) then (map fill_display cached, none) else (
        map annotate fetched,
        if not (is_nil fetched) && has_redis then some (map annotate fetched) else none,
      )

  unfoldable pub collect :
      (has_redis force_fresh : Bool) → (ℕ → List Slot) → (ℕ → List Slot) → List ℕ → List Slot
  unfolding day_slots
  collect has_redis force_fresh cache ghl [] = []
  collect has_redis force_fresh cache ghl (day ∷ days) =
      (day_slots has_redis force_fresh (cache day) (ghl day)).0
      ++ collect has_redis force_fresh cache ghl days

  -- the days are those of `get_next_business_days`
  unfoldable pub get_available_slots :
      (available has_redis force_fresh : Bool)
      → (ℕ → List Slot)
      → (ℕ → List Slot)
      → List ℕ
      → List Slot
  unfolding collect
  get_available_slots available has_redis force_fresh cache ghl days =
      if not available then [] else collect has_redis force_fresh cache ghl days

  -- the texts of the slots that have a display or a start
  unfoldable pub displays : List Slot → List String
  displays [] = []
  displays (s ∷ slots) =
      let rest = displays slots in
      if nonempty s.display
      then s.display ∷ rest
      else if nonempty (or_empty s.start_time)
      then formatted s ∷ rest
      else rest

  -- `", ".join(ds[:-1]) + last_sep + ds[-1]` of two texts and more
  abbrev pub joined : String → String → List String → String
  joined last_sep d [] = d
  joined last_sep d (e ∷ []) = d ⊕ last_sep ⊕ e
  joined last_sep d (e ∷ f ∷ ds) = d ⊕ ", " ⊕ joined last_sep e (f ∷ ds)

  abbrev pub speech : Bool → List String → String
  speech spanish [] = ""
  speech true (d ∷ []) = "Tengo disponible el " ⊕ d ⊕ "."
  speech false (d ∷ []) = "I have an opening on " ⊕ d ⊕ "."
  speech true (d ∷ e ∷ ds) =
      "Tengo disponibilidad el " ⊕ joined " o " d (e ∷ ds) ⊕ ". ¿Cuál le funciona mejor?"
  speech false (d ∷ e ∷ ds) =
      "I have openings on " ⊕ joined ", or " d (e ∷ ds) ⊕ ". Which works best for you?"

  unfoldable pub format_slots_for_speech : List Slot → String → ℕ → String
  unfolding displays
  format_slots_for_speech slots language max_slots =
      let spanish = language == "es" in
      if is_nil slots
      then (if spanish
          then "Actualmente no tenemos horarios disponibles esta semana. Puedo programarle para la siguiente semana."
          else "We don't have any openings this week. I can schedule you for next week.")
      else speech spanish (displays (take max_slots slots))
