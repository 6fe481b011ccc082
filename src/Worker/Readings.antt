-- ===== src/Worker/Readings.antt =====
-- `_handle_db_sync` of app/logging_analytics/db_worker.py: the phone number, the duration and the
-- outcome of a call, from its payload and from the hash of the call in Redis.
use ai_receptionist_for_immi.Prelude.{
  String, Option, none, some, [], ◌∷◌, ◌==◌, if◌then◌else◌, nonempty, is_in, leb_ℤ, pos,
}
use ai_receptionist_for_immi.Dict.{Dict, get, get_or}
use ai_receptionist_for_immi.Value.{truthy, Value, null, integer, text}
use ai_receptionist_for_immi.Worker.{or_value, field_of, Services}

module _ (env : Services) where
  unfoldable pub phone_of : Value → Dict Value → Value
  unfolding get_or get truthy
  phone_of call_sid intake =
      let phone =
        or_value (get_or intake "phone" (text "")) (get_or intake "caller_phone" (text "")) in
      if truthy phone
      then phone
      else elim (env.call_hash call_sid) [ none ↦ phone | some hash ↦ text (get_or hash "from" "") ]

  -- a duration in Redis, where it is one
  abbrev pub duration_in : Value → Option String → Value
  duration_in said none = said
  duration_in said (some t) =
      if nonempty t then elim (env.read_int t) [ none ↦ said | some n ↦ integer n ] else said

  unfoldable pub duration_of : Value → Dict Value → Value
  unfolding get_or get truthy
  duration_of call_sid payload =
      let said = or_value (field_of payload "duration_seconds") null in
      elim (env.call_hash call_sid) [
        | none ↦ said
        | some hash ↦ duration_in said (get hash "duration_seconds")
      ]

  -- a completed call of more than two turns, or of fewer
  abbrev pub turns_outcome : Option String → Value
  turns_outcome none = text "dropped"
  turns_outcome (some t) =
      if nonempty t
      then elim (env.read_int t) [
        | none ↦ null
        | some n ↦ text (if leb_ℤ (pos 3) n then "info_only" else "dropped")
      ]
      else text "dropped"

  abbrev pub status_outcome : Option String → Option String → Value
  status_outcome none turns = null
  status_outcome (some status) turns =
      if is_in status ("no-answer" ∷ "busy" ∷ [])
      then text "callback_requested"
      else if status == "completed"
      then turns_outcome turns
      else null

  unfoldable pub call_outcome_of : Value → Dict Value → Value
  unfolding get_or get truthy
  call_outcome_of call_sid payload =
      if truthy (field_of payload "call_outcome")
      then field_of payload "call_outcome"
      else if truthy (field_of payload "transferred_at")
      then text "transferred_to_staff"
      else if truthy (field_of payload "scheduled_at")
      then text "booking_made"
      else if truthy call_sid
      then elim (env.call_hash call_sid) [
        | none ↦ null
        | some hash ↦ status_outcome (get hash "call_status") (get hash "turn_count")
      ]
      else null
