-- ===== src/CallLog.antt =====
-- What is recorded of a call: the turns and the summary of app/logging_analytics/call_logger.py, and the
-- intake of app/logging_analytics/structured_data.py. The lists of Redis are passed along; the replies of
-- the language models are arguments.
pub mod Turns
pub mod Merge
mod Tests
use ai_receptionist_for_immi.Prelude.{
  ℕ, zero, suc, String, Bool, false, not, ◌&&◌, Option, none, some, List, [], ◌∷◌, ◌++◌,
  if◌then◌else◌, is_some, ℤ,
}
use ai_receptionist_for_immi.Dict.{Dict, get, put, get_or}
use ai_receptionist_for_immi.Value.{truthy, Value, null, boolean, integer, text, array, object}
use ai_receptionist_for_immi.Worker.{field_of, is_null, cut_text}

-- the list `db_sync_queue`, and the buffer `msg_buffer:{call_sid}` of one call
pub record Lists : Type 0 where
  pub queue : List String
  pub buffer : List String

abbrev pub value_of : Option Value → Value
value_of none = null
value_of (some v) = v

-- the payload of a turn; `said` is cut as the worker cuts it
unfoldable pub turn_payload :
    String → ℤ → String → String → Option Value → String → String → Value → Dict Value
unfolding cut_text
turn_payload call_sid turn_index role said latency_ms phase intent ts =
    ("type", text "conversation_message")
    ∷ ("call_sid", text call_sid)
    ∷ ("turn_index", integer turn_index)
    ∷ ("role", text role)
    ∷ ("text", text (cut_text 4000 said))
    ∷ ("latency_ms", value_of latency_ms)
    ∷ ("phase", text phase)
    ∷ ("intent", text intent)
    ∷ ("ts", ts)
    ∷ []

-- `_buffer_turn`: an exception is logged
abbrev pub buffer_turn : Bool → String → Lists → Lists
buffer_turn ok payload lists =
    if ok then record lists { buffer = lists.buffer ++ payload ∷ [] } else lists

-- `log_turn`: the queue, or the buffer where the queue cannot be reached
unfoldable pub log_turn : Bool → Bool → String → Lists → Lists
log_turn queue_ok buffer_ok payload lists =
    if queue_ok
    then record lists { queue = lists.queue ++ payload ∷ [] }
    else buffer_turn buffer_ok payload lists

-- The loop of `flush_turn_buffer` with its count: so many turns are moved before Redis raises, either at
-- the push of the next one, which is popped already, or at its pop.
unfoldable pub flush_from : ℕ → Bool → List String → List String → ℕ × Lists
flush_from moves at_push queue [] = (0, record { queue = queue; buffer = [] })
flush_from zero at_push queue (item ∷ items) =
    (0, record { queue = queue; buffer = if at_push then items else item ∷ items })
flush_from (suc moves) at_push queue (item ∷ items) =
    let rest = flush_from moves at_push (queue ++ item ∷ []) items in (suc rest.0, rest.1)

unfoldable pub flush_turn_buffer : ℕ → Bool → Lists → ℕ × Lists
unfolding flush_from
flush_turn_buffer moves at_push lists = flush_from moves at_push lists.queue lists.buffer

-- `_write_call_summary_row`; the summary may be missing
unfoldable pub summary_payload :
    String → Option String → Value → Dict Value → ℤ → Value → Dict Value
unfolding get_or get
summary_payload call_sid summary structured sentiment duration_sec ts =
    ("type", text "call_summary")
    ∷ ("call_sid", text call_sid)
    ∷ ("summary", elim summary [ none ↦ text "" | some t ↦ text t ])
    ∷ ("structured", structured)
    ∷ ("sentiment_score", field_of sentiment "score")
    ∷ ("sentiment_label", get_or sentiment "label" (text ""))
    ∷ ("frustration_detected", get_or sentiment "frustration_detected" (boolean false))
    ∷ ("duration_sec", integer duration_sec)
    ∷ ("ts", ts)
    ∷ []

abbrev pub prefer_base : List String
prefer_base =
    "full_name" ∷ "phone_number" ∷ "email" ∷ "appointment_booked" ∷ "appointment_datetime" ∷ []

-- the fields of which a confirmed value wins
unfoldable pub prefer : List String → Dict Value → Dict Value → Dict Value
unfolding get_or get put truthy
prefer [] base merged = merged
prefer (k ∷ ks) base merged =
    prefer ks base (if truthy (field_of base k) then put merged k (field_of base k) else merged)

-- the fields that are not there yet
unfoldable pub fill_gaps : Dict Value → Dict Value → Dict Value
unfolding get put truthy
fill_gaps [] merged = merged
fill_gaps ((k, v) ∷ base) merged =
    fill_gaps base (if not (is_some (get merged k)) && truthy v then put merged k v else merged)

unfoldable pub merge_intake : Dict Value → Dict Value → Dict Value
unfolding prefer fill_gaps
merge_intake base extracted = fill_gaps base (prefer prefer_base base extracted)

-- `none` is an exception of the model or of its reply, `some none` a reply without the fields
unfoldable pub extract_structured_intake : Option (Option (Dict Value)) → Dict Value → Dict Value
unfolding merge_intake
extract_structured_intake none existing_intake = existing_intake
extract_structured_intake (some none) existing_intake = existing_intake
extract_structured_intake (some (some extracted)) existing_intake =
    merge_intake existing_intake extracted

abbrev pub ghl_fields : List (String × String)
ghl_fields =
    ("current_immigration_status", "immigration_status")
    ∷ ("case_type", "case_type")
    ∷ ("country_of_origin", "country_of_origin")
    ∷ ("date_of_birth", "date_of_birth")
    ∷ ("time_in_us_years", "time_in_us")
    ∷ ("has_upcoming_hearing", "has_upcoming_hearing")
    ∷ ("hearing_date", "hearing_date")
    ∷ ("has_prior_attorney", "has_prior_attorney")
    ∷ ("has_criminal_history", "has_criminal_history")
    ∷ ("immigration_emergency", "immigration_emergency")
    ∷ ("case_description", "case_description")
    ∷ ("consultation_type", "preferred_consultation_type")
    ∷ []

-- Booleans as they are shown; `str` is Python's
abbrev pub shown : (Value → String) → Value → String
shown str (boolean b) = if b then "Yes" else "No"
shown str null = str null
shown str (integer n) = str (integer n)
shown str (text t) = str (text t)
shown str (array xs) = str (array xs)
shown str (object fs) = str (object fs)

unfoldable pub to_ghl_custom_fields :
    (Value → String) → List (String × String) → Dict Value → List (String × String)
unfolding get_or get
to_ghl_custom_fields str [] intake = []
to_ghl_custom_fields str ((intake_key, ghl_key) ∷ fields) intake =
    let rest = to_ghl_custom_fields str fields intake in
    if is_null (field_of intake intake_key)
    then rest
    else (ghl_key, shown str (field_of intake intake_key)) ∷ rest
