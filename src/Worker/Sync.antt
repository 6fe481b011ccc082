-- ===== src/Worker/Sync.antt =====
-- `_handle_db_sync` of app/logging_analytics/db_worker.py: the rows of a call in `conversations` and
-- `immigration_intakes`.
use ai_receptionist_for_immi.Prelude.{
  String, Bool, true, false, not, ◌||◌, Option, none, some, List, [], ◌∷◌, ◌++◌, if◌then◌else◌,
  ◌>>=◌, nonempty, is_nil, leb_ℤ, pos, negsuc,
}
use ai_receptionist_for_immi.Dict.{Dict, get, get_or}
use ai_receptionist_for_immi.Value.{truthy, Value, null, boolean, integer, text, array, object}
use ai_receptionist_for_immi.Context.{join}
use ai_receptionist_for_immi.Worker.Readings.{phone_of, duration_of, call_outcome_of}
use ai_receptionist_for_immi.Worker.{
  failed, done, or_value, field_of, only_if, is_null, drop_nulls, fields_of, bool_str, safe_date,
  safe_email, Services, Handled, Effect, upsert,
}

-- `payload.get("intake", {})`, where only a dict can be read from
unfoldable pub intake_of : Option Value → Option (Dict Value)
unfolding fields_of
intake_of none = some []
intake_of (some (object fs)) = some (fields_of fs)
intake_of (some null) = none
intake_of (some (boolean b)) = none
intake_of (some (integer n)) = none
intake_of (some (text t)) = none
intake_of (some (array xs)) = none

-- `value >= 0`, which numbers have
abbrev pub at_least_zero : Value → Option Bool
at_least_zero (integer n) = some (leb_ℤ (pos 0) n)
at_least_zero (boolean b) = some true
at_least_zero null = none
at_least_zero (text t) = none
at_least_zero (array xs) = none
at_least_zero (object fs) = none

-- a part of `filter(None, parts)` that is joined: only texts can be
abbrev pub part_of : Value → Option (List String)
part_of (text t) = some (if nonempty t then t ∷ [] else [])
part_of null = some []
part_of (boolean b) = if b then none else some []
part_of (integer n) = if truthy (integer n) then none else some []
part_of (array xs) = if truthy (array xs) then none else some []
part_of (object fs) = if truthy (object fs) then none else some []

abbrev pub text_or_null : String → Value
text_or_null t = if nonempty t then text t else null

-- the first that is not None
abbrev pub first_given : Value → Value → Value
first_given a b = if is_null a then b else a

module _ (env : Services) where
  -- `" ".join(filter(None, [first, last])).strip() or None`
  unfoldable pub name_of_parts : Dict Value → Option Value
  unfolding get_or get join truthy
  name_of_parts intake = do
    firsts ← part_of (field_of intake "first_name")
    lasts ← part_of (field_of intake "last_name")
    some (text_or_null (env.strip (join " " (firsts ++ lasts))))

  -- the scores, of a payload whose lead score is not negative
  unfoldable pub score_fields : Dict Value → Option (Dict Value)
  unfolding get_or get
  score_fields payload = do
    real ← at_least_zero (get_or payload "lead_score" (integer (negsuc 0)))
    some (
        only_if real "lead_score" (field_of payload "lead_score")
        ++ only_if real "urgency_score" (get_or payload "urgency_score" (integer (pos 0)))
        ++ only_if real "urgency_label" (get_or payload "urgency_label" (text "low")))

  unfoldable pub name_fields : Dict Value → Option (Dict Value)
  unfolding get_or get truthy name_of_parts
  name_fields intake =
      if truthy (field_of intake "full_name")
      then some (("caller_name", field_of intake "full_name") ∷ [])
      else if truthy (field_of intake "first_name") || truthy (field_of intake "last_name")
      then elim (name_of_parts intake) [
        | none ↦ none
        | some name ↦ some (("caller_name", name) ∷ [])
      ]
      else some []

  unfoldable pub duration_fields : Value → Option (Dict Value)
  duration_fields duration = if is_null duration then some [] else elim (env.iso_before duration) [
    | none ↦ none
    | some started ↦ some (("duration_seconds", duration) ∷ ("started_at", text started) ∷ [])
  ]

  -- `conv_data`, of its parts
  unfoldable pub row_of :
      Value → Dict Value → Value → Value → Dict Value → Dict Value → Dict Value → Dict Value
  unfolding get_or get truthy
  row_of call_sid payload phone outcome scores name duration =
      ("call_sid", call_sid)
      ∷ ("language_detected", get_or payload "language" (text "en"))
      ∷ ("updated_at", text env.now)
      ∷ ("channel", text "phone")
      ∷ (scores
          ++ (only_if (truthy (field_of payload "scheduled_at")) "scheduled_at"
                (field_of payload "scheduled_at")
              ++ (only_if (truthy (field_of payload "appointment_id")) "appointment_id"
                    (field_of payload "appointment_id")
                  ++ (only_if (truthy (field_of payload "transferred_at")) "transferred_at"
                        (field_of payload "transferred_at")
                      ++ (only_if (truthy phone) "caller_phone" phone
                          ++ (name
                              ++ (only_if (truthy outcome) "call_outcome" outcome ++ duration)))))))

  -- `none` where it cannot be put together
  unfoldable pub conversation_row : Value → Dict Value → Dict Value → Option (Dict Value)
  unfolding phone_of duration_of call_outcome_of score_fields name_fields duration_fields row_of
  conversation_row call_sid payload intake = do
    scores ← score_fields payload
    name ← name_fields intake
    duration ← duration_fields (duration_of env call_sid payload)
    some (
        row_of call_sid payload (phone_of env call_sid intake)
          (call_outcome_of env call_sid payload) scores name duration)

  -- `intake_row`, without its fields that are None
  unfoldable pub intake_row : Value → Dict Value → Dict Value → Option (Dict Value)
  unfolding get_or get truthy phone_of name_of_parts drop_nulls bool_str safe_date safe_email
  intake_row call_sid payload intake = do
    parts ← if truthy (field_of intake "full_name") then some null else name_of_parts intake
    some (
        drop_nulls (
          ("call_sid", call_sid)
          ∷ ("caller_phone", or_value (phone_of env call_sid intake) null)
          ∷ ("full_name", or_value (field_of intake "full_name") parts)
          ∷ ("country_of_birth", field_of intake "country_of_birth")
          ∷ ("nationality", field_of intake "nationality")
          ∷ ("current_immigration_status", field_of intake "current_immigration_status")
          ∷ ("case_type", field_of intake "case_type")
          ∷ ("entry_date_us", safe_date env (field_of intake "entry_date_us"))
          ∷ ("prior_applications", bool_str env (field_of intake "prior_applications"))
          ∷ ("has_attorney", bool_str env (field_of intake "has_attorney"))
          ∷ ("urgency_reason", field_of intake "urgency_reason")
          ∷ (
            "preferred_language",
            get_or intake "preferred_language" (get_or payload "language" (text "en")),
          )
          ∷ ("preferred_contact_time", field_of intake "preferred_contact_time")
          ∷ ("email", safe_email env (field_of intake "email"))
          ∷ ("prior_deportation", bool_str env (field_of intake "prior_deportation"))
          ∷ (
            "criminal_history",
            bool_str env (
                first_given (field_of intake "criminal_history")
                  (field_of intake "has_criminal_record")),
          )
          ∷ ("employer_sponsor", bool_str env (field_of intake "employer_sponsor"))
          ∷ (
            "family_in_us",
            bool_str env (
                first_given (field_of intake "family_in_us")
                  (field_of intake "us_family_connections")),
          )
          ∷ ("created_at", text env.now)
          ∷ []))

  -- the intake, behind the row of the call
  abbrev pub write_intake : Effect → Bool → Option (Dict Value) → Handled
  write_intake before false row = done (before ∷ [])
  write_intake before true none = record { requests = before ∷ []; raised = true }
  write_intake before true (some row) = record {
    requests = before ∷ upsert "immigration_intakes" row ∷ [];
    raised = not (env.accepts (upsert "immigration_intakes" row));
  }

  -- the row of the call; an exception ends the handler before the intake
  abbrev pub write_call : Option (Dict Value) → Bool → Option (Dict Value) → Handled
  write_call none filled row = failed
  write_call (some conv_data) filled row =
      if env.accepts (upsert "conversations" conv_data)
      then write_intake (upsert "conversations" conv_data) filled row
      else record { requests = upsert "conversations" conv_data ∷ []; raised = true }

  unfoldable pub handle_db_sync : Dict Value → Handled
  unfolding get_or get intake_of conversation_row intake_row
  handle_db_sync payload = elim (intake_of (get payload "intake")) [
    | none ↦ failed
    | some intake ↦
        let call_sid = get_or payload "call_sid" (text "") in
        write_call (conversation_row call_sid payload intake) (not (is_nil intake))
          (intake_row call_sid payload intake)
  ]
