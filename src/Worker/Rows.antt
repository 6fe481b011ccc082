-- ===== src/Worker/Rows.antt =====
-- The handlers of app/logging_analytics/db_worker.py that write one row: `_handle_lead_score`,
-- `_handle_analytics_event`, `_handle_urgency_alert`, `_handle_conversation_message`,
-- `_handle_call_summary`, `_handle_voicemail_log`, `_handle_call_cost` and `_handle_audit_log`.
use ai_receptionist_for_immi.Prelude.{
  String, true, false, Option, none, some, List, [], ◌∷◌, if◌then◌else◌, ◌>>=◌, is_in, pos,
}
use ai_receptionist_for_immi.Dict.{Dict, get, get_or}
use ai_receptionist_for_immi.Value.{
  truthy, Value, null, boolean, integer, text, array, object, nil, Fields, end, field,
}
use ai_receptionist_for_immi.Worker.{
  failed, done, strict, lenient, or_value, field_of, drop_nulls, fields_of, cut, stamp_of, Services,
  Handled, Effect, upsert, insert, update, fill_name,
}

-- `{k: v for k, v in payload.items() if k not in keys}`
abbrev pub without : List String → Dict Value → Dict Value
without ks [] = []
without ks ((k, v) ∷ d) = if is_in k ks then without ks d else (k, v) ∷ without ks d

-- a dict as a JSON object
abbrev pub object_of : Dict Value → Fields
object_of [] = end
object_of ((k, v) ∷ d) = field k v (object_of d)

module _ (env : Services) where
  unfoldable pub handle_lead_score : Dict Value → Handled
  unfolding get_or get
  handle_lead_score payload = strict env (
      upsert "lead_scores" (
        ("call_sid", get_or payload "call_sid" (text ""))
        ∷ ("total_score", get_or payload "total" (integer (pos 0)))
        ∷ ("case_value_score", get_or payload "case_value" (integer (pos 0)))
        ∷ ("urgency_score", get_or payload "urgency" (integer (pos 0)))
        ∷ ("booking_readiness_score", get_or payload "booking_readiness" (integer (pos 0)))
        ∷ ("data_completeness_score", get_or payload "data_completeness" (integer (pos 0)))
        ∷ ("top_signals", get_or payload "top_signals" (array nil))
        ∷ ("recommended_follow_up", get_or payload "recommended_follow_up" (text "next_day"))
        ∷ (
          "recommended_attorney_tier",
          get_or payload "recommended_attorney_tier" (text "associate"),
        )
        ∷ ("notes", get_or payload "notes" (text ""))
        ∷ ("created_at", text env.now)
        ∷ []))

  unfoldable pub handle_analytics_event : Dict Value → Handled
  unfolding get_or get truthy
  handle_analytics_event payload = lenient (
      insert "call_logs" (
        ("call_sid", get_or payload "call_sid" (text ""))
        ∷ ("event_type", get_or payload "event" (text "unknown"))
        ∷ ("phase", field_of payload "phase")
        ∷ ("latency_ms", field_of payload "latency_ms")
        ∷ (
          "metadata",
          object (
              object_of
                (without ("call_sid" ∷ "event" ∷ "phase" ∷ "latency_ms" ∷ "ts" ∷ []) payload)),
        )
        ∷ ("created_at", or_value (field_of payload "ts") (text env.now))
        ∷ []))

  unfoldable pub handle_urgency_alert : Dict Value → Handled
  unfolding get_or get
  handle_urgency_alert payload = strict env (
      insert "urgency_alerts" (
        ("call_sid", get_or payload "call_sid" (text ""))
        ∷ ("urgency_score", get_or payload "urgency_score" (integer (pos 0)))
        ∷ ("urgency_label", get_or payload "urgency_label" (text "medium"))
        ∷ ("factors", get_or payload "factors" (array nil))
        ∷ ("recommended_action", get_or payload "recommended_action" (text "expedite_consultation"))
        ∷ ("alerted_at", text env.now)
        ∷ ("resolved", boolean false)
        ∷ []))

  unfoldable pub message_row : Dict Value → Option (Dict Value)
  unfolding get_or get cut stamp_of
  message_row payload = do
    content ← cut 4000 (get_or payload "text" (text ""))
    created_at ← stamp_of env (field_of payload "ts")
    some (
        ("call_sid", get_or payload "call_sid" (text ""))
        ∷ ("turn_index", get_or payload "turn_index" (integer (pos 0)))
        ∷ ("role", get_or payload "role" (text "user"))
        ∷ ("content", content)
        ∷ ("latency_ms", field_of payload "latency_ms")
        ∷ ("phase", get_or payload "phase" (text ""))
        ∷ ("intent", get_or payload "intent" (text ""))
        ∷ ("created_at", created_at)
        ∷ [])

  unfoldable pub handle_conversation_message : Dict Value → Handled
  unfolding message_row
  handle_conversation_message payload = elim (message_row payload) [
    | none ↦ failed
    | some row ↦ strict env (insert "conversation_messages" row)
  ]

  -- the fields that are not None
  unfoldable pub summary_update : Dict Value → Dict Value
  unfolding get_or get drop_nulls
  summary_update payload = drop_nulls (
      ("ai_summary", get_or payload "summary" (text ""))
      ∷ ("sentiment_score", field_of payload "sentiment_score")
      ∷ ("sentiment_label", get_or payload "sentiment_label" (text ""))
      ∷ ("frustration_detected", get_or payload "frustration_detected" (boolean false))
      ∷ ("duration_seconds", field_of payload "duration_sec")
      ∷ ("updated_at", text env.now)
      ∷ [])

  -- `structured.get("full_name")` of a dict, else None
  abbrev pub ai_name_of : Value → Value
  ai_name_of (object fs) = field_of (fields_of fs) "full_name"
  ai_name_of null = null
  ai_name_of (boolean b) = null
  ai_name_of (integer n) = null
  ai_name_of (text t) = null
  ai_name_of (array xs) = null

  abbrev pub name_requests : Value → Value → List Effect
  name_requests call_sid name =
      if truthy name
      then fill_name (("caller_name", name) ∷ ("updated_at", text env.now) ∷ []) call_sid ∷ []
      else []

  unfoldable pub handle_call_summary : Dict Value → Handled
  unfolding get_or get truthy fields_of summary_update
  handle_call_summary payload =
      let call_sid = get_or payload "call_sid" (text "") in
      let request = update "call_logs" (summary_update payload) call_sid in
      if env.accepts request
      then done
          (request ∷ name_requests call_sid (ai_name_of (get_or payload "structured" (object end))))
      else record { requests = request ∷ []; raised = true }

  unfoldable pub handle_voicemail_log : Dict Value → Handled
  unfolding get_or get cut
  handle_voicemail_log payload = elim (cut 4000 (get_or payload "transcript" (text ""))) [
    | none ↦ failed
    | some transcription ↦ lenient (
        insert "voicemails" (
          ("call_sid", get_or payload "call_sid" (text ""))
          ∷ ("recording_sid", get_or payload "recording_sid" (text ""))
          ∷ ("caller_phone", get_or payload "caller_number" (text ""))
          ∷ ("transcription", transcription)
          ∷ ("summary", get_or payload "summary" (text ""))
          ∷ ("ghl_task_id", get_or payload "ghl_task_id" (text ""))
          ∷ ("is_emergency", get_or payload "is_emergency" (boolean false))
          ∷ ("status", get_or payload "status" (text "processed"))
          ∷ ("created_at", text env.now)
          ∷ []))
  ]

  unfoldable pub handle_call_cost : Dict Value → Handled
  unfolding get_or get
  handle_call_cost payload = lenient (
      update "call_logs"
        (("cost_usd", get_or payload "cost_usd" (integer (pos 0)))
          ∷ ("updated_at", text env.now)
          ∷ [])
        (get_or payload "call_sid" (text "")))

  unfoldable pub audit_row : Dict Value → Option (Dict Value)
  unfolding get_or get cut stamp_of
  audit_row payload = do
    user_agent ← cut 200 (get_or payload "user_agent" (text ""))
    created_at ← stamp_of env (field_of payload "ts")
    some (
        ("method", get_or payload "method" (text ""))
        ∷ ("path", get_or payload "path" (text ""))
        ∷ ("query", get_or payload "query" (text ""))
        ∷ ("status_code", get_or payload "status_code" (integer (pos 0)))
        ∷ ("ip", get_or payload "ip" (text ""))
        ∷ ("user_agent", user_agent)
        ∷ ("duration_ms", get_or payload "duration_ms" (integer (pos 0)))
        ∷ ("created_at", created_at)
        ∷ [])

  unfoldable pub handle_audit_log : Dict Value → Handled
  unfolding audit_row
  handle_audit_log payload = elim (audit_row payload) [
    | none ↦ failed
    | some row ↦ lenient (insert "audit_log" row)
  ]
