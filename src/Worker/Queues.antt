-- ===== src/Worker/Queues.antt =====
-- `db_worker_loop` and `_dispatch` of app/logging_analytics/db_worker.py: which handler takes an item,
-- what becomes of an item whose handler raises, and the round over the queues. A pop of Redis is taken
-- not to raise; the lists that items are given up to have other names than the queues.
use ai_receptionist_for_immi.Prelude.{
  ℕ, zero, suc, String, Bool, false, none, some, List, [], ◌∷◌, ◌++◌, map, ◌==◌, if◌then◌else◌,
  nonempty, take, drop,
}
use ai_receptionist_for_immi.Dict.{Dict, get, get_or}
use ai_receptionist_for_immi.Value.{Value, null, boolean, integer, text, array, object}
use ai_receptionist_for_immi.Worker.{
  failed, done, fields_of, Services, Handled, Effect, dead_letter,
}
use ai_receptionist_for_immi.Worker.Sync.{handle_db_sync}
use ai_receptionist_for_immi.Worker.Rows.{
  handle_lead_score, handle_analytics_event, handle_urgency_alert, handle_conversation_message,
  handle_call_summary, handle_voicemail_log, handle_call_cost, handle_audit_log,
}
use ai_receptionist_for_immi.Worker.Sms.{handle_twilio_sms, handle_follow_up}

abbrev pub queue_names : List String
queue_names =
    "db_sync_queue" ∷ "lead_score_queue" ∷ "analytics_events" ∷ "urgency_alerts"
    ∷ "twilio_sms_queue" ∷ "voicemail_log_queue" ∷ "audit_log_queue" ∷ "follow_up_queue" ∷ []

-- the Redis lists of the queues
abbrev pub Lists : Type 0
Lists = String → List String

-- `msg_type == name`
abbrev pub is_type : Value → String → Bool
is_type (text t) name = t == name
is_type null name = false
is_type (boolean b) name = false
is_type (integer n) name = false
is_type (array xs) name = false
is_type (object fs) name = false

module _ (env : Services) where
  unfoldable pub sync_handler : Dict Value → Handled
  unfolding get_or get handle_conversation_message handle_call_summary handle_call_cost
      handle_db_sync
  sync_handler payload =
      let kind = get_or payload "type" (text "") in
      if is_type kind "conversation_message"
      then handle_conversation_message env payload
      else if is_type kind "call_summary"
      then handle_call_summary env payload
      else if is_type kind "call_cost"
      then handle_call_cost env payload
      else handle_db_sync env payload

  unfoldable pub route : String → Dict Value → Handled
  unfolding sync_handler handle_lead_score handle_analytics_event handle_urgency_alert
      handle_twilio_sms handle_voicemail_log handle_audit_log handle_follow_up
  route queue payload =
      if queue == "db_sync_queue"
      then sync_handler payload
      else if queue == "lead_score_queue"
      then handle_lead_score env payload
      else if queue == "analytics_events"
      then handle_analytics_event env payload
      else if queue == "urgency_alerts"
      then handle_urgency_alert env payload
      else if queue == "twilio_sms_queue"
      then handle_twilio_sms env payload
      else if queue == "voicemail_log_queue"
      then handle_voicemail_log env payload
      else if queue == "audit_log_queue"
      then handle_audit_log env payload
      else if queue == "follow_up_queue"
      then handle_follow_up env payload
      else done []

  -- `payload.get` raises where the payload is not a dict
  abbrev pub handle : String → Value → Handled
  handle queue (object fs) = route queue (fields_of fs)
  handle queue null = failed
  handle queue (boolean b) = failed
  handle queue (integer n) = failed
  handle queue (text t) = failed
  handle queue (array xs) = failed

  -- An item whose handler raises is given up: its last request is the push to `dlq:{queue}`, which is
  -- swallowed where Redis raises, so where `accepts` says no the item is lost.
  abbrev pub settle : String → String → Handled → List Effect
  settle queue raw h = if h.raised then h.requests ++ dead_letter queue raw ∷ [] else h.requests

  unfoldable pub dispatch : String → String → List Effect
  unfolding route fields_of
  dispatch queue raw = elim (env.loads raw) [
    | none ↦ []
    | some payload ↦ settle queue raw (handle queue payload)
  ]

-- `lpop` of one queue: the lists behind it, and the queue with the item
unfoldable pub pop : String → Lists → Lists × List (String × String)
pop queue lists = (
  λ name. if name == queue then drop 1 (lists name) else lists name,
  map (λ item. (queue, item)) (take 1 (lists queue)),
)

-- the loop over the queues, with the items that it takes in order
unfoldable pub one_round : List String → Lists → Lists × List (String × String)
unfolding pop
one_round [] lists = (lists, [])
one_round (queue ∷ queues) lists =
    let popped = pop queue lists in
    let rest = one_round queues popped.0 in (rest.0, popped.1 ++ rest.1)

-- so many rounds of the worker
unfoldable pub rounds : ℕ → Lists → Lists × List (String × String)
unfolding one_round
rounds zero lists = (lists, [])
rounds (suc n) lists =
    let first = one_round queue_names lists in
    let rest = rounds n first.0 in (rest.0, first.1 ++ rest.1)

module _ (env : Services) where
  -- what is done for the items; an empty one is false and is passed over
  unfoldable pub dispatch_all : List (String × String) → List Effect
  unfolding dispatch
  dispatch_all [] = []
  dispatch_all ((queue, item) ∷ items) =
      (if nonempty item then dispatch env queue item else []) ++ dispatch_all items
