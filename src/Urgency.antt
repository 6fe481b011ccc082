-- ===== src/Urgency.antt =====
-- app/agent/urgency_classifier.py: what a classification does to the call state, and the alert that
-- it queues. The reply of the model and whether Redis takes the state are arguments.
pub mod Alerts
mod Tests
use ai_receptionist_for_immi.Prelude.{
  ℕ, String, Bool, true, false, not, ◌&&◌, Option, none, some, List, [], ◌∷◌, ltb, if◌then◌else◌,
  is_in, length, ℤ, pos,
}
use ai_receptionist_for_immi.Value.{has, text}
use ai_receptionist_for_immi.Conversation.{
  label_value, score_to_urgency_label, record_intake, CallState, UrgencyLabel, low, medium, high,
  emergency,
}

-- The arguments of the tool call; a key that is missing is `none`. The score is what `int` reads.
pub record Result : Type 0 where
  pub urgency_score : Option ℤ
  pub urgency_factors : Option (List String)
  pub recommended_action : Option String
  pub detected_case_type : Option String

-- `broken` is an exception of the call, of `json.loads` or of `int`.
pub data Reply : Type 0 where
  broken no_tool_call : Reply
  tool_call : Result → Reply

pub record UrgencyAlert : Type 0 where
  pub sid : String
  pub score : ℤ
  pub label : String
  pub factors : List String
  pub action : String

pub data Effect : Type 0 where
  -- `save_call_state`, which may raise
  save : CallState → Effect
  -- `rpush("urgency_alerts", …)`
  queue_alert : UrgencyAlert → Effect

abbrev pub or_else {ℓ} : {A : Type ℓ} → Option A → A → A
or_else none d = d
or_else (some a) d = a

abbrev pub score_of : Result → ℤ
score_of result = or_else result.urgency_score (pos 0)

-- `case_type` is filled where it is not known yet
unfoldable pub fill_case_type : String → ℕ → CallState → CallState
unfolding record_intake has
fill_case_type hint now s =
    if not (has s.intake "case_type") && not (is_in hint ("unknown" ∷ "other" ∷ []))
    then record_intake "case_type" (text hint) now s
    else s

-- the new state, before it is saved
unfoldable pub update_state : Result → ℕ → CallState → CallState
unfolding fill_case_type
update_state result now s =
    fill_case_type (or_else result.detected_case_type "unknown") now (record s {
      urgency_score = score_of result;
      urgency_label = score_to_urgency_label (score_of result);
    })

unfoldable pub needs_alert : UrgencyLabel → Bool
needs_alert low = false
needs_alert medium = false
needs_alert high = true
needs_alert emergency = true

unfoldable pub queue_urgency_alert : String → Result → UrgencyAlert
queue_urgency_alert call_sid result = record {
  sid = call_sid;
  score = score_of result;
  label = label_value (score_to_urgency_label (score_of result));
  factors = or_else result.urgency_factors [];
  action = or_else result.recommended_action "routine_intake";
}

-- behind the call of the model; where the save raises, the alert is not reached
unfoldable pub apply_reply : String → Reply → Bool → ℕ → CallState → CallState × List Effect
unfolding update_state queue_urgency_alert
apply_reply call_sid broken saved now s = (s, [])
apply_reply call_sid no_tool_call saved now s = (s, [])
apply_reply call_sid (tool_call result) saved now s =
    let next = update_state result now s in
    (
      next,
      save next
          ∷ (if saved && needs_alert (score_to_urgency_label (score_of result))
              then queue_alert (queue_urgency_alert call_sid result) ∷ []
              else []),
    )

unfoldable pub classify : String → Reply → Bool → ℕ → CallState → CallState × List Effect
unfolding apply_reply
classify call_sid reply saved now s =
    if ltb (length s.turns) 2 then (s, []) else apply_reply call_sid reply saved now s
