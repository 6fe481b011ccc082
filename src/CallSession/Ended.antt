-- ===== src/CallSession/Ended.antt =====
-- app/voice/websocket_handler.py: `_finalize_call`, over the scoring, the CRM, the text messages and the
-- state of the other modules. `run_post_call_pipeline` starts as a task of its own; the context is set
-- whenever the state is. A write of `persist` or of `log_event` that fails is only logged.
pub mod Reached
pub mod Texted
use ai_receptionist_for_immi.Prelude.{
  ℕ, String, Bool, not, ◌&&◌, Option, none, some, List, [], ◌∷◌, ◌++◌, map, if◌then◌else◌, nonempty,
  ℤ, pos,
}
use ai_receptionist_for_immi.Dict.{Dict, get, get_or}
use ai_receptionist_for_immi.Value.{truthy, Value, text}
use ai_receptionist_for_immi.Conversation.{CallState}
use ai_receptionist_for_immi.LeadScore.{score, Reply, Write}
use ai_receptionist_for_immi.Worker.{or_value}
use ai_receptionist_for_immi.Crm.{Texts}
use ai_receptionist_for_immi.Crm.Sync.{Answers, CrmRequest}
use ai_receptionist_for_immi.Crm.Call.{sync_call_to_crm}
use ai_receptionist_for_immi.Reminders.{send_confirmation_sms, SmsTexts, SmsAnswers, SmsRequest}
use ai_receptionist_for_immi.CallSession.{merge_extracted}

-- What the services answer at the end of a call.
pub record Replies : Type 0 where
  -- `agent.intake_data` behind the extraction; `none` is an exception
  pub extracted : Option (Dict Value)
  pub scoring : Reply
  pub crm : Answers
  pub sms : SmsAnswers
  -- whether Redis takes the state, and the end of the call
  pub saves : Bool
  pub marks : Bool

pub record Session : Type 0 where
  pub call_sid : String
  pub from_number : String
  pub language : String
  pub ghl_contact_id : Value
  pub state : Option CallState
  -- `int(time.monotonic() - session.started_at)`
  pub duration_sec : ℕ

pub data EndRequest : Type 0 where
  write_score : Write → EndRequest
  ask_crm : CrmRequest → EndRequest
  text_caller : SmsRequest → EndRequest
  start_pipeline : (intake : Dict Value) → (contact : Value) → EndRequest
  save_state : CallState → EndRequest
  persist_cost : EndRequest
  -- with whether Redis takes it
  mark_ended : (duration turn_count : ℕ) → (taken : Bool) → EndRequest
  log_ended : (duration : ℕ) → (lead_score : ℤ) → EndRequest
  close_socket : EndRequest

-- the steps from the final state on: a write to Redis that raises ends the handler
unfoldable pub close_call : Replies → ℕ → ℕ → ℤ → List EndRequest
close_call answers duration turn_count lead_score =
    persist_cost
    ∷ mark_ended duration turn_count answers.marks
    ∷ (if answers.marks then log_ended duration lead_score ∷ close_socket ∷ [] else [])

module _ (texts : Texts) (sms_texts : SmsTexts) (str_lower : Value → String) where
  abbrev pub with_extracted : Option (Dict Value) → CallState → CallState
  with_extracted none s = s
  with_extracted (some data_found) s = record s { intake = merge_extracted data_found s.intake }

  -- the name in the text message: `f", {caller_name}" if caller_name else ""`
  abbrev pub spoken_name : Value → String
  spoken_name v = if truthy v then sms_texts.str v else ""

  -- the contact behind the sync: a new one only where none was known
  abbrev pub contact_after : Value → Value → Value
  contact_after known resolved = if truthy resolved && not (truthy known) then resolved else known

  unfoldable pub confirm_by_text : SmsAnswers → Value → CallState → List SmsRequest
  unfolding send_confirmation_sms truthy get_or get
  confirm_by_text answers contact s =
      if nonempty s.scheduled_at && truthy contact
      then (send_confirmation_sms sms_texts answers contact s.scheduled_at
          (spoken_name (get_or s.intake "full_name" (text ""))) s.language).1
      else []

  -- a call with a state
  unfoldable pub finalize_state : Replies → Session → CallState → List EndRequest
  unfolding merge_extracted score sync_call_to_crm confirm_by_text close_call truthy
  finalize_state answers session s0 =
      let (b, s, writes) =
        score str_lower session.call_sid (with_extracted answers.extracted s0) answers.scoring in
      let (resolved, crm) = sync_call_to_crm texts answers.crm s session.ghl_contact_id b.total in
      let contact = contact_after session.ghl_contact_id resolved in
      let last =
        start_pipeline s.intake (or_value contact (text ""))
        ∷ save_state s
        ∷ (if answers.saves
            then close_call answers session.duration_sec s.turn_count b.total
            else []) in
      map write_score writes
      ++ (map ask_crm crm ++ (map text_caller (confirm_by_text answers.sms contact s) ++ last))

  -- without a state only the cost and the end are written
  unfoldable pub finalize_with : Replies → Session → Option CallState → List EndRequest
  unfolding finalize_state close_call
  finalize_with answers session none = close_call answers session.duration_sec 0 (pos 0)
  finalize_with answers session (some s) = finalize_state answers session s

  unfoldable pub finalize_call : Replies → Session → List EndRequest
  unfolding finalize_with
  finalize_call answers session = finalize_with answers session session.state
