-- ===== src/CallSession/Ended/Reached.antt =====
-- app/voice/websocket_handler.py: the intake and the mark that the end of a call leaves, whatever the
-- services answer.
use ai_receptionist_for_immi.Prelude.{
  ℕ, String, ◌≡◌, refl, ◌∙◌, Bool, true, false, not, ◌&&◌, ◌||◌, Option, none, some, List, [], ◌∷◌,
  ◌++◌, map, arith, starts_with, eq_iff, if◌then◌else◌, is_some, both_true, ℤ, pos,
}
use ai_receptionist_for_immi.Dict.{Dict, get, put, get-put}
use ai_receptionist_for_immi.Value.{Value, text}
use ai_receptionist_for_immi.LeadScore.{score, Write}
use ai_receptionist_for_immi.Crm.{Texts}
use ai_receptionist_for_immi.Crm.Sync.{CrmRequest}
use ai_receptionist_for_immi.Reminders.{SmsTexts, SmsRequest}
use ai_receptionist_for_immi.CallSession.{merge_extracted}
use ai_receptionist_for_immi.CallSession.Ended.{
  close_call, with_extracted, contact_after, confirm_by_text, finalize_state, finalize_with,
  finalize_call, Replies, Session, EndRequest, write_score, ask_crm, text_caller, start_pipeline,
  save_state, mark_ended,
}
use ai_receptionist_for_immi.Worker.{or_value, is_null}
use ai_receptionist_for_immi.Conversation.{CallState}
use ai_receptionist_for_immi.Crm.Call.{sync_call_to_crm}

put-private :
    (kept : Bool) (intake : Dict Value) (k key : String) (v : Value)
    → starts_with key "_" ≡ true
    → (kept ≡ true → not (starts_with k "_") ≡ true)
    → get (if kept then put intake k v else intake) key ≡ get intake key
put-private false intake k key v h p = refl
put-private true intake k key v h p =
    ground (arith, h, p refl, eq_iff k key, get-put intake k key v)

-- The fields of the scheduling, whose keys start with an underscore, stay as they were, whatever the
-- model has extracted.
pub merge_extracted-private :
    (extracted intake : Dict Value) (key : String)
    → starts_with key "_" ≡ true
    → get (merge_extracted extracted intake) key ≡ get intake key
unfolding merge_extracted
merge_extracted-private [] intake key h = refl
merge_extracted-private ((k, v) ∷ extracted) intake key h =
    let kept = not (is_null v) && not (starts_with k "_") in
    merge_extracted-private extracted (if kept then put intake k v else intake) key h
    ∙ put-private kept intake k key v h
        (λ e. (both_true (not (is_null v)) (not (starts_with k "_")) e).1)

-- the durations that Redis keeps for a call that has ended
abbrev pub marked : List EndRequest → List ℕ
marked [] = []
marked (mark_ended d n true ∷ rs) = d ∷ marked rs
marked (mark_ended d n false ∷ rs) = marked rs
marked (_ ∷ rs) = marked rs

marked_scores :
    (ws : List Write) (rs : List EndRequest) → marked (map write_score ws ++ rs) ≡ marked rs
marked_scores [] rs = refl
marked_scores (w ∷ ws) rs = marked_scores ws rs

marked_crm :
    (cs : List CrmRequest) (rs : List EndRequest) → marked (map ask_crm cs ++ rs) ≡ marked rs
marked_crm [] rs = refl
marked_crm (c ∷ cs) rs = marked_crm cs rs

marked_texts :
    (ts : List SmsRequest) (rs : List EndRequest) → marked (map text_caller ts ++ rs) ≡ marked rs
marked_texts [] rs = refl
marked_texts (t ∷ ts) rs = marked_texts ts rs

marked_close :
    (answers : Replies) (d n : ℕ) (lead : ℤ)
    → marked (close_call answers d n lead) ≡ (if answers.marks then d ∷ [] else [])
unfolding close_call
marked_close answers d n lead = ground arith

marked_if :
    (b : Bool) (answers : Replies) (d n : ℕ) (lead : ℤ)
    → marked (if b then close_call answers d n lead else [])
      ≡ (if b && answers.marks then d ∷ [] else [])
marked_if true answers d n lead = marked_close answers d n lead
marked_if false answers d n lead = refl

module _ (texts : Texts) (sms_texts : SmsTexts) (str_lower : Value → String) where
  marked-finalize_state :
      (answers : Replies) (session : Session) (s0 : CallState)
      → marked (finalize_state texts sms_texts str_lower answers session s0)
        ≡ (if answers.saves && answers.marks then session.duration_sec ∷ [] else [])
  unfolding finalize_state
  marked-finalize_state answers session s0 =
      let scored =
        score str_lower session.call_sid
          (with_extracted texts sms_texts str_lower answers.extracted s0) answers.scoring in
      let s = scored.1 in
      let lead = scored.0.total in
      let synced = sync_call_to_crm texts answers.crm s session.ghl_contact_id lead in
      let contact = contact_after texts sms_texts str_lower session.ghl_contact_id synced.0 in
      let sms = confirm_by_text texts sms_texts str_lower answers.sms contact s in
      let last =
        start_pipeline s.intake (or_value contact (text ""))
        ∷ save_state s
        ∷ (if answers.saves
            then close_call answers session.duration_sec s.turn_count lead
            else []) in
      marked_scores scored.2 (map ask_crm synced.1 ++ (map text_caller sms ++ last))
      ∙ marked_crm synced.1 (map text_caller sms ++ last)
      ∙ marked_texts sms last
      ∙ marked_if answers.saves answers session.duration_sec s.turn_count lead

  marked-finalize_with :
      (answers : Replies) (session : Session) (state : Option CallState)
      → marked (finalize_with texts sms_texts str_lower answers session state) ≡ (
          if (not (is_some state) || answers.saves) && answers.marks
          then session.duration_sec ∷ []
          else [])
  unfolding finalize_with
  marked-finalize_with answers session none = marked_close answers session.duration_sec 0 (pos 0)
  marked-finalize_with answers session (some s) = marked-finalize_state answers session s

  -- A call that ends is marked as ended in Redis once and with its duration exactly if Redis takes the
  -- mark and, where the call has a state, has taken that state before; no answer of the model, the CRM or
  -- the text messages is in the way.
  pub marked-finalize_call :
      (answers : Replies) (session : Session)
      → marked (finalize_call texts sms_texts str_lower answers session) ≡ (
          if (not (is_some session.state) || answers.saves) && answers.marks
          then session.duration_sec ∷ []
          else [])
  unfolding finalize_call
  marked-finalize_call answers session = marked-finalize_with answers session session.state
