-- ===== src/CallSession/Ended/Texted.antt =====
-- app/voice/websocket_handler.py: the text messages at the end of a call.
use ai_receptionist_for_immi.Prelude.{
  ℕ, String, ◌≡◌, refl, sym, ap, subst, ◌∙◌, inl, inr, Bool, true, false, ◌&&◌, Option, none, some,
  List, [], ◌∷◌, ◌++◌, map, arith, if◌then◌else◌, Bool-cases, nonempty, both_true, ℤ,
}
use ai_receptionist_for_immi.Dict.{get_or}
use ai_receptionist_for_immi.Value.{truthy, Value, text}
use ai_receptionist_for_immi.LeadScore.{score, Write}
use ai_receptionist_for_immi.Crm.{Texts}
use ai_receptionist_for_immi.Crm.Sync.{CrmRequest, add_tags}
use ai_receptionist_for_immi.Reminders.{
  check_sms_consent, confirmation_body, after_sms, guarded, send_confirmation_sms, SmsTexts,
  SmsAnswers, SmsRequest, send_sms, add_tags, queue_sms, queue_follow_up,
}
use ai_receptionist_for_immi.CallSession.Ended.{
  close_call, with_extracted, spoken_name, contact_after, confirm_by_text, finalize_state, Replies,
  Session, EndRequest, write_score, ask_crm, text_caller, start_pipeline, save_state,
}
use ai_receptionist_for_immi.Worker.{or_value, send_sms}
use ai_receptionist_for_immi.Conversation.{CallState}
use ai_receptionist_for_immi.Crm.Call.{sync_call_to_crm}

-- the text messages that are sent
abbrev pub texted : List EndRequest → List SmsRequest
texted [] = []
texted (text_caller r ∷ rs) = r ∷ texted rs
texted (_ ∷ rs) = texted rs

texted_scores :
    (ws : List Write) (rs : List EndRequest) → texted (map write_score ws ++ rs) ≡ texted rs
texted_scores [] rs = refl
texted_scores (w ∷ ws) rs = texted_scores ws rs

texted_crm :
    (cs : List CrmRequest) (rs : List EndRequest) → texted (map ask_crm cs ++ rs) ≡ texted rs
texted_crm [] rs = refl
texted_crm (c ∷ cs) rs = texted_crm cs rs

texted_close :
    (b : Bool) (answers : Replies) (d n : ℕ) (lead : ℤ)
    → texted (if b then close_call answers d n lead else []) ≡ []
unfolding close_call
texted_close b answers d n lead = ground arith

texted_texts :
    (ts : List SmsRequest) (rs : List EndRequest)
    → texted rs ≡ []
    → texted (map text_caller ts ++ rs) ≡ ts
texted_texts [] rs h = h
texted_texts (t ∷ ts) rs h = ap (◌∷◌ t) (texted_texts ts rs h)

-- whom a request for a text message is about
abbrev pub recipient : SmsRequest → Value
recipient (send_sms contact body) = contact
recipient (add_tags contact tags) = contact
recipient (queue_sms contact body) = contact
recipient (queue_follow_up contact appointment) = contact

-- every request is about this contact
abbrev pub AllTo : Value → List SmsRequest → Type 0
AllTo contact [] = Unit {0}
AllTo contact (r ∷ rs) = (recipient r ≡ contact) × AllTo contact rs

module _ (texts : Texts) (sms_texts : SmsTexts) (str_lower : Value → String) where
  -- the state behind the scoring, and the contact behind the sync
  abbrev pub scored_state : Replies → Session → CallState → CallState
  scored_state answers session s0 =
      (score str_lower session.call_sid
        (with_extracted texts sms_texts str_lower answers.extracted s0) answers.scoring).1

  -- the contact that the sync gives back
  abbrev pub synced_contact : Replies → Session → CallState → Value
  synced_contact answers session s0 =
      let scored =
        score str_lower session.call_sid
          (with_extracted texts sms_texts str_lower answers.extracted s0) answers.scoring in
      (sync_call_to_crm texts answers.crm scored.1 session.ghl_contact_id scored.0.total).0

  abbrev final_contact : Replies → Session → CallState → Value
  final_contact answers session s0 =
      contact_after texts sms_texts str_lower session.ghl_contact_id
        (synced_contact answers session s0)

  -- the contact that was known before the sync, else the one that it gives back
  abbrev pub known_else_synced : Replies → Session → CallState → Value
  known_else_synced answers session s0 =
      if truthy session.ghl_contact_id
      then session.ghl_contact_id
      else synced_contact answers session s0

  contact_after-known :
      (known resolved : Value)
      → truthy (contact_after texts sms_texts str_lower known resolved) ≡ true
      → contact_after texts sms_texts str_lower known resolved
        ≡ (if truthy known then known else resolved)
  contact_after-known known resolved t = elim (Bool-cases (truthy known)) [
    | inl k ↦ ground (arith, k)
    | inr k ↦ elim (Bool-cases (truthy resolved)) [
      | inl r ↦ ground (arith, k, r)
      | inr r ↦ absurd (ground (arith, t, k, r))
    ]
  ]

  scheduled_at-score :
      (answers : Replies) (session : Session) (s0 : CallState)
      → (scored_state answers session s0).scheduled_at ≡ s0.scheduled_at
  unfolding score
  scheduled_at-score answers session s0 = ground arith

  texted-finalize_state :
      (answers : Replies) (session : Session) (s0 : CallState)
      → texted (finalize_state texts sms_texts str_lower answers session s0)
        ≡ confirm_by_text texts sms_texts str_lower answers.sms
            (final_contact answers session s0)
            (scored_state answers session s0)
  unfolding finalize_state
  texted-finalize_state answers session s0 =
      let scored =
        score str_lower session.call_sid
          (with_extracted texts sms_texts str_lower answers.extracted s0) answers.scoring in
      let s = scored.1 in
      let lead = scored.0.total in
      let synced = sync_call_to_crm texts answers.crm s session.ghl_contact_id lead in
      let contact = final_contact answers session s0 in
      let sms = confirm_by_text texts sms_texts str_lower answers.sms contact s in
      let last =
        start_pipeline s.intake (or_value contact (text ""))
        ∷ save_state s
        ∷ (if answers.saves
            then close_call answers session.duration_sec s.turn_count lead
            else []) in
      texted_scores scored.2 (map ask_crm synced.1 ++ (map text_caller sms ++ last))
      ∙ texted_crm synced.1 (map text_caller sms ++ last)
      ∙ texted_texts sms last
          (texted_close answers.saves answers session.duration_sec s.turn_count lead)

  if_cons :
      (b : Bool) (xs : List SmsRequest) (r : SmsRequest) (rs : List SmsRequest)
      → (if b then xs else []) ≡ r ∷ rs
      → (b ≡ true) × (xs ≡ r ∷ rs)
  if_cons true xs r rs e = (refl, e)
  if_cons false xs r rs e = absurd (ground arith)

  guarded-Needs :
      (consent sent : Option Bool) (contact : Value) (body : String) (tags : List String)
      (ok : Bool) (r : SmsRequest) (rs : List SmsRequest)
      → (guarded sms_texts consent
          (after_sms sms_texts contact body sent (add_tags contact tags ∷ []) ok)).1
        ≡ r ∷ rs
      → (consent ≡ some true) × (recipient r ≡ contact)
  guarded-Needs none sent contact body tags ok r rs e = absurd (ground arith)
  guarded-Needs (some false) sent contact body tags ok r rs e = absurd (ground arith)
  guarded-Needs (some true) none contact body tags ok r rs e = (refl, ground arith)
  guarded-Needs (some true) (some false) contact body tags ok r rs e = (refl, ground arith)
  guarded-Needs (some true) (some true) contact body tags ok r rs e = (refl, ground arith)

  guarded-AllTo :
      (consent sent : Option Bool) (contact : Value) (body : String) (tags : List String)
      (ok : Bool)
      → AllTo contact
          (guarded sms_texts consent
            (after_sms sms_texts contact body sent (add_tags contact tags ∷ []) ok)).1
  guarded-AllTo none sent contact body tags ok = tt
  guarded-AllTo (some false) sent contact body tags ok = tt
  guarded-AllTo (some true) none contact body tags ok = (refl, tt)
  guarded-AllTo (some true) (some false) contact body tags ok = (refl, (refl, tt))
  guarded-AllTo (some true) (some true) contact body tags ok = (refl, (refl, tt))

  if-AllTo :
      (b : Bool) (contact : Value) (xs : List SmsRequest)
      → AllTo contact xs
      → AllTo contact (if b then xs else [])
  if-AllTo true contact xs h = h
  if-AllTo false contact xs h = tt

  confirm_by_text-AllTo :
      (answers : SmsAnswers) (contact : Value) (s : CallState)
      → AllTo contact (confirm_by_text texts sms_texts str_lower answers contact s)
  unfolding confirm_by_text
  confirm_by_text-AllTo answers contact s =
      let name = spoken_name texts sms_texts str_lower (get_or s.intake "full_name" (text "")) in
      if-AllTo (nonempty s.scheduled_at && truthy contact) contact
        (send_confirmation_sms sms_texts answers contact s.scheduled_at name s.language).1
        (guarded-AllTo (check_sms_consent sms_texts answers.contact) answers.sms contact
          (confirmation_body sms_texts s.scheduled_at name s.language)
          ("confirmation-sent" ∷ "reminder-24h" ∷ "reminder-2h" ∷ []) answers.tags)

  confirm_by_text-Needs :
      (answers : SmsAnswers) (contact : Value) (s : CallState) (r : SmsRequest)
      (rs : List SmsRequest)
      → confirm_by_text texts sms_texts str_lower answers contact s ≡ r ∷ rs
      → (nonempty s.scheduled_at ≡ true)
        × (truthy contact ≡ true)
        × (check_sms_consent sms_texts answers.contact ≡ some true)
        × (recipient r ≡ contact)
  unfolding confirm_by_text
  confirm_by_text-Needs answers contact s r rs e =
      let name = spoken_name texts sms_texts str_lower (get_or s.intake "full_name" (text "")) in
      let booked =
        if_cons (nonempty s.scheduled_at && truthy contact)
          (send_confirmation_sms sms_texts answers contact s.scheduled_at name s.language).1 r rs
          e in
      let both = both_true (nonempty s.scheduled_at) (truthy contact) booked.0 in
      let sent =
        guarded-Needs (check_sms_consent sms_texts answers.contact) answers.sms contact
          (confirmation_body sms_texts s.scheduled_at name s.language)
          ("confirmation-sent" ∷ "reminder-24h" ∷ "reminder-2h" ∷ []) answers.tags r rs booked.1 in
      (both.0, both.1, sent.0, sent.1)

  -- Requests for a text message leave at the end of a call only if an appointment was booked in it and
  -- the contact has consented, and all of them are about one contact: the one that was known, or the one
  -- that the sync gives back where none was.
  pub texts-Needed :
      (answers : Replies) (session : Session) (s0 : CallState) (r : SmsRequest)
      (rs : List SmsRequest)
      → texted (finalize_state texts sms_texts str_lower answers session s0) ≡ r ∷ rs
      → (nonempty s0.scheduled_at ≡ true)
        × (check_sms_consent sms_texts answers.sms.contact ≡ some true)
        × AllTo (known_else_synced answers session s0) (r ∷ rs)
  texts-Needed answers session s0 r rs e =
      let contact = final_contact answers session s0 in
      let s = scored_state answers session s0 in
      let sent = sym (texted-finalize_state answers session s0) ∙ e in
      let n = confirm_by_text-Needs answers.sms contact s r rs sent in
      (
        sym (ap nonempty (scheduled_at-score answers session s0)) ∙ n.0,
        n.2,
        subst (λ c. AllTo c (r ∷ rs))
            (contact_after-known session.ghl_contact_id (synced_contact answers session s0) n.1)
            (subst (AllTo contact) sent (confirm_by_text-AllTo answers.sms contact s)),
      )
