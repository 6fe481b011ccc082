-- ===== src/Worker/Kept.antt =====
-- What becomes of an item whose row the database does not take.

use ai_receptionist_for_immi.Prelude.{
  String, ◌≡◌, refl, sym, subst, ◌⊎◌, inl, inr, Bool, true, false, not, ◌&&◌, Option, none, some,
  List, [], ◌∷◌, ◌++◌, ◌==◌, eq_iff, if◌then◌else◌, Bool-cases, Option-cases, is_nil, both_true,
  not-true,
}
use ai_receptionist_for_immi.Dict.{Dict, get, get_or}
use ai_receptionist_for_immi.Value.{Value, text, object, Fields}
use ai_receptionist_for_immi.Worker.{
  strict, fields_of, Services, Handled, Effect, upsert, insert, dead_letter,
}
use ai_receptionist_for_immi.Worker.Sync.{
  intake_of, conversation_row, intake_row, write_intake, write_call, handle_db_sync,
}
use ai_receptionist_for_immi.Worker.Rows.{
  handle_lead_score, handle_urgency_alert, message_row, handle_conversation_message,
}
use ai_receptionist_for_immi.Worker.Queues.{is_type, sync_handler, route, settle, dispatch}

-- the items that may not be lost: messages and calls, lead scores and urgency alerts
unfoldable pub is_critical : String → Dict Value → Bool
unfolding get_or get
is_critical queue payload =
    if queue == "db_sync_queue"
    then not (is_type (get_or payload "type" (text "")) "call_summary")
      && not (is_type (get_or payload "type" (text "")) "call_cost")
    else if queue == "lead_score_queue"
    then true
    else queue == "urgency_alerts"

module _ (env : Services) where
  abbrev pub AllAccepted : List Effect → Type 0
  AllAccepted [] = Unit {0}
  AllAccepted (e ∷ es) = (env.accepts e ≡ true) × AllAccepted es

  -- something is written, and all of it is taken
  abbrev pub IsWritten : List Effect → Type 0
  IsWritten es = (is_nil es ≡ false) × AllAccepted es

  Sound : Handled → Type 0
  Sound h = (h.raised ≡ true) ⊎ ((h.raised ≡ false) × IsWritten h.requests)

  strict-Sound : (e : Effect) → Sound (strict env e)
  unfolding Sound
  strict-Sound e = elim (Bool-cases (env.accepts e)) [
    | inl t ↦ inr (rw t refl, (refl, (t, tt)))
    | inr f ↦ inl (rw f refl)
  ]

  write_intake-Sound :
      (e : Effect) (filled : Bool) (row : Option (Dict Value))
      → env.accepts e ≡ true
      → Sound (write_intake env e filled row)
  unfolding Sound
  write_intake-Sound e false row t = inr (refl, (refl, (t, tt)))
  write_intake-Sound e true none t = inl refl
  write_intake-Sound e true (some row) t =
      elim (Bool-cases (env.accepts (upsert "immigration_intakes" row))) [
        | inl u ↦ inr (rw u refl, (refl, (t, (u, tt))))
        | inr f ↦ inl (rw f refl)
      ]

  write_call-Sound :
      (call : Option (Dict Value)) (filled : Bool) (row : Option (Dict Value))
      → Sound (write_call env call filled row)
  unfolding Sound
  write_call-Sound none filled row = inl refl
  write_call-Sound (some call) filled row =
      elim (Bool-cases (env.accepts (upsert "conversations" call))) [
        | inl t ↦ rw t (write_intake-Sound (upsert "conversations" call) filled row t)
        | inr f ↦ rw f (inl refl)
      ]

  handle_db_sync-Sound : (payload : Dict Value) → Sound (handle_db_sync env payload)
  unfolding handle_db_sync Sound
  handle_db_sync-Sound payload = elim (Option-cases (intake_of (get payload "intake"))) [
    | inl e ↦ rw (handle_db_sync, e) (inl refl)
    | inr (intake, e) ↦
        let call_sid = get_or payload "call_sid" (text "") in
        rw (handle_db_sync, e)
          (write_call-Sound (conversation_row env call_sid payload intake) (not (is_nil intake))
            (intake_row env call_sid payload intake))
  ]

  message-Sound : (payload : Dict Value) → Sound (handle_conversation_message env payload)
  unfolding handle_conversation_message Sound
  message-Sound payload = elim (Option-cases (message_row env payload)) [
    | inl e ↦ rw (handle_conversation_message, e) (inl refl)
    | inr (row, e) ↦
        rw (handle_conversation_message, e) (strict-Sound (insert "conversation_messages" row))
  ]

  sync_handler-Sound :
      (payload : Dict Value)
      → is_type (get_or payload "type" (text "")) "call_summary" ≡ false
      → is_type (get_or payload "type" (text "")) "call_cost" ≡ false
      → Sound (sync_handler env payload)
  unfolding sync_handler
  sync_handler-Sound payload a b =
      elim (Bool-cases (is_type (get_or payload "type" (text "")) "conversation_message")) [
        | inl t ↦ rw t (message-Sound payload)
        | inr f ↦ rw (f, a, b) (handle_db_sync-Sound payload)
      ]

  lead_score-Sound : (payload : Dict Value) → Sound (route env "lead_score_queue" payload)
  unfolding route handle_lead_score
  lead_score-Sound payload = strict-Sound _

  urgency_alert-Sound : (payload : Dict Value) → Sound (route env "urgency_alerts" payload)
  unfolding route handle_urgency_alert
  urgency_alert-Sound payload = strict-Sound _

  route-Sound :
      (queue : String) (payload : Dict Value)
      → is_critical queue payload ≡ true
      → Sound (route env queue payload)
  unfolding route is_critical
  route-Sound queue payload h = elim (Bool-cases (queue == "db_sync_queue")) [
    | inl e ↦
        let summary = is_type (get_or payload "type" (text "")) "call_summary" in
        let cost = is_type (get_or payload "type" (text "")) "call_cost" in
        let both = both_true (not summary) (not cost) (rw e at h) in
        rw e (sync_handler-Sound payload (not-true summary both.0) (not-true cost both.1))
    | inr e ↦ elim (Bool-cases (queue == "lead_score_queue")) [
      | inl f ↦
          subst (λ q. Sound (route env q payload)) (sym ((eq_iff queue "lead_score_queue").0 f))
            (lead_score-Sound payload)
      | inr f ↦
          subst (λ q. Sound (route env q payload))
            (sym ((eq_iff queue "urgency_alerts").0 (rw (e, f) at h))) (urgency_alert-Sound payload)
    ]
  ]

  settle-kept :
      (queue raw : String) (h : Handled)
      → Sound h
      → IsWritten (settle env queue raw h)
        ⊎ ((es : List Effect) × (settle env queue raw h ≡ es ++ dead_letter queue raw ∷ []))
  unfolding Sound
  settle-kept queue raw h (inl r) = rw r (inr (h.requests, refl))
  settle-kept queue raw h (inr (r, w)) = rw r (inl w)

  -- the last request puts the item into the list of the items that were given up, and Redis takes it
  abbrev pub IsGivenUp : String → String → List Effect → Type 0
  IsGivenUp queue raw sent =
      (es : List Effect) × (sent ≡ es ++ dead_letter queue raw ∷ [])
      × (env.accepts (dead_letter queue raw) ≡ true)

  given_up :
      (queue raw : String) (sent : List Effect)
      → env.accepts (dead_letter queue raw) ≡ true
      → IsWritten sent ⊎ ((es : List Effect) × (sent ≡ es ++ dead_letter queue raw ∷ []))
      → IsWritten sent ⊎ IsGivenUp queue raw sent
  given_up queue raw sent a (inl w) = inl w
  given_up queue raw sent a (inr (es, e)) = inr (es, e, a)

  -- A message, a call, a lead score or an urgency alert that is read from its queue is not lost while Redis
  -- takes the push to the list of the items that were given up: either something is written for it and the
  -- database takes all of it, or the item is put into that list.
  pub critical_item_kept :
      (queue raw : String) (fs : Fields)
      → env.loads raw ≡ some (object fs)
      → is_critical queue (fields_of fs) ≡ true
      → env.accepts (dead_letter queue raw) ≡ true
      → IsWritten (dispatch env queue raw) ⊎ IsGivenUp queue raw (dispatch env queue raw)
  unfolding dispatch
  critical_item_kept queue raw fs e c a = given_up queue raw (dispatch env queue raw) a (
      rw (dispatch, e)
        (settle-kept queue raw (route env queue (fields_of fs))
          (route-Sound queue (fields_of fs) c)))
