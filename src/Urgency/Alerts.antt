-- ===== src/Urgency/Alerts.antt =====
-- The label that follows the score, the alert that follows the label, and what a classification
-- leaves alone.
use ai_receptionist_for_immi.Prelude.{
  ℕ, ◌≤◌, String, ◌≡◌, refl, sym, ap, ◌∙◌, inl, inr, Bool, true, false, not, ◌&&◌, some, List, [],
  ◌∷◌, map, arith, ◌==◌, ltb, if◌then◌else◌, ltb→lt, Bool-cases, is_in, both_true, length, leb_ℤ, ℤ,
  pos, negsuc,
}
use ai_receptionist_for_immi.Dict.{get, get-put}
use ai_receptionist_for_immi.Value.{has, text}
use ai_receptionist_for_immi.Conversation.{score_to_urgency_label, record_intake, CallState}
use ai_receptionist_for_immi.Urgency.{
  or_else, score_of, fill_case_type, update_state, needs_alert, queue_urgency_alert, apply_reply,
  classify, Result, UrgencyAlert, Reply, broken, no_tool_call, tool_call, Effect, save, queue_alert,
}

abbrev pub IsLabelled : CallState → Type 0
IsLabelled s = s.urgency_label ≡ score_to_urgency_label s.urgency_score

fill_keeps :
    (hint : String) (now : ℕ) (s : CallState)
    → ((fill_case_type hint now s).urgency_label ≡ s.urgency_label)
      × ((fill_case_type hint now s).urgency_score ≡ s.urgency_score)
unfolding fill_case_type record_intake
fill_keeps hint now s =
    elim (Bool-cases
      (not (has s.intake "case_type") && not (is_in hint ("unknown" ∷ "other" ∷ [])))) [
        | inl e ↦ rw e (refl, refl)
        | inr e ↦ rw e (refl, refl)
      ]

-- the state with the score and the label of a result
abbrev scored : Result → CallState → CallState
scored result s = record s {
  urgency_score = score_of result;
  urgency_label = score_to_urgency_label (score_of result);
}

apply_reply-IsLabelled :
    (call_sid : String) (reply : Reply) (saved : Bool) (now : ℕ) (s : CallState)
    → IsLabelled s
    → IsLabelled (apply_reply call_sid reply saved now s).0
unfolding apply_reply update_state
apply_reply-IsLabelled call_sid broken saved now s h = h
apply_reply-IsLabelled call_sid no_tool_call saved now s h = h
apply_reply-IsLabelled call_sid (tool_call result) saved now s h =
    let k = fill_keeps (or_else result.detected_case_type "unknown") now (scored result s) in
    k.0 ∙ sym (ap score_to_urgency_label k.1)

-- The label of a call always follows from its score: a classification keeps it so, whatever the
-- model replies.
pub classify-IsLabelled :
    (call_sid : String) (reply : Reply) (saved : Bool) (now : ℕ) (s : CallState)
    → IsLabelled s
    → IsLabelled (classify call_sid reply saved now s).0
unfolding classify
classify-IsLabelled call_sid reply saved now s h = elim (Bool-cases (ltb (length s.turns) 2)) [
  | inl e ↦ rw e h
  | inr e ↦ rw e (apply_reply-IsLabelled call_sid reply saved now s h)
]

-- the alerts among the effects
abbrev pub alerts : List Effect → List UrgencyAlert
alerts [] = []
alerts (save s ∷ es) = alerts es
alerts (queue_alert a ∷ es) = a ∷ alerts es

pub needs_alert-score_to_urgency_label :
    (score : ℤ) → needs_alert (score_to_urgency_label score) ≡ leb_ℤ (pos 6) score
unfolding needs_alert score_to_urgency_label
needs_alert-score_to_urgency_label (pos n) = ground arith
needs_alert-score_to_urgency_label (negsuc n) = ground arith

alerts_if :
    (c : Bool) (a : UrgencyAlert)
    → map (λ b. b.score) (alerts (if c then queue_alert a ∷ [] else []))
      ≡ (if c then a.score ∷ [] else [])
alerts_if true a = refl
alerts_if false a = refl

-- Once two turns have been spoken, a score of the model queues exactly one alert, which carries the
-- score, if the state was saved and the score is 6 or more, and none otherwise.
pub alerts-classify :
    (call_sid : String) (result : Result) (saved : Bool) (now : ℕ) (s : CallState)
    → 2 ≤ length s.turns
    → map (λ a. a.score) (alerts (classify call_sid (tool_call result) saved now s).1)
      ≡ (if saved && leb_ℤ (pos 6) (score_of result) then score_of result ∷ [] else [])
unfolding classify apply_reply queue_urgency_alert
alerts-classify call_sid result saved now s h = elim (Bool-cases (ltb (length s.turns) 2)) [
  | inl e ↦ absurd (omega (arith, ltb→lt (length s.turns) 2 e))
  | inr e ↦
      rw (e, needs_alert-score_to_urgency_label (score_of result))
        (alerts_if (saved && leb_ℤ (pos 6) (score_of result)) (queue_urgency_alert call_sid result))
]

other_key {ℓ} :
    {A : Type ℓ} (x y : A) (b u : Bool) → (b && u) ≡ false → u ≡ true → (if b then x else y) ≡ y
other_key x y true u h k = ground arith
other_key x y false u h k = refl

get-fill_case_type :
    (hint : String) (now : ℕ) (s : CallState) (key : String)
    → ("case_type" == key && not (has s.intake "case_type")) ≡ false
    → get (fill_case_type hint now s).intake key ≡ get s.intake key
unfolding fill_case_type record_intake
get-fill_case_type hint now s key h =
    elim (Bool-cases
      (not (has s.intake "case_type") && not (is_in hint ("unknown" ∷ "other" ∷ [])))) [
        | inr e ↦ rw e refl
        | inl e ↦
            let unknown =
              (both_true (not (has s.intake "case_type"))
                (not (is_in hint ("unknown" ∷ "other" ∷ []))) e).0 in
            rw e (
              get-put s.intake "case_type" key (text hint)
              ∙ other_key (some (text hint)) (get s.intake key) ("case_type" == key)
                  (not (has s.intake "case_type")) h unknown)
      ]

-- A case type that is already known stays as it is, and no other intake field is touched.
pub intake-classify :
    (call_sid : String) (result : Result) (saved : Bool) (now : ℕ) (s : CallState) (key : String)
    → ("case_type" == key && not (has s.intake "case_type")) ≡ false
    → get (classify call_sid (tool_call result) saved now s).0.intake key ≡ get s.intake key
unfolding classify apply_reply update_state
intake-classify call_sid result saved now s key h = elim (Bool-cases (ltb (length s.turns) 2)) [
  | inl e ↦ rw e refl
  | inr e ↦
      rw e (
        get-fill_case_type (or_else result.detected_case_type "unknown") now (scored result s) key
          h)
]
