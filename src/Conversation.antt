-- ===== src/Conversation.antt =====
-- app/voice/conversation_state.py: the state of one call, its phases and its intake fields, and
-- `ConversationPhase` of app/agent/llm_agent.py. A method that mutates `self` returns the new state
-- behind its result; `time.time()` is the argument `now`.
pub mod Phases
pub mod Intake
pub mod Redis
pub mod RoundTrip
mod Tests
use ai_receptionist_for_immi.Prelude.{
  ℕ, ◌+◌, String, Bool, Option, none, some, List, [], ◌∷◌, ◌==◌, ltb, if◌then◌else◌, all, is_in,
  get_elem?, leb_ℤ, ℤ, pos, negsuc,
}
use ai_receptionist_for_immi.Dict.{Dict, put}
use ai_receptionist_for_immi.Value.{has, Value}

pub data Phase : Type 0 where
  greeting identification urgency_triage intake_phase : Phase
  consultation_pitch booking confirmation closing : Phase

-- `ConversationPhase` is a `str` enum: two members are equal if their values are
unfoldable pub phase_value : Phase → String
phase_value greeting = "greeting"
phase_value identification = "identification"
phase_value urgency_triage = "urgency_triage"
phase_value intake_phase = "intake"
phase_value consultation_pitch = "consultation_pitch"
phase_value booking = "booking"
phase_value confirmation = "confirmation"
phase_value closing = "closing"

abbrev pub intake_fields : List String
intake_fields =
    "full_name" ∷ "date_of_birth" ∷ "country_of_birth" ∷ "nationality"
    ∷ "current_immigration_status" ∷ "case_type" ∷ "entry_date_us" ∷ "prior_applications"
    ∷ "has_attorney" ∷ "urgency_reason" ∷ "preferred_language" ∷ "preferred_contact_time" ∷ "email"
    ∷ "address" ∷ "employer_sponsor" ∷ "family_in_us" ∷ "prior_deportation" ∷ "criminal_history"
    ∷ []

abbrev pub phase_order : List Phase
phase_order =
    greeting ∷ identification ∷ urgency_triage ∷ intake_phase ∷ consultation_pitch ∷ booking
    ∷ confirmation ∷ closing ∷ []

unfoldable pub min_turns_per_phase : Phase → ℕ
min_turns_per_phase greeting = 1
min_turns_per_phase identification = 1
min_turns_per_phase urgency_triage = 1
min_turns_per_phase intake_phase = 3
min_turns_per_phase consultation_pitch = 1
min_turns_per_phase booking = 1
min_turns_per_phase confirmation = 1
min_turns_per_phase closing = 0

pub data UrgencyLabel : Type 0 where
  low medium high emergency : UrgencyLabel

unfoldable pub label_value : UrgencyLabel → String
label_value low = "low"
label_value medium = "medium"
label_value high = "high"
label_value emergency = "emergency"

unfoldable pub score_to_urgency_label : ℤ → UrgencyLabel
score_to_urgency_label score =
    if leb_ℤ (pos 9) score
    then emergency
    else if leb_ℤ (pos 6) score
    then high
    else if leb_ℤ (pos 3) score
    then medium
    else low

pub record Turn : Type 0 where
  pub role : String
  pub content : String

pub record CallState : Type 0 where
  pub call_sid : String
  pub phase : Phase
  pub language : String
  pub turns : List Turn
  pub summary : String
  pub intake : Dict Value
  pub urgency_score : ℤ
  pub urgency_label : UrgencyLabel
  pub scheduled_at : String
  pub appointment_id : String
  pub transferred_at : String
  pub lead_score : ℤ
  pub phase_turns : ℕ
  pub turn_count : ℕ
  pub last_updated : ℕ

-- `CallState(call_sid=…)`
unfoldable pub new : String → ℕ → CallState
new sid now = record {
  call_sid = sid;
  phase = greeting;
  language = "en";
  turns = [];
  summary = "";
  intake = [];
  urgency_score = pos 0;
  urgency_label = low;
  scheduled_at = "";
  appointment_id = "";
  transferred_at = "";
  lead_score = negsuc 0;
  phase_turns = 0;
  turn_count = 0;
  last_updated = now;
}

-- `order.index(phase)`, counted from `i`; `none` is the `ValueError`
unfoldable pub index_from : ℕ → List Phase → Phase → Option ℕ
unfolding phase_value
index_from i [] p = none
index_from i (q ∷ qs) p = if phase_value q == phase_value p then some i else index_from (i + 1) qs p

-- the part of `advance_phase` behind the turn check
pub enter_next : CallState → Option ℕ → Option Phase × CallState
enter_next s none = (none, s)
enter_next s (some idx) = elim (get_elem? phase_order (idx + 1)) [
  | none ↦ (none, s)
  | some next ↦ (some next, record s { phase = next; phase_turns = 0 })
]

unfoldable pub advance_phase : CallState → Option Phase × CallState
unfolding enter_next index_from min_turns_per_phase
advance_phase s =
    if ltb s.phase_turns (min_turns_per_phase s.phase)
    then (none, s)
    else enter_next s (index_from 0 phase_order s.phase)

unfoldable pub force_phase : Phase → CallState → CallState
unfolding phase_value
force_phase new_phase s =
    if phase_value new_phase == phase_value s.phase
    then s
    else record s { phase = new_phase; phase_turns = 0 }

unfoldable pub increment_turns : ℕ → CallState → CallState
increment_turns now s = record s {
  phase_turns = s.phase_turns + 1;
  turn_count = s.turn_count + 1;
  last_updated = now;
}

unfoldable pub record_intake : String → Value → ℕ → CallState → CallState
unfolding put
record_intake key value now s =
    if is_in key intake_fields
    then record s { intake = put s.intake key value; last_updated = now }
    else s

pub missing_from : Dict Value → List String → List String
unfolding has
missing_from d [] = []
missing_from d (f ∷ fs) = let rest = missing_from d fs in if has d f then rest else f ∷ rest

unfoldable pub missing_intake_fields : CallState → List String
unfolding missing_from
missing_intake_fields s = missing_from s.intake intake_fields

abbrev pub critical_fields : List String
critical_fields = "full_name" ∷ "country_of_birth" ∷ "current_immigration_status" ∷ "case_type" ∷ []

unfoldable pub intake_complete : CallState → Bool
unfolding has
intake_complete s = all (has s.intake) critical_fields
