-- ===== src/LeadScore.antt =====
-- app/agent/lead_scorer.py: the score of a lead after its call. What the language model replies is
-- an argument; the two writes to Redis are returned as a list, for they cannot fail the call.
pub mod Bounds
mod Tests
use ai_receptionist_for_immi.Prelude.{
  ℕ, ◌+◌, ◌*◌, ◌/◌, String, Option, none, some, List, [], ◌∷◌, if◌then◌else◌, contains, length,
  sub_ℕ, ◌+ℤ◌, ltb_ℤ, ℤ, pos, negsuc,
}
use ai_receptionist_for_immi.Dict.{get, get_or}
use ai_receptionist_for_immi.Value.{Value}
use ai_receptionist_for_immi.Conversation.{Turn, CallState}

pub record LeadScoreBreakdown : Type 0 where
  pub total : ℤ
  pub case_value : ℤ
  pub urgency : ℤ
  pub booking_readiness : ℤ
  pub data_completeness : ℤ
  pub top_signals : List String
  pub recommended_follow_up : String
  pub recommended_attorney_tier : String
  pub notes : String

abbrev pub case_type_value : List (String × ℕ)
case_type_value =
    ("removal_defense", 25)
    ∷ ("asylum", 22)
    ∷ ("employment", 20)
    ∷ ("family", 18)
    ∷ ("daca", 15)
    ∷ ("tps", 12)
    ∷ ("citizenship", 10)
    ∷ ("other", 8)
    ∷ ("unknown", 5)
    ∷ []

-- the first key of the table that occurs in the text
first_key : String → List (String × ℕ) → String
unfolding contains
first_key raw [] = "unknown"
first_key raw ((key, _) ∷ table) = if contains raw key then key else first_key raw table

unfoldable pub case_value_of : String → ℤ
unfolding first_key get_or get
case_value_of raw = pos (get_or case_type_value (first_key raw case_type_value) 5)

-- `math.ceil(score * 2.5)`: the product is exact in floating point
unfoldable pub ceil_scaled : ℤ → ℤ
ceil_scaled (pos n) = pos ((5 * n + 1) / 2)
ceil_scaled (negsuc n) = sub_ℕ 0 (5 * (n + 1) / 2)

-- `min(a, b)` and `max(a, b)`
abbrev pub min_ℤ : ℤ → ℤ → ℤ
min_ℤ a b = if ltb_ℤ b a then b else a

abbrev pub max_ℤ : ℤ → ℤ → ℤ
max_ℤ a b = if ltb_ℤ a b then b else a

unfoldable pub urgency_points : ℤ → ℤ
unfolding ceil_scaled
urgency_points score = min_ℤ (ceil_scaled score) (pos 25)

-- `min(int(total_fields / 6 * 25), 25)`: floating point agrees with the fraction up to six fields,
-- and from there on it is at least 25
unfoldable pub completeness_points : ℕ → ℤ
completeness_points total_fields = min_ℤ (pos (total_fields * 25 / 6)) (pos 25)

-- The arguments of the model's tool call. A key that is missing is `none`.
pub record Signals : Type 0 where
  pub booking_readiness_score : Option ℤ
  pub signals : Option (List String)
  pub follow_up : Option String
  pub attorney_tier : Option String
  pub remark : Option String

-- The reply: an exception, an answer without a tool call, or one with it.
pub data Reply : Type 0 where
  raises no_tool_call : Reply
  tool_call : Signals → Reply

abbrev pub or_else {ℓ} : {A : Type ℓ} → Option A → A → A
or_else none d = d
or_else (some a) d = a

abbrev default_signals : Signals
default_signals = record {
  booking_readiness_score = none;
  signals = none;
  follow_up = none;
  attorney_tier = none;
  remark = none;
}

-- the model is asked only if there are turns
abbrev pub heard : List Turn → Reply → Signals
heard [] r = default_signals
heard (_ ∷ _) raises = default_signals
heard (_ ∷ _) no_tool_call = default_signals
heard (_ ∷ _) (tool_call g) = g

pub data Write : Type 0 where
  cache_lead_score queue_lead_score_db : String → LeadScoreBreakdown → Write

-- `str_lower v` is `str(v).lower()`
module _ (str_lower : Value → String) where
  unfoldable pub case_type_raw : CallState → String
  unfolding get
  case_type_raw s = elim (get s.intake "case_type") [ none ↦ "unknown" | some v ↦ str_lower v ]

  unfoldable pub breakdown : CallState → Reply → LeadScoreBreakdown
  unfolding case_value_of urgency_points completeness_points case_type_raw ◌+ℤ◌
  breakdown s reply =
      let g = heard s.turns reply in
      let case_points = case_value_of (case_type_raw s) in
      let urgent = urgency_points s.urgency_score in
      let complete = completeness_points (length s.intake) in
      let ready = or_else g.booking_readiness_score (pos 10) in
      record {
        total = min_ℤ (max_ℤ (case_points +ℤ urgent +ℤ ready +ℤ complete) (pos 0)) (pos 100);
        case_value = case_points;
        urgency = urgent;
        booking_readiness = ready;
        data_completeness = complete;
        top_signals = or_else g.signals [];
        recommended_follow_up = or_else g.follow_up "next_day";
        recommended_attorney_tier = or_else g.attorney_tier "associate";
        notes = or_else g.remark "";
      }

  unfoldable pub score : String → CallState → Reply → LeadScoreBreakdown × CallState × List Write
  unfolding breakdown
  score sid s reply =
      let b = breakdown s reply in
      (
        b,
        record s { lead_score = b.total },
        cache_lead_score sid b ∷ queue_lead_score_db sid b ∷ [],
      )
