-- ===== src/LeadScore/Bounds.antt =====
-- The ranges of the four parts and of the total.
use ai_receptionist_for_immi.Prelude.{
  ℕ, String, ◌≡◌, refl, arith, length, ◌+ℤ◌, ◌≤ℤ◌, ℤ, pos, negsuc,
}
use ai_receptionist_for_immi.Value.{Value}
use ai_receptionist_for_immi.Conversation.{CallState}
use ai_receptionist_for_immi.LeadScore.{
  case_value_of, min_ℤ, max_ℤ, urgency_points, completeness_points, case_type_raw, breakdown, score,
  Reply,
}

-- a part of the score in its range
abbrev pub InRange : ℤ → ℤ → ℤ → Type 0
InRange lo hi x = (lo ≤ℤ x) × (x ≤ℤ hi)

first_key_range : (raw : String) → InRange (pos 5) (pos 25) (case_value_of raw)
unfolding case_value_of
first_key_range raw = ground arith

urgency_range : (n : ℤ) → pos 0 ≤ℤ n → InRange (pos 0) (pos 25) (urgency_points n)
unfolding urgency_points
urgency_range (pos n) h = ground arith
urgency_range (negsuc n) h = absurd (omega arith)

completeness_range : (n : ℕ) → InRange (pos 0) (pos 25) (completeness_points n)
unfolding completeness_points
completeness_range n = ground arith

clamp_range : (x : ℤ) → InRange (pos 0) (pos 100) (min_ℤ (max_ℤ x (pos 0)) (pos 100))
clamp_range (pos n) = ground arith
clamp_range (negsuc n) = ground arith

clamp_sum :
    (a b c d : ℤ)
    → InRange (pos 5) (pos 25) a
    → InRange (pos 0) (pos 25) b
    → InRange (pos 0) (pos 25) c
    → InRange (pos 0) (pos 25) d
    → min_ℤ (max_ℤ (a +ℤ b +ℤ c +ℤ d) (pos 0)) (pos 100) ≡ a +ℤ b +ℤ c +ℤ d
unfolding ◌+ℤ◌
clamp_sum (pos a) (pos b) (pos c) (pos d) ha hb hc hd = ground arith
clamp_sum (negsuc a) b c d ha hb hc hd = absurd (omega arith)
clamp_sum a (negsuc b) c d ha hb hc hd = absurd (omega arith)
clamp_sum a b (negsuc c) d ha hb hc hd = absurd (omega arith)
clamp_sum a b c (negsuc d) ha hb hc hd = absurd (omega arith)

module _ (str_lower : Value → String) (s : CallState) (reply : Reply) where
  -- Whatever the model replies and whatever was collected, the total lies between 0 and 100, and it is the total
  -- that the state keeps.
  pub total_range :
      (sid : String)
      → InRange (pos 0) (pos 100) (score str_lower sid s reply).0.total
        × ((score str_lower sid s reply).1.lead_score ≡ (score str_lower sid s reply).0.total)
  unfolding score
  total_range sid =
      let case_points = case_value_of (case_type_raw str_lower s) in
      let urgent = urgency_points s.urgency_score in
      let complete = completeness_points (length s.intake) in
      let ready = (breakdown str_lower s reply).booking_readiness in
      (unfold breakdown in clamp_range (case_points +ℤ urgent +ℤ ready +ℤ complete), refl)

  -- With an urgency that is not negative and a readiness from 0 to 25, each part lies between 0 and 25 and the total is
  -- their sum, which the clamp leaves as it is.
  pub total-eq-sum :
      pos 0 ≤ℤ s.urgency_score
      → InRange (pos 0) (pos 25) (breakdown str_lower s reply).booking_readiness
      → let b = breakdown str_lower s reply in
        InRange (pos 5) (pos 25) b.case_value
        × InRange (pos 0) (pos 25) b.urgency
        × InRange (pos 0) (pos 25) b.data_completeness
        × (b.total ≡ b.case_value +ℤ b.urgency +ℤ b.booking_readiness +ℤ b.data_completeness)
  unfolding breakdown
  total-eq-sum u r =
      let case_points = case_value_of (case_type_raw str_lower s) in
      let urgent = urgency_points s.urgency_score in
      let complete = completeness_points (length s.intake) in
      let ready = (breakdown str_lower s reply).booking_readiness in
      let c = first_key_range (case_type_raw str_lower s) in
      let v = urgency_range s.urgency_score u in
      let d = completeness_range (length s.intake) in
      (c, v, d, clamp_sum case_points urgent ready complete c v r d)
