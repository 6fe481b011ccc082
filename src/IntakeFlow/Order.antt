-- ===== src/IntakeFlow/Order.antt =====
-- Which question `next_question` chooses, and when there is none left.
use ai_receptionist_for_immi.Prelude.{
  String, ◌≡◌, subst, ◌⊎◌, inl, inr, true, false, Option, none, some, List, [], ◌∷◌, arith,
  Bool-cases,
}
use ai_receptionist_for_immi.Value.{has, Value}
use ai_receptionist_for_immi.Conversation.{intake_complete, CallState}
use ai_receptionist_for_immi.IntakeFlow.{
  intake_questions, condition_met, next_from, next_question, build_next_question_hint,
  IntakeQuestion,
}

-- neither answered nor ruled out by its condition
abbrev pub IsOpen : CallState → IntakeQuestion → Type 0
IsOpen s q = (has s.intake q.field ≡ false) × (condition_met q.condition s ≡ true)

-- answered, or ruled out
abbrev pub IsDone : CallState → IntakeQuestion → Type 0
IsDone s q = (has s.intake q.field ≡ true) ⊎ (condition_met q.condition s ≡ false)

abbrev pub AllDone : CallState → List IntakeQuestion → Type 0
AllDone s [] = Unit {0}
AllDone s (q ∷ qs) = IsDone s q × AllDone s qs

-- `q` is the first open question of the list
pub data IsFirst (s : CallState) (q : IntakeQuestion) : List IntakeQuestion → Type 0 where
  here : {qs : List IntakeQuestion} → IsOpen s q → IsFirst s q (q ∷ qs)
  there :
      {p : IntakeQuestion} {qs : List IntakeQuestion}
      → IsDone s p
      → IsFirst s q qs
      → IsFirst s q (p ∷ qs)

-- what a choice from a list of questions must be
abbrev pub Chooses : CallState → List IntakeQuestion → Option IntakeQuestion → Type 0
Chooses s qs none = AllDone s qs
Chooses s qs (some q) = IsFirst s q qs

Chooses-skip :
    (s : CallState) (p : IntakeQuestion) (qs : List IntakeQuestion) (r : Option IntakeQuestion)
    → IsDone s p
    → Chooses s qs r
    → Chooses s (p ∷ qs) r
Chooses-skip s p qs none d c = (d, c)
Chooses-skip s p qs (some q) d c = there d c

next_from-Chooses : (s : CallState) (qs : List IntakeQuestion) → Chooses s qs (next_from s qs)
unfolding next_from
next_from-Chooses s [] = tt
next_from-Chooses s (q ∷ qs) = elim (Bool-cases (has s.intake q.field)) [
  | inl answered ↦
      rw answered (Chooses-skip s q qs (next_from s qs) (inl answered) (next_from-Chooses s qs))
  | inr unanswered ↦ elim (Bool-cases (condition_met q.condition s)) [
    | inl met ↦ rw (unanswered, met) (here (unanswered, met))
    | inr unmet ↦
        rw (unanswered, unmet)
          (Chooses-skip s q qs (next_from s qs) (inr unmet) (next_from-Chooses s qs))
  ]
]

module _ (str_lower : Value → String) where
  -- The question chosen is the first of the script that has no answer and whose condition holds;
  -- none is chosen exactly if every question has an answer or a condition that fails.
  pub next_question-Chooses :
      (s : CallState) → Chooses s (intake_questions str_lower) (next_question str_lower s)
  unfolding next_question
  next_question-Chooses s = next_from-Chooses s (intake_questions str_lower)

  complete_of_done :
      (s : CallState) → AllDone s (intake_questions str_lower) → intake_complete s ≡ true
  unfolding intake_complete
  complete_of_done s h = ground arith

  -- When no question is left the critical fields are filled, so the hint is then empty: the text
  -- for an unfinished intake with no question left is never given.
  pub hint_of_none :
      (s : CallState)
      → next_question str_lower s ≡ none
      → (intake_complete s ≡ true) × (build_next_question_hint str_lower s ≡ "")
  unfolding build_next_question_hint
  hint_of_none s h =
      let done : intake_complete s ≡ true =
        complete_of_done s
          (subst (Chooses s (intake_questions str_lower)) h (next_question-Chooses s)) in
      (done, rw (h, build_next_question_hint) (rw done))
