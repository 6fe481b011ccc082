-- ===== src/IntakeFlow/Interview.antt =====
-- An interview that asks `next_question` again and again comes to an end.
use ai_receptionist_for_immi.Prelude.{
  ℕ, zero, suc, ◌+◌, ◌≤◌, String, ◌≡◌, refl, subst, inl, inr, Bool, true, Option, none, some, List,
  [], ◌∷◌, arith, eq_refl, if◌then◌else◌, Option-cases, all, is_in, both_true, length,
}
use ai_receptionist_for_immi.Dict.{Dict, put}
use ai_receptionist_for_immi.Value.{truthy, has, Value, boolean}
use ai_receptionist_for_immi.Conversation.{intake_fields, record_intake, intake_complete, CallState}
use ai_receptionist_for_immi.Conversation.Intake.{has-put}
use ai_receptionist_for_immi.IntakeFlow.{intake_questions, next_question, IntakeQuestion}
use ai_receptionist_for_immi.IntakeFlow.Order.{
  Chooses, next_question-Chooses, hint_of_none, IsFirst, here, there,
}

abbrev unanswered : Dict Value → List IntakeQuestion → ℕ
unanswered d [] = 0
unanswered d (q ∷ qs) = (if has d q.field then 0 else 1) + unanswered d qs

unanswered-put :
    (d : Dict Value) (k : String) (v : Value) (qs : List IntakeQuestion)
    → truthy v ≡ true
    → unanswered (put d k v) qs ≤ unanswered d qs
unanswered-put d k v [] h = omega arith
unanswered-put d k v (q ∷ qs) h = ground (arith, has-put d k q.field v, unanswered-put d k v qs h)

unanswered-put_first :
    {s : CallState} {q : IntakeQuestion} {qs : List IntakeQuestion} (v : Value)
    → truthy v ≡ true
    → IsFirst s q qs
    → suc (unanswered (put s.intake q.field v) qs) ≤ unanswered s.intake qs
unanswered-put_first {s} {q} v h (here {qs = qs} o) = ground (
  arith,
  eq_refl q.field,
  has-put s.intake q.field q.field v,
  unanswered-put s.intake q.field v qs h,
)
unanswered-put_first {s} {q} v h (there {p = p} d f) =
    ground (arith, has-put s.intake q.field p.field v, unanswered-put_first v h f)

fields_known : (String → Bool) → List IntakeQuestion → Bool
fields_known known qs = all (λ q. known q.field) qs

first-known :
    (known : String → Bool) {s : CallState} {q : IntakeQuestion} {qs : List IntakeQuestion}
    → IsFirst s q qs
    → fields_known known qs ≡ true
    → known q.field ≡ true
unfolding fields_known
first-known known {q = q} (here {qs = qs} o) k =
    (both_true (known q.field) (fields_known known qs) k).0
first-known known {q = q} (there {p = p} {qs = qs} d f) k =
    first-known known f (both_true (known p.field) (fields_known known qs) k).1

unanswered-le : (d : Dict Value) (qs : List IntakeQuestion) → unanswered d qs ≤ length qs
unanswered-le d [] = omega arith
unanswered-le d (q ∷ qs) = ground (arith, unanswered-le d qs)

module _ (str_lower : Value → String) (answer : IntakeQuestion → Value) (now : ℕ) where
  -- asks at most `n` questions and records the answers
  unfoldable pub interview : ℕ → CallState → CallState
  unfolding next_question record_intake
  interview zero s = s
  interview (suc n) s = elim (next_question str_lower s) [
    | none ↦ s
    | some q ↦ interview n (record_intake q.field (answer q) now s)
  ]

  script_known : fields_known (λ f. is_in f intake_fields) (intake_questions str_lower) ≡ true
  unfolding fields_known
  script_known = refl

  record_first :
      (s : CallState) (q : IntakeQuestion)
      → truthy (answer q) ≡ true
      → IsFirst s q (intake_questions str_lower)
      → suc
          (unanswered (record_intake q.field (answer q) now s).intake (intake_questions str_lower))
        ≤ unanswered s.intake (intake_questions str_lower)
  unfolding record_intake
  record_first s q h f =
      rw (first-known (λ f'. is_in f' intake_fields) f script_known)
        (unanswered-put_first (answer q) h f)

  none_left :
      (s : CallState) (o : Option IntakeQuestion)
      → Chooses s (intake_questions str_lower) o
      → unanswered s.intake (intake_questions str_lower) ≤ 0
      → o ≡ none
  none_left s none c h = refl
  none_left s (some q) c h =
      absurd (omega (arith, unanswered-put_first (boolean true) (unfold truthy in refl) c))

  interview-none :
      (n : ℕ) (s : CallState)
      → ((q : IntakeQuestion) → truthy (answer q) ≡ true)
      → unanswered s.intake (intake_questions str_lower) ≤ n
      → next_question str_lower (interview n s) ≡ none
  unfolding interview
  interview-none zero s t h =
      none_left s (next_question str_lower s) (next_question-Chooses str_lower s) h
  interview-none (suc n) s t h = elim (Option-cases (next_question str_lower s)) [
    | inl done ↦ rw (done, interview) done
    | inr (q, e) ↦
        rw (e, interview)
          (interview-none n (record_intake q.field (answer q) now s) t (
            omega (
              arith,
              record_first s q (t q) (
                  subst (Chooses s (intake_questions str_lower)) e
                    (next_question-Chooses str_lower s)),
            )))
  ]

  -- If every answer given is a true value, fifteen questions or more leave none to ask, whatever
  -- was known before and whatever conditions the answers switch on.
  pub interview_ends :
      (n : ℕ) (s : CallState)
      → ((q : IntakeQuestion) → truthy (answer q) ≡ true)
      → 15 ≤ n
      → (next_question str_lower (interview n s) ≡ none) × (intake_complete (interview n s) ≡ true)
  interview_ends n s t h =
      let none_then =
        interview-none n s t (omega (arith, unanswered-le s.intake (intake_questions str_lower))) in
      (none_then, (hint_of_none str_lower (interview n s) none_then).0)
