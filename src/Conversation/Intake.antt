-- ===== src/Conversation/Intake.antt =====
-- The intake fields of a call: what `record_intake` stores, and what is still missing.
use ai_receptionist_for_immi.Prelude.{
  ℕ, String, ◌≡◌, refl, ap, ◌∙◌, inl, inr, Bool, true, not, ◌&&◌, List, [], ◌∷◌, arith, ◌==◌,
  eq_iff, if◌then◌else◌, Bool-cases, any, all, is_in,
}
use ai_receptionist_for_immi.Dict.{Dict, put, keys, get-put}
use ai_receptionist_for_immi.Value.{truthy, has, Value}
use ai_receptionist_for_immi.Conversation.{
  intake_fields, record_intake, missing_from, missing_intake_fields, critical_fields,
  intake_complete, CallState,
}

pub has-put :
    (d : Dict Value) (k j : String) (v : Value)
    → has (put d k v) j ≡ (if k == j then truthy v else has d j)
unfolding has
has-put d k j v = rw (get-put, has) (ground arith)

is_in-missing_from :
    (d : Dict Value) (j : String) (fs : List String)
    → is_in j (missing_from d fs) ≡ (is_in j fs && not (has d j))
unfolding missing_from
is_in-missing_from d j [] = refl
is_in-missing_from d j (f ∷ fs) = ground (arith, eq_iff f j, is_in-missing_from d j fs)

pub is_in-missing :
    (s : CallState) (j : String)
    → is_in j (missing_intake_fields s) ≡ (is_in j intake_fields && not (has s.intake j))
unfolding missing_intake_fields
is_in-missing s j = is_in-missing_from s.intake j intake_fields

missing_after :
    (known : String → Bool) (k j : String) (v : Value) (d : Dict Value)
    → known k ≡ true
    → (known j && not (has (put d k v) j))
      ≡ (if k == j then not (truthy v) else known j && not (has d j))
missing_after known k j v d h = rw has-put (ground (arith, eq_iff k j, ap known))

-- After a value is recorded for a field, exactly that field's place in the list of missing fields
-- may change: it is missing if the value is false. An unknown field changes nothing.
pub missing-record_intake :
    (k j : String) (v : Value) (now : ℕ) (s : CallState)
    → is_in j (missing_intake_fields (record_intake k v now s)) ≡ (
        if k == j && is_in k intake_fields
        then not (truthy v)
        else is_in j (missing_intake_fields s))
unfolding record_intake
missing-record_intake k j v now s = elim (Bool-cases (is_in k intake_fields)) [
  | inl known ↦ rw known (
      is_in-missing (record s { intake = put s.intake k v; last_updated = now }) j
      ∙ missing_after (λ f. is_in f intake_fields) k j v s.intake known
      ∙ rw (← is_in-missing s j) (ground arith))
  | inr unknown ↦ rw unknown (ground arith)
]

-- The intake is complete exactly if no critical field is in the list of missing fields.
pub intake_complete_lem :
    (s : CallState)
    → intake_complete s ≡ not (any (λ f. is_in f (missing_intake_fields s)) critical_fields)
unfolding intake_complete
intake_complete_lem s = simp is_in-missing (ground arith)

-- A conversation records its answers one after another.
unfoldable pub record_all : List (String × Value) → ℕ → CallState → CallState
unfolding record_intake
record_all [] now s = s
record_all ((k, v) ∷ answers) now s = record_all answers now (record_intake k v now s)

-- every key of the dict is one of the intake fields
abbrev pub IsKnown : Dict Value → Type 0
IsKnown d = all (λ k. is_in k intake_fields) (keys d) ≡ true

all-keys-put :
    (test : String → Bool) (d : Dict Value) (k : String) (v : Value)
    → test k ≡ true
    → all test (keys d) ≡ true
    → all test (keys (put d k v)) ≡ true
unfolding put
all-keys-put test [] k v h i = rw h
all-keys-put test ((j, w) ∷ d) k v h i = ground (arith, all-keys-put test d k v h)

record_intake-IsKnown :
    (k : String) (v : Value) (now : ℕ) (s : CallState)
    → IsKnown s.intake
    → IsKnown (record_intake k v now s).intake
unfolding record_intake
record_intake-IsKnown k v now s h = elim (Bool-cases (is_in k intake_fields)) [
  | inl known ↦ rw known (all-keys-put (λ f. is_in f intake_fields) s.intake k v known h)
  | inr unknown ↦ rw unknown h
]

-- Whatever answers are recorded, under whatever names, a new call holds only intake fields.
pub record_all-IsKnown :
    (answers : List (String × Value)) (now : ℕ) (s : CallState)
    → IsKnown s.intake
    → IsKnown (record_all answers now s).intake
unfolding record_all
record_all-IsKnown [] now s h = h
record_all-IsKnown ((k, v) ∷ answers) now s h =
    record_all-IsKnown answers now (record_intake k v now s) (record_intake-IsKnown k v now s h)
