-- ===== src/Conversation/Phases.antt =====
-- The phases of a call: `advance_phase`, `increment_turns` and `force_phase` over many turns.
use ai_receptionist_for_immi.Prelude.{
  ℕ, zero, suc, ◌+◌, ◌-◌, ◌≤◌, ◌<◌, min, String, ◌≡◌, refl, ◌∙◌, ◌⊎◌, inl, inr, Option, none, some,
  List, [], ◌∷◌, arith, ltb, if◌then◌else◌, Bool-cases,
}
use ai_receptionist_for_immi.Conversation.{
  phase_order, min_turns_per_phase, new, index_from, enter_next, advance_phase, increment_turns,
  CallState, Phase, greeting, identification, urgency_triage, intake_phase, consultation_pitch,
  booking, confirmation, closing,
}

-- the place of a phase in the order, and the turns that must have passed before it
abbrev pub rank : Phase → ℕ
rank greeting = 0
rank identification = 1
rank urgency_triage = 2
rank intake_phase = 3
rank consultation_pitch = 4
rank booking = 5
rank confirmation = 6
rank closing = 7

abbrev pub turns_before : Phase → ℕ
turns_before greeting = 0
turns_before identification = 1
turns_before urgency_triage = 2
turns_before intake_phase = 3
turns_before consultation_pitch = 6
turns_before booking = 7
turns_before confirmation = 8
turns_before closing = 9

-- what one call of `advance_phase` may do
pub data Advances (s : CallState) (r : Option Phase × CallState) : Type 0 where
  stays :
      r ≡ (none, s)
      → (s.phase_turns < min_turns_per_phase s.phase) ⊎ (s.phase ≡ closing)
      → Advances s r
  moves :
      (next : Phase)
      → r ≡ (some next, record s { phase = next; phase_turns = 0 })
      → min_turns_per_phase s.phase ≤ s.phase_turns
      → rank next ≡ rank s.phase + 1
      → turns_before next ≡ turns_before s.phase + min_turns_per_phase s.phase
      → Advances s r

-- the next phase, as a table
abbrev pub successor : Phase → Option Phase
successor greeting = some identification
successor identification = some urgency_triage
successor urgency_triage = some intake_phase
successor intake_phase = some consultation_pitch
successor consultation_pitch = some booking
successor booking = some confirmation
successor confirmation = some closing
successor closing = none

abbrev pub enter : CallState → Option Phase → Option Phase × CallState
enter s none = (none, s)
enter s (some next) = (some next, record s { phase = next; phase_turns = 0 })

enter_next-eq-enter :
    (s : CallState) (p : Phase) → enter_next s (index_from 0 phase_order p) ≡ enter s (successor p)
unfolding enter_next index_from
enter_next-eq-enter s greeting = refl
enter_next-eq-enter s _ = refl

pub advance_phase_lem :
    (s : CallState)
    → advance_phase s ≡ (
        if ltb s.phase_turns (min_turns_per_phase s.phase)
        then (none, s)
        else enter s (successor s.phase))
unfolding advance_phase
advance_phase_lem s = rw (enter_next-eq-enter s s.phase)

moves_on :
    (s : CallState) (p : Phase)
    → s.phase ≡ p
    → min_turns_per_phase s.phase ≤ s.phase_turns
    → advance_phase s ≡ enter s (successor p)
    → Advances s (advance_phase s)
unfolding min_turns_per_phase
moves_on s greeting e h q = moves identification q h (cc) (ground arith)
moves_on s identification e h q = moves urgency_triage q h (ground arith) (ground arith)
moves_on s urgency_triage e h q = moves intake_phase q h (ground arith) (ground arith)
moves_on s intake_phase e h q = moves consultation_pitch q h (ground arith) (ground arith)
moves_on s consultation_pitch e h q = moves booking q h (ground arith) (ground arith)
moves_on s booking e h q = moves confirmation q h (ground arith) (ground arith)
moves_on s confirmation e h q = moves closing q h (ground arith) (ground arith)
moves_on s closing e h q = stays q (inr e)

-- One call either changes nothing, because the phase is the last or has had too few turns, or
-- enters the next phase of the order with its turn counter at 0.
pub advance_phase_cases : (s : CallState) → Advances s (advance_phase s)
advance_phase_cases s = elim (Bool-cases (ltb s.phase_turns (min_turns_per_phase s.phase))) [
  | inl early ↦ stays (advance_phase_lem s ∙ ground arith) (inl (ground arith))
  | inr ready ↦ moves_on s s.phase refl (ground arith) (advance_phase_lem s ∙ ground arith)
]

-- the events of a call that move it through its phases
pub data Event : Type 0 where
  spoke : ℕ → Event
  advanced : Event

unfoldable pub step : CallState → Event → CallState
step s (spoke now) = increment_turns now s
step s advanced = (advance_phase s).1

unfoldable pub run : CallState → List Event → CallState
unfolding step
run s [] = s
run s (e ∷ es) = run (step s e) es

abbrev pub IsEarned : CallState → Type 0
IsEarned s = turns_before s.phase + s.phase_turns ≤ s.turn_count

advanced-IsEarned :
    (s : CallState) (r : Option Phase × CallState) → Advances s r → IsEarned s → IsEarned r.1
advanced-IsEarned s r (stays q w) h = rw q h
advanced-IsEarned s r (moves next q m k t) h = rw q (omega arith)

step-IsEarned : (s : CallState) (e : Event) → IsEarned s → IsEarned (step s e)
unfolding step increment_turns
step-IsEarned s (spoke now) h = omega arith
step-IsEarned s advanced h = advanced-IsEarned s (advance_phase s) (advance_phase_cases s) h

run-IsEarned : (s : CallState) (es : List Event) → IsEarned s → IsEarned (run s es)
unfolding run
run-IsEarned s [] h = h
run-IsEarned s (e ∷ es) h = run-IsEarned (step s e) es (step-IsEarned s e h)

-- However a new call is advanced, it is in a phase only after the turns that all earlier phases ask for: nine
-- for the last one.
pub phase_needs_turns :
    (sid : String) (now : ℕ) (es : List Event)
    → let s = run (new sid now) es in turns_before s.phase + s.phase_turns ≤ s.turn_count
phase_needs_turns sid now es = run-IsEarned (new sid now) es (unfold new in (omega arith))

-- `n` rounds of one turn and one try to advance
unfoldable pub rounds : ℕ → ℕ → CallState → CallState
unfolding increment_turns
rounds zero now s = s
rounds (suc n) now s = rounds n now (advance_phase (increment_turns now s)).1

-- how many rounds a phase with so many turns may still be away from the last one
abbrev owed_in : Phase → ℕ → ℕ
owed_in p t = 9 - turns_before p - min t (min_turns_per_phase p - 1)

abbrev owed : CallState → ℕ
owed s = owed_in s.phase s.phase_turns

owed-stays :
    (p : Phase) (t : ℕ)
    → (t + 1 < min_turns_per_phase p) ⊎ (p ≡ closing)
    → owed_in p (t + 1) ≤ owed_in p t - 1
unfolding min_turns_per_phase
owed-stays intake_phase t h = ground arith
owed-stays _ t h = ground arith

last_or_waits : (p : Phase) → (1 ≤ min_turns_per_phase p) ⊎ (9 ≤ turns_before p)
unfolding min_turns_per_phase
last_or_waits closing = inr (omega arith)
last_or_waits greeting = inl (omega arith)
last_or_waits _ = inl (omega arith)

owed-advanced :
    (t : ℕ) (s : CallState) (r : Option Phase × CallState)
    → s.phase_turns ≡ t + 1
    → Advances s r
    → owed r.1 ≤ owed_in s.phase t - 1
owed-advanced t s r c (stays q w) = rw q (rw c (owed-stays s.phase t (rw c at w)))
owed-advanced t s r c (moves next q m k b) = rw q (omega (arith, last_or_waits s.phase))

owed-zero : (s : CallState) (p : Phase) → s.phase ≡ p → owed_in p s.phase_turns ≤ 0 → p ≡ closing
unfolding min_turns_per_phase
owed-zero s closing e h = refl
owed-zero s greeting e h = absurd (omega arith)
owed-zero s _ e h = absurd (omega arith)

rounds-closing : (n now : ℕ) (s : CallState) → owed s ≤ n → (rounds n now s).phase ≡ closing
unfolding rounds increment_turns
rounds-closing zero now s h = owed-zero s s.phase refl h
rounds-closing (suc n) now s h =
    let t = increment_turns now s in
    rounds-closing n now (advance_phase t).1
      (omega (arith, owed-advanced s.phase_turns t (advance_phase t) refl (advance_phase_cases t)))

-- Nine rounds of one turn and one call of `advance_phase`, or more, bring a call from any state to
-- the last phase.
pub nine_rounds_close : (n now : ℕ) (s : CallState) → 9 ≤ n → (rounds n now s).phase ≡ closing
nine_rounds_close n now s h = rounds-closing n now s (omega arith)
