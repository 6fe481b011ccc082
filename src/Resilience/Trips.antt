-- ===== src/Resilience/Trips.antt =====
-- When the circuit breaker opens, how long it stays open, and how it closes again.
use ai_receptionist_for_immi.Prelude.{
  ℕ, suc, ◌+◌, ◌≤◌, ◌<◌, ◌≡◌, refl, ap, ◌∙◌, true, false, List, [], ◌∷◌, arith, length,
}
use ai_receptionist_for_immi.Resilience.{
  maybe_reset, record_success, record_failure, is_open, CircuitBreaker, closed, open_circuit,
}

-- while the circuit is closed, fewer failures are counted than trip it
pub record IsSound (b : CircuitBreaker) : Type 0 where
  pub threshold_pos : 0 < b.failure_threshold
  pub below : b.state ≡ closed → b.failure_count < b.failure_threshold

pub maybe_reset-IsSound : (now : ℕ) (b : CircuitBreaker) → IsSound b → IsSound (maybe_reset now b)
unfolding maybe_reset
maybe_reset-IsSound now b v = ground arith

pub record_failure-IsSound :
    (now later : ℕ) (b : CircuitBreaker) → IsSound b → IsSound (record_failure now later b)
unfolding record_failure
record_failure-IsSound now later b v = ground arith

pub record_success-IsSound : (b : CircuitBreaker) → IsSound b → IsSound (record_success b)
unfolding record_success
record_success-IsSound b v = ground arith

-- What a caller may do to a breaker, each with its readings of the clock.
pub data Call : Type 0 where
  asked : ℕ → Call
  succeeded : Call
  failed_at : ℕ → ℕ → Call

unfoldable pub apply : CircuitBreaker → Call → CircuitBreaker
apply b (asked now) = (is_open now b).0
apply b succeeded = record_success b
apply b (failed_at now later) = record_failure now later b

unfoldable pub apply_all : CircuitBreaker → List Call → CircuitBreaker
unfolding apply
apply_all b [] = b
apply_all b (c ∷ cs) = apply_all (apply b c) cs

apply-IsSound : (b : CircuitBreaker) (c : Call) → IsSound b → IsSound (apply b c)
unfolding apply is_open
apply-IsSound b (asked now) v = maybe_reset-IsSound now b v
apply-IsSound b succeeded v = record_success-IsSound b v
apply-IsSound b (failed_at now later) v = record_failure-IsSound now later b v

-- Whatever is done to a sound breaker, while it is closed it counts fewer failures than trip it.
pub apply_all-IsSound : (b : CircuitBreaker) (cs : List Call) → IsSound b → IsSound (apply_all b cs)
unfolding apply_all
apply_all-IsSound b [] v = v
apply_all-IsSound b (c ∷ cs) v = apply_all-IsSound (apply b c) cs (apply-IsSound b c v)

-- the clock readings of a call lie from `a` on, the first before `z`
abbrev pub Within : ℕ → ℕ → Call → Type 0
Within a z (asked now) = (a ≤ now) × (now < z)
Within a z succeeded = Unit {0}
Within a z (failed_at now later) = (a ≤ now) × (now < z) × (now ≤ later)

abbrev pub AllWithin : ℕ → ℕ → List Call → Type 0
AllWithin a z [] = Unit {0}
AllWithin a z (c ∷ cs) = Within a z c × AllWithin a z cs

record IsTripped (a d : ℕ) (b : CircuitBreaker) : Type 0 where
  opened : b.state ≡ open_circuit
  wait : b.trip_seconds ≡ d
  since : a ≤ b.tripped_at

apply-IsTripped :
    (a d : ℕ) (b : CircuitBreaker) (c : Call)
    → IsTripped a d b
    → Within a (a + d) c
    → IsTripped a d (apply b c)
unfolding apply is_open record_failure record_success
apply-IsTripped a d b (asked now) v h = ground arith
apply-IsTripped a d b succeeded v h = ground arith
apply-IsTripped a d b (failed_at now later) v h = ground arith

apply_all-IsTripped :
    (a d : ℕ) (b : CircuitBreaker) (cs : List Call)
    → IsTripped a d b
    → AllWithin a (a + d) cs
    → IsTripped a d (apply_all b cs)
unfolding apply_all
apply_all-IsTripped a d b [] v h = v
apply_all-IsTripped a d b (c ∷ cs) v h =
    apply_all-IsTripped a d (apply b c) cs (apply-IsTripped a d b c v h.0) h.1

-- A breaker that is open answers that it is, whatever was done to it in the meantime, until the trip
-- time has passed since it opened.
pub open_until_due :
    (b : CircuitBreaker) (cs : List Call) (now : ℕ)
    → b.state ≡ open_circuit
    → AllWithin b.tripped_at (b.tripped_at + b.trip_seconds) cs
    → now < b.tripped_at + b.trip_seconds
    → (is_open now (apply_all b cs)).1 ≡ true
unfolding is_open
open_until_due b cs now o h t =
    let v =
      apply_all-IsTripped b.tripped_at b.trip_seconds b cs
        (record { opened = o; wait = refl; since = omega arith }) h in
    ground (arith, v.opened, v.wait, v.since)

-- `n` failures in a row
unfoldable pub fail_all : List (ℕ × ℕ) → CircuitBreaker → CircuitBreaker
unfolding record_failure
fail_all [] b = b
fail_all ((now, later) ∷ ts) b = fail_all ts (record_failure now later b)

abbrev pub InWindow : ℕ → List (ℕ × ℕ) → Type 0
InWindow z [] = Unit {0}
InWindow z (t ∷ ts) = (t.0 < z) × InWindow z ts

fail_once :
    (b : CircuitBreaker) (now later k : ℕ)
    → b.state ≡ closed
    → now < b.window_start + b.window_seconds
    → b.failure_count + suc (suc k) ≡ b.failure_threshold
    → record_failure now later b ≡ record b { failure_count = b.failure_count + 1 }
unfolding record_failure
fail_once b now later k c w n = ground arith

fail_last :
    (b : CircuitBreaker) (now later : ℕ)
    → b.state ≡ closed
    → now < b.window_start + b.window_seconds
    → b.failure_count + 1 ≡ b.failure_threshold
    → (record_failure now later b).state ≡ open_circuit
unfolding record_failure
fail_last b now later c w n = ground arith

-- A closed breaker opens at the failure that makes the number counted in one window the threshold.
pub threshold_trips :
    (b : CircuitBreaker) (ts : List (ℕ × ℕ))
    → b.state ≡ closed
    → InWindow (b.window_start + b.window_seconds) ts
    → 0 < length ts
    → b.failure_count + length ts ≡ b.failure_threshold
    → (fail_all ts b).state ≡ open_circuit
unfolding fail_all
threshold_trips b [] c w p n = absurd (omega arith)
threshold_trips b ((now, later) ∷ []) c w p n = fail_last b now later c w.0 n
threshold_trips b ((now, later) ∷ t ∷ ts) c w p n =
    let b' = record b { failure_count = b.failure_count + 1 } in
    ap (λ x. (fail_all (t ∷ ts) x).state) (fail_once b now later (length ts) c w.0 n)
    ∙ threshold_trips b' (t ∷ ts) c w.1 (omega arith) (omega arith)

-- Once the trip time has passed, the next question makes the breaker half open and lets the caller
-- through; a failure then opens it again from the time of that failure, a success closes it with no failures counted.
pub probe_decides :
    (b : CircuitBreaker) (now n1 n2 : ℕ)
    → b.state ≡ open_circuit
    → b.tripped_at + b.trip_seconds ≤ now
    → let p = is_open now b in
      (p.1 ≡ false)
      × ((record_failure n1 n2 p.0).state ≡ open_circuit)
      × ((record_failure n1 n2 p.0).tripped_at ≡ n2)
      × ((record_success p.0).state ≡ closed)
      × ((record_success p.0).failure_count ≡ 0)
unfolding is_open record_failure record_success
probe_decides b now n1 n2 o h = ground arith
