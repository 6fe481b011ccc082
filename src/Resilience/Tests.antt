-- ===== src/Resilience/Tests.antt =====
-- Runs of app/voice/resilience.py, and the theorems of this part at concrete inputs.
use ai_receptionist_for_immi.Prelude.{
  ℕ, ◌+◌, ◌≡◌, refl, true, false, some, [], ◌∷◌, arith, ltb, if◌then◌else◌,
}
use ai_receptionist_for_immi.Resilience.{
  new, is_open, get_breaker, retry_async, CircuitBreaker, open_circuit, Attempt, returned, raised,
  value,
}
use ai_receptionist_for_immi.Resilience.Trips.{
  apply_all, open_until_due, fail_all, IsSound, asked, failed_at,
}
use ai_receptionist_for_immi.Resilience.Retries.{retry_async-Ends, Ends}

abbrev young : CircuitBreaker
young = new 100

abbrev tripped : CircuitBreaker
tripped = record {
  failure_threshold = 3;
  window_seconds = 60;
  trip_seconds = 30;
  state = open_circuit;
  failure_count = 3;
  window_start = 100;
  tripped_at = 110;
}

trip_test : fail_all ((101, 101) ∷ (105, 105) ∷ (110, 110) ∷ []) young ≡ tripped
unfolding new fail_all
trip_test = refl

registry_test : (get_breaker (("ghl", tripped) ∷ []) "ghl" 200).1 ≡ tripped
unfolding get_breaker
registry_test = refl

young-IsSound : IsSound young
unfolding new
young-IsSound = record { threshold_pos = omega arith; below = λ e. omega arith }

open_until_due_example :
    (is_open 139 (apply_all tripped (failed_at 120 120 ∷ asked 130 ∷ []))).1 ≡ true
open_until_due_example =
    open_until_due tripped (failed_at 120 120 ∷ asked 130 ∷ []) 139 refl (omega arith) (omega arith)

-- the service fails twice and then answers
abbrev flaky : ℕ → Attempt ℕ ℕ
flaky n = if ltb n 2 then raised n else returned (10 + n)

abbrev ticks : ℕ → ℕ × ℕ
ticks n = (101 + n, 101 + n)

flaky_test :
    ((retry_async flaky ticks 4 2 100 (some young)).outcome ≡ value 12)
    × ((retry_async flaky ticks 4 2 100 (some young)).sleeps ≡ 4 ∷ 8 ∷ [])
unfolding retry_async new
flaky_test = (refl, refl)

lets_through : (c : CircuitBreaker) → some young ≡ some c → (is_open 100 c).1 ≡ false
unfolding new is_open
lets_through c e = ground arith

retry_async-Ends_example : Ends flaky ticks 4 0 2 [] (retry_async flaky ticks 4 2 100 (some young))
retry_async-Ends_example = retry_async-Ends flaky ticks 4 2 100 (some young) lets_through
