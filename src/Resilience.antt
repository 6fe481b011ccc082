-- ===== src/Resilience.antt =====
-- app/voice/resilience.py: the circuit breaker of a service and the retry loop around a call of it.
-- A reading of `time.monotonic()` is an argument, in ticks; where a method reads the clock twice it
-- takes two. A method that mutates `self` returns the new breaker.
pub mod Trips
pub mod Retries
mod Tests
use mathlib.Core.Option
use ai_receptionist_for_immi.Prelude.{
  ℕ, zero, suc, ◌+◌, ◌*◌, ◌^◌, String, Bool, true, false, Option, none, some, List, [], ◌∷◌, ◌++◌,
  leb, if◌then◌else◌,
}
use ai_receptionist_for_immi.Dict.{Dict, get, put}

pub data CbState : Type 0 where
  closed open_circuit half_open : CbState

pub record CircuitBreaker : Type 0 where
  pub failure_threshold : ℕ
  pub window_seconds : ℕ
  pub trip_seconds : ℕ
  pub state : CbState
  pub failure_count : ℕ
  pub window_start : ℕ
  pub tripped_at : ℕ

-- `CircuitBreaker(name)` with its default arguments
unfoldable pub new : ℕ → CircuitBreaker
new now = record {
  failure_threshold = 3;
  window_seconds = 60;
  trip_seconds = 30;
  state = closed;
  failure_count = 0;
  window_start = now;
  tripped_at = 0;
}

unfoldable pub maybe_reset : ℕ → CircuitBreaker → CircuitBreaker
maybe_reset now b = elim b.state [
  | open_circuit ↦
      if leb (b.tripped_at + b.trip_seconds) now then record b { state = half_open } else b
  | closed ↦
      if leb (b.window_start + b.window_seconds) now
      then record b { failure_count = 0; window_start = now }
      else b
  | half_open ↦ b
]

unfoldable pub record_success : CircuitBreaker → CircuitBreaker
record_success b = elim b.state [
  | half_open ↦ record b { state = closed; failure_count = 0 }
  | closed ↦ b
  | open_circuit ↦ b
]

unfoldable pub trip : ℕ → CircuitBreaker → CircuitBreaker
trip now b = record b { state = open_circuit; tripped_at = now }

-- what follows `_maybe_reset()` in `record_failure`
count_failure : ℕ → CircuitBreaker → CircuitBreaker
count_failure later b =
    let counted = record b { failure_count = b.failure_count + 1 } in
    elim b.state [
      | half_open ↦ trip later b
      | closed ↦
          if leb b.failure_threshold (b.failure_count + 1) then trip later counted else counted
      | open_circuit ↦
          if leb b.failure_threshold (b.failure_count + 1) then trip later counted else counted
    ]

unfoldable pub record_failure : ℕ → ℕ → CircuitBreaker → CircuitBreaker
unfolding maybe_reset count_failure trip
record_failure now later b = count_failure later (maybe_reset now b)

abbrev is_open_state : CbState → Bool
is_open_state open_circuit = true
is_open_state _ = false

-- `is_open()`: the `state` property may first move an open breaker to half open
unfoldable pub is_open : ℕ → CircuitBreaker → CircuitBreaker × Bool
unfolding maybe_reset
is_open now b = let b' = maybe_reset now b in (b', is_open_state b'.state)

-- `get_breaker`: the registry makes a breaker for a service at its first use
unfoldable pub get_breaker : Dict CircuitBreaker → String → ℕ → Dict CircuitBreaker × CircuitBreaker
unfolding get put new
get_breaker registry service now = elim (get registry service) [
  | some b ↦ (registry, b)
  | none ↦ (put registry service (new now), new now)
]

-- what one call of the wrapped function does: `rejected` is its raising `CircuitBreakerOpen`
pub data Attempt (A X : Type 0) : Type 0 where
  returned : A → Attempt A X
  rejected : Attempt A X
  raised : X → Attempt A X

-- How `retry_async` ends: with a value, with `CircuitBreakerOpen`, or with the last exception.
pub data Outcome (A X : Type 0) : Type 0 where
  value : A → Outcome A X
  breaker_open : Outcome A X
  failed : X → Outcome A X

-- the outcome, the breaker left behind, the calls made and the delays slept
pub record Run (A X : Type 0) : Type 0 where
  pub outcome : Outcome A X
  pub breaker : Option CircuitBreaker
  pub calls : ℕ
  pub sleeps : List ℕ

module _ {A X : Type 0} (call : ℕ → Attempt A X) (clock : ℕ → ℕ × ℕ) (base_delay : ℕ) where
  -- the rounds of the loop from number `attempt` on, of which `left` may still follow this one
  unfoldable pub attempts : ℕ → ℕ → Option CircuitBreaker → List ℕ → Run A X
  unfolding record_success record_failure
  attempts zero attempt b slept = elim (call attempt) [
    | returned a ↦ record {
      outcome = value a;
      breaker = Option.map record_success b;
      calls = attempt + 1;
      sleeps = slept;
    }
    | rejected ↦ record { outcome = breaker_open; breaker = b; calls = attempt + 1; sleeps = slept }
    | raised x ↦ record {
      outcome = failed x;
      breaker = Option.map (record_failure (clock attempt).0 (clock attempt).1) b;
      calls = attempt + 1;
      sleeps = slept;
    }
  ]
  attempts (suc left) attempt b slept = elim (call attempt) [
    | returned a ↦ record {
      outcome = value a;
      breaker = Option.map record_success b;
      calls = attempt + 1;
      sleeps = slept;
    }
    | rejected ↦ record { outcome = breaker_open; breaker = b; calls = attempt + 1; sleeps = slept }
    | raised x ↦
        attempts left (attempt + 1)
          (Option.map (record_failure (clock attempt).0 (clock attempt).1) b)
          (slept ++ base_delay * 2 ^ attempt ∷ [])
  ]

  -- behind the check of the breaker
  pub start : ℕ → CircuitBreaker × Bool → Run A X
  start retries (b, true) = record {
    outcome = breaker_open;
    breaker = some b;
    calls = 0;
    sleeps = [];
  }
  start retries (b, false) = attempts retries 0 (some b) []

  -- `breaker` is `none` where no service is named
  unfoldable pub retry_async : ℕ → ℕ → Option CircuitBreaker → Run A X
  unfolding start is_open attempts
  retry_async retries now none = attempts retries 0 none []
  retry_async retries now (some b) = start retries (is_open now b)
