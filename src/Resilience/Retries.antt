-- ===== src/Resilience/Retries.antt =====
-- How many calls the retry loop makes, how it ends, and how long it waits.
use mathlib.Core.Option
use native.Mathlib.Decide.{ℕ_discrete}
use ai_receptionist_for_immi.Prelude.{
  ℕ, zero, suc, ◌+◌, ◌-◌, ◌*◌, ◌^◌, ◌≤◌, ◌<◌, ◌≡◌, refl, sym, ap, subst, ◌∙◌, ◌⊎◌, inl, inr, Bool,
  true, false, Option, none, some, List, [], ◌∷◌, ◌++◌, append-nil, append_assoc, arith,
}
use ai_receptionist_for_immi.Resilience.{
  record_failure, is_open, attempts, start, retry_async, CircuitBreaker, Run, open_circuit, Attempt,
  returned, rejected, raised, Outcome, value, breaker_open, failed,
}

-- the first `n` of the delays that double, from the delay of call `first` on
abbrev pub doubling : ℕ → ℕ → ℕ → List ℕ
doubling base_delay first zero = []
doubling base_delay first (suc n) = base_delay * 2 ^ first ∷ doubling base_delay (first + 1) n

module _ {A X : Type 0} (call : ℕ → Attempt A X) (clock : ℕ → ℕ × ℕ) (base_delay : ℕ) where
  -- the call of this number raised
  abbrev pub Raised : ℕ → Type 0
  Raised i = (x : X) × (call i ≡ raised x)

  -- what the outcome says of the call with number `last`; only the last of all may have raised
  abbrev pub Decides : ℕ → ℕ → Outcome A X → Type 0
  Decides last bound (value a) = call last ≡ returned a
  Decides last bound breaker_open = call last ≡ rejected
  Decides last bound (failed x) = (call last ≡ raised x) × (last ≡ bound)

  -- The loop, entered at call `first`, has ended after the call `last`, at most `bound`.
  pub record Ends (first bound : ℕ) (slept : List ℕ) (r : Run A X) : Type 0 where
    pub last : ℕ
    pub counted : r.calls ≡ last + 1
    pub at_least : first ≤ last
    pub at_most : last ≤ bound
    pub raised_before : (i : ℕ) → first ≤ i → i < last → Raised i
    pub last_decides : Decides last bound r.outcome
    pub waited : r.sleeps ≡ slept ++ doubling base_delay first (last - first)

  last_call :
      (n bound : ℕ) (slept : List ℕ) (r : Run A X)
      → r.calls ≡ n + 1
      → n ≤ bound
      → Decides n bound r.outcome
      → r.sleeps ≡ slept
      → Ends n bound slept r
  last_call n bound slept r c b d w = record {
    last = n;
    counted = c;
    at_least = omega arith;
    at_most = b;
    raised_before = λ i h k. absurd (omega arith);
    last_decides = d;
    waited =
        let none_left : 0 ≡ n - n = omega arith in
        w ∙ sym (append-nil slept) ∙ ap (λ k. slept ++ doubling base_delay n k) none_left;
  }

  after_raise :
      (n bound : ℕ) (slept : List ℕ) (r : Run A X)
      → Raised n
      → Ends (n + 1) bound (slept ++ base_delay * 2 ^ n ∷ []) r
      → Ends n bound slept r
  after_raise n bound slept r x e = record {
    last = e.last;
    counted = e.counted;
    at_least = omega (arith, e.at_least);
    at_most = e.at_most;
    raised_before = λ i h k. elim (ℕ_discrete i n) [
      | yes e0 ↦ subst Raised (sym e0) x
      | no ne ↦ e.raised_before i (omega arith) k
    ];
    last_decides = e.last_decides;
    waited =
        let one_more : suc (e.last - (n + 1)) ≡ e.last - n = omega (arith, e.at_least) in
        e.waited
        ∙ append_assoc slept (base_delay * 2 ^ n ∷ [])
            (doubling base_delay (n + 1) (e.last - (n + 1)))
        ∙ ap (λ k. slept ++ doubling base_delay n k) one_more;
  }

  Attempt-cases : (n : ℕ) → ((a : A) × (call n ≡ returned a)) ⊎ ((call n ≡ rejected) ⊎ Raised n)
  Attempt-cases n = go (call n) refl
    where
      go :
          (t : Attempt A X)
          → call n ≡ t
          → ((a : A) × (call n ≡ returned a)) ⊎ ((call n ≡ rejected) ⊎ Raised n)
      go (returned a) e = inl (a, e)
      go rejected e = inr (inl e)
      go (raised x) e = inr (inr (x, e))

  attempts-Ends :
      (left n : ℕ) (b : Option CircuitBreaker) (slept : List ℕ)
      → Ends n (n + left) slept (attempts call clock base_delay left n b slept)
  unfolding attempts
  attempts-Ends zero n b slept = elim (Attempt-cases n) [
    | inl (a, e) ↦
        last_call n (n + 0) slept _ (rw (e, attempts)) (omega arith) (rw (e, attempts) e)
          (rw (e, attempts))
    | inr (inl e) ↦
        last_call n (n + 0) slept _ (rw (e, attempts)) (omega arith) (rw (e, attempts) e)
          (rw (e, attempts))
    | inr (inr (x, e)) ↦
        last_call n (n + 0) slept _ (rw (e, attempts)) (omega arith)
          (rw (e, attempts) (e, omega arith)) (rw (e, attempts))
  ]
  attempts-Ends (suc left) n b slept = elim (Attempt-cases n) [
    | inl (a, e) ↦
        last_call n (n + suc left) slept _ (rw (e, attempts)) (omega arith) (rw (e, attempts) e)
          (rw (e, attempts))
    | inr (inl e) ↦
        last_call n (n + suc left) slept _ (rw (e, attempts)) (omega arith) (rw (e, attempts) e)
          (rw (e, attempts))
    | inr (inr (x, e)) ↦
        let b' = Option.map (record_failure (clock n).0 (clock n).1) b in
        let slept' = slept ++ base_delay * 2 ^ n ∷ [] in
        after_raise n (n + suc left) slept _ (x, e)
          (rw (e, attempts)
            (subst
              (λ t. Ends (n + 1) t slept' (attempts call clock base_delay left (n + 1) b' slept'))
              (omega arith) (attempts-Ends left (n + 1) b' slept')))
  ]

  from_first :
      (retries : ℕ) (b : Option CircuitBreaker)
      → Ends 0 retries [] (attempts call clock base_delay retries 0 b [])
  from_first retries b =
      subst (λ t. Ends 0 t [] (attempts call clock base_delay retries 0 b [])) (omega arith)
        (attempts-Ends retries 0 b [])

  start-Ends :
      (retries : ℕ) (p : CircuitBreaker × Bool)
      → p.1 ≡ false
      → Ends 0 retries [] (start call clock base_delay retries p)
  unfolding start
  start-Ends retries (b, true) h = cc
  start-Ends retries (b, false) h = from_first retries (some b)

  -- Without a breaker, or with one that lets the call through, at least one call is made and at most
  -- `retries + 1`, and all calls but the last raised. The result is what the last call gave: a value, the
  -- rejection by a breaker of its own, at any call, or an exception, only at call number `retries + 1`. The
  -- waits between the calls are, in this order, `base_delay`, twice, four times it and so on.
  pub retry_async-Ends :
      (retries now : ℕ) (b : Option CircuitBreaker)
      → ((c : CircuitBreaker) → b ≡ some c → (is_open now c).1 ≡ false)
      → Ends 0 retries [] (retry_async call clock base_delay retries now b)
  unfolding retry_async
  retry_async-Ends retries now none h = from_first retries none
  retry_async-Ends retries now (some c) h = start-Ends retries (is_open now c) (h c refl)

  start-open :
      (retries : ℕ) (p : CircuitBreaker × Bool)
      → p.1 ≡ true
      → start call clock base_delay retries p
        ≡ record { outcome = breaker_open; breaker = some p.0; calls = 0; sleeps = [] }
  unfolding start
  start-open retries (b, true) h = refl
  start-open retries (b, false) h = cc

  -- An open breaker whose trip time has not passed makes no call: the outcome says so, the breaker
  -- stays as it is and nothing is slept.
  pub retry_async-open :
      (retries now : ℕ) (c : CircuitBreaker)
      → c.state ≡ open_circuit
      → now < c.tripped_at + c.trip_seconds
      → retry_async call clock base_delay retries now (some c)
        ≡ record { outcome = breaker_open; breaker = some c; calls = 0; sleeps = [] }
  unfolding retry_async
  retry_async-open retries now c o h =
      start-open retries (is_open now c) (unfold is_open in (ground arith))
      ∙ ap (λ b. record { outcome = breaker_open; breaker = some b; calls = 0; sleeps = [] })
          (unfold is_open in (ground arith))
