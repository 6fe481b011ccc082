-- ===== src/Ghl/Limit.antt =====
-- app/crm/ghl_client.py: how many requests the token bucket lets through.
use ai_receptionist_for_immi.Prelude.{
  ℕ, zero, suc, ◌+◌, ◌-◌, ◌*◌, ◌≤◌, String, ◌≡◌, not, List, arith, if◌then◌else◌, length,
}
use ai_receptionist_for_immi.Dict.{Dict}
use ai_receptionist_for_immi.Value.{Value}
use ai_receptionist_for_immi.Ghl.Answers.{Setup}
use ai_receptionist_for_immi.Ghl.Calls.{perform_all, Call}
use ai_receptionist_for_immi.Ghl.Kept.{Keeps, bind-Keeps, if-Keeps, perform_all-Keeps}
use ai_receptionist_for_immi.Ghl.{
  token, throw, Server, creds_available, acquire, exchange, send, Request, Client, Method,
  circuit_error,
}

-- `before` is the client at some earlier time: a token is paid for by what the bucket held, by the
-- time that has filled it, or by a sleep
record IsPaid (before c : Client) : Type 0 where
  refilled : before.last_refill ≤ c.last_refill
  read_before : c.last_refill ≤ c.now
  paid :
      token * length c.sent + c.tokens + before.last_refill + before.now
      ≤ token * length before.sent + before.tokens + c.last_refill + c.now

-- the same behind `acquire`, which has paid for one request more
record IsPaidAhead (before c : Client) : Type 0 where
  refilled : before.last_refill ≤ c.last_refill
  read_before : c.last_refill ≤ c.now
  paid :
      token * length c.sent + token + c.tokens + before.last_refill + before.now
      ≤ token * length before.sent + before.tokens + c.last_refill + c.now

module _ (before : Client) (server : Server) where
  acquire-IsPaidAhead : (c : Client) → IsPaid before c → IsPaidAhead before (acquire c)
  unfolding acquire
  acquire-IsPaidAhead c p = ground (arith, p.refilled, p.read_before, p.paid)

  exchange-IsPaid :
      (r : Request) (c : Client) → IsPaidAhead before c → IsPaid before (exchange server r c).1
  unfolding exchange
  exchange-IsPaid r c p = ground (arith, p.refilled, p.read_before, p.paid)

  asked-IsPaid : Keeps (IsPaid before) creds_available
  unfolding creds_available
  asked-IsPaid c p = ground (arith, p.refilled, p.read_before, p.paid)

  send-IsPaid :
      (m : Method) (path : String) (d : Dict Value) → Keeps (IsPaid before) (send server m path d)
  unfolding send
  send-IsPaid m path d =
      let request : Request = record { method = m; path = path; payload = d } in
      bind-Keeps (IsPaid before) creds_available
        (λ available.
          if not available then throw circuit_error else λ c. exchange server request (acquire c))
        asked-IsPaid
        λ available.
          if-Keeps (IsPaid before) (not available) (throw circuit_error)
            (λ c. exchange server request (acquire c)) (λ c p. p)
            (λ c p. exchange-IsPaid request (acquire c) (acquire-IsPaidAhead c p))

  passing-IsPaid :
      (d : ℕ) (c : Client) → IsPaid before c → IsPaid before (record c { now = c.now + d })
  passing-IsPaid d c p = ground (arith, p.refilled, p.read_before, p.paid)

-- Whatever methods are called and however the server answers, the requests that are sent, at 600
-- milliseconds each, are at most what the bucket held before plus twice the time that has passed
-- since its last refill: each millisecond may count once as a refill and once as a sleep.
pub requests_bound :
    (setup : Setup) (server : Server) (calls : List Call) (before : Client)
    → before.last_refill ≤ before.now
    → let after = perform_all setup server calls before in
      token * length after.sent
      ≤ token * length before.sent
        + before.tokens
        + ((after.now - before.last_refill) + (after.now - before.now))
requests_bound setup server calls before h =
    let after = perform_all setup server calls before in
    let p =
      perform_all-Keeps setup server (IsPaid before) (passing-IsPaid before server)
        (asked-IsPaid before server) (send-IsPaid before server) calls before
        (record { refilled = omega arith; read_before = h; paid = omega arith }) in
    omega (arith, p.refilled, p.read_before, p.paid)

-- `n` times two calls of `acquire`, each as soon as the one before has returned
unfoldable pub acquire_pairs : ℕ → Client → Client
unfolding acquire
acquire_pairs zero c = c
acquire_pairs (suc n) c = acquire_pairs n (acquire (acquire c))

acquire_pair :
    (c : Client)
    → c.tokens ≡ 0
    → c.last_refill ≡ c.now
    → let after = acquire (acquire c) in
      (after.tokens ≡ 0) × (after.last_refill ≡ after.now) × (after.now ≡ c.now + token)
unfolding acquire
acquire_pair c e l = ground arith

-- The bucket lets two requests through in the time of one: from an empty bucket, 2 n calls of `acquire`
-- return within n times 600 milliseconds, since a sleep also counts as a refill for the next call.
pub acquire_pairs-twice :
    (n : ℕ) (c : Client)
    → c.tokens ≡ 0
    → c.last_refill ≡ c.now
    → (acquire_pairs n c).now ≡ c.now + token * n
unfolding acquire_pairs
acquire_pairs-twice zero c e l = omega arith
acquire_pairs-twice (suc n) c e l =
    let p = acquire_pair c e l in
    omega (arith, p.2, acquire_pairs-twice n (acquire (acquire c)) p.0 p.1)
