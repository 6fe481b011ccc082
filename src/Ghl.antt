-- ===== src/Ghl.antt =====
-- app/crm/ghl_client.py: the circuit of the credentials, the token bucket, and `_get`, `_post` and
-- `_put` of the CRM client. The globals of the module and the clock are one state, which each
-- operation passes on. Times are in milliseconds, and tokens in the milliseconds that earn them.
pub mod Answers
pub mod Methods
pub mod Appointments
pub mod Calls
pub mod Kept
pub mod Circuit
pub mod Limit
mod Tests
use ai_receptionist_for_immi.Prelude.{
  ℕ, ◌+◌, ◌-◌, ◌*◌, min, String, Bool, true, false, not, ◌&&◌, ◌||◌, Option, none, some, List, ◌∷◌,
  ltb, leb, eqb, if◌then◌else◌,
}
use ai_receptionist_for_immi.Dict.{Dict}
use ai_receptionist_for_immi.Value.{Value}

abbrev pub cred_retry_after : ℕ
cred_retry_after = 300 * 1000

-- 100 requests in 60 seconds: 600 milliseconds earn one token
abbrev pub token : ℕ
token = 600

abbrev pub capacity : ℕ
capacity = 100 * token

pub data Method : Type 0 where
  gets posts puts : Method

pub record Request : Type 0 where
  pub method : Method
  pub path : String
  -- the query parameters, or the JSON body
  pub payload : Dict Value

-- the clock, `_creds_ok`, `_creds_failed_at`, the bucket, and the requests sent, the last one first
pub record Client : Type 0 where
  pub now : ℕ
  pub creds_ok : Bool
  pub creds_failed_at : Option ℕ
  pub tokens : ℕ
  pub last_refill : ℕ
  pub sent : List Request

-- What the methods raise. `circuit_error` is the HTTPStatusError of an open circuit, which holds no
-- response; `status_error` holds the status of one.
-- `type_error` also stands for a KeyError.
pub data Error : Type 0 where
  status_error : ℕ → Error
  circuit_error attribute_error type_error value_error network_error : Error

pub data Result (A : Type 0) : Type 0 where
  returned : A → Result A
  raised : Error → Result A

abbrev pub Action : Type 0 → Type 0
Action A = Client → Result A × Client

module _ {A : Type 0} where
  abbrev pub pure : A → Action A
  pure a c = (returned a, c)

  abbrev pub throw : Error → Action A
  throw e c = (raised e, c)

  -- a result that the state has no part in: `none` raises `e`
  abbrev pub given : Error → Option A → Action A
  given e none = throw e
  given e (some a) = pure a

  -- `except httpx.HTTPStatusError as exc:` whose handler reads `exc.response.status_code`
  abbrev pub handled : A → Result A → Result A
  handled fallback (returned a) = returned a
  handled fallback (raised (status_error n)) = returned fallback
  handled fallback (raised circuit_error) = raised attribute_error
  handled fallback (raised attribute_error) = raised attribute_error
  handled fallback (raised type_error) = raised type_error
  handled fallback (raised value_error) = raised value_error
  handled fallback (raised network_error) = raised network_error

  abbrev pub guarded : A → Action A → Action A
  guarded fallback body c = let (r, after) = body c in (handled fallback r, after)

module _ {A B : Type 0} where
  abbrev pub and_then : Result A → (A → Action B) → Action B
  and_then (returned a) f = f a
  and_then (raised e) f = throw e

  infixl 5 ◌>>=◌
  abbrev pub ◌>>=◌ : Action A → (A → Action B) → Action B
  m >>= f = λ c. let (r, after) = m c in and_then r f after

-- The answer of the server: a status with its JSON body, where there is one, or no answer.
pub data Reply : Type 0 where
  answered : ℕ → Option Value → Reply
  unreachable : Reply

-- What the server makes of a request, behind those sent before it, and how long that takes.
abbrev pub Server : Type 0
Server = List Request → Request → Reply × ℕ

unfoldable pub mark_creds_failed : Client → Client
mark_creds_failed c =
    if c.creds_ok then record c { creds_failed_at = some c.now; creds_ok = false } else c

abbrev pub is_due : Client → Bool
is_due c = elim c.creds_failed_at [ none ↦ false | some t ↦ leb (t + cred_retry_after) c.now ]

unfoldable pub creds_available : Action Bool
creds_available c =
    if c.creds_ok
    then (returned true, c)
    else if is_due c
    then (returned true, record c { creds_ok = true; creds_failed_at = none })
    else (returned false, c)

-- `acquire`: what follows a sleep is at the time behind it, while `_last_refill` is not
unfoldable pub acquire : Client → Client
acquire c =
    let tokens = min capacity (c.tokens + (c.now - c.last_refill)) in
    if ltb tokens token
    then record c { now = c.now + (token - tokens); tokens = 0; last_refill = c.now }
    else record c { tokens = tokens - token; last_refill = c.now }

-- `raise_for_status()`, then `json()`
abbrev pub read_reply : ℕ → Option Value → Result Value
read_reply status body =
    if leb 200 status && leb status 299
    then elim body [ none ↦ raised value_error | some v ↦ returned v ]
    else raised (status_error status)

module _ (server : Server) where
  -- the request goes out, its answer comes in
  unfoldable pub exchange : Request → Action Value
  unfolding mark_creds_failed
  exchange r c =
      let (reply, took) = server c.sent r in
      let after = record c { now = c.now + took; sent = r ∷ c.sent } in
      elim reply [
        | unreachable ↦ (raised network_error, after)
        | answered status body ↦ (
          read_reply status body,
          if eqb status 401 || eqb status 403 then mark_creds_failed after else after,
        )
      ]

  -- `_get`, `_post` and `_put`, which differ in the method only
  unfoldable pub send : Method → String → Dict Value → Action Value
  unfolding creds_available acquire exchange
  send method path payload = do
    available ← creds_available
    if not available then throw circuit_error else λ c.
        exchange (record { method = method; path = path; payload = payload }) (acquire c)
