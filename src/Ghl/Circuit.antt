-- ===== src/Ghl/Circuit.antt =====
-- app/crm/ghl_client.py: the circuit of the credentials while it is open, and how it closes.
use ai_receptionist_for_immi.Prelude.{
  ℕ, ◌+◌, ◌≤◌, ◌<◌, String, ◌≡◌, refl, ap, ◌∙◌, true, false, ◌||◌, Option, none, some, List, [],
  ◌∷◌, map, arith, eqb,
}
use ai_receptionist_for_immi.Dict.{Dict}
use ai_receptionist_for_immi.Value.{Value, null, array, nil}
use ai_receptionist_for_immi.Ghl.Answers.{Setup}
use ai_receptionist_for_immi.Ghl.Methods.{
  search_contact_by_phone, create_contact, add_tags, add_note,
}
use ai_receptionist_for_immi.Ghl.Appointments.{
  get_available_slots, create_appointment, update_appointment_status, get_appointment,
  create_opportunity, send_sms,
}
use ai_receptionist_for_immi.Ghl.Calls.{perform, perform_all, Call, waits, searches, lists_slots}
use ai_receptionist_for_immi.Ghl.{
  cred_retry_after, Server, acquire, exchange, send, Request, Client, Method, attribute_error,
  value_error, Result, returned, raised, answered,
}

-- The circuit is open, and the time to try again has not come.
pub record IsOpen (failed_at : ℕ) (c : Client) : Type 0 where
  pub rejected : c.creds_ok ≡ false
  pub failed : c.creds_failed_at ≡ some failed_at
  pub early : c.now < failed_at + cred_retry_after

-- how long a call lets pass by itself
abbrev pub waited : Call → ℕ
waited (waits d) = d
waited _ = 0

abbrev pub waited_all : List Call → ℕ
waited_all [] = 0
waited_all (call ∷ calls) = waited call + waited_all calls

-- what a call comes to while the circuit is open
abbrev dates_refused : Option ℕ → Option ℕ → Result Value
dates_refused (some _) (some _) = raised attribute_error
dates_refused _ _ = raised value_error

abbrev pub refusal : Setup → Call → Result Value
refusal setup (waits d) = returned null
refusal setup (searches query limit) = returned (array nil)
refusal setup (lists_slots from to tz) = dates_refused (setup.day_start from) (setup.day_end to)
refusal setup _ = raised attribute_error

-- what a call leaves of the client while the circuit is open
abbrev pub elapse : Call → Client → Client
elapse (waits d) c = record c { now = c.now + d }
elapse _ c = c

perform-IsOpen :
    (setup : Setup) (server : Server) (call : Call) (t : ℕ) (c : Client)
    → IsOpen t c
    → perform setup server call c ≡ (refusal setup call, elapse call c)
unfolding perform search_contact_by_phone create_contact add_tags add_note get_available_slots
    create_appointment update_appointment_status get_appointment create_opportunity send_sms
perform-IsOpen setup server (waits d) t c o = refl
perform-IsOpen setup server call t c o = ground (arith, o.rejected, o.failed, o.early)

elapse-IsOpen :
    (call : Call) (t : ℕ) (c : Client)
    → IsOpen t c
    → c.now + waited call < t + cred_retry_after
    → IsOpen t (elapse call c)
elapse-IsOpen (waits d) t c o h = record { rejected = o.rejected; failed = o.failed; early = h }
elapse-IsOpen call t c o h = o

elapse-waited : (call : Call) (c : Client) → (elapse call c).now ≡ c.now + waited call
elapse-waited (waits d) c = refl
elapse-waited call c = omega arith

elapse-sent : (call : Call) (c : Client) → (elapse call c).sent ≡ c.sent
elapse-sent (waits d) c = refl
elapse-sent call c = refl

-- The results of some calls, one after the other.
unfoldable pub results : Setup → Server → List Call → Client → List (Result Value)
unfolding perform
results setup server [] c = []
results setup server (call ∷ calls) c =
    let (r, after) = perform setup server call c in r ∷ results setup server calls after

-- While the circuit is open, whatever is called, no request is sent. But of the methods only the search
-- by a free text then returns, with no contacts: the others raise an AttributeError, where `None`, `False`
-- or `[]` is meant to come back, since their handlers read the status of a response that the error of
-- an open circuit does not have (`get_available_slots` raises a ValueError if it cannot read a date).
pub open_circuit_refuses :
    (setup : Setup) (server : Server) (calls : List Call) (t : ℕ) (c : Client)
    → IsOpen t c
    → c.now + waited_all calls < t + cred_retry_after
    → ((perform_all setup server calls c).sent ≡ c.sent)
      × (results setup server calls c ≡ map (refusal setup) calls)
unfolding perform_all results
open_circuit_refuses setup server [] t c o h = (refl, refl)
open_circuit_refuses setup server (call ∷ calls) t c o h =
    let later = elapse-IsOpen call t c o (omega (arith, h)) in
    let rest =
      open_circuit_refuses setup server calls t (elapse call c) later
        (omega (arith, h, elapse-waited call c)) in
    rw (perform_all, results, perform-IsOpen setup server call t c o)
      (rest.0 ∙ elapse-sent call c, ap (◌∷◌ (refusal setup call)) rest.1)

-- An answer of 401 or 403 opens a closed circuit at once, and it stays open until 300 seconds later.
pub rejected-IsOpen :
    (server : Server) (r : Request) (c : Client) (status took : ℕ) (body : Option Value)
    → server c.sent r ≡ (answered status body, took)
    → (eqb status 401 || eqb status 403) ≡ true
    → c.creds_ok ≡ true
    → IsOpen (c.now + took) (exchange server r c).1
unfolding exchange
rejected-IsOpen server r c status took body e s k = record {
  rejected = ground (arith);
  failed = ground (arith);
  early = ground arith;
}

sent-exchange :
    (server : Server) (r : Request) (c : Client) → (exchange server r c).1.sent ≡ r ∷ c.sent
unfolding exchange
sent-exchange server r c = ground arith

-- Once the 300 seconds have passed, the next request is sent again.
pub due_sends :
    (server : Server) (m : Method) (path : String) (d : Dict Value) (t : ℕ) (c : Client)
    → c.creds_ok ≡ false
    → c.creds_failed_at ≡ some t
    → t + cred_retry_after ≤ c.now
    → (send server m path d c).1.sent ≡ record { method = m; path = path; payload = d } ∷ c.sent
unfolding send
due_sends server m path d t c k f h =
    let after = acquire (record c { creds_ok = true; creds_failed_at = none }) in
    ground (arith, sent-exchange server (record { method = m; path = path; payload = d }) after)
