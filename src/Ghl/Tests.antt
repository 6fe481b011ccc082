-- ===== src/Ghl/Tests.antt =====
-- Runs of app/crm/ghl_client.py, and the theorems of this part at concrete inputs.
use ai_receptionist_for_immi.Prelude.{
  ◌+◌, ◌-◌, ◌*◌, ◌≤◌, ◌≡◌, refl, true, false, none, some, List, [], ◌∷◌, map, arith, length,
}
use ai_receptionist_for_immi.Value.{Value, text, array, object, nil, cons, end, field}
use ai_receptionist_for_immi.Ghl.{token, Server, Client, attribute_error, raised, answered}
use ai_receptionist_for_immi.Ghl.Answers.{Setup}
use ai_receptionist_for_immi.Dict.{get, get_or}
use ai_receptionist_for_immi.Worker.{fields_of}
use ai_receptionist_for_immi.Ghl.Methods.{get_contact, add_tags}
use ai_receptionist_for_immi.Ghl.Calls.{
  perform, perform_all, Call, waits, searches, reads_contact, tags, texts,
}
use ai_receptionist_for_immi.Ghl.Limit.{requests_bound, acquire_pairs, acquire_pairs-twice}
use ai_receptionist_for_immi.Ghl.Circuit.{refusal, results, open_circuit_refuses, IsOpen}

abbrev office : Setup
office = record {
  location_id = "loc";
  calendar_id = "cal";
  office_timezone = "US/Pacific";
  twilio_phone_number = "+15550100";
  bare_phone = λ t. "15550111";
  day_start = λ d. some 0;
  day_end = λ d. none;
  slot_times = λ t. none;
  distinct = λ vs. some vs;
  show_value = λ v. "";
}

abbrev known : Value
known = object (field "id" (text "c1") (field "tags" (array (cons (text "call-ai") nil)) end))

abbrev friendly : Server
friendly sent r = (answered 200 (some (object (field "contact" known end))), 40)

abbrev strict : Server
strict sent r = (answered 401 none, 40)

abbrev idle : Client
idle = record {
  now = 5000;
  creds_ok = true;
  creds_failed_at = none;
  tokens = 0;
  last_refill = 5000;
  sent = [];
}

abbrev closed_out : Client
closed_out = record idle { creds_ok = false; creds_failed_at = some 5000 }

tags_test :
    map (λ r. r.payload) (add_tags office friendly "c1" (text "lead-hot" ∷ []) idle).1.sent
    ≡ (("tags", array (cons (text "call-ai") (cons (text "lead-hot") nil))) ∷ []) ∷ [] ∷ []
unfolding add_tags get_or get fields_of
tags_test = refl

open_test : (perform office strict (reads_contact "c1") closed_out).0 ≡ raised attribute_error
unfolding perform get_contact
open_test = refl

requests_bound_example :
    let calls = reads_contact "c1" ∷ waits 100 ∷ texts "c1" "hello" "" ∷ [] in
    let after = perform_all office friendly calls idle in
    token * length after.sent
    ≤ token * length idle.sent
      + idle.tokens
      + ((after.now - idle.last_refill) + (after.now - idle.now))
requests_bound_example =
    requests_bound office friendly (reads_contact "c1" ∷ waits 100 ∷ texts "c1" "hello" "" ∷ [])
      idle (omega arith)

acquire_pairs-twice_example : (acquire_pairs 50 idle).now ≡ idle.now + token * 50
acquire_pairs-twice_example = acquire_pairs-twice 50 idle refl refl

closed_out-IsOpen : IsOpen 5000 closed_out
closed_out-IsOpen = record { rejected = refl; failed = refl; early = omega arith }

abbrev attempts : List Call
attempts = reads_contact "c1" ∷ waits 1000 ∷ tags "c1" [] ∷ searches "Ana" 5 ∷ []

open_circuit_refuses_example :
    ((perform_all office strict attempts closed_out).sent ≡ closed_out.sent)
    × (results office strict attempts closed_out ≡ map (refusal office) attempts)
open_circuit_refuses_example =
    open_circuit_refuses office strict attempts 5000 closed_out closed_out-IsOpen (omega arith)
