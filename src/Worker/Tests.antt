-- ===== src/Worker/Tests.antt =====
-- Runs of app/logging_analytics/db_worker.py, and the theorems of this part at concrete items.
use ai_receptionist_for_immi.Prelude.{
  String, ◌≡◌, refl, ◌⊎◌, Bool, true, false, Option, none, some, [], ◌∷◌, ◌++◌, ◌==◌, eqb,
  if◌then◌else◌, take, drop, pos, negsuc,
}
use ai_receptionist_for_immi.Dict.{Dict, get, get_or, get-append}
use ai_receptionist_for_immi.Value.{truthy, Value, integer, text, object, end, field}
use ai_receptionist_for_immi.Worker.{safe_date, Services, Effect, dead_letter}
use ai_receptionist_for_immi.Worker.Sync.{conversation_row}
use ai_receptionist_for_immi.Worker.Queues.{Lists, dispatch, rounds}
use ai_receptionist_for_immi.Worker.Merging.{skeleton_keeps}
use ai_receptionist_for_immi.Worker.Kept.{is_critical, IsWritten, IsGivenUp, critical_item_kept}
use ai_receptionist_for_immi.Worker.Drained.{of_queue, rounds-drain}

-- a lead score, a text that is no JSON, and the payload of a call that is cut off
abbrev parsed : String → Option Value
parsed raw =
    if raw == "score"
    then some (object (field "call_sid" (text "CA1") (field "total" (integer (pos 80)) end)))
    else if raw == "call"
    then some (object (field "call_sid" (text "CA1") (field "lead_score" (integer (negsuc 0)) end)))
    else none

abbrev same_text : String → String
same_text t = t

-- the database is down
abbrev down : Services
down = record {
  accepts = λ e. false;
  loads = parsed;
  now = "now";
  iso_of_ms = λ v. none;
  iso_before = λ v. none;
  call_hash = λ v. some (("from", "+1") ∷ ("call_status", "completed") ∷ []);
  read_int = λ t. none;
  str = λ v. "";
  lower = same_text;
  strip = same_text;
  is_iso_date = λ t. t == "2026-01-02";
  other_date = λ t. if t == "31/12/2020" then some (31, 12, "2020") else none;
  two_digits = λ n. if eqb n 31 then "31" else "12";
  is_email = λ t. false;
  find_contact = λ v. some none;
  find_appointment = λ v. some none;
  law_firm_name = "Firm";
  booking_url = "url";
}

dead_letter_test : dispatch down "audit_log_queue" "no json" ≡ []
unfolding dispatch
dead_letter_test = refl

date_test : safe_date down (text "31/12/2020") ≡ text "2020-31-12"
unfolding safe_date
date_test = refl

abbrev skeleton : Dict Value
skeleton = ("call_sid", text "CA1") ∷ ("lead_score", integer (negsuc 0)) ∷ []

abbrev skeleton_row : Dict Value
skeleton_row =
    ("call_sid", text "CA1")
    ∷ ("language_detected", text "en")
    ∷ ("updated_at", text "now")
    ∷ ("channel", text "phone")
    ∷ ("caller_phone", text "+1")
    ∷ ("call_outcome", text "dropped")
    ∷ []

row_test : conversation_row down (text "CA1") skeleton [] ≡ some skeleton_row
unfolding conversation_row
row_test = refl

-- the columns of the new row, and those of the stored one that it does not have
abbrev over : Dict Value → Dict Value → Dict Value
over stored new = new ++ stored

abbrev stored_row : Dict Value
stored_row = ("lead_score", integer (pos 80)) ∷ ("appointment_id", text "a1") ∷ []

skeleton_keeps_example :
    get (over stored_row skeleton_row) "lead_score" ≡ get stored_row "lead_score"
unfolding get_or get truthy
skeleton_keeps_example =
    skeleton_keeps down over (text "CA1") skeleton [] skeleton_row stored_row "lead_score"
      (λ stored new k h. get-append new stored k h)
      (record { no_score = refl; no_time = refl; no_appointment = refl; no_transfer = refl })
      row_test refl

-- only the list of the items that were given up can be written
abbrev takes_given_up : Effect → Bool
takes_given_up (dead_letter queue raw) = true
takes_given_up _ = false

abbrev redis_up : Services
redis_up = record down { accepts = takes_given_up }

critical_item_kept_example :
    IsWritten redis_up (dispatch redis_up "lead_score_queue" "score")
    ⊎ IsGivenUp redis_up "lead_score_queue" "score" (dispatch redis_up "lead_score_queue" "score")
unfolding is_critical
critical_item_kept_example =
    critical_item_kept redis_up "lead_score_queue" "score"
      (field "call_sid" (text "CA1") (field "total" (integer (pos 80)) end)) refl refl refl

abbrev waiting : Lists
waiting name = if name == "db_sync_queue" then "a" ∷ "b" ∷ "c" ∷ [] else "x" ∷ []

rounds-drain_example :
    (of_queue "db_sync_queue" (rounds 2 waiting).1 ≡ take 2 (waiting "db_sync_queue"))
    × ((rounds 2 waiting).0 "db_sync_queue" ≡ drop 2 (waiting "db_sync_queue"))
rounds-drain_example = rounds-drain "db_sync_queue" 2 waiting refl
