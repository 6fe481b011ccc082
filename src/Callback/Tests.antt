-- ===== src/Callback/Tests.antt =====
-- Runs of app/telephony/outbound_callback.py, and the theorems of this part at concrete inputs.
use Prim.Native.Char.{code}
use text.Mathlib.TextLemmas.{cons-append, head-eq_of_cons-eq}
use ai_receptionist_for_immi.Prelude.{
  ◌+◌, ◌≤◌, String, ◌≡◌, refl, sym, ap, ◌∙◌, ◌≢◌, inl, inr, true, Option, none, some, [], ◌∷◌,
  arith, ◌==◌, eq_iff, if◌then◌else◌, Bool-cases, ◌⊕◌, length, pos,
}
use ai_receptionist_for_immi.Callback.{
  process_item, pop_item, enqueue_callback, status_callback_push, Item, Env, create_task,
}
use ai_receptionist_for_immi.Callback.Retries.{
  put_back, dials, calls_left, left_over, dials-process_item,
}
use ai_receptionist_for_immi.Callback.Missed.{missed_call_dropped}
use ai_receptionist_for_immi.Callback.Promotion.{
  promote_delayed_callbacks, times, has_come, promote_delayed_callbacks-moved, Waiting,
}
use ai_receptionist_for_immi.Dict.{get}

abbrev plain : String → String
plain s = s

abbrev request : Item
request = record {
  caller_number = some "+15550100";
  caller_name = some "Ana";
  ghl_contact_id = some "c9";
  language = some "es";
  reason = none;
  requested_at = none;
  retries = pos 0;
}

abbrev busy : Env
busy = record {
  office_open = true;
  until_open = 0;
  now = 1000;
  today = 737_994;
  placed = none;
  found_contact = none;
}

enqueue_test : (enqueue_callback "+15550100" "es" "Ana" "c9" "visa" "now").retries ≡ pos 0
unfolding enqueue_callback
enqueue_test = refl

process_test :
    process_item plain "example.org" busy (record request { retries = pos 3 })
    ≡ create_task "c9" "Manual callback needed — +15550100"
        "Automated callback failed after 3 attempts.\nReason: not specified\nRequested at: unknown\nLanguage: es"
        737_997
      ∷ []
unfolding process_item
process_test = refl

dials-process_item_example :
    dials (process_item plain "example.org" busy request)
      + left_over (put_back (process_item plain "example.org" busy request))
    ≤ calls_left request.retries
dials-process_item_example = dials-process_item plain "example.org" busy request

-- a reader of JSON that knows one text
abbrev loads : String → Option Item
loads t = if t == "{}" then some request else none

plus-ne-brace : (t : String) → "+" ⊕ t ≢ "{}"
plus-ne-brace t h =
    absurd (omega (arith, ap code (head-eq_of_cons-eq (sym (cons-append "+" "" t) ∙ h))))

loads_plus : (t : String) → loads ("+" ⊕ t) ≡ none
loads_plus t = elim (Bool-cases ("+" ⊕ t == "{}")) [
  | inl e ↦ absurd (plus-ne-brace t ((eq_iff ("+" ⊕ t) "{}").0 e))
  | inr e ↦ rw e
]

missed_call_dropped_example :
    (raw : String) × (status_callback_push ("+" ⊕ "15550100") "CA1" "busy" ≡ some raw)
    × (pop_item loads (some raw) ≡ none)
missed_call_dropped_example =
    missed_call_dropped loads "15550100" "CA1" "busy" loads_plus (inr refl)

abbrev two_wait : Waiting
two_wait = record { callback_queue = "a" ∷ []; callback_delayed = ("b", 5) ∷ ("c", 9) ∷ [] }

promote_delayed_callbacks-moved_example :
    (times "b" (promote_delayed_callbacks 7 two_wait).1.callback_queue
      ≡ (if has_come 7 (get two_wait.callback_delayed "b") then 1 else 0)
        + times "b" two_wait.callback_queue)
    × (get (promote_delayed_callbacks 7 two_wait).1.callback_delayed "b" ≡ (
        if has_come 7 (get two_wait.callback_delayed "b")
        then none
        else get two_wait.callback_delayed "b"))
    × (length (promote_delayed_callbacks 7 two_wait).1.callback_queue
        ≡ (promote_delayed_callbacks 7 two_wait).0 + length two_wait.callback_queue)
unfolding get
promote_delayed_callbacks-moved_example =
    promote_delayed_callbacks-moved 7 "b" two_wait (refl, (refl, tt))
