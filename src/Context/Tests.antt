-- ===== src/Context/Tests.antt =====
-- Runs of app/voice/context_manager.py, and the theorems of this part at concrete calls.
use ai_receptionist_for_immi.Prelude.{
  ℕ, zero, suc, ◌≤◌, ◌<◌, String, count, ◌≡◌, refl, subst, Option, none, some, List, [], ◌∷◌, ◌++◌,
  map, arith, ◌⊕◌, length, ℤ,
}
use ai_receptionist_for_immi.Value.{Value}
use ai_receptionist_for_immi.Conversation.{new, CallState}
use ai_receptionist_for_immi.Context.{summary_max_chars, merge_summary}
use ai_receptionist_for_immi.Context.Window.{
  turn_of, speak, left_out, left_out-append-turns, Spoken,
}

abbrev fresh : CallState
fresh = new "CA1" 100

abbrev said_by : String → Option String → Spoken
said_by who o = record { speaker = who; said = "hello"; fragment = o }

abbrev talk : List Spoken
talk =
    said_by "user" none
    ∷ said_by "assistant" none
    ∷ said_by "user" none
    ∷ said_by "assistant" none
    ∷ said_by "user" none
    ∷ said_by "assistant" none
    ∷ said_by "user" (some "They greet.")
    ∷ []

talk_test : (length (speak fresh talk).turns ≡ 3) × ((speak fresh talk).summary ≡ "They greet.")
unfolding new speak merge_summary
talk_test = (refl, refl)

left_out-append-turns_example :
    left_out fresh talk ++ (speak fresh talk).turns ≡ fresh.turns ++ map turn_of talk
left_out-append-turns_example = left_out-append-turns fresh talk

fits : (f : String) → some "They greet." ≡ some f → count f ≤ summary_max_chars
fits f e =
    subst (λ (t : String). count t ≤ summary_max_chars) {x = "They greet."} {y = f} (cc e)
      (omega arith)

abbrev short_talk : List Spoken
short_talk = said_by "user" (some "They greet.") ∷ []

repeated : ℕ → String
repeated zero = ""
repeated (suc n) = "abcdefghijklmnopqrstuvwxyz" ⊕ repeated n

long_enough : summary_max_chars < count ("old" ⊕ "\n" ⊕ repeated 100)
unfolding repeated
long_enough = omega arith

abbrev repr : Value → String
repr v = "?"

abbrev show : ℤ → String
show n = "0"
