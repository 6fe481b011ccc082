-- ===== src/CallLog/Tests.antt =====
-- Runs of app/logging_analytics/call_logger.py and structured_data.py, and the theorems of this part at
-- concrete calls.
use ai_receptionist_for_immi.Prelude.{
  ◌≤◌, String, ◌≡◌, refl, true, false, List, [], ◌∷◌, ◌++◌, length,
}
use ai_receptionist_for_immi.Dict.{Dict}
use ai_receptionist_for_immi.Value.{Value, null, boolean, text}
use ai_receptionist_for_immi.CallLog.{
  log_turn, flush_turn_buffer, ghl_fields, to_ghl_custom_fields, Lists,
}
use ai_receptionist_for_immi.CallLog.Turns.{flush_turn_buffer-turns}

abbrev waiting : Lists
waiting = record { queue = "a" ∷ []; buffer = "b" ∷ "c" ∷ "d" ∷ [] }

-- the second push fails, and its turn is lost
lost_test :
    flush_turn_buffer 1 true waiting ≡ (1, record { queue = "a" ∷ "b" ∷ []; buffer = "d" ∷ [] })
unfolding flush_turn_buffer
lost_test = refl

log_test : (log_turn false true "e" waiting).buffer ≡ "b" ∷ "c" ∷ "d" ∷ "e" ∷ []
unfolding log_turn
log_test = refl

flush_turn_buffer-turns_example :
    ((lost : List String) × (length lost ≤ 1)
      × ((flush_turn_buffer 1 true waiting).1.queue
            ++ (lost ++ (flush_turn_buffer 1 true waiting).1.buffer)
          ≡ waiting.queue ++ waiting.buffer))
    × (flush_turn_buffer (length waiting.buffer) true waiting
        ≡ (length waiting.buffer, record { queue = waiting.queue ++ waiting.buffer; buffer = [] }))
flush_turn_buffer-turns_example = flush_turn_buffer-turns 1 true waiting

abbrev confirmed : Dict Value
confirmed = ("full_name", text "Ana Paz") ∷ ("case_type", text "asylum") ∷ []

abbrev extracted : Dict Value
extracted = ("full_name", text "Anna") ∷ ("case_type", text "visa") ∷ []

ghl_test :
    to_ghl_custom_fields
      (λ v. "?")
      ghl_fields
      (("hearing_date", null) ∷ ("immigration_emergency", boolean true) ∷ [])
    ≡ ("immigration_emergency", "Yes") ∷ []
unfolding to_ghl_custom_fields
ghl_test = refl
