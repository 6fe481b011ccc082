-- ===== src/Callback/Missed.antt =====
-- A missed call that the status webhook puts into the callback queue.
use text.Mathlib.TextLemmas.{append_assoc as text_assoc}
use ai_receptionist_for_immi.Prelude.{
  String, ◌≡◌, ap, ◌∙◌, ◌⊎◌, Option, none, some, arith, eq_iff, ◌⊕◌,
}
use ai_receptionist_for_immi.Callback.{pop_item, status_callback_push, Item}

-- For a caller whose number begins with a plus sign, as Twilio gives it, and whose call was missed, the
-- webhook pushes a text that the consumer drops, since no JSON text begins with that sign: the caller is not
-- called back.
pub missed_call_dropped :
    (loads : String → Option Item) (digits call_sid call_status : String)
    → ((t : String) → loads ("+" ⊕ t) ≡ none)
    → (call_status ≡ "no-answer") ⊎ (call_status ≡ "busy")
    → (raw : String) × (status_callback_push ("+" ⊕ digits) call_sid call_status ≡ some raw)
      × (pop_item loads (some raw) ≡ none)
unfolding pop_item status_callback_push
missed_call_dropped loads digits call_sid call_status h m =
    let rest = ":" ⊕ call_sid ⊕ ":" ⊕ call_status in
    (
      ("+" ⊕ digits) ⊕ rest,
      ground (arith, eq_iff "no-answer" call_status, eq_iff "busy" call_status),
      ap loads (text_assoc "+" digits rest) ∙ h (digits ⊕ rest),
    )
