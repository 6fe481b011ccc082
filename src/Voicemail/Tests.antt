-- ===== src/Voicemail/Tests.antt =====
-- The theorem on app/telephony/voicemail.py at a concrete voicemail.
use ai_receptionist_for_immi.Prelude.{ℕ, String, ◌≡◌, refl, true, none}
use ai_receptionist_for_immi.Value.{null}
use ai_receptionist_for_immi.Voicemail.{is_emergency, Replies, nobody}

abbrev same : String → String
same t = t

abbrev seconds : ℕ → String
seconds n = "30"

-- the summary fails, and the CRM knows no contact and creates none
abbrev urgent : Replies
urgent = record {
  audio = true;
  transcript = "my brother was detained";
  summary = none;
  search = nobody;
  created = none;
  task_id = null;
}

emergency_test : is_emergency same seconds urgent.transcript ≡ true
unfolding is_emergency
emergency_test = refl
