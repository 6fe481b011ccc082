-- ===== src/CallRouter/Tests.antt =====
-- Runs of app/telephony/call_router.py, and the theorems of this part at concrete calls.
use ai_receptionist_for_immi.Prelude.{
  ℕ, String, ◌≡◌, refl, true, false, Option, none, some, ◌==◌, if◌then◌else◌, ℤ, pos,
}
use ai_receptionist_for_immi.CallRouter.{tick_at, is_office_open, Moment, Settings, InboundCall}

-- the three texts that the tests read
abbrev read_hm : String → Option (ℤ × ℤ)
read_hm t =
    if t == "09:00"
    then some (pos 9, pos 0)
    else if t == "18:00"
    then some (pos 18, pos 0)
    else none

abbrev cfg : Settings
cfg = record { office_hours_start = "09:00"; office_hours_end = "18:00"; base_host = "example.org" }

abbrev caller : InboundCall
caller = record {
  call_sid = "CA1";
  from_number = "+15550100";
  to_number = "+15550199";
  language = "en";
}

abbrev tuesday_at : ℕ → Moment
tuesday_at hour = record { weekday = 1; month_day = "03-04"; tick = tick_at hour 0 }

hours_test :
    (is_office_open read_hm "09:00" "18:00" (tuesday_at 9) ≡ some true)
    × (is_office_open read_hm "09:00" "18:00" (tuesday_at 18) ≡ some false)
unfolding is_office_open
hours_test = (refl, refl)
