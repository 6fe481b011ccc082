-- ===== src/Dates/Tests.antt =====
-- The business-day loops at concrete dates; 737_994 is Friday, 23 July 2021.
use ai_receptionist_for_immi.Prelude.{◌≡◌, refl, some}
use ai_receptionist_for_immi.Dates.{weekday, next_business_day}

weekday_test : weekday 737_994 ≡ 4
unfolding weekday
weekday_test = refl

friday_test : next_business_day 3 737_994 ≡ some 737_997
unfolding next_business_day
friday_test = refl
