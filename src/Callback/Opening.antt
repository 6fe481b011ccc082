-- ===== src/Callback/Opening.antt =====
-- The delay until the office opens.
use ai_receptionist_for_immi.Prelude.{ℕ, ◌+◌, ◌*◌, ◌≤◌, ◌<◌, ◌≡◌, some, arith}
use ai_receptionist_for_immi.Dates.BusinessDays.{skip_weekend-some, IsNext}
use ai_receptionist_for_immi.Callback.{
  office_open_tick, day_ticks, first_candidate, minutes_to, minutes_until_office_open,
}

candidate_ahead :
    (day tick target : ℕ)
    → tick < day_ticks
    → first_candidate day tick ≤ target
    → day * day_ticks + tick < target * day_ticks + office_open_tick
candidate_ahead day tick target t h = ground arith

-- Three rounds are enough to find the day. The delay is at least a minute, and after it the clock
-- stands less than a minute before nine o'clock of the first business day whose nine o'clock is still to come, or at
-- it, or less than a minute behind it.
pub minutes_until_office_open_found :
    (fuel day tick : ℕ)
    → 3 ≤ fuel
    → tick < day_ticks
    → (target minutes : ℕ) × (minutes_until_office_open fuel day tick ≡ some minutes)
      × IsNext (first_candidate day tick) target
      × (1 ≤ minutes)
      × (target * day_ticks + office_open_tick < day * day_ticks + tick + (minutes + 1) * 60000000)
      × (day * day_ticks + tick + minutes * 60000000
          < target * day_ticks + office_open_tick + 60000000)
unfolding minutes_until_office_open
minutes_until_office_open_found fuel day tick f t =
    let (target, e, n) = skip_weekend-some fuel (first_candidate day tick) f in
    let ahead = candidate_ahead day tick target t n.from in
    (
      target,
      minutes_to day tick target,
      rw e,
      n,
      omega arith,
      omega (arith, ahead),
      omega (arith, ahead),
    )
