-- ===== src/Dates.antt =====
-- Business days, as app/scheduling/slot_cache.py, app/telephony/voicemail.py and
-- app/telephony/outbound_callback.py count them. A date is its ordinal (`date.toordinal()`).
pub mod BusinessDays
mod Tests
use mathlib.Core.Option
use ai_receptionist_for_immi.Prelude.{
  ℕ, zero, suc, ◌+◌, ◌%◌, Option, none, some, List, [], ◌∷◌, ltb, leb, if◌then◌else◌,
}

-- `date.weekday()`, which is `(toordinal() + 6) % 7`: Monday is 0
unfoldable pub weekday : ℕ → ℕ
weekday day = (day + 6) % 7

-- `while d.weekday() >= 5: d += timedelta(days=1)`, on fuel; `none` means that the fuel ran out
unfoldable pub skip_weekend : ℕ → ℕ → Option ℕ
unfolding weekday
skip_weekend zero day = none
skip_weekend (suc fuel) day =
    let rest = skip_weekend fuel (day + 1) in if leb 5 (weekday day) then rest else some day

-- `_next_business_day_iso()`, from today's date
unfoldable pub next_business_day : ℕ → ℕ → Option ℕ
unfolding skip_weekend
next_business_day fuel today = skip_weekend fuel (today + 1)

-- The loop of `get_next_business_days`: `n` is how many days are still wanted.
unfoldable pub business_days_from : ℕ → ℕ → ℕ → Option (List ℕ)
unfolding weekday
business_days_from fuel zero day = some []
business_days_from zero (suc n) day = none
business_days_from (suc fuel) (suc n) day =
    let more = business_days_from fuel n (day + 1) in
    let skipped = business_days_from fuel (suc n) (day + 1) in
    if ltb (weekday day) 5 then Option.map (λ days. day ∷ days) more else skipped

unfoldable pub get_next_business_days : ℕ → ℕ → ℕ → Option (List ℕ)
unfolding business_days_from
get_next_business_days fuel n today = business_days_from fuel n today
