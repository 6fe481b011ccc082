-- ===== src/CallRouter/Hours.antt =====
-- When the office counts as open.
use ai_receptionist_for_immi.Prelude.{
  ℕ, ◌≤◌, ◌<◌, String, ◌≡◌, ◌↔◌, true, false, not, ◌&&◌, Option, none, some, arith, ltb, leb, is_in,
  ℤ, pos,
}
use ai_receptionist_for_immi.CallRouter.{
  us_federal_holidays_mmdd, tick_at, replace_time, between, in_window, is_office_open, Moment,
}

module _ (read_hm : String → Option (ℤ × ℤ)) (hours_start hours_end : String) (now : Moment) where
  in_window_lem :
      (h m h' m' : ℕ)
      → read_hm hours_start ≡ some (pos h, pos m)
      → read_hm hours_end ≡ some (pos h', pos m')
      → (h < 24) × (m < 60) × (h' < 24) × (m' < 60)
      → in_window read_hm hours_start hours_end now.tick
        ≡ some (leb (tick_at h m) now.tick && ltb now.tick (tick_at h' m'))
  unfolding in_window replace_time between
  in_window_lem h m h' m' s e v = rw (s, in_window) (rw e (ground arith))

  -- With hours that are times of day, the office is open exactly on a weekday that is no holiday, from the
  -- first minute on and before the last.
  pub is_office_open_iff :
      (h m h' m' : ℕ)
      → read_hm hours_start ≡ some (pos h, pos m)
      → read_hm hours_end ≡ some (pos h', pos m')
      → (h < 24) × (m < 60) × (h' < 24) × (m' < 60)
      → (is_office_open read_hm hours_start hours_end now ≡ some true) ↔ (
          (now.weekday < 5)
          × (is_in now.month_day us_federal_holidays_mmdd ≡ false)
          × (tick_at h m ≤ now.tick)
          × (now.tick < tick_at h' m'))
  unfolding is_office_open
  is_office_open_iff h m h' m' s e v =
      let w = in_window_lem h m h' m' s e v in (λ o. ground (arith, w), λ o. ground (arith, w))

  -- Hours that cannot be read leave the office open at every time of a weekday that is no holiday, and
  -- closed on every other day.
  pub is_office_open_unreadable :
      read_hm hours_start ≡ none
      → is_office_open read_hm hours_start hours_end now
        ≡ some (ltb now.weekday 5 && not (is_in now.month_day us_federal_holidays_mmdd))
  unfolding is_office_open
  is_office_open_unreadable s = ground arith
