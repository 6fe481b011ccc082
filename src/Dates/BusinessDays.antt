-- ===== src/Dates/BusinessDays.antt =====
-- Which days the business-day loops find, and the fuel that is enough for them.
use native.Mathlib.Decide.{ℕ_discrete}
use ai_receptionist_for_immi.Prelude.{
  ℕ, zero, suc, ◌+◌, ◌*◌, ◌≤◌, ◌<◌, ◌≡◌, refl, inl, inr, some, List, [], ◌∷◌, arith, ltb, eqb,
  if◌then◌else◌, ltb→lt, Bool-cases, length,
}
use ai_receptionist_for_immi.Dates.{
  weekday, skip_weekend, next_business_day, business_days_from, get_next_business_days,
}

abbrev pub IsBusiness : ℕ → Type 0
IsBusiness day = weekday day < 5

-- the first business day from `day` on
pub record IsNext (day found : ℕ) : Type 0 where
  pub business : IsBusiness found
  pub from : day ≤ found
  pub soon : found ≤ day + 2
  pub first : (d : ℕ) → day ≤ d → d < found → 5 ≤ weekday d

-- the first business day, worked out
next_of : ℕ → ℕ
next_of day =
    if ltb (weekday day) 5 then day else if ltb (weekday (day + 1)) 5 then day + 1 else day + 2

none_between : (day d : ℕ) → day ≤ d → d < next_of day → 5 ≤ weekday d
unfolding next_of weekday
none_between day d a b = ground arith

next_of-IsNext : (day : ℕ) → IsNext day (next_of day)
next_of-IsNext day = record {
  business = unfold next_of weekday in (ground arith);
  from = unfold next_of in (ground arith);
  soon = unfold next_of in (ground arith);
  first = none_between day;
}

skip_weekend-eq : (fuel day : ℕ) → skip_weekend (suc (suc (suc fuel))) day ≡ some (next_of day)
unfolding skip_weekend next_of
skip_weekend-eq fuel day = ground arith

pub skip_weekend-some :
    (fuel day : ℕ)
    → 3 ≤ fuel
    → (found : ℕ) × (skip_weekend fuel day ≡ some found) × IsNext day found
skip_weekend-some zero day h = absurd (omega arith)
skip_weekend-some (suc zero) day h = absurd (omega arith)
skip_weekend-some (suc (suc zero)) day h = absurd (omega arith)
skip_weekend-some (suc (suc (suc fuel))) day h =
    (next_of day, skip_weekend-eq fuel day, next_of-IsNext day)

-- Three rounds are enough for the loop that skips a weekend, and it finds the first business day
-- after today, at most three days ahead.
pub next_business_day_found :
    (fuel today : ℕ)
    → 3 ≤ fuel
    → (found : ℕ) × (next_business_day fuel today ≡ some found) × IsNext (today + 1) found
unfolding next_business_day
next_business_day_found fuel today h = skip_weekend-some fuel (today + 1) h

-- `days` are the business days from `day` on, in order and without a gap
abbrev pub Runs : ℕ → List ℕ → Type 0
Runs day [] = Unit {0}
Runs day (d ∷ ds) = IsNext day d × Runs (d + 1) ds

later-IsNext : (day d : ℕ) → 5 ≤ weekday day → IsNext (day + 1) d → IsNext day d
later-IsNext day d w x = record {
  business = x.business;
  from = omega (arith, x.from);
  soon = unfold weekday in (ground (arith, x.first (day + 2), x.soon, w));
  first =
      λ e a b. elim (ℕ_discrete day e) [ yes q ↦ rw (← q) w | no q ↦ x.first e (omega arith) b ];
}

here-IsNext : (day : ℕ) → IsBusiness day → IsNext day day
here-IsNext day b = record {
  business = b;
  from = omega arith;
  soon = omega arith;
  first = λ d a c. absurd (omega arith);
}

later-Runs : (day : ℕ) (ds : List ℕ) → 5 ≤ weekday day → Runs (day + 1) ds → Runs day ds
later-Runs day [] w r = tt
later-Runs day (d ∷ ds) w (x, r) = (later-IsNext day d w x, r)

-- the days that may still be looked at for nothing
abbrev credit : ℕ → ℕ
credit w = if ltb w 5 then 2 else if eqb w 5 then 0 else 1

credit_weekend : (day : ℕ) → 5 ≤ weekday day → credit (weekday (day + 1)) ≡ credit (weekday day) + 1
unfolding weekday
credit_weekend day h = ground arith

business_days_from-Runs :
    (fuel n day : ℕ)
    → 3 * n ≤ fuel + credit (weekday day)
    → (days : List ℕ) × (business_days_from fuel n day ≡ some days)
      × (length days ≡ n)
      × Runs day days
unfolding business_days_from
business_days_from-Runs zero zero day h = ([], refl, refl, tt)
business_days_from-Runs (suc fuel) zero day h = ([], refl, refl, tt)
business_days_from-Runs zero (suc n) day h = absurd (ground arith)
business_days_from-Runs (suc fuel) (suc n) day h = elim (Bool-cases (ltb (weekday day) 5)) [
  | inl b ↦
      let enough : 3 * n ≤ fuel + credit (weekday (day + 1)) = ground arith in
      let (ds, e, l, r) = business_days_from-Runs fuel n (day + 1) enough in
      let is_day : IsBusiness day = ltb→lt (weekday day) 5 b in
      (day ∷ ds, rw b (rw e), omega (arith, l), (here-IsNext day is_day, r))
  | inr b ↦
      let off : 5 ≤ weekday day = ground arith in
      let enough : 3 * suc n ≤ fuel + credit (weekday (day + 1)) =
        ground (arith, credit_weekend day off) in
      let (ds, e, l, r) = business_days_from-Runs fuel (suc n) (day + 1) enough in
      (ds, rw b e, l, later-Runs day ds off r)
]

-- Three rounds for each day wanted are enough, and the result is exactly that many days: the first
-- business day from today on, and after each the next one, with none left out.
pub get_next_business_days_found :
    (fuel n today : ℕ)
    → 3 * n ≤ fuel
    → (days : List ℕ) × (get_next_business_days fuel n today ≡ some days)
      × (length days ≡ n)
      × Runs today days
unfolding get_next_business_days
get_next_business_days_found fuel n today h = business_days_from-Runs fuel n today (omega arith)
