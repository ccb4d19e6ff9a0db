-- ===== src/SampleBands.antt =====
-- Runs of the time bands, and their theorems at concrete inputs.
use lucid_gate.Prelude.{
  ℕ, ◌*◌, ◌<◌, ◌≡◌, ◌⊎◌, inl, inr, pos, true, false, not, ◌&&◌, some, List, [], ◌∷◌, Bytes, codes,
  All, map, refl, arith,
}
use Prim.Native.Nat.{min}
use lucid_gate.Text.{◌=ᵇ◌, is_empty, has_key}
use lucid_gate.Filter.Fold.{lower_ascii}
use lucid_gate.Lists.Outcome.{loaded}
use lucid_gate.Schedule.Rules.{
  ScheduleWindow, valid, new_schedule_rules, add_windows, allowed, windows_of, parse_clock_minute,
  parse_weekday, cut, clock_minute,
}
use lucid_gate.Schedule.Opening.{HasWindow, SomeOpens}
use lucid_gate.SampleRules.{clock, digits}
use lucid_gate.TimeBands.Bands.{TimeBand}
use lucid_gate.TimeBands.Intervals.{
  interval, subtract_intervals, subtract_block, write_at, cut_interval, blocked_intervals_by_day,
  block_bands, block_days, block_day, allowed_intervals_by_day, allow_windows, allow_window,
  allow_days, window_interval, schedule_window_days, mark_window_days,
}
use lucid_gate.TimeBands.Restriction.{
  restrict_schedule_windows_by_time_bands, restrict_profiles, restrict_days, interval_windows,
  interval_window, schedule_profile_names, add_profile_names, add_profile_name, minute_clock,
  weekday_name, two_digits,
}
use lucid_gate.TimeBands.Subtraction.{covers, covered}
use lucid_gate.TimeBands.Exactness.{subtract_intervals_exact}
use lucid_gate.TimeBands.Weeks.{Any, Blocks}
use lucid_gate.TimeBands.Clocks.{PlainTexts, is_plain, parse_clock_minute-minute_clock}
use lucid_gate.TimeBands.Opened.{restrict-SomeOpens}

subtract_intervals_exact_example :
    covered
      (subtract_intervals (interval 0 1440 ∷ []) (interval 480 540 ∷ (interval 720 780 ∷ [])))
      500
    ≡ (covers (interval 0 1440) 500
        && not (covered (interval 480 540 ∷ (interval 720 780 ∷ [])) 500))
subtract_intervals_exact_example =
    subtract_intervals_exact (interval 0 1440) (interval 480 540 ∷ (interval 720 780 ∷ [])) 500
      (omega arith)

-- A block that splits the first of two intervals writes over the second one: the afternoon is lost.
afternoon_lost :
    subtract_intervals (interval 480 720 ∷ (interval 840 1080 ∷ [])) (interval 540 600 ∷ [])
    ≡ interval 480 540 ∷ (interval 600 720 ∷ (interval 600 720 ∷ []))
unfolding subtract_intervals subtract_block write_at cut_interval
afternoon_lost = refl

lower-plain : (c : ℕ) → is_plain c ≡ true → lower_ascii c ≡ c
unfolding lower_ascii
lower-plain c h = ground arith

map-lower_ascii : (s : Bytes) → All (λ c. is_plain c ≡ true) s → map lower_ascii s ≡ s
map-lower_ascii [] h = refl
map-lower_ascii (c ∷ s) h = ground (arith, lower-plain c h.0, map-lower_ascii s h.1)

digits-two_digits : (n : ℕ) → n < 100 → digits (two_digits n) ≡ some (pos n)
digits-two_digits n h = ground arith

clock-PlainTexts : PlainTexts clock
clock-PlainTexts = record {
  trim_space-plain = λ s h. refl;
  to_lower-plain = map-lower_ascii;
  atoi-two_digits = digits-two_digits;
}

parse_clock_minute-minute_clock_example :
    parse_clock_minute clock (minute_clock 605) ≡ some (min 605 (24 * 60))
parse_clock_minute-minute_clock_example = parse_clock_minute-minute_clock clock clock-PlainTexts 605

-- Noon on Mondays.
abbrev lunch : TimeBand
lunch = record {
  path = codes "bannedtimelist";
  line = 1;
  days = false ∷ true ∷ false ∷ false ∷ false ∷ false ∷ false ∷ [];
  start = 720;
  end = 780;
}

-- Mondays from 08:00 to 14:30, for pupils.
abbrev school : ScheduleWindow
school = record {
  profile = codes "pupils";
  days = codes "mon" ∷ [];
  start = codes "08:00";
  end = codes "14:30";
}

abbrev around_lunch : List ScheduleWindow
around_lunch =
    record school { start = codes "08:00"; end = codes "12:00" }
    ∷ (record school { start = codes "13:00"; end = codes "14:30" } ∷ [])

lunch-restricts :
    restrict_schedule_windows_by_time_bands clock (school ∷ []) [] (lunch ∷ [])
    ≡ loaded around_lunch
unfolding restrict_schedule_windows_by_time_bands restrict_profiles restrict_days interval_windows
    interval_window schedule_profile_names add_profile_names add_profile_name minute_clock
    weekday_name allowed_intervals_by_day blocked_intervals_by_day allow_windows allow_window
    allow_days window_interval schedule_window_days mark_window_days parse_clock_minute cut
    clock_minute parse_weekday lower_ascii block_bands block_days block_day subtract_intervals
    subtract_block write_at cut_interval is_empty has_key ◌=ᵇ◌
lunch-restricts = refl

around_lunch-opens : SomeOpens clock (codes "pupils") 1 800 around_lunch
unfolding parse_clock_minute cut clock_minute parse_weekday lower_ascii ◌=ᵇ◌
around_lunch-opens =
    inr (inl (refl, (inr (inl refl), (780, refl, omega arith), (870, refl, omega arith))))

restrict-SomeOpens_example :
    (¬ Any (λ b. Blocks b 1 800) (lunch ∷ []))
    × ((¬ HasWindow (codes "pupils") (school ∷ []))
        ⊎ SomeOpens clock (codes "pupils") 1 800 (school ∷ []))
restrict-SomeOpens_example =
    restrict-SomeOpens clock (school ∷ []) around_lunch [] (lunch ∷ []) (codes "pupils") 1 800
      clock-PlainTexts (refl, tt) (omega arith) lunch-restricts around_lunch-opens

-- A band over the whole week leaves no window, and a profile without windows is always allowed.
abbrev all_week : TimeBand
all_week = record {
  path = codes "bannedtimelist";
  line = 2;
  days = true ∷ true ∷ true ∷ true ∷ true ∷ true ∷ true ∷ [];
  start = 0;
  end = 1440;
}

all_week-opens :
    restrict_schedule_windows_by_time_bands clock (school ∷ []) [] (all_week ∷ []) ≡ loaded []
unfolding restrict_schedule_windows_by_time_bands restrict_profiles restrict_days interval_windows
    interval_window schedule_profile_names add_profile_names add_profile_name minute_clock
    weekday_name allowed_intervals_by_day blocked_intervals_by_day allow_windows allow_window
    allow_days window_interval schedule_window_days mark_window_days parse_clock_minute cut
    clock_minute parse_weekday lower_ascii block_bands block_days block_day subtract_intervals
    subtract_block write_at cut_interval is_empty has_key ◌=ᵇ◌
all_week-opens = refl

then_allowed :
    (new_schedule_rules clock [] ≡ valid (record { by_profile = [] }))
    × (allowed (some (record { by_profile = [] })) (codes "pupils") 1 9 0 ≡ true)
unfolding new_schedule_rules add_windows allowed windows_of
then_allowed = (refl, refl)
