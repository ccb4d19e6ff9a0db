-- ===== src/TimeBands/Restriction.antt =====
-- rules.go: `restrictScheduleWindowsByTimeBands`, which takes the bands out of the windows.
use lucid_gate.Prelude.{
  ℕ, suc, ◌+◌, ◌*◌, ◌/◌, ◌%◌, List, [], ◌∷◌, ◌++◌, Bytes, codes, leb, if◌then◌else◌, none, some,
  ◌||◌, get_elem?,
}
use lucid_gate.Text.{Unicode, is_empty, has_key}
use lucid_gate.Lists.Outcome.{Loaded, loaded, ◌>>=◌}
use lucid_gate.Schedule.Rules.{Clock, ScheduleWindow}
use lucid_gate.TimeBands.Bands.{TimeBand}
use lucid_gate.TimeBands.Intervals.{
  ScheduleInterval, Week, on_day, blocked_intervals_by_day, allowed_intervals_by_day,
  subtract_intervals,
}

-- The function `add` of `scheduleProfileNames`.
unfoldable pub add_profile_name : Unicode → Bytes → List Bytes → List Bytes
add_profile_name u profile out =
    let name = u.trim_space profile in
    if is_empty name || has_key out name then out else out ++ name ∷ []

unfoldable pub add_profile_names : Unicode → List Bytes → List Bytes → List Bytes
add_profile_names u [] out = out
add_profile_names u (p ∷ ps) out = add_profile_names u ps (add_profile_name u p out)

abbrev window_profiles : List ScheduleWindow → List Bytes
window_profiles [] = []
window_profiles (w ∷ ws) = w.profile ∷ window_profiles ws

abbrev or_default : Unicode → List Bytes → List Bytes
or_default u [] = add_profile_name u (codes "default") []
or_default u (p ∷ ps) = p ∷ ps

-- The names of the access profiles, and then those of the windows.
unfoldable pub schedule_profile_names : Unicode → List ScheduleWindow → List Bytes → List Bytes
schedule_profile_names u windows profiles =
    or_default u (add_profile_names u (window_profiles windows) (add_profile_names u profiles []))

abbrev day_names : List Bytes
day_names =
    codes "sun"
    ∷ codes "mon"
    ∷ codes "tue"
    ∷ codes "wed"
    ∷ codes "thu"
    ∷ codes "fri"
    ∷ codes "sat"
    ∷ []

unfoldable pub weekday_name : ℕ → Bytes
weekday_name day = elim (get_elem? day_names day) [ none ↦ [] | some name ↦ name ]

-- The verb %02d, on numbers below 100.
abbrev pub two_digits : ℕ → Bytes
two_digits n = (b'0' + n / 10) ∷ (b'0' + n % 10) ∷ []

unfoldable pub minute_clock : ℕ → Bytes
minute_clock minute =
    if leb (24 * 60) minute
    then codes "24:00"
    else two_digits (minute / 60) ++ b':' ∷ two_digits (minute % 60)

-- The window of an interval that is left on a day.
unfoldable pub interval_window : Bytes → ℕ → ScheduleInterval → ScheduleWindow
interval_window profile day i = record {
  profile = profile;
  days = weekday_name day ∷ [];
  start = minute_clock i.start;
  end = minute_clock i.end;
}

unfoldable pub interval_windows : Bytes → ℕ → List ScheduleInterval → List ScheduleWindow
interval_windows profile day [] = []
interval_windows profile day (i ∷ is) =
    let rest = interval_windows profile day is in
    if leb i.end i.start then rest else interval_window profile day i ∷ rest

-- The loop over the days, from `day` on.
unfoldable pub restrict_days : Bytes → ℕ → Week → Week → List ScheduleWindow
restrict_days profile day [] blocked = []
restrict_days profile day (allowed ∷ week) blocked =
    interval_windows profile day (subtract_intervals allowed (on_day blocked day))
    ++ restrict_days profile (suc day) week blocked

-- The loop over the profiles.
unfoldable pub restrict_profiles :
    Clock → List ScheduleWindow → Week → List Bytes → Loaded (List ScheduleWindow)
restrict_profiles lib windows blocked [] = loaded []
restrict_profiles lib windows blocked (p ∷ ps) = do
  allowed ← allowed_intervals_by_day lib p windows
  rest ← restrict_profiles lib windows blocked ps
  loaded (restrict_days p 0 allowed blocked ++ rest)

-- `profiles` are the names of the access profiles.
unfoldable pub restrict_schedule_windows_by_time_bands :
    Clock → List ScheduleWindow → List Bytes → List TimeBand → Loaded (List ScheduleWindow)
restrict_schedule_windows_by_time_bands lib windows profiles bands =
    restrict_profiles lib windows (blocked_intervals_by_day bands)
      (schedule_profile_names lib.unicode windows profiles)
