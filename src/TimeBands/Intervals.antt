-- ===== src/TimeBands/Intervals.antt =====
-- rules.go: the intervals of minutes that bands block and windows allow, and their difference.
use lucid_gate.Prelude.{
  ℕ, zero, suc, ◌+◌, ◌*◌, ◌%◌, Bool, true, false, ◌||◌, Option, none, some, List, [], ◌∷◌, ◌++◌,
  Bytes, ltb, leb, if◌then◌else◌, set, get_elem?, replicate, length,
}
use Prim.Native.Nat.{min}
use lucid_gate.Text.{Unicode, ◌=ᵇ◌}
use lucid_gate.Lists.Outcome.{LoadError, Loaded, loaded, failed, ◌>>=◌}
use lucid_gate.Schedule.Rules.{Clock, ScheduleWindow, parse_weekday, parse_clock_minute}
use lucid_gate.TimeBands.Bands.{TimeBand}

-- `scheduleInterval`: the minutes from `start` on and before `end`.
pub record ScheduleInterval : Type 0 where
  pub start : ℕ
  pub end : ℕ

-- `[7][]scheduleInterval`.
abbrev pub Week : Type 0
Week = List (List ScheduleInterval)

abbrev pub no_intervals : Week
no_intervals = replicate 7 []

-- `week[day]`, and `week[day] = append(week[day], i)`.
abbrev pub on_day : Week → ℕ → List ScheduleInterval
on_day week day = elim (get_elem? week day) [ none ↦ [] | some is ↦ is ]

abbrev pub add_interval : Week → ℕ → ScheduleInterval → Week
add_interval week day i = set week day (on_day week day ++ i ∷ [])

abbrev pub interval : ℕ → ℕ → ScheduleInterval
interval start end = record { start = start; end = end }

-- The body of the inner loop of `blockedIntervalsByDay`, for a day that is marked.
unfoldable pub block_day : TimeBand → ℕ → Week → Week
block_day band day week =
    let late = add_interval week day (interval band.start (24 * 60)) in
    if ltb band.start band.end
    then add_interval week day (interval band.start (min band.end (24 * 60)))
    else if ltb 0 band.end
    then add_interval late ((day + 1) % 7) (interval 0 band.end)
    else late

-- The loop over the marks of a band, from a day on.
unfoldable pub block_days : TimeBand → ℕ → List Bool → Week → Week
block_days band day [] week = week
block_days band day (active ∷ marks) week =
    block_days band (suc day) marks (if active then block_day band day week else week)

unfoldable pub block_bands : List TimeBand → Week → Week
block_bands [] week = week
block_bands (b ∷ bs) week = block_bands bs (block_days b 0 b.days week)

unfoldable pub blocked_intervals_by_day : List TimeBand → Week
blocked_intervals_by_day bands = block_bands bands no_intervals

-- The two functions are those of proxy/schedule_rules.go, written once more.
abbrev pub schedule_weekday : Unicode → Bytes → Option ℕ
schedule_weekday u value = parse_weekday u value

abbrev pub parse_schedule_clock_minute : Clock → Bytes → Option ℕ
parse_schedule_clock_minute lib value = parse_clock_minute lib value

-- The loop of `scheduleWindowDays` over the names.
unfoldable pub mark_window_days : Unicode → List Bool → List Bytes → Option (List Bool)
mark_window_days u marks [] = some marks
mark_window_days u marks (d ∷ ds) = elim (schedule_weekday u d) [
  | none ↦ none
  | some day ↦ mark_window_days u (set marks day true) ds
]

unfoldable pub schedule_window_days : Unicode → List Bytes → Option (List Bool)
schedule_window_days u [] = some (replicate 7 true)
schedule_window_days u (d ∷ ds) = mark_window_days u (replicate 7 false) (d ∷ ds)

-- The loop over the marks of a window.
unfoldable pub allow_days : ScheduleInterval → ℕ → List Bool → Week → Week
allow_days i day [] week = week
allow_days i day (active ∷ marks) week =
    allow_days i (suc day) marks (if active then add_interval week day i else week)

-- The times of a window, if they can be read and it does not end before it starts.
unfoldable pub window_interval : Clock → ScheduleWindow → Option ScheduleInterval
window_interval lib w = elim (parse_schedule_clock_minute lib w.start) [
  | none ↦ none
  | some start ↦ elim (parse_schedule_clock_minute lib w.end) [
    | none ↦ none
    | some end ↦ if leb end start then none else some (interval start end)
  ]
]

-- The body of the loop of `allowedIntervalsByDay`, for a window of the profile.
unfoldable pub allow_window : Clock → Bytes → ScheduleWindow → Week → Loaded Week
allow_window lib profile w week = elim (window_interval lib w) [
  | none ↦ failed (LoadError.bad_window profile)
  | some i ↦ elim (schedule_window_days lib.unicode w.days) [
    | none ↦ failed (LoadError.bad_window_day profile)
    | some marks ↦ loaded (allow_days i 0 marks week)
  ]
]

-- The loop: `found` is `hasProfileWindows`.
unfoldable pub allow_windows :
    Clock → Bytes → List ScheduleWindow → Bool → Week → Loaded (Bool × Week)
allow_windows lib profile [] found week = loaded (found, week)
allow_windows lib profile (w ∷ ws) found week =
    if w.profile =ᵇ profile
    then allow_window lib profile w week >>= (λ next. allow_windows lib profile ws true next)
    else allow_windows lib profile ws found week

abbrev pub all_day : Week
all_day = replicate 7 (interval 0 (24 * 60) ∷ [])

unfoldable pub allowed_intervals_by_day : Clock → Bytes → List ScheduleWindow → Loaded Week
allowed_intervals_by_day lib profile windows = do
  (found, week) ← allow_windows lib profile windows false no_intervals
  loaded (if found then week else all_day)

-- What a block leaves of an interval.
unfoldable pub cut_interval : ScheduleInterval → ScheduleInterval → List ScheduleInterval
cut_interval block cur =
    if leb block.end cur.start || leb cur.end block.start
    then cur ∷ []
    else (if ltb cur.start block.start then interval cur.start block.start ∷ [] else [])
      ++ (if ltb block.end cur.end then interval block.end cur.end ∷ [] else [])

-- A write of some values from an index on; a write past the end changes nothing.
unfoldable pub write_at : List ScheduleInterval → ℕ → List ScheduleInterval → List ScheduleInterval
write_at out k [] = out
write_at out k (i ∷ is) = write_at (set out k i) (suc k) is

-- The inner loop of `subtractIntervals`. `next := out[:0]` shares the array of `out`, so each `append`
-- to it writes over an entry of `out`, and an entry that was not read yet is lost. `i` is the index
-- that is read, with `left` rounds to go.
unfoldable pub subtract_block :
    ScheduleInterval → ℕ → ℕ → List ScheduleInterval → List ScheduleInterval → List ScheduleInterval
subtract_block block i zero out next = next
subtract_block block i (suc left) out next = elim (get_elem? out i) [
  | none ↦ next
  | some cur ↦
      let kept = cut_interval block cur in
      subtract_block block (suc i) left (write_at out (length next) kept) (next ++ kept)
]

unfoldable pub subtract_intervals :
    List ScheduleInterval → List ScheduleInterval → List ScheduleInterval
subtract_intervals out [] = out
subtract_intervals out (b ∷ bs) = subtract_intervals (subtract_block b 0 (length out) out []) bs
