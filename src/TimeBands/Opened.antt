-- ===== src/TimeBands/Opened.antt =====
-- The windows that are left open nothing that a band blocks.
use lucid_gate.Prelude.{
  ℕ, suc, ◌+◌, ◌*◌, ◌≤◌, ◌<◌, ◌≡◌, ◌⊎◌, inl, inr, Bool, true, ◌||◌, List, [], ◌∷◌, ◌++◌, Bytes, leb,
  arith, refl, Bool-cases, length, le→leb, lt→ltb,
}
use Prim.Native.Nat.{min}
use lucid_gate.Lists.Outcome.{loaded, Either-cases}
use lucid_gate.Schedule.Rules.{Clock, ScheduleWindow}
use lucid_gate.Schedule.Opening.{Opens, SomeOpens, HasWindow}
use lucid_gate.TimeBands.Bands.{TimeBand}
use lucid_gate.TimeBands.Intervals.{
  ScheduleInterval, Week, on_day, subtract_intervals, allowed_intervals_by_day,
  blocked_intervals_by_day,
}
use lucid_gate.TimeBands.Restriction.{
  interval_window, interval_windows, restrict_days, restrict_profiles,
  restrict_schedule_windows_by_time_bands, schedule_profile_names,
}
use lucid_gate.TimeBands.Subtraction.{covers, covered, subtract_intervals-covered}
use lucid_gate.TimeBands.Weeks.{Any, Blocks, HasWeek, blocked_intervals-hit}
use lucid_gate.TimeBands.Clocks.{
  PlainTexts, parse_clock_minute-minute_clock, parse_weekday-weekday_name,
}
use lucid_gate.TimeBands.Windows.{allowed_intervals-SomeOpens, length-allowed_intervals}

module _ (lib : Clock) (p : Bytes) (day m : ℕ) where
  SomeOpens-append :
      (xs ys : List ScheduleWindow)
      → SomeOpens lib p day m (xs ++ ys)
      → SomeOpens lib p day m xs ⊎ SomeOpens lib p day m ys
  SomeOpens-append [] ys h = inr h
  SomeOpens-append (x ∷ xs) ys (inl h) = inl (inl h)
  SomeOpens-append (x ∷ xs) ys (inr h) = elim (SomeOpens-append xs ys h) [
    | inl k ↦ inl (inr k)
    | inr k ↦ inr k
  ]

module _ (lib : Clock) (plain : PlainTexts lib) (p : Bytes) (day m : ℕ) (early : m < 24 * 60) where
  -- What is known where a window of an interval opens.
  abbrev Shows : Bytes → ℕ → Bool → Type 0
  Shows q d b = (q ≡ p) × (day ≡ d) × (b ≡ true)

  interval_window-Opens :
      (q : Bytes) (d : ℕ) (i : ScheduleInterval)
      → d < 7
      → Opens lib day m (interval_window q d i)
      → (day ≡ d) × (covers i m ≡ true)
  unfolding interval_window
  interval_window-Opens q d i small (named, (s, ps, low), (e, pe, high)) =
      let reads_start = parse_clock_minute-minute_clock lib plain i.start in
      let reads_end = parse_clock_minute-minute_clock lib plain i.end in
      let start : s ≡ min i.start (24 * 60) = ground (arith, ps, reads_start) in
      let end : e ≡ min i.end (24 * 60) = ground (arith, pe, reads_end) in
      let own = parse_weekday-weekday_name lib plain d small in
      (
        elim named [
          | inl none_named ↦ absurd (cc)
          | inr (inl it) ↦ ground (arith, it, own)
          | inr (inr other) ↦ absurd other
        ],
        rw (le→leb i.start m (omega arith), lt→ltb m i.end (omega arith)) refl,
      )

  interval_windows-SomeOpens :
      (q : Bytes) (d : ℕ) (is : List ScheduleInterval)
      → d < 7
      → SomeOpens lib p day m (interval_windows q d is)
      → Shows q d (covered is m)
  unfolding interval_windows
  interval_windows-SomeOpens q d [] small h = absurd h
  interval_windows-SomeOpens q d (i ∷ is) small h = elim (Bool-cases (leb i.end i.start)) [
    | inl gone ↦
        let (a, b, c) = interval_windows-SomeOpens q d is small (rw gone at h) in
        (a, b, ground (arith, c))
    | inr kept ↦ later (rw kept at h) (interval_windows-SomeOpens q d is small)
  ]
    where
      later :
          SomeOpens lib p day m (interval_window q d i ∷ interval_windows q d is)
          → (SomeOpens lib p day m (interval_windows q d is) → Shows q d (covered is m))
          → Shows q d (covers i m || covered is m)
      later (inl (same, opens)) rest =
          let z = interval_window-Opens q d i small opens in
          ((unfold interval_window in same), z.0, rw z.1 refl)
      later (inr more) rest = let (a, b, c) = rest more in (a, b, ground (arith, c))

  -- The minutes that are left of a day.
  abbrev left_of : Week → Week → ℕ → ℕ → Bool
  left_of week blocked k d = covered (subtract_intervals (on_day week k) (on_day blocked d)) m

  restrict_days-SomeOpens :
      (q : Bytes) (d : ℕ) (week blocked : Week)
      → d + length week ≤ 7
      → SomeOpens lib p day m (restrict_days q d week blocked)
      → (q ≡ p) × ((k : ℕ) × (day ≡ d + k) × (left_of week blocked k day ≡ true))
  unfolding restrict_days
  restrict_days-SomeOpens q d [] blocked l h = absurd h
  restrict_days-SomeOpens q d (is ∷ week) blocked l h =
      elim (SomeOpens-append lib p day m
        (interval_windows q d (subtract_intervals is (on_day blocked d)))
        (restrict_days q (suc d) week blocked) h) [
          | inl here ↦
              let (a, b, c) =
                interval_windows-SomeOpens q d (subtract_intervals is (on_day blocked d))
                  (omega arith) here in
              (a, (0, omega arith, rw b c))
          | inr later ↦
              let (a, (k, b, c)) =
                restrict_days-SomeOpens q (suc d) week blocked (omega arith) later in
              (a, (suc k, omega arith, c))
        ]

  restrict_profiles-SomeOpens :
      (windows : List ScheduleWindow) (blocked : Week) (names : List Bytes)
      (ws : List ScheduleWindow)
      → restrict_profiles lib windows blocked names ≡ loaded ws
      → SomeOpens lib p day m ws
      → (week : Week) × (allowed_intervals_by_day lib p windows ≡ loaded week)
        × (left_of week blocked day day ≡ true)
  unfolding restrict_profiles
  restrict_profiles-SomeOpens windows blocked [] ws e h =
      let none_left : ws ≡ [] = ground (arith, e) in absurd (rw none_left at h)
  restrict_profiles-SomeOpens windows blocked (q ∷ names) ws e h =
      elim (Either-cases (allowed_intervals_by_day lib q windows)) [
        | inr (x, bad) ↦ absurd (ground arith)
        | inl (week, good) ↦ elim (Either-cases (restrict_profiles lib windows blocked names)) [
          | inr (x, bad) ↦ absurd (ground arith)
          | inl (rest, fine) ↦
              let same : ws ≡ restrict_days q 0 week blocked ++ rest =
                ground (arith, e, good, fine) in
              elim (SomeOpens-append lib p day m (restrict_days q 0 week blocked) rest
                (rw same at h)) [
                  | inr later ↦ restrict_profiles-SomeOpens windows blocked names rest fine later
                  | inl here ↦
                      let (a, (k, b, c)) =
                        restrict_days-SomeOpens q 0 week blocked
                          (omega (arith, length-allowed_intervals lib q windows week good)) here in
                      let k-day : k ≡ day = omega arith in (week, rw a at good, rw k-day at c)
                ]
        ]
      ]

-- If the bands can be taken out of the windows, then every minute at which a window of a profile is open
-- afterwards is blocked by none of the bands, and a window of the profile was open at it before, or the
-- profile had no window.
pub restrict-SomeOpens :
    (lib : Clock) (windows ws : List ScheduleWindow) (profiles : List Bytes) (bands : List TimeBand)
    (p : Bytes) (day m : ℕ)
    → PlainTexts lib
    → HasWeek bands
    → m < 24 * 60
    → restrict_schedule_windows_by_time_bands lib windows profiles bands ≡ loaded ws
    → SomeOpens lib p day m ws
    → (¬ Any (λ b. Blocks b day m) bands)
      × ((¬ HasWindow p windows) ⊎ SomeOpens lib p day m windows)
unfolding restrict_schedule_windows_by_time_bands
restrict-SomeOpens lib windows ws profiles bands p day m plain weeks early e h =
    let (week, good, left) =
      restrict_profiles-SomeOpens lib plain p day m early windows (blocked_intervals_by_day bands)
        (schedule_profile_names lib.unicode windows profiles) ws e h in
    let (allowed, free) =
      subtract_intervals-covered (on_day week day) (on_day (blocked_intervals_by_day bands) day) m
        left in
    (
      λ hit. ground (arith, free, blocked_intervals-hit day m early bands weeks hit),
      allowed_intervals-SomeOpens lib p windows week day m good allowed,
    )
