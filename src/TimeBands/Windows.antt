-- ===== src/TimeBands/Windows.antt =====
-- The intervals that the windows of a profile allow come from its windows.
use lucid_gate.Prelude.{
  ℕ, zero, suc, ◌+◌, ◌≤◌, ◌<◌, ◌≡◌, ◌⊎◌, inl, inr, Bool, true, false, some, List, [], ◌∷◌, ◌++◌,
  Bytes, arith, refl, ap, ◌∙◌, Bool-cases, Option-cases, length, get_elem?, set, replicate,
  length-set,
}
use lucid_gate.Text.{Unicode, =ᵇ_iff, ◌=ᵇ◌}
use lucid_gate.Lists.Outcome.{loaded, Either-cases}
use lucid_gate.Schedule.Rules.{Clock, ScheduleWindow, parse_weekday, parse_clock_minute}
use lucid_gate.Schedule.Opening.{NamesDay, Opens, SomeOpens, HasWindow}
use lucid_gate.TimeBands.Intervals.{
  all_day, ScheduleInterval, Week, on_day, add_interval, no_intervals, mark_window_days,
  schedule_window_days, allow_days, window_interval, allow_window, allow_windows,
  allowed_intervals_by_day,
}
use lucid_gate.TimeBands.Subtraction.{covers, covered}
use lucid_gate.TimeBands.Weeks.{covered-add_interval}

get_elem?-set-true :
    (marks : List Bool) (i day : ℕ)
    → get_elem? (set marks i true) day ≡ some true
    → (i ≡ day) ⊎ (get_elem? marks day ≡ some true)
get_elem?-set-true [] i day h = inr h
get_elem?-set-true (x ∷ marks) zero zero h = inl refl
get_elem?-set-true (x ∷ marks) zero (suc day) h = inr h
get_elem?-set-true (x ∷ marks) (suc i) zero h = inr h
get_elem?-set-true (x ∷ marks) (suc i) (suc day) h = elim (get_elem?-set-true marks i day h) [
  | inl e ↦ inl (ap suc e)
  | inr e ↦ inr e
]

unmarked : (n day : ℕ) → get_elem? (replicate n false) day ≡ some true → ⊥
unmarked zero day h = cc
unmarked (suc n) zero h = ground arith
unmarked (suc n) (suc day) h = unmarked n day h

mark_window_days-NamesDay :
    (u : Unicode) (ds : List Bytes) (marks r : List Bool) (day : ℕ)
    → mark_window_days u marks ds ≡ some r
    → get_elem? r day ≡ some true
    → (get_elem? marks day ≡ some true) ⊎ NamesDay u day ds
unfolding mark_window_days
mark_window_days-NamesDay u [] marks r day e h = inl (ground arith)
mark_window_days-NamesDay u (d ∷ ds) marks r day e h = elim (Option-cases (parse_weekday u d)) [
  | inl bad ↦ absurd (ground arith)
  | inr (i, good) ↦
      elim (mark_window_days-NamesDay u ds (set marks i true) r day (ground arith) h) [
        | inl k ↦ elim (get_elem?-set-true marks i day k) [
          | inl same ↦ inr (inl (good ∙ ap some same))
          | inr old ↦ inl old
        ]
        | inr k ↦ inr (inr k)
      ]
]

schedule_window_days-NamesDay :
    (u : Unicode) (ds : List Bytes) (r : List Bool) (day : ℕ)
    → schedule_window_days u ds ≡ some r
    → get_elem? r day ≡ some true
    → (ds ≡ []) ⊎ NamesDay u day ds
unfolding schedule_window_days
schedule_window_days-NamesDay u [] r day e h = inl refl
schedule_window_days-NamesDay u (d ∷ ds) r day e h =
    elim (mark_window_days-NamesDay u (d ∷ ds) (replicate 7 false) r day e h) [
      | inl k ↦ absurd (unmarked 7 day k)
      | inr k ↦ inr k
    ]

-- What the loop over the marks adds.
allow_days-covered :
    (i : ScheduleInterval) (d : ℕ) (marks : List Bool) (week : Week) (day m : ℕ)
    → d + length marks ≤ length week
    → covered (on_day (allow_days i d marks week) day) m ≡ true
    → (covered (on_day week day) m ≡ true)
      ⊎ ((k : ℕ) × (day ≡ d + k) × (get_elem? marks k ≡ some true) × (covers i m ≡ true))
unfolding allow_days
allow_days-covered i d [] week day m l h = inl h
allow_days-covered i d (false ∷ marks) week day m l h =
    elim (allow_days-covered i (suc d) marks week day m (omega arith) h) [
      | inl k ↦ inl k
      | inr (k, e, g, c) ↦ inr (suc k, omega arith, g, c)
    ]
allow_days-covered i d (true ∷ marks) week day m l h =
    let added = covered-add_interval week d day i m (omega arith) in
    elim (allow_days-covered i (suc d) marks (add_interval week d i) day m
      (omega (arith, length-set week d (on_day week d ++ i ∷ []))) h) [
        | inr (k, e, g, c) ↦ inr (suc k, omega arith, g, c)
        | inl k ↦ elim (Bool-cases (covered (on_day week day) m)) [
          | inl old ↦ inl old
          | inr new ↦ inr (0, ground (arith, added, k, new), refl, ground (arith, added, k, new))
        ]
      ]

length-allow_days :
    (i : ScheduleInterval) (d : ℕ) (marks : List Bool) (week : Week)
    → length (allow_days i d marks week) ≡ length week
unfolding allow_days
length-allow_days i d [] week = refl
length-allow_days i d (false ∷ marks) week = length-allow_days i (suc d) marks week
length-allow_days i d (true ∷ marks) week =
    length-allow_days i (suc d) marks (add_interval week d i)
    ∙ length-set week d (on_day week d ++ i ∷ [])

length-mark_window_days :
    (u : Unicode) (ds : List Bytes) (marks r : List Bool)
    → mark_window_days u marks ds ≡ some r
    → length r ≡ length marks
unfolding mark_window_days
length-mark_window_days u [] marks r e = ground arith
length-mark_window_days u (d ∷ ds) marks r e = elim (Option-cases (parse_weekday u d)) [
  | inl bad ↦ absurd (ground arith)
  | inr (i, good) ↦
      length-mark_window_days u ds (set marks i true) r (ground arith) ∙ length-set marks i true
]

length-schedule_window_days :
    (u : Unicode) (ds : List Bytes) (r : List Bool)
    → schedule_window_days u ds ≡ some r
    → length r ≡ 7
unfolding schedule_window_days
length-schedule_window_days u [] r e = ground (arith, e)
length-schedule_window_days u (d ∷ ds) r e =
    length-mark_window_days u (d ∷ ds) (replicate 7 false) r e

window_interval-covers :
    (lib : Clock) (w : ScheduleWindow) (i : ScheduleInterval) (m : ℕ)
    → window_interval lib w ≡ some i
    → covers i m ≡ true
    → ((s : ℕ) × (parse_clock_minute lib w.start ≡ some s) × (s ≤ m))
      × ((e : ℕ) × (parse_clock_minute lib w.end ≡ some e) × (m < e))
unfolding window_interval
window_interval-covers lib w i m e h = elim (Option-cases (parse_clock_minute lib w.start)) [
  | inl bad ↦ absurd (ground arith)
  | inr (start, s) ↦ elim (Option-cases (parse_clock_minute lib w.end)) [
    | inl bad ↦ absurd (ground arith)
    | inr (end, t) ↦ ((start, s, ground (arith, e, h)), (end, t, ground (arith, e, h)))
  ]
]

allow_window-Opens :
    (lib : Clock) (p : Bytes) (w : ScheduleWindow) (week next : Week) (day m : ℕ)
    → length week ≡ 7
    → allow_window lib p w week ≡ loaded next
    → covered (on_day next day) m ≡ true
    → (covered (on_day week day) m ≡ true) ⊎ Opens lib day m w
unfolding allow_window
allow_window-Opens lib p w week next day m l e h = elim (Option-cases (window_interval lib w)) [
  | inl bad ↦ absurd (ground arith)
  | inr (i, times) ↦ elim (Option-cases (schedule_window_days lib.unicode w.days)) [
    | inl bad ↦ absurd (ground arith)
    | inr (marks, days) ↦
        let same : next ≡ allow_days i 0 marks week = ground arith in
        elim (allow_days-covered i 0 marks week day m
          (omega (arith, length-schedule_window_days lib.unicode w.days marks days))
          (rw same at h)) [
            | inl k ↦ inl k
            | inr (k, q, g, c) ↦
                let named : get_elem? marks day ≡ some true = ground (arith, q, g) in
                let z = window_interval-covers lib w i m times c in
                inr
                  (schedule_window_days-NamesDay lib.unicode w.days marks day days named, z.0, z.1)
          ]
  ]
]

length-allow_window :
    (lib : Clock) (p : Bytes) (w : ScheduleWindow) (week next : Week)
    → allow_window lib p w week ≡ loaded next
    → length next ≡ length week
unfolding allow_window
length-allow_window lib p w week next e = elim (Option-cases (window_interval lib w)) [
  | inl bad ↦ absurd (ground arith)
  | inr (i, times) ↦ elim (Option-cases (schedule_window_days lib.unicode w.days)) [
    | inl bad ↦ absurd (ground arith)
    | inr (marks, days) ↦
        let same : next ≡ allow_days i 0 marks week = ground arith in
        rw same (length-allow_days i 0 marks week)
  ]
]

allow_windows-found :
    (lib : Clock) (p : Bytes) (ws : List ScheduleWindow) (found : Bool) (week next : Week)
    → allow_windows lib p ws found week ≡ loaded (false, next)
    → (found ≡ false) × (¬ HasWindow p ws)
unfolding allow_windows
allow_windows-found lib p [] found week next e = (ground arith, λ h. h)
allow_windows-found lib p (w ∷ ws) found week next e = elim (Bool-cases (w.profile =ᵇ p)) [
  | inr other ↦
      let rest = allow_windows-found lib p ws found week next (ground arith) in
      (rest.0, λ h. elim h [ inl q ↦ ground (arith, (=ᵇ_iff w.profile p).1 q) | inr q ↦ rest.1 q ])
  | inl it ↦ elim (Either-cases (allow_window lib p w week)) [
    | inr (x, bad) ↦ absurd (ground arith)
    | inl (mid, good) ↦
        absurd (ground (arith, (allow_windows-found lib p ws true mid next (ground arith)).0))
  ]
]

allow_windows-SomeOpens :
    (lib : Clock) (p : Bytes) (ws : List ScheduleWindow) (found found' : Bool) (week next : Week)
    (day m : ℕ)
    → length week ≡ 7
    → allow_windows lib p ws found week ≡ loaded (found', next)
    → covered (on_day next day) m ≡ true
    → (covered (on_day week day) m ≡ true) ⊎ SomeOpens lib p day m ws
unfolding allow_windows
allow_windows-SomeOpens lib p [] found found' week next day m l e h =
    let same : next ≡ week = ground arith in inl (rw same at h)
allow_windows-SomeOpens lib p (w ∷ ws) found found' week next day m l e h =
    elim (Bool-cases (w.profile =ᵇ p)) [
      | inr other ↦
          elim (allow_windows-SomeOpens lib p ws found found' week next day m l (ground arith) h) [
            | inl k ↦ inl k
            | inr k ↦ inr (inr k)
          ]
      | inl it ↦ elim (Either-cases (allow_window lib p w week)) [
        | inr (x, bad) ↦ absurd (ground arith)
        | inl (mid, good) ↦
            elim (allow_windows-SomeOpens lib p ws true found' mid next day m
              (length-allow_window lib p w week mid good ∙ l) (ground arith) h) [
                | inr k ↦ inr (inr k)
                | inl k ↦ elim (allow_window-Opens lib p w week mid day m l good k) [
                  | inl old ↦ inl old
                  | inr new ↦ inr (inl ((=ᵇ_iff w.profile p).0 it, new))
                ]
              ]
      ]
    ]

-- A minute that the intervals of a profile allow is one of its windows', or it has no window.
pub allowed_intervals-SomeOpens :
    (lib : Clock) (p : Bytes) (ws : List ScheduleWindow) (week : Week) (day m : ℕ)
    → allowed_intervals_by_day lib p ws ≡ loaded week
    → covered (on_day week day) m ≡ true
    → (¬ HasWindow p ws) ⊎ SomeOpens lib p day m ws
unfolding allowed_intervals_by_day
allowed_intervals-SomeOpens lib p ws week day m e h =
    elim (Either-cases (allow_windows lib p ws false no_intervals)) [
      | inr (x, bad) ↦ absurd (ground arith)
      | inl ((true, next), good) ↦
          let same : week ≡ next = ground (arith, e, good) in
          elim (allow_windows-SomeOpens lib p ws false true no_intervals next day m refl good
            (rw same at h)) [ inl k ↦ absurd (uncovered 7 day m k) | inr k ↦ inr k ]
      | inl ((false, next), good) ↦
          inl (allow_windows-found lib p ws false no_intervals next good).1
    ]
  where
    uncovered : (n day m : ℕ) → covered (on_day (replicate n []) day) m ≡ true → ⊥
    uncovered zero day m h = cc
    uncovered (suc n) zero m h = cc
    uncovered (suc n) (suc day) m h = uncovered n day m h

length-allow_windows :
    (lib : Clock) (p : Bytes) (ws : List ScheduleWindow) (found found' : Bool) (week next : Week)
    → allow_windows lib p ws found week ≡ loaded (found', next)
    → length next ≡ length week
unfolding allow_windows
length-allow_windows lib p [] found found' week next e = ground arith
length-allow_windows lib p (w ∷ ws) found found' week next e = elim (Bool-cases (w.profile =ᵇ p)) [
  | inr other ↦ length-allow_windows lib p ws found found' week next (ground arith)
  | inl it ↦ elim (Either-cases (allow_window lib p w week)) [
    | inr (x, bad) ↦ absurd (ground arith)
    | inl (mid, good) ↦
        length-allow_windows lib p ws true found' mid next (ground arith)
        ∙ length-allow_window lib p w week mid good
  ]
]

pub length-allowed_intervals :
    (lib : Clock) (p : Bytes) (ws : List ScheduleWindow) (week : Week)
    → allowed_intervals_by_day lib p ws ≡ loaded week
    → length week ≡ 7
unfolding allowed_intervals_by_day
length-allowed_intervals lib p ws week e =
    elim (Either-cases (allow_windows lib p ws false no_intervals)) [
      | inr (x, bad) ↦ absurd (ground arith)
      | inl ((true, next), good) ↦
          let same : week ≡ next = ground (arith, e, good) in
          rw same (length-allow_windows lib p ws false true no_intervals next good)
      | inl ((false, next), good) ↦
          let same : week ≡ all_day = ground (arith, e, good) in rw same refl
    ]
