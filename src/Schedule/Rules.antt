-- ===== src/Schedule/Rules.antt =====
-- proxy/schedule_rules.go: the windows of a profile, their compilation, and the question `Allowed`.
use lucid_gate.Prelude.{
  ℕ, ℤ, pos, negsuc, suc, ◌+◌, ◌*◌, ◌≡◌, ◌⊎◌, inl, inr, refl, Bool, true, false, ◌&&◌, ◌||◌, Option,
  none, some, List, [], ◌∷◌, ◌++◌, Bytes, codes, ltb, leb, ◌==◌, if◌then◌else◌, set, get_elem?,
  replicate,
}
use lucid_gate.Text.{Unicode, is_empty, ◌=ᵇ◌}

-- `strconv.Atoi` is a parameter: `none` is its error.
pub record Clock : Type 0 where
  pub unicode : Unicode
  pub open unicode use *
  pub atoi : Bytes → Option ℤ

pub record ScheduleWindow : Type 0 where
  pub profile : Bytes
  pub days : List Bytes
  pub start : Bytes
  pub end : Bytes

-- `scheduleWindow`: `days` has seven entries.
pub record CompiledWindow : Type 0 where
  pub days : List Bool
  pub start : ℕ
  pub end : ℕ

-- The entries of the map `byProfile`, one for each profile.
pub record ScheduleRules : Type 0 where
  pub by_profile : List (Bytes × List CompiledWindow)

pub data ScheduleError : Type 0 where
  empty_profile : ScheduleError
  bad_weekday : Bytes → ScheduleError
  bad_start : Bytes → ScheduleError
  bad_end : Bytes → ScheduleError
  end_not_after_start : ScheduleError

pub data Checked {ℓ} (A : Type ℓ) : Type ℓ where
  valid : A → Checked A
  invalid : ScheduleError → Checked A

pub Checked-cases {ℓ} :
    {A : Type ℓ} (r : Checked A)
    → ((a : A) × (r ≡ valid a)) ⊎ ((e : ScheduleError) × (r ≡ invalid e))
Checked-cases (valid a) = inl (a, refl)
Checked-cases (invalid e) = inr (e, refl)

abbrev pub or_else {ℓ} : {A : Type ℓ} → Option A → ScheduleError → Checked A
or_else none e = invalid e
or_else (some a) e = valid a

infixl 5 ◌>>=◌
abbrev pub ◌>>=◌ {ℓ κ} : {A : Type ℓ} {B : Type κ} → Checked A → (A → Checked B) → Checked B
valid a >>= f = f a
invalid e >>= f = invalid e

abbrev pub is_one_of : Bytes → List Bytes → Bool
is_one_of s [] = false
is_one_of s (t ∷ ts) = s =ᵇ t || is_one_of s ts

-- The names of the days, from Sunday on, which is 0.
abbrev pub weekday_names : List (List Bytes)
weekday_names =
    (codes "sun" ∷ codes "sunday" ∷ [])
    ∷ (codes "mon" ∷ codes "monday" ∷ [])
    ∷ (codes "tue" ∷ codes "tues" ∷ codes "tuesday" ∷ [])
    ∷ (codes "wed" ∷ codes "wednesday" ∷ [])
    ∷ (codes "thu" ∷ codes "thur" ∷ codes "thurs" ∷ codes "thursday" ∷ [])
    ∷ (codes "fri" ∷ codes "friday" ∷ [])
    ∷ (codes "sat" ∷ codes "saturday" ∷ [])
    ∷ []

-- The switch of `parseWeekday`.
abbrev pub find_weekday : Bytes → List (List Bytes) → ℕ → Option ℕ
find_weekday s [] i = none
find_weekday s (names ∷ rest) i = if is_one_of s names then some i else find_weekday s rest (suc i)

unfoldable pub parse_weekday : Unicode → Bytes → Option ℕ
parse_weekday u value = find_weekday (u.to_lower (u.trim_space value)) weekday_names 0

-- `strings.Cut` at one byte.
unfoldable pub cut : Bytes → ℕ → Option (Bytes × Bytes)
cut [] b = none
cut (c ∷ s) b = elim (cut s b) [
  | none ↦ if c == b then some ([], s) else none
  | some (before, rest) ↦ if c == b then some ([], s) else some (c ∷ before, rest)
]

unfoldable pub clock_minute : ℤ → ℤ → Option ℕ
clock_minute (pos h) (pos m) =
    if h == 24 && m == 0
    then some (24 * 60)
    else if ltb 23 h || ltb 59 m
    then none
    else some (h * 60 + m)
clock_minute (pos h) (negsuc m) = none
clock_minute (negsuc h) m = none

unfoldable pub parse_clock_minute : Clock → Bytes → Option ℕ
parse_clock_minute lib value = elim (cut (lib.trim_space value) b':') [
  | none ↦ none
  | some (hour_text, minute_text) ↦ elim (lib.atoi hour_text) [
    | none ↦ none
    | some hour ↦ elim (lib.atoi minute_text) [
      | none ↦ none
      | some minute ↦ clock_minute hour minute
    ]
  ]
]

-- The loop over `window.Days`.
unfoldable pub mark_days : Unicode → List Bool → List Bytes → Checked (List Bool)
mark_days u marks [] = valid marks
mark_days u marks (d ∷ ds) = do
  i ← or_else (parse_weekday u d) (bad_weekday d)
  mark_days u (set marks i true) ds

abbrev pub compile_days : Unicode → List Bytes → Checked (List Bool)
compile_days u [] = valid (replicate 7 true)
compile_days u (d ∷ ds) = mark_days u (replicate 7 false) (d ∷ ds)

abbrev pub ordered_window : List Bool → ℕ → ℕ → Checked CompiledWindow
ordered_window marks start end =
    if leb end start
    then invalid end_not_after_start
    else valid (record { days = marks; start = start; end = end })

unfoldable pub compile_schedule_window : Clock → ScheduleWindow → Checked CompiledWindow
compile_schedule_window lib w = do
  marks ← compile_days lib.unicode w.days
  start ← or_else (parse_clock_minute lib w.start) (bad_start w.start)
  end ← or_else (parse_clock_minute lib w.end) (bad_end w.end)
  ordered_window marks start end

-- `byProfile[p]`, and `byProfile[p] = append(byProfile[p], w)`.
unfoldable pub windows_of : Bytes → List (Bytes × List CompiledWindow) → List CompiledWindow
windows_of p [] = []
windows_of p ((q, ws) ∷ m) = if q =ᵇ p then ws else windows_of p m

unfoldable pub append_window :
    Bytes → CompiledWindow → List (Bytes × List CompiledWindow) → List (Bytes × List CompiledWindow)
append_window p w [] = (p, w ∷ []) ∷ []
append_window p w ((q, ws) ∷ m) =
    if q =ᵇ p then (q, ws ++ w ∷ []) ∷ m else (q, ws) ∷ append_window p w m

-- The loop of `NewScheduleRules`.
unfoldable pub add_windows :
    Clock → List (Bytes × List CompiledWindow) → List ScheduleWindow → Checked ScheduleRules
add_windows lib m [] = valid (record { by_profile = m })
add_windows lib m (w ∷ ws) =
    if is_empty w.profile
    then invalid empty_profile
    else compile_schedule_window lib w >>= λ c. add_windows lib (append_window w.profile c m) ws

unfoldable pub new_schedule_rules : Clock → List ScheduleWindow → Checked ScheduleRules
new_schedule_rules lib ws = add_windows lib [] ws

abbrev pub marked : List Bool → ℕ → Bool
marked marks day = elim (get_elem? marks day) [ none ↦ false | some b ↦ b ]

-- The body of the loop of `Allowed`; there is a mark for each day of the week.
unfoldable pub is_open : ℕ → ℕ → CompiledWindow → Bool
is_open day minute w = marked w.days day && leb w.start minute && ltb minute w.end

unfoldable pub any_open : ℕ → ℕ → List CompiledWindow → Bool
any_open day minute [] = false
any_open day minute (w ∷ ws) = is_open day minute w || any_open day minute ws

abbrev pub allowed_by : List CompiledWindow → ℕ → ℕ → Bool
allowed_by [] day minute = true
allowed_by (w ∷ ws) day minute = any_open day minute (w ∷ ws)

-- `Allowed` at the weekday, the hour and the minute that `now` has.
unfoldable pub allowed : Option ScheduleRules → Bytes → ℕ → ℕ → ℕ → Bool
allowed none profile day hour minute = true
allowed (some r) profile day hour minute =
    allowed_by (windows_of profile r.by_profile) day (hour * 60 + minute)
