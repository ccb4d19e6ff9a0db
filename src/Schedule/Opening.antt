-- ===== src/Schedule/Opening.antt =====
-- When a profile may use the proxy, said on the windows as they were configured.
use lucid_gate.Prelude.{
  ℕ, zero, suc, ◌+◌, ◌*◌, ◌≤◌, ◌<◌, ◌≡◌, ◌≢◌, ◌⊎◌, ◌↔◌, inl, inr, Bool, true, false, ◌||◌, some,
  List, [], ◌∷◌, ◌++◌, Bytes, leb, ◌==◌, if◌then◌else◌, set, get_elem?, replicate, length, arith,
  refl, Bool-cases, Option-cases, length-set,
}
use lucid_gate.Text.{Unicode, is_empty, ◌=ᵇ◌, =ᵇ_iff}
use lucid_gate.Schedule.Rules.{
  Clock, ScheduleWindow, CompiledWindow, ScheduleRules, valid, Checked-cases, parse_weekday,
  parse_clock_minute, mark_days, compile_days, ordered_window, compile_schedule_window, windows_of,
  append_window, add_windows, new_schedule_rules, is_open, any_open, allowed_by, allowed, marked,
}

-- The day is one of the days that are named.
abbrev pub NamesDay : Unicode → ℕ → List Bytes → Type 0
NamesDay u day [] = ⊥
NamesDay u day (d ∷ ds) = (parse_weekday u d ≡ some day) ⊎ NamesDay u day ds

-- The window is open at a minute of a day: it names the day or no day at all, and the minute is between its
-- times, the end excluded.
abbrev pub Opens : Clock → ℕ → ℕ → ScheduleWindow → Type 0
Opens lib day minute w =
    ((w.days ≡ []) ⊎ NamesDay lib.unicode day w.days)
    × ((s : ℕ) × (parse_clock_minute lib w.start ≡ some s) × (s ≤ minute))
    × ((e : ℕ) × (parse_clock_minute lib w.end ≡ some e) × (minute < e))

-- Some window of the profile is open.
abbrev pub SomeOpens : Clock → Bytes → ℕ → ℕ → List ScheduleWindow → Type 0
SomeOpens lib p day minute [] = ⊥
SomeOpens lib p day minute (w ∷ ws) =
    ((w.profile ≡ p) × Opens lib day minute w) ⊎ SomeOpens lib p day minute ws

-- The profile has a window.
abbrev pub HasWindow : Bytes → List ScheduleWindow → Type 0
HasWindow p [] = ⊥
HasWindow p (w ∷ ws) = (w.profile ≡ p) ⊎ HasWindow p ws

get_elem?-set {ℓ} :
    {A : Type ℓ} (xs : List A) (i j : ℕ) (v : A)
    → j < length xs
    → get_elem? (set xs i v) j ≡ (if i == j then some v else get_elem? xs j)
get_elem?-set [] i j v h = absurd (omega arith)
get_elem?-set (x ∷ xs) zero zero v h = ground arith
get_elem?-set (x ∷ xs) zero (suc j) v h = ground arith
get_elem?-set (x ∷ xs) (suc i) zero v h = ground arith
get_elem?-set (x ∷ xs) (suc i) (suc j) v h = ground (arith, get_elem?-set xs i j v)

-- A day is marked after the loop if it was before, or is named.
mark_days_iff :
    (u : Unicode) (ds : List Bytes) (marks r : List Bool) (day : ℕ)
    → mark_days u marks ds ≡ valid r
    → day < length marks
    → (get_elem? r day ≡ some true) ↔ ((get_elem? marks day ≡ some true) ⊎ NamesDay u day ds)
unfolding mark_days
mark_days_iff u [] marks r day e h = ground arith
mark_days_iff u (d ∷ ds) marks r day e h = elim (Option-cases (parse_weekday u d)) [
  | inl bad ↦ absurd (ground arith)
  | inr (i, good) ↦
      let rest =
        mark_days_iff u ds (set marks i true) r day (ground arith)
          (omega (arith, length-set marks i true)) in
      let kept = get_elem?-set marks i day true h in
      elim (Bool-cases (i == day)) [
        | inl same ↦ (λ x. inr (inl (ground arith)), λ x. rest.1 (inl (ground arith)))
        | inr other ↦ (
          λ x. elim (rest.0 x) [ inl y ↦ inl (ground arith) | inr y ↦ inr (inr y) ],
          λ x. elim x [
            | inl y ↦ rest.1 (inl (ground arith))
            | inr (inl y) ↦ absurd (ground arith)
            | inr (inr y) ↦ rest.1 (inr y)
          ],
        )
      ]
]

replicate-some {ℓ} : {A : Type ℓ} (n i : ℕ) (v : A) → i < n → get_elem? (replicate n v) i ≡ some v
replicate-some zero i v h = absurd (omega arith)
replicate-some (suc n) zero v h = ground arith
replicate-some (suc n) (suc i) v h = ground (arith, replicate-some n i v)

-- The windows of a profile after one more.
windows_of-append_window :
    (p q : Bytes) (w : CompiledWindow) (m : List (Bytes × List CompiledWindow))
    → windows_of p (append_window q w m)
      ≡ (if q =ᵇ p then windows_of p m ++ w ∷ [] else windows_of p m)
unfolding windows_of append_window
windows_of-append_window p q w [] = ground arith
windows_of-append_window p q w ((k, ws) ∷ m) = elim (Bool-cases (k =ᵇ q)) [
  | inl same ↦ rw same (rw ((=ᵇ_iff k q).0 same) (ground arith))
  | inr other ↦ rw other (elim (Bool-cases (q =ᵇ p)) [
    | inl it ↦ ground (arith, windows_of-append_window p q w m, (=ᵇ_iff q p).0 it)
    | inr not_it ↦ ground (arith, windows_of-append_window p q w m)
  ])
]

any_open-append :
    (day minute : ℕ) (ws vs : List CompiledWindow)
    → any_open day minute (ws ++ vs) ≡ (any_open day minute ws || any_open day minute vs)
unfolding any_open
any_open-append day minute [] vs = refl
any_open-append day minute (w ∷ ws) vs = ground (arith, any_open-append day minute ws vs)

compile_days_iff :
    (u : Unicode) (ds : List Bytes) (r : List Bool) (day : ℕ)
    → compile_days u ds ≡ valid r
    → day < 7
    → (get_elem? r day ≡ some true) ↔ ((ds ≡ []) ⊎ NamesDay u day ds)
compile_days_iff u [] r day e h = (λ _. inl refl, λ _. ground (arith, replicate-some 7 day true h))
compile_days_iff u (d ∷ ds) r day e h =
    let step = mark_days_iff u (d ∷ ds) (replicate 7 false) r day e h in
    let bare = replicate-some 7 day false h in
    (
      λ x. elim (step.0 x) [ inl y ↦ absurd (ground arith) | inr y ↦ inr y ],
      λ x. elim x [ inl y ↦ absurd (ground arith) | inr y ↦ step.1 (inr y) ],
    )

marked_iff :
    (marks : List Bool) (day : ℕ) → (marked marks day ≡ true) ↔ (get_elem? marks day ≡ some true)
marked_iff marks day = elim (Option-cases (get_elem? marks day)) [
  | inl e ↦ ground arith
  | inr (b, e) ↦ ground arith
]

-- The parts of a window that compiled.
record Parts (lib : Clock) (w : ScheduleWindow) (c : CompiledWindow) : Type 0 where
  days : compile_days lib.unicode w.days ≡ valid c.days
  start : parse_clock_minute lib w.start ≡ some c.start
  end : parse_clock_minute lib w.end ≡ some c.end

ordered_window-parts :
    (marks : List Bool) (s e : ℕ) (c : CompiledWindow)
    → ordered_window marks s e ≡ valid c
    → (c.days ≡ marks) × (c.start ≡ s) × (c.end ≡ e)
ordered_window-parts marks s e c h = elim (Bool-cases (leb e s)) [
  | inl bad ↦ absurd (ground arith)
  | inr good ↦ (ground arith, ground arith, ground arith)
]

parts :
    (lib : Clock) (w : ScheduleWindow) (c : CompiledWindow)
    → compile_schedule_window lib w ≡ valid c
    → Parts lib w c
unfolding compile_schedule_window
parts lib w c h = elim (Checked-cases (compile_days lib.unicode w.days)) [
  | inr (x, bad) ↦ absurd (ground arith)
  | inl (marks, days) ↦ elim (Option-cases (parse_clock_minute lib w.start)) [
    | inl bad ↦ absurd (ground arith)
    | inr (s, start) ↦ elim (Option-cases (parse_clock_minute lib w.end)) [
      | inl bad ↦ absurd (ground arith)
      | inr (e, end) ↦
          let made = ordered_window-parts marks s e c (ground arith) in
          record { days = ground arith; start = ground arith; end = ground arith }
    ]
  ]
]

-- A window that compiles is open when its configuration says so.
is_open_iff :
    (lib : Clock) (w : ScheduleWindow) (c : CompiledWindow) (day minute : ℕ)
    → compile_schedule_window lib w ≡ valid c
    → day < 7
    → (is_open day minute c ≡ true) ↔ Opens lib day minute w
unfolding is_open
is_open_iff lib w c day minute h small =
    let p = parts lib w c h in
    let named = compile_days_iff lib.unicode w.days c.days day p.days small in
    let mark = marked_iff c.days day in
    (
      λ x. (
        named.0 (mark.0 (ground arith)),
        (c.start, p.start, ground arith),
        (c.end, p.end, ground arith),
      ),
      λ (d, (s, start, low), (e, end, high)).
          let is_marked = mark.1 (named.1 d) in
          let same_start = p.start in let same_end = p.end in ground arith,
    )

-- One window more.
open_step :
    (p q : Bytes) (day minute : ℕ) (c : CompiledWindow) (m : List (Bytes × List CompiledWindow))
    → (any_open day minute (windows_of p (append_window q c m)) ≡ true)
      ↔ ((any_open day minute (windows_of p m) ≡ true) ⊎ ((q ≡ p) × (is_open day minute c ≡ true)))
open_step p q day minute c m = elim (Bool-cases (q =ᵇ p)) [
  | inl same ↦
      let it = (=ᵇ_iff q p).0 same in
      let more = any_open-append day minute (windows_of p m) (c ∷ []) in
      rw (windows_of-append_window p q c m, same, more) (unfold any_open in ground (arith, it))
  | inr other ↦
      let not_it = (=ᵇ_iff q p).1 in
      rw (windows_of-append_window p q c m, other)
        (λ x. inl x, λ x. elim x [ inl y ↦ y | inr (y, z) ↦ absurd (ground (arith, not_it y)) ])
]

cons-not-nil {ℓ} : {A : Type ℓ} (x : A) (xs : List A) → x ∷ xs ≢ []
cons-not-nil x xs e = cc

append-not-nil {ℓ} : {A : Type ℓ} (xs : List A) (a : A) → xs ++ a ∷ [] ≢ []
append-not-nil [] a e = cc
append-not-nil (x ∷ xs) a e = cc

none_step :
    (p q : Bytes) (c : CompiledWindow) (m : List (Bytes × List CompiledWindow))
    → (windows_of p (append_window q c m) ≡ []) ↔ ((windows_of p m ≡ []) × (q ≢ p))
none_step p q c m = elim (Bool-cases (q =ᵇ p)) [
  | inl same ↦
      rw (windows_of-append_window p q c m, same)
        (λ x. absurd (append-not-nil (windows_of p m) c x), λ x. absurd (x.1 ((=ᵇ_iff q p).0 same)))
  | inr other ↦
      rw (windows_of-append_window p q c m, other)
        (λ x. (x, λ y. absurd (ground (arith, (=ᵇ_iff q p).1 y))), λ x. x.0)
]

module _ (lib : Clock) (p : Bytes) where
  add_windows-nil :
      (m : List (Bytes × List CompiledWindow)) (r : ScheduleRules)
      → add_windows lib m [] ≡ valid r
      → r.by_profile ≡ m
  unfolding add_windows
  add_windows-nil m r e = ground arith

  -- The first round of the loop.
  add_windows-cons :
      (w : ScheduleWindow) (ws : List ScheduleWindow) (m : List (Bytes × List CompiledWindow))
      (r : ScheduleRules)
      → add_windows lib m (w ∷ ws) ≡ valid r
      → (c : CompiledWindow) × (compile_schedule_window lib w ≡ valid c)
        × (add_windows lib (append_window w.profile c m) ws ≡ valid r)
  unfolding add_windows
  add_windows-cons w ws m r e = elim (Bool-cases (is_empty w.profile)) [
    | inl blank ↦ absurd (ground arith)
    | inr named ↦ elim (Checked-cases (compile_schedule_window lib w)) [
      | inr (x, bad) ↦ absurd (ground arith)
      | inl (c, good) ↦ (c, good, ground arith)
    ]
  ]

  add_windows-open :
      (day minute : ℕ) (ws : List ScheduleWindow) (m : List (Bytes × List CompiledWindow))
      (r : ScheduleRules)
      → add_windows lib m ws ≡ valid r
      → day < 7
      → (any_open day minute (windows_of p r.by_profile) ≡ true)
        ↔ ((any_open day minute (windows_of p m) ≡ true) ⊎ SomeOpens lib p day minute ws)
  add_windows-open day minute [] m r e small = let same = add_windows-nil m r e in ground arith
  add_windows-open day minute (w ∷ ws) m r e small =
      let (c, good, rest) = add_windows-cons w ws m r e in
      let later = add_windows-open day minute ws (append_window w.profile c m) r rest small in
      let step = open_step p w.profile day minute c m in
      let this = is_open_iff lib w c day minute good small in
      (
        λ x. elim (later.0 x) [
          | inl y ↦ elim (step.0 y) [ inl z ↦ inl z | inr (z, o) ↦ inr (inl (z, this.0 o)) ]
          | inr y ↦ inr (inr y)
        ],
        λ x. elim x [
          | inl y ↦ later.1 (inl (step.1 (inl y)))
          | inr (inl (z, o)) ↦ later.1 (inl (step.1 (inr (z, this.1 o))))
          | inr (inr y) ↦ later.1 (inr y)
        ],
      )

  add_windows-none :
      (ws : List ScheduleWindow) (m : List (Bytes × List CompiledWindow)) (r : ScheduleRules)
      → add_windows lib m ws ≡ valid r
      → (windows_of p r.by_profile ≡ []) ↔ ((windows_of p m ≡ []) × (¬ HasWindow p ws))
  add_windows-none [] m r e =
      let same = add_windows-nil m r e in (λ x. (ground arith, λ h. h), λ (x, y). ground arith)
  add_windows-none (w ∷ ws) m r e =
      let (c, good, rest) = add_windows-cons w ws m r e in
      let later = add_windows-none ws (append_window w.profile c m) r rest in
      let step = none_step p w.profile c m in
      (
        λ x.
            let y = later.0 x in
            let z = step.0 y.0 in (z.0, λ h. elim h [ inl a ↦ z.1 a | inr b ↦ y.1 b ]),
        λ (x, y). later.1 (step.1 (x, λ a. y (inl a)), λ b. y (inr b)),
      )

allowed_by_iff :
    (ws : List CompiledWindow) (day minute : ℕ)
    → (allowed_by ws day minute ≡ true) ↔ ((ws ≡ []) ⊎ (any_open day minute ws ≡ true))
allowed_by_iff [] day minute = (λ _. inl refl, λ _. refl)
allowed_by_iff (w ∷ ws) day minute =
    (λ x. inr x, λ x. elim x [ inl y ↦ absurd (cons-not-nil w ws y) | inr y ↦ y ])

-- For rules that compile, at a day of the week, `Allowed` says yes exactly if the profile has no window, or
-- one of its windows is open: it names the day or no day, its start is not after the minute of the day, and
-- its end is after it.
pub allowed_iff :
    (lib : Clock) (ws : List ScheduleWindow) (r : ScheduleRules) (profile : Bytes)
    (day hour minute : ℕ)
    → new_schedule_rules lib ws ≡ valid r
    → day < 7
    → (allowed (some r) profile day hour minute ≡ true)
      ↔ ((¬ HasWindow profile ws) ⊎ SomeOpens lib profile day (hour * 60 + minute) ws)
unfolding new_schedule_rules allowed windows_of any_open
allowed_iff lib ws r profile day hour minute e small =
    let now = hour * 60 + minute in
    let asked = allowed_by_iff (windows_of profile r.by_profile) day now in
    let none_iff = add_windows-none lib profile ws [] r e in
    let open_iff = add_windows-open lib profile day now ws [] r e small in
    (
      λ x. elim (asked.0 x) [
        | inl y ↦ inl (none_iff.0 y).1
        | inr y ↦ elim (open_iff.0 y) [ inl z ↦ absurd (cc) | inr z ↦ inr z ]
      ],
      λ x. elim x [
        | inl y ↦ asked.1 (inl (none_iff.1 (refl, y)))
        | inr y ↦ asked.1 (inr (open_iff.1 (inr y)))
      ],
    )
