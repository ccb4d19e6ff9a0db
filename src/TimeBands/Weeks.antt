-- ===== src/TimeBands/Weeks.antt =====
-- Which minutes of a week the bands block.
use lucid_gate.Prelude.{
  ℕ, zero, suc, ◌+◌, ◌*◌, ◌%◌, ◌<◌, ◌≡◌, ◌⊎◌, inl, inr, Bool, true, false, ◌&&◌, ◌||◌, some, List,
  [], ◌∷◌, ◌++◌, ltb, leb, ◌==◌, arith, refl, ap, ◌∙◌, if◌then◌else◌, Bool-cases, All, subst,
  length, get_elem?, set, length-set, ==_iff,
}
use Prim.Native.Nat.{min}
use lucid_gate.TimeBands.Bands.{TimeBand}
use lucid_gate.TimeBands.Intervals.{
  ScheduleInterval, Week, interval, on_day, add_interval, block_day, block_days, block_bands,
  blocked_intervals_by_day, no_intervals,
}
use lucid_gate.TimeBands.Subtraction.{covers, covered}
use lucid_gate.TimeBands.Exactness.{covered-append}

pub on_day-set :
    (week : Week) (d day : ℕ) (is : List ScheduleInterval)
    → d < length week
    → on_day (set week d is) day ≡ (if d == day then is else on_day week day)
on_day-set [] d day is h = absurd (omega arith)
on_day-set (x ∷ week) zero zero is h = ground arith
on_day-set (x ∷ week) zero (suc day) is h = ground arith
on_day-set (x ∷ week) (suc d) zero is h = ground arith
on_day-set (x ∷ week) (suc d) (suc day) is h = ground (arith, on_day-set week d day is)

pub covered-add_interval :
    (week : Week) (d day : ℕ) (i : ScheduleInterval) (m : ℕ)
    → d < length week
    → covered (on_day (add_interval week d i) day) m
      ≡ (covered (on_day week day) m || (d == day && covers i m))
covered-add_interval week d day i m h =
    let e = on_day-set week d day (on_day week d ++ i ∷ []) h in
    let a = covered-append (on_day week d) (i ∷ []) m in
    ap (λ is. covered is m) e ∙ elim (Bool-cases (d == day)) [
      | inl same ↦ rw same (
          a
          ∙ ap (λ k. covered (on_day week k) m || (covers i m || false)) ((==_iff d day).0 same)
          ∙ ground arith)
      | inr other ↦ rw other (ground arith)
    ]

-- Some element has the property.
abbrev pub Any {ℓ} : {A : Type ℓ} → (A → Type 0) → List A → Type 0
Any P [] = ⊥
Any P (x ∷ xs) = P x ⊎ Any P xs

-- The minutes that a band blocks on a day that it marks, and on the next one.
abbrev pub own_minute : TimeBand → ℕ → Bool
own_minute b m = leb b.start m && (ltb m b.end || leb b.end b.start)

abbrev pub next_minute : TimeBand → ℕ → Bool
next_minute b m = leb b.end b.start && ltb m b.end

length-add_interval :
    (week : Week) (d : ℕ) (i : ScheduleInterval) → length (add_interval week d i) ≡ length week
length-add_interval week d i = length-set week d (on_day week d ++ i ∷ [])

length-block_day : (b : TimeBand) (d : ℕ) (week : Week) → length (block_day b d week) ≡ length week
unfolding block_day
length-block_day b d week =
    let late = add_interval week d (interval b.start (24 * 60)) in
    elim (Bool-cases (ltb b.start b.end)) [
      | inl e ↦ rw e (length-add_interval week d (interval b.start (min b.end (24 * 60))))
      | inr e ↦ elim (Bool-cases (ltb 0 b.end)) [
        | inl f ↦
            rw (e, f)
              (length-add_interval late ((d + 1) % 7) (interval 0 b.end)
                ∙ length-add_interval week d (interval b.start (24 * 60)))
        | inr f ↦ rw (e, f) (length-add_interval week d (interval b.start (24 * 60)))
      ]
    ]

covered-block_day :
    (b : TimeBand) (d day : ℕ) (week : Week) (m : ℕ)
    → d < 7
    → length week ≡ 7
    → m < 24 * 60
    → covered (on_day (block_day b d week) day) m ≡ (
        covered (on_day week day) m
        || ((d == day && own_minute b m) || ((d + 1) % 7 == day && next_minute b m)))
unfolding block_day
covered-block_day b d day week m small seven early =
    let i = interval b.start (24 * 60) in
    let late = add_interval week d i in
    elim (Bool-cases (ltb b.start b.end)) [
      | inl e ↦
          let same = interval b.start (min b.end (24 * 60)) in
          rw e (covered-add_interval week d day same m (omega arith) ∙ ground arith)
      | inr e ↦ elim (Bool-cases (ltb 0 b.end)) [
        | inl f ↦
            rw (e, f)
              (covered-add_interval late ((d + 1) % 7) day (interval 0 b.end) m
                  (omega (arith, length-add_interval week d i))
                ∙ ap (λ c. c || ((d + 1) % 7 == day && covers (interval 0 b.end) m))
                    (covered-add_interval week d day i m (omega arith))
                ∙ ground arith)
        | inr f ↦ rw (e, f) (covered-add_interval week d day i m (omega arith) ∙ ground arith)
      ]
    ]

-- The band blocks the minute on the day: it marks the day, and the minute is between its times, or it
-- marks the day before, ends before it starts, and the minute is before its end.
abbrev pub Blocks : TimeBand → ℕ → ℕ → Type 0
Blocks b day m =
    ((get_elem? b.days day ≡ some true) × (own_minute b m ≡ true))
    ⊎ ((d : ℕ) × ((d + 1) % 7 ≡ day) × (get_elem? b.days d ≡ some true) × (next_minute b m ≡ true))

module _ (b : TimeBand) (day m : ℕ) (early : m < 24 * 60) where
  abbrev is_hit : ℕ → Bool
  is_hit d = (d == day && own_minute b m) || ((d + 1) % 7 == day && next_minute b m)

  length-block_days :
      (d : ℕ) (marks : List Bool) (week : Week) → length (block_days b d marks week) ≡ length week
  unfolding block_days
  length-block_days d [] week = refl
  length-block_days d (true ∷ marks) week =
      length-block_days (suc d) marks (block_day b d week) ∙ length-block_day b d week
  length-block_days d (false ∷ marks) week = length-block_days (suc d) marks week

  block_days_kept :
      (d : ℕ) (marks : List Bool) (week : Week)
      → d + length marks ≡ 7
      → length week ≡ 7
      → covered (on_day week day) m ≡ true
      → covered (on_day (block_days b d marks week) day) m ≡ true
  unfolding block_days
  block_days_kept d [] week e l h = h
  block_days_kept d (false ∷ marks) week e l h =
      block_days_kept (suc d) marks week (omega arith) l h
  block_days_kept d (true ∷ marks) week e l h =
      block_days_kept (suc d) marks (block_day b d week) (omega arith)
        (length-block_day b d week ∙ l)
        (covered-block_day b d day week m (omega arith) l early ∙ ground (arith, h))

  block_days_hit :
      (d k : ℕ) (marks : List Bool) (week : Week)
      → d + length marks ≡ 7
      → length week ≡ 7
      → get_elem? marks k ≡ some true
      → is_hit (d + k) ≡ true
      → covered (on_day (block_days b d marks week) day) m ≡ true
  unfolding block_days
  block_days_hit d k [] week e l g h = absurd (cc)
  block_days_hit d (suc k) (false ∷ marks) week e l g h =
      let q : d + suc k ≡ suc d + k = omega arith in
      block_days_hit (suc d) k marks week (omega arith) l g (subst (λ n. is_hit n ≡ true) q h)
  block_days_hit d (suc k) (true ∷ marks) week e l g h =
      let q : d + suc k ≡ suc d + k = omega arith in
      block_days_hit (suc d) k marks (block_day b d week) (omega arith)
        (length-block_day b d week ∙ l) g (subst (λ n. is_hit n ≡ true) q h)
  block_days_hit d zero (false ∷ marks) week e l g h = absurd (cc)
  block_days_hit d zero (true ∷ marks) week e l g h =
      let q : d + 0 ≡ d = omega arith in
      let here = subst (λ n. is_hit n ≡ true) q h in
      block_days_kept (suc d) marks (block_day b d week) (omega arith)
        (length-block_day b d week ∙ l)
        (covered-block_day b d day week m (omega arith) l early ∙ ground (arith, here))

-- A band has a mark for each day of the week.
abbrev pub HasWeek : List TimeBand → Type 0
HasWeek bands = All (λ b. length b.days ≡ 7) bands

module _ (day m : ℕ) (early : m < 24 * 60) where
  block_bands_kept :
      (bands : List TimeBand) (week : Week)
      → HasWeek bands
      → length week ≡ 7
      → covered (on_day week day) m ≡ true
      → covered (on_day (block_bands bands week) day) m ≡ true
  unfolding block_bands
  block_bands_kept [] week w l h = h
  block_bands_kept (b ∷ bands) week w l h =
      block_bands_kept bands (block_days b 0 b.days week) w.1
        (length-block_days b day m early 0 b.days week ∙ l)
        (block_days_kept b day m early 0 b.days week (omega (arith, w.0)) l h)

  block_bands_hit :
      (bands : List TimeBand) (week : Week) (d : ℕ)
      → HasWeek bands
      → length week ≡ 7
      → Any (λ b. (get_elem? b.days d ≡ some true) × (is_hit b day m early d ≡ true)) bands
      → covered (on_day (block_bands bands week) day) m ≡ true
  unfolding block_bands
  block_bands_hit [] week d w l h = absurd h
  block_bands_hit (b ∷ bands) week d w l (inl (g, h)) =
      let q : d ≡ 0 + d = omega arith in
      block_bands_kept bands (block_days b 0 b.days week) w.1
        (length-block_days b day m early 0 b.days week ∙ l)
        (block_days_hit b day m early 0 d b.days week (omega (arith, w.0)) l g
          (subst (λ n. is_hit b day m early n ≡ true) q h))
  block_bands_hit (b ∷ bands) week d w l (inr h) =
      block_bands_hit bands (block_days b 0 b.days week) d w.1
        (length-block_days b day m early 0 b.days week ∙ l) h

  Blocks-hit :
      (b : TimeBand)
      → Blocks b day m
      → (d : ℕ) × (get_elem? b.days d ≡ some true) × (is_hit b day m early d ≡ true)
  Blocks-hit b (inl (g, h)) = (day, g, ground arith)
  Blocks-hit b (inr (d, e, g, h)) = (d, g, ground arith)

  one_hit :
      (bands : List TimeBand)
      → Any (λ b. Blocks b day m) bands
      → (d : ℕ) × Any
          (λ b. (get_elem? b.days d ≡ some true) × (is_hit b day m early d ≡ true))
          bands
  one_hit [] h = absurd h
  one_hit (b ∷ bands) (inl h) = let (d, g, k) = Blocks-hit b h in (d, inl (g, k))
  one_hit (b ∷ bands) (inr h) = let (d, k) = one_hit bands h in (d, inr k)

  -- What a band blocks is in the intervals of its day.
  pub blocked_intervals-hit :
      (bands : List TimeBand)
      → HasWeek bands
      → Any (λ b. Blocks b day m) bands
      → covered (on_day (blocked_intervals_by_day bands) day) m ≡ true
  unfolding blocked_intervals_by_day
  blocked_intervals-hit bands w h =
      let (d, k) = one_hit bands h in block_bands_hit bands no_intervals d w refl k
