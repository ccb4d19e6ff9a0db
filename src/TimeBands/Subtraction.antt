-- ===== src/TimeBands/Subtraction.antt =====
-- Which minutes `subtractIntervals` leaves.
use lucid_gate.Prelude.{
  ℕ, zero, suc, inl, inr, not, none, length, Option-cases, ◌≡◌, Bool, true, false, ◌&&◌, ◌||◌, some,
  List, [], ◌∷◌, ◌++◌, ltb, leb, arith, refl, All, get_elem?, set, ||-eq-true,
}
use lucid_gate.TimeBands.Intervals.{
  subtract_block, subtract_intervals, ScheduleInterval, cut_interval, write_at,
}

abbrev pub covers : ScheduleInterval → ℕ → Bool
covers i m = leb i.start m && ltb m i.end

abbrev pub covered : List ScheduleInterval → ℕ → Bool
covered [] m = false
covered (i ∷ is) m = covers i m || covered is m

-- A cut keeps exactly the minutes outside the block.
pub cut_covered :
    (b c : ScheduleInterval) (m : ℕ)
    → covered (cut_interval b c) m ≡ (covers c m && not (covers b m))
unfolding cut_interval
cut_covered b c m = ground arith

module _ (A : Type 0) (m : ℕ) where
  -- Where an interval covers the minute, `A` holds.
  abbrev Grants : ScheduleInterval → Type 0
  Grants i = covers i m ≡ true → A

  All-set :
      (out : List ScheduleInterval) (k : ℕ) (v : ScheduleInterval)
      → All Grants out
      → Grants v
      → All Grants (set out k v)
  All-set [] k v h g = tt
  All-set (x ∷ out) zero v h g = (g, h.1)
  All-set (x ∷ out) (suc k) v h g = (h.0, All-set out k v h.1 g)

  All-write_at :
      (out : List ScheduleInterval) (k : ℕ) (is : List ScheduleInterval)
      → All Grants out
      → All Grants is
      → All Grants (write_at out k is)
  unfolding write_at
  All-write_at out k [] h g = h
  All-write_at out k (i ∷ is) h g =
      All-write_at (set out k i) (suc k) is (All-set out k i h g.0) g.1

  All-get_elem? :
      (out : List ScheduleInterval) (k : ℕ) (c : ScheduleInterval)
      → All Grants out
      → get_elem? out k ≡ some c
      → Grants c
  All-get_elem? [] k c h e = cc
  All-get_elem? (x ∷ out) zero c h e = λ h'. h.0 (ground (arith, e))
  All-get_elem? (x ∷ out) (suc k) c h e = All-get_elem? out k c h.1 e

  All_append :
      (xs ys : List ScheduleInterval) → All Grants xs → All Grants ys → All Grants (xs ++ ys)
  All_append [] ys h g = g
  All_append (x ∷ xs) ys h g = (h.0, All_append xs ys h.1 g)

  All-covered : (xs : List ScheduleInterval) → All Grants xs → covered xs m ≡ true → A
  All-covered [] h e = absurd (cc)
  All-covered (x ∷ xs) h e = elim (||-eq-true (covers x m) (covered xs m) e) [
    | inl a ↦ h.0 a
    | inr b ↦ All-covered xs h.1 b
  ]

  covered-All : (xs : List ScheduleInterval) → (covered xs m ≡ true → A) → All Grants xs
  covered-All [] h = tt
  covered-All (x ∷ xs) h = (λ e. h (rw e refl), covered-All xs (λ e. h (ground (arith, e))))

-- Outside the block, and where `A` holds.
abbrev Outside : Type 0 → ScheduleInterval → ℕ → Type 0
Outside A b m = A × (covers b m ≡ false)

cut_interval-All :
    (A : Type 0) (m : ℕ) (b c : ScheduleInterval)
    → Grants A m c
    → All (Grants (Outside A b m) m) (cut_interval b c)
cut_interval-All A m b c h =
    covered-All (Outside A b m) m (cut_interval b c)
      λ e. let k = cut_covered b c m in (h (ground (arith, k)), ground (arith, k))

weaken :
    (A : Type 0) (m : ℕ) (b : ScheduleInterval) (xs : List ScheduleInterval)
    → All (Grants (Outside A b m) m) xs
    → All (Grants A m) xs
weaken A m b [] h = tt
weaken A m b (x ∷ xs) h = (λ e. (h.0 e).0, weaken A m b xs h.1)

pub subtract_block_hit :
    (b c : ScheduleInterval) (i left : ℕ) (out next : List ScheduleInterval)
    → get_elem? out i ≡ some c
    → subtract_block b i (suc left) out next
      ≡ subtract_block b
          (suc i)
          left
          (write_at out (length next) (cut_interval b c))
          (next ++ cut_interval b c)
unfolding subtract_block
subtract_block_hit b c i left out next e = ground (arith, e)

subtract_block_miss :
    (b : ScheduleInterval) (i left : ℕ) (out next : List ScheduleInterval)
    → get_elem? out i ≡ none
    → subtract_block b i (suc left) out next ≡ next
unfolding subtract_block
subtract_block_miss b i left out next e = ground (arith, e)

subtract_block-All :
    (A : Type 0) (m : ℕ) (b : ScheduleInterval) (i left : ℕ) (out next : List ScheduleInterval)
    → All (Grants A m) out
    → All (Grants (Outside A b m) m) next
    → All (Grants (Outside A b m) m) (subtract_block b i left out next)
subtract_block-All A m b i zero out next h g = unfold subtract_block in g
subtract_block-All A m b i (suc left) out next h g = elim (Option-cases (get_elem? out i)) [
  | inl e ↦ rw (subtract_block_miss b i left out next e) g
  | inr (c, e) ↦
      let cut = cut_interval-All A m b c (All-get_elem? A m out i c h e) in
      rw (subtract_block_hit b c i left out next e) (
        subtract_block-All A m b (suc i) left (write_at out (length next) (cut_interval b c))
          (next ++ cut_interval b c)
          (All-write_at A m out (length next) (cut_interval b c) h
            (weaken A m b (cut_interval b c) cut))
          (All_append (Outside A b m) m next (cut_interval b c) g cut))
]

-- Every minute that `subtractIntervals` leaves was in one of the intervals, and is in none of the blocks,
-- whatever the intervals and the blocks are.
pub subtract_intervals-covered :
    (out blocks : List ScheduleInterval) (m : ℕ)
    → covered (subtract_intervals out blocks) m ≡ true
    → (covered out m ≡ true) × (covered blocks m ≡ false)
unfolding subtract_intervals
subtract_intervals-covered out [] m h = (h, refl)
subtract_intervals-covered out (b ∷ bs) m h =
    let next = subtract_block b 0 (length out) out [] in
    let rest = subtract_intervals-covered next bs m h in
    let A = covered out m ≡ true in
    let one =
      All-covered (Outside A b m) m next
        (subtract_block-All A m b 0 (length out) out [] (covered-All A m out (λ e. e)) tt) rest.0 in
    (one.0, rw (one.1, rest.1) refl)
