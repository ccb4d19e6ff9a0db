-- ===== src/TimeBands/Exactness.antt =====
-- Where `subtractIntervals` loses nothing: blocks in ascending order, taken from one interval.
use lucid_gate.Prelude.{
  ℕ, zero, suc, ◌+◌, ◌≤◌, ◌<◌, ◌≡◌, inl, inr, ◌&&◌, ◌||◌, not, some, List, [], ◌∷◌, ◌++◌, ltb, leb,
  arith, refl, sym, ap, ◌∙◌, Bool-cases, length, get_elem?, set, drop, length-append, append_assoc,
  append-nil, le→leb,
}
use lucid_gate.TimeBands.Intervals.{
  ScheduleInterval, cut_interval, write_at, subtract_block, subtract_intervals,
}
use lucid_gate.TimeBands.Subtraction.{covers, covered, cut_covered, subtract_block_hit}

abbrev cut_all : ScheduleInterval → List ScheduleInterval → List ScheduleInterval
cut_all b [] = []
cut_all b (c ∷ cs) = cut_interval b c ++ cut_all b cs

-- Each interval but the last is left as one piece at most.
abbrev IsUnsplit : ScheduleInterval → List ScheduleInterval → Type 0
IsUnsplit b [] = Unit
IsUnsplit b (c ∷ []) = Unit
IsUnsplit b (c ∷ (d ∷ ds)) = (length (cut_interval b c) ≤ 1) × IsUnsplit b (d ∷ ds)

drop-get_elem? :
    (i : ℕ) (out : List ScheduleInterval) (c : ScheduleInterval) (cs : List ScheduleInterval)
    → drop i out ≡ c ∷ cs
    → (get_elem? out i ≡ some c) × (drop (suc i) out ≡ cs)
drop-get_elem? zero [] c cs e = absurd (cc)
drop-get_elem? zero (x ∷ out) c cs e = (ground arith, ground arith)
drop-get_elem? (suc i) [] c cs e = absurd (cc)
drop-get_elem? (suc i) (x ∷ out) c cs e = drop-get_elem? i out c cs e

drop-set :
    (i k : ℕ) (out : List ScheduleInterval) (v : ScheduleInterval)
    → k < i
    → drop i (set out k v) ≡ drop i out
drop-set zero k out v h = absurd (omega arith)
drop-set (suc i) k [] v h = refl
drop-set (suc i) zero (x ∷ out) v h = refl
drop-set (suc i) (suc k) (x ∷ out) v h = drop-set i k out v (omega arith)

drop-write_at :
    (i k : ℕ) (out is : List ScheduleInterval)
    → k + length is ≤ i
    → drop i (write_at out k is) ≡ drop i out
unfolding write_at
drop-write_at i k out [] h = refl
drop-write_at i k out (v ∷ is) h =
    drop-write_at i (suc k) (set out k v) is (omega arith) ∙ drop-set i k out v (omega arith)

-- A block that splits no interval but the last meets each interval as it was.
subtract_block-cut_all :
    (b : ScheduleInterval) (i : ℕ) (cs out next : List ScheduleInterval)
    → drop i out ≡ cs
    → length next ≤ i
    → IsUnsplit b cs
    → subtract_block b i (length cs) out next ≡ next ++ cut_all b cs
subtract_block-cut_all b i [] out next e h u = unfold subtract_block in sym (append-nil next)
subtract_block-cut_all b i (c ∷ []) out next e h u =
    subtract_block_hit b c i 0 out next (drop-get_elem? i out c [] e).0
    ∙ unfold subtract_block in ap (λ r. next ++ r) (sym (append-nil (cut_interval b c)))
subtract_block-cut_all b i (c ∷ (d ∷ ds)) out next e h u =
    let kept = cut_interval b c in
    let next' = next ++ kept in
    let at = drop-get_elem? i out c (d ∷ ds) e in
    subtract_block_hit b c i (length (d ∷ ds)) out next at.0
    ∙ subtract_block-cut_all b (suc i) (d ∷ ds) (write_at out (length next) kept) next'
        (drop-write_at (suc i) (length next) out kept (omega (arith, u.0)) ∙ at.1)
        (omega (arith, u.0, length-append next kept)) u.1
    ∙ append_assoc next kept (cut_all b (d ∷ ds))

pub covered-append :
    (xs ys : List ScheduleInterval) (m : ℕ) → covered (xs ++ ys) m ≡ (covered xs m || covered ys m)
covered-append [] ys m = refl
covered-append (x ∷ xs) ys m = ground (arith, covered-append xs ys m)

cut_all-covered :
    (b : ScheduleInterval) (cs : List ScheduleInterval) (m : ℕ)
    → covered (cut_all b cs) m ≡ (covered cs m && not (covers b m))
cut_all-covered b [] m = refl
cut_all-covered b (c ∷ cs) m = ground (
  arith,
  covered-append (cut_interval b c) (cut_all b cs) m,
  cut_covered b c m,
  cut_all-covered b cs m,
)

-- All but the last end at a minute or before it.
abbrev IsBehind : ℕ → List ScheduleInterval → Type 0
IsBehind f [] = Unit
IsBehind f (c ∷ []) = Unit
IsBehind f (c ∷ (d ∷ ds)) = (c.end ≤ f) × IsBehind f (d ∷ ds)

-- The blocks start at `f` at the earliest, each where the one before it has ended.
abbrev pub IsAscending : ℕ → List ScheduleInterval → Type 0
IsAscending f [] = Unit
IsAscending f (b ∷ bs) = (f ≤ b.start) × (b.start ≤ b.end) × IsAscending b.end bs

cut_behind : (b c : ScheduleInterval) → c.end ≤ b.start → cut_interval b c ≡ c ∷ []
unfolding cut_interval
cut_behind b c h = ground (arith, le→leb c.end b.start h)

behind-IsUnsplit :
    (f : ℕ) (b : ScheduleInterval) (cs : List ScheduleInterval)
    → f ≤ b.start
    → IsBehind f cs
    → IsUnsplit b cs
behind-IsUnsplit f b [] h g = tt
behind-IsUnsplit f b (c ∷ []) h g = tt
behind-IsUnsplit f b (c ∷ (d ∷ ds)) h g =
    (rw (cut_behind b c (omega (arith, g.0))) (omega arith), behind-IsUnsplit f b (d ∷ ds) h g.1)

cut_last-IsBehind :
    (b c : ScheduleInterval) → b.start ≤ b.end → IsBehind b.end (cut_interval b c ++ [])
unfolding cut_interval
cut_last-IsBehind b c h = elim (Bool-cases (leb b.end c.start || leb c.end b.start)) [
  | inl e ↦ rw e tt
  | inr e ↦ elim (Bool-cases (ltb c.start b.start)) [
    | inl x ↦ elim (Bool-cases (ltb b.end c.end)) [
      | inl y ↦ rw (e, x, y) (h, tt)
      | inr y ↦ rw (e, x, y) tt
    ]
    | inr x ↦ elim (Bool-cases (ltb b.end c.end)) [
      | inl y ↦ rw (e, x, y) tt
      | inr y ↦ rw (e, x, y) tt
    ]
  ]
]

cons-IsBehind :
    (f : ℕ) (c : ScheduleInterval) (cs : List ScheduleInterval)
    → c.end ≤ f
    → IsBehind f cs
    → IsBehind f (c ∷ cs)
cons-IsBehind f c [] h g = tt
cons-IsBehind f c (d ∷ ds) h g = (h, g)

cut_all-IsBehind :
    (f : ℕ) (b : ScheduleInterval) (cs : List ScheduleInterval)
    → f ≤ b.start
    → b.start ≤ b.end
    → IsBehind f cs
    → IsBehind b.end (cut_all b cs)
cut_all-IsBehind f b [] h k g = tt
cut_all-IsBehind f b (c ∷ []) h k g = cut_last-IsBehind b c k
cut_all-IsBehind f b (c ∷ (d ∷ ds)) h k g = rw (cut_behind b c (omega (arith, g.0))) (
    cons-IsBehind b.end c (cut_all b (d ∷ ds)) (omega (arith, g.0))
      (cut_all-IsBehind f b (d ∷ ds) h k g.1))

subtract_ascending :
    (f : ℕ) (out blocks : List ScheduleInterval) (m : ℕ)
    → IsBehind f out
    → IsAscending f blocks
    → covered (subtract_intervals out blocks) m ≡ (covered out m && not (covered blocks m))
unfolding subtract_intervals
subtract_ascending f out [] m h g = ground arith
subtract_ascending f out (b ∷ bs) m h g =
    let whole =
      subtract_block-cut_all b 0 out out [] refl (omega arith) (behind-IsUnsplit f b out g.0 h) in
    ap (λ r. covered (subtract_intervals r bs) m) whole
    ∙ subtract_ascending b.end (cut_all b out) bs m (cut_all-IsBehind f b out g.0 g.1 h) g.2
    ∙ ground (arith, cut_all-covered b out m)

-- Blocks of which each starts where the one before it has ended, or later, take from an interval exactly
-- their own minutes.
pub subtract_intervals_exact :
    (i : ScheduleInterval) (blocks : List ScheduleInterval) (m : ℕ)
    → IsAscending 0 blocks
    → covered (subtract_intervals (i ∷ []) blocks) m ≡ (covers i m && not (covered blocks m))
subtract_intervals_exact i blocks m h = subtract_ascending 0 (i ∷ []) blocks m tt h ∙ ground arith
