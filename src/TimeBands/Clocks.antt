-- ===== src/TimeBands/Clocks.antt =====
-- The clocks that the restriction prints are read back as the minutes that they were.
use lucid_gate.Prelude.{
  ℕ, zero, suc, ◌+◌, ◌*◌, ◌/◌, ◌%◌, ◌<◌, ◌≡◌, inl, inr, pos, Bool, true, false, ◌&&◌, ◌||◌, some,
  [], ◌∷◌, ◌++◌, Bytes, leb, ◌==◌, arith, refl, ap, ◌∙◌, Bool-cases, All, leb→lt,
}
use Prim.Native.Nat.{min}
use lucid_gate.Text.{◌=ᵇ◌}
use lucid_gate.Schedule.Rules.{
  Clock, find_weekday, weekday_names, parse_clock_minute, parse_weekday, cut, clock_minute,
}
use lucid_gate.TimeBands.Restriction.{minute_clock, two_digits, weekday_name}

-- Digits, colons and small letters.
abbrev pub is_plain : ℕ → Bool
is_plain c = (leb b'0' c && leb c b':') || (leb b'a' c && leb c b'z')

-- What the packages strings and strconv do with such texts.
pub record PlainTexts (lib : Clock) : Type 0 where
  pub trim_space-plain : (s : Bytes) → All (λ c. is_plain c ≡ true) s → lib.trim_space s ≡ s
  pub to_lower-plain : (s : Bytes) → All (λ c. is_plain c ≡ true) s → lib.to_lower s ≡ s
  pub atoi-two_digits : (n : ℕ) → n < 100 → lib.atoi (two_digits n) ≡ some (pos n)

-- The parts of a clock.
cut_clock :
    (a b c d : ℕ)
    → (a == b':') ≡ false
    → (b == b':') ≡ false
    → cut (a ∷ b ∷ b':' ∷ c ∷ d ∷ []) b':' ≡ some (a ∷ b ∷ [], c ∷ d ∷ [])
unfolding cut
cut_clock a b c d x y = ground arith

tens-is_plain : (n : ℕ) → n < 100 → is_plain (b'0' + n / 10) ≡ true
tens-is_plain n h = ground arith

ones-is_plain : (n : ℕ) → is_plain (b'0' + n % 10) ≡ true
ones-is_plain n = ground arith

tens-no_colon : (n : ℕ) → n < 100 → ((b'0' + n / 10) == b':') ≡ false
tens-no_colon n h = ground arith

ones-no_colon : (n : ℕ) → ((b'0' + n % 10) == b':') ≡ false
ones-no_colon n = ground arith

clock_minute_split : (x : ℕ) → x < 24 * 60 → clock_minute (pos (x / 60)) (pos (x % 60)) ≡ some x
unfolding clock_minute
clock_minute_split x h = ground arith

last_minute : clock_minute (pos 24) (pos 0) ≡ some (24 * 60)
unfolding clock_minute
last_minute = refl

weekday_name-plain : (day : ℕ) → day < 7 → All (λ c. is_plain c ≡ true) (weekday_name day)
unfolding weekday_name
weekday_name-plain zero h = (refl, (refl, (refl, tt)))
weekday_name-plain (suc zero) h = (refl, (refl, (refl, tt)))
weekday_name-plain (suc (suc zero)) h = (refl, (refl, (refl, tt)))
weekday_name-plain (suc (suc (suc zero))) h = (refl, (refl, (refl, tt)))
weekday_name-plain (suc (suc (suc (suc zero)))) h = (refl, (refl, (refl, tt)))
weekday_name-plain (suc (suc (suc (suc (suc zero))))) h = (refl, (refl, (refl, tt)))
weekday_name-plain (suc (suc (suc (suc (suc (suc zero)))))) h = (refl, (refl, (refl, tt)))
weekday_name-plain (suc (suc (suc (suc (suc (suc (suc n))))))) h = absurd (omega arith)

find_own : (day : ℕ) → day < 7 → find_weekday (weekday_name day) weekday_names 0 ≡ some day
unfolding weekday_name ◌=ᵇ◌
find_own zero h = refl
find_own (suc zero) h = refl
find_own (suc (suc zero)) h = refl
find_own (suc (suc (suc zero))) h = refl
find_own (suc (suc (suc (suc zero)))) h = refl
find_own (suc (suc (suc (suc (suc zero))))) h = refl
find_own (suc (suc (suc (suc (suc (suc zero)))))) h = refl
find_own (suc (suc (suc (suc (suc (suc (suc n))))))) h = absurd (omega arith)

module _ (lib : Clock) (plain : PlainTexts lib) where
  parse_two_digits :
      (h m : ℕ)
      → h < 100
      → m < 100
      → parse_clock_minute lib (two_digits h ++ b':' ∷ two_digits m) ≡ clock_minute (pos h) (pos m)
  unfolding parse_clock_minute
  parse_two_digits h m small few =
      let trimmed = plain.trim_space-plain (two_digits h ++ b':' ∷ two_digits m) (
        tens-is_plain h small,
        (ones-is_plain h, (refl, (tens-is_plain m few, (ones-is_plain m, tt)))),
      ) in
      let parts =
        cut_clock (b'0' + h / 10) (b'0' + h % 10) (b'0' + m / 10) (b'0' + m % 10)
          (tens-no_colon h small) (ones-no_colon h) in
      ground (arith, trimmed, parts, plain.atoi-two_digits h small, plain.atoi-two_digits m few)

  -- A clock that was printed for a minute is read as that minute, and as the end of the day if it is later.
  pub parse_clock_minute-minute_clock :
      (x : ℕ) → parse_clock_minute lib (minute_clock x) ≡ some (min x (24 * 60))
  unfolding minute_clock
  parse_clock_minute-minute_clock x = elim (Bool-cases (leb (24 * 60) x)) [
    | inl late ↦
        rw late
          (parse_two_digits 24 0 (omega arith) (omega arith) ∙ last_minute ∙ ap some (ground arith))
    | inr early ↦ rw early (
        parse_two_digits (x / 60) (x % 60) (ground arith) (omega arith)
        ∙ clock_minute_split x (leb→lt _ _ early)
        ∙ ap some (ground arith))
  ]

  -- The name that is printed for a day is read as that day.
  pub parse_weekday-weekday_name :
      (day : ℕ) → day < 7 → parse_weekday lib.unicode (weekday_name day) ≡ some day
  unfolding parse_weekday weekday_name ◌=ᵇ◌
  parse_weekday-weekday_name day h =
      let name = weekday_name day in
      let p = weekday_name-plain day h in
      rw (plain.trim_space-plain name p, plain.to_lower-plain name p) (find_own day h)
