-- ===== src/TimeBands/Bands.antt =====
-- rules.go: `parseE2GuardianTimeBands`.
use lucid_gate.Prelude.{
  ℕ, pos, negsuc, ◌+◌, ◌-◌, ◌*◌, Bool, true, false, ◌&&◌, ◌||◌, Option, none, some, List, [], ◌∷◌,
  Bytes, ltb, leb, ◌==◌, if◌then◌else◌, set, replicate,
}
use lucid_gate.Text.{is_empty}
use lucid_gate.Lists.Outcome.{
  Texts, ListLine, Fault, Either, Loaded, loaded, failed, located, ◌>>=◌,
}

-- `e2TimeBand`: `days` has seven entries, from Sunday on.
pub record TimeBand : Type 0 where
  pub path : Bytes
  pub line : ℕ
  pub days : List Bool
  pub start : ℕ
  pub end : ℕ

-- `parseE2TimePart` with 0 as the least value.
unfoldable pub parse_e2_time_part : Texts → Bytes → ℕ → Option ℕ
parse_e2_time_part lib raw max = elim (lib.atoi raw) [
  | none ↦ none
  | some (negsuc n) ↦ none
  | some (pos n) ↦ if ltb max n then none else some n
]

-- '0' is Monday, and Sunday is 0.
unfoldable pub e2guardian_day_to_weekday : ℕ → Option ℕ
e2guardian_day_to_weekday ch =
    if leb b'0' ch && leb ch b'5' then some (ch - b'0' + 1) else if ch == b'6' then some 0 else none

abbrev or_fault {ℓ} : {A : Type ℓ} → Option A → Fault → Either Fault A
or_fault none f = failed f
or_fault (some a) f = loaded a

-- The loop over the digits of the days.
unfoldable pub mark_band_days : List Bool → Bytes → Option (List Bool)
mark_band_days marks [] = some marks
mark_band_days marks (ch ∷ s) = elim (e2guardian_day_to_weekday ch) [
  | none ↦ none
  | some day ↦ mark_band_days (set marks day true) s
]

unfoldable pub is_marked : List Bool → Bool
is_marked [] = false
is_marked (b ∷ bs) = b || is_marked bs

abbrev with_days : ListLine → ℕ → ℕ → List Bool → Either Fault TimeBand
with_days ln start end marks =
    if is_marked marks
    then loaded (record { path = ln.path; line = ln.line; days = marks; start = start; end = end })
    else failed Fault.no_day

-- The body of the loop, for the fields of a line. The last minute of a band is one of its own.
unfoldable pub parse_band : Texts → ListLine → List Bytes → Either Fault TimeBand
parse_band lib ln (sh ∷ sm ∷ eh ∷ em ∷ digits ∷ []) = do
  start_hour ← or_fault (parse_e2_time_part lib sh 23) Fault.bad_start_hour
  start_min ← or_fault (parse_e2_time_part lib sm 59) Fault.bad_start_minute
  end_hour ← or_fault (parse_e2_time_part lib eh 23) Fault.bad_end_hour
  end_min ← or_fault (parse_e2_time_part lib em 59) Fault.bad_end_minute
  marks ← or_fault (mark_band_days (replicate 7 false) digits) Fault.bad_day
  with_days ln (start_hour * 60 + start_min) (end_hour * 60 + end_min + 1) marks
parse_band lib ln other = failed Fault.bad_timelist

unfoldable pub parse_e2guardian_time_bands : Texts → List ListLine → Loaded (List TimeBand)
parse_e2guardian_time_bands lib [] = loaded []
parse_e2guardian_time_bands lib (ln ∷ lns) =
    let rest = parse_e2guardian_time_bands lib lns in
    if is_empty ln.text
    then rest
    else located ln (parse_band lib ln (lib.fields ln.text)) >>= λ band.
        rest >>= (λ bands. loaded (band ∷ bands))
