-- ===== src/SampleRules.antt =====
-- Runs of the schedule, of the substitutions and of the resolver, and their theorems at concrete inputs.
use lucid_gate.Prelude.{
  ℤ, pos, ◌+◌, ◌-◌, ◌*◌, ◌≡◌, ◌↔◌, ◌⊎◌, true, false, Option, none, some, [], ◌∷◌, Bytes, codes,
  length, arith, refl, map,
}
use lucid_gate.Text.{◌=ᵇ◌, is_empty, has_prefix, index}
use lucid_gate.Filter.Fold.{lower_ascii}
use lucid_gate.Schedule.Rules.{
  Clock, ScheduleWindow, ScheduleRules, valid, new_schedule_rules, add_windows,
  compile_schedule_window, parse_clock_minute, parse_weekday, cut, clock_minute, mark_days,
  append_window, allowed, windows_of, any_open, is_open,
}
use lucid_gate.Schedule.Opening.{HasWindow, SomeOpens, allowed_iff}
use lucid_gate.Filter.InjectionStream.{concat}
use lucid_gate.Filter.Substitution.{
  SubstitutionFilter, new_filter, stream_of, run, has_rules, process_chunk, flush, apply_rules,
  apply_literals, apply_regexes, replace_literal, pad_or_truncate, window_of, widest_literal,
  widest_regex,
}
use lucid_gate.Filter.SubstitutionLength.{length-run}
use lucid_gate.Filter.SubstitutionFuel.{replace_literal_enough}
use lucid_gate.Dns.Resolver.{new_dns_resolver, resolve, resolved, load}
use lucid_gate.Dns.Freshness.{Call, after_calls, IsFresh, resolve-IsFresh}

-- A reader of two digits.
abbrev pub digits : Bytes → Option ℤ
digits [] = none
digits (a ∷ []) = none
digits (a ∷ (b ∷ [])) = some (pos ((a - 48) * 10 + (b - 48)))
digits (a ∷ (b ∷ (c ∷ s))) = none

abbrev pub clock : Clock
clock = record {
  unicode = record { to_lower = λ s. map lower_ascii s; trim_space = λ s. s };
  atoi = digits;
}

-- On Mondays and Tuesdays from 08:00 to 14:30.
abbrev school : ScheduleWindow
school = record {
  profile = codes "pupils";
  days = codes "Mon" ∷ codes "tuesday" ∷ [];
  start = codes "08:00";
  end = codes "14:30";
}

abbrev school_rules : ScheduleRules
school_rules = record {
  by_profile =
      (
        codes "pupils",
        record {
          days = false ∷ true ∷ true ∷ false ∷ false ∷ false ∷ false ∷ [];
          start = 480;
          end = 870;
        }
            ∷ [],
      )
      ∷ [];
}

school-valid : new_schedule_rules clock (school ∷ []) ≡ valid school_rules
unfolding new_schedule_rules add_windows compile_schedule_window parse_clock_minute parse_weekday
    cut clock_minute mark_days append_window is_empty ◌=ᵇ◌ lower_ascii
school-valid = refl

closed_in_the_evening : allowed (some school_rules) (codes "pupils") 1 20 15 ≡ false
unfolding allowed windows_of any_open is_open ◌=ᵇ◌
closed_in_the_evening = refl

allowed_iff_example : (allowed (some school_rules) (codes "pupils") 2 9 30 ≡ true) ↔ (
    (¬ HasWindow (codes "pupils") (school ∷ []))
    ⊎ SomeOpens clock (codes "pupils") 2 (9 * 60 + 30) (school ∷ []))
allowed_iff_example =
    allowed_iff clock (school ∷ []) school_rules (codes "pupils") 2 9 30 school-valid (omega arith)

-- "cat" becomes "fox", padded or cut to three bytes.
abbrev swap : SubstitutionFilter
swap = record {
  rules = record { search = codes "cat"; replace = codes "ox" } ∷ [];
  regex_rules = [];
  length_preserved = true;
}

swap-new_filter : new_filter swap ≡ some (stream_of swap)
unfolding new_filter has_rules
swap-new_filter = refl

length-run_example :
    (out : Bytes) × (run (stream_of swap) (codes "a cat" ∷ codes " sat" ∷ []) ≡ some out)
    × (length out ≡ length (concat (codes "a cat" ∷ codes " sat" ∷ [])))
length-run_example =
    length-run swap (stream_of swap) (codes "a cat" ∷ codes " sat" ∷ []) swap-new_filter refl tt

replace_literal_enough_example :
    replace_literal 8 (codes "cat") (codes "ox*") (codes "a cat s")
    ≡ replace_literal 20 (codes "cat") (codes "ox*") (codes "a cat s")
replace_literal_enough_example =
    replace_literal_enough 8 20 (codes "cat") (codes "ox*") (codes "a cat s") (omega arith)
      (omega arith) (omega arith)

-- A text that is cut where bytes go out is missed.
cut_text : run (stream_of swap) (codes "a cat s" ∷ []) ≡ some (codes "a cat s")
unfolding run process_chunk flush apply_rules apply_literals apply_regexes replace_literal index
    pad_or_truncate window_of widest_literal widest_regex is_empty has_prefix
cut_text = refl

abbrev first_call : Call
first_call = record {
  host = codes "example.com";
  force = false;
  now = 100;
  found = some (codes "192.0.2.1" ∷ []);
}

abbrev second_call : Call
second_call = record first_call { now = 130; found = none }

resolve-IsFresh_example :
    IsFresh second_call 60
      (first_call ∷ [])
      (resolve
        (λ h. false)
        (after_calls (λ h. false) (new_dns_resolver true 60) (first_call ∷ []))
        second_call.host
        second_call.force
        second_call.now
        second_call.found).1
resolve-IsFresh_example = resolve-IsFresh (λ h. false) true 60 (first_call ∷ []) second_call

-- The second call is answered out of the cache.
cached_answer :
    (resolve
      (λ h. false)
      (after_calls (λ h. false) (new_dns_resolver true 60) (first_call ∷ []))
      second_call.host
      second_call.force
      second_call.now
      second_call.found).1
    ≡ resolved (codes "192.0.2.1")
unfolding resolve new_dns_resolver load ◌=ᵇ◌
cached_answer = refl
