-- ===== src/Filter/Substitution.antt =====
-- proxy/substitution_filter.go: literal texts and regular expressions are replaced in a body. The
-- engine of the package `regexp` is a parameter.
use lucid_gate.Prelude.{
  ℕ, zero, suc, ◌+◌, ◌-◌, ◌*◌, Bool, true, false, ◌||◌, Option, none, some, List, [], ◌∷◌, ◌++◌,
  Bytes, String, ltb, leb, ◌==◌, if◌then◌else◌, length, take, drop, replicate,
}
use lucid_gate.Text.{is_empty, index}

-- A match of `FindAllSubmatchIndex`: its place, and `Expand` for it, of a template and the text.
pub record Hit : Type 0 where
  pub start : ℕ
  pub stop : ℕ
  pub expand : Bytes → Bytes → Bytes

-- A compiled expression: its text, `Match`, `ReplaceAll` with a template, and `FindAllSubmatchIndex`.
pub record Pattern : Type 0 where
  pub text : Bytes
  pub matches : Bytes → Bool
  pub replace_all : Bytes → Bytes → Bytes
  pub find_all : Bytes → List Hit

pub record SubRule : Type 0 where
  pub search : Bytes
  pub replace : Bytes

pub record RegexSubstitutionRule : Type 0 where
  pub pattern : Bytes
  pub replace : Bytes
  pub max_window_bytes : ℕ

pub record RegexSubRule : Type 0 where
  pub re : Pattern
  pub replace : Bytes
  pub max_window : ℕ

pub record SubstitutionFilter : Type 0 where
  pub rules : List SubRule
  pub regex_rules : List RegexSubRule
  pub length_preserved : Bool

pub data SubstitutionError : Type 0 where
  bad_pattern : Bytes → SubstitutionError
  window_too_large : Bytes → SubstitutionError

pub data Compiled {ℓ} (A : Type ℓ) : Type ℓ where
  built : A → Compiled A
  refused : SubstitutionError → Compiled A

abbrev default_window : ℕ
default_window = 64 * 1024

abbrev max_window_limit : ℕ
max_window_limit = 1024 * 1024

-- The first loop of `NewSubstitutionFilterWithRegex`; the list has the map's pairs in the order in which
-- it is read.
unfoldable pub literal_rules : List (Bytes × Bytes) → List SubRule
literal_rules [] = []
literal_rules ((s, r) ∷ m) =
    let rest = literal_rules m in
    if is_empty s then rest else record { search = s; replace = r } ∷ rest

-- 0 stands for every configured window that is not positive.
unfoldable pub window_of : ℕ → ℕ
window_of n = if n == 0 then default_window else n

abbrev then_rule : RegexSubRule → Compiled (List RegexSubRule) → Compiled (List RegexSubRule)
then_rule r (built rs) = built (r ∷ rs)
then_rule r (refused e) = refused e

-- The second loop.
unfoldable pub compile_regex_rules :
    (Bytes → Option Pattern) → List RegexSubstitutionRule → Compiled (List RegexSubRule)
compile_regex_rules compile [] = built []
compile_regex_rules compile (r ∷ rs) =
    let rest = compile_regex_rules compile rs in
    if is_empty r.pattern then rest else elim (compile r.pattern) [
      | none ↦ refused (bad_pattern r.pattern)
      | some re ↦
          if ltb max_window_limit (window_of r.max_window_bytes)
          then refused (window_too_large r.pattern)
          else then_rule
              (record { re = re; replace = r.replace; max_window = window_of r.max_window_bytes })
              rest
    ]

abbrev filter_of : List SubRule → Compiled (List RegexSubRule) → Compiled SubstitutionFilter
filter_of rules (refused e) = refused e
filter_of rules (built rs) =
    built (record { rules = rules; regex_rules = rs; length_preserved = false })

unfoldable pub new_substitution_filter_with_regex :
    (Bytes → Option Pattern)
    → List (Bytes × Bytes)
    → List RegexSubstitutionRule
    → Compiled SubstitutionFilter
new_substitution_filter_with_regex compile rules regex_rules =
    filter_of (literal_rules rules) (compile_regex_rules compile regex_rules)

abbrev max_of : ℕ → ℕ → ℕ
max_of n m = if ltb m n then n else m

unfoldable pub widest_regex : List RegexSubRule → ℕ → ℕ
widest_regex [] m = m
widest_regex (r ∷ rs) m = widest_regex rs (max_of r.max_window m)

unfoldable pub widest_literal : List SubRule → ℕ → ℕ
widest_literal [] m = m
widest_literal (r ∷ rs) m = widest_literal rs (max_of (length r.search) m)

-- `multiSubstitutionStreamFilter`; `block_on_match` is set by the code that looks for secrets.
pub record SubstitutionStream : Type 0 where
  pub rules : List SubRule
  pub regex_rules : List RegexSubRule
  pub pending : Bytes
  pub max_window : ℕ
  pub length_preserved : Bool
  pub block_on_match : Bool
  pub matched_error : Bool

abbrev has_any {ℓ} : {A : Type ℓ} → List A → Bool
has_any [] = false
has_any (x ∷ xs) = true

unfoldable pub has_rules : SubstitutionFilter → Bool
has_rules f = has_any f.rules || has_any f.regex_rules

abbrev pub stream_of : SubstitutionFilter → SubstitutionStream
stream_of f = record {
  rules = f.rules;
  regex_rules = f.regex_rules;
  pending = [];
  max_window = window_of (widest_literal f.rules (widest_regex f.regex_rules 0));
  length_preserved = f.length_preserved;
  block_on_match = false;
  matched_error = false;
}

-- `NewFilter`; `none` is the filter that passes everything through.
unfoldable pub new_filter : SubstitutionFilter → Option SubstitutionStream
new_filter f = if has_rules f then some (stream_of f) else none

unfoldable pub pad_or_truncate : Bytes → ℕ → Bytes
pad_or_truncate replace n =
    if length replace == n
    then replace
    else if ltb n (length replace)
    then take n replace
    else replace ++ replicate (n - length replace) b'*'

-- The loop over the occurrences of one literal: the joined parts. The fuel is the number of bytes left and one.
unfoldable pub replace_literal : ℕ → Bytes → Bytes → Bytes → Bytes
replace_literal zero sought target s = s
replace_literal (suc fuel) sought target s = elim (index s sought) [
  | none ↦ s
  | some i ↦ take i s ++ target ++ replace_literal fuel sought target (drop (i + length sought) s)
]

abbrev pub target_of : Bool → SubRule → Bytes
target_of preserved r = if preserved then pad_or_truncate r.replace (length r.search) else r.replace

-- What `applyRules` gives: `none` if a match is to block the stream, else the text and the calls of `onMatch`.
abbrev pub Applied : Type 0
Applied = Option (Bytes × List (String × Bytes))

abbrev pub with_event : String → Bytes → Applied → Applied
with_event kind p none = none
with_event kind p (some (out, events)) = some (out, (kind, p) ∷ events)

-- The loop over the matches of an expression, from the last to the first.
unfoldable pub replace_hits : Bytes → List Hit → Bytes → Bytes
replace_hits template [] out = out
replace_hits template (h ∷ hs) out =
    let later = replace_hits template hs out in
    take h.start later
    ++ pad_or_truncate (h.expand template later) (h.stop - h.start)
    ++ drop h.stop later

abbrev pub replace_regex : Bool → RegexSubRule → Bytes → Bytes
replace_regex preserved r out =
    if preserved
    then replace_hits r.replace (r.re.find_all out) out
    else r.re.replace_all out r.replace

unfoldable pub apply_regexes : Bool → Bool → List RegexSubRule → Bytes → Applied
apply_regexes preserved blocks [] out = some (out, [])
apply_regexes preserved blocks (r ∷ rs) out =
    let skipped = apply_regexes preserved blocks rs out in
    let replaced = apply_regexes preserved blocks rs (replace_regex preserved r out) in
    if r.re.matches out
    then if blocks then none else with_event "regex" r.re.text replaced
    else skipped

unfoldable pub apply_literals : Bool → Bool → List SubRule → List RegexSubRule → Bytes → Applied
apply_literals preserved blocks [] rs out = apply_regexes preserved blocks rs out
apply_literals preserved blocks (l ∷ ls) rs out =
    let skipped = apply_literals preserved blocks ls rs out in
    let replaced =
      apply_literals preserved blocks ls rs
        (replace_literal (suc (length out)) l.search (target_of preserved l) out) in
    elim (index out l.search) [
      | none ↦ skipped
      | some i ↦ if blocks then none else with_event "literal" l.search replaced
    ]

unfoldable pub apply_rules : SubstitutionStream → Bytes → Applied
apply_rules f s = apply_literals f.length_preserved f.block_on_match f.rules f.regex_rules s

-- The outcome of a call: the stream, and its output, or `none` for `ErrSecretExfiltrationBlocked`.
abbrev pub after_rules : SubstitutionStream → Bytes → Applied → SubstitutionStream × Option Bytes
after_rules f left none = (record f { matched_error = true }, none)
after_rules f left (some (out, events)) = (record f { pending = left }, some out)

unfoldable pub process_chunk : SubstitutionStream → Bytes → SubstitutionStream × Option Bytes
process_chunk f input =
    let grown = f.pending ++ input in
    let emit = length grown - f.max_window in
    if f.matched_error
    then (f, none)
    else if is_empty input
    then (f, some [])
    else if leb (length grown) f.max_window
    then (record f { pending = grown }, some [])
    else after_rules (record f { pending = grown }) (drop emit grown)
        (apply_rules (record f { pending = grown }) (take emit grown))

unfoldable pub flush : SubstitutionStream → SubstitutionStream × Option Bytes
flush f =
    if f.matched_error
    then (f, none)
    else if is_empty f.pending
    then (f, some [])
    else after_rules f [] (apply_rules f f.pending)

abbrev pub joined : Option Bytes → Option Bytes → Option Bytes
joined none rest = none
joined (some out) none = none
joined (some out) (some rest) = some (out ++ rest)

-- The chunks in turn, then `Flush`; `none` if a call failed.
unfoldable pub run : SubstitutionStream → List Bytes → Option Bytes
run f [] = (flush f).1
run f (c ∷ cs) = joined (process_chunk f c).1 (run (process_chunk f c).0 cs)
