-- ===== src/Lists/Lines.antt =====
-- list_loader.go, rules.go: the parsers of single lines.
use lucid_gate.Prelude.{
  ℕ, suc, ◌+◌, ◌-◌, ℤ, pos, negsuc, ◌&&◌, ◌||◌, not, Option, none, some, [], Bytes, codes, ltb, leb,
  ◌==◌, if◌then◌else◌, length, take, drop,
}
use lucid_gate.Text.{
  Unicode, is_empty, has_prefix, has_suffix, trim_prefix, trim_suffix, index, contains,
}
use lucid_gate.Lists.Outcome.{Texts, Fault, Either, loaded, failed}

-- `s[i:j]`.
abbrev pub slice : Bytes → ℕ → ℕ → Bytes
slice s i j = drop i (take j s)

unfoldable pub strip_comment : Bytes → Bytes
strip_comment line = elim (index line (codes "#")) [ none ↦ line | some i ↦ take i line ]

-- The path of an `.Include<...>`, if the line is one.
unfoldable pub parse_include_line : Unicode → Bytes → Option Bytes
parse_include_line u line =
    if has_prefix line (codes ".Include<") && has_suffix line (codes ">")
    then some (u.trim_space (slice line 9 (length line - 1)))
    else none

abbrev pub positive_weight : Bytes → Option ℤ → Either Fault (Bytes × ℕ)
positive_weight phrase none = failed Fault.bad_weight
positive_weight phrase (some (negsuc n)) = failed Fault.weight_not_positive
positive_weight phrase (some (pos n)) =
    if n == 0
    then failed Fault.weight_not_positive
    else if is_empty phrase
    then failed Fault.empty_phrase
    else loaded (phrase, n)

-- What stands behind the phrase.
abbrev pub parse_weight : Texts → Bytes → Bytes → Either Fault (Bytes × ℕ)
parse_weight lib phrase rest =
    if not (has_prefix rest (codes "<")) || not (has_suffix rest (codes ">")) || ltb (length rest) 3
    then failed Fault.no_weight
    else positive_weight phrase (lib.atoi (lib.trim_space (slice rest 1 (length rest - 1))))

abbrev pub parse_phrase : Texts → Bytes → Option ℕ → Either Fault (Bytes × ℕ)
parse_phrase lib line none = failed Fault.unclosed_phrase
parse_phrase lib line (some end) =
    if leb end 1
    then failed Fault.unclosed_phrase
    else parse_weight lib (slice line 1 end) (lib.trim_space (drop (suc end) line))

unfoldable pub parse_weighted_line : Texts → Bytes → Either Fault (Bytes × ℕ)
parse_weighted_line lib line =
    if has_prefix line (codes "<")
    then parse_phrase lib line (index line (codes ">"))
    else failed Fault.no_phrase

abbrev with_search : Bytes → Bytes → Either Fault (Bytes × Bytes)
with_search search replace =
    if is_empty search then failed Fault.empty_search else loaded (search, replace)

unfoldable pub parse_substitution_line : Unicode → Bytes → Either Fault (Bytes × Bytes)
parse_substitution_line u line = elim (index line (codes "=>")) [
  | none ↦ failed Fault.no_separator
  | some i ↦ with_search (u.trim_space (take i line)) (u.trim_space (drop (i + 2) line))
]

unfoldable pub normalize_weighted_key : Unicode → Bytes → Bytes
normalize_weighted_key u phrase = u.to_lower (u.trim_space phrase)

unfoldable pub normalize_rule_domain : Unicode → Bytes → Bytes
normalize_rule_domain u domain =
    let bare =
      trim_suffix (trim_prefix (u.trim_space (u.to_lower domain)) (codes ".")) (codes ".") in
    if is_empty bare || contains bare (codes "/") then [] else bare
