-- ===== src/Lists/Parse.antt =====
-- list_loader.go, rules.go: what the lines of a file stand for, and the merging of lists.
use lucid_gate.Prelude.{
  ℕ, Bool, true, false, ◌&&◌, ◌||◌, not, Option, none, some, List, [], ◌∷◌, ◌++◌, Bytes, codes,
  ◌==◌, if◌then◌else◌,
}
use lucid_gate.Text.{Unicode, is_empty, ◌=ᵇ◌, has_key}
use lucid_gate.Decision.{RegexRule}
use lucid_gate.Policy.Web.{Web}
use lucid_gate.Policy.Addresses.{entry_prefix}
use lucid_gate.Policy.Files.{FileRulesConfig}
use lucid_gate.Lists.Outcome.{
  Texts, ListLine, Fault, LoadError, Either, Loaded, loaded, failed, located, ◌>>=◌,
}
use lucid_gate.Lists.Lines.{parse_weighted_line, parse_substitution_line, normalize_rule_domain}

pub record SemanticPhraseConfig : Type 0 where
  pub phrase : Bytes
  pub weight : ℕ

pub record SubstitutionConfig : Type 0 where
  pub search : Bytes
  pub replace : Bytes

pub record RegexSubstitutionConfig : Type 0 where
  pub pattern : Bytes
  pub replace : Bytes
  pub max_window_bytes : ℕ
  pub source : Bytes

-- `fmt.Sprintf("%s:%d", path, line)`.
unfoldable pub source_of : Texts → ListLine → Bytes
source_of lib ln = ln.path ++ (codes ":" ++ lib.itoa ln.line)

unfoldable pub text_list_values : List ListLine → List Bytes
text_list_values [] = []
text_list_values (ln ∷ lns) =
    let rest = text_list_values lns in if is_empty ln.text then rest else ln.text ∷ rest

unfoldable pub domain_list_values : Unicode → List ListLine → List Bytes
domain_list_values u [] = []
domain_list_values u (ln ∷ lns) =
    let rest = domain_list_values u lns in
    let domain = normalize_rule_domain u ln.text in if is_empty domain then rest else domain ∷ rest

unfoldable pub regex_list_values : Texts → List ListLine → List RegexRule
regex_list_values lib [] = []
regex_list_values lib (ln ∷ lns) =
    let rest = regex_list_values lib lns in
    if is_empty ln.text
    then rest
    else record { pattern = ln.text; source = source_of lib ln } ∷ rest

abbrev is_address : Web → Bytes → Bool
is_address w value = elim (entry_prefix w value) [ none ↦ false | some p ↦ true ]

unfoldable pub ip_list_values : Web → List ListLine → Loaded (List Bytes)
ip_list_values w [] = loaded []
ip_list_values w (ln ∷ lns) =
    let rest = ip_list_values w lns in
    let value = w.unicode.trim_space ln.text in
    if is_empty value
    then rest
    else if is_address w value
    then rest >>= (λ values. loaded (value ∷ values))
    else failed (LoadError.at_line ln.path ln.line Fault.bad_address)

-- `parseWeightedLines`, and the loop of `loadWeightedPhraseFiles` over the lines of a file.
unfoldable pub parse_weighted_lines : Texts → List ListLine → Loaded (List SemanticPhraseConfig)
parse_weighted_lines lib [] = loaded []
parse_weighted_lines lib (ln ∷ lns) = do
  (phrase, weight) ← located ln (parse_weighted_line lib ln.text)
  rest ← parse_weighted_lines lib lns
  loaded (record { phrase = phrase; weight = weight } ∷ rest)

-- The loops of `loadSubstitutionFiles` and `loadRegexSubstitutionFiles` over the lines of a file.
unfoldable pub parse_substitution_lines : Unicode → List ListLine → Loaded (List SubstitutionConfig)
parse_substitution_lines u [] = loaded []
parse_substitution_lines u (ln ∷ lns) = do
  (search, replace) ← located ln (parse_substitution_line u ln.text)
  rest ← parse_substitution_lines u lns
  loaded (record { search = search; replace = replace } ∷ rest)

unfoldable pub parse_regex_substitution_lines :
    Texts → List ListLine → Loaded (List RegexSubstitutionConfig)
parse_regex_substitution_lines lib [] = loaded []
parse_regex_substitution_lines lib (ln ∷ lns) = do
  (pattern_text, replace) ← located ln (parse_substitution_line lib.unicode ln.text)
  rest ← parse_regex_substitution_lines lib lns
  loaded (
      record {
        pattern = pattern_text;
        replace = replace;
        max_window_bytes = 0;
        source = source_of lib ln;
      }
      ∷ rest)

-- The loop of `appendUniqueStrings`: the map `seen` holds what stands in `base`.
unfoldable pub append_unique_strings : List Bytes → List Bytes → List Bytes
append_unique_strings base [] = base
append_unique_strings base (v ∷ vs) =
    append_unique_strings (if has_key base v then base else base ++ v ∷ []) vs

-- `seen[phrase]`: a later entry of `base` overwrites an earlier one.
unfoldable pub weight_of : Bytes → List SemanticPhraseConfig → Option ℕ
weight_of phrase [] = none
weight_of phrase (p ∷ ps) = elim (weight_of phrase ps) [
  | some w ↦ some w
  | none ↦ if p.phrase =ᵇ phrase then some p.weight else none
]

unfoldable pub merge_weighted_phrases :
    List SemanticPhraseConfig → List SemanticPhraseConfig → Loaded (List SemanticPhraseConfig)
merge_weighted_phrases base [] = loaded base
merge_weighted_phrases base (p ∷ ps) = elim (weight_of p.phrase base) [
  | none ↦ merge_weighted_phrases (base ++ p ∷ []) ps
  | some w ↦
      if w == p.weight
      then merge_weighted_phrases base ps
      else failed (LoadError.conflicting_weights p.phrase)
]

unfoldable pub has_search : Bytes → List SubstitutionConfig → Bool
has_search s [] = false
has_search s (r ∷ rs) = r.search =ᵇ s || has_search s rs

unfoldable pub merge_substitutions :
    List SubstitutionConfig → List SubstitutionConfig → Loaded (List SubstitutionConfig)
merge_substitutions base [] = loaded base
merge_substitutions base (r ∷ rs) =
    if has_search r.search base
    then failed (LoadError.duplicate_search r.search)
    else merge_substitutions (base ++ r ∷ []) rs

unfoldable pub has_pattern : Bytes → List RegexSubstitutionConfig → Bool
has_pattern s [] = false
has_pattern s (r ∷ rs) = r.pattern =ᵇ s || has_pattern s rs

unfoldable pub merge_regex_substitutions :
    List RegexSubstitutionConfig
    → List RegexSubstitutionConfig
    → Loaded (List RegexSubstitutionConfig)
merge_regex_substitutions base [] = loaded base
merge_regex_substitutions base (r ∷ rs) =
    if has_pattern r.pattern base
    then failed (LoadError.duplicate_pattern r.pattern)
    else merge_regex_substitutions (base ++ r ∷ []) rs

-- What one rule of a `downloadmanager` file adds.
abbrev add_download_rule : FileRulesConfig → Bool → Bool → Bytes → FileRulesConfig
add_download_rule f true true v = record f { banned_extensions = f.banned_extensions ++ v ∷ [] }
add_download_rule f true false v = record f {
  exception_extensions = f.exception_extensions ++ v ∷ [];
}
add_download_rule f false true v = record f { banned_mimes = f.banned_mimes ++ v ∷ [] }
add_download_rule f false false v = record f { exception_mimes = f.exception_mimes ++ v ∷ [] }

unfoldable pub parse_download_rule :
    Unicode → FileRulesConfig → List Bytes → Either Fault FileRulesConfig
parse_download_rule u f (a ∷ k ∷ value ∷ []) =
    let action = u.to_lower a in
    let kind = u.to_lower k in
    let banned = action =ᵇ codes "banned" in
    if not banned && not (action =ᵇ codes "exception")
    then failed Fault.bad_download_action
    else if kind =ᵇ codes "ext"
    then loaded (add_download_rule f true banned value)
    else if kind =ᵇ codes "mime"
    then loaded (add_download_rule f false banned value)
    else failed Fault.bad_download_kind
parse_download_rule u f other = failed Fault.bad_download_rule

unfoldable pub parse_download_manager_file :
    Texts → List ListLine → FileRulesConfig → Loaded FileRulesConfig
parse_download_manager_file lib [] f = loaded f
parse_download_manager_file lib (ln ∷ lns) f = do
  g ← located ln (parse_download_rule lib.unicode f (lib.fields ln.text))
  parse_download_manager_file lib lns g
