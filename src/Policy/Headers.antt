-- ===== src/Policy/Headers.antt =====
-- proxy/policy.go: the rules on header lines and cookies.
use lucid_gate.Prelude.{
  suc, ◌+◌, Bool, ◌||◌, Option, none, some, List, [], ◌∷◌, ◌++◌, Bytes, codes, ◌==◌, if◌then◌else◌,
  take, drop, String,
}
use lucid_gate.Text.{is_empty, index}
use lucid_gate.Decision.{
  PolicyDecision, no_decision, block, Regex, RegexRule, Result, ok, fail, bad_header_add, ◌>>=◌,
  compile_policy_regex, compile_rules, first_regex,
}
use lucid_gate.Policy.Web.{Web, Header}
use lucid_gate.Policy.Phrases.{
  normalized_phrases, first_phrase_match, phrase_list_matches, regex_list_matches,
}

-- `HeaderRewriteRule`, `URLRewriteRule`: an expression and its replacement.
pub record RewriteRule : Type 0 where
  pub regex : Regex
  pub replace : Bytes

pub record HeaderAddRule : Type 0 where
  pub url_regex : Option Regex
  pub key : Bytes
  pub val : Bytes

pub record HeaderRulesConfig : Type 0 where
  pub banned : List Bytes
  pub exception : List Bytes
  pub block_regex : List RegexRule
  pub exception_regex : List RegexRule
  pub request_rewrites : List RegexRule
  pub response_rewrites : List RegexRule
  pub request_adds : List RegexRule

pub record HeaderRules : Type 0 where
  pub banned : List Bytes
  pub exception : List Bytes
  pub block_regex : List Regex
  pub exception_regex : List Regex
  pub request_rewrites : List RewriteRule
  pub response_rewrites : List RewriteRule
  pub request_adds : List HeaderAddRule

-- The two sides of the first `=>`, trimmed, if there is one.
unfoldable pub split_arrow : Web → Bytes → Option (Bytes × Bytes)
split_arrow w s = elim (index s (codes "=>")) [
  | none ↦ none
  | some i ↦ some (w.unicode.trim_space (take i s), w.unicode.trim_space (drop (i + 2) s))
]

abbrev arrow_or_pattern : Bytes → Option (Bytes × Bytes) → Bytes × Bytes
arrow_or_pattern whole none = (whole, [])
arrow_or_pattern whole (some sides) = sides

-- One round of the loops over rewrites: the part in front of the arrow, or all, is the expression.
unfoldable pub compile_rewrite : Web → RegexRule → Result RewriteRule
compile_rewrite w rule = do
  let (pattern, replace) = arrow_or_pattern rule.pattern (split_arrow w rule.pattern)
  rx ← compile_policy_regex w.library (record rule { pattern = pattern })
  ok (record { regex = rx; replace = replace })

unfoldable pub compile_rewrites : Web → List RegexRule → Result (List RewriteRule)
compile_rewrites w [] = ok []
compile_rewrites w (r ∷ rs) = do
  first ← compile_rewrite w r
  rest ← compile_rewrites w rs
  ok (first ∷ rest)

abbrev arrow_or_header : Bytes → Option (Bytes × Bytes) → Bytes × Bytes
arrow_or_header whole none = ([], whole)
arrow_or_header whole (some sides) = sides

abbrev compile_optional : Web → RegexRule → Result (Option Regex)
compile_optional w rule =
    if is_empty rule.pattern
    then ok none
    else compile_policy_regex w.library rule >>= λ rx. ok (some rx)

-- The two sides of the first colon, which is not the first byte.
unfoldable pub split_colon : Bytes → Option (Bytes × Bytes)
split_colon s = elim (index s (codes ":")) [
  | none ↦ none
  | some i ↦ if i == 0 then none else some (take i s, drop (suc i) s)
]

-- One round of the loop over `RequestAdds`: here what has no arrow is the header.
unfoldable pub compile_add : Web → RegexRule → Result HeaderAddRule
compile_add w rule =
    let (pattern, header) = arrow_or_header rule.pattern (split_arrow w rule.pattern) in
    elim (split_colon header) [
      | none ↦ fail (bad_header_add rule)
      | some (key, val) ↦ compile_optional w (record rule { pattern = pattern }) >>= λ rx.
          ok (record {
            url_regex = rx;
            key = w.unicode.trim_space key;
            val = w.unicode.trim_space val;
          })
    ]

unfoldable pub compile_adds : Web → List RegexRule → Result (List HeaderAddRule)
compile_adds w [] = ok []
compile_adds w (r ∷ rs) = do first ← compile_add w r; rest ← compile_adds w rs; ok (first ∷ rest)

unfoldable pub new_header_rules : Web → HeaderRulesConfig → Result HeaderRules
new_header_rules w cfg = do
  block_rules ← compile_rules w.library cfg.block_regex
  exception_rules ← compile_rules w.library cfg.exception_regex
  requests ← compile_rewrites w cfg.request_rewrites
  responses ← compile_rewrites w cfg.response_rewrites
  adds ← compile_adds w cfg.request_adds
  ok (record {
    banned = normalized_phrases w cfg.banned;
    exception = normalized_phrases w cfg.exception;
    block_regex = block_rules;
    exception_regex = exception_rules;
    request_rewrites = requests;
    response_rewrites = responses;
    request_adds = adds;
  })

abbrev pub header_line : Bytes → Bytes → Bytes
header_line key value = key ++ (codes ": " ++ value)

-- An exception lets the line pass.
unfoldable pub line_is_excepted : Web → HeaderRules → Bytes → Bool
line_is_excepted w r line =
    phrase_list_matches r.exception (w.unicode.to_lower line)
    || regex_list_matches r.exception_regex line

abbrev pub block_by_regex : Option Regex → String → Option PolicyDecision
block_by_regex none kind = none
block_by_regex (some rx) kind = some (block kind rx.pattern)

abbrev pub block_by_phrase : Bytes → String → Option PolicyDecision → Option PolicyDecision
block_by_phrase [] kind rest = rest
block_by_phrase (c ∷ s) kind rest = some (block kind (c ∷ s))

-- The body of the inner loop of `HeaderRules.Decision`: the block, if the line is to be blocked.
unfoldable pub line_block : Web → HeaderRules → Bytes → Option PolicyDecision
line_block w r line =
    if line_is_excepted w r line
    then none
    else block_by_phrase (first_phrase_match r.banned (w.unicode.to_lower line)) "header"
        (block_by_regex (first_regex r.block_regex line) "header_regex")

-- The first block over a list of lines.
unfoldable pub first_block : (Bytes → Option PolicyDecision) → List Bytes → Option PolicyDecision
first_block f [] = none
first_block f (line ∷ lines) = elim (f line) [ none ↦ first_block f lines | some d ↦ some d ]

-- The lines in the order of the two loops.
unfoldable pub lines_of_values : Bytes → List Bytes → List Bytes
lines_of_values key [] = []
lines_of_values key (v ∷ vs) = header_line key v ∷ lines_of_values key vs

unfoldable pub header_lines : Header → List Bytes
header_lines [] = []
header_lines ((key, values) ∷ h) = lines_of_values key values ++ header_lines h

abbrev pub or_no_decision : Option PolicyDecision → PolicyDecision
or_no_decision none = no_decision
or_no_decision (some d) = d

unfoldable pub header_decision : Web → Option HeaderRules → Header → PolicyDecision
header_decision w none headers = no_decision
header_decision w (some r) headers =
    or_no_decision (first_block (line_block w r) (header_lines headers))

pub record CookieRulesConfig : Type 0 where
  pub banned : List Bytes
  pub exception : List Bytes

pub record CookieRules : Type 0 where
  pub banned : List Bytes
  pub exception : List Bytes

unfoldable pub new_cookie_rules : Web → CookieRulesConfig → CookieRules
new_cookie_rules w cfg = record {
  banned = normalized_phrases w cfg.banned;
  exception = normalized_phrases w cfg.exception;
}

-- The body of the loop of `CookieRules.Decision`.
unfoldable pub cookie_block : Web → CookieRules → Bytes → Option PolicyDecision
cookie_block w r value =
    if phrase_list_matches r.exception (w.unicode.to_lower value)
    then none
    else block_by_phrase (first_phrase_match r.banned (w.unicode.to_lower value)) "cookie" none

unfoldable pub cookie_decision : Web → Option CookieRules → List Bytes → PolicyDecision
cookie_decision w none values = no_decision
cookie_decision w (some r) values = or_no_decision (first_block (cookie_block w r) values)
