-- ===== src/Policy/Phrases.antt =====
-- proxy/policy.go: lists of phrases and of expressions.
use lucid_gate.Prelude.{Bool, false, ◌||◌, not, List, [], ◌∷◌, Bytes, if◌then◌else◌}
use lucid_gate.Text.{is_empty, contains, has_key}
use lucid_gate.Decision.{Regex}
use lucid_gate.Policy.Web.{Web, trimmed_lower}

-- The loop of `normalizedPhrases`, with the phrases seen before.
unfoldable pub phrases_from : Web → List Bytes → List Bytes → List Bytes
phrases_from w seen [] = []
phrases_from w seen (v ∷ vs) =
    let value = trimmed_lower w v in
    let known = is_empty value || has_key seen value in
    let rest = phrases_from w (if known then seen else value ∷ seen) vs in
    if known then rest else value ∷ rest

unfoldable pub normalized_phrases : Web → List Bytes → List Bytes
normalized_phrases w values = phrases_from w [] values

unfoldable pub first_phrase_match : List Bytes → Bytes → Bytes
first_phrase_match [] haystack = []
first_phrase_match (p ∷ ps) haystack =
    let rest = first_phrase_match ps haystack in if contains haystack p then p else rest

unfoldable pub phrase_list_matches : List Bytes → Bytes → Bool
phrase_list_matches phrases haystack = not (is_empty (first_phrase_match phrases haystack))

unfoldable pub regex_list_matches : List Regex → Bytes → Bool
regex_list_matches [] haystack = false
regex_list_matches (rx ∷ rxs) haystack = rx.match_string haystack || regex_list_matches rxs haystack
