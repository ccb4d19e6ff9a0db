-- ===== src/Policy/Lines.antt =====
-- Which headers the header rules block.
use lucid_gate.Prelude.{
  ◌≡◌, ◌≢◌, ◌⊎◌, ◌↔◌, inl, inr, true, false, Option, none, some, List, [], ◌∷◌, ◌++◌, Bytes, All,
  arith, refl, Bool-cases,
}
use lucid_gate.Text.{is_empty, contains, has_key}
use lucid_gate.Decision.{PolicyDecision, Regex, Result-cases, ok, compile_rules, first_regex}
use lucid_gate.Policy.Web.{Web, Header, trimmed_lower}
use lucid_gate.Policy.Phrases.{
  phrases_from, normalized_phrases, first_phrase_match, phrase_list_matches, regex_list_matches,
}
use lucid_gate.Policy.Headers.{
  HeaderRulesConfig, HeaderRules, new_header_rules, compile_rewrites, compile_adds, header_line,
  line_is_excepted, block_by_regex, block_by_phrase, line_block, first_block, lines_of_values,
  header_lines, or_no_decision, header_decision,
}

-- Some phrase stands in the text.
abbrev pub HoldsPhrase : List Bytes → Bytes → Type 0
HoldsPhrase [] s = ⊥
HoldsPhrase (p ∷ ps) s = (contains s p ≡ true) ⊎ HoldsPhrase ps s

abbrev pub MatchesRegex : List Regex → Bytes → Type 0
MatchesRegex [] s = ⊥
MatchesRegex (rx ∷ rxs) s = (rx.match_string s ≡ true) ⊎ MatchesRegex rxs s

-- A header line is banned: a banned phrase stands in it or a blocking expression matches it, and no
-- exception does.
abbrev pub IsBanned : Web → HeaderRules → Bytes → Type 0
IsBanned w r line =
    (¬ HoldsPhrase r.exception (w.unicode.to_lower line))
    × (¬ MatchesRegex r.exception_regex line)
    × (HoldsPhrase r.banned (w.unicode.to_lower line) ⊎ MatchesRegex r.block_regex line)

-- Some line of the header has a property.
abbrev pub SomeValue : (Bytes → Type 0) → Bytes → List Bytes → Type 0
SomeValue P key [] = ⊥
SomeValue P key (v ∷ vs) = P (header_line key v) ⊎ SomeValue P key vs

abbrev pub SomeLine : (Bytes → Type 0) → Header → Type 0
SomeLine P [] = ⊥
SomeLine P ((key, values) ∷ h) = SomeValue P key values ⊎ SomeLine P h

not_empty : (s : Bytes) → is_empty s ≡ false → s ≢ []
unfolding is_empty
not_empty [] h e = cc
not_empty (c ∷ s) h e = cc

phrases_from-filled :
    (w : Web) (seen vs : List Bytes) → All (λ p. is_empty p ≡ false) (phrases_from w seen vs)
unfolding phrases_from
phrases_from-filled w seen [] = tt
phrases_from-filled w seen (v ∷ vs) =
    let value = trimmed_lower w v in
    elim (Bool-cases (is_empty value)) [
      | inl blank ↦ rw blank (phrases_from-filled w seen vs)
      | inr filled ↦ elim (Bool-cases (has_key seen value)) [
        | inl known ↦ rw (filled, known) (phrases_from-filled w seen vs)
        | inr new ↦ rw (filled, new) (filled, phrases_from-filled w (value ∷ seen) vs)
      ]
    ]

empty_is_empty : is_empty [] ≡ true
unfolding is_empty
empty_is_empty = refl

-- The first match is empty exactly if no phrase stands in the text.
first_phrase_match-holds :
    (ps : List Bytes) (s : Bytes)
    → All (λ p. is_empty p ≡ false) ps
    → (is_empty (first_phrase_match ps s) ≡ false) ↔ HoldsPhrase ps s
unfolding first_phrase_match
first_phrase_match-holds [] s a = (λ e. absurd (ground (arith, empty_is_empty)), λ h. absurd h)
first_phrase_match-holds (p ∷ ps) s a = elim (Bool-cases (contains s p)) [
  | inl hit ↦ rw hit (λ e. inl refl, λ h. a.0)
  | inr miss ↦
      let rest = first_phrase_match-holds ps s a.1 in
      rw miss (λ e. inr (rest.0 e), λ h. elim h [ inl x ↦ absurd (cc) | inr x ↦ rest.1 x ])
]

phrase_list_matches-holds :
    (ps : List Bytes) (s : Bytes)
    → All (λ p. is_empty p ≡ false) ps
    → (phrase_list_matches ps s ≡ true) ↔ HoldsPhrase ps s
unfolding phrase_list_matches
phrase_list_matches-holds ps s a =
    let m = first_phrase_match-holds ps s a in
    elim (Bool-cases (is_empty (first_phrase_match ps s))) [
      | inl blank ↦ (λ e. absurd (ground arith), λ h. absurd (ground (arith, m.1 h)))
      | inr filled ↦ (λ e. m.0 filled, λ h. ground arith)
    ]

regex_list_matches-some :
    (rxs : List Regex) (s : Bytes) → (regex_list_matches rxs s ≡ true) ↔ MatchesRegex rxs s
unfolding regex_list_matches
regex_list_matches-some [] s = (λ e. absurd (cc), λ h. absurd h)
regex_list_matches-some (rx ∷ rxs) s =
    let rest = regex_list_matches-some rxs s in
    elim (Bool-cases (rx.match_string s)) [
      | inl hit ↦ rw hit (λ e. inl refl, λ h. refl)
      | inr miss ↦
          rw miss (λ e. inr (rest.0 e), λ h. elim h [ inl x ↦ absurd (cc) | inr x ↦ rest.1 x ])
    ]

-- The expression that a list matches with first.
pub first_regex-some :
    (rxs : List Regex) (s : Bytes)
    → (((rx : Regex) × (first_regex rxs s ≡ some rx)) × MatchesRegex rxs s)
      ⊎ ((first_regex rxs s ≡ none) × (¬ MatchesRegex rxs s))
unfolding first_regex
first_regex-some [] s = inr (refl, λ h. h)
first_regex-some (rx ∷ rxs) s = elim (Bool-cases (rx.match_string s)) [
  | inl hit ↦ rw hit (inl ((rx, refl), inl refl))
  | inr miss ↦ rw miss (elim (first_regex-some rxs s) [
    | inl (e, m) ↦ inl (e, inr m)
    | inr (e, m) ↦ inr (e, λ h. elim h [ inl x ↦ absurd (cc) | inr x ↦ m x ])
  ])
]

-- What a test on a line gives, where `B` says that it blocks.
abbrev Blocking : Type 0 → Option PolicyDecision → Type 0
Blocking B none = ¬ B
Blocking B (some d) = (d.blocked ≡ true) × B

Blocking-iff :
    (A B : Type 0) (o : Option PolicyDecision) → (A → B) → (B → A) → Blocking A o → Blocking B o
Blocking-iff A B none f g h = λ b. h (g b)
Blocking-iff A B (some d) f g h = (h.0, f h.1)

block_by_regex-Blocking :
    (r : HeaderRules) (line : Bytes)
    → Blocking
        (MatchesRegex r.block_regex line)
        (block_by_regex (first_regex r.block_regex line) "header_regex")
block_by_regex-Blocking r line = elim (first_regex-some r.block_regex line) [
  | inl ((rx, e), m) ↦ rw e (refl, m)
  | inr (e, m) ↦ rw e m
]

block_by_phrase-Blocking :
    (A B : Type 0) (s : Bytes) (rest : Option PolicyDecision)
    → (is_empty s ≡ false) ↔ A
    → Blocking B rest
    → Blocking (A ⊎ B) (block_by_phrase s "header" rest)
unfolding is_empty
block_by_phrase-Blocking A B [] rest a h =
    Blocking-iff B (A ⊎ B) rest (λ b. inr b)
      (λ x. elim x [ inl y ↦ absurd (ground (arith, a.1 y)) | inr y ↦ y ]) h
block_by_phrase-Blocking A B (c ∷ s) rest a h = (refl, inl (a.0 refl))

-- Rules with no empty phrase, which is what compiles.
pub record IsFilled (r : HeaderRules) : Type 0 where
  pub banned : All (λ p. is_empty p ≡ false) r.banned
  pub exception : All (λ p. is_empty p ≡ false) r.exception

line_block-Blocking :
    (w : Web) (r : HeaderRules) (line : Bytes)
    → IsFilled r
    → Blocking (IsBanned w r line) (line_block w r line)
unfolding line_block line_is_excepted
line_block-Blocking w r line v =
    let lower = w.unicode.to_lower line in
    let phrase = phrase_list_matches-holds r.exception lower v.exception in
    let expression = regex_list_matches-some r.exception_regex line in
    elim (Bool-cases (phrase_list_matches r.exception lower)) [
      | inl hit ↦ rw hit (λ b. b.0 (phrase.0 hit))
      | inr no_phrase ↦ elim (Bool-cases (regex_list_matches r.exception_regex line)) [
        | inl hit ↦ rw (no_phrase, hit) (λ b. b.1 (expression.0 hit))
        | inr no_regex ↦
            rw (no_phrase, no_regex)
              (Blocking-iff (HoldsPhrase r.banned lower ⊎ MatchesRegex r.block_regex line)
                (IsBanned w r line) _
                (λ x. (
                  (λ h. absurd (ground (arith, phrase.1 h))),
                  (λ h. absurd (ground (arith, expression.1 h))),
                  x,
                ))
                (λ b. b.2)
                (block_by_phrase-Blocking (HoldsPhrase r.banned lower) _
                  (first_phrase_match r.banned lower) _
                  (first_phrase_match-holds r.banned lower v.banned)
                  (block_by_regex-Blocking r line)))
      ]
    ]

-- Some line of a list has a property.
abbrev SomeOf : (Bytes → Type 0) → List Bytes → Type 0
SomeOf P [] = ⊥
SomeOf P (l ∷ ls) = P l ⊎ SomeOf P ls

first_block-Blocking :
    (P : Bytes → Type 0) (f : Bytes → Option PolicyDecision) (ls : List Bytes)
    → ((l : Bytes) → Blocking (P l) (f l))
    → Blocking (SomeOf P ls) (first_block f ls)
unfolding first_block
first_block-Blocking P f [] h = λ x. x
first_block-Blocking P f (l ∷ ls) h = step (f l) (h l) (first_block-Blocking P f ls h)
  where
    step :
        (o : Option PolicyDecision)
        → Blocking (P l) o
        → Blocking (SomeOf P ls) (first_block f ls)
        → Blocking (SomeOf P (l ∷ ls)) (elim o [ none ↦ first_block f ls | some d ↦ some d ])
    step none miss rest =
        Blocking-iff (SomeOf P ls) (SomeOf P (l ∷ ls)) (first_block f ls) (λ x. inr x)
          (λ x. elim x [ inl y ↦ absurd (miss y) | inr y ↦ y ]) rest
    step (some d) hit rest = (hit.0, inl hit.1)

SomeOf-append :
    (P : Bytes → Type 0) (ks ls : List Bytes) → SomeOf P (ks ++ ls) ↔ (SomeOf P ks ⊎ SomeOf P ls)
SomeOf-append P [] ls = (λ x. inr x, λ x. elim x [ inl y ↦ absurd y | inr y ↦ y ])
SomeOf-append P (k ∷ ks) ls =
    let rest = SomeOf-append P ks ls in
    (
      λ x. elim x [
        | inl y ↦ inl (inl y)
        | inr y ↦ elim (rest.0 y) [ inl z ↦ inl (inr z) | inr z ↦ inr z ]
      ],
      λ x. elim x [
        | inl (inl y) ↦ inl y
        | inl (inr y) ↦ inr (rest.1 (inl y))
        | inr y ↦ inr (rest.1 (inr y))
      ],
    )

SomeOf-lines_of_values :
    (P : Bytes → Type 0) (key : Bytes) (vs : List Bytes)
    → SomeOf P (lines_of_values key vs) ↔ SomeValue P key vs
unfolding lines_of_values
SomeOf-lines_of_values P key [] = (λ x. x, λ x. x)
SomeOf-lines_of_values P key (v ∷ vs) =
    let rest = SomeOf-lines_of_values P key vs in
    (
      λ x. elim x [ inl y ↦ inl y | inr y ↦ inr (rest.0 y) ],
      λ x. elim x [ inl y ↦ inl y | inr y ↦ inr (rest.1 y) ],
    )

SomeOf-header_lines : (P : Bytes → Type 0) (h : Header) → SomeOf P (header_lines h) ↔ SomeLine P h
unfolding header_lines
SomeOf-header_lines P [] = (λ x. x, λ x. x)
SomeOf-header_lines P ((key, values) ∷ h) =
    let both = SomeOf-append P (lines_of_values key values) (header_lines h) in
    let these = SomeOf-lines_of_values P key values in
    let rest = SomeOf-header_lines P h in
    (
      λ x. elim (both.0 x) [ inl y ↦ inl (these.0 y) | inr y ↦ inr (rest.0 y) ],
      λ x. elim x [ inl y ↦ both.1 (inl (these.1 y)) | inr y ↦ both.1 (inr (rest.1 y)) ],
    )

Blocking-blocked :
    (B : Type 0) (o : Option PolicyDecision)
    → Blocking B o
    → ((or_no_decision o).blocked ≡ true) ↔ B
Blocking-blocked B none h = (λ e. absurd (cc), λ b. absurd (h b))
Blocking-blocked B (some d) h = (λ e. h.1, λ b. h.0)

filled :
    (w : Web) (cfg : HeaderRulesConfig) (r : HeaderRules)
    → new_header_rules w cfg ≡ ok r
    → IsFilled r
unfolding new_header_rules normalized_phrases
filled w cfg r h = elim (Result-cases (compile_rules w.library cfg.block_regex)) [
  | inr (x, bad) ↦ absurd (ground arith)
  | inl (a, blocks) ↦ elim (Result-cases (compile_rules w.library cfg.exception_regex)) [
    | inr (x, bad) ↦ absurd (ground arith)
    | inl (b, exceptions) ↦ elim (Result-cases (compile_rewrites w cfg.request_rewrites)) [
      | inr (x, bad) ↦ absurd (ground arith)
      | inl (c, requests) ↦ elim (Result-cases (compile_rewrites w cfg.response_rewrites)) [
        | inr (x, bad) ↦ absurd (ground arith)
        | inl (d, responses) ↦ elim (Result-cases (compile_adds w cfg.request_adds)) [
          | inr (x, bad) ↦ absurd (ground arith)
          | inl (e, adds) ↦
              let banned : phrases_from w [] cfg.banned ≡ r.banned = ground arith in
              let exception : phrases_from w [] cfg.exception ≡ r.exception = ground arith in
              record {
                banned = rw⁻¹ banned (phrases_from-filled w [] cfg.banned);
                exception = rw⁻¹ exception (phrases_from-filled w [] cfg.exception);
              }
        ]
      ]
    ]
  ]
]

-- Header rules that compiled block a header exactly if one of its lines is banned: a banned phrase stands in
-- it, whatever its case, or a blocking expression matches it, and no exception does. So the order in which
-- the lines are read does not matter for it.
pub header_decision-blocked :
    (w : Web) (cfg : HeaderRulesConfig) (r : HeaderRules) (h : Header)
    → new_header_rules w cfg ≡ ok r
    → ((header_decision w (some r) h).blocked ≡ true) ↔ SomeLine (IsBanned w r) h
unfolding header_decision
header_decision-blocked w cfg r h built =
    let v = filled w cfg r built in
    let lines = SomeOf-header_lines (IsBanned w r) h in
    let all_lines = Blocking-blocked _ _ (
      first_block-Blocking (IsBanned w r) (line_block w r) (header_lines h)
        λ l. line_block-Blocking w r l v) in
    (λ e. lines.0 (all_lines.0 e), λ x. all_lines.1 (lines.1 x))
