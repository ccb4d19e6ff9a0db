-- ===== src/Decision.antt =====
-- proxy/policy.go, proxy/domain_rules.go: what a policy decides, and the regular expressions that it
-- is given. The engine of the package `regexp` is a parameter: what `Compile` accepts, and the
-- test and the replacement that a compiled expression stands for.
use lucid_gate.Prelude.{
  ◌≡◌, refl, ◌⊎◌, inl, inr, Bool, true, false, Option, none, some, List, [], ◌∷◌, Bytes, String,
  if◌then◌else◌,
}
use lucid_gate.Text.{Unicode, is_empty}

pub record PolicyDecision : Type 0 where
  pub blocked : Bool
  pub redirect : Bool
  pub redirect_url : Bytes
  pub match_type : String
  pub value : Bytes
  pub bypass_filters : Bool

-- `PolicyDecision{}`.
abbrev pub no_decision : PolicyDecision
no_decision = record {
  blocked = false;
  redirect = false;
  redirect_url = [];
  match_type = "";
  value = [];
  bypass_filters = false;
}

abbrev pub block : String → Bytes → PolicyDecision
block kind v = record no_decision { blocked = true; match_type = kind; value = v }

abbrev pub bypass : String → Bytes → PolicyDecision
bypass kind v = record no_decision { bypass_filters = true; match_type = kind; value = v }

-- A grey entry ends the search, with neither a block nor a bypass.
abbrev pub grey : String → Bytes → PolicyDecision
grey kind v = record no_decision { match_type = kind; value = v }

-- A compiled expression: its text, and the tests that the proxy makes with it.
pub record Regex : Type 0 where
  pub pattern : Bytes
  pub match_string : Bytes → Bool
  pub replace_all : Bytes → Bytes → Bytes

pub record Library : Type 0 where
  pub unicode : Unicode
  pub open unicode use *
  pub compile_regex : Bytes → Option Regex

pub record RegexRule : Type 0 where
  pub pattern : Bytes
  pub source : Bytes

pub data PolicyError : Type 0 where
  empty_regex : RegexRule → PolicyError
  bad_regex : RegexRule → PolicyError
  bad_header_add : RegexRule → PolicyError
  bad_prefix : String → Bytes → PolicyError

pub data Result {ℓ} (A : Type ℓ) : Type ℓ where
  ok : A → Result A
  fail : PolicyError → Result A

infixl 5 ◌>>=◌
abbrev pub ◌>>=◌ {ℓ κ} : {A : Type ℓ} {B : Type κ} → Result A → (A → Result B) → Result B
ok a >>= f = f a
fail e >>= f = fail e

pub Result-cases {ℓ} :
    {A : Type ℓ} (r : Result A) → ((a : A) × (r ≡ ok a)) ⊎ ((e : PolicyError) × (r ≡ fail e))
Result-cases (ok a) = inl (a, refl)
Result-cases (fail e) = inr (e, refl)

unfoldable pub compile_policy_regex : Library → RegexRule → Result Regex
compile_policy_regex lib rule =
    if is_empty (lib.trim_space rule.pattern)
    then fail (empty_regex rule)
    else elim (lib.compile_regex rule.pattern) [ none ↦ fail (bad_regex rule) | some rx ↦ ok rx ]

-- The loops that compile a list of rules.
unfoldable pub compile_rules : Library → List RegexRule → Result (List Regex)
compile_rules lib [] = ok []
compile_rules lib (r ∷ rs) = do
  rx ← compile_policy_regex lib r
  rest ← compile_rules lib rs
  ok (rx ∷ rest)

-- The first expression that matches.
unfoldable pub first_regex : List Regex → Bytes → Option Regex
first_regex [] s = none
first_regex (rx ∷ rxs) s = if rx.match_string s then some rx else first_regex rxs s
