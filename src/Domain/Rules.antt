-- ===== src/Domain/Rules.antt =====
-- proxy/domain_rules.go: `DomainRules`, its construction and its `Decision`.
use lucid_gate.Prelude.{
  ℕ, suc, Bool, true, false, ◌&&◌, ◌||◌, not, Option, none, some, List, [], ◌∷◌, Bytes, ◌==◌, ltb,
  leb, if◌then◌else◌, drop,
}
use lucid_gate.Text.{Unicode, is_empty, contains_byte, last_index_byte, has_key}
use lucid_gate.Decision.{
  PolicyDecision, no_decision, block, bypass, grey, Regex, RegexRule, Library, Result, ok, ◌>>=◌,
  compile_rules, first_regex,
}
use lucid_gate.Domain.Name.{normalized_domain, dot}
use lucid_gate.Domain.Trie.{DomainTrie, trie_of, match}

pub record DomainRulesConfig : Type 0 where
  pub local_exceptions : List Bytes
  pub local_grey : List Bytes
  pub local_blocked : List Bytes
  pub exceptions : List Bytes
  pub grey : List Bytes
  pub blocked : List Bytes
  pub block_regex : List RegexRule
  pub allow_regex : List RegexRule
  pub allowed_tlds : List Bytes
  pub blanket_block_tlds : List Bytes

-- The maps of top-level domains are the lists of their keys.
pub record DomainRules : Type 0 where
  pub local_exceptions : DomainTrie
  pub local_grey : DomainTrie
  pub local_blocked : DomainTrie
  pub exceptions : DomainTrie
  pub grey : DomainTrie
  pub blocked : DomainTrie
  pub block_regex : List Regex
  pub allow_regex : List Regex
  pub allowed_tlds : List Bytes
  pub blanket_block_tlds : List Bytes

unfoldable pub normalized_tlds : Unicode → List Bytes → List Bytes
normalized_tlds u [] = []
normalized_tlds u (t ∷ ts) = u.trim_space (u.to_lower t) ∷ normalized_tlds u ts

unfoldable pub new_domain_rules_config : Library → DomainRulesConfig → Result DomainRules
new_domain_rules_config lib cfg = do
  block_rules ← compile_rules lib cfg.block_regex
  allow_rules ← compile_rules lib cfg.allow_regex
  ok (record {
    local_exceptions = trie_of lib.unicode cfg.local_exceptions;
    local_grey = trie_of lib.unicode cfg.local_grey;
    local_blocked = trie_of lib.unicode cfg.local_blocked;
    exceptions = trie_of lib.unicode cfg.exceptions;
    grey = trie_of lib.unicode cfg.grey;
    blocked = trie_of lib.unicode cfg.blocked;
    block_regex = block_rules;
    allow_regex = allow_rules;
    allowed_tlds = normalized_tlds lib.unicode cfg.allowed_tlds;
    blanket_block_tlds = normalized_tlds lib.unicode cfg.blanket_block_tlds;
  })

abbrev pub non_empty_list {ℓ} : {A : Type ℓ} → List A → Bool
non_empty_list [] = false
non_empty_list (x ∷ xs) = true

abbrev is_digit : ℕ → Bool
is_digit c = leb b'0' c && leb c b'9'

-- The loop of `isIPAddress`: the dots and digits, if there is no other byte.
unfoldable pub ip_bytes : Bytes → ℕ → ℕ → Bool
ip_bytes [] dots digits = dots == 3 && ltb 0 digits
ip_bytes (c ∷ s) dots digits =
    if is_digit c || c == dot
    then ip_bytes s (if is_digit c then dots else suc dots)
        (if is_digit c then suc digits else digits)
    else false

unfoldable pub is_ip_address : Bytes → Bool
is_ip_address host = contains_byte host b':' || ip_bytes host 0 0

-- `host[lastDot+1:]`.
unfoldable pub tld_of : Bytes → Bytes
tld_of host = elim (last_index_byte host dot) [ none ↦ host | some i ↦ drop (suc i) host ]

-- The check of the top-level domain; addresses are exempt.
unfoldable pub tld_blocks : DomainRules → Bytes → Bool
tld_blocks r host =
    (non_empty_list r.allowed_tlds || non_empty_list r.blanket_block_tlds)
    && not (is_ip_address host)
    && (non_empty_list r.allowed_tlds && not (has_key r.allowed_tlds (tld_of host))
        || non_empty_list r.blanket_block_tlds && has_key r.blanket_block_tlds (tld_of host))

-- `if m { return d }`, then the rest; a panic of the match goes up.
abbrev pub when_match : Option Bool → PolicyDecision → Option PolicyDecision → Option PolicyDecision
when_match none d rest = none
when_match (some true) d rest = some d
when_match (some false) d rest = rest

-- The loop over a list of expressions.
abbrev pub when_regex :
    Option Regex → (Bytes → PolicyDecision) → Option PolicyDecision → Option PolicyDecision
when_regex none d rest = rest
when_regex (some rx) d rest = some (d rx.pattern)

-- `Decision` of a host that is normalised and not empty.
unfoldable pub decide_host : Unicode → DomainRules → Bytes → Option PolicyDecision
decide_host u r host =
    let listed = λ (t : DomainTrie). (match u t host).1 in
    when_match (listed r.local_exceptions) (bypass "domain_local_exception" host) (
      when_match (listed r.local_grey) (grey "domain_local_grey" host) (
        when_match (listed r.local_blocked) (block "domain_local" host) (
          when_match (listed r.exceptions) (bypass "domain_exception" host) (
            when_regex (first_regex r.allow_regex host) (bypass "domain_exception_regex") (
              when_match (listed r.grey) (grey "domain_grey" host) (
                if tld_blocks r host
                then some (block "tld_blanket" host)
                else when_match (listed r.blocked) (block "domain" host) (
                    when_regex (first_regex r.block_regex host) (block "domain_regex")
                      (some no_decision))))))))

-- `Decision`. A nil `DomainRules` is `none`; an outer `none` of the result is a panic.
unfoldable pub decision : Unicode → Option DomainRules → Bytes → Option PolicyDecision
decision u none host = some no_decision
decision u (some r) host =
    let h = normalized_domain u host in if is_empty h then some no_decision else decide_host u r h

-- `Blocked`.
unfoldable pub blocked : Unicode → Option DomainRules → Bytes → Option Bool
blocked u none host = some false
blocked u (some r) host = elim (decision u (some r) host) [ none ↦ none | some d ↦ some d.blocked ]
