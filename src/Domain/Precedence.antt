-- ===== src/Domain/Precedence.antt =====
-- Which list decides about a host: the precedence of proxy/domain_rules.go.
use lucid_gate.Prelude.{
  ◌^◌, ◌<◌, ◌≡◌, ◌≢◌, ◌⊎◌, ◌↔◌, inl, inr, Bool, true, false, Option, none, some, List, Bytes, arith,
  refl, sym, subst, Bool-cases, Option-cases, if◌then◌else◌,
}
use lucid_gate.Text.{Unicode, is_empty}
use lucid_gate.Decision.{
  PolicyDecision, no_decision, block, bypass, grey, Regex, Library, Result-cases, ok, compile_rules,
  first_regex,
}
use lucid_gate.Domain.Name.{normalized_domain}
use lucid_gate.Domain.Trie.{DomainTrie, trie_of, match}
use lucid_gate.Domain.Listed.{Listed, label_count, match_iff, match_total}
use lucid_gate.Domain.Rules.{
  DomainRulesConfig, DomainRules, new_domain_rules_config, tld_blocks, when_match, when_regex,
  decide_host, decision,
}

-- Every list has fewer than 2 ^ 32 labels.
pub record IsSmall (u : Unicode) (cfg : DomainRulesConfig) : Type 0 where
  pub local_exceptions : label_count u cfg.local_exceptions < 2 ^ 32
  pub local_grey : label_count u cfg.local_grey < 2 ^ 32
  pub local_blocked : label_count u cfg.local_blocked < 2 ^ 32
  pub exceptions : label_count u cfg.exceptions < 2 ^ 32
  pub grey : label_count u cfg.grey < 2 ^ 32
  pub blocked : label_count u cfg.blocked < 2 ^ 32

module _ (u : Unicode) (cfg : DomainRulesConfig) (r : DomainRules) (h : Bytes) where
  -- The main lists are asked: no local list names the host.
  abbrev pub NotLocal : Type 0
  NotLocal =
      (¬ Listed u cfg.local_exceptions h)
      × (¬ Listed u cfg.local_grey h)
      × (¬ Listed u cfg.local_blocked h)

  -- No exception of the main lists lets the host through.
  abbrev pub NotExcepted : Type 0
  NotExcepted = (¬ Listed u cfg.exceptions h) × (first_regex r.allow_regex h ≡ none)

  -- The main lists block the host.
  abbrev pub MainBlocks : Type 0
  MainBlocks =
      (tld_blocks r h ≡ true) ⊎ (Listed u cfg.blocked h ⊎ (first_regex r.block_regex h ≢ none))

  -- The host is to be blocked.
  abbrev pub Blocks : Type 0
  Blocks =
      ((¬ Listed u cfg.local_exceptions h)
        × (¬ Listed u cfg.local_grey h)
        × Listed u cfg.local_blocked h)
      ⊎ (NotLocal × NotExcepted × (¬ Listed u cfg.grey h) × MainBlocks)

  -- The host is to bypass the filters.
  abbrev pub Bypasses : Type 0
  Bypasses =
      Listed u cfg.local_exceptions h
      ⊎ (NotLocal × (Listed u cfg.exceptions h ⊎ (first_regex r.allow_regex h ≢ none)))

-- A decision for which the two flags are right.
abbrev pub Flags : Type 0 → Type 0 → Option PolicyDecision → Type 0
Flags B P none = ⊥
Flags B P (some d) = ((d.blocked ≡ true) ↔ B) × ((d.bypass_filters ≡ true) ↔ P)

-- What a list answers.
abbrev Verdict : Type 0 → Option Bool → Type 0
Verdict P m = ((m ≡ some true) × P) ⊎ ((m ≡ some false) × (¬ P))

module _ {B P L : Type 0} (m : Option Bool) (d : PolicyDecision) (rest : Option PolicyDecision)
    (v : Verdict L m) (hit : L → Flags B P (some d)) (miss : (¬ L) → Flags B P rest) where
  when_match-Flags : Flags B P (when_match m d rest)
  when_match-Flags = elim v [ inl (e, l) ↦ rw e (hit l) | inr (e, n) ↦ rw e (miss n) ]

module _ {B P : Type 0} (t : Bool) (d : PolicyDecision) (rest : Option PolicyDecision)
    (hit : t ≡ true → Flags B P (some d)) (miss : t ≡ false → Flags B P rest) where
  if-Flags : Flags B P (if t then some d else rest)
  if-Flags = elim (Bool-cases t) [ inl e ↦ rw e (hit e) | inr e ↦ rw e (miss e) ]

module _ {B P : Type 0} (rx : Option Regex) (d : Bytes → PolicyDecision)
    (rest : Option PolicyDecision)
    (hit : (x : Regex) → rx ≡ some x → Flags B P (some (d x.pattern)))
    (miss : rx ≡ none → Flags B P rest) where
  when_regex-Flags : Flags B P (when_regex rx d rest)
  when_regex-Flags = elim (Option-cases rx) [ inl e ↦ rw e (miss e) | inr (x, e) ↦ rw e (hit x e) ]

verdict :
    (u : Unicode) (ds : List Bytes) (t : DomainTrie) (h : Bytes)
    → t ≡ trie_of u ds
    → label_count u ds < 2 ^ 32
    → Verdict (Listed u ds h) (match u t h).1
verdict u ds t h built small =
    let (yes_iff, no_iff) = match_iff u ds h small in
    subst (λ x. Verdict (Listed u ds h) (match u x h).1) (sym built)
      (elim (match_total u ds h small) [
        | inl e ↦ inl (e, yes_iff.0 e)
        | inr e ↦ inr (e, no_iff.0 e)
      ])

-- The tries of a configuration that was compiled.
record IsCompiled (u : Unicode) (cfg : DomainRulesConfig) (r : DomainRules) : Type 0 where
  local_exceptions : r.local_exceptions ≡ trie_of u cfg.local_exceptions
  local_grey : r.local_grey ≡ trie_of u cfg.local_grey
  local_blocked : r.local_blocked ≡ trie_of u cfg.local_blocked
  exceptions : r.exceptions ≡ trie_of u cfg.exceptions
  grey : r.grey ≡ trie_of u cfg.grey
  blocked : r.blocked ≡ trie_of u cfg.blocked

compiled :
    (lib : Library) (cfg : DomainRulesConfig) (r : DomainRules)
    → new_domain_rules_config lib cfg ≡ ok r
    → IsCompiled lib.unicode cfg r
unfolding new_domain_rules_config
compiled lib cfg r e = elim (Result-cases (compile_rules lib cfg.block_regex)) [
  | inr (x, bad) ↦ absurd (cc)
  | inl (bs, good) ↦ elim (Result-cases (compile_rules lib cfg.allow_regex)) [
    | inr (x, bad) ↦ absurd (ground arith)
    | inl (as_rules, fine) ↦ record {
      local_exceptions = ground arith;
      local_grey = ground arith;
      local_blocked = ground arith;
      exceptions = ground arith;
      grey = ground arith;
      blocked = ground arith;
    }
  ]
]

module _ (u : Unicode) (cfg : DomainRulesConfig) (r : DomainRules) (h : Bytes) where
  blocked_flag :
      (d : PolicyDecision)
      → d.blocked ≡ true
      → d.bypass_filters ≡ false
      → Blocks u cfg r h
      → (¬ Bypasses u cfg r h)
      → Flags (Blocks u cfg r h) (Bypasses u cfg r h) (some d)
  blocked_flag d b p yes_blocks not_bypasses =
      ((λ _. yes_blocks, λ _. b), (λ e. absurd (cc), λ q. absurd (not_bypasses q)))

  bypass_flag :
      (d : PolicyDecision)
      → d.blocked ≡ false
      → d.bypass_filters ≡ true
      → (¬ Blocks u cfg r h)
      → Bypasses u cfg r h
      → Flags (Blocks u cfg r h) (Bypasses u cfg r h) (some d)
  bypass_flag d b p not_blocks bypasses =
      ((λ e. absurd (cc), λ q. absurd (not_blocks q)), (λ _. bypasses, λ _. p))

  pass_flag :
      (d : PolicyDecision)
      → d.blocked ≡ false
      → d.bypass_filters ≡ false
      → (¬ Blocks u cfg r h)
      → (¬ Bypasses u cfg r h)
      → Flags (Blocks u cfg r h) (Bypasses u cfg r h) (some d)
  pass_flag d b p not_blocks not_bypasses = (
    (λ e. absurd (cc), λ q. absurd (not_blocks q)),
    (λ e. absurd (cc), λ q. absurd (not_bypasses q)),
  )

  -- The main blocked lists, behind everything else.
  blocked-Flags :
      IsSmall u cfg
      → IsCompiled u cfg r
      → NotLocal u cfg r h
      → NotExcepted u cfg r h
      → (¬ Listed u cfg.grey h)
      → tld_blocks r h ≡ false
      → Flags (Blocks u cfg r h) (Bypasses u cfg r h) (
          when_match
            (match u r.blocked h).1
            (block "domain" h)
            (when_regex (first_regex r.block_regex h) (block "domain_regex") (some no_decision)))
  blocked-Flags small c local excepted grey_list tld =
      when_match-Flags _ _ _ (verdict u cfg.blocked r.blocked h c.blocked small.blocked)
        (λ l. blocked_flag (block "domain" h) refl refl (ground arith) (λ b. ground arith))
        λ n.
          when_regex-Flags (first_regex r.block_regex h) _ _
            (λ x e.
              blocked_flag (block "domain_regex" x.pattern) refl refl (ground arith)
                (λ b. ground arith))
            (λ e. pass_flag no_decision refl refl (λ b. ground arith) (λ b. ground arith))

  -- The main lists from the grey one on.
  grey-Flags :
      IsSmall u cfg
      → IsCompiled u cfg r
      → NotLocal u cfg r h
      → NotExcepted u cfg r h
      → Flags (Blocks u cfg r h) (Bypasses u cfg r h) (
          when_match (match u r.grey h).1 (grey "domain_grey" h) (
            if tld_blocks r h
            then some (block "tld_blanket" h)
            else when_match (match u r.blocked h).1 (block "domain" h) (
                when_regex
                  (first_regex r.block_regex h)
                  (block "domain_regex")
                  (some no_decision))))
  grey-Flags small c local excepted =
      when_match-Flags _ _ _ (verdict u cfg.grey r.grey h c.grey small.grey)
        (λ l. pass_flag (grey "domain_grey" h) refl refl (λ b. ground arith) (λ b. ground arith))
        λ n.
          if-Flags (tld_blocks r h) (block "tld_blanket" h) _
            (λ tld.
              blocked_flag (block "tld_blanket" h) refl refl (inr (local, excepted, n, inl tld))
                (λ b. ground arith))
            (λ free. blocked-Flags small c local excepted n free)

  -- The main lists.
  main-Flags :
      IsSmall u cfg
      → IsCompiled u cfg r
      → NotLocal u cfg r h
      → Flags (Blocks u cfg r h) (Bypasses u cfg r h) (
          when_match (match u r.exceptions h).1 (bypass "domain_exception" h) (
            when_regex (first_regex r.allow_regex h) (bypass "domain_exception_regex") (
              when_match (match u r.grey h).1 (grey "domain_grey" h) (
                if tld_blocks r h
                then some (block "tld_blanket" h)
                else when_match (match u r.blocked h).1 (block "domain" h) (
                    when_regex
                      (first_regex r.block_regex h)
                      (block "domain_regex")
                      (some no_decision))))))
  main-Flags small c local =
      when_match-Flags _ _ _ (verdict u cfg.exceptions r.exceptions h c.exceptions small.exceptions)
        (λ l.
          bypass_flag (bypass "domain_exception" h) refl refl (λ b. ground arith)
            (inr (local, inl l)))
        λ n.
          when_regex-Flags _ _ _
            (λ x e.
              bypass_flag (bypass "domain_exception_regex" x.pattern) refl refl (λ b. ground arith)
                (inr (local, inr (λ z. cc))))
            (λ e. grey-Flags small c local (n, e))

-- For a configuration that compiles, with fewer than 2 ^ 32 labels in each list, and a host that does not
-- normalise to nothing, `Decision` returns a decision, whose flags say: blocked exactly if a local list
-- blocks the host and no local exception or grey list names it, or if no local list names it, no main
-- exception, allowing expression or grey list holds for it, and its top-level domain, the main list or an
-- expression blocks it; bypassed exactly if a local exception names it, or no local list does and a main
-- exception or an allowing expression holds for it.
pub decision-Flags :
    (lib : Library) (cfg : DomainRulesConfig) (r : DomainRules) (host : Bytes)
    → new_domain_rules_config lib cfg ≡ ok r
    → IsSmall lib.unicode cfg
    → is_empty (normalized_domain lib.unicode host) ≡ false
    → Flags
        (Blocks lib.unicode cfg r (normalized_domain lib.unicode host))
        (Bypasses lib.unicode cfg r (normalized_domain lib.unicode host))
        (decision lib.unicode (some r) host)
unfolding decision decide_host
decision-Flags lib cfg r host built small name =
    let u = lib.unicode in
    let h = normalized_domain u host in
    let c = compiled lib cfg r built in
    rw name (
      when_match-Flags _ _ _
        (verdict u cfg.local_exceptions r.local_exceptions h c.local_exceptions
          small.local_exceptions)
        (λ l.
          bypass_flag u cfg r h (bypass "domain_local_exception" h) refl refl (λ b. ground arith)
            (inl l))
        λ n.
          when_match-Flags _ _ _
            (verdict u cfg.local_grey r.local_grey h c.local_grey small.local_grey)
            (λ l.
              pass_flag u cfg r h (grey "domain_local_grey" h) refl refl (λ b. ground arith)
                (λ b. ground arith))
            λ g.
              when_match-Flags _ _ _
                (verdict u cfg.local_blocked r.local_blocked h c.local_blocked small.local_blocked)
                (λ l.
                  blocked_flag u cfg r h (block "domain_local" h) refl refl (inl (n, g, l))
                    (λ b. ground arith))
                λ b. main-Flags u cfg r h small c (n, g, b))
