-- ===== src/Policy/Verdict.antt =====
-- What `EvaluateRequest` and `EvaluateResponse` answer, from the answers of the rule sets.
use lucid_gate.Prelude.{
  ◌||◌, ◌^◌, ◌<◌, ◌≡◌, ◌⊎◌, inl, inr, Bool, true, false, ◌&&◌, not, Option, none, some, List, [],
  ◌∷◌, Bytes, codes, arith, refl, ap, ◌∙◌, if◌then◌else◌, Bool-cases, Option-cases,
}
use lucid_gate.Text.{is_empty}
use lucid_gate.Decision.{PolicyDecision, no_decision, Library, Result-cases, ok}
use lucid_gate.Domain.Name.{normalized_domain}
use lucid_gate.Domain.Trie.{new_domain_matcher, trie_of, without_star}
use lucid_gate.Domain.Listed.{label_count, match_total}
use lucid_gate.Domain.Rules.{DomainRulesConfig, DomainRules, new_domain_rules_config, decision}
use lucid_gate.Domain.Precedence.{IsSmall, Flags, decision-Flags}
use lucid_gate.Policy.Web.{Web, Request, header_get, header_values}
use lucid_gate.Policy.Headers.{header_decision, cookie_decision, new_header_rules}
use lucid_gate.Policy.Addresses.{site_ip_decision, new_site_ip_rules, table_of}
use lucid_gate.Policy.Files.{file_decision, filename_from_url}
use lucid_gate.Policy.Urls.{url_decision, canonical_policy_url, new_url_rules}
use lucid_gate.Policy.Referers.{
  RefererRules, RefererRulesConfig, new_referer_rules, referer_decision, decide_referer,
  canonical_referer_url_and_host,
}
use lucid_gate.Policy.Logging.{new_log_rules}
use lucid_gate.Policy.Evaluate.{
  PolicyConfig, Policy, new_policy, ask, ask_referer, file_input, evaluate_rest, evaluate_request,
}

unfoldable pub first_blocked : List PolicyDecision → Option PolicyDecision
first_blocked [] = none
first_blocked (d ∷ ds) = if d.blocked then some d else first_blocked ds

unfoldable pub first_bypassing : List PolicyDecision → Option PolicyDecision
first_bypassing [] = none
first_bypassing (d ∷ ds) = if d.bypass_filters then some d else first_bypassing ds

-- The first block; else the first bypass; else the referer's bypass, if it is one.
abbrev last_word : Option PolicyDecision → Option PolicyDecision → PolicyDecision → PolicyDecision
last_word (some d) b referer = d
last_word none (some d) referer = d
last_word none none referer = if referer.bypass_filters then referer else no_decision

abbrev pub verdict : List PolicyDecision → PolicyDecision → PolicyDecision
verdict ds referer = last_word (first_blocked ds) (first_bypassing ds) referer

-- The rule sets in turn.
abbrev ask_all :
    List PolicyDecision
    → PolicyDecision
    → (PolicyDecision → Option PolicyDecision)
    → Option PolicyDecision
ask_all [] final rest = rest final
ask_all (d ∷ ds) final rest = ask (some d) final λ f. ask_all ds f rest

abbrev kept : PolicyDecision → Option PolicyDecision → PolicyDecision
kept final none = final
kept final (some d) = if final.bypass_filters then final else d

abbrev blocked_or : Option PolicyDecision → Option PolicyDecision → Option PolicyDecision
blocked_or none rest = rest
blocked_or (some d) rest = some d

kept_step :
    (final d : PolicyDecision) (later : Option PolicyDecision)
    → kept (if d.bypass_filters && not final.bypass_filters then d else final) later
      ≡ kept final (if d.bypass_filters then some d else later)
kept_step final d none = elim (Bool-cases d.bypass_filters) [
  | inl e ↦ ground arith
  | inr e ↦ ground arith
]
kept_step final d (some x) = elim (Bool-cases d.bypass_filters) [
  | inl e ↦ ground arith
  | inr e ↦ ground arith
]

block_step :
    (b : Bool) (d : PolicyDecision) (later x rest : Option PolicyDecision)
    → x ≡ blocked_or later rest
    → (if b then some d else x) ≡ blocked_or (if b then some d else later) rest
block_step true d later x rest e = refl
block_step false d later x rest e = e

ask_all_lem :
    (ds : List PolicyDecision) (final : PolicyDecision)
    (rest : PolicyDecision → Option PolicyDecision)
    → ask_all ds final rest ≡ blocked_or (first_blocked ds) (rest (kept final (first_bypassing ds)))
unfolding first_blocked first_bypassing
ask_all_lem [] final rest = refl
ask_all_lem (d ∷ ds) final rest =
    let next = if d.bypass_filters && not final.bypass_filters then d else final in
    let e = ask_all_lem ds next rest in
    let k = kept_step final d (first_bypassing ds) in
    block_step d.blocked d (first_blocked ds) _ _
      (e ∙ ap (λ f. blocked_or (first_blocked ds) (rest f)) k)

-- The answers of the rule sets about a request, the domain lists' answer given.
abbrev pub request_decisions :
    Web → Policy → Bytes → Request → Bytes → PolicyDecision → List PolicyDecision
request_decisions w p host req scheme domain =
    let url = canonical_policy_url w (some req) scheme in
    domain
    ∷ (site_ip_decision w p.site_ips host
        ∷ (url_decision p.urls url
            ∷ (file_decision w p.files (file_input url (filename_from_url w req.url) [])
                ∷ (header_decision w p.headers req.header
                    ∷ (cookie_decision w p.cookies (header_values w req.header (codes "Cookie"))
                        ∷ [])))))

first_bypassing-bypasses :
    (ds : List PolicyDecision) (d : PolicyDecision)
    → first_bypassing ds ≡ some d
    → d.bypass_filters ≡ true
unfolding first_bypassing
first_bypassing-bypasses [] d h = absurd (cc)
first_bypassing-bypasses (x ∷ ds) d h = elim (Bool-cases x.bypass_filters) [
  | inl e ↦ ground arith
  | inr e ↦ first_bypassing-bypasses ds d (ground arith)
]

-- The referer's part.
ending_lem :
    (ds : List PolicyDecision) (referer : PolicyDecision)
    → blocked_or (first_blocked ds) (
        let final = kept no_decision (first_bypassing ds) in
        if final.bypass_filters then some final else ask_referer (some referer) final)
      ≡ some (verdict ds referer)
ending_lem ds referer = elim (Option-cases (first_blocked ds)) [
  | inr (d, e) ↦ rw e refl
  | inl free ↦ elim (Option-cases (first_bypassing ds)) [
    | inl e ↦ rw (free, e) refl
    | inr (d, e) ↦ rw (free, e) (rw (first_bypassing-bypasses ds d e) refl)
  ]
]

-- A policy that compiled, part by part.
record IsCompiled (w : Web) (cfg : PolicyConfig) (p : Policy) : Type 0 where
  domains :
      (r : DomainRules) × (new_domain_rules_config w.library cfg.domains ≡ ok r)
      × (p.domains ≡ some r)
  referer : (r : RefererRules) × (new_referer_rules w cfg.referer ≡ ok r) × (p.referer ≡ some r)

compiled :
    (w : Web) (cfg : PolicyConfig) (p : Policy) → new_policy w cfg ≡ ok p → IsCompiled w cfg p
unfolding new_policy
compiled w cfg p h = elim (Result-cases (new_domain_rules_config w.library cfg.domains)) [
  | inr (x, bad) ↦ absurd (ground arith)
  | inl (d, domains) ↦ elim (Result-cases (new_site_ip_rules w cfg.site_ips)) [
    | inr (x, bad) ↦ absurd (ground arith)
    | inl (s, sites) ↦ elim (Result-cases (new_url_rules w cfg.urls)) [
      | inr (x, bad) ↦ absurd (ground arith)
      | inl (u, urls) ↦ elim (Result-cases (new_header_rules w cfg.headers)) [
        | inr (x, bad) ↦ absurd (ground arith)
        | inl (hs, headers) ↦ elim (Result-cases (new_referer_rules w cfg.referer)) [
          | inr (x, bad) ↦ absurd (ground arith)
          | inl (r, referers) ↦ elim (Result-cases (new_log_rules w cfg.log)) [
            | inr (x, bad) ↦ absurd (ground arith)
            | inl (l, logs) ↦ record {
              domains = (d, domains, ground arith);
              referer = (r, referers, ground arith);
            }
          ]
        ]
      ]
    ]
  ]
]

-- The lists of the configuration have fewer than 2 ^ 32 labels each.
pub record IsSmallPolicy (w : Web) (cfg : PolicyConfig) : Type 0 where
  pub domains : IsSmall w.unicode cfg.domains
  pub referers : label_count w.unicode (without_star cfg.referer.exception_sites) < 2 ^ 32

answered :
    (B P : Type 0) (a : Option PolicyDecision) → Flags B P a → (d : PolicyDecision) × (a ≡ some d)
answered B P none f = absurd f
answered B P (some d) f = (d, refl)

-- The domain lists and the referers always answer.
decision_total :
    (lib : Library) (cfg : DomainRulesConfig) (r : DomainRules) (host : Bytes)
    → new_domain_rules_config lib cfg ≡ ok r
    → IsSmall lib.unicode cfg
    → (d : PolicyDecision) × (decision lib.unicode (some r) host ≡ some d)
decision_total lib cfg r host built small =
    elim (Bool-cases (is_empty (normalized_domain lib.unicode host))) [
      | inl blank ↦ (no_decision, unfold decision in rw blank refl)
      | inr named ↦ answered _ _ _ (decision-Flags lib cfg r host built small named)
    ]

decide_referer_total :
    (w : Web) (r : RefererRules) (url host : Bytes) (m : Option Bool)
    → ((m ≡ some true) ⊎ (m ≡ some false))
    → (d : PolicyDecision) × (decide_referer w r url host m ≡ some d)
unfolding decide_referer
decide_referer_total w r url host none h = absurd (elim h [ inl e ↦ cc | inr e ↦ cc ])
decide_referer_total w r url host (some true) h = (_, refl)
decide_referer_total w r url host (some false) h = (_, refl)

exception_sites_lem :
    (w : Web) (cfg : RefererRulesConfig) (r : RefererRules)
    → new_referer_rules w cfg ≡ ok r
    → r.exception_sites ≡ trie_of w.unicode (without_star cfg.exception_sites)
unfolding new_referer_rules new_domain_matcher
exception_sites_lem w cfg r e =
    elim (Result-cases (table_of w "refererexceptionsiteiplist" cfg.exception_site_ips)) [
      | inr (x, bad) ↦ absurd (ground arith)
      | inl (t, good) ↦ ground arith
    ]

referer_decision_total :
    (w : Web) (cfg : RefererRulesConfig) (r : RefererRules) (text : Bytes)
    → new_referer_rules w cfg ≡ ok r
    → label_count w.unicode (without_star cfg.exception_sites) < 2 ^ 32
    → (d : PolicyDecision) × (referer_decision w (some r) text ≡ some d)
unfolding referer_decision
referer_decision_total w cfg r text built small =
    let (url, host) = canonical_referer_url_and_host w text in
    elim (Bool-cases (is_empty url || is_empty host)) [
      | inl blank ↦ (no_decision, rw blank refl)
      | inr named ↦ rw named (
          decide_referer_total w r url host _ (
            rw (exception_sites_lem w cfg r built)
              (match_total w.unicode (without_star cfg.exception_sites) host small)))
    ]

-- For a policy that compiled, with fewer than 2 ^ 32 labels in each domain list, `EvaluateRequest` returns
-- the first block among the answers of the domain lists, the site addresses, the URL, file, header and
-- cookie rules, in this order; if none blocks, the first of those answers that bypasses the filters; if
-- none does, the referer rules' answer if it bypasses, and else no decision.
pub evaluate_request-verdict :
    (w : Web) (cfg : PolicyConfig) (p : Policy) (host : Bytes) (req : Request) (scheme : Bytes)
    → new_policy w cfg ≡ ok p
    → IsSmallPolicy w cfg
    → (domain : PolicyDecision) × (referer : PolicyDecision) × (decision w.unicode p.domains host
        ≡ some domain)
      × (referer_decision w p.referer (header_get w req.header (codes "Referer")) ≡ some referer)
      × (evaluate_request w (some p) host (some req) scheme
          ≡ some (verdict (request_decisions w p host req scheme domain) referer))
unfolding evaluate_request evaluate_rest
evaluate_request-verdict w cfg p host req scheme built small =
    let c = compiled w cfg p built in
    let (r, domains, here) = c.domains in
    let (q, referers, there) = c.referer in
    let (d, e) = decision_total w.library cfg.domains r host domains small.domains in
    let text = header_get w req.header (codes "Referer") in
    let (f, g) = referer_decision_total w cfg.referer q text referers small.referers in
    let domain_answer : decision w.unicode p.domains host ≡ some d =
      ap (λ x. decision w.unicode x host) here ∙ e in
    let referer_answer : referer_decision w p.referer text ≡ some f =
      ap (λ x. referer_decision w x text) there ∙ g in
    (
      d,
      f,
      domain_answer,
      referer_answer,
      rw (domain_answer, referer_answer)
          (ask_all_lem (request_decisions w p host req scheme d) no_decision
              (λ final. if final.bypass_filters then some final else ask_referer (some f) final)
            ∙ ending_lem (request_decisions w p host req scheme d) f),
    )
