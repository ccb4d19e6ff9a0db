-- ===== src/SamplePolicy.antt =====
-- Runs of the policy, and its theorems at concrete inputs.
use lucid_gate.Prelude.{
  ◌≡◌, ◌↔◌, ◌||◌, true, false, none, some, [], ◌∷◌, Bytes, codes, map, arith, refl, if◌then◌else◌,
}
use lucid_gate.Text.{
  Unicode, is_empty, ◌=ᵇ◌, has_key, contains, index, contains_byte, last_index_byte, trim_suffix,
  trim_prefix, has_suffix, has_prefix,
}
use lucid_gate.Decision.{PolicyDecision, Regex, RegexRule, ok, compile_rules, compile_policy_regex}
use lucid_gate.Domain.Name.{normalized_domain, normalized_domain_labels, fields, pieces, non_empty}
use lucid_gate.Domain.Trie.{trie_of, new_domain_matcher}
use lucid_gate.Domain.Rules.{DomainRulesConfig, new_domain_rules_config, normalized_tlds, decision}
use lucid_gate.Filter.Fold.{lower_ascii}
use lucid_gate.Policy.Web.{Web, Request, Header, values_of, header_add, append_value, header_get}
use lucid_gate.Policy.Phrases.{normalized_phrases, phrases_from}
use lucid_gate.Policy.Headers.{
  HeaderRulesConfig, HeaderRules, new_header_rules, compile_rewrites, compile_rewrite, compile_adds,
  compile_add, header_decision, new_cookie_rules, split_arrow, split_colon,
}
use lucid_gate.Policy.Rewrites.{
  add_request_headers, rewrite_request_headers, rewrite_all, rewrite_values, rewrite_value,
  rewrite_line, place_line, put_all, put_values, without_keys, is_dangerous_framing_header,
}
use lucid_gate.Policy.Addresses.{new_site_ip_rules, insert_ip_prefixes}
use lucid_gate.Policy.Files.{new_file_rules, normalized_set}
use lucid_gate.Policy.Urls.{
  UrlRulesConfig, UrlRules, new_url_rules, normalize_policy_urls, url_decision, get_host,
  rewrite_url,
}
use lucid_gate.Policy.UrlPrecedence.{Blocks, Bypasses, Flags, url_decision-Flags}
use lucid_gate.Policy.Referers.{new_referer_rules, referer_decision}
use lucid_gate.Policy.Logging.{new_log_rules}
use lucid_gate.Policy.Evaluate.{PolicyConfig, Policy, new_policy, evaluate_request}
use lucid_gate.Policy.Verdict.{IsSmallPolicy, verdict, request_decisions, evaluate_request-verdict}
use lucid_gate.Policy.Lines.{IsBanned, SomeLine, header_decision-blocked}
use lucid_gate.Policy.Guards.{rewrite_url-get_host, add_request_headers-framing}

-- An expression that is a fixed text: it matches where the text stands, and replaces all by the replacement.
abbrev literal : Bytes → Regex
literal p = record {
  pattern = p;
  match_string = λ s. contains s p;
  replace_all = λ s r. if contains s p then r else s;
}

abbrev pub to_lower_ascii : Unicode
to_lower_ascii = record { to_lower = λ s. map lower_ascii s; trim_space = λ s. s }

-- Every address is one of version 4 as it stands, and a prefix is one address.
abbrev pub web : Web
web = record {
  library = record { unicode = to_lower_ascii; compile_regex = λ p. some (literal p) };
  split_host_port = λ s. none;
  join_host_port = λ h p. h;
  parse_url = λ s. some (record {
    scheme = codes "http";
    host = if contains s (codes "good") then codes "good.org" else codes "evil.org";
    escaped_path = codes "/ads";
    raw_query = [];
  });
  path_unescape = λ s. some s;
  parse_media_type = λ s. none;
  canonical_header_key = λ s. s;
  parse_addr = λ s. some s;
  parse_prefix = λ s. some s;
  prefix_of = λ s. s;
  masked = λ s. s;
  insert = λ p t a. (a =ᵇ p) || t a;
}

abbrev rule : Bytes → RegexRule
rule p = record { pattern = p; source = codes "list:1" }

abbrev domain_config : DomainRulesConfig
domain_config = record {
  local_exceptions = [];
  local_grey = [];
  local_blocked = [];
  exceptions = [];
  grey = [];
  blocked = codes "ads.net" ∷ [];
  block_regex = [];
  allow_regex = [];
  allowed_tlds = [];
  blanket_block_tlds = [];
}

abbrev url_config : UrlRulesConfig
url_config = record {
  local_exceptions = [];
  local_grey = [];
  local_blocked = [];
  exceptions = [];
  grey = [];
  blocked = codes "http://good.org/ads" ∷ [];
  block_regex = [];
  allow_regex = [];
  rewrites = rule (codes "good/a=>evil/a") ∷ [];
  redirects = [];
}

abbrev header_config : HeaderRulesConfig
header_config = record {
  banned = codes "Spyware" ∷ [];
  exception = [];
  block_regex = [];
  exception_regex = [];
  request_rewrites = rule (codes "X-A=>Upgrade:h2c") ∷ [];
  response_rewrites = [];
  request_adds = rule (codes "good=>X-Safe:on") ∷ (rule (codes "good=>Host:evil.org") ∷ []);
}

abbrev config : PolicyConfig
config = record {
  domains = domain_config;
  site_ips = record { blocked = []; exceptions = []; grey = [] };
  urls = url_config;
  files = record {
    banned_extensions = [];
    exception_extensions = [];
    banned_mimes = [];
    exception_mimes = [];
    banned_filenames = [];
    exception_filenames = [];
  };
  headers = header_config;
  cookies = record { banned = []; exception = [] };
  log = record {
    log_urls = [];
    exception_log_urls = [];
    log_sites = [];
    log_site_ips = [];
    log_regex_urls = [];
    exception_log_regex_urls = [];
    log_regex_sites = [];
    exception_log_regex_sites = [];
    no_log_sites = [];
    no_log_site_ips = [];
    no_log_urls = [];
    no_log_regex_urls = [];
    no_log_extensions = [];
  };
  referer = record {
    exception_sites = codes "*.partner.org" ∷ [];
    exception_site_ips = [];
    exception_urls = [];
  };
}

abbrev header_rules : HeaderRules
header_rules = record {
  banned = codes "spyware" ∷ [];
  exception = [];
  block_regex = [];
  exception_regex = [];
  request_rewrites = record { regex = literal (codes "X-A"); replace = codes "Upgrade:h2c" } ∷ [];
  response_rewrites = [];
  request_adds =
      record { url_regex = some (literal (codes "good")); key = codes "X-Safe"; val = codes "on" }
      ∷ (record {
        url_regex = some (literal (codes "good"));
        key = codes "Host";
        val = codes "evil.org";
      }
          ∷ []);
}

abbrev url_rules : UrlRules
url_rules = record {
  local_exceptions = [];
  local_grey = [];
  local_blocked = [];
  exceptions = [];
  grey = [];
  blocked = codes "http://good.org/ads" ∷ [];
  block_regex = [];
  allow_regex = [];
  rewrites = record { regex = literal (codes "good/a"); replace = codes "evil/a" } ∷ [];
  redirects = [];
}

header_rules-built : new_header_rules web header_config ≡ ok header_rules
unfolding new_header_rules compile_rules compile_rewrites compile_rewrite compile_adds compile_add
    compile_policy_regex split_arrow split_colon normalized_phrases phrases_from is_empty index
    contains has_prefix has_key ◌=ᵇ◌ lower_ascii
header_rules-built = refl

url_rules-built : new_url_rules web url_config ≡ ok url_rules
unfolding new_url_rules compile_rules compile_rewrites compile_rewrite compile_policy_regex
    split_arrow normalize_policy_urls is_empty index contains has_prefix lower_ascii
url_rules-built = refl

abbrev policy : Policy
policy = record {
  domains = some (record {
    local_exceptions = trie_of to_lower_ascii [];
    local_grey = trie_of to_lower_ascii [];
    local_blocked = trie_of to_lower_ascii [];
    exceptions = trie_of to_lower_ascii [];
    grey = trie_of to_lower_ascii [];
    blocked = trie_of to_lower_ascii (codes "ads.net" ∷ []);
    block_regex = [];
    allow_regex = [];
    allowed_tlds = [];
    blanket_block_tlds = [];
  });
  site_ips = some (record {
    blocked = λ a. false;
    exceptions = λ a. false;
    grey = λ a. false;
    has_entries = false;
  });
  urls = some url_rules;
  files = some (new_file_rules web config.files);
  headers = some header_rules;
  cookies = some (new_cookie_rules web config.cookies);
  log = some (record {
    log_urls = [];
    exception_log_urls = [];
    log_sites = trie_of to_lower_ascii [];
    log_site_ips = λ a. false;
    log_regex_urls = [];
    exception_log_regex_urls = [];
    log_regex_sites = [];
    exception_log_regex_sites = [];
    no_log_sites = trie_of to_lower_ascii [];
    no_log_site_ips = λ a. false;
    no_log_urls = [];
    no_log_regex_urls = [];
    no_log_extensions = [];
  });
  referer = some (record {
    exception_sites = new_domain_matcher to_lower_ascii (codes "*.partner.org" ∷ []);
    exception_site_ips = λ a. false;
    exception_urls = [];
  });
}

policy-built : new_policy web config ≡ ok policy
unfolding new_policy new_domain_rules_config new_site_ip_rules new_referer_rules new_log_rules
    insert_ip_prefixes new_url_rules new_header_rules compile_rules compile_rewrites compile_rewrite
    compile_adds compile_add compile_policy_regex split_arrow split_colon normalized_phrases
    phrases_from is_empty index contains has_prefix has_key ◌=ᵇ◌ lower_ascii normalize_policy_urls
    normalized_tlds normalized_set
policy-built = refl

config-IsSmallPolicy : IsSmallPolicy web config
unfolding normalized_domain_labels normalized_domain fields pieces non_empty trim_suffix trim_prefix
    has_prefix contains_byte last_index_byte lower_ascii has_suffix is_empty
config-IsSmallPolicy = record {
  domains = record {
    local_exceptions = omega arith;
    local_grey = omega arith;
    local_blocked = omega arith;
    exceptions = omega arith;
    grey = omega arith;
    blocked = omega arith;
  };
  referers = omega arith;
}

abbrev asked : Request
asked = record {
  url = some (record {
    scheme = codes "http";
    host = codes "good.org";
    escaped_path = codes "/ads/1";
    raw_query = [];
  });
  host = codes "good.org";
  header = (codes "Referer", codes "http://a.partner.org" ∷ []) ∷ [];
}

evaluate_request-verdict_example :
    (domain : PolicyDecision) × (referer : PolicyDecision) × (decision to_lower_ascii policy.domains
        (codes "good.org")
      ≡ some domain)
    × (referer_decision web policy.referer (header_get web asked.header (codes "Referer"))
        ≡ some referer)
    × (evaluate_request web (some policy) (codes "good.org") (some asked) (codes "http")
        ≡ some (
            verdict
              (request_decisions web policy (codes "good.org") asked (codes "http") domain)
              referer))
evaluate_request-verdict_example =
    evaluate_request-verdict web config policy (codes "good.org") asked (codes "http") policy-built
      config-IsSmallPolicy

abbrev spying : Header
spying = (codes "X-Agent", codes "nice" ∷ (codes "SPYWARE/1" ∷ [])) ∷ []

header_decision-blocked_example :
    ((header_decision web (some header_rules) spying).blocked ≡ true)
    ↔ SomeLine (IsBanned web header_rules) spying
header_decision-blocked_example =
    header_decision-blocked web header_config header_rules spying header_rules-built

url_decision-Flags_example :
    Flags
      (Blocks url_rules (codes "http://good.org/ads/1"))
      (Bypasses url_rules (codes "http://good.org/ads/1"))
      (url_decision (some url_rules) (codes "http://good.org/ads/1"))
url_decision-Flags_example =
    url_decision-Flags url_rules (codes "http://good.org/ads/1") (unfold is_empty in refl)

rewrite_url-get_host_example :
    (get_host web (rewrite_url web (some url_rules) (codes "http://good/a")).0
      ≡ get_host web (codes "http://good/a"))
    × ((rewrite_url web (some url_rules) (codes "http://good/a")).1 ≡ false
        → (rewrite_url web (some url_rules) (codes "http://good/a")).0 ≡ codes "http://good/a")
rewrite_url-get_host_example = rewrite_url-get_host web (some url_rules) (codes "http://good/a")

add_request_headers-framing_example :
    values_of
      (codes "Host")
      (add_request_headers web (some header_rules) spying (codes "http://good/"))
    ≡ values_of (codes "Host") spying
add_request_headers-framing_example =
    add_request_headers-framing web (some header_rules) spying (codes "http://good/") (codes "Host")
      (unfold has_key ◌=ᵇ◌ in refl)

-- A rule on the line of another header turns it into a framing header.
upgrade_smuggled :
    values_of
      (codes "Upgrade")
      (rewrite_request_headers web (some header_rules) ((codes "X-A", codes "1" ∷ []) ∷ []))
    ≡ codes "h2c" ∷ []
unfolding rewrite_request_headers rewrite_all rewrite_values rewrite_value rewrite_line place_line
    put_all put_values without_keys is_dangerous_framing_header values_of header_add append_value
    split_colon is_empty index contains has_prefix has_key ◌=ᵇ◌
upgrade_smuggled = refl
