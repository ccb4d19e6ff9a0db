-- ===== src/Policy/Logging.antt =====
-- proxy/policy.go: which requests are logged, and which lists keep them out of the log.
use lucid_gate.Prelude.{Bool, true, false, Option, none, some, List, [], Bytes, String, not, ◌&&◌}
use lucid_gate.Text.{is_empty, has_key}
use lucid_gate.Decision.{Regex, RegexRule, Result, ok, ◌>>=◌, compile_rules, first_regex}
use lucid_gate.Domain.Trie.{DomainTrie, trie_of, match}
use lucid_gate.Policy.Web.{Web, Table, Request}
use lucid_gate.Policy.Addresses.{normalized_policy_host, table_of, ip_prefix_table_matches}
use lucid_gate.Policy.Files.{normalized_set, normalize_extension_rule, request_url_extension}
use lucid_gate.Policy.Urls.{normalize_policy_urls, first_url, canonical_policy_url}

pub record LogRulesConfig : Type 0 where
  pub log_urls : List Bytes
  pub exception_log_urls : List Bytes
  pub log_sites : List Bytes
  pub log_site_ips : List Bytes
  pub log_regex_urls : List RegexRule
  pub exception_log_regex_urls : List RegexRule
  pub log_regex_sites : List RegexRule
  pub exception_log_regex_sites : List RegexRule
  pub no_log_sites : List Bytes
  pub no_log_site_ips : List Bytes
  pub no_log_urls : List Bytes
  pub no_log_regex_urls : List RegexRule
  pub no_log_extensions : List Bytes

pub record LogRules : Type 0 where
  pub log_urls : List Bytes
  pub exception_log_urls : List Bytes
  pub log_sites : DomainTrie
  pub log_site_ips : Table
  pub log_regex_urls : List Regex
  pub exception_log_regex_urls : List Regex
  pub log_regex_sites : List Regex
  pub exception_log_regex_sites : List Regex
  pub no_log_sites : DomainTrie
  pub no_log_site_ips : Table
  pub no_log_urls : List Bytes
  pub no_log_regex_urls : List Regex
  pub no_log_extensions : List Bytes

unfoldable pub new_log_rules : Web → LogRulesConfig → Result LogRules
new_log_rules w cfg = do
  log_addresses ← table_of w "logsiteiplist" cfg.log_site_ips
  no_log_addresses ← table_of w "nologsiteiplist" cfg.no_log_site_ips
  log_url_rules ← compile_rules w.library cfg.log_regex_urls
  exception_url_rules ← compile_rules w.library cfg.exception_log_regex_urls
  log_site_rules ← compile_rules w.library cfg.log_regex_sites
  exception_site_rules ← compile_rules w.library cfg.exception_log_regex_sites
  no_log_url_rules ← compile_rules w.library cfg.no_log_regex_urls
  ok (record {
    log_urls = normalize_policy_urls w cfg.log_urls;
    exception_log_urls = normalize_policy_urls w cfg.exception_log_urls;
    log_sites = trie_of w.unicode cfg.log_sites;
    log_site_ips = log_addresses;
    log_regex_urls = log_url_rules;
    exception_log_regex_urls = exception_url_rules;
    log_regex_sites = log_site_rules;
    exception_log_regex_sites = exception_site_rules;
    no_log_sites = trie_of w.unicode cfg.no_log_sites;
    no_log_site_ips = no_log_addresses;
    no_log_urls = normalize_policy_urls w cfg.no_log_urls;
    no_log_regex_urls = no_log_url_rules;
    no_log_extensions = normalized_set (normalize_extension_rule w) cfg.no_log_extensions;
  })

-- The five results of `EvaluateLogging`.
pub record LogDecision : Type 0 where
  pub should_log : Bool
  pub suppressed : Bool
  pub match_type : String
  pub list_name : String
  pub match_value : Bytes

abbrev pub unlogged : LogDecision
unlogged = record {
  should_log = false;
  suppressed = false;
  match_type = "";
  list_name = "";
  match_value = [];
}

abbrev pub suppress : String → String → Bytes → LogDecision
suppress kind name v = record {
  should_log = false;
  suppressed = true;
  match_type = kind;
  list_name = name;
  match_value = v;
}

abbrev pub log_as : String → String → Bytes → LogDecision
log_as kind name v = record {
  should_log = true;
  suppressed = false;
  match_type = kind;
  list_name = name;
  match_value = v;
}

-- A loop that returns at its first match, a test, and the match of a trie, whose panic goes up.
abbrev pub on_entry : Option Bytes → (Bytes → LogDecision) → Option LogDecision → Option LogDecision
on_entry none d rest = rest
on_entry (some e) d rest = some (d e)

abbrev pub on_regex : Option Regex → (Bytes → LogDecision) → Option LogDecision → Option LogDecision
on_regex none d rest = rest
on_regex (some rx) d rest = some (d rx.pattern)

abbrev pub on_test : Bool → LogDecision → Option LogDecision → Option LogDecision
on_test true d rest = some d
on_test false d rest = rest

abbrev pub on_match : Option Bool → LogDecision → Option LogDecision → Option LogDecision
on_match none d rest = none
on_match (some b) d rest = on_test b d rest

-- The lists that log, when nothing suppresses.
unfoldable pub log_decision : Web → LogRules → Bytes → Bytes → Option LogDecision
log_decision w r url host =
    on_match (match w.unicode r.log_sites host).1 (log_as "site" "logsitelist" host) (
      on_test (ip_prefix_table_matches w r.log_site_ips host)
        (log_as "site_ip" "logsiteiplist" host)
        (on_entry (first_url r.log_urls url) (log_as "url" "logurllist") (
          on_regex (first_regex r.log_regex_urls url) (log_as "url_regex" "logregexpurllist") (
            on_regex (first_regex r.log_regex_sites host) (log_as "site_regex" "logregexpsitelist")
              (some unlogged)))))

-- The lists that suppress, and then the rest.
unfoldable pub suppressed_or :
    Web → LogRules → Bytes → Bytes → Bytes → Option LogDecision → Option LogDecision
suppressed_or w r url host ext rest =
    on_entry (first_url r.exception_log_urls url) (suppress "url" "exceptionlogurllist") (
      on_regex (first_regex r.exception_log_regex_urls url)
        (suppress "url_regex" "exceptionlogregexpurllist")
        (on_regex (first_regex r.exception_log_regex_sites host)
          (suppress "site_regex" "exceptionlogregexpsitelist")
          (on_match (match w.unicode r.no_log_sites host).1 (suppress "site" "nologsitelist" host) (
            on_test (ip_prefix_table_matches w r.no_log_site_ips host)
              (suppress "site_ip" "nologsiteiplist" host)
              (on_entry (first_url r.no_log_urls url) (suppress "url" "nologurllist") (
                on_regex (first_regex r.no_log_regex_urls url)
                  (suppress "url_regex" "nologregexpurllist")
                  (on_test (not (is_empty ext) && has_key r.no_log_extensions ext)
                    (suppress "extension" "nologextensionlist" ext) rest)))))))

-- `EvaluateLogging`; a policy without log rules, or no policy, is `none`.
unfoldable pub evaluate_logging :
    Web → Option LogRules → Bytes → Option Request → Bytes → Option LogDecision
evaluate_logging w none host req scheme = some unlogged
evaluate_logging w (some r) host req scheme =
    let url = canonical_policy_url w req scheme in
    let h = normalized_policy_host w host in
    suppressed_or w r url h (request_url_extension w req) (log_decision w r url h)
