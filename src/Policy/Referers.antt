-- ===== src/Policy/Referers.antt =====
-- proxy/policy.go: the referers that let a request bypass the filters.
use lucid_gate.Prelude.{
  Bool, true, false, ◌||◌, Option, none, some, List, [], ◌++◌, Bytes, codes, if◌then◌else◌,
}
use lucid_gate.Text.{is_empty, contains}
use lucid_gate.Decision.{PolicyDecision, no_decision, bypass, Result, ok, ◌>>=◌}
use lucid_gate.Domain.Trie.{DomainTrie, new_domain_matcher, match}
use lucid_gate.Policy.Web.{Web, Table, Url}
use lucid_gate.Policy.Addresses.{normalized_policy_host, table_of, ip_prefix_table_matches}
use lucid_gate.Policy.Urls.{normalize_policy_urls, first_url, when_url, is_default_port, query_part}

pub record RefererRulesConfig : Type 0 where
  pub exception_sites : List Bytes
  pub exception_site_ips : List Bytes
  pub exception_urls : List Bytes

pub record RefererRules : Type 0 where
  pub exception_sites : DomainTrie
  pub exception_site_ips : Table
  pub exception_urls : List Bytes

unfoldable pub new_referer_rules : Web → RefererRulesConfig → Result RefererRules
new_referer_rules w cfg = do
  addresses ← table_of w "refererexceptionsiteiplist" cfg.exception_site_ips
  ok (record {
    exception_sites = new_domain_matcher w.unicode cfg.exception_sites;
    exception_site_ips = addresses;
    exception_urls = normalize_policy_urls w cfg.exception_urls;
  })

-- The host, in brackets if it is an address of version 6.
abbrev bracketed : Bytes → Bytes
bracketed host = if contains host (codes ":") then codes "[" ++ (host ++ codes "]") else host

abbrev url_text : Bytes → Bytes → Url → Bytes
url_text scheme host u =
    scheme ++ (codes "://" ++ (host ++ (u.escaped_path ++ query_part u.raw_query)))

-- The text and the host of a referer with a port.
unfoldable pub referer_with_port : Web → Bytes → Url → Bytes → Bytes → Bytes × Bytes
referer_with_port w scheme u split_host port =
    let host = normalized_policy_host w split_host in
    if is_empty host
    then ([], [])
    else if is_default_port scheme port
    then (url_text scheme (bracketed host) u, host)
    else (url_text scheme (w.join_host_port host port) u, host)

abbrev referer_of : Web → Bytes → Bytes → Url → Option (Bytes × Bytes) → Bytes × Bytes
referer_of w scheme host u none = (url_text scheme (bracketed host) u, host)
referer_of w scheme host u (some (h, port)) = referer_with_port w scheme u h port

-- `canonicalRefererURLAndHost` of a parsed referer.
unfoldable pub canonical_referer : Web → Url → Bytes × Bytes
canonical_referer w u =
    let host = normalized_policy_host w u.host in
    if is_empty u.scheme || is_empty u.host || is_empty host
    then ([], [])
    else referer_of w (w.unicode.to_lower u.scheme) host u (w.split_host_port u.host)

unfoldable pub canonical_referer_url_and_host : Web → Bytes → Bytes × Bytes
canonical_referer_url_and_host w raw =
    let trimmed = w.unicode.trim_space raw in
    if is_empty trimmed
    then ([], [])
    else elim (w.parse_url trimmed) [ none ↦ ([], []) | some u ↦ canonical_referer w u ]

-- What follows the match of the site; `none` is a panic of the match.
unfoldable pub decide_referer :
    Web → RefererRules → Bytes → Bytes → Option Bool → Option PolicyDecision
decide_referer w r url host none = none
decide_referer w r url host (some true) = some (bypass "referer_site_exception" host)
decide_referer w r url host (some false) = some (
    if ip_prefix_table_matches w r.exception_site_ips host
    then bypass "referer_site_ip_exception" host
    else when_url (first_url r.exception_urls url) (bypass "referer_url_exception") no_decision)

unfoldable pub referer_decision : Web → Option RefererRules → Bytes → Option PolicyDecision
referer_decision w none referer = some no_decision
referer_decision w (some r) referer =
    let (url, host) = canonical_referer_url_and_host w referer in
    if is_empty url || is_empty host
    then some no_decision
    else decide_referer w r url host (match w.unicode r.exception_sites host).1
