-- ===== src/Policy/Urls.antt =====
-- proxy/policy.go: the canonical URL of a request, and the rules on URLs.
use lucid_gate.Prelude.{
  Bool, true, false, ◌&&◌, ◌||◌, Option, none, some, List, [], ◌∷◌, ◌++◌, Bytes, codes,
  if◌then◌else◌,
}
use lucid_gate.Text.{is_empty, has_prefix, ◌=ᵇ◌}
use lucid_gate.Decision.{
  PolicyDecision, no_decision, block, bypass, grey, Regex, RegexRule, Result, ok, ◌>>=◌,
  compile_rules, first_regex,
}
use lucid_gate.Policy.Web.{Web, Url, Request, trimmed_lower}
use lucid_gate.Policy.Headers.{RewriteRule, compile_rewrites}

pub record UrlRulesConfig : Type 0 where
  pub local_exceptions : List Bytes
  pub local_grey : List Bytes
  pub local_blocked : List Bytes
  pub exceptions : List Bytes
  pub grey : List Bytes
  pub blocked : List Bytes
  pub block_regex : List RegexRule
  pub allow_regex : List RegexRule
  pub rewrites : List RegexRule
  pub redirects : List RegexRule

-- `URLRedirectRule` with its status, which is `http.StatusFound` and is read by nobody.
pub record UrlRules : Type 0 where
  pub local_exceptions : List Bytes
  pub local_grey : List Bytes
  pub local_blocked : List Bytes
  pub exceptions : List Bytes
  pub grey : List Bytes
  pub blocked : List Bytes
  pub block_regex : List Regex
  pub allow_regex : List Regex
  pub rewrites : List RewriteRule
  pub redirects : List RewriteRule

abbrev pub query_part : Bytes → Bytes
query_part q = if is_empty q then [] else codes "?" ++ q

abbrev normalized_url : Web → Bytes → Option Url → Bytes
normalized_url w entry none = entry
normalized_url w entry (some u) =
    if is_empty u.scheme || is_empty u.host
    then entry
    else u.scheme
      ++ (codes "://" ++ (w.unicode.to_lower u.host ++ (u.escaped_path ++ query_part u.raw_query)))

unfoldable pub normalize_policy_urls : Web → List Bytes → List Bytes
normalize_policy_urls w [] = []
normalize_policy_urls w (e ∷ es) =
    let entry = w.unicode.trim_space e in
    let rest = normalize_policy_urls w es in
    if is_empty entry then rest else normalized_url w entry (w.parse_url entry) ∷ rest

unfoldable pub new_url_rules : Web → UrlRulesConfig → Result UrlRules
new_url_rules w cfg = do
  block_rules ← compile_rules w.library cfg.block_regex
  allow_rules ← compile_rules w.library cfg.allow_regex
  rewrite_rules ← compile_rewrites w cfg.rewrites
  redirect_rules ← compile_rewrites w cfg.redirects
  ok (record {
    local_exceptions = normalize_policy_urls w cfg.local_exceptions;
    local_grey = normalize_policy_urls w cfg.local_grey;
    local_blocked = normalize_policy_urls w cfg.local_blocked;
    exceptions = normalize_policy_urls w cfg.exceptions;
    grey = normalize_policy_urls w cfg.grey;
    blocked = normalize_policy_urls w cfg.blocked;
    block_regex = block_rules;
    allow_regex = allow_rules;
    rewrites = rewrite_rules;
    redirects = redirect_rules;
  })

unfoldable pub url_rule_matches : Bytes → Bytes → Bool
url_rule_matches url rule = (url =ᵇ rule) || has_prefix url rule

-- The first entry of a list that matches.
unfoldable pub first_url : List Bytes → Bytes → Option Bytes
first_url [] url = none
first_url (e ∷ es) url =
    let rest = first_url es url in if url_rule_matches url e then some e else rest

-- A loop over a list that decides at its first match, and what follows it.
abbrev pub when_url : Option Bytes → (Bytes → PolicyDecision) → PolicyDecision → PolicyDecision
when_url none d rest = rest
when_url (some e) d rest = d e

abbrev pub when_url_regex :
    Option Regex → (Bytes → PolicyDecision) → PolicyDecision → PolicyDecision
when_url_regex none d rest = rest
when_url_regex (some rx) d rest = d rx.pattern

-- `URLRules.Decision` of a URL that is not empty.
unfoldable pub decide_url : UrlRules → Bytes → PolicyDecision
decide_url r url = when_url (first_url r.local_exceptions url) (bypass "url_local_exception") (
    when_url (first_url r.local_grey url) (grey "url_local_grey") (
      when_url (first_url r.local_blocked url) (block "url_local") (
        when_url (first_url r.exceptions url) (bypass "url_exception") (
          when_url_regex (first_regex r.allow_regex url) (bypass "url_exception_regex") (
            when_url (first_url r.grey url) (grey "url_grey") (
              when_url (first_url r.blocked url) (block "url") (
                when_url_regex (first_regex r.block_regex url) (block "url_regex")
                  no_decision)))))))

unfoldable pub url_decision : Option UrlRules → Bytes → PolicyDecision
url_decision none url = no_decision
url_decision (some r) url = if is_empty url then no_decision else decide_url r url

-- The scheme of `canonicalPolicyURL`.
abbrev scheme_or : Bytes → Bytes → Bytes
scheme_or a b = if is_empty a then b else a

-- The port goes away if it is the scheme's own.
abbrev pub is_default_port : Bytes → Bytes → Bool
is_default_port scheme port =
    (scheme =ᵇ codes "http") && (port =ᵇ codes "80")
    || (scheme =ᵇ codes "https") && (port =ᵇ codes "443")

abbrev canonical_host : Web → Bytes → Bytes → Option (Bytes × Bytes) → Bytes
canonical_host w scheme host none = host
canonical_host w scheme host (some (h, port)) =
    if is_default_port scheme port
    then w.unicode.to_lower h
    else w.join_host_port (w.unicode.to_lower h) port

abbrev joined_url : Bytes → Bytes → Url → Bytes
joined_url scheme host u =
    scheme
    ++ (codes "://" ++ (host ++ (scheme_or u.escaped_path (codes "/") ++ query_part u.raw_query)))

unfoldable pub canonical_url : Web → Url → Bytes → Bytes → Bytes
canonical_url w u request_host fallback_scheme =
    let scheme =
      scheme_or (w.unicode.to_lower u.scheme)
        (scheme_or (trimmed_lower w fallback_scheme) (codes "http")) in
    let named = scheme_or u.host request_host in
    let host = w.unicode.to_lower named in
    if is_empty named
    then []
    else joined_url scheme (canonical_host w scheme host (w.split_host_port host)) u

unfoldable pub canonical_policy_url : Web → Option Request → Bytes → Bytes
canonical_policy_url w none fallback_scheme = []
canonical_policy_url w (some req) fallback_scheme = elim req.url [
  | none ↦ []
  | some u ↦ canonical_url w u req.host fallback_scheme
]

-- `getHost`.
unfoldable pub get_host : Web → Bytes → Bytes
get_host w url = elim (w.parse_url url) [ none ↦ [] | some u ↦ w.unicode.to_lower u.host ]

-- The loop of `RewriteURL`: the guard compares with the host of the URL that came in.
unfoldable pub rewrite_from : Web → List RewriteRule → Bytes → Bytes → Bool → Bytes × Bool
rewrite_from w [] original current modified = (current, modified)
rewrite_from w (r ∷ rs) original current modified =
    let new = r.regex.replace_all current r.replace in
    let taken = r.regex.match_string current && (get_host w new =ᵇ get_host w original) in
    rewrite_from w rs original (if taken then new else current) (modified || taken)

unfoldable pub rewrite_url : Web → Option UrlRules → Bytes → Bytes × Bool
rewrite_url w none url = (url, false)
rewrite_url w (some r) url = rewrite_from w r.rewrites url url false

abbrev redirect_to : RewriteRule → Bytes → PolicyDecision
redirect_to r url = record no_decision {
  redirect = true;
  redirect_url = r.regex.replace_all url r.replace;
  match_type = "url_redirect";
  value = r.regex.pattern;
}

-- The first redirect whose expression matches.
unfoldable pub first_redirect : List RewriteRule → Bytes → Option PolicyDecision
first_redirect [] url = none
first_redirect (r ∷ rs) url =
    let rest = first_redirect rs url in
    if r.regex.match_string url then some (redirect_to r url) else rest

unfoldable pub redirect_decision : Option UrlRules → Bytes → PolicyDecision × Bool
redirect_decision none url = (no_decision, false)
redirect_decision (some r) url = elim (first_redirect r.redirects url) [
  | none ↦ (no_decision, false)
  | some d ↦ (d, true)
]
