-- ===== src/Policy/Evaluate.antt =====
-- proxy/policy.go: a policy, and the order in which it asks its rules.
use lucid_gate.Prelude.{Bool, false, ◌&&◌, not, Option, none, some, [], Bytes, codes, if◌then◌else◌}
use lucid_gate.Text.{is_empty}
use lucid_gate.Decision.{PolicyDecision, no_decision, Result, ok, ◌>>=◌}
use lucid_gate.Domain.Rules.{DomainRulesConfig, DomainRules, new_domain_rules_config, decision}
use lucid_gate.Policy.Web.{Web, Request, Response, header_get, header_values}
use lucid_gate.Policy.Headers.{
  HeaderRulesConfig, HeaderRules, new_header_rules, header_decision, CookieRulesConfig, CookieRules,
  new_cookie_rules, cookie_decision,
}
use lucid_gate.Policy.Addresses.{
  SiteIpRulesConfig, SiteIpRules, new_site_ip_rules, site_ip_decision,
}
use lucid_gate.Policy.Files.{
  FileRulesConfig, FileRules, FileMatchInput, new_file_rules, file_decision, filename_from_url,
  response_filename,
}
use lucid_gate.Policy.Urls.{
  UrlRulesConfig, UrlRules, new_url_rules, url_decision, canonical_policy_url,
}
use lucid_gate.Policy.Referers.{
  RefererRulesConfig, RefererRules, new_referer_rules, referer_decision,
}
use lucid_gate.Policy.Logging.{LogRulesConfig, LogRules, new_log_rules}

pub record PolicyConfig : Type 0 where
  pub domains : DomainRulesConfig
  pub site_ips : SiteIpRulesConfig
  pub urls : UrlRulesConfig
  pub files : FileRulesConfig
  pub headers : HeaderRulesConfig
  pub cookies : CookieRulesConfig
  pub log : LogRulesConfig
  pub referer : RefererRulesConfig

pub record Policy : Type 0 where
  pub domains : Option DomainRules
  pub site_ips : Option SiteIpRules
  pub urls : Option UrlRules
  pub files : Option FileRules
  pub headers : Option HeaderRules
  pub cookies : Option CookieRules
  pub log : Option LogRules
  pub referer : Option RefererRules

unfoldable pub new_policy : Web → PolicyConfig → Result Policy
new_policy w cfg = do
  domain_rules ← new_domain_rules_config w.library cfg.domains
  site_ip_rules ← new_site_ip_rules w cfg.site_ips
  url_rules ← new_url_rules w cfg.urls
  header_rules ← new_header_rules w cfg.headers
  referer_rules ← new_referer_rules w cfg.referer
  log_rules ← new_log_rules w cfg.log
  ok (record {
    domains = some domain_rules;
    site_ips = some site_ip_rules;
    urls = some url_rules;
    files = some (new_file_rules w cfg.files);
    headers = some header_rules;
    cookies = some (new_cookie_rules w cfg.cookies);
    log = some log_rules;
    referer = some referer_rules;
  })

abbrev has_entries_of : Option SiteIpRules → Bool
has_entries_of none = false
has_entries_of (some r) = r.has_entries

unfoldable pub requires_resolved_site_ip : Option Policy → Bool
requires_resolved_site_ip none = false
requires_resolved_site_ip (some p) = has_entries_of p.site_ips

unfoldable pub evaluate_resolved_destination_ip : Web → Option Policy → Bytes → PolicyDecision
evaluate_resolved_destination_ip w none host = no_decision
evaluate_resolved_destination_ip w (some p) host = site_ip_decision w p.site_ips host

-- One rule set: a block is the answer, and a bypass is kept if there is none yet.
abbrev pub ask :
    Option PolicyDecision
    → PolicyDecision
    → (PolicyDecision → Option PolicyDecision)
    → Option PolicyDecision
ask none final rest = none
ask (some d) final rest =
    if d.blocked
    then some d
    else rest (if d.bypass_filters && not final.bypass_filters then d else final)

-- The referer is asked only if nothing bypasses, and only its bypass counts.
abbrev pub ask_referer : Option PolicyDecision → PolicyDecision → Option PolicyDecision
ask_referer none final = none
ask_referer (some d) final = some (if d.bypass_filters then d else final)

abbrev pub file_input : Bytes → Bytes → Bytes → FileMatchInput
file_input url filename content_type = record {
  url = url;
  filename = filename;
  content_type = content_type;
}

-- `EvaluateRequest` once the host was asked about.
unfoldable pub evaluate_rest :
    Web → Policy → Request → Bytes → PolicyDecision → Option PolicyDecision
evaluate_rest w p req scheme final0 =
    let url = canonical_policy_url w (some req) scheme in
    ask (some (url_decision p.urls url)) final0 λ final1.
      ask (some (file_decision w p.files (file_input url (filename_from_url w req.url) []))) final1
        λ final2. ask (some (header_decision w p.headers req.header)) final2 λ final3.
          ask (some (cookie_decision w p.cookies (header_values w req.header (codes "Cookie"))))
            final3
            λ final4.
              if final4.bypass_filters
              then some final4
              else ask_referer
                  (referer_decision w p.referer (header_get w req.header (codes "Referer"))) final4

abbrev pub if_request :
    Web → Policy → Option Request → Bytes → PolicyDecision → Option PolicyDecision
if_request w p none scheme final = some final
if_request w p (some req) scheme final = evaluate_rest w p req scheme final

-- `EvaluateRequest`, and `Evaluate`. An outer `none` is a panic of a domain list.
unfoldable pub evaluate_request :
    Web → Option Policy → Bytes → Option Request → Bytes → Option PolicyDecision
evaluate_request w none host req scheme = some no_decision
evaluate_request w (some p) host req scheme =
    ask (decision w.unicode p.domains host) no_decision
      λ final1. ask (some (site_ip_decision w p.site_ips host)) final1 (if_request w p req scheme)

abbrev response_url : Web → Option Request → Bytes → Bytes
response_url w none scheme = []
response_url w (some req) scheme = canonical_policy_url w (some req) scheme

abbrev request_filename : Web → Option Request → Bytes
request_filename w none = []
request_filename w (some req) = filename_from_url w req.url

unfoldable pub evaluate_response :
    Web → Option Policy → Option Response → Bytes → Option PolicyDecision
evaluate_response w none resp scheme = some no_decision
evaluate_response w (some p) none scheme = some no_decision
evaluate_response w (some p) (some resp) scheme =
    let named = response_filename w (some resp) in
    let filename = if is_empty named then request_filename w resp.request else named in
    let content_type = header_get w resp.header (codes "Content-Type") in
    let input = file_input (response_url w resp.request scheme) filename content_type in
    ask (some (file_decision w p.files input)) no_decision λ final1.
      ask (some (header_decision w p.headers resp.header)) final1 λ final2.
        ask (some (cookie_decision w p.cookies (header_values w resp.header (codes "Set-Cookie"))))
          final2 some

-- `evaluateDomain`.
abbrev only_block : Option PolicyDecision → Option PolicyDecision
only_block none = none
only_block (some d) = some (if d.blocked then d else no_decision)

unfoldable pub evaluate_domain : Web → Option Policy → Bytes → Option PolicyDecision
evaluate_domain w none host = some no_decision
evaluate_domain w (some p) host = only_block (decision w.unicode p.domains host)
