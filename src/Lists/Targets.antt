-- ===== src/Lists/Targets.antt =====
-- rules.go: what a list file is for, by its name.
use lucid_gate.Prelude.{Bool, false, ◌||◌, List, [], ◌∷◌, ◌++◌, Bytes, codes, String, if◌then◌else◌}
use lucid_gate.Text.{◌=ᵇ◌}
use lucid_gate.Decision.{RegexRule}
use lucid_gate.Policy.Evaluate.{PolicyConfig}

-- The lists of domains, of texts, of expressions and of addresses in the policy.
pub data DomainList : Type 0 where
  blocked exceptions local_exceptions local_grey local_blocked grey : DomainList
  referer_sites log_sites no_log_sites allowed_tlds blanket_block_tlds : DomainList

pub data TextList : Type 0 where
  url_blocked url_exceptions referer_urls url_local_exceptions url_local_grey : TextList
  url_local_blocked url_grey : TextList
  banned_extensions exception_extensions banned_mimes exception_mimes : TextList
  banned_filenames exception_filenames : TextList
  header_banned header_exception cookie_banned cookie_exception : TextList
  log_urls exception_log_urls no_log_urls no_log_extensions : TextList

pub data RegexList : Type 0 where
  block_sites allow_sites block_urls allow_urls url_rewrites url_redirects : RegexList
  block_headers exception_headers request_rewrites request_adds response_rewrites : RegexList
  log_regex_urls exception_log_regex_urls log_regex_sites exception_log_regex_sites : RegexList
  no_log_regex_urls : RegexList

pub data AddressList : Type 0 where
  site_ips_blocked site_ips_exceptions referer_site_ips site_ips_grey : AddressList
  log_site_ips no_log_site_ips : AddressList

-- The lists of the configuration, which take an entry once.
pub data SettingList : Type 0 where
  semantic_phrases semantic_exceptions log_phrases exception_log_phrases : SettingList
  filter_groups alert_categories : SettingList
  no_check_cert_sites grey_ssl_sites : SettingList
  no_check_cert_site_ips grey_ssl_site_ips : SettingList
  banned_clients exception_clients : SettingList

-- How the lines of a file are read.
pub data ListKind : Type 0 where
  domains : DomainList → ListKind
  texts : TextList → ListKind
  regexes : RegexList → ListKind
  addresses : AddressList → ListKind
  setting_texts setting_domains setting_addresses setting_clients : SettingList → ListKind
  weighted weighted_exceptions download_manager ip_groups time_bands : ListKind

abbrev one_of : Bytes → List String → Bool
one_of name [] = false
one_of name (s ∷ ss) = name =ᵇ codes s || one_of name ss

unfoldable pub find_kind : Bytes → List (List String × ListKind) → ListKind
find_kind name [] = domains blocked
find_kind name ((names, kind) ∷ rest) =
    let later = find_kind name rest in if one_of name names then kind else later

-- The cases of the switch, in its order. The last one is the default of `find_kind`.
abbrev pub list_kinds : List (List String × ListKind)
list_kinds =
    ("bannedsitelist" ∷ [], domains blocked)
    ∷ ("exceptionsitelist" ∷ [], domains exceptions)
    ∷ ("localexceptionsitelist" ∷ [], domains local_exceptions)
    ∷ ("localgreysitelist" ∷ "localsemiexceptionsitelist" ∷ [], domains local_grey)
    ∷ ("localbannedsitelist" ∷ [], domains local_blocked)
    ∷ ("greysitelist" ∷ "semiexceptionsitelist" ∷ [], domains grey)
    ∷ ("bannedregexpsitelist" ∷ [], regexes block_sites)
    ∷ ("exceptionregexpsitelist" ∷ [], regexes allow_sites)
    ∷ ("refererexceptionsitelist" ∷ [], domains referer_sites)
    ∷ ("bannedsiteiplist" ∷ "localbannedsiteiplist" ∷ [], addresses site_ips_blocked)
    ∷ ("exceptionsiteiplist" ∷ "localexceptionsiteiplist" ∷ [], addresses site_ips_exceptions)
    ∷ ("refererexceptionsiteiplist" ∷ [], addresses referer_site_ips)
    ∷ (
      "greysiteiplist" ∷ "localgreysiteiplist" ∷ "semiexceptionsiteiplist"
          ∷ "localsemiexceptionsiteiplist" ∷ [],
      addresses site_ips_grey,
    )
    ∷ ("bannedurllist" ∷ [], texts url_blocked)
    ∷ ("exceptionurllist" ∷ [], texts url_exceptions)
    ∷ ("refererexceptionurllist" ∷ [], texts referer_urls)
    ∷ ("localexceptionurllist" ∷ [], texts url_local_exceptions)
    ∷ ("localgreyurllist" ∷ [], texts url_local_grey)
    ∷ ("localbannedurllist" ∷ [], texts url_local_blocked)
    ∷ ("greyurllist" ∷ [], texts url_grey)
    ∷ ("bannedregexpurllist" ∷ [], regexes block_urls)
    ∷ ("exceptionregexpurllist" ∷ [], regexes allow_urls)
    ∷ ("urlregexplist" ∷ [], regexes url_rewrites)
    ∷ ("urlredirectregexplist" ∷ [], regexes url_redirects)
    ∷ ("bannedextensionlist" ∷ [], texts banned_extensions)
    ∷ ("exceptionextensionlist" ∷ [], texts exception_extensions)
    ∷ ("bannedmimetypelist" ∷ [], texts banned_mimes)
    ∷ ("exceptionmimetypelist" ∷ [], texts exception_mimes)
    ∷ ("bannedfilenamelist" ∷ [], texts banned_filenames)
    ∷ ("exceptionfilenamelist" ∷ [], texts exception_filenames)
    ∷ ("downloadmanager" ∷ [], download_manager)
    ∷ ("bannedheaderlist" ∷ [], texts header_banned)
    ∷ ("exceptionheaderlist" ∷ [], texts header_exception)
    ∷ ("bannedregexpheaderlist" ∷ [], regexes block_headers)
    ∷ ("exceptionregexpheaderlist" ∷ [], regexes exception_headers)
    ∷ ("headerregexplist" ∷ [], regexes request_rewrites)
    ∷ ("addheaderregexplist" ∷ [], regexes request_adds)
    ∷ ("responseheaderregexplist" ∷ [], regexes response_rewrites)
    ∷ ("bannedcookiephraselist" ∷ [], texts cookie_banned)
    ∷ ("exceptioncookiephraselist" ∷ [], texts cookie_exception)
    ∷ ("bannedphraselist" ∷ "oldbannedphraselist" ∷ [], setting_texts semantic_phrases)
    ∷ ("exceptionphraselist" ∷ "oldexceptionphraselist" ∷ [], setting_texts semantic_exceptions)
    ∷ ("weightedphraselist" ∷ "oldweightedphraselist" ∷ [], weighted)
    ∷ ("weightedphraseexceptions" ∷ [], weighted_exceptions)
    ∷ ("logurllist" ∷ [], texts log_urls)
    ∷ ("exceptionlogurllist" ∷ [], texts exception_log_urls)
    ∷ ("logregexpurllist" ∷ [], regexes log_regex_urls)
    ∷ ("exceptionlogregexpurllist" ∷ [], regexes exception_log_regex_urls)
    ∷ ("logregexpsitelist" ∷ [], regexes log_regex_sites)
    ∷ ("exceptionlogregexpsitelist" ∷ [], regexes exception_log_regex_sites)
    ∷ ("logphraselist" ∷ [], setting_texts log_phrases)
    ∷ ("exceptionlogphraselist" ∷ [], setting_texts exception_log_phrases)
    ∷ ("logsitelist" ∷ [], domains log_sites)
    ∷ ("logsiteiplist" ∷ [], addresses log_site_ips)
    ∷ ("nologsitelist" ∷ [], domains no_log_sites)
    ∷ ("nologsiteiplist" ∷ [], addresses no_log_site_ips)
    ∷ ("nologurllist" ∷ [], texts no_log_urls)
    ∷ ("nologregexpurllist" ∷ [], regexes no_log_regex_urls)
    ∷ ("nologextensionlist" ∷ [], texts no_log_extensions)
    ∷ ("bannedclientiplist" ∷ [], setting_clients banned_clients)
    ∷ ("exceptionclientiplist" ∷ [], setting_clients exception_clients)
    ∷ ("filtergroupslist" ∷ [], setting_texts filter_groups)
    ∷ ("e2guardianipgroups" ∷ [], ip_groups)
    ∷ ("nocheckcertsitelist" ∷ [], setting_domains no_check_cert_sites)
    ∷ ("nocheckcertsiteiplist" ∷ [], setting_addresses no_check_cert_site_ips)
    ∷ ("greysslsitelist" ∷ "localgreysslsitelist" ∷ [], setting_domains grey_ssl_sites)
    ∷ ("greysslsiteiplist" ∷ "localgreysslsiteiplist" ∷ [], setting_addresses grey_ssl_site_ips)
    ∷ ("alertcategorylist" ∷ [], setting_texts alert_categories)
    ∷ ("allowedtldlist" ∷ [], domains allowed_tlds)
    ∷ ("blanketblocktldlist" ∷ [], domains blanket_block_tlds)
    ∷ ("blankettimelist" ∷ "bannedtimelist" ∷ [], time_bands)
    ∷ []

-- The switch on the name of a file.
unfoldable pub kind_of : Bytes → ListKind
kind_of name = find_kind name list_kinds

-- Each `append` to a list of the policy.
unfoldable pub add_domains : DomainList → List Bytes → PolicyConfig → PolicyConfig
add_domains blocked vs p = record p {
  domains = record (p.domains) { blocked = p.domains.blocked ++ vs };
}
add_domains exceptions vs p = record p {
  domains = record (p.domains) { exceptions = p.domains.exceptions ++ vs };
}
add_domains local_exceptions vs p = record p {
  domains = record (p.domains) { local_exceptions = p.domains.local_exceptions ++ vs };
}
add_domains local_grey vs p = record p {
  domains = record (p.domains) { local_grey = p.domains.local_grey ++ vs };
}
add_domains local_blocked vs p = record p {
  domains = record (p.domains) { local_blocked = p.domains.local_blocked ++ vs };
}
add_domains grey vs p = record p { domains = record (p.domains) { grey = p.domains.grey ++ vs } }
add_domains referer_sites vs p = record p {
  referer = record (p.referer) { exception_sites = p.referer.exception_sites ++ vs };
}
add_domains log_sites vs p = record p { log = record (p.log) { log_sites = p.log.log_sites ++ vs } }
add_domains no_log_sites vs p = record p {
  log = record (p.log) { no_log_sites = p.log.no_log_sites ++ vs };
}
add_domains allowed_tlds vs p = record p {
  domains = record (p.domains) { allowed_tlds = p.domains.allowed_tlds ++ vs };
}
add_domains blanket_block_tlds vs p = record p {
  domains = record (p.domains) { blanket_block_tlds = p.domains.blanket_block_tlds ++ vs };
}

unfoldable pub add_texts : TextList → List Bytes → PolicyConfig → PolicyConfig
add_texts url_blocked vs p = record p { urls = record (p.urls) { blocked = p.urls.blocked ++ vs } }
add_texts url_exceptions vs p = record p {
  urls = record (p.urls) { exceptions = p.urls.exceptions ++ vs };
}
add_texts referer_urls vs p = record p {
  referer = record (p.referer) { exception_urls = p.referer.exception_urls ++ vs };
}
add_texts url_local_exceptions vs p = record p {
  urls = record (p.urls) { local_exceptions = p.urls.local_exceptions ++ vs };
}
add_texts url_local_grey vs p = record p {
  urls = record (p.urls) { local_grey = p.urls.local_grey ++ vs };
}
add_texts url_local_blocked vs p = record p {
  urls = record (p.urls) { local_blocked = p.urls.local_blocked ++ vs };
}
add_texts url_grey vs p = record p { urls = record (p.urls) { grey = p.urls.grey ++ vs } }
add_texts banned_extensions vs p = record p {
  files = record (p.files) { banned_extensions = p.files.banned_extensions ++ vs };
}
add_texts exception_extensions vs p = record p {
  files = record (p.files) { exception_extensions = p.files.exception_extensions ++ vs };
}
add_texts banned_mimes vs p = record p {
  files = record (p.files) { banned_mimes = p.files.banned_mimes ++ vs };
}
add_texts exception_mimes vs p = record p {
  files = record (p.files) { exception_mimes = p.files.exception_mimes ++ vs };
}
add_texts banned_filenames vs p = record p {
  files = record (p.files) { banned_filenames = p.files.banned_filenames ++ vs };
}
add_texts exception_filenames vs p = record p {
  files = record (p.files) { exception_filenames = p.files.exception_filenames ++ vs };
}
add_texts header_banned vs p = record p {
  headers = record (p.headers) { banned = p.headers.banned ++ vs };
}
add_texts header_exception vs p = record p {
  headers = record (p.headers) { exception = p.headers.exception ++ vs };
}
add_texts cookie_banned vs p = record p {
  cookies = record (p.cookies) { banned = p.cookies.banned ++ vs };
}
add_texts cookie_exception vs p = record p {
  cookies = record (p.cookies) { exception = p.cookies.exception ++ vs };
}
add_texts log_urls vs p = record p { log = record (p.log) { log_urls = p.log.log_urls ++ vs } }
add_texts exception_log_urls vs p = record p {
  log = record (p.log) { exception_log_urls = p.log.exception_log_urls ++ vs };
}
add_texts no_log_urls vs p = record p {
  log = record (p.log) { no_log_urls = p.log.no_log_urls ++ vs };
}
add_texts no_log_extensions vs p = record p {
  log = record (p.log) { no_log_extensions = p.log.no_log_extensions ++ vs };
}

unfoldable pub add_regexes : RegexList → List RegexRule → PolicyConfig → PolicyConfig
add_regexes block_sites vs p = record p {
  domains = record (p.domains) { block_regex = p.domains.block_regex ++ vs };
}
add_regexes allow_sites vs p = record p {
  domains = record (p.domains) { allow_regex = p.domains.allow_regex ++ vs };
}
add_regexes block_urls vs p = record p {
  urls = record (p.urls) { block_regex = p.urls.block_regex ++ vs };
}
add_regexes allow_urls vs p = record p {
  urls = record (p.urls) { allow_regex = p.urls.allow_regex ++ vs };
}
add_regexes url_rewrites vs p = record p {
  urls = record (p.urls) { rewrites = p.urls.rewrites ++ vs };
}
add_regexes url_redirects vs p = record p {
  urls = record (p.urls) { redirects = p.urls.redirects ++ vs };
}
add_regexes block_headers vs p = record p {
  headers = record (p.headers) { block_regex = p.headers.block_regex ++ vs };
}
add_regexes exception_headers vs p = record p {
  headers = record (p.headers) { exception_regex = p.headers.exception_regex ++ vs };
}
add_regexes request_rewrites vs p = record p {
  headers = record (p.headers) { request_rewrites = p.headers.request_rewrites ++ vs };
}
add_regexes request_adds vs p = record p {
  headers = record (p.headers) { request_adds = p.headers.request_adds ++ vs };
}
add_regexes response_rewrites vs p = record p {
  headers = record (p.headers) { response_rewrites = p.headers.response_rewrites ++ vs };
}
add_regexes log_regex_urls vs p = record p {
  log = record (p.log) { log_regex_urls = p.log.log_regex_urls ++ vs };
}
add_regexes exception_log_regex_urls vs p = record p {
  log = record (p.log) { exception_log_regex_urls = p.log.exception_log_regex_urls ++ vs };
}
add_regexes log_regex_sites vs p = record p {
  log = record (p.log) { log_regex_sites = p.log.log_regex_sites ++ vs };
}
add_regexes exception_log_regex_sites vs p = record p {
  log = record (p.log) { exception_log_regex_sites = p.log.exception_log_regex_sites ++ vs };
}
add_regexes no_log_regex_urls vs p = record p {
  log = record (p.log) { no_log_regex_urls = p.log.no_log_regex_urls ++ vs };
}

unfoldable pub add_addresses : AddressList → List Bytes → PolicyConfig → PolicyConfig
add_addresses site_ips_blocked vs p = record p {
  site_ips = record (p.site_ips) { blocked = p.site_ips.blocked ++ vs };
}
add_addresses site_ips_exceptions vs p = record p {
  site_ips = record (p.site_ips) { exceptions = p.site_ips.exceptions ++ vs };
}
add_addresses referer_site_ips vs p = record p {
  referer = record (p.referer) { exception_site_ips = p.referer.exception_site_ips ++ vs };
}
add_addresses site_ips_grey vs p = record p {
  site_ips = record (p.site_ips) { grey = p.site_ips.grey ++ vs };
}
add_addresses log_site_ips vs p = record p {
  log = record (p.log) { log_site_ips = p.log.log_site_ips ++ vs };
}
add_addresses no_log_site_ips vs p = record p {
  log = record (p.log) { no_log_site_ips = p.log.no_log_site_ips ++ vs };
}
