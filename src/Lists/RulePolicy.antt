-- ===== src/Lists/RulePolicy.antt =====
-- rules.go: `loadRulePolicy`, which makes the policy of the list files.
use lucid_gate.Prelude.{
  ℕ, Bool, true, false, none, some, List, [], ◌∷◌, ◌++◌, Bytes, codes, if◌then◌else◌,
}
use lucid_gate.Text.{is_empty}
use lucid_gate.Policy.Web.{Web, path_base}
use lucid_gate.Policy.Addresses.{entry_prefix}
use lucid_gate.Policy.Evaluate.{PolicyConfig}
use lucid_gate.Access.Rules.{AccessProfile}
use lucid_gate.Schedule.Rules.{ScheduleWindow}
use lucid_gate.TimeBands.Bands.{TimeBand, parse_e2guardian_time_bands}
use lucid_gate.TimeBands.Restriction.{restrict_schedule_windows_by_time_bands}
use lucid_gate.Lists.Outcome.{Texts, ListLine, Fault, LoadError, Loaded, loaded, failed, ◌>>=◌}
use lucid_gate.Lists.Parse.{
  SemanticPhraseConfig, text_list_values, domain_list_values, regex_list_values, ip_list_values,
  parse_weighted_lines, merge_weighted_phrases, append_unique_strings, parse_download_manager_file,
}
use lucid_gate.Lists.Targets.{
  ListKind, SettingList, domains, texts, regexes, addresses, setting_texts, setting_domains,
  setting_addresses, setting_clients, weighted, weighted_exceptions, download_manager, ip_groups,
  time_bands, kind_of, add_domains, add_texts, add_regexes, add_addresses, semantic_phrases,
  semantic_exceptions, log_phrases, exception_log_phrases, filter_groups, alert_categories,
  no_check_cert_sites, grey_ssl_sites, no_check_cert_site_ips, grey_ssl_site_ips, banned_clients,
  exception_clients,
}
use lucid_gate.Lists.Groups.{IpGroupMapping, parse_group_lines, resolve_mappings}
use lucid_gate.Lists.Loader.{FileSystem, Run, load_plain_list_file, expand_list_paths}
use lucid_gate.Lists.Loader

-- The fields of `appConfig` that `loadRulePolicy` reads and writes. An access profile of the
-- configuration has the fields of `AccessProfile`.
pub record RuleConfig (F : Type 0) : Type 0 where
  pub config_path : Bytes
  pub include_dirs : List Bytes
  pub access_profiles : List (AccessProfile F)
  pub schedule_windows : List ScheduleWindow
  pub semantic_phrases : List Bytes
  pub semantic_exception_phrases : List Bytes
  pub semantic_weighted : List SemanticPhraseConfig
  pub semantic_weighted_exceptions : List SemanticPhraseConfig
  pub log_phrases : List Bytes
  pub exception_log_phrases : List Bytes
  pub banned_clients : List Bytes
  pub exception_clients : List Bytes
  pub filter_groups : List Bytes
  pub ip_group_mappings : List IpGroupMapping
  pub no_check_cert_sites : List Bytes
  pub no_check_cert_site_ips : List Bytes
  pub grey_ssl_sites : List Bytes
  pub grey_ssl_site_ips : List Bytes
  pub alert_categories : List Bytes

-- What the loop over the files writes.
pub record Loading (F : Type 0) : Type 0 where
  pub policy : PolicyConfig
  pub config : RuleConfig F
  pub bands : List TimeBand

-- `proxy.PolicyConfig{}`.
abbrev pub no_policy : PolicyConfig
no_policy = record {
  domains = record {
    local_exceptions = [];
    local_grey = [];
    local_blocked = [];
    exceptions = [];
    grey = [];
    blocked = [];
    block_regex = [];
    allow_regex = [];
    allowed_tlds = [];
    blanket_block_tlds = [];
  };
  site_ips = record { blocked = []; exceptions = []; grey = [] };
  urls = record {
    local_exceptions = [];
    local_grey = [];
    local_blocked = [];
    exceptions = [];
    grey = [];
    blocked = [];
    block_regex = [];
    allow_regex = [];
    rewrites = [];
    redirects = [];
  };
  files = record {
    banned_extensions = [];
    exception_extensions = [];
    banned_mimes = [];
    exception_mimes = [];
    banned_filenames = [];
    exception_filenames = [];
  };
  headers = record {
    banned = [];
    exception = [];
    block_regex = [];
    exception_regex = [];
    request_rewrites = [];
    response_rewrites = [];
    request_adds = [];
  };
  cookies = record { banned = []; exception = [] };
  log = record {
    log_urls = [];
    exception_log_urls = [];
    log_sites = [];
    log_site_ips = [];
    log_regex_urls = [];
    exception_log_regex_urls = [];
    log_regex_sites = [];
    exception_log_regex_sites = [];
    no_log_sites = [];
    no_log_site_ips = [];
    no_log_urls = [];
    no_log_regex_urls = [];
    no_log_extensions = [];
  };
  referer = record { exception_sites = []; exception_site_ips = []; exception_urls = [] };
}

-- The loops over the lists of clients.
unfoldable pub client_list_values : Web → List ListLine → Loaded (List Bytes)
client_list_values w [] = loaded []
client_list_values w (ln ∷ lns) =
    let rest = client_list_values w lns in
    if is_empty ln.text then rest else elim (entry_prefix w ln.text) [
      | none ↦ failed (LoadError.at_line ln.path ln.line Fault.bad_address)
      | some p ↦ rest >>= (λ values. loaded (ln.text ∷ values))
    ]

abbrev pub is_nil : List Bytes → Bool
is_nil [] = true
is_nil (x ∷ xs) = false

module _ {F : Type 0} where
  -- Each `appendUniqueStrings` to a list of the configuration.
  unfoldable pub add_setting : SettingList → List Bytes → RuleConfig F → RuleConfig F
  add_setting semantic_phrases vs c = record c {
    semantic_phrases = append_unique_strings c.semantic_phrases vs;
  }
  add_setting semantic_exceptions vs c = record c {
    semantic_exception_phrases = append_unique_strings c.semantic_exception_phrases vs;
  }
  add_setting log_phrases vs c = record c { log_phrases = append_unique_strings c.log_phrases vs }
  add_setting exception_log_phrases vs c = record c {
    exception_log_phrases = append_unique_strings c.exception_log_phrases vs;
  }
  add_setting filter_groups vs c = record c {
    filter_groups = append_unique_strings c.filter_groups vs;
  }
  add_setting alert_categories vs c = record c {
    alert_categories = append_unique_strings c.alert_categories vs;
  }
  add_setting no_check_cert_sites vs c = record c {
    no_check_cert_sites = append_unique_strings c.no_check_cert_sites vs;
  }
  add_setting grey_ssl_sites vs c = record c {
    grey_ssl_sites = append_unique_strings c.grey_ssl_sites vs;
  }
  add_setting no_check_cert_site_ips vs c = record c {
    no_check_cert_site_ips = append_unique_strings c.no_check_cert_site_ips vs;
  }
  add_setting grey_ssl_site_ips vs c = record c {
    grey_ssl_site_ips = append_unique_strings c.grey_ssl_site_ips vs;
  }
  add_setting banned_clients vs c = record c {
    banned_clients = append_unique_strings c.banned_clients vs;
  }
  add_setting exception_clients vs c = record c {
    exception_clients = append_unique_strings c.exception_clients vs;
  }

  abbrev set_policy : Loading F → PolicyConfig → Loading F
  set_policy s p = record s { policy = p }

  abbrev set_config : Loading F → RuleConfig F → Loading F
  set_config s c = record s { config = c }

  -- The body of the switch, for the lines of a file.
  unfoldable pub apply_list :
      Web → Texts → ListKind → List ListLine → Loading F → Loaded (Loading F)
  apply_list w lib (domains d) lns s =
      loaded (set_policy s (add_domains d (domain_list_values lib.unicode lns) s.policy))
  apply_list w lib (texts t) lns s =
      loaded (set_policy s (add_texts t (text_list_values lns) s.policy))
  apply_list w lib (regexes r) lns s =
      loaded (set_policy s (add_regexes r (regex_list_values lib lns) s.policy))
  apply_list w lib (addresses a) lns s =
      ip_list_values w lns >>= λ ips. loaded (set_policy s (add_addresses a ips s.policy))
  apply_list w lib (setting_texts k) lns s =
      loaded (set_config s (add_setting k (text_list_values lns) s.config))
  apply_list w lib (setting_domains k) lns s =
      loaded (set_config s (add_setting k (domain_list_values lib.unicode lns) s.config))
  apply_list w lib (setting_addresses k) lns s =
      ip_list_values w lns >>= λ ips. loaded (set_config s (add_setting k ips s.config))
  apply_list w lib (setting_clients k) lns s =
      client_list_values w lns >>= λ ips. loaded (set_config s (add_setting k ips s.config))
  apply_list w lib weighted lns s = do
    parsed ← parse_weighted_lines lib lns
    merged ← merge_weighted_phrases s.config.semantic_weighted parsed
    loaded (set_config s (record (s.config) { semantic_weighted = merged }))
  apply_list w lib weighted_exceptions lns s = do
    parsed ← parse_weighted_lines lib lns
    merged ← merge_weighted_phrases s.config.semantic_weighted_exceptions parsed
    loaded (set_config s (record (s.config) { semantic_weighted_exceptions = merged }))
  apply_list w lib download_manager lns s = do
    files ← parse_download_manager_file lib lns s.policy.files
    loaded (set_policy s (record (s.policy) { files = files }))
  apply_list w lib ip_groups lns s = do
    mappings ← parse_group_lines lib lns
    loaded (
        set_config s
          (record (s.config) { ip_group_mappings = s.config.ip_group_mappings ++ mappings }))
  apply_list w lib time_bands lns s = do
    parsed ← parse_e2guardian_time_bands lib lns
    loaded (record s { bands = s.bands ++ parsed })

  -- The loop over the files.
  unfoldable pub load_rule_files :
      FileSystem → Web → Texts → ℕ → List Bytes → Loading F → Run (Loading F)
  load_rule_files fs w lib fuel [] s = Loader.done s
  load_rule_files fs w lib fuel (path ∷ paths) s =
      Loader.◌>>=◌ (load_plain_list_file fs lib.unicode fuel path []) λ lines.
        Loader.◌>>=◌ (some (apply_list w lib (kind_of (path_base path)) lines s))
          λ next. load_rule_files fs w lib fuel paths next

  abbrev profile_names : List (AccessProfile F) → List Bytes
  profile_names [] = []
  profile_names (p ∷ ps) = p.name ∷ profile_names ps

  -- The bands are taken out of the windows, if there are any.
  unfoldable pub apply_bands : Texts → Loading F → Loaded (RuleConfig F)
  apply_bands lib s = elim (s.bands) [
    | [] ↦ loaded (s.config)
    | b ∷ bs ↦
        restrict_schedule_windows_by_time_bands lib.clock (s.config.schedule_windows)
          (profile_names (s.config.access_profiles)) (b ∷ bs)
        >>= (λ windows. loaded (record (s.config) { schedule_windows = windows }))
  ]

  unfoldable pub finish_rules : Web → Texts → Loading F → Loaded (PolicyConfig × RuleConfig F)
  finish_rules w lib s = do
    config ← apply_bands lib s
    profiles ←
        resolve_mappings w lib config.filter_groups config.ip_group_mappings config.access_profiles
    loaded (s.policy, record config { access_profiles = profiles })

  abbrev pub base_dir : FileSystem → RuleConfig F → Bytes
  base_dir fs c = if is_empty c.config_path then codes "." else fs.dir c.config_path

  -- `loadRulePolicy`: the policy, and the configuration that it leaves.
  unfoldable pub load_rule_policy :
      FileSystem → Web → Texts → ℕ → RuleConfig F → Run (PolicyConfig × RuleConfig F)
  load_rule_policy fs w lib fuel c =
      if is_nil c.include_dirs
      then Loader.done (no_policy, c)
      else Loader.◌>>=◌ (some (expand_list_paths fs (base_dir fs c) c.include_dirs)) (λ files.
        Loader.◌>>=◌
          (load_rule_files fs w lib fuel files
            (record { policy = no_policy; config = c; bands = [] }))
          (λ s. some (finish_rules w lib s)))

  unfoldable pub load_rule_domains : FileSystem → Web → Texts → ℕ → RuleConfig F → Run (List Bytes)
  load_rule_domains fs w lib fuel c =
      Loader.◌>>=◌ (load_rule_policy fs w lib fuel c) λ r. Loader.done (r.0.domains.blocked)
