-- ===== src/SampleLists.antt =====
-- Runs of the list loader and the rule policy, and their theorems at concrete inputs.
use lucid_gate.Prelude.{
  ℕ, ◌+◌, ◌≡◌, ◌≢◌, ◌⊎◌, inl, inr, pos, true, false, ◌||◌, Option, none, some, List, [], ◌∷◌, ◌++◌,
  Bytes, codes, All, refl, arith, if◌then◌else◌, Bool-cases,
}
use lucid_gate.Text.{
  ◌=ᵇ◌, =ᵇ_iff, is_empty, has_key, has_prefix, has_suffix, index, contains, trim_prefix,
  trim_suffix, contains_byte, last_index_byte,
}
use lucid_gate.Filter.Fold.{lower_ascii}
use lucid_gate.Policy.Web.{path_base, drop_slashes}
use lucid_gate.Policy.Evaluate.{PolicyConfig}
use lucid_gate.Access.Rules.{AccessProfile}
use lucid_gate.SamplePolicy.{web}
use lucid_gate.SampleRules.{clock}
use lucid_gate.Lists.Outcome.{Texts, LoadError, loaded, failed}
use lucid_gate.Lists.Lines.{
  strip_comment, parse_include_line, parse_weighted_line, normalize_rule_domain,
}
use lucid_gate.Lists.Parse.{domain_list_values}
use lucid_gate.Lists.Targets.{kind_of, find_kind, add_domains}
use lucid_gate.Lists.Loader.{
  FileSystem, Scan, done, include_path, load_lines, load_opened, load_plain_list_file,
  expand_list_path, expand_list_paths,
}
use lucid_gate.Lists.Includes.{HoldsFiles, load_plain_list_file_total}
use lucid_gate.Lists.Cycles.{IncludesFile, here, deeper, HasCycle, load_plain_list_file-HasCycle}
use mathlib.Core.List.Memᴰ
use lucid_gate.Lists.Groups.{IpGroupMapping, is_client, resolve_mappings}
use lucid_gate.Lists.Membership.{holds_client, is_mapped, resolve_mappings_iff}
use lucid_gate.Lists.RulePolicy.{
  RuleConfig, apply_list, load_rule_files, apply_bands, finish_rules, load_rule_policy, no_policy,
}
use lucid_gate.Lists.Blocked.{all_blocks, blocked_of, load_rule_policy-blocked}
use lucid_gate.Lists.RoundTrip.{bracketed, parse_weighted_line-weighted_line}
use lucid_gate.TimeBands.Weeks.{Any}

abbrev words : Texts
words = record {
  clock = clock;
  fields = λ s. s ∷ [];
  itoa = λ n. (b'0' + n) ∷ [];
  scan_int = λ s. if s =ᵇ codes "1" then some (pos 1) else none;
}

-- A list of sites that includes another list, which includes it.
abbrev banned_lines : List Bytes
banned_lines = codes "# sites" ∷ (codes ".ads.net.# adverts" ∷ (codes "Evil.org" ∷ []))

abbrev looping_lines : List Bytes
looping_lines = codes "a.org" ∷ (codes ".Include<loop>" ∷ [])

abbrev read_file : Bytes → Option Scan
read_file path =
    if path =ᵇ codes "bannedsitelist"
    then some (record { lines = banned_lines; complete = true })
    else if path =ᵇ codes "greysitelist"
    then some (record { lines = codes "news.org" ∷ []; complete = true })
    else if path =ᵇ codes "loop"
    then some (record { lines = looping_lines; complete = true })
    else none

abbrev disk : FileSystem
disk = record {
  is_abs = λ p. true;
  join = λ d p. p;
  dir = λ p. [];
  abs = λ p. some p;
  stat = λ p. some false;
  read_dir = λ p. none;
  open_file = read_file;
}

abbrev all_files : List Bytes
all_files = codes "bannedsitelist" ∷ (codes "greysitelist" ∷ (codes "loop" ∷ []))

unknown :
    (path : Bytes) (scan : Scan)
    → (path =ᵇ codes "bannedsitelist") ≡ false
    → (path =ᵇ codes "greysitelist") ≡ false
    → (path =ᵇ codes "loop") ≡ false
    → read_file path ≡ some scan
    → ⊥
unknown path scan e f g o = ground (arith, e, f, g, o)

disk-HoldsFiles : HoldsFiles disk all_files
unfolding has_key ◌=ᵇ◌
disk-HoldsFiles path abs scan a o =
    let same : abs ≡ path = ground (arith, a) in
    rw same (elim (Bool-cases (path =ᵇ codes "bannedsitelist")) [
      | inl e ↦ rw ((=ᵇ_iff path (codes "bannedsitelist")).0 e) refl
      | inr e ↦ elim (Bool-cases (path =ᵇ codes "greysitelist")) [
        | inl f ↦ rw ((=ᵇ_iff path (codes "greysitelist")).0 f) refl
        | inr f ↦ elim (Bool-cases (path =ᵇ codes "loop")) [
          | inl g ↦ rw ((=ᵇ_iff path (codes "loop")).0 g) refl
          | inr g ↦ absurd (unknown path scan e f g o)
        ]
      ]
    ])

load_plain_list_file_total_example :
    load_plain_list_file disk words.unicode 4 (codes "loop") [] ≢ none
load_plain_list_file_total_example =
    load_plain_list_file_total disk words.unicode all_files 4 (codes "loop") disk-HoldsFiles
      (omega arith)

loop_included : IncludesFile disk words.unicode (codes "loop") (codes "loop")
unfolding include_path strip_comment parse_include_line is_empty has_prefix has_suffix index ◌=ᵇ◌
loop_included = (
  record { lines = looping_lines; complete = true },
  codes ".Include<loop>",
  codes "loop",
  refl,
  Memᴰ.tail (Memᴰ.head refl),
  (refl, refl, refl),
  refl,
)

loop-HasCycle : HasCycle disk words.unicode (codes "loop")
unfolding has_key ◌=ᵇ◌
loop-HasCycle = (
  codes "loop",
  codes "loop",
  codes "loop" ∷ [],
  deeper (codes "loop") (codes "loop") here refl loop_included,
  refl,
  refl,
)

load_plain_list_file-HasCycle_example :
    (e : LoadError) × (load_plain_list_file disk words.unicode 4 (codes "loop") []
      ≡ some (failed e))
load_plain_list_file-HasCycle_example =
    load_plain_list_file-HasCycle disk words.unicode all_files 4 (codes "loop") disk-HoldsFiles
      (omega arith) loop-HasCycle

loop_is_an_error :
    load_plain_list_file disk words.unicode 4 (codes "loop") []
    ≡ some (failed (LoadError.include_cycle (codes "loop")))
unfolding load_plain_list_file load_opened load_lines include_path strip_comment parse_include_line
    is_empty has_key has_prefix has_suffix index ◌=ᵇ◌
loop_is_an_error = refl

parse_weighted_line-weighted_line_example :
    parse_weighted_line words (b'<' ∷ (codes "bad word" ++ b'>' ∷ bracketed (codes "20")))
    ≡ loaded (codes "bad word", 20)
unfolding is_empty contains_byte
parse_weighted_line-weighted_line_example =
    parse_weighted_line-weighted_line words (codes "bad word") (codes "20") 19 refl refl refl refl
      refl refl

abbrev mappings : List IpGroupMapping
mappings =
    record { client = codes "10.0.0.7"; group = codes "1"; source = codes "ipgroups:1" }
    ∷ (record { client = codes "10.0.0.8"; group = codes "staff"; source = codes "ipgroups:2" }
        ∷ [])

abbrev groups : List Bytes
groups = codes "pupils" ∷ []

resolve_mappings_iff_example :
    (All (λ m. is_client web m.client ≡ true) mappings
      × ((rs : List (AccessProfile ℕ)) × (resolve_mappings web words groups mappings [] ≡ loaded rs)
          × ((g k : Bytes) → holds_client rs g k ≡ (false || is_mapped words groups mappings g k))))
    ⊎ ((e : LoadError) × (resolve_mappings {F = ℕ} web words groups mappings [] ≡ failed e)
        × Any (λ m. is_client web m.client ≡ false) mappings)
resolve_mappings_iff_example = resolve_mappings_iff web words groups mappings []

abbrev list_config : RuleConfig ℕ
list_config = record {
  config_path = [];
  include_dirs = codes "bannedsitelist" ∷ (codes "greysitelist" ∷ []);
  access_profiles = [];
  schedule_windows = [];
  semantic_phrases = [];
  semantic_exception_phrases = [];
  semantic_weighted = [];
  semantic_weighted_exceptions = [];
  log_phrases = [];
  exception_log_phrases = [];
  banned_clients = [];
  exception_clients = [];
  filter_groups = [];
  ip_group_mappings = [];
  no_check_cert_sites = [];
  no_check_cert_site_ips = [];
  grey_ssl_sites = [];
  grey_ssl_site_ips = [];
  alert_categories = [];
}

abbrev loaded_policy : PolicyConfig
loaded_policy = record no_policy {
  domains = record (no_policy.domains) {
    blocked = codes "ads.net" ∷ (codes "evil.org" ∷ []);
    grey = codes "news.org" ∷ [];
  };
}

sites-loaded : load_rule_policy disk web words 4 list_config ≡ done (loaded_policy, list_config)
unfolding load_rule_policy load_rule_files apply_list apply_bands finish_rules resolve_mappings
    expand_list_paths expand_list_path kind_of find_kind add_domains domain_list_values
    normalize_rule_domain path_base drop_slashes last_index_byte load_plain_list_file load_opened
    load_lines include_path strip_comment parse_include_line trim_prefix trim_suffix contains
    is_empty has_key has_prefix has_suffix index lower_ascii ◌=ᵇ◌
sites-loaded = refl

sites-expanded :
    expand_list_paths disk (codes ".") list_config.include_dirs
    ≡ loaded (codes "bannedsitelist" ∷ (codes "greysitelist" ∷ []))
unfolding expand_list_paths expand_list_path
sites-expanded = refl

load_rule_policy-blocked_example :
    blocked_of loaded_policy
    ≡ all_blocks disk words 4 (codes "bannedsitelist" ∷ (codes "greysitelist" ∷ []))
unfolding is_empty
load_rule_policy-blocked_example =
    load_rule_policy-blocked web words disk 4 list_config list_config
      (codes "bannedsitelist" ∷ (codes "greysitelist" ∷ [])) loaded_policy refl sites-expanded
      sites-loaded
