-- ===== src/Policy/Addresses.antt =====
-- proxy/policy.go: hosts that are addresses, and the tables of prefixes.
use lucid_gate.Prelude.{
  Bool, true, false, ◌||◌, Option, none, some, List, [], ◌∷◌, Bytes, codes, String, if◌then◌else◌,
}
use lucid_gate.Text.{is_empty, trim_prefix, trim_suffix}
use lucid_gate.Decision.{
  PolicyDecision, no_decision, block, bypass, grey, Result, ok, fail, bad_prefix, ◌>>=◌,
}
use lucid_gate.Domain.Name.{normalized_domain}
use lucid_gate.Policy.Web.{Web, Table}

abbrev pub host_part : Option (Bytes × Bytes) → Bytes → Bytes
host_part none host = host
host_part (some (h, port)) host = h

unfoldable pub normalized_policy_host : Web → Bytes → Bytes
normalized_policy_host w host =
    let trimmed = w.unicode.trim_space host in
    let bare = host_part (w.split_host_port trimmed) trimmed in
    if is_empty trimmed
    then []
    else normalized_domain w.unicode (trim_suffix (trim_prefix bare (codes "[")) (codes "]"))

-- The prefix that an entry stands for: a prefix, or the whole of an address.
unfoldable pub entry_prefix : Web → Bytes → Option Bytes
entry_prefix w entry = elim (w.parse_prefix entry) [
  | some p ↦ some p
  | none ↦ elim (w.parse_addr entry) [ none ↦ none | some a ↦ some (w.prefix_of a) ]
]

abbrev empty_table : Table
empty_table a = false

unfoldable pub insert_ip_prefixes : Web → String → Table → List Bytes → Result Table
insert_ip_prefixes w name table [] = ok table
insert_ip_prefixes w name table (e ∷ es) =
    let entry = w.unicode.trim_space e in
    elim (entry_prefix w entry) [
      | none ↦
          if is_empty entry
          then insert_ip_prefixes w name table es
          else fail (bad_prefix name entry)
      | some p ↦
          insert_ip_prefixes w name (if is_empty entry then table else w.insert (w.masked p) table)
            es
    ]

abbrev pub table_of : Web → String → List Bytes → Result Table
table_of w name entries = insert_ip_prefixes w name empty_table entries

unfoldable pub ip_prefix_table_matches : Web → Table → Bytes → Bool
ip_prefix_table_matches w table host = elim (w.parse_addr host) [ none ↦ false | some a ↦ table a ]

pub record SiteIpRulesConfig : Type 0 where
  pub blocked : List Bytes
  pub exceptions : List Bytes
  pub grey : List Bytes

pub record SiteIpRules : Type 0 where
  pub blocked : Table
  pub exceptions : Table
  pub grey : Table
  pub has_entries : Bool

abbrev has_entry : List Bytes → Bool
has_entry [] = false
has_entry (e ∷ es) = true

unfoldable pub new_site_ip_rules : Web → SiteIpRulesConfig → Result SiteIpRules
new_site_ip_rules w cfg = do
  blocked_table ← table_of w "bannedsiteiplist" cfg.blocked
  exception_table ← table_of w "exceptionsiteiplist" cfg.exceptions
  grey_table ← table_of w "greysiteiplist" cfg.grey
  ok (record {
    blocked = blocked_table;
    exceptions = exception_table;
    grey = grey_table;
    has_entries = has_entry cfg.blocked || has_entry cfg.exceptions || has_entry cfg.grey;
  })

-- `SiteIPRules.Decision` of an address.
unfoldable pub address_decision : SiteIpRules → Bytes → PolicyDecision
address_decision r a =
    if r.exceptions a
    then bypass "site_ip_exception" a
    else if r.grey a
    then grey "site_ip_grey" a
    else if r.blocked a
    then block "site_ip" a
    else no_decision

unfoldable pub site_ip_decision : Web → Option SiteIpRules → Bytes → PolicyDecision
site_ip_decision w none host = no_decision
site_ip_decision w (some r) host =
    let h = normalized_policy_host w host in
    if is_empty h
    then no_decision
    else elim (w.parse_addr h) [ none ↦ no_decision | some a ↦ address_decision r a ]
