-- ===== src/Access/Rules.antt =====
-- proxy/access_rules.go: the profiles of clients, and the clients that are banned or exempt.
use lucid_gate.Prelude.{
  ℤ, Bool, true, false, ◌&&◌, not, Option, none, some, List, [], ◌∷◌, Bytes, codes, if◌then◌else◌,
}
use lucid_gate.Text.{is_empty, ◌=ᵇ◌}
use lucid_gate.Policy.Web.{Web, Table}
use lucid_gate.Policy.Addresses.{entry_prefix}

-- `AccessProfile`, with `F` for float64.
pub record AccessProfile (F : Type 0) : Type 0 where
  pub name : Bytes
  pub clients : List Bytes
  pub default : Bool
  pub max_conns : Option ℤ
  pub rate_limit : Option F
  pub rate_burst : Option ℤ

-- `bart.Table[string]`, as `Lookup` sees it.
abbrev pub ProfileTable : Type 0
ProfileTable = Bytes → Option Bytes

-- The two tables of package bart; `insert_name` is `Insert` of a table of names.
pub record Net : Type 0 where
  pub web : Web
  pub open web use *
  pub insert_name : Bytes → Bytes → ProfileTable → ProfileTable

-- The map of profiles, the newest entry of a name first.
pub record AccessRules (F : Type 0) : Type 0 where
  pub entries : ProfileTable
  pub default_profile : Bytes
  pub banned : Table
  pub exceptions : Table
  pub profiles : List (Bytes × AccessProfile F)

pub data AccessError : Type 0 where
  empty_name : AccessError
  several_defaults : AccessError
  bad_client : Bytes → AccessError

pub data Built (F : Type 0) : Type 0 where
  built : AccessRules F → Built F
  refused : AccessError → Built F

abbrev pub no_rules : {F : Type 0} → AccessRules F
no_rules = record {
  entries = λ a. none;
  default_profile = [];
  banned = λ a. false;
  exceptions = λ a. false;
  profiles = [];
}

-- The loop of `SetBanned` and `SetExceptions`: the table, which keeps what stands in front of an
-- entry that is no prefix, and that entry.
unfoldable pub insert_clients : Net → List Bytes → Table → Table × Option Bytes
insert_clients net [] table = (table, none)
insert_clients net (e ∷ es) table = elim (entry_prefix net.web e) [
  | none ↦ (table, some e)
  | some p ↦ insert_clients net es (net.insert (net.masked p) table)
]

abbrev pub remote_host : Net → Bytes → Bytes
remote_host net remote_addr = elim (net.split_host_port remote_addr) [
  | none ↦ remote_addr
  | some (host, port) ↦ host
]

module _ {F : Type 0} where
  -- The loop over the clients of a profile.
  unfoldable pub add_clients : Net → Bytes → List Bytes → AccessRules F → Built F
  add_clients net name [] r = built r
  add_clients net name (c ∷ cs) r = elim (entry_prefix net.web c) [
    | none ↦ refused (bad_client c)
    | some p ↦
        add_clients net name cs
          (record r { entries = net.insert_name (net.masked p) name r.entries })
  ]

  -- One round of `NewAccessRules`.
  unfoldable pub add_profile : Net → AccessProfile F → AccessRules F → Built F
  add_profile net p r =
      if is_empty p.name
      then refused empty_name
      else if p.default && not (is_empty r.default_profile)
      then refused several_defaults
      else add_clients net p.name p.clients (record r {
        profiles = (p.name, p) ∷ r.profiles;
        default_profile = if p.default then p.name else r.default_profile;
      })

  unfoldable pub add_profiles : Net → List (AccessProfile F) → AccessRules F → Built F
  add_profiles net [] r = built r
  add_profiles net (p ∷ ps) r = elim (add_profile net p r) [
    | built s ↦ add_profiles net ps s
    | refused e ↦ refused e
  ]

  unfoldable pub new_access_rules : Net → List (AccessProfile F) → Built F
  new_access_rules net [] = built (record no_rules { default_profile = codes "default" })
  new_access_rules net (p ∷ ps) = add_profiles net (p ∷ ps) no_rules

  unfoldable pub set_banned : Net → AccessRules F → List Bytes → AccessRules F × Option Bytes
  set_banned net r entries =
      let (table, bad) = insert_clients net entries (λ a. false) in
      (record r { banned = table }, bad)

  unfoldable pub set_exceptions : Net → AccessRules F → List Bytes → AccessRules F × Option Bytes
  set_exceptions net r entries =
      let (table, bad) = insert_clients net entries (λ a. false) in
      (record r { exceptions = table }, bad)

  -- The last step of `ProfileForRemoteAddr`.
  abbrev pub profile_or_default : AccessRules F → Option Bytes → Bytes × Bool
  profile_or_default r (some name) = (name, true)
  profile_or_default r none =
      if is_empty r.default_profile then ([], false) else (r.default_profile, true)

  unfoldable pub profile_for_address : AccessRules F → Bytes → Bytes × Bool
  profile_for_address r a =
      if not (r.exceptions a) && r.banned a then ([], false) else profile_or_default r (r.entries a)

  -- Without rules every client passes.
  unfoldable pub profile_for_remote_addr : Net → Option (AccessRules F) → Bytes → Bytes × Bool
  profile_for_remote_addr net none remote_addr = ([], true)
  profile_for_remote_addr net (some r) remote_addr =
      elim (net.parse_addr (remote_host net remote_addr)) [
        | none ↦ ([], false)
        | some a ↦ profile_for_address r a
      ]

  unfoldable pub find_profile : Bytes → List (Bytes × AccessProfile F) → Option (AccessProfile F)
  find_profile name [] = none
  find_profile name ((k, p) ∷ ps) =
      let rest = find_profile name ps in if k =ᵇ name then some p else rest

  -- The limits of a profile, if there is one of the name.
  unfoldable pub profile_limits :
      Option (AccessRules F) → Bytes → Option (Option ℤ × Option F × Option ℤ)
  profile_limits none name = none
  profile_limits (some r) name = elim (find_profile name r.profiles) [
    | none ↦ none
    | some p ↦ some (p.max_conns, p.rate_limit, p.rate_burst)
  ]
