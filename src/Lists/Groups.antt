-- ===== src/Lists/Groups.antt =====
-- rules.go: the groups of e2guardian, which put clients into access profiles.
use lucid_gate.Prelude.{
  ◌-◌, pos, negsuc, Bool, true, false, ◌||◌, Option, none, some, List, [], ◌∷◌, ◌++◌, Bytes, codes,
  ◌==◌, if◌then◌else◌, get_elem?,
}
use lucid_gate.Text.{is_empty, ◌=ᵇ◌, has_key, contains_byte}
use lucid_gate.Schedule.Rules.{cut}
use lucid_gate.Policy.Web.{Web}
use lucid_gate.Policy.Addresses.{entry_prefix}
use lucid_gate.Access.Rules.{AccessProfile}
use lucid_gate.Lists.Outcome.{
  Texts, ListLine, Fault, LoadError, Either, Loaded, loaded, failed, located, ◌>>=◌,
}
use lucid_gate.Lists.Parse.{source_of}

pub record IpGroupMapping : Type 0 where
  pub client : Bytes
  pub group : Bytes
  pub source : Bytes

-- `strings.Split(text, "=")`, if it has two parts.
unfoldable pub split_pair : Bytes → Option (Bytes × Bytes)
split_pair text = elim (cut text b'=') [
  | none ↦ none
  | some (left, right) ↦ if contains_byte right b'=' then none else some (left, right)
]

-- The body of the loop over a file `e2guardianipgroups`.
unfoldable pub parse_group_line : Texts → ListLine → Either Fault IpGroupMapping
parse_group_line lib ln = elim (split_pair ln.text) [
  | none ↦ failed Fault.no_equals
  | some (left, right) ↦
      let client = lib.trim_space left in
      let group = lib.trim_space right in
      if is_empty client || is_empty group
      then failed Fault.empty_group
      else loaded (record { client = client; group = group; source = source_of lib ln })
]

unfoldable pub parse_group_lines : Texts → List ListLine → Loaded (List IpGroupMapping)
parse_group_lines lib [] = loaded []
parse_group_lines lib (ln ∷ lns) = do
  mapping ← located ln (parse_group_line lib ln)
  rest ← parse_group_lines lib lns
  loaded (mapping ∷ rest)

-- A group that is given by its number, from 1 on.
unfoldable pub resolve_group : Texts → List Bytes → Bytes → Bytes
resolve_group lib groups name = elim (lib.scan_int name) [
  | none ↦ name
  | some (negsuc n) ↦ name
  | some (pos n) ↦ if n == 0 then name else elim (get_elem? groups (n - 1)) [
    | none ↦ codes "group" ++ lib.itoa n
    | some group ↦ group
  ]
]

abbrev pub is_client : Web → Bytes → Bool
is_client w client = elim (entry_prefix w client) [ none ↦ false | some p ↦ true ]

module _ {F : Type 0} where
  unfoldable pub add_client : Bytes → AccessProfile F → AccessProfile F
  add_client client p =
      if has_key p.clients client then p else record p { clients = p.clients ++ client ∷ [] }

  abbrev pub group_profile : Bytes → Bytes → AccessProfile F
  group_profile client group = record {
    name = group;
    clients = client ∷ [];
    default = false;
    max_conns = none;
    rate_limit = none;
    rate_burst = none;
  }

  -- The loop that finds the profile or adds it.
  unfoldable pub join_group : Bytes → Bytes → List (AccessProfile F) → List (AccessProfile F)
  join_group client group [] = group_profile client group ∷ []
  join_group client group (p ∷ ps) =
      let rest = join_group client group ps in
      if p.name =ᵇ group then add_client client p ∷ ps else p ∷ rest

  -- The loop over the mappings.
  unfoldable pub resolve_mappings :
      Web
      → Texts
      → List Bytes
      → List IpGroupMapping
      → List (AccessProfile F)
      → Loaded (List (AccessProfile F))
  resolve_mappings w lib groups [] ps = loaded ps
  resolve_mappings w lib groups (m ∷ ms) ps =
      if is_client w m.client
      then resolve_mappings w lib groups ms
          (join_group m.client (resolve_group lib groups m.group) ps)
      else failed (LoadError.at_source m.source Fault.bad_address)
