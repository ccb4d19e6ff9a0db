-- ===== src/Policy/Web.antt =====
-- What proxy/policy.go takes from Go's packages net, net/http, net/url, net/netip, mime and path, and
-- from the prefix table bart. What goes by a standard of its own is a parameter.
use lucid_gate.Prelude.{
  ℕ, suc, Bool, Option, none, some, List, [], ◌∷◌, ◌++◌, Bytes, codes, ◌==◌, if◌then◌else◌, map,
  reverse, drop,
}
use lucid_gate.Text.{is_empty, ◌=ᵇ◌, last_index_byte}
use lucid_gate.Decision.{Library}

-- A parsed URL: its escaped path is `EscapedPath()`.
pub record Url : Type 0 where
  pub scheme : Bytes
  pub host : Bytes
  pub escaped_path : Bytes
  pub raw_query : Bytes

-- `bart.Table[bool]`, as `Lookup` sees it: the addresses that some prefix of the table holds.
abbrev pub Table : Type 0
Table = Bytes → Bool

-- A media type with its parameters; a parameter that is missing is empty.
pub record MediaType : Type 0 where
  pub kind : Bytes
  pub parameter : Bytes → Bytes

-- Addresses and prefixes are their texts. `parse_addr` gives the address as `Addr.String` prints it,
-- `prefix_of` is `PrefixFrom(addr, addr.BitLen())`, and `insert` is `Insert` of a table.
pub record Web : Type 0 where
  pub library : Library
  pub open library use *
  pub split_host_port : Bytes → Option (Bytes × Bytes)
  pub join_host_port : Bytes → Bytes → Bytes
  pub parse_url : Bytes → Option Url
  pub path_unescape : Bytes → Option Bytes
  pub parse_media_type : Bytes → Option MediaType
  pub canonical_header_key : Bytes → Bytes
  pub parse_addr : Bytes → Option Bytes
  pub parse_prefix : Bytes → Option Bytes
  pub prefix_of : Bytes → Bytes
  pub masked : Bytes → Bytes
  pub insert : Bytes → Table → Table

-- `http.Header`: the pairs of the map, in the order in which it is read.
abbrev pub Header : Type 0
Header = List (Bytes × List Bytes)

pub record Request : Type 0 where
  pub url : Option Url
  pub host : Bytes
  pub header : Header

pub record Response : Type 0 where
  pub header : Header
  pub request : Option Request

-- `header[key]`; a key that is missing has no values.
unfoldable pub values_of : Bytes → Header → List Bytes
values_of key [] = []
values_of key ((k, vs) ∷ h) = let rest = values_of key h in if k =ᵇ key then vs else rest

abbrev first_value : List Bytes → Bytes
first_value [] = []
first_value (v ∷ vs) = v

-- `Values`, `Get` and `Add`.
unfoldable pub header_values : Web → Header → Bytes → List Bytes
header_values w h key = values_of (w.canonical_header_key key) h

unfoldable pub header_get : Web → Header → Bytes → Bytes
header_get w h key = first_value (header_values w h key)

unfoldable pub append_value : Bytes → Bytes → Header → Header
append_value key v [] = (key, v ∷ []) ∷ []
append_value key v ((k, vs) ∷ h) =
    let rest = append_value key v h in if k =ᵇ key then (k, vs ++ v ∷ []) ∷ h else (k, vs) ∷ rest

unfoldable pub header_add : Web → Header → Bytes → Bytes → Header
header_add w h key v = append_value (w.canonical_header_key key) v h

abbrev pub forward_slash : ℕ
forward_slash = b'/'

unfoldable pub drop_slashes : Bytes → Bytes
drop_slashes [] = []
drop_slashes (c ∷ s) = let rest = drop_slashes s in if c == forward_slash then rest else c ∷ s

-- What stands behind the last slash.
abbrev after_slash : Bytes → Bytes
after_slash s = elim (last_index_byte s forward_slash) [ none ↦ s | some i ↦ drop (suc i) s ]

abbrev slash_if_empty : Bytes → Bytes
slash_if_empty [] = codes "/"
slash_if_empty (c ∷ s) = c ∷ s

-- `path.Base`.
unfoldable pub path_base : Bytes → Bytes
path_base s =
    if is_empty s
    then codes "."
    else slash_if_empty (after_slash (reverse (drop_slashes (reverse s))))

-- The loop of `filepath.Ext`, on the text reversed; `seen` is what it went past.
unfoldable pub ext_from : Bytes → Bytes → Bytes
ext_from [] seen = []
ext_from (c ∷ s) seen =
    let rest = ext_from s (c ∷ seen) in
    if c == forward_slash then [] else if c == b'.' then c ∷ seen else rest

unfoldable pub path_ext : Bytes → Bytes
path_ext s = ext_from (reverse s) []

-- `strings.ReplaceAll(s, "\\", "/")`.
unfoldable pub forward_slashes : Bytes → Bytes
forward_slashes s = map (λ c. if c == b'\\' then forward_slash else c) s

-- Each `strings.TrimSpace(strings.ToLower(s))` and `strings.ToLower(strings.TrimSpace(s))`.
abbrev pub lower_trimmed : Web → Bytes → Bytes
lower_trimmed w s = w.unicode.trim_space (w.unicode.to_lower s)

abbrev pub trimmed_lower : Web → Bytes → Bytes
trimmed_lower w s = w.unicode.to_lower (w.unicode.trim_space s)
