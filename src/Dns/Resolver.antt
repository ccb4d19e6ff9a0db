-- ===== src/Dns/Resolver.antt =====
-- proxy/dns.go: names are resolved through a cache whose entries expire. The system's resolver, the parser
-- of addresses and the splitter of host and port are parameters. An address is its text. Times and
-- durations count nanoseconds.
use lucid_gate.Prelude.{
  ℕ, ◌+◌, Bool, ◌&&◌, not, Option, none, some, List, [], ◌∷◌, Bytes, ltb, if◌then◌else◌,
}
use lucid_gate.Text.{◌=ᵇ◌}

-- `dnsEntry`: the first address and the others.
pub record DnsEntry : Type 0 where
  pub first : Bytes
  pub others : List Bytes
  pub expires_at : ℕ

abbrev pub Cache : Type 0
Cache = List (Bytes × DnsEntry)

-- `DNSResolver`; a `ttl` of 0 stands for every one that is not positive.
pub record DnsResolver : Type 0 where
  pub cache : Cache
  pub enabled : Bool
  pub ttl : ℕ

-- `NewDNSResolver`.
unfoldable pub new_dns_resolver : Bool → ℕ → DnsResolver
new_dns_resolver enabled ttl = record { cache = []; enabled = enabled; ttl = ttl }

-- `cache.Load`; `Store` puts the new entry in front.
unfoldable pub load : Bytes → Cache → Option DnsEntry
load h [] = none
load h ((k, e) ∷ m) = if k =ᵇ h then some e else load h m

-- What a call ends with: a text, or an error.
pub data Answer : Type 0 where
  resolved : Bytes → Answer
  lookup_failed : Answer
  no_addresses : Answer

abbrev pub caches : DnsResolver → Bool
caches r = r.enabled && ltb 0 r.ttl

-- The cached entry, if it has not expired.
abbrev pub live : ℕ → Option DnsEntry → Option DnsEntry
live now none = none
live now (some e) = if ltb now e.expires_at then some e else none

abbrev pub store : DnsResolver → Bytes → ℕ → Bytes → List Bytes → DnsResolver
store r host now first others =
    if caches r
    then record r {
      cache = (host, record { first = first; others = others; expires_at = now + r.ttl }) ∷ r.cache;
    }
    else r

-- The lookup and what follows it; `none` is its error.
abbrev pub look_up : DnsResolver → Bytes → ℕ → Option (List Bytes) → DnsResolver × Answer
look_up r host now none = (r, lookup_failed)
look_up r host now (some []) = (r, no_addresses)
look_up r host now (some (ip ∷ ips)) = (store r host now ip ips, resolved ip)

abbrev pub from_cache : Option DnsEntry → DnsResolver × Answer → DnsResolver → DnsResolver × Answer
from_cache none miss r = miss
from_cache (some e) miss r = (r, resolved e.first)

-- `resolve` at the time `now`, when a lookup of the host would give `found`.
unfoldable pub resolve :
    (Bytes → Bool) → DnsResolver → Bytes → Bool → ℕ → Option (List Bytes) → DnsResolver × Answer
resolve is_ip r host force now found =
    let cached = if caches r then live now (load host r.cache) else none in
    if not (caches r) && not force
    then (r, resolved host)
    else if is_ip host
    then (r, resolved host)
    else from_cache cached (look_up r host now found) r

-- `Resolve`. A nil resolver is `none`.
unfoldable pub resolve_name :
    (Bytes → Bool)
    → Option DnsResolver
    → Bytes
    → Bool
    → ℕ
    → Option (List Bytes)
    → Option DnsResolver × Answer
resolve_name is_ip none host force now found = (none, resolved host)
resolve_name is_ip (some r) host force now found =
    let (q, a) = resolve is_ip r host force now found in (some q, a)

-- `net.SplitHostPort` and `net.JoinHostPort`.
pub record Addresses : Type 0 where
  pub split_host_port : Bytes → Option (Bytes × Bytes)
  pub join_host_port : Bytes → Bytes → Bytes

-- The address and the host that `ResolveAddrForPolicy` returns, or its error.
pub data PolicyAddress : Type 0 where
  address : Bytes → Bytes → PolicyAddress
  failed : Answer → PolicyAddress

abbrev with_port : (Bytes → Bytes) → Answer → PolicyAddress
with_port join (resolved h) = address (join h) h
with_port join lookup_failed = failed lookup_failed
with_port join no_addresses = failed no_addresses

unfoldable pub resolve_addr_for_policy :
    Addresses
    → (Bytes → Bool)
    → Option DnsResolver
    → Bytes
    → Bool
    → ℕ
    → Option (List Bytes)
    → Option DnsResolver × PolicyAddress
resolve_addr_for_policy lib is_ip r text force now found = elim (lib.split_host_port text) [
  | none ↦ let (q, a) = resolve_name is_ip r text force now found in (q, with_port (λ h. h) a)
  | some (host, port) ↦
      let (q, a) = resolve_name is_ip r host force now found in
      (q, with_port (λ h. lib.join_host_port h port) a)
]
