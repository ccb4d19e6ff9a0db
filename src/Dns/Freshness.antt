-- ===== src/Dns/Freshness.antt =====
-- Where the answers of `resolve` come from, over a sequence of calls.
use lucid_gate.Prelude.{
  ℕ, ◌+◌, ◌<◌, ◌≡◌, ◌⊎◌, inl, inr, Bool, ◌&&◌, not, Option, none, some, List, [], ◌∷◌, Bytes,
  if◌then◌else◌, arith, refl, ap, ◌∙◌, Bool-cases, Option-cases,
}
use lucid_gate.Text.{◌=ᵇ◌, =ᵇ_iff}
use lucid_gate.Dns.Resolver.{
  DnsEntry, Cache, DnsResolver, new_dns_resolver, load, Answer, resolved, lookup_failed,
  no_addresses, caches, live, store, look_up, from_cache, resolve,
}

-- One call of `resolve`: its host, whether it is forced, its time, and what a lookup gives then.
pub record Call : Type 0 where
  pub host : Bytes
  pub force : Bool
  pub now : ℕ
  pub found : Option (List Bytes)

-- The calls, the latest first, and the resolver after them.
abbrev pub after_calls : (Bytes → Bool) → DnsResolver → List Call → DnsResolver
after_calls is_ip r [] = r
after_calls is_ip r (c ∷ cs) =
    (resolve is_ip (after_calls is_ip r cs) c.host c.force c.now c.found).0

-- At some call for the host, at a time that `E` accepts, a lookup gives the address first.
abbrev pub Found : Bytes → Bytes → (ℕ → Type 0) → List Call → Type 0
Found host ip E [] = ⊥
Found host ip E (c ∷ cs) =
    ((c.host ≡ host) × ((others : List Bytes) × (c.found ≡ some (ip ∷ others))) × E c.now)
    ⊎ Found host ip E cs

-- Every entry of the cache was found at the time that its expiry says.
abbrev AreFound : ℕ → List Call → Cache → Type 0
AreFound ttl cs [] = Unit {0}
AreFound ttl cs ((k, e) ∷ m) = Found k e.first (λ t. e.expires_at ≡ t + ttl) cs × AreFound ttl cs m

AreFound-cons :
    (ttl : ℕ) (c : Call) (cs : List Call) (m : Cache) → AreFound ttl cs m → AreFound ttl (c ∷ cs) m
AreFound-cons ttl c cs [] a = tt
AreFound-cons ttl c cs ((k, e) ∷ m) a = (inr a.0, AreFound-cons ttl c cs m a.1)

-- The cache after a lookup.
module _ (r : DnsResolver) (c : Call) (cs : List Call) (a : AreFound r.ttl cs r.cache) where
  store-AreFound :
      (ip : Bytes) (ips : List Bytes)
      → c.found ≡ some (ip ∷ ips)
      → AreFound r.ttl (c ∷ cs) (store r c.host c.now ip ips).cache
  store-AreFound ip ips e = elim (Bool-cases (caches r)) [
    | inl on ↦ rw on (inl (refl, (ips, e), refl), AreFound-cons r.ttl c cs r.cache a)
    | inr off ↦ rw off (AreFound-cons r.ttl c cs r.cache a)
  ]

  look_up-AreFound :
      (found : Option (List Bytes))
      → c.found ≡ found
      → AreFound r.ttl (c ∷ cs) (look_up r c.host c.now found).0.cache
  look_up-AreFound none e = AreFound-cons r.ttl c cs r.cache a
  look_up-AreFound (some []) e = AreFound-cons r.ttl c cs r.cache a
  look_up-AreFound (some (ip ∷ ips)) e = store-AreFound ip ips e

  from_cache-AreFound :
      (e : Option DnsEntry)
      → AreFound r.ttl (c ∷ cs) (from_cache e (look_up r c.host c.now c.found) r).0.cache
  from_cache-AreFound none = look_up-AreFound c.found refl
  from_cache-AreFound (some e) = AreFound-cons r.ttl c cs r.cache a

  resolve-AreFound :
      (is_ip : Bytes → Bool)
      → AreFound r.ttl (c ∷ cs) (resolve is_ip r c.host c.force c.now c.found).0.cache
  unfolding resolve
  resolve-AreFound is_ip =
      let cached = if caches r then live c.now (load c.host r.cache) else none in
      elim (Bool-cases (not (caches r) && not c.force)) [
        | inl off ↦ rw off (AreFound-cons r.ttl c cs r.cache a)
        | inr on ↦ elim (Bool-cases (is_ip c.host)) [
          | inl ip ↦ rw (on, ip) (AreFound-cons r.ttl c cs r.cache a)
          | inr name ↦ rw (on, name) (from_cache-AreFound cached)
        ]
      ]

look_up-ttl :
    (r : DnsResolver) (host : Bytes) (now : ℕ) (found : Option (List Bytes))
    → (look_up r host now found).0.ttl ≡ r.ttl
look_up-ttl r host now none = refl
look_up-ttl r host now (some []) = refl
look_up-ttl r host now (some (ip ∷ ips)) = ground arith

resolve-ttl :
    (is_ip : Bytes → Bool) (r : DnsResolver) (host : Bytes) (force : Bool) (now : ℕ)
    (found : Option (List Bytes))
    → (resolve is_ip r host force now found).0.ttl ≡ r.ttl
unfolding resolve
resolve-ttl is_ip r host force now found = ground (arith, look_up-ttl r host now found)

after_calls-AreFound :
    (is_ip : Bytes → Bool) (enabled : Bool) (ttl : ℕ) (cs : List Call)
    → let r = after_calls is_ip (new_dns_resolver enabled ttl) cs in
      (r.ttl ≡ ttl) × AreFound r.ttl cs r.cache
unfolding new_dns_resolver
after_calls-AreFound is_ip enabled ttl [] = (refl, tt)
after_calls-AreFound is_ip enabled ttl (c ∷ cs) =
    let r = after_calls is_ip (new_dns_resolver enabled ttl) cs in
    let before = after_calls-AreFound is_ip enabled ttl cs in
    let kept = resolve-ttl is_ip r c.host c.force c.now c.found in
    (kept ∙ before.0, rw kept (resolve-AreFound r c cs before.1 is_ip))

Found-map :
    (host ip : Bytes) (E F : ℕ → Type 0) (cs : List Call)
    → ((t : ℕ) → E t → F t)
    → Found host ip E cs
    → Found host ip F cs
Found-map host ip E F [] f h = h
Found-map host ip E F (c ∷ cs) f (inl (a, b, e)) = inl (a, b, f c.now e)
Found-map host ip E F (c ∷ cs) f (inr h) = inr (Found-map host ip E F cs f h)

load-Found :
    (ttl : ℕ) (cs : List Call) (host : Bytes) (m : Cache) (e : DnsEntry)
    → AreFound ttl cs m
    → load host m ≡ some e
    → Found host e.first (λ t. e.expires_at ≡ t + ttl) cs
unfolding load
load-Found ttl cs host [] e a h = absurd (cc)
load-Found ttl cs host ((k, x) ∷ m) e a h = elim (Bool-cases (k =ᵇ host)) [
  | inl same ↦
      let it : k ≡ host = (=ᵇ_iff k host).0 same in
      let this : x ≡ e = ground arith in rw⁻¹ (it, this) a.0
  | inr other ↦ load-Found ttl cs host m e a.1 (ground arith)
]

-- What the answer of a call comes from.
abbrev pub IsFresh : Call → ℕ → List Call → Answer → Type 0
IsFresh c ttl cs lookup_failed = c.found ≡ none
IsFresh c ttl cs no_addresses = c.found ≡ some []
IsFresh c ttl cs (resolved ip) =
    (ip ≡ c.host)
    ⊎ (((others : List Bytes) × (c.found ≡ some (ip ∷ others)))
        ⊎ Found c.host ip (λ t. c.now < t + ttl) cs)

live-Found :
    (ttl : ℕ) (cs : List Call) (host : Bytes) (now : ℕ) (m : Cache) (e : DnsEntry)
    → AreFound ttl cs m
    → live now (load host m) ≡ some e
    → Found host e.first (λ t. now < t + ttl) cs
live-Found ttl cs host now m e a h = elim (Option-cases (load host m)) [
  | inl none_there ↦ absurd (ground arith)
  | inr (x, there) ↦
      let same : x ≡ e = ground arith in
      let early : now < e.expires_at = ground arith in
      Found-map host e.first (λ t. e.expires_at ≡ t + ttl) (λ t. now < t + ttl) cs
        (λ t q. omega arith) (load-Found ttl cs host m e a (there ∙ ap some same))
]

module _ (c : Call) (ttl : ℕ) (cs : List Call) (r : DnsResolver) where
  look_up-IsFresh :
      (found : Option (List Bytes))
      → c.found ≡ found
      → IsFresh c ttl cs (look_up r c.host c.now found).1
  look_up-IsFresh none e = e
  look_up-IsFresh (some []) e = e
  look_up-IsFresh (some (ip ∷ ips)) e = inr (inl (ips, e))

  from_cache-IsFresh :
      (cached : Option DnsEntry)
      → ((e : DnsEntry) → cached ≡ some e → Found c.host e.first (λ t. c.now < t + ttl) cs)
      → IsFresh c ttl cs (from_cache cached (look_up r c.host c.now c.found) r).1
  from_cache-IsFresh none h = look_up-IsFresh c.found refl
  from_cache-IsFresh (some e) h = inr (inr (h e refl))

-- After any calls of `resolve` on a new resolver, the next call answers with the host itself, with the first
-- address that a lookup gives at the call, or with the first one that a lookup of the same host gave at an
-- earlier call, less than the time to live before; it fails only if a lookup at the call fails or finds no
-- address.
pub resolve-IsFresh :
    (is_ip : Bytes → Bool) (enabled : Bool) (ttl : ℕ) (cs : List Call) (c : Call)
    → IsFresh c ttl cs
        (resolve is_ip
          (after_calls is_ip (new_dns_resolver enabled ttl) cs)
          c.host
          c.force
          c.now
          c.found).1
unfolding resolve
resolve-IsFresh is_ip enabled ttl cs c =
    let r = after_calls is_ip (new_dns_resolver enabled ttl) cs in
    let (same, a) = after_calls-AreFound is_ip enabled ttl cs in
    let cached = if caches r then live c.now (load c.host r.cache) else none in
    elim (Bool-cases (not (caches r) && not c.force)) [
      | inl off ↦ rw off (inl refl)
      | inr on ↦ elim (Bool-cases (is_ip c.host)) [
        | inl ip ↦ rw (on, ip) (inl refl)
        | inr name ↦
            rw (on, name)
              (from_cache-IsFresh c ttl cs r cached λ e h. elim (Bool-cases (caches r)) [
                | inl yes_cache ↦
                    rw⁻¹ same (live-Found r.ttl cs c.host c.now r.cache e a (ground arith))
                | inr no_cache ↦ absurd (ground arith)
              ])
      ]
    ]
