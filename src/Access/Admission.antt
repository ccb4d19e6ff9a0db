-- ===== src/Access/Admission.antt =====
-- When the profiles compile, and which clients the compiled rules let through.
use lucid_gate.Prelude.{
  ℕ, ◌+◌, ◌≤◌, ◌≡◌, ◌≢◌, ◌⊎◌, ◌↔◌, inl, inr, Bool, true, false, ◌&&◌, ◌||◌, not, Option, none, some,
  List, [], ◌∷◌, Bytes, All, arith, refl, if◌then◌else◌, Bool-cases, Option-cases,
}
use lucid_gate.Text.{is_empty}
use lucid_gate.Policy.Web.{Table}
use lucid_gate.Policy.Addresses.{entry_prefix}
use lucid_gate.Access.Rules.{
  AccessProfile, AccessRules, AccessError, Net, Built, built, refused, no_rules, insert_clients,
  add_clients, add_profile, add_profiles, new_access_rules, set_banned, set_exceptions,
  profile_or_default, profile_for_address, remote_host, profile_for_remote_addr,
}

-- A client is a prefix or an address.
abbrev pub IsClient : Net → Bytes → Type 0
IsClient net c = entry_prefix net.web c ≢ none

module _ {F : Type 0} where
  -- A profile has a name, and its clients can be read.
  abbrev pub IsProfile : Net → AccessProfile F → Type 0
  IsProfile net p = (is_empty p.name ≡ false) × All (IsClient net) p.clients

  abbrev pub count_default : List (AccessProfile F) → ℕ
  count_default [] = 0
  count_default (p ∷ ps) = (if p.default then 1 else 0) + count_default ps

  Built-cases :
      (b : Built F) → ((r : AccessRules F) × (b ≡ built r)) ⊎ ((e : AccessError) × (b ≡ refused e))
  Built-cases (built r) = inl (r, refl)
  Built-cases (refused e) = inr (e, refl)

  add_clients_ok :
      (net : Net) (name : Bytes) (cs : List Bytes) (r : AccessRules F)
      → All (IsClient net) cs
      → (s : AccessRules F) × (add_clients net name cs r ≡ built s)
        × (s.default_profile ≡ r.default_profile)
  unfolding add_clients
  add_clients_ok net name [] r h = (r, refl, refl)
  add_clients_ok net name (c ∷ cs) r h = elim (Option-cases (entry_prefix net.web c)) [
    | inl e ↦ absurd (h.0 e)
    | inr (p, e) ↦
        let (s, b, d) =
          add_clients_ok net name cs
            (record r { entries = net.insert_name (net.masked p) name r.entries }) h.1 in
        (s, ground arith, d)
  ]

  add_clients_built :
      (net : Net) (name : Bytes) (cs : List Bytes) (r s : AccessRules F)
      → add_clients net name cs r ≡ built s
      → All (IsClient net) cs × (s.default_profile ≡ r.default_profile)
  unfolding add_clients
  add_clients_built net name [] r s h = (tt, ground arith)
  add_clients_built net name (c ∷ cs) r s h = elim (Option-cases (entry_prefix net.web c)) [
    | inl e ↦ absurd (ground arith)
    | inr (p, e) ↦
        let rest =
          add_clients_built net name cs
            (record r { entries = net.insert_name (net.masked p) name r.entries }) s
            (ground arith) in
        ((λ n. cc, rest.0), rest.1)
  ]

  -- A profile goes through beside the default so far.
  abbrev Fits : Net → AccessProfile F → AccessRules F → Type 0
  Fits net p r = IsProfile net p × ((p.default && not (is_empty r.default_profile)) ≡ false)

  abbrev next_default : AccessProfile F → AccessRules F → Bytes
  next_default p r = if p.default then p.name else r.default_profile

  add_profile_ok :
      (net : Net) (p : AccessProfile F) (r : AccessRules F)
      → Fits net p r
      → (s : AccessRules F) × (add_profile net p r ≡ built s)
        × (s.default_profile ≡ next_default p r)
  unfolding add_profile
  add_profile_ok net p r ((named, clients), single) =
      rw (named, single)
        (add_clients_ok net p.name p.clients
          (record r { profiles = (p.name, p) ∷ r.profiles; default_profile = next_default p r })
          clients)

  add_profile_built :
      (net : Net) (p : AccessProfile F) (r s : AccessRules F)
      → add_profile net p r ≡ built s
      → Fits net p r × (s.default_profile ≡ next_default p r)
  unfolding add_profile
  add_profile_built net p r s h = elim (Bool-cases (is_empty p.name)) [
    | inl blank ↦ absurd (ground arith)
    | inr named ↦ elim (Bool-cases (p.default && not (is_empty r.default_profile))) [
      | inl second ↦ absurd (ground arith)
      | inr single ↦
          let rest =
            add_clients_built net p.name p.clients
              (record r { profiles = (p.name, p) ∷ r.profiles; default_profile = next_default p r })
              s (ground arith) in
          (((named, rest.0), single), rest.1)
    ]
  ]

  -- The defaults that are left to come.
  abbrev defaults_of : AccessRules F → ℕ
  defaults_of r = if is_empty r.default_profile then 0 else 1

  add_profiles_ok :
      (net : Net) (ps : List (AccessProfile F)) (r : AccessRules F)
      → All (IsProfile net) ps
      → defaults_of r + count_default ps ≤ 1
      → (s : AccessRules F) × (add_profiles net ps r ≡ built s)
  unfolding add_profiles
  add_profiles_ok net [] r h n = (r, refl)
  add_profiles_ok net (p ∷ ps) r h n =
      let (s, e, d) = add_profile_ok net p r (h.0, ground arith) in
      let (f, b) = add_profiles_ok net ps s h.1 (
        rw d (elim (Bool-cases p.default) [
          | inl y ↦ ground (arith, h.0.0)
          | inr y ↦ ground (arith, h.0.0)
        ])) in
      (f, ground arith)

  add_profiles_built :
      (net : Net) (ps : List (AccessProfile F)) (r s : AccessRules F)
      → add_profiles net ps r ≡ built s
      → All (IsProfile net) ps × (defaults_of r + count_default ps ≤ 1)
  unfolding add_profiles
  add_profiles_built net [] r s h = (tt, ground arith)
  add_profiles_built net (p ∷ ps) r s h = elim (Built-cases (add_profile net p r)) [
    | inr (x, e) ↦ absurd (ground arith)
    | inl (t, e) ↦
        let ((here, single), d) = add_profile_built net p r t e in
        let rest = add_profiles_built net ps t s (ground arith) in
        (
          (here, rest.0),
          elim (Bool-cases p.default) [ inl y ↦ ground arith | inr y ↦ ground arith ],
        )
  ]

  -- `NewAccessRules` compiles the profiles exactly if each has a name and clients that are prefixes or
  -- addresses, and at most one is the default.
  pub new_access_rules_iff :
      (net : Net) (ps : List (AccessProfile F))
      → ((r : AccessRules F) × (new_access_rules net ps ≡ built r))
        ↔ (All (IsProfile net) ps × (count_default ps ≤ 1))
  unfolding new_access_rules
  new_access_rules_iff net [] = (λ h. (tt, ground arith), λ h. (_, refl))
  new_access_rules_iff net (p ∷ ps) = (
    λ (r, e).
        let h = add_profiles_built net (p ∷ ps) no_rules r e in
        (h.0, unfold is_empty in omega (arith, h.1)),
    λ (h, n). add_profiles_ok net (p ∷ ps) no_rules h (unfold is_empty in omega arith),
  )

-- Some entry stands for a prefix that holds the address.
abbrev holds_client : Net → (Bytes → Bytes → Bool) → Option Bytes → Bytes → Bool
holds_client net holds none a = false
holds_client net holds (some p) a = holds (net.masked p) a

abbrev pub names_client : Net → (Bytes → Bytes → Bool) → List Bytes → Bytes → Bool
names_client net holds [] a = false
names_client net holds (e ∷ es) a =
    holds_client net holds (entry_prefix net.web e) a || names_client net holds es a

-- The documented behaviour of `Table.Insert`: it adds the addresses that the prefix holds.
abbrev pub Inserts : Net → (Bytes → Bytes → Bool) → Type 0
Inserts net holds = (p : Bytes) (t : Table) (a : Bytes) → net.insert p t a ≡ (holds p a || t a)

or_swap : (a b c : Bool) → (a || (b || c)) ≡ ((b || a) || c)
or_swap true true c = refl
or_swap true false c = refl
or_swap false true c = refl
or_swap false false c = refl

insert_clients_lem :
    (net : Net) (holds : Bytes → Bytes → Bool) (es : List Bytes) (t : Table) (a : Bytes)
    → Inserts net holds
    → (insert_clients net es t).1 ≡ none
    → (insert_clients net es t).0 a ≡ (names_client net holds es a || t a)
unfolding insert_clients
insert_clients_lem net holds [] t a law ok = refl
insert_clients_lem net holds (e ∷ es) t a law ok = elim (Option-cases (entry_prefix net.web e)) [
  | inl miss ↦ absurd (ground arith)
  | inr (p, hit) ↦
      let next = net.insert (net.masked p) t in
      let rest = insert_clients_lem net holds es next a law (ground arith) in
      let added = law (net.masked p) t a in
      ground
        (arith, rest, added, or_swap (names_client net holds es a) (holds (net.masked p) a) (t a))
]

abbrev pub is_listed : Option Bytes → Bool
is_listed none = false
is_listed (some name) = true

profile_or_default_lem :
    {F : Type 0} (r : AccessRules F) (name : Option Bytes)
    → (profile_or_default r name).1 ≡ (is_listed name || not (is_empty r.default_profile))
profile_or_default_lem r (some name) = refl
profile_or_default_lem r none = elim (Bool-cases (is_empty r.default_profile)) [
  | inl e ↦ rw e refl
  | inr e ↦ rw e refl
]

-- Let `SetBanned` and then `SetExceptions` accept their entries. A client whose address can be read is let
-- through exactly if an exception holds its address or no ban does, and a profile is listed for it or
-- there is a default profile.
pub profile_for_remote_addr-set :
    {F : Type 0} (net : Net) (holds : Bytes → Bytes → Bool) (r : AccessRules F)
    (bans exceptions : List Bytes) (addr a : Bytes)
    → Inserts net holds
    → (set_banned net r bans).1 ≡ none
    → (set_exceptions net (set_banned net r bans).0 exceptions).1 ≡ none
    → net.parse_addr (remote_host net addr) ≡ some a
    → (profile_for_remote_addr net
        (some (set_exceptions net (set_banned net r bans).0 exceptions).0)
        addr).1
      ≡ ((names_client net holds exceptions a || not (names_client net holds bans a))
          && (is_listed (r.entries a) || not (is_empty r.default_profile)))
unfolding profile_for_remote_addr profile_for_address set_banned set_exceptions
profile_for_remote_addr-set net holds r bans exceptions addr a law ok1 ok2 parsed =
    let banned = insert_clients_lem net holds bans (λ x. false) a law ok1 in
    let excepted = insert_clients_lem net holds exceptions (λ x. false) a law ok2 in
    let named = profile_or_default_lem r (r.entries a) in
    ground (arith, banned, excepted, parsed, named)
