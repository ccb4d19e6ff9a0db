-- ===== src/Lists/Membership.antt =====
-- Every client of a group mapping ends up in the profile of its group, and no client is lost.
use lucid_gate.Prelude.{
  ◌≡◌, ◌⊎◌, inl, inr, Bool, true, false, ◌||◌, ◌&&◌, List, [], ◌∷◌, ◌++◌, Bytes, arith, refl, ◌∙◌,
  if◌then◌else◌, Bool-cases, All,
}
use lucid_gate.Text.{has_key, ◌=ᵇ◌, =ᵇ_iff}
use lucid_gate.Policy.Web.{Web}
use lucid_gate.Access.Rules.{AccessProfile}
use lucid_gate.Lists.Outcome.{Texts, Fault, LoadError, loaded, failed}
use lucid_gate.TimeBands.Weeks.{Any}
use lucid_gate.Lists.Groups.{
  IpGroupMapping, resolve_group, add_client, join_group, is_client, resolve_mappings,
}

has_key-append :
    (xs ys : List Bytes) (k : Bytes) → has_key (xs ++ ys) k ≡ (has_key xs k || has_key ys k)
unfolding has_key
has_key-append [] ys k = refl
has_key-append (x ∷ xs) ys k = ground (arith, has_key-append xs ys k)

-- Some mapping names the client and the group.
abbrev pub is_mapped : Texts → List Bytes → List IpGroupMapping → Bytes → Bytes → Bool
is_mapped lib groups [] g k = false
is_mapped lib groups (m ∷ ms) g k =
    (resolve_group lib groups m.group =ᵇ g && m.client =ᵇ k) || is_mapped lib groups ms g k

module _ {F : Type 0} where
  -- The first profile of a name holds the client.
  abbrev pub holds_client : List (AccessProfile F) → Bytes → Bytes → Bool
  holds_client [] group client = false
  holds_client (p ∷ ps) group client =
      let rest = holds_client ps group client in
      if p.name =ᵇ group then has_key p.clients client else rest

  add_client-has_key :
      (c k : Bytes) (p : AccessProfile F)
      → has_key (add_client c p).clients k ≡ (has_key p.clients k || c =ᵇ k)
  unfolding add_client
  add_client-has_key c k p = elim (Bool-cases (has_key p.clients c)) [
    | inl old ↦ rw old (elim (Bool-cases (c =ᵇ k)) [
      | inl same ↦ ground (arith, old, same, (=ᵇ_iff c k).0 same)
      | inr other ↦ ground (arith, other)
    ])
    | inr new ↦ rw new (has_key-append p.clients (c ∷ []) k ∙ unfold has_key in ground arith)
  ]

  name-add_client : (c : Bytes) (p : AccessProfile F) → (add_client c p).name ≡ p.name
  unfolding add_client
  name-add_client c p = ground arith

  holds_client-join_group :
      (c g h k : Bytes) (ps : List (AccessProfile F))
      → holds_client (join_group c g ps) h k
        ≡ (if g =ᵇ h then holds_client ps h k || c =ᵇ k else holds_client ps h k)
  unfolding join_group
  holds_client-join_group c g h k [] = unfold has_key in ground arith
  holds_client-join_group c g h k (p ∷ ps) = elim (Bool-cases (p.name =ᵇ g)) [
    | inl e ↦
        rw e (ground (arith, (=ᵇ_iff p.name g).0 e, name-add_client c p, add_client-has_key c k p))
    | inr n ↦ rw n (
        ground (
          arith,
          n,
          (=ᵇ_iff p.name h).0,
          (=ᵇ_iff g h).0,
          (=ᵇ_iff p.name g).1,
          holds_client-join_group c g h k ps,
        ))
  ]

  -- If every client of the mappings is a prefix or an address, the mappings are resolved, and the profile of a
  -- group then holds exactly the clients that it held before and those that a mapping gives to the group,
  -- by its name or by its number; otherwise the rules are refused.
  pub resolve_mappings_iff :
      (w : Web) (lib : Texts) (groups : List Bytes) (ms : List IpGroupMapping)
      (ps : List (AccessProfile F))
      → (All (λ m. is_client w m.client ≡ true) ms
          × ((rs : List (AccessProfile F)) × (resolve_mappings w lib groups ms ps ≡ loaded rs)
              × ((g k : Bytes)
                  → holds_client rs g k ≡ (holds_client ps g k || is_mapped lib groups ms g k))))
        ⊎ ((e : LoadError) × (resolve_mappings w lib groups ms ps ≡ failed e)
            × Any (λ m. is_client w m.client ≡ false) ms)
  unfolding resolve_mappings
  resolve_mappings_iff w lib groups [] ps = inl (tt, (ps, refl, λ g k. ground arith))
  resolve_mappings_iff w lib groups (m ∷ ms) ps = elim (Bool-cases (is_client w m.client)) [
    | inr bad ↦ inr (LoadError.at_source m.source Fault.bad_address, rw bad refl, inl bad)
    | inl good ↦
        let name = resolve_group lib groups m.group in
        elim (resolve_mappings_iff w lib groups ms (join_group m.client name ps)) [
          | inr (e, f, any) ↦ inr (e, rw good f, inr any)
          | inl (all, (rs, f, held)) ↦ inl (
            (good, all),
            (
              rs,
              rw good f,
              λ g k. ground (arith, held g k, holds_client-join_group m.client name g k ps),
            ),
          )
        ]
  ]
