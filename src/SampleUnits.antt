-- ===== src/SampleUnits.antt =====
-- Runs of the access rules, and their theorems at concrete inputs.
use lucid_gate.Prelude.{
  ℕ, ◌≤◌, ◌≡◌, ◌≢◌, ◌↔◌, ◌&&◌, ◌||◌, not, Bool, true, none, some, List, [], ◌∷◌, Bytes, codes, pos,
  All, refl, arith,
}
use lucid_gate.Text.{is_empty, ◌=ᵇ◌}
use lucid_gate.SamplePolicy.{web}
use lucid_gate.Access.Rules.{
  AccessProfile, AccessRules, Net, built, new_access_rules, set_banned, set_exceptions,
  insert_clients, profile_for_remote_addr, no_rules,
}
use lucid_gate.Access.Admission.{
  IsProfile, count_default, names_client, is_listed, Inserts, new_access_rules_iff,
  profile_for_remote_addr-set,
}
use lucid_gate.Policy.Addresses.{entry_prefix}

abbrev net : Net
net = record { web = web; insert_name = λ p name t a. some name }

abbrev pupils : AccessProfile ℕ
pupils = record {
  name = codes "pupils";
  clients = codes "10.0.0.7" ∷ [];
  default = true;
  max_conns = some (pos 4);
  rate_limit = none;
  rate_burst = none;
}

abbrev staff : AccessProfile ℕ
staff = record {
  name = codes "staff";
  clients = [];
  default = true;
  max_conns = none;
  rate_limit = none;
  rate_burst = none;
}

new_access_rules_iff_example :
    ((r : AccessRules ℕ) × (new_access_rules net (pupils ∷ (staff ∷ [])) ≡ built r))
    ↔ (All (IsProfile net) (pupils ∷ (staff ∷ [])) × (count_default (pupils ∷ (staff ∷ [])) ≤ 1))
new_access_rules_iff_example = new_access_rules_iff net (pupils ∷ (staff ∷ []))

two_defaults : (r : AccessRules ℕ) → new_access_rules net (pupils ∷ (staff ∷ [])) ≢ built r
two_defaults r e = absurd (omega (arith, (new_access_rules_iff_example.0 (r, e)).1))

abbrev bans : List Bytes
bans = codes "10.0.0.7" ∷ (codes "10.0.0.8" ∷ [])

abbrev exempt : List Bytes
exempt = codes "10.0.0.8" ∷ []

abbrev is_same : Bytes → Bytes → Bool
is_same p a = a =ᵇ p

insert-Inserts : Inserts net is_same
insert-Inserts p t a = refl

bans-set : (set_banned net (no_rules {F = ℕ}) bans).1 ≡ none
unfolding set_banned insert_clients entry_prefix
bans-set = refl

exempt-set : (set_exceptions net (set_banned net (no_rules {F = ℕ}) bans).0 exempt).1 ≡ none
unfolding set_exceptions insert_clients entry_prefix
exempt-set = refl

profile_for_remote_addr-set_example :
    (profile_for_remote_addr net
      (some (set_exceptions net (set_banned net (no_rules {F = ℕ}) bans).0 exempt).0)
      (codes "10.0.0.8")).1
    ≡ ((names_client net is_same exempt (codes "10.0.0.8")
          || not (names_client net is_same bans (codes "10.0.0.8")))
        && (is_listed none || not (is_empty [])))
profile_for_remote_addr-set_example =
    profile_for_remote_addr-set net is_same no_rules bans exempt (codes "10.0.0.8")
      (codes "10.0.0.8") insert-Inserts bans-set exempt-set refl
