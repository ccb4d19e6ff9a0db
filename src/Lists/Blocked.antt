-- ===== src/Lists/Blocked.antt =====
-- Which domains the list files block.
use lucid_gate.Prelude.{
  ℕ, ◌≡◌, inl, inr, Bool, true, false, none, some, List, [], ◌∷◌, ◌++◌, Bytes, arith, refl, sym, ap,
  ◌∙◌, if◌then◌else◌, append_assoc, append-nil,
}
use lucid_gate.Text.{Unicode}
use lucid_gate.Decision.{RegexRule}
use lucid_gate.Policy.Web.{Web, path_base}
use lucid_gate.Policy.Evaluate.{PolicyConfig}
use lucid_gate.Lists.Outcome.{Texts, ListLine, Loaded, loaded, failed, Either-cases, ◌>>=◌}
use lucid_gate.Lists.Parse.{
  text_list_values, regex_list_values, domain_list_values, ip_list_values, parse_weighted_lines,
  merge_weighted_phrases, parse_download_manager_file,
}
use lucid_gate.Lists.Targets.{
  ListKind, DomainList, TextList, RegexList, AddressList, domains, texts, regexes, addresses,
  setting_texts, setting_domains, setting_addresses, setting_clients, weighted, weighted_exceptions,
  download_manager, ip_groups, time_bands, blocked, kind_of, add_domains, add_texts, add_regexes,
  add_addresses,
}
use lucid_gate.Lists.Groups.{parse_group_lines, resolve_mappings}
use lucid_gate.Lists.Loader.{FileSystem, done, >>=-eq-done, load_plain_list_file, expand_list_paths}
use lucid_gate.Lists.RulePolicy.{
  RuleConfig, Loading, apply_list, load_rule_files, load_rule_policy, finish_rules, apply_bands,
  client_list_values, no_policy, base_dir, is_nil,
}
use lucid_gate.TimeBands.Bands.{parse_e2guardian_time_bands}

-- The block list, which is also the default of the switch.
abbrev pub is_block_list : ListKind → Bool
is_block_list (domains blocked) = true
is_block_list _ = false

abbrev pub blocked_of : PolicyConfig → List Bytes
blocked_of p = p.domains.blocked

add_domains-blocked :
    (u : Unicode) (d : DomainList) (lns : List ListLine) (p : PolicyConfig)
    → blocked_of (add_domains d (domain_list_values u lns) p)
      ≡ blocked_of p ++ (if is_block_list (domains d) then domain_list_values u lns else [])
unfolding add_domains
add_domains-blocked u blocked lns p = refl
add_domains-blocked u _ lns p = sym (append-nil (blocked_of p))

add_texts-blocked :
    (t : TextList) (vs : List Bytes) (p : PolicyConfig)
    → blocked_of (add_texts t vs p) ≡ blocked_of p
unfolding add_texts
add_texts-blocked TextList.url_blocked vs p = refl
add_texts-blocked _ vs p = refl

add_regexes-blocked :
    (r : RegexList) (vs : List RegexRule) (p : PolicyConfig)
    → blocked_of (add_regexes r vs p) ≡ blocked_of p
unfolding add_regexes
add_regexes-blocked RegexList.block_sites vs p = refl
add_regexes-blocked _ vs p = refl

add_addresses-blocked :
    (a : AddressList) (vs : List Bytes) (p : PolicyConfig)
    → blocked_of (add_addresses a vs p) ≡ blocked_of p
unfolding add_addresses
add_addresses-blocked AddressList.site_ips_blocked vs p = refl
add_addresses-blocked _ vs p = refl

-- What the lines of a file add to the block list.
abbrev pub block_values : Texts → ListKind → List ListLine → List Bytes
block_values lib kind lns = if is_block_list kind then domain_list_values lib.unicode lns else []

-- A file's block list, as it is loaded.
abbrev pub file_blocks : FileSystem → Texts → ℕ → Bytes → List Bytes
file_blocks fs lib fuel path = elim (load_plain_list_file fs lib.unicode fuel path []) [
  | none ↦ []
  | some (failed e) ↦ []
  | some (loaded lns) ↦ block_values lib (kind_of (path_base path)) lns
]

abbrev pub all_blocks : FileSystem → Texts → ℕ → List Bytes → List Bytes
all_blocks fs lib fuel [] = []
all_blocks fs lib fuel (p ∷ ps) = file_blocks fs lib fuel p ++ all_blocks fs lib fuel ps

file_blocks_lem :
    (fs : FileSystem) (lib : Texts) (fuel : ℕ) (path : Bytes) (lns : List ListLine)
    → load_plain_list_file fs lib.unicode fuel path [] ≡ done lns
    → block_values lib (kind_of (path_base path)) lns ≡ file_blocks fs lib fuel path
file_blocks_lem fs lib fuel path lns e = rw (e, file_blocks) refl

kept : (bs : List Bytes) → bs ≡ bs ++ []
kept bs = sym (append-nil bs)

module _ {F : Type 0} (w : Web) (lib : Texts) where
  -- The block list of the result of a step, against the one before it.
  abbrev Adds : List Bytes → List Bytes → Loaded (Loading F) → Type 0
  Adds old new (loaded t) = blocked_of t.policy ≡ old ++ new
  Adds old new (failed e) = Unit {0}

  -- A step that leaves the block list alone.
  Adds-bind :
      {A : Type 0} (s : Loading F) (m : Loaded A) (f : A → Loaded (Loading F))
      → ((a : A) → Adds (blocked_of s.policy) [] (f a))
      → Adds (blocked_of s.policy) [] (m >>= f)
  Adds-bind s (loaded a) f h = h a
  Adds-bind s (failed e) f h = tt

  apply_list-Adds :
      (kind : ListKind) (lns : List ListLine) (s : Loading F)
      → Adds (blocked_of s.policy) (block_values lib kind lns) (apply_list w lib kind lns s)
  unfolding apply_list
  apply_list-Adds (domains d) lns s = add_domains-blocked lib.unicode d lns s.policy
  apply_list-Adds (texts t) lns s =
      add_texts-blocked t (text_list_values lns) s.policy ∙ kept (blocked_of s.policy)
  apply_list-Adds (regexes r) lns s =
      add_regexes-blocked r (regex_list_values lib lns) s.policy ∙ kept (blocked_of s.policy)
  apply_list-Adds (addresses a) lns s =
      Adds-bind s (ip_list_values w lns) _
        (λ ips. add_addresses-blocked a ips s.policy ∙ kept (blocked_of s.policy))
  apply_list-Adds (setting_texts k) lns s = kept (blocked_of s.policy)
  apply_list-Adds (setting_domains k) lns s = kept (blocked_of s.policy)
  apply_list-Adds (setting_addresses k) lns s =
      Adds-bind s (ip_list_values w lns) _ (λ x. kept (blocked_of s.policy))
  apply_list-Adds (setting_clients k) lns s =
      Adds-bind s (client_list_values w lns) _ (λ x. kept (blocked_of s.policy))
  apply_list-Adds weighted lns s = Adds-bind s (parse_weighted_lines lib lns) _ (λ parsed.
      Adds-bind s (merge_weighted_phrases s.config.semantic_weighted parsed) _
        (λ x. kept (blocked_of s.policy)))
  apply_list-Adds weighted_exceptions lns s =
      Adds-bind s (parse_weighted_lines lib lns) _ (λ parsed.
        Adds-bind s (merge_weighted_phrases s.config.semantic_weighted_exceptions parsed) _
          (λ x. kept (blocked_of s.policy)))
  apply_list-Adds download_manager lns s =
      Adds-bind s (parse_download_manager_file lib lns s.policy.files) _
        (λ x. kept (blocked_of s.policy))
  apply_list-Adds ip_groups lns s =
      Adds-bind s (parse_group_lines lib lns) _ (λ x. kept (blocked_of s.policy))
  apply_list-Adds time_bands lns s =
      Adds-bind s (parse_e2guardian_time_bands lib lns) _ (λ x. kept (blocked_of s.policy))

  load_rule_files-blocked :
      (fs : FileSystem) (fuel : ℕ) (paths : List Bytes) (s t : Loading F)
      → load_rule_files fs w lib fuel paths s ≡ done t
      → blocked_of t.policy ≡ blocked_of s.policy ++ all_blocks fs lib fuel paths
  unfolding load_rule_files
  load_rule_files-blocked fs fuel [] s t e = ground (arith, e, kept (blocked_of s.policy))
  load_rule_files-blocked fs fuel (p ∷ ps) s t e =
      let (lns, read, more) = >>=-eq-done (load_plain_list_file fs lib.unicode fuel p []) _ t e in
      let kind = kind_of (path_base p) in
      let (next, step, rest) = >>=-eq-done (some (apply_list w lib kind lns s)) _ t more in
      let one = apply_list-Adds kind lns s in
      let applied : apply_list w lib kind lns s ≡ loaded next = ground (arith, step) in
      load_rule_files-blocked fs fuel ps next t rest
      ∙ ap (λ bs. bs ++ all_blocks fs lib fuel ps) (rw applied at one)
      ∙ append_assoc (blocked_of s.policy) (block_values lib kind lns) (all_blocks fs lib fuel ps)
      ∙ ap (λ bs. blocked_of s.policy ++ (bs ++ all_blocks fs lib fuel ps))
          (file_blocks_lem fs lib fuel p lns read)

  finish_rules-blocked :
      (s : Loading F) (p : PolicyConfig) (c : RuleConfig F)
      → finish_rules w lib s ≡ loaded (p, c)
      → p ≡ s.policy
  unfolding finish_rules
  finish_rules-blocked s p c e = elim (Either-cases (apply_bands lib s)) [
    | inr (x, bad) ↦ absurd (ground arith)
    | inl (d, good) ↦
        elim (Either-cases
          (resolve_mappings w lib d.filter_groups d.ip_group_mappings d.access_profiles)) [
            | inr (x, bad) ↦ absurd (ground arith)
            | inl (ps, fine) ↦ ground (arith, good, fine, e)
          ]
  ]

  -- If the rules are loaded, the block list of the policy is the domains of the files that are named as a
  -- block list or have a name that no list has, file by file in their order; no other file adds to it.
  pub load_rule_policy-blocked :
      (fs : FileSystem) (fuel : ℕ) (c c' : RuleConfig F) (files : List Bytes) (p : PolicyConfig)
      → is_nil c.include_dirs ≡ false
      → expand_list_paths fs (base_dir fs c) c.include_dirs ≡ loaded files
      → load_rule_policy fs w lib fuel c ≡ done (p, c')
      → blocked_of p ≡ all_blocks fs lib fuel files
  unfolding load_rule_policy
  load_rule_policy-blocked fs fuel c c' files p some_dir expanded e =
      let ran = rw (some_dir, expanded) at e in
      let (s, read, more) =
        >>=-eq-done
          (load_rule_files fs w lib fuel files
            (record { policy = no_policy; config = c; bands = [] }))
          _ (p, c') ran in
      ap blocked_of (finish_rules-blocked s p c' (ground (arith, more)))
      ∙ load_rule_files-blocked fs fuel files
          (record { policy = no_policy; config = c; bands = [] }) s read
