-- ===== src/Domain/Trie.antt =====
-- proxy/domain_rules.go: `domainTrie` with `Add`, `Compile` and `Match`, and the `DomainMatcher` of
-- proxy/matchers.go.
use lucid_gate.Prelude.{
  Bool, true, false, Option, none, some, List, [], ◌∷◌, Bytes, codes, if◌then◌else◌, length,
  reverse,
}
use lucid_gate.Text.{Unicode, is_empty, trim_prefix}
use lucid_gate.Domain.Name.{normalized_domain, normalized_domain_labels}
use lucid_gate.Domain.Builder.{BuilderNode, blocked, new_node, insert_path}
use lucid_gate.Domain.Flat.{Arrays, FlatNode, build_flat, match_loop}

pub record DomainTrie : Type 0 where
  pub builder_root : Option BuilderNode
  pub flat : Arrays
  pub flat_root_blocked : Bool
  pub compiled : Bool

abbrev pub no_arrays : Arrays
no_arrays = record { nodes = []; transitions = [] }

abbrev pub empty_trie : DomainTrie
empty_trie = record {
  builder_root = none;
  flat = no_arrays;
  flat_root_blocked = false;
  compiled = false;
}

abbrev pub root_or_new : Option BuilderNode → BuilderNode
root_or_new none = new_node
root_or_new (some n) = n

-- `Add` behind its test of the labels.
unfoldable pub add_labels : DomainTrie → List Bytes → DomainTrie
add_labels t [] = t
add_labels t (l ∷ ls) = record t {
  builder_root = some (insert_path (reverse (l ∷ ls)) (root_or_new t.builder_root));
  compiled = false;
}

unfoldable pub add : Unicode → DomainTrie → Bytes → DomainTrie
add u t domain = add_labels t (normalized_domain_labels u domain)

unfoldable pub add_all : Unicode → DomainTrie → List Bytes → DomainTrie
add_all u t [] = t
add_all u t (d ∷ ds) = add_all u (add u t d) ds

-- `Compile` behind its test of `compiled`.
unfoldable pub build : DomainTrie → Option BuilderNode → DomainTrie
build t none = record t { compiled = true }
build t (some root) = record {
  builder_root = none;
  flat = (build_flat root no_arrays).1;
  flat_root_blocked = blocked root;
  compiled = true;
}

unfoldable pub compile : DomainTrie → DomainTrie
compile t = if t.compiled then t else build t t.builder_root

abbrev pub search_nodes : DomainTrie → Bytes → List FlatNode → Option Bool
search_nodes t host [] = some false
search_nodes t host (n ∷ ns) = match_loop (length host) t.flat host 0

-- `Match` of a compiled trie. `none` is a panic.
unfoldable pub match_compiled : Unicode → DomainTrie → Bytes → Option Bool
match_compiled u t host =
    let h = normalized_domain u host in
    if is_empty h
    then some false
    else if t.flat_root_blocked
    then some true
    else search_nodes t h t.flat.nodes

-- `Match`: a trie that is not compiled is compiled first, and stays so.
unfoldable pub match : Unicode → DomainTrie → Bytes → DomainTrie × Option Bool
match u t host = (compile t, match_compiled u (compile t) host)

-- `Add` of each entry, then `Compile`.
unfoldable pub trie_of : Unicode → List Bytes → DomainTrie
trie_of u ds = compile (add_all u empty_trie ds)

abbrev pub without_star : List Bytes → List Bytes
without_star [] = []
without_star (d ∷ ds) = trim_prefix d (codes "*.") ∷ without_star ds

-- `NewDomainMatcher`: a leading `*.` is dropped.
unfoldable pub new_domain_matcher : Unicode → List Bytes → DomainTrie
new_domain_matcher u domains = trie_of u (without_star domains)
