-- ===== src/Domain/Flat.antt =====
-- proxy/domain_rules.go: the compiled trie, two arrays that `buildFlat` fills depth first.
use lucid_gate.Prelude.{
  ℕ, zero, suc, ◌+◌, ◌-◌, ◌/◌, ◌%◌, ◌^◌, Bool, true, false, Option, none, some, List, [], ◌∷◌, ◌++◌,
  Bytes, ◌==◌, ltb, if◌then◌else◌, length, get_elem?, set, take, drop,
}
use lucid_gate.Text.{◌=ᵇ◌, ◌≺◌, is_empty, last_index_byte}
use lucid_gate.Domain.Builder.{BuilderNode, Children, node, nil, child}
use lucid_gate.Domain.Name.{dot}

-- `uint32(n)`.
unfoldable pub u32 : ℕ → ℕ
u32 n = n % 2 ^ 32

pub record FlatNode : Type 0 where
  pub blocked : Bool
  pub first_child : ℕ
  pub child_count : ℕ

pub record FlatTransition : Type 0 where
  pub label : Bytes
  pub node : ℕ

-- The two slices that `buildFlat` appends to.
pub record Arrays : Type 0 where
  pub nodes : List FlatNode
  pub transitions : List FlatTransition

unfoldable pub child_count : Children → ℕ
child_count nil = 0
child_count (child l n cs) = suc (child_count cs)

-- The transitions that are reserved before the children are built.
unfoldable pub reserved : Children → List FlatTransition
reserved nil = []
reserved (child l n cs) = record { label = l; node = 0 } ∷ reserved cs

-- `flatTransitions[k].node = i`; the index was reserved, so the write is in bounds.
unfoldable pub set_target : ℕ → ℕ → List FlatTransition → List FlatTransition
set_target k i ts = elim (get_elem? ts k) [ none ↦ ts | some t ↦ set ts k (record t { node = i }) ]

-- `flatNodes[i].firstChild` and `childCount`.
unfoldable pub set_range : ℕ → ℕ → ℕ → List FlatNode → List FlatNode
set_range i first count ns = elim (get_elem? ns i) [
  | none ↦ ns
  | some n ↦ set ns i (record n { first_child = first; child_count = count })
]

abbrev pub appended_node : Bool → Arrays → Arrays
appended_node b f = record f {
  nodes = f.nodes ++ record { blocked = b; first_child = 0; child_count = 0 } ∷ [];
}

-- The arrays with the node appended and the transitions to its children reserved.
abbrev pub reserve : Bool → Children → Arrays → Arrays
reserve b cs f = record (appended_node b f) { transitions = f.transitions ++ reserved cs }

unfoldable mutual
  unfolding u32 child_count reserved set_target set_range

  -- `buildFlat`: the index of the new node, and the arrays.
  pub build_flat : BuilderNode → Arrays → ℕ × Arrays
  build_flat (node b cs) f =
      let start = length f.transitions in
      let filled = build_children cs start (reserve b cs f) in
      let index = u32 (length f.nodes) in
      if child_count cs == 0 then (index, appended_node b f) else (
        index,
        record filled { nodes = set_range index (u32 start) (u32 (child_count cs)) filled.nodes },
      )

  -- The loop over the labels, from the transition `k` on.
  pub build_children : Children → ℕ → Arrays → Arrays
  build_children nil k f = f
  build_children (child l n cs) k f =
      let (i, g) = build_flat n f in
      build_children cs (suc k) (record g { transitions = set_target k i g.transitions })

-- `binarySearchTransition`. The outer `none` is an index out of range, or the end of the fuel.
unfoldable pub binary_search_transition :
    ℕ → List FlatTransition → ℕ → ℕ → Bytes → Option (Option ℕ)
unfolding u32 ◌=ᵇ◌ ◌≺◌
binary_search_transition zero ts low high label = none
binary_search_transition (suc fuel) ts low high label =
    let mid = u32 (low + (high - low) / 2) in
    let right = binary_search_transition fuel ts (u32 (mid + 1)) high label in
    let left = binary_search_transition fuel ts low mid label in
    if ltb low high
    then elim (get_elem? ts mid) [
      | none ↦ none
      | some t ↦
          if t.label =ᵇ label then some (some mid) else if t.label ≺ label then right else left
    ]
    else some none

-- `flatTransitions[foundIdx].node`, if the search found something.
abbrev pub follow : List FlatTransition → Option (Option ℕ) → Option (Option ℕ)
follow ts none = none
follow ts (some none) = some none
follow ts (some (some j)) = elim (get_elem? ts j) [ none ↦ none | some t ↦ some (some t.node) ]

-- What one round of `Match` finds for a label: `none` is a panic, and `some none` no child.
unfoldable pub step_label : Arrays → ℕ → Bytes → Option (Option ℕ)
step_label f i label = elim (get_elem? f.nodes i) [
  | none ↦ none
  | some n ↦
      if n.child_count == 0
      then some none
      else follow f.transitions (
          binary_search_transition (suc n.child_count) f.transitions n.first_child
            (u32 (n.first_child + n.child_count)) label)
]

abbrev pub blocked_at : Arrays → ℕ → Option Bool
blocked_at f i = elim (get_elem? f.nodes i) [ none ↦ none | some n ↦ some n.blocked ]

-- `label` and `end` of a round: the last piece of `host[:end]`, and what is left of it.
unfoldable pub cut_label : Bytes → Bytes × Bytes
unfolding last_index_byte
cut_label h = elim (last_index_byte h dot) [
  | none ↦ (h, [])
  | some start ↦ (drop (suc start) h, take start h)
]

-- The loop of `Match` over `host[:end]`.
unfoldable pub match_loop : ℕ → Arrays → Bytes → ℕ → Option Bool
match_loop fuel f [] i = blocked_at f i
match_loop zero f (c ∷ h) i = none
match_loop (suc fuel) f (c ∷ h) i =
    let (label, rest) = cut_label (c ∷ h) in
    let skipped = match_loop fuel f rest i in
    if is_empty label then skipped else elim (step_label f i label) [
      | none ↦ none
      | some none ↦ some false
      | some (some j) ↦ elim (blocked_at f j) [
        | none ↦ none
        | some true ↦ some true
        | some false ↦ match_loop fuel f rest j
      ]
    ]
